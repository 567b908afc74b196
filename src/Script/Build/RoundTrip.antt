-- ===== src/Script/Build/RoundTrip.antt =====
-- The builders of wallet/wallet.go followed by the parser of chain/name_script.go.
use nmcd.Prelude.{
  ℕ, ◌≤◌, ◌<◌, ◌≡◌, ◌∙◌, [], ◌∷◌, ◌++◌, List, some, length, arith, append_assoc, ◌==◌,
  length-append, not,
}
use nmcd.Prelude.Bytes.{Bytes}
use nmcd.Result.{ok, fail_if}
use nmcd.Script.{name_new, name_first_update, name_update, Parsed, Field}
use nmcd.Script.Grammar.{Fields, new, first_update, update, drop_ops}
use nmcd.Script.PushData.{push_data}
use nmcd.Script.PushData.Writes.{push_data-Push}
use nmcd.Script.Parse.{parse_name_script_full}
use nmcd.Script.Parse.Complete.{parse_name_script_full_of_NameScript}
use nmcd.Script.Build.{
  BuildError, validate_name_script_params, append_p2pkh_script, append_pushes, build_name_script,
  build_name_update_script, build_name_new_script, build_name_first_update_script, hex_decode,
  or_invalid_hex,
}

abbrev p2pkh : Bytes → Bytes
p2pkh pkh = 0x76 ∷ 0xa9 ∷ 0x14 ∷ (pkh ++ 0x88 ∷ 0xac ∷ [])

append_p2pkh_script_lem :
    (script pkh : Bytes) → append_p2pkh_script script pkh ≡ script ++ p2pkh pkh
unfolding append_p2pkh_script
append_p2pkh_script_lem script pkh = simp append_assoc

length-p2pkh : (pkh : Bytes) → length pkh ≡ 20 → 25 ≤ length (p2pkh pkh)
length-p2pkh pkh h = omega (arith, length-append pkh (0x88 ∷ 0xac ∷ []))

-- A script whose pushes are those of the grammar parses to them.
parse_built :
    (p : Parsed) (opcode : ℕ) (e pkh : Bytes)
    → Fields p opcode e
    → length pkh ≡ 20
    → parse_name_script_full (append_p2pkh_script ((opcode ∷ e) ++ drop_ops p.op_type) pkh) ≡ ok p
parse_built p opcode e pkh f h = parse_name_script_full_of_NameScript _ (record {
  opcode = opcode;
  pushes = e;
  suffix = p2pkh pkh;
  fields = f;
  long = length-p2pkh pkh h;
  shape =
      append_p2pkh_script_lem _ pkh ∙ append_assoc (opcode ∷ e) (drop_ops p.op_type) (p2pkh pkh);
})

append_pushes_step :
    (script : Bytes) (l : Field) (d e : Bytes) (rest : List (Field × Bytes))
    → push_data d ≡ some e
    → append_pushes script ((l, d) ∷ rest) ≡ append_pushes (script ++ e) rest
unfolding append_pushes
append_pushes_step script l d e rest q = rw (q, append_pushes)

-- The guards of the builders, at the parameters that pass them.
length_guard :
    (x : Bytes) (e : BuildError) → length x ≡ 20 → fail_if (not (length x == 20)) e ≡ ok tt
length_guard x e h = rw h

nonempty_guard : (x : Bytes) (e : BuildError) → 0 < length x → fail_if (length x == 0) e ≡ ok tt
nonempty_guard x e h = ground arith

record IsValidParams (name value pkh : Bytes) : Type 0 where
  name_given : 0 < length name
  name_bounded : length name ≤ 255
  value_bounded : length value ≤ 520
  pkh_length : length pkh ≡ 20

validate_lem :
    (n v pkh : Bytes) → IsValidParams n v pkh → validate_name_script_params n v pkh ≡ ok tt
unfolding validate_name_script_params
validate_lem n v pkh p = ground arith

-- For a 20-byte commitment hash and a 20-byte key hash a NAME_NEW script is built, and parses back to
-- the commitment hash.
pub parse-build_name_new_script :
    (hash_bytes pkh : Bytes)
    → length hash_bytes ≡ 20
    → length pkh ≡ 20
    → (script : Bytes) × (build_name_new_script hash_bytes pkh ≡ ok script)
      × (parse_name_script_full script
          ≡ ok (record { op_type = name_new; name = []; value = []; extra = hash_bytes }))
unfolding build_name_new_script build_name_script append_pushes
parse-build_name_new_script hash_bytes pkh hh hp =
    let (e, q, push) = push_data-Push hash_bytes (omega arith) in
    (
      append_p2pkh_script ((0xd0 ∷ e) ++ 0x6d ∷ []) pkh,
      rw (
        length_guard hash_bytes _ hh,
        length_guard pkh _ hp,
        append_pushes_step _ _ hash_bytes e _ q,
      ),
      parse_built _ 0xd0 e pkh (new push) hp,
    )

-- For a name of 1 to 255 bytes, a value of at most 520 and a 20-byte key hash a NAME_UPDATE script is
-- built, and parses back to the name and the value.
pub parse-build_name_update_script :
    (n v pkh : Bytes)
    → 0 < length n
    → length n ≤ 255
    → length v ≤ 520
    → length pkh ≡ 20
    → (script : Bytes) × (build_name_update_script n v pkh ≡ ok script)
      × (parse_name_script_full script
          ≡ ok (record { op_type = name_update; name = n; value = v; extra = [] }))
unfolding build_name_update_script build_name_script append_pushes
parse-build_name_update_script n v pkh n0 n1 v1 hp =
    let (en, qn, pn) = push_data-Push n (omega arith) in
    let (ev, qv, pv) = push_data-Push v (omega arith) in
    (
      append_p2pkh_script ((0xd2 ∷ (en ++ ev)) ++ 0x6d ∷ 0x75 ∷ []) pkh,
      rw (
        validate_lem n v pkh
            (record { name_given = n0; name_bounded = n1; value_bounded = v1; pkh_length = hp }),
        append_pushes_step _ _ n en _ qn,
        append_pushes_step _ _ v ev _ qv,
      ),
      parse_built _ 0xd2 (en ++ ev) pkh (update pn pv) hp,
    )

-- For a name of 1 to 255 bytes, a value of at most 520, a 20-byte key hash and hexadecimal digits of a
-- salt, one or more, a NAME_FIRSTUPDATE script is built, and parses back to name, value and salt.
pub parse-build_name_first_update_script :
    (n rand_hex r v pkh : Bytes)
    → 0 < length n
    → length n ≤ 255
    → length v ≤ 520
    → length pkh ≡ 20
    → 0 < length rand_hex
    → hex_decode rand_hex ≡ some r
    → length r ≤ 0x7FFFFFFF
    → (script : Bytes) × (build_name_first_update_script n rand_hex v pkh ≡ ok script)
      × (parse_name_script_full script
          ≡ ok (record { op_type = name_first_update; name = n; value = v; extra = r }))
unfolding build_name_first_update_script build_name_script append_pushes or_invalid_hex
parse-build_name_first_update_script n rand_hex r v pkh n0 n1 v1 hp x0 decoded r1 =
    let (en, qn, pn) = push_data-Push n (omega arith) in
    let (er, qr, pr) = push_data-Push r r1 in
    let (ev, qv, pv) = push_data-Push v (omega arith) in
    (
      append_p2pkh_script ((0xd1 ∷ (en ++ (er ++ ev))) ++ 0x6d ∷ 0x6d ∷ []) pkh,
      rw
          (
            validate_lem n v pkh (record {
              name_given = n0;
              name_bounded = n1;
              value_bounded = v1;
              pkh_length = hp;
            }),
            nonempty_guard rand_hex _ x0,
            decoded,
            append_pushes_step _ _ n en _ qn,
            append_pushes_step _ _ r er _ qr,
            append_pushes_step _ _ v ev _ qv,
          )
          (simp append_assoc),
      parse_built _ 0xd1 (en ++ (er ++ ev)) pkh (first_update pn pr pv) hp,
    )
