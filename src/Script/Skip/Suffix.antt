-- ===== src/Script/Skip/Suffix.antt =====
-- The skipping functions of chain/name_script.go on scripts of the grammar.
use nmcd.Prelude.{
  ℕ, ◌+◌, ◌-◌, ◌≡◌, ap, sym, ◌∙◌, ◌∷◌, ◌++◌, List, Option, true, length, drop, arith, ltb-eq-false,
  leb-eq-false, append_assoc, drop_split, length-drop,
}
use nmcd.Prelude.Bytes.{Bytes}
use nmcd.Result.{ok}
use nmcd.Script.{PushError, Parsed}
use nmcd.Script.Grammar.{Push, Fields, new, first_update, update, NameScript, drop_ops}
use nmcd.Script.PushData.{read_push_data}
use nmcd.Script.PushData.Reads.{read_push_data_of_Push}
use nmcd.Script.Parse.{parse_name_script_full}
use nmcd.Script.Parse.Sound.{parse_name_script_full-NameScript}
use nmcd.Script.Skip.{
  skip_push_data_fields, at_op, skip_ops, skip_name_new_prefix, skip_name_first_update_prefix,
  skip_name_update_prefix, SkipError, skip_name_script_prefix, address_of,
  extract_address_from_name_script,
}
use nmcd.Slices.{index_of_drop}

at_op_of_drop :
    (script : Bytes) (op o : ℕ) (r : Bytes)
    → drop o script ≡ op ∷ r
    → (at_op script op o ≡ ok true) × (drop (o + 1) script ≡ r)
unfolding at_op
at_op_of_drop script op o r h =
    let (i, t, b) = index_of_drop {E = PushError} script o h in (ground (arith), t)

read_of_Push :
    (script : Bytes) (o : ℕ) {d e : Bytes} (r : Bytes)
    → Push d e
    → drop o script ≡ e ++ r
    → (read_push_data script o ≡ ok (d, o + length e)) × (drop (o + length e) script ≡ r)
read_of_Push script o {d} {e} r p h =
    (read_push_data_of_Push script o r p h, (drop_split script o e r h).1)

skip_name_new_prefix_lem :
    (script : Bytes) {h e : Bytes} (r : Bytes)
    → Push h e
    → drop 1 script ≡ e ++ 0x6d ∷ r
    → (o : ℕ) × (skip_name_new_prefix script ≡ ok o) × (drop o script ≡ r)
unfolding skip_name_new_prefix skip_ops
skip_name_new_prefix_lem script {h} {e} r p split =
    let (q, t) = read_of_Push script 1 (0x6d ∷ r) p split in
    let (a, u) = at_op_of_drop script 0x6d (1 + length e) r t in (1 + length e + 1, rw (q, a), u)

skip_name_first_update_prefix_lem :
    (script : Bytes) {n en x ex v ev : Bytes} (r : Bytes)
    → Push n en
    → Push x ex
    → Push v ev
    → drop 1 script ≡ (en ++ (ex ++ ev)) ++ 0x6d ∷ 0x6d ∷ r
    → (o : ℕ) × (skip_name_first_update_prefix script ≡ ok o) × (drop o script ≡ r)
unfolding skip_name_first_update_prefix skip_push_data_fields skip_ops
skip_name_first_update_prefix_lem script {en = en} {ex = ex} {ev = ev} r pn px pv split =
    let tail : Bytes = 0x6d ∷ 0x6d ∷ r in
    let (q1, t1) = read_of_Push script 1 (ex ++ (ev ++ tail)) pn (split ∙ simp append_assoc) in
    let (q2, t2) = read_of_Push script (1 + length en) (ev ++ tail) px t1 in
    let (q3, t3) = read_of_Push script (1 + length en + length ex) tail pv t2 in
    let o = 1 + length en + length ex + length ev in
    let (a1, u1) = at_op_of_drop script 0x6d o (0x6d ∷ r) t3 in
    let (a2, u2) = at_op_of_drop script 0x6d (o + 1) r u1 in
    (o + 1 + 1, rw (q1, q2, q3, a1, a2), u2)

skip_name_update_prefix_lem :
    (script : Bytes) {n en v ev : Bytes} (r : Bytes)
    → Push n en
    → Push v ev
    → drop 1 script ≡ (en ++ ev) ++ 0x6d ∷ 0x75 ∷ r
    → (o : ℕ) × (skip_name_update_prefix script ≡ ok o) × (drop o script ≡ r)
unfolding skip_name_update_prefix skip_push_data_fields skip_ops
skip_name_update_prefix_lem script {en = en} {ev = ev} r pn pv split =
    let tail : Bytes = 0x6d ∷ 0x75 ∷ r in
    let (q1, t1) = read_of_Push script 1 (ev ++ tail) pn (split ∙ simp append_assoc) in
    let (q2, t2) = read_of_Push script (1 + length en) tail pv t1 in
    let o = 1 + length en + length ev in
    let (a1, u1) = at_op_of_drop script 0x6d o (0x75 ∷ r) t2 in
    let (a2, u2) = at_op_of_drop script 0x75 (o + 1) r u1 in (o + 1 + 1, rw (q1, q2, a1, a2), u2)

skip_of_Fields :
    (script : Bytes) (opcode : ℕ) {p : Parsed} {e : Bytes} (r : Bytes)
    → Fields p opcode e
    → script ≡ opcode ∷ (e ++ (drop_ops p.op_type ++ r))
    → (o : ℕ) × (skip_name_script_prefix script ≡ ok o) × (drop o script ≡ r)
unfolding skip_name_script_prefix
skip_of_Fields script opcode r (new p) h =
    let (i, t, _) = index_of_drop {E = SkipError} script 0 h in
    let (o, q, u) = skip_name_new_prefix_lem script r p t in (o, rw (i, q), u)
skip_of_Fields script opcode r (first_update pn px pv) h =
    let (i, t, _) = index_of_drop {E = SkipError} script 0 h in
    let (o, q, u) = skip_name_first_update_prefix_lem script r pn px pv t in (o, rw (i, q), u)
skip_of_Fields script opcode r (update pn pv) h =
    let (i, t, _) = index_of_drop {E = SkipError} script 0 h in
    let (o, q, u) = skip_name_update_prefix_lem script r pn pv t in (o, rw (i, q), u)

-- On a script that the parser accepts, the address is that of the payment script which the parser
-- found behind the drop opcodes, and the skipping never panics.
pub extract_address-suffix :
    (extract : Bytes → Option (List Bytes)) (script : Bytes) {p : Parsed}
    → parse_name_script_full script ≡ ok p
    → (s : NameScript p script) × (extract_address_from_name_script extract script
        ≡ ok (address_of extract s.suffix))
unfolding extract_address_from_name_script
extract_address-suffix extract script {p} h =
    let s = parse_name_script_full-NameScript script h in
    let (o, q, u) = skip_of_Fields script s.opcode s.suffix s.fields s.shape in
    let l : length script - o ≡ length s.suffix = sym (length-drop o script) ∙ ap length u in
    (
      s,
      rw (
        ltb-eq-false (length script) 2 (omega (arith, l, s.long)),
        q,
        leb-eq-false (length script) o (omega (arith, l, s.long)),
        u,
      ),
    )
