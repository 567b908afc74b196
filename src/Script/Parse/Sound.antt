-- ===== src/Script/Parse/Sound.antt =====
-- From `parseNameScriptFull` of chain/name_script.go to the grammar.
use nmcd.Prelude.{
  ℕ, subst, ◌≡◌, refl, ap, ◌∙◌, [], ◌∷◌, ◌++◌, length, drop, arith, ltb, Bool-cases, inl, inr,
  append_assoc, ◌==◌, ==_iff,
}
use nmcd.Prelude.Bytes.{Bytes}
use nmcd.Result.{
  Result, ok, err, panic, fail_if, map_err, Returns, Returns->>=, >>=-eq-ok, ok-injective,
}
use nmcd.Script.{
  name_update, ScriptError, Parsed, Field, script_too_short, hash, name, rand, value,
  invalid_format,
}
use nmcd.Script.Grammar.{Push, Fields, new, first_update, update, NameScript}
use nmcd.Script.PushData.Laws.{read_push_data-Push, read_push_data-Returns}
use nmcd.Script.Parse.{
  read_push_data_with_error, parse_name_value, parse_name_new, parse_name_first_update,
  parse_name_update, parse_data, parse_name_script_full, validate_script_format,
}
use nmcd.Script.Parse.Format.{validate_script_format-Returns, validate_script_format-eq-ok}
use nmcd.Slices.{index, index-eq-ok, index-Returns}

map_err-Returns {ℓ} :
    {E F : Type 0} {A : Type ℓ} (f : E → F) (r : Result E A) → Returns r → Returns (map_err f r)
map_err-Returns f (ok a) h = tt
map_err-Returns f (err e) h = tt
map_err-Returns f panic h = absurd h

map_err-eq-ok {ℓ} :
    {E F : Type 0} {A : Type ℓ} (f : E → F) (r : Result E A) {a : A} → map_err f r ≡ ok a → r ≡ ok a
map_err-eq-ok f (ok a) h = cc
map_err-eq-ok f (err e) h = cc
map_err-eq-ok f panic h = cc

read-Returns :
    (script : Bytes) (o : ℕ) (field : Field) → Returns (read_push_data_with_error script o field)
unfolding read_push_data_with_error
read-Returns script o field = map_err-Returns _ _ (read_push_data-Returns script o)

parse_name_new-Returns : (script : Bytes) → Returns (parse_name_new script)
unfolding parse_name_new
parse_name_new-Returns script = Returns->>= _ _ (read-Returns script 1 hash) λ _ _. tt

parse_name_first_update-Returns : (script : Bytes) → Returns (parse_name_first_update script)
unfolding parse_name_first_update
parse_name_first_update-Returns script = Returns->>= _ _ (read-Returns script 1 name) λ n _.
    Returns->>= _ _ (read-Returns script n.1 rand)
      λ r _. Returns->>= _ _ (read-Returns script r.1 value) λ _ _. tt

parse_name_update-Returns : (script : Bytes) → Returns (parse_name_update script)
unfolding parse_name_update parse_name_value
parse_name_update-Returns script =
    Returns->>= _ _
      (Returns->>= _ _ (read-Returns script 1 name)
        λ n _. Returns->>= _ _ (read-Returns script n.1 value) λ _ _. tt)
      λ _ _. tt

parse_data-Returns : (script : Bytes) (opcode : ℕ) → Returns (parse_data script opcode)
unfolding parse_data
parse_data-Returns script opcode = ground (
  arith,
  parse_name_new-Returns script,
  parse_name_first_update-Returns script,
  parse_name_update-Returns script,
)

-- On every byte string the parser returns: no index and no slice is out of range.
pub parse_name_script_full-Returns : (script : Bytes) → Returns (parse_name_script_full script)
unfolding parse_name_script_full
parse_name_script_full-Returns script = elim (Bool-cases (ltb (length script) 2)) [
  | inl short ↦ rw short tt
  | inr long ↦ rw long (
      Returns->>= _ _ (index-Returns ScriptError script 0 (ground arith)) λ opcode _.
        Returns->>= _ _ (parse_data-Returns script opcode) λ p _.
          Returns->>= _ _
            (map_err-Returns _ _ (validate_script_format-Returns script p.0.op_type p.1)) λ _ _. tt)
]

-- A read field: the bytes of a push, and the offset behind them.
read-Push :
    (script : Bytes) (o : ℕ) (field : Field) {x : Bytes × ℕ}
    → read_push_data_with_error script o field ≡ ok x
    → (e : Bytes) × (drop o script ≡ e ++ drop x.1 script) × Push x.0 e
unfolding read_push_data_with_error
read-Push script o field {x} h =
    let (e, split, push, _, _) =
      read_push_data-Push script o {d = x.0} {o = x.1} (map_err-eq-ok _ _ h) in
    (e, split, push)

-- What a case of the switch returned, as a statement about the pair of the data and the offset.
abbrev Found : Bytes → ℕ → Parsed × ℕ → Type 0
Found script opcode x = (e : Bytes) × (drop 1 script ≡ e ++ drop x.1 script) × Fields x.0 opcode e

parse_name_new-Found :
    (script : Bytes) {x : Parsed × ℕ} → parse_name_new script ≡ ok x → Found script 0xd0 x
unfolding parse_name_new
parse_name_new-Found script h =
    let (h1, r1, q) = >>=-eq-ok (read_push_data_with_error script 1 hash) _ h in
    let (e, split, push) = read-Push script 1 hash r1 in
    subst (Found script 0xd0) (ok-injective q) (e, split, new push)

parse_name_first_update-Found :
    (script : Bytes) {x : Parsed × ℕ} → parse_name_first_update script ≡ ok x → Found script 0xd1 x
unfolding parse_name_first_update
parse_name_first_update-Found script h =
    let (n, rn, h1) = >>=-eq-ok (read_push_data_with_error script 1 name) _ h in
    let (r, rr, h2) = >>=-eq-ok (read_push_data_with_error script n.1 rand) _ h1 in
    let (v, rv, q) = >>=-eq-ok (read_push_data_with_error script r.1 value) _ h2 in
    let (en, sn, pn) = read-Push script 1 name rn in
    let (er, sr, pr) = read-Push script n.1 rand rr in
    let (ev, sv, pv) = read-Push script r.1 value rv in
    subst (Found script 0xd1) (ok-injective q)
      (en ++ (er ++ ev), rw (sn, sr, sv) (simp append_assoc), first_update pn pr pv)

parse_name_update-Found :
    (script : Bytes) {x : Parsed × ℕ} → parse_name_update script ≡ ok x → Found script 0xd2 x
unfolding parse_name_update parse_name_value
parse_name_update-Found script h =
    let (nv, h1, q) = >>=-eq-ok (parse_name_value script 1) _ h in
    let (n, rn, h2) = >>=-eq-ok (read_push_data_with_error script 1 name) _ h1 in
    let (v, rv, q2) = >>=-eq-ok (read_push_data_with_error script n.1 value) _ h2 in
    let (en, sn, pn) = read-Push script 1 name rn in
    let (ev, sv, pv) = read-Push script n.1 value rv in
    subst (Found script 0xd2) (ok-injective q) (
      subst
        (λ t.
          Found script 0xd2
            (record { op_type = name_update; name = t.0; value = t.1; extra = [] }, t.2))
        (ok-injective q2) (en ++ ev, rw (sn, sv) (simp append_assoc), update pn pv))

Found-at :
    (script : Bytes) (opcode c : ℕ) (x : Parsed × ℕ)
    → opcode ≡ c
    → Found script c x
    → Found script opcode x
Found-at script opcode c x e f = rw e f

parse_data-Found :
    (script : Bytes) (opcode : ℕ) {x : Parsed × ℕ}
    → parse_data script opcode ≡ ok x
    → Found script opcode x
unfolding parse_data
parse_data-Found script opcode {x} h = elim (Bool-cases (opcode == 0xd0)) [
  | inl e ↦
      Found-at script opcode 0xd0 x ((==_iff _ _).0 e) (parse_name_new-Found script (ground arith))
  | inr e0 ↦ elim (Bool-cases (opcode == 0xd1)) [
    | inl e ↦
        Found-at script opcode 0xd1 x ((==_iff _ _).0 e)
          (parse_name_first_update-Found script (ground arith))
    | inr e1 ↦ elim (Bool-cases (opcode == 0xd2)) [
      | inl e ↦
          Found-at script opcode 0xd2 x ((==_iff _ _).0 e)
            (parse_name_update-Found script (ground arith))
      | inr e2 ↦ absurd (ground arith)
    ]
  ]
]

-- What the parser accepts is a name script, with the fields that it returns.
pub parse_name_script_full-NameScript :
    (script : Bytes) {p : Parsed} → parse_name_script_full script ≡ ok p → NameScript p script
unfolding parse_name_script_full
parse_name_script_full-NameScript script {p} h =
    let (_, _, h1) = >>=-eq-ok (fail_if (ltb (length script) 2) script_too_short) _ h in
    let (opcode, i, h2) = >>=-eq-ok (index script 0) _ h1 in
    let (x, d, h3) = >>=-eq-ok (parse_data script opcode) _ h2 in
    let (o, v, q) =
      >>=-eq-ok (map_err invalid_format (validate_script_format script x.0.op_type x.1)) _ h3 in
    let (e, split, fields) = parse_data-Found script opcode d in
    let (drops, long) = validate_script_format-eq-ok script x.0.op_type x.1 (map_err-eq-ok _ _ v) in
    subst (λ r. NameScript r script) (ok-injective q)
      (record {
        opcode = opcode;
        pushes = e;
        suffix = drop o script;
        fields = fields;
        long = long;
        shape = index-eq-ok script 0 i ∙ ap (◌∷◌ opcode) (split ∙ ap (◌++◌ e) drops);
      })

pub parse_name_script_full-nil : parse_name_script_full [] ≡ err script_too_short
unfolding parse_name_script_full
parse_name_script_full-nil = refl
