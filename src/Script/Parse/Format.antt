-- ===== src/Script/Parse/Format.antt =====
-- `validateScriptFormat` of chain/name_script.go.
use nmcd.Prelude.{
  ℕ, ◌+◌, ◌-◌, ◌≤◌, ◌<◌, ◌≡◌, refl, ap, sym, ◌∙◌, ◌∷◌, ◌++◌, length, drop, arith, inl, inr,
  ltb-eq-false, leb-eq-false, length-drop, ==_iff,
}
use nmcd.Prelude.Bytes.{Bytes}
use nmcd.Result.{ok, Returns, Returns->>=, Result-cases, >>=-eq-ok}
use nmcd.Script.{NameOperation, name_new, name_first_update, name_update, FormatError}
use nmcd.Script.Grammar.{drop_ops}
use nmcd.Script.Parse.{expect_op, drop_opcodes, validate_script_format}
use nmcd.Slices.{index_lem, index_of_drop}

expect_op_of_drop :
    (script : Bytes) (op o : ℕ) (r : Bytes)
    → drop o script ≡ op ∷ r
    → (expect_op script op o ≡ ok (o + 1)) × (drop (o + 1) script ≡ r) × (o + 1 ≤ length script)
unfolding expect_op
expect_op_of_drop script op o r h =
    let (i, t, b) = index_of_drop {E = FormatError} script o h in
    (rw (leb-eq-false _ _ b, i, (==_iff op op).1 refl), t, omega arith)

expect_op-eq-ok :
    (script : Bytes) (op o : ℕ) {o' : ℕ}
    → expect_op script op o ≡ ok o'
    → (drop o script ≡ op ∷ drop o' script) × (o' ≡ o + 1) × (o' ≤ length script)
unfolding expect_op
expect_op-eq-ok script op o {o'} h = ground (arith, index_lem {E = FormatError} script o)

expect_op-Returns : (script : Bytes) (op o : ℕ) → Returns (expect_op script op o)
unfolding expect_op
expect_op-Returns script op o = ground (arith, index_lem {E = FormatError} script o)

drop_opcodes-eq-ok :
    (script : Bytes) (op : NameOperation) (o : ℕ) {o' : ℕ}
    → drop_opcodes script op o ≡ ok o'
    → (drop o script ≡ drop_ops op ++ drop o' script) × (o' ≤ length script)
unfolding drop_opcodes
drop_opcodes-eq-ok script name_new o h = ground (arith, expect_op-eq-ok script 0x6d o h)
drop_opcodes-eq-ok script name_first_update o h =
    let (o1, p, q) = >>=-eq-ok (expect_op script 0x6d o) _ h in
    ground (arith, expect_op-eq-ok script 0x6d o p, expect_op-eq-ok script 0x6d o1 q)
drop_opcodes-eq-ok script name_update o h =
    let (o1, p, q) = >>=-eq-ok (expect_op script 0x6d o) _ h in
    ground (arith, expect_op-eq-ok script 0x6d o p, expect_op-eq-ok script 0x75 o1 q)

drop_opcodes_of_drop :
    (script : Bytes) (op : NameOperation) (o : ℕ) (r : Bytes)
    → drop o script ≡ drop_ops op ++ r
    → (o' : ℕ) × (drop_opcodes script op o ≡ ok o')
      × (drop o' script ≡ r)
      × (o' ≤ length script)
      × (o < length script)
unfolding drop_opcodes
drop_opcodes_of_drop script name_new o r h =
    let (p, t, b) = expect_op_of_drop script 0x6d o r h in (o + 1, p, t, b, omega arith)
drop_opcodes_of_drop script name_first_update o r h =
    let (p, t, b) = expect_op_of_drop script 0x6d o (0x6d ∷ r) h in
    let (p1, t1, b1) = expect_op_of_drop script 0x6d (o + 1) r t in
    (o + 1 + 1, rw (p, p1), t1, b1, omega arith)
drop_opcodes_of_drop script name_update o r h =
    let (p, t, b) = expect_op_of_drop script 0x6d o (0x75 ∷ r) h in
    let (p1, t1, b1) = expect_op_of_drop script 0x75 (o + 1) r t in
    (o + 1 + 1, rw (p, p1), t1, b1, omega arith)

drop_opcodes-Returns :
    (script : Bytes) (op : NameOperation) (o : ℕ) → Returns (drop_opcodes script op o)
unfolding drop_opcodes
drop_opcodes-Returns script name_new o = expect_op-Returns script 0x6d o
drop_opcodes-Returns script name_first_update o =
    Returns->>= _ _ (expect_op-Returns script 0x6d o) λ o1 _. expect_op-Returns script 0x6d o1
drop_opcodes-Returns script name_update o =
    Returns->>= _ _ (expect_op-Returns script 0x6d o) λ o1 _. expect_op-Returns script 0x75 o1

pub validate_script_format-Returns :
    (script : Bytes) (op : NameOperation) (o : ℕ) → Returns (validate_script_format script op o)
unfolding validate_script_format
validate_script_format-Returns script op o = ground (arith, drop_opcodes-Returns script op o)

-- On success the drop opcodes of the operation and at least 25 bytes stand behind the data.
pub validate_script_format-eq-ok :
    (script : Bytes) (op : NameOperation) (o : ℕ) {o' : ℕ}
    → validate_script_format script op o ≡ ok o'
    → (drop o script ≡ drop_ops op ++ drop o' script) × (25 ≤ length (drop o' script))
unfolding validate_script_format
validate_script_format-eq-ok script op o {o'} h =
    elim (Result-cases (drop_opcodes script op o) (drop_opcodes-Returns script op o)) [
      | inr (x, p) ↦ absurd (ground arith)
      | inl (o1, p) ↦
          let (split, fits) = drop_opcodes-eq-ok script op o p in
          ground (arith, length-drop o1 script)
    ]

pub validate_script_format_of_drop :
    (script : Bytes) (op : NameOperation) (o : ℕ) (r : Bytes)
    → drop o script ≡ drop_ops op ++ r
    → 25 ≤ length r
    → (o' : ℕ) × (validate_script_format script op o ≡ ok o') × (drop o' script ≡ r)
unfolding validate_script_format
validate_script_format_of_drop script op o r h long =
    let (o', p, t, b, inside) = drop_opcodes_of_drop script op o r h in
    let l : length script - o' ≡ length r = sym (length-drop o' script) ∙ ap length t in
    (o', rw (leb-eq-false _ _ inside, p, l, ltb-eq-false _ _ long), t)
