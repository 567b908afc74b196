-- ===== src/Script/Parse/Complete.antt =====
-- From the grammar to `parseNameScriptFull` of chain/name_script.go.
use nmcd.Prelude.{
  ℕ, ◌+◌, ◌≤◌, ◌≡◌, ap, ◌∙◌, ◌++◌, length, drop, arith, append_assoc, ltb-eq-false, drop_split,
  length-append, ◌↔◌,
}
use nmcd.Prelude.Bytes.{Bytes}
use nmcd.Result.{ok, map_err}
use nmcd.Script.{ScriptError, Parsed, Field, hash, name, rand, value, failed_to_read}
use nmcd.Script.Grammar.{Push, Fields, new, first_update, update, NameScript, drop_ops}
use nmcd.Script.PushData.Reads.{read_push_data_of_Push}
use nmcd.Script.Parse.{
  read_push_data_with_error, parse_name_value, parse_name_new, parse_name_first_update,
  parse_name_update, parse_data, parse_name_script_full,
}
use nmcd.Script.Parse.Format.{validate_script_format_of_drop}
use nmcd.Script.Parse.Sound.{parse_name_script_full-NameScript}
use nmcd.Slices.{index_of_drop}

read_of_Push :
    (script : Bytes) (o : ℕ) (field : Field) {d e : Bytes} (r : Bytes)
    → Push d e
    → drop o script ≡ e ++ r
    → (read_push_data_with_error script o field ≡ ok (d, o + length e))
      × (drop (o + length e) script ≡ r)
unfolding read_push_data_with_error
read_of_Push script o field {d} {e} r p h = (
  ap (map_err (failed_to_read field)) (read_push_data_of_Push script o r p h),
  (drop_split script o e r h).1,
)

parse_data_of_Fields :
    (script : Bytes) (opcode : ℕ) {p : Parsed} {e : Bytes} (r : Bytes)
    → Fields p opcode e
    → drop 1 script ≡ e ++ r
    → (o : ℕ) × (parse_data script opcode ≡ ok (p, o)) × (drop o script ≡ r)
unfolding parse_data parse_name_new parse_name_first_update parse_name_update parse_name_value
parse_data_of_Fields script opcode r (new {h} {e} ph) split =
    let (q, t) = read_of_Push script 1 hash r ph split in (1 + length e, rw q, t)
parse_data_of_Fields script opcode r (first_update {en = en} {er = er} {ev = ev} pn pr pv) split =
    let (q1, t1) = read_of_Push script 1 name (er ++ (ev ++ r)) pn (split ∙ simp append_assoc) in
    let (q2, t2) = read_of_Push script (1 + length en) rand (ev ++ r) pr t1 in
    let (q3, t3) = read_of_Push script (1 + length en + length er) value r pv t2 in
    (1 + length en + length er + length ev, rw (q1, q2, q3), t3)
parse_data_of_Fields script opcode r (update {en = en} {ev = ev} pn pv) split =
    let (q1, t1) = read_of_Push script 1 name (ev ++ r) pn (split ∙ simp append_assoc) in
    let (q2, t2) = read_of_Push script (1 + length en) value r pv t1 in
    (1 + length en + length ev, rw (q1, q2), t2)

long_enough : (script : Bytes) {p : Parsed} → NameScript p script → 2 ≤ length script
long_enough script {p} s = rw (s.shape) (
    omega (
      arith,
      s.long,
      length-append s.pushes (drop_ops p.op_type ++ s.suffix),
      length-append (drop_ops p.op_type) s.suffix,
    ))

pub parse_name_script_full_of_NameScript :
    (script : Bytes) {p : Parsed} → NameScript p script → parse_name_script_full script ≡ ok p
unfolding parse_name_script_full
parse_name_script_full_of_NameScript script {p} s =
    let (i, t, b) = index_of_drop {E = ScriptError} script 0 s.shape in
    let (o, d, t1) =
      parse_data_of_Fields script s.opcode (drop_ops p.op_type ++ s.suffix) s.fields t in
    let (o', v, _) = validate_script_format_of_drop script p.op_type o s.suffix t1 s.long in
    rw (ltb-eq-false _ _ (long_enough script s), i, d, v)

-- The parser accepts exactly the name scripts of the grammar, with the fields that they hold. The pushes may have any length:
-- the parser sets no limit on a name or a value, so that a name of more than 255 bytes or a value of more than 1023 is accepted
-- as well.
pub parse_name_script_full-eq-ok_iff :
    (script : Bytes) (p : Parsed) → (parse_name_script_full script ≡ ok p) ↔ NameScript p script
parse_name_script_full-eq-ok_iff script p =
    (parse_name_script_full-NameScript script, parse_name_script_full_of_NameScript script)
