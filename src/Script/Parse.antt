-- ===== src/Script/Parse.antt =====
-- `parseNameScriptFull`, `validateScriptFormat` and the helpers that they call.
pub mod Format
pub mod Sound
pub mod Complete
use nmcd.Prelude.{ℕ, ◌+◌, ◌-◌, [], ◌∷◌, List, ltb, leb, ◌==◌, if◌then◌else◌, length}
use nmcd.Prelude.Bytes.{Bytes}
use nmcd.Result.{Result, ok, err, fail_if, map_err, ◌>>=◌, ◌>>◌}
use nmcd.Script.{
  NameOperation, name_new, name_first_update, name_update, op_name_new, op_name_first_update,
  op_name_update, op_drop, op_2drop, PushError, FormatError, missing_drop_opcodes, missing_drop,
  suffix_too_short, Parsed, Field, hash, name, rand, value, ScriptError, script_too_short,
  not_a_name_operation, failed_to_read, invalid_format,
}
use nmcd.Script.PushData.{read_push_data}
use nmcd.Slices.{index}

-- `if offset >= len(script) || script[offset] != op { return error }; offset++`
unfoldable pub expect_op : Bytes → ℕ → ℕ → Result FormatError ℕ
expect_op script op offset = do
  fail_if (leb (length script) offset) (missing_drop op offset)
  b ← index script offset
  if b == op then ok (offset + 1) else err (missing_drop op offset)

-- The switch of `validateScriptFormat`.
unfoldable pub drop_opcodes : Bytes → NameOperation → ℕ → Result FormatError ℕ
drop_opcodes script name_new offset = expect_op script op_2drop offset
drop_opcodes script name_first_update offset = do
  offset' ← expect_op script op_2drop offset
  expect_op script op_2drop offset'
drop_opcodes script name_update offset = do
  offset' ← expect_op script op_2drop offset
  expect_op script op_drop offset'

abbrev pub min_p2pkh_size : ℕ
min_p2pkh_size = 25

-- The drop opcodes leave `offset <= len(script)`, so the subtraction is the integers'.
unfoldable pub validate_script_format : Bytes → NameOperation → ℕ → Result FormatError ℕ
validate_script_format script op_type data_end_offset = do
  fail_if (leb (length script) data_end_offset) missing_drop_opcodes
  offset ← drop_opcodes script op_type data_end_offset
  let remaining_bytes = length script - offset
  fail_if (ltb remaining_bytes min_p2pkh_size) (suffix_too_short remaining_bytes)
  ok offset

unfoldable pub read_push_data_with_error : Bytes → ℕ → Field → Result ScriptError (Bytes × ℕ)
read_push_data_with_error script offset field =
    map_err (failed_to_read field) (read_push_data script offset)

unfoldable pub parse_name_value : Bytes → ℕ → Result ScriptError (Bytes × Bytes × ℕ)
parse_name_value script start_offset = do
  (name_bytes, new_offset) ← read_push_data_with_error script start_offset name
  (value_bytes, final_offset) ← read_push_data_with_error script new_offset value
  ok (name_bytes, value_bytes, final_offset)

unfoldable pub parse_name_new : Bytes → Result ScriptError (Parsed × ℕ)
parse_name_new script = do
  (hash_bytes, new_offset) ← read_push_data_with_error script 1 hash
  ok (record { op_type = name_new; name = []; value = []; extra = hash_bytes }, new_offset)

unfoldable pub parse_name_first_update : Bytes → Result ScriptError (Parsed × ℕ)
parse_name_first_update script = do
  (name_bytes, offset) ← read_push_data_with_error script 1 name
  (rand_bytes, offset') ← read_push_data_with_error script offset rand
  (value_bytes, new_offset) ← read_push_data_with_error script offset' value
  ok (
    record {
      op_type = name_first_update;
      name = name_bytes;
      value = value_bytes;
      extra = rand_bytes;
    },
    new_offset,
  )

unfoldable pub parse_name_update : Bytes → Result ScriptError (Parsed × ℕ)
parse_name_update script = do
  (name_bytes, value_bytes, data_end_offset) ← parse_name_value script 1
  ok (
    record { op_type = name_update; name = name_bytes; value = value_bytes; extra = [] },
    data_end_offset,
  )

-- The cases of the switch on `script[0]`, each with the offset behind the data.
unfoldable pub parse_data : Bytes → ℕ → Result ScriptError (Parsed × ℕ)
parse_data script opcode =
    if opcode == op_name_new
    then parse_name_new script
    else if opcode == op_name_first_update
    then parse_name_first_update script
    else if opcode == op_name_update
    then parse_name_update script
    else err not_a_name_operation

unfoldable pub parse_name_script_full : Bytes → Result ScriptError Parsed
parse_name_script_full script = do
  fail_if (ltb (length script) 2) script_too_short
  opcode ← index script 0
  (found, data_end_offset) ← parse_data script opcode
  _ ← map_err invalid_format (validate_script_format script found.op_type data_end_offset)
  ok found
