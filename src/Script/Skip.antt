-- ===== src/Script/Skip.antt =====
-- `skipNameScriptPrefix` and `extractAddressFromNameScript` of chain/name_script.go.
pub mod Suffix
use nmcd.Prelude.{
  ℕ, zero, suc, ◌+◌, Bool, true, false, [], ◌∷◌, List, Option, none, some, ltb, leb, ◌==◌,
  if◌then◌else◌, length, drop,
}
use nmcd.Prelude.Bytes.{Bytes}
use nmcd.Result.{Result, ok, err, panic, map_err, ◌>>=◌, ◌>>◌}
use nmcd.Script.{
  op_name_new, op_name_first_update, op_name_update, op_drop, op_2drop, PushError, ScriptError,
  failed_to_read, hash, not_a_name_operation,
}
use nmcd.Script.PushData.{read_push_data}
use nmcd.Slices.{index}

pub skip_push_data_fields : Bytes → ℕ → ℕ → Result PushError ℕ
skip_push_data_fields script offset zero = ok offset
skip_push_data_fields script offset (suc count) = do
  (_, new_offset) ← read_push_data script offset
  skip_push_data_fields script new_offset count

-- `offset < len(script) && script[offset] == op`
pub at_op : Bytes → ℕ → ℕ → Result PushError Bool
at_op script op offset = elim (ltb offset (length script)) [
  | false ↦ ok false
  | true ↦ do b ← index script offset; ok (b == op)
]

-- `for i := 0; i < count && at_op; i++ { offset++ }`
pub skip_ops : Bytes → ℕ → ℕ → ℕ → Result PushError ℕ
skip_ops script op zero offset = ok offset
skip_ops script op (suc count) offset = do
  here ← at_op script op offset
  let rest = skip_ops script op count (offset + 1)
  if here then rest else ok offset

pub skip_name_new_prefix : Bytes → Result PushError ℕ
skip_name_new_prefix script = do
  (_, offset) ← read_push_data script 1
  skip_ops script op_2drop 1 offset

pub skip_name_first_update_prefix : Bytes → Result PushError ℕ
skip_name_first_update_prefix script = do
  offset ← skip_push_data_fields script 1 3
  skip_ops script op_2drop 2 offset

pub skip_name_update_prefix : Bytes → Result PushError ℕ
skip_name_update_prefix script = do
  offset ← skip_push_data_fields script 1 2
  offset' ← skip_ops script op_2drop 1 offset
  skip_ops script op_drop 1 offset'

pub data SkipError : Type 0 where
  not_a_name_script : SkipError
  read_failed : PushError → SkipError

unfoldable pub skip_name_script_prefix : Bytes → Result SkipError ℕ
skip_name_script_prefix script = do
  opcode ← index script 0
  if opcode == op_name_new
      then map_err read_failed (skip_name_new_prefix script)
      else if opcode == op_name_first_update
      then map_err read_failed (skip_name_first_update_prefix script)
      else if opcode == op_name_update
      then map_err read_failed (skip_name_update_prefix script)
      else err not_a_name_script

-- `txscript.ExtractPkScriptAddrs` with `EncodeAddress`, for fixed chain parameters: `none` is an
-- error. It belongs to btcd.
module _ (extract_pk_script_addrs : Bytes → Option (List Bytes)) where
  first_address : Option (List Bytes) → Bytes
  first_address none = []
  first_address (some []) = []
  first_address (some (a ∷ _)) = a

  pub address_of : Bytes → Bytes
  unfolding first_address
  address_of pk_script = first_address (extract_pk_script_addrs pk_script)

  unfoldable pub address_after : Bytes → Result SkipError ℕ → Result SkipError Bytes
  address_after script (err _) = ok []
  address_after script panic = panic
  address_after script (ok offset) =
      if leb (length script) offset then ok [] else ok (address_of (drop offset script))

  unfoldable pub extract_address_from_name_script : Bytes → Result SkipError Bytes
  unfolding address_after
  extract_address_from_name_script script =
      if ltb (length script) 2 then ok [] else address_after script (skip_name_script_prefix script)
