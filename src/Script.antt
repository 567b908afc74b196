-- ===== src/Script.antt =====
-- Name scripts: the opcodes of chain/name_script.go and wallet/wallet.go, the operation type of
-- namedb/namedb.go, and the errors that the parser reports.
pub mod PushData
pub mod Grammar
pub mod Parse
pub mod Build
pub mod Skip
use nmcd.Prelude.{ℕ}
use nmcd.Prelude.Bytes.{Bytes}

-- `NameOperation` is a uint8; the parser produces these three values only, in this order from 0.
pub data NameOperation : Type 0 where
  name_new name_first_update name_update : NameOperation

abbrev pub op_name_new : ℕ
op_name_new = 0xd0

abbrev pub op_name_first_update : ℕ
op_name_first_update = 0xd1

abbrev pub op_name_update : ℕ
op_name_update = 0xd2

abbrev pub op_push_data1 : ℕ
op_push_data1 = 0x4c

abbrev pub op_push_data2 : ℕ
op_push_data2 = 0x4d

abbrev pub op_push_data4 : ℕ
op_push_data4 = 0x4e

abbrev pub op_drop : ℕ
op_drop = 0x75

abbrev pub op_2drop : ℕ
op_2drop = 0x6d

-- The errors of `readPushData`.
pub data PushError : Type 0 where
  offset_beyond_script missing_length data_exceeds_script : PushError
  length_exceeds_maximum : ℕ → PushError
  unexpected_opcode : ℕ → ℕ → PushError

-- The errors of `validateScriptFormat`.
pub data FormatError : Type 0 where
  missing_drop_opcodes : FormatError
  missing_drop : ℕ → ℕ → FormatError
  suffix_too_short : ℕ → FormatError

pub data Field : Type 0 where
  hash name rand value : Field

-- The errors of `parseNameScriptFull`.
pub data ScriptError : Type 0 where
  script_too_short not_a_name_operation : ScriptError
  failed_to_read : Field → PushError → ScriptError
  invalid_format : FormatError → ScriptError

-- What the script holds: the operation, the name, the value and the extra data (the commitment hash
-- of a NAME_NEW, the salt of a NAME_FIRSTUPDATE).
pub record Parsed : Type 0 where
  pub op_type : NameOperation
  pub name : Bytes
  pub value : Bytes
  pub extra : Bytes
