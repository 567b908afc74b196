-- ===== src/Chain.antt =====
-- The data of chain/blockchain.go: transactions as btcd's `wire` package has them, the part of the
-- name database that the rules read, and the rules' errors.
pub mod Fees
pub mod Rules
pub mod Block
pub mod Mempool
pub mod Lookup
pub mod Subsidy
pub mod Update
pub mod Rollback
pub mod Merged
use nmcd.Prelude.{ℕ, List, Option}
use nmcd.Prelude.Bytes.{Bytes}
use nmcd.Int.{ℤ}
use nmcd.NameDb.{NameRecord, Utxo}
use nmcd.Result.{Result}

pub record OutPoint : Type 0 where
  pub hash : Bytes
  pub index : ℕ

-- The fields of `wire.TxIn` and `wire.TxOut` that the rules read; signatures are btcd's to check.
pub record TxIn : Type 0 where
  pub previous_out_point : OutPoint

pub record TxOut : Type 0 where
  pub value : ℤ
  pub pk_script : Bytes

pub record MsgTx : Type 0 where
  pub tx_in : List TxIn
  pub tx_out : List TxOut

-- `ErrNameNotFound`, and any other error of the database.
pub data DbError : Type 0 where
  name_not_found other : DbError

pub record NameNewRecord : Type 0 where
  pub commitment : Bytes
  pub height : ℤ

-- What the rules read: the name database, as it answers during one check, the variable
-- `config.UTXOTrackingStartHeight`, which a node may set to any height, and `btcutil.Hash160`.
pub record Store : Type 0 where
  pub get_name : Bytes → Result DbError NameRecord
  pub get_name_new : Bytes → Result DbError NameNewRecord
  pub get_utxo : OutPoint → Result DbError Utxo
  pub utxo_tracking_start_height : ℤ
  pub hash160 : Bytes → Bytes

-- One value for each message that the rules build.
pub data RuleError : Type 0 where
  no_inputs no_outputs missing_utxo negative_utxo_value input_overflow output_overflow : RuleError
  negative_fee fee_too_low below_dust_limit duplicate_commitment commitment_exists : RuleError
  duplicate_name name_exists name_missing name_expired no_matching_name_new : RuleError
  before_name_new too_early too_late not_spending_name name_length value_length : RuleError
  database_error unknown_height multiple_name_operations coinbase_not_allowed missing_version_bit :
      RuleError
  no_transactions excess_subsidy : RuleError
