-- ===== src/NameDb.antt =====
-- The data of namedb/namedb.go: name records and unspent outputs.
pub mod Record
pub mod UtxoSet
pub mod Cache
use nmcd.Prelude.{ℕ}
use nmcd.Prelude.Bytes.{Bytes}
use nmcd.Int.{ℤ}

-- Names, values and addresses are byte strings; a transaction hash has 32 bytes. `updated_at` is the
-- time in Unix seconds: block times have no fraction of a second.
pub record NameRecord : Type 0 where
  pub name : Bytes
  pub value : Bytes
  pub tx_hash : Bytes
  pub out_index : ℕ
  pub height : ℤ
  pub expires_at : ℤ
  pub address : Bytes
  pub updated_at : ℤ
  pub name_new_height : ℤ

pub record Utxo : Type 0 where
  pub tx_hash : Bytes
  pub out_index : ℕ
  pub value : ℤ
  pub address : Bytes
  pub pk_script : Bytes
  pub height : ℤ
