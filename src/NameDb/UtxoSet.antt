-- ===== src/NameDb/UtxoSet.antt =====
-- namedb/utxo.go: the encoding of unspent outputs, and the keys of the buckets and of their indexes.
pub mod RoundTrip
pub mod Panics
pub mod Keys
use nmcd.Prelude.{
  ℕ, ◌+◌, ◌*◌, [], ◌∷◌, ◌++◌, ltb, leb, ◌==◌, not, if◌then◌else◌, length, arith, take, drop, Option,
  none, some,
}
use nmcd.Prelude.Bytes.{Bytes, be_bytes, be_value}
use nmcd.Int.{ℤ, pos, to_u32, to_int32, to_u64, to_int64}
use nmcd.NameDb.{Utxo}
use nmcd.NameDb.Record.{tx_hash_size}
use nmcd.Result.{Result, ok, err, fail_if, ◌>>=◌, ◌>>◌}
use nmcd.Slices.{index, slice}

-- `makeUTXOKey`; the transaction hash has 32 bytes.
unfoldable pub make_utxo_key : Bytes → ℕ → Bytes
make_utxo_key tx_hash out_index = tx_hash ++ be_bytes 4 out_index

unfoldable pub make_utxo_address_key : Bytes → Bytes → ℕ → Bytes
make_utxo_address_key address tx_hash out_index = address ++ (tx_hash ++ be_bytes 4 out_index)

unfoldable pub make_spent_utxo_height_key : ℤ → Bytes → ℕ → Bytes
make_spent_utxo_height_key height tx_hash out_index =
    be_bytes 4 (to_u32 height) ++ (tx_hash ++ be_bytes 4 out_index)

-- The slices are within the key once its length is tested; `Uint32` reads four bytes.
pub parse_spent_utxo_height_key : Bytes → Option (Bytes × ℕ)
parse_spent_utxo_height_key key =
    if ltb (length key) (4 + tx_hash_size + 4)
    then none
    else some (take tx_hash_size (drop 4 key), be_value (take 4 (drop (4 + tx_hash_size) key)))

pub parse_address_index_key : Bytes → Bytes → Option (Bytes × ℕ)
parse_address_index_key address key =
    if not (length key == length address + tx_hash_size + 4)
    then none
    else some (
      take tx_hash_size (drop (length address) key),
      be_value (take 4 (drop (length address + tx_hash_size) key)),
    )

pub data UtxoError : Type 0 where
  address_too_long script_too_long : ℕ → UtxoError
  too_short address_truncated script_truncated : UtxoError

-- value(8) + height(4) + address_len(1) + address + script_len(2) + script
unfoldable pub encode_utxo : Utxo → Result UtxoError Bytes
encode_utxo utxo = do
  fail_if (ltb 255 (length utxo.address)) (address_too_long (length utxo.address))
  fail_if (ltb 65535 (length utxo.pk_script)) (script_too_long (length utxo.pk_script))
  ok (
      be_bytes 8 (to_u64 utxo.value)
      ++ (be_bytes 4 (to_u32 utxo.height)
          ++ (length utxo.address
              ∷ (utxo.address ++ (be_bytes 2 (length utxo.pk_script) ++ utxo.pk_script)))))

unfoldable pub decode_utxo : Bytes → ℕ → Bytes → Result UtxoError Utxo
decode_utxo hash out payload = do
  fail_if (ltb (length payload) (8 + 4 + 1)) too_short
  v ← slice payload 0 8
  h ← slice payload 8 12
  addr_len ← index payload 12
  fail_if (ltb (length payload) (13 + addr_len + 2)) address_truncated
  a ← slice payload 13 (13 + addr_len)
  l ← slice payload (13 + addr_len) (13 + addr_len + 2)
  let script_len = be_value l
  fail_if (ltb (length payload) (13 + addr_len + 2 + script_len)) script_truncated
  s ← slice payload (13 + addr_len + 2) (13 + addr_len + 2 + script_len)
  ok (record {
    tx_hash = hash;
    out_index = out;
    value = to_int64 (be_value v);
    address = a;
    pk_script = s;
    height = to_int32 (be_value h);
  })
