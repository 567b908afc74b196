-- ===== src/Database/Utxos.antt =====
-- namedb/utxo.go: the unspent outputs with their index by address, and the backups of the spent ones.
pub mod Spending
pub mod Restored
use nmcd.Prelude.{
  ℕ, ◌∷◌, [], ◌++◌, List, Option, none, some, Bool, true, false, if◌then◌else◌, ◌==◌, length,
}
use nmcd.Prelude.Bytes.{Bytes, be_bytes}
use nmcd.Int.{ℤ, to_u32}
use nmcd.NameDb.{Utxo}
use nmcd.NameDb.UtxoSet.{
  make_utxo_key, make_utxo_address_key, make_spent_utxo_height_key, parse_spent_utxo_height_key,
  parse_address_index_key, encode_utxo, decode_utxo,
}
use nmcd.Database.{
  Bbolt, Buckets, DbError, NameDatabase, Answer, update, each, utxo_not_found, utxo_codec,
  empty_address, storing,
}
use nmcd.Database.Names.{get_name, seek}
use nmcd.Database.Expired.{with_prefix, keys_before}
use nmcd.Result.{Result, ok, err, panic, map_err, fail_if, ◌>>=◌, ◌>>◌}

module _ (B : Bbolt) where
  unfoldable pub add_utxo_tx :
      Utxo → Buckets B.Bucket → Result (DbError B.StoreError) (Unit {0} × Buckets B.Bucket)
  add_utxo_tx u b = do
    payload ← map_err utxo_codec (encode_utxo u)
    utxo' ← map_err storing (B.store (make_utxo_key u.tx_hash u.out_index) payload b.utxo)
    addr' ←
        map_err storing
          (B.store (make_utxo_address_key u.address u.tx_hash u.out_index) (1 ∷ []) b.utxo_addr)
    ok (tt, record b { utxo = utxo'; utxo_addr = addr' })

  -- `AddUTXO`
  unfoldable pub add_utxo : Utxo → NameDatabase B → Answer B (Unit {0})
  add_utxo u d = update (add_utxo_tx u) d

  unfoldable pub remove_utxo_tx :
      Bytes → ℕ → Buckets B.Bucket → Result (DbError B.StoreError) (Unit {0} × Buckets B.Bucket)
  remove_utxo_tx tx_hash out_index b = elim (B.find (make_utxo_key tx_hash out_index) b.utxo) [
    | none ↦ ok (tt, b)
    | some payload ↦ do
      u ← map_err utxo_codec (decode_utxo tx_hash out_index payload)
      addr' ←
          map_err storing (B.erase (make_utxo_address_key u.address tx_hash out_index) b.utxo_addr)
      utxo' ← map_err storing (B.erase (make_utxo_key tx_hash out_index) b.utxo)
      ok (tt, record b { utxo = utxo'; utxo_addr = addr' })
  ]

  -- `RemoveUTXO`
  unfoldable pub remove_utxo : Bytes → ℕ → NameDatabase B → Answer B (Unit {0})
  remove_utxo tx_hash out_index d = update (remove_utxo_tx tx_hash out_index) d

  -- `GetUTXO`
  unfoldable pub get_utxo : Bytes → ℕ → NameDatabase B → Result (DbError B.StoreError) Utxo
  get_utxo tx_hash out_index d = elim (B.find (make_utxo_key tx_hash out_index) d.db.utxo) [
    | none ↦ err utxo_not_found
    | some payload ↦ map_err utxo_codec (decode_utxo tx_hash out_index payload)
  ]

  -- `loadAddressIndexedUTXO`: none where the key, the output or its encoding does not fit.
  unfoldable pub load_address_indexed_utxo :
      Bytes → Bytes → B.Bucket → Result (DbError B.StoreError) (Option Utxo)
  load_address_indexed_utxo address index_key utxos =
      elim (parse_address_index_key address index_key) [
        | none ↦ ok none
        | some (tx_hash, out_index) ↦ elim (B.find (make_utxo_key tx_hash out_index) utxos) [
          | none ↦ ok none
          | some payload ↦ elim (decode_utxo tx_hash out_index payload) [
            | ok u ↦ ok (some u)
            | err e ↦ ok none
            | panic ↦ panic
          ]
        ]
      ]

  unfoldable pub load_utxos :
      Bytes → B.Bucket → List Bytes → Result (DbError B.StoreError) (List Utxo)
  load_utxos address utxos [] = ok []
  load_utxos address utxos (k ∷ keys) = do
    loaded ← load_address_indexed_utxo address k utxos
    rest ← load_utxos address utxos keys
    elim loaded [ none ↦ ok rest | some u ↦ ok (u ∷ rest) ]

  -- `GetUTXOsForAddress`
  unfoldable pub get_utxos_for_address :
      Bytes → NameDatabase B → Result (DbError B.StoreError) (List Utxo)
  get_utxos_for_address address d = do
    fail_if (length address == 0) empty_address
    load_utxos address d.db.utxo (with_prefix address (seek address (B.entries d.db.utxo_addr)))

  -- `GetNameUTXO`
  unfoldable pub get_name_utxo : Bytes → NameDatabase B → Answer B Utxo
  get_name_utxo name d =
      let (found, d') = get_name B name d in
      elim found [
        | ok r ↦ (get_utxo r.tx_hash r.out_index d', d')
        | err e ↦ (err e, d')
        | panic ↦ (panic, d')
      ]

  unfoldable pub store_spent_utxo_tx :
      Utxo → ℤ → Buckets B.Bucket → Result (DbError B.StoreError) (Unit {0} × Buckets B.Bucket)
  store_spent_utxo_tx u spent_at_height b = do
    payload ← map_err utxo_codec (encode_utxo u)
    spent' ← map_err storing (B.store (make_utxo_key u.tx_hash u.out_index) payload b.spent_utxo)
    index' ← map_err storing (
        B.store (make_spent_utxo_height_key spent_at_height u.tx_hash u.out_index) (1 ∷ [])
          b.spent_utxo_idx)
    ok (tt, record b { spent_utxo = spent'; spent_utxo_idx = index' })

  -- `StoreSpentUTXO`
  unfoldable pub store_spent_utxo : Utxo → ℤ → NameDatabase B → Answer B (Unit {0})
  store_spent_utxo u spent_at_height d = update (store_spent_utxo_tx u spent_at_height) d

  -- `putRestoredUTXO`: an output that cannot be encoded is passed over.
  unfoldable pub put_restored_utxo :
      Utxo → Buckets B.Bucket → Result (DbError B.StoreError) (Buckets B.Bucket)
  put_restored_utxo u b = elim (encode_utxo u) [
    | err e ↦ ok b
    | panic ↦ panic
    | ok payload ↦ do
      utxo' ← map_err storing (B.store (make_utxo_key u.tx_hash u.out_index) payload b.utxo)
      addr' ←
          map_err storing
            (B.store (make_utxo_address_key u.address u.tx_hash u.out_index) (1 ∷ []) b.utxo_addr)
      ok (record b { utxo = utxo'; utxo_addr = addr' })
  ]

  -- `restoreSpentUTXOEntry`: so is a key that does not parse, or a backup that is missing or does not decode.
  unfoldable pub restore_spent_utxo_entry :
      Bytes → Buckets B.Bucket → Result (DbError B.StoreError) (Buckets B.Bucket)
  restore_spent_utxo_entry index_key b = elim (parse_spent_utxo_height_key index_key) [
    | none ↦ ok b
    | some (tx_hash, out_index) ↦ elim (B.find (make_utxo_key tx_hash out_index) b.spent_utxo) [
      | none ↦ ok b
      | some payload ↦ elim (decode_utxo tx_hash out_index payload) [
        | err e ↦ ok b
        | panic ↦ panic
        | ok u ↦ put_restored_utxo u b
      ]
    ]
  ]

  -- `deleteSpentUTXOBackup`
  unfoldable pub delete_spent_utxo_backup :
      Bytes → Buckets B.Bucket → Result (DbError B.StoreError) (Buckets B.Bucket)
  delete_spent_utxo_backup index_key b = do
    spent' ← elim (parse_spent_utxo_height_key index_key) [
      | none ↦ ok b.spent_utxo
      | some (tx_hash, out_index) ↦
          map_err storing (B.erase (make_utxo_key tx_hash out_index) b.spent_utxo)
    ]
    index' ← map_err storing (B.erase index_key b.spent_utxo_idx)
    ok (record b { spent_utxo = spent'; spent_utxo_idx = index' })

  unfoldable pub restore_spent_utxo :
      Bytes → Buckets B.Bucket → Result (DbError B.StoreError) (Buckets B.Bucket)
  restore_spent_utxo index_key b = do
    b' ← restore_spent_utxo_entry index_key b
    delete_spent_utxo_backup index_key b'

  -- `RestoreSpentUTXOsForBlock`
  unfoldable pub restore_spent_utxos_for_block : ℤ → NameDatabase B → Answer B (Unit {0})
  restore_spent_utxos_for_block height d =
      let prefix = be_bytes 4 (to_u32 height) in
      update
        (λ b. do
          b' ←
              each restore_spent_utxo
                (with_prefix prefix (seek prefix (B.entries b.spent_utxo_idx))) b
          ok (tt, b'))
        d

  -- `CleanupOldSpentUTXOs`
  unfoldable pub cleanup_old_spent_utxos : ℤ → NameDatabase B → Answer B (Unit {0})
  cleanup_old_spent_utxos keep_from_height d =
      update
        (λ b. do
          b' ←
              each delete_spent_utxo_backup
                (keys_before keep_from_height (B.entries b.spent_utxo_idx)) b
          ok (tt, b'))
        d
