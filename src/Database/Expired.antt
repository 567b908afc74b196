-- ===== src/Database/Expired.antt =====
-- namedb/namedb.go: the backups of expired names, from which a reorganisation restores them.
pub mod Restores
use nmcd.Prelude.{
  ℕ, ◌∷◌, [], ◌++◌, ◌||◌, List, Option, none, some, Bool, true, false, if◌then◌else◌, ltb, ◌==◌,
  length, take, drop, not,
}
use nmcd.Prelude.Bytes.{Bytes, be_bytes, be_value}
use nmcd.Int.{ℤ, leb_ℤ, to_u32, to_int32}
use nmcd.NameDb.{NameRecord}
use nmcd.NameDb.Record.{encode_name_record, decode_name_record}
use nmcd.NameDb.Cache
use nmcd.NameDb.Cache.{LruCache}
use nmcd.Database.{
  Bbolt, Buckets, DbError, NameDatabase, Answer, update, each, name_decode, storing,
}
use nmcd.Database.Names.{make_expiration_key, has_prefix, seek}
use nmcd.Database.History.{hashes, or_empty}
use nmcd.Result.{Result, ok, err, panic, map_err, ◌>>=◌, ◌>>◌}

unfoldable pub make_height_name_key : ℤ → Bytes → Bytes
make_height_name_key height name = be_bytes 4 (to_u32 height) ++ name

-- The keys from the one sought, as long as they have the prefix.
unfoldable pub with_prefix : Bytes → List (Bytes × Bytes) → List Bytes
with_prefix prefix [] = []
with_prefix prefix ((k, v) ∷ entries) =
    let rest = with_prefix prefix entries in if has_prefix prefix k then k ∷ rest else []

unfoldable pub keys_before : ℤ → List (Bytes × Bytes) → List Bytes
keys_before keep_from_height [] = []
keys_before keep_from_height ((k, v) ∷ entries) =
    let rest = keys_before keep_from_height entries in
    if ltb (length k) 4 || leb_ℤ keep_from_height (to_int32 (be_value (take 4 k)))
    then rest
    else k ∷ rest

module _ (B : Bbolt) where
  -- `collectKeysForHeight` and `collectKeysBeforeHeight`
  unfoldable pub collect_keys_for_height : B.Bucket → ℤ → List Bytes
  collect_keys_for_height index height =
      let prefix = be_bytes 4 (to_u32 height) in with_prefix prefix (seek prefix (B.entries index))

  unfoldable pub collect_keys_before_height : B.Bucket → ℤ → List Bytes
  collect_keys_before_height index keep_from_height = keys_before keep_from_height (B.entries index)

  -- One step of `copyHistoryRecords`
  unfoldable pub copy_history_record :
      B.Bucket → Bytes → B.Bucket → Result (DbError B.StoreError) B.Bucket
  copy_history_record from hash to = elim (B.find hash from) [
    | none ↦ ok to
    | some payload ↦ map_err storing (B.store hash payload to)
  ]

  unfoldable pub copy_history_records :
      Bytes → B.Bucket → B.Bucket → Result (DbError B.StoreError) B.Bucket
  copy_history_records tx_hash_list from to =
      each (copy_history_record from) (hashes tx_hash_list) to

  unfoldable pub backup_expired_history :
      Bytes → Bytes → Buckets B.Bucket → Result (DbError B.StoreError) (Buckets B.Bucket)
  backup_expired_history height_key name_key b =
      let tx_hash_list = or_empty (B.find name_key b.history_index) in
      if length tx_hash_list == 0 then ok b else do
        index' ← map_err storing (B.store height_key tx_hash_list b.expired_hist_idx)
        hist' ← copy_history_records tx_hash_list b.history b.expired_hist
        ok (record b { expired_hist_idx = index'; expired_hist = hist' })

  unfoldable pub store_expired_name_tx :
      NameRecord
      → ℤ
      → Buckets B.Bucket
      → Result (DbError B.StoreError) (Unit {0} × Buckets B.Bucket)
  store_expired_name_tx r expired_at_height b = do
    let height_key = make_height_name_key expired_at_height r.name
    expired' ← map_err storing (B.store height_key (encode_name_record r) b.expired_names)
    index' ← map_err storing (B.store height_key (1 ∷ []) b.expired_names_idx)
    b' ←
        backup_expired_history height_key r.name
          (record b { expired_names = expired'; expired_names_idx = index' })
    ok (tt, b')

  -- `StoreExpiredName`
  unfoldable pub store_expired_name : NameRecord → ℤ → NameDatabase B → Answer B (Unit {0})
  store_expired_name r expired_at_height d = update (store_expired_name_tx r expired_at_height) d

  -- `restoreExpiredNameRecord`: the name is empty where there is no backup.
  unfoldable pub restore_expired_name_record :
      Bytes → Buckets B.Bucket → Result (DbError B.StoreError) (Bytes × Buckets B.Bucket)
  restore_expired_name_record height_key b = elim (B.find height_key b.expired_names) [
    | none ↦ ok ([], b)
    | some payload ↦ do
      let name = drop 4 height_key
      r ← map_err name_decode (decode_name_record payload)
      names' ← map_err storing (B.store name payload b.names)
      expiration' ←
          map_err storing (B.store (make_expiration_key r.expires_at name) (1 ∷ []) b.expiration)
      ok (name, record b { names = names'; expiration = expiration' })
  ]

  -- One step of `moveHistoryRecords`, on the backup and the history.
  unfoldable pub move_history_record :
      Bytes → B.Bucket × B.Bucket → Result (DbError B.StoreError) (B.Bucket × B.Bucket)
  move_history_record hash (from, to) = elim (B.find hash from) [
    | none ↦ ok (from, to)
    | some payload ↦ do
      to' ← map_err storing (B.store hash payload to)
      from' ← map_err storing (B.erase hash from)
      ok (from', to')
  ]

  unfoldable pub restore_expired_history :
      Bytes → Bytes → Buckets B.Bucket → Result (DbError B.StoreError) (Buckets B.Bucket)
  restore_expired_history height_key name b =
      let tx_hash_list = or_empty (B.find height_key b.expired_hist_idx) in
      if length tx_hash_list == 0 then ok b else do
        index' ← map_err storing (B.store name tx_hash_list b.history_index)
        (expired', history') ←
            each move_history_record (hashes tx_hash_list) (b.expired_hist, b.history)
        expired_index' ← map_err storing (B.erase height_key b.expired_hist_idx)
        ok (record b {
          history_index = index';
          expired_hist = expired';
          history = history';
          expired_hist_idx = expired_index';
        })

  unfoldable pub delete_expired_backup :
      Bytes → Buckets B.Bucket → Result (DbError B.StoreError) (Buckets B.Bucket)
  delete_expired_backup height_key b = do
    expired' ← map_err storing (B.erase height_key b.expired_names)
    index' ← map_err storing (B.erase height_key b.expired_names_idx)
    ok (record b { expired_names = expired'; expired_names_idx = index' })

  -- The body of the loop of `RestoreExpiredNamesForBlock`, for the buckets.
  unfoldable pub restore_expired_name :
      Bytes → Buckets B.Bucket → Result (DbError B.StoreError) (Bytes × Buckets B.Bucket)
  restore_expired_name height_key b = do
    (name, b') ← restore_expired_name_record height_key b
    if length name == 0 then ok (name, b') else (do
      restored ← restore_expired_history height_key name b'
      cleaned ← delete_expired_backup height_key restored
      ok (name, cleaned))

  -- The loop. A name that is restored leaves the cache at once, whether or not the transaction succeeds.
  unfoldable pub restore_expired_names :
      List Bytes
      → Buckets B.Bucket
      → LruCache
      → Result (DbError B.StoreError) (Unit {0} × Buckets B.Bucket) × LruCache
  restore_expired_names [] b cache = (ok (tt, b), cache)
  restore_expired_names (height_key ∷ keys) b cache = elim (restore_expired_name height_key b) [
    | ok (name, b') ↦
        restore_expired_names keys b'
          (if length name == 0 then cache else (Cache.delete name cache).0)
    | err e ↦ (err e, cache)
    | panic ↦ (panic, cache)
  ]

  -- `RestoreExpiredNamesForBlock`
  unfoldable pub restore_expired_names_for_block : ℤ → NameDatabase B → Answer B (Unit {0})
  restore_expired_names_for_block height d =
      let keys = collect_keys_for_height d.db.expired_names_idx height in
      let (result, cache') = restore_expired_names keys d.db d.cache in
      update (λ b. result) (record d { cache = cache' })

  -- `deleteExpiredHistoryBackup`
  unfoldable pub delete_expired_history_backup :
      Bytes → Buckets B.Bucket → Result (DbError B.StoreError) (Buckets B.Bucket)
  delete_expired_history_backup height_key b =
      let tx_hash_list = or_empty (B.find height_key b.expired_hist_idx) in
      do
        hist' ←
            each (λ hash bucket. map_err storing (B.erase hash bucket)) (hashes tx_hash_list)
              b.expired_hist
        if length tx_hash_list == 0 then ok (record b { expired_hist = hist' }) else (do
          index' ← map_err storing (B.erase height_key b.expired_hist_idx)
          ok (record b { expired_hist = hist'; expired_hist_idx = index' }))

  unfoldable pub cleanup_expired_name :
      Bytes → Buckets B.Bucket → Result (DbError B.StoreError) (Buckets B.Bucket)
  cleanup_expired_name height_key b = do
    b' ← delete_expired_history_backup height_key b
    delete_expired_backup height_key b'

  -- `CleanupOldExpiredNames`
  unfoldable pub cleanup_old_expired_names : ℤ → NameDatabase B → Answer B (Unit {0})
  cleanup_old_expired_names keep_from_height d =
      update
        (λ b. do
          b' ←
              each cleanup_expired_name
                (collect_keys_before_height b.expired_names_idx keep_from_height) b
          ok (tt, b'))
        d
