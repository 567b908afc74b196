-- ===== src/Database/Batch.antt =====
-- namedb/batch.go: writes that are collected and committed in one transaction. A Go map is a list of its entries, each key once;
-- the order in which Go ranges over a map is a parameter, for each loop by its number.
pub mod Loads
pub mod Elsewhere
pub mod Cached
pub mod Committed
use nmcd.Prelude.{
  ℕ, ◌+◌, ◌∷◌, [], ◌++◌, List, Option, none, some, Bool, true, false, ◌&&◌, if◌then◌else◌, ltb, leb,
  ◌==◌, length,
}
use nmcd.Prelude.Bytes.{Bytes, bytes_eq}
use nmcd.Int.{ℤ, pos, ltb_ℤ, pos_part}
use nmcd.NameDb.{NameRecord, Utxo}
use nmcd.NameDb.UtxoSet.{make_utxo_key, make_utxo_address_key, decode_utxo}
use nmcd.NameDb.Cache
use nmcd.NameDb.Cache.{LruCache}
use nmcd.Database.{Bbolt, Buckets, DbError, NameDatabase, update, each, utxo_codec, storing}
use nmcd.Database.Names.{put_name_tx, delete_old_expiration_index, with_name}
use nmcd.Database.History.{add_history_tx}
use nmcd.Database.Commitments.{restore_name_new_tx}
use nmcd.Database.Utxos.{add_utxo_tx}
use nmcd.Result.{Result, ok, err, panic, map_err, ◌>>=◌, ◌>>◌}

-- The pending writes.
pub record BatchWriter : Type 0 where
  pub names : List (Bytes × NameRecord)
  pub deleted_names : List (Bytes × Unit {0})
  pub history : List (Bytes × NameRecord)
  pub name_news : List (Bytes × ℤ)
  pub utxos : List Utxo
  pub deleted_utxos : List (Bytes × ℕ)
  pub batch_size : ℕ
  pub max_batch_size : ℕ

unfoldable pub new_batch_writer : ℤ → BatchWriter
new_batch_writer max_batch_size = record {
  names = [];
  deleted_names = [];
  history = [];
  name_news = [];
  utxos = [];
  deleted_utxos = [];
  batch_size = 0;
  max_batch_size = (if ltb_ℤ max_batch_size (pos 0) then 100 else pos_part max_batch_size);
}

-- `delete(m, k)` and `m[k] = v`
unfoldable pub without_key : {A : Type 0} → Bytes → List (Bytes × A) → List (Bytes × A)
without_key k [] = []
without_key k ((j, v) ∷ m) =
    let kept = without_key k m in if bytes_eq k j then kept else (j, v) ∷ kept

unfoldable pub with_key : {A : Type 0} → Bytes → A → List (Bytes × A) → List (Bytes × A)
with_key k v m = (k, v) ∷ without_key k m

-- `clear`; the limit stays.
unfoldable pub clear : BatchWriter → BatchWriter
clear bw = record {
  names = [];
  deleted_names = [];
  history = [];
  name_news = [];
  utxos = [];
  deleted_utxos = [];
  batch_size = 0;
  max_batch_size = bw.max_batch_size;
}

abbrev pub size : BatchWriter → ℕ
size bw = bw.batch_size

module _ (B : Bbolt) (in_range_order : ℕ → (A : Type 0) → List (Bytes × A) → List (Bytes × A)) where
  -- A body that is the one of a single write's transaction.
  abbrev pub buckets_after :
      Result (DbError B.StoreError) (Unit {0} × Buckets B.Bucket)
      → Result (DbError B.StoreError) (Buckets B.Bucket)
  buckets_after (ok (u, b)) = ok b
  buckets_after (err e) = err e
  buckets_after panic = panic

  unfoldable pub write_name :
      Bytes × NameRecord → Buckets B.Bucket → Result (DbError B.StoreError) (Buckets B.Bucket)
  write_name (name, r) b = buckets_after (put_name_tx B name r b)

  -- `writeNames`
  unfoldable pub write_names :
      BatchWriter → Buckets B.Bucket → Result (DbError B.StoreError) (Buckets B.Bucket)
  write_names bw b = each write_name (in_range_order 0 _ bw.names) b

  -- A record that does not decode is an error here, other than in `DeleteName`.
  unfoldable pub write_deleted_name :
      Bytes × Unit {0} → Buckets B.Bucket → Result (DbError B.StoreError) (Buckets B.Bucket)
  write_deleted_name (name, u) b = do
    expiration' ← delete_old_expiration_index B b.names b.expiration name
    names' ← map_err storing (B.erase name b.names)
    ok (record b { names = names'; expiration = expiration' })

  -- `deleteNames`
  unfoldable pub delete_names :
      BatchWriter → Buckets B.Bucket → Result (DbError B.StoreError) (Buckets B.Bucket)
  delete_names bw b = each write_deleted_name (in_range_order 1 _ bw.deleted_names) b

  -- `writeHistory`
  unfoldable pub write_history :
      BatchWriter → Buckets B.Bucket → Result (DbError B.StoreError) (Buckets B.Bucket)
  write_history bw b =
      each (λ entry b'. buckets_after (add_history_tx B entry.0 entry.1 b'))
        (in_range_order 2 _ bw.history) b

  -- `writeNameNews`: a commitment that is stored is overwritten.
  unfoldable pub write_name_news :
      BatchWriter → Buckets B.Bucket → Result (DbError B.StoreError) (Buckets B.Bucket)
  write_name_news bw b =
      each (λ entry b'. buckets_after (restore_name_new_tx B entry.0 entry.1 b'))
        (in_range_order 3 _ bw.name_news) b

  -- `writeUTXOs`
  unfoldable pub write_utxos :
      BatchWriter → Buckets B.Bucket → Result (DbError B.StoreError) (Buckets B.Bucket)
  write_utxos bw b = each (λ u b'. buckets_after (add_utxo_tx B u b')) bw.utxos b

  -- `removeUTXOFromAddressIndex`
  unfoldable pub remove_utxo_from_address_index :
      Bytes → ℕ → Buckets B.Bucket → Result (DbError B.StoreError) (Buckets B.Bucket)
  remove_utxo_from_address_index tx_hash out_index b =
      elim (B.find (make_utxo_key tx_hash out_index) b.utxo) [
        | none ↦ ok b
        | some payload ↦ do
          u ← map_err utxo_codec (decode_utxo tx_hash out_index payload)
          addr' ←
              map_err storing
                (B.erase (make_utxo_address_key u.address tx_hash out_index) b.utxo_addr)
          ok (record b { utxo_addr = addr' })
      ]

  unfoldable pub write_deleted_utxo :
      Bytes × ℕ → Buckets B.Bucket → Result (DbError B.StoreError) (Buckets B.Bucket)
  write_deleted_utxo (tx_hash, out_index) b = do
    b' ← remove_utxo_from_address_index tx_hash out_index b
    utxo' ← map_err storing (B.erase (make_utxo_key tx_hash out_index) b'.utxo)
    ok (record b' { utxo = utxo' })

  -- `deleteUTXOs`
  unfoldable pub delete_utxos :
      BatchWriter → Buckets B.Bucket → Result (DbError B.StoreError) (Buckets B.Bucket)
  delete_utxos bw b = each write_deleted_utxo bw.deleted_utxos b

  -- `applyWrites`
  unfoldable pub apply_writes :
      BatchWriter → Buckets B.Bucket → Result (DbError B.StoreError) (Unit {0} × Buckets B.Bucket)
  apply_writes bw b = do
    b1 ← write_names bw b
    b2 ← delete_names bw b1
    b3 ← write_history bw b2
    b4 ← write_name_news bw b3
    b5 ← write_utxos bw b4
    b6 ← delete_utxos bw b5
    ok (tt, b6)

  unfoldable pub cache_names : List (Bytes × NameRecord) → LruCache → LruCache
  cache_names [] cache = cache
  cache_names ((name, r) ∷ names) cache =
      cache_names names (Cache.put name (with_name name r) cache).0

  unfoldable pub uncache_names : List (Bytes × Unit {0}) → LruCache → LruCache
  uncache_names [] cache = cache
  uncache_names ((name, u) ∷ names) cache = uncache_names names (Cache.delete name cache).0

  -- `updateCache`
  unfoldable pub update_cache : BatchWriter → LruCache → LruCache
  update_cache bw cache =
      uncache_names (in_range_order 4 _ bw.deleted_names)
        (cache_names (in_range_order 5 _ bw.names) cache)

  -- A batch over its database.
  abbrev pub BatchAnswer : Type 0
  BatchAnswer = Result (DbError B.StoreError) (Unit {0}) × (BatchWriter × NameDatabase B)

  -- What `Commit` does where there are writes: they stay pending after an error.
  abbrev pub committed :
      BatchWriter → Result (DbError B.StoreError) (Unit {0}) × NameDatabase B → BatchAnswer
  committed bw (ok u, d) = (ok u, (clear bw, record d { cache = update_cache bw d.cache }))
  committed bw (err e, d) = (err e, (bw, d))
  committed bw (panic, d) = (panic, (bw, d))

  -- `Commit`
  unfoldable pub commit : BatchWriter → NameDatabase B → BatchAnswer
  commit bw d =
      if bw.batch_size == 0 then (ok tt, (bw, d)) else committed bw (update (apply_writes bw) d)

  -- `autoCommitIfNeeded`
  unfoldable pub auto_commit_if_needed : BatchWriter → NameDatabase B → BatchAnswer
  auto_commit_if_needed bw d =
      if ltb 0 bw.max_batch_size && leb bw.max_batch_size bw.batch_size
      then commit bw d
      else (ok tt, (bw, d))

  -- `PutName`, `DeleteName`, `AddHistory`, `PutNameNew`, `AddUTXO` and `RemoveUTXO`
  unfoldable pub batch_put_name : Bytes → NameRecord → BatchWriter → NameDatabase B → BatchAnswer
  batch_put_name name r bw d =
      auto_commit_if_needed
        (record bw {
          names = with_key name r bw.names;
          deleted_names = without_key name bw.deleted_names;
          batch_size = bw.batch_size + 1;
        })
        d

  unfoldable pub batch_delete_name : Bytes → BatchWriter → NameDatabase B → BatchAnswer
  batch_delete_name name bw d =
      auto_commit_if_needed
        (record bw {
          deleted_names = with_key name tt bw.deleted_names;
          names = without_key name bw.names;
          batch_size = bw.batch_size + 1;
        })
        d

  unfoldable pub batch_add_history : Bytes → NameRecord → BatchWriter → NameDatabase B → BatchAnswer
  batch_add_history tx_hash r bw d =
      auto_commit_if_needed
        (record bw { history = with_key tx_hash r bw.history; batch_size = bw.batch_size + 1 }) d

  unfoldable pub batch_put_name_new : Bytes → ℤ → BatchWriter → NameDatabase B → BatchAnswer
  batch_put_name_new commit_hash block_height bw d =
      auto_commit_if_needed
        (record bw {
          name_news = with_key commit_hash block_height bw.name_news;
          batch_size = bw.batch_size + 1;
        })
        d

  unfoldable pub batch_add_utxo : Utxo → BatchWriter → NameDatabase B → BatchAnswer
  batch_add_utxo u bw d =
      auto_commit_if_needed
        (record bw { utxos = bw.utxos ++ u ∷ []; batch_size = bw.batch_size + 1 }) d

  unfoldable pub batch_remove_utxo : Bytes → ℕ → BatchWriter → NameDatabase B → BatchAnswer
  batch_remove_utxo tx_hash out_index bw d =
      auto_commit_if_needed
        (record bw {
          deleted_utxos = bw.deleted_utxos ++ (tx_hash, out_index) ∷ [];
          batch_size = bw.batch_size + 1;
        })
        d
