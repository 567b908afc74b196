-- ===== src/Database/History.antt =====
-- namedb/namedb.go: the history of a name, a list of transaction hashes in the index and a record for each.
pub mod Appends
use nmcd.Prelude.{
  ℕ, zero, suc, ◌+◌, ◌-◌, ◌/◌, ◌%◌, ◌∷◌, [], ◌++◌, List, Option, none, some, Bool, true, false, not,
  ◌==◌, if◌then◌else◌, length, take, drop,
}
use nmcd.Prelude.Bytes.{Bytes}
use nmcd.NameDb.{NameRecord}
use nmcd.NameDb.Record.{encode_name_record, decode_name_record, tx_hash_size}
use nmcd.Database.{
  Bbolt, Buckets, DbError, NameDatabase, Answer, update, each, corrupt_history_index, name_decode,
  storing,
}
use nmcd.Database.Names.{with_name}
use nmcd.Result.{Result, ok, err, panic, map_err, fail_if, ◌>>=◌, ◌>>◌}

-- `indexData[i : i+txHashSize]` for the i of the loop: the whole hashes of the list.
unfoldable pub split_hashes : ℕ → Bytes → List Bytes
split_hashes zero payload = []
split_hashes (suc n) payload =
    take tx_hash_size payload ∷ split_hashes n (drop tx_hash_size payload)

unfoldable pub hashes : Bytes → List Bytes
hashes payload = split_hashes (length payload / tx_hash_size) payload

-- A Go slice that is nil has length 0.
unfoldable pub or_empty : Option Bytes → Bytes
or_empty none = []
or_empty (some payload) = payload

module _ (B : Bbolt) where
  unfoldable pub add_history_tx :
      Bytes
      → NameRecord
      → Buckets B.Bucket
      → Result (DbError B.StoreError) (Unit {0} × Buckets B.Bucket)
  add_history_tx tx_hash r b = do
    history' ← map_err storing (B.store tx_hash (encode_name_record r) b.history)
    index' ←
        map_err storing
          (B.store r.name (or_empty (B.find r.name b.history_index) ++ tx_hash) b.history_index)
    ok (tt, record b { history = history'; history_index = index' })

  -- `AddHistory`
  unfoldable pub add_history : Bytes → NameRecord → NameDatabase B → Answer B (Unit {0})
  add_history tx_hash r d = update (add_history_tx tx_hash r) d

  -- The body of the loop of `GetHistory`, with what the rest of the loop gives: a record that is missing is skipped, and
  -- one that does not decode ends the loop, with the records before it.
  unfoldable pub history_step :
      Bytes
      → Option Bytes
      → Result (DbError B.StoreError) (Unit {0}) × List NameRecord
      → Result (DbError B.StoreError) (Unit {0}) × List NameRecord
  history_step name none rest = rest
  history_step name (some payload) (result, records) = elim (decode_name_record payload) [
    | ok r ↦ (result, with_name name r ∷ records)
    | err e ↦ (err (name_decode e), [])
    | panic ↦ (panic, [])
  ]

  unfoldable pub collect_history :
      Bytes → B.Bucket → List Bytes → Result (DbError B.StoreError) (Unit {0}) × List NameRecord
  collect_history name history [] = (ok tt, [])
  collect_history name history (hash ∷ hashes) =
      history_step name (B.find hash history) (collect_history name history hashes)

  -- `GetHistory`
  unfoldable pub get_history :
      Bytes → NameDatabase B → Result (DbError B.StoreError) (Unit {0}) × List NameRecord
  get_history name d = elim (B.find name d.db.history_index) [
    | none ↦ (ok tt, [])
    | some index ↦
        if not (length index % tx_hash_size == 0)
        then (err (corrupt_history_index name), [])
        else collect_history name d.db.history (hashes index)
  ]

  unfoldable pub delete_history_tx :
      Bytes → Buckets B.Bucket → Result (DbError B.StoreError) (Unit {0} × Buckets B.Bucket)
  delete_history_tx name b = elim (B.find name b.history_index) [
    | none ↦ ok (tt, b)
    | some index ↦ do
      fail_if (not (length index % tx_hash_size == 0)) (corrupt_history_index name)
      history' ←
          each (λ hash bucket. map_err storing (B.erase hash bucket)) (hashes index) b.history
      index' ← map_err storing (B.erase name b.history_index)
      ok (tt, record b { history = history'; history_index = index' })
  ]

  -- `DeleteHistory`
  unfoldable pub delete_history : Bytes → NameDatabase B → Answer B (Unit {0})
  delete_history name d = update (delete_history_tx name) d

  -- `truncateHistoryIndex`: the new index and the record of the hash that is now the last.
  unfoldable pub truncate_history_index :
      B.Bucket
      → B.Bucket
      → Bytes
      → Bytes
      → Result (DbError B.StoreError) (Option NameRecord × B.Bucket)
  truncate_history_index index_bucket history name index_data =
      let kept = take (length index_data - tx_hash_size) index_data in
      if length kept == 0
      then map_err storing (B.erase name index_bucket) >>= (λ index'. ok (none, index'))
      else do
        index' ← map_err storing (B.store name kept index_bucket)
        elim (B.find (drop (length kept - tx_hash_size) kept) history) [
          | none ↦ ok (none, index')
          | some payload ↦ do
            r ← map_err name_decode (decode_name_record payload)
            ok (some (with_name name r), index')
        ]

  unfoldable pub remove_last_history_entry_tx :
      Bytes
      → Buckets B.Bucket
      → Result (DbError B.StoreError) (Option NameRecord × Buckets B.Bucket)
  remove_last_history_entry_tx name b =
      let index_data = or_empty (B.find name b.history_index) in
      if length index_data == 0 then ok (none, b) else do
        fail_if (not (length index_data % tx_hash_size == 0)) (corrupt_history_index name)
        history' ←
            map_err storing (B.erase (drop (length index_data - tx_hash_size) index_data) b.history)
        (previous, index') ← truncate_history_index b.history_index history' name index_data
        ok (previous, record b { history = history'; history_index = index' })

  -- `RemoveLastHistoryEntry`
  unfoldable pub remove_last_history_entry : Bytes → NameDatabase B → Answer B (Option NameRecord)
  remove_last_history_entry name d = update (remove_last_history_entry_tx name) d
