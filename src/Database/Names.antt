-- ===== src/Database/Names.antt =====
-- namedb/namedb.go: the name records: `PutName`, `GetName`, `DeleteName`, the index of expirations and the scans.
pub mod Coherent
pub mod Writes
pub mod Reachable
pub mod Expirations
use nmcd.Prelude.{
  ℕ, zero, suc, ◌+◌, ◌∷◌, [], ◌++◌, List, Option, none, some, Bool, true, false, if◌then◌else◌, ltb,
  leb, length, take, drop, ◌&&◌,
}
use nmcd.Prelude.Bytes.{Bytes, bytes_eq, be_bytes, be_value}
use nmcd.Int.{ℤ, pos, ltb_ℤ, leb_ℤ, to_u32, to_int32, pos_part}
use nmcd.NameDb.{NameRecord}
use nmcd.NameDb.Record.{encode_name_record, decode_name_record}
use nmcd.NameDb.Cache.{LruCache}
use nmcd.NameDb.Cache
use nmcd.Database.{
  Bbolt, Buckets, DbError, NameDatabase, Answer, update, name_not_found, name_decode, storing,
}
use nmcd.Result.{Result, ok, err, panic, map_err, ◌>>=◌, ◌>>◌}

-- Height (4 bytes, big-endian) and name.
unfoldable pub make_expiration_key : ℤ → Bytes → Bytes
make_expiration_key height name = be_bytes 4 (to_u32 height) ++ name

-- The record that is decoded has no name of its own.
abbrev pub with_name : Bytes → NameRecord → NameRecord
with_name n r = record r { name = n }

-- The scan of the index: it skips keys that are too short and stops at the first height that is not below.
unfoldable pub scan_expired : ℤ → List (Bytes × Bytes) → List Bytes
scan_expired height [] = []
scan_expired height ((k, v) ∷ entries) =
    let rest = scan_expired height entries in
    if ltb (length k) 4
    then rest
    else if ltb_ℤ (to_int32 (be_value (take 4 k))) height
    then drop 4 k ∷ rest
    else []

module _ (B : Bbolt) where
  unfoldable pub delete_old_expiration_index :
      B.Bucket → B.Bucket → Bytes → Result (DbError B.StoreError) B.Bucket
  delete_old_expiration_index names expiration name = elim (B.find name names) [
    | none ↦ ok expiration
    | some existing ↦ do
      r ← map_err name_decode (decode_name_record existing)
      map_err storing (B.erase (make_expiration_key r.expires_at name) expiration)
  ]

  unfoldable pub put_name_tx :
      Bytes
      → NameRecord
      → Buckets B.Bucket
      → Result (DbError B.StoreError) (Unit {0} × Buckets B.Bucket)
  put_name_tx name r b = do
    expiration ← delete_old_expiration_index b.names b.expiration name
    names' ← map_err storing (B.store name (encode_name_record r) b.names)
    expiration' ←
        map_err storing (B.store (make_expiration_key r.expires_at name) (1 ∷ []) expiration)
    ok (tt, record b { names = names'; expiration = expiration' })

  -- `if err == nil { ... }`
  abbrev pub after_success :
      {A : Type 0} → (NameDatabase B → NameDatabase B) → Answer B A → Answer B A
  after_success change (ok a, d) = (ok a, change d)
  after_success change (err e, d) = (err e, d)
  after_success change (panic, d) = (panic, d)

  -- `cacheNameRecord`: the record gets the name and is put into the cache.
  unfoldable pub cache_name_record : LruCache → Bytes → NameRecord → LruCache
  cache_name_record cache name r = (Cache.put name (with_name name r) cache).0

  -- `PutName`
  unfoldable pub put_name : Bytes → NameRecord → NameDatabase B → Answer B (Unit {0})
  put_name name r d =
      after_success (λ d'. record d' { cache = cache_name_record d'.cache name r })
        (update (put_name_tx name r) d)

  -- What the names bucket has, without the cache.
  unfoldable pub load_name : Bytes → B.Bucket → Result (DbError B.StoreError) NameRecord
  load_name name names = elim (B.find name names) [
    | none ↦ err name_not_found
    | some payload ↦ do r ← map_err name_decode (decode_name_record payload); ok (with_name name r)
  ]

  -- `GetName`
  unfoldable pub get_name : Bytes → NameDatabase B → Answer B NameRecord
  get_name name d =
      let (hit, cache') = Cache.get name d.cache in
      elim hit [
        | some r ↦ (ok r, record d { cache = cache' })
        | none ↦ elim (load_name name d.db.names) [
          | ok r ↦ (ok r, record d { cache = (Cache.put name r cache').0 })
          | err e ↦ (err e, record d { cache = cache' })
          | panic ↦ (panic, record d { cache = cache' })
        ]
      ]

  -- A record that does not decode leaves its entry of the index.
  unfoldable pub delete_name_index :
      B.Bucket → B.Bucket → Bytes → Result (DbError B.StoreError) B.Bucket
  delete_name_index names expiration name = elim (B.find name names) [
    | none ↦ ok expiration
    | some existing ↦ elim (decode_name_record existing) [
      | ok r ↦ map_err storing (B.erase (make_expiration_key r.expires_at name) expiration)
      | err e ↦ ok expiration
      | panic ↦ panic
    ]
  ]

  unfoldable pub delete_name_tx :
      Bytes → Buckets B.Bucket → Result (DbError B.StoreError) (Unit {0} × Buckets B.Bucket)
  delete_name_tx name b = do
    expiration' ← delete_name_index b.names b.expiration name
    names' ← map_err storing (B.erase name b.names)
    ok (tt, record b { names = names'; expiration = expiration' })

  -- `DeleteName`
  unfoldable pub delete_name : Bytes → NameDatabase B → Answer B (Unit {0})
  delete_name name d =
      after_success (λ d'. record d' { cache = (Cache.delete name d'.cache).0 })
        (update (delete_name_tx name) d)

  -- `GetExpiredNames`
  abbrev pub get_expired_names : ℤ → NameDatabase B → List Bytes
  get_expired_names height d = scan_expired height (B.entries d.db.expiration)

  -- `ListNames`: with an error come the records before it.
  unfoldable pub collect_names :
      List (Bytes × Bytes) → Result (DbError B.StoreError) (Unit {0}) × List NameRecord
  collect_names [] = (ok tt, [])
  collect_names ((k, v) ∷ entries) =
      let (result, records) = collect_names entries in
      elim (decode_name_record v) [
        | ok r ↦ (result, with_name k r ∷ records)
        | err e ↦ (err (name_decode e), [])
        | panic ↦ (panic, [])
      ]

  abbrev pub list_names :
      NameDatabase B → Result (DbError B.StoreError) (Unit {0}) × List NameRecord
  list_names d = collect_names (B.entries d.db.names)

unfoldable pub has_prefix : Bytes → Bytes → Bool
has_prefix prefix k = leb (length prefix) (length k) && bytes_eq (take (length prefix) k) prefix

-- `bytes.Compare(a, b) < 0`
unfoldable pub bytes_ltb : Bytes → Bytes → Bool
bytes_ltb [] [] = false
bytes_ltb [] (b ∷ ys) = true
bytes_ltb (a ∷ xs) [] = false
bytes_ltb (a ∷ xs) (b ∷ ys) =
    let rest = bytes_ltb xs ys in if ltb a b then true else if ltb b a then false else rest

-- `cursor.Seek`: the entries from the first key that is not below the one sought.
unfoldable pub seek : Bytes → List (Bytes × Bytes) → List (Bytes × Bytes)
seek sought [] = []
seek sought ((k, v) ∷ entries) =
    let rest = seek sought entries in if bytes_ltb k sought then rest else (k, v) ∷ entries

-- The loop of `ScanNames`, with the number of records that are still wanted. `decodeScannedName` skips a record that
-- does not decode.
unfoldable pub scan_prefix : Bytes → ℕ → List (Bytes × Bytes) → List NameRecord
scan_prefix prefix wanted [] = []
scan_prefix prefix zero ((k, v) ∷ entries) = []
scan_prefix prefix (suc wanted) ((k, v) ∷ entries) =
    let found = scan_prefix prefix wanted entries in
    let skipped = scan_prefix prefix (suc wanted) entries in
    if has_prefix prefix k
    then elim (decode_name_record v) [ ok r ↦ with_name k r ∷ found | err e ↦ skipped | panic ↦ [] ]
    else []

-- `ScanNames`
unfoldable pub scan_names : (B : Bbolt) → Bytes → ℤ → NameDatabase B → List NameRecord
scan_names B prefix count d =
    if leb_ℤ count (pos 0)
    then []
    else scan_prefix prefix (pos_part count) (seek prefix (B.entries d.db.names))
