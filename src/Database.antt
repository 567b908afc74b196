-- ===== src/Database.antt =====
-- namedb/namedb.go, namedb/utxo.go: `NameDatabase`, thirteen buckets of a bbolt file and a cache of name records.
-- bbolt is a parameter: `Bbolt` has the calls that the code makes. The mutex is held for each whole method.
pub mod Names
pub mod History
pub mod Expired
pub mod Commitments
pub mod Utxos
pub mod Batch
pub mod Transactions
use nmcd.Prelude.{
  ℕ, ◌≡◌, ◌≢◌, ◌≤◌, ◌<◌, ◌↔◌, [], ◌∷◌, List, Option, none, some, Bool, true, false, length, All,
  ◌++◌,
}
use nmcd.Prelude.Bytes.{Bytes}
use nmcd.NameDb.Record.{DecodeError}
use nmcd.NameDb.UtxoSet.{UtxoError}
use nmcd.NameDb.Cache.{LruCache}
use nmcd.Result.{Result, ok, err, panic, ◌>>=◌}

-- The buckets that `NewNameDatabase` creates where they are missing. No code deletes a bucket, so that the
-- errors of `requireBuckets` do not occur.
pub record Buckets (Bucket : Type 0) : Type 0 where
  pub names : Bucket
  pub history : Bucket
  pub history_index : Bucket
  pub expiration : Bucket
  pub name_new : Bucket
  pub utxo : Bucket
  pub utxo_addr : Bucket
  pub spent_utxo : Bucket
  pub spent_utxo_idx : Bucket
  pub expired_names : Bucket
  pub expired_names_idx : Bucket
  pub expired_hist : Bucket
  pub expired_hist_idx : Bucket

-- A bucket's `Get`, `Put` and `Delete`, its entries in the order of a cursor, and what `commit` answers.
pub record Bbolt : Type 1 where
  pub Bucket : Type 0
  pub StoreError : Type 0
  pub find : Bytes → Bucket → Option Bytes
  pub store : Bytes → Bytes → Bucket → Result StoreError Bucket
  pub erase : Bytes → Bucket → Result StoreError Bucket
  pub entries : Bucket → List (Bytes × Bytes)
  pub commit : Buckets Bucket → Option StoreError

-- What bbolt documents of them.
pub record BboltLaws (B : Bbolt) : Type 0 where
  pub find-store : (k v : Bytes) (b b' : B.Bucket) → B.store k v b ≡ ok b' → B.find k b' ≡ some v
  pub find-store_ne :
      (k v j : Bytes) (b b' : B.Bucket) → B.store k v b ≡ ok b' → j ≢ k → B.find j b' ≡ B.find j b
  pub find-erase : (k : Bytes) (b b' : B.Bucket) → B.erase k b ≡ ok b' → B.find k b' ≡ none
  pub find-erase_ne :
      (k j : Bytes) (b b' : B.Bucket) → B.erase k b ≡ ok b' → j ≢ k → B.find j b' ≡ B.find j b
  -- A key that is stored is not empty.
  pub store_key : (k v : Bytes) (b b' : B.Bucket) → B.store k v b ≡ ok b' → 0 < length k
  -- A key that is not empty and has at most 32,768 bytes; a value below 2 GB.
  pub store_ok :
      (k v : Bytes) (b : B.Bucket)
      → 0 < length k
      → length k ≤ 32768
      → length v ≤ 2147483646
      → (b' : B.Bucket) × (B.store k v b ≡ ok b')
  pub erase_ok : (k : Bytes) (b : B.Bucket) → (b' : B.Bucket) × (B.erase k b ≡ ok b')

pub data DbError (S : Type 0) : Type 0 where
  name_not_found commitment_exists commitment_not_found corrupt_name_new utxo_not_found
        empty_address :
      DbError S
  corrupt_history_index : Bytes → DbError S
  name_decode : DecodeError → DbError S
  utxo_codec : UtxoError → DbError S
  storing : S → DbError S

pub record NameDatabase (B : Bbolt) : Type 0 where
  pub db : Buckets B.Bucket
  pub cache : LruCache

-- A method's value or error, and the database that it leaves.
abbrev pub Answer : Bbolt → Type 0 → Type 0
Answer B A = Result (DbError B.StoreError) A × NameDatabase B

-- `db.Update`: the buckets that a transaction leaves are kept when it succeeds and is committed.
unfoldable pub update :
    {B : Bbolt} {A : Type 0}
    → (Buckets B.Bucket → Result (DbError B.StoreError) (A × Buckets B.Bucket))
    → NameDatabase B
    → Answer B A
update {B = B} transaction d = elim (transaction d.db) [
  | panic ↦ (panic, d)
  | err e ↦ (err e, d)
  | ok (a, buckets) ↦ elim (B.commit buckets) [
    | some e ↦ (err (storing e), d)
    | none ↦ (ok a, record d { db = buckets })
  ]
]

-- `for _, x := range list { if err := body(x); err != nil { return err } }`
unfoldable pub each : {E A S : Type 0} → (A → S → Result E S) → List A → S → Result E S
each body [] s = ok s
each body (x ∷ list) s = body x s >>= λ s'. each body list s'
