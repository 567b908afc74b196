-- ===== src/Database/Batch/Committed.antt =====
-- namedb/batch.go: what `GetName` answers after a commit.
use nmcd.Prelude.{
  ℕ, ◌≡◌, ◌≢◌, refl, sym, ◌∙◌, ap, List, ◌⊎◌, inl, inr, Bool-cases, All, [], ◌==◌, ==_iff,
}
use nmcd.Prelude.Bytes.{Bytes}
use nmcd.NameDb.{NameRecord}
use nmcd.NameDb.Record.RoundTrip.{IsEncodable}
use nmcd.NameDb.Cache.{LruCache}
use nmcd.Database.{Bbolt, BboltLaws, Buckets, DbError, NameDatabase}
use nmcd.Database.Transactions.{update-cases}
use nmcd.Database.Names.{load_name, get_name}
use nmcd.Database.Names.Coherent.{Coherent, get_name_lem}
use nmcd.Database.Batch.{
  BatchWriter, commit, apply_writes, update_cache, write_names, delete_names, write_history,
  write_name_news, write_utxos, delete_utxos, clear,
}
use nmcd.Database.Batch.Loads.{
  lookup, DistinctKeys, after_put, after_delete, write_names-loads, delete_names-loads,
}
use nmcd.Database.Batch.Elsewhere.{written_elsewhere-names}
use nmcd.Database.Batch.Cached.{Below, Below-mono, Below-cache_names, Below-uncache_names}
use nmcd.Result.{Result, ok, >>=-eq-ok, ok-injective}

-- Go ranges over each entry of a map once.
pub record RangeLaws (order : ℕ → (A : Type 0) → List (Bytes × A) → List (Bytes × A)) : Type 1 where
  pub same_lookup :
      (n : ℕ) (A : Type 0) (m : List (Bytes × A)) (j : Bytes) → lookup j (order n A m) ≡ lookup j m
  pub distinct :
      (n : ℕ) (A : Type 0) (m : List (Bytes × A)) → DistinctKeys m → DistinctKeys (order n A m)
  pub all :
      (n : ℕ) (A : Type 0) (P : Bytes × A → Type 0) (m : List (Bytes × A))
      → All P m
      → All P (order n A m)

-- The maps have each key once, the pending records are in the ranges of their fields, and an empty batch has no writes of names.
pub record IsPending (bw : BatchWriter) : Type 0 where
  pub names_distinct : DistinctKeys bw.names
  pub deleted_distinct : DistinctKeys bw.deleted_names
  pub encodable : All (λ e. IsEncodable e.1) bw.names
  pub counted : bw.batch_size ≡ 0 → (bw.names ≡ []) × (bw.deleted_names ≡ [])

module _ (B : Bbolt) (laws : BboltLaws B)
    (order : ℕ → (A : Type 0) → List (Bytes × A) → List (Bytes × A)) (range : RangeLaws order)
    (bw : BatchWriter) (p : IsPending bw) where
  -- The answer for a name after the pending writes, from the one before.
  abbrev pub after_batch :
      Bytes → Result (DbError B.StoreError) NameRecord → Result (DbError B.StoreError) NameRecord
  after_batch j before =
      after_delete (lookup j bw.deleted_names) (after_put j (lookup j bw.names) before)

  apply_writes-loads :
      (b b' : Buckets B.Bucket) (u : Unit {0}) (j : Bytes)
      → apply_writes B order bw b ≡ ok (u, b')
      → load_name B j b'.names ≡ after_batch j (load_name B j b.names)
  unfolding apply_writes write_names delete_names
  apply_writes-loads b b' u j h =
      let (b1, q1, h1) = >>=-eq-ok (write_names B order bw b) _ h in
      let (b2, q2, h2) = >>=-eq-ok (delete_names B order bw b1) _ h1 in
      let (b3, q3, h3) = >>=-eq-ok (write_history B order bw b2) _ h2 in
      let (b4, q4, h4) = >>=-eq-ok (write_name_news B order bw b3) _ h3 in
      let (b5, q5, h5) = >>=-eq-ok (write_utxos B order bw b4) _ h4 in
      let (b6, q6, h6) = >>=-eq-ok (delete_utxos B order bw b5) _ h5 in
      let last : b6.names ≡ b'.names =
        ap (λ (y : Unit {0} × Buckets B.Bucket). y.1.names) (ok-injective h6) in
      let put =
        write_names-loads B laws order (order 0 _ bw.names) b b1 j
          (range.all 0 _ (λ e. IsEncodable e.1) bw.names p.encodable)
          (range.distinct 0 _ bw.names p.names_distinct) q1 in
      let deleted =
        delete_names-loads B laws order (order 1 _ bw.deleted_names) b1 b2 j
          (range.distinct 1 _ bw.deleted_names p.deleted_distinct) q2 in
      ap (load_name B j)
        (sym last ∙ written_elsewhere-names B laws order bw b2 b3 b4 b5 b6 q3 q4 q5 q6)
      ∙ deleted
      ∙ ap (λ o. after_delete o (load_name B j b1.names)) (range.same_lookup 1 _ bw.deleted_names j)
      ∙ ap (after_delete (lookup j bw.deleted_names))
          (put ∙ ap (λ o. after_put j o (load_name B j b.names)) (range.same_lookup 0 _ bw.names j))

  update_cache-Below :
      (before : B.Bucket) (cache : LruCache)
      → Coherent B before cache
      → Below B order (λ j. after_batch j (load_name B j before)) (update_cache B order bw cache)
  unfolding update_cache
  update_cache-Below before cache v =
      Below-mono B order _ _ _
        (λ j. sym (
          ap
            (λ o.
              after_delete o (after_put j (lookup j (order 5 _ bw.names)) (load_name B j before)))
            (range.same_lookup 4 _ bw.deleted_names j)
          ∙ ap
              (λ o. after_delete (lookup j bw.deleted_names) (after_put j o (load_name B j before)))
              (range.same_lookup 5 _ bw.names j)))
        (Below-uncache_names B order (order 4 _ bw.deleted_names) _ _
          (range.distinct 4 _ bw.deleted_names p.deleted_distinct)
          (Below-cache_names B order (order 5 _ bw.names) (λ j. load_name B j before) cache
            (range.distinct 5 _ bw.names p.names_distinct)
            (record { cache_valid = v.cache_valid; held = v.backed })))

  empty_batch :
      bw.batch_size ≡ 0
      → (j : Bytes) (before : Result (DbError B.StoreError) NameRecord)
      → after_batch j before ≡ before
  unfolding lookup
  empty_batch z j before = rw ((p.counted z).0, (p.counted z).1) refl

  pub commit-Coherent :
      (d : NameDatabase B)
      → Coherent B d.db.names d.cache
      → (((commit B order bw d).0 ≡ ok tt)
          × Coherent B (commit B order bw d).1.1.db.names (commit B order bw d).1.1.cache
          × ((j : Bytes)
              → load_name B j (commit B order bw d).1.1.db.names
                ≡ after_batch j (load_name B j d.db.names))
          × ((commit B order bw d).1.0.batch_size ≡ 0))
        ⊎ (((commit B order bw d).0 ≢ ok tt) × ((commit B order bw d).1 ≡ (bw, d)))
  unfolding commit clear
  commit-Coherent d v = elim (Bool-cases (bw.batch_size == 0)) [
    | inl z ↦
        let none_pending = (==_iff bw.batch_size 0).0 z in
        rw (commit, z)
          (inl (
            refl,
            v,
            λ j. sym (empty_batch none_pending j (load_name B j d.db.names)),
            none_pending,
          ))
    | inr z ↦ elim (update-cases B (apply_writes B order bw) d) [
      | inl (u, b, q, h) ↦
          let loads = λ (j : Bytes). apply_writes-loads d.db b u j q in
          let below = update_cache-Below d.db.names d.cache v in
          rw (commit, z, h)
            (inl (
              refl,
              record {
                cache_valid = below.cache_valid;
                backed = λ j r held. loads j ∙ below.held j r held;
              },
              loads,
              refl,
            ))
      | inr (inl (e, h)) ↦ rw (commit, z, h) (inr ((λ r. absurd (cc r)), refl))
      | inr (inr h) ↦ rw (commit, z, h) (inr ((λ r. absurd (cc r)), refl))
    ]
  ]

  -- A batch whose maps have each key once, with pending records in the ranges of their fields, over a database whose cache agrees with its names bucket,
  -- and any order in which Go ranges over the maps. Where `Commit` has a value, `GetName` then answers the pending record for
  -- each name that is put, `ErrNameNotFound` for each name that is deleted, and what it answered before for any other; the
  -- cache agrees with the bucket and no write is pending. Otherwise the database and the batch are as they were.
  pub get_name-commit :
      (d : NameDatabase B) (j : Bytes)
      → Coherent B d.db.names d.cache
      → (((commit B order bw d).0 ≡ ok tt)
          × ((get_name B j (commit B order bw d).1.1).0
              ≡ after_delete
                  (lookup j bw.deleted_names)
                  (after_put j (lookup j bw.names) (get_name B j d).0))
          × Coherent B (commit B order bw d).1.1.db.names (commit B order bw d).1.1.cache
          × ((commit B order bw d).1.0.batch_size ≡ 0))
        ⊎ (((commit B order bw d).0 ≢ ok tt) × ((commit B order bw d).1 ≡ (bw, d)))
  get_name-commit d j v = elim (commit-Coherent d v) [
    | inr kept ↦ inr kept
    | inl (done, after, loads, cleared) ↦ inl (
      done,
      (get_name_lem B j (commit B order bw d).1.1 after).0
          ∙ loads j
          ∙ ap (after_batch j) (sym (get_name_lem B j d v).0),
      after,
      cleared,
    )
  ]
