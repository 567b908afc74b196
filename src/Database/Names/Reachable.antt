-- ===== src/Database/Names/Reachable.antt =====
-- The databases that the methods of namedb/namedb.go lead to, from one that `NewNameDatabase` opens.
use nmcd.Prelude.{ℕ, List, ap, ◌≡◌, ◌≢◌, refl, sym, ◌∙◌, subst, ◌⊎◌, inl, inr}
use nmcd.Prelude.Bytes.{Bytes, Bytes-cases}
use nmcd.Int.{ℤ, pos}
use nmcd.NameDb.{NameRecord}
use nmcd.NameDb.Record.RoundTrip.{IsEncodable}
use nmcd.NameDb.Cache.{new_lru_cache}
use nmcd.NameDb.Cache.Bounded.{new_lru_cache-IsValid, cached-new_lru_cache}
use nmcd.Database.{Bbolt, BboltLaws, Buckets, DbError, NameDatabase, update, name_not_found}
use nmcd.Database.Transactions.{update-cases}
use nmcd.Database.Names.{
  load_name, with_name, put_name, put_name_tx, get_name, delete_name, delete_name_tx,
  cache_name_record,
}
use nmcd.Database.Names.Coherent.{Coherent, Coherent-write, Coherent-delete, get_name_lem}
use nmcd.Database.Names.Writes.{
  load_name_stored, load_name_kept, load_name_erased, put_name_tx-writes, delete_name_tx-writes,
}
use nmcd.Database.Expired.{
  restore_expired_names_for_block, restore_expired_names, collect_keys_for_height,
}
use nmcd.Database.Expired.Restores.{restore_expired_names-Coherent}
use nmcd.Database.Batch.{BatchWriter, commit}
use nmcd.Database.Batch.Committed.{RangeLaws, IsPending, commit-Coherent}
use nmcd.Result.{Result, ok, err}

-- `NewNameDatabase` opens the buckets of a file with an empty cache of 10,000 entries.
unfoldable pub new_name_database : {B : Bbolt} → Buckets B.Bucket → NameDatabase B
new_name_database buckets = record { db = buckets; cache = new_lru_cache (pos 10000) }

-- The records that are put, one by one or in a batch, are in the ranges of their fields: the bucket does not give another
-- one back as it was put. Every other method leaves the names bucket and the cache:
-- its transaction is any one that keeps the bucket.
pub data Reachable (B : Bbolt) : NameDatabase B → Type 1 where
  opened : (buckets : Buckets B.Bucket) → Reachable B (new_name_database buckets)
  put_one :
      (name : Bytes) (r : NameRecord) (d : NameDatabase B)
      → IsEncodable r
      → Reachable B d
      → Reachable B (put_name B name r d).1
  got_one : (name : Bytes) (d : NameDatabase B) → Reachable B d → Reachable B (get_name B name d).1
  deleted_one :
      (name : Bytes) (d : NameDatabase B) → Reachable B d → Reachable B (delete_name B name d).1
  restored_block :
      (height : ℤ) (d : NameDatabase B)
      → Reachable B d
      → Reachable B (restore_expired_names_for_block B height d).1
  committed_batch :
      (order : ℕ → (A : Type 0) → List (Bytes × A) → List (Bytes × A)) (bw : BatchWriter)
      (d : NameDatabase B)
      → RangeLaws order
      → IsPending bw
      → Reachable B d
      → Reachable B (commit B order bw d).1.1
  wrote_elsewhere :
      {A : Type 0} (t : Buckets B.Bucket → Result (DbError B.StoreError) (A × Buckets B.Bucket))
      (d : NameDatabase B)
      → ((a : A) (b b' : Buckets B.Bucket) → t b ≡ ok (a, b') → b'.names ≡ b.names)
      → Reachable B d
      → Reachable B (update t d).1

module _ (B : Bbolt) (laws : BboltLaws B) where
  abbrev pub IsCoherent : NameDatabase B → Type 0
  IsCoherent d = Coherent B d.db.names d.cache

  -- `PutName`: the bucket has the record, with the name that it is put under, and the other names as before; or the
  -- database is as before and there is no value.
  pub put_name_lem :
      (name : Bytes) (r : NameRecord) (d : NameDatabase B)
      → IsEncodable r
      → IsCoherent d
      → IsCoherent (put_name B name r d).1
        × ((((put_name B name r d).0 ≡ ok tt)
              × (load_name B name (put_name B name r d).1.db.names ≡ ok (with_name name r))
              × ((j : Bytes)
                  → j ≢ name
                  → load_name B j (put_name B name r d).1.db.names ≡ load_name B j d.db.names))
            ⊎ (((put_name B name r d).0 ≢ ok tt) × ((put_name B name r d).1 ≡ d)))
  unfolding put_name cache_name_record
  put_name_lem name r d e v = elim (update-cases B (put_name_tx B name r) d) [
    | inl (u, b, q, h) ↦
        let stored = put_name_tx-writes B laws name r d.db b u q in
        let now = load_name_stored B laws name r d.db.names b.names e stored in
        let same = load_name_kept B laws name _ d.db.names b.names stored in
        rw (put_name, h)
          (
            Coherent-write B d.db.names b.names d.cache name (with_name name r) v same now,
            inl (refl, now, same),
          )
    | inr (inl (e, h)) ↦ rw (put_name, h) (v, inr ((λ r. absurd (cc r)), refl))
    | inr (inr h) ↦ rw (put_name, h) (v, inr ((λ r. absurd (cc r)), refl))
  ]

  -- `DeleteName`, likewise: the name is gone.
  pub delete_name_lem :
      (name : Bytes) (d : NameDatabase B)
      → IsCoherent d
      → IsCoherent (delete_name B name d).1
        × ((((delete_name B name d).0 ≡ ok tt)
              × (load_name B name (delete_name B name d).1.db.names ≡ err name_not_found)
              × ((j : Bytes)
                  → j ≢ name
                  → load_name B j (delete_name B name d).1.db.names ≡ load_name B j d.db.names))
            ⊎ (((delete_name B name d).0 ≢ ok tt) × ((delete_name B name d).1 ≡ d)))
  unfolding delete_name
  delete_name_lem name d v = elim (update-cases B (delete_name_tx B name) d) [
    | inl (u, b, q, h) ↦
        let (gone, same) =
          load_name_erased B laws name d.db.names b.names
            (delete_name_tx-writes B laws name d.db b u q) in
        rw (delete_name, h)
          (Coherent-delete B d.db.names b.names d.cache name v same, inl (refl, gone, same))
    | inr (inl (e, h)) ↦ rw (delete_name, h) (v, inr ((λ r. absurd (cc r)), refl))
    | inr (inr h) ↦ rw (delete_name, h) (v, inr ((λ r. absurd (cc r)), refl))
  ]

  restore_expired_names_for_block-IsCoherent :
      (height : ℤ) (d : NameDatabase B)
      → IsCoherent d
      → IsCoherent (restore_expired_names_for_block B height d).1
  unfolding restore_expired_names_for_block
  restore_expired_names_for_block-IsCoherent height d v =
      let keys = collect_keys_for_height B d.db.expired_names_idx height in
      let (before, after) =
        restore_expired_names-Coherent B laws keys d.db.names d.db d.cache v v in
      let (result, cache') = restore_expired_names B keys d.db d.cache in
      elim (update-cases B (λ b. result) (record d { cache = cache' })) [
        | inl (u, b, q, h) ↦ rw (restore_expired_names_for_block, h) (after u b q)
        | inr (inl (e, h)) ↦ rw (restore_expired_names_for_block, h) before
        | inr (inr h) ↦ rw (restore_expired_names_for_block, h) before
      ]

  pub Reachable-IsCoherent : (d : NameDatabase B) → Reachable B d → IsCoherent d
  unfolding new_name_database
  Reachable-IsCoherent d (opened buckets) = record {
    cache_valid = new_lru_cache-IsValid (pos 10000);
    backed = λ j r h. absurd (cc (h, cached-new_lru_cache (pos 10000) j));
  }
  Reachable-IsCoherent d (put_one name r d0 e h) =
      (put_name_lem name r d0 e (Reachable-IsCoherent d0 h)).0
  Reachable-IsCoherent d (got_one name d0 h) =
      (get_name_lem B name d0 (Reachable-IsCoherent d0 h)).2
  Reachable-IsCoherent d (deleted_one name d0 h) =
      (delete_name_lem name d0 (Reachable-IsCoherent d0 h)).0
  Reachable-IsCoherent d (restored_block height d0 h) =
      restore_expired_names_for_block-IsCoherent height d0 (Reachable-IsCoherent d0 h)
  Reachable-IsCoherent d (committed_batch order bw d0 range p h) =
      elim (commit-Coherent B laws order range bw p d0 (Reachable-IsCoherent d0 h)) [
        | inl (done, v, loads, cleared) ↦ v
        | inr (failed, same) ↦
            subst IsCoherent (sym (ap (λ (x : BatchWriter × NameDatabase B). x.1) same))
              (Reachable-IsCoherent d0 h)
      ]
  Reachable-IsCoherent d (wrote_elsewhere t d0 keeps h) = elim (update-cases B t d0) [
    | inl (a, b, q, k) ↦
        rw k
          (subst (λ x. Coherent B x d0.cache) (sym (keeps a d0.db b q)) (Reachable-IsCoherent d0 h))
    | inr (inl (e, k)) ↦ rw k (Reachable-IsCoherent d0 h)
    | inr (inr k) ↦ rw k (Reachable-IsCoherent d0 h)
  ]

  -- For every database that the methods lead to from an opened one, `GetName` answers what the names bucket has for the
  -- name: the cache never shows. It writes nothing to the buckets.
  pub get_name-Reachable :
      (d : NameDatabase B)
      → Reachable B d
      → (name : Bytes)
      → ((get_name B name d).0 ≡ load_name B name d.db.names) × ((get_name B name d).1.db ≡ d.db)
  get_name-Reachable d h name =
      let g = get_name_lem B name d (Reachable-IsCoherent d h) in (g.0, g.1)

  -- For every database that the methods lead to: a record in range, with an expiration height that is set, that `PutName`
  -- stores is what `GetName` answers next, with the name that it was stored under, and every other name has its record as
  -- before. Where `PutName` has no value, the database is as it was.
  pub get_name-put_name :
      (d : NameDatabase B)
      → Reachable B d
      → (name : Bytes) (r : NameRecord) → IsEncodable r
      → r.expires_at ≢ pos 0
      → (j : Bytes)
      → (((put_name B name r d).0 ≡ ok tt)
          × ((get_name B name (put_name B name r d).1).0 ≡ ok (with_name name r))
          × ((j ≡ name) ⊎ ((get_name B j (put_name B name r d).1).0 ≡ (get_name B j d).0)))
        ⊎ (((put_name B name r d).0 ≢ ok tt) × ((put_name B name r d).1 ≡ d))
  get_name-put_name d h name r e _ j =
      let after = put_one name r d e h in
      elim (put_name_lem name r d e (Reachable-IsCoherent d h)).1 [
        | inl (done, now, same) ↦ inl (
          done,
          (get_name-Reachable (put_name B name r d).1 after name).0 ∙ now,
          elim (Bytes-cases j name) [
            | inl eq ↦ inl eq
            | inr ne ↦ inr (
                (get_name-Reachable (put_name B name r d).1 after j).0
                ∙ same j ne
                ∙ sym (get_name-Reachable d h j).0)
          ],
        )
        | inr failed ↦ inr failed
      ]

  -- For every database that the methods lead to: after `DeleteName`, `GetName` answers `ErrNameNotFound` for the name and
  -- what it answered before for every other. Where `DeleteName` has no value, the database is as it was.
  pub get_name-delete_name :
      (d : NameDatabase B)
      → Reachable B d
      → (name j : Bytes)
      → (((delete_name B name d).0 ≡ ok tt)
          × ((get_name B name (delete_name B name d).1).0 ≡ err name_not_found)
          × ((j ≡ name) ⊎ ((get_name B j (delete_name B name d).1).0 ≡ (get_name B j d).0)))
        ⊎ (((delete_name B name d).0 ≢ ok tt) × ((delete_name B name d).1 ≡ d))
  get_name-delete_name d h name j =
      let after = deleted_one name d h in
      elim (delete_name_lem name d (Reachable-IsCoherent d h)).1 [
        | inl (done, gone, same) ↦ inl (
          done,
          (get_name-Reachable (delete_name B name d).1 after name).0 ∙ gone,
          elim (Bytes-cases j name) [
            | inl eq ↦ inl eq
            | inr ne ↦ inr (
                (get_name-Reachable (delete_name B name d).1 after j).0
                ∙ same j ne
                ∙ sym (get_name-Reachable d h j).0)
          ],
        )
        | inr failed ↦ inr failed
      ]
