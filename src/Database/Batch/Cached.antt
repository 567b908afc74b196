-- ===== src/Database/Batch/Cached.antt =====
-- namedb/batch.go: what `updateCache` leaves in the cache.
use nmcd.Prelude.{
  ℕ, ◌≡◌, refl, sym, ◌∙◌, ap, List, some, if◌then◌else◌, inl, inr, Bool-cases, [], ◌∷◌,
}
use nmcd.Prelude.Bytes.{Bytes, bytes_eq, bytes_eq_iff}
use nmcd.NameDb.{NameRecord}
use nmcd.NameDb.Cache
use nmcd.NameDb.Cache.{LruCache}
use nmcd.NameDb.Cache.Lookup.{IsValid, cached}
use nmcd.NameDb.Cache.Bounded.{put_lem, delete_lem}
use nmcd.Database.{Bbolt, DbError, name_not_found}
use nmcd.Database.Names.{with_name}
use nmcd.Database.Names.Coherent.{cached-put}
use nmcd.Database.Batch.{cache_names, uncache_names}
use nmcd.Database.Batch.Loads.{lookup, DistinctKeys, after_put, after_delete}
use nmcd.Result.{Result, ok, err}

module _ (B : Bbolt) (order : ℕ → (A : Type 0) → List (Bytes × A) → List (Bytes × A)) where
  abbrev pub Answers : Type 0
  Answers = Bytes → Result (DbError B.StoreError) NameRecord

  -- What the cache holds is what the names bucket answers.
  pub record Below (answers : Answers) (cache : LruCache) : Type 0 where
    pub cache_valid : IsValid cache
    pub held : (j : Bytes) (r : NameRecord) → cached j cache ≡ some r → answers j ≡ ok r

  pub Below-mono :
      (f g : Answers) (cache : LruCache) → ((j : Bytes) → g j ≡ f j) → Below f cache → Below g cache
  Below-mono f g cache same v = record {
    cache_valid = v.cache_valid;
    held = λ j r h. same j ∙ v.held j r h;
  }

  pub Below-cache_names :
      (list : List (Bytes × NameRecord)) (f : Answers) (cache : LruCache)
      → DistinctKeys list
      → Below f cache
      → Below (λ j. after_put j (lookup j list) (f j)) (cache_names B order list cache)
  unfolding cache_names lookup
  Below-cache_names [] f cache d v = v
  Below-cache_names ((k, r) ∷ list) f cache (d, ds) v =
      Below-mono
        (λ j. after_put j (lookup j list) (if bytes_eq j k then ok (with_name j r) else f j)) _
        (cache_names B order list (Cache.put k (with_name k r) cache).0)
        (λ j. elim (Bool-cases (bytes_eq j k)) [
          | inl same ↦ rw (same, (bytes_eq_iff j k).0 same, d) refl
          | inr other ↦ rw other refl
        ])
        (Below-cache_names list (λ j. if bytes_eq j k then ok (with_name j r) else f j)
          (Cache.put k (with_name k r) cache).0 ds
          (record {
            cache_valid = (put_lem k (with_name k r) cache v.cache_valid).0;
            held = λ j x h. elim (cached-put k j (with_name k r) x cache v.cache_valid h) [
              | inl (same, eq) ↦ rw ((bytes_eq_iff j k).1 same, same) (ap ok eq)
              | inr (ne, old) ↦ elim (Bool-cases (bytes_eq j k)) [
                | inl same ↦ absurd (ne ((bytes_eq_iff j k).0 same))
                | inr other ↦ rw other (v.held j x old)
              ]
            ];
          }))

  pub Below-uncache_names :
      (list : List (Bytes × Unit {0})) (f : Answers) (cache : LruCache)
      → DistinctKeys list
      → Below f cache
      → Below (λ j. after_delete (lookup j list) (f j)) (uncache_names B order list cache)
  unfolding uncache_names lookup
  Below-uncache_names [] f cache d v = v
  Below-uncache_names ((k, u) ∷ list) f cache (d, ds) v =
      let gone = delete_lem k cache v.cache_valid in
      Below-mono
        (λ j. after_delete (lookup j list) (if bytes_eq j k then err name_not_found else f j)) _
        (uncache_names B order list (Cache.delete k cache).0)
        (λ j. elim (Bool-cases (bytes_eq j k)) [
          | inl same ↦ rw (same, (bytes_eq_iff j k).0 same, d) refl
          | inr other ↦ rw other refl
        ])
        (Below-uncache_names list (λ j. if bytes_eq j k then err name_not_found else f j)
          (Cache.delete k cache).0 ds
          (record {
            cache_valid = gone.1;
            held = λ j x h. elim (Bool-cases (bytes_eq j k)) [
              | inl same ↦ absurd (cc (gone.2, h, (bytes_eq_iff j k).0 same))
              | inr other ↦ rw other (
                  v.held j x
                    (sym (gone.3 j (λ s. absurd (cc ((bytes_eq_iff j k).1 s, other)))) ∙ h))
            ];
          }))
