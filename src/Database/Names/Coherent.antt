-- ===== src/Database/Names/Coherent.antt =====
-- The cache and the names bucket of namedb/namedb.go agree.
use nmcd.Prelude.{◌≡◌, ◌≢◌, refl, sym, ◌∙◌, some, ◌⊎◌, inl, inr, Bool-cases, Option-cases}
use nmcd.Prelude.Bytes.{Bytes, bytes_eq, bytes_eq_iff}
use nmcd.NameDb.{NameRecord}
use nmcd.NameDb.Cache
use nmcd.NameDb.Cache.{LruCache}
use nmcd.NameDb.Cache.Lookup.{IsValid, cached}
use nmcd.NameDb.Cache.Bounded.{get_lem, put_lem, delete_lem}
use nmcd.Database.{Bbolt, NameDatabase}
use nmcd.Database.Names.{load_name, get_name}
use nmcd.Result.{ok, Result-split}

-- After `Put`, the cache has the new record or what it had.
pub cached-put :
    (k j : Bytes) (w r : NameRecord) (c : LruCache)
    → IsValid c
    → cached j (Cache.put k w c).0 ≡ some r
    → ((j ≡ k) × (w ≡ r)) ⊎ ((j ≢ k) × (cached j c ≡ some r))
cached-put k j w r c v h = elim (Bool-cases (bytes_eq j k)) [
  | inl q ↦ let same = (bytes_eq_iff j k).0 q in inl (same, cc ((put_lem k w c v).1, h, same))
  | inr q ↦
      let ne : j ≢ k = λ s. absurd (cc ((bytes_eq_iff j k).1 s, q)) in
      elim (put_lem k w c v).2 [
        | inl (f, all) ↦ inr (ne, sym (all j ne) ∙ h)
        | inr (e, t, b, l, n, forgotten, all) ↦ elim (Bool-cases (bytes_eq j e.key)) [
          | inl s ↦ absurd (cc (forgotten, h, (bytes_eq_iff j e.key).0 s))
          | inr s ↦ inr (ne, sym (all j ne (λ m. absurd (cc ((bytes_eq_iff j e.key).1 m, s)))) ∙ h)
        ]
      ]
]

module _ (B : Bbolt) where
  -- What the cache holds is what the names bucket has.
  pub record Coherent (names : B.Bucket) (cache : LruCache) : Type 0 where
    pub cache_valid : IsValid cache
    pub backed :
        (name : Bytes) (r : NameRecord) → cached name cache ≡ some r → load_name B name names ≡ ok r

  -- A bucket that differs at one name only, which leaves the cache.
  pub Coherent-delete :
      (before after : B.Bucket) (cache : LruCache) (name : Bytes)
      → Coherent before cache
      → ((j : Bytes) → j ≢ name → load_name B j after ≡ load_name B j before)
      → Coherent after (Cache.delete name cache).0
  Coherent-delete before after cache name v same =
      let gone = delete_lem name cache v.cache_valid in
      record {
        cache_valid = gone.1;
        backed = λ j x h. elim (Bool-cases (bytes_eq j name)) [
          | inl q ↦ absurd (cc (gone.2, h, (bytes_eq_iff j name).0 q))
          | inr q ↦
              let ne : j ≢ name = λ s. absurd (cc ((bytes_eq_iff j name).1 s, q)) in
              same j ne ∙ v.backed j x (sym (gone.3 j ne) ∙ h)
        ];
      }

  -- A bucket that differs at one name only, whose record is put into the cache.
  pub Coherent-write :
      (before after : B.Bucket) (cache : LruCache) (name : Bytes) (r : NameRecord)
      → Coherent before cache
      → ((j : Bytes) → j ≢ name → load_name B j after ≡ load_name B j before)
      → load_name B name after ≡ ok r
      → Coherent after (Cache.put name r cache).0
  Coherent-write before after cache name r v same l = record {
    cache_valid = (put_lem name r cache v.cache_valid).0;
    backed = λ j x h. elim (cached-put name j r x cache v.cache_valid h) [
      | inl (eq, s) ↦ cc (l, eq, s)
      | inr (ne, s) ↦ same j ne ∙ v.backed j x s
    ];
  }

  Coherent-get :
      (names : B.Bucket) (cache : LruCache) (name : Bytes)
      → Coherent names cache
      → Coherent names (Cache.get name cache).1
  Coherent-get names cache name v = record {
    cache_valid = (get_lem name cache v.cache_valid).1;
    backed = λ j x h. v.backed j x (sym ((get_lem name cache v.cache_valid).2 j) ∙ h);
  }

  -- `GetName` answers what the names bucket has, whether or not the cache has it, and writes nothing to the buckets.
  pub get_name_lem :
      (name : Bytes) (d : NameDatabase B)
      → Coherent d.db.names d.cache
      → ((get_name B name d).0 ≡ load_name B name d.db.names)
        × ((get_name B name d).1.db ≡ d.db)
        × Coherent (get_name B name d).1.db.names (get_name B name d).1.cache
  unfolding get_name
  get_name_lem name d v =
      let g = get_lem name d.cache v.cache_valid in
      let after = Coherent-get d.db.names d.cache name v in
      elim (Option-cases (Cache.get name d.cache).0) [
        | inr (r, q) ↦ rw (get_name, q) (sym (v.backed name r (sym g.0 ∙ q)), refl, after)
        | inl q ↦ elim (Result-split (load_name B name d.db.names)) [
          | inl (r, l) ↦
              rw (get_name, q, l)
                (
                  refl,
                  refl,
                  Coherent-write d.db.names d.db.names (Cache.get name d.cache).1 name r after
                      (λ j n. refl) l,
                )
          | inr (inl (e, l)) ↦ rw (get_name, q, l) (refl, refl, after)
          | inr (inr l) ↦ rw (get_name, q, l) (refl, refl, after)
        ]
      ]
