-- ===== src/Database/Expired/Restores.antt =====
-- What `RestoreExpiredNamesForBlock` of namedb/namedb.go writes to the names bucket.
use nmcd.Prelude.{
  ◌<◌, ◌≡◌, ◌≢◌, refl, sym, ◌∙◌, ap, List, true, false, ◌⊎◌, inl, inr, Bool-cases, Option-cases, [],
  length, ◌==◌, ◌∷◌, drop, arith, subst,
}
use nmcd.Prelude.Bytes.{Bytes}
use nmcd.NameDb.Record.{decode_name_record}
use nmcd.NameDb.Cache
use nmcd.NameDb.Cache.{LruCache}
use nmcd.Database.{Bbolt, BboltLaws, Buckets, storing, name_decode, each}
use nmcd.Database.Transactions.{map_err-eq-ok}
use nmcd.Database.Names.{load_name, make_expiration_key}
use nmcd.Database.Names.Coherent.{Coherent, Coherent-delete}
use nmcd.Database.Names.Writes.{load_name_kept}
use nmcd.Database.History.{or_empty, hashes}
use nmcd.Database.Expired.{
  restore_expired_name_record, restore_expired_history, delete_expired_backup, restore_expired_name,
  restore_expired_names, move_history_record,
}
use nmcd.Result.{ok, map_err, >>=-eq-ok, ok-injective, Result-split}

nonempty : (xs : Bytes) → 0 < length xs → (length xs == 0) ≡ false
nonempty xs l = ground arith

module _ (B : Bbolt) (laws : BboltLaws B) where
  -- One name that is written, which is not empty, or none.
  abbrev pub Writes : Bytes → B.Bucket → B.Bucket → Type 0
  Writes name before after =
      (((length name == 0) ≡ true) × (after ≡ before))
      ⊎ (((length name == 0) ≡ false)
          × ((j : Bytes) → j ≢ name → load_name B j after ≡ load_name B j before))

  restore_expired_name_record-Writes :
      (key name : Bytes) (b b' : Buckets B.Bucket)
      → restore_expired_name_record B key b ≡ ok (name, b')
      → Writes name b.names b'.names
  unfolding restore_expired_name_record
  restore_expired_name_record-Writes key name b b' h =
      elim (Option-cases (B.find key b.expired_names)) [
        | inl q ↦
            let same = ok-injective (rw (restore_expired_name_record, q) at h) in
            inl (
              rw (sym (ap (λ (p : Bytes × Buckets B.Bucket). p.0) same)) refl,
              sym (ap (λ (p : Bytes × Buckets B.Bucket). p.1.names) same),
            )
        | inr (payload, q) ↦
            let (r, q0, h1) =
              >>=-eq-ok (map_err name_decode (decode_name_record payload)) _
                (rw (restore_expired_name_record, q) at h) in
            let (names', q1, h2) =
              >>=-eq-ok (map_err storing (B.store (drop 4 key) payload b.names)) _ h1 in
            let (index', q2, h3) =
              >>=-eq-ok
                (map_err storing
                  (B.store (make_expiration_key r.expires_at (drop 4 key)) (1 ∷ []) b.expiration))
                _ h2 in
            let stored = map_err-eq-ok storing (B.store (drop 4 key) payload b.names) q1 in
            let same_name : drop 4 key ≡ name =
              ap (λ (p : Bytes × Buckets B.Bucket). p.0) (ok-injective h3) in
            let same_names : names' ≡ b'.names =
              ap (λ (p : Bytes × Buckets B.Bucket). p.1.names) (ok-injective h3) in
            inr (
              rw (sym same_name) (
                  nonempty (drop 4 key)
                    (laws.store_key (drop 4 key) payload b.names names' stored)),
              λ j ne. rw (sym same_names) (
                  load_name_kept B laws (drop 4 key) payload b.names names' stored j
                    (λ s. ne (s ∙ same_name))),
            )
      ]

  restore_expired_history-names :
      (key name : Bytes) (b b' : Buckets B.Bucket)
      → restore_expired_history B key name b ≡ ok b'
      → b'.names ≡ b.names
  unfolding restore_expired_history
  restore_expired_history-names key name b b' h =
      elim (Bool-cases (length (or_empty (B.find key b.expired_hist_idx)) == 0)) [
        | inl q ↦
            ap (λ (p : Buckets B.Bucket). p.names)
              (sym (ok-injective (rw (restore_expired_history, q) at h)))
        | inr q ↦
            let list = or_empty (B.find key b.expired_hist_idx) in
            let (i, q0, h1) =
              >>=-eq-ok (map_err storing (B.store name list b.history_index)) _
                (rw (restore_expired_history, q) at h) in
            let (p, q1, h2) =
              >>=-eq-ok (each (move_history_record B) (hashes list) (b.expired_hist, b.history)) _
                h1 in
            let (x, q2, h3) = >>=-eq-ok (map_err storing (B.erase key b.expired_hist_idx)) _ h2 in
            ap (λ (p : Buckets B.Bucket). p.names) (sym (ok-injective h3))
      ]

  delete_expired_backup-names :
      (key : Bytes) (b b' : Buckets B.Bucket)
      → delete_expired_backup B key b ≡ ok b'
      → b'.names ≡ b.names
  unfolding delete_expired_backup
  delete_expired_backup-names key b b' h =
      let (e, q0, h1) = >>=-eq-ok (map_err storing (B.erase key b.expired_names)) _ h in
      let (i, q1, h2) = >>=-eq-ok (map_err storing (B.erase key b.expired_names_idx)) _ h1 in
      ap (λ (p : Buckets B.Bucket). p.names) (sym (ok-injective h2))

  restore_expired_name-Writes :
      (key name : Bytes) (b b' : Buckets B.Bucket)
      → restore_expired_name B key b ≡ ok (name, b')
      → Writes name b.names b'.names
  unfolding restore_expired_name
  restore_expired_name-Writes key name b b' h =
      let ((n, b1), q0, h1) = >>=-eq-ok (restore_expired_name_record B key b) _ h in
      elim (Bool-cases (length n == 0)) [
        | inl q ↦
            let same = ok-injective (rw q at h1) in
            let same_name : n ≡ name = ap (λ (p : Bytes × Buckets B.Bucket). p.0) same in
            let same_names : b1.names ≡ b'.names =
              ap (λ (p : Bytes × Buckets B.Bucket). p.1.names) same in
            subst (λ x. Writes x b.names b'.names) same_name
              (subst (λ x. Writes n b.names x) same_names
                (restore_expired_name_record-Writes key n b b1 q0))
        | inr q ↦
            let (b2, q1, h2) = >>=-eq-ok (restore_expired_history B key n b1) _ (rw q at h1) in
            let (b3, q2, h3) = >>=-eq-ok (delete_expired_backup B key b2) _ h2 in
            let same_name : n ≡ name =
              ap (λ (p : Bytes × Buckets B.Bucket). p.0) (ok-injective h3) in
            let same_names : b1.names ≡ b'.names =
              sym (restore_expired_history-names key n b1 b2 q1)
              ∙ sym (delete_expired_backup-names key b2 b3 q2)
              ∙ ap (λ (p : Bytes × Buckets B.Bucket). p.1.names) (ok-injective h3) in
            subst (λ x. Writes x b.names b'.names) same_name
              (subst (λ x. Writes n b.names x) same_names
                (restore_expired_name_record-Writes key n b b1 q0))
      ]

  -- The names that the loop has written have left the cache, for the buckets that it leaves and for those it started with.
  pub restore_expired_names-Coherent :
      (keys : List Bytes) (before : B.Bucket) (b : Buckets B.Bucket) (cache : LruCache)
      → Coherent B before cache
      → Coherent B b.names cache
      → Coherent B before (restore_expired_names B keys b cache).1
        × ((u : Unit {0}) (b' : Buckets B.Bucket)
            → (restore_expired_names B keys b cache).0 ≡ ok (u, b')
            → Coherent B b'.names (restore_expired_names B keys b cache).1)
  unfolding restore_expired_names
  restore_expired_names-Coherent [] before b cache v w = (
    v,
    λ u b' h.
        subst (λ (x : Buckets B.Bucket). Coherent B x.names cache)
          (ap (λ (p : Unit {0} × Buckets B.Bucket). p.1) (ok-injective h)) w,
  )
  restore_expired_names-Coherent (key ∷ keys) before b cache v w =
      elim (Result-split (restore_expired_name B key b)) [
        | inr (inl (e, q)) ↦ rw (restore_expired_names, q) (v, λ u b' h. absurd (cc h))
        | inr (inr q) ↦ rw (restore_expired_names, q) (v, λ u b' h. absurd (cc h))
        | inl ((name, b'), q) ↦ elim (restore_expired_name-Writes key name b b' q) [
          | inl (n, same) ↦
              rw (restore_expired_names, q, n)
                (restore_expired_names-Coherent keys before b' cache v
                  (subst (λ x. Coherent B x cache) (sym same) w))
          | inr (n, same) ↦
              rw (restore_expired_names, q, n)
                (restore_expired_names-Coherent keys before b' (Cache.delete name cache).0
                  (Coherent-delete B before before cache name v (λ j ne. refl))
                  (Coherent-delete B b.names b'.names cache name w same))
        ]
      ]
