-- ===== src/Database/Names/Writes.antt =====
-- What the transactions of `PutName`, `DeleteName` and `RestoreExpiredNamesForBlock` write to the names bucket.
use nmcd.Prelude.{◌≡◌, ◌≢◌, refl, ◌∙◌, ap, [], ◌∷◌}
use nmcd.Prelude.Bytes.{Bytes}
use nmcd.NameDb.{NameRecord}
use nmcd.NameDb.Record.{encode_name_record}
use nmcd.NameDb.Record.RoundTrip.{IsEncodable, decode-encode_name_record}
use nmcd.Database.{Bbolt, BboltLaws, Buckets, storing, name_not_found}
use nmcd.Database.Transactions.{map_err-eq-ok}
use nmcd.Database.Names.{
  load_name, with_name, put_name_tx, delete_name_tx, delete_old_expiration_index, delete_name_index,
  make_expiration_key,
}
use nmcd.Result.{ok, err, map_err, >>=-eq-ok, ok-injective}

module _ (B : Bbolt) (laws : BboltLaws B) where
  pub load_name-find :
      (j : Bytes) (a b : B.Bucket) → B.find j a ≡ B.find j b → load_name B j a ≡ load_name B j b
  unfolding load_name
  load_name-find j a b q = rw (load_name, q) refl

  pub load_name_stored :
      (name : Bytes) (r : NameRecord) (before after : B.Bucket)
      → IsEncodable r
      → B.store name (encode_name_record r) before ≡ ok after
      → load_name B name after ≡ ok (with_name name r)
  unfolding load_name
  load_name_stored name r before after e q =
      rw
        (
          load_name,
          laws.find-store name (encode_name_record r) before after q,
          decode-encode_name_record r e,
        )
        refl

  pub load_name_kept :
      (name v : Bytes) (before after : B.Bucket)
      → B.store name v before ≡ ok after
      → (j : Bytes) → j ≢ name
      → load_name B j after ≡ load_name B j before
  load_name_kept name v before after q j ne =
      load_name-find j after before (laws.find-store_ne name v j before after q ne)

  pub load_name_erased :
      (name : Bytes) (before after : B.Bucket)
      → B.erase name before ≡ ok after
      → (load_name B name after ≡ err name_not_found)
        × ((j : Bytes) → j ≢ name → load_name B j after ≡ load_name B j before)
  unfolding load_name
  load_name_erased name before after q = (
    rw (load_name, laws.find-erase name before after q) refl,
    λ j ne. load_name-find j after before (laws.find-erase_ne name j before after q ne),
  )

  pub put_name_tx-writes :
      (name : Bytes) (r : NameRecord) (b b' : Buckets B.Bucket) (u : Unit {0})
      → put_name_tx B name r b ≡ ok (u, b')
      → B.store name (encode_name_record r) b.names ≡ ok b'.names
  unfolding put_name_tx
  put_name_tx-writes name r b b' u h =
      let (old, q0, h1) = >>=-eq-ok (delete_old_expiration_index B b.names b.expiration name) _ h in
      let (names', q1, h2) =
        >>=-eq-ok (map_err storing (B.store name (encode_name_record r) b.names)) _ h1 in
      let (index', q2, h3) =
        >>=-eq-ok (map_err storing (B.store (make_expiration_key r.expires_at name) (1 ∷ []) old)) _
          h2 in
      let same : names' ≡ b'.names =
        ap (λ (p : Unit {0} × Buckets B.Bucket). p.1.names) (ok-injective h3) in
      map_err-eq-ok storing (B.store name (encode_name_record r) b.names) q1 ∙ ap ok same

  pub delete_name_tx-writes :
      (name : Bytes) (b b' : Buckets B.Bucket) (u : Unit {0})
      → delete_name_tx B name b ≡ ok (u, b')
      → B.erase name b.names ≡ ok b'.names
  unfolding delete_name_tx
  delete_name_tx-writes name b b' u h =
      let (old, q0, h1) = >>=-eq-ok (delete_name_index B b.names b.expiration name) _ h in
      let (names', q1, h2) = >>=-eq-ok (map_err storing (B.erase name b.names)) _ h1 in
      let same : names' ≡ b'.names =
        ap (λ (p : Unit {0} × Buckets B.Bucket). p.1.names) (ok-injective h2) in
      map_err-eq-ok storing (B.erase name b.names) q1 ∙ ap ok same
