-- ===== src/Database/Utxos/Spending.antt =====
-- namedb/utxo.go: an output is added, spent with a backup, removed, and restored from the backup.
use nmcd.Prelude.{◌≡◌, refl, ap, none, some, inl, inr, Option-cases, subst, [], ◌∷◌}
use nmcd.Prelude.Bytes.{Bytes}
use nmcd.Int.{ℤ}
use nmcd.NameDb.{Utxo}
use nmcd.NameDb.UtxoSet.{
  make_utxo_key, make_utxo_address_key, make_spent_utxo_height_key, encode_utxo, decode_utxo,
}
use nmcd.Database.{Bbolt, BboltLaws, Buckets, DbError, storing, utxo_codec}
use nmcd.Database.Transactions.{map_err-eq-ok}
use nmcd.Database.Utxos.{add_utxo_tx, remove_utxo_tx, store_spent_utxo_tx}
use nmcd.Result.{ok, map_err, >>=-eq-ok, ok-injective}

module _ (B : Bbolt) (laws : BboltLaws B) where
  pub store-eq-ok :
      (k v : Bytes) (b : B.Bucket) {b' : B.Bucket}
      → map_err {E = B.StoreError} {F = DbError B.StoreError} storing (B.store k v b) ≡ ok b'
      → B.store k v b ≡ ok b'
  store-eq-ok k v b h = map_err-eq-ok storing (B.store k v b) h

  pub erase-eq-ok :
      (k : Bytes) (b : B.Bucket) {b' : B.Bucket}
      → map_err {E = B.StoreError} {F = DbError B.StoreError} storing (B.erase k b) ≡ ok b'
      → B.erase k b ≡ ok b'
  erase-eq-ok k b h = map_err-eq-ok storing (B.erase k b) h

  -- The entries of an output in the active set and in the backup.
  pub record Active (u : Utxo) (b : Buckets B.Bucket) : Type 0 where
    pub payload : Bytes
    pub encoded : encode_utxo u ≡ ok payload
    pub found : B.find (make_utxo_key u.tx_hash u.out_index) b.utxo ≡ some payload
    pub indexed :
        B.find (make_utxo_address_key u.address u.tx_hash u.out_index) b.utxo_addr ≡ some (1 ∷ [])

  pub record BackedUp (u : Utxo) (height : ℤ) (b : Buckets B.Bucket) : Type 0 where
    pub payload : Bytes
    pub encoded : encode_utxo u ≡ ok payload
    pub found : B.find (make_utxo_key u.tx_hash u.out_index) b.spent_utxo ≡ some payload
    pub indexed :
        B.find (make_spent_utxo_height_key height u.tx_hash u.out_index) b.spent_utxo_idx
        ≡ some (1 ∷ [])

  pub add_utxo_tx-Active :
      (u : Utxo) (b b' : Buckets B.Bucket) (x : Unit {0})
      → add_utxo_tx B u b ≡ ok (x, b')
      → Active u b'
  unfolding add_utxo_tx
  add_utxo_tx-Active u b b' x h =
      let key = make_utxo_key u.tx_hash u.out_index in
      let addr = make_utxo_address_key u.address u.tx_hash u.out_index in
      let (payload, q0, h1) = >>=-eq-ok (map_err utxo_codec (encode_utxo u)) _ h in
      let (p, q1, h2) = >>=-eq-ok (map_err storing (B.store key payload b.utxo)) _ h1 in
      let (a, q2, h3) = >>=-eq-ok (map_err storing (B.store addr (1 ∷ []) b.utxo_addr)) _ h2 in
      subst (λ (y : Buckets B.Bucket). Active u y)
        (ap (λ (y : Unit {0} × Buckets B.Bucket). y.1) (ok-injective h3))
        (record {
          payload = payload;
          encoded = map_err-eq-ok utxo_codec (encode_utxo u) q0;
          found = laws.find-store key payload b.utxo p (store-eq-ok key payload b.utxo q1);
          indexed =
              laws.find-store addr (1 ∷ []) b.utxo_addr a
                (store-eq-ok addr (1 ∷ []) b.utxo_addr q2);
        })

  pub store_spent_utxo_tx-BackedUp :
      (u : Utxo) (height : ℤ) (b b' : Buckets B.Bucket) (x : Unit {0})
      → store_spent_utxo_tx B u height b ≡ ok (x, b')
      → BackedUp u height b' × (b'.utxo ≡ b.utxo) × (b'.utxo_addr ≡ b.utxo_addr)
  unfolding store_spent_utxo_tx
  store_spent_utxo_tx-BackedUp u height b b' x h =
      let key = make_utxo_key u.tx_hash u.out_index in
      let index = make_spent_utxo_height_key height u.tx_hash u.out_index in
      let (payload, q0, h1) = >>=-eq-ok (map_err utxo_codec (encode_utxo u)) _ h in
      let (p, q1, h2) = >>=-eq-ok (map_err storing (B.store key payload b.spent_utxo)) _ h1 in
      let (a, q2, h3) =
        >>=-eq-ok (map_err storing (B.store index (1 ∷ []) b.spent_utxo_idx)) _ h2 in
      subst
        (λ (y : Buckets B.Bucket).
          BackedUp u height y × (y.utxo ≡ b.utxo) × (y.utxo_addr ≡ b.utxo_addr))
        (ap (λ (y : Unit {0} × Buckets B.Bucket). y.1) (ok-injective h3))
        (
          record {
            payload = payload;
            encoded = map_err-eq-ok utxo_codec (encode_utxo u) q0;
            found =
                laws.find-store key payload b.spent_utxo p
                  (store-eq-ok key payload b.spent_utxo q1);
            indexed =
                laws.find-store index (1 ∷ []) b.spent_utxo_idx a
                  (store-eq-ok index (1 ∷ []) b.spent_utxo_idx q2);
          },
          refl,
          refl,
        )

  -- `RemoveUTXO` leaves the backup, and no output under the key.
  pub remove_utxo_tx-BackedUp :
      (u : Utxo) (height : ℤ) (b b' : Buckets B.Bucket) (x : Unit {0})
      → BackedUp u height b
      → remove_utxo_tx B u.tx_hash u.out_index b ≡ ok (x, b')
      → BackedUp u height b' × (B.find (make_utxo_key u.tx_hash u.out_index) b'.utxo ≡ none)
  unfolding remove_utxo_tx
  remove_utxo_tx-BackedUp u height b b' x k h =
      let key = make_utxo_key u.tx_hash u.out_index in
      elim (Option-cases (B.find key b.utxo)) [
        | inl q ↦
            subst (λ (y : Buckets B.Bucket). BackedUp u height y × (B.find key y.utxo ≡ none))
              (ap (λ (y : Unit {0} × Buckets B.Bucket). y.1)
                (ok-injective (rw (remove_utxo_tx, q) at h)))
              (k, q)
        | inr (payload, q) ↦
            let (v, q0, h1) =
              >>=-eq-ok (map_err utxo_codec (decode_utxo u.tx_hash u.out_index payload)) _
                (rw (remove_utxo_tx, q) at h) in
            let addr = make_utxo_address_key v.address u.tx_hash u.out_index in
            let (a, q1, h2) = >>=-eq-ok (map_err storing (B.erase addr b.utxo_addr)) _ h1 in
            let (p, q2, h3) = >>=-eq-ok (map_err storing (B.erase key b.utxo)) _ h2 in
            subst (λ (y : Buckets B.Bucket). BackedUp u height y × (B.find key y.utxo ≡ none))
              (ap (λ (y : Unit {0} × Buckets B.Bucket). y.1) (ok-injective h3))
              (
                record {
                  payload = k.payload;
                  encoded = k.encoded;
                  found = k.found;
                  indexed = k.indexed;
                },
                laws.find-erase key b.utxo p (erase-eq-ok key b.utxo q2),
              )
      ]
