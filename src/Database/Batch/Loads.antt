-- ===== src/Database/Batch/Loads.antt =====
-- namedb/batch.go: what the loops of a commit write to the names bucket.
use nmcd.Prelude.{
  ℕ, ◌≡◌, sym, ◌∙◌, ap, List, Option, none, some, if◌then◌else◌, inl, inr, Bool-cases, All, [], ◌∷◌,
}
use nmcd.Prelude.Bytes.{Bytes, bytes_eq, bytes_eq_iff}
use nmcd.NameDb.{NameRecord}
use nmcd.NameDb.Record.{encode_name_record}
use nmcd.NameDb.Record.RoundTrip.{IsEncodable}
use nmcd.Database.{Bbolt, BboltLaws, Buckets, DbError, each, storing, name_not_found}
use nmcd.Database.Transactions.{map_err-eq-ok}
use nmcd.Database.Names.{load_name, with_name, put_name_tx, delete_old_expiration_index}
use nmcd.Database.Names.Writes.{
  put_name_tx-writes, load_name_stored, load_name_kept, load_name_erased,
}
use nmcd.Database.Batch.{buckets_after, write_name, write_deleted_name}
use nmcd.Result.{Result, ok, err, panic, map_err, >>=-eq-ok, ok-injective}

-- The value of a map at a key, and maps with each key once.
unfoldable pub lookup : {A : Type 0} → Bytes → List (Bytes × A) → Option A
lookup k [] = none
lookup k ((j, v) ∷ m) = if bytes_eq k j then some v else lookup k m

abbrev pub DistinctKeys : {A : Type 0} → List (Bytes × A) → Type 0
DistinctKeys [] = Unit
DistinctKeys ((k, v) ∷ m) = (lookup k m ≡ none) × DistinctKeys m

-- What becomes of the answer for a name that a map of pending writes has, or has not.
abbrev pub after_put :
    {E : Type 0} → Bytes → Option NameRecord → Result E NameRecord → Result E NameRecord
after_put j none before = before
after_put j (some r) before = ok (with_name j r)

abbrev pub after_delete :
    {S : Type 0} → Option (Unit {0}) → Result (DbError S) NameRecord → Result (DbError S) NameRecord
after_delete none before = before
after_delete (some u) before = err name_not_found

pub each-names :
    {S E A : Type 0} (body : A → Buckets S → Result E (Buckets S))
    → ((x : A) (b b' : Buckets S) → body x b ≡ ok b' → b'.names ≡ b.names)
    → (list : List A) (b b' : Buckets S) → each body list b ≡ ok b'
    → b'.names ≡ b.names
unfolding each
each-names body keeps [] b b' h = ap (λ (x : Buckets _). x.names) (sym (ok-injective h))
each-names body keeps (x ∷ list) b b' h =
    let (b1, q, h1) = >>=-eq-ok (body x b) _ h in
    each-names body keeps list b1 b' h1 ∙ keeps x b b1 q

module _ (B : Bbolt) (laws : BboltLaws B) where
  pub buckets_after-eq-ok :
      (order : ℕ → (A : Type 0) → List (Bytes × A) → List (Bytes × A))
      (r : Result (DbError B.StoreError) (Unit {0} × Buckets B.Bucket)) (b : Buckets B.Bucket)
      → buckets_after B order r ≡ ok b
      → r ≡ ok (tt, b)
  buckets_after-eq-ok order (ok (u, x)) b h = ap (λ y. ok (tt, y)) (ok-injective h)
  buckets_after-eq-ok order (err e) b h = cc
  buckets_after-eq-ok order panic b h = cc

  module _ (order : ℕ → (A : Type 0) → List (Bytes × A) → List (Bytes × A)) where
    pub write_names-loads :
        (list : List (Bytes × NameRecord)) (b b' : Buckets B.Bucket) (j : Bytes)
        → All (λ e. IsEncodable e.1) list
        → DistinctKeys list
        → each (write_name B order) list b ≡ ok b'
        → load_name B j b'.names ≡ after_put j (lookup j list) (load_name B j b.names)
    unfolding each write_name lookup
    write_names-loads [] b b' j e d h =
        ap (λ (x : Buckets B.Bucket). load_name B j x.names) (sym (ok-injective h))
    write_names-loads ((k, r) ∷ list) b b' j (e, es) (d, ds) h =
        let (b1, q, h1) = >>=-eq-ok (write_name B order (k, r) b) _ h in
        let stored =
          put_name_tx-writes B laws k r b b1 tt
            (buckets_after-eq-ok order (put_name_tx B k r b) b1 q) in
        let rest = write_names-loads list b1 b' j es ds h1 in
        elim (Bool-cases (bytes_eq j k)) [
          | inl same ↦
              let eq = (bytes_eq_iff j k).0 same in
              rest ∙ rw (same, eq, d) (load_name_stored B laws k r b.names b1.names e stored)
          | inr other ↦
              rest
              ∙ rw other (
                  ap (after_put j (lookup j list)) (
                    load_name_kept B laws k (encode_name_record r) b.names b1.names stored j
                      (λ s. absurd (cc ((bytes_eq_iff j k).1 s, other)))))
        ]

    pub delete_names-loads :
        (list : List (Bytes × Unit {0})) (b b' : Buckets B.Bucket) (j : Bytes)
        → DistinctKeys list
        → each (write_deleted_name B order) list b ≡ ok b'
        → load_name B j b'.names ≡ after_delete (lookup j list) (load_name B j b.names)
    unfolding each write_deleted_name lookup
    delete_names-loads [] b b' j d h =
        ap (λ (x : Buckets B.Bucket). load_name B j x.names) (sym (ok-injective h))
    delete_names-loads ((k, u) ∷ list) b b' j (d, ds) h =
        let (b1, q, h1) = >>=-eq-ok (write_deleted_name B order (k, u) b) _ h in
        let (x, q0, h2) = >>=-eq-ok (delete_old_expiration_index B b.names b.expiration k) _ q in
        let (n, q1, h3) = >>=-eq-ok (map_err storing (B.erase k b.names)) _ h2 in
        let erased : B.erase k b.names ≡ ok b1.names =
          map_err-eq-ok storing (B.erase k b.names) q1
          ∙ ap (λ (y : Buckets B.Bucket). ok y.names) (ok-injective h3) in
        let rest = delete_names-loads list b1 b' j ds h1 in
        let gone = load_name_erased B laws k b.names b1.names erased in
        elim (Bool-cases (bytes_eq j k)) [
          | inl same ↦ rest ∙ rw (same, (bytes_eq_iff j k).0 same, d) gone.0
          | inr other ↦
              rest
              ∙ rw other (
                  ap (after_delete (lookup j list))
                    (gone.1 j (λ s. absurd (cc ((bytes_eq_iff j k).1 s, other)))))
        ]
