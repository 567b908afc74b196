-- ===== src/Database/Transactions.antt =====
-- What `update` and the bodies of transactions leave, for namedb/namedb.go.
use nmcd.Prelude.{◌≡◌, refl, ◌⊎◌, inl, inr, Option-cases}
use nmcd.Database.{Bbolt, Buckets, DbError, NameDatabase, update, storing}
use nmcd.Result.{Result, ok, err, panic, map_err, Result-split}

pub map_err-eq-ok {ℓ} :
    {E F : Type 0} {A : Type ℓ} (f : E → F) (r : Result E A) {a : A} → map_err f r ≡ ok a → r ≡ ok a
map_err-eq-ok f (ok x) h = cc
map_err-eq-ok f (err e) h = cc
map_err-eq-ok f panic h = cc

-- A transaction leaves its buckets, or the database is as before and the answer is an error (or a panic).
pub update-cases :
    (B : Bbolt) {A : Type 0}
    (t : Buckets B.Bucket → Result (DbError B.StoreError) (A × Buckets B.Bucket))
    (d : NameDatabase B)
    → ((a : A) × (b : Buckets B.Bucket) × (t d.db ≡ ok (a, b))
        × (update t d ≡ (ok a, record d { db = b })))
      ⊎ ((e : DbError B.StoreError) × (update t d ≡ (err e, d)))
      ⊎ (update t d ≡ (panic, d))
unfolding update
update-cases B t d = elim (Result-split (t d.db)) [
  | inl ((a, b), q) ↦ elim (Option-cases (B.commit b)) [
    | inl c ↦ inl (a, b, q, rw (update, q, c) refl)
    | inr (e, c) ↦ inr (inl (storing e, rw (update, q, c) refl))
  ]
  | inr (inl (e, q)) ↦ inr (inl (e, rw (update, q) refl))
  | inr (inr q) ↦ inr (inr (rw (update, q) refl))
]
