-- ===== src/Database/Commitments/Once.antt =====
-- namedb/namedb.go: a NAME_NEW commitment is stored once and read back.
use nmcd.Prelude.{
  ◌≡◌, ◌≢◌, refl, ◌∙◌, ap, none, some, ◌⊎◌, inl, inr, Option-cases, length, arith, ltb-eq-false,
  take_of_length,
}
use nmcd.Prelude.Bytes.{Bytes, Bytes-cases, le_bytes, length-le_bytes, le_value-le_bytes}
use nmcd.Int.{ℤ, IsInt32, to_u32, to_int32-to_u32, to_u32-lt}
use nmcd.Database.{
  Bbolt, BboltLaws, Buckets, NameDatabase, storing, commitment_exists, commitment_not_found, update,
}
use nmcd.Database.Transactions.{map_err-eq-ok, update-cases}
use nmcd.Database.Commitments.{put_name_new, put_name_new_tx, get_name_new}
use nmcd.Result.{ok, err, map_err, >>=-eq-ok, ok-injective}

module _ (B : Bbolt) (laws : BboltLaws B) where
  get_name_new_stored :
      (hash : Bytes) (height : ℤ) (d : NameDatabase B)
      → IsInt32 height
      → B.find hash d.db.name_new ≡ some (le_bytes 4 (to_u32 height))
      → get_name_new B hash d ≡ ok (record { hash = hash; height = height })
  unfolding get_name_new
  get_name_new_stored hash height d i q =
      let width = length-le_bytes 4 (to_u32 height) in
      rw
        (
          get_name_new,
          q,
          ltb-eq-false (length (le_bytes 4 (to_u32 height))) 4 (omega (arith, width)),
          take_of_length 4 (le_bytes 4 (to_u32 height)) width,
          le_value-le_bytes 4 (to_u32 height) (to_u32-lt height),
          to_int32-to_u32 height i,
        )
        refl

  get_name_new-find :
      (j : Bytes) (d d' : NameDatabase B)
      → B.find j d.db.name_new ≡ B.find j d'.db.name_new
      → get_name_new B j d ≡ get_name_new B j d'
  unfolding get_name_new
  get_name_new-find j d d' q = rw (get_name_new, q) refl

  put_name_new_tx-writes :
      (hash : Bytes) (height : ℤ) (b b' : Buckets B.Bucket) (u : Unit {0})
      → put_name_new_tx B hash height b ≡ ok (u, b')
      → (B.find hash b.name_new ≡ none)
        × (B.store hash (le_bytes 4 (to_u32 height)) b.name_new ≡ ok b'.name_new)
  unfolding put_name_new_tx
  put_name_new_tx-writes hash height b b' u h = elim (Option-cases (B.find hash b.name_new)) [
    | inr (payload, q) ↦ absurd (cc (rw (put_name_new_tx, q) at h))
    | inl q ↦
        let (n, q1, h1) =
          >>=-eq-ok (map_err storing (B.store hash (le_bytes 4 (to_u32 height)) b.name_new)) _
            (rw (put_name_new_tx, q) at h) in
        (
          q,
          map_err-eq-ok storing (B.store hash (le_bytes 4 (to_u32 height)) b.name_new) q1
              ∙ ap (λ (p : Unit {0} × Buckets B.Bucket). ok p.1.name_new) (ok-injective h1),
        )
  ]

  put_name_new_twice :
      (hash : Bytes) (height : ℤ) (v : Bytes) (d : NameDatabase B)
      → B.find hash d.db.name_new ≡ some v
      → put_name_new B hash height d ≡ (err commitment_exists, d)
  unfolding put_name_new put_name_new_tx update
  put_name_new_twice hash height v d q = rw (put_name_new, update, put_name_new_tx, q) refl

  -- A height in the range of int32. `PutNameNew` stores a commitment only where there is none; then `GetNameNew` answers
  -- the hash and the height, the other commitments are as before, and a second `PutNameNew` of the hash, with any height,
  -- has the error for a commitment that exists and changes nothing. Otherwise the first had no value and changed nothing.
  pub get_name_new-put_name_new :
      (d : NameDatabase B) (hash : Bytes) (height height' : ℤ) (j : Bytes)
      → IsInt32 height
      → (((put_name_new B hash height d).0 ≡ ok tt)
          × (get_name_new B hash d ≡ err commitment_not_found)
          × (get_name_new B hash (put_name_new B hash height d).1
              ≡ ok (record { hash = hash; height = height }))
          × (put_name_new B hash height' (put_name_new B hash height d).1
              ≡ (err commitment_exists, (put_name_new B hash height d).1))
          × ((j ≡ hash) ⊎ (get_name_new B j (put_name_new B hash height d).1 ≡ get_name_new B j d)))
        ⊎ (((put_name_new B hash height d).0 ≢ ok tt) × ((put_name_new B hash height d).1 ≡ d))
  unfolding put_name_new get_name_new
  get_name_new-put_name_new d hash height height' j i =
      elim (update-cases B (put_name_new_tx B hash height) d) [
        | inl (u, b, q, h) ↦
            let (absent, stored) = put_name_new_tx-writes hash height d.db b u q in
            let after : NameDatabase B = record d { db = b } in
            let now =
              laws.find-store hash (le_bytes 4 (to_u32 height)) d.db.name_new b.name_new stored in
            rw h (
              inl (
                refl,
                rw (get_name_new, absent) refl,
                get_name_new_stored hash height after i now,
                put_name_new_twice hash height' (le_bytes 4 (to_u32 height)) after now,
                elim (Bytes-cases j hash) [
                  | inl eq ↦ inl eq
                  | inr ne ↦ inr (
                      get_name_new-find j after d (
                        laws.find-store_ne hash (le_bytes 4 (to_u32 height)) j d.db.name_new
                          b.name_new stored ne))
                ],
              ))
        | inr (inl (e, h)) ↦ rw h (inr ((λ r. absurd (cc r)), refl))
        | inr (inr h) ↦ rw h (inr ((λ r. absurd (cc r)), refl))
      ]
