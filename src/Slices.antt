-- ===== src/Slices.antt =====
-- Indexing and slicing with Go's bounds checks: out of range is a panic.
use nmcd.Prelude.{
  ℕ, suc, [], inl, inr, length-drop, take-append-drop, drop-drop, length-take, sym,
  get_elem?_of_drop, drop-eq-cons, drop_split, le-or-lt, ◌+◌, ◌-◌, ◌≤◌, ◌<◌, ◌≡◌, ◌∙◌, Option, none,
  some, ◌∷◌, ◌++◌, ◌&&◌, arith, leb, if◌then◌else◌, length, get_elem?, get_elem?-append,
  get_elem?-some, take, drop, take-append, drop-append, length-append, ap,
}
use nmcd.Prelude.Bytes.{Bytes}
use nmcd.Result.{Result, ok, panic, ok-injective, Returns}

unfoldable pub or_panic {ℓ} : {E : Type 0} {A : Type ℓ} → Option A → Result E A
or_panic none = panic
or_panic (some a) = ok a

-- `s[i]`
unfoldable pub index : {E : Type 0} → Bytes → ℕ → Result E ℕ
unfolding or_panic
index s i = or_panic (get_elem? s i)

-- `s[i:j]`
unfoldable pub slice : {E : Type 0} → Bytes → ℕ → ℕ → Result E Bytes
slice s i j = if leb i j && leb j (length s) then ok (take (j - i) (drop i s)) else panic

module _ {E : Type 0} where
  pub index_lem :
      (s : Bytes) (i : ℕ)
      → i < length s
      → (b : ℕ) × (index {E = E} s i ≡ ok b) × (drop i s ≡ b ∷ drop (i + 1) s)
  unfolding index
  index_lem s i h = let (b, e) = get_elem?-some s i h in (b, rw e, drop-eq-cons s i e)

  pub slice_lem :
      (s : Bytes) (i n : ℕ) → i + n ≤ length s → slice {E = E} s i (i + n) ≡ ok (take n (drop i s))
  unfolding slice
  slice_lem s i n h = ground arith

  pub index-append :
      (xs ys : Bytes) (y i : ℕ) → i ≡ length xs → index {E = E} (xs ++ y ∷ ys) i ≡ ok y
  unfolding index
  index-append xs ys y i h = rw (h, get_elem?-append)

  pub slice-append :
      (xs ys zs : Bytes) (i j : ℕ)
      → i ≡ length xs
      → j ≡ length xs + length ys
      → slice {E = E} (xs ++ (ys ++ zs)) i j ≡ ok ys
  slice-append xs ys zs i j hi hj =
      rw (hi, hj)
        (slice_lem (xs ++ (ys ++ zs)) (length xs) (length ys)
            (omega (arith, length-append xs (ys ++ zs), length-append ys zs))
          ∙ ap ok (rw (drop-append xs (ys ++ zs)) (take-append ys zs)))

-- The same accesses seen from the part of the slice that is still to be read, `drop i s`.
or_panic-eq-ok {ℓ} :
    {E : Type 0} {A : Type ℓ} (o : Option A) {a : A} → or_panic {E = E} o ≡ ok a → o ≡ some a
unfolding or_panic
or_panic-eq-ok none h = cc
or_panic-eq-ok (some b) h = cc

module _ {E : Type 0} where
  pub index-eq-ok :
      (s : Bytes) (i : ℕ) {b : ℕ} → index {E = E} s i ≡ ok b → drop i s ≡ b ∷ drop (i + 1) s
  unfolding index or_panic
  index-eq-ok s i h = drop-eq-cons s i (or_panic-eq-ok {E = E} (get_elem? s i) h)

  pub index_of_drop :
      (s : Bytes) (i : ℕ) {b : ℕ} {r : Bytes}
      → drop i s ≡ b ∷ r
      → (index {E = E} s i ≡ ok b) × (drop (i + 1) s ≡ r) × (i < length s)
  unfolding index or_panic
  index_of_drop s i {b} {r} h =
      let l : length s - i ≡ suc (length r) = sym (length-drop i s) ∙ ap length h in
      (rw (get_elem?_of_drop s i h), (drop_split s i (b ∷ []) r h).1, omega arith)

  pub slice-eq-ok :
      (s : Bytes) (i n : ℕ) {d : Bytes}
      → slice {E = E} s i (i + n) ≡ ok d
      → (drop i s ≡ d ++ drop (i + n) s) × (length d ≡ n)
  unfolding slice
  slice-eq-ok s i n {d} h = elim (le-or-lt (i + n) (length s)) [
    | inl fits ↦
        let t : d ≡ take n (drop i s) = sym (ok-injective (sym (slice_lem s i n fits) ∙ h)) in
        (
          rw (t, ← drop-drop n i s, take-append-drop),
          ap length t ∙ length-take n (drop i s) (omega (arith, length-drop i s)),
        )
    | inr short ↦ absurd (ground arith)
  ]

  pub slice_of_drop :
      (s : Bytes) (i : ℕ) (d r : Bytes)
      → drop i s ≡ d ++ r
      → i ≤ length s
      → (slice {E = E} s i (i + length d) ≡ ok d)
        × (drop (i + length d) s ≡ r)
        × (i + length d ≤ length s)
  slice_of_drop s i d r h p =
      let l : length s - i ≡ length d + length r =
        sym (length-drop i s) ∙ ap length h ∙ length-append d r in
      (
        slice_lem s i (length d) (omega arith) ∙ ap ok (drop_split s i d r h).0,
        (drop_split s i d r h).1,
        omega arith,
      )

-- From the offset on, the data is `r`.
pub record At (payload : Bytes) (o : ℕ) (r : Bytes) : Type 0 where
  pub left : drop o payload ≡ r
  pub inside : o ≤ length payload

pub slice-At :
    {E : Type 0} (payload : Bytes) (o n : ℕ) (d r : Bytes)
    → At payload o (d ++ r)
    → length d ≡ n
    → (slice {E = E} payload o (o + n) ≡ ok d) × At payload (o + n) r × (o + n ≤ length payload)
slice-At {E} payload o n d r a e =
    let (s, t, b) = slice_of_drop {E = E} payload o d r a.left a.inside in
    (rw e at s, record { left = rw e at t; inside = rw e at b }, rw e at b)

pub index-At :
    {E : Type 0} (payload : Bytes) (o : ℕ) (b : ℕ) (r : Bytes)
    → At payload o (b ∷ r)
    → (index {E = E} payload o ≡ ok b) × At payload (o + 1) r × (o < length payload)
index-At {E} payload o b r a =
    let (i, t, l) = index_of_drop {E = E} payload o a.left in
    (i, record { left = t; inside = omega arith }, l)

module _ (E : Type 0) where
  pub index-Returns : (s : Bytes) (i : ℕ) → i < length s → Returns (index {E = E} s i)
  index-Returns s i h = rw ((index_lem {E = E} s i h).1) tt

  pub slice-Returns : (s : Bytes) (i n : ℕ) → i + n ≤ length s → Returns (slice {E = E} s i (i + n))
  slice-Returns s i n h = rw (slice_lem {E = E} s i n h) tt
