-- ===== src/Database/Names/Expirations.antt =====
-- The index of expirations of namedb/namedb.go: the scan of `GetExpiredNames` stops at the first height that is not below.
use nmcd.Prelude.{
  ℕ, zero, suc, ◌/◌, ◌%◌, ◌^◌, ◌<◌, ◌≤◌, ◌≡◌, refl, sym, ◌∙◌, ap, List, true, false, if◌then◌else◌,
  ltb, lt→ltb, ltb-eq-false, le-or-lt, Bool-cases, inl, inr, All, length, take, drop, take-append,
  drop-append, length-append, map, arith, [], ◌∷◌, ◌++◌, append_assoc, subst,
}
use nmcd.Prelude.Bytes.{Bytes, be_bytes, be_value, length-be_bytes, be_value-be_bytes}
use nmcd.Int.{ℤ, pos, ltb_ℤ, to_u32, to_int32}
use nmcd.Database.{Bbolt, NameDatabase}
use nmcd.Database.Names.{bytes_ltb, make_expiration_key, scan_expired, get_expired_names}

-- An entry for a height and a name.
abbrev pub entry_of : ℕ × Bytes → Bytes × Bytes
entry_of (n, name) = (make_expiration_key (pos n) name, 1 ∷ [])

-- The names of the index whose height is below, in its order.
unfoldable pub expired_before : ℤ → List (ℕ × Bytes) → List Bytes
expired_before height [] = []
expired_before height ((n, name) ∷ index) =
    let rest = expired_before height index in if ltb_ℤ (pos n) height then name ∷ rest else rest

-- The order of a cursor: no later key is below an earlier one.
abbrev pub Sorted : List (Bytes × Bytes) → Type 0
Sorted [] = Unit
Sorted (e ∷ entries) = All (λ later. bytes_ltb later.0 e.0 ≡ false) entries × Sorted entries

bytes_ltb-append : (p s t : Bytes) → bytes_ltb (p ++ s) (p ++ t) ≡ bytes_ltb s t
unfolding bytes_ltb
bytes_ltb-append [] s t = refl
bytes_ltb-append (x ∷ p) s t = rw (ltb-eq-false x x (omega arith)) (bytes_ltb-append p s t)

-- Big-endian bytes are in the order of the numbers.
be_bytes-ordered :
    (k x y : ℕ) (s t : Bytes)
    → x < y
    → y < 256 ^ k
    → bytes_ltb (be_bytes k x ++ s) (be_bytes k y ++ t) ≡ true
unfolding be_bytes bytes_ltb
be_bytes-ordered zero x y s t l m = absurd (omega (arith, l, m))
be_bytes-ordered (suc k) x y s t l m =
    rw
      (
        append_assoc (be_bytes k (x / 256)) ((x % 256) ∷ []) s,
        append_assoc (be_bytes k (y / 256)) ((y % 256) ∷ []) t,
      )
      (elim (le-or-lt (y / 256) (x / 256)) [
        | inr high ↦
            be_bytes-ordered k (x / 256) (y / 256) ((x % 256) ∷ s) ((y % 256) ∷ t) high
              (omega (arith, m))
        | inl low ↦
            let same : x / 256 ≡ y / 256 = omega (arith, l, low) in
            let lower : x % 256 < y % 256 = omega (arith, l, same) in
            rw
              (
                same,
                bytes_ltb-append (be_bytes k (y / 256)) ((x % 256) ∷ s) ((y % 256) ∷ t),
                lt→ltb (x % 256) (y % 256) lower,
              )
              refl
      ])

in_range : (n : ℕ) → n < 2 ^ 31 → to_u32 (pos n) ≡ n
unfolding to_u32
in_range n l = omega (arith, l)

in_int32 : (n : ℕ) → n < 2 ^ 31 → to_int32 n ≡ pos n
unfolding to_int32
in_int32 n l = ground arith

-- The parts of a key as the scan reads them.
key_height :
    (n : ℕ) (name : Bytes)
    → n < 2 ^ 31
    → to_int32 (be_value (take 4 (make_expiration_key (pos n) name))) ≡ pos n
unfolding make_expiration_key
key_height n name l =
    let w = length-be_bytes 4 n in
    rw (in_range n l) (
      ap (λ b. to_int32 (be_value b))
        (subst (λ k. take k (be_bytes 4 n ++ name) ≡ be_bytes 4 n) w
          (take-append (be_bytes 4 n) name))
      ∙ ap to_int32 (be_value-be_bytes 4 n (omega (arith, l)))
      ∙ in_int32 n l)

key_name : (n : ℕ) (name : Bytes) → drop 4 (make_expiration_key (pos n) name) ≡ name
unfolding make_expiration_key
key_name n name =
    subst (λ k. drop k (be_bytes 4 (to_u32 (pos n)) ++ name) ≡ name)
      (length-be_bytes 4 (to_u32 (pos n))) (drop-append (be_bytes 4 (to_u32 (pos n))) name)

key_length : (n : ℕ) (name : Bytes) → ltb (length (make_expiration_key (pos n) name)) 4 ≡ false
unfolding make_expiration_key
key_length n name = ltb-eq-false (length (be_bytes 4 (to_u32 (pos n)) ++ name)) 4 (
    omega
      (arith, length-append (be_bytes 4 (to_u32 (pos n))) name, length-be_bytes 4 (to_u32 (pos n))))

-- A key that is not below another has no lower height.
ordered_heights :
    (n m : ℕ) (a b : Bytes)
    → n < 2 ^ 31
    → m < 2 ^ 31
    → bytes_ltb (make_expiration_key (pos m) b) (make_expiration_key (pos n) a) ≡ false
    → n ≤ m
unfolding make_expiration_key
ordered_heights n m a b l k h = elim (le-or-lt n m) [
  | inl le ↦ le
  | inr lt ↦
      absurd (
        cc (rw (in_range n l, in_range m k) at h, be_bytes-ordered 4 m n b a lt (omega (arith, l))))
]

-- No name behind a height that is not below has expired.
expired_before-none :
    (height : ℤ) (n : ℕ) (index : List (ℕ × Bytes))
    → ltb_ℤ (pos n) height ≡ false
    → All (λ e. n ≤ e.0) index
    → expired_before height index ≡ []
unfolding expired_before
expired_before-none height n [] h a = refl
expired_before-none height n ((m, name) ∷ index) h (le, a) =
    let late : ltb_ℤ (pos m) height ≡ false = ground (arith, h, le) in
    rw late (expired_before-none height n index h a)

heights_behind :
    (n : ℕ) (name : Bytes) (index : List (ℕ × Bytes))
    → n < 2 ^ 31
    → All (λ e. e.0 < 2 ^ 31) index
    → All
        (λ later. bytes_ltb later.0 (make_expiration_key (pos n) name) ≡ false)
        (map entry_of index)
    → All (λ e. n ≤ e.0) index
heights_behind n name [] l r a = tt
heights_behind n name ((m, other) ∷ index) l (k, r) (h, a) =
    (ordered_heights n m name other l k h, heights_behind n name index l r a)

scan_expired_lem :
    (height : ℤ) (index : List (ℕ × Bytes))
    → All (λ e. e.0 < 2 ^ 31) index
    → Sorted (map entry_of index)
    → scan_expired height (map entry_of index) ≡ expired_before height index
unfolding scan_expired expired_before
scan_expired_lem height [] r s = refl
scan_expired_lem height ((n, name) ∷ index) (l, r) (s, t) =
    elim (Bool-cases (ltb_ℤ (pos n) height)) [
      | inl below ↦
          rw (scan_expired, key_length n name, key_height n name l, below, key_name n name)
            (ap (◌∷◌ name) (scan_expired_lem height index r t))
      | inr late ↦
          rw (scan_expired, key_length n name, key_height n name l, late)
            (sym (expired_before-none height n index late (heights_behind n name index l r s)))
    ]

-- An index of expirations whose keys are made from heights that are not negative int32 numbers and from names, in the order of
-- the keys. `GetExpiredNames` answers exactly the names whose height is below the one asked for: none behind the entry where
-- the scan stops is missed.
pub get_expired_names-exact :
    (B : Bbolt) (d : NameDatabase B) (height : ℤ) (index : List (ℕ × Bytes))
    → All (λ e. e.0 < 2 ^ 31) index
    → B.entries d.db.expiration ≡ map entry_of index
    → Sorted (B.entries d.db.expiration)
    → get_expired_names B height d ≡ expired_before height index
get_expired_names-exact B d height index r q s =
    ap (scan_expired height) q ∙ scan_expired_lem height index r (subst Sorted q s)
