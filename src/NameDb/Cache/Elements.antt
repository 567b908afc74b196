-- ===== src/NameDb/Cache/Elements.antt =====
-- The list of the cache of namedb/cache.go, by pointer and by key.
use nmcd.Prelude.{
  ℕ, ◌+◌, ◌<◌, ◌≡◌, ◌≢◌, refl, sym, ◌∙◌, ap, [], ◌∷◌, List, Option, none, some, false, ◌==◌, ==_iff,
  if◌then◌else◌, length, ◌⊎◌, inl, inr, Bool-cases, arith, subst,
}
use nmcd.Prelude.Bytes.{Bytes, bytes_eq, bytes_eq_iff, bytes_eq_refl}
use nmcd.NameDb.Cache.{Element, find_element, remove_pointer, back}

-- The element with a key, read from the list alone.
unfoldable pub by_key : Bytes → List Element → Option Element
by_key k [] = none
by_key k (e ∷ list) = if bytes_eq k e.key then some e else by_key k list

-- No key and no pointer occurs twice, and the pointers were given out before `n`.
abbrev pub Distinct : ℕ → List Element → Type 0
Distinct n [] = Unit
Distinct n (e ∷ list) =
    (e.pointer < n)
    × (find_element e.pointer list ≡ none)
    × (by_key e.key list ≡ none)
    × Distinct n list

-- An element that is found by its key is found by its pointer.
pub find_element_of_by_key :
    (n : ℕ) (list : List Element) (k : Bytes) (e : Element)
    → Distinct n list
    → by_key k list ≡ some e
    → (find_element e.pointer list ≡ some e) × (e.key ≡ k)
unfolding by_key find_element
find_element_of_by_key n [] k e d h = cc
find_element_of_by_key n (x ∷ list) k e d h = elim (Bool-cases (bytes_eq k x.key)) [
  | inl q ↦
      let same : x ≡ e = cc (rw (by_key, q) at h) in
      subst (λ y. (find_element y.pointer (x ∷ list) ≡ some y) × (y.key ≡ k)) same
        (
          rw (find_element, (==_iff x.pointer x.pointer).1 refl) refl,
          sym ((bytes_eq_iff k x.key).0 q),
        )
  | inr q ↦
      let (f, l) = find_element_of_by_key n list k e d.3 (rw (by_key, q) at h) in
      elim (Bool-cases (e.pointer == x.pointer)) [
        | inl same ↦ absurd (cc (f, d.1, (==_iff e.pointer x.pointer).0 same))
        | inr other ↦ (rw (find_element, other) f, l)
      ]
]

-- The other way round.
pub by_key_of_find_element :
    (n : ℕ) (list : List Element) (p : ℕ) (e : Element)
    → Distinct n list
    → find_element p list ≡ some e
    → (by_key e.key list ≡ some e) × (e.pointer ≡ p)
unfolding by_key find_element
by_key_of_find_element n [] p e d f = cc
by_key_of_find_element n (x ∷ list) p e d f = elim (Bool-cases (p == x.pointer)) [
  | inl q ↦
      let same : x ≡ e = cc (rw (find_element, q) at f) in
      subst (λ y. (by_key y.key (x ∷ list) ≡ some y) × (y.pointer ≡ p)) same
        (rw (by_key, bytes_eq_refl x.key) refl, sym ((==_iff p x.pointer).0 q))
  | inr q ↦
      let (b, l) = by_key_of_find_element n list p e d.3 (rw (find_element, q) at f) in
      elim (Bool-cases (bytes_eq e.key x.key)) [
        | inl same ↦ absurd (cc (b, d.2, (bytes_eq_iff e.key x.key).0 same))
        | inr other ↦ (rw (by_key, other) b, l)
      ]
]

-- Removing a pointer leaves the other pointers and the keys of the other elements.
pub find_element-remove_pointer_ne :
    (p q : ℕ) (list : List Element)
    → q ≢ p
    → find_element q (remove_pointer p list) ≡ find_element q list
unfolding find_element remove_pointer
find_element-remove_pointer_ne p q [] h = refl
find_element-remove_pointer_ne p q (e ∷ list) h =
    ground (arith, find_element-remove_pointer_ne p q list h)

remove_pointer_absent :
    (p : ℕ) (list : List Element) → find_element p list ≡ none → remove_pointer p list ≡ list
unfolding find_element remove_pointer
remove_pointer_absent p [] h = refl
remove_pointer_absent p (e ∷ list) h = elim (Bool-cases (p == e.pointer)) [
  | inl same ↦ absurd (cc (rw (find_element, same) at h))
  | inr other ↦
      rw (remove_pointer, other)
        (ap (◌∷◌ e) (remove_pointer_absent p list (rw (find_element, other) at h)))
]

pub keys_differ : (k k' : Bytes) → k ≢ k' → bytes_eq k k' ≡ false
keys_differ k k' h = elim (Bool-cases (bytes_eq k k')) [
  | inl q ↦ absurd (h ((bytes_eq_iff k k').0 q))
  | inr q ↦ q
]

-- The first element is the one that is removed, or it is not.
pub remove_pointer-cases :
    (n : ℕ) (x e : Element) (list : List Element)
    → Distinct n (x ∷ list)
    → find_element e.pointer (x ∷ list) ≡ some e
    → ((x ≡ e) × (remove_pointer e.pointer (x ∷ list) ≡ list))
      ⊎ ((x.pointer ≢ e.pointer)
          × (find_element e.pointer list ≡ some e)
          × (remove_pointer e.pointer (x ∷ list) ≡ x ∷ remove_pointer e.pointer list))
unfolding find_element remove_pointer
remove_pointer-cases n x e list d f = elim (Bool-cases (e.pointer == x.pointer)) [
  | inl same ↦
      let q : e.pointer ≡ x.pointer = (==_iff e.pointer x.pointer).0 same in
      inl (
        cc (rw (find_element, same) at f),
        rw (remove_pointer, same) (remove_pointer_absent e.pointer list (rw q d.1)),
      )
  | inr other ↦ inr (
    (λ q. absurd (cc ((==_iff e.pointer x.pointer).1 (sym q), other))),
    rw (find_element, other) at f,
    rw (remove_pointer, other) refl,
  )
]

pub by_key-remove_pointer_ne :
    (n : ℕ) (list : List Element) (e : Element) (k : Bytes)
    → Distinct n list
    → find_element e.pointer list ≡ some e
    → k ≢ e.key
    → by_key k (remove_pointer e.pointer list) ≡ by_key k list
unfolding by_key find_element remove_pointer
by_key-remove_pointer_ne n [] e k d f h = refl
by_key-remove_pointer_ne n (x ∷ list) e k d f h = elim (remove_pointer-cases n x e list d f) [
  | inl (same, q) ↦
      rw (q, by_key, keys_differ k x.key (λ r. h (r ∙ ap (λ (y : Element). y.key) same))) refl
  | inr (other, f', q) ↦
      rw (q, by_key)
        (ap (λ o. if bytes_eq k x.key then some x else o)
          (by_key-remove_pointer_ne n list e k d.3 f' h))
]

pub by_key-remove_pointer_self :
    (n : ℕ) (list : List Element) (e : Element)
    → Distinct n list
    → find_element e.pointer list ≡ some e
    → by_key e.key (remove_pointer e.pointer list) ≡ none
unfolding by_key find_element
by_key-remove_pointer_self n [] e d f = cc
by_key-remove_pointer_self n (x ∷ list) e d f = elim (remove_pointer-cases n x e list d f) [
  | inl (same, q) ↦ rw (q, ← same) d.2
  | inr (other, f', q) ↦
      let differ : e.key ≢ x.key =
        λ r. absurd (cc ((by_key_of_find_element n list e.pointer e d.3 f').0, d.2, r)) in
      rw (q, by_key, keys_differ e.key x.key differ) (by_key-remove_pointer_self n list e d.3 f')
]

pub Distinct-remove_pointer :
    (n : ℕ) (list : List Element) (e : Element)
    → Distinct n list
    → find_element e.pointer list ≡ some e
    → Distinct n (remove_pointer e.pointer list)
unfolding find_element
Distinct-remove_pointer n [] e d f = cc
Distinct-remove_pointer n (x ∷ list) e d f = elim (remove_pointer-cases n x e list d f) [
  | inl (same, q) ↦ rw q d.3
  | inr (other, f', q) ↦ rw q (
    d.0,
    find_element-remove_pointer_ne e.pointer x.pointer list other ∙ d.1,
    by_key-remove_pointer_ne n list e x.key d.3 f'
          (λ r. absurd (cc ((by_key_of_find_element n list e.pointer e d.3 f').0, d.2, r)))
        ∙ d.2,
    Distinct-remove_pointer n list e d.3 f',
  )
]

pub length-remove_pointer :
    (n : ℕ) (list : List Element) (e : Element)
    → Distinct n list
    → find_element e.pointer list ≡ some e
    → length (remove_pointer e.pointer list) + 1 ≡ length list
unfolding find_element
length-remove_pointer n [] e d f = cc
length-remove_pointer n (x ∷ list) e d f = elim (remove_pointer-cases n x e list d f) [
  | inl (same, q) ↦ rw q (omega arith)
  | inr (other, f', q) ↦ rw q (omega (arith, length-remove_pointer n list e d.3 f'))
]

-- The last element is in the list under its key.
pub by_key_of_back :
    (n : ℕ) (list : List Element) (e : Element)
    → Distinct n list
    → back list ≡ some e
    → by_key e.key list ≡ some e
unfolding back by_key
by_key_of_back n [] e d h = cc
by_key_of_back n (x ∷ []) e d h =
    let same : x ≡ e = cc h in
    subst (λ y. by_key y.key (x ∷ []) ≡ some y) same (rw (by_key, bytes_eq_refl x.key) refl)
by_key_of_back n (x ∷ y ∷ list) e d h =
    let b = by_key_of_back n (y ∷ list) e d.3 h in
    elim (Bool-cases (bytes_eq e.key x.key)) [
      | inl same ↦ absurd (cc (b, d.2, (bytes_eq_iff e.key x.key).0 same))
      | inr other ↦ rw (by_key, other) b
    ]

pub Distinct-mono : (n : ℕ) (list : List Element) → Distinct n list → Distinct (n + 1) list
Distinct-mono n [] d = tt
Distinct-mono n (e ∷ list) d = (omega (arith, d.0), d.1, d.2, Distinct-mono n list d.3)

-- A pointer that was not given out is not in the list.
pub find_element_new : (n : ℕ) (list : List Element) → Distinct n list → find_element n list ≡ none
unfolding find_element
find_element_new n [] d = refl
find_element_new n (e ∷ list) d = ground (arith, find_element_new n list d.3)

pub find_element_lt :
    (n p : ℕ) (list : List Element) (e : Element)
    → Distinct n list
    → find_element p list ≡ some e
    → p < n
unfolding find_element
find_element_lt n p [] e d f = cc
find_element_lt n p (x ∷ list) e d f = elim (Bool-cases (p == x.pointer)) [
  | inl q ↦ rw ((==_iff p x.pointer).0 q) d.0
  | inr q ↦ find_element_lt n p list e d.3 (rw (find_element, q) at f)
]

pub find_element-remove_pointer_self :
    (p : ℕ) (list : List Element) → find_element p (remove_pointer p list) ≡ none
unfolding find_element remove_pointer
find_element-remove_pointer_self p [] = refl
find_element-remove_pointer_self p (e ∷ list) = elim (Bool-cases (p == e.pointer)) [
  | inl q ↦ rw (remove_pointer, q) (find_element-remove_pointer_self p list)
  | inr q ↦ rw (remove_pointer, q, find_element, q) (find_element-remove_pointer_self p list)
]
