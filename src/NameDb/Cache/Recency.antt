-- ===== src/NameDb/Cache/Recency.antt =====
-- The order of the cache's list in namedb/cache.go: the most recently used key is first.
use nmcd.Prelude.{
  ℕ, zero, suc, ◌+◌, ◌≤◌, ◌≡◌, ◌≢◌, ◌⊎◌, refl, sym, ◌∙◌, ap, subst, [], ◌∷◌, List, Option, none,
  some, true, if◌then◌else◌, length, take, inl, inr, Bool-cases, Option-cases, le-or-lt, arith,
}
use nmcd.Prelude.Bytes.{Bytes, bytes_eq, bytes_eq_iff, Bytes-cases}
use nmcd.NameDb.{NameRecord}
use nmcd.NameDb.Cache.{
  Element, LruCache, find_element, remove_pointer, back, get, put, push_new, remove_element,
}
use nmcd.NameDb.Cache.Elements.{
  by_key, Distinct, find_element_of_by_key, remove_pointer-cases, keys_differ, by_key_of_back,
  by_key_of_find_element,
}
use nmcd.NameDb.Cache.Lookup.{IsValid, cached, element_of_lem, shorter}
use nmcd.NameDb.Cache.Bounded.{put_lem, push_new-Indexed, back_of_full, put_grows, put_evicts}

-- The keys of the list, from the front.
abbrev pub keys : List Element → List Bytes
keys [] = []
keys (e ∷ list) = e.key ∷ keys list

abbrev pub recent : LruCache → List Bytes
recent c = keys c.list

-- The keys without one of them.
unfoldable pub without : Bytes → List Bytes → List Bytes
without k [] = []
without k (j ∷ ks) = let rest = without k ks in if bytes_eq k j then rest else j ∷ rest

without_absent :
    (k : Bytes) (list : List Element) → by_key k list ≡ none → without k (keys list) ≡ keys list
unfolding without by_key
without_absent k [] q = refl
without_absent k (e ∷ list) q = elim (Bool-cases (bytes_eq k e.key)) [
  | inl same ↦ absurd (cc (rw (by_key, same) at q))
  | inr other ↦
      rw (without, other) (ap (◌∷◌ e.key) (without_absent k list (rw (by_key, other) at q)))
]

-- An element that is taken out by its pointer takes its key out.
keys-remove_pointer :
    (n : ℕ) (list : List Element) (e : Element)
    → Distinct n list
    → find_element e.pointer list ≡ some e
    → keys (remove_pointer e.pointer list) ≡ without e.key (keys list)
unfolding without find_element
keys-remove_pointer n [] e d f = cc
keys-remove_pointer n (x ∷ list) e d f = elim (remove_pointer-cases n x e list d f) [
  | inl (same, q) ↦
      let key : x.key ≡ e.key = ap (λ (y : Element). y.key) same in
      rw (q, without, (bytes_eq_iff e.key x.key).1 (sym key))
        (sym (without_absent e.key list (subst (λ k. by_key k list ≡ none) key d.2)))
  | inr (other, f', q) ↦
      let differ : e.key ≢ x.key =
        λ r. absurd (cc ((by_key_of_find_element n list e.pointer e d.3 f').0, d.2, r)) in
      rw (q, without, keys_differ e.key x.key differ)
        (ap (◌∷◌ x.key) (keys-remove_pointer n list e d.3 f'))
]

-- The last element leaves all keys but the last.
keys-remove_back :
    (n : ℕ) (x : Element) (list : List Element) (e : Element)
    → Distinct n (x ∷ list)
    → back (x ∷ list) ≡ some e
    → keys (remove_pointer e.pointer (x ∷ list)) ≡ take (length list) (x.key ∷ keys list)
unfolding back find_element
keys-remove_back n x [] e d b =
    let f = (find_element_of_by_key n (x ∷ []) e.key e d (by_key_of_back n (x ∷ []) e d b)).0 in
    elim (remove_pointer-cases n x e [] d f) [
      | inl (same, q) ↦ rw q refl
      | inr (other, f', q) ↦ absurd (cc f')
    ]
keys-remove_back n x (y ∷ list) e d b =
    let found = by_key_of_back n (y ∷ list) e d.3 b in
    let f =
      (find_element_of_by_key n (x ∷ y ∷ list) e.key e d
        (by_key_of_back n (x ∷ y ∷ list) e d b)).0 in
    elim (remove_pointer-cases n x e (y ∷ list) d f) [
      | inl (same, q) ↦ absurd (cc (found, d.2, same))
      | inr (other, f', q) ↦ rw q (ap (◌∷◌ x.key) (keys-remove_back n y list e d.3 b))
    ]

length-keys : (list : List Element) → length (keys list) ≡ length list
length-keys [] = refl
length-keys (e ∷ list) = ap suc (length-keys list)

take_long : (m : ℕ) (ks : List Bytes) → length ks ≤ m → take m ks ≡ ks
take_long zero [] l = refl
take_long zero (k ∷ ks) l = absurd (omega (arith, l))
take_long (suc m) [] l = refl
take_long (suc m) (k ∷ ks) l = ap (◌∷◌ k) (take_long m ks (omega (arith, l)))

-- The keys after a use of a key that the cache may hold.
abbrev pub used : Option NameRecord → Bytes → List Bytes → List Bytes
used none k ks = ks
used (some r) k ks = k ∷ without k ks

module _ (k : Bytes) (c : LruCache) (v : IsValid c) where
  moved_keys :
      (e : Element)
      → by_key k c.list ≡ some e
      → e.key ∷ keys (remove_pointer e.pointer c.list) ≡ k ∷ without k (recent c)
  moved_keys e q =
      let (f, key) = find_element_of_by_key c.next_pointer c.list k e v.indexed.distinct q in
      ap (◌∷◌ e.key) (keys-remove_pointer c.next_pointer c.list e v.indexed.distinct f)
      ∙ ap (λ j. j ∷ without j (recent c)) key

  recent-get : recent (get k c).1 ≡ used (cached k c) k (recent c)
  unfolding get cached
  recent-get = elim (Option-cases (by_key k c.list)) [
    | inl q ↦ rw (get, element_of_lem k c v.indexed, q, cached) refl
    | inr (e, q) ↦ rw (get, element_of_lem k c v.indexed, q, cached) (moved_keys e q)
  ]

  recent-put : (w : NameRecord) → recent (put k w c).0 ≡ take c.capacity (k ∷ without k (recent c))
  unfolding put push_new remove_element
  recent-put w = elim (Option-cases (by_key k c.list)) [
    | inr (e, q) ↦
        rw (put, element_of_lem k c v.indexed, q)
          (sym (
              take_long c.capacity (e.key ∷ keys (remove_pointer e.pointer c.list)) (
                omega (
                  arith,
                  v.bounded,
                  shorter c v.indexed k e q,
                  length-keys (remove_pointer e.pointer c.list),
                )))
            ∙ ap (take c.capacity) (moved_keys e q))
    | inl q ↦ elim (le-or-lt c.capacity (length c.list)) [
      | inr l ↦
          rw (put_grows k w c v q l, without_absent k c.list q)
            (sym (take_long c.capacity (k ∷ recent c) (omega (arith, l, length-keys c.list))))
      | inl l ↦
          let x : Element = record { pointer = c.next_pointer; key = k; value = w } in
          let (e, b, b') = back_of_full x c.list (omega (arith, l, v.room)) in
          let full : length c.list ≡ c.capacity = omega (arith, l, v.bounded) in
          rw (put_evicts k w c v q e l b, without_absent k c.list q, ← full)
            (keys-remove_back (c.next_pointer + 1) x c.list e
              (push_new-Indexed k w c v.indexed q).distinct b)
    ]
  ]

-- For a cache whose map and list agree, within a positive capacity, with its keys in the order of their last use. `Put`
-- keeps the cache so, and it then holds the record for the key. The key becomes the most recently used one, the others keep
-- their order, and only as many as the capacity stay; `Get` makes a key that the cache holds the most recently used one,
-- and changes nothing for another. For any other key than the one that is put, the cache holds what it held, or it was full
-- and the key was the last in the order: then it is forgotten.
pub cached-put-IsValid :
    (c : LruCache)
    → IsValid c
    → (k : Bytes) (w : NameRecord) (j : Bytes)
    → IsValid (put k w c).0
      × (cached k (put k w c).0 ≡ some w)
      × (recent (put k w c).0 ≡ take c.capacity (k ∷ without k (recent c)))
      × (recent (get k c).1 ≡ used (cached k c) k (recent c))
      × ((j ≡ k)
          ⊎ (cached j (put k w c).0 ≡ cached j c)
          ⊎ ((e : Element) × ((put k w c).1 ≡ true)
              × (back c.list ≡ some e)
              × (length c.list ≡ c.capacity)
              × (e.key ≡ j)
              × (j ≢ k)
              × (cached j (put k w c).0 ≡ none)))
cached-put-IsValid c v k w j =
    let p = put_lem k w c v in
    (
      p.0,
      p.1,
      recent-put k c v w,
      recent-get k c v,
      elim (Bytes-cases j k) [
        | inl same ↦ inl same
        | inr ne ↦ elim p.2 [
          | inl (f, all) ↦ inr (inl (all j ne))
          | inr (e, t, b, l, n, forgotten, all) ↦ elim (Bytes-cases j e.key) [
            | inl same ↦ inr (inr (e, t, b, l, sym same, ne, rw same forgotten))
            | inr other ↦ inr (inl (all j ne other))
          ]
        ]
      ],
    )
