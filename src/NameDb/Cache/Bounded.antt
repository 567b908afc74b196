-- ===== src/NameDb/Cache/Bounded.antt =====
-- The methods of the cache of namedb/cache.go as a bounded partial map.
use nmcd.Prelude.{
  ◌<◌, ◌≤◌, ◌≡◌, ◌≢◌, ◌⊎◌, refl, sym, ◌∙◌, [], ◌∷◌, List, none, some, true, false, if◌then◌else◌,
  length, inl, inr, Bool-cases, Option-cases, le-or-lt, ltb-eq-false, lt→ltb, arith,
}
use nmcd.Prelude.Bytes.{Bytes, bytes_eq, bytes_eq_iff, bytes_eq_refl}
use nmcd.Int.{ℤ}
use nmcd.NameDb.{NameRecord}
use nmcd.NameDb.Cache.{
  Element, LruCache, new_lru_cache, find_item, back, remove_element, evict_oldest, get, push_new,
  put, delete, clear,
}
use nmcd.NameDb.Cache.Elements.{
  by_key, keys_differ, by_key_of_back, Distinct-mono, find_element_new,
}
use nmcd.NameDb.Cache.Lookup.{
  IsValid, Indexed, cached, element_of_lem, shorter, remove_element-Indexed,
  cached-remove_element_self, cached-remove_element_ne, moved, cached-moved_self, cached-moved_ne,
  moved-Indexed,
}

pub new_lru_cache-IsValid : (capacity : ℤ) → IsValid (new_lru_cache capacity)
unfolding new_lru_cache find_item by_key
new_lru_cache-IsValid capacity = record {
  indexed = record { agree = λ k. refl; distinct = tt };
  bounded = ground arith;
  room = ground arith;
}

pub cached-new_lru_cache : (capacity : ℤ) (j : Bytes) → cached j (new_lru_cache capacity) ≡ none
unfolding new_lru_cache cached by_key
cached-new_lru_cache capacity j = refl

moved-IsValid :
    (c : LruCache) (v : IsValid c) (k : Bytes) (e : Element) (q : by_key k c.list ≡ some e)
    (w : NameRecord)
    → IsValid (moved c v.indexed k e q w)
moved-IsValid c v k e q w = record {
  indexed = moved-Indexed c v.indexed k e q w;
  bounded = omega (arith, v.bounded, shorter c v.indexed k e q);
  room = v.room;
}

-- `Get` returns what the cache holds for the key and changes what it holds for no key.
pub get_lem :
    (k : Bytes) (c : LruCache)
    → IsValid c
    → ((get k c).0 ≡ cached k c)
      × IsValid (get k c).1
      × ((j : Bytes) → cached j (get k c).1 ≡ cached j c)
unfolding get cached
get_lem k c v = elim (Option-cases (by_key k c.list)) [
  | inl q ↦ rw (get, element_of_lem k c v.indexed, q) (refl, v, λ j. refl)
  | inr (e, q) ↦
      rw (get, element_of_lem k c v.indexed, q)
        (
          refl,
          moved-IsValid c v k e q e.value,
          λ j. elim (Bool-cases (bytes_eq j k)) [
            | inl r ↦
                rw ((bytes_eq_iff j k).0 r)
                  (cached-moved_self c v.indexed k e q e.value ∙ sym (rw (cached, q) refl))
            | inr r ↦
                cached-moved_ne c v.indexed k e q e.value j
                  (λ s. absurd (cc ((bytes_eq_iff j k).1 s, r)))
          ],
        )
]

remove_element_bound :
    (k : Bytes) (c : LruCache) (v : IsValid c) (e : Element)
    → by_key k c.list ≡ some e
    → length (remove_element e c).list ≤ (remove_element e c).capacity
unfolding remove_element
remove_element_bound k c v e q = omega (arith, v.bounded, shorter c v.indexed k e q)

remove_element_room :
    (c : LruCache) (v : IsValid c) (e : Element) → 0 < (remove_element e c).capacity
unfolding remove_element
remove_element_room c v e = v.room

-- `Delete` forgets the key and no other, and tells whether the cache held it.
pub delete_lem :
    (k : Bytes) (c : LruCache)
    → IsValid c
    → (((delete k c).1 ≡ false) ⊎ (cached k c ≢ none))
      × IsValid (delete k c).0
      × (cached k (delete k c).0 ≡ none)
      × ((j : Bytes) → j ≢ k → cached j (delete k c).0 ≡ cached j c)
unfolding delete cached
delete_lem k c v = elim (Option-cases (by_key k c.list)) [
  | inl q ↦
      rw (delete, element_of_lem k c v.indexed, q) (inl refl, v, rw (cached, q) refl, λ j ne. refl)
  | inr (e, q) ↦
      rw (delete, element_of_lem k c v.indexed, q)
        (
          inr (λ r. absurd (cc r)),
          record {
            indexed = remove_element-Indexed c v.indexed k e q;
            bounded = remove_element_bound k c v e q;
            room = remove_element_room c v e;
          },
          cached-remove_element_self c v.indexed k e q,
          cached-remove_element_ne c v.indexed k e q,
        )
]

pub push_new-Indexed :
    (k : Bytes) (w : NameRecord) (c : LruCache)
    → Indexed c
    → by_key k c.list ≡ none
    → Indexed (push_new k w c)
unfolding push_new find_item by_key
push_new-Indexed k w c v q = record {
  agree = λ j. elim (Bool-cases (bytes_eq j k)) [
    | inl r ↦ rw (find_item, r) refl
    | inr r ↦ rw (find_item, r) (v.agree j)
  ];
  distinct = (
    omega arith,
    find_element_new c.next_pointer c.list v.distinct,
    q,
    Distinct-mono c.next_pointer c.list v.distinct,
  );
}

cached-push_new :
    (k j : Bytes) (w : NameRecord) (c : LruCache)
    → cached j (push_new k w c) ≡ (if bytes_eq j k then some w else cached j c)
unfolding push_new cached by_key
cached-push_new k j w c = elim (Bool-cases (bytes_eq j k)) [
  | inl r ↦ rw (by_key, r) refl
  | inr r ↦ rw (by_key, r) refl
]

-- A full cache has a last element, and it is the last one when another is in front.
pub back_of_full :
    (x : Element) (list : List Element)
    → 0 < length list
    → (e : Element) × (back (x ∷ list) ≡ some e) × (back list ≡ some e)
unfolding back
back_of_full x [] l = absurd (omega (arith, l))
back_of_full x (y ∷ []) l = (y, refl, refl)
back_of_full x (y ∷ z ∷ list) l = back_of_full y (z ∷ list) (ground arith)

-- What `Put` does with a new key: the cache grows, or the least recently used key is forgotten.
module _ (k : Bytes) (w : NameRecord) (c : LruCache) (v : IsValid c)
    (q : by_key k c.list ≡ none) where
  pushed-IsValid : length c.list < c.capacity → IsValid (push_new k w c)
  unfolding push_new
  pushed-IsValid l = record {
    indexed = push_new-Indexed k w c v.indexed q;
    bounded = omega (arith, l);
    room = v.room;
  }

  pushed_self : cached k (push_new k w c) ≡ some w
  pushed_self = rw (cached-push_new k k w c, bytes_eq_refl k) refl

  pushed_ne : (j : Bytes) → j ≢ k → cached j (push_new k w c) ≡ cached j c
  pushed_ne j ne = rw (cached-push_new k j w c, keys_differ j k ne) refl

  module _ (e : Element) (b : back c.list ≡ some e) where
    evicted_key : by_key e.key c.list ≡ some e
    evicted_key = by_key_of_back c.next_pointer c.list e v.indexed.distinct b

    evicted_ne : e.key ≢ k
    evicted_ne r = absurd (cc (evicted_key, q, r))

    evicted_in_pushed : by_key e.key (push_new k w c).list ≡ some e
    unfolding push_new by_key
    evicted_in_pushed = rw (by_key, keys_differ e.key k evicted_ne) evicted_key

    evicted-IsValid : IsValid (remove_element e (push_new k w c))
    unfolding remove_element push_new
    evicted-IsValid =
        let i = push_new-Indexed k w c v.indexed q in
        record {
          indexed = remove_element-Indexed (push_new k w c) i e.key e evicted_in_pushed;
          bounded = omega (arith, v.bounded, shorter (push_new k w c) i e.key e evicted_in_pushed);
          room = v.room;
        }

    evicted_forgotten : cached e.key (remove_element e (push_new k w c)) ≡ none
    evicted_forgotten =
        cached-remove_element_self (push_new k w c) (push_new-Indexed k w c v.indexed q) e.key e
          evicted_in_pushed

    kept :
        (j : Bytes)
        → j ≢ e.key
        → cached j (remove_element e (push_new k w c)) ≡ cached j (push_new k w c)
    kept =
        cached-remove_element_ne (push_new k w c) (push_new-Indexed k w c v.indexed q) e.key e
          evicted_in_pushed

  pub put_grows : length c.list < c.capacity → put k w c ≡ (push_new k w c, false)
  unfolding put push_new
  put_grows l =
      rw
        (
          put,
          element_of_lem k c v.indexed,
          q,
          ltb-eq-false c.capacity (length (push_new k w c).list) (omega (arith, l)),
        )
        refl

  pub put_evicts :
      (e : Element)
      → c.capacity ≤ length c.list
      → back (push_new k w c).list ≡ some e
      → put k w c ≡ (remove_element e (push_new k w c), true)
  unfolding put evict_oldest push_new
  put_evicts e l b =
      rw
        (
          put,
          element_of_lem k c v.indexed,
          q,
          lt→ltb c.capacity (length (push_new k w c).list) (omega (arith, l)),
          evict_oldest,
          b,
        )
        refl

-- `Put` makes the cache hold the record for the key. Without an eviction nothing else changes; with one the cache was full,
-- and the least recently used key, another one, is forgotten.
pub put_lem :
    (k : Bytes) (w : NameRecord) (c : LruCache)
    → IsValid c
    → IsValid (put k w c).0
      × (cached k (put k w c).0 ≡ some w)
      × ((((put k w c).1 ≡ false) × ((j : Bytes) → j ≢ k → cached j (put k w c).0 ≡ cached j c))
          ⊎ ((e : Element) × ((put k w c).1 ≡ true)
              × (back c.list ≡ some e)
              × (length c.list ≡ c.capacity)
              × (e.key ≢ k)
              × (cached e.key (put k w c).0 ≡ none)
              × ((j : Bytes) → j ≢ k → j ≢ e.key → cached j (put k w c).0 ≡ cached j c)))
unfolding put
put_lem k w c v = elim (Option-cases (by_key k c.list)) [
  | inr (e, q) ↦
      rw (put, element_of_lem k c v.indexed, q)
        (
          moved-IsValid c v k e q w,
          cached-moved_self c v.indexed k e q w,
          inl (refl, cached-moved_ne c v.indexed k e q w),
        )
  | inl q ↦ elim (le-or-lt c.capacity (length c.list)) [
    | inr l ↦
        rw (put_grows k w c v q l)
          (pushed-IsValid k w c v q l, pushed_self k w c v q, inl (refl, pushed_ne k w c v q))
    | inl l ↦
        let (e, b, b') =
          back_of_full (record { pointer = c.next_pointer; key = k; value = w }) c.list
            (omega (arith, l, v.room)) in
        rw (put_evicts k w c v q e l b) (
          evicted-IsValid k w c v q e b',
          kept k w c v q e b' k (λ r. evicted_ne k w c v q e b' (sym r)) ∙ pushed_self k w c v q,
          inr (
            e,
            refl,
            b',
            omega (arith, l, v.bounded),
            evicted_ne k w c v q e b',
            evicted_forgotten k w c v q e b',
            λ j n m. kept k w c v q e b' j m ∙ pushed_ne k w c v q j n,
          ),
        )
  ]
]

pub clear-IsValid :
    (c : LruCache) → IsValid c → IsValid (clear c) × ((j : Bytes) → cached j (clear c) ≡ none)
unfolding clear cached by_key find_item
clear-IsValid c v = (
  record {
    indexed = record { agree = λ k. refl; distinct = tt };
    bounded = omega arith;
    room = v.room;
  },
  λ j. refl,
)
