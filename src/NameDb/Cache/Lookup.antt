-- ===== src/NameDb/Cache/Lookup.antt =====
-- The methods of the cache of namedb/cache.go as a bounded partial map.
use nmcd.Prelude.{
  ℕ, ◌+◌, ◌<◌, ◌≤◌, ◌≡◌, ◌≢◌, refl, sym, ◌∙◌, ap, [], ◌∷◌, List, Option, none, some, if◌then◌else◌,
  length, inl, inr, Bool-cases, Option-cases,
}
use nmcd.Prelude.Bytes.{Bytes, bytes_eq, bytes_eq_iff, bytes_eq_refl}
use nmcd.NameDb.{NameRecord}
use nmcd.NameDb.Cache.{
  Element, LruCache, find_item, delete_item, find_element, remove_pointer, element_of,
  remove_element,
}
use nmcd.NameDb.Cache.Elements.{
  by_key, Distinct, find_element_of_by_key, by_key-remove_pointer_ne, by_key-remove_pointer_self,
  Distinct-remove_pointer, find_element-remove_pointer_self, find_element_lt, keys_differ,
  length-remove_pointer,
}

abbrev pub pointer_of : Option Element → Option ℕ
pointer_of none = none
pointer_of (some e) = some e.pointer

abbrev pub value_of : Option Element → Option NameRecord
value_of none = none
value_of (some e) = some e.value

-- The map and the list have the same entries, one for each key.
pub record Indexed (c : LruCache) : Type 0 where
  pub agree : (k : Bytes) → find_item k c.items ≡ pointer_of (by_key k c.list)
  pub distinct : Distinct c.next_pointer c.list

-- There are at most `capacity` entries.
pub record IsValid (c : LruCache) : Type 0 where
  pub indexed : Indexed c
  pub bounded : length c.list ≤ c.capacity
  pub room : 0 < c.capacity

-- What the cache holds for a key.
unfoldable pub cached : Bytes → LruCache → Option NameRecord
cached k c = value_of (by_key k c.list)

pub element_of_lem : (k : Bytes) (c : LruCache) → Indexed c → element_of k c ≡ by_key k c.list
unfolding element_of
element_of_lem k c v = elim (Option-cases (by_key k c.list)) [
  | inl q ↦ rw (element_of, v.agree k, q) refl
  | inr (e, q) ↦
      rw (element_of, v.agree k, q)
        (find_element_of_by_key c.next_pointer c.list k e v.distinct q).0
]

find_item-delete_item_self :
    (k : Bytes) (items : List (Bytes × ℕ)) → find_item k (delete_item k items) ≡ none
unfolding find_item delete_item
find_item-delete_item_self k [] = refl
find_item-delete_item_self k ((k', p) ∷ items) = elim (Bool-cases (bytes_eq k k')) [
  | inl q ↦ rw (delete_item, q) (find_item-delete_item_self k items)
  | inr q ↦ rw (delete_item, q, find_item, q) (find_item-delete_item_self k items)
]

find_item-delete_item_ne :
    (k j : Bytes) (items : List (Bytes × ℕ))
    → k ≢ j
    → find_item k (delete_item j items) ≡ find_item k items
unfolding find_item delete_item
find_item-delete_item_ne k j [] h = refl
find_item-delete_item_ne k j ((k', p) ∷ items) h = elim (Bool-cases (bytes_eq j k')) [
  | inl q ↦
      rw (delete_item, q, find_item, keys_differ k k' (λ r. h (r ∙ sym ((bytes_eq_iff j k').0 q))))
        (find_item-delete_item_ne k j items h)
  | inr q ↦
      rw (delete_item, q, find_item)
        (ap (λ o. if bytes_eq k k' then some p else o) (find_item-delete_item_ne k j items h))
]

-- An element that the list has under a key.
module _ (c : LruCache) (v : Indexed c) (k : Bytes) (e : Element)
    (q : by_key k c.list ≡ some e) where
  found : (find_element e.pointer c.list ≡ some e) × (e.key ≡ k)
  found = find_element_of_by_key c.next_pointer c.list k e v.distinct q

  removed_self : by_key k (remove_pointer e.pointer c.list) ≡ none
  removed_self =
      rw (sym found.1) (by_key-remove_pointer_self c.next_pointer c.list e v.distinct found.0)

  removed_ne : (j : Bytes) → j ≢ k → by_key j (remove_pointer e.pointer c.list) ≡ by_key j c.list
  removed_ne j ne =
      by_key-remove_pointer_ne c.next_pointer c.list e j v.distinct found.0 (λ r. ne (r ∙ found.1))

  pub shorter : length (remove_pointer e.pointer c.list) + 1 ≡ length c.list
  shorter = length-remove_pointer c.next_pointer c.list e v.distinct found.0

  -- It is taken out.
  pub remove_element-Indexed : Indexed (remove_element e c)
  unfolding remove_element
  remove_element-Indexed = record {
    agree = λ j. elim (Bool-cases (bytes_eq j k)) [
      | inl r ↦
          rw ((bytes_eq_iff j k).0 r, removed_self, found.1) (find_item-delete_item_self k c.items)
      | inr r ↦
          let ne : j ≢ k = λ s. absurd (cc ((bytes_eq_iff j k).1 s, r)) in
          rw (removed_ne j ne, found.1) (find_item-delete_item_ne j k c.items ne ∙ v.agree j)
    ];
    distinct = Distinct-remove_pointer c.next_pointer c.list e v.distinct found.0;
  }

  pub cached-remove_element_self : cached k (remove_element e c) ≡ none
  unfolding cached remove_element
  cached-remove_element_self = rw removed_self refl

  pub cached-remove_element_ne : (j : Bytes) → j ≢ k → cached j (remove_element e c) ≡ cached j c
  unfolding cached remove_element
  cached-remove_element_ne j ne = rw (removed_ne j ne) refl

  -- It is put in front, with any value.
  module _ (w : NameRecord) where
    abbrev pub moved : LruCache
    moved = record c { list = record e { value = w } ∷ remove_pointer e.pointer c.list }

    pub cached-moved_self : cached k moved ≡ some w
    unfolding cached by_key
    cached-moved_self = rw (found.1, bytes_eq_refl k) refl

    by_key_moved_ne : (j : Bytes) → j ≢ k → by_key j moved.list ≡ by_key j c.list
    unfolding by_key
    by_key_moved_ne j ne =
        rw (by_key, keys_differ j e.key (λ r. ne (r ∙ found.1))) (removed_ne j ne)

    pub cached-moved_ne : (j : Bytes) → j ≢ k → cached j moved ≡ cached j c
    unfolding cached
    cached-moved_ne j ne = rw (by_key_moved_ne j ne) refl

    pub moved-Indexed : Indexed moved
    unfolding by_key
    moved-Indexed = record {
      agree = λ j. elim (Bool-cases (bytes_eq j k)) [
        | inl r ↦
            rw ((bytes_eq_iff j k).0 r, found.1, bytes_eq_refl k) (v.agree k ∙ ap pointer_of q)
        | inr r ↦ rw (by_key_moved_ne j (λ s. absurd (cc ((bytes_eq_iff j k).1 s, r)))) (v.agree j)
      ];
      distinct = (
        find_element_lt c.next_pointer e.pointer c.list e v.distinct found.0,
        find_element-remove_pointer_self e.pointer c.list,
        by_key-remove_pointer_self c.next_pointer c.list e v.distinct found.0,
        Distinct-remove_pointer c.next_pointer c.list e v.distinct found.0,
      );
    }
