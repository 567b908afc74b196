-- ===== src/NameDb/Cache.antt =====
-- namedb/cache.go: the LRU cache of name records, a map into a doubly linked list. An element of the
-- list is a pointer, here a number that is given out once; the mutex is held for each whole method.
pub mod Elements
pub mod Lookup
pub mod Bounded
pub mod Recency
use nmcd.Prelude.{
  ℕ, ◌+◌, ◌==◌, [], ◌∷◌, List, Option, none, some, Bool, true, false, if◌then◌else◌, ltb, length,
}
use nmcd.Prelude.Bytes.{Bytes, bytes_eq}
use nmcd.Int.{ℤ, pos, leb_ℤ, pos_part}
use nmcd.NameDb.{NameRecord}

-- A list element with its `cacheEntry`. The stored record is a copy.
pub record Element : Type 0 where
  pub pointer : ℕ
  pub key : Bytes
  pub value : NameRecord

-- `items` maps a key to an element; `list` has the most recently used element first.
pub record LruCache : Type 0 where
  pub capacity : ℕ
  pub items : List (Bytes × ℕ)
  pub list : List Element
  pub next_pointer : ℕ

unfoldable pub new_lru_cache : ℤ → LruCache
new_lru_cache capacity = record {
  capacity = (if leb_ℤ capacity (pos 0) then 10000 else pos_part capacity);
  items = [];
  list = [];
  next_pointer = 0;
}

-- The Go map from keys to elements.
unfoldable pub find_item : Bytes → List (Bytes × ℕ) → Option ℕ
find_item k [] = none
find_item k ((k', p) ∷ items) = if bytes_eq k k' then some p else find_item k items

unfoldable pub delete_item : Bytes → List (Bytes × ℕ) → List (Bytes × ℕ)
delete_item k [] = []
delete_item k ((k', p) ∷ items) =
    let kept = delete_item k items in if bytes_eq k k' then kept else (k', p) ∷ kept

-- The element at a pointer, and the list without it.
unfoldable pub find_element : ℕ → List Element → Option Element
find_element p [] = none
find_element p (e ∷ list) = if p == e.pointer then some e else find_element p list

unfoldable pub remove_pointer : ℕ → List Element → List Element
remove_pointer p [] = []
remove_pointer p (e ∷ list) =
    let kept = remove_pointer p list in if p == e.pointer then kept else e ∷ kept

-- `list.Back()`
unfoldable pub back : List Element → Option Element
back [] = none
back (e ∷ []) = some e
back (e ∷ e' ∷ list) = back (e' ∷ list)

-- The element that the map has for a key.
unfoldable pub element_of : Bytes → LruCache → Option Element
unfolding find_item find_element
element_of k c = elim (find_item k c.items) [ none ↦ none | some p ↦ find_element p c.list ]

-- `removeElement`
unfoldable pub remove_element : Element → LruCache → LruCache
unfolding remove_pointer delete_item
remove_element e c = record c {
  list = remove_pointer e.pointer c.list;
  items = delete_item e.key c.items;
}

-- `evictOldest`
unfoldable pub evict_oldest : LruCache → LruCache
unfolding back remove_element
evict_oldest c = elim (back c.list) [ none ↦ c | some e ↦ remove_element e c ]

unfoldable pub get : Bytes → LruCache → Option NameRecord × LruCache
unfolding element_of remove_pointer
get k c = elim (element_of k c) [
  | none ↦ (none, c)
  | some e ↦ (some e.value, record c { list = e ∷ remove_pointer e.pointer c.list })
]

-- The new element is at the front and in the map before the length is tested.
unfoldable pub push_new : Bytes → NameRecord → LruCache → LruCache
push_new k v c = record c {
  items = (k, c.next_pointer) ∷ c.items;
  list = record { pointer = c.next_pointer; key = k; value = v } ∷ c.list;
  next_pointer = c.next_pointer + 1;
}

-- The Boolean says that an element was evicted.
unfoldable pub put : Bytes → NameRecord → LruCache → LruCache × Bool
unfolding element_of remove_pointer push_new evict_oldest
put k v c = elim (element_of k c) [
  | some e ↦ (record c { list = record e { value = v } ∷ remove_pointer e.pointer c.list }, false)
  | none ↦
      let pushed = push_new k v c in
      if ltb c.capacity (length pushed.list) then (evict_oldest pushed, true) else (pushed, false)
]

unfoldable pub delete : Bytes → LruCache → LruCache × Bool
unfolding element_of remove_element
delete k c = elim (element_of k c) [ none ↦ (c, false) | some e ↦ (remove_element e c, true) ]

unfoldable pub clear : LruCache → LruCache
clear c = record c { items = []; list = [] }

abbrev pub len : LruCache → ℕ
len c = length c.list
