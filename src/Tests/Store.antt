-- ===== src/Tests/Store.antt =====
-- Buckets as lists of entries in the order of their keys, for the parameter that stands for bbolt.
use nmcd.Prelude.{
  ◌≡◌, ◌≢◌, ◌<◌, refl, sym, ◌∙◌, List, Option, none, some, if◌then◌else◌, length, [], ◌∷◌,
  Bool-cases, inl, inr, arith,
}
use nmcd.Prelude.Bytes.{Bytes, bytes_eq, bytes_eq_iff, bytes_eq_refl}
use nmcd.NameDb.Cache.Elements.{keys_differ}
use nmcd.Database.{Bbolt, BboltLaws}
use nmcd.Database.Names.{bytes_ltb}
use nmcd.Result.{Result, ok, err, ok-injective}

abbrev pub Entries : Type 0
Entries = List (Bytes × Bytes)

unfoldable pub find_entry : Bytes → Entries → Option Bytes
find_entry k [] = none
find_entry k ((j, v) ∷ entries) = if bytes_eq k j then some v else find_entry k entries

unfoldable pub insert_entry : Bytes → Bytes → Entries → Entries
insert_entry k v [] = (k, v) ∷ []
insert_entry k v ((j, w) ∷ entries) =
    let later = insert_entry k v entries in
    if bytes_eq k j
    then (k, v) ∷ entries
    else if bytes_ltb k j
    then (k, v) ∷ (j, w) ∷ entries
    else (j, w) ∷ later

unfoldable pub erase_entry : Bytes → Entries → Entries
erase_entry k [] = []
erase_entry k ((j, w) ∷ entries) =
    let kept = erase_entry k entries in if bytes_eq k j then kept else (j, w) ∷ kept

-- An empty key is refused.
unfoldable pub store_entry : Bytes → Bytes → Entries → Result (Unit {0}) Entries
store_entry [] v b = err tt
store_entry (x ∷ k) v b = ok (insert_entry (x ∷ k) v b)

abbrev pub list_bbolt : Bbolt
list_bbolt = record {
  Bucket = Entries;
  StoreError = Unit;
  find = find_entry;
  store = store_entry;
  erase = λ k b. ok (erase_entry k b);
  entries = λ b. b;
  commit = λ b. none;
}

find-insert : (k v : Bytes) (b : Entries) → find_entry k (insert_entry k v b) ≡ some v
unfolding find_entry insert_entry
find-insert k v [] = rw (bytes_eq_refl k) refl
find-insert k v ((j, w) ∷ b) = elim (Bool-cases (bytes_eq k j)) [
  | inl q ↦ rw (insert_entry, q, find_entry, bytes_eq_refl k) refl
  | inr q ↦ elim (Bool-cases (bytes_ltb k j)) [
    | inl l ↦ rw (insert_entry, q, l, find_entry, bytes_eq_refl k) refl
    | inr l ↦ rw (insert_entry, q, l, find_entry, q) (find-insert k v b)
  ]
]

find-insert_ne :
    (k v i : Bytes) (b : Entries) → i ≢ k → find_entry i (insert_entry k v b) ≡ find_entry i b
unfolding find_entry insert_entry
find-insert_ne k v i [] ne = rw (keys_differ i k ne) refl
find-insert_ne k v i ((j, w) ∷ b) ne = elim (Bool-cases (bytes_eq k j)) [
  | inl q ↦
      rw
        (
          insert_entry,
          q,
          find_entry,
          keys_differ i k ne,
          keys_differ i j (λ s. ne (s ∙ sym ((bytes_eq_iff k j).0 q))),
        )
        refl
  | inr q ↦ elim (Bool-cases (bytes_ltb k j)) [
    | inl l ↦ rw (insert_entry, q, l, find_entry, keys_differ i k ne) refl
    | inr l ↦ rw (insert_entry, q, l, find_entry, find-insert_ne k v i b ne) refl
  ]
]

find-erase_entry : (k : Bytes) (b : Entries) → find_entry k (erase_entry k b) ≡ none
unfolding find_entry erase_entry
find-erase_entry k [] = refl
find-erase_entry k ((j, w) ∷ b) = elim (Bool-cases (bytes_eq k j)) [
  | inl q ↦ rw (erase_entry, q) (find-erase_entry k b)
  | inr q ↦ rw (erase_entry, q, find_entry, q) (find-erase_entry k b)
]

find-erase_entry_ne :
    (k i : Bytes) (b : Entries) → i ≢ k → find_entry i (erase_entry k b) ≡ find_entry i b
unfolding find_entry erase_entry
find-erase_entry_ne k i [] ne = refl
find-erase_entry_ne k i ((j, w) ∷ b) ne = elim (Bool-cases (bytes_eq k j)) [
  | inl q ↦
      rw (erase_entry, q, find_entry, keys_differ i j (λ s. ne (s ∙ sym ((bytes_eq_iff k j).0 q))))
        (find-erase_entry_ne k i b ne)
  | inr q ↦ rw (erase_entry, q, find_entry, find-erase_entry_ne k i b ne) refl
]

store_entry-eq-ok :
    (k v : Bytes) (b b' : Entries)
    → store_entry k v b ≡ ok b'
    → (0 < length k) × (insert_entry k v b ≡ b')
unfolding store_entry
store_entry-eq-ok [] v b b' h = cc
store_entry-eq-ok (x ∷ k) v b b' h = (omega arith, ok-injective h)

store_entry_ok :
    (k v : Bytes) (b : Entries) → 0 < length k → store_entry k v b ≡ ok (insert_entry k v b)
unfolding store_entry
store_entry_ok [] v b l = absurd (omega (arith, l))
store_entry_ok (x ∷ k) v b l = refl

pub list_bbolt-BboltLaws : BboltLaws list_bbolt
list_bbolt-BboltLaws = record {
  find-store = λ k v b b' h. rw (← (store_entry-eq-ok k v b b' h).1) (find-insert k v b);
  find-store_ne =
      λ k v j b b' h ne. rw (← (store_entry-eq-ok k v b b' h).1) (find-insert_ne k v j b ne);
  find-erase = λ k b b' h. rw (← ok-injective h) (find-erase_entry k b);
  find-erase_ne = λ k j b b' h ne. rw (← ok-injective h) (find-erase_entry_ne k j b ne);
  store_key = λ k v b b' h. (store_entry-eq-ok k v b b' h).0;
  store_ok = λ k v b l m n. (insert_entry k v b, store_entry_ok k v b l);
  erase_ok = λ k b. (erase_entry k b, refl);
}
