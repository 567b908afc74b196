-- ===== src/NameDb/UtxoSet/Keys.antt =====
-- The keys of the index buckets of namedb/utxo.go, and their parsers.
use nmcd.Prelude.{
  ℕ, ◌+◌, ◌^◌, ◌<◌, ◌≡◌, refl, ap, sym, ◌∙◌, ◌++◌, length, take, drop, take_of_length, arith,
  ltb-eq-false, length-append, take-append, drop-append, drop-drop, some, ==_iff,
}
use nmcd.Prelude.Bytes.{Bytes, be_bytes, be_value, length-be_bytes, be_value-be_bytes}
use nmcd.Int.{ℤ, to_u32}
use nmcd.NameDb.UtxoSet.{
  make_utxo_address_key, make_spent_utxo_height_key, parse_spent_utxo_height_key,
  parse_address_index_key,
}

-- The ranges of a transaction hash and of an output index.
pub record IsOutpoint (tx_hash : Bytes) (out_index : ℕ) : Type 0 where
  pub hash_size : length tx_hash ≡ 32
  pub index_u32 : out_index < 2 ^ 32

-- The hash and the index as they follow the first bytes of an index key.
abbrev tail : Bytes → ℕ → Bytes
tail h i = h ++ be_bytes 4 i

length-key : (p h : Bytes) (i : ℕ) → length h ≡ 32 → length (p ++ tail h i) ≡ length p + 32 + 4
length-key p h i l =
    omega (arith, length-append p (tail h i), length-append h (be_bytes 4 i), length-be_bytes 4 i)

hash_of_key :
    (p h : Bytes) (i n : ℕ) → n ≡ length p → length h ≡ 32 → take 32 (drop n (p ++ tail h i)) ≡ h
hash_of_key p h i n e l = rw (e, drop-append p (tail h i), ← l) (take-append h (be_bytes 4 i))

index_of_key :
    (p h : Bytes) (i n : ℕ)
    → n ≡ length p + 32
    → IsOutpoint h i
    → be_value (take 4 (drop n (p ++ tail h i))) ≡ i
index_of_key p h i n e o =
    let d : drop n (p ++ tail h i) ≡ be_bytes 4 i =
      rw (e, ← drop-drop 32 (length p) (p ++ tail h i), drop-append p (tail h i), ← o.hash_size)
        (drop-append h (be_bytes 4 i)) in
    let t : take 4 (be_bytes 4 i) ≡ be_bytes 4 i =
      take_of_length 4 (be_bytes 4 i) (length-be_bytes 4 i) in
    ap (λ b. be_value (take 4 b)) d ∙ ap be_value t ∙ be_value-be_bytes 4 i o.index_u32

-- Parsing an address-index key against the address that it was made with gives back the hash and the
-- index, for a 32-byte hash and an index in the range of uint32.
pub parse-make_utxo_address_key :
    (address h : Bytes) (i : ℕ)
    → IsOutpoint h i
    → parse_address_index_key address (make_utxo_address_key address h i) ≡ some (h, i)
unfolding parse_address_index_key make_utxo_address_key
parse-make_utxo_address_key address h i o = rw (
  (==_iff _ _).1 (length-key address h i o.hash_size),
  hash_of_key address h i (length address) refl o.hash_size,
  index_of_key address h i (length address + 32) refl o,
)

-- A key of the height index of spent outputs parses to the hash and the index that it was made with,
-- for a 32-byte hash and an index in the range of uint32, whatever the height.
pub parse-make_spent_utxo_height_key :
    (height : ℤ) (h : Bytes) (i : ℕ)
    → IsOutpoint h i
    → parse_spent_utxo_height_key (make_spent_utxo_height_key height h i) ≡ some (h, i)
unfolding parse_spent_utxo_height_key make_spent_utxo_height_key
parse-make_spent_utxo_height_key height h i o =
    let p = be_bytes 4 (to_u32 height) in
    let l = length-be_bytes 4 (to_u32 height) in
    rw (
      ltb-eq-false (length (p ++ tail h i)) 40 (omega (arith, length-key p h i o.hash_size)),
      hash_of_key p h i 4 (sym l) o.hash_size,
      index_of_key p h i 36 (omega arith) o,
    )
