-- ===== src/Tests.antt =====
-- The theorems applied to concrete inputs.
mod Scripts
mod Records
mod Blocks
mod Pools
mod Store
mod Databases
mod Updates
mod Batches
mod Expirations
use nmcd.Prelude.{ℕ, [], ◌∷◌, List}
use nmcd.Prelude.Bytes.{Bytes}

-- 0, 1, 2, ... up to 20 and 32 bytes.
abbrev pub key_hash : Bytes
key_hash =
    0 ∷ 1 ∷ 2 ∷ 3 ∷ 4 ∷ 5 ∷ 6 ∷ 7 ∷ 8 ∷ 9 ∷ 10 ∷ 11 ∷ 12 ∷ 13 ∷ 14 ∷ 15 ∷ 16 ∷ 17 ∷ 18 ∷ 19 ∷ []

abbrev pub hash_a : Bytes
hash_a =
    1 ∷ 1 ∷ 2 ∷ 3 ∷ 4 ∷ 5 ∷ 6 ∷ 7 ∷ 8 ∷ 9 ∷ 10 ∷ 11 ∷ 20 ∷ 21 ∷ 22 ∷ 23 ∷ 24 ∷ 25 ∷ 26 ∷ 27 ∷ 28
    ∷ 29 ∷ 30 ∷ 31 ∷ 32 ∷ 33 ∷ 34 ∷ 35 ∷ 36 ∷ 37 ∷ 38 ∷ 39 ∷ []

-- "d/a" and "{}"
abbrev pub domain : Bytes
domain = b'd' ∷ b'/' ∷ b'a' ∷ []

abbrev pub braces : Bytes
braces = b'{' ∷ b'}' ∷ []

-- A NAME_UPDATE of the name to the value, and the 25 bytes of a payment to a key hash.
abbrev pub payment : Bytes
payment =
    0x76 ∷ 0xa9 ∷ 0x14 ∷ 0 ∷ 1 ∷ 2 ∷ 3 ∷ 4 ∷ 5 ∷ 6 ∷ 7 ∷ 8 ∷ 9 ∷ 10 ∷ 11 ∷ 12 ∷ 13 ∷ 14 ∷ 15 ∷ 16
    ∷ 17 ∷ 18 ∷ 19 ∷ 0x88 ∷ 0xac ∷ []

abbrev pub update_script : Bytes
update_script = 0xd2 ∷ 3 ∷ b'd' ∷ b'/' ∷ b'a' ∷ 2 ∷ b'{' ∷ b'}' ∷ 0x6d ∷ 0x75 ∷ payment
