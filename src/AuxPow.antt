-- ===== src/AuxPow.antt =====
-- Merged mining, chain/auxpow.go: the merkle branches and the search for the commitment in the parent's
-- coinbase. Hashes have 32 bytes; chainhash's `DoubleHashH` is a parameter.
pub mod Branch
pub mod Commitment
use nmcd.Prelude.{
  ℕ, suc, zero, ◌+◌, ◌*◌, ◌/◌, ◌%◌, ◌^◌, [], ◌∷◌, ◌++◌, List, Option, none, some, map, Bool, true,
  false, ◌&&◌, ◌||◌, ltb, leb, ◌==◌, if◌then◌else◌, length, take, drop,
}
use nmcd.Prelude.Bytes.{Bytes, bytes_eq, le_value}
use nmcd.Int.{ℤ, to_u32}
use nmcd.Config.{has_prefix}
use nmcd.Result.{Result, ok, err}

pub record MerkleBranch : Type 0 where
  pub branch : List Bytes
  pub side_mask : ℕ

-- `(branch.SideMask >> uint(i)) & 1` of a uint32.
abbrev pub side_bit : ℕ → ℕ → ℕ
side_bit mask i = mask / 2 ^ i % 2

-- The two halves of the 64-byte buffer.
unfoldable pub combine : ℕ → Bytes → Bytes → Bytes
combine bit hash sibling = if bit == 0 then hash ++ sibling else sibling ++ hash

module _ (double_hash : Bytes → Bytes) where
  -- The loop of `CheckMerkleBranch`, from level i.
  unfoldable pub walk_branch : Bytes → ℕ → ℕ → List Bytes → Bytes
  unfolding combine
  walk_branch hash mask i [] = hash
  walk_branch hash mask i (sibling ∷ rest) =
      walk_branch (double_hash (combine (side_bit mask i) hash sibling)) mask (i + 1) rest

  unfoldable pub check_merkle_branch : Bytes → MerkleBranch → Bytes → Bool
  unfolding walk_branch
  check_merkle_branch leaf b root = bytes_eq (walk_branch leaf b.side_mask 0 b.branch) root

  -- `computeChainMerkleRoot` writes the loop out a second time.
  pub root_loop : Bytes → ℕ → ℕ → List Bytes → Bytes
  root_loop computed_root mask i [] = computed_root
  root_loop computed_root mask i (sibling ∷ rest) =
      if side_bit mask i == 0
      then root_loop (double_hash (computed_root ++ sibling)) mask (i + 1) rest
      else root_loop (double_hash (sibling ++ computed_root)) mask (i + 1) rest

  pub compute_chain_merkle_root : Bytes → MerkleBranch → Bytes
  unfolding root_loop
  compute_chain_merkle_root root b = root_loop root b.side_mask 0 b.branch

unfoldable pub extract_chain_id_from_version : ℤ → ℕ
extract_chain_id_from_version version = to_u32 version / 2 ^ 16

-- `reverseHashBytes`
pub reverse_onto : Bytes → Bytes → Bytes
reverse_onto acc [] = acc
reverse_onto acc (b ∷ bs) = reverse_onto (b ∷ acc) bs

pub reverse_hash_bytes : Bytes → Bytes
unfolding reverse_onto
reverse_hash_bytes h = reverse_onto [] h

abbrev pub aux_pow_magic : Bytes
aux_pow_magic = 0xfa ∷ 0xbe ∷ 0x6d ∷ 0x6d ∷ []

-- `bytes.Index`
pub index_of : Bytes → Bytes → Option ℕ
index_of pattern [] = if has_prefix [] pattern then some 0 else none
index_of pattern (b ∷ bs) =
    if has_prefix (b ∷ bs) pattern
    then some 0
    else elim (index_of pattern bs) [ none ↦ none | some i ↦ some (suc i) ]

pub data AuxPowError : Type 0 where
  invalid_branch_length no_valid_commitment out_of_fuel : AuxPowError
  many_commitments : ℕ → AuxPowError

-- The test of the bytes that follow the magic; the caller has tested that there are 36.
pub is_commitment : Bytes → ℕ → Bytes → Bool
unfolding reverse_hash_bytes
is_commitment computed_root expected_size after =
    (bytes_eq (take 32 after) computed_root
      || bytes_eq (take 32 after) (reverse_hash_bytes computed_root))
    && le_value (take 4 (drop 32 after)) == expected_size

-- The loop over the occurrences of the magic. Each turn drops a byte or more of `rest`.
module _ (computed_root : Bytes) (expected_size : ℕ) where
  pub count_if_valid : ℕ → Bytes → ℕ → ℕ
  unfolding is_commitment
  count_if_valid idx rest count =
      if ltb (length rest) (idx + 4 + 36)
      then count
      else if is_commitment computed_root expected_size (drop (idx + 4) rest)
      then suc count
      else count

  pub count_commitments : ℕ → Bytes → ℕ → Option ℕ
  unfolding count_if_valid
  count_commitments zero rest count = none
  count_commitments (suc fuel) rest count = elim (index_of aux_pow_magic rest) [
    | none ↦ some count
    | some idx ↦ count_commitments fuel (drop (idx + 1) rest) (count_if_valid idx rest count)
  ]

pub commitment_verdict : Option ℕ → Result AuxPowError (Unit {0})
commitment_verdict none = err out_of_fuel
commitment_verdict (some count) =
    if ltb 1 count
    then err (many_commitments count)
    else if count == 0
    then err no_valid_commitment
    else ok tt

-- `checkMergeMiningCommitment`; the length of a branch is not negative.
pub check_merge_mining_commitment : Bytes → Bytes → ℕ → Result AuxPowError (Unit {0})
unfolding count_commitments commitment_verdict
check_merge_mining_commitment coinbase_data computed_root branch_len =
    if leb 32 branch_len
    then err invalid_branch_length
    else commitment_verdict (
        count_commitments computed_root (2 ^ branch_len) (length coinbase_data + 1) coinbase_data 0)
