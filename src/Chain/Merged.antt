-- ===== src/Chain/Merged.antt =====
-- The proof of a merge-mined block: `ValidateAuxPow` of chain/auxpow.go and `validateAuxPow` of chain/auxpow_validation.go. The
-- cache of the proofs that have arrived is one entry per block hash.
use nmcd.Prelude.{
  ℕ, ◌+◌, ◌^◌, [], ◌∷◌, ◌++◌, List, Option, none, some, Bool, true, false, ◌&&◌, not, if◌then◌else◌,
  ltb, ◌==◌, length,
}
use nmcd.Prelude.Bytes.{Bytes}
use nmcd.Int.{ℤ, pos, ltb_ℤ, add_int32}
use nmcd.Config.{Params, get_aux_pow_activation_height}
use nmcd.AuxPow.{
  MerkleBranch, check_merkle_branch, compute_chain_merkle_root, reverse_hash_bytes, index_of,
  AuxPowError, check_merge_mining_commitment, extract_chain_id_from_version,
}
use nmcd.Chain.{TxOut}
use nmcd.Chain.Block.{Block, HeightByHash, is_zero_hash, has_aux_pow_bit}
use nmcd.Result.{Result, ok, err, fail_if, map_err, ◌>>◌}

-- The parts of `AuxPow` that the checks read: the parent's coinbase with its transaction hash, and the parent's header with the
-- number that its hash stands for.
pub record AuxPow : Type 0 where
  pub coinbase_hash : Bytes
  pub coinbase_signature_scripts : List Bytes
  pub coinbase_outputs : List TxOut
  pub coinbase_branch : MerkleBranch
  pub chain_merkle_branch : MerkleBranch
  pub parent_hash_number : ℕ
  pub parent_merkle_root : Bytes

pub data MergedError : Type 0 where
  difficulty_not_met coinbase_not_in_parent branch_too_deep hash_not_found version_bit_missing
        chain_id_wrong :
      MergedError
  target_too_long no_proof : MergedError
  commitment : AuxPowError → MergedError

abbrev pub namecoin_chain_id : ℕ
namecoin_chain_id = 1

-- `bytes.Contains`
abbrev pub contains : Bytes → Bytes → Bool
contains b pattern = elim (index_of pattern b) [ none ↦ false | some i ↦ true ]

unfoldable pub join : List Bytes → Bytes
join [] = []
join (b ∷ bs) = b ++ join bs

unfoldable pub join_scripts : List TxOut → Bytes
join_scripts [] = []
join_scripts (o ∷ outs) = o.pk_script ++ join_scripts outs

-- `serializeCoinbaseForSearch`
unfoldable pub serialize_coinbase_for_search : AuxPow → Bytes
serialize_coinbase_for_search ap =
    join ap.coinbase_signature_scripts ++ join_scripts ap.coinbase_outputs

unfoldable pub validate_parent_difficulty : AuxPow → ℕ → Result MergedError (Unit {0})
validate_parent_difficulty ap target = fail_if (ltb target ap.parent_hash_number) difficulty_not_met

unfoldable pub validate_direct_chain_commitment : AuxPow → Bytes → Result MergedError (Unit {0})
validate_direct_chain_commitment ap block_hash =
    let coinbase_data = serialize_coinbase_for_search ap in
    fail_if
      (not (contains coinbase_data block_hash)
        && not (contains coinbase_data (reverse_hash_bytes block_hash)))
      hash_not_found

-- `resolveBlockHeight`
unfoldable pub resolve_block_height : HeightByHash → Block → ℤ
resolve_block_height none block = block.block_height
resolve_block_height (some find) block =
    if is_zero_hash block.prev_block then block.block_height else elim (find block.prev_block) [
      | none ↦ block.block_height
      | some parent_height ↦ add_int32 parent_height (pos 1)
    ]

module _ (double_hash : Bytes → Bytes) where
  unfoldable pub validate_coinbase_branch : AuxPow → Result MergedError (Unit {0})
  validate_coinbase_branch ap =
      fail_if
        (not (
          check_merkle_branch double_hash ap.coinbase_hash ap.coinbase_branch
            ap.parent_merkle_root))
        coinbase_not_in_parent

  unfoldable pub validate_merged_mining_commitment : AuxPow → Bytes → Result MergedError (Unit {0})
  validate_merged_mining_commitment ap block_hash = map_err commitment (
      check_merge_mining_commitment (serialize_coinbase_for_search ap)
        (compute_chain_merkle_root double_hash block_hash ap.chain_merkle_branch)
        (length ap.chain_merkle_branch.branch))

  unfoldable pub validate_chain_commitment : AuxPow → Bytes → Result MergedError (Unit {0})
  validate_chain_commitment ap block_hash =
      let levels = length ap.chain_merkle_branch.branch in
      if levels == 0
      then validate_direct_chain_commitment ap block_hash
      else if ltb 32 levels
      then err branch_too_deep
      else if check_merkle_branch double_hash block_hash ap.chain_merkle_branch ap.coinbase_hash
      then ok tt
      else validate_merged_mining_commitment ap block_hash

  -- `ValidateAuxPow`
  unfoldable pub validate_aux_pow_proof : AuxPow → Bytes → ℕ → Result MergedError (Unit {0})
  validate_aux_pow_proof ap block_hash target = do
    validate_parent_difficulty ap target
    validate_coinbase_branch ap
    validate_chain_commitment ap block_hash

  -- `verifyAuxPowProof`: the absolute value of btcd's `CompactToBig` of the block's bits is the target, and a target of more than 256 bits is an error.
  unfoldable pub verify_aux_pow_proof : AuxPow → Bytes → ℕ → Result MergedError (Unit {0})
  verify_aux_pow_proof ap block_hash target =
      if ltb (2 ^ 256) (target + 1)
      then err target_too_long
      else validate_aux_pow_proof ap block_hash target

  -- `validateAuxPow`; the proof is the one that the cache has for the block.
  unfoldable pub validate_aux_pow :
      HeightByHash → Params → Block → Bytes → ℕ → Option AuxPow → Result MergedError (Unit {0})
  validate_aux_pow find chain_params block block_hash target cached_proof =
      let block_height = resolve_block_height find block in
      if ltb_ℤ block_height (pos 0)
      then ok tt
      else if ltb_ℤ block_height (get_aux_pow_activation_height chain_params)
      then ok tt
      else (do
        fail_if (not (has_aux_pow_bit block.version)) version_bit_missing
        elim cached_proof [
          | none ↦ err no_proof
          | some ap ↦ do
            fail_if (not (extract_chain_id_from_version block.version == namecoin_chain_id))
                chain_id_wrong
            verify_aux_pow_proof ap block_hash target
        ])
