-- ===== src/Chain/Subsidy.antt =====
-- The reward of a block: `validateBlockSubsidy` and `computeBlockFees` of chain/blockchain.go.
use nmcd.Prelude.{[], ◌∷◌, List, Option, none, some, if◌then◌else◌}
use nmcd.Int.{ℤ, pos, negsuc, ltb_ℤ, add_int64, sub_int64}
use nmcd.Config.{Params}
use nmcd.Config.Subsidy.{calc_block_subsidy}
use nmcd.Chain.{MsgTx, Store, RuleError, no_transactions}
use nmcd.Chain.Block.{Block, HeightByHash, determine_block_height}
use nmcd.Chain.Fees.{sum_input_values, sum_output_values, validate_coinbase_subsidy}
use nmcd.Result.{Result, ok, err, panic, ◌>>=◌}

-- A fee that is not above zero adds nothing.
abbrev pub add_fee : ℤ → ℤ → ℤ
add_fee total_fees fee = if ltb_ℤ (pos 0) fee then add_int64 total_fees fee else total_fees

module _ (store : Store) where
  -- The fees of the transactions, from a total; `none` where outputs of old blocks are not known, which skips the check.
  unfoldable pub compute_fees_from : ℤ → List MsgTx → ℤ → Result RuleError (Option ℤ)
  compute_fees_from total_fees [] block_height = ok (some total_fees)
  compute_fees_from total_fees (tx ∷ txs) block_height =
      sum_input_values store tx block_height >>= λ inputs. elim inputs [
        | none ↦ ok none
        | some input_sum ↦ sum_output_values tx >>= λ output_sum.
            compute_fees_from (add_fee total_fees (sub_int64 input_sum output_sum)) txs block_height
      ]

  -- `computeBlockFees`
  unfoldable pub compute_block_fees : List MsgTx → ℤ → Result RuleError (Option ℤ)
  compute_block_fees txs block_height = compute_fees_from (pos 0) txs block_height

  -- `resolveSubsidyHeight`
  unfoldable pub resolve_subsidy_height : HeightByHash → Block → ℤ
  resolve_subsidy_height find block = elim (determine_block_height find block) [
    | ok block_height ↦ block_height
    | err e ↦ negsuc 0
    | panic ↦ negsuc 0
  ]

  unfoldable pub validate_reward :
      HeightByHash → Params → Block → MsgTx → List MsgTx → Result RuleError (Unit {0})
  validate_reward find chain_params block coinbase txs = do
    total_output ← sum_output_values coinbase
    let block_height = resolve_subsidy_height find block
    if ltb_ℤ block_height (pos 0)
        then ok tt
        else (compute_block_fees txs block_height >>= λ fees. elim fees [
          | none ↦ ok tt
          | some total_fees ↦
              validate_coinbase_subsidy total_output
                (pos (calc_block_subsidy block_height chain_params)) total_fees
        ])

  -- `validateBlockSubsidy`
  unfoldable pub validate_block_subsidy :
      HeightByHash → Params → Block → Result RuleError (Unit {0})
  validate_block_subsidy find chain_params block = elim block.transactions [
    | [] ↦ err no_transactions
    | coinbase ∷ txs ↦ validate_reward find chain_params block coinbase txs
  ]
