-- ===== src/Chain/Fees.antt =====
-- chain/blockchain.go: sums of inputs and of outputs, the fee of a transaction, the coinbase's limit.
pub mod Sums
pub mod Paid
use nmcd.Prelude.{
  ℕ, ◌-◌, ◌^◌, [], ◌∷◌, List, Option, none, some, Bool, true, false, ◌&&◌, if◌then◌else◌,
}
use nmcd.Int.{ℤ, pos, ltb_ℤ, leb_ℤ, add_int64, sub_int64}
use nmcd.Config.{Params, min_relay_tx_fee, min_name_operation_fee}
use nmcd.NameDb.{Utxo}
use nmcd.Result.{Result, ok, err, panic, fail_if, ◌>>=◌, ◌>>◌}
use nmcd.Script.{NameOperation, name_new, name_first_update, name_update}
use nmcd.Chain.{
  OutPoint, TxIn, TxOut, MsgTx, DbError, Store, RuleError, no_inputs, missing_utxo,
  negative_utxo_value, input_overflow, output_overflow, negative_fee, fee_too_low, excess_subsidy,
}

-- `total > 0 && v > 0 && total > (1<<63-1)-v`
abbrev pub overflows : ℤ → ℤ → Bool
overflows total v =
    ltb_ℤ (pos 0) total && ltb_ℤ (pos 0) v && ltb_ℤ (sub_int64 (pos (2 ^ 63 - 1)) v) total

-- The loop of `sumOutputValues`, from the total so far.
unfoldable pub sum_outputs_from : ℤ → List TxOut → Result RuleError ℤ
sum_outputs_from total [] = ok total
sum_outputs_from total (o ∷ outs) = do
  fail_if (overflows total o.value) output_overflow
  sum_outputs_from (add_int64 total o.value) outs

unfoldable pub sum_output_values : MsgTx → Result RuleError ℤ
unfolding sum_outputs_from
sum_output_values tx = sum_outputs_from (pos 0) tx.tx_out

-- `none` stands for the flag that skips the fee check of a historical block.
module _ (store : Store) where
  unfoldable pub sum_inputs_from : ℤ → List TxIn → ℤ → Result RuleError (Option ℤ)
  sum_inputs_from total [] block_height = ok (some total)
  sum_inputs_from total (i ∷ ins) block_height = elim (store.get_utxo i.previous_out_point) [
    | panic ↦ panic
    | err e ↦
        if ltb_ℤ block_height store.utxo_tracking_start_height then ok none else err missing_utxo
    | ok utxo ↦ do
      fail_if (ltb_ℤ utxo.value (pos 0)) negative_utxo_value
      fail_if (overflows total utxo.value) input_overflow
      sum_inputs_from (add_int64 total utxo.value) ins block_height
  ]

  unfoldable pub sum_input_values : MsgTx → ℤ → Result RuleError (Option ℤ)
  unfolding sum_inputs_from
  sum_input_values tx block_height = sum_inputs_from (pos 0) tx.tx_in block_height

abbrev pub min_fee : NameOperation → ℤ
min_fee name_new = min_relay_tx_fee
min_fee name_first_update = min_name_operation_fee
min_fee name_update = min_name_operation_fee

-- The `default` case of the switch is not reached: the parser gives these three operations.
unfoldable pub validate_min_fee : ℤ → NameOperation → Result RuleError (Unit {0})
validate_min_fee fee op_type = do
  fail_if (ltb_ℤ fee (pos 0)) negative_fee
  if ltb_ℤ fee (min_fee op_type) then err fee_too_low else ok tt

unfoldable pub validate_coinbase_subsidy : ℤ → ℤ → ℤ → Result RuleError (Unit {0})
validate_coinbase_subsidy total_output max_subsidy total_fees =
    if ltb_ℤ (add_int64 max_subsidy total_fees) total_output then err excess_subsidy else ok tt

abbrev pub is_empty : List TxIn → Bool
is_empty [] = true
is_empty (i ∷ ins) = false

-- What follows the sum of the inputs in `validateTransactionFee`.
unfoldable pub check_fee : MsgTx → NameOperation → Option ℤ → Result RuleError (Unit {0})
unfolding sum_output_values validate_min_fee
check_fee tx op_type none = ok tt
check_fee tx op_type (some total_input_value) = do
  total_output_value ← sum_output_values tx
  validate_min_fee (sub_int64 total_input_value total_output_value) op_type

module _ (store : Store) where
  unfoldable pub validate_transaction_fee : MsgTx → NameOperation → ℤ → Result RuleError (Unit {0})
  unfolding sum_input_values check_fee
  validate_transaction_fee tx op_type block_height = do
    fail_if (is_empty tx.tx_in) no_inputs
    inputs ← sum_input_values store tx block_height
    check_fee tx op_type inputs
