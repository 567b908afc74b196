-- ===== src/Chain/Block.antt =====
-- The checks of a whole block: chain/blockchain.go, from the height to the last name output.
pub mod Safety
pub mod Distinct
pub mod Paid
use nmcd.Prelude.{
  ℕ, ◌+◌, ◌/◌, ◌%◌, [], ◌∷◌, List, Option, none, some, Bool, true, false, ◌&&◌, ◌||◌, not, ◌==◌,
  if◌then◌else◌, length,
}
use nmcd.Prelude.Bytes.{Bytes, bytes_eq}
use nmcd.Int.{ℤ, pos, negsuc, to_u32, ltb_ℤ, leb_ℤ, add_int32, add_int64, sub_int64}
use nmcd.Config.{Params, get_aux_pow_activation_height}
use nmcd.Config.Subsidy.{calc_block_subsidy}
use nmcd.Result.{Result, ok, err, panic, fail_if, ◌>>=◌, ◌>>◌}
use nmcd.Script.{NameOperation, name_new, name_first_update, name_update, Parsed}
use nmcd.Script.Parse.{parse_name_script_full}
use nmcd.Chain.{
  TxIn, TxOut, MsgTx, Store, RuleError, unknown_height, missing_version_bit, no_transactions,
}
use nmcd.Chain.Fees.{
  sum_output_values, sum_input_values, validate_coinbase_subsidy, validate_transaction_fee,
}
use nmcd.Chain.Rules.{
  NameValidationContext, new_name_validation_context, validate_consensus_name_format,
  validate_name_new_op, validate_name_first_update_op, validate_name_update_op,
}

-- A block as btcutil has it: `block_height` is -1 until it is set. The transaction list starts with
-- the coinbase.
pub record Block : Type 0 where
  pub prev_block : Bytes
  pub version : ℤ
  pub block_height : ℤ
  pub transactions : List MsgTx

-- btcd's `BlockHeightByHash`; `none` is the chain without an index, or an error.
abbrev pub HeightByHash : Type 0
HeightByHash = Option (Bytes → Option ℤ)

unfoldable pub is_zero_hash : Bytes → Bool
is_zero_hash [] = true
is_zero_hash (b ∷ bs) = b == 0 && is_zero_hash bs

-- The height that the index gives, or -1.
unfoldable pub height_from_index : HeightByHash → Bytes → ℤ
height_from_index none prev = negsuc 0
height_from_index (some find) prev =
    if is_zero_hash prev
    then negsuc 0
    else elim (find prev) [ none ↦ negsuc 0 | some parent_height ↦ add_int32 parent_height (pos 1) ]

unfoldable pub height_or_own : ℤ → Block → ℤ
height_or_own found block = if ltb_ℤ found (pos 0) then block.block_height else found

unfoldable pub determine_block_height : HeightByHash → Block → Result RuleError ℤ
unfolding height_from_index height_or_own
determine_block_height find block = do
  let block_height = height_or_own (height_from_index find block.prev_block) block
  fail_if (ltb_ℤ block_height (pos 0)) unknown_height
  ok block_height

-- `version & 0x100`
abbrev pub has_aux_pow_bit : ℤ → Bool
has_aux_pow_bit version = (to_u32 version / 0x100) % 2 == 1

unfoldable pub validate_block_version : HeightByHash → Params → Block → Result RuleError (Unit {0})
unfolding height_from_index height_or_own
validate_block_version find chain_params block =
    let block_height = height_or_own (height_from_index find block.prev_block) block in
    if ltb_ℤ block_height (pos 0)
    then ok tt
    else if leb_ℤ (get_aux_pow_activation_height chain_params) block_height
        && not (has_aux_pow_bit block.version)
    then err missing_version_bit
    else ok tt

-- The set of operation types, in the order in which they are first seen. Go ranges over it in any
-- order; the order only chooses which of several errors is reported. The parser's panic, which is not
-- reached, is passed over like an error.
unfoldable pub add_op_type : NameOperation → List NameOperation → List NameOperation
add_op_type op [] = op ∷ []
add_op_type name_new (name_new ∷ ops) = name_new ∷ ops
add_op_type name_first_update (name_first_update ∷ ops) = name_first_update ∷ ops
add_op_type name_update (name_update ∷ ops) = name_update ∷ ops
add_op_type op (o ∷ ops) = o ∷ add_op_type op ops

unfoldable pub collect_from : List NameOperation → List TxOut → List NameOperation
unfolding add_op_type
collect_from ops [] = ops
collect_from ops (o ∷ outs) = elim (parse_name_script_full o.pk_script) [
  | ok p ↦ collect_from (add_op_type p.op_type ops) outs
  | err _ ↦ collect_from ops outs
  | panic ↦ collect_from ops outs
]

unfoldable pub collect_name_operation_types : MsgTx → List NameOperation
unfolding collect_from
collect_name_operation_types tx = collect_from [] tx.tx_out

-- `if op != namedb.NameNew { validateConsensusNameFormat(name, value) }`
abbrev pub validate_format_unless_new : Parsed → Result RuleError (Unit {0})
validate_format_unless_new p = elim p.op_type [
  | name_new ↦ ok tt
  | name_first_update ↦ validate_consensus_name_format p.name p.value
  | name_update ↦ validate_consensus_name_format p.name p.value
]

module _ (store : Store) where
  unfoldable pub check_fees : MsgTx → List NameOperation → ℤ → Result RuleError (Unit {0})
  check_fees tx [] block_height = ok tt
  check_fees tx (op ∷ ops) block_height = do
    validate_transaction_fee store tx op block_height
    check_fees tx ops block_height

  unfoldable pub validate_name_op_fees :
      MsgTx → List NameOperation → ℕ → ℤ → Result RuleError (Unit {0})
  unfolding check_fees
  validate_name_op_fees tx op_types tx_idx block_height =
      if tx_idx == 0 then ok tt else check_fees tx op_types block_height

  unfoldable pub dispatch_name_op_validation :
      MsgTx → TxOut → Parsed → ℤ → NameValidationContext → Result RuleError NameValidationContext
  dispatch_name_op_validation tx tx_out p block_height ctx = elim p.op_type [
    | name_new ↦ validate_name_new_op store tx_out p.extra ctx
    | name_first_update ↦ validate_name_first_update_op store tx_out p.name p.extra block_height ctx
    | name_update ↦ validate_name_update_op store tx tx_out p.name block_height ctx
  ]

  -- The body of the loop of `validateNameOutputs`.
  unfoldable pub validate_name_output :
      MsgTx → TxOut → ℤ → NameValidationContext → Result RuleError NameValidationContext
  unfolding dispatch_name_op_validation
  validate_name_output tx o block_height ctx = elim (parse_name_script_full o.pk_script) [
    | err _ ↦ ok ctx
    | panic ↦ panic
    | ok p ↦ do
      ctx' ← dispatch_name_op_validation tx o p block_height ctx
      validate_format_unless_new p
      ok ctx'
  ]

  unfoldable pub validate_name_outputs :
      MsgTx → List TxOut → ℤ → NameValidationContext → Result RuleError NameValidationContext
  unfolding validate_name_output
  validate_name_outputs tx [] block_height ctx = ok ctx
  validate_name_outputs tx (o ∷ outs) block_height ctx = do
    ctx' ← validate_name_output tx o block_height ctx
    validate_name_outputs tx outs block_height ctx'

  unfoldable pub validate_transaction_name_ops :
      MsgTx → ℕ → ℤ → NameValidationContext → Result RuleError NameValidationContext
  unfolding validate_name_op_fees validate_name_outputs collect_name_operation_types
  validate_transaction_name_ops tx tx_idx block_height ctx = do
    validate_name_op_fees tx (collect_name_operation_types tx) tx_idx block_height
    validate_name_outputs tx tx.tx_out block_height ctx

  unfoldable pub validate_transactions :
      List MsgTx → ℕ → ℤ → NameValidationContext → Result RuleError NameValidationContext
  unfolding validate_transaction_name_ops
  validate_transactions [] tx_idx block_height ctx = ok ctx
  validate_transactions (tx ∷ txs) tx_idx block_height ctx = do
    ctx' ← validate_transaction_name_ops tx tx_idx block_height ctx
    validate_transactions txs (tx_idx + 1) block_height ctx'

  unfoldable pub validate_name_operations : HeightByHash → Block → Result RuleError (Unit {0})
  unfolding validate_transactions determine_block_height
  validate_name_operations find block = do
    block_height ← determine_block_height find block
    _ ← validate_transactions block.transactions 0 block_height new_name_validation_context
    ok tt
