-- ===== src/Chain/Mempool.antt =====
-- `ValidateMempoolTransaction` of chain/blockchain.go: the same rules for a transaction that waits.
pub mod Agreement
pub mod Accepted
use nmcd.Prelude.{ℕ, [], ◌∷◌, List, Bool, true, false, ◌==◌, if◌then◌else◌, length}
use nmcd.Prelude.Bytes.{Bytes}
use nmcd.Int.{ℤ, ltb_ℤ, leb_ℤ}
use nmcd.Config.{dust_limit}
use nmcd.NameDb.{NameRecord}
use nmcd.Result.{Result, ok, err, panic, fail_if, ◌>>=◌, ◌>>◌}
use nmcd.Script.{NameOperation, name_new, name_first_update, name_update, Parsed}
use nmcd.Script.Parse.{parse_name_script_full}
use nmcd.Chain.{
  OutPoint, TxIn, TxOut, MsgTx, DbError, name_not_found, other, Store, RuleError, no_inputs,
  no_outputs, below_dust_limit, commitment_exists, name_exists, database_error,
  no_matching_name_new, multiple_name_operations, coinbase_not_allowed, name_missing, name_expired,
  not_spending_name, before_name_new, too_early, too_late,
}
use nmcd.Chain.Fees.{validate_transaction_fee}
use nmcd.Chain.Rules.{validate_consensus_name_format, compute_commit_hash, check_window, spends}
use nmcd.Chain.Block.{is_zero_hash}

module _ (store : Store) where
  -- `validateNameNew`
  unfoldable pub validate_name_new : Bytes → Result RuleError (Unit {0})
  validate_name_new commit_hash = elim (store.get_name_new commit_hash) [
    | ok _ ↦ err commitment_exists
    | err _ ↦ ok tt
    | panic ↦ panic
  ]

  -- The first test of `validateNameFirstUpdate`.
  unfoldable pub name_is_free : Bytes → ℤ → Result RuleError (Unit {0})
  name_is_free n current_height = elim (store.get_name n) [
    | ok existing ↦ if leb_ℤ current_height existing.expires_at then err name_exists else ok tt
    | err name_not_found ↦ ok tt
    | err other ↦ err database_error
    | panic ↦ panic
  ]

  unfoldable pub commitment_in_window : Bytes → ℤ → Result RuleError (Unit {0})
  unfolding check_window
  commitment_in_window commit_hash current_height = elim (store.get_name_new commit_hash) [
    | err _ ↦ err no_matching_name_new
    | ok r ↦ check_window current_height r.height
    | panic ↦ panic
  ]

  -- `validateNameFirstUpdate`
  unfoldable pub validate_name_first_update :
      Bytes → Bytes → Bytes → ℤ → Result RuleError (Unit {0})
  unfolding name_is_free commitment_in_window
  validate_name_first_update n v extra current_height = do
    name_is_free n current_height
    commitment_in_window (compute_commit_hash store extra n) current_height
    validate_consensus_name_format n v

  -- `validateNameUpdate`, up to the format.
  unfoldable pub name_is_owned : Bytes → MsgTx → ℤ → Result RuleError (Unit {0})
  unfolding spends
  name_is_owned n tx current_height = elim (store.get_name n) [
    | err name_not_found ↦ err name_missing
    | err other ↦ err database_error
    | panic ↦ panic
    | ok r ↦ do
      fail_if (ltb_ℤ r.expires_at current_height) name_expired
      if spends (record { hash = r.tx_hash; index = r.out_index }) tx.tx_in
          then ok tt
          else err not_spending_name
  ]

  unfoldable pub validate_name_update : Bytes → Bytes → MsgTx → ℤ → Result RuleError (Unit {0})
  unfolding name_is_owned
  validate_name_update n v tx current_height = do
    name_is_owned n tx current_height
    validate_consensus_name_format n v

  unfoldable pub validate_name_operation : Parsed → MsgTx → ℤ → Result RuleError (Unit {0})
  unfolding validate_name_new validate_name_first_update validate_name_update
  validate_name_operation p tx current_height = elim p.op_type [
    | name_new ↦ validate_name_new p.extra
    | name_first_update ↦ validate_name_first_update p.name p.value p.extra current_height
    | name_update ↦ validate_name_update p.name p.value tx current_height
  ]

  -- What the loop of `validateNameOperationsInTx` does with an output that parses.
  unfoldable pub check_name_output : MsgTx → TxOut → Parsed → ℤ → Bool → Result RuleError (Unit {0})
  unfolding validate_name_operation
  check_name_output tx o p current_height has_name_op = do
    fail_if has_name_op multiple_name_operations
    fail_if (ltb_ℤ o.value dust_limit) below_dust_limit
    validate_name_operation p tx current_height
    validate_transaction_fee store tx p.op_type current_height

  -- An empty script is skipped before the parser would refuse it.
  unfoldable pub validate_outputs : MsgTx → List TxOut → ℤ → Bool → Result RuleError Bool
  unfolding check_name_output
  validate_outputs tx [] current_height has_name_op = ok has_name_op
  validate_outputs tx (o ∷ outs) current_height has_name_op =
      let skipped = validate_outputs tx outs current_height has_name_op in
      let counted = validate_outputs tx outs current_height true in
      if length o.pk_script == 0 then skipped else elim (parse_name_script_full o.pk_script) [
        | err _ ↦ skipped
        | panic ↦ panic
        | ok p ↦ check_name_output tx o p current_height has_name_op >> counted
      ]

  unfoldable pub validate_name_operations_in_tx : MsgTx → ℤ → Result RuleError Bool
  unfolding validate_outputs
  validate_name_operations_in_tx tx current_height =
      validate_outputs tx tx.tx_out current_height false

unfoldable pub validate_regular_transaction : MsgTx → Result RuleError (Unit {0})
validate_regular_transaction tx = do
  fail_if (length tx.tx_out == 0) no_outputs
  elim tx.tx_in [
    | [] ↦ err no_inputs
    | i ∷ _ ↦ if is_zero_hash i.previous_out_point.hash then err coinbase_not_allowed else ok tt
  ]

-- `ValidateMempoolTransaction` on a transaction that is not nil; the height is the best block's.
unfoldable pub validate_mempool_transaction : Store → MsgTx → ℤ → Result RuleError (Unit {0})
unfolding validate_name_operations_in_tx validate_regular_transaction
validate_mempool_transaction store tx current_height = do
  has_name_op ← validate_name_operations_in_tx store tx current_height
  if has_name_op then ok tt else validate_regular_transaction tx
