-- ===== src/Chain/Rules.antt =====
-- The rules for one name operation in a block, of chain/blockchain.go, and the limits on names and
-- values of chain/name_script.go.
pub mod Window
pub mod Update
pub mod Permitted
use nmcd.Prelude.{
  ℕ, [], ◌∷◌, ◌++◌, List, Bool, true, false, ◌&&◌, ◌||◌, ltb, ◌==◌, if◌then◌else◌, length,
}
use nmcd.Prelude.Bytes.{Bytes, bytes_eq}
use nmcd.Int.{ℤ, pos, ltb_ℤ, leb_ℤ, sub_int32}
use nmcd.Config.{
  max_name_length, max_value_length, dust_limit, min_blocks_before_first_update,
  max_blocks_before_first_update,
}
use nmcd.NameDb.{NameRecord}
use nmcd.Result.{Result, ok, err, panic, fail_if, ◌>>=◌, ◌>>◌}
use nmcd.Chain.{
  OutPoint, TxIn, TxOut, MsgTx, DbError, name_not_found, other, NameNewRecord, Store, RuleError,
  below_dust_limit, duplicate_commitment, commitment_exists, duplicate_name, name_exists,
  name_missing, name_expired, no_matching_name_new, before_name_new, too_early, too_late,
  not_spending_name, name_length, value_length, database_error,
}

-- `validateConsensusNameFormat`
unfoldable pub validate_consensus_name_format : Bytes → Bytes → Result RuleError (Unit {0})
validate_consensus_name_format n v = do
  fail_if (length n == 0 || ltb max_name_length (length n)) name_length
  if ltb max_value_length (length v) then err value_length else ok tt

-- RIPEMD160(SHA256(rand || name))
unfoldable pub compute_commit_hash : Store → Bytes → Bytes → Bytes
compute_commit_hash store salt n = store.hash160 (salt ++ n)

-- The two maps from strings to true, as lists of the keys that were set.
pub record NameValidationContext : Type 0 where
  pub seen_name_new_commits : List Bytes
  pub seen_names : List Bytes

abbrev pub new_name_validation_context : NameValidationContext
new_name_validation_context = record { seen_name_new_commits = []; seen_names = [] }

unfoldable pub is_seen : Bytes → List Bytes → Bool
is_seen x [] = false
is_seen x (y ∷ ys) = bytes_eq x y || is_seen x ys

-- The hash comparison `IsEqual` and the comparison of the indexes.
abbrev pub is_out_point : OutPoint → OutPoint → Bool
is_out_point a b = bytes_eq a.hash b.hash && a.index == b.index

-- The loop over the inputs, with its break.
unfoldable pub spends : OutPoint → List TxIn → Bool
spends current [] = false
spends current (i ∷ ins) =
    if is_out_point i.previous_out_point current then true else spends current ins

-- `validateNamedTxOut`
unfoldable pub validate_named_tx_out :
    TxOut → Bytes → NameValidationContext → Result RuleError NameValidationContext
validate_named_tx_out tx_out n ctx = do
  fail_if (ltb_ℤ tx_out.value dust_limit) below_dust_limit
  fail_if (is_seen n ctx.seen_names) duplicate_name
  ok (record ctx { seen_names = n ∷ ctx.seen_names })

-- The tests of the window on the height of the NAME_NEW.
unfoldable pub check_window : ℤ → ℤ → Result RuleError (Unit {0})
check_window block_height name_new_height = do
  fail_if (ltb_ℤ block_height name_new_height) before_name_new
  fail_if (ltb_ℤ (sub_int32 block_height name_new_height) min_blocks_before_first_update) too_early
  if ltb_ℤ max_blocks_before_first_update (sub_int32 block_height name_new_height)
      then err too_late
      else ok tt

module _ (store : Store) where
  -- `validateNameNewOp`
  unfoldable pub validate_name_new_op :
      TxOut → Bytes → NameValidationContext → Result RuleError NameValidationContext
  validate_name_new_op tx_out extra ctx = do
    fail_if (ltb_ℤ tx_out.value dust_limit) below_dust_limit
    fail_if (is_seen extra ctx.seen_name_new_commits) duplicate_commitment
    elim (store.get_name_new extra) [
      | ok _ ↦ err commitment_exists
      | err _ ↦ ok (record ctx { seen_name_new_commits = extra ∷ ctx.seen_name_new_commits })
      | panic ↦ panic
    ]

  unfoldable pub ensure_name_available_for_first_update : Bytes → ℤ → Result RuleError (Unit {0})
  ensure_name_available_for_first_update n block_height = elim (store.get_name n) [
    | err name_not_found ↦ ok tt
    | err other ↦ err database_error
    | ok existing ↦ if leb_ℤ block_height existing.expires_at then err name_exists else ok tt
    | panic ↦ panic
  ]

  unfoldable pub validate_first_update_window : Bytes → ℤ → Result RuleError (Unit {0})
  unfolding check_window
  validate_first_update_window commit_hash block_height = elim (store.get_name_new commit_hash) [
    | err _ ↦ err no_matching_name_new
    | ok name_new ↦ check_window block_height name_new.height
    | panic ↦ panic
  ]

  -- `validateNameFirstUpdateOp`
  unfoldable pub validate_name_first_update_op :
      TxOut → Bytes → Bytes → ℤ → NameValidationContext → Result RuleError NameValidationContext
  unfolding validate_named_tx_out ensure_name_available_for_first_update
      validate_first_update_window
  validate_name_first_update_op tx_out n extra block_height ctx = do
    ctx' ← validate_named_tx_out tx_out n ctx
    ensure_name_available_for_first_update n block_height
    validate_first_update_window (compute_commit_hash store extra n) block_height
    ok ctx'

  -- What `validateNameUpdateOp` and `validateNameUpdate` have in common: the name is there, has not
  -- expired, and an input spends its output.
  unfoldable pub validate_ownership : MsgTx → Bytes → ℤ → Result RuleError (Unit {0})
  unfolding spends
  validate_ownership tx n block_height = elim (store.get_name n) [
    | err name_not_found ↦ err name_missing
    | err other ↦ err database_error
    | panic ↦ panic
    | ok existing ↦ do
      fail_if (ltb_ℤ existing.expires_at block_height) name_expired
      if spends (record { hash = existing.tx_hash; index = existing.out_index }) tx.tx_in
          then ok tt
          else err not_spending_name
  ]

  -- `validateNameUpdateOp`
  unfoldable pub validate_name_update_op :
      MsgTx → TxOut → Bytes → ℤ → NameValidationContext → Result RuleError NameValidationContext
  unfolding validate_named_tx_out validate_ownership
  validate_name_update_op tx tx_out n block_height ctx = do
    ctx' ← validate_named_tx_out tx_out n ctx
    validate_ownership tx n block_height
    ok ctx'
