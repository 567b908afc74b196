-- ===== src/Tests/Blocks.antt =====
-- Accepted blocks and transactions: the owner of a name updates it.
use nmcd.Prelude.{
  ℕ, ◌≡◌, ◌≤◌, ◌<◌, ◌+◌, refl, [], ◌∷◌, none, arith, All, if◌then◌else◌, ltb, ◌^◌, ◌-◌, ◌↔◌, inl,
  inr, sym, ap, subst, Bool-cases, ◌⊎◌,
}
use nmcd.Prelude.Bytes.{bytes_eq}
use nmcd.Int.{
  ℤ, pos, negsuc, ◌≤ℤ◌, ◌<ℤ◌, IsInt64, sub_int64, add_int64, ◌+ℤ◌, ◌-ℤ◌, to_int64, to_u64,
}
use nmcd.NameDb.{NameRecord, Utxo}
use nmcd.Result.{ok, err, ok-injective}
use nmcd.Script.{name_update}
use nmcd.Script.Parse.{
  parse_name_script_full, parse_data, parse_name_update, parse_name_value,
  read_push_data_with_error, validate_script_format, drop_opcodes, expect_op,
}
use nmcd.Script.PushData.{read_push_data, push_length}
use nmcd.Slices.{index, slice, or_panic}
use nmcd.Chain.{OutPoint, MsgTx, Store, name_not_found, other, NameNewRecord, output_overflow}
use nmcd.Chain.Fees.{
  sum_output_values, sum_input_values, validate_min_fee, check_fee, validate_transaction_fee,
  sum_inputs_from, sum_outputs_from,
}
use nmcd.Chain.Fees.Sums.{sum_output_values-exact, total_value}
use nmcd.Chain.Fees.Paid.{Worth, IsSkipped, validate_transaction_fee-Worth}
use nmcd.Chain.Rules.{
  validate_consensus_name_format, is_seen, spends, validate_named_tx_out, validate_ownership,
  validate_name_update_op, validate_first_update_window, new_name_validation_context,
  NameValidationContext,
}
use nmcd.Chain.Rules.Window.{InWindow, validate_first_update_window-eq-ok_iff}
use nmcd.Chain.Rules.Update.{Spends, name_out_point, validate_ownership-eq-ok_iff}
use nmcd.Chain.Block.{
  Block, height_from_index, height_or_own, determine_block_height, add_op_type, collect_from,
  collect_name_operation_types, check_fees, validate_name_op_fees, dispatch_name_op_validation,
  validate_name_output, validate_name_outputs, validate_transaction_name_ops, validate_transactions,
  validate_name_operations,
}
use nmcd.Chain.Block.Safety.{
  PermittedOutput, names_of_transactions, validate_name_operations-Permitted,
}
use nmcd.Chain.Block.Distinct.{Distinct, validate_name_operations-Distinct}
use nmcd.Chain.Block.Paid.{PaidOutput, validate_name_operations-Paid}
use nmcd.Chain.Mempool.{
  validate_mempool_transaction, validate_name_operations_in_tx, validate_outputs, check_name_output,
  validate_name_operation, validate_name_update, name_is_owned,
}
use nmcd.Chain.Mempool.Accepted.{validate_mempool_transaction-accepted}
use nmcd.Chain.Lookup.{safe_calc_expires_at, safe_calc_expires_at-saturates, NameOperationInfo}
use nmcd.Chain.Lookup.Listed.{Listed}
use nmcd.Tests.{update_script, domain, braces, hash_a, payment}

parse_update :
    parse_name_script_full update_script
    ≡ ok (record { op_type = name_update; name = domain; value = braces; extra = [] })
unfolding parse_name_script_full parse_data parse_name_update parse_name_value
    read_push_data_with_error read_push_data push_length validate_script_format drop_opcodes
    expect_op index slice or_panic
parse_update = refl

-- "d/a" is held by output 1 of the transaction `hash_a` until block 40000, and has 2000000 satoshis.
abbrev name_record : NameRecord
name_record = record {
  name = domain;
  value = braces;
  tx_hash = hash_a;
  out_index = 1;
  height = pos 4000;
  expires_at = pos 40000;
  address = [];
  updated_at = pos 0;
  name_new_height = pos 3980;
}

abbrev one_utxo : Utxo
one_utxo = record {
  tx_hash = hash_a;
  out_index = 1;
  value = pos 2000000;
  address = [];
  pk_script = update_script;
  height = pos 4000;
}

abbrev one_name : Store
one_name = record {
  get_name = λ n. if bytes_eq n domain then ok name_record else err name_not_found;
  get_name_new = λ c.
      if bytes_eq c hash_a
      then ok (record { commitment = hash_a; height = pos 3980 })
      else err other;
  get_utxo = λ p. if bytes_eq p.hash hash_a then ok one_utxo else err other;
  utxo_tracking_start_height = pos 1000;
  hash160 = λ d. d;
}

abbrev update_tx : MsgTx
update_tx = record {
  tx_in = record { previous_out_point = record { hash = hash_a; index = 1 } } ∷ [];
  tx_out = record { value = pos 900000; pk_script = update_script } ∷ [];
}

abbrev coinbase : MsgTx
coinbase = record {
  tx_in = [];
  tx_out = record { value = pos 5000000000; pk_script = payment } ∷ [];
}

abbrev update_block : Block
update_block = record {
  prev_block = hash_a;
  version = pos 4;
  block_height = pos 5000;
  transactions = coinbase ∷ update_tx ∷ [];
}

block_is_accepted : validate_name_operations one_name none update_block ≡ ok tt
unfolding validate_name_operations validate_transactions validate_transaction_name_ops
    validate_name_outputs validate_name_output dispatch_name_op_validation validate_name_op_fees
    check_fees collect_name_operation_types collect_from add_op_type determine_block_height
    height_from_index height_or_own validate_name_update_op validate_named_tx_out validate_ownership
    validate_consensus_name_format is_seen spends bytes_eq validate_transaction_fee sum_input_values
    sum_inputs_from check_fee sum_output_values sum_outputs_from validate_min_fee sub_int64
    add_int64 ◌+ℤ◌ ◌-ℤ◌ to_int64 to_u64 parse_name_script_full parse_data parse_name_update
    parse_name_value read_push_data_with_error read_push_data push_length validate_script_format
    drop_opcodes expect_op index slice or_panic
block_is_accepted = refl

validate_name_operations-Permitted_example :
    (h : ℤ) × (determine_block_height none update_block ≡ ok h)
    × All (λ tx. All (PermittedOutput one_name h tx) tx.tx_out) (coinbase ∷ update_tx ∷ [])
validate_name_operations-Permitted_example =
    validate_name_operations-Permitted one_name none update_block block_is_accepted

validate_name_operations-Distinct_example :
    Distinct (names_of_transactions (coinbase ∷ update_tx ∷ []))
validate_name_operations-Distinct_example =
    validate_name_operations-Distinct one_name none update_block block_is_accepted

validate_name_operations-Paid_example :
    (h : ℤ) × (determine_block_height none update_block ≡ ok h)
    × All (λ tx. All (PaidOutput one_name h tx) tx.tx_out) (update_tx ∷ [])
validate_name_operations-Paid_example =
    validate_name_operations-Paid one_name none update_block coinbase (update_tx ∷ []) refl
      block_is_accepted

tx_is_accepted : validate_mempool_transaction one_name update_tx (pos 5000) ≡ ok tt
unfolding validate_mempool_transaction validate_name_operations_in_tx validate_outputs
    check_name_output validate_name_operation validate_name_update name_is_owned
    validate_consensus_name_format spends bytes_eq validate_transaction_fee sum_input_values
    sum_inputs_from check_fee sum_output_values sum_outputs_from validate_min_fee sub_int64
    add_int64 ◌+ℤ◌ ◌-ℤ◌ to_int64 to_u64 parse_name_script_full parse_data parse_name_update
    parse_name_value read_push_data_with_error read_push_data push_length validate_script_format
    drop_opcodes expect_op index slice or_panic
tx_is_accepted = refl

validate_mempool_transaction-accepted_example :
    (ctx : NameValidationContext) × (validate_name_outputs one_name update_tx update_tx.tx_out
        (pos 5000)
        new_name_validation_context
      ≡ ok ctx)
validate_mempool_transaction-accepted_example =
    validate_mempool_transaction-accepted one_name update_tx (pos 5000) tx_is_accepted

fee_is_paid : validate_transaction_fee one_name update_tx name_update (pos 5000) ≡ ok tt
unfolding validate_transaction_fee sum_input_values sum_inputs_from check_fee sum_output_values
    sum_outputs_from validate_min_fee sub_int64 add_int64 ◌+ℤ◌ ◌-ℤ◌ to_int64 to_u64 bytes_eq
fee_is_paid = refl

values_are_int64 :
    (p : OutPoint) (u : Utxo)
    → one_name.get_utxo p ≡ ok u
    → (negsuc (2 ^ 63 - 1) ≤ℤ u.value) × (u.value <ℤ pos (2 ^ 63))
values_are_int64 p u h = elim (Bool-cases (bytes_eq p.hash hash_a)) [
  | inl q ↦
      subst (λ (v : Utxo). IsInt64 v.value) (ok-injective (rw q at h)) (omega arith, omega arith)
  | inr q ↦ absurd (cc (rw q at h))
]

validate_transaction_fee-Worth_example :
    IsSkipped one_name update_tx.tx_in (pos 5000)
    ⊎ ((n : ℕ) × Worth one_name update_tx.tx_in n × (total_value update_tx.tx_out + 1000000 ≤ n))
validate_transaction_fee-Worth_example =
    validate_transaction_fee-Worth one_name update_tx name_update (pos 5000) values_are_int64
      ((900000, refl, omega arith), tt) fee_is_paid

sum_output_values-exact_example : sum_output_values update_tx ≡ (
    if ltb (total_value update_tx.tx_out) (2 ^ 63)
    then ok (pos (total_value update_tx.tx_out))
    else err output_overflow)
sum_output_values-exact_example =
    sum_output_values-exact update_tx ((900000, refl, omega arith), tt)

new_height_in_range :
    (r : NameNewRecord)
    → one_name.get_name_new hash_a ≡ ok r
    → (n : ℕ) × (r.height ≡ pos n) × (n < 2 ^ 31)
unfolding bytes_eq
new_height_in_range r h =
    (3980, sym (ap (λ (x : NameNewRecord). x.height) (ok-injective h)), omega arith)

validate_first_update_window-eq-ok_iff_example :
    (validate_first_update_window one_name hash_a (pos 5000) ≡ ok tt) ↔ (
      (r : NameNewRecord) × (n : ℕ) × (one_name.get_name_new hash_a ≡ ok r)
      × (r.height ≡ pos n)
      × InWindow n 5000)
validate_first_update_window-eq-ok_iff_example =
    validate_first_update_window-eq-ok_iff one_name hash_a 5000 (omega arith) new_height_in_range

validate_ownership-eq-ok_iff_example :
    (validate_ownership one_name update_tx domain (pos 5000) ≡ ok tt) ↔ (
      (r : NameRecord) × (one_name.get_name domain ≡ ok r)
      × (pos 5000 ≤ℤ r.expires_at)
      × Spends (name_out_point r) update_tx.tx_in)
validate_ownership-eq-ok_iff_example =
    validate_ownership-eq-ok_iff one_name update_tx domain (pos 5000)

safe_calc_expires_at-saturates_example :
    (safe_calc_expires_at (pos 5000)
      ≡ (if ltb (5000 + 36000) (2 ^ 31) then pos (5000 + 36000) else pos (2 ^ 31 - 1)))
    × (pos 5000 ≤ℤ safe_calc_expires_at (pos 5000))
safe_calc_expires_at-saturates_example = safe_calc_expires_at-saturates 5000 (omega arith)

-- The update of the transaction is listed.
abbrev update_info : NameOperationInfo
update_info = record {
  op_type = name_update;
  name = domain;
  value = braces;
  tx_hash = hash_a;
  output_index = 0;
}
