-- ===== src/Chain/Fees/Paid.antt =====
-- `validateTransactionFee` of chain/blockchain.go, in the integers.
use nmcd.Prelude.{
  ℕ, ◌+◌, ◌^◌, ◌≤◌, ◌<◌, ◌≡◌, refl, sym, ◌∙◌, ap, [], ◌∷◌, List, true, false, arith, All, ◌⊎◌,
  Bool-cases, le-or-lt, inl, inr, Option, some, ltb-eq-false, lt→ltb, subst,
}
use native.Mathlib.Nat.{zero-add}
use nmcd.Int.{ℤ, pos, negsuc, ltb_ℤ, ◌-ℤ◌, sub_int64, add_int64, sub_int64_lem, IsInt64, pos_part}
use nmcd.NameDb.{Utxo}
use nmcd.Result.{ok, err, ok-injective, >>=-eq-ok, fail_if-eq-ok, Result-split}
use nmcd.Script.{NameOperation, name_new, name_first_update, name_update}
use nmcd.Chain.{OutPoint, TxIn, MsgTx, Store, DbError}
use nmcd.Chain.Fees.{
  overflows, is_empty, sum_inputs_from, sum_input_values, min_fee, validate_min_fee, check_fee,
  validate_transaction_fee,
}
use nmcd.Chain.Fees.Sums.{
  Amount, overflows_lem, add_int64-pos, total_value, sum_output_values-exact,
}

-- The inputs spend outputs of the database that are worth the number together.
pub data Worth (store : Store) : List TxIn → ℕ → Type 0 where
  none_left : Worth store [] 0
  spend :
      {i : TxIn} {ins : List TxIn} {u : Utxo} {v n : ℕ}
      → store.get_utxo i.previous_out_point ≡ ok u
      → u.value ≡ pos v
      → Worth store ins n
      → Worth store (i ∷ ins) (v + n)

-- The Go type of an output's value.
abbrev pub ValuesAreInt64 : Store → Type 0
ValuesAreInt64 store = (p : OutPoint) (u : Utxo) → store.get_utxo p ≡ ok u → IsInt64 u.value

nonneg : (a : ℤ) → IsInt64 a → ltb_ℤ a (pos 0) ≡ false → Amount a
nonneg (pos n) i h = (n, refl, ground arith)
nonneg (negsuc n) i h = absurd (ground arith)

-- One of the inputs spends an output that the database does not give.
pub data Unknown (store : Store) : List TxIn → Type 0 where
  here :
      {i : TxIn} {ins : List TxIn} (e : DbError)
      → store.get_utxo i.previous_out_point ≡ err e
      → Unknown store (i ∷ ins)
  there : {i : TxIn} {ins : List TxIn} → Unknown store ins → Unknown store (i ∷ ins)

-- The fee of a block before the tracking of outputs is not checked when an output is not known.
abbrev pub IsSkipped : Store → List TxIn → ℤ → Type 0
IsSkipped store ins h = (ltb_ℤ h store.utxo_tracking_start_height ≡ true) × Unknown store ins

module _ (store : Store) (int64 : ValuesAreInt64 store) (h : ℤ) where
  sum_inputs_from-eq-ok :
      (ins : List TxIn) (t : ℕ) (total : Option ℤ)
      → t < 2 ^ 63
      → sum_inputs_from store (pos t) ins h ≡ ok total
      → IsSkipped store ins h
        ⊎ ((n : ℕ) × Worth store ins n × (total ≡ some (pos (t + n))) × (t + n < 2 ^ 63))
  unfolding sum_inputs_from
  sum_inputs_from-eq-ok [] t total b v =
      inr (0, none_left, sym (ok-injective v) ∙ ap (λ k. some (pos k)) (omega arith), omega arith)
  sum_inputs_from-eq-ok (i ∷ ins) t total b v =
      elim (Result-split (store.get_utxo i.previous_out_point)) [
        | inr (inl (e, q)) ↦ elim (Bool-cases (ltb_ℤ h store.utxo_tracking_start_height)) [
          | inl early ↦ inl (early, here e q)
          | inr late ↦ absurd (cc (rw (q, sum_inputs_from, late) at v))
        ]
        | inr (inr q) ↦ absurd (cc (rw (q, sum_inputs_from) at v))
        | inl (u, q) ↦
            let (positive, v1) =
              fail_if-eq-ok (ltb_ℤ u.value (pos 0)) _ _ (rw (q, sum_inputs_from) at v) in
            let (a, e, ha) = nonneg u.value (int64 i.previous_out_point u q) positive in
            let (small, v2) = fail_if-eq-ok (overflows (pos t) u.value) _ _ v1 in
            let fits : t + a < 2 ^ 63 = ground (arith, overflows_lem t a b ha, rw e at small) in
            let step : add_int64 (pos t) u.value ≡ pos (t + a) = rw e (add_int64-pos t a fits) in
            elim (sum_inputs_from-eq-ok ins (t + a) total fits (rw step at v2)) [
              | inl (early, missing) ↦ inl (early, there missing)
              | inr (n, w, r, l) ↦
                  inr (a + n, spend q e w, r ∙ ap (λ k. some (pos k)) (omega arith), omega arith)
            ]
      ]

enough_fee :
    (paid out : ℕ) (op : NameOperation)
    → validate_min_fee (pos paid -ℤ pos out) op ≡ ok tt
    → out + pos_part (min_fee op) ≤ paid
unfolding validate_min_fee ◌-ℤ◌
enough_fee paid out name_new v = ground arith
enough_fee paid out name_first_update v = ground arith
enough_fee paid out name_update v = ground arith

validate_min_fee-eq-ok :
    (paid out : ℕ) (op : NameOperation)
    → paid < 2 ^ 63
    → out < 2 ^ 63
    → validate_min_fee (sub_int64 (pos paid) (pos out)) op ≡ ok tt
    → out + pos_part (min_fee op) ≤ paid
unfolding validate_min_fee ◌-ℤ◌
validate_min_fee-eq-ok paid out op hp ho v =
    let s : sub_int64 (pos paid) (pos out) ≡ pos paid -ℤ pos out =
      sub_int64_lem (pos paid) (pos out) (ground arith) in
    enough_fee paid out op (subst (λ f. validate_min_fee f op ≡ ok tt) s v)

fee_after_inputs :
    (tx : MsgTx) (op : NameOperation) (n : ℕ)
    → 0 + n < 2 ^ 63
    → All (λ o. Amount o.value) tx.tx_out
    → check_fee tx op (some (pos (0 + n))) ≡ ok tt
    → total_value tx.tx_out + pos_part (min_fee op) ≤ n
unfolding check_fee
fee_after_inputs tx op n l amounts v = elim (le-or-lt (2 ^ 63) (total_value tx.tx_out)) [
  | inl over ↦ absurd (
      cc (
        rw (sum_output_values-exact tx amounts, ltb-eq-false (total_value tx.tx_out) (2 ^ 63) over)
          at v))
  | inr fits ↦
      subst (λ k. total_value tx.tx_out + pos_part (min_fee op) ≤ k) (zero-add n)
        (validate_min_fee-eq-ok (0 + n) (total_value tx.tx_out) op l fits (
          rw (sum_output_values-exact tx amounts, lt→ltb (total_value tx.tx_out) (2 ^ 63) fits) at
            v))
]

-- With values in the database and outputs that are int64, and outputs that are not negative: a
-- transaction whose fee is accepted for an operation at a height spends outputs of the database that
-- are worth, in the integers, its outputs and the operation's minimum fee; or the height is below
-- `UTXOTrackingStartHeight`, whatever it is set to, and the database does not give the output of one
-- of the inputs.
pub validate_transaction_fee-Worth :
    (store : Store) (tx : MsgTx) (op : NameOperation) (h : ℤ)
    → ValuesAreInt64 store
    → All (λ o. Amount o.value) tx.tx_out
    → validate_transaction_fee store tx op h ≡ ok tt
    → IsSkipped store tx.tx_in h
      ⊎ ((n : ℕ) × Worth store tx.tx_in n × (total_value tx.tx_out + pos_part (min_fee op) ≤ n))
unfolding validate_transaction_fee sum_input_values check_fee
validate_transaction_fee-Worth store tx op h int64 amounts v =
    let (_, v1) = fail_if-eq-ok (is_empty tx.tx_in) _ _ v in
    let (total, s, v2) = >>=-eq-ok (sum_input_values store tx h) _ v1 in
    elim (sum_inputs_from-eq-ok store int64 h tx.tx_in 0 total (ground arith) s) [
      | inl skipped ↦ inl skipped
      | inr (n, w, r, l) ↦
          inr
            (n, w, fee_after_inputs tx op n l amounts (subst (λ t. check_fee tx op t ≡ ok tt) r v2))
    ]
