-- ===== src/Chain/Fees/Sums.antt =====
-- `sumOutputValues` of chain/blockchain.go, in the integers.
use native.Mathlib.Nat.{zero-add}
use nmcd.Prelude.{
  ℕ, ◌+◌, ◌-◌, ◌^◌, ◌<◌, ◌≡◌, refl, ◌∙◌, [], ◌∷◌, List, ltb, leb, if◌then◌else◌, arith, All,
  le-or-lt, le→leb, leb-eq-false, ltb-eq-false, inl, inr,
}
use nmcd.Int.{ℤ, pos, ◌+ℤ◌, ◌-ℤ◌, sub_int64, add_int64, sub_int64_lem, add_int64_lem, pos_part}
use nmcd.Result.{ok, err}
use nmcd.Chain.{TxOut, MsgTx, output_overflow}
use nmcd.Chain.Fees.{overflows, sum_outputs_from, sum_output_values}

pub sub_int64-pos :
    (v : ℕ) → v < 2 ^ 63 → sub_int64 (pos (2 ^ 63 - 1)) (pos v) ≡ pos (2 ^ 63 - 1 - v)
unfolding ◌-ℤ◌
sub_int64-pos v h =
    let e : pos (2 ^ 63 - 1) -ℤ pos v ≡ pos (2 ^ 63 - 1 - v) = ground arith in
    sub_int64_lem (pos (2 ^ 63 - 1)) (pos v) (ground arith) ∙ e

pub add_int64-pos : (a b : ℕ) → a + b < 2 ^ 63 → add_int64 (pos a) (pos b) ≡ pos (a + b)
unfolding ◌+ℤ◌
add_int64-pos a b h =
    let e : pos a +ℤ pos b ≡ pos (a + b) = ground arith in
    add_int64_lem (pos a) (pos b) (ground arith) ∙ e

-- On totals and values that are not negative the test is the one for a sum beyond int64.
pub overflows_lem :
    (a b : ℕ) → a < 2 ^ 63 → b < 2 ^ 63 → overflows (pos a) (pos b) ≡ leb (2 ^ 63) (a + b)
overflows_lem a b ha hb = rw (sub_int64-pos b hb) (ground arith)

-- A value that btcd lets through: an int64 that is not negative.
abbrev pub Amount : ℤ → Type 0
Amount v = (n : ℕ) × (v ≡ pos n) × (n < 2 ^ 63)

abbrev pub total_value : List TxOut → ℕ
total_value [] = 0
total_value (o ∷ outs) = pos_part o.value + total_value outs

nat_assoc : (a b c : ℕ) → (a + b) + c ≡ a + (b + c)
nat_assoc a b c = omega arith

sum_outputs_from_lem :
    (outs : List TxOut) (total : ℕ)
    → total < 2 ^ 63
    → All (λ o. Amount o.value) outs
    → sum_outputs_from (pos total) outs ≡ (
        if ltb (total + total_value outs) (2 ^ 63)
        then ok (pos (total + total_value outs))
        else err output_overflow)
unfolding sum_outputs_from
sum_outputs_from_lem [] total h a = ground arith
sum_outputs_from_lem (o ∷ outs) total h ((v, e, hv), rest) =
    rw (e, overflows_lem total v h hv)
      (elim (le-or-lt (2 ^ 63) (total + v)) [
        | inl over ↦
            rw
              (
                le→leb _ _ over,
                ltb-eq-false (total + (v + total_value outs)) (2 ^ 63) (omega arith),
              )
              refl
        | inr fits ↦
            rw
              (
                leb-eq-false _ _ fits,
                add_int64-pos total v fits,
                ← nat_assoc total v (total_value outs),
              )
              (sum_outputs_from_lem outs (total + v) fits rest)
      ])

-- With outputs that are not negative, the sum of the outputs is returned exactly when it fits into
-- int64, and then it is the sum in the integers; otherwise the overflow is reported.
pub sum_output_values-exact :
    (tx : MsgTx)
    → All (λ o. Amount o.value) tx.tx_out
    → sum_output_values tx ≡ (
        if ltb (total_value tx.tx_out) (2 ^ 63)
        then ok (pos (total_value tx.tx_out))
        else err output_overflow)
unfolding sum_output_values
sum_output_values-exact tx a =
    rw (← zero-add (total_value tx.tx_out)) (sum_outputs_from_lem tx.tx_out 0 (ground arith) a)
