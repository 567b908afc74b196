-- ===== src/Chain/Mempool/Accepted.antt =====
-- `ValidateMempoolTransaction` beside `validateNameOutputs`, chain/blockchain.go.
use nmcd.Prelude.{◌≡◌, refl, [], ◌∷◌, List, Bool, true, false, inl, inr}
use nmcd.Int.{ℤ, pos, ltb_ℤ}
use nmcd.Result.{ok, >>=-eq-ok, fail_if-eq-ok}
use nmcd.Chain.{TxOut, MsgTx, Store}
use nmcd.Chain.Rules.{NameValidationContext, new_name_validation_context}
use nmcd.Chain.Block.{validate_name_outputs}
use nmcd.Chain.Mempool.{
  check_name_output, validate_outputs, validate_name_operation, validate_name_operations_in_tx,
  validate_mempool_transaction,
}
use nmcd.Chain.Mempool.Agreement.{
  operation_in_empty, plain_output, name_output, outputs_step, output-cases,
}

module _ (store : Store) (tx : MsgTx) (h : ℤ) where
  -- After one name operation there is no other.
  rest_is_plain :
      (outs : List TxOut) (ctx : NameValidationContext) {b : Bool}
      → validate_outputs store tx outs h true ≡ ok b
      → validate_name_outputs store tx outs h ctx ≡ ok ctx
  unfolding validate_name_outputs check_name_output
  rest_is_plain [] ctx v = refl
  rest_is_plain (o ∷ outs) ctx v = elim (output-cases store tx o outs h true v) [
    | inl (e, q, w) ↦
        outputs_step store tx o outs h ctx ctx (plain_output store tx o h ctx e q)
          (rest_is_plain outs ctx w)
    | inr (p, q, c, w) ↦ absurd (cc c)
  ]

  outputs_accepted :
      (outs : List TxOut) {b : Bool}
      → validate_outputs store tx outs h false ≡ ok b
      → (ctx : NameValidationContext) × (validate_name_outputs store tx outs h
            new_name_validation_context
          ≡ ok ctx)
  unfolding validate_name_outputs check_name_output
  outputs_accepted [] v = (new_name_validation_context, refl)
  outputs_accepted (o ∷ outs) v = elim (output-cases store tx o outs h false v) [
    | inl (e, q, w) ↦
        let (ctx, rest) = outputs_accepted outs w in
        (
          ctx,
          outputs_step store tx o outs h _ _
              (plain_output store tx o h new_name_validation_context e q) rest,
        )
    | inr (p, q, c, w) ↦
        let (d, c1) = fail_if-eq-ok (ltb_ℤ o.value (pos 546)) _ _ c in
        let (_, valid, _) = >>=-eq-ok (validate_name_operation store p tx h) _ c1 in
        let (ctx, made, format) = operation_in_empty store tx o p h d valid in
        (
          ctx,
          outputs_step store tx o outs h _ ctx
              (name_output store tx o p h new_name_validation_context ctx q made format)
              (rest_is_plain outs ctx w),
        )
  ]

-- A transaction that the mempool accepts at a height is accepted by the block rules for name outputs
-- at the same height, over the same database, where no name operation comes before it in the block.
-- The rules include the window of 12 to 36000 blocks after the NAME_NEW.
pub validate_mempool_transaction-accepted :
    (store : Store) (tx : MsgTx) (h : ℤ)
    → validate_mempool_transaction store tx h ≡ ok tt
    → (ctx : NameValidationContext) × (validate_name_outputs store tx tx.tx_out h
          new_name_validation_context
        ≡ ok ctx)
unfolding validate_mempool_transaction validate_name_operations_in_tx
validate_mempool_transaction-accepted store tx h v =
    let (b, w, _) = >>=-eq-ok (validate_name_operations_in_tx store tx h) _ v in
    outputs_accepted store tx h tx.tx_out w
