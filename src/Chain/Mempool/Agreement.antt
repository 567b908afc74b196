-- ===== src/Chain/Mempool/Agreement.antt =====
-- The mempool's tests of chain/blockchain.go beside those of a block, one by one.
use nmcd.Prelude.{
  ◌≡◌, ◌⊎◌, refl, sym, ◌∙◌, ap, [], ◌∷◌, List, Bool, true, false, ◌==◌, inl, inr, Bool-cases,
  length, length-eq-zero, ==_iff,
}
use nmcd.Prelude.Bytes.{Bytes}
use nmcd.Int.{ℤ, pos, ltb_ℤ}
use nmcd.Result.{Result, ok, err, >>=-eq-ok, Result-split}
use nmcd.Script.{Parsed, ScriptError}
use nmcd.Script.Parse.{parse_name_script_full}
use nmcd.Chain.{TxOut, MsgTx, name_not_found, other, Store, RuleError}
use nmcd.Chain.Rules.{
  NameValidationContext, new_name_validation_context, is_seen, validate_named_tx_out,
  validate_name_new_op, validate_name_first_update_op, validate_name_update_op, compute_commit_hash,
  ensure_name_available_for_first_update, validate_first_update_window, validate_ownership,
}
use nmcd.Chain.Block.{
  validate_name_output, validate_name_outputs, dispatch_name_op_validation,
  validate_format_unless_new,
}
use nmcd.Chain.Block.Safety.{operation-cases}
use nmcd.Script.Parse.Sound.{parse_name_script_full-nil}
use nmcd.Chain.Mempool.{
  validate_name_new, name_is_free, commitment_in_window, validate_name_first_update, name_is_owned,
  validate_name_update, validate_name_operation, check_name_output, validate_outputs,
}

module _ (store : Store) where
  name_is_free-agrees :
      (n : Bytes) (h : ℤ)
      → name_is_free store n h ≡ ensure_name_available_for_first_update store n h
  unfolding name_is_free ensure_name_available_for_first_update
  name_is_free-agrees n h = elim (Result-split (store.get_name n)) [
    | inl (r, q) ↦ rw (q, name_is_free, ensure_name_available_for_first_update) refl
    | inr (inl (name_not_found, q)) ↦
        rw (q, name_is_free, ensure_name_available_for_first_update) refl
    | inr (inl (other, q)) ↦ rw (q, name_is_free, ensure_name_available_for_first_update) refl
    | inr (inr q) ↦ rw (q, name_is_free, ensure_name_available_for_first_update) refl
  ]

  commitment_in_window-agrees :
      (c : Bytes) (h : ℤ) → commitment_in_window store c h ≡ validate_first_update_window store c h
  unfolding commitment_in_window validate_first_update_window
  commitment_in_window-agrees c h = refl

  name_is_owned-agrees :
      (tx : MsgTx) (n : Bytes) (h : ℤ)
      → name_is_owned store n tx h ≡ validate_ownership store tx n h
  unfolding name_is_owned validate_ownership
  name_is_owned-agrees tx n h = refl

  named_tx_out_in_empty :
      (o : TxOut) (n : Bytes)
      → ltb_ℤ o.value (pos 546) ≡ false
      → validate_named_tx_out o n new_name_validation_context
        ≡ ok (record new_name_validation_context { seen_names = n ∷ [] })
  unfolding validate_named_tx_out is_seen
  named_tx_out_in_empty o n d = rw d refl

  update_op :
      (tx : MsgTx) (o : TxOut) (n : Bytes) (h : ℤ) (ctx ctx' : NameValidationContext)
      → validate_named_tx_out o n ctx ≡ ok ctx'
      → validate_ownership store tx n h ≡ ok tt
      → validate_name_update_op store tx o n h ctx ≡ ok ctx'
  unfolding validate_name_update_op
  update_op tx o n h ctx ctx' named owned = rw (named, owned) refl

  first_update_op :
      (o : TxOut) (n x : Bytes) (h : ℤ) (ctx ctx' : NameValidationContext)
      → validate_named_tx_out o n ctx ≡ ok ctx'
      → ensure_name_available_for_first_update store n h ≡ ok tt
      → validate_first_update_window store (compute_commit_hash store x n) h ≡ ok tt
      → validate_name_first_update_op store o n x h ctx ≡ ok ctx'
  unfolding validate_name_first_update_op
  first_update_op o n x h ctx ctx' named free window = rw (named, free, window) refl

  new_op :
      (o : TxOut) (x : Bytes)
      → ltb_ℤ o.value (pos 546) ≡ false
      → validate_name_new store x ≡ ok tt
      → validate_name_new_op store o x new_name_validation_context
        ≡ ok (record new_name_validation_context { seen_name_new_commits = x ∷ [] })
  unfolding validate_name_new validate_name_new_op is_seen
  new_op o x d v = elim (Result-split (store.get_name_new x)) [
    | inl (r, q) ↦ absurd (cc (rw (q, validate_name_new) at v))
    | inr (inl (e, q)) ↦ rw (d, q) refl
    | inr (inr q) ↦ absurd (cc (rw (q, validate_name_new) at v))
  ]

  -- One operation that the mempool takes, in a block that has none before it.
  pub operation_in_empty :
      (tx : MsgTx) (o : TxOut) (p : Parsed) (h : ℤ)
      → ltb_ℤ o.value (pos 546) ≡ false
      → validate_name_operation store p tx h ≡ ok tt
      → (ctx : NameValidationContext) × (dispatch_name_op_validation store tx o p h
            new_name_validation_context
          ≡ ok ctx)
        × (validate_format_unless_new p ≡ ok tt)
  unfolding validate_name_operation dispatch_name_op_validation validate_name_first_update
      validate_name_update
  operation_in_empty tx o p h d v = elim (operation-cases p.op_type) [
    | inl q ↦
        let made = new_op o p.extra d (rw (q, validate_name_operation) at v) in
        (
          record new_name_validation_context { seen_name_new_commits = p.extra ∷ [] },
          rw (q, dispatch_name_op_validation) made,
          rw q refl,
        )
    | inr (inl q) ↦
        let (_, free, v1) =
          >>=-eq-ok (name_is_free store p.name h) _ (rw (q, validate_name_operation) at v) in
        let (_, window, format) =
          >>=-eq-ok (commitment_in_window store (compute_commit_hash store p.extra p.name) h) _
            v1 in
        let made =
          first_update_op o p.name p.extra h _ _ (named_tx_out_in_empty o p.name d)
            (sym (name_is_free-agrees p.name h) ∙ free)
            (sym (commitment_in_window-agrees _ h) ∙ window) in
        (
          record new_name_validation_context { seen_names = p.name ∷ [] },
          rw (q, dispatch_name_op_validation) made,
          rw q format,
        )
    | inr (inr q) ↦
        let (_, owned, format) =
          >>=-eq-ok (name_is_owned store p.name tx h) _ (rw (q, validate_name_operation) at v) in
        let made =
          update_op tx o p.name h _ _ (named_tx_out_in_empty o p.name d)
            (sym (name_is_owned-agrees tx p.name h) ∙ owned) in
        (
          record new_name_validation_context { seen_names = p.name ∷ [] },
          rw (q, dispatch_name_op_validation) made,
          rw q format,
        )
  ]

  -- An output that holds no name operation leaves the context as it is.
  pub plain_output :
      (tx : MsgTx) (o : TxOut) (h : ℤ) (ctx : NameValidationContext) (e : ScriptError)
      → parse_name_script_full o.pk_script ≡ err e
      → validate_name_output store tx o h ctx ≡ ok ctx
  unfolding validate_name_output
  plain_output tx o h ctx e q = rw (q, validate_name_output) refl

  pub name_output :
      (tx : MsgTx) (o : TxOut) (p : Parsed) (h : ℤ) (ctx ctx' : NameValidationContext)
      → parse_name_script_full o.pk_script ≡ ok p
      → dispatch_name_op_validation store tx o p h ctx ≡ ok ctx'
      → validate_format_unless_new p ≡ ok tt
      → validate_name_output store tx o h ctx ≡ ok ctx'
  unfolding validate_name_output
  name_output tx o p h ctx ctx' q d f = rw (q, validate_name_output, d, f) refl

  pub outputs_step :
      (tx : MsgTx) (o : TxOut) (outs : List TxOut) (h : ℤ) (ctx ctx' : NameValidationContext)
      {r : Result RuleError NameValidationContext}
      → validate_name_output store tx o h ctx ≡ ok ctx'
      → validate_name_outputs store tx outs h ctx' ≡ r
      → validate_name_outputs store tx (o ∷ outs) h ctx ≡ r
  unfolding validate_name_outputs
  outputs_step tx o outs h ctx ctx' q r = rw q r

  -- The mempool skips an output exactly when it holds no name operation.
  pub output-cases :
      (tx : MsgTx) (o : TxOut) (outs : List TxOut) (h : ℤ) (has : Bool) {b : Bool}
      → validate_outputs store tx (o ∷ outs) h has ≡ ok b
      → ((e : ScriptError) × (parse_name_script_full o.pk_script ≡ err e)
          × (validate_outputs store tx outs h has ≡ ok b))
        ⊎ ((p : Parsed) × (parse_name_script_full o.pk_script ≡ ok p)
            × (check_name_output store tx o p h has ≡ ok tt)
            × (validate_outputs store tx outs h true ≡ ok b))
  unfolding validate_outputs
  output-cases tx o outs h has v = elim (Bool-cases (length o.pk_script == 0)) [
    | inl none ↦ inl (
      _,
      ap parse_name_script_full (length-eq-zero o.pk_script ((==_iff _ _).0 none))
          ∙ parse_name_script_full-nil,
      rw (none, validate_outputs) at v,
    )
    | inr some ↦ elim (Result-split (parse_name_script_full o.pk_script)) [
      | inl (p, q) ↦
          let (_, c, w) =
            >>=-eq-ok (check_name_output store tx o p h has) _
              (rw (validate_outputs, some, q) at v) in
          inr (p, q, c, w)
      | inr (inl (e, q)) ↦ inl (e, q, rw (validate_outputs, some, q) at v)
      | inr (inr q) ↦ absurd (cc (rw (validate_outputs, some, q) at v))
    ]
  ]
