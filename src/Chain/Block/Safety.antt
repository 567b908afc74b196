-- ===== src/Chain/Block/Safety.antt =====
-- What `validateNameOperations` of chain/blockchain.go tests of each output.
use nmcd.Prelude.{
  ℕ, ◌+◌, ◌≡◌, ◌⊎◌, refl, sym, ◌∙◌, [], ◌∷◌, ◌++◌, List, false, inl, inr, All, subst,
}
use nmcd.Prelude.Bytes.{Bytes}
use nmcd.Int.{ℤ, pos, ◌≤ℤ◌}
use nmcd.NameDb.{NameRecord}
use nmcd.Result.{ok, err, panic, ok-injective, >>=-eq-ok, Result-split}
use nmcd.Script.{NameOperation, name_new, name_first_update, name_update, Parsed}
use nmcd.Script.Parse.{parse_name_script_full}
use nmcd.Chain.{TxOut, MsgTx, DbError, Store}
use nmcd.Chain.Rules.{
  NameValidationContext, new_name_validation_context, is_seen, compute_commit_hash,
  validate_first_update_window,
}
use nmcd.Chain.Rules.Update.{Spends, name_out_point, validate_ownership-eq-ok_iff}
use nmcd.Chain.Rules.Permitted.{
  FormatFits, validate_consensus_name_format-eq-ok_iff, Available, validate_name_new_op-eq-ok,
  validate_name_first_update_op-eq-ok, validate_name_update_op-eq-ok,
}
use nmcd.Chain.Block.{
  Block, HeightByHash, determine_block_height, validate_name_op_fees, collect_name_operation_types,
  dispatch_name_op_validation, validate_format_unless_new, validate_name_output,
  validate_name_outputs, validate_transaction_name_ops, validate_transactions,
  validate_name_operations,
}

-- The names of the outputs that register or update one, as the parser reads them.
abbrev pub name_of : Parsed → List Bytes
name_of p = elim p.op_type [
  | name_new ↦ []
  | name_first_update ↦ p.name ∷ []
  | name_update ↦ p.name ∷ []
]

abbrev pub names_of_output : TxOut → List Bytes
names_of_output o = elim (parse_name_script_full o.pk_script) [
  | ok p ↦ name_of p
  | err _ ↦ []
  | panic ↦ []
]

abbrev pub names_of_outputs : List TxOut → List Bytes
names_of_outputs [] = []
names_of_outputs (o ∷ outs) = names_of_output o ++ names_of_outputs outs

abbrev pub names_of_transactions : List MsgTx → List Bytes
names_of_transactions [] = []
names_of_transactions (tx ∷ txs) = names_of_outputs tx.tx_out ++ names_of_transactions txs

-- Each name is seen for the first time, from the names seen so far to those seen in the end.
pub data Fresh : List Bytes → List Bytes → List Bytes → Type 0 where
  done : {seen : List Bytes} → Fresh seen [] seen
  next :
      {seen ns seen' : List Bytes} {n : Bytes}
      → is_seen n seen ≡ false
      → Fresh (n ∷ seen) ns seen'
      → Fresh seen (n ∷ ns) seen'

Fresh-append :
    {seen seen' seen'' ms ns : List Bytes}
    → Fresh seen ms seen'
    → Fresh seen' ns seen''
    → Fresh seen (ms ++ ns) seen''
Fresh-append done g = g
Fresh-append (next e f) g = next e (Fresh-append f g)

pub operation-cases :
    (op : NameOperation) → (op ≡ name_new) ⊎ (op ≡ name_first_update) ⊎ (op ≡ name_update)
operation-cases name_new = inl refl
operation-cases name_first_update = inr (inl refl)
operation-cases name_update = inr (inr refl)

module _ (store : Store) (h : ℤ) where
  -- What the rules require of one parsed output of a transaction at the height.
  abbrev pub Permitted : MsgTx → TxOut → Parsed → Type 0
  Permitted tx o p = (pos 546 ≤ℤ o.value) × elim p.op_type [
    | name_new ↦ (e : DbError) × (store.get_name_new p.extra ≡ err e)
    | name_first_update ↦
        Available store p.name h
        × (validate_first_update_window store (compute_commit_hash store p.extra p.name) h ≡ ok tt)
        × FormatFits p.name p.value
    | name_update ↦
        ((r : NameRecord) × (store.get_name p.name ≡ ok r)
          × (h ≤ℤ r.expires_at)
          × Spends (name_out_point r) tx.tx_in)
        × FormatFits p.name p.value
  ]

  -- If the output holds a name operation, it is permitted.
  abbrev pub PermittedOutput : MsgTx → TxOut → Type 0
  PermittedOutput tx o = (p : Parsed) → parse_name_script_full o.pk_script ≡ ok p → Permitted tx o p

  -- An operation that the dispatch and the format test accept.
  dispatch-eq-ok :
      (tx : MsgTx) (o : TxOut) (p : Parsed) (ctx ctx' : NameValidationContext)
      → dispatch_name_op_validation store tx o p h ctx ≡ ok ctx'
      → validate_format_unless_new p ≡ ok tt
      → Permitted tx o p × Fresh ctx.seen_names (name_of p) ctx'.seen_names
  unfolding dispatch_name_op_validation
  dispatch-eq-ok tx o p ctx ctx' d f = elim (operation-cases p.op_type) [
    | inl q ↦
        let (dust, absent, s) =
          validate_name_new_op-eq-ok store o p.extra ctx ctx'
            (rw (q, dispatch_name_op_validation) at d) in
        rw q ((dust, absent), subst (λ l. Fresh ctx.seen_names [] l) (sym s) done)
    | inr (inl q) ↦
        let ((dust, fresh, s), free, window) =
          validate_name_first_update_op-eq-ok store o p.name p.extra h ctx ctx'
            (rw (q, dispatch_name_op_validation) at d) in
        rw q (
          (
            dust,
            (free, window, (validate_consensus_name_format-eq-ok_iff p.name p.value).0 (rw q at f)),
          ),
          subst (λ l. Fresh ctx.seen_names (p.name ∷ []) l) (sym s) (next fresh done),
        )
    | inr (inr q) ↦
        let ((dust, fresh, s), owned) =
          validate_name_update_op-eq-ok store tx o p.name h ctx ctx'
            (rw (q, dispatch_name_op_validation) at d) in
        rw q (
          (
            dust,
            (
              (validate_ownership-eq-ok_iff store tx p.name h).0 owned,
              (validate_consensus_name_format-eq-ok_iff p.name p.value).0 (rw q at f),
            ),
          ),
          subst (λ l. Fresh ctx.seen_names (p.name ∷ []) l) (sym s) (next fresh done),
        )
  ]

  validate_name_output-eq-ok :
      (tx : MsgTx) (o : TxOut) (ctx ctx' : NameValidationContext)
      → validate_name_output store tx o h ctx ≡ ok ctx'
      → PermittedOutput tx o × Fresh ctx.seen_names (names_of_output o) ctx'.seen_names
  unfolding validate_name_output
  validate_name_output-eq-ok tx o ctx ctx' v =
      elim (Result-split (parse_name_script_full o.pk_script)) [
        | inl (p, q) ↦
            let (c, d, v1) =
              >>=-eq-ok (dispatch_name_op_validation store tx o p h ctx) _
                (rw (q, validate_name_output) at v) in
            let (_, f, v2) = >>=-eq-ok (validate_format_unless_new p) _ v1 in
            let (allowed, fresh) = dispatch-eq-ok tx o p ctx ctx' (d ∙ v2) f in
            (
              λ p' q'. subst (λ x. Permitted tx o x) (ok-injective (sym q ∙ q')) allowed,
              rw (q, names_of_output) fresh,
            )
        | inr (inl (e, q)) ↦ (
          λ p' q'. absurd (cc (q, q')),
          rw (q, names_of_output)
              (subst (λ (c : NameValidationContext). Fresh ctx.seen_names [] c.seen_names)
                (ok-injective (rw (q, validate_name_output) at v)) done),
        )
        | inr (inr q) ↦ absurd (cc (rw (q, validate_name_output) at v))
      ]

  validate_name_outputs-eq-ok :
      (tx : MsgTx) (outs : List TxOut) (ctx ctx' : NameValidationContext)
      → validate_name_outputs store tx outs h ctx ≡ ok ctx'
      → All (PermittedOutput tx) outs × Fresh ctx.seen_names (names_of_outputs outs) ctx'.seen_names
  unfolding validate_name_outputs
  validate_name_outputs-eq-ok tx [] ctx ctx' v = (
    tt,
    subst (λ (c : NameValidationContext). Fresh ctx.seen_names [] c.seen_names) (ok-injective v)
        done,
  )
  validate_name_outputs-eq-ok tx (o ∷ outs) ctx ctx' v =
      let (c, v1, v2) = >>=-eq-ok (validate_name_output store tx o h ctx) _ v in
      let (p, f) = validate_name_output-eq-ok tx o ctx c v1 in
      let (ps, fs) = validate_name_outputs-eq-ok tx outs c ctx' v2 in ((p, ps), Fresh-append f fs)

  pub validate_transactions-eq-ok :
      (txs : List MsgTx) (i : ℕ) (ctx ctx' : NameValidationContext)
      → validate_transactions store txs i h ctx ≡ ok ctx'
      → All (λ tx. All (PermittedOutput tx) tx.tx_out) txs
        × Fresh ctx.seen_names (names_of_transactions txs) ctx'.seen_names
  unfolding validate_transactions validate_transaction_name_ops
  validate_transactions-eq-ok [] i ctx ctx' v = (
    tt,
    subst (λ (c : NameValidationContext). Fresh ctx.seen_names [] c.seen_names) (ok-injective v)
        done,
  )
  validate_transactions-eq-ok (tx ∷ txs) i ctx ctx' v =
      let (c, v1, v2) = >>=-eq-ok (validate_transaction_name_ops store tx i h ctx) _ v in
      let (_, _, v3) =
        >>=-eq-ok (validate_name_op_fees store tx (collect_name_operation_types tx) i h) _ v1 in
      let (p, f) = validate_name_outputs-eq-ok tx tx.tx_out ctx c v3 in
      let (ps, fs) = validate_transactions-eq-ok txs (i + 1) c ctx' v2 in
      ((p, ps), Fresh-append f fs)

-- When the name operations of a block are accepted, its height is known, and each output that parses
-- as a name operation is permitted at that height: it is worth the dust limit or more; a NAME_NEW
-- commits to what is not committed yet; a NAME_FIRSTUPDATE takes a free name inside the window of its
-- NAME_NEW; a NAME_UPDATE changes a name that has not expired in a transaction that spends its output.
pub validate_name_operations-Permitted :
    (store : Store) (find : HeightByHash) (block : Block)
    → validate_name_operations store find block ≡ ok tt
    → (h : ℤ) × (determine_block_height find block ≡ ok h)
      × All (λ tx. All (PermittedOutput store h tx) tx.tx_out) block.transactions
unfolding validate_name_operations
validate_name_operations-Permitted store find block v =
    let (h, q, v1) = >>=-eq-ok (determine_block_height find block) _ v in
    let (c, w, _) =
      >>=-eq-ok (validate_transactions store block.transactions 0 h new_name_validation_context) _
        v1 in
    (
      h,
      q,
      (validate_transactions-eq-ok store h block.transactions 0 new_name_validation_context c w).0,
    )
