-- ===== src/Chain/Block/Paid.antt =====
-- The fee checks of `validateNameOperations`, chain/blockchain.go.
use nmcd.Prelude.{
  ℕ, suc, ◌+◌, ◌≡◌, refl, sym, ◌∙◌, [], ◌∷◌, List, ◌⊎◌, inl, inr, subst, arith, All, ◌==◌, false,
}
use nmcd.Int.{ℤ}
use nmcd.Result.{ok, >>=-eq-ok, ok-injective, Result-split}
use nmcd.Script.{NameOperation, name_new, name_first_update, name_update, Parsed}
use nmcd.Script.Parse.{parse_name_script_full}
use nmcd.Chain.{TxOut, MsgTx, Store}
use nmcd.Chain.Fees.{validate_transaction_fee}
use nmcd.Chain.Rules.{NameValidationContext, new_name_validation_context}
use nmcd.Chain.Block.{
  Block, HeightByHash, determine_block_height, add_op_type, collect_from,
  collect_name_operation_types, check_fees, validate_name_op_fees, validate_transaction_name_ops,
  validate_transactions, validate_name_operations,
}

-- The operation type is in the set.
data Has (op : NameOperation) : List NameOperation → Type 0 where
  first : {ops : List NameOperation} → Has op (op ∷ ops)
  later : {o : NameOperation} {ops : List NameOperation} → Has op ops → Has op (o ∷ ops)

add_op_type-Has : (op : NameOperation) (ops : List NameOperation) → Has op (add_op_type op ops)
unfolding add_op_type
add_op_type-Has op [] = first
add_op_type-Has name_new (name_new ∷ ops) = first
add_op_type-Has name_new (name_first_update ∷ ops) = later (add_op_type-Has name_new ops)
add_op_type-Has name_new (name_update ∷ ops) = later (add_op_type-Has name_new ops)
add_op_type-Has name_first_update (name_new ∷ ops) = later (add_op_type-Has name_first_update ops)
add_op_type-Has name_first_update (name_first_update ∷ ops) = first
add_op_type-Has name_first_update (name_update ∷ ops) =
    later (add_op_type-Has name_first_update ops)
add_op_type-Has name_update (name_new ∷ ops) = later (add_op_type-Has name_update ops)
add_op_type-Has name_update (name_first_update ∷ ops) = later (add_op_type-Has name_update ops)
add_op_type-Has name_update (name_update ∷ ops) = first

-- A longer set has the members of the shorter one.
add_op_type-step :
    (op o : NameOperation) (ops : List NameOperation)
    → (add_op_type op (o ∷ ops) ≡ o ∷ ops) ⊎ (add_op_type op (o ∷ ops) ≡ o ∷ add_op_type op ops)
unfolding add_op_type
add_op_type-step name_new name_new ops = inl refl
add_op_type-step name_new name_first_update ops = inr refl
add_op_type-step name_new name_update ops = inr refl
add_op_type-step name_first_update name_new ops = inr refl
add_op_type-step name_first_update name_first_update ops = inl refl
add_op_type-step name_first_update name_update ops = inr refl
add_op_type-step name_update name_new ops = inr refl
add_op_type-step name_update name_first_update ops = inr refl
add_op_type-step name_update name_update ops = inl refl

add_op_type-keeps-Has :
    {x : NameOperation} (op : NameOperation) {ops : List NameOperation}
    → Has x ops
    → Has x (add_op_type op ops)
add_op_type-keeps-Has {x} op (first {ops}) = elim (add_op_type-step op x ops) [
  | inl e ↦ subst (Has x) (sym e) first
  | inr e ↦ subst (Has x) (sym e) first
]
add_op_type-keeps-Has {x} op (later {o} {ops} h) = elim (add_op_type-step op o ops) [
  | inl e ↦ subst (Has x) (sym e) (later h)
  | inr e ↦ subst (Has x) (sym e) (later (add_op_type-keeps-Has op h))
]

collect_from-keeps-Has :
    {x : NameOperation} (ops : List NameOperation) (outs : List TxOut)
    → Has x ops
    → Has x (collect_from ops outs)
unfolding collect_from
collect_from-keeps-Has ops [] h = h
collect_from-keeps-Has ops (o ∷ outs) h = elim (Result-split (parse_name_script_full o.pk_script)) [
  | inl (p, q) ↦
      rw (q, collect_from)
        (collect_from-keeps-Has (add_op_type p.op_type ops) outs
          (add_op_type-keeps-Has p.op_type h))
  | inr (inl (e, q)) ↦ rw (q, collect_from) (collect_from-keeps-Has ops outs h)
  | inr (inr q) ↦ rw (q, collect_from) (collect_from-keeps-Has ops outs h)
]

-- The operation that an output holds, if any, is in the set.
abbrev Collected : List NameOperation → TxOut → Type 0
Collected ts o = (p : Parsed) → parse_name_script_full o.pk_script ≡ ok p → Has p.op_type ts

collect_from-Collected :
    (ops ts : List NameOperation) (outs : List TxOut)
    → collect_from ops outs ≡ ts
    → All (Collected ts) outs
unfolding collect_from
collect_from-Collected ops ts [] e = tt
collect_from-Collected ops ts (o ∷ outs) e =
    elim (Result-split (parse_name_script_full o.pk_script)) [
      | inl (p, q) ↦
          let e' : collect_from (add_op_type p.op_type ops) outs ≡ ts = rw (q, collect_from) at e in
          (
            (λ p' q'.
                subst (λ (x : Parsed). Has x.op_type ts) (ok-injective (sym q ∙ q'))
                  (subst (Has p.op_type) e' (
                    collect_from-keeps-Has (add_op_type p.op_type ops) outs
                      (add_op_type-Has p.op_type ops)))),
            collect_from-Collected (add_op_type p.op_type ops) ts outs e',
          )
      | inr (inl (x, q)) ↦ (
        (λ p' q'. absurd (cc (q, q'))),
        collect_from-Collected ops ts outs (rw (q, collect_from) at e),
      )
      | inr (inr q) ↦ (
        (λ p' q'. absurd (cc (q, q'))),
        collect_from-Collected ops ts outs (rw (q, collect_from) at e),
      )
    ]

All-map :
    {P Q : TxOut → Type 0} (outs : List TxOut) → ((o : TxOut) → P o → Q o) → All P outs → All Q outs
All-map [] f a = tt
All-map (o ∷ outs) f (p, a) = (f o p, All-map outs f a)

suc-not-zero : (i : ℕ) → (suc i == 0) ≡ false
suc-not-zero i = ground arith

suc_add : (i : ℕ) → suc i + 1 ≡ suc (i + 1)
suc_add i = omega arith

module _ (store : Store) (h : ℤ) where
  check_fees-eq-ok :
      (tx : MsgTx) (ops : List NameOperation) {op : NameOperation}
      → check_fees store tx ops h ≡ ok tt
      → Has op ops
      → validate_transaction_fee store tx op h ≡ ok tt
  unfolding check_fees
  check_fees-eq-ok tx [] v k = elim k [ ]
  check_fees-eq-ok tx (o ∷ ops) v first = (>>=-eq-ok (validate_transaction_fee store tx o h) _ v).1
  check_fees-eq-ok tx (o ∷ ops) v (later k) =
      check_fees-eq-ok tx ops (>>=-eq-ok (validate_transaction_fee store tx o h) _ v).2 k

  -- The operation that an output of the transaction holds, if any, is paid for.
  abbrev pub PaidOutput : MsgTx → TxOut → Type 0
  PaidOutput tx o =
      (p : Parsed)
      → parse_name_script_full o.pk_script ≡ ok p
      → validate_transaction_fee store tx p.op_type h ≡ ok tt

  transaction_paid :
      (tx : MsgTx) (i : ℕ) (ctx ctx' : NameValidationContext)
      → validate_transaction_name_ops store tx (suc i) h ctx ≡ ok ctx'
      → All (PaidOutput tx) tx.tx_out
  unfolding validate_transaction_name_ops validate_name_op_fees collect_name_operation_types
  transaction_paid tx i ctx ctx' v =
      let ops = collect_from [] tx.tx_out in
      let (_, f, _) = >>=-eq-ok (validate_name_op_fees store tx ops (suc i) h) _ v in
      let paid : check_fees store tx ops h ≡ ok tt = rw (suc-not-zero i) at f in
      All-map tx.tx_out (λ o c p q. check_fees-eq-ok tx ops paid (c p q))
        (collect_from-Collected [] ops tx.tx_out refl)

  transactions_paid :
      (txs : List MsgTx) (i : ℕ) (ctx ctx' : NameValidationContext)
      → validate_transactions store txs (suc i) h ctx ≡ ok ctx'
      → All (λ tx. All (PaidOutput tx) tx.tx_out) txs
  unfolding validate_transactions
  transactions_paid [] i ctx ctx' v = tt
  transactions_paid (tx ∷ txs) i ctx ctx' v =
      let (c, v1, v2) = >>=-eq-ok (validate_transaction_name_ops store tx (suc i) h ctx) _ v in
      (transaction_paid tx i ctx c v1, transactions_paid txs (i + 1) c ctx' (rw (suc_add i) at v2))

-- When the name operations of a block that starts with a coinbase are accepted, every other
-- transaction passes the fee check for each operation that its outputs hold.
pub validate_name_operations-Paid :
    (store : Store) (find : HeightByHash) (block : Block) (coinbase : MsgTx) (txs : List MsgTx)
    → block.transactions ≡ coinbase ∷ txs
    → validate_name_operations store find block ≡ ok tt
    → (h : ℤ) × (determine_block_height find block ≡ ok h)
      × All (λ tx. All (PaidOutput store h tx) tx.tx_out) txs
unfolding validate_name_operations validate_transactions
validate_name_operations-Paid store find block coinbase txs e v =
    let (h, q, v1) = >>=-eq-ok (determine_block_height find block) _ v in
    let (c, w, _) =
      >>=-eq-ok (validate_transactions store block.transactions 0 h new_name_validation_context) _
        v1 in
    let (c', _, w') =
      >>=-eq-ok (validate_transaction_name_ops store coinbase 0 h new_name_validation_context) _
        (rw e at w) in
    (h, q, transactions_paid store h txs 0 c' c w')
