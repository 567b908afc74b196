-- ===== src/Chain/Rules/Permitted.antt =====
-- What the rules grant to one name operation, and what they leave in the context of the block.
use nmcd.Prelude.{◌≤◌, ◌<◌, ◌≡◌, ◌↔◌, ◌⊎◌, sym, ◌∙◌, ap, ◌∷◌, false, arith, inl, inr, length}
use nmcd.Prelude.Bytes.{Bytes}
use nmcd.Int.{ℤ, pos, ◌≤ℤ◌, ◌<ℤ◌, ltb_ℤ}
use nmcd.NameDb.{NameRecord}
use nmcd.Result.{ok, err, ok-injective, >>=-eq-ok, fail_if-eq-ok, Result-split}
use nmcd.Chain.{TxOut, MsgTx, DbError, name_not_found, other, Store}
use nmcd.Chain.Rules.{
  NameValidationContext, is_seen, validate_consensus_name_format, compute_commit_hash,
  validate_named_tx_out, validate_name_new_op, ensure_name_available_for_first_update,
  validate_first_update_window, validate_name_first_update_op, validate_ownership,
  validate_name_update_op,
}

-- A name has 1 to 255 bytes, a value 520 or fewer.
abbrev pub FormatFits : Bytes → Bytes → Type 0
FormatFits n v = (0 < length n) × (length n ≤ 255) × (length v ≤ 520)

pub validate_consensus_name_format-eq-ok_iff :
    (n v : Bytes) → (validate_consensus_name_format n v ≡ ok tt) ↔ FormatFits n v
unfolding validate_consensus_name_format
validate_consensus_name_format-eq-ok_iff n v = ground arith

-- The name is free at a height: nobody has it, or it expired before.
abbrev pub Available : Store → Bytes → ℤ → Type 0
Available store n h =
    (store.get_name n ≡ err name_not_found)
    ⊎ ((r : NameRecord) × (store.get_name n ≡ ok r) × (r.expires_at <ℤ h))

pub ensure_name-Available-eq-ok :
    (store : Store) (n : Bytes) (h : ℤ)
    → ensure_name_available_for_first_update store n h ≡ ok tt
    → Available store n h
unfolding ensure_name_available_for_first_update
ensure_name-Available-eq-ok store n h v = elim (Result-split (store.get_name n)) [
  | inl (r, q) ↦ inr (r, q, ground (arith, rw (q, ensure_name_available_for_first_update) at v))
  | inr (inl (name_not_found, q)) ↦ inl q
  | inr (inl (other, q)) ↦ absurd (cc (rw (q, ensure_name_available_for_first_update) at v))
  | inr (inr q) ↦ absurd (cc (rw (q, ensure_name_available_for_first_update) at v))
]

-- One output of a name that is recorded in the context.
abbrev pub Recorded : TxOut → Bytes → NameValidationContext → NameValidationContext → Type 0
Recorded o n ctx ctx' =
    (pos 546 ≤ℤ o.value)
    × (is_seen n ctx.seen_names ≡ false)
    × (ctx'.seen_names ≡ n ∷ ctx.seen_names)

pub validate_named_tx_out-eq-ok :
    (o : TxOut) (n : Bytes) (ctx ctx' : NameValidationContext)
    → validate_named_tx_out o n ctx ≡ ok ctx'
    → Recorded o n ctx ctx'
unfolding validate_named_tx_out
validate_named_tx_out-eq-ok o n ctx ctx' v =
    let (dust, v') = fail_if-eq-ok (ltb_ℤ o.value (pos 546)) _ _ v in
    let (fresh, v'') = fail_if-eq-ok (is_seen n ctx.seen_names) _ _ v' in
    (ground arith, fresh, sym (ap (λ (c : NameValidationContext). c.seen_names) (ok-injective v'')))

module _ (store : Store) where
  pub validate_name_new_op-eq-ok :
      (o : TxOut) (extra : Bytes) (ctx ctx' : NameValidationContext)
      → validate_name_new_op store o extra ctx ≡ ok ctx'
      → (pos 546 ≤ℤ o.value)
        × ((e : DbError) × (store.get_name_new extra ≡ err e))
        × (ctx'.seen_names ≡ ctx.seen_names)
  unfolding validate_name_new_op
  validate_name_new_op-eq-ok o extra ctx ctx' v =
      let (dust, v1) = fail_if-eq-ok (ltb_ℤ o.value (pos 546)) _ _ v in
      let (fresh, v2) = fail_if-eq-ok (is_seen extra ctx.seen_name_new_commits) _ _ v1 in
      elim (Result-split (store.get_name_new extra)) [
        | inl (r, q) ↦ absurd (cc (rw q at v2))
        | inr (inl (e, q)) ↦ (
          ground arith,
          (e, q),
          sym (ap (λ (c : NameValidationContext). c.seen_names) (ok-injective (rw q at v2))),
        )
        | inr (inr q) ↦ absurd (cc (rw q at v2))
      ]

  pub validate_name_first_update_op-eq-ok :
      (o : TxOut) (n extra : Bytes) (h : ℤ) (ctx ctx' : NameValidationContext)
      → validate_name_first_update_op store o n extra h ctx ≡ ok ctx'
      → Recorded o n ctx ctx'
        × Available store n h
        × (validate_first_update_window store (compute_commit_hash store extra n) h ≡ ok tt)
  unfolding validate_name_first_update_op
  validate_name_first_update_op-eq-ok o n extra h ctx ctx' v =
      let (c, named, v1) = >>=-eq-ok (validate_named_tx_out o n ctx) _ v in
      let (_, free, v2) = >>=-eq-ok (ensure_name_available_for_first_update store n h) _ v1 in
      let (_, window, v3) =
        >>=-eq-ok (validate_first_update_window store (compute_commit_hash store extra n) h) _ v2 in
      let e = ok-injective v3 in
      (
        validate_named_tx_out-eq-ok o n ctx ctx' (named ∙ ap ok e),
        ensure_name-Available-eq-ok store n h free,
        window,
      )

  pub validate_name_update_op-eq-ok :
      (tx : MsgTx) (o : TxOut) (n : Bytes) (h : ℤ) (ctx ctx' : NameValidationContext)
      → validate_name_update_op store tx o n h ctx ≡ ok ctx'
      → Recorded o n ctx ctx' × (validate_ownership store tx n h ≡ ok tt)
  unfolding validate_name_update_op
  validate_name_update_op-eq-ok tx o n h ctx ctx' v =
      let (c, named, v1) = >>=-eq-ok (validate_named_tx_out o n ctx) _ v in
      let (_, owned, v2) = >>=-eq-ok (validate_ownership store tx n h) _ v1 in
      (validate_named_tx_out-eq-ok o n ctx ctx' (named ∙ ap ok (ok-injective v2)), owned)
