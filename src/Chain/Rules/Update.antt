-- ===== src/Chain/Rules/Update.antt =====
-- The ownership test of `validateNameUpdateOp`, chain/blockchain.go.
use nmcd.Prelude.{
  ◌≡◌, ◌↔◌, refl, [], ◌∷◌, List, true, ==_iff, arith, ltb-eq-false, inl, inr, Bool-cases,
}
use nmcd.Prelude.Bytes.{Bytes, bytes_eq_iff, bytes_eq_refl}
use nmcd.Int.{ℤ, ◌≤ℤ◌}
use nmcd.NameDb.{NameRecord}
use nmcd.Result.{ok, Result-split}
use nmcd.Chain.{OutPoint, TxIn, MsgTx, name_not_found, other, Store}
use nmcd.Chain.Rules.{is_out_point, spends, validate_ownership}

-- An input with the outpoint is in the list.
pub data Spends (current : OutPoint) : List TxIn → Type 0 where
  here : {i : TxIn} {ins : List TxIn} → i.previous_out_point ≡ current → Spends current (i ∷ ins)
  there : {i : TxIn} {ins : List TxIn} → Spends current ins → Spends current (i ∷ ins)

out_point_ext : (a b : OutPoint) → a.hash ≡ b.hash → a.index ≡ b.index → a ≡ b
out_point_ext a b p q i = record { hash = p i; index = q i }

is_out_point_iff : (a b : OutPoint) → (is_out_point a b ≡ true) ↔ (a ≡ b)
is_out_point_iff a b = (same, λ e. rw (e, bytes_eq_refl b.hash, (==_iff b.index b.index).1 refl))
  where
    same : is_out_point a b ≡ true → a ≡ b
    same h =
        let hash_eq = (bytes_eq_iff a.hash b.hash).0 (ground arith) in
        let index_eq : a.index ≡ b.index = ground arith in out_point_ext a b hash_eq index_eq

pub spends_iff :
    (current : OutPoint) (ins : List TxIn) → (spends current ins ≡ true) ↔ Spends current ins
unfolding spends
spends_iff current [] = (λ h. absurd (cc h), λ s. elim s [ ])
spends_iff current (i ∷ ins) = elim (Bool-cases (is_out_point i.previous_out_point current)) [
  | inl same ↦ rw same (λ _. here ((is_out_point_iff _ _).0 same), λ _. refl)
  | inr different ↦ rw different (
    λ h. there ((spends_iff current ins).0 h),
    λ s. elim s [
      | here e ↦ absurd (cc ((is_out_point_iff _ _).1 e, different))
      | there t ↦ (spends_iff current ins).1 t
    ],
  )
]

-- The outpoint of the output that holds the name.
abbrev pub name_out_point : NameRecord → OutPoint
name_out_point r = record { hash = r.tx_hash; index = r.out_index }

-- The test of an update passes exactly when the name is in the database, has not expired at the
-- height, and one of the inputs spends the output that the name's record points to.
pub validate_ownership-eq-ok_iff :
    (store : Store) (tx : MsgTx) (n : Bytes) (h : ℤ)
    → (validate_ownership store tx n h ≡ ok tt) ↔ (
        (r : NameRecord) × (store.get_name n ≡ ok r)
        × (h ≤ℤ r.expires_at)
        × Spends (name_out_point r) tx.tx_in)
unfolding validate_ownership
validate_ownership-eq-ok_iff store tx n h = (accepted, accepts)
  where
    accepted :
        validate_ownership store tx n h ≡ ok tt
        → (r : NameRecord) × (store.get_name n ≡ ok r)
          × (h ≤ℤ r.expires_at)
          × Spends (name_out_point r) tx.tx_in
    accepted v = elim (Result-split (store.get_name n)) [
      | inl (r, q) ↦ (
        r,
        q,
        ground (arith, rw (q, validate_ownership) at v),
        (spends_iff _ _).0 (ground (arith, rw (q, validate_ownership) at v)),
      )
      | inr (inl (name_not_found, q)) ↦ absurd (cc (rw (q, validate_ownership) at v))
      | inr (inl (other, q)) ↦ absurd (cc (rw (q, validate_ownership) at v))
      | inr (inr q) ↦ absurd (cc (rw (q, validate_ownership) at v))
    ]

    accepts :
        ((r : NameRecord) × (store.get_name n ≡ ok r)
          × (h ≤ℤ r.expires_at)
          × Spends (name_out_point r) tx.tx_in)
        → validate_ownership store tx n h ≡ ok tt
    accepts (r, q, l, s) = rw (q, validate_ownership, ltb-eq-false _ _ l, (spends_iff _ _).1 s)
