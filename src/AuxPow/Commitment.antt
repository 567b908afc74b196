-- ===== src/AuxPow/Commitment.antt =====
-- `checkMergeMiningCommitment` of chain/auxpow.go, against a count over all positions.
use nmcd.Prelude.{
  ℕ, suc, zero, ◌+◌, ◌<◌, ◌≡◌, inl, inr, refl, sym, ◌∙◌, ap, [], ◌∷◌, none, some, Bool, true, ◌&&◌,
  leb, if◌then◌else◌, length, drop, drop-drop, length-drop, drop-eq-cons, get_elem?-some,
  Bool-cases, Option-cases, arith, subst, le-or-lt, lt→ltb, ltb-eq-false, leb-eq-false, le→leb,
}
use nmcd.Prelude.Bytes.{Bytes}
use nmcd.Config.{has_prefix}
use nmcd.AuxPow.{aux_pow_magic, index_of, is_commitment, count_if_valid, count_commitments}

module _ (root : Bytes) (size : ℕ) where
  -- The bytes start with the magic, 36 more follow, and they are the root and the size.
  abbrev pub valid_at : Bytes → Bool
  valid_at s =
      has_prefix s aux_pow_magic && (leb 40 (length s) && is_commitment root size (drop 4 s))

  -- How many suffixes start with a valid commitment.
  pub number_valid : Bytes → ℕ
  number_valid [] = 0
  number_valid (b ∷ bs) = if valid_at (b ∷ bs) then suc (number_valid bs) else number_valid bs

  no_magic : (s : Bytes) → index_of aux_pow_magic s ≡ none → number_valid s ≡ 0
  unfolding index_of number_valid
  no_magic [] h = refl
  no_magic (b ∷ bs) h = elim (Bool-cases (has_prefix (b ∷ bs) aux_pow_magic)) [
    | inl q ↦ absurd (cc (rw (q, index_of) at h))
    | inr q ↦ elim (Option-cases (index_of aux_pow_magic bs)) [
      | inl n ↦ rw (q, number_valid) (no_magic bs n)
      | inr (i, e) ↦ absurd (cc (rw (q, index_of, e) at h))
    ]
  ]

  abbrev FirstAt : Bytes → ℕ → Type 0
  FirstAt s i =
      (i < length s)
      × (has_prefix (drop i s) aux_pow_magic ≡ true)
      × (number_valid s ≡ number_valid (drop i s))

  -- The suffixes before the first occurrence of the magic hold no commitment.
  first_magic : (s : Bytes) (i : ℕ) → index_of aux_pow_magic s ≡ some i → FirstAt s i
  unfolding index_of number_valid has_prefix
  first_magic [] i h = absurd (cc h)
  first_magic (b ∷ bs) i h = elim (Bool-cases (has_prefix (b ∷ bs) aux_pow_magic)) [
    | inl q ↦
        let e : 0 ≡ i = cc (rw (q, index_of) at h) in
        subst (FirstAt (b ∷ bs)) e (omega arith, q, refl)
    | inr q ↦ elim (Option-cases (index_of aux_pow_magic bs)) [
      | inl n ↦ absurd (cc (rw (q, index_of, n) at h))
      | inr (j, e) ↦
          let (l, p, n) = first_magic bs j e in
          let step : suc j ≡ i = cc (rw (q, index_of, e) at h) in
          subst (FirstAt (b ∷ bs)) step (omega arith, p, rw (q, number_valid) n)
    ]
  ]

  -- One turn of the loop counts the suffix at the occurrence.
  count_cons :
      (s : Bytes) (i c : ℕ) (b : ℕ) (bs : Bytes)
      → has_prefix (b ∷ bs) aux_pow_magic ≡ true
      → drop 4 (b ∷ bs) ≡ drop (i + 4) s
      → length (b ∷ bs) + i ≡ length s
      → count_if_valid root size i s c + number_valid bs ≡ c + number_valid (b ∷ bs)
  unfolding count_if_valid number_valid
  count_cons s i c b bs p four l = elim (le-or-lt 40 (length (b ∷ bs))) [
    | inr short ↦
        rw
          (lt→ltb (length s) (i + 4 + 36) (omega arith), p, leb-eq-false 40 (length (b ∷ bs)) short)
          refl
    | inl long ↦ elim (Bool-cases (is_commitment root size (drop (i + 4) s))) [
      | inl q ↦
          rw
            (
              ltb-eq-false (length s) (i + 4 + 36) (omega arith),
              p,
              le→leb 40 (length (b ∷ bs)) long,
              four,
              q,
            )
            (omega arith)
      | inr q ↦
          rw
            (
              ltb-eq-false (length s) (i + 4 + 36) (omega arith),
              p,
              le→leb 40 (length (b ∷ bs)) long,
              four,
              q,
            )
            refl
    ]
  ]

  count_step :
      (s : Bytes) (i c : ℕ)
      → i < length s
      → has_prefix (drop i s) aux_pow_magic ≡ true
      → count_if_valid root size i s c + number_valid (drop (i + 1) s) ≡ c + number_valid (drop i s)
  count_step s i c l p =
      let (b, e) = get_elem?-some s i l in
      let d : drop i s ≡ b ∷ drop (i + 1) s = drop-eq-cons s i e in
      rw d (
        count_cons s i c b (drop (i + 1) s) (rw d at p) (ap (drop 4) (sym d) ∙ drop-drop 4 i s)
          (omega (arith, ap length d, length-drop i s)))

  pub count_commitments-enough :
      (fuel : ℕ) (s : Bytes) (c : ℕ)
      → length s < fuel
      → count_commitments root size fuel s c ≡ some (c + number_valid s)
  unfolding count_commitments
  count_commitments-enough zero s c l = elim l [ ]
  count_commitments-enough (suc fuel) s c l = elim (Option-cases (index_of aux_pow_magic s)) [
    | inl n ↦ rw (n, count_commitments, no_magic s n) (ap some (omega arith))
    | inr (i, e) ↦
        let (li, p, q) = first_magic s i e in
        rw (e, count_commitments)
          (count_commitments-enough fuel (drop (i + 1) s) (count_if_valid root size i s c)
              (omega (arith, length-drop (i + 1) s))
            ∙ ap some (count_step s i c li p ∙ ap (◌+◌ c) (sym q)))
  ]
