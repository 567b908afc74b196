-- ===== src/AuxPow/Branch.antt =====
-- `CheckMerkleBranch` and `computeChainMerkleRoot` of chain/auxpow.go.
use nmcd.Prelude.{
  ℕ, ◌+◌, ◌≡◌, ◌≢◌, ◌↔◌, ◌⊎◌, inl, inr, refl, sym, ◌∙◌, ap, [], ◌∷◌, ◌++◌, List, true, ◌==◌, length,
  drop, take, take-append, drop-append, Bool-cases,
}
use nmcd.Prelude.Bytes.{Bytes, bytes_eq, bytes_eq_iff}
use nmcd.AuxPow.{
  MerkleBranch, side_bit, combine, walk_branch, check_merkle_branch, root_loop,
  compute_chain_merkle_root,
}

-- Two inputs of the hash with one output.
abbrev pub Collision : (Bytes → Bytes) → Type 0
Collision f = (a : Bytes) × (b : Bytes) × (a ≢ b) × (f a ≡ f b)

append_left_injective : (a b s : Bytes) → length a ≡ length b → a ++ s ≡ b ++ s → a ≡ b
append_left_injective a b s l e =
    sym (take-append a s) ∙ ap (take (length a)) e ∙ ap (λ n. take n (b ++ s)) l ∙ take-append b s

append_right_injective : (s a b : Bytes) → s ++ a ≡ s ++ b → a ≡ b
append_right_injective s a b e = sym (drop-append s a) ∙ ap (drop (length s)) e ∙ drop-append s b

combine-injective :
    (bit : ℕ) (a b s : Bytes) → length a ≡ length b → combine bit a s ≡ combine bit b s → a ≡ b
unfolding combine
combine-injective bit a b s l e = elim (Bool-cases (bit == 0)) [
  | inl q ↦ append_left_injective a b s l (rw q at e)
  | inr q ↦ append_right_injective s a b (rw q at e)
]

module _ (double_hash : Bytes → Bytes) where
  walk_branch-root_loop :
      (h : Bytes) (mask i : ℕ) (rest : List Bytes)
      → walk_branch double_hash h mask i rest ≡ root_loop double_hash h mask i rest
  unfolding walk_branch root_loop combine
  walk_branch-root_loop h mask i [] = refl
  walk_branch-root_loop h mask i (s ∷ rest) = elim (Bool-cases (side_bit mask i == 0)) [
    | inl q ↦ rw q (walk_branch-root_loop (double_hash (h ++ s)) mask (i + 1) rest)
    | inr q ↦ rw q (walk_branch-root_loop (double_hash (s ++ h)) mask (i + 1) rest)
  ]

  -- The check of a branch against a root succeeds exactly when the root that is computed from the leaf
  -- along the branch is that root.
  pub check_merkle_branch_iff :
      (leaf : Bytes) (b : MerkleBranch) (root : Bytes)
      → (check_merkle_branch double_hash leaf b root ≡ true)
        ↔ (compute_chain_merkle_root double_hash leaf b ≡ root)
  unfolding check_merkle_branch compute_chain_merkle_root
  check_merkle_branch_iff leaf b root =
      let e = walk_branch-root_loop leaf b.side_mask 0 b.branch in
      let (to, from) = bytes_eq_iff (walk_branch double_hash leaf b.side_mask 0 b.branch) root in
      (λ h. sym e ∙ to h, λ h. from (e ∙ h))

  walk_branch-injective :
      ((x : Bytes) → length (double_hash x) ≡ 32)
      → (a b : Bytes) (mask i : ℕ) (rest : List Bytes) → length a ≡ length b
      → walk_branch double_hash a mask i rest ≡ walk_branch double_hash b mask i rest
      → (a ≡ b) ⊎ Collision double_hash
  unfolding walk_branch
  walk_branch-injective size a b mask i [] l e = inl e
  walk_branch-injective size a b mask i (s ∷ rest) l e =
      let x = combine (side_bit mask i) a s in
      let y = combine (side_bit mask i) b s in
      elim (walk_branch-injective size (double_hash x) (double_hash y) mask (i + 1) rest
        (size x ∙ sym (size y)) e) [
          | inr c ↦ inr c
          | inl same ↦ elim (Bool-cases (bytes_eq a b)) [
            | inl q ↦ inl ((bytes_eq_iff a b).0 q)
            | inr q ↦ inr (
              x,
              y,
              (λ (p : x ≡ y).
                  absurd
                    (cc ((bytes_eq_iff a b).1 (combine-injective (side_bit mask i) a b s l p), q))),
              same,
            )
          ]
        ]

  -- With a hash of fixed length: two 32-byte leaves that pass the check with one branch and one root
  -- are the same leaf, or they exhibit a collision of the hash.
  pub check_merkle_branch-binding :
      ((x : Bytes) → length (double_hash x) ≡ 32)
      → (a b root : Bytes) (m : MerkleBranch) → length a ≡ 32
      → length b ≡ 32
      → check_merkle_branch double_hash a m root ≡ true
      → check_merkle_branch double_hash b m root ≡ true
      → (a ≡ b) ⊎ Collision double_hash
  unfolding check_merkle_branch
  check_merkle_branch-binding size a b root m la lb ha hb =
      let pa = (bytes_eq_iff (walk_branch double_hash a m.side_mask 0 m.branch) root).0 ha in
      let pb = (bytes_eq_iff (walk_branch double_hash b m.side_mask 0 m.branch) root).0 hb in
      walk_branch-injective size a b m.side_mask 0 m.branch (la ∙ sym lb) (pa ∙ sym pb)
