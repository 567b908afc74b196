-- ===== src/Chain/Block/Distinct.antt =====
-- The duplicate test of `validateNameOperations`, chain/blockchain.go.
use nmcd.Prelude.{◌≡◌, refl, [], ◌∷◌, List, true, false, inl, inr, Bool-cases, subst, arith}
use nmcd.Prelude.Bytes.{Bytes, bytes_eq, bytes_eq_iff, bytes_eq_refl}
use nmcd.Result.{ok, >>=-eq-ok}
use nmcd.Chain.{Store}
use nmcd.Chain.Rules.{new_name_validation_context, is_seen}
use nmcd.Chain.Block.{
  Block, HeightByHash, determine_block_height, validate_transactions, validate_name_operations,
}
use nmcd.Chain.Block.Safety.{Fresh, done, next, names_of_transactions, validate_transactions-eq-ok}

-- No name is among those that follow it.
abbrev pub Distinct : List Bytes → Type 0
Distinct [] = Unit
Distinct (n ∷ ns) = (is_seen n ns ≡ false) × Distinct ns

is_seen_head : (x : Bytes) (seen : List Bytes) → is_seen x (x ∷ seen) ≡ true
unfolding is_seen
is_seen_head x seen = rw (bytes_eq_refl x)

is_seen_tail :
    (x n : Bytes) (seen : List Bytes) → is_seen x seen ≡ true → is_seen x (n ∷ seen) ≡ true
unfolding is_seen
is_seen_tail x n seen s = ground arith

Fresh-avoids :
    {seen ns seen' : List Bytes} (x : Bytes)
    → Fresh seen ns seen'
    → is_seen x seen ≡ true
    → is_seen x ns ≡ false
unfolding is_seen
Fresh-avoids x done s = refl
Fresh-avoids {seen} x (next {n = n} e f) s = elim (Bool-cases (bytes_eq x n)) [
  | inl same ↦ absurd (cc (e, subst (λ y. is_seen y seen ≡ true) ((bytes_eq_iff x n).0 same) s))
  | inr different ↦ rw different (Fresh-avoids x f (is_seen_tail x n seen s))
]

Fresh-Distinct : {seen ns seen' : List Bytes} → Fresh seen ns seen' → Distinct ns
Fresh-Distinct done = tt
Fresh-Distinct {seen} (next {n = n} e f) =
    (Fresh-avoids n f (is_seen_head n seen), Fresh-Distinct f)

-- When the name operations of a block are accepted, the names that its outputs register or update,
-- over all of its transactions, are pairwise different.
pub validate_name_operations-Distinct :
    (store : Store) (find : HeightByHash) (block : Block)
    → validate_name_operations store find block ≡ ok tt
    → Distinct (names_of_transactions block.transactions)
unfolding validate_name_operations
validate_name_operations-Distinct store find block v =
    let (h, q, v1) = >>=-eq-ok (determine_block_height find block) _ v in
    let (c, w, _) =
      >>=-eq-ok (validate_transactions store block.transactions 0 h new_name_validation_context) _
        v1 in
    Fresh-Distinct
      (validate_transactions-eq-ok store h block.transactions 0 new_name_validation_context c w).1
