-- ===== src/Tests/Pools.antt =====
-- Merkle branches, commitments and the pool of transactions.
use nmcd.Prelude.{
  ℕ, ◌≡◌, ◌↔◌, ◌⊎◌, ◌≤◌, ◌++◌, refl, [], ◌∷◌, Option, some, take, length, length-take,
  length-append, All, arith, true,
}
use nmcd.Prelude.Bytes.{Bytes, bytes_eq}
use nmcd.Int.{pos}
use nmcd.Result.{Result, ok}
use nmcd.Chain.{MsgTx, RuleError}
use nmcd.AuxPow.{MerkleBranch, check_merkle_branch, compute_chain_merkle_root, walk_branch, combine}
use nmcd.AuxPow.Branch.{Collision, check_merkle_branch_iff, check_merkle_branch-binding}
use nmcd.Mempool.{Mempool, new_mempool_with_config, add_tx, count, find}
use nmcd.Mempool.Bounded.{Reachable, begin, step, added, Reachable-count}
use nmcd.Mempool.Validated.{Validated, Reachable-Validated}
use nmcd.Tests.{hash_a}

-- A function to 32 bytes: the first 32 of the input, filled up.
abbrev fold_hash : Bytes → Bytes
fold_hash d = take 32 (d ++ hash_a)

fold_hash-size : (d : Bytes) → length (fold_hash d) ≡ 32
fold_hash-size d = length-take 32 (d ++ hash_a) (omega (arith, length-append d hash_a))

abbrev one_level : MerkleBranch
one_level = record { branch = hash_a ∷ []; side_mask = 1 }

check_merkle_branch_iff_example :
    (check_merkle_branch fold_hash hash_a one_level hash_a ≡ true)
    ↔ (compute_chain_merkle_root fold_hash hash_a one_level ≡ hash_a)
check_merkle_branch_iff_example = check_merkle_branch_iff fold_hash hash_a one_level hash_a

branch_passes : check_merkle_branch fold_hash hash_a one_level hash_a ≡ true
unfolding check_merkle_branch walk_branch combine bytes_eq
branch_passes = refl

check_merkle_branch-binding_example : (hash_a ≡ hash_a) ⊎ Collision fold_hash
check_merkle_branch-binding_example =
    check_merkle_branch-binding fold_hash fold_hash-size hash_a hash_a hash_a one_level refl refl
      branch_passes branch_passes

abbrev coinbase_data : Bytes
coinbase_data = 0xfa ∷ 0xbe ∷ 0x6d ∷ 0x6d ∷ (hash_a ++ 2 ∷ 0 ∷ 0 ∷ 0 ∷ [])

abbrev empty_tx : MsgTx
empty_tx = record { tx_in = []; tx_out = [] }

abbrev accept_all : Option (ℕ → MsgTx → Result RuleError (Unit {0}))
accept_all = some (λ _ _. ok tt)

abbrev one_tx_pool : Mempool
one_tx_pool = record {
  txs = (hash_a, record { tx = empty_tx; added_at = 9; last_seen = 9 }) ∷ [];
  max_txs = 5;
  tx_expiry = 100;
}

one_tx_pool-Reachable :
    Reachable (λ _. hash_a) accept_all (new_mempool_with_config (pos 5) (pos 100)) one_tx_pool
unfolding new_mempool_with_config add_tx find
one_tx_pool-Reachable = step begin (added empty_tx 9 refl)

Reachable-count_example : count one_tx_pool ≤ 5
Reachable-count_example =
    Reachable-count (λ _. hash_a) accept_all (pos 5) (pos 100) one_tx_pool one_tx_pool-Reachable

Reachable-Validated_example : All (Validated (λ _. hash_a) accept_all) (one_tx_pool.txs)
Reachable-Validated_example =
    Reachable-Validated (λ _. hash_a) accept_all (pos 5) (pos 100) one_tx_pool one_tx_pool-Reachable
