-- ===== src/Mempool/Bounded.antt =====
-- The calls of the pool of network/mempool.go, in any order, and its limit.
use nmcd.Prelude.{
  ℕ, ◌≤◌, ◌≡◌, refl, [], ◌∷◌, List, Option, length, arith, Option-cases, inl, inr, subst, le-or-lt,
  le→leb, leb-eq-false,
}
use nmcd.Prelude.Bytes.{Bytes}
use nmcd.Int.{ℤ}
use nmcd.Result.{Result, ok, >>=-eq-ok, ok-injective}
use nmcd.Chain.{MsgTx, RuleError}
use nmcd.Mempool.{
  MempoolTx, Mempool, new_mempool_with_config, find, delete, touch, keep_unexpired, cleanup_expired,
  run_validator, add_tx, remove_tx, delete_all, remove_txs, count, clear,
}

module _ (tx_hash : MsgTx → Bytes)
    (validator : Option (ℕ → MsgTx → Result RuleError (Unit {0}))) where
  -- One call of the pool's operations; a call of AddTx that fails leaves the pool as it is.
  pub data Step : Mempool → Mempool → Type 0 where
    added :
        {mp mp' : Mempool} (tx : MsgTx) (now : ℕ)
        → add_tx tx_hash validator tx now mp ≡ ok mp'
        → Step mp mp'
    removed : {mp : Mempool} (h : Bytes) → Step mp (remove_tx h mp)
    confirmed : {mp : Mempool} (hs : List Bytes) → Step mp (remove_txs hs mp)
    cleaned : {mp : Mempool} (now : ℕ) → Step mp (cleanup_expired now mp)
    cleared : {mp : Mempool} → Step mp (clear mp)

  pub data Reachable (start : Mempool) : Mempool → Type 0 where
    begin : Reachable start start
    step : {mp mp' : Mempool} → Reachable start mp → Step mp mp' → Reachable start mp'

  length-touch :
      (h : Bytes) (now : ℕ) (txs : List (Bytes × MempoolTx)) → length (touch h now txs) ≡ length txs
  unfolding touch
  length-touch h now [] = refl
  length-touch h now ((k, m) ∷ rest) = ground (arith, length-touch h now rest)

  length-delete : (h : Bytes) (txs : List (Bytes × MempoolTx)) → length (delete h txs) ≤ length txs
  unfolding delete
  length-delete h [] = ground arith
  length-delete h ((k, m) ∷ rest) = ground (arith, length-delete h rest)

  length-delete_all :
      (hs : List Bytes) (txs : List (Bytes × MempoolTx)) → length (delete_all hs txs) ≤ length txs
  unfolding delete_all
  length-delete_all [] txs = omega arith
  length-delete_all (h ∷ hs) txs =
      omega (arith, length-delete_all hs (delete h txs), length-delete h txs)

  length-keep_unexpired :
      (now expiry : ℕ) (txs : List (Bytes × MempoolTx))
      → length (keep_unexpired now expiry txs) ≤ length txs
  unfolding keep_unexpired
  length-keep_unexpired now expiry [] = ground arith
  length-keep_unexpired now expiry ((k, m) ∷ rest) =
      ground (arith, length-keep_unexpired now expiry rest)

  -- The pool is within its bound.
  abbrev pub Fits : Mempool → Type 0
  Fits mp = count mp ≤ mp.max_txs

  add_tx-Fits :
      (tx : MsgTx) (now : ℕ) (mp mp' : Mempool)
      → Fits mp
      → add_tx tx_hash validator tx now mp ≡ ok mp'
      → Fits mp'
  unfolding add_tx
  add_tx-Fits tx now mp mp' f v = elim (Option-cases (find (tx_hash tx) mp.txs)) [
    | inr (m, q) ↦
        subst Fits (ok-injective (rw (q, add_tx) at v))
          (omega (arith, length-touch (tx_hash tx) now mp.txs))
    | inl q ↦ elim (le-or-lt mp.max_txs (length mp.txs)) [
      | inl full ↦ absurd (cc (rw (q, add_tx, le→leb mp.max_txs (length mp.txs) full) at v))
      | inr room ↦
          let (_, _, w) =
            >>=-eq-ok (run_validator tx_hash validator now tx) _
              (rw (q, add_tx, leb-eq-false mp.max_txs (length mp.txs) room) at v) in
          subst Fits (ok-injective w) (omega arith)
    ]
  ]

  Step-Fits : {mp mp' : Mempool} → Step mp mp' → Fits mp → Fits mp'
  unfolding remove_tx remove_txs cleanup_expired
  Step-Fits {mp} {mp'} (added tx now e) f = add_tx-Fits tx now mp mp' f e
  Step-Fits {mp} (removed h) f = omega (arith, length-delete h mp.txs)
  Step-Fits {mp} (confirmed hs) f = omega (arith, length-delete_all hs mp.txs)
  Step-Fits {mp} (cleaned now) f = omega (arith, length-keep_unexpired now mp.tx_expiry mp.txs)
  Step-Fits cleared f = omega arith

  Reachable-Fits : {start mp : Mempool} → Reachable start mp → Fits start → Fits mp
  Reachable-Fits begin f = f
  Reachable-Fits (step r s) f = Step-Fits s (Reachable-Fits r f)

  -- However it is configured, and after whatever calls of AddTx, RemoveTx, RemoveTxs, Clear and the
  -- cleanup, a new pool never holds more transactions than its limit.
  pub Reachable-count :
      (max_txs tx_expiry : ℤ) (mp : Mempool)
      → Reachable (new_mempool_with_config max_txs tx_expiry) mp
      → count mp ≤ mp.max_txs
  unfolding new_mempool_with_config
  Reachable-count max_txs tx_expiry mp r = Reachable-Fits r (omega arith)
