-- ===== src/Mempool/Validated.antt =====
-- The entries of the pool of network/mempool.go and the validator.
use nmcd.Prelude.{
  ℕ, ◌≡◌, refl, [], ◌∷◌, List, Option, ltb, length, Bool-cases, Option-cases, inl, inr, subst,
  le-or-lt, All, le→leb, leb-eq-false, ◌-◌,
}
use nmcd.Prelude.Bytes.{Bytes, bytes_eq}
use nmcd.Int.{ℤ}
use nmcd.Result.{Result, ok, >>=-eq-ok, ok-injective}
use nmcd.Chain.{MsgTx, RuleError}
use nmcd.Mempool.{
  MempoolTx, Mempool, new_mempool_with_config, find, delete, touch, keep_unexpired, cleanup_expired,
  run_validator, add_tx, remove_tx, delete_all, remove_txs,
}
use nmcd.Mempool.Bounded.{Step, added, removed, confirmed, cleaned, cleared, Reachable, begin, step}

module _ (tx_hash : MsgTx → Bytes)
    (validator : Option (ℕ → MsgTx → Result RuleError (Unit {0}))) where
  abbrev pub Validated : Bytes × MempoolTx → Type 0
  Validated (k, m) = (k ≡ tx_hash m.tx) × (run_validator tx_hash validator m.added_at m.tx ≡ ok tt)

  touch-Validated :
      (h : Bytes) (now : ℕ) (txs : List (Bytes × MempoolTx))
      → All Validated txs
      → All Validated (touch h now txs)
  unfolding touch
  touch-Validated h now [] a = tt
  touch-Validated h now ((k, m) ∷ rest) (v, a) = elim (Bool-cases (bytes_eq h k)) [
    | inl q ↦ rw q (v, touch-Validated h now rest a)
    | inr q ↦ rw q (v, touch-Validated h now rest a)
  ]

  delete-Validated :
      (h : Bytes) (txs : List (Bytes × MempoolTx))
      → All Validated txs
      → All Validated (delete h txs)
  unfolding delete
  delete-Validated h [] a = tt
  delete-Validated h ((k, m) ∷ rest) (v, a) = elim (Bool-cases (bytes_eq h k)) [
    | inl q ↦ rw q (delete-Validated h rest a)
    | inr q ↦ rw q (v, delete-Validated h rest a)
  ]

  delete_all-Validated :
      (hs : List Bytes) (txs : List (Bytes × MempoolTx))
      → All Validated txs
      → All Validated (delete_all hs txs)
  unfolding delete_all
  delete_all-Validated [] txs a = a
  delete_all-Validated (h ∷ hs) txs a =
      delete_all-Validated hs (delete h txs) (delete-Validated h txs a)

  keep_unexpired-Validated :
      (now expiry : ℕ) (txs : List (Bytes × MempoolTx))
      → All Validated txs
      → All Validated (keep_unexpired now expiry txs)
  unfolding keep_unexpired
  keep_unexpired-Validated now expiry [] a = tt
  keep_unexpired-Validated now expiry ((k, m) ∷ rest) (v, a) =
      elim (Bool-cases (ltb expiry (now - m.added_at))) [
        | inl q ↦ rw q (keep_unexpired-Validated now expiry rest a)
        | inr q ↦ rw q (v, keep_unexpired-Validated now expiry rest a)
      ]

  abbrev pub AllValidated : Mempool → Type 0
  AllValidated mp = All Validated mp.txs

  add_tx-Validated :
      (tx : MsgTx) (now : ℕ) (mp mp' : Mempool)
      → AllValidated mp
      → add_tx tx_hash validator tx now mp ≡ ok mp'
      → AllValidated mp'
  unfolding add_tx
  add_tx-Validated tx now mp mp' a v = elim (Option-cases (find (tx_hash tx) mp.txs)) [
    | inr (m, q) ↦
        subst AllValidated (ok-injective (rw (q, add_tx) at v))
          (touch-Validated (tx_hash tx) now mp.txs a)
    | inl q ↦ elim (le-or-lt mp.max_txs (length mp.txs)) [
      | inl full ↦ absurd (cc (rw (q, add_tx, le→leb mp.max_txs (length mp.txs) full) at v))
      | inr room ↦
          let (_, accepted, w) =
            >>=-eq-ok (run_validator tx_hash validator now tx) _
              (rw (q, add_tx, leb-eq-false mp.max_txs (length mp.txs) room) at v) in
          subst AllValidated (ok-injective w) ((refl, accepted), a)
    ]
  ]

  Step-Validated :
      {mp mp' : Mempool} → Step tx_hash validator mp mp' → AllValidated mp → AllValidated mp'
  unfolding remove_tx remove_txs cleanup_expired
  Step-Validated {mp} {mp'} (added tx now e) a = add_tx-Validated tx now mp mp' a e
  Step-Validated {mp} (removed h) a = delete-Validated h mp.txs a
  Step-Validated {mp} (confirmed hs) a = delete_all-Validated hs mp.txs a
  Step-Validated {mp} (cleaned now) a = keep_unexpired-Validated now mp.tx_expiry mp.txs a
  Step-Validated cleared a = tt

  -- After any calls, each transaction in the pool was accepted, when it was added, by the validator, where there is one, and
  -- stands under its own hash.
  pub Reachable-Validated :
      (max_txs tx_expiry : ℤ) (mp : Mempool)
      → Reachable tx_hash validator (new_mempool_with_config max_txs tx_expiry) mp
      → All Validated mp.txs
  unfolding new_mempool_with_config
  Reachable-Validated max_txs tx_expiry mp r = from_start r tt
    where
      from_start :
          {start mp' : Mempool}
          → Reachable tx_hash validator start mp'
          → AllValidated start
          → AllValidated mp'
      from_start begin a = a
      from_start (step q s) a = Step-Validated s (from_start q a)
