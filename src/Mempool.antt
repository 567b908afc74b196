-- ===== src/Mempool.antt =====
-- The pool of unconfirmed transactions, network/mempool.go. Times are numbers; btcd's `TxHash`, the
-- optional validator and the clock's readings are parameters. The validator's answer may change from one
-- reading of the clock to the next, since it reads the name database and the best height. Log lines are
-- left out.
pub mod Bounded
pub mod Validated
use nmcd.Prelude.{
  ℕ, ◌-◌, ◌*◌, [], ◌∷◌, List, Option, none, some, map, Bool, true, false, ltb, leb, ◌==◌,
  if◌then◌else◌, length,
}
use nmcd.Prelude.Bytes.{Bytes, bytes_eq}
use nmcd.Int.{ℤ, pos, pos_part, leb_ℤ}
use nmcd.Result.{Result, ok, err, panic, map_err, ◌>>=◌, ◌>>◌}
use nmcd.Chain.{MsgTx, RuleError}

pub record MempoolTx : Type 0 where
  pub tx : MsgTx
  pub added_at : ℕ
  pub last_seen : ℕ

-- The map from hashes to entries is an association list in which a key occurs once.
pub record Mempool : Type 0 where
  pub txs : List (Bytes × MempoolTx)
  pub max_txs : ℕ
  pub tx_expiry : ℕ

pub data MempoolError : Type 0 where
  mempool_is_full : MempoolError
  validation_failed : RuleError → MempoolError

-- 24 hours in nanoseconds; a limit or a duration that is not positive is replaced by the default.
unfoldable pub new_mempool_with_config : ℤ → ℤ → Mempool
new_mempool_with_config max_txs tx_expiry = record {
  txs = [];
  max_txs = (if leb_ℤ max_txs (pos 0) then 5000 else pos_part max_txs);
  tx_expiry = (if leb_ℤ tx_expiry (pos 0) then 86400000000000 else pos_part tx_expiry);
}

unfoldable pub find : Bytes → List (Bytes × MempoolTx) → Option MempoolTx
find h [] = none
find h ((k, m) ∷ rest) = if bytes_eq h k then some m else find h rest

-- `delete(mp.txs, h)`
pub delete : Bytes → List (Bytes × MempoolTx) → List (Bytes × MempoolTx)
delete h [] = []
delete h ((k, m) ∷ rest) = let kept = delete h rest in if bytes_eq h k then kept else (k, m) ∷ kept

-- `mtx.lastSeen = time.Now()` of the entry that the map points to.
pub touch : Bytes → ℕ → List (Bytes × MempoolTx) → List (Bytes × MempoolTx)
touch h now [] = []
touch h now ((k, m) ∷ rest) =
    let others = touch h now rest in
    if bytes_eq h k then (k, record m { last_seen = now }) ∷ others else (k, m) ∷ others

-- `now.Sub(mtx.addedAt) > mp.txExpiry`
pub keep_unexpired : ℕ → ℕ → List (Bytes × MempoolTx) → List (Bytes × MempoolTx)
keep_unexpired now expiry [] = []
keep_unexpired now expiry ((k, m) ∷ rest) =
    let kept = keep_unexpired now expiry rest in
    if ltb expiry (now - m.added_at) then kept else (k, m) ∷ kept

unfoldable pub cleanup_expired : ℕ → Mempool → Mempool
unfolding keep_unexpired
cleanup_expired now mp = record mp { txs = keep_unexpired now mp.tx_expiry mp.txs }

module _ (tx_hash : MsgTx → Bytes)
    (validator : Option (ℕ → MsgTx → Result RuleError (Unit {0}))) where
  abbrev pub run_validator : ℕ → MsgTx → Result MempoolError (Unit {0})
  run_validator now tx = elim validator [
    | none ↦ ok tt
    | some validate ↦ map_err validation_failed (validate now tx)
  ]

  -- `AddTx` of a transaction that is not nil.
  unfoldable pub add_tx : MsgTx → ℕ → Mempool → Result MempoolError Mempool
  unfolding find touch
  add_tx tx now mp = elim (find (tx_hash tx) mp.txs) [
    | some _ ↦ ok (record mp { txs = touch (tx_hash tx) now mp.txs })
    | none ↦
        if leb mp.max_txs (length mp.txs)
        then err mempool_is_full
        else run_validator now tx
          >> ok (record mp {
            txs = (tx_hash tx, record { tx = tx; added_at = now; last_seen = now }) ∷ mp.txs;
          })
  ]

unfoldable pub remove_tx : Bytes → Mempool → Mempool
unfolding delete
remove_tx h mp = record mp { txs = delete h mp.txs }

pub delete_all : List Bytes → List (Bytes × MempoolTx) → List (Bytes × MempoolTx)
unfolding delete
delete_all [] txs = txs
delete_all (h ∷ hs) txs = delete_all hs (delete h txs)

unfoldable pub remove_txs : List Bytes → Mempool → Mempool
unfolding delete_all
remove_txs hashes mp = record mp { txs = delete_all hashes mp.txs }

unfoldable pub get_tx : Bytes → Mempool → Option MsgTx
unfolding find
get_tx h mp = elim (find h mp.txs) [ none ↦ none | some m ↦ some m.tx ]

unfoldable pub has_tx : Bytes → Mempool → Bool
unfolding find
has_tx h mp = elim (find h mp.txs) [ none ↦ false | some _ ↦ true ]

abbrev pub count : Mempool → ℕ
count mp = length mp.txs

-- `Clear`
abbrev pub clear : Mempool → Mempool
clear mp = record mp { txs = [] }
