-- ===== src/Chain/Rollback.antt =====
-- `rollbackNameOperations` of chain/blockchain.go: the undoing of a block that a reorganisation disconnects. Errors are collected
-- and logged; the rollback goes on after them.
use nmcd.Prelude.{ℕ, ◌+◌, [], ◌∷◌, ◌++◌, List, none, some, ◌==◌, if◌then◌else◌}
use nmcd.Prelude.Bytes.{Bytes}
use nmcd.Int.{ℤ, pos_part, neg_part}
use nmcd.Database.{Bbolt, DbError, NameDatabase, Answer}
use nmcd.Database.Names.{get_name, put_name, delete_name}
use nmcd.Database.History.{remove_last_history_entry}
use nmcd.Database.Expired.{restore_expired_names_for_block}
use nmcd.Database.Commitments.{restore_name_new, delete_name_new}
use nmcd.Database.Utxos.{remove_utxo, restore_spent_utxos_for_block}
use nmcd.Chain.{TxOut, MsgTx}
use nmcd.Chain.Rules.{is_seen}
use nmcd.Chain.Update.{Btcd, ◌>=>◌, commit_hash, estimated_height}
use nmcd.Script.{name_new, name_first_update, name_update, Parsed}
use nmcd.Script.Parse.{parse_name_script_full}
use nmcd.Result.{Result, ok, err, panic}

module _ (B : Bbolt) (btcd : Btcd) where
  -- The errors so far and the commitments that the rollback has restored, beside the database.
  pub record Rollback : Type 0 where
    pub errors : List (DbError B.StoreError)
    pub restored_commitments : List Bytes
    pub database : NameDatabase B

  -- A call whose error is collected.
  unfoldable pub collecting :
      {A : Type 0}
      → (NameDatabase B → Answer B A)
      → Rollback
      → Result (DbError B.StoreError) Rollback
  collecting call s =
      let (result, d') = call s.database in
      elim result [
        | ok a ↦ ok (record s { database = d' })
        | err e ↦ ok (record s { database = d'; errors = s.errors ++ e ∷ [] })
        | panic ↦ panic
      ]

  -- `getNameNewHeightForRollback`
  unfoldable pub get_name_new_height_for_rollback : Bytes → ℤ → NameDatabase B → ℤ × NameDatabase B
  get_name_new_height_for_rollback name block_height d =
      let (found, d') = get_name B name d in
      elim found [
        | ok r ↦
            if pos_part r.name_new_height + neg_part r.name_new_height == 0
            then (estimated_height B btcd block_height, d')
            else (r.name_new_height, d')
        | err e ↦ (estimated_height B btcd block_height, d')
        | panic ↦ (estimated_height B btcd block_height, d')
      ]

  -- `rollbackNameNew`
  unfoldable pub rollback_name_new : Bytes → List Bytes → NameDatabase B → Answer B (Unit {0})
  rollback_name_new extra restored_commitments d =
      if is_seen extra restored_commitments then (ok tt, d) else delete_name_new B extra d

  -- `rollbackNameFirstUpdate`: it answers the commitment that it restores.
  unfoldable pub rollback_name_first_update : Parsed → ℤ → NameDatabase B → Answer B Bytes
  rollback_name_first_update p block_height d =
      let (name_new_height, d') = get_name_new_height_for_rollback p.name block_height d in
      remove_last_history_entry B p.name d' >=> λ previous shorter.
      delete_name B p.name shorter >=> λ u deleted.
      restore_name_new B (commit_hash B btcd p.extra p.name) name_new_height deleted
      >=> λ u restored. (ok (commit_hash B btcd p.extra p.name), restored)

  -- `rollbackNameUpdate`
  unfoldable pub rollback_name_update : Bytes → NameDatabase B → Answer B (Unit {0})
  rollback_name_update name d = remove_last_history_entry B name d >=> λ previous d'.
      elim previous [ none ↦ (ok tt, d') | some r ↦ put_name B name r d' ]

  -- The body of the loop of `rollbackTransactionNameOps`
  unfoldable pub rollback_output : TxOut → ℤ → Rollback → Result (DbError B.StoreError) Rollback
  rollback_output tx_out block_height s = elim (parse_name_script_full tx_out.pk_script) [
    | err e ↦ ok s
    | panic ↦ panic
    | ok p ↦ elim p.op_type [
      | name_new ↦ collecting (rollback_name_new p.extra s.restored_commitments) s
      | name_first_update ↦
          let (result, d') = rollback_name_first_update p block_height s.database in
          elim result [
            | ok commitment ↦ ok (record s {
              database = d';
              restored_commitments = commitment ∷ s.restored_commitments;
            })
            | err e ↦ ok (record s { database = d'; errors = s.errors ++ e ∷ [] })
            | panic ↦ panic
          ]
      | name_update ↦ collecting (rollback_name_update p.name) s
    ]
  ]

  -- `rollbackTransactionNameOps`: the last output is undone first.
  unfoldable pub rollback_transaction_name_ops :
      List TxOut → ℤ → Rollback → Result (DbError B.StoreError) Rollback
  rollback_transaction_name_ops [] block_height s = ok s
  rollback_transaction_name_ops (o ∷ outs) block_height s =
      elim (rollback_transaction_name_ops outs block_height s) [
        | ok later ↦ rollback_output o block_height later
        | err e ↦ err e
        | panic ↦ panic
      ]

  -- `rollbackTransactionUTXOs`
  unfoldable pub rollback_transaction_utxos :
      Bytes → ℕ → List TxOut → Rollback → Result (DbError B.StoreError) Rollback
  rollback_transaction_utxos tx_hash out_idx [] s = ok s
  rollback_transaction_utxos tx_hash out_idx (o ∷ outs) s =
      elim (collecting (remove_utxo B tx_hash out_idx) s) [
        | ok s' ↦ rollback_transaction_utxos tx_hash (out_idx + 1) outs s'
        | err e ↦ err e
        | panic ↦ panic
      ]

  unfoldable pub rollback_transaction :
      MsgTx → ℤ → Rollback → Result (DbError B.StoreError) Rollback
  rollback_transaction tx block_height s =
      elim (rollback_transaction_utxos (btcd.tx_hash tx) 0 tx.tx_out s) [
        | ok s' ↦ rollback_transaction_name_ops tx.tx_out block_height s'
        | err e ↦ err e
        | panic ↦ panic
      ]

  -- The last transaction is undone first.
  unfoldable pub rollback_transactions :
      List MsgTx → ℤ → Rollback → Result (DbError B.StoreError) Rollback
  rollback_transactions [] block_height s = ok s
  rollback_transactions (tx ∷ txs) block_height s =
      elim (rollback_transactions txs block_height s) [
        | ok later ↦ rollback_transaction tx block_height later
        | err e ↦ err e
        | panic ↦ panic
      ]

  -- `rollbackNameOperations`
  unfoldable pub rollback_name_operations :
      List MsgTx → ℤ → NameDatabase B → Result (DbError B.StoreError) Rollback
  rollback_name_operations transactions block_height d =
      elim (collecting (restore_expired_names_for_block B block_height)
        (record { errors = []; restored_commitments = []; database = d })) [
          | err e ↦ err e
          | panic ↦ panic
          | ok s ↦ elim (rollback_transactions transactions block_height s) [
            | err e ↦ err e
            | panic ↦ panic
            | ok s' ↦ collecting (restore_spent_utxos_for_block B block_height) s'
          ]
        ]
