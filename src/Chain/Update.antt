-- ===== src/Chain/Update.antt =====
-- `updateNameDatabase` of chain/blockchain.go: what a connected block writes to the name database. Each call of the database is
-- a transaction of its own, so that what was written before an error stays.
pub mod Registered
use nmcd.Prelude.{
  ℕ, ◌+◌, ◌%◌, ◌^◌, [], ◌∷◌, ◌++◌, List, Option, none, some, Bool, true, false, ◌&&◌, ◌==◌,
  if◌then◌else◌,
}
use nmcd.Prelude.Bytes.{Bytes}
use nmcd.Int.{ℤ, pos, pos_part, ltb_ℤ, sub_int32}
use nmcd.Config.{min_blocks_before_first_update}
use nmcd.NameDb.{NameRecord, Utxo}
use nmcd.Database.{Bbolt, DbError, NameDatabase, Answer}
use nmcd.Database.Names.{get_name, put_name, delete_name, get_expired_names}
use nmcd.Database.History.{add_history, delete_history}
use nmcd.Database.Expired.{store_expired_name, cleanup_old_expired_names}
use nmcd.Database.Commitments.{NameNewRecord, put_name_new, get_name_new, delete_name_new}
use nmcd.Database.Utxos.{add_utxo, get_utxo, store_spent_utxo, remove_utxo, cleanup_old_spent_utxos}
use nmcd.Chain.{OutPoint, TxIn, TxOut, MsgTx}
use nmcd.Chain.Lookup.{safe_calc_expires_at}
use nmcd.Script.{NameOperation, name_new, name_first_update, name_update, Parsed}
use nmcd.Script.Parse.{parse_name_script_full}
use nmcd.Script.Skip.{address_of, extract_address_from_name_script}
use nmcd.Result.{Result, ok, err, panic}

-- What btcd computes: `btcutil.Hash160`, the hash of a transaction, and `ExtractPkScriptAddrs` with `EncodeAddress`.
pub record Btcd : Type 0 where
  pub hash160 : Bytes → Bytes
  pub tx_hash : MsgTx → Bytes
  pub extract_pk_script_addrs : Bytes → Option (List Bytes)

-- `if err := call; err != nil { return err }`, and what follows on the database that the call leaves.
infixl 5 ◌>=>◌
abbrev pub ◌>=>◌ :
    {B : Bbolt} {A C : Type 0} → Answer B A → (A → NameDatabase B → Answer B C) → Answer B C
(ok a, d) >=> next = next a d
(err e, d) >=> next = (err e, d)
(panic, d) >=> next = (panic, d)

-- A call whose error is logged, and no more.
abbrev pub ignoring_error :
    {B : Bbolt} {A C : Type 0} → Answer B A → (NameDatabase B → Answer B C) → Answer B C
ignoring_error (ok a, d) next = next d
ignoring_error (err e, d) next = next d
ignoring_error (panic, d) next = (panic, d)

module _ (B : Bbolt) (btcd : Btcd) where
  -- RIPEMD160(SHA256(rand || name))
  abbrev pub commit_hash : Bytes → Bytes → Bytes
  commit_hash extra name = btcd.hash160 (extra ++ name)

  abbrev pub delete_with_history : Bytes → NameDatabase B → Answer B (Unit {0})
  delete_with_history name d = delete_name B name d >=> λ u d'. delete_history B name d'

  -- The body of the loop of `handleExpiredNames`: the record is backed up where `GetName` finds it; the name and its history
  -- are deleted in any case.
  unfoldable pub expire_name : ℤ → Bytes → NameDatabase B → Answer B (Unit {0})
  expire_name block_height name d =
      let (found, d') = get_name B name d in
      elim found [
        | ok r ↦
            store_expired_name B r block_height d' >=> λ u backed. delete_with_history name backed
        | err e ↦ delete_with_history name d'
        | panic ↦ (panic, d')
      ]

  unfoldable pub expire_names : ℤ → List Bytes → NameDatabase B → Answer B (Unit {0})
  expire_names block_height [] d = (ok tt, d)
  expire_names block_height (name ∷ names) d =
      expire_name block_height name d >=> λ u d'. expire_names block_height names d'

  -- `handleExpiredNames`
  unfoldable pub handle_expired_names : ℤ → NameDatabase B → Answer B (Unit {0})
  handle_expired_names block_height d =
      expire_names block_height (get_expired_names B block_height d) d

  -- The backup of an output that an input spends, where the output is found.
  unfoldable pub back_up_spent : TxIn → ℤ → NameDatabase B → Answer B (Unit {0})
  back_up_spent input block_height d =
      elim (get_utxo B input.previous_out_point.hash input.previous_out_point.index d) [
        | ok u ↦ store_spent_utxo B u block_height d
        | err e ↦ (ok tt, d)
        | panic ↦ (panic, d)
      ]

  -- `processTransactionInputs`
  unfoldable pub process_transaction_inputs : List TxIn → ℤ → NameDatabase B → Answer B (Unit {0})
  process_transaction_inputs [] block_height d = (ok tt, d)
  process_transaction_inputs (input ∷ inputs) block_height d =
      back_up_spent input block_height d >=> λ u backed.
      ignoring_error
        (remove_utxo B input.previous_out_point.hash input.previous_out_point.index backed)
        λ d'. process_transaction_inputs inputs block_height d'

  -- `addUTXO`
  unfoldable pub add_tx_out : Bytes → ℕ → TxOut → ℤ → NameDatabase B → Answer B (Unit {0})
  add_tx_out tx_hash out_idx tx_out block_height d =
      add_utxo B
        (record {
          tx_hash = tx_hash;
          out_index = out_idx % 2 ^ 32;
          value = tx_out.value;
          address = address_of btcd.extract_pk_script_addrs tx_out.pk_script;
          pk_script = tx_out.pk_script;
          height = block_height;
        })
        d

  -- `extractAddressFromNameScript`, which has no error.
  unfoldable pub address_in : Bytes → Bytes
  address_in script = elim (extract_address_from_name_script btcd.extract_pk_script_addrs script) [
    | ok a ↦ a
    | err e ↦ []
    | panic ↦ []
  ]

  abbrev pub estimated_height : ℤ → ℤ
  estimated_height block_height =
      let estimate = sub_int32 block_height min_blocks_before_first_update in
      if ltb_ℤ estimate (pos 0) then pos 0 else estimate

  -- `getNameNewHeight`
  unfoldable pub get_name_new_height : Bytes → Bytes → ℤ → NameDatabase B → ℤ
  get_name_new_height extra name current_height d =
      elim (get_name_new B (commit_hash extra name) d) [
        | ok r ↦ r.height
        | err e ↦ estimated_height current_height
        | panic ↦ estimated_height current_height
      ]

  -- The record that the two operations on names store.
  unfoldable pub new_record : Bytes → ℕ → TxOut → Parsed → ℤ → ℤ → ℤ → NameRecord
  new_record tx_hash out_idx tx_out p block_height block_time name_new_height = record {
    name = p.name;
    value = p.value;
    tx_hash = tx_hash;
    out_index = out_idx % 2 ^ 32;
    height = block_height;
    expires_at = safe_calc_expires_at block_height;
    address = address_in tx_out.pk_script;
    updated_at = block_time;
    name_new_height = name_new_height;
  }

  -- `processNameFirstUpdate`
  unfoldable pub process_name_first_update :
      Bytes → ℕ → TxOut → Parsed → ℤ → ℤ → NameDatabase B → Answer B (Unit {0})
  process_name_first_update tx_hash out_idx tx_out p block_height block_time d =
      let r =
        new_record tx_hash out_idx tx_out p block_height block_time
          (get_name_new_height p.extra p.name block_height d) in
      put_name B p.name r d >=> λ u stored. add_history B tx_hash r stored >=> λ u listed.
      delete_name_new B (commit_hash p.extra p.name) listed

  -- The NAME_NEW height of the record that is updated, or 0.
  abbrev pub previous_height : {E : Type 0} → Result E NameRecord → ℤ
  previous_height (ok r) = r.name_new_height
  previous_height (err e) = pos 0
  previous_height panic = pos 0

  -- `processNameUpdate`
  unfoldable pub process_name_update :
      Bytes → ℕ → TxOut → Parsed → ℤ → ℤ → NameDatabase B → Answer B (Unit {0})
  process_name_update tx_hash out_idx tx_out p block_height block_time d =
      let (found, d') = get_name B p.name d in
      let r = new_record tx_hash out_idx tx_out p block_height block_time (previous_height found) in
      put_name B p.name r d' >=> λ u stored. add_history B tx_hash r stored

  -- `processNameOperation`; what does not parse is no name operation.
  unfoldable pub process_name_operation :
      Bytes → ℕ → TxOut → ℤ → ℤ → NameDatabase B → Answer B (Unit {0})
  process_name_operation tx_hash out_idx tx_out block_height block_time d =
      elim (parse_name_script_full tx_out.pk_script) [
        | err e ↦ (ok tt, d)
        | panic ↦ (panic, d)
        | ok p ↦ elim p.op_type [
          | name_new ↦ put_name_new B p.extra block_height d
          | name_first_update ↦
              process_name_first_update tx_hash out_idx tx_out p block_height block_time d
          | name_update ↦ process_name_update tx_hash out_idx tx_out p block_height block_time d
        ]
      ]

  -- `processTransactionOutputs`
  unfoldable pub process_transaction_outputs :
      Bytes → ℕ → List TxOut → ℤ → ℤ → NameDatabase B → Answer B (Unit {0})
  process_transaction_outputs tx_hash out_idx [] block_height block_time d = (ok tt, d)
  process_transaction_outputs tx_hash out_idx (o ∷ outs) block_height block_time d =
      add_tx_out tx_hash out_idx o block_height d >=> λ u added.
      process_name_operation tx_hash out_idx o block_height block_time added >=> λ u done.
      process_transaction_outputs tx_hash (out_idx + 1) outs block_height block_time done

  -- `processBlockTransactions`: the first transaction is the coinbase, whose inputs spend nothing.
  unfoldable pub process_block_transactions :
      ℕ → List MsgTx → ℤ → ℤ → NameDatabase B → Answer B (Unit {0})
  process_block_transactions tx_idx [] block_height block_time d = (ok tt, d)
  process_block_transactions tx_idx (tx ∷ txs) block_height block_time d =
      (if tx_idx == 0 then (ok tt, d) else process_transaction_inputs tx.tx_in block_height d)
      >=> λ u spent.
          process_transaction_outputs (btcd.tx_hash tx) 0 tx.tx_out block_height block_time spent
          >=> λ u done. process_block_transactions (tx_idx + 1) txs block_height block_time done

  -- `height > 1000 && height%100 == 0`
  abbrev pub cleans_at : ℤ → Bool
  cleans_at block_height = ltb_ℤ (pos 1000) block_height && pos_part block_height % 100 == 0

  unfoldable pub cleanup_spent_utxos_if_needed : ℤ → NameDatabase B → Answer B (Unit {0})
  cleanup_spent_utxos_if_needed block_height d =
      if cleans_at block_height
      then ignoring_error (cleanup_old_spent_utxos B (sub_int32 block_height (pos 1000)) d)
          (λ d'. (ok tt, d'))
      else (ok tt, d)

  unfoldable pub cleanup_old_expired_names_if_needed : ℤ → NameDatabase B → Answer B (Unit {0})
  cleanup_old_expired_names_if_needed block_height d =
      if cleans_at block_height
      then ignoring_error (cleanup_old_expired_names B (sub_int32 block_height (pos 1000)) d)
          (λ d'. (ok tt, d'))
      else (ok tt, d)

  -- `updateNameDatabase`
  unfoldable pub update_name_database : List MsgTx → ℤ → ℤ → NameDatabase B → Answer B (Unit {0})
  update_name_database transactions block_height block_time d =
      handle_expired_names block_height d >=> λ u expired.
      process_block_transactions 0 transactions block_height block_time expired >=> λ u done.
      cleanup_spent_utxos_if_needed block_height done >=> λ u cleaned.
      cleanup_old_expired_names_if_needed block_height cleaned
