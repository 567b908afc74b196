-- ===== src/Tests/Updates.antt =====
-- Outputs that are spent and restored, and a registration, on concrete contents.
use nmcd.Prelude.{◌≡◌, refl, [], none, arith, ◌⊎◌}
use nmcd.Prelude.Bytes.{bytes_eq, be_bytes, be_value_from}
use nmcd.Int.{pos, to_u32, to_int32, to_u64, to_int64, ◌+ℤ◌, ◌-ℤ◌, sub_int32, add_int32}
use nmcd.NameDb.{NameRecord}
use nmcd.NameDb.UtxoSet.{
  make_utxo_key, make_spent_utxo_height_key, make_utxo_address_key, encode_utxo, decode_utxo,
}
use nmcd.NameDb.Record.RoundTrip.{IsEncodable}
use nmcd.Chain.Lookup.{safe_calc_expires_at}
use nmcd.Database.{Buckets, NameDatabase, update, commitment_not_found}
use nmcd.Database.Names.{
  get_name, make_expiration_key, put_name, put_name_tx, delete_old_expiration_index,
}
use nmcd.Database.Names.Reachable.{new_name_database, opened}
use nmcd.Database.Utxos.{add_utxo_tx, store_spent_utxo_tx, remove_utxo_tx, restore_spent_utxo}
use nmcd.Database.Utxos.Spending.{Active}
use nmcd.Database.Utxos.Restored.{restore_spent_utxo-remove_utxo_tx}
use nmcd.Database.History.{add_history, add_history_tx}
use nmcd.Database.Commitments.{get_name_new, delete_name_new, delete_name_new_tx}
use nmcd.Chain.{TxOut}
use nmcd.Chain.Update.{
  Btcd, commit_hash, get_name_new_height, new_record, address_in, process_name_first_update,
}
use nmcd.Chain.Update.Registered.{process_name_first_update-registers}
use nmcd.Script.Skip.{extract_address_from_name_script, address_after, skip_name_script_prefix}
use nmcd.Script.{Parsed, name_first_update}
use nmcd.Result.{Result, ok, err, panic}
use nmcd.Slices.{slice, index}
use nmcd.Tests.{hash_a, domain, braces, payment}
use nmcd.Tests.Records.{stored_utxo}
use nmcd.Tests.Databases.{empty_buckets, fresh}
use nmcd.Tests.Store.{
  list_bbolt, list_bbolt-BboltLaws, Entries, find_entry, insert_entry, erase_entry, store_entry,
}

abbrev buckets_of : {E : Type 0} → Result E (Unit {0} × Buckets Entries) → Buckets Entries
buckets_of (ok (u, b)) = b
buckets_of (err e) = empty_buckets
buckets_of panic = empty_buckets

abbrev added : Buckets Entries
added = buckets_of (add_utxo_tx list_bbolt stored_utxo empty_buckets)

abbrev backed_up : Buckets Entries
backed_up = buckets_of (store_spent_utxo_tx list_bbolt stored_utxo (pos 5000) added)

abbrev removed : Buckets Entries
removed = buckets_of (remove_utxo_tx list_bbolt hash_a 1 backed_up)

backed_up_lem : store_spent_utxo_tx list_bbolt stored_utxo (pos 5000) added ≡ ok (tt, backed_up)
unfolding add_utxo_tx store_spent_utxo_tx encode_utxo make_utxo_key make_spent_utxo_height_key
    store_entry be_bytes to_u32 to_u64 make_utxo_address_key insert_entry
backed_up_lem = refl

removed_lem : remove_utxo_tx list_bbolt hash_a 1 backed_up ≡ ok (tt, removed)
unfolding add_utxo_tx store_spent_utxo_tx encode_utxo make_utxo_key make_spent_utxo_height_key
    store_entry be_bytes to_u32 to_u64 make_utxo_address_key insert_entry erase_entry bytes_eq
    remove_utxo_tx find_entry decode_utxo slice index be_value_from to_int32 to_int64
removed_lem = refl

restore_spent_utxo-remove_utxo_tx_example :
    (list_bbolt.find (make_utxo_key hash_a 1) removed.utxo ≡ none)
    × ((b : Buckets Entries) × (restore_spent_utxo list_bbolt
            (make_spent_utxo_height_key (pos 5000) hash_a 1)
            removed
          ≡ ok b)
        × Active list_bbolt list_bbolt-BboltLaws stored_utxo b
        × (list_bbolt.find (make_utxo_key hash_a 1) b.spent_utxo ≡ none)
        × (list_bbolt.find (make_spent_utxo_height_key (pos 5000) hash_a 1) b.spent_utxo_idx
            ≡ none))
restore_spent_utxo-remove_utxo_tx_example =
    restore_spent_utxo-remove_utxo_tx list_bbolt list_bbolt-BboltLaws stored_utxo
      (record {
        address_fits = omega arith;
        script_fits = omega arith;
        value_int64 = (omega arith, omega arith);
        height_int32 = (omega arith, omega arith);
      })
      (record { hash_size = refl; index_u32 = omega arith }) (pos 5000) added backed_up removed
      backed_up_lem removed_lem

abbrev first_update : Parsed
first_update = record { op_type = name_first_update; name = domain; value = braces; extra = hash_a }

-- A hash that is the identity, and no address in any script.
abbrev plain_btcd : Btcd
plain_btcd = record {
  hash160 = λ b. b;
  tx_hash = λ tx. hash_a;
  extract_pk_script_addrs = λ script. none;
}

abbrev first_output : TxOut
first_output = record { value = pos 1000000; pk_script = payment }

abbrev registered : NameRecord
registered =
    new_record list_bbolt plain_btcd hash_a 0 first_output first_update (pos 5000) (pos 1700000000)
      (get_name_new_height list_bbolt plain_btcd hash_a domain (pos 5000) fresh)

abbrev after_update : NameDatabase list_bbolt
after_update =
    (process_name_first_update list_bbolt plain_btcd hash_a 0 first_output first_update (pos 5000)
      (pos 1700000000) fresh).1

no_address : registered.address ≡ []
unfolding new_record address_in extract_address_from_name_script address_after
    skip_name_script_prefix index
no_address = refl

expiration_height : registered.expires_at ≡ pos 41000
unfolding new_record safe_calc_expires_at ◌+ℤ◌ ◌-ℤ◌ to_u32 to_int32 sub_int32 add_int32
expiration_height = refl

first_height : registered.name_new_height ≡ pos 4988
unfolding new_record get_name_new_height get_name_new find_entry new_name_database ◌-ℤ◌ to_u32
    to_int32 sub_int32
first_height = refl

registered-IsEncodable : IsEncodable registered
unfolding new_record
registered-IsEncodable = record {
  value_fits = omega arith;
  address_fits = rw no_address (omega arith);
  hash_size = refl;
  out_index_u32 = omega arith;
  height_int32 = (omega arith, omega arith);
  expires_at_int32 = rw expiration_height (omega arith, omega arith);
  updated_at_int64 = (omega arith, omega arith);
  name_new_height_int32 = rw first_height (omega arith, omega arith);
}

update_done :
    (process_name_first_update list_bbolt plain_btcd hash_a 0 first_output first_update
      (pos 5000)
      (pos 1700000000)
      fresh).0
    ≡ ok tt
unfolding process_name_first_update put_name put_name_tx update delete_old_expiration_index
    store_entry find_entry new_name_database add_history add_history_tx delete_name_new
    delete_name_new_tx new_record make_expiration_key be_bytes
update_done = refl

process_name_first_update-registers_example :
    ((get_name list_bbolt domain after_update).0 ≡ ok registered)
    × ((braces ≡ domain)
        ⊎ ((get_name list_bbolt braces after_update).0 ≡ (get_name list_bbolt braces fresh).0))
    × (get_name_new list_bbolt (commit_hash list_bbolt plain_btcd hash_a domain) after_update
        ≡ err commitment_not_found)
process_name_first_update-registers_example =
    process_name_first_update-registers list_bbolt list_bbolt-BboltLaws plain_btcd hash_a 0
      first_output first_update (pos 5000) (pos 1700000000) fresh braces (opened empty_buckets)
      registered-IsEncodable update_done
