-- ===== src/Database/Utxos/Restored.antt =====
-- namedb/utxo.go: one step of `RestoreSpentUTXOsForBlock`, on an output that has been spent.
use nmcd.Prelude.{ℕ, ◌≡◌, ◌≤◌, ◌+◌, refl, none, length, arith, [], ◌∷◌, ◌++◌, length-append}
use nmcd.Prelude.Bytes.{Bytes, be_bytes, length-be_bytes}
use nmcd.Int.{ℤ, to_u64, to_u32}
use nmcd.NameDb.{Utxo}
use nmcd.NameDb.UtxoSet.{make_utxo_key, make_utxo_address_key, make_spent_utxo_height_key}
use nmcd.NameDb.UtxoSet.Keys.{IsOutpoint, parse-make_spent_utxo_height_key}
use nmcd.NameDb.UtxoSet.RoundTrip.{IsStorable, layout, encode_utxo_lem, decode_utxo_lem}
use nmcd.Database.{Bbolt, BboltLaws, Buckets}
use nmcd.Database.Utxos.{
  remove_utxo_tx, store_spent_utxo_tx, restore_spent_utxo, restore_spent_utxo_entry,
  put_restored_utxo, delete_spent_utxo_backup,
}
use nmcd.Database.Utxos.Spending.{
  Active, BackedUp, store_spent_utxo_tx-BackedUp, remove_utxo_tx-BackedUp,
}
use nmcd.Result.{ok}

-- bbolt's limits are far from the keys and the encodings of outputs.
length-make_utxo_key : (h : Bytes) (i : ℕ) → length h ≡ 32 → length (make_utxo_key h i) ≡ 36
unfolding make_utxo_key
length-make_utxo_key h i l = omega (arith, length-append h (be_bytes 4 i), length-be_bytes 4 i)

length-make_utxo_address_key :
    (address h : Bytes) (i : ℕ)
    → length h ≡ 32
    → length (make_utxo_address_key address h i) ≡ length address + 36
unfolding make_utxo_address_key
length-make_utxo_address_key address h i l = omega (
  arith,
  length-append address (h ++ be_bytes 4 i),
  length-append h (be_bytes 4 i),
  length-be_bytes 4 i,
)

length-layout : (u : Utxo) → IsStorable u → length (layout u) ≤ 65805
length-layout u s =
    let n = length u.address in
    let tail = be_bytes 2 (length u.pk_script) ++ u.pk_script in
    omega (
      arith,
      s.address_fits,
      s.script_fits,
      length-append (be_bytes 8 (to_u64 u.value))
          (be_bytes 4 (to_u32 u.height) ++ (n ∷ (u.address ++ tail))),
      length-append (be_bytes 4 (to_u32 u.height)) (n ∷ (u.address ++ tail)),
      length-append u.address tail,
      length-append (be_bytes 2 (length u.pk_script)) u.pk_script,
      length-be_bytes 8 (to_u64 u.value),
      length-be_bytes 4 (to_u32 u.height),
      length-be_bytes 2 (length u.pk_script),
    )

module _ (B : Bbolt) (laws : BboltLaws B) (u : Utxo) (s : IsStorable u)
    (o : IsOutpoint u.tx_hash u.out_index) where
  put_restored_utxo-Active :
      (b : Buckets B.Bucket)
      → (b' : Buckets B.Bucket) × (put_restored_utxo B u b ≡ ok b')
        × Active B laws u b'
        × (b'.spent_utxo ≡ b.spent_utxo)
        × (b'.spent_utxo_idx ≡ b.spent_utxo_idx)
  unfolding put_restored_utxo
  put_restored_utxo-Active b =
      let key = make_utxo_key u.tx_hash u.out_index in
      let addr = make_utxo_address_key u.address u.tx_hash u.out_index in
      let l = length-make_utxo_key u.tx_hash u.out_index o.hash_size in
      let m = length-make_utxo_address_key u.address u.tx_hash u.out_index o.hash_size in
      let (p, q) =
        laws.store_ok key (layout u) b.utxo (omega (arith, l)) (omega (arith, l))
          (omega (arith, length-layout u s)) in
      let (a, r) =
        laws.store_ok addr (1 ∷ []) b.utxo_addr (omega (arith, m))
          (omega (arith, m, s.address_fits)) (omega arith) in
      (
        record b { utxo = p; utxo_addr = a },
        rw (put_restored_utxo, encode_utxo_lem u s, q, r) refl,
        record {
          payload = layout u;
          encoded = encode_utxo_lem u s;
          found = laws.find-store key (layout u) b.utxo p q;
          indexed = laws.find-store addr (1 ∷ []) b.utxo_addr a r;
        },
        refl,
        refl,
      )

  delete_spent_utxo_backup_lem :
      (height : ℤ) (b : Buckets B.Bucket)
      → let index = make_spent_utxo_height_key height u.tx_hash u.out_index in
        (b' : Buckets B.Bucket) × (delete_spent_utxo_backup B index b ≡ ok b')
        × (b'.utxo ≡ b.utxo)
        × (b'.utxo_addr ≡ b.utxo_addr)
        × (B.find (make_utxo_key u.tx_hash u.out_index) b'.spent_utxo ≡ none)
        × (B.find index b'.spent_utxo_idx ≡ none)
  unfolding delete_spent_utxo_backup
  delete_spent_utxo_backup_lem height b =
      let key = make_utxo_key u.tx_hash u.out_index in
      let index = make_spent_utxo_height_key height u.tx_hash u.out_index in
      let (p, q) = laws.erase_ok key b.spent_utxo in
      let (i, r) = laws.erase_ok index b.spent_utxo_idx in
      (
        record b { spent_utxo = p; spent_utxo_idx = i },
        rw
            (
              delete_spent_utxo_backup,
              parse-make_spent_utxo_height_key height u.tx_hash u.out_index o,
              q,
              r,
            )
            refl,
        refl,
        refl,
        laws.find-erase key b.spent_utxo p q,
        laws.find-erase index b.spent_utxo_idx i r,
      )

  restore_spent_utxo_entry-found :
      (height : ℤ) (b : Buckets B.Bucket)
      → BackedUp B laws u height b
      → restore_spent_utxo_entry B (make_spent_utxo_height_key height u.tx_hash u.out_index) b
        ≡ put_restored_utxo B u b
  unfolding restore_spent_utxo_entry
  restore_spent_utxo_entry-found height b k =
      let same : layout u ≡ k.payload = cc (encode_utxo_lem u s, k.encoded) in
      rw
        (
          restore_spent_utxo_entry,
          parse-make_spent_utxo_height_key height u.tx_hash u.out_index o,
          k.found,
          ← same,
          decode_utxo_lem u s,
        )
        refl

  restore_spent_utxo_lem :
      (height : ℤ) (b : Buckets B.Bucket)
      → BackedUp B laws u height b
      → let index = make_spent_utxo_height_key height u.tx_hash u.out_index in
        (b' : Buckets B.Bucket) × (restore_spent_utxo B index b ≡ ok b')
        × Active B laws u b'
        × (B.find (make_utxo_key u.tx_hash u.out_index) b'.spent_utxo ≡ none)
        × (B.find index b'.spent_utxo_idx ≡ none)
  unfolding restore_spent_utxo
  restore_spent_utxo_lem height b k =
      let (b1, q, a, same, same') = put_restored_utxo-Active b in
      let (b2, r, keep, keep', gone, gone') = delete_spent_utxo_backup_lem height b1 in
      (
        b2,
        rw (restore_spent_utxo, restore_spent_utxo_entry-found height b k, q) r,
        record {
          payload = a.payload;
          encoded = a.encoded;
          found = rw keep a.found;
          indexed = rw keep' a.indexed;
        },
        gone,
        gone',
      )

  -- An output in range, with a 32-byte transaction hash. In transactions, when `StoreSpentUTXO` backs it up for a height
  -- and `RemoveUTXO` then removes it, the active set has nothing under its key; the step of `RestoreSpentUTXOsForBlock`
  -- for its key of the height index then succeeds, the active set and the index by address have the output again, and
  -- the backup and its key are gone.
  pub restore_spent_utxo-remove_utxo_tx :
      (height : ℤ) (b b1 b2 : Buckets B.Bucket)
      → store_spent_utxo_tx B u height b ≡ ok (tt, b1)
      → remove_utxo_tx B u.tx_hash u.out_index b1 ≡ ok (tt, b2)
      → (B.find (make_utxo_key u.tx_hash u.out_index) b2.utxo ≡ none)
        × ((b3 : Buckets B.Bucket) × (restore_spent_utxo B
                (make_spent_utxo_height_key height u.tx_hash u.out_index)
                b2
              ≡ ok b3)
            × Active B laws u b3
            × (B.find (make_utxo_key u.tx_hash u.out_index) b3.spent_utxo ≡ none)
            × (B.find (make_spent_utxo_height_key height u.tx_hash u.out_index) b3.spent_utxo_idx
                ≡ none))
  restore_spent_utxo-remove_utxo_tx height b b1 b2 h h' =
      let (k, gone) =
        remove_utxo_tx-BackedUp B laws u height b1 b2 tt
          (store_spent_utxo_tx-BackedUp B laws u height b b1 tt h).0 h' in
      (gone, restore_spent_utxo_lem height b2 k)
