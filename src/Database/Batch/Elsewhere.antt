-- ===== src/Database/Batch/Elsewhere.antt =====
-- namedb/batch.go: the loops of a commit that keep the names bucket.
use nmcd.Prelude.{ℕ, ◌≡◌, sym, ◌∙◌, ap, List, Option-cases, inl, inr, [], ◌∷◌, ◌++◌}
use nmcd.Prelude.Bytes.{Bytes, le_bytes}
use nmcd.Int.{ℤ, to_u32}
use nmcd.NameDb.{NameRecord, Utxo}
use nmcd.NameDb.Record.{encode_name_record}
use nmcd.NameDb.UtxoSet.{make_utxo_key, make_utxo_address_key, encode_utxo, decode_utxo}
use nmcd.Database.{Bbolt, BboltLaws, Buckets, storing, utxo_codec}
use nmcd.Database.History.{add_history_tx, or_empty}
use nmcd.Database.Commitments.{restore_name_new_tx}
use nmcd.Database.Utxos.{add_utxo_tx}
use nmcd.Database.Batch.{
  BatchWriter, write_history, write_name_news, write_utxos, remove_utxo_from_address_index,
  write_deleted_utxo, delete_utxos,
}
use nmcd.Database.Batch.Loads.{each-names, buckets_after-eq-ok}
use nmcd.Result.{ok, map_err, >>=-eq-ok, ok-injective}

module _ (B : Bbolt) (laws : BboltLaws B)
    (order : ℕ → (A : Type 0) → List (Bytes × A) → List (Bytes × A)) where
  abbrev names_of : Unit {0} × Buckets B.Bucket → B.Bucket
  names_of p = p.1.names

  history_kept :
      (tx_hash : Bytes) (r : NameRecord) (b b' : Buckets B.Bucket)
      → add_history_tx B tx_hash r b ≡ ok (tt, b')
      → b'.names ≡ b.names
  unfolding add_history_tx
  history_kept tx_hash r b b' h =
      let list = or_empty (B.find r.name b.history_index) ++ tx_hash in
      let (p, q0, h1) =
        >>=-eq-ok (map_err storing (B.store tx_hash (encode_name_record r) b.history)) _ h in
      let (i, q1, h2) = >>=-eq-ok (map_err storing (B.store r.name list b.history_index)) _ h1 in
      ap names_of (sym (ok-injective h2))

  commitments_kept :
      (hash : Bytes) (block_height : ℤ) (b b' : Buckets B.Bucket)
      → restore_name_new_tx B hash block_height b ≡ ok (tt, b')
      → b'.names ≡ b.names
  unfolding restore_name_new_tx
  commitments_kept hash block_height b b' h =
      let (n, q, h1) =
        >>=-eq-ok (map_err storing (B.store hash (le_bytes 4 (to_u32 block_height)) b.name_new)) _
          h in
      ap names_of (sym (ok-injective h1))

  utxos_kept :
      (u : Utxo) (b b' : Buckets B.Bucket) → add_utxo_tx B u b ≡ ok (tt, b') → b'.names ≡ b.names
  unfolding add_utxo_tx
  utxos_kept u b b' h =
      let (payload, q0, h1) = >>=-eq-ok (map_err utxo_codec (encode_utxo u)) _ h in
      let (p, q1, h2) =
        >>=-eq-ok (map_err storing (B.store (make_utxo_key u.tx_hash u.out_index) payload b.utxo)) _
          h1 in
      let (a, q2, h3) =
        >>=-eq-ok
          (map_err storing
            (B.store (make_utxo_address_key u.address u.tx_hash u.out_index) (1 ∷ []) b.utxo_addr))
          _ h2 in
      ap names_of (sym (ok-injective h3))

  address_index_kept :
      (tx_hash : Bytes) (out_index : ℕ) (b b' : Buckets B.Bucket)
      → remove_utxo_from_address_index B order tx_hash out_index b ≡ ok b'
      → b'.names ≡ b.names
  unfolding remove_utxo_from_address_index
  address_index_kept tx_hash out_index b b' h =
      elim (Option-cases (B.find (make_utxo_key tx_hash out_index) b.utxo)) [
        | inl q ↦
            ap (λ (x : Buckets B.Bucket). x.names)
              (sym (ok-injective (rw (remove_utxo_from_address_index, q) at h)))
        | inr (payload, q) ↦
            let (u, q0, h1) =
              >>=-eq-ok (map_err utxo_codec (decode_utxo tx_hash out_index payload)) _
                (rw (remove_utxo_from_address_index, q) at h) in
            let (a, q1, h2) =
              >>=-eq-ok
                (map_err storing
                  (B.erase (make_utxo_address_key u.address tx_hash out_index) b.utxo_addr))
                _ h1 in
            ap (λ (x : Buckets B.Bucket). x.names) (sym (ok-injective h2))
      ]

  deleted_utxo_kept :
      (entry : Bytes × ℕ) (b b' : Buckets B.Bucket)
      → write_deleted_utxo B order entry b ≡ ok b'
      → b'.names ≡ b.names
  unfolding write_deleted_utxo
  deleted_utxo_kept (tx_hash, out_index) b b' h =
      let (b1, q0, h1) =
        >>=-eq-ok (remove_utxo_from_address_index B order tx_hash out_index b) _ h in
      let (p, q1, h2) =
        >>=-eq-ok (map_err storing (B.erase (make_utxo_key tx_hash out_index) b1.utxo)) _ h1 in
      ap (λ (x : Buckets B.Bucket). x.names) (sym (ok-injective h2))
      ∙ address_index_kept tx_hash out_index b b1 q0

  -- The last four loops.
  pub written_elsewhere-names :
      (bw : BatchWriter) (b2 b3 b4 b5 b6 : Buckets B.Bucket)
      → write_history B order bw b2 ≡ ok b3
      → write_name_news B order bw b3 ≡ ok b4
      → write_utxos B order bw b4 ≡ ok b5
      → delete_utxos B order bw b5 ≡ ok b6
      → b6.names ≡ b2.names
  unfolding write_history write_name_news write_utxos delete_utxos
  written_elsewhere-names bw b2 b3 b4 b5 b6 h3 h4 h5 h6 =
      each-names _ deleted_utxo_kept bw.deleted_utxos b5 b6 h6
      ∙ each-names _
          (λ u b b' h.
            utxos_kept u b b' (buckets_after-eq-ok B laws order (add_utxo_tx B u b) b' h))
          bw.utxos b4 b5 h5
      ∙ each-names _
          (λ e b b' h.
            commitments_kept e.0 e.1 b b'
              (buckets_after-eq-ok B laws order (restore_name_new_tx B e.0 e.1 b) b' h))
          (order 3 _ bw.name_news) b3 b4 h4
      ∙ each-names _
          (λ e b b' h.
            history_kept e.0 e.1 b b'
              (buckets_after-eq-ok B laws order (add_history_tx B e.0 e.1 b) b' h))
          (order 2 _ bw.history) b2 b3 h3
