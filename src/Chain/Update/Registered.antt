-- ===== src/Chain/Update/Registered.antt =====
-- What a NAME_FIRSTUPDATE of a connected block leaves in the name database: chain/blockchain.go over namedb/namedb.go.
use nmcd.Prelude.{ℕ, ◌≡◌, refl, sym, ◌∙◌, ap, ◌⊎◌, inl, inr, ◌++◌}
use nmcd.Prelude.Bytes.{Bytes, Bytes-cases}
use nmcd.Int.{ℤ}
use nmcd.NameDb.{NameRecord}
use nmcd.NameDb.Record.{encode_name_record}
use nmcd.NameDb.Record.RoundTrip.{IsEncodable}
use nmcd.Database.{
  Bbolt, BboltLaws, Buckets, DbError, NameDatabase, Answer, update, storing, commitment_not_found,
}
use nmcd.Database.Transactions.{map_err-eq-ok, update-cases}
use nmcd.Database.Names.{get_name, put_name, load_name, with_name}
use nmcd.Database.Names.Reachable.{
  Reachable, put_one, wrote_elsewhere, Reachable-IsCoherent, put_name_lem, get_name-Reachable,
}
use nmcd.Database.History.{add_history, add_history_tx, or_empty}
use nmcd.Database.Commitments.{get_name_new, delete_name_new, delete_name_new_tx}
use nmcd.Chain.{TxOut}
use nmcd.Chain.Update.{
  Btcd, ◌>=>◌, commit_hash, get_name_new_height, new_record, process_name_first_update,
}
use nmcd.Script.{Parsed}
use nmcd.Result.{Result, ok, err, panic, map_err, >>=-eq-ok, ok-injective}

-- A chain of methods that has a value: the first has one, and so has what follows on its database.
>=>-eq-ok :
    {B : Bbolt} {A C : Type 0} (x : Answer B A) (next : A → NameDatabase B → Answer B C) {c : C}
    → (x >=> next).0 ≡ ok c
    → (a : A) × (x.0 ≡ ok a) × ((x >=> next) ≡ next a x.1) × ((next a x.1).0 ≡ ok c)
>=>-eq-ok (ok a, d) next h = (a, refl, refl, h)
>=>-eq-ok (err e, d) next h = cc
>=>-eq-ok (panic, d) next h = cc

-- A transaction that keeps the names bucket.
update-names :
    (B : Bbolt) {A : Type 0}
    (t : Buckets B.Bucket → Result (DbError B.StoreError) (A × Buckets B.Bucket))
    (d : NameDatabase B)
    → ((a : A) (b b' : Buckets B.Bucket) → t b ≡ ok (a, b') → b'.names ≡ b.names)
    → (update t d).1.db.names ≡ d.db.names
update-names B t d keeps = elim (update-cases B t d) [
  | inl (a, b, q, k) ↦ rw k (keeps a d.db b q)
  | inr (inl (e, k)) ↦ rw k refl
  | inr (inr k) ↦ rw k refl
]

module _ (B : Bbolt) where
  add_history_tx-names :
      (tx_hash : Bytes) (r : NameRecord) (u : Unit {0}) (b b' : Buckets B.Bucket)
      → add_history_tx B tx_hash r b ≡ ok (u, b')
      → b'.names ≡ b.names
  unfolding add_history_tx
  add_history_tx-names tx_hash r u b b' h =
      let (p, q0, h1) =
        >>=-eq-ok (map_err storing (B.store tx_hash (encode_name_record r) b.history)) _ h in
      let (i, q1, h2) =
        >>=-eq-ok
          (map_err storing
            (B.store r.name (or_empty (B.find r.name b.history_index) ++ tx_hash) b.history_index))
          _ h1 in
      ap (λ (y : Unit {0} × Buckets B.Bucket). y.1.names) (sym (ok-injective h2))

  delete_name_new_tx-writes :
      (hash : Bytes) (u : Unit {0}) (b b' : Buckets B.Bucket)
      → delete_name_new_tx B hash b ≡ ok (u, b')
      → (b'.names ≡ b.names) × (B.erase hash b.name_new ≡ ok b'.name_new)
  unfolding delete_name_new_tx
  delete_name_new_tx-writes hash u b b' h =
      let (n, q0, h1) = >>=-eq-ok (map_err storing (B.erase hash b.name_new)) _ h in
      let same = ok-injective h1 in
      (
        ap (λ (y : Unit {0} × Buckets B.Bucket). y.1.names) (sym same),
        map_err-eq-ok storing (B.erase hash b.name_new) q0
            ∙ ap (λ (y : Unit {0} × Buckets B.Bucket). ok y.1.name_new) same,
      )

  get_name_new-delete_name_new :
      (laws : BboltLaws B) (hash : Bytes) (d : NameDatabase B)
      → (delete_name_new B hash d).0 ≡ ok tt
      → get_name_new B hash (delete_name_new B hash d).1 ≡ err commitment_not_found
  unfolding delete_name_new get_name_new
  get_name_new-delete_name_new laws hash d h = elim (update-cases B (delete_name_new_tx B hash) d) [
    | inl (u, b, q, k) ↦
        let gone =
          laws.find-erase hash d.db.name_new b.name_new
            (delete_name_new_tx-writes hash u d.db b q).1 in
        rw (k, get_name_new, gone) refl
    | inr (inl (e, k)) ↦ absurd (cc (rw k at h))
    | inr (inr k) ↦ absurd (cc (rw k at h))
  ]

  delete_name_new-names :
      (hash : Bytes) (d : NameDatabase B) → (delete_name_new B hash d).1.db.names ≡ d.db.names
  unfolding delete_name_new
  delete_name_new-names hash d =
      update-names B (delete_name_new_tx B hash) d
        (λ u b b' h. (delete_name_new_tx-writes hash u b b' h).0)

  delete_name_new-Reachable :
      (hash : Bytes) (d : NameDatabase B) → Reachable B d → Reachable B (delete_name_new B hash d).1
  unfolding delete_name_new
  delete_name_new-Reachable hash d =
      wrote_elsewhere (delete_name_new_tx B hash) d
        (λ u b b' h. (delete_name_new_tx-writes hash u b b' h).0)

  add_history-names :
      (tx_hash : Bytes) (r : NameRecord) (d : NameDatabase B)
      → (add_history B tx_hash r d).1.db.names ≡ d.db.names
  unfolding add_history
  add_history-names tx_hash r d =
      update-names B (add_history_tx B tx_hash r) d (add_history_tx-names tx_hash r)

  add_history-Reachable :
      (tx_hash : Bytes) (r : NameRecord) (d : NameDatabase B)
      → Reachable B d
      → Reachable B (add_history B tx_hash r d).1
  unfolding add_history
  add_history-Reachable tx_hash r d =
      wrote_elsewhere (add_history_tx B tx_hash r) d (add_history_tx-names tx_hash r)

-- The three calls of `processNameFirstUpdate`, with any record.
module _ (B : Bbolt) (laws : BboltLaws B) where
  abbrev registering : Bytes → NameRecord → Bytes → Bytes → NameDatabase B → Answer B (Unit {0})
  registering name r tx_hash hash d = put_name B name r d >=> λ u stored.
      add_history B tx_hash r stored >=> λ u listed. delete_name_new B hash listed

  registering-registers :
      (name : Bytes) (r : NameRecord) (tx_hash hash : Bytes) (d : NameDatabase B) (j : Bytes)
      → Reachable B d
      → IsEncodable r
      → (registering name r tx_hash hash d).0 ≡ ok tt
      → ((get_name B name (registering name r tx_hash hash d).1).0 ≡ ok (with_name name r))
        × ((j ≡ name)
            ⊎ ((get_name B j (registering name r tx_hash hash d).1).0 ≡ (get_name B j d).0))
        × (get_name_new B hash (registering name r tx_hash hash d).1 ≡ err commitment_not_found)
  registering-registers name r tx_hash hash d j h e done =
      let d1 = (put_name B name r d).1 in
      let d2 = (add_history B tx_hash r d1).1 in
      let d3 = (delete_name_new B hash d2).1 in
      let (u1, q1, s1, h1) = >=>-eq-ok (put_name B name r d) _ done in
      let (u2, q2, s2, h2) = >=>-eq-ok (add_history B tx_hash r d1) _ h1 in
      let reached =
        delete_name_new-Reachable B hash d2
          (add_history-Reachable B tx_hash r d1 (put_one name r d e h)) in
      let same : d3.db.names ≡ d1.db.names =
        delete_name_new-names B hash d2 ∙ add_history-names B tx_hash r d1 in
      let answered : (k : Bytes) → (get_name B k d3).0 ≡ load_name B k d1.db.names =
        λ k. (get_name-Reachable B laws d3 reached k).0 ∙ ap (load_name B k) same in
      rw (s1 ∙ s2) (elim (put_name_lem B laws name r d e (Reachable-IsCoherent B laws d h)).1 [
        | inr (failed, kept) ↦ absurd (failed (cc q1))
        | inl (stored, now, others) ↦ (
          answered name ∙ now,
          elim (Bytes-cases j name) [
            | inl eq ↦ inl eq
            | inr ne ↦ inr (answered j ∙ others j ne ∙ sym (get_name-Reachable B laws d h j).0)
          ],
          get_name_new-delete_name_new B laws hash d2 h2,
        )
      ])

-- A database that the methods lead to, and a name operation whose record is in range. Where `processNameFirstUpdate` has a value,
-- `GetName` then answers the record that it makes of the operation, any other name has its record as before, and the
-- commitment of the NAME_NEW is gone.
pub process_name_first_update-registers :
    (B : Bbolt) (laws : BboltLaws B) (btcd : Btcd) (tx_hash : Bytes) (out_idx : ℕ) (tx_out : TxOut)
    (p : Parsed) (block_height block_time : ℤ) (d : NameDatabase B) (j : Bytes)
    → Reachable B d
    → IsEncodable (
        new_record B btcd tx_hash out_idx tx_out p block_height block_time
          (get_name_new_height B btcd p.extra p.name block_height d))
    → (process_name_first_update B btcd tx_hash out_idx tx_out p block_height block_time d).0
      ≡ ok tt
    → let after =
        (process_name_first_update B btcd tx_hash out_idx tx_out p block_height block_time d).1 in
      ((get_name B p.name after).0
        ≡ ok (
            new_record B btcd tx_hash out_idx tx_out p block_height block_time
              (get_name_new_height B btcd p.extra p.name block_height d)))
      × ((j ≡ p.name) ⊎ ((get_name B j after).0 ≡ (get_name B j d).0))
      × (get_name_new B (commit_hash B btcd p.extra p.name) after ≡ err commitment_not_found)
unfolding process_name_first_update new_record
process_name_first_update-registers B laws btcd tx_hash out_idx tx_out p block_height block_time d j
      h e done =
    registering-registers B laws p.name
      (new_record B btcd tx_hash out_idx tx_out p block_height block_time
        (get_name_new_height B btcd p.extra p.name block_height d))
      tx_hash (commit_hash B btcd p.extra p.name) d j h e done
