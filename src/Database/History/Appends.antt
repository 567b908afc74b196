-- ===== src/Database/History/Appends.antt =====
-- namedb/namedb.go: what `GetHistory` answers after `AddHistory` and after `RemoveLastHistoryEntry`.
use nmcd.Prelude.{
  ℕ, zero, suc, ◌+◌, ◌*◌, ◌/◌, ◌%◌, ◌≡◌, ◌≢◌, refl, ◌∙◌, ap, List, Option, none, some, ◌==◌, ==_iff,
  ◌⊎◌, inl, inr, Option-cases, Bool-cases, length, All, arith, [], ◌∷◌, ◌++◌, length-append, take,
  drop, take_of_length,
}
use nmcd.Prelude.Bytes.{Bytes}
use nmcd.NameDb.{NameRecord}
use nmcd.NameDb.Record.{encode_name_record, decode_name_record, tx_hash_size}
use nmcd.NameDb.Record.RoundTrip.{IsEncodable, decode-encode_name_record}
use nmcd.Database.{Bbolt, BboltLaws, Buckets, DbError, NameDatabase, storing}
use nmcd.Database.Transactions.{map_err-eq-ok, update-cases}
use nmcd.Database.Names.{with_name}
use nmcd.Database.History.{
  split_hashes, hashes, or_empty, add_history, add_history_tx, collect_history, history_step,
  get_history,
}
use nmcd.Result.{Result, ok, map_err, >>=-eq-ok, ok-injective, Result-split}

-- A list of whole hashes with one more behind it.
take_longer :
    (n : ℕ) (xs ys : Bytes) → n + length (drop n xs) ≡ length xs → take n (xs ++ ys) ≡ take n xs
take_longer zero xs ys l = refl
take_longer (suc n) [] ys l = absurd (omega (arith, l))
take_longer (suc n) (x ∷ xs) ys l = ap (◌∷◌ x) (take_longer n xs ys (omega (arith, l)))

drop_longer :
    (n : ℕ) (xs ys : Bytes)
    → n + length (drop n xs) ≡ length xs
    → drop n (xs ++ ys) ≡ drop n xs ++ ys
drop_longer zero xs ys l = refl
drop_longer (suc n) [] ys l = absurd (omega (arith, l))
drop_longer (suc n) (x ∷ xs) ys l = drop_longer n xs ys (omega (arith, l))

length-drop : (n m : ℕ) (xs : Bytes) → length xs ≡ n + m → length (drop n xs) ≡ m
length-drop zero m xs l = omega (arith, l)
length-drop (suc n) m [] l = absurd (omega (arith, l))
length-drop (suc n) m (x ∷ xs) l = length-drop n m xs (omega (arith, l))

split_hashes-append :
    (n : ℕ) (xs hash : Bytes)
    → length xs ≡ n * 32
    → length hash ≡ 32
    → split_hashes (suc n) (xs ++ hash) ≡ split_hashes n xs ++ hash ∷ []
unfolding split_hashes
split_hashes-append zero [] hash l m = ap (λ h. h ∷ []) (take_of_length 32 hash m)
split_hashes-append zero (x ∷ xs) hash l m = absurd (omega (arith, l))
split_hashes-append (suc n) xs hash l m =
    let d = length-drop 32 (n * 32) xs (omega (arith, l)) in
    rw (take_longer 32 xs hash (omega (arith, d, l)), drop_longer 32 xs hash (omega (arith, d, l)))
      (ap (◌∷◌ (take 32 xs)) (split_hashes-append n (drop 32 xs) hash d m))

hashes-append :
    (xs hash : Bytes)
    → length xs % 32 ≡ 0
    → length hash ≡ 32
    → hashes (xs ++ hash) ≡ hashes xs ++ hash ∷ []
unfolding hashes
hashes-append xs hash l m =
    let n : length (xs ++ hash) / 32 ≡ suc (length xs / 32) =
      omega (arith, length-append xs hash, m) in
    rw n (split_hashes-append (length xs / 32) xs hash (omega (arith, l)) m)

module _ (B : Bbolt) (laws : BboltLaws B) where
  -- A history that differs only at another hash.
  collect_history-frame :
      (name : Bytes) (before after : B.Bucket) (hash : Bytes) (list : List Bytes)
      → ((j : Bytes) → j ≢ hash → B.find j after ≡ B.find j before)
      → All (λ j. j ≢ hash) list
      → collect_history B name after list ≡ collect_history B name before list
  unfolding collect_history
  collect_history-frame name before after hash [] same fresh = refl
  collect_history-frame name before after hash (j ∷ list) same (ne, fresh) = rw (same j ne) (
      ap (history_step B name (B.find j before))
        (collect_history-frame name before after hash list same fresh))

  -- A step that goes on does so with any records behind.
  history_step-append :
      (name : Bytes) (found : Option Bytes)
      (rest rest' : Result (DbError B.StoreError) (Unit {0}) × List NameRecord)
      (last : List NameRecord) (rs : List NameRecord)
      → ((ts : List NameRecord) → rest ≡ (ok tt, ts) → rest' ≡ (ok tt, ts ++ last))
      → history_step B name found rest ≡ (ok tt, rs)
      → history_step B name found rest' ≡ (ok tt, rs ++ last)
  unfolding history_step
  history_step-append name none rest rest' last rs k h = k rs h
  history_step-append name (some payload) (result, ts) rest' last rs k h =
      elim (Result-split (decode_name_record payload)) [
        | inl (r, q) ↦
            let e = rw (history_step, q) at h in
            let done : result ≡ ok tt =
              ap (λ (p : Result (DbError B.StoreError) (Unit {0}) × List NameRecord). p.0) e in
            let all : with_name name r ∷ ts ≡ rs =
              ap (λ (p : Result (DbError B.StoreError) (Unit {0}) × List NameRecord). p.1) e in
            ap (history_step B name (some payload)) (k ts (ap (λ x. (x, ts)) done))
            ∙ rw (history_step, q) (ap (λ x. (ok tt, x ++ last)) all)
        | inr (inl (e, q)) ↦ absurd (cc (rw (history_step, q) at h))
        | inr (inr q) ↦ absurd (cc (rw (history_step, q) at h))
      ]

  -- One more hash, whose record decodes.
  collect_history-append :
      (name : Bytes) (history : B.Bucket) (hash payload : Bytes) (r : NameRecord)
      (list : List Bytes) (rs : List NameRecord)
      → B.find hash history ≡ some payload
      → decode_name_record payload ≡ ok r
      → collect_history B name history list ≡ (ok tt, rs)
      → collect_history B name history (list ++ hash ∷ []) ≡ (ok tt, rs ++ with_name name r ∷ [])
  unfolding collect_history history_step
  collect_history-append name history hash payload r [] rs q e h =
      let none_yet : [] ≡ rs =
        ap (λ (p : Result (DbError B.StoreError) (Unit {0}) × List NameRecord). p.1) h in
      rw (q, history_step, e) (ap (λ x. (ok tt, x ++ with_name name r ∷ [])) none_yet)
  collect_history-append name history hash payload r (j ∷ list) rs q e h =
      history_step-append name (B.find j history) (collect_history B name history list)
        (collect_history B name history (list ++ hash ∷ [])) (with_name name r ∷ []) rs
        (λ ts i. collect_history-append name history hash payload r list ts q e i) h

  get_history-eq-ok :
      (name : Bytes) (d : NameDatabase B) (rs : List NameRecord)
      → get_history B name d ≡ (ok tt, rs)
      → (length (or_empty (B.find name d.db.history_index)) % 32 ≡ 0)
        × (collect_history B name d.db.history (hashes (or_empty (B.find name d.db.history_index)))
            ≡ (ok tt, rs))
  unfolding get_history or_empty hashes split_hashes collect_history
  get_history-eq-ok name d rs h = elim (Option-cases (B.find name d.db.history_index)) [
    | inl q ↦ rw (or_empty, q) (omega arith, rw (get_history, q) at h)
    | inr (index, q) ↦ elim (Bool-cases (length index % tx_hash_size == 0)) [
      | inl w ↦ rw (or_empty, q) ((==_iff (length index % 32) 0).0 w, rw (get_history, q, w) at h)
      | inr w ↦ absurd (cc (rw (get_history, q, w) at h))
    ]
  ]

  add_history_tx-writes :
      (tx_hash : Bytes) (r : NameRecord) (b b' : Buckets B.Bucket) (u : Unit {0})
      → add_history_tx B tx_hash r b ≡ ok (u, b')
      → (B.store tx_hash (encode_name_record r) b.history ≡ ok b'.history)
        × (B.store r.name (or_empty (B.find r.name b.history_index) ++ tx_hash) b.history_index
            ≡ ok b'.history_index)
  unfolding add_history_tx
  add_history_tx-writes tx_hash r b b' u h =
      let list = or_empty (B.find r.name b.history_index) ++ tx_hash in
      let (p, q0, h1) =
        >>=-eq-ok (map_err storing (B.store tx_hash (encode_name_record r) b.history)) _ h in
      let (i, q1, h2) = >>=-eq-ok (map_err storing (B.store r.name list b.history_index)) _ h1 in
      (
        map_err-eq-ok storing (B.store tx_hash (encode_name_record r) b.history) q0
            ∙ ap (λ (y : Unit {0} × Buckets B.Bucket). ok y.1.history) (ok-injective h2),
        map_err-eq-ok storing (B.store r.name list b.history_index) q1
            ∙ ap (λ (y : Unit {0} × Buckets B.Bucket). ok y.1.history_index) (ok-injective h2),
      )

  get_history_found :
      (name index : Bytes) (d : NameDatabase B)
      → B.find name d.db.history_index ≡ some index
      → length index % 32 ≡ 0
      → get_history B name d ≡ collect_history B name d.db.history (hashes index)
  unfolding get_history
  get_history_found name index d q w = rw (get_history, q, (==_iff (length index % 32) 0).1 w) refl

  -- A record in range, and a 32-byte transaction hash that the history of its name does not have. Where `GetHistory`
  -- answers some records for the name and `AddHistory` has a value, `GetHistory` then answers these records and the new one
  -- behind them. Where `AddHistory` has no value, the database is as it was.
  pub get_history-add_history :
      (d : NameDatabase B) (tx_hash : Bytes) (r : NameRecord) (rs : List NameRecord)
      → length tx_hash ≡ 32
      → IsEncodable r
      → All (λ j. j ≢ tx_hash) (hashes (or_empty (B.find r.name d.db.history_index)))
      → get_history B r.name d ≡ (ok tt, rs)
      → (((add_history B tx_hash r d).0 ≡ ok tt)
          × (get_history B r.name (add_history B tx_hash r d).1 ≡ (ok tt, rs ++ r ∷ [])))
        ⊎ (((add_history B tx_hash r d).0 ≢ ok tt) × ((add_history B tx_hash r d).1 ≡ d))
  unfolding add_history
  get_history-add_history d tx_hash r rs l e fresh h =
      elim (update-cases B (add_history_tx B tx_hash r) d) [
        | inr (inl (e, k)) ↦ rw k (inr ((λ x. absurd (cc x)), refl))
        | inr (inr k) ↦ rw k (inr ((λ x. absurd (cc x)), refl))
        | inl (u, b, q, k) ↦
            let old = or_empty (B.find r.name d.db.history_index) in
            let (whole, answered) = get_history-eq-ok r.name d rs h in
            let (stored, listed) = add_history_tx-writes tx_hash r d.db b u q in
            let after : NameDatabase B = record d { db = b } in
            let kept =
              collect_history-frame r.name d.db.history b.history tx_hash (hashes old)
                (λ j ne.
                  laws.find-store_ne tx_hash (encode_name_record r) j d.db.history b.history stored
                    ne)
                fresh in
            let found =
              laws.find-store tx_hash (encode_name_record r) d.db.history b.history stored in
            rw k (
              inl (
                refl,
                get_history_found r.name (old ++ tx_hash) after
                      (laws.find-store r.name (old ++ tx_hash) d.db.history_index b.history_index
                        listed)
                      (omega (arith, length-append old tx_hash, whole, l))
                    ∙ ap (collect_history B r.name b.history) (hashes-append old tx_hash whole l)
                    ∙ collect_history-append r.name b.history tx_hash (encode_name_record r)
                        (record r { name = [] }) (hashes old) rs found
                        (decode-encode_name_record r e) (kept ∙ answered),
              ))
      ]
