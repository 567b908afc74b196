-- ===== src/Chain/Rules/Window.antt =====
-- `validateFirstUpdateWindow` of chain/blockchain.go, in the integers.
use nmcd.Prelude.{ℕ, ◌+◌, ◌-◌, ◌^◌, ◌≤◌, ◌<◌, ◌≡◌, ◌↔◌, sym, ◌∙◌, arith, le-or-lt, inl, inr, subst}
use nmcd.Prelude.Bytes.{Bytes}
use nmcd.Int.{pos, ◌-ℤ◌, sub_int32, sub_int32_lem, IsInt32}
use nmcd.Result.{ok, Result-split}
use nmcd.Chain.{Store, NameNewRecord}
use nmcd.Chain.Rules.{check_window, validate_first_update_window}

-- 12 blocks or more, and 36000 or fewer, have passed at `h` since `n`.
abbrev pub InWindow : ℕ → ℕ → Type 0
InWindow n h = (n + 12 ≤ h) × (h ≤ n + 36000)

sub_pos : (h n : ℕ) → n ≤ h → pos h -ℤ pos n ≡ pos (h - n)
unfolding ◌-ℤ◌
sub_pos h n l = ground arith

check_window-eq-ok_iff :
    (n h : ℕ) → n < 2 ^ 31 → h < 2 ^ 31 → (check_window (pos h) (pos n) ≡ ok tt) ↔ InWindow n h
unfolding check_window
check_window-eq-ok_iff n h hn hh = elim (le-or-lt n h) [
  | inr before ↦ ground arith
  | inl after ↦
      let e : pos h -ℤ pos n ≡ pos (h - n) = sub_pos h n after in
      let s : sub_int32 (pos h) (pos n) ≡ pos (h - n) =
        sub_int32_lem (pos h) (pos n) (subst IsInt32 (sym e) (ground arith)) ∙ e in
      rw s (ground arith)
]

-- For heights in the range of int32 that are not negative, the window test passes exactly when the
-- commitment is stored and between 12 and 36000 blocks have passed since its NAME_NEW.
pub validate_first_update_window-eq-ok_iff :
    (store : Store) (commit_hash : Bytes) (h : ℕ)
    → h < 2 ^ 31
    → ((r : NameNewRecord)
        → store.get_name_new commit_hash ≡ ok r
        → (n : ℕ) × (r.height ≡ pos n) × (n < 2 ^ 31))
    → (validate_first_update_window store commit_hash (pos h) ≡ ok tt) ↔ (
        (r : NameNewRecord) × (n : ℕ) × (store.get_name_new commit_hash ≡ ok r)
        × (r.height ≡ pos n)
        × InWindow n h)
unfolding validate_first_update_window
validate_first_update_window-eq-ok_iff store commit_hash h hh range = (accepted, accepts)
  where
    accepted :
        validate_first_update_window store commit_hash (pos h) ≡ ok tt
        → (r : NameNewRecord) × (n : ℕ) × (store.get_name_new commit_hash ≡ ok r)
          × (r.height ≡ pos n)
          × InWindow n h
    accepted v = elim (Result-split (store.get_name_new commit_hash)) [
      | inl (r, q) ↦
          let (n, e, b) = range r q in
          (
            r,
            n,
            q,
            e,
            (check_window-eq-ok_iff n h b hh).0 (rw (q, validate_first_update_window, e) at v),
          )
      | inr (inl (e, q)) ↦ absurd (cc (rw (q, validate_first_update_window) at v))
      | inr (inr q) ↦ absurd (cc (rw (q, validate_first_update_window) at v))
    ]

    accepts :
        ((r : NameNewRecord) × (n : ℕ) × (store.get_name_new commit_hash ≡ ok r)
          × (r.height ≡ pos n)
          × InWindow n h)
        → validate_first_update_window store commit_hash (pos h) ≡ ok tt
    accepts (r, n, q, e, w) =
        rw (q, validate_first_update_window, e)
          ((check_window-eq-ok_iff n h (omega (arith, w)) hh).1 w)
