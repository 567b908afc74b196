-- ===== src/Config/Subsidy.antt =====
-- `CalcBlockSubsidy` of config/subsidy.go.
use nmcd.Prelude.{
  le-or-lt, inl, inr, ◌⊎◌, ◌-◌, ◌%◌, ℕ, zero, suc, ◌+◌, ◌*◌, ◌/◌, ◌^◌, ◌≤◌, ◌<◌, ◌≡◌, ap, arith,
  leb, if◌then◌else◌,
}
use native.Mathlib.Nat.{
  add-zero, add-suc, pow-suc, one-le-pow, div-div-eq-div-mul, le-div_iff_mul-le, div-mul-le_self,
  mod-lt, div-eq_of_lt-le, div-add-mod', zero-div, zero-mod, mul-le-mul_left, mul-le-mul_right,
}
use nmcd.Int.{ℤ, pos, negsuc}
use nmcd.Config.{Params}

abbrev pub initial_block_subsidy : ℕ
initial_block_subsidy = 50 * 100000000

abbrev pub max_halvings : ℕ
max_halvings = 64

-- After 64 halvings there is no subsidy. It is an int64 below 2 ^ 33, so `subsidy >>= halvings` is
-- the quotient by a power of two.
pub subsidy_after : ℕ → ℕ
subsidy_after halvings =
    if leb max_halvings halvings then 0 else initial_block_subsidy / 2 ^ halvings

-- `negsuc` holds the negative heights.
pub calc_block_subsidy : ℤ → Params → ℕ
calc_block_subsidy (negsuc _) chain_params = 0
calc_block_subsidy (pos height) chain_params =
    subsidy_after (height / chain_params.subsidy_reduction_interval)

pow_two_pos : (i : ℕ) → 0 < 2 ^ i
pow_two_pos i = one-le-pow i 2 (omega arith)

-- One more halving at most halves the subsidy.
subsidy_after_halves : (i : ℕ) → subsidy_after (suc i) * 2 ≤ subsidy_after i
unfolding subsidy_after
subsidy_after_halves i =
    ground (arith, pow-suc 2 i, div-div-eq-div-mul initial_block_subsidy (2 ^ i) 2)

subsidy_after_antitone : (i d : ℕ) → subsidy_after (i + d) ≤ subsidy_after i
subsidy_after_antitone i zero = rw add-zero (omega arith)
subsidy_after_antitone i (suc d) =
    rw add-suc (omega (arith, subsidy_after_halves (i + d), subsidy_after_antitone i d))

-- What the blocks below a height may create.
pub total_subsidy : ℕ → Params → ℕ
total_subsidy zero chain_params = 0
total_subsidy (suc n) chain_params =
    total_subsidy n chain_params + calc_block_subsidy (pos n) chain_params

div_step :
    (n k : ℕ)
    → 0 < k
    → ((suc n / k ≡ n / k) × (suc n % k ≡ suc (n % k)))
      ⊎ ((suc n / k ≡ suc (n / k)) × (suc n % k ≡ 0) × (suc (n % k) ≡ k))
div_step n k h = elim (le-or-lt k (suc (n % k))) [
  | inl full ↦
      let e : suc (n % k) ≡ k = omega (arith, mod-lt n h) in
      let q : suc n / k ≡ suc (n / k) =
        div-eq_of_lt-le k (omega (arith, div-add-mod' n k)) (omega (arith, div-add-mod' n k)) in
      inr (q, omega (arith, div-add-mod' n k, div-add-mod' (suc n) k, ap (λ (t : ℕ). t * k) q), e)
  | inr room ↦
      let q : suc n / k ≡ n / k =
        div-eq_of_lt-le k (omega (arith, div-add-mod' n k)) (omega (arith, div-add-mod' n k)) in
      inl (q, omega (arith, div-add-mod' n k, div-add-mod' (suc n) k, ap (λ (t : ℕ). t * k) q))
]

module _ (chain_params : Params) (positive : 0 < chain_params.subsidy_reduction_interval) where
  abbrev interval : ℕ
  interval = chain_params.subsidy_reduction_interval

  -- With a positive interval, the subsidy never grows with the height.
  pub calc_block_subsidy_antitone :
      (h k : ℕ)
      → h ≤ k
      → calc_block_subsidy (pos k) chain_params ≤ calc_block_subsidy (pos h) chain_params
  unfolding calc_block_subsidy
  calc_block_subsidy_antitone h k le =
      let q : h / interval ≤ k / interval =
        (le-div_iff_mul-le positive).1 (omega (arith, div-mul-le_self h interval, le)) in
      let e : h / interval + (k / interval - h / interval) ≡ k / interval = omega arith in
      rw e at (subsidy_after_antitone (h / interval) (k / interval - h / interval))

  -- What an epoch and all later ones can create is at most twice the worth of the epoch.
  total_subsidy_bound :
      (n : ℕ)
      → total_subsidy n chain_params + 2 * (interval * subsidy_after (n / interval))
        ≤ 2 * (interval * initial_block_subsidy) + n % interval * subsidy_after (n / interval)
  unfolding total_subsidy calc_block_subsidy
  total_subsidy_bound zero =
      rw (zero-div interval, zero-mod interval) (unfold subsidy_after in omega arith)
  total_subsidy_bound (suc n) = elim (div_step n interval positive) [
    | inl (e, m) ↦ rw (e, m) (omega (arith, total_subsidy_bound n))
    | inr (e, m, full) ↦
        rw (e, m)
          (omega (
            arith,
            total_subsidy_bound n,
            ap (λ (t : ℕ). t * subsidy_after (n / interval)) full,
            mul-le-mul_left interval (subsidy_after_halves (n / interval)),
          ))
  ]

  -- With a positive interval: the subsidies of the first blocks, however many, add up to at most two
  -- intervals of the initial subsidy.
  pub total_subsidy-le :
      (n : ℕ) → total_subsidy n chain_params ≤ 2 * (interval * initial_block_subsidy)
  total_subsidy-le n =
      omega (
        arith,
        total_subsidy_bound n,
        mul-le-mul_right (subsidy_after (n / interval)) (epoch_rest n),
      )
    where
      epoch_rest : (n : ℕ) → n % interval ≤ interval
      epoch_rest n = omega (arith, mod-lt n positive)
