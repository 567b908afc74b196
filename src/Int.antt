-- ===== src/Int.antt =====
-- Signed integers over the native numbers, and Go's int32 and int64 conversions.
use nmcd.Prelude.{
  ℕ, suc, ◌+◌, ◌-◌, ◌%◌, ◌^◌, ◌≤◌, ◌<◌, ◌≡◌, refl, Bool, arith, ltb, leb, if◌then◌else◌,
}

-- `negsuc n` is -(n + 1).
pub data ℤ : Type 0 where
  pos : ℕ → ℤ
  negsuc : ℕ → ℤ

abbrev pub pos_part : ℤ → ℕ
pos_part (pos n) = n
pos_part (negsuc n) = 0

abbrev pub neg_part : ℤ → ℕ
neg_part (pos n) = 0
neg_part (negsuc n) = suc n

-- a - b, as an integer.
abbrev pub sub_ℕ : ℕ → ℕ → ℤ
sub_ℕ a b = if leb b a then pos (a - b) else negsuc (b - a - 1)

infixl 65 ◌+ℤ◌ ◌-ℤ◌
infix 50 ◌≤ℤ◌ ◌<ℤ◌
unfoldable pub ◌+ℤ◌ : ℤ → ℤ → ℤ
a +ℤ b = sub_ℕ (pos_part a + pos_part b) (neg_part a + neg_part b)

unfoldable pub ◌-ℤ◌ : ℤ → ℤ → ℤ
a -ℤ b = sub_ℕ (pos_part a + neg_part b) (neg_part a + pos_part b)

abbrev pub ◌≤ℤ◌ : ℤ → ℤ → Type 0
a ≤ℤ b = pos_part a + neg_part b ≤ pos_part b + neg_part a

abbrev pub ◌<ℤ◌ : ℤ → ℤ → Type 0
a <ℤ b = pos_part a + neg_part b < pos_part b + neg_part a

abbrev pub ltb_ℤ : ℤ → ℤ → Bool
ltb_ℤ a b = ltb (pos_part a + neg_part b) (pos_part b + neg_part a)

abbrev pub leb_ℤ : ℤ → ℤ → Bool
leb_ℤ a b = leb (pos_part a + neg_part b) (pos_part b + neg_part a)

-- `uint32(x)` of a signed x: the bit pattern.
unfoldable pub to_u32 : ℤ → ℕ
to_u32 (pos n) = n % 2 ^ 32
to_u32 (negsuc n) = 2 ^ 32 - 1 - n % 2 ^ 32

-- `int32(w)` of a 32-bit pattern.
unfoldable pub to_int32 : ℕ → ℤ
to_int32 w = if ltb w (2 ^ 31) then pos w else negsuc (2 ^ 32 - 1 - w)

unfoldable pub to_u64 : ℤ → ℕ
to_u64 (pos n) = n % 2 ^ 64
to_u64 (negsuc n) = 2 ^ 64 - 1 - n % 2 ^ 64

unfoldable pub to_int64 : ℕ → ℤ
to_int64 w = if ltb w (2 ^ 63) then pos w else negsuc (2 ^ 64 - 1 - w)

abbrev pub IsInt32 : ℤ → Type 0
IsInt32 a = (negsuc (2 ^ 31 - 1) ≤ℤ a) × (a <ℤ pos (2 ^ 31))

abbrev pub IsInt64 : ℤ → Type 0
IsInt64 a = (negsuc (2 ^ 63 - 1) ≤ℤ a) × (a <ℤ pos (2 ^ 63))

pub to_int32-to_u32 : (a : ℤ) → IsInt32 a → to_int32 (to_u32 a) ≡ a
unfolding to_int32 to_u32
to_int32-to_u32 (pos n) h = ground arith
to_int32-to_u32 (negsuc n) h = ground arith

pub to_int64-to_u64 : (a : ℤ) → IsInt64 a → to_int64 (to_u64 a) ≡ a
unfolding to_int64 to_u64
to_int64-to_u64 (pos n) h = ground arith
to_int64-to_u64 (negsuc n) h = ground arith

pub to_u32-lt : (a : ℤ) → to_u32 a < 2 ^ 32
unfolding to_u32
to_u32-lt (pos n) = omega arith
to_u32-lt (negsuc n) = omega arith

pub to_u64-lt : (a : ℤ) → to_u64 a < 2 ^ 64
unfolding to_u64
to_u64-lt (pos n) = omega arith
to_u64-lt (negsuc n) = omega arith

pub +ℤ_parts :
    (a b : ℤ)
    → pos_part (a +ℤ b) + neg_part a + neg_part b ≡ neg_part (a +ℤ b) + pos_part a + pos_part b
unfolding ◌+ℤ◌
+ℤ_parts a b = ground arith

pub -ℤ_parts :
    (a b : ℤ)
    → pos_part (a -ℤ b) + neg_part a + pos_part b ≡ neg_part (a -ℤ b) + pos_part a + neg_part b
unfolding ◌-ℤ◌
-ℤ_parts a b = ground arith

pub eq_of_parts : (a b : ℤ) → pos_part a + neg_part b ≡ pos_part b + neg_part a → a ≡ b
eq_of_parts a b h = ground arith

pub ruleset int_laws = (arith, +ℤ_parts, -ℤ_parts, eq_of_parts)

-- The sums and differences of int32 and int64 variables, which wrap around.
unfoldable pub sub_int32 : ℤ → ℤ → ℤ
sub_int32 a b = to_int32 (to_u32 (a -ℤ b))

unfoldable pub add_int32 : ℤ → ℤ → ℤ
add_int32 a b = to_int32 (to_u32 (a +ℤ b))

unfoldable pub sub_int64 : ℤ → ℤ → ℤ
sub_int64 a b = to_int64 (to_u64 (a -ℤ b))

unfoldable pub add_int64 : ℤ → ℤ → ℤ
add_int64 a b = to_int64 (to_u64 (a +ℤ b))

pub sub_int32_lem : (a b : ℤ) → IsInt32 (a -ℤ b) → sub_int32 a b ≡ a -ℤ b
unfolding sub_int32
sub_int32_lem a b = to_int32-to_u32 (a -ℤ b)

pub add_int64_lem : (a b : ℤ) → IsInt64 (a +ℤ b) → add_int64 a b ≡ a +ℤ b
unfolding add_int64
add_int64_lem a b = to_int64-to_u64 (a +ℤ b)

pub sub_int64_lem : (a b : ℤ) → IsInt64 (a -ℤ b) → sub_int64 a b ≡ a -ℤ b
unfolding sub_int64
sub_int64_lem a b = to_int64-to_u64 (a -ℤ b)
