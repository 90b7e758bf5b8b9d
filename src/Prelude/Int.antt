-- ===== src/Prelude/Int.antt =====
-- Signed integers over the native numbers, and Go's `int32` as integers that wrap around.
use Prim.Native.Nat.{ℕ, suc, ◌+◌, ◌-◌, ◌*◌, ◌%◌, ◌^◌, ◌≤◌, ◌<◌}
use mathlib.Core.Path.{◌≡◌}
use mathlib.Core.Logic.{◌↔◌}
use mathlib.Core.Bool.{Bool, true, false}
use native.Mathlib.Omega.{arith}
use durarun_operator.Prelude.Tests.{ltb, leb, ◌==◌, if◌then◌else◌}

-- `negsuc n` is -(n + 1).
pub data ℤ : Type 0 where
  pos : ℕ → ℤ
  negsuc : ℕ → ℤ

abbrev pub pos_part : ℤ → ℕ
pos_part (pos n) = n
pos_part (negsuc n) = 0

abbrev pub neg_part : ℤ → ℕ
neg_part (pos n) = 0
neg_part (negsuc n) = suc n

-- a - b, as an integer.
abbrev pub sub_ℕ : ℕ → ℕ → ℤ
sub_ℕ a b = if leb b a then pos (a - b) else negsuc (b - a - 1)

infixl 65 ◌+ℤ◌ ◌-ℤ◌
infix 50 ◌≤ℤ◌ ◌<ℤ◌
unfoldable pub ◌+ℤ◌ : ℤ → ℤ → ℤ
a +ℤ b = sub_ℕ (pos_part a + pos_part b) (neg_part a + neg_part b)

unfoldable pub ◌-ℤ◌ : ℤ → ℤ → ℤ
a -ℤ b = sub_ℕ (pos_part a + neg_part b) (neg_part a + pos_part b)

abbrev pub ◌≤ℤ◌ : ℤ → ℤ → Type 0
a ≤ℤ b = pos_part a + neg_part b ≤ pos_part b + neg_part a

abbrev pub ◌<ℤ◌ : ℤ → ℤ → Type 0
a <ℤ b = pos_part a + neg_part b < pos_part b + neg_part a

abbrev pub ltb_ℤ : ℤ → ℤ → Bool
ltb_ℤ a b = ltb (pos_part a + neg_part b) (pos_part b + neg_part a)

abbrev pub leb_ℤ : ℤ → ℤ → Bool
leb_ℤ a b = leb (pos_part a + neg_part b) (pos_part b + neg_part a)

abbrev pub eq_ℤ : ℤ → ℤ → Bool
eq_ℤ a b = (pos_part a + neg_part b) == (pos_part b + neg_part a)

pub eq_ℤ_iff : (a b : ℤ) → (eq_ℤ a b ≡ true) ↔ (a ≡ b)
eq_ℤ_iff a b = ground arith

-- The sum of two values of type int32, wrapped around.
unfoldable pub add_int32 : ℤ → ℤ → ℤ
unfolding ◌+ℤ◌ ◌-ℤ◌
add_int32 a b =
    let s = a +ℤ b in
    if leb_ℤ (pos (2 ^ 31)) s
    then s -ℤ pos (2 ^ 32)
    else if ltb_ℤ s (negsuc (2 ^ 31 - 1))
    then s +ℤ pos (2 ^ 32)
    else s

-- Below the largest int32 an increment is exact.
pub add_int32_one : (n : ℕ) → n + 1 < 2 ^ 31 → add_int32 (pos n) (pos 1) ≡ pos (n + 1)
unfolding add_int32
add_int32_one n h = ground arith

-- The value that a number has when it is stored in an int64.
unfoldable pub to_int64 : ℤ → ℤ
to_int64 (pos n) = let r = n % 2 ^ 64 in if ltb r (2 ^ 63) then pos r else negsuc (2 ^ 64 - r - 1)
to_int64 (negsuc n) =
    let r = n % 2 ^ 64 in if ltb r (2 ^ 63) then negsuc r else pos (2 ^ 64 - r - 1)

-- The value that a number has when it is converted to an int32.
unfoldable pub to_int32 : ℤ → ℤ
to_int32 (pos n) = let r = n % 2 ^ 32 in if ltb r (2 ^ 31) then pos r else negsuc (2 ^ 32 - r - 1)
to_int32 (negsuc n) =
    let r = n % 2 ^ 32 in if ltb r (2 ^ 31) then negsuc r else pos (2 ^ 32 - r - 1)

-- A duration of so many seconds in nanoseconds, as Go computes it in an int64.
unfoldable pub seconds_int64 : ℤ → ℤ
unfolding to_int64
seconds_int64 (pos n) = to_int64 (pos (n * 1000000000))
seconds_int64 (negsuc n) = to_int64 (negsuc (suc n * 1000000000 - 1))

pub seconds_int64_exact : (n : ℕ) → n ≤ 9223372036 → seconds_int64 (pos n) ≡ pos (n * 1000000000)
unfolding seconds_int64
seconds_int64_exact n h = ground arith

pub +ℤ_pos : (t : ℤ) (n : ℕ) → t ≤ℤ t +ℤ pos n
unfolding ◌+ℤ◌
+ℤ_pos t n = ground arith

pub +ℤ-sub : (a b : ℤ) → a +ℤ (b -ℤ a) ≡ b
unfolding ◌+ℤ◌ ◌-ℤ◌
+ℤ-sub a b = ground arith

pub -ℤ_positive : (a b : ℤ) → ltb_ℤ a b ≡ true → pos 0 <ℤ b -ℤ a
unfolding ◌-ℤ◌
-ℤ_positive a b h = ground arith

pub ltb_ℤ-leb_ℤ : (a b : ℤ) → ltb_ℤ a b ≡ false → leb_ℤ b a ≡ true
ltb_ℤ-leb_ℤ a b h = ground arith

pub ltb_ℤ_iff : (a b : ℤ) → (ltb_ℤ a b ≡ true) ↔ (a <ℤ b)
ltb_ℤ_iff a b = ground arith
