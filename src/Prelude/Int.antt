-- ===== src/Prelude/Int.antt =====
-- Signed integers over the native numbers, and Go's int32 and int64 arithmetic, which wraps.
use Prim.Native.Nat.{ℕ, suc, ◌+◌, ◌-◌, ◌*◌, ◌%◌, ◌^◌, ◌≤◌, ◌<◌}
use mathlib.Core.Path.{◌≡◌}
use mathlib.Core.Bool.{Bool}
use native.Mathlib.Nat.{mod-eq_of_lt}
use native.Mathlib.Omega.{arith}
use e_palika.Prelude.Tests.{ltb, leb, lt→ltb, if◌then◌else◌}

-- `negsuc n` is -(n + 1).
pub data ℤ : Type 0 where
  pos : ℕ → ℤ
  negsuc : ℕ → ℤ

abbrev pub pos_part : ℤ → ℕ
pos_part (pos n) = n
pos_part (negsuc n) = 0

abbrev pub neg_part : ℤ → ℕ
neg_part (pos n) = 0
neg_part (negsuc n) = suc n

-- a - b, as an integer.
abbrev pub sub_ℕ : ℕ → ℕ → ℤ
sub_ℕ a b = if leb b a then pos (a - b) else negsuc (b - a - 1)

infixl 65 ◌+ℤ◌
infixl 70 ◌*ℤ◌
infix 50 ◌≤ℤ◌
unfoldable pub ◌+ℤ◌ : ℤ → ℤ → ℤ
a +ℤ b = sub_ℕ (pos_part a + pos_part b) (neg_part a + neg_part b)

unfoldable pub ◌*ℤ◌ : ℤ → ℤ → ℤ
a *ℤ b =
    sub_ℕ (pos_part a * pos_part b + neg_part a * neg_part b)
      (pos_part a * neg_part b + neg_part a * pos_part b)

abbrev pub ◌≤ℤ◌ : ℤ → ℤ → Type 0
a ≤ℤ b = pos_part a + neg_part b ≤ pos_part b + neg_part a

abbrev pub ltb_ℤ : ℤ → ℤ → Bool
ltb_ℤ a b = ltb (pos_part a + neg_part b) (pos_part b + neg_part a)

abbrev pub leb_ℤ : ℤ → ℤ → Bool
leb_ℤ a b = leb (pos_part a + neg_part b) (pos_part b + neg_part a)

-- The value that the low bits of an integer stand for in two's complement, `half` being half the
-- modulus: 2^31 for int32, 2^63 for int64.
unfoldable pub wrap : ℕ → ℤ → ℤ
wrap half (pos n) =
    let r = n % (2 * half) in if ltb r half then pos r else negsuc (2 * half - r - 1)
wrap half (negsuc n) =
    let r = n % (2 * half) in if ltb r half then negsuc r else pos (2 * half - r - 1)

abbrev pub half32 : ℕ
half32 = 2 ^ 31

abbrev pub half64 : ℕ
half64 = 2 ^ 63

-- int32 `a + b`.
unfoldable pub add_int32 : ℤ → ℤ → ℤ
unfolding wrap ◌+ℤ◌
add_int32 a b = wrap half32 (a +ℤ b)

-- int64 `a * b`.
unfoldable pub mul_int64 : ℤ → ℤ → ℤ
unfolding wrap ◌*ℤ◌
mul_int64 a b = wrap half64 (a *ℤ b)

-- The conversion `int32(n)`.
unfoldable pub to_int32 : ℤ → ℤ
unfolding wrap
to_int32 = wrap half32

-- A number below the half range is kept.
pub wrap_small : (half n : ℕ) → n < half → wrap half (pos n) ≡ pos n
unfolding wrap
wrap_small half n h =
    rw (mod-eq_of_lt (let h' : n < 2 * half = omega arith in h')) (rw (lt→ltb n half h))
