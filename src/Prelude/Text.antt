-- ===== src/Prelude/Text.antt =====
-- Go's `strings` and `fmt` functions that the services call, over code points.
pub mod Digits
pub mod Read
use Prim.Native.Nat.{ℕ, zero, suc, ◌+◌, ◌-◌, ◌*◌, ◌/◌, ◌%◌, ◌^◌, ◌≤◌, ◌<◌}
use Prim.Native.Char.{Char, code}
use Prim.Native.String.{String, ◌++◌}
use Prim.Native.String
use mathlib.Core.Path.{◌≡◌, refl}
use mathlib.Core.Bool.{Bool, true, false, ◌||◌, ◌&&◌}
use mathlib.Core.List.{List, [], ◌∷◌}
use native.Mathlib.Omega.{arith}
use e_palika.Prelude.Tests.{◌==◌, ltb, leb, nat_beq, nat_eq, string_eq, if◌then◌else◌}
use e_palika.Prelude.Int.{ℤ, pos, negsuc}
use e_palika.Prelude.Lists.{is_one_of}

-- `unicode.IsSpace`.
abbrev pub is_space : Char → Bool
is_space c =
    let n = code c in
    (leb 9 n && leb n 13)
    || (leb 0x2000 n && leb n 0x200a)
    || is_one_of n (0x20 ∷ 0x85 ∷ 0xa0 ∷ 0x1680 ∷ 0x2028 ∷ 0x2029 ∷ 0x202f ∷ 0x205f ∷ 0x3000 ∷ [])

-- The text without its leading spaces.
pub trim_left : String → String
trim_left String.[] = String.[]
trim_left (String.◌∷◌ c s) = let rest = trim_left s in if is_space c then rest else String.◌∷◌ c s

-- The text without its trailing spaces: a character is kept if it is no space, or if a kept one
-- follows it.
pub trim_right : String → String
trim_right String.[] = String.[]
trim_right (String.◌∷◌ c s) =
    let rest = trim_right s in if is_space c && rest == "" then String.[] else String.◌∷◌ c rest

-- `strings.TrimSpace`.
unfoldable pub trim_space : String → String
unfolding trim_left trim_right
trim_space s = trim_right (trim_left s)

-- One decimal digit.
abbrev pub digit : ℕ → Char
digit zero = "0"
digit (suc zero) = "1"
digit (suc (suc zero)) = "2"
digit (suc (suc (suc zero))) = "3"
digit (suc (suc (suc (suc zero)))) = "4"
digit (suc (suc (suc (suc (suc zero))))) = "5"
digit (suc (suc (suc (suc (suc (suc zero)))))) = "6"
digit (suc (suc (suc (suc (suc (suc (suc zero))))))) = "7"
digit (suc (suc (suc (suc (suc (suc (suc (suc zero)))))))) = "8"
digit (suc (suc (suc (suc (suc (suc (suc (suc (suc n))))))))) = "9"

-- The digits of `n` before `out`. A round divides `n` by ten, so `n + 1` rounds are enough.
unfoldable pub digits : ℕ → ℕ → String → String
digits zero n out = out
digits (suc fuel) n out = elim (ltb n 10) [
  | true ↦ String.◌∷◌ (digit (n % 10)) out
  | false ↦ digits fuel (n / 10) (String.◌∷◌ (digit (n % 10)) out)
]

-- `%d` of a number that is not negative.
unfoldable pub decimal : ℕ → String
unfolding digits
decimal n = digits (suc n) n ""

-- `%d` of an integer.
unfoldable pub int_text : ℤ → String
unfolding decimal
int_text (pos n) = decimal n
int_text (negsuc n) = String.◌∷◌ "-" (decimal (suc n))

abbrev pub zeros : ℕ → String → String
zeros zero s = s
zeros (suc n) s = String.◌∷◌ "0" (zeros n s)

-- `%0*d` of a number that is not negative: zeros in front up to the width.
unfoldable pub pad_number : ℕ → ℕ → String
unfolding decimal
pad_number num width = let s = decimal num in zeros (width - String.count s) s

-- `+` of Go's strings, for a module where `++` is that of lists.
abbrev pub join : String → String → String
join a b = a ++ b
