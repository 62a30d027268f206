-- ===== src/Prelude/Text/Digits.antt =====
-- The text of an integer starts with a digit or a sign.
use Prim.Native.Nat.{ℕ, zero, suc, ◌/◌, ◌%◌, ◌≤◌}
use Prim.Native.Char.{code}
use Prim.Native.String.{String}
use mathlib.Core.Path.{◌≡◌, refl, ap}
use mathlib.Core.Logic.{inl, inr}
use mathlib.Core.Bool.{Bool, true, false}
use mathlib.Core.List.{List, [], ◌∷◌}
use native.Mathlib.Omega.{arith}
use text.Mathlib.TextEquality.{eq_iff}
use e_palika.Prelude.Tests.{◌==◌, ltb, nat_eq, string_eq, Bool-cases}
use e_palika.Prelude.Int.{ℤ, pos, negsuc}
use e_palika.Prelude.Lists.{is_one_of, All}
use e_palika.Prelude.Text.{digit, digits, decimal, int_text}

-- The code of the first character, 0 for the empty text.
abbrev pub head_code : String → ℕ
head_code String.[] = 0
head_code (String.◌∷◌ c s) = code c

-- The first character is a digit or a sign.
abbrev IsNumeral : String → Type 0
IsNumeral s = (45 ≤ head_code s) × (head_code s ≤ 57)

digit-code : (k : ℕ) → (45 ≤ code (digit k)) × (code (digit k) ≤ 57)
digit-code zero = (omega arith, omega arith)
digit-code (suc zero) = (omega arith, omega arith)
digit-code (suc (suc zero)) = (omega arith, omega arith)
digit-code (suc (suc (suc zero))) = (omega arith, omega arith)
digit-code (suc (suc (suc (suc zero)))) = (omega arith, omega arith)
digit-code (suc (suc (suc (suc (suc zero))))) = (omega arith, omega arith)
digit-code (suc (suc (suc (suc (suc (suc zero)))))) = (omega arith, omega arith)
digit-code (suc (suc (suc (suc (suc (suc (suc zero))))))) = (omega arith, omega arith)
digit-code (suc (suc (suc (suc (suc (suc (suc (suc zero)))))))) = (omega arith, omega arith)
digit-code (suc (suc (suc (suc (suc (suc (suc (suc (suc n))))))))) = (omega arith, omega arith)

one_round :
    (b : Bool) (s t : String)
    → IsNumeral s
    → IsNumeral t
    → IsNumeral (elim b [ true ↦ s | false ↦ t ])
one_round true s t h k = h
one_round false s t h k = k

digits-IsNumeral :
    (fuel n k : ℕ) (out : String) → IsNumeral (digits fuel n (String.◌∷◌ (digit k) out))
unfolding digits
digits-IsNumeral zero n k out = digit-code k
digits-IsNumeral (suc fuel) n k out =
    one_round (ltb n 10) _ _ (digit-code (n % 10))
      (digits-IsNumeral fuel (n / 10) (n % 10) (String.◌∷◌ (digit k) out))

decimal-IsNumeral : (n : ℕ) → IsNumeral (decimal n)
unfolding decimal digits
decimal-IsNumeral n =
    one_round (ltb n 10) _ _ (digit-code (n % 10)) (digits-IsNumeral n (n / 10) (n % 10) "")

int_text-IsNumeral : (n : ℤ) → IsNumeral (int_text n)
unfolding int_text
int_text-IsNumeral (pos n) = decimal-IsNumeral n
int_text-IsNumeral (negsuc n) = (omega arith, omega arith)

pub int_text-given : (n : ℤ) → (int_text n == "") ≡ false
int_text-given n = elim (Bool-cases (int_text n == "")) [
  | inl empty ↦
      let e : head_code (int_text n) ≡ 0 = ap head_code ((eq_iff (int_text n) "").0 empty) in
      ground (arith, e, (int_text-IsNumeral n).0)
  | inr given ↦ given
]

-- A text that starts with a digit or a sign is in no list of texts that start with a letter.
not_listed :
    (l : List String) (s : String)
    → All (λ x. 58 ≤ head_code x) l
    → head_code s ≤ 57
    → is_one_of s l ≡ false
not_listed [] s a h = refl
not_listed (x ∷ l) s (b, a) h = elim (Bool-cases (x == s)) [
  | inl same ↦
      let e : head_code x ≡ head_code s = ap head_code ((eq_iff x s).0 same) in ground (arith, e)
  | inr other ↦ rw other (not_listed l s a h)
]

pub int_text-unlisted :
    (l : List String) → All (λ x. 58 ≤ head_code x) l → (n : ℤ) → is_one_of (int_text n) l ≡ false
int_text-unlisted l a n = not_listed l (int_text n) a (int_text-IsNumeral n).1
