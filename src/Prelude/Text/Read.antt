-- ===== src/Prelude/Text/Read.antt =====
-- The decimal digits of a number read back.
use Prim.Native.Nat.{ℕ, zero, suc, ◌+◌, ◌-◌, ◌*◌, ◌/◌, ◌%◌, ◌≤◌, ◌<◌}
use Prim.Native.Char.{code}
use Prim.Native.String.{String, ◌++◌}
use Prim.Native.String
use mathlib.Core.Path.{◌≡◌, refl, ap, sym}
use mathlib.Core.Bool.{Bool, true, false}
use native.Mathlib.Omega.{arith}
use e_palika.Prelude.Tests.{ltb, ltb→lt, ltb→ge}
use e_palika.Prelude.Text.{digit, digits, decimal, pad_number, zeros}

-- The number that the characters of a text write in base ten, after the digits of `acc`.
abbrev read : ℕ → String → ℕ
read acc String.[] = acc
read acc (String.◌∷◌ c s) = read (acc * 10 + (code c - 48)) s

digit-code : (k : ℕ) → k < 10 → code (digit k) - 48 ≡ k
digit-code zero h = refl
digit-code (suc zero) h = refl
digit-code (suc (suc zero)) h = refl
digit-code (suc (suc (suc zero))) h = refl
digit-code (suc (suc (suc (suc zero)))) h = refl
digit-code (suc (suc (suc (suc (suc zero))))) h = refl
digit-code (suc (suc (suc (suc (suc (suc zero)))))) h = refl
digit-code (suc (suc (suc (suc (suc (suc (suc zero))))))) h = refl
digit-code (suc (suc (suc (suc (suc (suc (suc (suc zero)))))))) h = refl
digit-code (suc (suc (suc (suc (suc (suc (suc (suc (suc n))))))))) h = omega arith

after_round : (n : ℕ) (out : String) → read (n / 10) (String.◌∷◌ (digit (n % 10)) out) ≡ read n out
after_round n out =
    let e : code (digit (n % 10)) - 48 ≡ n % 10 = digit-code (n % 10) (omega arith) in
    ap (λ k. read k out) (omega (arith, e))

-- The last round and each earlier one read back the same number.
one_round :
    (small : Bool) (fuel n : ℕ) (out : String)
    → (small ≡ true → n < 10)
    → (small ≡ false → read 0 (digits fuel (n / 10) (String.◌∷◌ (digit (n % 10)) out)) ≡ read n out)
    → read 0 (elim small [
      | true ↦ String.◌∷◌ (digit (n % 10)) out
      | false ↦ digits fuel (n / 10) (String.◌∷◌ (digit (n % 10)) out)
    ])
      ≡ read n out
one_round true fuel n out below more =
    let h : n < 10 = below refl in
    let e : code (digit (n % 10)) - 48 ≡ n % 10 = digit-code (n % 10) (omega arith) in
    ap (λ k. read k out) (omega (arith, e, h))
one_round false fuel n out below more = more refl

read-digits : (fuel n : ℕ) (out : String) → n < fuel → read 0 (digits fuel n out) ≡ read n out
unfolding digits
read-digits zero n out h = ground (arith, h)
read-digits (suc fuel) n out h = one_round (ltb n 10) fuel n out (ltb→lt n 10) λ above.
    let large : 10 ≤ n = ltb→ge n 10 above in
    let shorter : n / 10 < fuel = omega (arith, large) in
    rw (read-digits fuel (n / 10) (String.◌∷◌ (digit (n % 10)) out) shorter) (after_round n out)

read-zeros : (n : ℕ) (s : String) → read 0 (zeros n s) ≡ read 0 s
read-zeros zero s = refl
read-zeros (suc n) s = read-zeros n s

read-pad_number : (n width : ℕ) → read 0 (pad_number n width) ≡ n
unfolding pad_number decimal
read-pad_number n width =
    rw (read-zeros (width - String.count (decimal n)) (decimal n))
      (read-digits (suc n) n "" (omega arith))

pub pad_number-cancel : (n m width : ℕ) → pad_number n width ≡ pad_number m width → n ≡ m
pad_number-cancel n m width same =
    rw (sym (read-pad_number n width)) (rw (ap (read 0) same) (read-pad_number m width))
