-- ===== src/Darta/Number/Readable.antt =====
-- The formatted numbers of `formatDartaNumber` and `formatChalaniNumber` tell the numbers of one
-- series apart.
use text.Mathlib.TextLemmas.{append_cancel_left}
use Prim.Native.String.{◌++◌}
use e_palika.Prelude.{ℕ, String, Option, ◌≡◌, ◌≢◌, Bool, true, false, if◌then◌else◌}
use e_palika.Prelude.Text.{pad_number}
use e_palika.Prelude.Text.Read.{pad_number-cancel}
use e_palika.Darta.Number.{format_darta_number, format_chalani_number}

padded-cancel :
    (before : String) (n m : ℕ) → before ++ pad_number n 5 ≡ before ++ pad_number m 5 → n ≡ m
padded-cancel before n m same = pad_number-cancel n m 5 (append_cancel_left before _ _ same)

-- Within one fiscal year, scope and ward, dartas with different numbers have different formatted
-- numbers.
pub format_darta_number-ne :
    (fiscal_year scope : String) (ward : Option String) (n m : ℕ)
    → n ≢ m
    → format_darta_number fiscal_year scope ward n ≢ format_darta_number fiscal_year scope ward m
unfolding format_darta_number
format_darta_number-ne fiscal_year scope ward n m apart same = apart (padded-cancel _ n m same)

branch-cancel :
    (b : Bool) (before other : String) (n m : ℕ)
    → (if b then before ++ pad_number n 5 else other ++ pad_number n 5)
      ≡ (if b then before ++ pad_number m 5 else other ++ pad_number m 5)
    → n ≡ m
branch-cancel true before other n m same = padded-cancel before n m same
branch-cancel false before other n m same = padded-cancel other n m same

-- Within one fiscal year, scope and ward, chalanis with different numbers have different formatted
-- numbers.
pub format_chalani_number-ne :
    (fiscal_year scope ward : String) (n m : ℕ)
    → n ≢ m
    → format_chalani_number fiscal_year scope ward n
      ≢ format_chalani_number fiscal_year scope ward m
unfolding format_chalani_number
format_chalani_number-ne fiscal_year scope ward n m apart same =
    apart (branch-cancel _ _ _ n m same)
