-- ===== src/Tests/Numbers.antt =====
-- The theorems on formatted numbers at concrete inputs.
use e_palika.Prelude.{◌≡◌, ◌≢◌, refl, some, arith}
use e_palika.Darta.Number.{format_darta_number, format_chalani_number}
use e_palika.Darta.Number.Readable.{format_darta_number-ne}

darta_text : format_darta_number "2081-82" "WARD" (some "5") 42 ≡ "2081-82/W5/D-00042"
unfolding format_darta_number
darta_text = refl

chalani_text : format_chalani_number "2081-82" "WARD" "" 123456 ≡ "2081-82/MUN/C-123456"
unfolding format_chalani_number
chalani_text = refl

format_darta_number-ne_example :
    format_darta_number "2081-82" "WARD" (some "5") 99999
    ≢ format_darta_number "2081-82" "WARD" (some "5") 100000
format_darta_number-ne_example =
    format_darta_number-ne "2081-82" "WARD" (some "5") 99999 100000 (λ e. omega (arith, e))
