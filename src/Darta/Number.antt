-- ===== src/Darta/Number.antt =====
-- `formatDartaNumber` of services/darta-chalani/internal/domain/darta_service.go, `padNumber` of
-- internal/grpc/converters.go and `formatChalaniNumber` of internal/grpc/chalani_server.go.
pub mod Readable
use Prim.Native.String.{◌++◌}
use e_palika.Prelude.{ℕ, String, Option, none, some, ◌&&◌, not, ◌==◌, string_eq, if◌then◌else◌}
use e_palika.Prelude.Text.{pad_number}

abbrev ward_part : Option String → String
ward_part none = ""
ward_part (some ward) = "W" ++ ward

abbrev scope_part : String → Option String → String
scope_part scope ward = if scope == "MUNICIPALITY" then "MUN" else ward_part ward

unfoldable pub format_darta_number : String → String → Option String → ℕ → String
unfolding pad_number
format_darta_number fiscal_year scope ward number =
    (fiscal_year ++ "/" ++ scope_part scope ward ++ "/D-") ++ pad_number number 5

unfoldable pub format_chalani_number : String → String → String → ℕ → String
unfolding pad_number
format_chalani_number fiscal_year scope ward number =
    if scope == "WARD" && not (ward == "")
    then (fiscal_year ++ "/" ++ ward ++ "/" ++ "C" ++ "-") ++ pad_number number 5
    else (fiscal_year ++ "/MUN/" ++ "C" ++ "-") ++ pad_number number 5
