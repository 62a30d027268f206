-- ===== src/Grpc/Status.antt =====
-- `mapDomainError` of services/darta-chalani/internal/grpc/converters.go.
use e_palika.Prelude.{
  ◌≡◌, refl, ◌∙◌, Bool, true, false, ◌||◌, String, Option, none, some, if◌then◌else◌,
}
use e_palika.Domain.Errors.{
  Error, Sentinel, Code, sentinel, validation, domain_error, plain, database, wrapped, status,
  statusf, darta_not_found, chalani_not_found, invalid_input, invalid_darta_status,
  invalid_chalani_status, duplicate_darta, duplicate_chalani, unauthorized, forbidden, conflict,
  internal_server, darta_number_exists, not_fully_approved, attachment_not_found, invalid_file_type,
  file_too_large, is, as_validation,
}

abbrev validation_or_internal : Option (String × String) → Error → Error
validation_or_internal (some (field, message)) e =
    statusf Code.invalid_argument "" (validation field message)
validation_or_internal none e = statusf Code.internal "internal error" e

unfoldable pub map_domain_error : Error → Error
unfolding is as_validation
map_domain_error e =
    if is e Sentinel.not_found || is e darta_not_found || is e chalani_not_found
    then statusf Code.not_found "" e
    else if is e invalid_input || is e invalid_darta_status || is e invalid_chalani_status
    then statusf Code.invalid_argument "" e
    else if is e Sentinel.already_exists || is e duplicate_darta || is e duplicate_chalani
    then statusf Code.already_exists "" e
    else if is e unauthorized
    then statusf Code.unauthenticated "" e
    else if is e forbidden
    then statusf Code.permission_denied "" e
    else validation_or_internal (as_validation e) e

-- The gRPC code that a client sees.
abbrev pub code_of : Error → Option Code
code_of (status c _) = some c
code_of (statusf c _ _) = some c
code_of (sentinel _) = none
code_of (validation _ _) = none
code_of (domain_error _ _ _) = none
code_of (plain _) = none
code_of (database _) = none
code_of (wrapped _ _) = none

-- What lies under the wrappers of `fmt.Errorf` and DomainError.
unfoldable pub root : Error → Error
root (wrapped _ e) = root e
root (domain_error e _ _) = root e
root (sentinel s) = sentinel s
root (validation f m) = validation f m
root (plain t) = plain t
root (database d) = database d
root (status c t) = status c t
root (statusf c t e) = statusf c t e

-- The code that each root error stands for.
unfoldable pub code_for : Error → Code
code_for (sentinel Sentinel.not_found) = Code.not_found
code_for (sentinel darta_not_found) = Code.not_found
code_for (sentinel chalani_not_found) = Code.not_found
code_for (sentinel invalid_input) = Code.invalid_argument
code_for (sentinel invalid_darta_status) = Code.invalid_argument
code_for (sentinel invalid_chalani_status) = Code.invalid_argument
code_for (sentinel Sentinel.already_exists) = Code.already_exists
code_for (sentinel duplicate_darta) = Code.already_exists
code_for (sentinel duplicate_chalani) = Code.already_exists
code_for (sentinel unauthorized) = Code.unauthenticated
code_for (sentinel forbidden) = Code.permission_denied
code_for (sentinel _) = Code.internal
code_for (validation _ _) = Code.invalid_argument
code_for _ = Code.internal

abbrev code_by : Bool → Bool → Bool → Bool → Bool → Option (String × String) → Option Code
code_by true b c d f v = some Code.not_found
code_by false true c d f v = some Code.invalid_argument
code_by false false true d f v = some Code.already_exists
code_by false false false true f v = some Code.unauthenticated
code_by false false false false true v = some Code.permission_denied
code_by false false false false false (some _) = some Code.invalid_argument
code_by false false false false false none = some Code.internal

code_of-code_by :
    (a b c d f : Bool) (v : Option (String × String)) (e : Error)
    → code_of (
        if a
        then statusf Code.not_found "" e
        else if b
        then statusf Code.invalid_argument "" e
        else if c
        then statusf Code.already_exists "" e
        else if d
        then statusf Code.unauthenticated "" e
        else if f
        then statusf Code.permission_denied "" e
        else validation_or_internal v e)
      ≡ code_by a b c d f v
code_of-code_by true b c d f v e = refl
code_of-code_by false true c d f v e = refl
code_of-code_by false false true d f v e = refl
code_of-code_by false false false true f v e = refl
code_of-code_by false false false false true v e = refl
code_of-code_by false false false false false (some v) e = refl
code_of-code_by false false false false false none e = refl

-- What the tests of `map_domain_error` say of an error.
abbrev tested : Error → Option Code
tested e =
    code_by (is e Sentinel.not_found || is e darta_not_found || is e chalani_not_found)
      (is e invalid_input || is e invalid_darta_status || is e invalid_chalani_status)
      (is e Sentinel.already_exists || is e duplicate_darta || is e duplicate_chalani)
      (is e unauthorized) (is e forbidden) (as_validation e)

tested-code_for : (e : Error) → tested e ≡ some (code_for (root e))
unfolding is as_validation root code_for
tested-code_for (wrapped t e) = tested-code_for e
tested-code_for (domain_error e m c) = tested-code_for e
tested-code_for (sentinel Sentinel.not_found) = refl
tested-code_for (sentinel Sentinel.already_exists) = refl
tested-code_for (sentinel invalid_input) = refl
tested-code_for (sentinel unauthorized) = refl
tested-code_for (sentinel forbidden) = refl
tested-code_for (sentinel conflict) = refl
tested-code_for (sentinel internal_server) = refl
tested-code_for (sentinel darta_not_found) = refl
tested-code_for (sentinel invalid_darta_status) = refl
tested-code_for (sentinel darta_number_exists) = refl
tested-code_for (sentinel duplicate_darta) = refl
tested-code_for (sentinel chalani_not_found) = refl
tested-code_for (sentinel invalid_chalani_status) = refl
tested-code_for (sentinel not_fully_approved) = refl
tested-code_for (sentinel duplicate_chalani) = refl
tested-code_for (sentinel attachment_not_found) = refl
tested-code_for (sentinel invalid_file_type) = refl
tested-code_for (sentinel file_too_large) = refl
tested-code_for (validation f m) = refl
tested-code_for (plain t) = refl
tested-code_for (database d) = refl
tested-code_for (status c t) = refl
tested-code_for (statusf c t e) = refl

-- The code of `map_domain_error e` depends on the root error of `e` alone, through any number of
-- wrappers: a wrapped sentinel or validation error keeps its code, and any other error is internal.
pub code_of-map_domain_error : (e : Error) → code_of (map_domain_error e) ≡ some (code_for (root e))
unfolding map_domain_error
code_of-map_domain_error e =
    code_of-code_by (is e Sentinel.not_found || is e darta_not_found || is e chalani_not_found)
      (is e invalid_input || is e invalid_darta_status || is e invalid_chalani_status)
      (is e Sentinel.already_exists || is e duplicate_darta || is e duplicate_chalani)
      (is e unauthorized) (is e forbidden) (as_validation e) e
    ∙ tested-code_for e
