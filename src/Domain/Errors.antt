-- ===== src/Domain/Errors.antt =====
-- services/darta-chalani/internal/domain/errors.go, and the other error values of the services:
-- those of `fmt.Errorf`, of the database driver, and gRPC statuses.
use e_palika.Prelude.{ℕ, Bool, false, String, Option, none, some, nat_beq}

-- The sentinels, each one `errors.New` value, which `errors.Is` tells apart by identity.
pub data Sentinel : Type 0 where
  not_found already_exists invalid_input unauthorized forbidden conflict internal_server : Sentinel
  darta_not_found invalid_darta_status darta_number_exists duplicate_darta : Sentinel
  chalani_not_found invalid_chalani_status not_fully_approved duplicate_chalani : Sentinel
  attachment_not_found invalid_file_type file_too_large : Sentinel

-- What the database answers to a statement that it refuses. `unavailable` stands for every failure
-- that does not follow from the tables: a lost connection, a timeout, a text that is too long.
pub data DbError : Type 0 where
  no_rows check_violation unique_violation foreign_key_violation : DbError
  out_of_range negative_limit unavailable : DbError

-- google.golang.org/grpc/codes, those that the services return.
pub data Code : Type 0 where
  invalid_argument not_found already_exists permission_denied unauthenticated : Code
  failed_precondition unimplemented internal : Code

pub data Error : Type 0 where
  sentinel : Sentinel → Error
  -- ValidationError{Field, Message}
  validation : String → String → Error
  -- DomainError{Err, Message, Code}
  domain_error : Error → String → String → Error
  -- errors.New
  plain : String → Error
  database : DbError → Error
  -- fmt.Errorf("text: %w", err)
  wrapped : String → Error → Error
  -- status.Error(code, text)
  status : Code → String → Error
  -- status.Errorf(code, "text: %v", err): the text before the cause, and the cause; with no text,
  -- status.Error(code, err.Error())
  statusf : Code → String → Error → Error

abbrev index : Sentinel → ℕ
index Sentinel.not_found = 0
index Sentinel.already_exists = 1
index invalid_input = 2
index unauthorized = 3
index forbidden = 4
index conflict = 5
index internal_server = 6
index darta_not_found = 7
index invalid_darta_status = 8
index darta_number_exists = 9
index duplicate_darta = 10
index chalani_not_found = 11
index invalid_chalani_status = 12
index not_fully_approved = 13
index duplicate_chalani = 14
index attachment_not_found = 15
index invalid_file_type = 16
index file_too_large = 17

abbrev same_sentinel : Sentinel → Sentinel → Bool
same_sentinel s t = nat_beq (index s) (index t)

-- `errors.Is(err, target)`: the error, or one that it wraps.
unfoldable pub is : Error → Sentinel → Bool
is (sentinel s) t = same_sentinel s t
is (wrapped _ e) t = is e t
is (domain_error e _ _) t = is e t
is (validation _ _) t = false
is (plain _) t = false
is (database _) t = false
is (status _ _) t = false
is (statusf _ _ _) t = false

-- `errors.As(err, &valErr)`: the first validation error in the chain.
unfoldable pub as_validation : Error → Option (String × String)
as_validation (validation field message) = some (field, message)
as_validation (wrapped _ e) = as_validation e
as_validation (domain_error e _ _) = as_validation e
as_validation (sentinel _) = none
as_validation (plain _) = none
as_validation (database _) = none
as_validation (status _ _) = none
as_validation (statusf _ _ _) = none
