-- ===== src/Grpc/Packages.antt =====
-- What the servers take from packages and from the database engine: the text forms of a UUID and of
-- an instant, the JSON of a protobuf Struct, and the engine's text comparisons.
use e_palika.Prelude.{◌≡◌, Bool, String, Option, some}
use e_palika.Store.Types.{Uuid, Time, Json}
use e_palika.Store.Exec.{Result}

pub record Packages : Type 0 where
  -- uuid.Parse and (uuid.UUID).String
  pub parse_uuid : String → Option Uuid
  pub print_uuid : Uuid → String
  -- the text of the error of uuid.Parse
  pub uuid_error : String → String
  pub parse-print : (id : Uuid) → parse_uuid (print_uuid id) ≡ some id
  -- (time.Time).MarshalJSON, between its quotes
  pub print_time : Time → String
  -- (*structpb.Struct).MarshalJSON, which may refuse a value
  pub marshal_struct : Option Json → Result Json
  -- `text ILIKE '%' || search || '%'`
  pub ilike : String → String → Bool
  -- `a >= b` on texts, in the collation of the database
  pub text_ge : String → String → Bool
