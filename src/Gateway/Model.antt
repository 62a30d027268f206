-- ===== src/Gateway/Model.antt =====
-- services/graphql-gateway/graph/model/models_gen.go: the types of the GraphQL schema. An enumeration is
-- a text, and a text that is none of its values is refused where it comes in.
use e_palika.Prelude.{Bool, String, Option, List, [], ◌∷◌, is_one_of, string_eq, if◌then◌else◌}
use Prim.Native.String.{◌++◌}
use e_palika.Prelude.Int.{ℤ}
use e_palika.Domain.Errors.{plain}
use e_palika.Store.Exec.{Result, ok, err}

abbrev pub Scope : Type 0
Scope = String

abbrev pub Priority : Type 0
Priority = String

abbrev pub IntakeChannel : Type 0
IntakeChannel = String

abbrev pub ApplicantType : Type 0
ApplicantType = String

abbrev pub DartaStatus : Type 0
DartaStatus = String

abbrev pub all_scope : List Scope
all_scope = "MUNICIPALITY" ∷ "WARD" ∷ []

abbrev pub all_priority : List Priority
all_priority = "LOW" ∷ "MEDIUM" ∷ "HIGH" ∷ "URGENT" ∷ []

abbrev pub all_intake_channel : List IntakeChannel
all_intake_channel = "COUNTER" ∷ "POSTAL" ∷ "EMAIL" ∷ "EDARTA_PORTAL" ∷ "COURIER" ∷ []

abbrev pub all_applicant_type : List ApplicantType
all_applicant_type = "CITIZEN" ∷ "ORGANIZATION" ∷ "GOVERNMENT_OFFICE" ∷ "OTHER" ∷ []

abbrev pub all_darta_status : List DartaStatus
all_darta_status =
    "DRAFT" ∷ "PENDING_REVIEW" ∷ "CLASSIFICATION" ∷ "NUMBER_RESERVED" ∷ "REGISTERED" ∷ "VOIDED"
    ∷ "SCANNED" ∷ "METADATA_ENRICHED" ∷ "DIGITALLY_ARCHIVED" ∷ "ASSIGNED" ∷ "IN_REVIEW_BY_SECTION"
    ∷ "NEEDS_CLARIFICATION" ∷ "ACCEPTED" ∷ "ACTION_TAKEN" ∷ "RESPONSE_ISSUED" ∷ "ACK_REQUESTED"
    ∷ "ACK_RECEIVED" ∷ "SUPERSEDED" ∷ "CLOSED" ∷ []

-- A value of the request's JSON, as far as the enumerations look at it.
pub data Value : Type 0 where
  text : String → Value
  other : Value

unfoldable pub is_valid_scope : Scope → Bool
is_valid_scope e = is_one_of e all_scope

unfoldable pub is_valid_priority : Priority → Bool
is_valid_priority e = is_one_of e all_priority

unfoldable pub is_valid_intake_channel : IntakeChannel → Bool
is_valid_intake_channel e = is_one_of e all_intake_channel

unfoldable pub is_valid_applicant_type : ApplicantType → Bool
is_valid_applicant_type e = is_one_of e all_applicant_type

unfoldable pub is_valid_darta_status : DartaStatus → Bool
is_valid_darta_status e = is_one_of e all_darta_status

abbrev enum_of : (String → Bool) → String → Value → Result String
enum_of is_valid name other = err (plain "enums must be strings")
enum_of is_valid name (text s) =
    if is_valid s then ok s else err (plain (s ++ (" is not a valid " ++ name)))

unfoldable pub unmarshal_scope : Value → Result Scope
unfolding is_valid_scope
unmarshal_scope = enum_of is_valid_scope "Scope"

unfoldable pub unmarshal_priority : Value → Result Priority
unfolding is_valid_priority
unmarshal_priority = enum_of is_valid_priority "Priority"

unfoldable pub unmarshal_intake_channel : Value → Result IntakeChannel
unfolding is_valid_intake_channel
unmarshal_intake_channel = enum_of is_valid_intake_channel "IntakeChannel"

unfoldable pub unmarshal_applicant_type : Value → Result ApplicantType
unfolding is_valid_applicant_type
unmarshal_applicant_type = enum_of is_valid_applicant_type "ApplicantType"

unfoldable pub unmarshal_darta_status : Value → Result DartaStatus
unfolding is_valid_darta_status
unmarshal_darta_status = enum_of is_valid_darta_status "DartaStatus"

-- The objects and inputs, where a pointer that may be nil is an `Option`. The schema makes the pointers
-- to the applicant of an input and to a connection's page non-nil.
pub record ApplicantInput : Type 0 where
  pub type : ApplicantType
  pub full_name : String
  pub organization : Option String
  pub email : Option String
  pub phone : Option String
  pub address : Option String
  pub identification_number : Option String

pub record Applicant : Type 0 where
  pub id : String
  pub type : ApplicantType
  pub full_name : String
  pub organization : Option String
  pub email : Option String
  pub phone : Option String
  pub address : Option String

pub record ChannelCount : Type 0 where
  pub channel : IntakeChannel
  pub count : ℤ

pub record CreateDartaInput : Type 0 where
  pub fiscal_year_id : String
  pub scope : Scope
  pub ward_id : Option String
  pub subject : String
  pub applicant : ApplicantInput
  pub intake_channel : IntakeChannel
  pub received_date : String
  pub primary_document_id : String
  pub annex_ids : Option (List String)
  pub priority : Priority
  pub idempotency_key : String

pub record Darta : Type 0 where
  pub id : String
  pub darta_number : Option ℤ
  pub formatted_darta_number : Option String
  pub fiscal_year_id : String
  pub scope : Scope
  pub ward_id : Option String
  pub subject : String
  pub applicant : Option Applicant
  pub intake_channel : IntakeChannel
  pub received_date : String
  pub entry_date : String
  pub status : DartaStatus
  pub priority : Priority
  pub created_by : String
  pub created_at : String
  pub updated_at : String
  pub tenant_id : String

pub record DartaEdge : Type 0 where
  pub cursor : String
  pub node : Option Darta

pub record PageInfo : Type 0 where
  pub has_next_page : Bool
  pub has_previous_page : Bool
  pub total_count : ℤ

pub record DartaConnection : Type 0 where
  pub edges : List DartaEdge
  pub page_info : PageInfo

pub record DartaFilterInput : Type 0 where
  pub fiscal_year_id : Option String
  pub scope : Option Scope
  pub ward_id : Option String
  pub status : Option DartaStatus
  pub priority : Option Priority
  pub organizational_unit_id : Option String
  pub assignee_id : Option String
  pub intake_channel : Option IntakeChannel
  pub from_date : Option String
  pub to_date : Option String
  pub search : Option String
  pub is_overdue : Option Bool

pub record DartaStatusCount : Type 0 where
  pub status : DartaStatus
  pub count : ℤ

pub record DartaStats : Type 0 where
  pub total : ℤ
  pub by_status : List DartaStatusCount
  pub by_channel : List ChannelCount
  pub overdue_count : ℤ

pub record HealthStatus : Type 0 where
  pub status : String
  pub service : String
  pub timestamp : String

pub record PaginationInput : Type 0 where
  pub limit : Option ℤ
  pub offset : Option ℤ
  pub after : Option String
  pub before : Option String
  pub sort_by : Option String
  pub sort_desc : Option Bool

pub record RouteDartaInput : Type 0 where
  pub darta_id : String
  pub organizational_unit_id : Option String
  pub assignee_id : Option String
  pub priority : Option Priority
  pub sla_hours : Option ℤ
  pub notes : Option String
