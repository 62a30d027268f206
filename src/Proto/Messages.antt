-- ===== src/Proto/Messages.antt =====
-- proto/gen/darta/v1: the messages of the darta and chalani services, with the fields that the servers
-- set or read. A nested message of which only the Id is set stands for itself by that Id.
use e_palika.Prelude.{ℕ, Bool, String, Option, List}
use e_palika.Prelude.Int.{ℤ}
use e_palika.Store.Types.{Time}
use e_palika.Proto.Enums.{
  Scope, Priority, IntakeChannel, DartaStatus, ApplicantType, DartaReviewDecision, ChalaniStatus,
  DispatchChannel, RecipientType,
}

pub record ApplicantMessage : Type 0 where
  pub id : String
  pub type : ApplicantType
  pub full_name : String
  pub organization : String

pub record DartaMessage : Type 0 where
  pub id : String
  pub darta_number : ℕ
  pub formatted_darta_number : String
  pub fiscal_year : Option String
  pub scope : Scope
  pub ward : Option String
  pub subject : String
  pub applicant : Option ApplicantMessage
  pub intake_channel : IntakeChannel
  pub received_date : Option Time
  pub entry_date : Option Time
  pub is_backdated : Bool
  pub backdate_reason : String
  pub backdate_approver : Option String
  pub primary_document : Option String
  pub status : DartaStatus
  pub priority : Priority
  pub classification_code : String
  pub assigned_to : Option String
  pub current_assignee : Option String
  pub sla_deadline : Option Time
  pub created_by : Option String
  pub created_at : Option Time
  pub updated_at : Option Time
  pub tenant_id : String

pub record ApplicantInput : Type 0 where
  pub type : ApplicantType
  pub full_name : String
  pub organization : String
  pub email : String
  pub phone : String
  pub address : String
  pub identification_number : String

pub record CreateDartaInput : Type 0 where
  pub scope : Scope
  pub ward_id : String
  pub subject : String
  pub applicant : Option ApplicantInput
  pub intake_channel : IntakeChannel
  pub received_date : Option Time
  pub primary_document_id : String
  pub annex_ids : List String
  pub priority : Priority
  pub idempotency_key : String
  pub tenant_id : String

pub record RouteDartaInput : Type 0 where
  pub darta_id : String
  pub organizational_unit_id : String
  pub assignee_id : String
  pub priority : Priority
  pub sla_hours : ℤ
  pub notes : String

pub record ReviewDartaInput : Type 0 where
  pub darta_id : String
  pub decision : DartaReviewDecision

pub record PaginationInput : Type 0 where
  pub limit : ℤ
  pub offset : ℤ

pub record PageInfo : Type 0 where
  pub has_next_page : Bool
  pub has_previous_page : Bool
  pub total_count : ℕ

pub record Edge (N : Type 0) : Type 0 where
  pub cursor : String
  pub node : N

pub record Connection (N : Type 0) : Type 0 where
  pub edges : List (Edge N)
  pub page_info : PageInfo

pub record ChalaniMessage : Type 0 where
  pub id : String
  pub chalani_number : ℕ
  pub formatted_chalani_number : String
  pub fiscal_year : Option String
  pub scope : Scope
  pub ward : Option String
  pub subject : String
  pub body : String
  pub status : ChalaniStatus
  pub dispatch_channel : DispatchChannel
  pub dispatched_at : Option Time
  pub delivered_at : Option Time
  pub created_at : Option Time
  pub updated_at : Option Time

pub record RecipientInput : Type 0 where
  pub type : RecipientType
  pub name : String
  pub organization : String
  pub email : String
  pub phone : String
  pub address : String

pub record CreateChalaniInput : Type 0 where
  pub scope : Scope
  pub ward_id : String
  pub subject : String
  pub body : String
  pub template_id : String
  pub linked_darta_id : String
  pub recipient : Option RecipientInput
  pub idempotency_key : String
  pub tenant_id : String

-- ChalaniFilterInput, the fields that the server reads.
pub record ChalaniFilter : Type 0 where
  pub fiscal_year_id : String
  pub scope : Scope
  pub ward_id : String
  pub status : ChalaniStatus
  pub dispatch_channel : DispatchChannel

pub record HealthMessage : Type 0 where
  pub status : String
  pub service : String
  pub timestamp : Time
