-- ===== src/Store/Types.antt =====
-- services/darta-chalani/internal/db/models.go: one record for each table that the servers use.
-- A nullable column is an `Option`, and so is a pgtype.UUID; a pgtype.Timestamptz keeps its `Valid` flag.
use e_palika.Prelude.{ℕ, Bool, true, false, String, Option, List}
use e_palika.Prelude.Int.{ℤ, pos}

-- A uuid.UUID by its 128-bit value; `uuid.Nil` is 0.
abbrev pub Uuid : Type 0
Uuid = ℕ

abbrev pub uuid_nil : Uuid
uuid_nil = 0

-- An instant in nanoseconds since 1970.
abbrev pub Time : Type 0
Time = ℤ

pub record Timestamptz : Type 0 where
  pub time : Time
  pub valid : Bool

-- The values that the services marshal to JSON.
mutual
  pub data Json : Type 0 where
    null : Json
    bool : Bool → Json
    number : ℤ → Json
    string : String → Json
    object : Members → Json

  pub data Members : Type 0 where
    none : Members
    member : String → Json → Members → Members

pub record Applicant : Type 0 where
  pub id : Uuid
  pub type : String
  pub full_name : String
  pub organization : Option String
  pub email : Option String
  pub phone : Option String
  pub address : Option String
  pub identification_number : Option String
  pub created_at : Timestamptz
  pub updated_at : Timestamptz

pub record Attachment : Type 0 where
  pub id : Uuid
  pub filename : String
  pub original_filename : String
  pub mime_type : String
  pub size_bytes : ℤ
  pub storage_path : String
  pub checksum : String
  pub uploaded_by : String
  pub uploaded_at : Timestamptz
  pub metadata : Option Json
  pub tenant_id : String
  pub created_at : Timestamptz

pub record AuditTrail : Type 0 where
  pub id : Uuid
  pub entity_type : String
  pub entity_id : Option Uuid
  pub action : String
  pub performed_by : String
  pub performed_at : Timestamptz
  pub changes : Option Json
  pub ip_address : Option String
  pub user_agent : Option String
  pub notes : Option String
  pub tenant_id : String

pub record ChalaniApproval : Type 0 where
  pub id : Uuid
  pub chalani_id : Option Uuid
  pub signatory_id : Option Uuid
  pub decision : String
  pub notes : Option String
  pub approved_at : Timestamptz

pub record ChalaniAttachment : Type 0 where
  pub chalani_id : Option Uuid
  pub attachment_id : Option Uuid
  pub added_at : Timestamptz

pub record ChalaniSignatory : Type 0 where
  pub id : Uuid
  pub chalani_id : Option Uuid
  pub user_id : String
  pub role_id : String
  pub order_num : ℤ
  pub is_required : Bool
  pub created_at : Timestamptz

pub record ChalaniTemplate : Type 0 where
  pub id : Uuid
  pub name : String
  pub category : String
  pub subject : String
  pub body : String
  pub required_signatory_role_ids : List String
  pub is_active : Bool
  pub created_at : Timestamptz
  pub updated_at : Timestamptz

pub record Chalani : Type 0 where
  pub id : Uuid
  pub chalani_number : Option ℕ
  pub formatted_chalani_number : Option String
  pub fiscal_year_id : String
  pub scope : String
  pub ward_id : Option String
  pub subject : String
  pub body : String
  pub template_id : Option String
  pub linked_darta_id : Option Uuid
  pub recipient_id : Uuid
  pub status : String
  pub is_fully_approved : Bool
  pub dispatch_channel : Option String
  pub dispatched_at : Timestamptz
  pub dispatched_by : Option String
  pub tracking_id : Option String
  pub courier_name : Option String
  pub is_acknowledged : Bool
  pub acknowledged_at : Timestamptz
  pub acknowledged_by : Option String
  pub acknowledgement_proof_id : Option Uuid
  pub delivered_at : Timestamptz
  pub delivered_proof_id : Option Uuid
  pub superseded_by_id : Option Uuid
  pub supersedes_id : Option Uuid
  pub created_by : String
  pub created_at : Timestamptz
  pub updated_at : Timestamptz
  pub tenant_id : String
  pub idempotency_key : Option String
  pub metadata : Option Json

pub record Darta : Type 0 where
  pub id : Uuid
  pub darta_number : Option ℕ
  pub formatted_darta_number : Option String
  pub fiscal_year_id : String
  pub scope : String
  pub ward_id : Option String
  pub subject : String
  pub applicant_id : Uuid
  pub intake_channel : String
  pub received_date : Timestamptz
  pub entry_date : Timestamptz
  pub is_backdated : Bool
  pub backdate_reason : Option String
  pub backdate_approver_id : Option String
  pub primary_document_id : Uuid
  pub status : String
  pub priority : String
  pub classification_code : Option String
  pub assigned_to_unit_id : Option String
  pub current_assignee_id : Option String
  pub sla_deadline : Timestamptz
  pub is_overdue : Option Bool
  pub created_by : String
  pub created_at : Timestamptz
  pub updated_at : Timestamptz
  pub tenant_id : String
  pub idempotency_key : Option String
  pub metadata : Option Json

pub record DartaAnnex : Type 0 where
  pub darta_id : Option Uuid
  pub attachment_id : Option Uuid
  pub added_at : Timestamptz

pub record DartaRelationship : Type 0 where
  pub darta_id : Option Uuid
  pub related_darta_id : Option Uuid
  pub relationship_type : String
  pub created_at : Timestamptz

pub record Recipient : Type 0 where
  pub id : Uuid
  pub type : String
  pub name : String
  pub organization : Option String
  pub email : Option String
  pub phone : Option String
  pub address : String
  pub created_at : Timestamptz
  pub updated_at : Timestamptz

abbrev pub null_time : Timestamptz
null_time = record { time = pos 0; valid = false }

abbrev pub at_time : Time → Timestamptz
at_time t = record { time = t; valid = true }
