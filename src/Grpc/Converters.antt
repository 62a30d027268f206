-- ===== src/Grpc/Converters.antt =====
-- services/darta-chalani/internal/grpc/converters.go: between the rows of the store and the messages.
use e_palika.Prelude.{ℕ, zero, suc, String, Option, none, some, ◌==◌, string_eq, if◌then◌else◌}
use e_palika.Prelude.Int.{ℤ, pos, negsuc}
use e_palika.Domain.Errors.{plain}
use e_palika.Store.Types.{Uuid, Time, Timestamptz, Darta}
use e_palika.Store.Exec.{Exec, pure, raise, ◌>>=◌}
use e_palika.Store.Dartas.{DartaRow}
use e_palika.Store.Creation
use e_palika.Proto.Enums.{
  Scope, Priority, IntakeChannel, DartaStatus, ApplicantType, priority_text, applicant_type_text,
}
use e_palika.Proto.Messages.{DartaMessage, ApplicantInput}
use e_palika.Grpc.Packages.{Packages}

unfoldable pub pg_timestamptz_to_proto : Timestamptz → Option Time
pg_timestamptz_to_proto ts = if ts.valid then some ts.time else none

unfoldable pub string_to_scope : String → Scope
string_to_scope s =
    if s == "MUNICIPALITY"
    then Scope.municipality
    else if s == "WARD"
    then Scope.ward
    else Scope.unspecified

unfoldable pub string_to_priority : String → Priority
string_to_priority s =
    if s == "LOW"
    then Priority.low
    else if s == "MEDIUM"
    then Priority.medium
    else if s == "HIGH"
    then Priority.high
    else if s == "URGENT"
    then Priority.urgent
    else Priority.unspecified

unfoldable pub string_to_intake_channel : String → IntakeChannel
string_to_intake_channel s =
    if s == "COUNTER"
    then IntakeChannel.counter
    else if s == "POSTAL"
    then IntakeChannel.postal
    else if s == "EMAIL"
    then IntakeChannel.email
    else if s == "EDARTA_PORTAL"
    then IntakeChannel.edarta_portal
    else if s == "COURIER"
    then IntakeChannel.courier
    else IntakeChannel.unspecified

unfoldable pub string_to_darta_status : String → DartaStatus
string_to_darta_status s =
    if s == "DRAFT"
    then DartaStatus.draft
    else if s == "PENDING_REVIEW"
    then DartaStatus.pending_review
    else if s == "CLASSIFICATION"
    then DartaStatus.classification
    else if s == "NUMBER_RESERVED"
    then DartaStatus.number_reserved
    else if s == "REGISTERED"
    then DartaStatus.registered
    else if s == "VOIDED"
    then DartaStatus.voided
    else if s == "ASSIGNED"
    then DartaStatus.assigned
    else if s == "CLOSED"
    then DartaStatus.closed
    else DartaStatus.unspecified

unfoldable pub string_to_applicant_type : String → ApplicantType
string_to_applicant_type s =
    if s == "CITIZEN"
    then ApplicantType.citizen
    else if s == "ORGANIZATION"
    then ApplicantType.organization
    else if s == "GOVERNMENT_OFFICE"
    then ApplicantType.government_office
    else if s == "OTHER"
    then ApplicantType.other
    else ApplicantType.unspecified

unfoldable pub string_ptr : String → Option String
string_ptr s = if s == "" then none else some s

unfoldable pub int32_ptr : ℤ → Option ℤ
int32_ptr (pos zero) = none
int32_ptr (pos (suc n)) = some (pos (suc n))
int32_ptr (negsuc n) = some (negsuc n)

unfoldable pub proto_to_priority : Priority → Option String
unfolding priority_text
proto_to_priority Priority.unspecified = none
proto_to_priority Priority.low = some (priority_text Priority.low)
proto_to_priority Priority.medium = some (priority_text Priority.medium)
proto_to_priority Priority.high = some (priority_text Priority.high)
proto_to_priority Priority.urgent = some (priority_text Priority.urgent)
proto_to_priority (Priority.unnamed n) = some (priority_text (Priority.unnamed n))

abbrev pub text_or_empty : Option String → String
text_or_empty none = ""
text_or_empty (some s) = s

abbrev pub number_or_zero : Option ℕ → ℕ
number_or_zero none = 0
number_or_zero (some n) = n

module _ (p : Packages) where
  unfoldable pub to_proto_darta : Darta → DartaMessage
  unfolding pg_timestamptz_to_proto string_to_scope string_to_intake_channel string_to_darta_status
      string_to_priority
  to_proto_darta d = record {
    id = p.print_uuid d.id;
    darta_number = number_or_zero d.darta_number;
    formatted_darta_number = text_or_empty d.formatted_darta_number;
    fiscal_year = some d.fiscal_year_id;
    scope = string_to_scope d.scope;
    ward = d.ward_id;
    subject = d.subject;
    applicant = some (record {
      id = p.print_uuid d.applicant_id;
      type = ApplicantType.unspecified;
      full_name = "";
      organization = "";
    });
    intake_channel = string_to_intake_channel d.intake_channel;
    received_date = pg_timestamptz_to_proto d.received_date;
    entry_date = pg_timestamptz_to_proto d.entry_date;
    is_backdated = d.is_backdated;
    backdate_reason = text_or_empty d.backdate_reason;
    backdate_approver = d.backdate_approver_id;
    primary_document = some (p.print_uuid d.primary_document_id);
    status = string_to_darta_status d.status;
    priority = string_to_priority d.priority;
    classification_code = text_or_empty d.classification_code;
    assigned_to = d.assigned_to_unit_id;
    current_assignee = d.current_assignee_id;
    sla_deadline = pg_timestamptz_to_proto d.sla_deadline;
    created_by = some d.created_by;
    created_at = pg_timestamptz_to_proto d.created_at;
    updated_at = pg_timestamptz_to_proto d.updated_at;
    tenant_id = d.tenant_id;
  }

  -- buildDartaFromRow, and its copies for the rows of the lists, which have the same columns.
  unfoldable pub build_darta_from_row : DartaRow → DartaMessage
  unfolding pg_timestamptz_to_proto string_to_scope string_to_intake_channel string_to_darta_status
      string_to_priority string_to_applicant_type
  build_darta_from_row row = record {
    id = p.print_uuid row.darta.id;
    darta_number = number_or_zero row.darta.darta_number;
    formatted_darta_number = text_or_empty row.darta.formatted_darta_number;
    fiscal_year = some row.darta.fiscal_year_id;
    scope = string_to_scope row.darta.scope;
    ward = none;
    subject = row.darta.subject;
    applicant = some (record {
      id = p.print_uuid row.applicant.id;
      type = string_to_applicant_type row.applicant.type;
      full_name = row.applicant.full_name;
      organization = "";
    });
    intake_channel = string_to_intake_channel row.darta.intake_channel;
    received_date = pg_timestamptz_to_proto row.darta.received_date;
    entry_date = pg_timestamptz_to_proto row.darta.entry_date;
    is_backdated = row.darta.is_backdated;
    backdate_reason = "";
    backdate_approver = none;
    primary_document = none;
    status = string_to_darta_status row.darta.status;
    priority = string_to_priority row.darta.priority;
    classification_code = "";
    assigned_to = none;
    current_assignee = none;
    sla_deadline = none;
    created_by = some row.darta.created_by;
    created_at = pg_timestamptz_to_proto row.darta.created_at;
    updated_at = pg_timestamptz_to_proto row.darta.updated_at;
    tenant_id = row.darta.tenant_id;
  }

abbrev pub applicant_params : ApplicantInput → Creation.CreateApplicantParams
applicant_params i = record {
  type = applicant_type_text i.type;
  full_name = i.full_name;
  organization = string_ptr i.organization;
  email = string_ptr i.email;
  phone = string_ptr i.phone;
  address = string_ptr i.address;
  identification_number = string_ptr i.identification_number;
}

unfoldable pub parse_applicant_input : Option ApplicantInput → Exec Uuid
unfolding ◌>>=◌
parse_applicant_input none = raise (plain "applicant input is required")
parse_applicant_input (some i) = do
  applicant ← Creation.create_applicant (applicant_params i)
  pure applicant.id
