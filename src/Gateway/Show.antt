-- ===== src/Gateway/Show.antt =====
-- services/graphql-gateway/graph/schema.resolvers.go: the conversions of the resolvers.
use e_palika.Prelude.{
  ℕ, zero, suc, String, Option, none, some, List, [], ◌==◌, string_eq, if◌then◌else◌,
}
use e_palika.Prelude.Int.{ℤ, pos, to_int32}
use e_palika.Store.Types.{Time}
use e_palika.Store.Exec.{Exec, gets, pure, raise}
use e_palika.Domain.Errors.{Error, plain}
use e_palika.Proto.Enums.{Scope, IntakeChannel, DartaStatus, Priority}
use e_palika.Proto.Messages.{ApplicantMessage, DartaMessage, PaginationInput}
use e_palika.Grpc.Darta.Lists.{DartaFilter}
use e_palika.Gateway.Model
use e_palika.Gateway.Converters.{
  scope_ptr_to_proto, priority_ptr_to_proto, intake_channel_ptr_to_proto, darta_status_ptr_to_proto,
  proto_to_scope, proto_to_priority, proto_to_intake_channel, proto_to_applicant_type,
  proto_to_darta_status,
}

unfoldable pub string_ptr_value : Option String → String
string_ptr_value none = ""
string_ptr_value (some s) = s

unfoldable pub string_slice_value : Option (List String) → List String
string_slice_value none = []
string_slice_value (some l) = l

unfoldable pub int32_ptr_value : Option ℤ → ℤ
unfolding to_int32
int32_ptr_value none = pos 0
int32_ptr_value (some i) = to_int32 i

-- It reads no text, and answers with `timestamppb.Now()`.
unfoldable pub parse_timestamp : String → Exec (Option Time)
parse_timestamp s = gets (λ db. some db.now)

unfoldable pub build_darta_filter : Option Model.DartaFilterInput → DartaFilter
unfolding string_ptr_value scope_ptr_to_proto priority_ptr_to_proto intake_channel_ptr_to_proto
    darta_status_ptr_to_proto
build_darta_filter none = record {
  fiscal_year_id = "";
  scope = Scope.unspecified;
  ward_id = "";
  status = DartaStatus.unspecified;
  priority = Priority.unspecified;
  intake_channel = IntakeChannel.unspecified;
  organizational_unit_id = "";
  assignee_id = "";
  search = "";
}
build_darta_filter (some f) = record {
  fiscal_year_id = string_ptr_value f.fiscal_year_id;
  scope = scope_ptr_to_proto f.scope;
  ward_id = string_ptr_value f.ward_id;
  status = darta_status_ptr_to_proto f.status;
  priority = priority_ptr_to_proto f.priority;
  intake_channel = intake_channel_ptr_to_proto f.intake_channel;
  organizational_unit_id = string_ptr_value f.organizational_unit_id;
  assignee_id = string_ptr_value f.assignee_id;
  search = string_ptr_value f.search;
}

unfoldable pub build_pagination : Option Model.PaginationInput → PaginationInput
unfolding int32_ptr_value
build_pagination none = record { limit = pos 10; offset = pos 0 }
build_pagination (some g) = record {
  limit = int32_ptr_value g.limit;
  offset = int32_ptr_value g.offset;
}

abbrev text_or_nil : String → Option String
text_or_nil s = if s == "" then none else some s

abbrev pub positive_or_nil : ℕ → Option ℤ
positive_or_nil zero = none
positive_or_nil (suc n) = some (pos (suc n))

-- A missing timestamp is read as the start of 1970.
abbrev pub as_time : Option Time → Time
as_time none = pos 0
as_time (some t) = t

abbrev show_applicant : Option ApplicantMessage → Option Model.Applicant
show_applicant none = none
show_applicant (some a) = some (record {
  id = a.id;
  type = proto_to_applicant_type a.type;
  full_name = a.full_name;
  organization = text_or_nil a.organization;
  email = none;
  phone = none;
  address = none;
})

-- The panic on a nil pointer, which the GraphQL server answers with an error.
abbrev pub nil_dereference : Error
nil_dereference = plain "internal system error"

-- `time.Time.Format` with the layout of the resolvers.
module _ (format : Time → String) where
  abbrev pub shown : DartaMessage → String → String → Model.Darta
  shown d fiscal_year created_by = record {
    id = d.id;
    darta_number = positive_or_nil d.darta_number;
    formatted_darta_number = text_or_nil d.formatted_darta_number;
    fiscal_year_id = fiscal_year;
    scope = proto_to_scope d.scope;
    ward_id = d.ward;
    subject = d.subject;
    applicant = show_applicant d.applicant;
    intake_channel = proto_to_intake_channel d.intake_channel;
    received_date = format (as_time d.received_date);
    entry_date = format (as_time d.entry_date);
    status = proto_to_darta_status d.status;
    priority = proto_to_priority d.priority;
    created_by = created_by;
    created_at = format (as_time d.created_at);
    updated_at = format (as_time d.updated_at);
    tenant_id = d.tenant_id;
  }

  -- `d.FiscalYear.Id` and `d.CreatedBy.Id`, each through a pointer.
  abbrev dereferenced : DartaMessage → Option String → Option String → Exec (Option Model.Darta)
  dereferenced d (some fiscal_year) (some created_by) = pure (some (shown d fiscal_year created_by))
  dereferenced d (some fiscal_year) none = raise nil_dereference
  dereferenced d none created_by = raise nil_dereference

  unfoldable pub proto_to_darta : Option DartaMessage → Exec (Option Model.Darta)
  unfolding proto_to_scope proto_to_priority proto_to_intake_channel proto_to_applicant_type
      proto_to_darta_status
  proto_to_darta none = pure none
  proto_to_darta (some d) = dereferenced d d.fiscal_year d.created_by
