-- ===== src/Grpc/Darta.antt =====
-- services/darta-chalani/internal/grpc/darta_server.go: the handlers of the darta service, each with
-- the fields of its request as arguments.
pub mod Records
pub mod Requests
pub mod Steady
pub mod History
pub mod Refusals
pub mod Lists
pub mod EmptyLists
pub mod Complete
use e_palika.Prelude.{Bool, true, false, String, Option, none, some, List, [], ◌∷◌}
use e_palika.Prelude.Int.{ℤ, pos}
use e_palika.Domain.Context.{Ctx}
use e_palika.Domain.Errors.{Error, Code, plain, status, statusf}
use e_palika.Store.Types.{Uuid, Time, Darta}
use e_palika.Store.Exec.{Exec, pure, raise, ◌>>=◌, ◌>>◌, on_error, ignore}
use e_palika.Store.Dartas
use e_palika.Darta.Service
use e_palika.Darta.Service.Assignment
use e_palika.Proto.Enums.{scope_text, intake_channel_text, priority_text}
use e_palika.Proto.Messages.{DartaMessage, CreateDartaInput, RouteDartaInput}
use e_palika.Grpc.Packages.{Packages}
use e_palika.Grpc.Status.{map_domain_error}
use e_palika.Grpc.Converters.{
  string_ptr, int32_ptr, proto_to_priority, to_proto_darta, build_darta_from_row,
  parse_applicant_input,
}

abbrev pub missing_input : Error
missing_input = status Code.invalid_argument "input is required"

abbrev pub require : {A : Type 0} → Option A → Error → Exec A
require none e = raise e
require (some a) e = pure a

-- `(*timestamppb.Timestamp).AsTime`, which reads a missing one as the start of 1970.
abbrev as_time : Option Time → Time
as_time none = pos 0
as_time (some t) = t

module _ (p : Packages) where
  abbrev pub parse_id : String → Error → Exec Uuid
  parse_id text e = require (p.parse_uuid text) e

  abbrev pub parse_darta_id : String → Exec Uuid
  parse_darta_id text = parse_id text (status Code.invalid_argument "invalid darta ID")

  unfoldable pub parse_annex_ids : List String → Exec (List Uuid)
  unfolding ◌>>=◌
  parse_annex_ids [] = pure []
  parse_annex_ids (text ∷ texts) = do
    id ← parse_id text (statusf Code.invalid_argument "invalid annex ID" (plain text))
    ids ← parse_annex_ids texts
    pure (id ∷ ids)

  abbrev darta_input : CreateDartaInput → Uuid → Uuid → List Uuid → Service.CreateDartaInput
  darta_input i applicant document annexes = record {
    fiscal_year_id = scope_text i.scope;
    scope = scope_text i.scope;
    ward_id = string_ptr i.ward_id;
    subject = i.subject;
    applicant_id = applicant;
    intake_channel = intake_channel_text i.intake_channel;
    received_date = as_time i.received_date;
    primary_document_id = document;
    annex_ids = annexes;
    priority = priority_text i.priority;
    is_backdated = false;
    backdate_reason = none;
    backdate_approver_id = none;
    idempotency_key = i.idempotency_key;
    metadata = none;
  }

  unfoldable pub create_darta : Ctx → Option CreateDartaInput → Exec DartaMessage
  unfolding ◌>>=◌ on_error
  create_darta ctx none = raise missing_input
  create_darta ctx (some i) = do
    applicant ←
        on_error (statusf Code.invalid_argument "invalid applicant")
          (parse_applicant_input i.applicant)
    document ←
        parse_id i.primary_document_id (status Code.invalid_argument "invalid primary document ID")
    annexes ← parse_annex_ids i.annex_ids
    darta ←
        on_error map_domain_error
          (Service.create_darta ctx (darta_input i applicant document annexes))
    pure (to_proto_darta p darta)

  unfoldable pub get_darta : Ctx → String → Exec DartaMessage
  unfolding ◌>>=◌ on_error
  get_darta ctx text = do
    id ← parse_darta_id text
    row ← on_error map_domain_error (Service.get_darta id)
    pure (build_darta_from_row p row)

  unfoldable pub submit_darta_for_review : Ctx → String → Exec DartaMessage
  unfolding ◌>>=◌ on_error
  submit_darta_for_review ctx text = do
    id ← parse_darta_id text
    darta ← on_error map_domain_error (Service.update_darta_status ctx id "PENDING_REVIEW")
    pure (to_proto_darta p darta)

  unfoldable pub classify_darta : Ctx → String → String → Exec DartaMessage
  unfolding ◌>>=◌ on_error ignore
  classify_darta ctx text code = do
    id ← parse_darta_id text
    darta ←
        on_error (statusf Code.internal "failed to classify darta")
          (Dartas.update_darta_classification id (some code))
    ignore (Service.update_darta_status ctx id "CLASSIFICATION")
    pure (to_proto_darta p darta)

  unfoldable pub reserve_darta_number : Ctx → String → Exec DartaMessage
  unfolding ◌>>=◌ on_error
  reserve_darta_number ctx text = do
    id ← parse_darta_id text
    darta ← on_error map_domain_error (Service.reserve_darta_number ctx id)
    pure (to_proto_darta p darta)

  unfoldable pub finalize_darta_registration : Ctx → String → Exec DartaMessage
  unfolding ◌>>=◌ on_error
  finalize_darta_registration ctx text = do
    id ← parse_darta_id text
    darta ← on_error map_domain_error (Service.update_darta_status ctx id "REGISTERED")
    pure (to_proto_darta p darta)

  unfoldable pub route_darta : Ctx → Option RouteDartaInput → Exec DartaMessage
  unfolding ◌>>=◌ on_error
  route_darta ctx none = raise missing_input
  route_darta ctx (some i) = do
    id ← parse_darta_id i.darta_id
    darta ← on_error map_domain_error (
        Assignment.assign_darta ctx id (string_ptr i.organizational_unit_id)
          (string_ptr i.assignee_id) (proto_to_priority i.priority) (int32_ptr i.sla_hours))
    pure (to_proto_darta p darta)

  unfoldable pub close_darta : Ctx → String → Exec DartaMessage
  unfolding ◌>>=◌ on_error
  close_darta ctx text = do
    id ← parse_darta_id text
    darta ← on_error (statusf Code.internal "failed to close darta") (Dartas.close_darta id)
    pure (to_proto_darta p darta)

  unfoldable pub void_darta : Ctx → String → Exec DartaMessage
  unfolding ◌>>=◌ on_error
  void_darta ctx text = do
    id ← parse_darta_id text
    darta ← on_error (statusf Code.internal "failed to void darta") (Dartas.void_darta id)
    pure (to_proto_darta p darta)
