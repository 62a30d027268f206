-- ===== src/Grpc/Darta/Records.antt =====
-- services/darta-chalani/internal/grpc/darta_server.go: the handlers that work on the tables directly.
use e_palika.Prelude.{Bool, true, false, String, Option, none, some}
use e_palika.Domain.Context.{Ctx}
use e_palika.Domain.Errors.{Code, plain, status, statusf}
use e_palika.Store.Types.{Uuid, Time, Json, Members, member, string, bool, object}
use e_palika.Store.Exec.{Result, ok, err, Exec, pure, raise, gets, ◌>>=◌, ◌>>◌, on_error, guard}
use e_palika.Store.Dartas
use e_palika.Darta.Service
use e_palika.Proto.Enums.{DartaStatus, DartaReviewDecision}
use e_palika.Proto.Messages.{DartaMessage, ReviewDartaInput}
use e_palika.Grpc.Packages.{Packages}
use e_palika.Grpc.Converters.{to_proto_darta, build_darta_from_row}
use e_palika.Grpc.Darta.{missing_input, parse_id}

abbrev pub is_pending_review : DartaStatus → Bool
is_pending_review DartaStatus.pending_review = true
is_pending_review _ = false

-- The status that a review decision leads to.
unfoldable pub reviewed_status : DartaReviewDecision → Exec String
reviewed_status DartaReviewDecision.approve_review = pure "CLASSIFICATION"
reviewed_status DartaReviewDecision.edit_required = pure "RETURNED_FOR_CLARIFICATION"
reviewed_status DartaReviewDecision.unspecified =
    raise (status Code.invalid_argument "invalid review decision")
reviewed_status (DartaReviewDecision.unnamed n) =
    raise (status Code.invalid_argument "invalid review decision")

module _ (p : Packages) where
  abbrev pub scan_metadata : Time → String → Json
  scan_metadata now attachment = object (
      member "scan_attachment_id" (string attachment)
        (member "scan_date" (string (p.print_time now)) Members.none))

  abbrev pub superseded_metadata : Time → Uuid → String → Json
  superseded_metadata now by reason = object (
      member "superseded" (bool true) (
        member "superseded_at" (string (p.print_time now)) (
          member "superseded_by" (string (p.print_uuid by))
            (member "superseded_reason" (string reason) Members.none))))

  -- `uuid.Parse`, with the error of the handlers of this file.
  abbrev pub parse_record_id : String → String → Exec Uuid
  parse_record_id text what =
      parse_id p text (statusf Code.invalid_argument what (plain (p.uuid_error text)))

  -- The handlers that set a status with no guard differ in it and in the text of the error.
  unfoldable pub set_status : String → String → String → Exec DartaMessage
  unfolding ◌>>=◌ on_error
  set_status text new_status failure = do
    id ← parse_record_id text "invalid darta ID"
    updated ← on_error (statusf Code.internal failure) (Dartas.update_darta_status id new_status)
    pure (to_proto_darta p updated)

  -- The handlers that only answer with the darta.
  unfoldable pub show_darta : String → Exec DartaMessage
  unfolding ◌>>=◌ on_error
  show_darta text = do
    id ← parse_record_id text "invalid darta ID"
    row ← on_error (statusf Code.not_found "darta not found") (Dartas.get_darta id)
    pure (build_darta_from_row p row)

  unfoldable pub set_metadata : Uuid → Json → Exec DartaMessage
  unfolding ◌>>=◌ on_error
  set_metadata id metadata = do
    updated ←
        on_error (statusf Code.internal "failed to update metadata")
          (Dartas.update_darta_metadata id (some metadata))
    pure (to_proto_darta p updated)

  unfoldable pub review_darta : Ctx → Option ReviewDartaInput → Exec DartaMessage
  unfolding ◌>>=◌ on_error
  review_darta ctx none = raise missing_input
  review_darta ctx (some i) = do
    id ← parse_record_id i.darta_id "invalid darta ID"
    row ← on_error (statusf Code.not_found "darta not found") (Dartas.get_darta id)
    guard (is_pending_review (build_darta_from_row p row).status)
        (status Code.failed_precondition "darta must be in PENDING_REVIEW status")
    new_status ← reviewed_status i.decision
    updated ←
        on_error (statusf Code.internal "failed to update status")
          (Dartas.update_darta_status id new_status)
    pure (to_proto_darta p updated)

  unfoldable pub direct_register_darta : Ctx → String → Exec DartaMessage
  unfolding ◌>>=◌ on_error
  direct_register_darta ctx text = do
    id ← parse_record_id text "invalid darta ID"
    on_error (statusf Code.internal "failed to reserve number")
        (Service.reserve_darta_number ctx id)
    on_error (statusf Code.internal "failed to finalize")
        (Service.update_darta_status ctx id "REGISTERED")
    row ← on_error (statusf Code.internal "failed to fetch updated darta") (Dartas.get_darta id)
    pure (build_darta_from_row p row)

  unfoldable pub scan_darta : Ctx → String → String → Exec DartaMessage
  unfolding ◌>>=◌
  scan_darta ctx text attachment = do
    id ← parse_record_id text "invalid darta ID"
    now ← gets (λ db. db.now)
    set_metadata id (scan_metadata now attachment)

  abbrev pub marshalled : Result Json → Exec Json
  marshalled (ok j) = pure j
  marshalled (err e) = raise (statusf Code.invalid_argument "invalid metadata" e)

  unfoldable pub enrich_darta_metadata : Ctx → String → Option Json → Exec DartaMessage
  unfolding ◌>>=◌
  enrich_darta_metadata ctx text metadata = do
    id ← parse_record_id text "invalid darta ID"
    json ← marshalled (p.marshal_struct metadata)
    set_metadata id json

  unfoldable pub supersede_darta_record : Ctx → String → String → String → Exec DartaMessage
  unfolding ◌>>=◌
  supersede_darta_record ctx text new_text reason = do
    id ← parse_record_id text "invalid darta ID"
    by ← parse_record_id new_text "invalid new darta ID"
    now ← gets (λ db. db.now)
    set_metadata id (superseded_metadata now by reason)

  unfoldable pub finalize_darta_archive : Ctx → String → Exec DartaMessage
  finalize_darta_archive ctx text = set_status text "ARCHIVED" "failed to archive"

  unfoldable pub request_darta_clarification : Ctx → String → Exec DartaMessage
  request_darta_clarification ctx text =
      set_status text "RETURNED_FOR_CLARIFICATION" "failed to update status"

  unfoldable pub provide_darta_clarification : Ctx → String → Exec DartaMessage
  provide_darta_clarification ctx text = set_status text "PENDING_REVIEW" "failed to update status"

  unfoldable pub accept_darta : Ctx → String → Exec DartaMessage
  accept_darta ctx text = set_status text "UNDER_PROCESSING" "failed to update status"

  unfoldable pub issue_darta_response : Ctx → String → Exec DartaMessage
  issue_darta_response ctx text = set_status text "RESOLVED" "failed to update status"

  unfoldable pub section_review_darta : Ctx → String → Exec DartaMessage
  section_review_darta ctx text = show_darta text

  unfoldable pub mark_darta_action : Ctx → String → Exec DartaMessage
  mark_darta_action ctx text = show_darta text

  unfoldable pub request_darta_ack : Ctx → String → Exec DartaMessage
  request_darta_ack ctx text = show_darta text

  unfoldable pub receive_darta_ack : Ctx → String → Exec DartaMessage
  receive_darta_ack ctx text = show_darta text

  unfoldable pub get_darta_by_number : Ctx → Exec DartaMessage
  get_darta_by_number ctx =
      raise (status Code.unimplemented "GetDartaByNumber not fully implemented")
