-- ===== src/Grpc/Darta/Complete.antt =====
-- The messages that the handlers of services/darta-chalani/internal/grpc/darta_server.go answer with.
use e_palika.Prelude.{◌≡◌, refl, String, Option, none, some}
use e_palika.Domain.Context.{Ctx}
use e_palika.Domain.Errors.{Error}
use e_palika.Store.Types.{Uuid, Json, Darta}
use e_palika.Store.Exec.{Exec, pure, raise, ◌>>=◌, on_error, ignore, gets, guard}
use e_palika.Store.Dartas.{DartaRow}
use e_palika.Store.Yields.{Yields, raise-Yields, pure-Yields, bind-Yields}
use e_palika.Proto.Messages.{DartaMessage, CreateDartaInput, RouteDartaInput, ReviewDartaInput}
use e_palika.Grpc.Packages.{Packages}
use e_palika.Grpc.Converters.{to_proto_darta, build_darta_from_row}
use e_palika.Store.Dartas
use e_palika.Darta.Service
use e_palika.Darta.Service.Assignment
use e_palika.Grpc.Converters.{parse_applicant_input}
use e_palika.Grpc.Darta as Server
use e_palika.Grpc.Darta.Records
use e_palika.Grpc.Darta.Requests.{Request, serve}

-- The nested messages through which the gateway reads are there.
pub record IsComplete (d : DartaMessage) : Type 0 where
  pub fiscal_year : String
  pub created_by : String
  pub has_fiscal_year : d.fiscal_year ≡ some fiscal_year
  pub has_created_by : d.created_by ≡ some created_by

module _ (p : Packages) where
  pub to_proto_darta-IsComplete : (d : Darta) → IsComplete (to_proto_darta p d)
  unfolding to_proto_darta
  to_proto_darta-IsComplete d = record {
    fiscal_year = d.fiscal_year_id;
    created_by = d.created_by;
    has_fiscal_year = refl;
    has_created_by = refl;
  }

  pub build_darta_from_row-IsComplete : (row : DartaRow) → IsComplete (build_darta_from_row p row)
  unfolding build_darta_from_row
  build_darta_from_row-IsComplete row = record {
    fiscal_year = row.darta.fiscal_year_id;
    created_by = row.darta.created_by;
    has_fiscal_year = refl;
    has_created_by = refl;
  }

  -- An operation that ends with such a message.
  abbrev pub Completes : Exec DartaMessage → Type 0
  Completes m = Yields IsComplete m

  abbrev refused : (e : Error) → Completes (raise e)
  refused e = raise-Yields IsComplete e

  abbrev then :
      {A : Type 0} (m : Exec A) (f : A → Exec DartaMessage)
      → ((a : A) → Completes (f a))
      → Completes (m >>= f)
  then m f h = bind-Yields IsComplete m f h

  abbrev with_darta : (d : Darta) → Completes (pure (to_proto_darta p d))
  with_darta d = pure-Yields IsComplete _ (to_proto_darta-IsComplete d)

  abbrev with_row : (row : DartaRow) → Completes (pure (build_darta_from_row p row))
  with_row row = pure-Yields IsComplete _ (build_darta_from_row-IsComplete row)

  -- The handlers that parse an identifier, run one operation on the darta and convert the answer.
  answer-Completes :
      {A : Type 0} (text : String) (e : Error) (m : Uuid → Exec A) (convert : A → DartaMessage)
      → ((a : A) → IsComplete (convert a))
      → Completes (Server.parse_id p text e >>= λ id. m id >>= λ a. pure (convert a))
  answer-Completes text e m convert h = then _ _ λ id. then _ _ λ a. pure-Yields IsComplete _ (h a)

  set_status-Completes :
      (text new_status failure : String) → Completes (Records.set_status p text new_status failure)
  unfolding Records.set_status
  set_status-Completes text new_status failure =
      then (Records.parse_record_id p text _) _
        λ id. then (on_error _ (Dartas.update_darta_status id new_status)) _ with_darta

  show_darta-Completes : (text : String) → Completes (Records.show_darta p text)
  unfolding Records.show_darta
  show_darta-Completes text =
      then (Records.parse_record_id p text _) _
        λ id. then (on_error _ (Dartas.get_darta id)) _ with_row

  set_metadata-Completes :
      (id : Uuid) (metadata : Json) → Completes (Records.set_metadata p id metadata)
  unfolding Records.set_metadata
  set_metadata-Completes id metadata =
      then (on_error _ (Dartas.update_darta_metadata id (some metadata))) _ with_darta

  module _ (ctx : Ctx) where
    create-Completes : (i : Option CreateDartaInput) → Completes (Server.create_darta p ctx i)
    unfolding Server.create_darta
    create-Completes none = refused _
    create-Completes (some i) = then (on_error _ (parse_applicant_input i.applicant)) _ λ applicant.
        then (Server.parse_id p i.primary_document_id _) _ λ document.
          then (Server.parse_annex_ids p i.annex_ids) _
            λ annexes. then (on_error _ (Service.create_darta ctx _)) _ with_darta

    route-Completes : (i : Option RouteDartaInput) → Completes (Server.route_darta p ctx i)
    unfolding Server.route_darta
    route-Completes none = refused _
    route-Completes (some i) =
        then (Server.parse_darta_id p i.darta_id) _
          λ id. then (on_error _ (Assignment.assign_darta ctx id _ _ _ _)) _ with_darta

    classify-Completes : (text code : String) → Completes (Server.classify_darta p ctx text code)
    unfolding Server.classify_darta
    classify-Completes text code = then (Server.parse_darta_id p text) _ λ id.
        then (on_error _ (Dartas.update_darta_classification id (some code))) _ λ darta.
          then (ignore (Service.update_darta_status ctx id "CLASSIFICATION")) _
            λ _. with_darta darta

    review-Completes : (i : Option ReviewDartaInput) → Completes (Records.review_darta p ctx i)
    unfolding Records.review_darta
    review-Completes none = refused _
    review-Completes (some i) = then (Records.parse_record_id p i.darta_id _) _ λ id.
        then (on_error _ (Dartas.get_darta id)) _ λ row. then (guard _ _) _ λ _.
          then (Records.reviewed_status i.decision) _
            λ new_status. then (on_error _ (Dartas.update_darta_status id new_status)) _ with_darta

    register-Completes : (text : String) → Completes (Records.direct_register_darta p ctx text)
    unfolding Records.direct_register_darta
    register-Completes text = then (Records.parse_record_id p text _) _ λ id.
        then (on_error _ (Service.reserve_darta_number ctx id)) _ λ _.
          then (on_error _ (Service.update_darta_status ctx id "REGISTERED")) _
            λ _. then (on_error _ (Dartas.get_darta id)) _ with_row

  -- Every handler that answers with a darta fills in its fiscal year and its creator.
  pub serve-Completes : (ctx : Ctx) (r : Request) → Completes (serve p ctx r)
  unfolding serve Server.get_darta Server.submit_darta_for_review Server.reserve_darta_number
      Server.finalize_darta_registration Server.close_darta Server.void_darta Records.scan_darta
      Records.enrich_darta_metadata Records.supersede_darta_record Records.finalize_darta_archive
      Records.request_darta_clarification Records.provide_darta_clarification Records.accept_darta
      Records.issue_darta_response Records.section_review_darta Records.mark_darta_action
      Records.request_darta_ack Records.receive_darta_ack Records.get_darta_by_number
  serve-Completes ctx (Request.create i) = create-Completes ctx i
  serve-Completes ctx (Request.get text) =
      answer-Completes text _ _ _ build_darta_from_row-IsComplete
  serve-Completes ctx (Request.submit_for_review text) =
      answer-Completes text _ _ _ to_proto_darta-IsComplete
  serve-Completes ctx (Request.reserve_number text) =
      answer-Completes text _ _ _ to_proto_darta-IsComplete
  serve-Completes ctx (Request.finalize_registration text) =
      answer-Completes text _ _ _ to_proto_darta-IsComplete
  serve-Completes ctx (Request.close text) = answer-Completes text _ _ _ to_proto_darta-IsComplete
  serve-Completes ctx (Request.void text) = answer-Completes text _ _ _ to_proto_darta-IsComplete
  serve-Completes ctx (Request.classify text code) = classify-Completes ctx text code
  serve-Completes ctx (Request.route i) = route-Completes ctx i
  serve-Completes ctx (Request.review i) = review-Completes ctx i
  serve-Completes ctx (Request.direct_register text) = register-Completes ctx text
  serve-Completes ctx (Request.finalize_archive text) = set_status-Completes text _ _
  serve-Completes ctx (Request.request_clarification text) = set_status-Completes text _ _
  serve-Completes ctx (Request.provide_clarification text) = set_status-Completes text _ _
  serve-Completes ctx (Request.accept text) = set_status-Completes text _ _
  serve-Completes ctx (Request.issue_response text) = set_status-Completes text _ _
  serve-Completes ctx (Request.section_review text) = show_darta-Completes text
  serve-Completes ctx (Request.mark_action text) = show_darta-Completes text
  serve-Completes ctx (Request.request_ack text) = show_darta-Completes text
  serve-Completes ctx (Request.receive_ack text) = show_darta-Completes text
  serve-Completes ctx (Request.scan text attachment) =
      then (Records.parse_record_id p text _) _
        λ id. then (gets (λ db. db.now)) _ λ now. set_metadata-Completes id _
  serve-Completes ctx (Request.enrich_metadata text metadata) =
      then (Records.parse_record_id p text _) _ λ id.
        then (Records.marshalled p (p.marshal_struct metadata)) _
          λ json. set_metadata-Completes id json
  serve-Completes ctx (Request.supersede text by reason) =
      then (Records.parse_record_id p text _) _ λ id.
        then (Records.parse_record_id p by _) _
          λ by'. then (gets (λ db. db.now)) _ λ now. set_metadata-Completes id _
  serve-Completes ctx Request.get_by_number = refused _
