-- ===== src/Grpc/Darta/Steady.antt =====
-- The handlers of services/darta-chalani/internal/grpc/darta_server.go keep every order on stores that
-- the statements which they run keep.
use e_palika.Prelude.{String, Option, none, some, List, [], ◌∷◌}
use e_palika.Domain.Context.{Ctx}
use e_palika.Domain.Errors.{Error}
use e_palika.Store.Types.{Uuid, Json}
use e_palika.Store.Exec.{Result, ok, err, Exec, pure, ◌>>=◌, on_error}
use e_palika.Store.Steady.{
  StoreOrder, Keeps, pure-Keeps, raise-Keeps, gets-Keeps, bind-Keeps, on_error-Keeps, ignore-Keeps,
  guard-Keeps,
}
use e_palika.Store.Reads.{get_darta-Keeps as row-Keeps}
use e_palika.Darta.Service.Steady
use e_palika.Darta.Service.Steady.{Rules}
use e_palika.Proto.Enums.{DartaReviewDecision}
use e_palika.Proto.Messages.{
  DartaMessage, CreateDartaInput, RouteDartaInput, ReviewDartaInput, ApplicantInput,
}
use e_palika.Grpc.Packages.{Packages}
use e_palika.Grpc.Converters.{to_proto_darta, build_darta_from_row, parse_applicant_input}
use e_palika.Grpc.Darta
use e_palika.Grpc.Darta.{require, parse_id, parse_annex_ids}
use e_palika.Grpc.Darta.Records
use e_palika.Grpc.Darta.Records.{
  set_status, show_darta, set_metadata, reviewed_status, parse_record_id,
}
use e_palika.Grpc.Darta.Requests.{Request, serve}

module _ (o : StoreOrder) (rules : Rules o) where
  require-Keeps : {A : Type 0} (found : Option A) (e : Error) → Keeps o (require found e)
  require-Keeps none e = raise-Keeps o e
  require-Keeps (some a) e = pure-Keeps o a

  applicant-Keeps : (input : Option ApplicantInput) → Keeps o (parse_applicant_input input)
  unfolding parse_applicant_input
  applicant-Keeps none = raise-Keeps o _
  applicant-Keeps (some i) =
      bind-Keeps o _ _ (rules.applicant _) λ applicant. pure-Keeps o applicant.id

  reviewed-Keeps : (d : DartaReviewDecision) → Keeps o (reviewed_status d)
  unfolding reviewed_status
  reviewed-Keeps DartaReviewDecision.approve_review = pure-Keeps o _
  reviewed-Keeps DartaReviewDecision.edit_required = pure-Keeps o _
  reviewed-Keeps DartaReviewDecision.unspecified = raise-Keeps o _
  reviewed-Keeps (DartaReviewDecision.unnamed n) = raise-Keeps o _

  module _ (p : Packages) (ctx : Ctx) where
    id-Keeps : (text : String) (e : Error) → Keeps o (parse_id p text e)
    id-Keeps text e = require-Keeps (p.parse_uuid text) e

    annex_ids-Keeps : (texts : List String) → Keeps o (parse_annex_ids p texts)
    unfolding parse_annex_ids
    annex_ids-Keeps [] = pure-Keeps o []
    annex_ids-Keeps (text ∷ texts) =
        bind-Keeps o _ _ (id-Keeps text _)
          λ id. bind-Keeps o _ _ (annex_ids-Keeps texts) λ ids. pure-Keeps o (id ∷ ids)

    -- The handlers that parse an identifier, run one operation on the darta and convert the answer.
    answer-Keeps :
        {A : Type 0} (text : String) (e : Error) (f : Error → Error) (m : Uuid → Exec A)
        (convert : A → DartaMessage)
        → ((id : Uuid) → Keeps o (m id))
        → Keeps o (parse_id p text e >>= λ id. on_error f (m id) >>= λ a. pure (convert a))
    answer-Keeps text e f m convert k =
        bind-Keeps o _ _ (id-Keeps text e)
          λ id. bind-Keeps o _ _ (on_error-Keeps o f (m id) (k id)) λ a. pure-Keeps o (convert a)

    create-Keeps : (input : Option CreateDartaInput) → Keeps o (Darta.create_darta p ctx input)
    unfolding Darta.create_darta
    create-Keeps none = raise-Keeps o _
    create-Keeps (some i) =
        bind-Keeps o _ _ (on_error-Keeps o _ _ (applicant-Keeps i.applicant)) λ applicant.
          bind-Keeps o _ _ (id-Keeps i.primary_document_id _) λ document.
            bind-Keeps o _ _ (annex_ids-Keeps i.annex_ids) λ annexes.
              bind-Keeps o _ _ (on_error-Keeps o _ _ (Steady.create_darta-Keeps o rules ctx _))
                λ darta. pure-Keeps o (to_proto_darta p darta)

    classify-Keeps : (text code : String) → Keeps o (Darta.classify_darta p ctx text code)
    unfolding Darta.classify_darta
    classify-Keeps text code = bind-Keeps o _ _ (id-Keeps text _) λ id.
        bind-Keeps o _ _ (on_error-Keeps o _ _ (Steady.classification-Keeps o rules id (some code)))
          λ darta.
            bind-Keeps o _ _
              (ignore-Keeps o _ (Steady.update_darta_status-Keeps o rules ctx id "CLASSIFICATION"))
              λ _. pure-Keeps o (to_proto_darta p darta)

    route-Keeps : (input : Option RouteDartaInput) → Keeps o (Darta.route_darta p ctx input)
    unfolding Darta.route_darta
    route-Keeps none = raise-Keeps o _
    route-Keeps (some i) =
        answer-Keeps i.darta_id _ _ _ _ λ id. Steady.assign_darta-Keeps o rules ctx id _ _ _ _

    review-Keeps : (input : Option ReviewDartaInput) → Keeps o (Records.review_darta p ctx input)
    unfolding Records.review_darta
    review-Keeps none = raise-Keeps o _
    review-Keeps (some i) = bind-Keeps o _ _ (id-Keeps i.darta_id _) λ id.
        bind-Keeps o _ _ (on_error-Keeps o _ _ (row-Keeps o id)) λ row.
          bind-Keeps o _ _ (guard-Keeps o _ _) λ _.
            bind-Keeps o _ _ (reviewed-Keeps i.decision) λ new_status.
              bind-Keeps o _ _
                (on_error-Keeps o _ _ (Steady.set_status-Keeps o rules id new_status))
                λ updated. pure-Keeps o (to_proto_darta p updated)

    direct_register-Keeps : (text : String) → Keeps o (Records.direct_register_darta p ctx text)
    unfolding Records.direct_register_darta
    direct_register-Keeps text = bind-Keeps o _ _ (id-Keeps text _) λ id.
        bind-Keeps o _ _ (on_error-Keeps o _ _ (rules.reserve ctx id)) λ _.
          bind-Keeps o _ _
            (on_error-Keeps o _ _ (Steady.update_darta_status-Keeps o rules ctx id "REGISTERED"))
            λ _.
              bind-Keeps o _ _ (on_error-Keeps o _ _ (row-Keeps o id))
                λ row. pure-Keeps o (build_darta_from_row p row)

    set_status-Keeps : (text new failure : String) → Keeps o (set_status p text new failure)
    unfolding set_status
    set_status-Keeps text new failure =
        answer-Keeps text _ _ _ _ λ id. Steady.set_status-Keeps o rules id new

    show-Keeps : (text : String) → Keeps o (show_darta p text)
    unfolding show_darta
    show-Keeps text = answer-Keeps text _ _ _ _ λ id. row-Keeps o id

    set_metadata-Keeps : (id : Uuid) (metadata : Json) → Keeps o (set_metadata p id metadata)
    unfolding set_metadata
    set_metadata-Keeps id metadata =
        bind-Keeps o _ _ (on_error-Keeps o _ _ (Steady.metadata-Keeps o rules id (some metadata)))
          λ updated. pure-Keeps o (to_proto_darta p updated)

    scan-Keeps : (text attachment : String) → Keeps o (Records.scan_darta p ctx text attachment)
    unfolding Records.scan_darta
    scan-Keeps text attachment = bind-Keeps o _ _ (id-Keeps text _) λ id.
        bind-Keeps o _ _ (gets-Keeps o (λ db. db.now))
          λ now. set_metadata-Keeps id (Records.scan_metadata p now attachment)

    marshalled-Keeps : (r : Result Json) → Keeps o (Records.marshalled p r)
    marshalled-Keeps (ok j) = pure-Keeps o j
    marshalled-Keeps (err e) = raise-Keeps o _

    enrich-Keeps :
        (text : String) (metadata : Option Json)
        → Keeps o (Records.enrich_darta_metadata p ctx text metadata)
    unfolding Records.enrich_darta_metadata
    enrich-Keeps text metadata = bind-Keeps o _ _ (id-Keeps text _) λ id.
        bind-Keeps o _ _ (marshalled-Keeps (p.marshal_struct metadata))
          λ json. set_metadata-Keeps id json

    supersede-Keeps :
        (text new_text reason : String)
        → Keeps o (Records.supersede_darta_record p ctx text new_text reason)
    unfolding Records.supersede_darta_record
    supersede-Keeps text new_text reason = bind-Keeps o _ _ (id-Keeps text _) λ id.
        bind-Keeps o _ _ (id-Keeps new_text _) λ by.
          bind-Keeps o _ _ (gets-Keeps o (λ db. db.now))
            λ now. set_metadata-Keeps id (Records.superseded_metadata p now by reason)

    pub serve-Keeps : (r : Request) → Keeps o (serve p ctx r)
    unfolding serve Darta.get_darta Darta.submit_darta_for_review Darta.reserve_darta_number
        Darta.finalize_darta_registration Darta.close_darta Darta.void_darta
        Records.finalize_darta_archive Records.section_review_darta
        Records.request_darta_clarification Records.provide_darta_clarification Records.accept_darta
        Records.mark_darta_action Records.issue_darta_response Records.request_darta_ack
        Records.receive_darta_ack Records.get_darta_by_number
    serve-Keeps (Request.create input) = create-Keeps input
    serve-Keeps (Request.get text) =
        answer-Keeps text _ _ _ _ λ id. Steady.get_darta-Keeps o rules id
    serve-Keeps (Request.submit_for_review text) =
        answer-Keeps text _ _ _ _ λ id. Steady.update_darta_status-Keeps o rules ctx id _
    serve-Keeps (Request.reserve_number text) = answer-Keeps text _ _ _ _ λ id. rules.reserve ctx id
    serve-Keeps (Request.finalize_registration text) =
        answer-Keeps text _ _ _ _ λ id. Steady.update_darta_status-Keeps o rules ctx id _
    serve-Keeps (Request.close text) =
        answer-Keeps text _ _ _ _ λ id. Steady.close_darta-Keeps o rules id
    serve-Keeps (Request.void text) =
        answer-Keeps text _ _ _ _ λ id. Steady.void_darta-Keeps o rules id
    serve-Keeps (Request.classify text code) = classify-Keeps text code
    serve-Keeps (Request.route input) = route-Keeps input
    serve-Keeps (Request.review input) = review-Keeps input
    serve-Keeps (Request.direct_register text) = direct_register-Keeps text
    serve-Keeps (Request.finalize_archive text) = set_status-Keeps text _ _
    serve-Keeps (Request.section_review text) = show-Keeps text
    serve-Keeps (Request.request_clarification text) = set_status-Keeps text _ _
    serve-Keeps (Request.provide_clarification text) = set_status-Keeps text _ _
    serve-Keeps (Request.accept text) = set_status-Keeps text _ _
    serve-Keeps (Request.mark_action text) = show-Keeps text
    serve-Keeps (Request.issue_response text) = set_status-Keeps text _ _
    serve-Keeps (Request.request_ack text) = show-Keeps text
    serve-Keeps (Request.receive_ack text) = show-Keeps text
    serve-Keeps (Request.scan text attachment) = scan-Keeps text attachment
    serve-Keeps (Request.enrich_metadata text metadata) = enrich-Keeps text metadata
    serve-Keeps (Request.supersede text new_text reason) = supersede-Keeps text new_text reason
    serve-Keeps Request.get_by_number = raise-Keeps o _
