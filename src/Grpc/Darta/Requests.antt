-- ===== src/Grpc/Darta/Requests.antt =====
-- services/darta-chalani/internal/grpc/darta_server.go: the calls of the darta service that answer with
-- a darta, and the handler of each.
use e_palika.Prelude.{Bool, String, Option, List}
use e_palika.Domain.Context.{Ctx}
use e_palika.Store.Types.{Json, Time, Uuid}
use e_palika.Store.Exec.{Db, Exec}
use e_palika.Store.Steady.{ahead}
use e_palika.Proto.Messages.{DartaMessage, CreateDartaInput, RouteDartaInput, ReviewDartaInput}
use e_palika.Grpc.Packages.{Packages}
use e_palika.Grpc.Darta
use e_palika.Grpc.Darta.Records

pub data Request : Type 0 where
  create : Option CreateDartaInput → Request
  get submit_for_review reserve_number finalize_registration close void : String → Request
  classify : String → String → Request
  route : Option RouteDartaInput → Request
  review : Option ReviewDartaInput → Request
  direct_register finalize_archive section_review : String → Request
  request_clarification provide_clarification accept mark_action : String → Request
  issue_response request_ack receive_ack : String → Request
  scan : String → String → Request
  enrich_metadata : String → Option Json → Request
  supersede : String → String → String → Request
  get_by_number : Request

module _ (p : Packages) (ctx : Ctx) where
  unfoldable pub serve : Request → Exec DartaMessage
  serve (create input) = Darta.create_darta p ctx input
  serve (get id) = Darta.get_darta p ctx id
  serve (submit_for_review id) = Darta.submit_darta_for_review p ctx id
  serve (reserve_number id) = Darta.reserve_darta_number p ctx id
  serve (finalize_registration id) = Darta.finalize_darta_registration p ctx id
  serve (close id) = Darta.close_darta p ctx id
  serve (void id) = Darta.void_darta p ctx id
  serve (classify id code) = Darta.classify_darta p ctx id code
  serve (route input) = Darta.route_darta p ctx input
  serve (review input) = Records.review_darta p ctx input
  serve (direct_register id) = Records.direct_register_darta p ctx id
  serve (finalize_archive id) = Records.finalize_darta_archive p ctx id
  serve (section_review id) = Records.section_review_darta p ctx id
  serve (request_clarification id) = Records.request_darta_clarification p ctx id
  serve (provide_clarification id) = Records.provide_darta_clarification p ctx id
  serve (accept id) = Records.accept_darta p ctx id
  serve (mark_action id) = Records.mark_darta_action p ctx id
  serve (issue_response id) = Records.issue_darta_response p ctx id
  serve (request_ack id) = Records.request_darta_ack p ctx id
  serve (receive_ack id) = Records.receive_darta_ack p ctx id
  serve (scan id attachment) = Records.scan_darta p ctx id attachment
  serve (enrich_metadata id metadata) = Records.enrich_darta_metadata p ctx id metadata
  serve (supersede id by reason) = Records.supersede_darta_record p ctx id by reason
  serve get_by_number = Records.get_darta_by_number p ctx

-- The stores that a sequence of calls leads to. Between two calls time passes, and the next one meets
-- identifiers and outages of its own.
pub data Serves (p : Packages) : Db → Db → Type 0 where
  none : (a : Db) → Serves p a a
  pass :
      (t : Time) (ids : List Uuid) (out : List Bool) (a b : Db)
      → Serves p (ahead (record a { now = t }) ids out) b
      → Serves p a b
  call : (ctx : Ctx) (a b : Db) (r : Request) → Serves p (serve p ctx r a).1 b → Serves p a b
