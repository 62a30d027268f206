-- ===== src/Gateway/Resolvers/Views.antt =====
-- services/graphql-gateway/graph/schema.resolvers.go over the darta service: the answers are views of
-- those of the service's handlers.
use e_palika.Prelude.{◌≡◌, refl, String, Option, none, some, []}
use e_palika.Store.Types.{Time}
use e_palika.Store.Exec.{Db, Result, ok, err, Exec, pure, ◌>>=◌, gets}
use e_palika.Store.Yields.{Answers, Yields}
use e_palika.Proto.Messages.{DartaMessage}
use e_palika.Grpc.Packages.{Packages}
use e_palika.Grpc.Interceptors.{Metadata, unary_auth_interceptor}
use e_palika.Grpc.Darta.Requests.{Request, serve}
use e_palika.Grpc.Darta.Complete.{IsComplete, serve-Completes}
use e_palika.Gateway.Model
use e_palika.Gateway.Show.{proto_to_darta, shown, parse_timestamp}
use e_palika.Gateway.Resolvers
use e_palika.Gateway.Resolvers.{darta_input, route_input}
use e_palika.Gateway.Resolvers.Remote.{answered, remote}

abbrev text_of : Option String → String
text_of none = ""
text_of (some s) = s

module _ (format : Time → String) where
  -- The view of an answer: of a darta its conversion, of an error the error.
  abbrev pub view : Result DartaMessage → Result (Option Model.Darta)
  view (ok d) = ok (some (shown format d (text_of d.fiscal_year) (text_of d.created_by)))
  view (err e) = err e

  -- The view of what a handler answers and of the store that it leaves.
  abbrev pub viewed : Result DartaMessage × Db → Result (Option Model.Darta) × Db
  viewed r = (view r.0, r.1)

  shown_lem :
      (d : DartaMessage) (db : Db)
      → IsComplete d
      → proto_to_darta format (some d) db ≡ viewed (ok d, db)
  unfolding proto_to_darta pure
  shown_lem d db h = rw (h.has_fiscal_year, h.has_created_by) refl

  continued :
      (r : Result DartaMessage) (db : Db)
      → Answers IsComplete r
      → (answered (λ _. (r, db)) >>= proto_to_darta format) db ≡ viewed (r, db)
  unfolding ◌>>=◌ pure
  continued (ok d) db h = shown_lem d db h
  continued (err e) db h = refl

  answered-viewed :
      (m : Exec DartaMessage) (db : Db)
      → Yields IsComplete m
      → (answered m >>= proto_to_darta format) db ≡ viewed (m db)
  unfolding ◌>>=◌
  answered-viewed m db h = continued (m db).0 (m db).1 (h.at db)

  module _ (p : Packages) (md : Metadata) where
    abbrev pub call : Request → Exec DartaMessage
    call = serve p (unary_auth_interceptor (some md) [])

    call-viewed :
        (r : Request) (db : Db)
        → (answered (call r) >>= proto_to_darta format) db ≡ viewed (call r db)
    call-viewed r db = answered-viewed (call r) db (serve-Completes p _ r)

    -- Over the darta service, whose interceptor sees only the metadata of the transport, the nine
    -- resolvers that answer with a darta never panic: each answers with the view of what the service's
    -- handler answers, or with its error, and leaves the store that the handler leaves. CreateDarta
    -- sends the current instant as the date of receipt, whatever date the request has, and VoidDarta
    -- drops the reason.
    pub resolvers-viewed :
        (db : Db) (input : Model.CreateDartaInput) (routing : Model.RouteDartaInput)
        (id code reason : String)
        → (Resolvers.create_darta format (remote p md) input db
            ≡ viewed (call (Request.create (some (darta_input input (some db.now)))) db))
          × (Resolvers.submit_darta_for_review format (remote p md) id db
              ≡ viewed (call (Request.submit_for_review id) db))
          × (Resolvers.classify_darta format (remote p md) id code db
              ≡ viewed (call (Request.classify id code) db))
          × (Resolvers.reserve_darta_number format (remote p md) id db
              ≡ viewed (call (Request.reserve_number id) db))
          × (Resolvers.finalize_darta_registration format (remote p md) id db
              ≡ viewed (call (Request.finalize_registration id) db))
          × (Resolvers.route_darta format (remote p md) routing db
              ≡ viewed (call (Request.route (some (route_input routing))) db))
          × (Resolvers.close_darta format (remote p md) id db ≡ viewed (call (Request.close id) db))
          × (Resolvers.void_darta format (remote p md) id reason db
              ≡ viewed (call (Request.void id) db))
          × (Resolvers.darta format (remote p md) id db ≡ viewed (call (Request.get id) db))
    unfolding Resolvers.create_darta Resolvers.submit_darta_for_review Resolvers.classify_darta
        Resolvers.reserve_darta_number Resolvers.finalize_darta_registration Resolvers.route_darta
        Resolvers.close_darta Resolvers.void_darta Resolvers.darta parse_timestamp gets ◌>>=◌ serve
    resolvers-viewed db input routing id code reason = (
      call-viewed (Request.create (some (darta_input input (some db.now)))) db,
      call-viewed (Request.submit_for_review id) db,
      call-viewed (Request.classify id code) db,
      call-viewed (Request.reserve_number id) db,
      call-viewed (Request.finalize_registration id) db,
      call-viewed (Request.route (some (route_input routing))) db,
      call-viewed (Request.close id) db,
      call-viewed (Request.void id) db,
      call-viewed (Request.get id) db,
    )
