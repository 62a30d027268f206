-- ===== src/Lib.antt =====
-- E-Palika: the services of a municipality's office for incoming letters (darta) and outgoing
-- letters (chalani), written in Go. This library models the darta service and the chalani service
-- down to the statements of their database, the policy decision point, the identity service and the
-- resolvers of the GraphQL gateway, and proves what their operations do on every branch, including
-- those on which the database or another service fails.
--
-- The parts of the program, and the files:
-- - services/darta-chalani/internal/domain: DartaService is Darta/Service.antt, one function for
--   each method (CreateDarta is `create_darta`, and so on; AssignDarta has its own file), its table
--   of transitions Darta/Lifecycle.antt, its number format Darta/Number.antt; errors.go is
--   Domain/Errors.antt and context.go Domain/Context.antt.
-- - services/darta-chalani/internal/db and internal/dbutil/migrations: the rows are the records of
--   Store/Types.antt, the constraints Store/Checks.antt. The statements on dartas are
--   Store/Dartas.antt, Store/Creation.antt, Store/Listing.antt and Store/Relationships.antt, those
--   on other tables Store/Applicants.antt, Store/Recipients.antt, Store/Attachments.antt and
--   Store/Audit.antt, those on chalanis Store/Chalanis.antt and its children Updates, Listing,
--   Relations, Approvals and Templates. A `Db` holds the tables, the clock, the identifiers that
--   gen_random_uuid() has yet to give, and a schedule that says which of the coming statements fail
--   for a reason outside the tables. An operation is a function from a store to a result and the
--   store that it leaves (Store/Exec.antt); a dropped error goes on from the store that the failed
--   statement left. Store/Dartas/Runs.antt says when a statement on one darta succeeds and what it
--   uses up of the schedule.
-- - services/darta-chalani/internal/grpc: darta_server.go is Grpc/Darta.antt and its children
--   Records and Lists, with the fields of the request as arguments; Grpc/Darta/Requests.antt lists
--   the calls and their sequences. chalani_server.go is Grpc/Chalani.antt and its children
--   Creation, Lists and Unimplemented, with its calls in Grpc/Chalani/Requests.antt and what
--   sequences of them keep in Grpc/Chalani/History.antt. converters.go is Grpc/Converters.antt,
--   mapDomainError Grpc/Status.antt, interceptors.go Grpc/Interceptors.antt.
-- - proto/gen/darta/v1: the enumerations, which are open as in proto3, and the names that String()
--   gives are Proto/Enums.antt, the messages Proto/Messages.antt.
-- - services/graphql-gateway: graph/model is Gateway/Model.antt, graph/converters.go
--   Gateway/Converters.antt, graph/schema.resolvers.go Gateway/Resolvers.antt with its helpers in
--   Gateway/Show.antt; the client of the darta service is the record DartaService of
--   Gateway/Service.antt, which Gateway/Resolvers/Remote.antt fills with the handlers of
--   Grpc/Darta.
-- - services/identity/internal: config is Identity/Config.antt, keycloak/client.go
--   Identity/Keycloak.antt, grpc/server.go Identity/Server.antt with its conversions in
--   Identity/Converters.antt.
-- - services/pdp/internal: CheckAuthorization of service.go is Pdp/Service.antt, where a decision
--   comes with the HTTP calls that it made, and that of grpc/server.go Pdp/Server.antt.
-- The gateway calls the darta service; the other services share no state. Store/Steady.antt,
-- Darta/Service/Steady.antt and Grpc/Darta/Steady.antt carry an order on stores from the statements
-- through the operations to the handlers; Store/History.antt, Store/Valid.antt, Store/Distinct.antt
-- and Store/Linked.antt are four such orders. Store/Yields.antt and Grpc/Darta/Complete.antt carry,
-- the same way, what a result has whatever the store.
--
-- Numbers: an int32 and an int64 are integers with their wrap-around written out
-- (Prelude/Int.antt); darta_number is a natural number below 2^31, which the INTEGER of the
-- database checks. Instants are integers of nanoseconds. The digits of a number are computed with a
-- fuel of one more than the number, and each round divides by ten.
--
-- Parameters, in Grpc/Packages.antt: the text forms of uuid.UUID and time.Time, the JSON of a
-- protobuf Struct, and the text comparisons of the database; in Pdp/Service.antt, the record
-- Client: the HTTP client with what encoding/json makes of a body, and strings.ToLower; in
-- Identity/Keycloak.antt, the record Gocloak: the client of Keycloak; in the gateway, time.Format.
--
-- Not modelled: interleavings of two calls within one operation, but for the reservation of numbers
-- in Darta/Service/Race.antt; the length limits of VARCHAR (such a failure is one of the schedule);
-- a request without its Input where the Go code panics on it; the dispatch that gqlgen generates in
-- graph/generated.go and the serialisation that protoc generates; dialling, listening and start-up
-- code; the web clients, policies and scripts.
pub mod Prelude
pub mod Domain
pub mod Store
pub mod Darta
pub mod Proto
pub mod Grpc
pub mod Tests
pub mod Pdp
pub mod Gateway
pub mod Identity
