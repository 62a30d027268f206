-- ===== src/Gateway/Service.antt =====
-- services/graphql-gateway/internal/clients/darta.go: the operations of the darta service that the
-- gateway calls.
use e_palika.Prelude.{String, Option}
use e_palika.Store.Exec.{Exec}
use e_palika.Proto.Enums.{Scope, DartaStatus}
use e_palika.Proto.Messages.{
  DartaMessage, CreateDartaInput, RouteDartaInput, PaginationInput, Connection, HealthMessage,
}
use e_palika.Grpc.Darta.Lists.{DartaFilter, DartaStats}

-- DartaService, each operation with the fields of its request as arguments. An answer without a darta
-- is `none`.
pub record DartaService : Type 0 where
  pub create_darta : Option CreateDartaInput → Exec (Option DartaMessage)
  pub get_darta : String → Exec (Option DartaMessage)
  pub list_dartas : Option DartaFilter → Option PaginationInput → Exec (Connection DartaMessage)
  pub get_my_dartas : DartaStatus → Option PaginationInput → Exec (Connection DartaMessage)
  pub get_darta_stats : Scope → String → String → Exec DartaStats
  pub submit_darta_for_review : String → Exec (Option DartaMessage)
  pub classify_darta : String → String → Exec (Option DartaMessage)
  pub reserve_darta_number : String → Exec (Option DartaMessage)
  pub finalize_darta_registration : String → Exec (Option DartaMessage)
  pub route_darta : Option RouteDartaInput → Exec (Option DartaMessage)
  pub close_darta : String → Exec (Option DartaMessage)
  pub void_darta : String → String → Exec (Option DartaMessage)
  pub health_check : Exec HealthMessage
