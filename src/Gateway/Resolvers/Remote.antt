-- ===== src/Gateway/Resolvers/Remote.antt =====
-- services/graphql-gateway/internal/clients/darta.go: the darta service behind its gRPC client.
use e_palika.Prelude.{Option, some, []}
use e_palika.Store.Exec.{Exec, pure, ◌>>=◌}
use e_palika.Proto.Messages.{DartaMessage}
use e_palika.Grpc.Packages.{Packages}
use e_palika.Grpc.Interceptors.{Metadata, unary_auth_interceptor}
use e_palika.Grpc.Darta
use e_palika.Grpc.Darta.Lists
use e_palika.Gateway.Service.{DartaService}

abbrev pub answered : Exec DartaMessage → Exec (Option DartaMessage)
answered m = m >>= λ d. pure (some d)

-- Each operation is a call of the server's handler, in the context that its interceptor makes of the
-- metadata which the transport adds. The gateway adds none of its own.
abbrev pub remote : Packages → Metadata → DartaService
remote p md =
    let ctx = unary_auth_interceptor (some md) [] in
    record {
      create_darta = λ i. answered (Darta.create_darta p ctx i);
      get_darta = λ id. answered (Darta.get_darta p ctx id);
      list_dartas = Lists.list_dartas p ctx;
      get_my_dartas = Lists.get_my_dartas p ctx;
      get_darta_stats = λ scope fiscal_year ward. Lists.get_darta_stats ctx;
      submit_darta_for_review = λ id. answered (Darta.submit_darta_for_review p ctx id);
      classify_darta = λ id code. answered (Darta.classify_darta p ctx id code);
      reserve_darta_number = λ id. answered (Darta.reserve_darta_number p ctx id);
      finalize_darta_registration = λ id. answered (Darta.finalize_darta_registration p ctx id);
      route_darta = λ i. answered (Darta.route_darta p ctx i);
      close_darta = λ id. answered (Darta.close_darta p ctx id);
      void_darta = λ id reason. answered (Darta.void_darta p ctx id);
      health_check = Lists.health_check;
    }
