-- ===== src/Gateway/Resolvers.antt =====
-- services/graphql-gateway/graph/schema.resolvers.go: the resolvers, over the operations of the darta
-- service.
pub mod Remote
pub mod Views
use e_palika.Prelude.{String, Option, none, some, List, [], ◌∷◌, map}
use e_palika.Prelude.Int.{ℤ, pos}
use e_palika.Store.Types.{Time}
use e_palika.Store.Exec.{Exec, pure, ◌>>=◌}
use e_palika.Proto.Messages.{
  DartaMessage, ApplicantInput, CreateDartaInput, RouteDartaInput, Connection, Edge,
}
use e_palika.Grpc.Darta.Lists.{DartaStats}
use e_palika.Gateway.Model
use e_palika.Gateway.Service.{DartaService}
use e_palika.Gateway.Converters.{
  scope_to_proto, scope_ptr_to_proto, priority_to_proto, priority_ptr_to_proto,
  intake_channel_to_proto, darta_status_ptr_to_proto, applicant_type_to_proto,
  proto_to_darta_status, proto_to_intake_channel,
}
use e_palika.Gateway.Show.{
  string_ptr_value, string_slice_value, int32_ptr_value, parse_timestamp, build_darta_filter,
  build_pagination, proto_to_darta,
}

abbrev pub applicant_input : Model.ApplicantInput → ApplicantInput
applicant_input a = record {
  type = applicant_type_to_proto a.type;
  full_name = a.full_name;
  organization = string_ptr_value a.organization;
  email = string_ptr_value a.email;
  phone = string_ptr_value a.phone;
  address = string_ptr_value a.address;
  identification_number = string_ptr_value a.identification_number;
}

abbrev pub darta_input : Model.CreateDartaInput → Option Time → CreateDartaInput
darta_input i received = record {
  scope = scope_to_proto i.scope;
  ward_id = string_ptr_value i.ward_id;
  subject = i.subject;
  applicant = some (applicant_input i.applicant);
  intake_channel = intake_channel_to_proto i.intake_channel;
  received_date = received;
  primary_document_id = i.primary_document_id;
  annex_ids = string_slice_value i.annex_ids;
  priority = priority_to_proto i.priority;
  idempotency_key = i.idempotency_key;
  tenant_id = "";
}

abbrev pub route_input : Model.RouteDartaInput → RouteDartaInput
route_input i = record {
  darta_id = i.darta_id;
  organizational_unit_id = string_ptr_value i.organizational_unit_id;
  assignee_id = string_ptr_value i.assignee_id;
  priority = priority_ptr_to_proto i.priority;
  sla_hours = int32_ptr_value i.sla_hours;
  notes = string_ptr_value i.notes;
}

module _ (format : Time → String) (client : DartaService) where
  unfoldable pub create_darta : Model.CreateDartaInput → Exec (Option Model.Darta)
  unfolding ◌>>=◌ parse_timestamp
  create_darta input = do
    received ← parse_timestamp input.received_date
    darta ← client.create_darta (some (darta_input input received))
    proto_to_darta format darta

  unfoldable pub submit_darta_for_review : String → Exec (Option Model.Darta)
  unfolding ◌>>=◌
  submit_darta_for_review darta_id = do
    darta ← client.submit_darta_for_review darta_id
    proto_to_darta format darta

  unfoldable pub classify_darta : String → String → Exec (Option Model.Darta)
  unfolding ◌>>=◌
  classify_darta darta_id classification_code = do
    darta ← client.classify_darta darta_id classification_code
    proto_to_darta format darta

  unfoldable pub reserve_darta_number : String → Exec (Option Model.Darta)
  unfolding ◌>>=◌
  reserve_darta_number darta_id = do
    darta ← client.reserve_darta_number darta_id
    proto_to_darta format darta

  unfoldable pub finalize_darta_registration : String → Exec (Option Model.Darta)
  unfolding ◌>>=◌
  finalize_darta_registration darta_id = do
    darta ← client.finalize_darta_registration darta_id
    proto_to_darta format darta

  unfoldable pub route_darta : Model.RouteDartaInput → Exec (Option Model.Darta)
  unfolding ◌>>=◌
  route_darta input = do
    darta ← client.route_darta (some (route_input input))
    proto_to_darta format darta

  unfoldable pub close_darta : String → Exec (Option Model.Darta)
  unfolding ◌>>=◌
  close_darta darta_id = do darta ← client.close_darta darta_id; proto_to_darta format darta

  unfoldable pub void_darta : String → String → Exec (Option Model.Darta)
  unfolding ◌>>=◌
  void_darta darta_id reason = do
    darta ← client.void_darta darta_id reason
    proto_to_darta format darta

  unfoldable pub darta : String → Exec (Option Model.Darta)
  unfolding ◌>>=◌
  darta id = do darta ← client.get_darta id; proto_to_darta format darta

  unfoldable pub health : Exec Model.HealthStatus
  unfolding ◌>>=◌
  health = do
    answer ← client.health_check
    pure (record {
      status = answer.status;
      service = answer.service;
      timestamp = format answer.timestamp;
    })

  -- The loop over the edges.
  unfoldable pub show_edges : List (Edge DartaMessage) → Exec (List Model.DartaEdge)
  unfolding ◌>>=◌
  show_edges [] = pure []
  show_edges (edge ∷ edges) = do
    node ← proto_to_darta format (some edge.node)
    rest ← show_edges edges
    pure (record { cursor = edge.cursor; node = node } ∷ rest)

  unfoldable pub show_connection : Connection DartaMessage → Exec Model.DartaConnection
  unfolding ◌>>=◌
  show_connection c = do
    edges ← show_edges c.edges
    pure (record {
      edges = edges;
      page_info = record {
        has_next_page = c.page_info.has_next_page;
        has_previous_page = c.page_info.has_previous_page;
        total_count = pos c.page_info.total_count;
      };
    })

  unfoldable pub dartas :
      Option Model.DartaFilterInput → Option Model.PaginationInput → Exec Model.DartaConnection
  unfolding ◌>>=◌ show_connection
  dartas filter pagination = do
    connection ←
        client.list_dartas (some (build_darta_filter filter)) (some (build_pagination pagination))
    show_connection connection

  unfoldable pub my_dartas :
      Option Model.DartaStatus → Option Model.PaginationInput → Exec Model.DartaConnection
  unfolding ◌>>=◌ show_connection
  my_dartas status pagination = do
    connection ←
        client.get_my_dartas (darta_status_ptr_to_proto status) (some (build_pagination pagination))
    show_connection connection

  abbrev show_stats : DartaStats → Model.DartaStats
  show_stats s = record {
    total = s.total;
    by_status = map (λ c. record { status = proto_to_darta_status c.0; count = c.1 }) s.by_status;
    by_channel =
        map (λ c. record { channel = proto_to_intake_channel c.0; count = c.1 }) s.by_channel;
    overdue_count = s.overdue_count;
  }

  unfoldable pub darta_stats :
      Option Model.Scope → Option String → Option String → Exec Model.DartaStats
  unfolding ◌>>=◌
  darta_stats scope fiscal_year_id ward_id = do
    stats ←
        client.get_darta_stats (scope_ptr_to_proto scope) (string_ptr_value fiscal_year_id)
          (string_ptr_value ward_id)
    pure (show_stats stats)
