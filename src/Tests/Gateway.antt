-- ===== src/Tests/Gateway.antt =====
-- The theorems on the GraphQL gateway at concrete inputs.
use e_palika.Prelude.{◌≡◌, refl, String, none, some, [], ◌∷◌}
use e_palika.Prelude.Int.{pos}
use e_palika.Store.Types.{Time}
use e_palika.Store.Exec.{ok, err}
use e_palika.Domain.Errors.{plain}
use e_palika.Grpc.Converters.{
  string_to_scope, string_to_priority, string_to_intake_channel, string_to_darta_status,
}
use e_palika.Grpc.Interceptors.{Metadata}
use e_palika.Grpc.Darta.Requests.{Request}
use e_palika.Gateway.Model
use e_palika.Gateway.Model.{unmarshal_scope}
use e_palika.Gateway.Converters.{
  scope_to_proto, priority_to_proto, intake_channel_to_proto, applicant_type_to_proto,
  darta_status_ptr_to_proto, proto_to_scope, proto_to_priority, proto_to_intake_channel,
  proto_to_applicant_type, proto_to_darta_status,
}
use e_palika.Gateway.Converters.RoundTrip.{proto_to-to_proto, shown_statuses}
use e_palika.Gateway.Converters.Shown.{texts-shown, listed_or}
use e_palika.Gateway.Resolvers
use e_palika.Gateway.Resolvers.{darta_input, route_input}
use e_palika.Gateway.Resolvers.Remote.{remote}
use e_palika.Gateway.Resolvers.Views.{viewed, call, resolvers-viewed}
use e_palika.Tests.Samples.{desk, packages}

listed_scope : unmarshal_scope (Model.text "WARD") ≡ ok "WARD"
unfolding unmarshal_scope
listed_scope = refl

unlisted_scope :
    unmarshal_scope (Model.text "PROVINCE") ≡ err (plain "PROVINCE is not a valid Scope")
unfolding unmarshal_scope
unlisted_scope = refl

proto_to-to_proto_example :
    (proto_to_scope (scope_to_proto "WARD") ≡ "WARD")
    × (proto_to_priority (priority_to_proto "HIGH") ≡ "HIGH")
    × (proto_to_intake_channel (intake_channel_to_proto "EMAIL") ≡ "EMAIL")
    × (proto_to_applicant_type (applicant_type_to_proto "OTHER") ≡ "OTHER")
    × (proto_to_darta_status (darta_status_ptr_to_proto (some "CLOSED")) ≡ "CLOSED")
unfolding Model.is_valid_scope Model.is_valid_priority Model.is_valid_intake_channel
    Model.is_valid_applicant_type
proto_to-to_proto_example =
    proto_to-to_proto "WARD" "HIGH" "EMAIL" "OTHER" "CLOSED" refl refl refl refl refl

texts-shown_example :
    (proto_to_scope (string_to_scope "WARD") ≡ listed_or Model.all_scope "MUNICIPALITY" "WARD")
    × (proto_to_priority (string_to_priority "LOW") ≡ listed_or Model.all_priority "MEDIUM" "LOW")
    × (proto_to_intake_channel (string_to_intake_channel "FAX")
        ≡ listed_or Model.all_intake_channel "COUNTER" "FAX")
    × (proto_to_darta_status (string_to_darta_status "SUPERSEDED")
        ≡ listed_or shown_statuses "DRAFT" "SUPERSEDED")
texts-shown_example = texts-shown "WARD" "LOW" "FAX" "SUPERSEDED"

superseded_as_draft : listed_or shown_statuses "DRAFT" "SUPERSEDED" ≡ "DRAFT"
superseded_as_draft = refl

abbrev dated : Time → String
dated t = "2024-01-01T00:00:00Z"

abbrev transport : Metadata
transport = ("user-agent", "grpc-go/1.60.0" ∷ []) ∷ []

abbrev letter : Model.CreateDartaInput
letter = record {
  fiscal_year_id = "2081";
  scope = "WARD";
  ward_id = some "5";
  subject = "Water";
  applicant = record {
    type = "CITIZEN";
    full_name = "Sita";
    organization = none;
    email = none;
    phone = none;
    address = none;
    identification_number = none;
  };
  intake_channel = "COUNTER";
  received_date = "2024-01-01";
  primary_document_id = "||||||";
  annex_ids = none;
  priority = "HIGH";
  idempotency_key = "k";
}

abbrev routing : Model.RouteDartaInput
routing = record {
  darta_id = "|||";
  organizational_unit_id = some "office";
  assignee_id = none;
  priority = none;
  sla_hours = some (pos 24);
  notes = none;
}

resolvers-viewed_example :
    (Resolvers.create_darta dated (remote packages transport) letter desk
      ≡ viewed dated (
          call dated packages transport
            (Request.create (some (darta_input letter (some desk.now))))
            desk))
    × (Resolvers.submit_darta_for_review dated (remote packages transport) "|||" desk
        ≡ viewed dated (call dated packages transport (Request.submit_for_review "|||") desk))
    × (Resolvers.classify_darta dated (remote packages transport) "|||" "7" desk
        ≡ viewed dated (call dated packages transport (Request.classify "|||" "7") desk))
    × (Resolvers.reserve_darta_number dated (remote packages transport) "|||" desk
        ≡ viewed dated (call dated packages transport (Request.reserve_number "|||") desk))
    × (Resolvers.finalize_darta_registration dated (remote packages transport) "|||" desk
        ≡ viewed dated (call dated packages transport (Request.finalize_registration "|||") desk))
    × (Resolvers.route_darta dated (remote packages transport) routing desk
        ≡ viewed dated
            (call dated packages transport (Request.route (some (route_input routing))) desk))
    × (Resolvers.close_darta dated (remote packages transport) "|||" desk
        ≡ viewed dated (call dated packages transport (Request.close "|||") desk))
    × (Resolvers.void_darta dated (remote packages transport) "|||" "twice" desk
        ≡ viewed dated (call dated packages transport (Request.void "|||") desk))
    × (Resolvers.darta dated (remote packages transport) "|||" desk
        ≡ viewed dated (call dated packages transport (Request.get "|||") desk))
resolvers-viewed_example =
    resolvers-viewed dated packages transport desk letter routing "|||" "7" "twice"
