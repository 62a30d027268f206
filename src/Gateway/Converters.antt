-- ===== src/Gateway/Converters.antt =====
-- services/graphql-gateway/graph/converters.go: between the enumerations of the GraphQL schema, which are
-- texts, and those of the messages.
pub mod RoundTrip
pub mod Shown
use e_palika.Prelude.{String, Option, none, some, ◌==◌, string_eq, if◌then◌else◌}
use e_palika.Proto.Enums.{Scope, Priority, IntakeChannel, DartaStatus, ApplicantType}
use e_palika.Gateway.Model

unfoldable pub scope_to_proto : Model.Scope → Scope
scope_to_proto s =
    if s == "MUNICIPALITY"
    then Scope.municipality
    else if s == "WARD"
    then Scope.ward
    else Scope.unspecified

unfoldable pub scope_ptr_to_proto : Option Model.Scope → Scope
unfolding scope_to_proto
scope_ptr_to_proto none = Scope.unspecified
scope_ptr_to_proto (some s) = scope_to_proto s

unfoldable pub priority_to_proto : Model.Priority → Priority
priority_to_proto s =
    if s == "LOW"
    then Priority.low
    else if s == "MEDIUM"
    then Priority.medium
    else if s == "HIGH"
    then Priority.high
    else if s == "URGENT"
    then Priority.urgent
    else Priority.unspecified

unfoldable pub priority_ptr_to_proto : Option Model.Priority → Priority
unfolding priority_to_proto
priority_ptr_to_proto none = Priority.unspecified
priority_ptr_to_proto (some s) = priority_to_proto s

unfoldable pub intake_channel_to_proto : Model.IntakeChannel → IntakeChannel
intake_channel_to_proto s =
    if s == "COUNTER"
    then IntakeChannel.counter
    else if s == "POSTAL"
    then IntakeChannel.postal
    else if s == "EMAIL"
    then IntakeChannel.email
    else if s == "EDARTA_PORTAL"
    then IntakeChannel.edarta_portal
    else if s == "COURIER"
    then IntakeChannel.courier
    else IntakeChannel.unspecified

unfoldable pub intake_channel_ptr_to_proto : Option Model.IntakeChannel → IntakeChannel
unfolding intake_channel_to_proto
intake_channel_ptr_to_proto none = IntakeChannel.unspecified
intake_channel_ptr_to_proto (some s) = intake_channel_to_proto s

unfoldable pub darta_status_ptr_to_proto : Option Model.DartaStatus → DartaStatus
darta_status_ptr_to_proto none = DartaStatus.unspecified
darta_status_ptr_to_proto (some s) =
    if s == "DRAFT"
    then DartaStatus.draft
    else if s == "PENDING_REVIEW"
    then DartaStatus.pending_review
    else if s == "CLASSIFICATION"
    then DartaStatus.classification
    else if s == "NUMBER_RESERVED"
    then DartaStatus.number_reserved
    else if s == "REGISTERED"
    then DartaStatus.registered
    else if s == "VOIDED"
    then DartaStatus.voided
    else if s == "ASSIGNED"
    then DartaStatus.assigned
    else if s == "CLOSED"
    then DartaStatus.closed
    else DartaStatus.unspecified

unfoldable pub applicant_type_to_proto : Model.ApplicantType → ApplicantType
applicant_type_to_proto s =
    if s == "CITIZEN"
    then ApplicantType.citizen
    else if s == "ORGANIZATION"
    then ApplicantType.organization
    else if s == "GOVERNMENT_OFFICE"
    then ApplicantType.government_office
    else if s == "OTHER"
    then ApplicantType.other
    else ApplicantType.unspecified

unfoldable pub proto_to_scope : Scope → Model.Scope
proto_to_scope Scope.municipality = "MUNICIPALITY"
proto_to_scope Scope.ward = "WARD"
proto_to_scope _ = "MUNICIPALITY"

unfoldable pub proto_to_priority : Priority → Model.Priority
proto_to_priority Priority.low = "LOW"
proto_to_priority Priority.medium = "MEDIUM"
proto_to_priority Priority.high = "HIGH"
proto_to_priority Priority.urgent = "URGENT"
proto_to_priority _ = "MEDIUM"

unfoldable pub proto_to_intake_channel : IntakeChannel → Model.IntakeChannel
proto_to_intake_channel IntakeChannel.counter = "COUNTER"
proto_to_intake_channel IntakeChannel.postal = "POSTAL"
proto_to_intake_channel IntakeChannel.email = "EMAIL"
proto_to_intake_channel IntakeChannel.edarta_portal = "EDARTA_PORTAL"
proto_to_intake_channel IntakeChannel.courier = "COURIER"
proto_to_intake_channel _ = "COUNTER"

unfoldable pub proto_to_darta_status : DartaStatus → Model.DartaStatus
proto_to_darta_status DartaStatus.draft = "DRAFT"
proto_to_darta_status DartaStatus.pending_review = "PENDING_REVIEW"
proto_to_darta_status DartaStatus.classification = "CLASSIFICATION"
proto_to_darta_status DartaStatus.number_reserved = "NUMBER_RESERVED"
proto_to_darta_status DartaStatus.registered = "REGISTERED"
proto_to_darta_status DartaStatus.voided = "VOIDED"
proto_to_darta_status DartaStatus.assigned = "ASSIGNED"
proto_to_darta_status DartaStatus.closed = "CLOSED"
proto_to_darta_status _ = "DRAFT"

unfoldable pub proto_to_applicant_type : ApplicantType → Model.ApplicantType
proto_to_applicant_type ApplicantType.citizen = "CITIZEN"
proto_to_applicant_type ApplicantType.organization = "ORGANIZATION"
proto_to_applicant_type ApplicantType.government_office = "GOVERNMENT_OFFICE"
proto_to_applicant_type ApplicantType.other = "OTHER"
proto_to_applicant_type _ = "CITIZEN"
