-- ===== src/Gateway/Converters/RoundTrip.antt =====
-- services/graphql-gateway/graph/converters.go: what a request sends comes back as it was.
use e_palika.Prelude.{
  ◌≡◌, refl, ◌&◌, true, some, List, String, [], ◌∷◌, is_one_of, string_eq, All-is_one_of,
}
use e_palika.Gateway.Model
use e_palika.Gateway.Model.{
  is_valid_scope, is_valid_priority, is_valid_intake_channel, is_valid_applicant_type,
}
use e_palika.Gateway.Converters.{
  scope_to_proto, priority_to_proto, intake_channel_to_proto, applicant_type_to_proto,
  darta_status_ptr_to_proto, proto_to_scope, proto_to_priority, proto_to_intake_channel,
  proto_to_applicant_type, proto_to_darta_status,
}

-- The statuses that both directions of the conversion know.
abbrev pub shown_statuses : List String
shown_statuses =
    "DRAFT" ∷ "PENDING_REVIEW" ∷ "CLASSIFICATION" ∷ "NUMBER_RESERVED" ∷ "REGISTERED" ∷ "VOIDED"
    ∷ "ASSIGNED" ∷ "CLOSED" ∷ []

-- A scope, a priority, an intake channel and a type of applicant that the schema lists, and a status
-- among the eight that the service knows, come back from the conversion to a message and from it as
-- they were.
pub proto_to-to_proto :
    (scope priority channel type status : String)
    → is_valid_scope scope ≡ true
    → is_valid_priority priority ≡ true
    → is_valid_intake_channel channel ≡ true
    → is_valid_applicant_type type ≡ true
    → is_one_of status shown_statuses ≡ true
    → (proto_to_scope (scope_to_proto scope) ≡ scope)
      × (proto_to_priority (priority_to_proto priority) ≡ priority)
      × (proto_to_intake_channel (intake_channel_to_proto channel) ≡ channel)
      × (proto_to_applicant_type (applicant_type_to_proto type) ≡ type)
      × (proto_to_darta_status (darta_status_ptr_to_proto (some status)) ≡ status)
unfolding is_valid_scope scope_to_proto proto_to_scope is_valid_priority priority_to_proto
    proto_to_priority is_valid_intake_channel intake_channel_to_proto proto_to_intake_channel
    is_valid_applicant_type applicant_type_to_proto proto_to_applicant_type
    darta_status_ptr_to_proto proto_to_darta_status
proto_to-to_proto scope priority channel type status s p c a d = (
  All-is_one_of (λ x. proto_to_scope (scope_to_proto x) ≡ x) Model.all_scope scope
      (refl & refl & tt) s,
  All-is_one_of (λ x. proto_to_priority (priority_to_proto x) ≡ x) Model.all_priority priority
      (refl & refl & refl & refl & tt) p,
  All-is_one_of (λ x. proto_to_intake_channel (intake_channel_to_proto x) ≡ x)
      Model.all_intake_channel channel (refl & refl & refl & refl & refl & tt) c,
  All-is_one_of (λ x. proto_to_applicant_type (applicant_type_to_proto x) ≡ x)
      Model.all_applicant_type type (refl & refl & refl & refl & tt) a,
  All-is_one_of (λ x. proto_to_darta_status (darta_status_ptr_to_proto (some x)) ≡ x) shown_statuses
      status (refl & refl & refl & refl & refl & refl & refl & refl & tt) d,
)
