-- ===== src/Darta/Lifecycle.antt =====
-- `isValidStatusTransition` of services/darta-chalani/internal/domain/darta_service.go.
pub mod Edges
pub mod Paths
use e_palika.Prelude.{
  ◌≡◌, Bool, true, false, String, Option, none, some, List, [], ◌∷◌, string_eq, is_one_of, lookup,
}

abbrev pub valid_transitions : List (String × List String)
valid_transitions =
    ("DRAFT", "PENDING_REVIEW" ∷ "VOIDED" ∷ [])
    ∷ ("PENDING_REVIEW", "CLASSIFICATION" ∷ "DRAFT" ∷ "VOIDED" ∷ [])
    ∷ ("CLASSIFICATION", "NUMBER_RESERVED" ∷ "PENDING_REVIEW" ∷ [])
    ∷ ("NUMBER_RESERVED", "REGISTERED" ∷ "VOIDED" ∷ [])
    ∷ ("REGISTERED", "SCANNED" ∷ "ASSIGNED" ∷ "VOIDED" ∷ [])
    ∷ ("SCANNED", "METADATA_ENRICHED" ∷ [])
    ∷ ("METADATA_ENRICHED", "DIGITALLY_ARCHIVED" ∷ [])
    ∷ ("DIGITALLY_ARCHIVED", "ASSIGNED" ∷ [])
    ∷ ("ASSIGNED", "IN_REVIEW_BY_SECTION" ∷ "VOIDED" ∷ [])
    ∷ ("IN_REVIEW_BY_SECTION", "NEEDS_CLARIFICATION" ∷ "ACCEPTED" ∷ "ASSIGNED" ∷ [])
    ∷ ("NEEDS_CLARIFICATION", "IN_REVIEW_BY_SECTION" ∷ [])
    ∷ ("ACCEPTED", "ACTION_TAKEN" ∷ [])
    ∷ ("ACTION_TAKEN", "RESPONSE_ISSUED" ∷ "CLOSED" ∷ [])
    ∷ ("RESPONSE_ISSUED", "ACK_REQUESTED" ∷ "CLOSED" ∷ [])
    ∷ ("ACK_REQUESTED", "ACK_RECEIVED" ∷ "CLOSED" ∷ [])
    ∷ ("ACK_RECEIVED", "CLOSED" ∷ [])
    ∷ []

abbrev allows : Option (List String) → String → Bool
allows none to = false
allows (some allowed) to = is_one_of to allowed

unfoldable pub is_valid_status_transition : String → String → Bool
unfolding lookup
is_valid_status_transition from to = allows (lookup from valid_transitions) to
