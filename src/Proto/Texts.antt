-- ===== src/Proto/Texts.antt =====
-- The texts that `String()` gives for the enumerations of proto/gen/darta/v1, against the lists of the
-- CHECK constraints (services/darta-chalani/internal/dbutil/migrations/00001_initial_schema.sql).
use e_palika.Prelude.{◌≡◌, refl, ◌≤◌, false, All, ◌&◌, is_one_of, ◌==◌, string_eq, arith}
use e_palika.Prelude.Text.Digits.{int_text-unlisted, int_text-given, head_code}
use e_palika.Store.Checks.{darta_statuses, scopes, priorities, party_types}
use e_palika.Proto.Enums.{
  Scope, DartaStatus, darta_status_text, Priority, ApplicantType, RecipientType, scope_text,
  priority_text, applicant_type_text, recipient_type_text,
}

party_heads : All (λ x. 58 ≤ head_code x) party_types
party_heads = omega arith & omega arith & omega arith & omega arith & tt

priority_heads : All (λ x. 58 ≤ head_code x) priorities
priority_heads = omega arith & omega arith & omega arith & omega arith & tt

scope_heads : All (λ x. 58 ≤ head_code x) scopes
scope_heads = omega arith & omega arith & tt

pub applicant_type_text-unlisted :
    (t : ApplicantType) → is_one_of (applicant_type_text t) party_types ≡ false
unfolding applicant_type_text
applicant_type_text-unlisted ApplicantType.unspecified = refl
applicant_type_text-unlisted ApplicantType.citizen = refl
applicant_type_text-unlisted ApplicantType.organization = refl
applicant_type_text-unlisted ApplicantType.government_office = refl
applicant_type_text-unlisted ApplicantType.other = refl
applicant_type_text-unlisted (ApplicantType.unnamed n) = int_text-unlisted party_types party_heads n

pub recipient_type_text-unlisted :
    (t : RecipientType) → is_one_of (recipient_type_text t) party_types ≡ false
unfolding recipient_type_text
recipient_type_text-unlisted RecipientType.unspecified = refl
recipient_type_text-unlisted RecipientType.citizen = refl
recipient_type_text-unlisted RecipientType.organization = refl
recipient_type_text-unlisted RecipientType.government_office = refl
recipient_type_text-unlisted RecipientType.other = refl
recipient_type_text-unlisted (RecipientType.unnamed n) = int_text-unlisted party_types party_heads n

pub priority_text-unlisted : (t : Priority) → is_one_of (priority_text t) priorities ≡ false
unfolding priority_text
priority_text-unlisted Priority.unspecified = refl
priority_text-unlisted Priority.low = refl
priority_text-unlisted Priority.medium = refl
priority_text-unlisted Priority.high = refl
priority_text-unlisted Priority.urgent = refl
priority_text-unlisted (Priority.unnamed n) = int_text-unlisted priorities priority_heads n

pub scope_text-unlisted : (t : Scope) → is_one_of (scope_text t) scopes ≡ false
unfolding scope_text
scope_text-unlisted Scope.unspecified = refl
scope_text-unlisted Scope.municipality = refl
scope_text-unlisted Scope.ward = refl
scope_text-unlisted (Scope.unnamed n) = int_text-unlisted scopes scope_heads n

status_heads : All (λ x. 58 ≤ head_code x) darta_statuses
status_heads =
    omega arith
    & omega arith
    & omega arith
    & omega arith
    & omega arith
    & omega arith
    & omega arith
    & omega arith
    & omega arith
    & omega arith
    & omega arith
    & omega arith
    & omega arith
    & omega arith
    & omega arith
    & omega arith
    & omega arith
    & omega arith
    & omega arith
    & tt

pub darta_status_text-unlisted :
    (t : DartaStatus) → is_one_of (darta_status_text t) darta_statuses ≡ false
unfolding darta_status_text
darta_status_text-unlisted DartaStatus.unspecified = refl
darta_status_text-unlisted DartaStatus.draft = refl
darta_status_text-unlisted DartaStatus.pending_review = refl
darta_status_text-unlisted DartaStatus.classification = refl
darta_status_text-unlisted DartaStatus.number_reserved = refl
darta_status_text-unlisted DartaStatus.registered = refl
darta_status_text-unlisted DartaStatus.voided = refl
darta_status_text-unlisted DartaStatus.scanned = refl
darta_status_text-unlisted DartaStatus.metadata_enriched = refl
darta_status_text-unlisted DartaStatus.digitally_archived = refl
darta_status_text-unlisted DartaStatus.assigned = refl
darta_status_text-unlisted DartaStatus.in_review_by_section = refl
darta_status_text-unlisted DartaStatus.needs_clarification = refl
darta_status_text-unlisted DartaStatus.accepted = refl
darta_status_text-unlisted DartaStatus.action_taken = refl
darta_status_text-unlisted DartaStatus.response_issued = refl
darta_status_text-unlisted DartaStatus.ack_requested = refl
darta_status_text-unlisted DartaStatus.ack_received = refl
darta_status_text-unlisted DartaStatus.superseded = refl
darta_status_text-unlisted DartaStatus.closed = refl
darta_status_text-unlisted (DartaStatus.unnamed n) = int_text-unlisted darta_statuses status_heads n

pub darta_status_text-given : (t : DartaStatus) → (darta_status_text t == "") ≡ false
unfolding darta_status_text
darta_status_text-given DartaStatus.unspecified = refl
darta_status_text-given DartaStatus.draft = refl
darta_status_text-given DartaStatus.pending_review = refl
darta_status_text-given DartaStatus.classification = refl
darta_status_text-given DartaStatus.number_reserved = refl
darta_status_text-given DartaStatus.registered = refl
darta_status_text-given DartaStatus.voided = refl
darta_status_text-given DartaStatus.scanned = refl
darta_status_text-given DartaStatus.metadata_enriched = refl
darta_status_text-given DartaStatus.digitally_archived = refl
darta_status_text-given DartaStatus.assigned = refl
darta_status_text-given DartaStatus.in_review_by_section = refl
darta_status_text-given DartaStatus.needs_clarification = refl
darta_status_text-given DartaStatus.accepted = refl
darta_status_text-given DartaStatus.action_taken = refl
darta_status_text-given DartaStatus.response_issued = refl
darta_status_text-given DartaStatus.ack_requested = refl
darta_status_text-given DartaStatus.ack_received = refl
darta_status_text-given DartaStatus.superseded = refl
darta_status_text-given DartaStatus.closed = refl
darta_status_text-given (DartaStatus.unnamed n) = int_text-given n

pub scope_text-given : (t : Scope) → (scope_text t == "") ≡ false
unfolding scope_text
scope_text-given Scope.unspecified = refl
scope_text-given Scope.municipality = refl
scope_text-given Scope.ward = refl
scope_text-given (Scope.unnamed n) = int_text-given n
