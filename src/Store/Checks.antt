-- ===== src/Store/Checks.antt =====
-- services/darta-chalani/internal/dbutil/migrations/00001_initial_schema.sql: the constraints that the
-- database checks on each row that is written.
use e_palika.Prelude.{
  ℕ, Bool, true, false, not, ◌&&◌, ◌||◌, String, Option, none, some, List, [], ◌∷◌, ◌==◌, nat_eq,
  string_eq, is_one_of,
}
use e_palika.Prelude.Int.{ltb_ℤ}
use e_palika.Store.Types.{Time, Applicant, Recipient, Darta, Chalani, AuditTrail}

abbrev pub scopes : List String
scopes = "MUNICIPALITY" ∷ "WARD" ∷ []

abbrev pub darta_statuses : List String
darta_statuses =
    "DRAFT" ∷ "PENDING_REVIEW" ∷ "CLASSIFICATION" ∷ "NUMBER_RESERVED" ∷ "REGISTERED" ∷ "VOIDED"
    ∷ "SCANNED" ∷ "METADATA_ENRICHED" ∷ "DIGITALLY_ARCHIVED" ∷ "ASSIGNED" ∷ "IN_REVIEW_BY_SECTION"
    ∷ "NEEDS_CLARIFICATION" ∷ "ACCEPTED" ∷ "ACTION_TAKEN" ∷ "RESPONSE_ISSUED" ∷ "ACK_REQUESTED"
    ∷ "ACK_RECEIVED" ∷ "SUPERSEDED" ∷ "CLOSED" ∷ []

abbrev pub chalani_statuses : List String
chalani_statuses =
    "DRAFT" ∷ "PENDING_REVIEW" ∷ "PENDING_APPROVAL" ∷ "APPROVED" ∷ "NUMBER_RESERVED" ∷ "REGISTERED"
    ∷ "SIGNED" ∷ "SEALED" ∷ "DISPATCHED" ∷ "IN_TRANSIT" ∷ "ACKNOWLEDGED" ∷ "RETURNED_UNDELIVERED"
    ∷ "DELIVERED" ∷ "VOIDED" ∷ "SUPERSEDED" ∷ "CLOSED" ∷ []

abbrev pub priorities : List String
priorities = "LOW" ∷ "MEDIUM" ∷ "HIGH" ∷ "URGENT" ∷ []

abbrev pub intake_channels : List String
intake_channels = "COUNTER" ∷ "POSTAL" ∷ "EMAIL" ∷ "EDARTA_PORTAL" ∷ "COURIER" ∷ []

abbrev pub dispatch_channels : List String
dispatch_channels = "POSTAL" ∷ "COURIER" ∷ "EMAIL" ∷ "HAND_DELIVERY" ∷ "EDARTA_PORTAL" ∷ []

abbrev pub party_types : List String
party_types = "CITIZEN" ∷ "ORGANIZATION" ∷ "GOVERNMENT_OFFICE" ∷ "OTHER" ∷ []

abbrev pub entity_types : List String
entity_types = "DARTA" ∷ "CHALANI" ∷ "ATTACHMENT" ∷ "APPLICANT" ∷ "RECIPIENT" ∷ []

abbrev pub is_set : Option String → Bool
is_set none = false
is_set (some _) = true

-- The CHECK clauses of `dartas`.
unfoldable pub darta_checks : Darta → Bool
darta_checks d =
    is_one_of d.scope scopes
    && (is_set d.ward_id || d.scope == "MUNICIPALITY")
    && is_one_of d.status darta_statuses
    && is_one_of d.priority priorities
    && is_one_of d.intake_channel intake_channels

abbrev pub null_or_in : Option String → List String → Bool
null_or_in none l = true
null_or_in (some s) l = is_one_of s l

-- The CHECK clauses of `chalanis`.
unfoldable pub chalani_checks : Chalani → Bool
chalani_checks c =
    is_one_of c.scope scopes
    && (is_set c.ward_id || c.scope == "MUNICIPALITY")
    && is_one_of c.status chalani_statuses
    && null_or_in c.dispatch_channel dispatch_channels

unfoldable pub applicant_checks : Applicant → Bool
applicant_checks a = is_one_of a.type party_types

unfoldable pub recipient_checks : Recipient → Bool
recipient_checks r = is_one_of r.type party_types

unfoldable pub audit_checks : AuditTrail → Bool
audit_checks e = is_one_of e.entity_type entity_types

-- The generated column `is_overdue`, which is computed when the row is written.
unfoldable pub overdue : Time → Darta → Bool
overdue now d =
    d.sla_deadline.valid
    && ltb_ℤ d.sla_deadline.time now
    && not (is_one_of d.status ("CLOSED" ∷ "VOIDED" ∷ "SUPERSEDED" ∷ []))

-- SQL's `=` between two columns, where NULL equals nothing.
abbrev pub sql_eq : Option String → Option String → Bool
sql_eq none b = false
sql_eq (some a) none = false
sql_eq (some a) (some b) = a == b

abbrev pub sql_eq_number : Option ℕ → Option ℕ → Bool
sql_eq_number none b = false
sql_eq_number (some a) none = false
sql_eq_number (some a) (some b) = a == b

-- UNIQUE(fiscal_year_id, scope, ward_id, darta_number), where a NULL column makes rows differ, and the
-- unique index on idempotency_key: do two rows of `dartas` collide?
unfoldable pub darta_collision : Darta → Darta → Bool
darta_collision a b =
    (a.fiscal_year_id == b.fiscal_year_id
      && a.scope == b.scope
      && sql_eq a.ward_id b.ward_id
      && sql_eq_number a.darta_number b.darta_number)
    || sql_eq a.idempotency_key b.idempotency_key

-- The same constraints of `chalanis`.
unfoldable pub chalani_collision : Chalani → Chalani → Bool
chalani_collision a b =
    (a.fiscal_year_id == b.fiscal_year_id
      && a.scope == b.scope
      && sql_eq a.ward_id b.ward_id
      && sql_eq_number a.chalani_number b.chalani_number)
    || sql_eq a.idempotency_key b.idempotency_key
