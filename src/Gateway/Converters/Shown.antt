-- ===== src/Gateway/Converters/Shown.antt =====
-- What the gateway shows of the texts that a row of the darta service holds.
use e_palika.Prelude.{
  ◌≡◌, refl, ◌&◌, inl, inr, List, String, is_one_of, string_eq, All-is_one_of, Bool-cases,
  if◌then◌else◌, eq_iff, arith, ◌==◌,
}
use e_palika.Grpc.Converters.{
  string_to_scope, string_to_priority, string_to_intake_channel, string_to_darta_status,
}
use e_palika.Gateway.Model
use e_palika.Gateway.Converters.{
  proto_to_scope, proto_to_priority, proto_to_intake_channel, proto_to_darta_status,
}
use e_palika.Gateway.Converters.RoundTrip.{shown_statuses}

==_sym : (s t : String) → (s == t) ≡ (t == s)
==_sym s t = ground (arith, eq_iff s t, eq_iff t s)

-- A text of the list is shown as it is, any other one as the default.
abbrev pub listed_or : List String → String → String → String
listed_or l default s = if is_one_of s l then s else default

scope-shown :
    (s : String) → proto_to_scope (string_to_scope s) ≡ listed_or Model.all_scope "MUNICIPALITY" s
unfolding string_to_scope proto_to_scope
scope-shown s = elim (Bool-cases (is_one_of s Model.all_scope)) [
  | inl listed ↦ rw listed (
      All-is_one_of (λ x. proto_to_scope (string_to_scope x) ≡ x) Model.all_scope s
        (refl & refl & tt) listed)
  | inr other ↦ rw other (ground (arith, ==_sym s "MUNICIPALITY", ==_sym s "WARD"))
]

priority-shown :
    (s : String)
    → proto_to_priority (string_to_priority s) ≡ listed_or Model.all_priority "MEDIUM" s
unfolding string_to_priority proto_to_priority
priority-shown s = elim (Bool-cases (is_one_of s Model.all_priority)) [
  | inl listed ↦ rw listed (
      All-is_one_of (λ x. proto_to_priority (string_to_priority x) ≡ x) Model.all_priority s
        (refl & refl & refl & refl & tt) listed)
  | inr other ↦
      rw other
        (ground (arith, ==_sym s "LOW", ==_sym s "MEDIUM", ==_sym s "HIGH", ==_sym s "URGENT"))
]

intake_channel-shown :
    (s : String)
    → proto_to_intake_channel (string_to_intake_channel s)
      ≡ listed_or Model.all_intake_channel "COUNTER" s
unfolding string_to_intake_channel proto_to_intake_channel
intake_channel-shown s = elim (Bool-cases (is_one_of s Model.all_intake_channel)) [
  | inl listed ↦ rw listed (
      All-is_one_of (λ x. proto_to_intake_channel (string_to_intake_channel x) ≡ x)
        Model.all_intake_channel s (refl & refl & refl & refl & refl & tt) listed)
  | inr other ↦ rw other (
      ground (
        arith,
        ==_sym s "COUNTER",
        ==_sym s "POSTAL",
        ==_sym s "EMAIL",
        ==_sym s "EDARTA_PORTAL",
        ==_sym s "COURIER",
      ))
]

darta_status-shown :
    (s : String)
    → proto_to_darta_status (string_to_darta_status s) ≡ listed_or shown_statuses "DRAFT" s
unfolding string_to_darta_status proto_to_darta_status
darta_status-shown s = elim (Bool-cases (is_one_of s shown_statuses)) [
  | inl listed ↦ rw listed (
      All-is_one_of (λ x. proto_to_darta_status (string_to_darta_status x) ≡ x) shown_statuses s
        (refl & refl & refl & refl & refl & refl & refl & refl & tt) listed)
  | inr other ↦ rw other (
      ground (
        arith,
        ==_sym s "DRAFT",
        ==_sym s "PENDING_REVIEW",
        ==_sym s "CLASSIFICATION",
        ==_sym s "NUMBER_RESERVED",
        ==_sym s "REGISTERED",
        ==_sym s "VOIDED",
        ==_sym s "ASSIGNED",
        ==_sym s "CLOSED",
      ))
]

-- Whatever texts a row holds, the gateway shows its scope, priority and intake channel if the schema
-- lists them, and its status if it is one of the eight; it shows any other scope as MUNICIPALITY, any
-- other priority as MEDIUM, any other channel as COUNTER, and any other status as DRAFT.
pub texts-shown :
    (scope priority channel status : String)
    → (proto_to_scope (string_to_scope scope) ≡ listed_or Model.all_scope "MUNICIPALITY" scope)
      × (proto_to_priority (string_to_priority priority)
          ≡ listed_or Model.all_priority "MEDIUM" priority)
      × (proto_to_intake_channel (string_to_intake_channel channel)
          ≡ listed_or Model.all_intake_channel "COUNTER" channel)
      × (proto_to_darta_status (string_to_darta_status status)
          ≡ listed_or shown_statuses "DRAFT" status)
texts-shown scope priority channel status = (
  scope-shown scope,
  priority-shown priority,
  intake_channel-shown channel,
  darta_status-shown status,
)
