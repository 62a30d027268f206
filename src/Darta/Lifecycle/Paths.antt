-- ===== src/Darta/Lifecycle/Paths.antt =====
-- What follows from the transition table of services/darta-chalani/internal/domain/darta_service.go
-- for sequences of transitions.
use e_palika.Prelude.{
  ◌≡◌, refl, ◌≢◌, ◌⊎◌, inl, inr, Bool, true, false, not, ◌||◌, String, List, [], ◌∷◌, string_eq,
  ◌==◌, is_one_of, All, All-is_one_of, ◌&◌, ap, arith, eq_iff,
}
use e_palika.Store.Checks.{darta_statuses}
use e_palika.Darta.Lifecycle.{is_valid_status_transition}
use e_palika.Darta.Lifecycle.Edges.{every_transition}

-- Both ends of an accepted transition are statuses that the database allows.
pub transition-statuses :
    (from to : String)
    → is_valid_status_transition from to ≡ true
    → (is_one_of from darta_statuses ≡ true) × (is_one_of to darta_statuses ≡ true)
transition-statuses from to h = (
  every_transition (λ a b. is_one_of a darta_statuses) refl from to h,
  every_transition (λ a b. is_one_of b darta_statuses) refl from to h,
)

-- Sequences of accepted transitions.
pub data Reach : String → String → Type 0 where
  here : {s : String} → Reach s s
  next : {s t u : String} → is_valid_status_transition s t ≡ true → Reach t u → Reach s u

-- The same, where no transition enters the status `avoid`.
pub data Route (avoid : String) (s : String) : String → Type 0 where
  start : Route avoid s s
  step :
      {t u : String}
      → Route avoid s t
      → is_valid_status_transition t u ≡ true
      → u ≢ avoid
      → Route avoid s u

-- The statuses of a darta that has never been registered.
abbrev pub unregistered : List String
unregistered = "DRAFT" ∷ "PENDING_REVIEW" ∷ "CLASSIFICATION" ∷ "VOIDED" ∷ []

conclude : (a b c : Bool) → (not a || b || c) ≡ true → a ≡ true → c ≢ true → b ≡ true
conclude a b c h p q = ground arith

unregistered-step :
    (t u : String)
    → is_valid_status_transition t u ≡ true
    → u ≢ "NUMBER_RESERVED"
    → is_one_of t unregistered ≡ true
    → is_one_of u unregistered ≡ true
unregistered-step t u h ne m =
    conclude _ _ _
      (every_transition
        (λ a b.
          not (is_one_of a unregistered) || is_one_of b unregistered || b == "NUMBER_RESERVED")
        refl t u h)
      m (λ e. ne ((eq_iff u "NUMBER_RESERVED").0 e))

-- A darta that has never been registered stays so along every sequence of accepted transitions that
-- does not pass through NUMBER_RESERVED: no status of the registered part of the life cycle is
-- reached without a reserved number.
pub Route-unregistered :
    {s t : String}
    → is_one_of s unregistered ≡ true
    → Route "NUMBER_RESERVED" s t
    → is_one_of t unregistered ≡ true
Route-unregistered m start = m
Route-unregistered m (step {t} {u} r h ne) = unregistered-step t u h ne (Route-unregistered m r)

-- The statuses with no way out.
abbrev pub terminal : List String
terminal = "VOIDED" ∷ "SUPERSEDED" ∷ "CLOSED" ∷ []

abbrev pub IsSettled : String → Type 0
IsSettled s =
    ((is_one_of s terminal ≡ true) × ((to : String) → is_valid_status_transition s to ≡ false))
    ⊎ ((is_one_of s terminal ≡ false) × ((to : String) × (is_valid_status_transition s to ≡ true)))

statuses-IsSettled : All IsSettled darta_statuses
unfolding is_valid_status_transition
statuses-IsSettled =
    inr (refl, ("VOIDED", refl))
    & inr (refl, ("VOIDED", refl))
    & inr (refl, ("NUMBER_RESERVED", refl))
    & inr (refl, ("REGISTERED", refl))
    & inr (refl, ("ASSIGNED", refl))
    & inl (refl, λ to. refl)
    & inr (refl, ("METADATA_ENRICHED", refl))
    & inr (refl, ("DIGITALLY_ARCHIVED", refl))
    & inr (refl, ("ASSIGNED", refl))
    & inr (refl, ("VOIDED", refl))
    & inr (refl, ("ACCEPTED", refl))
    & inr (refl, ("IN_REVIEW_BY_SECTION", refl))
    & inr (refl, ("ACTION_TAKEN", refl))
    & inr (refl, ("CLOSED", refl))
    & inr (refl, ("CLOSED", refl))
    & inr (refl, ("CLOSED", refl))
    & inr (refl, ("CLOSED", refl))
    & inl (refl, λ to. refl)
    & inl (refl, λ to. refl)
    & tt

-- Of the statuses that the database allows, exactly VOIDED, SUPERSEDED and CLOSED accept no further
-- transition; each other one accepts some transition.
pub status-IsSettled : (s : String) → is_one_of s darta_statuses ≡ true → IsSettled s
status-IsSettled s = All-is_one_of IsSettled darta_statuses s statuses-IsSettled

abbrev Closes : String → Type 0
Closes s = Reach s "CLOSED"

-- Every live status, each at the head of a way to CLOSED.
abbrev pub live : List String
live =
    "DRAFT" ∷ "PENDING_REVIEW" ∷ "CLASSIFICATION" ∷ "NUMBER_RESERVED" ∷ "REGISTERED" ∷ "SCANNED"
    ∷ "METADATA_ENRICHED" ∷ "DIGITALLY_ARCHIVED" ∷ "ASSIGNED" ∷ "NEEDS_CLARIFICATION"
    ∷ "IN_REVIEW_BY_SECTION" ∷ "ACCEPTED" ∷ "ACTION_TAKEN" ∷ "RESPONSE_ISSUED" ∷ "ACK_REQUESTED"
    ∷ "ACK_RECEIVED" ∷ "CLOSED" ∷ []

live-Closes : All Closes live
unfolding is_valid_status_transition
live-Closes =
    let closed : Closes "CLOSED" = here in
    let action : Closes "ACTION_TAKEN" = next refl closed in
    let accepted : Closes "ACCEPTED" = next refl action in
    let review : Closes "IN_REVIEW_BY_SECTION" = next refl accepted in
    let assigned : Closes "ASSIGNED" = next refl review in
    let archived : Closes "DIGITALLY_ARCHIVED" = next refl assigned in
    let enriched : Closes "METADATA_ENRICHED" = next refl archived in
    let scanned : Closes "SCANNED" = next refl enriched in
    let registered : Closes "REGISTERED" = next refl assigned in
    let reserved : Closes "NUMBER_RESERVED" = next refl registered in
    let classification : Closes "CLASSIFICATION" = next refl reserved in
    let pending : Closes "PENDING_REVIEW" = next refl classification in
    let received : Closes "ACK_RECEIVED" = next refl closed in
    (next refl pending)
    & pending
    & classification
    & reserved
    & registered
    & scanned
    & enriched
    & archived
    & assigned
    & (next refl review)
    & review
    & accepted
    & action
    & (next refl closed)
    & (next refl received)
    & received
    & closed
    & tt

-- From every status of the life cycle but VOIDED and SUPERSEDED there is a sequence of accepted
-- transitions to CLOSED.
pub live-Reach : (s : String) → is_one_of s live ≡ true → Reach s "CLOSED"
live-Reach s = All-is_one_of Closes live s live-Closes

-- No sequence of accepted transitions from another status ends in SUPERSEDED.
pub Reach-ne-superseded : {s t : String} → Reach s t → s ≢ "SUPERSEDED" → t ≢ "SUPERSEDED"
Reach-ne-superseded here ne = ne
Reach-ne-superseded (next {s} {t} h r) ne = Reach-ne-superseded r (λ e. cc (
  every_transition (λ a b. not (b == "SUPERSEDED")) refl s t h,
  ap not ((eq_iff t "SUPERSEDED").1 e),
))
