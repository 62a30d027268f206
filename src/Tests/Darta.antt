-- ===== src/Tests/Darta.antt =====
-- The theorems on the darta service at concrete inputs.
use e_palika.Prelude.{
  ◌≡◌, refl, ◌≢◌, true, String, some, [], ◌∷◌, is_one_of, string_eq, eq_iff, All,
}
use e_palika.Prelude.Int.{pos}
use e_palika.Domain.Context.{get_user_context}
use e_palika.Domain.Errors.{Code, wrapped, sentinel, darta_not_found}
use e_palika.Store.Types.{Darta}
use e_palika.Store.Exec.{ok}
use e_palika.Store.Dartas
use e_palika.Store.Table.{find, clashes}
use e_palika.Store.Checks.{darta_checks, darta_collision}
use e_palika.Store.Dartas
use e_palika.Store.Dartas.{darta_key}
use e_palika.Darta.Lifecycle.{is_valid_status_transition}
use e_palika.Darta.Lifecycle.Paths
use e_palika.Darta.Lifecycle.Paths.{Reach, Route, unregistered, live}
use e_palika.Darta.Service.{
  reserve_darta_number, reserve_new_number, store_number, update_darta_status,
}
use e_palika.Prelude.{◌<◌, false, arith}
use e_palika.Prelude.Int.{half32}
use e_palika.Store.Dartas.{max_number}
use e_palika.Darta.Service.Success.{update_darta_status-succeeds, reserve_darta_number-succeeds}
use e_palika.Darta.Service.Status.{moved, StatusOutcome, update_darta_status-outcome}
use e_palika.Darta.Service.Reservation.{
  ReserveOutcome, reserve_darta_number-outcome, numbered, reserved_row, next_for,
}
use e_palika.Darta.Service.Numbering.{
  IsNumbered, reserve_darta_number-IsNumbered, reserve_darta_number_twice,
}
use e_palika.Proto.Enums.{Priority, ApplicantType, Scope, IntakeChannel}
use e_palika.Proto.Messages.{CreateDartaInput, RouteDartaInput, ApplicantInput}
use e_palika.Grpc.Interceptors.{unary_auth_interceptor}
use e_palika.Grpc.Interceptors.Callers.{IsGiven, unary_auth_interceptor-given}
use e_palika.Grpc.Converters.{proto_to_priority}
use e_palika.Grpc.Status.{code_of, code_for, root, map_domain_error, code_of-map_domain_error}
use e_palika.Grpc.Darta as Server
use e_palika.Grpc.Darta.Records
use e_palika.Grpc.Darta.Refusals.{
  IsRefused, create_darta-IsRefused, route_darta-IsRefused, unlisted_status-IsRefused,
}
use e_palika.Tests.Samples.{office, desk, classified, registered, packages}

abbrev answered : Darta
answered = numbered desk classified 8

reserved : (reserve_darta_number office 3 desk).0 ≡ ok answered
unfolding reserve_darta_number Dartas.get_darta_simple find reserve_new_number
    Dartas.get_next_darta_number store_number Dartas.update_darta_number darta_checks clashes
    darta_collision
reserved = refl

found_classified : find darta_key 3 desk.dartas ≡ some classified
unfolding find
found_classified = refl

found_registered : find darta_key 2 desk.dartas ≡ some registered
unfolding find
found_registered = refl

reserve_darta_number-IsNumbered_example :
    IsNumbered 3 classified desk answered (reserve_darta_number office 3 desk).1
reserve_darta_number-IsNumbered_example =
    reserve_darta_number-IsNumbered office 3 desk classified answered found_classified refl reserved

reserve_darta_number_twice_example :
    (reserve_darta_number office 3 (reserve_darta_number office 3 desk).1).1.dartas
    ≡ (reserve_darta_number office 3 desk).1.dartas
reserve_darta_number_twice_example = reserve_darta_number_twice office 3 desk answered reserved

reserve_darta_number-outcome_example :
    ReserveOutcome office 3 desk (reserve_darta_number office 3 desk)
reserve_darta_number-outcome_example = reserve_darta_number-outcome office 3 desk

update_darta_status-outcome_example :
    StatusOutcome office 2 "VOIDED" desk (update_darta_status office 2 "VOIDED" desk)
update_darta_status-outcome_example = update_darta_status-outcome office 2 "VOIDED" desk

abbrev citizen : ApplicantInput
citizen = record {
  type = ApplicantType.citizen;
  full_name = "Sita";
  organization = "";
  email = "";
  phone = "";
  address = "";
  identification_number = "";
}

abbrev request : CreateDartaInput
request = record {
  scope = Scope.municipality;
  ward_id = "";
  subject = "Road repair";
  applicant = some citizen;
  intake_channel = IntakeChannel.counter;
  received_date = some (pos 0);
  primary_document_id = "||||||";
  annex_ids = [];
  priority = Priority.medium;
  idempotency_key = "";
  tenant_id = "default";
}

create_darta-IsRefused_example :
    IsRefused Code.invalid_argument desk (Server.create_darta packages office (some request) desk)
create_darta-IsRefused_example = create_darta-IsRefused packages office desk (some request)

abbrev routing : RouteDartaInput
routing = record {
  darta_id = "||";
  organizational_unit_id = "roads";
  assignee_id = "engineer";
  priority = Priority.high;
  sla_hours = pos 24;
  notes = "";
}

route_darta-IsRefused_example :
    IsRefused Code.internal desk (Server.route_darta packages office (some routing) desk)
unfolding packages proto_to_priority
route_darta-IsRefused_example =
    route_darta-IsRefused packages office desk routing 2 "PRIORITY_HIGH" refl refl

unlisted_status-IsRefused_example :
    IsRefused Code.internal desk (Records.finalize_darta_archive packages office "||" desk)
    × IsRefused Code.internal desk (Records.request_darta_clarification packages office "||" desk)
    × IsRefused Code.internal desk (Records.accept_darta packages office "||" desk)
    × IsRefused Code.internal desk (Records.issue_darta_response packages office "||" desk)
unfolding packages
unlisted_status-IsRefused_example = unlisted_status-IsRefused packages office "||" 2 desk refl

code_of-map_domain_error_example :
    code_of (map_domain_error (wrapped "failed" (sentinel darta_not_found)))
    ≡ some (code_for (root (wrapped "failed" (sentinel darta_not_found))))
code_of-map_domain_error_example =
    code_of-map_domain_error (wrapped "failed" (sentinel darta_not_found))

unary_auth_interceptor-given_example :
    IsGiven
      (get_user_context (unary_auth_interceptor (some (("x-user-id", "ram" ∷ []) ∷ [])) [])).user_id
    × IsGiven
        (get_user_context
          (unary_auth_interceptor (some (("x-user-id", "ram" ∷ []) ∷ [])) [])).tenant_id
    × All IsGiven
        (get_user_context (unary_auth_interceptor (some (("x-user-id", "ram" ∷ []) ∷ [])) [])).roles
unary_auth_interceptor-given_example =
    unary_auth_interceptor-given (("x-user-id", "ram" ∷ []) ∷ []) []

live-Reach_example : Reach "DRAFT" "CLOSED"
live-Reach_example = Paths.live-Reach "DRAFT" refl

draft_voided : Reach "DRAFT" "VOIDED"
unfolding is_valid_status_transition
draft_voided = Reach.next refl Reach.here

abbrev voided : String
voided = "VOIDED"

Reach-ne-superseded_example : voided ≢ "SUPERSEDED"
Reach-ne-superseded_example =
    Paths.Reach-ne-superseded draft_voided (λ e. cc ((eq_iff "DRAFT" "SUPERSEDED").1 e))

route : Route "NUMBER_RESERVED" "DRAFT" "PENDING_REVIEW"
unfolding is_valid_status_transition
route = Route.step Route.start refl (λ e. cc ((eq_iff "PENDING_REVIEW" "NUMBER_RESERVED").1 e))

Route-unregistered_example : is_one_of "PENDING_REVIEW" unregistered ≡ true
Route-unregistered_example = Paths.Route-unregistered refl route

classified_checked : darta_checks classified ≡ true
unfolding darta_checks
classified_checked = refl

registered_checked : darta_checks registered ≡ true
unfolding darta_checks
registered_checked = refl

registered_alone : clashes darta_key (darta_collision registered) 2 desk.dartas ≡ false
unfolding clashes darta_collision
registered_alone = refl

next_free : next_for desk classified < half32
unfolding max_number
next_free = omega arith

answered_alone :
    clashes darta_key
      (darta_collision (numbered desk classified (next_for desk classified)))
      3
      desk.dartas
    ≡ false
unfolding clashes darta_collision
answered_alone = refl

voiding : is_valid_status_transition "REGISTERED" "VOIDED" ≡ true
unfolding is_valid_status_transition
voiding = refl

update_darta_status-succeeds_example :
    ((update_darta_status office 2 "VOIDED" desk).0 ≡ ok (moved desk registered "VOIDED"))
    × (find darta_key 2 (update_darta_status office 2 "VOIDED" desk).1.dartas
        ≡ some (moved desk registered "VOIDED"))
update_darta_status-succeeds_example =
    update_darta_status-succeeds office 2 "VOIDED" desk registered refl found_registered
      registered_checked registered_alone voiding

reserve_darta_number-succeeds_example :
    ((reserve_darta_number office 3 desk).0
      ≡ ok (numbered desk classified (next_for desk classified)))
    × (find darta_key 3 (reserve_darta_number office 3 desk).1.dartas
        ≡ some (reserved_row desk classified (next_for desk classified)))
reserve_darta_number-succeeds_example =
    reserve_darta_number-succeeds office 3 desk classified refl found_classified refl next_free
      classified_checked answered_alone
