-- ===== src/Tests/Chalani.antt =====
-- The theorems on the chalani handlers at concrete inputs.
use e_palika.Prelude.{ℕ, ◌≡◌, ◌≤◌, refl, true, false, none, some, [], ◌∷◌, ◌==◌, nat_eq, select}
use e_palika.Prelude.Int.{pos}
use e_palika.Store.Types.{Chalani, null_time, at_time}
use e_palika.Store.Exec.{Db, ok}
use e_palika.Store.Table.{find, clashes}
use e_palika.Store.Checks.{chalani_checks, chalani_collision}
use e_palika.Store.Chalanis.{chalani_key, get_chalani_simple}
use e_palika.Grpc.Chalani.{
  submit_chalani, approve_chalani, dispatch_chalani, mark_chalani_delivered, void_chalani,
  reserve_chalani_number,
}
use e_palika.Grpc.Chalani.Outcomes.{StatusOutcome, statuses-outcome}
use e_palika.Grpc.Chalani.Success.{IsUpdated, statuses-IsUpdated}
use e_palika.Domain.Errors.{Code}
use e_palika.Store.Types.{ChalaniSignatory}
use e_palika.Store.Chalanis.Relations.{of_chalani}
use e_palika.Store.Chalanis.Approvals.{check_all_signatories_approved}
use e_palika.Store.Chalanis.Approvals.Approved.{
  all, is_settled, check_all_signatories_approved-settled,
}
use e_palika.Proto.Enums.{Scope, RecipientType}
use e_palika.Proto.Messages.{CreateChalaniInput}
use e_palika.Grpc.Chalani.Creation.{create_chalani}
use e_palika.Grpc.Chalani.Refusals.{IsRefused, create_chalani-IsRefused}
use e_palika.Grpc.Chalani.Lists.{list_chalanis}
use e_palika.Grpc.Chalani.EmptyLists.{IsSound, nothing}
use e_palika.Grpc.Chalani.Requests.{Request, Serves, after}
use e_palika.Grpc.Chalani.History.{IsKept, Serves-IsKept, Serves-nothing}
use e_palika.Store.Steady.{ahead}
use e_palika.Tests.Samples.{office, desk, packages}

-- A void chalani.
abbrev voided : Chalani
voided = record {
  id = 4;
  chalani_number = some 3;
  formatted_chalani_number = some "2081/MUN/C-00003";
  fiscal_year_id = "2081";
  scope = "MUNICIPALITY";
  ward_id = none;
  subject = "Notice";
  body = "To all";
  template_id = none;
  linked_darta_id = none;
  recipient_id = 8;
  status = "VOIDED";
  is_fully_approved = false;
  dispatch_channel = none;
  dispatched_at = null_time;
  dispatched_by = none;
  tracking_id = none;
  courier_name = none;
  is_acknowledged = false;
  acknowledged_at = null_time;
  acknowledged_by = none;
  acknowledgement_proof_id = none;
  delivered_at = null_time;
  delivered_proof_id = none;
  superseded_by_id = none;
  supersedes_id = none;
  created_by = "clerk";
  created_at = at_time (pos 0);
  updated_at = at_time (pos 0);
  tenant_id = "default";
  idempotency_key = none;
  metadata = none;
}

abbrev out_tray : Db
out_tray = record desk { chalanis = voided ∷ [] }

statuses-outcome_example :
    StatusOutcome packages "||||" "PENDING_REVIEW" out_tray
      (submit_chalani packages "||||" out_tray)
    × StatusOutcome packages "||||" "APPROVED" out_tray (approve_chalani packages "||||" out_tray)
    × StatusOutcome packages "||||" "DISPATCHED" out_tray
        (dispatch_chalani packages "||||" out_tray)
    × StatusOutcome packages "||||" "DELIVERED" out_tray
        (mark_chalani_delivered packages "||||" out_tray)
    × StatusOutcome packages "||||" "VOIDED" out_tray (void_chalani packages "||||" out_tray)
statuses-outcome_example = statuses-outcome packages "||||" out_tray

given : packages.parse_uuid "||||" ≡ some 4
unfolding packages
given = refl

found : find chalani_key 4 out_tray.chalanis ≡ some voided
unfolding find
found = refl

alone : clashes chalani_key (chalani_collision voided) voided.id out_tray.chalanis ≡ false
unfolding clashes
alone = refl

sound : chalani_checks voided ≡ true
unfolding chalani_checks
sound = refl

statuses-IsUpdated_example :
    IsUpdated packages out_tray voided "PENDING_REVIEW" (submit_chalani packages "||||" out_tray)
    × IsUpdated packages out_tray voided "APPROVED" (approve_chalani packages "||||" out_tray)
    × IsUpdated packages out_tray voided "DISPATCHED" (dispatch_chalani packages "||||" out_tray)
    × IsUpdated packages out_tray voided "DELIVERED"
        (mark_chalani_delivered packages "||||" out_tray)
    × IsUpdated packages out_tray voided "VOIDED" (void_chalani packages "||||" out_tray)
statuses-IsUpdated_example =
    statuses-IsUpdated packages "||||" out_tray 4 voided refl given found alone sound

abbrev notice : CreateChalaniInput
notice = record {
  scope = Scope.municipality;
  ward_id = "";
  subject = "Notice";
  body = "To all";
  template_id = "";
  linked_darta_id = "";
  recipient = some (record {
    type = RecipientType.citizen;
    name = "Hari";
    organization = "";
    email = "";
    phone = "";
    address = "Ward 5";
  });
  idempotency_key = "";
  tenant_id = "";
}

create_chalani-IsRefused_example :
    IsRefused Code.invalid_argument out_tray (create_chalani packages office notice out_tray)
create_chalani-IsRefused_example = create_chalani-IsRefused packages office notice out_tray

out_tray-IsSound : IsSound out_tray
out_tray-IsSound = record { checked = (sound, tt) }

abbrev signatory : ChalaniSignatory
signatory = record {
  id = 20;
  chalani_id = some 4;
  user_id = "mayor";
  role_id = "mayor";
  order_num = pos 1;
  is_required = true;
  created_at = at_time (pos 0);
}

-- The signatory has rejected the chalani, and then approved it.
abbrev signing : Db
signing = record out_tray {
  signatories = signatory ∷ [];
  approvals =
      record {
        id = 31;
        chalani_id = some 4;
        signatory_id = some 20;
        decision = "REJECTED";
        notes = none;
        approved_at = at_time (pos 0);
      }
      ∷ record {
        id = 32;
        chalani_id = some 4;
        signatory_id = some 20;
        decision = "APPROVED";
        notes = none;
        approved_at = at_time (pos 1);
      }
      ∷ [];
  outages = [];
}

check_all_signatories_approved-settled_example :
    (n : ℕ × ℕ) × (check_all_signatories_approved 4 signing ≡ (ok n, signing))
    × (n.1 ≤ n.0)
    × ((n.0 == n.1)
        ≡ all (is_settled signing.approvals) (select (of_chalani 4) signing.signatories))
check_all_signatories_approved-settled_example =
    check_all_signatories_approved-settled 4 signing refl

-- A void chalani is approved, and then asked to be numbered while the database is away.
abbrev approved_store : Db
approved_store = after packages office (Request.approve "||||") out_tray

abbrev last : Db
last =
    after packages office (Request.reserve_number "||||")
      (ahead (record approved_store { now = pos 2000 }) [] (true ∷ []))

calls : Serves packages out_tray last
calls = Serves.call office out_tray last (Request.approve "||||") (
    Serves.pass (pos 2000) [] (true ∷ []) approved_store last (
      Serves.call office (ahead (record approved_store { now = pos 2000 }) [] (true ∷ [])) last
        (Request.reserve_number "||||") (Serves.none last)))

Serves-IsKept_example : IsKept out_tray last
Serves-IsKept_example = Serves-IsKept packages out_tray last calls

last-on_time : last.outages ≡ []
unfolding after reserve_chalani_number packages get_chalani_simple
last-on_time = refl

Serves-nothing_example : list_chalanis packages office none none last ≡ (ok nothing, last)
Serves-nothing_example =
    Serves-nothing packages out_tray last calls out_tray-IsSound last-on_time office none none 0
      refl
