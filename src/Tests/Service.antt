-- ===== src/Tests/Service.antt =====
-- The theorems on the creation, the deadlines, the lists and the statistics at concrete inputs.
use e_palika.Prelude.{
  ℕ, ◌*◌, ◌≡◌, refl, Bool, false, ◌==◌, eq_iff, String, none, some, List, [], ◌∷◌, nat_eq,
  string_eq, arith, select,
}
use e_palika.Prelude.Int.{pos, ◌+ℤ◌}
use e_palika.Domain.Context.{Ctx, text, get_user_context}
use e_palika.Store.Types.{Darta}
use e_palika.Store.Exec.{Db, ok}
use e_palika.Store.Checks.{darta_checks, darta_collision, overdue}
use e_palika.Store.Listing.Statistics.{
  get_darta_stats_by_status, get_darta_stats_by_channel, StatsParams,
}
use e_palika.Store.Listing.Selected.{Selects}
use e_palika.Store.Listing.Tallies.{IsCount, get_darta_stats_by_status-IsCount}
use e_palika.Store.Dartas.{get_darta_by_idempotency_key}
use e_palika.Store.Table.{find}
use e_palika.Store.Creation
use e_palika.Store.Creation.{get_applicant, get_attachment}
use e_palika.Darta.Service.{
  CreateDartaInput, create_darta, validate_create_darta_input, existing_darta, marshal_metadata,
  create_new_darta, add_annexes,
}
use e_palika.Darta.Service.Assignment.{sla_deadline}
use e_palika.Darta.Service.Submission.{CreateOutcome, create_darta-outcome, created_row}
use e_palika.Darta.Service.Idempotency.{create_darta_twice}
use e_palika.Darta.Service.Deadline.{sla_deadline-exact}
use e_palika.Proto.Messages.{DartaMessage, Connection}
use e_palika.Grpc.Darta.Lists
use e_palika.Grpc.Darta.EmptyLists.{IsEmpty, list_dartas-nothing}
use e_palika.Tests.Samples.{office, desk, desk-IsSound, packages}

abbrev submitted : CreateDartaInput
submitted = record {
  fiscal_year_id = "2081";
  scope = "WARD";
  ward_id = some "5";
  subject = "Road repair";
  applicant_id = 5;
  intake_channel = "COUNTER";
  received_date = pos 10;
  primary_document_id = 6;
  annex_ids = 6 ∷ [];
  priority = "HIGH";
  is_backdated = false;
  backdate_reason = none;
  backdate_approver_id = none;
  idempotency_key = "k1";
  metadata = none;
}

abbrev received : Darta
received = created_row (get_user_context office) submitted desk 20

accepted : (create_darta office submitted desk).0 ≡ ok received
unfolding create_darta validate_create_darta_input existing_darta get_darta_by_idempotency_key
    create_new_darta get_applicant find get_attachment Creation.create_darta darta_checks
    darta_collision add_annexes overdue marshal_metadata
accepted = refl

abbrev afterwards : Db
afterwards = record desk { dartas = (create_darta office submitted desk).1.dartas; now = pos 5000 }

create_darta-outcome_example :
    CreateOutcome office submitted desk (create_darta office submitted desk)
create_darta-outcome_example = create_darta-outcome office submitted desk

-- Another caller of the same tenant.
abbrev deputy : Ctx
deputy = ("tenant_id", text "default") ∷ ("user_id", text "deputy") ∷ []

deputy_tenant : (get_user_context deputy).tenant_id ≡ (get_user_context office).tenant_id
unfolding get_user_context
deputy_tenant = refl

create_darta_twice_example : create_darta deputy submitted afterwards ≡ (ok received, afterwards)
create_darta_twice_example =
    create_darta_twice office deputy submitted refl deputy_tenant desk afterwards received accepted
      refl refl refl

sla_deadline-exact_example :
    sla_deadline (pos 1000) (some (pos 24)) ≡ some (pos 1000 +ℤ pos (24 * 3600000000000))
sla_deadline-exact_example = sla_deadline-exact (pos 1000) 24 (omega arith) (omega arith)

list_dartas-nothing_example :
    (c : Connection DartaMessage) × (Lists.list_dartas packages office none none desk
      ≡ (ok c, desk))
    × IsEmpty c
list_dartas-nothing_example = list_dartas-nothing packages office desk desk-IsSound refl none none

abbrev tenant : StatsParams
tenant = record { tenant_id = "default"; fiscal_year_id = none; scope = none; ward_id = none }

abbrev by_status : List (String × ℕ)
by_status = ("CLASSIFICATION", 1) ∷ ("REGISTERED", 1) ∷ []

counted : (get_darta_stats_by_status tenant desk).0 ≡ ok by_status
unfolding get_darta_stats_by_status
counted = refl

abbrev is_ours : Darta → Bool
is_ours d = d.tenant_id == "default"

is_ours-Selects : Selects is_ours tenant
is_ours-Selects d = (
  λ h. record {
    tenant = (eq_iff d.tenant_id "default").0 h;
    fiscal_year = λ y e. cc;
    scope = λ s e. cc;
    ward = λ w e. cc;
  },
  λ asked. (eq_iff d.tenant_id "default").1 asked.tenant,
)

get_darta_stats_by_status-IsCount_example :
    IsCount (λ d. d.status) (select is_ours desk.dartas) by_status
get_darta_stats_by_status-IsCount_example =
    get_darta_stats_by_status-IsCount tenant desk by_status is_ours is_ours-Selects counted

abbrev by_channel : List (String × ℕ)
by_channel = ("COUNTER", 2) ∷ []

channels_counted : (get_darta_stats_by_channel tenant desk).0 ≡ ok by_channel
unfolding get_darta_stats_by_channel
channels_counted = refl
