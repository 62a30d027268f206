-- ===== src/Store/Dartas.antt =====
-- services/darta-chalani/internal/db/dartas.sql.go: the statements on single rows of `dartas`.
pub mod Laws
pub mod Numbers
pub mod Runs
use e_palika.Prelude.{
  ℕ, suc, ◌+◌, ◌<◌, ◌≡◌, Bool, true, false, ◌&&◌, String, Option, none, some, List, [], ◌∷◌, ◌++◌,
  ◌==◌, nat_eq, string_eq, if◌then◌else◌, ltb, select, find_first,
}
use e_palika.Prelude.Int.{half32}
use e_palika.Domain.Errors.{
  database, no_rows, check_violation, unique_violation, foreign_key_violation, out_of_range,
  unavailable,
}
use e_palika.Store.Types.{Uuid, Timestamptz, Json, Applicant, Darta, null_time, at_time}
use e_palika.Store.Exec.{Db, Result, ok, err, Exec, statement}
use e_palika.Store.Table.{find, replace, clashes}
use e_palika.Store.Checks.{darta_checks, darta_collision, overdue, sql_eq}

abbrev pub darta_key : Darta → Uuid
darta_key d = d.id

abbrev pub applicant_key : Applicant → Uuid
applicant_key a = a.id

-- `gen_random_uuid()`.
abbrev pub draw_uuid : {A : Type 0} → (Uuid → Exec A) → Exec A
draw_uuid k db = elim db.uuids [
  | [] ↦ (err (database unavailable), db)
  | id ∷ rest ↦ k id (record db { uuids = rest })
]

-- A row as it is written: NOW() in `updated_at`, and the generated column.
abbrev pub stamped : Db → Darta → Darta
stamped db d = record d { updated_at = at_time db.now; is_overdue = some (overdue db.now d) }

-- The row with the key of `d` becomes `d`, if the constraints hold.
unfoldable pub put_darta : Darta → Exec Darta
put_darta d db =
    if darta_checks d
    then (if clashes darta_key (darta_collision d) d.id db.dartas
        then (err (database unique_violation), db)
        else (ok d, record db { dartas = replace darta_key d db.dartas }))
    else (err (database check_violation), db)

-- The row that UPDATE finds, changed and written.
abbrev pub change_darta : Option Darta → (Darta → Darta) → Exec Darta
change_darta none change db = (err (database no_rows), db)
change_darta (some d) change db = put_darta (stamped db (change d)) db

-- UPDATE dartas SET … WHERE id = $1 RETURNING *
unfoldable pub update_darta : Uuid → (Darta → Darta) → Exec Darta
unfolding put_darta statement
update_darta id change = statement λ db. change_darta (find darta_key id db.dartas) change db

unfoldable pub close_darta : Uuid → Exec Darta
unfolding update_darta
close_darta id = update_darta id (λ d. record d { status = "CLOSED" })

unfoldable pub void_darta : Uuid → Exec Darta
unfolding update_darta
void_darta id = update_darta id (λ d. record d { status = "VOIDED" })

unfoldable pub update_darta_status : Uuid → String → Exec Darta
unfolding update_darta
update_darta_status id status = update_darta id (λ d. record d { status = status })

unfoldable pub update_darta_number : Uuid → Option ℕ → Option String → Exec Darta
unfolding update_darta
update_darta_number id number formatted =
    update_darta id (λ d. record d { darta_number = number; formatted_darta_number = formatted })

unfoldable pub update_darta_classification : Uuid → Option String → Exec Darta
unfolding update_darta
update_darta_classification id code = update_darta id (λ d. record d { classification_code = code })

unfoldable pub update_darta_metadata : Uuid → Option Json → Exec Darta
unfolding update_darta
update_darta_metadata id metadata = update_darta id (λ d. record d { metadata = metadata })

abbrev pub coalesce : Option String → String → String
coalesce none old = old
coalesce (some new) old = new

unfoldable pub update_darta_assignment :
    Uuid → Option String → Option String → Timestamptz → Option String → Exec Darta
unfolding update_darta
update_darta_assignment id unit assignee deadline priority = update_darta id (λ d. record d {
  assigned_to_unit_id = unit;
  current_assignee_id = assignee;
  sla_deadline = deadline;
  priority = coalesce priority d.priority;
})

abbrev pub row_or_none : {R : Type 0} → Option R → Exec R
row_or_none none db = (err (database no_rows), db)
row_or_none (some r) db = (ok r, db)

unfoldable pub get_darta_simple : Uuid → Exec Darta
unfolding statement
get_darta_simple id = statement λ db. row_or_none (find darta_key id db.dartas) db

-- A row of `dartas` joined with its applicant.
pub record DartaRow : Type 0 where
  pub darta : Darta
  pub applicant : Applicant

abbrev pub with_applicant : Darta → Option Applicant → Option DartaRow
with_applicant d none = none
with_applicant d (some a) = some (record { darta = d; applicant = a })

abbrev pub join_applicant : Db → Darta → Option DartaRow
join_applicant db d = with_applicant d (find applicant_key d.applicant_id db.applicants)

abbrev pub joined_row : Option Darta → Exec DartaRow
joined_row none db = (err (database no_rows), db)
joined_row (some d) db = row_or_none (join_applicant db d) db

unfoldable pub get_darta : Uuid → Exec DartaRow
unfolding statement
get_darta id = statement λ db. joined_row (find darta_key id db.dartas) db

abbrev pub with_key : Option String → String → List Darta → Option Darta
with_key key tenant rows =
    find_first (λ (d : Darta). sql_eq d.idempotency_key key && d.tenant_id == tenant) rows

unfoldable pub get_darta_by_idempotency_key : Option String → String → Exec Darta
unfolding statement
get_darta_by_idempotency_key key tenant =
    statement λ db. row_or_none (with_key key tenant db.dartas) db

-- `ward_id = $w OR (ward_id IS NULL AND $w IS NULL)`
abbrev pub same_ward : Option String → Option String → Bool
same_ward none none = true
same_ward none (some _) = false
same_ward (some _) none = false
same_ward (some a) (some b) = a == b

-- The rows that number together, as GetNextDartaNumber selects them.
abbrev pub in_series : String → String → Option String → String → Darta → Bool
in_series fiscal_year scope ward tenant d =
    d.fiscal_year_id == fiscal_year
    && d.scope == scope
    && same_ward d.ward_id ward
    && d.tenant_id == tenant

abbrev pub number_or_zero : Option ℕ → ℕ
number_or_zero none = 0
number_or_zero (some n) = n

-- COALESCE(MAX(darta_number), 0)
unfoldable pub max_number : List Darta → ℕ
max_number [] = 0
max_number (d ∷ ds) =
    let rest = max_number ds in
    let n = number_or_zero d.darta_number in if ltb rest n then n else rest

-- The engine's check of an INTEGER.
abbrev pub in_range : ℕ → Exec ℕ
in_range n db = if ltb n half32 then (ok n, db) else (err (database out_of_range), db)

unfoldable pub get_next_darta_number : String → String → Option String → String → Exec ℕ
unfolding statement max_number
get_next_darta_number fiscal_year scope ward tenant =
    statement λ db.
      in_range (max_number (select (in_series fiscal_year scope ward tenant) db.dartas) + 1) db

pub record CreateDartaParams : Type 0 where
  pub fiscal_year_id : String
  pub scope : String
  pub ward_id : Option String
  pub subject : String
  pub applicant_id : Uuid
  pub intake_channel : String
  pub received_date : Timestamptz
  pub entry_date : Timestamptz
  pub is_backdated : Bool
  pub backdate_reason : Option String
  pub backdate_approver_id : Option String
  pub primary_document_id : Uuid
  pub status : String
  pub priority : String
  pub created_by : String
  pub tenant_id : String
  pub idempotency_key : Option String
  pub metadata : Option Json

-- The row that INSERT builds, the columns that it does not name at their defaults.
abbrev pub new_darta : Db → Uuid → CreateDartaParams → Darta
new_darta db id p = stamped db (record {
  id = id;
  darta_number = none;
  formatted_darta_number = none;
  fiscal_year_id = p.fiscal_year_id;
  scope = p.scope;
  ward_id = p.ward_id;
  subject = p.subject;
  applicant_id = p.applicant_id;
  intake_channel = p.intake_channel;
  received_date = p.received_date;
  entry_date = p.entry_date;
  is_backdated = p.is_backdated;
  backdate_reason = p.backdate_reason;
  backdate_approver_id = p.backdate_approver_id;
  primary_document_id = p.primary_document_id;
  status = p.status;
  priority = p.priority;
  classification_code = none;
  assigned_to_unit_id = none;
  current_assignee_id = none;
  sla_deadline = null_time;
  is_overdue = none;
  created_by = p.created_by;
  created_at = at_time db.now;
  updated_at = null_time;
  tenant_id = p.tenant_id;
  idempotency_key = p.idempotency_key;
  metadata = p.metadata;
})
