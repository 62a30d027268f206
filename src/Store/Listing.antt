-- ===== src/Store/Listing.antt =====
-- services/darta-chalani/internal/db/dartas.sql.go: the statements on many rows of `dartas`.
pub mod Laws
pub mod Statistics
pub mod Tallies
pub mod Selected
use e_palika.Prelude.{
  ℕ, zero, suc, ◌+◌, ◌≡◌, Bool, true, false, not, ◌&&◌, ◌||◌, String, Option, none, some, List, [],
  ◌∷◌, ◌==◌, nat_eq, string_eq, if◌then◌else◌, ltb, select, take, drop, length, map,
}
use e_palika.Prelude.Int.{ℤ, pos, negsuc, ltb_ℤ, leb_ℤ}
use e_palika.Domain.Errors.{database, negative_limit}
use e_palika.Store.Types.{Timestamptz, Darta}
use e_palika.Store.Exec.{Db, ok, err, Exec, statement}
use e_palika.Store.Checks.{sql_eq}
use e_palika.Store.Dartas.{DartaRow, join_applicant}

-- `$n IS NULL OR column = $n`
abbrev pub matches : Option String → Option String → Bool
matches none column = true
matches (some v) column = sql_eq column (some v)

abbrev flag_matches : Option Bool → Option Bool → Bool
flag_matches none column = true
flag_matches (some v) none = false
flag_matches (some true) (some b) = b
flag_matches (some false) (some b) = not b

-- `$n IS NULL OR column >= $n`, and `<=`, where a NULL column gives no row.
abbrev pub from_matches : Timestamptz → Timestamptz → Bool
from_matches bound column = not bound.valid || (column.valid && leb_ℤ bound.time column.time)

abbrev pub to_matches : Timestamptz → Timestamptz → Bool
to_matches bound column = not bound.valid || (column.valid && leb_ℤ column.time bound.time)

abbrev pub search_matches : (String → String → Bool) → Option String → String → Bool
search_matches ilike none subject = true
search_matches ilike (some s) subject = ilike subject s

-- The inner join with `applicants`.
abbrev pub add_row : Option DartaRow → List DartaRow → List DartaRow
add_row none rows = rows
add_row (some r) rows = r ∷ rows

unfoldable pub join_rows : Db → List Darta → List DartaRow
join_rows db [] = []
join_rows db (d ∷ ds) = add_row (join_applicant db d) (join_rows db ds)

-- ORDER BY: a row goes before the rows that it does not follow.
module _ {R : Type 0} where
  abbrev insert : (R → R → Bool) → R → List R → List R
  insert before r [] = r ∷ []
  insert before r (x ∷ rows) =
      let rest = insert before r rows in if before r x then r ∷ x ∷ rows else x ∷ rest

  unfoldable pub sort : (R → R → Bool) → List R → List R
  sort before [] = []
  sort before (r ∷ rows) = insert before r (sort before rows)

  -- LIMIT and OFFSET, of which neither may be negative.
  abbrev pub page : ℤ → ℤ → List R → Exec (List R)
  page (pos limit) (pos offset) rows db = (ok (take limit (drop offset rows)), db)
  page (pos limit) (negsuc n) rows db = (err (database negative_limit), db)
  page (negsuc n) offset rows db = (err (database negative_limit), db)

pub record ListDartasParams : Type 0 where
  pub fiscal_year_id : Option String
  pub scope : Option String
  pub ward_id : Option String
  pub status : Option String
  pub priority : Option String
  pub intake_channel : Option String
  pub assigned_to_unit_id : Option String
  pub current_assignee_id : Option String
  pub created_by : Option String
  pub is_overdue : Option Bool
  pub from_date : Timestamptz
  pub to_date : Timestamptz
  pub search : Option String
  pub tenant_id : String
  pub sort_by : String
  pub offset : ℤ
  pub limit : ℤ

-- The instants `a` and `b` in descending order, NULL first.
abbrev pub later_time : Timestamptz → Timestamptz → Bool
later_time a b = not a.valid || (b.valid && ltb_ℤ b.time a.time)

abbrev larger_number : Option ℕ → Option ℕ → Bool
larger_number none b = true
larger_number (some a) none = false
larger_number (some a) (some b) = ltb b a

abbrev same_time : Timestamptz → Timestamptz → Bool
same_time a b = not (later_time a b) && not (later_time b a)

abbrev same_number : Option ℕ → Option ℕ → Bool
same_number none none = true
same_number none (some b) = false
same_number (some a) none = false
same_number (some a) (some b) = a == b

abbrev list_order : String → DartaRow → DartaRow → Bool
list_order sort_by a b =
    if sort_by == "received_date" && not (same_time a.darta.received_date b.darta.received_date)
    then later_time a.darta.received_date b.darta.received_date
    else if sort_by == "darta_number" && not (same_number a.darta.darta_number b.darta.darta_number)
    then larger_number a.darta.darta_number b.darta.darta_number
    else later_time a.darta.created_at b.darta.created_at

-- The first four conditions, which the list and the count share.
abbrev pub filed : Option String → Option String → Option String → Option String → Darta → Bool
filed fiscal_year scope ward status d =
    matches fiscal_year (some d.fiscal_year_id)
    && matches scope (some d.scope)
    && matches ward d.ward_id
    && matches status (some d.status)

-- The others.
abbrev pub handled : (String → String → Bool) → ListDartasParams → Darta → Bool
handled ilike p d =
    matches p.priority (some d.priority)
    && matches p.intake_channel (some d.intake_channel)
    && matches p.assigned_to_unit_id d.assigned_to_unit_id
    && matches p.current_assignee_id d.current_assignee_id
    && matches p.created_by (some d.created_by)
    && flag_matches p.is_overdue d.is_overdue
    && from_matches p.from_date d.received_date
    && to_matches p.to_date d.received_date
    && search_matches ilike p.search d.subject
    && d.tenant_id == p.tenant_id

abbrev pub wanted : (String → String → Bool) → ListDartasParams → Darta → Bool
wanted ilike p d = filed p.fiscal_year_id p.scope p.ward_id p.status d && handled ilike p d

unfoldable pub list_dartas : (String → String → Bool) → ListDartasParams → Exec (List DartaRow)
unfolding statement join_rows sort
list_dartas ilike p = statement λ db.
    page p.limit p.offset
      (sort (list_order p.sort_by) (select (λ r. wanted ilike p r.darta) (join_rows db db.dartas)))
      db

pub record CountDartasParams : Type 0 where
  pub fiscal_year_id : Option String
  pub scope : Option String
  pub ward_id : Option String
  pub status : Option String
  pub priority : Option String
  pub assigned_to_unit_id : Option String
  pub current_assignee_id : Option String
  pub is_overdue : Option Bool
  pub from_date : Timestamptz
  pub to_date : Timestamptz
  pub search : Option String
  pub tenant_id : String

abbrev pub count_handled : (String → String → Bool) → CountDartasParams → Darta → Bool
count_handled ilike p d =
    matches p.priority (some d.priority)
    && matches p.assigned_to_unit_id d.assigned_to_unit_id
    && matches p.current_assignee_id d.current_assignee_id
    && flag_matches p.is_overdue d.is_overdue
    && from_matches p.from_date d.received_date
    && to_matches p.to_date d.received_date
    && search_matches ilike p.search d.subject
    && d.tenant_id == p.tenant_id

abbrev pub counted_in : (String → String → Bool) → CountDartasParams → Darta → Bool
counted_in ilike p d =
    filed p.fiscal_year_id p.scope p.ward_id p.status d && count_handled ilike p d

abbrev pub count_rows : (Darta → Bool) → Exec ℕ
count_rows test db = (ok (length (select test db.dartas)), db)

unfoldable pub count_dartas : (String → String → Bool) → CountDartasParams → Exec ℕ
unfolding statement
count_dartas ilike p = statement (count_rows (counted_in ilike p))

abbrev pub mine : Option String → Option String → String → Darta → Bool
mine assignee status tenant d =
    sql_eq d.current_assignee_id assignee && matches status (some d.status) && d.tenant_id == tenant

abbrev overdue_rank : Option Bool → ℕ
overdue_rank (some true) = 0
overdue_rank (some false) = 1
overdue_rank none = 1

-- ORDER BY overdue first, then `priority DESC`, then `received_date DESC`.
abbrev my_order : (String → String → Bool) → DartaRow → DartaRow → Bool
my_order text_ge a b =
    if not (overdue_rank a.darta.is_overdue == overdue_rank b.darta.is_overdue)
    then ltb (overdue_rank a.darta.is_overdue) (overdue_rank b.darta.is_overdue)
    else if not (a.darta.priority == b.darta.priority)
    then text_ge a.darta.priority b.darta.priority
    else later_time a.darta.received_date b.darta.received_date

unfoldable pub get_my_dartas :
    (String → String → Bool) → Option String → Option String → String → ℤ → ℤ → Exec (List DartaRow)
unfolding statement join_rows sort
get_my_dartas text_ge assignee status tenant limit offset = statement λ db.
    page limit offset
      (sort (my_order text_ge)
        (select (λ r. mine assignee status tenant r.darta) (join_rows db db.dartas)))
      db

unfoldable pub count_my_dartas : Option String → Option String → String → Exec ℕ
unfolding statement
count_my_dartas assignee status tenant = statement (count_rows (mine assignee status tenant))
