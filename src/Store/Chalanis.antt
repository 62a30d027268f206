-- ===== src/Store/Chalanis.antt =====
-- services/darta-chalani/internal/db/chalanis.sql.go: the statements on single rows of `chalanis` that
-- the handlers for the status and the number run.
pub mod Laws
pub mod Updates
pub mod Relations
pub mod Approvals
pub mod Templates
pub mod Listing
use e_palika.Prelude.{
  ℕ, ◌+◌, Bool, String, Option, none, some, List, [], ◌∷◌, ◌&&◌, ◌==◌, nat_eq, string_eq,
  if◌then◌else◌, ltb, select,
}
use e_palika.Domain.Errors.{database, no_rows, check_violation, unique_violation}
use e_palika.Store.Types.{Uuid, Chalani, at_time}
use e_palika.Store.Exec.{Db, ok, err, Exec, statement}
use e_palika.Store.Table.{find, replace, clashes}
use e_palika.Store.Checks.{chalani_checks, chalani_collision}
use e_palika.Store.Dartas.{row_or_none, same_ward, number_or_zero, in_range}

abbrev pub chalani_key : Chalani → Uuid
chalani_key c = c.id

-- The row with the key of `c` becomes `c`, if the constraints hold.
unfoldable pub put_chalani : Chalani → Exec Chalani
put_chalani c db =
    if chalani_checks c
    then (if clashes chalani_key (chalani_collision c) c.id db.chalanis
        then (err (database unique_violation), db)
        else (ok c, record db { chalanis = replace chalani_key c db.chalanis }))
    else (err (database check_violation), db)

-- A row with this status, and NOW() in `updated_at`.
abbrev pub with_status : Db → String → Chalani → Chalani
with_status db status c = record c { status = status; updated_at = at_time db.now }

abbrev pub change_chalani_status : Option Chalani → String → Exec Chalani
change_chalani_status none status db = (err (database no_rows), db)
change_chalani_status (some c) status db = put_chalani (with_status db status c) db

unfoldable pub update_chalani_status : Uuid → String → Exec Chalani
unfolding put_chalani statement
update_chalani_status id status =
    statement λ db. change_chalani_status (find chalani_key id db.chalanis) status db

unfoldable pub get_chalani_simple : Uuid → Exec Chalani
unfolding statement
get_chalani_simple id = statement λ db. row_or_none (find chalani_key id db.chalanis) db

-- The rows that number together, as GetNextChalaniNumber selects them.
abbrev pub in_series : String → String → Option String → String → Chalani → Bool
in_series fiscal_year scope ward tenant c =
    c.fiscal_year_id == fiscal_year
    && c.scope == scope
    && same_ward c.ward_id ward
    && c.tenant_id == tenant

-- COALESCE(MAX(chalani_number), 0)
unfoldable pub max_number : List Chalani → ℕ
max_number [] = 0
max_number (c ∷ cs) =
    let rest = max_number cs in
    let n = number_or_zero c.chalani_number in if ltb rest n then n else rest

unfoldable pub get_next_chalani_number : String → String → Option String → String → Exec ℕ
unfolding statement max_number
get_next_chalani_number fiscal_year scope ward tenant = statement λ db.
    in_range (max_number (select (in_series fiscal_year scope ward tenant) db.chalanis) + 1) db
