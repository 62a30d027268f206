-- ===== src/Store/Applicants.antt =====
-- services/darta-chalani/internal/db/applicants.sql.go: the statements on `applicants` other than the INSERT and GetApplicant.
use e_palika.Prelude.{
  ℕ, Bool, true, false, not, ◌&&◌, ◌||◌, String, Option, none, some, List, [], ◌∷◌, ◌==◌, nat_eq,
  string_eq, if◌then◌else◌, select, find_first, any, length,
}
use e_palika.Prelude.Int.{ℤ}
use e_palika.Domain.Errors.{database, no_rows, check_violation, foreign_key_violation}
use e_palika.Store.Types.{Uuid, Applicant, Darta, at_time}
use e_palika.Store.Exec.{Db, ok, err, Exec, statement}
use e_palika.Store.Table.{find, replace}
use e_palika.Store.Checks.{applicant_checks, sql_eq}
use e_palika.Store.Dartas.{row_or_none, coalesce, applicant_key}
use e_palika.Store.Listing.{matches, later_time, sort, page}

-- `$n IS NULL OR name ILIKE … OR organization ILIKE …`, where NULL is like nothing.
abbrev like : (String → String → Bool) → Option String → String → Bool
like ilike none s = false
like ilike (some text) s = ilike text s

abbrev found_by : (String → String → Bool) → Option String → Applicant → Bool
found_by ilike none r = true
found_by ilike (some s) r = ilike r.full_name s || like ilike r.organization s

abbrev listed : (String → String → Bool) → Option String → Option String → Applicant → Bool
listed ilike type search r = matches type (some r.type) && found_by ilike search r

unfoldable pub count_applicants : (String → String → Bool) → Option String → Option String → Exec ℕ
unfolding statement
count_applicants ilike type search =
    statement λ db. (ok (length (select (listed ilike type search) db.applicants)), db)

-- ORDER BY created_at DESC
abbrev newest_first : Applicant → Applicant → Bool
newest_first a b = later_time a.created_at b.created_at

unfoldable pub list_applicants :
    (String → String → Bool) → Option String → Option String → ℤ → ℤ → Exec (List Applicant)
unfolding statement sort
list_applicants ilike type search limit offset =
    statement λ db.
      page limit offset (sort newest_first (select (listed ilike type search) db.applicants)) db

abbrev first : List Applicant → Option Applicant
first [] = none
first (r ∷ rows) = some r

abbrev reached : Option String → Option String → Applicant → Bool
reached email phone r = sql_eq r.email email || sql_eq r.phone phone

unfoldable pub get_applicant_by_email_or_phone : Option String → Option String → Exec Applicant
unfolding statement sort
get_applicant_by_email_or_phone email phone =
    statement
      λ db. row_or_none (first (sort newest_first (select (reached email phone) db.applicants))) db

unfoldable pub find_applicant_by_identification : Option String → Exec Applicant
unfolding statement
find_applicant_by_identification number = statement λ db.
    row_or_none
      (find_first (λ (r : Applicant). sql_eq r.identification_number number) db.applicants) db

-- ON DELETE RESTRICT: a row that a darta refers to stays.
unfoldable pub delete_applicant : Uuid → Exec (Unit {0})
unfolding statement
delete_applicant id = statement λ db.
    if any (λ (o : Darta). o.applicant_id == id) db.dartas
    then (err (database foreign_key_violation), db)
    else (
      ok tt,
      record db { applicants = select (λ (r : Applicant). not (r.id == id)) db.applicants },
    )

pub record UpdateApplicantParams : Type 0 where
  pub id : Uuid
  pub type : Option String
  pub full_name : Option String
  pub organization : Option String
  pub email : Option String
  pub phone : Option String
  pub address : Option String
  pub identification_number : Option String

abbrev coalesce_null : Option String → Option String → Option String
coalesce_null none old = old
coalesce_null (some new) old = some new

-- The trigger on the table writes NOW() in `updated_at`.
abbrev changed : Db → UpdateApplicantParams → Applicant → Applicant
changed db p r = record r {
  type = coalesce p.type r.type;
  full_name = coalesce p.full_name r.full_name;
  organization = coalesce_null p.organization r.organization;
  email = coalesce_null p.email r.email;
  phone = coalesce_null p.phone r.phone;
  address = coalesce_null p.address r.address;
  identification_number = coalesce_null p.identification_number r.identification_number;
  updated_at = at_time db.now;
}

abbrev update_found : UpdateApplicantParams → Option Applicant → Exec Applicant
update_found p none db = (err (database no_rows), db)
update_found p (some r) db =
    if applicant_checks (changed db p r)
    then (
      ok (changed db p r),
      record db { applicants = replace applicant_key (changed db p r) db.applicants },
    )
    else (err (database check_violation), db)

unfoldable pub update_applicant : UpdateApplicantParams → Exec Applicant
unfolding statement applicant_checks
update_applicant p = statement λ db. update_found p (find applicant_key p.id db.applicants) db
