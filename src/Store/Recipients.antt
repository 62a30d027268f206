-- ===== src/Store/Recipients.antt =====
-- services/darta-chalani/internal/db/recipients.sql.go: the statements on `recipients` other than the INSERT.
use e_palika.Prelude.{
  ℕ, Bool, true, false, not, ◌&&◌, ◌||◌, String, Option, none, some, List, [], ◌∷◌, ◌==◌, nat_eq,
  string_eq, if◌then◌else◌, select, any, length,
}
use e_palika.Prelude.Int.{ℤ}
use e_palika.Domain.Errors.{database, no_rows, check_violation, foreign_key_violation}
use e_palika.Store.Types.{Uuid, Recipient, Chalani, at_time}
use e_palika.Store.Exec.{Db, ok, err, Exec, statement}
use e_palika.Store.Table.{find, replace}
use e_palika.Store.Checks.{recipient_checks, sql_eq}
use e_palika.Store.Dartas.{row_or_none, coalesce}
use e_palika.Store.Creation.{recipient_key}
use e_palika.Store.Listing.{matches, later_time, sort, page}

-- `$n IS NULL OR name ILIKE … OR organization ILIKE …`, where NULL is like nothing.
abbrev like : (String → String → Bool) → Option String → String → Bool
like ilike none s = false
like ilike (some text) s = ilike text s

abbrev found_by : (String → String → Bool) → Option String → Recipient → Bool
found_by ilike none r = true
found_by ilike (some s) r = ilike r.name s || like ilike r.organization s

abbrev listed : (String → String → Bool) → Option String → Option String → Recipient → Bool
listed ilike type search r = matches type (some r.type) && found_by ilike search r

unfoldable pub count_recipients : (String → String → Bool) → Option String → Option String → Exec ℕ
unfolding statement
count_recipients ilike type search =
    statement λ db. (ok (length (select (listed ilike type search) db.recipients)), db)

-- ORDER BY created_at DESC
abbrev newest_first : Recipient → Recipient → Bool
newest_first a b = later_time a.created_at b.created_at

unfoldable pub list_recipients :
    (String → String → Bool) → Option String → Option String → ℤ → ℤ → Exec (List Recipient)
unfolding statement sort
list_recipients ilike type search limit offset =
    statement λ db.
      page limit offset (sort newest_first (select (listed ilike type search) db.recipients)) db

abbrev first : List Recipient → Option Recipient
first [] = none
first (r ∷ rows) = some r

abbrev reached : Option String → Option String → Recipient → Bool
reached email phone r = sql_eq r.email email || sql_eq r.phone phone

unfoldable pub find_recipient_by_contact : Option String → Option String → Exec Recipient
unfolding statement sort
find_recipient_by_contact email phone =
    statement
      λ db. row_or_none (first (sort newest_first (select (reached email phone) db.recipients))) db

unfoldable pub get_recipient : Uuid → Exec Recipient
unfolding statement
get_recipient id = statement λ db. row_or_none (find recipient_key id db.recipients) db

-- ON DELETE RESTRICT: a row that a chalani refers to stays.
unfoldable pub delete_recipient : Uuid → Exec (Unit {0})
unfolding statement
delete_recipient id = statement λ db.
    if any (λ (o : Chalani). o.recipient_id == id) db.chalanis
    then (err (database foreign_key_violation), db)
    else (
      ok tt,
      record db { recipients = select (λ (r : Recipient). not (r.id == id)) db.recipients },
    )

pub record UpdateRecipientParams : Type 0 where
  pub id : Uuid
  pub type : Option String
  pub name : Option String
  pub organization : Option String
  pub email : Option String
  pub phone : Option String
  pub address : Option String

abbrev coalesce_null : Option String → Option String → Option String
coalesce_null none old = old
coalesce_null (some new) old = some new

-- The trigger on the table writes NOW() in `updated_at`.
abbrev changed : Db → UpdateRecipientParams → Recipient → Recipient
changed db p r = record r {
  type = coalesce p.type r.type;
  name = coalesce p.name r.name;
  organization = coalesce_null p.organization r.organization;
  email = coalesce_null p.email r.email;
  phone = coalesce_null p.phone r.phone;
  address = coalesce p.address r.address;
  updated_at = at_time db.now;
}

abbrev update_found : UpdateRecipientParams → Option Recipient → Exec Recipient
update_found p none db = (err (database no_rows), db)
update_found p (some r) db =
    if recipient_checks (changed db p r)
    then (
      ok (changed db p r),
      record db { recipients = replace recipient_key (changed db p r) db.recipients },
    )
    else (err (database check_violation), db)

unfoldable pub update_recipient : UpdateRecipientParams → Exec Recipient
unfolding statement recipient_checks
update_recipient p = statement λ db. update_found p (find recipient_key p.id db.recipients) db
