-- ===== src/Store/Creation.antt =====
-- services/darta-chalani/internal/db: the INSERT statements, and the look-ups of applicants and
-- attachments (dartas.sql.go, applicants.sql.go, attachments.sql.go, recipients.sql.go,
-- darta_relations.sql.go, audit.sql.go).
pub mod Laws
pub mod Inserts
pub mod Parties
use e_palika.Prelude.{
  ◌≡◌, Bool, true, false, ◌&&◌, String, Option, none, some, List, [], ◌∷◌, ◌++◌, ◌==◌, nat_eq,
  if◌then◌else◌, any,
}
use e_palika.Domain.Errors.{database, check_violation, unique_violation, foreign_key_violation}
use e_palika.Store.Types.{
  Uuid, Json, Applicant, Attachment, AuditTrail, Darta, DartaAnnex, Recipient, at_time,
}
use e_palika.Store.Exec.{Db, ok, err, Exec, statement}
use e_palika.Store.Table.{find}
use e_palika.Store.Checks.{
  applicant_checks, recipient_checks, audit_checks, darta_checks, darta_collision,
}
use e_palika.Store.Dartas.{
  CreateDartaParams, new_darta, darta_key, applicant_key, draw_uuid, row_or_none,
}

abbrev pub attachment_key : Attachment → Uuid
attachment_key a = a.id

abbrev pub recipient_key : Recipient → Uuid
recipient_key r = r.id

abbrev pub audit_key : AuditTrail → Uuid
audit_key e = e.id

-- Is there a row with this key?
abbrev pub exists_row : {R : Type 0} → (R → Uuid) → Uuid → List R → Bool
exists_row key id rows = any (λ r. key r == id) rows

-- The constraints on a new row of `dartas`, in the order in which they are reported.
unfoldable pub insert_darta : Darta → Exec Darta
insert_darta d db =
    if darta_checks d
    then (if exists_row darta_key d.id db.dartas
        then (err (database unique_violation), db)
        else if any (darta_collision d) db.dartas
        then (err (database unique_violation), db)
        else if exists_row applicant_key d.applicant_id db.applicants
            && exists_row attachment_key d.primary_document_id db.attachments
        then (ok d, record db { dartas = db.dartas ++ d ∷ [] })
        else (err (database foreign_key_violation), db))
    else (err (database check_violation), db)

unfoldable pub create_darta : CreateDartaParams → Exec Darta
unfolding insert_darta statement
create_darta p = statement (draw_uuid λ id db. insert_darta (new_darta db id p) db)

unfoldable pub get_applicant : Uuid → Exec Applicant
unfolding statement
get_applicant id = statement λ db. row_or_none (find applicant_key id db.applicants) db

unfoldable pub get_attachment : Uuid → Exec Attachment
unfolding statement
get_attachment id = statement λ db. row_or_none (find attachment_key id db.attachments) db

pub record CreateApplicantParams : Type 0 where
  pub type : String
  pub full_name : String
  pub organization : Option String
  pub email : Option String
  pub phone : Option String
  pub address : Option String
  pub identification_number : Option String

abbrev pub new_applicant : Db → Uuid → CreateApplicantParams → Applicant
new_applicant db id p = record {
  id = id;
  type = p.type;
  full_name = p.full_name;
  organization = p.organization;
  email = p.email;
  phone = p.phone;
  address = p.address;
  identification_number = p.identification_number;
  created_at = at_time db.now;
  updated_at = at_time db.now;
}

abbrev pub insert_applicant : Applicant → Exec Applicant
insert_applicant a db =
    if applicant_checks a
    then (if exists_row applicant_key a.id db.applicants
        then (err (database unique_violation), db)
        else (ok a, record db { applicants = db.applicants ++ a ∷ [] }))
    else (err (database check_violation), db)

unfoldable pub create_applicant : CreateApplicantParams → Exec Applicant
unfolding statement applicant_checks
create_applicant p = statement (draw_uuid λ id db. insert_applicant (new_applicant db id p) db)

pub record CreateRecipientParams : Type 0 where
  pub type : String
  pub name : String
  pub organization : Option String
  pub email : Option String
  pub phone : Option String
  pub address : String

abbrev pub new_recipient : Db → Uuid → CreateRecipientParams → Recipient
new_recipient db id p = record {
  id = id;
  type = p.type;
  name = p.name;
  organization = p.organization;
  email = p.email;
  phone = p.phone;
  address = p.address;
  created_at = at_time db.now;
  updated_at = at_time db.now;
}

abbrev pub insert_recipient : Recipient → Exec Recipient
insert_recipient r db =
    if recipient_checks r
    then (if exists_row recipient_key r.id db.recipients
        then (err (database unique_violation), db)
        else (ok r, record db { recipients = db.recipients ++ r ∷ [] }))
    else (err (database check_violation), db)

unfoldable pub create_recipient : CreateRecipientParams → Exec Recipient
unfolding statement recipient_checks
create_recipient p = statement (draw_uuid λ id db. insert_recipient (new_recipient db id p) db)

abbrev pub key_is : Option Uuid → Uuid → Bool
key_is none id = false
key_is (some k) id = k == id

abbrev pub same_annex : Uuid → Uuid → DartaAnnex → Bool
same_annex darta attachment a = key_is a.darta_id darta && key_is a.attachment_id attachment

-- INSERT … ON CONFLICT DO NOTHING
unfoldable pub insert_annex : Uuid → Uuid → Exec (Unit {0})
insert_annex darta attachment db =
    if any (same_annex darta attachment) db.annexes
    then (ok tt, db)
    else if exists_row darta_key darta db.dartas
        && exists_row attachment_key attachment db.attachments
    then (
      ok tt,
      record db {
        annexes =
            db.annexes
            ++ record {
              darta_id = some darta;
              attachment_id = some attachment;
              added_at = at_time db.now;
            }
              ∷ [];
      },
    )
    else (err (database foreign_key_violation), db)

unfoldable pub add_darta_annex : Uuid → Uuid → Exec (Unit {0})
unfolding statement insert_annex
add_darta_annex darta attachment = statement (insert_annex darta attachment)

pub record CreateAuditEntryParams : Type 0 where
  pub entity_type : String
  pub entity_id : Uuid
  pub action : String
  pub performed_by : String
  pub changes : Option Json
  pub ip_address : Option String
  pub user_agent : Option String
  pub notes : Option String
  pub tenant_id : String

abbrev pub new_audit_entry : Db → Uuid → CreateAuditEntryParams → AuditTrail
new_audit_entry db id p = record {
  id = id;
  entity_type = p.entity_type;
  entity_id = some p.entity_id;
  action = p.action;
  performed_by = p.performed_by;
  performed_at = at_time db.now;
  changes = p.changes;
  ip_address = p.ip_address;
  user_agent = p.user_agent;
  notes = p.notes;
  tenant_id = p.tenant_id;
}

abbrev pub insert_audit_entry : AuditTrail → Exec AuditTrail
insert_audit_entry e db =
    if audit_checks e
    then (if exists_row audit_key e.id db.audit
        then (err (database unique_violation), db)
        else (ok e, record db { audit = db.audit ++ e ∷ [] }))
    else (err (database check_violation), db)

unfoldable pub create_audit_entry : CreateAuditEntryParams → Exec AuditTrail
unfolding statement audit_checks
create_audit_entry p =
    statement (draw_uuid λ id db. insert_audit_entry (new_audit_entry db id p) db)
