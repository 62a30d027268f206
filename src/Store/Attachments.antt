-- ===== src/Store/Attachments.antt =====
-- services/darta-chalani/internal/db/attachments.sql.go: the statements on `attachments` other than
-- GetAttachment.
use e_palika.Prelude.{
  ℕ, Bool, not, ◌&&◌, ◌||◌, String, Option, none, some, List, [], ◌∷◌, ◌++◌, ◌==◌, nat_eq,
  string_eq, if◌then◌else◌, select, any, length,
}
use e_palika.Prelude.Int.{ℤ}
use e_palika.Domain.Errors.{database, unique_violation, foreign_key_violation}
use e_palika.Store.Types.{
  Uuid, Json, Attachment, Chalani, ChalaniAttachment, Darta, DartaAnnex, at_time,
}
use e_palika.Store.Exec.{Db, ok, err, Exec, statement}
use e_palika.Store.Dartas.{draw_uuid, row_or_none}
use e_palika.Store.Creation.{attachment_key, exists_row, key_is}
use e_palika.Store.Listing.{later_time, sort, page}

pub record CreateAttachmentParams : Type 0 where
  pub filename : String
  pub original_filename : String
  pub mime_type : String
  pub size_bytes : ℤ
  pub storage_path : String
  pub checksum : String
  pub uploaded_by : String
  pub metadata : Option Json
  pub tenant_id : String

abbrev insert_attachment : CreateAttachmentParams → Uuid → Exec Attachment
insert_attachment p id db =
    let a : Attachment = record {
      id = id;
      filename = p.filename;
      original_filename = p.original_filename;
      mime_type = p.mime_type;
      size_bytes = p.size_bytes;
      storage_path = p.storage_path;
      checksum = p.checksum;
      uploaded_by = p.uploaded_by;
      uploaded_at = at_time db.now;
      metadata = p.metadata;
      tenant_id = p.tenant_id;
      created_at = at_time db.now;
    } in
    if exists_row attachment_key id db.attachments
    then (err (database unique_violation), db)
    else (ok a, record db { attachments = db.attachments ++ a ∷ [] })

unfoldable pub create_attachment : CreateAttachmentParams → Exec Attachment
unfolding statement
create_attachment p = statement (draw_uuid (insert_attachment p))

-- Does a row refer to the attachment? Each reference is ON DELETE RESTRICT or NO ACTION.
abbrev pub is_used : Db → Uuid → Bool
is_used db id =
    any (λ (d : Darta). d.primary_document_id == id) db.dartas
    || any (λ (a : DartaAnnex). key_is a.attachment_id id) db.annexes
    || any (λ (a : ChalaniAttachment). key_is a.attachment_id id) db.chalani_attachments
    || any (λ (c : Chalani). key_is c.acknowledgement_proof_id id || key_is c.delivered_proof_id id)
        db.chalanis

unfoldable pub delete_attachment : Uuid → Exec (Unit {0})
unfolding statement
delete_attachment id = statement λ db.
    if is_used db id then (err (database foreign_key_violation), db) else (
      ok tt,
      record db { attachments = select (λ (a : Attachment). not (a.id == id)) db.attachments },
    )

unfoldable pub count_attachments : String → Exec ℕ
unfolding statement
count_attachments tenant =
    statement
      λ db. (ok (length (select (λ (a : Attachment). a.tenant_id == tenant) db.attachments)), db)

-- ORDER BY uploaded_at DESC
abbrev last_uploaded : Attachment → Attachment → Bool
last_uploaded a b = later_time a.uploaded_at b.uploaded_at

unfoldable pub list_attachments : String → ℤ → ℤ → Exec (List Attachment)
unfolding statement sort
list_attachments tenant limit offset = statement λ db.
    page limit offset
      (sort last_uploaded (select (λ (a : Attachment). a.tenant_id == tenant) db.attachments)) db

unfoldable pub list_attachments_by_uploader : String → String → ℤ → ℤ → Exec (List Attachment)
unfolding statement sort
list_attachments_by_uploader uploader tenant limit offset = statement λ db.
    page limit offset
      (sort last_uploaded (
        select (λ (a : Attachment). a.uploaded_by == uploader && a.tenant_id == tenant)
          db.attachments))
      db

abbrev first : List Attachment → Option Attachment
first [] = none
first (a ∷ rows) = some a

-- ORDER BY created_at DESC LIMIT 1
unfoldable pub get_attachment_by_checksum : String → String → Exec Attachment
unfolding statement sort
get_attachment_by_checksum checksum tenant = statement λ db.
    row_or_none
      (first (
        sort (λ (a b : Attachment). later_time a.created_at b.created_at)
          (select (λ (a : Attachment). a.checksum == checksum && a.tenant_id == tenant)
            db.attachments)))
      db

unfoldable pub get_attachments_by_ids : List Uuid → Exec (List Attachment)
unfolding statement
get_attachments_by_ids ids =
    statement
      λ db. (ok (select (λ (a : Attachment). any (λ id. a.id == id) ids) db.attachments), db)
