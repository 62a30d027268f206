-- ===== src/Store/Chalanis/Relations.antt =====
-- services/darta-chalani/internal/db/chalani_relations.sql.go: the attachments and signatories of
-- chalanis.
use e_palika.Prelude.{
  Bool, not, ◌&&◌, String, Option, none, some, List, [], ◌∷◌, ◌++◌, ◌==◌, nat_eq, string_eq,
  if◌then◌else◌, select, any, map,
}
use e_palika.Prelude.Int.{ℤ, ltb_ℤ}
use e_palika.Domain.Errors.{database, unique_violation, foreign_key_violation}
use e_palika.Store.Types.{
  Uuid, Timestamptz, Attachment, ChalaniApproval, ChalaniAttachment, ChalaniSignatory, at_time,
}
use e_palika.Store.Exec.{Db, ok, err, Exec, statement}
use e_palika.Store.Table.{find}
use e_palika.Store.Dartas.{draw_uuid, row_or_none}
use e_palika.Store.Creation.{attachment_key, exists_row, key_is}
use e_palika.Store.Listing.{later_time, sort}
use e_palika.Store.Chalanis.{chalani_key}

abbrev pub signatory_key : ChalaniSignatory → Uuid
signatory_key s = s.id

abbrev same_attachment : Uuid → Uuid → ChalaniAttachment → Bool
same_attachment chalani attachment a =
    key_is a.chalani_id chalani && key_is a.attachment_id attachment

-- INSERT … ON CONFLICT DO NOTHING
unfoldable pub add_chalani_attachment : Uuid → Uuid → Exec (Unit {0})
unfolding statement
add_chalani_attachment chalani attachment = statement λ db.
    if any (same_attachment chalani attachment) db.chalani_attachments
    then (ok tt, db)
    else if exists_row chalani_key chalani db.chalanis
        && exists_row attachment_key attachment db.attachments
    then (
      ok tt,
      record db {
        chalani_attachments =
            db.chalani_attachments
            ++ record {
              chalani_id = some chalani;
              attachment_id = some attachment;
              added_at = at_time db.now;
            }
              ∷ [];
      },
    )
    else (err (database foreign_key_violation), db)

unfoldable pub remove_chalani_attachment : Uuid → Uuid → Exec (Unit {0})
unfolding statement
remove_chalani_attachment chalani attachment = statement λ db. (
  ok tt,
  record db {
    chalani_attachments =
        select (λ a. not (same_attachment chalani attachment a)) db.chalani_attachments;
  },
)

-- An attachment with the instant at which it was added.
abbrev add_found :
    Timestamptz
    → Option Attachment
    → List (Timestamptz × Attachment)
    → List (Timestamptz × Attachment)
add_found at none rows = rows
add_found at (some a) rows = (at, a) ∷ rows

abbrev attachment_of : Db → Option Uuid → Option Attachment
attachment_of db none = none
attachment_of db (some id) = find attachment_key id db.attachments

unfoldable join_attachments : Db → List ChalaniAttachment → List (Timestamptz × Attachment)
join_attachments db [] = []
join_attachments db (a ∷ rows) =
    add_found a.added_at (attachment_of db a.attachment_id) (join_attachments db rows)

-- ORDER BY added_at ASC
unfoldable pub get_chalani_attachments : Uuid → Exec (List Attachment)
unfolding statement sort join_attachments
get_chalani_attachments chalani = statement λ db. (
  ok (
      map (λ r. r.1)
        (sort (λ a b. not (later_time a.0 b.0))
          (join_attachments db (
            select (λ (a : ChalaniAttachment). key_is a.chalani_id chalani)
              db.chalani_attachments)))),
  db,
)

pub record AddChalaniSignatoryParams : Type 0 where
  pub chalani_id : Uuid
  pub user_id : String
  pub role_id : String
  pub order_num : ℤ
  pub is_required : Bool

abbrev same_signatory : Uuid → String → ChalaniSignatory → Bool
same_signatory chalani user s = key_is s.chalani_id chalani && s.user_id == user

abbrev insert_signatory : AddChalaniSignatoryParams → Uuid → Exec ChalaniSignatory
insert_signatory p id db =
    let s : ChalaniSignatory = record {
      id = id;
      chalani_id = some p.chalani_id;
      user_id = p.user_id;
      role_id = p.role_id;
      order_num = p.order_num;
      is_required = p.is_required;
      created_at = at_time db.now;
    } in
    if exists_row signatory_key id db.signatories
    then (err (database unique_violation), db)
    else if any (same_signatory p.chalani_id p.user_id) db.signatories
    then (err (database unique_violation), db)
    else if exists_row chalani_key p.chalani_id db.chalanis
    then (ok s, record db { signatories = db.signatories ++ s ∷ [] })
    else (err (database foreign_key_violation), db)

unfoldable pub add_chalani_signatory : AddChalaniSignatoryParams → Exec ChalaniSignatory
unfolding statement
add_chalani_signatory p = statement (draw_uuid (insert_signatory p))

unfoldable pub get_chalani_signatory : Uuid → Exec ChalaniSignatory
unfolding statement
get_chalani_signatory id = statement λ db. row_or_none (find signatory_key id db.signatories) db

-- ORDER BY order_num ASC
abbrev pub in_order : ChalaniSignatory → ChalaniSignatory → Bool
in_order a b = ltb_ℤ a.order_num b.order_num

abbrev pub of_chalani : Uuid → ChalaniSignatory → Bool
of_chalani chalani s = key_is s.chalani_id chalani

unfoldable pub get_chalani_signatories : Uuid → Exec (List ChalaniSignatory)
unfolding statement sort
get_chalani_signatories chalani =
    statement λ db. (ok (sort in_order (select (of_chalani chalani) db.signatories)), db)

-- The approvals of a signatory go with it: ON DELETE CASCADE.
unfoldable pub remove_chalani_signatory : Uuid → Exec (Unit {0})
unfolding statement
remove_chalani_signatory id = statement λ db. (
  ok tt,
  record db {
    signatories = select (λ (s : ChalaniSignatory). not (s.id == id)) db.signatories;
    approvals = select (λ (a : ChalaniApproval). not (key_is a.signatory_id id)) db.approvals;
  },
)
