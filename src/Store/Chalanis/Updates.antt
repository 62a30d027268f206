-- ===== src/Store/Chalanis/Updates.antt =====
-- services/darta-chalani/internal/db/chalanis.sql.go: the INSERT, and the UPDATE statements of one row.
use e_palika.Prelude.{
  ℕ, Bool, true, false, ◌&&◌, String, Option, none, some, List, [], ◌∷◌, ◌++◌, if◌then◌else◌, any,
}
use e_palika.Domain.Errors.{
  database, no_rows, check_violation, unique_violation, foreign_key_violation,
}
use e_palika.Store.Types.{Uuid, Timestamptz, Json, Chalani, null_time, at_time}
use e_palika.Store.Exec.{Db, ok, err, Exec, statement}
use e_palika.Store.Table.{find}
use e_palika.Store.Checks.{chalani_checks, chalani_collision}
use e_palika.Store.Dartas.{darta_key, draw_uuid}
use e_palika.Store.Creation.{attachment_key, recipient_key, exists_row}
use e_palika.Store.Chalanis.{chalani_key, put_chalani}

pub record CreateChalaniParams : Type 0 where
  pub fiscal_year_id : String
  pub scope : String
  pub ward_id : Option String
  pub subject : String
  pub body : String
  pub template_id : Option String
  pub linked_darta_id : Option Uuid
  pub recipient_id : Uuid
  pub status : String
  pub created_by : String
  pub tenant_id : String
  pub idempotency_key : Option String
  pub metadata : Option Json

-- The row that INSERT builds, the columns that it does not name at their defaults.
abbrev pub new_chalani : Db → Uuid → CreateChalaniParams → Chalani
new_chalani db id p = record {
  id = id;
  chalani_number = none;
  formatted_chalani_number = none;
  fiscal_year_id = p.fiscal_year_id;
  scope = p.scope;
  ward_id = p.ward_id;
  subject = p.subject;
  body = p.body;
  template_id = p.template_id;
  linked_darta_id = p.linked_darta_id;
  recipient_id = p.recipient_id;
  status = p.status;
  is_fully_approved = false;
  dispatch_channel = none;
  dispatched_at = null_time;
  dispatched_by = none;
  tracking_id = none;
  courier_name = none;
  is_acknowledged = false;
  acknowledged_at = null_time;
  acknowledged_by = none;
  acknowledgement_proof_id = none;
  delivered_at = null_time;
  delivered_proof_id = none;
  superseded_by_id = none;
  supersedes_id = none;
  created_by = p.created_by;
  created_at = at_time db.now;
  updated_at = at_time db.now;
  tenant_id = p.tenant_id;
  idempotency_key = p.idempotency_key;
  metadata = p.metadata;
}

-- A foreign key that may be NULL.
abbrev refers : {R : Type 0} → (R → Uuid) → Option Uuid → List R → Bool
refers key none rows = true
refers key (some id) rows = exists_row key id rows

-- The constraints on a new row of `chalanis`, in the order in which they are reported.
unfoldable pub insert_chalani : Chalani → Exec Chalani
insert_chalani c db =
    if chalani_checks c
    then (if exists_row chalani_key c.id db.chalanis
        then (err (database unique_violation), db)
        else if any (chalani_collision c) db.chalanis
        then (err (database unique_violation), db)
        else if exists_row recipient_key c.recipient_id db.recipients
            && refers darta_key c.linked_darta_id db.dartas
        then (ok c, record db { chalanis = db.chalanis ++ c ∷ [] })
        else (err (database foreign_key_violation), db))
    else (err (database check_violation), db)

unfoldable pub create_chalani : CreateChalaniParams → Exec Chalani
unfolding insert_chalani statement
create_chalani p = statement (draw_uuid λ id db. insert_chalani (new_chalani db id p) db)

-- The row that UPDATE finds, changed, and with NOW() in `updated_at`.
abbrev change_chalani : Option Chalani → (Chalani → Chalani) → Exec Chalani
change_chalani none change db = (err (database no_rows), db)
change_chalani (some c) change db =
    put_chalani (record (change c) { updated_at = at_time db.now }) db

-- UPDATE chalanis SET … WHERE id = $1 RETURNING *
unfoldable pub update_chalani : Uuid → (Chalani → Chalani) → Exec Chalani
unfolding put_chalani statement
update_chalani id change =
    statement λ db. change_chalani (find chalani_key id db.chalanis) change db

-- The same, with an attachment as a proof.
abbrev update_with_proof : Uuid → Option Uuid → (Chalani → Chalani) → Exec Chalani
update_with_proof id proof change = statement λ db.
    if refers attachment_key proof db.attachments
    then change_chalani (find chalani_key id db.chalanis) change db
    else (err (database foreign_key_violation), db)

unfoldable pub close_chalani : Uuid → Exec Chalani
unfolding update_chalani
close_chalani id = update_chalani id (λ c. record c { status = "CLOSED" })

unfoldable pub void_chalani : Uuid → Exec Chalani
unfolding update_chalani
void_chalani id = update_chalani id (λ c. record c { status = "VOIDED" })

unfoldable pub update_chalani_number : Uuid → Option ℕ → Option String → Exec Chalani
unfolding update_chalani
update_chalani_number id number formatted =
    update_chalani id
      (λ c. record c { chalani_number = number; formatted_chalani_number = formatted })

unfoldable pub update_chalani_approval_status : Uuid → Bool → Exec Chalani
unfolding update_chalani
update_chalani_approval_status id approved =
    update_chalani id (λ c. record c { is_fully_approved = approved })

unfoldable pub update_chalani_dispatch :
    Uuid
    → Option String
    → Timestamptz
    → Option String
    → Option String
    → Option String
    → Exec Chalani
unfolding update_chalani
update_chalani_dispatch id channel at by tracking courier = update_chalani id λ c. record c {
  dispatch_channel = channel;
  dispatched_at = at;
  dispatched_by = by;
  tracking_id = tracking;
  courier_name = courier;
  status = "DISPATCHED";
}

unfoldable pub update_chalani_acknowledgement :
    Uuid → Timestamptz → Option String → Option Uuid → Exec Chalani
unfolding statement put_chalani
update_chalani_acknowledgement id at by proof = update_with_proof id proof λ c. record c {
  is_acknowledged = true;
  acknowledged_at = at;
  acknowledged_by = by;
  acknowledgement_proof_id = proof;
  status = "ACKNOWLEDGED";
}

unfoldable pub mark_chalani_delivered : Uuid → Timestamptz → Option Uuid → Exec Chalani
unfolding statement put_chalani
mark_chalani_delivered id at proof =
    update_with_proof id proof
      λ c. record c { delivered_at = at; delivered_proof_id = proof; status = "DELIVERED" }
