-- ===== src/Darta/Service/Status.antt =====
-- `UpdateDartaStatus` of services/darta-chalani/internal/domain/darta_service.go.
use e_palika.Prelude.{◌≡◌, refl, ap, Bool, true, false, String, some, List, inl, inr, Bool-cases}
use e_palika.Domain.Context.{Ctx, get_user_context}
use e_palika.Domain.Errors.{
  DbError, database, sentinel, wrapped, darta_not_found, invalid_darta_status,
}
use e_palika.Store.Types.{Uuid, Darta, AuditTrail}
use e_palika.Store.Exec.{Db, Result, ok, err}
use e_palika.Store.Table.{find, replace}
use e_palika.Store.Dartas.{darta_key, stamped}
use e_palika.Store.Dartas.Laws.{
  later, missed, read, get_darta_simple-Read, Written-shape,
  update_darta_status-outcome as row_outcome,
}
use e_palika.Store.Creation
use e_palika.Store.Creation.{CreateAuditEntryParams}
use e_palika.Store.Creation.Laws.{audited, IsLogged, ignore-Trail}
use e_palika.Darta.Lifecycle.{is_valid_status_transition}
use e_palika.Darta.Service.{
  update_darta_status, change_status, create_audit_entry, audit_params, status_change,
}

-- What the service asks to be logged.
abbrev pub moved : Db → Darta → String → Darta
moved db d status = stamped db (record d { status = status })

abbrev pub status_entry : Ctx → Uuid → Darta → String → CreateAuditEntryParams
status_entry ctx id d new =
    audit_params "DARTA" id "STATUS_CHANGED" (get_user_context ctx)
      (some (status_change d.status new))

-- The outcomes of `UpdateDartaStatus`, each with the store that it leaves.
pub data StatusOutcome (ctx : Ctx) (id : Uuid) (new : String) (db : Db) (r : Result Darta × Db)
    : Type 0 where
  missing :
      (s : List Bool)
      → r ≡ (err (sentinel darta_not_found), later db s)
      → StatusOutcome ctx id new db r
  refused :
      (d : Darta) (s : List Bool)
      → find darta_key id db.dartas ≡ some d
      → is_valid_status_transition d.status new ≡ false
      → r ≡ (err (sentinel invalid_darta_status), later db s)
      → StatusOutcome ctx id new db r
  failed :
      (d : Darta) (e : DbError) (s : List Bool)
      → find darta_key id db.dartas ≡ some d
      → is_valid_status_transition d.status new ≡ true
      → r ≡ (err (wrapped "failed to update status" (database e)), later db s)
      → StatusOutcome ctx id new db r
  changed :
      (d : Darta) (extra : List AuditTrail) (ids : List Uuid) (s : List Bool)
      → IsLogged (status_entry ctx id d new) db extra
      → find darta_key id db.dartas ≡ some d
      → is_valid_status_transition d.status new ≡ true
      → r ≡ (
        ok (moved db d new),
        audited (record db { dartas = replace darta_key (moved db d new) db.dartas }) extra ids s,
      )
      → StatusOutcome ctx id new db r

module _ (ctx : Ctx) (id : Uuid) (new : String) (db : Db) where
  abbrev written : Darta → List Bool → Db
  written d s = record (later db s) { dartas = replace darta_key (moved db d new) db.dartas }

  logged_change :
      (d : Darta) (s : List Bool)
      → find darta_key id db.dartas ≡ some d
      → is_valid_status_transition d.status new ≡ true
      → StatusOutcome ctx id new db (
        ok (moved db d new),
        (Creation.create_audit_entry (status_entry ctx id d new) (written d s)).1,
      )
  logged_change d s found good =
      let t = ignore-Trail (status_entry ctx id d new) (written d s) in
      changed d t.extra t.ids t.schedule t.entry found good
        (ap (λ after. (ok (moved db d new), after)) t.shape)

  valid_change :
      (d : Darta) (s : List Bool)
      → find darta_key id db.dartas ≡ some d
      → is_valid_status_transition d.status new ≡ true
      → StatusOutcome ctx id new db (change_status ctx id d new (later db s))
  unfolding change_status create_audit_entry
  valid_change d s found good = elim (row_outcome id (later db s) new) [
    | inl r ↦ rw r.shape (failed d r.error r.schedule found good refl)
    | inr w ↦ rw (Written-shape w d found) (logged_change d w.schedule found good)
  ]

  -- Every call of `UpdateDartaStatus`, for any store and any schedule of outages, has one of these
  -- outcomes: no row is found; the transition table refuses the change; the database refuses the
  -- statement; or the row has the new status, at most one audit entry with the old and the new status is
  -- added, and nothing else changes. In the first three an error is returned and nothing is written.
  pub update_darta_status-outcome : StatusOutcome ctx id new db (update_darta_status ctx id new db)
  unfolding update_darta_status
  update_darta_status-outcome = elim (get_darta_simple-Read id db) [
    | missed e s shape ↦ rw shape (missing s refl)
    | read d s found shape ↦ elim (Bool-cases (is_valid_status_transition d.status new)) [
      | inr bad ↦ rw (shape, bad) (refused d s found bad refl)
      | inl good ↦ rw (shape, good) (valid_change d s found good)
    ]
  ]
