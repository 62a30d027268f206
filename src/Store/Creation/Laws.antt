-- ===== src/Store/Creation/Laws.antt =====
-- What an INSERT into the audit trail leaves, for any schedule of outages.
use mathlib.Core.List.{append-nil}
use e_palika.Prelude.{
  ◌≡◌, refl, ap, ◌⊎◌, inl, inr, Bool, true, false, List, [], ◌∷◌, ◌++◌, Bool-cases,
}
use e_palika.Domain.Errors.{DbError, database, check_violation, unique_violation, unavailable}
use e_palika.Store.Types.{Uuid, AuditTrail}
use e_palika.Store.Exec.{Db, Result, ok, err, on_schedule}
use e_palika.Store.Checks.{audit_checks}
use e_palika.Store.Dartas.{draw_uuid}
use e_palika.Store.Creation.{
  CreateAuditEntryParams, new_audit_entry, insert_audit_entry, exists_row, audit_key,
  create_audit_entry,
}

-- The trail has grown by these entries, and no other table has changed.
abbrev pub audited : Db → List AuditTrail → List Uuid → List Bool → Db
audited db extra ids out = record db { audit = db.audit ++ extra; uuids = ids; outages = out }

-- The outcomes of writing an entry: it is refused, or it stands at the end of the trail.
pub data Audited (p : CreateAuditEntryParams) (db : Db) (r : Result AuditTrail × Db) : Type 0 where
  dropped :
      (e : DbError) (ids : List Uuid) (out : List Bool)
      → r ≡ (err (database e), audited db [] ids out)
      → Audited p db r
  logged :
      (id : Uuid) (ids : List Uuid) (out : List Bool)
      → r ≡ (ok (new_audit_entry db id p), audited db (new_audit_entry db id p ∷ []) ids out)
      → Audited p db r

module _ (p : CreateAuditEntryParams) (db : Db) where
  at_ids : List Uuid → List Bool → Db
  at_ids ids out = record db { uuids = ids; outages = out }

  unlogged :
      (e : DbError) (ids : List Uuid) (out : List Bool)
      → Audited p db (err (database e), at_ids ids out)
  unfolding at_ids
  unlogged e ids out = dropped e ids out (rw (append-nil db.audit))

  insert_audit_entry-Audited :
      (id : Uuid) (ids : List Uuid) (out : List Bool)
      → Audited p db (insert_audit_entry (new_audit_entry db id p) (at_ids ids out))
  unfolding at_ids
  insert_audit_entry-Audited id ids out =
      elim (Bool-cases (audit_checks (new_audit_entry db id p))) [
        | inr bad ↦ rw bad (unlogged check_violation ids out)
        | inl good ↦ elim (Bool-cases (exists_row audit_key id db.audit)) [
          | inl taken ↦ rw (good, taken) (unlogged unique_violation ids out)
          | inr free ↦ rw (good, free) (logged id ids out refl)
        ]
      ]

  draw-Audited :
      (ids : List Uuid) (out : List Bool)
      → Audited p db
          (draw_uuid (λ id db'. insert_audit_entry (new_audit_entry db' id p) db') (at_ids ids out))
  unfolding at_ids
  draw-Audited [] out = unlogged unavailable [] out
  draw-Audited (id ∷ ids) out = insert_audit_entry-Audited id ids out

  on_schedule-Audited :
      (out : List Bool)
      → Audited p db (
          on_schedule out
            (draw_uuid λ id db'. insert_audit_entry (new_audit_entry db' id p) db')
            (at_ids db.uuids out))
  unfolding at_ids
  on_schedule-Audited [] = draw-Audited db.uuids []
  on_schedule-Audited (true ∷ out) = unlogged unavailable db.uuids out
  on_schedule-Audited (false ∷ out) = draw-Audited db.uuids out

  pub create_audit_entry-Audited : Audited p db (create_audit_entry p db)
  unfolding create_audit_entry at_ids
  create_audit_entry-Audited = on_schedule-Audited db.outages

-- The trail has grown by the one entry, or not at all.
abbrev pub IsLogged : CreateAuditEntryParams → Db → List AuditTrail → Type 0
IsLogged p db extra = (extra ≡ []) ⊎ ((id : Uuid) × (extra ≡ new_audit_entry db id p ∷ []))

pub record Trail (p : CreateAuditEntryParams) (db : Db) (after : Db) : Type 0 where
  pub extra : List AuditTrail
  pub ids : List Uuid
  pub schedule : List Bool
  pub entry : IsLogged p db extra
  pub shape : after ≡ audited db extra ids schedule

-- What a caller that drops the error finds.
pub ignore-Trail : (p : CreateAuditEntryParams) (db : Db) → Trail p db (create_audit_entry p db).1
ignore-Trail p db = elim (create_audit_entry-Audited p db) [
  | dropped e ids out shape ↦ record {
    extra = [];
    ids = ids;
    schedule = out;
    entry = inl refl;
    shape = ap (λ r. r.1) shape;
  }
  | logged id ids out shape ↦ record {
    extra = new_audit_entry db id p ∷ [];
    ids = ids;
    schedule = out;
    entry = inr (id, refl);
    shape = ap (λ r. r.1) shape;
  }
]
