-- ===== src/Store/Creation/Parties.antt =====
-- What the INSERTs into `applicants` and `darta_annexes` (services/darta-chalani/internal/db) leave, for any
-- schedule of outages.
use e_palika.Prelude.{
  ◌≡◌, refl, inl, inr, Bool, true, false, ◌&&◌, List, [], ◌∷◌, ◌++◌, any, nat_eq, Bool-cases,
}
use e_palika.Store.Types.{Uuid, Applicant, DartaAnnex}
use e_palika.Store.Exec.{Db, Exec, on_schedule}
use e_palika.Store.Steady.{ahead}
use e_palika.Store.Checks.{applicant_checks}
use e_palika.Store.Dartas.{darta_key, applicant_key, draw_uuid}
use e_palika.Store.Dartas.Laws.{later}
use e_palika.Store.Creation.{
  CreateApplicantParams, create_applicant, insert_applicant, new_applicant, insert_annex,
  add_darta_annex, exists_row, attachment_key, same_annex,
}

-- No row is written, or one more applicant stands at the end.
pub data Added (db after : Db) : Type 0 where
  dropped : (ids : List Uuid) (out : List Bool) → after ≡ ahead db ids out → Added db after
  added :
      (a : Applicant) (ids : List Uuid) (out : List Bool)
      → after ≡ record (ahead db ids out) { applicants = db.applicants ++ a ∷ [] }
      → Added db after

module _ (p : CreateApplicantParams) (db : Db) where
  insert_applicant-Added :
      (a : Applicant) (ids : List Uuid) (out : List Bool)
      → Added db (insert_applicant a (ahead db ids out)).1
  insert_applicant-Added a ids out = elim (Bool-cases (applicant_checks a)) [
    | inr bad ↦ rw bad (dropped ids out refl)
    | inl good ↦ elim (Bool-cases (exists_row applicant_key a.id db.applicants)) [
      | inl taken ↦ rw (good, taken) (dropped ids out refl)
      | inr free ↦ rw (good, free) (added a ids out refl)
    ]
  ]

  abbrev insert : Uuid → Exec Applicant
  insert id db' = insert_applicant (new_applicant db' id p) db'

  draw-Added :
      (ids : List Uuid) (out : List Bool) → Added db (draw_uuid insert (ahead db ids out)).1
  draw-Added [] out = dropped [] out refl
  draw-Added (id ∷ ids) out = insert_applicant-Added (new_applicant db id p) ids out

  schedule-Added :
      (out : List Bool) → Added db (on_schedule out (draw_uuid insert) (later db out)).1
  schedule-Added [] = draw-Added db.uuids []
  schedule-Added (true ∷ out) = dropped db.uuids out refl
  schedule-Added (false ∷ out) = draw-Added db.uuids out

  pub create_applicant-Added : Added db (create_applicant p db).1
  unfolding create_applicant
  create_applicant-Added = schedule-Added db.outages

-- The table of annexes may be another one; nothing else changes.
pub data Annexed (db after : Db) : Type 0 where
  annexed :
      (rows : List DartaAnnex) (out : List Bool)
      → after ≡ record (later db out) { annexes = rows }
      → Annexed db after

module _ (darta attachment : Uuid) (db : Db) where
  insert_annex-Annexed :
      (out : List Bool) → Annexed db (insert_annex darta attachment (later db out)).1
  unfolding insert_annex
  insert_annex-Annexed out = elim (Bool-cases (any (same_annex darta attachment) db.annexes)) [
    | inl there ↦ rw there (annexed db.annexes out refl)
    | inr new ↦
        elim (Bool-cases (
          exists_row darta_key darta db.dartas
          && exists_row attachment_key attachment db.attachments)) [
            | inl linked ↦ rw (new, linked) (annexed _ out refl)
            | inr loose ↦ rw (new, loose) (annexed db.annexes out refl)
          ]
  ]

  annex_schedule-Annexed :
      (out : List Bool)
      → Annexed db (on_schedule out (insert_annex darta attachment) (later db out)).1
  annex_schedule-Annexed [] = insert_annex-Annexed []
  annex_schedule-Annexed (true ∷ out) = annexed db.annexes out refl
  annex_schedule-Annexed (false ∷ out) = insert_annex-Annexed out

  pub add_darta_annex-Annexed : Annexed db (add_darta_annex darta attachment db).1
  unfolding add_darta_annex
  add_darta_annex-Annexed = annex_schedule-Annexed db.outages
