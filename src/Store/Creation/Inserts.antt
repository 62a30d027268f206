-- ===== src/Store/Creation/Inserts.antt =====
-- What the INSERT into `dartas` and the look-ups before it return and leave, for any schedule of outages.
use e_palika.Prelude.{
  ap, ◌≡◌, refl, inl, inr, Bool, true, false, ◌&&◌, String, Option, none, some, List, [], ◌∷◌, ◌++◌,
  any, Bool-cases, Option-cases,
}
use e_palika.Domain.Errors.{
  Error, database, no_rows, check_violation, unique_violation, foreign_key_violation, unavailable,
}
use e_palika.Store.Types.{Uuid, Darta}
use e_palika.Store.Exec.{Db, Result, ok, err, Exec, on_schedule}
use e_palika.Store.Table.{find}
use e_palika.Store.Checks.{darta_checks, darta_collision}
use e_palika.Store.Dartas.{
  CreateDartaParams, new_darta, darta_key, applicant_key, draw_uuid, row_or_none, with_key,
  get_darta_by_idempotency_key,
}
use e_palika.Store.Dartas.Laws.{later}
use e_palika.Store.Steady.{ahead}
use e_palika.Store.Creation.Parties.{annexed, add_darta_annex-Annexed}
use e_palika.Store.Creation.{
  create_darta, insert_darta, exists_row, attachment_key, get_applicant, get_attachment,
  add_darta_annex,
}

-- A query that has only used up a part of the schedule.
pub record Asked {A : Type 0} (db : Db) (r : Result A × Db) : Type 0 where
  pub answer : Result A
  pub schedule : List Bool
  pub shape : r ≡ (answer, later db schedule)

module _ {A : Type 0} (db : Db) where
  row_or_none-Asked : (found : Option A) (s : List Bool) → Asked db (row_or_none found (later db s))
  row_or_none-Asked none s = record { answer = err (database no_rows); schedule = s; shape = refl }
  row_or_none-Asked (some a) s = record { answer = ok a; schedule = s; shape = refl }

  on_schedule-Asked :
      (m : Exec A)
      → ((s : List Bool) → Asked db (m (later db s)))
      → (s : List Bool) → Asked db (on_schedule s m (later db s))
  on_schedule-Asked m h [] = h []
  on_schedule-Asked m h (true ∷ s) = record {
    answer = err (database unavailable);
    schedule = s;
    shape = refl;
  }
  on_schedule-Asked m h (false ∷ s) = h s

module _ (db : Db) (id : Uuid) where
  pub get_applicant-Asked : Asked db (get_applicant id db)
  unfolding get_applicant
  get_applicant-Asked =
      on_schedule-Asked db (λ db. row_or_none (find applicant_key id db.applicants) db)
        (row_or_none-Asked db (find applicant_key id db.applicants)) db.outages

  pub get_attachment-Asked : Asked db (get_attachment id db)
  unfolding get_attachment
  get_attachment-Asked =
      on_schedule-Asked db (λ db. row_or_none (find attachment_key id db.attachments) db)
        (row_or_none-Asked db (find attachment_key id db.attachments)) db.outages

-- The outcomes of the INSERT: nothing is written, or the row stands at the end, satisfies the
-- constraints, collides with none and refers to rows that are there.
pub data Inserted (p : CreateDartaParams) (db : Db) (r : Result Darta × Db) : Type 0 where
  refused :
      (e : Error) (ids : List Uuid) (out : List Bool)
      → r ≡ (err e, ahead db ids out)
      → Inserted p db r
  inserted :
      (id : Uuid) (ids : List Uuid) (out : List Bool)
      → darta_checks (new_darta db id p) ≡ true
      → any (darta_collision (new_darta db id p)) db.dartas ≡ false
      → (exists_row applicant_key p.applicant_id db.applicants
          && exists_row attachment_key p.primary_document_id db.attachments)
        ≡ true
      → r ≡ (
        ok (new_darta db id p),
        record (ahead db ids out) { dartas = db.dartas ++ new_darta db id p ∷ [] },
      )
      → Inserted p db r

module _ (p : CreateDartaParams) (db : Db) where
  insert_darta-Inserted :
      (id : Uuid) (ids : List Uuid) (out : List Bool)
      → Inserted p db (insert_darta (new_darta db id p) (ahead db ids out))
  unfolding insert_darta
  insert_darta-Inserted id ids out =
      let d = new_darta db id p in
      elim (Bool-cases (darta_checks d)) [
        | inr bad ↦ rw bad (refused (database check_violation) ids out refl)
        | inl good ↦ elim (Bool-cases (exists_row darta_key id db.dartas)) [
          | inl taken ↦ rw (good, taken) (refused (database unique_violation) ids out refl)
          | inr free ↦ elim (Bool-cases (any (darta_collision d) db.dartas)) [
            | inl clash ↦ rw (good, free, clash) (refused (database unique_violation) ids out refl)
            | inr alone ↦
                elim (Bool-cases (
                  exists_row applicant_key p.applicant_id db.applicants
                  && exists_row attachment_key p.primary_document_id db.attachments)) [
                    | inl linked ↦
                        rw (good, free, alone, linked) (inserted id ids out good alone linked refl)
                    | inr loose ↦
                        rw (good, free, alone, loose)
                          (refused (database foreign_key_violation) ids out refl)
                  ]
          ]
        ]
      ]

  abbrev insert : Uuid → Exec Darta
  insert id db' = insert_darta (new_darta db' id p) db'

  draw-Inserted :
      (ids : List Uuid) (out : List Bool) → Inserted p db (draw_uuid insert (ahead db ids out))
  draw-Inserted [] out = refused (database unavailable) [] out refl
  draw-Inserted (id ∷ ids) out = insert_darta-Inserted id ids out

  schedule-Inserted :
      (out : List Bool) → Inserted p db (on_schedule out (draw_uuid insert) (later db out))
  schedule-Inserted [] = draw-Inserted db.uuids []
  schedule-Inserted (true ∷ out) = refused (database unavailable) db.uuids out refl
  schedule-Inserted (false ∷ out) = draw-Inserted db.uuids out

  pub create_darta-Inserted : Inserted p db (create_darta p db)
  unfolding create_darta
  create_darta-Inserted = schedule-Inserted db.outages

-- The look-up by idempotency key finds no row, or fails, or returns the row.
pub data Looked (db : Db) (key : Option String) (tenant : String) (r : Result Darta × Db)
    : Type 0 where
  missed : (e : Error) (s : List Bool) → r ≡ (err e, later db s) → Looked db key tenant r
  hit :
      (d : Darta) (s : List Bool)
      → with_key key tenant db.dartas ≡ some d
      → r ≡ (ok d, later db s)
      → Looked db key tenant r

module _ (db : Db) (key : Option String) (tenant : String) where
  row-Looked :
      (s : List Bool)
      → Looked db key tenant (row_or_none (with_key key tenant db.dartas) (later db s))
  row-Looked s = elim (Option-cases (with_key key tenant db.dartas)) [
    | inl absent ↦ missed (database no_rows) s (rw absent)
    | inr (d, found) ↦ hit d s found (rw found)
  ]

  schedule-Looked :
      (s : List Bool)
      → Looked db key tenant
          (on_schedule s (λ db'. row_or_none (with_key key tenant db'.dartas) db') (later db s))
  schedule-Looked [] = row-Looked []
  schedule-Looked (true ∷ s) = missed (database unavailable) s refl
  schedule-Looked (false ∷ s) = row-Looked s

  pub get_darta_by_idempotency_key-Looked :
      Looked db key tenant (get_darta_by_idempotency_key key tenant db)
  unfolding get_darta_by_idempotency_key
  get_darta_by_idempotency_key-Looked = schedule-Looked db.outages

pub add_darta_annex-dartas :
    (darta attachment : Uuid) (db : Db) → (add_darta_annex darta attachment db).1.dartas ≡ db.dartas
add_darta_annex-dartas darta attachment db = elim (add_darta_annex-Annexed darta attachment db) [
  | annexed rows out shape ↦ ap (λ (x : Db). x.dartas) shape
]
