-- ===== src/Store/Linked/Reads.antt =====
-- What GetDarta and GetDartaSimple of services/darta-chalani/internal/db/dartas.sql.go answer where each
-- darta is linked.
use e_palika.Prelude.{
  ◌≡◌, refl, inl, inr, Bool, true, false, ◌&&◌, some, List, [], ◌∷◌, ◌==◌, nat_eq, Bool-cases,
  Option-cases,
}
use e_palika.Domain.Errors.{Error, database, no_rows, unavailable}
use e_palika.Store.Types.{Uuid, Darta}
use e_palika.Store.Exec.{Db, Result, ok, err, on_schedule}
use e_palika.Store.Table.{find, All-find}
use e_palika.Store.Dartas.{
  DartaRow, darta_key, applicant_key, joined_row, row_or_none, get_darta, get_darta_simple,
}
use e_palika.Store.Dartas.Laws.{later}
use e_palika.Store.Creation.{exists_row}
use e_palika.Store.Linked.{AreLinked}

-- A row that a join refers to is found.
exists-find :
    {R : Type 0} (key : R → Uuid) (id : Uuid) (rows : List R)
    → exists_row key id rows ≡ true
    → (r : R) × (find key id rows ≡ some r)
unfolding find
exists-find key id [] h = cc
exists-find key id (x ∷ rows) h = elim (Bool-cases (key x == id)) [
  | inl same ↦ (x, rw same)
  | inr other ↦ let r = exists-find key id rows (rw other at h) in (r.0, rw other r.1)
]

left : (a b : Bool) → a && b ≡ true → a ≡ true
left true b h = refl
left false b h = cc

-- The two queries have found one darta, or they have answered with one error.
pub data Agree (joined : Result DartaRow × Db) (simple : Result Darta × Db) : Type 0 where
  both :
      (row : DartaRow) (after : Db)
      → joined ≡ (ok row, after)
      → simple ≡ (ok row.darta, after)
      → Agree joined simple
  neither :
      (e : Error) (after : Db)
      → joined ≡ (err e, after)
      → simple ≡ (err e, after)
      → Agree joined simple

module _ (db : Db) (linked : AreLinked db) (id : Uuid) where
  body-Agree :
      (s : List Bool)
      → Agree
          (joined_row (find darta_key id db.dartas) (later db s))
          (row_or_none (find darta_key id db.dartas) (later db s))
  body-Agree s = elim (Option-cases (find darta_key id db.dartas)) [
    | inl absent ↦ rw absent (neither (database no_rows) (later db s) refl refl)
    | inr (d, found) ↦
        let l = All-find darta_key _ db.dartas id linked.linked found in
        let a = exists-find applicant_key d.applicant_id db.applicants (left _ _ l) in
        rw (found, a.1) (both (record { darta = d; applicant = a.0 }) (later db s) refl refl)
  ]

  schedule-Agree :
      (s : List Bool)
      → Agree
          (on_schedule s (λ db'. joined_row (find darta_key id db'.dartas) db') (later db s))
          (on_schedule s (λ db'. row_or_none (find darta_key id db'.dartas) db') (later db s))
  schedule-Agree [] = body-Agree []
  schedule-Agree (true ∷ s) = neither (database unavailable) (later db s) refl refl
  schedule-Agree (false ∷ s) = body-Agree s

  -- Where each stored darta's applicant is stored, GetDarta answers as GetDartaSimple does, with the same
  -- darta or with the same error: the join with the applicants loses no row.
  pub get_darta-Agree : Agree (get_darta id db) (get_darta_simple id db)
  unfolding get_darta get_darta_simple
  get_darta-Agree = schedule-Agree db.outages
