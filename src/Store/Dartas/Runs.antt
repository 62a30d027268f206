-- ===== src/Store/Dartas/Runs.antt =====
-- When the statements on one row of `dartas` succeed, and what they use up of the schedule of outages
-- (services/darta-chalani/internal/db/dartas.sql.go).
use mathlib.Core.Path.{subst}
use e_palika.Prelude.{
  ◌+◌, ltb, select, ◌≡◌, refl, sym, ap, ◌∙◌, inl, inr, Bool, true, false, ◌&&◌, ◌||◌, String,
  Option, some, List, [], ◌∷◌, ◌==◌, string_eq, is_one_of, Bool-cases, Option-cases,
}
use e_palika.Prelude.Int.{half32}
use e_palika.Domain.Errors.{database, unavailable}
use e_palika.Store.Types.{Uuid, Darta}
use e_palika.Store.Exec.{Db, Result, ok, err, Exec, on_schedule}
use e_palika.Store.Table.{find, clashes}
use e_palika.Store.Checks.{
  darta_checks, darta_collision, darta_statuses, scopes, priorities, intake_channels, is_set,
}
use e_palika.Store.Dartas.{
  darta_key, stamped, put_darta, change_darta, update_darta, get_darta_simple, row_or_none,
  in_range, max_number, in_series, get_next_darta_number,
}
use e_palika.Store.Dartas.Laws.{later, updated_store, Written}

-- Does the next statement fail for a reason outside the tables?
abbrev pub fails : List Bool → Bool
fails [] = false
fails (b ∷ s) = b

-- The schedule after one more statement.
abbrev pub passed : List Bool → List Bool
passed [] = []
passed (b ∷ s) = s

module _ {A : Type 0} (m : Exec A) (db : Db) where
  on_schedule-runs :
      (s : List Bool) → fails s ≡ false → on_schedule s m (later db s) ≡ m (later db (passed s))
  on_schedule-runs [] h = refl
  on_schedule-runs (true ∷ s) h = cc
  on_schedule-runs (false ∷ s) h = refl

  on_schedule-lost :
      (s : List Bool)
      → fails s ≡ true
      → on_schedule s m (later db s) ≡ (err (database unavailable), later db (passed s))
  on_schedule-lost [] h = cc
  on_schedule-lost (true ∷ s) h = refl
  on_schedule-lost (false ∷ s) h = cc

  -- A statement uses up one entry, if its body uses up none.
  on_schedule-passed :
      ((s : List Bool) → (m (later db s)).1.outages ≡ s)
      → (s : List Bool) → (on_schedule s m (later db s)).1.outages ≡ passed s
  on_schedule-passed still [] = still []
  on_schedule-passed still (true ∷ s) = refl
  on_schedule-passed still (false ∷ s) = still s

module _ (id : Uuid) (change : Darta → Darta) (db : Db) where
  put_darta-still : (d : Darta) (s : List Bool) → (put_darta d (later db s)).1.outages ≡ s
  unfolding put_darta
  put_darta-still d s = elim (Bool-cases (darta_checks d)) [
    | inr bad ↦ rw bad refl
    | inl good ↦ elim (Bool-cases (clashes darta_key (darta_collision d) d.id db.dartas)) [
      | inl taken ↦ rw (good, taken) refl
      | inr free ↦ rw (good, free) refl
    ]
  ]

  change_darta-still :
      (s : List Bool)
      → (change_darta (find darta_key id db.dartas) change (later db s)).1.outages ≡ s
  change_darta-still s = elim (Option-cases (find darta_key id db.dartas)) [
    | inl absent ↦ rw absent refl
    | inr (d, found) ↦ rw found (put_darta-still (stamped db (change d)) s)
  ]

  pub update_darta-passed : (update_darta id change db).1.outages ≡ passed db.outages
  unfolding update_darta
  update_darta-passed =
      on_schedule-passed (λ db'. change_darta (find darta_key id db'.dartas) change db') db
        change_darta-still db.outages

  -- What an UPDATE has left to the statements after it.
  pub Written-passed :
      (w : Written db id change (update_darta id change db)) → w.schedule ≡ passed db.outages
  Written-passed w = sym (ap (λ q. q.1.outages) w.shape) ∙ update_darta-passed

  -- An UPDATE succeeds if it is not lost, finds its row, and the new row meets the constraints.
  pub update_darta-goes :
      (d : Darta)
      → fails db.outages ≡ false
      → find darta_key id db.dartas ≡ some d
      → darta_checks (stamped db (change d)) ≡ true
      → clashes darta_key (darta_collision (stamped db (change d))) (change d).id db.dartas ≡ false
      → update_darta id change db
        ≡ (ok (stamped db (change d)), updated_store db (stamped db (change d)) (passed db.outages))
  unfolding update_darta put_darta
  update_darta-goes d runs found checked alone =
      rw
        (
          on_schedule-runs (λ db'. change_darta (find darta_key id db'.dartas) change db') db
              db.outages runs,
          found,
          checked,
          alone,
        )
        refl

  pub update_darta-lost :
      fails db.outages ≡ true
      → update_darta id change db ≡ (err (database unavailable), later db (passed db.outages))
  unfolding update_darta
  update_darta-lost lost =
      on_schedule-lost (λ db'. change_darta (find darta_key id db'.dartas) change db') db db.outages
        lost

  -- The constraints that a row written has met.
  pub Written-checked :
      {r : Result Darta × Db} (w : Written db id change r) (d : Darta)
      → find darta_key id db.dartas ≡ some d
      → darta_checks (stamped db (change d)) ≡ true
  Written-checked w d found =
      let same : w.old ≡ d = cc (w.found, found) in
      subst (λ (o : Darta). darta_checks (stamped db (change o)) ≡ true) same w.checked

  pub Written-alone :
      {r : Result Darta × Db} (w : Written db id change r) (d : Darta)
      → find darta_key id db.dartas ≡ some d
      → clashes darta_key (darta_collision (stamped db (change d))) (change d).id db.dartas ≡ false
  Written-alone w d found =
      let same : w.old ≡ d = cc (w.found, found) in
      subst
        (λ (o : Darta).
          clashes darta_key (darta_collision (stamped db (change o))) (change o).id db.dartas
          ≡ false)
        same w.alone

module _ (id : Uuid) (db : Db) where
  pub get_darta_simple-runs :
      fails db.outages ≡ false
      → get_darta_simple id db
        ≡ row_or_none (find darta_key id db.dartas) (later db (passed db.outages))
  unfolding get_darta_simple
  get_darta_simple-runs runs =
      on_schedule-runs (λ db'. row_or_none (find darta_key id db'.dartas) db') db db.outages runs

  pub get_darta_simple-lost :
      fails db.outages ≡ true
      → get_darta_simple id db ≡ (err (database unavailable), later db (passed db.outages))
  unfolding get_darta_simple
  get_darta_simple-lost lost =
      on_schedule-lost (λ db'. row_or_none (find darta_key id db'.dartas) db') db db.outages lost

module _ (fiscal_year scope : String) (ward : Option String) (tenant : String) (db : Db) where
  pub get_next_darta_number-passed :
      (get_next_darta_number fiscal_year scope ward tenant db).1.outages ≡ passed db.outages
  unfolding get_next_darta_number
  get_next_darta_number-passed =
      on_schedule-passed
        (λ db'.
          in_range (max_number (select (in_series fiscal_year scope ward tenant) db'.dartas) + 1)
            db')
        db
        (λ s.
          elim (Bool-cases (
            ltb (max_number (select (in_series fiscal_year scope ward tenant) db.dartas) + 1)
              half32)) [ inl fits ↦ rw fits refl | inr over ↦ rw over refl ])
        db.outages

third :
    (a b c s d e : Bool) → a && b && c && d && e ≡ true → s ≡ true → a && b && s && d && e ≡ true
third a b c false d e h k = cc
third false b c true d e h k = h
third true false c true d e h k = h
third true true false true d e h k = cc
third true true true true d e h k = h

-- The status is the only column of the constraints that a change of status touches.
pub darta_checks-status :
    (db : Db) (d : Darta) (new : String)
    → darta_checks d ≡ true
    → is_one_of new darta_statuses ≡ true
    → darta_checks (stamped db (record d { status = new })) ≡ true
unfolding darta_checks
darta_checks-status db d new h k =
    third (is_one_of d.scope scopes) (is_set d.ward_id || d.scope == "MUNICIPALITY")
      (is_one_of d.status darta_statuses) (is_one_of new darta_statuses)
      (is_one_of d.priority priorities) (is_one_of d.intake_channel intake_channels) h k
