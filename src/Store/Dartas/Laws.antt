-- ===== src/Store/Dartas/Laws.antt =====
-- What an UPDATE of one row of `dartas` returns and leaves, for any schedule of outages.
use mathlib.Core.Path.{subst}
use e_palika.Prelude.{
  ℕ, ◌≡◌, refl, ◌⊎◌, inl, inr, Bool, true, false, String, Option, some, List, [], ◌∷◌, Bool-cases,
  Option-cases,
}
use e_palika.Domain.Errors.{
  DbError, database, no_rows, check_violation, unique_violation, unavailable,
}
use e_palika.Store.Types.{Uuid, Darta}
use e_palika.Store.Exec.{Db, Result, ok, err, on_schedule}
use e_palika.Store.Table.{find, replace, clashes}
use e_palika.Store.Checks.{darta_checks, darta_collision}
use e_palika.Store.Dartas.{
  darta_key, stamped, put_darta, change_darta, update_darta, update_darta_status,
  update_darta_number, get_darta_simple, row_or_none,
}

-- The store with a new schedule, all else as it was.
abbrev pub later : Db → List Bool → Db
later db out = record db { outages = out }

-- A statement that the database refuses writes nothing.
pub record Refused (db : Db) (r : Result Darta × Db) : Type 0 where
  pub error : DbError
  pub schedule : List Bool
  pub shape : r ≡ (err (database error), later db schedule)

-- A statement that succeeds has written one checked row, in the place of the row that it read.
pub record Written (db : Db) (id : Uuid) (change : Darta → Darta) (r : Result Darta × Db)
    : Type 0 where
  pub old : Darta
  pub schedule : List Bool
  pub found : find darta_key id db.dartas ≡ some old
  pub checked : darta_checks (stamped db (change old)) ≡ true
  pub alone :
      clashes darta_key (darta_collision (stamped db (change old))) (change old).id db.dartas
      ≡ false
  pub shape : r ≡ (
    ok (stamped db (change old)),
    record (later db schedule) { dartas = replace darta_key (stamped db (change old)) db.dartas },
  )

-- The store that an UPDATE of the row `d` leaves.
abbrev pub updated_store : Db → Darta → List Bool → Db
updated_store db d out = record (later db out) { dartas = replace darta_key d db.dartas }

pub Written-shape :
    {db : Db} {id : Uuid} {change : Darta → Darta} {r : Result Darta × Db}
    (w : Written db id change r) (d : Darta)
    → find darta_key id db.dartas ≡ some d
    → r ≡ (ok (stamped db (change d)), updated_store db (stamped db (change d)) w.schedule)
Written-shape {db} {change} {r} w d found =
    let same : w.old ≡ d = cc (w.found, found) in
    subst
      (λ (o : Darta).
        r ≡ (ok (stamped db (change o)), updated_store db (stamped db (change o)) w.schedule))
      same w.shape

module _ (id : Uuid) (change : Darta → Darta) (db : Db) where
  put_darta-outcome :
      (s : List Bool) (old : Darta)
      → find darta_key id db.dartas ≡ some old
      → Refused db (put_darta (stamped db (change old)) (later db s))
        ⊎ Written db id change (put_darta (stamped db (change old)) (later db s))
  unfolding put_darta
  put_darta-outcome s old found = elim (Bool-cases (darta_checks (stamped db (change old)))) [
    | inr bad ↦ inl (record { error = check_violation; schedule = s; shape = rw bad })
    | inl good ↦
        elim (Bool-cases (
          clashes darta_key (darta_collision (stamped db (change old))) (change old).id
            db.dartas)) [
              | inl taken ↦
                  inl (record { error = unique_violation; schedule = s; shape = rw (good, taken) })
              | inr free ↦ inr (record {
                old = old;
                schedule = s;
                found = found;
                checked = good;
                alone = free;
                shape = rw (good, free);
              })
            ]
  ]

  change_darta-outcome :
      (s : List Bool)
      → Refused db (change_darta (find darta_key id db.dartas) change (later db s))
        ⊎ Written db id change (change_darta (find darta_key id db.dartas) change (later db s))
  change_darta-outcome s = elim (Option-cases (find darta_key id db.dartas)) [
    | inl absent ↦ inl (record { error = no_rows; schedule = s; shape = rw absent })
    | inr (old, found) ↦ rw found (put_darta-outcome s old found)
  ]

  on_schedule-outcome :
      (s : List Bool)
      → Refused db (
          on_schedule s
            (λ db'. change_darta (find darta_key id db'.dartas) change db')
            (later db s))
        ⊎ Written db id change (
            on_schedule s
              (λ db'. change_darta (find darta_key id db'.dartas) change db')
              (later db s))
  on_schedule-outcome [] = change_darta-outcome []
  on_schedule-outcome (true ∷ s) = inl (record { error = unavailable; schedule = s; shape = refl })
  on_schedule-outcome (false ∷ s) = change_darta-outcome s

  -- The two outcomes of an UPDATE.
  pub update_darta-outcome :
      Refused db (update_darta id change db) ⊎ Written db id change (update_darta id change db)
  unfolding update_darta
  update_darta-outcome = on_schedule-outcome db.outages

module _ (id : Uuid) (db : Db) where
  pub update_darta_status-outcome :
      (status : String)
      → Refused db (update_darta_status id status db)
        ⊎ Written db id (λ d. record d { status = status }) (update_darta_status id status db)
  unfolding update_darta_status
  update_darta_status-outcome status = update_darta-outcome id _ db

  pub update_darta_number-outcome :
      (number : Option ℕ) (formatted : Option String)
      → Refused db (update_darta_number id number formatted db)
        ⊎ Written db id
            (λ d. record d { darta_number = number; formatted_darta_number = formatted })
            (update_darta_number id number formatted db)
  unfolding update_darta_number
  update_darta_number-outcome number formatted = update_darta-outcome id _ db

-- A SELECT by key is refused, or returns the row.
pub data Read (db : Db) (id : Uuid) (r : Result Darta × Db) : Type 0 where
  missed : (e : DbError) (s : List Bool) → r ≡ (err (database e), later db s) → Read db id r
  read :
      (d : Darta) (s : List Bool)
      → find darta_key id db.dartas ≡ some d
      → r ≡ (ok d, later db s)
      → Read db id r

module _ (id : Uuid) (db : Db) where
  row_or_none-Read :
      (s : List Bool) → Read db id (row_or_none (find darta_key id db.dartas) (later db s))
  row_or_none-Read s = elim (Option-cases (find darta_key id db.dartas)) [
    | inl absent ↦ missed no_rows s (rw absent)
    | inr (d, found) ↦ read d s found (rw found)
  ]

  on_schedule-Read :
      (s : List Bool)
      → Read db id
          (on_schedule s (λ db'. row_or_none (find darta_key id db'.dartas) db') (later db s))
  on_schedule-Read [] = row_or_none-Read []
  on_schedule-Read (true ∷ s) = missed unavailable s refl
  on_schedule-Read (false ∷ s) = row_or_none-Read s

  pub get_darta_simple-Read : Read db id (get_darta_simple id db)
  unfolding get_darta_simple
  get_darta_simple-Read = on_schedule-Read db.outages
