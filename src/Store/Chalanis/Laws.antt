-- ===== src/Store/Chalanis/Laws.antt =====
-- What the statements of services/darta-chalani/internal/db/chalanis.sql.go return and leave, for any
-- schedule of outages.
use e_palika.Prelude.{
  ℕ, ◌≡◌, refl, inl, inr, Bool, true, false, String, Option, some, List, [], ◌∷◌, Bool-cases,
  Option-cases, ltb, select, ◌+◌,
}
use e_palika.Prelude.Int.{half32}
use e_palika.Domain.Errors.{
  DbError, database, no_rows, check_violation, unique_violation, unavailable, out_of_range,
}
use e_palika.Store.Types.{Uuid, Chalani}
use e_palika.Store.Exec.{Db, Result, ok, err, on_schedule}
use e_palika.Store.Table.{find, replace, clashes}
use e_palika.Store.Checks.{chalani_checks, chalani_collision}
use e_palika.Store.Dartas.{row_or_none, in_range}
use e_palika.Store.Dartas.Laws.{later}
use e_palika.Store.Chalanis.{
  chalani_key, put_chalani, with_status, change_chalani_status, update_chalani_status,
  get_chalani_simple, get_next_chalani_number, in_series, max_number,
}

-- The store that a new status for the row `c` leaves.
abbrev pub status_store : Db → String → Chalani → List Bool → Db
status_store db status c out = record (later db out) {
  chalanis = replace chalani_key (with_status db status c) db.chalanis;
}

-- An UPDATE of the status is refused, or it has written the checked row in the place of the old one.
pub data Update (db : Db) (id : Uuid) (status : String) (r : Result Chalani × Db) : Type 0 where
  refused :
      (e : DbError) (s : List Bool) → r ≡ (err (database e), later db s) → Update db id status r
  written :
      (c : Chalani) (s : List Bool)
      → find chalani_key id db.chalanis ≡ some c
      → chalani_checks (with_status db status c) ≡ true
      → r ≡ (ok (with_status db status c), status_store db status c s)
      → Update db id status r

module _ (id : Uuid) (status : String) (db : Db) where
  put_chalani-Update :
      (s : List Bool) (c : Chalani)
      → find chalani_key id db.chalanis ≡ some c
      → Update db id status (put_chalani (with_status db status c) (later db s))
  unfolding put_chalani
  put_chalani-Update s c found = elim (Bool-cases (chalani_checks (with_status db status c))) [
    | inr bad ↦ refused check_violation s (rw bad)
    | inl good ↦
        elim (Bool-cases
          (clashes chalani_key (chalani_collision (with_status db status c)) c.id db.chalanis)) [
            | inl taken ↦ refused unique_violation s (rw (good, taken))
            | inr free ↦ written c s found good (rw (good, free))
          ]
  ]

  change_chalani_status-Update :
      (s : List Bool)
      → Update db id status
          (change_chalani_status (find chalani_key id db.chalanis) status (later db s))
  change_chalani_status-Update s = elim (Option-cases (find chalani_key id db.chalanis)) [
    | inl absent ↦ refused no_rows s (rw absent)
    | inr (c, found) ↦ rw found (put_chalani-Update s c found)
  ]

  on_schedule-Update :
      (s : List Bool)
      → Update db id status (
          on_schedule s
            (λ db'. change_chalani_status (find chalani_key id db'.chalanis) status db')
            (later db s))
  on_schedule-Update [] = change_chalani_status-Update []
  on_schedule-Update (true ∷ s) = refused unavailable s refl
  on_schedule-Update (false ∷ s) = change_chalani_status-Update s

  pub update_chalani_status-Update : Update db id status (update_chalani_status id status db)
  unfolding update_chalani_status
  update_chalani_status-Update = on_schedule-Update db.outages

-- A SELECT by key is refused, or returns the row.
pub data Read (db : Db) (id : Uuid) (r : Result Chalani × Db) : Type 0 where
  missed : (e : DbError) (s : List Bool) → r ≡ (err (database e), later db s) → Read db id r
  read :
      (c : Chalani) (s : List Bool)
      → find chalani_key id db.chalanis ≡ some c
      → r ≡ (ok c, later db s)
      → Read db id r

module _ (id : Uuid) (db : Db) where
  row_or_none-Read :
      (s : List Bool) → Read db id (row_or_none (find chalani_key id db.chalanis) (later db s))
  row_or_none-Read s = elim (Option-cases (find chalani_key id db.chalanis)) [
    | inl absent ↦ missed no_rows s (rw absent)
    | inr (c, found) ↦ read c s found (rw found)
  ]

  on_schedule-Read :
      (s : List Bool)
      → Read db id
          (on_schedule s (λ db'. row_or_none (find chalani_key id db'.chalanis) db') (later db s))
  on_schedule-Read [] = row_or_none-Read []
  on_schedule-Read (true ∷ s) = missed unavailable s refl
  on_schedule-Read (false ∷ s) = row_or_none-Read s

  pub get_chalani_simple-Read : Read db id (get_chalani_simple id db)
  unfolding get_chalani_simple
  get_chalani_simple-Read = on_schedule-Read db.outages

-- A number, or an error, and the store as it was but for the schedule.
pub data Numbering (db : Db) (r : Result ℕ × Db) : Type 0 where
  failed : (e : DbError) (s : List Bool) → r ≡ (err (database e), later db s) → Numbering db r
  next : (n : ℕ) (s : List Bool) → r ≡ (ok n, later db s) → Numbering db r

module _ (db : Db) where
  in_range-Numbering : (n : ℕ) (s : List Bool) → Numbering db (in_range n (later db s))
  in_range-Numbering n s = elim (Bool-cases (ltb n half32)) [
    | inl small ↦ next n s (rw small)
    | inr large ↦ failed out_of_range s (rw large)
  ]

  on_schedule-Numbering :
      (count : Db → ℕ) (s : List Bool)
      → Numbering db (on_schedule s (λ db'. in_range (count db') db') (later db s))
  on_schedule-Numbering count [] = in_range-Numbering _ []
  on_schedule-Numbering count (true ∷ s) = failed unavailable s refl
  on_schedule-Numbering count (false ∷ s) = in_range-Numbering _ s

  pub get_next_chalani_number-Numbering :
      (fiscal_year scope : String) (ward : Option String) (tenant : String)
      → Numbering db (get_next_chalani_number fiscal_year scope ward tenant db)
  unfolding get_next_chalani_number
  get_next_chalani_number-Numbering fiscal_year scope ward tenant =
      on_schedule-Numbering
        (λ db'. max_number (select (in_series fiscal_year scope ward tenant) db'.chalanis) + 1)
        db.outages
