-- ===== src/Store/Dartas/Numbers.antt =====
-- The numbers of a series of dartas: GetNextDartaNumber of
-- services/darta-chalani/internal/db/dartas.sql.go.
use e_palika.Prelude.{
  ℕ, ◌+◌, ◌<◌, ◌≡◌, refl, ap, ◌≢◌, inl, inr, Bool, true, false, String, Option, some, List, [], ◌∷◌,
  select, All, ltb, ltb→lt, if◌then◌else◌, arith, Bool-cases,
}
use e_palika.Prelude.Int.{half32}
use e_palika.Domain.Errors.{DbError, database, out_of_range, unavailable}
use e_palika.Store.Types.{Darta}
use e_palika.Store.Exec.{Db, Result, ok, err, Exec, on_schedule}
use e_palika.Store.Dartas.{in_series, max_number, number_or_zero, get_next_darta_number}
use e_palika.Store.Dartas.Laws.{later}

-- The number that follows the largest one of a series.
abbrev pub next_number : Db → String → String → Option String → String → ℕ
next_number db fiscal_year scope ward tenant =
    max_number (select (in_series fiscal_year scope ward tenant) db.dartas) + 1

-- The next number is refused, or it is the one after the largest, within an int32.
pub data Counted (db : Db) (n : ℕ) (r : Result ℕ × Db) : Type 0 where
  uncounted : (e : DbError) (s : List Bool) → r ≡ (err (database e), later db s) → Counted db n r
  counted : (s : List Bool) → n < half32 → r ≡ (ok n, later db s) → Counted db n r

module _ (fiscal_year scope : String) (ward : Option String) (tenant : String) (db : Db) where
  abbrev next : ℕ
  next = next_number db fiscal_year scope ward tenant

  abbrev count_body : Exec ℕ
  count_body db' =
      let n = next_number db' fiscal_year scope ward tenant in
      if ltb n half32 then (ok n, db') else (err (database out_of_range), db')

  count_body-Counted : (s : List Bool) → Counted db next (count_body (later db s))
  count_body-Counted s = elim (Bool-cases (ltb next half32)) [
    | inl fits ↦ rw fits (counted s (ltb→lt _ _ fits) refl)
    | inr over ↦ rw over (uncounted out_of_range s refl)
  ]

  on_schedule-Counted : (s : List Bool) → Counted db next (on_schedule s count_body (later db s))
  on_schedule-Counted [] = count_body-Counted []
  on_schedule-Counted (true ∷ s) = uncounted unavailable s refl
  on_schedule-Counted (false ∷ s) = count_body-Counted s

  pub get_next_darta_number-Counted :
      Counted db next (get_next_darta_number fiscal_year scope ward tenant db)
  unfolding get_next_darta_number
  get_next_darta_number-Counted = on_schedule-Counted db.outages

-- No row that passes the test has a number above the largest among those that do.
pub above-max_number :
    (p : Darta → Bool) (rows : List Darta) (n : ℕ)
    → max_number (select p rows) < n
    → All (λ (d : Darta). p d ≡ true → d.darta_number ≢ some n) rows
unfolding max_number
above-max_number p [] n h = tt
above-max_number p (d ∷ rows) n h = elim (Bool-cases (p d)) [
  | inl chosen ↦
      let bound : (number_or_zero d.darta_number < n) × (max_number (select p rows) < n) =
        (ground arith, ground arith) in
      (λ _ e. absurd (omega (arith, bound, ap number_or_zero e)), above-max_number p rows n bound.1)
  | inr passed ↦ (λ e. cc, above-max_number p rows n (rw passed at h))
]
