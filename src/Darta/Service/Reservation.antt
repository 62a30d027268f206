-- ===== src/Darta/Service/Reservation.antt =====
-- `ReserveDartaNumber` of services/darta-chalani/internal/domain/darta_service.go.
pub mod Numbered
pub use e_palika.Darta.Service.Reservation.Numbered.{
  numbered, reserved_row, number_entry, next_for, IsStored, status_set, status_lost, stored_row,
  NumberOutcome, unnumbered, numbered_as, store_number-outcome, reserve_new_number-outcome,
}
use e_palika.Prelude.{
  ℕ, ◌≡◌, refl, ◌⊎◌, inl, inr, Bool, true, Option, none, some, List, Bool-cases, Option-cases,
}
use e_palika.Domain.Context.{Ctx, get_user_context}
use e_palika.Domain.Errors.{sentinel, darta_not_found}
use e_palika.Store.Types.{Uuid, Darta}
use e_palika.Store.Exec.{Db, Result, ok, err, Exec, ◌>>=◌}
use e_palika.Store.Table.{find}
use e_palika.Store.Dartas.{darta_key}
use e_palika.Store.Dartas.Laws.{later}
use e_palika.Store.Dartas.Runs.{fails, passed, get_darta_simple-runs, get_darta_simple-lost}
use e_palika.Darta.Service.{reserve_darta_number, reserve_new_number, unless_numbered}

unless_numbered-some :
    (o : Option ℕ) (d : Darta) (m : Exec Darta) (db : Db) (k : ℕ)
    → o ≡ some k
    → unless_numbered o d m db ≡ (ok d, db)
unfolding ◌>>=◌
unless_numbered-some none d m db k e = cc
unless_numbered-some (some j) d m db k e = refl

unless_numbered-none :
    (o : Option ℕ) (d : Darta) (m : Exec Darta) (db : Db)
    → o ≡ none
    → unless_numbered o d m db ≡ m db
unless_numbered-none none d m db e = refl
unless_numbered-none (some j) d m db e = cc

-- The outcomes of `ReserveDartaNumber`, each with the store that it leaves.
pub data ReserveOutcome (ctx : Ctx) (id : Uuid) (db : Db) (r : Result Darta × Db) : Type 0 where
  missing :
      (s : List Bool)
      → (fails db.outages ≡ true) ⊎ (find darta_key id db.dartas ≡ none)
      → r ≡ (err (sentinel darta_not_found), later db s)
      → ReserveOutcome ctx id db r
  kept :
      (d : Darta) (n : ℕ) (s : List Bool)
      → find darta_key id db.dartas ≡ some d
      → d.darta_number ≡ some n
      → r ≡ (ok d, later db s)
      → ReserveOutcome ctx id db r
  fresh :
      (d : Darta)
      → find darta_key id db.dartas ≡ some d
      → d.darta_number ≡ none
      → NumberOutcome (get_user_context ctx) id d db (passed (passed db.outages)) r
      → ReserveOutcome ctx id db r

-- Every call of `ReserveDartaNumber`, for any store and any schedule of outages, has one of these
-- outcomes: the first statement is lost or finds no row, an error is returned and nothing is written;
-- the row has a number already and is returned as it is; or the row has none, and then either an error
-- is returned and nothing is written, or the row gets the number after the largest of its series and,
-- exactly if the fourth statement is not lost, the status NUMBER_RESERVED, at most one audit entry is
-- added, and nothing else changes.
pub reserve_darta_number-outcome :
    (ctx : Ctx) (id : Uuid) (db : Db) → ReserveOutcome ctx id db (reserve_darta_number ctx id db)
unfolding reserve_darta_number
reserve_darta_number-outcome ctx id db = elim (Bool-cases (fails db.outages)) [
  | inl lost ↦ rw (get_darta_simple-lost id db lost) (missing (passed db.outages) (inl lost) refl)
  | inr runs ↦ elim (Option-cases (find darta_key id db.dartas)) [
    | inl absent ↦
        rw (get_darta_simple-runs id db runs, absent)
          (missing (passed db.outages) (inr absent) refl)
    | inr (d, found) ↦ elim (Option-cases d.darta_number) [
      | inr (k, has) ↦
          rw (get_darta_simple-runs id db runs, found)
            (kept d k (passed db.outages) found has
              (unless_numbered-some d.darta_number d _ _ k has))
      | inl without ↦
          rw
            (
              get_darta_simple-runs id db runs,
              found,
              unless_numbered-none d.darta_number d (reserve_new_number (get_user_context ctx) d id)
                  (later db (passed db.outages)) without,
            )
            (fresh d found without
              (reserve_new_number-outcome (get_user_context ctx) id d db found (passed db.outages)))
    ]
  ]
]
