-- ===== src/Darta/Service/History.antt =====
-- The reservation of a number, and with it DartaService, keeps the history of the store.
use e_palika.Prelude.{◌≡◌, refl, sym, ap, ◌⊎◌, inl, inr, none, some, Bool, List}
use e_palika.Domain.Context.{Ctx, UserContext}
use e_palika.Store.Types.{Uuid, Darta}
use e_palika.Store.Exec.{Db, Result}
use e_palika.Store.Steady.{Keeps}
use e_palika.Store.Table.{find}
use e_palika.Store.Dartas.{darta_key}
use e_palika.Store.Dartas.Laws.{later}
use e_palika.Store.History.{
  IsLater, IsSameLetter, identity, history, same_dartas, replaced-IsLater, unchanged,
}
use e_palika.Store.History.Steps.{
  update_darta-Keeps, create_audit_entry-Keeps, create_darta-Keeps, create_applicant-Keeps,
  add_darta_annex-Keeps,
}
use e_palika.Darta.Service.{reserve_darta_number}
use e_palika.Darta.Service.Reservation.{
  NumberOutcome, stored_row, unnumbered, numbered_as, missing, kept, fresh, numbered, reserved_row,
  next_for, reserve_darta_number-outcome,
}
use e_palika.Darta.Service.Steady.{Rules}

-- A row without a number may get one.
pub first_number :
    (db : Db) (d final : Darta)
    → d.darta_number ≡ none
    → (final ≡ reserved_row db d (next_for db d)) ⊎ (final ≡ numbered db d (next_for db d))
    → IsSameLetter d final
first_number db d final without which = record {
  identical = sym (same which);
  numbered = λ n h. cc (without, h);
}
  where
    same :
        (final ≡ reserved_row db d (next_for db d)) ⊎ (final ≡ numbered db d (next_for db d))
        → identity final ≡ identity d
    same (inl e) = ap (λ (x : Darta). identity x) e
    same (inr e) = ap (λ (x : Darta). identity x) e

module _ (db : Db) (id : Uuid) where
  still : (s : List _) → IsLater db (later db s)
  still s = same_dartas db (later db s) refl (unchanged db.audit db.audit refl)

  NumberOutcome-IsLater :
      {user : UserContext} {d : Darta} {before : List Bool} {r : Result Darta × Db}
      → find darta_key id db.dartas ≡ some d
      → d.darta_number ≡ none
      → NumberOutcome user id d db before r
      → IsLater db r.1
  NumberOutcome-IsLater found without (unnumbered text e s shape) = rw shape (still s)
  NumberOutcome-IsLater {d = d} found without
        (numbered_as final extra ids s fits stored entry shape) =
      rw shape (
        replaced-IsLater db _ id d final found (first_number db d final without (stored_row stored))
          refl (record { extra = extra; appended = refl }))

reserve_darta_number-Keeps : (ctx : Ctx) (id : Uuid) → Keeps history (reserve_darta_number ctx id)
unfolding history
reserve_darta_number-Keeps ctx id = record {
  at = λ db. elim (reserve_darta_number-outcome ctx id db) [
    | missing s why shape ↦ rw shape (still db id s)
    | kept d n s found has shape ↦ rw shape (still db id s)
    | fresh d found without out ↦ NumberOutcome-IsLater db id found without out
  ];
}

pub history_rules : Rules history
history_rules = record {
  update = update_darta-Keeps;
  insert = create_darta-Keeps;
  annex = add_darta_annex-Keeps;
  applicant = create_applicant-Keeps;
  audit = create_audit_entry-Keeps;
  reserve = reserve_darta_number-Keeps;
}
