-- ===== src/Darta/Service/Distinct.antt =====
-- DartaService (services/darta-chalani/internal/domain/darta_service.go) numbers no two dartas alike.
use mathlib.Core.Path.{subst}
use e_palika.Prelude.{
  ◌≡◌, refl, sym, ap, ◌∙◌, ◌⊎◌, inl, inr, Bool, true, String, Option, none, some, List, ◌==◌,
  string_eq, eq_iff,
}
use e_palika.Domain.Context.{Ctx, UserContext}
use e_palika.Store.Types.{Uuid, Darta}
use e_palika.Store.Exec.{Db, Result}
use e_palika.Store.Steady.{Keeps}
use e_palika.Store.Table.{find, replace, All-find, key-find}
use e_palika.Store.Dartas.{darta_key, in_series, same_ward}
use e_palika.Store.Distinct.{
  Series, series, seat, AreApart, Distinct, HasDistinctNumbers, replaced-Distinct,
}
use e_palika.Store.Distinct.Steps.{
  distinctness, update_darta-Keeps, create_audit_entry-Keeps, create_darta-Keeps,
  create_applicant-Keeps, add_darta_annex-Keeps,
}
use e_palika.Darta.Service.{reserve_darta_number}
use e_palika.Darta.Service.Reservation.{
  NumberOutcome, stored_row, unnumbered, numbered_as, missing, kept, fresh, numbered, reserved_row,
  next_for, reserve_darta_number-outcome,
}
use e_palika.Darta.Service.Numbering.{IsFreeFor, next_for-IsFreeFor}
use e_palika.Darta.Service.Steady.{Rules}

same_text : (s : String) → (s == s) ≡ true
same_text s = (eq_iff s s).1 refl

same_ward_refl : (w : Option String) → same_ward w w ≡ true
same_ward_refl none = refl
same_ward_refl (some w) = same_text w

-- The rows of one series number together.
in_series-series :
    (d c : Darta)
    → series d ≡ series c
    → in_series d.fiscal_year_id d.scope d.ward_id d.tenant_id c ≡ true
in_series-series d c e =
    subst (λ (s : Series). in_series s.0 s.1 s.2 s.3 c ≡ true) (sym e)
      (rw
        (
          same_text c.fiscal_year_id,
          same_text c.scope,
          same_ward_refl c.ward_id,
          same_text c.tenant_id,
        )
        refl)

final-seat :
    (db : Db) (d final : Darta)
    → (final ≡ reserved_row db d (next_for db d)) ⊎ (final ≡ numbered db d (next_for db d))
    → (final.id ≡ d.id) × (seat final ≡ (series d, some (next_for db d)))
final-seat db d final (inl e) = (ap (λ (x : Darta). x.id) e, ap (λ (x : Darta). seat x) e)
final-seat db d final (inr e) = (ap (λ (x : Darta). x.id) e, ap (λ (x : Darta). seat x) e)

module _ (db : Db) (d : Darta) where
  -- The next number is apart from each row that there is.
  next-AreApart :
      (k : Uuid) (c : Darta)
      → find darta_key k db.dartas ≡ some c
      → AreApart (series d, some (next_for db d)) (seat c)
        × AreApart (seat c) (series d, some (next_for db d))
  unfolding IsFreeFor
  next-AreApart k c h =
      let free = All-find darta_key _ db.dartas k (next_for-IsFreeFor db d) h in
      (
        λ same n e g. free (in_series-series d c same) (g ∙ sym e),
        λ same n e g. free (in_series-series d c (sym same)) (e ∙ sym g),
      )

  numbered-Distinct :
      (id : Uuid) (final : Darta)
      → find darta_key id db.dartas ≡ some d
      → (final ≡ reserved_row db d (next_for db d)) ⊎ (final ≡ numbered db d (next_for db d))
      → Distinct db.dartas
      → Distinct (replace darta_key final db.dartas)
  numbered-Distinct id final found which apart =
      let f = final-seat db d final which in
      replaced-Distinct db.dartas id d final found (f.0 ∙ key-find darta_key db.dartas id found)
        (λ k c ne h.
          subst (λ s. AreApart s (seat c) × AreApart (seat c) s) (sym f.1) (next-AreApart k c h))
        apart

NumberOutcome-Distinct :
    {user : UserContext} {id : Uuid} {d : Darta} {db : Db} {before : List Bool}
    {r : Result Darta × Db}
    → find darta_key id db.dartas ≡ some d
    → HasDistinctNumbers db
    → NumberOutcome user id d db before r
    → HasDistinctNumbers r.1
NumberOutcome-Distinct found s (unnumbered text e out shape) =
    rw shape (record { distinct = s.distinct })
NumberOutcome-Distinct {id = id} {d = d} {db = db} found s
      (numbered_as final extra ids out fits stored entry shape) =
    rw shape
      (record { distinct = numbered-Distinct db d id final found (stored_row stored) s.distinct })

reserve-Keeps : (ctx : Ctx) (id : Uuid) → Keeps distinctness (reserve_darta_number ctx id)
unfolding distinctness
reserve-Keeps ctx id = record {
  at = λ db s. elim (reserve_darta_number-outcome ctx id db) [
    | missing out why shape ↦ rw shape (record { distinct = s.distinct })
    | kept d n out found has shape ↦ rw shape (record { distinct = s.distinct })
    | fresh d found without out ↦ NumberOutcome-Distinct found s out
  ];
}

pub distinct_rules : Rules distinctness
distinct_rules = record {
  update = update_darta-Keeps;
  insert = create_darta-Keeps;
  annex = add_darta_annex-Keeps;
  applicant = create_applicant-Keeps;
  audit = create_audit_entry-Keeps;
  reserve = reserve-Keeps;
}
