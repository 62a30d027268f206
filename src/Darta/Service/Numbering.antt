-- ===== src/Darta/Service/Numbering.antt =====
-- What `ReserveDartaNumber` of services/darta-chalani/internal/domain/darta_service.go promises.
use mathlib.Core.Path.{subst, subst₂}
use e_palika.Prelude.{
  ℕ, ◌≡◌, refl, ap, sym, ◌∙◌, ◌≢◌, ◌⊎◌, inl, inr, Bool, true, none, some, List, All, arith,
}
use e_palika.Domain.Context.{Ctx, UserContext, get_user_context}
use e_palika.Store.Types.{Uuid, Darta, AuditTrail}
use e_palika.Store.Exec.{Db, Result, ok}
use e_palika.Store.Table.{find, replace, find-replace_self, key-find}
use e_palika.Store.Dartas.{darta_key, in_series}
use e_palika.Store.Creation.Laws.{audited}
use e_palika.Store.Dartas.Numbers.{above-max_number}
use e_palika.Darta.Service.{reserve_darta_number}
use e_palika.Store.Dartas.Runs.{passed}
use e_palika.Darta.Service.Reservation.{
  missing, kept, fresh, NumberOutcome, stored_row, unnumbered, numbered_as, numbered, reserved_row,
  next_for, reserve_darta_number-outcome,
}

-- No row that numbers together with `d` has the number that `d` would get.
unfoldable pub IsFreeFor : Db → Darta → ℕ → Type 0
IsFreeFor db d n =
    All
      (λ (row : Darta).
        in_series d.fiscal_year_id d.scope d.ward_id d.tenant_id row ≡ true
        → row.darta_number ≢ some n)
      db.dartas

pub next_for-IsFreeFor : (db : Db) (d : Darta) → IsFreeFor db d (next_for db d)
unfolding IsFreeFor
next_for-IsFreeFor db d = above-max_number _ db.dartas _ (omega arith)

-- What the caller of a first reservation has.
pub record IsNumbered (id : Uuid) (d : Darta) (db : Db) (answer : Darta) (after : Db) : Type 0 where
  pub number : ℕ
  pub answered : answer.darta_number ≡ some number
  pub row : Darta
  pub stored : find darta_key id after.dartas ≡ some row
  pub same : row.darta_number ≡ some number
  pub free : IsFreeFor db d number

ok_inj : {a b : Darta} → ok a ≡ ok b → a ≡ b
ok_inj e = cc

either_number :
    (db : Db) (d final : Darta)
    → (final ≡ reserved_row db d (next_for db d)) ⊎ (final ≡ numbered db d (next_for db d))
    → (final.darta_number ≡ some (next_for db d)) × (final.id ≡ d.id)
either_number db d final (inl e) =
    (ap (λ (x : Darta). x.darta_number) e, ap (λ (x : Darta). x.id) e)
either_number db d final (inr e) =
    (ap (λ (x : Darta). x.darta_number) e, ap (λ (x : Darta). x.id) e)

module _ (id : Uuid) (db : Db) where
  found_number :
      (d : Darta) (extra : List AuditTrail) (ids : List Uuid) (s : List Bool) (final : Darta)
      → find darta_key id db.dartas ≡ some d
      → (final ≡ reserved_row db d (next_for db d)) ⊎ (final ≡ numbered db d (next_for db d))
      → IsNumbered id d db
          (numbered db d (next_for db d))
          (audited (record db { dartas = replace darta_key final db.dartas }) extra ids s)
  found_number d extra ids s final found which = record {
    number = next_for db d;
    answered = refl;
    row = final;
    stored =
        find-replace_self darta_key db.dartas final id
          ((either_number db d final which).1 ∙ key-find darta_key db.dartas id found) found;
    same = (either_number db d final which).0;
    free = next_for-IsFreeFor db d;
  }

  NumberOutcome-IsNumbered :
      {user : UserContext} {d : Darta} {before : List Bool} {r : Result Darta × Db} (answer : Darta)
      → find darta_key id db.dartas ≡ some d
      → NumberOutcome user id d db before r
      → r.0 ≡ ok answer
      → IsNumbered id d db answer r.1
  NumberOutcome-IsNumbered answer found (unnumbered text e s shape) done = cc (ap (λ q. q.0) shape)
  NumberOutcome-IsNumbered {d = d} {r} answer found
        (numbered_as final extra ids s fits stored entry shape) done =
      let same : numbered db d (next_for db d) ≡ answer =
        ok_inj (sym (ap (λ q. q.0) shape) ∙ done) in
      subst₂ (λ a after. IsNumbered id d db a after) same (sym (ap (λ q. q.1) shape))
        (found_number d extra ids s final found (stored_row stored))

module _ (ctx : Ctx) (id : Uuid) (db : Db) where
  -- A reservation of a darta without a number that succeeds returns a number that no row of the same
  -- fiscal year, scope, ward and tenant had before, and the stored row has it too.
  pub reserve_darta_number-IsNumbered :
      (d answer : Darta)
      → find darta_key id db.dartas ≡ some d
      → d.darta_number ≡ none
      → (reserve_darta_number ctx id db).0 ≡ ok answer
      → IsNumbered id d db answer (reserve_darta_number ctx id db).1
  reserve_darta_number-IsNumbered d answer found without done =
      elim (reserve_darta_number-outcome ctx id db) [
        | missing s why shape ↦ cc (ap (λ q. q.0) shape)
        | kept d' n s found' has shape ↦
            let same : d ≡ d' = cc (found, found') in
            cc (ap (λ (x : Darta). x.darta_number) same, without, has)
        | fresh d' found' without' out ↦
            NumberOutcome-IsNumbered id db answer found
              (subst
                (λ x.
                  NumberOutcome (get_user_context ctx) id x db (passed (passed db.outages))
                    (reserve_darta_number ctx id db))
                (let same : d' ≡ d = cc (found, found') in same) out)
              done
      ]

  -- A darta with a number keeps it: the call writes no row.
  pub reserve_darta_number-numbered :
      (d : Darta) (n : ℕ)
      → find darta_key id db.dartas ≡ some d
      → d.darta_number ≡ some n
      → (reserve_darta_number ctx id db).1.dartas ≡ db.dartas
  reserve_darta_number-numbered d n found has = elim (reserve_darta_number-outcome ctx id db) [
    | missing s why shape ↦ ap (λ q. q.1.dartas) shape
    | kept d' n' s found' has' shape ↦ ap (λ q. q.1.dartas) shape
    | fresh d' found' without' out ↦
        let same : d ≡ d' = cc (found, found') in
        cc (ap (λ (x : Darta). x.darta_number) same, has, without')
  ]

-- After a reservation that returned a darta, a second one for the same darta writes no row of dartas, whatever
-- outages befall it.
pub reserve_darta_number_twice :
    (ctx : Ctx) (id : Uuid) (db : Db) (answer : Darta)
    → (reserve_darta_number ctx id db).0 ≡ ok answer
    → (reserve_darta_number ctx id (reserve_darta_number ctx id db).1).1.dartas
      ≡ (reserve_darta_number ctx id db).1.dartas
reserve_darta_number_twice ctx id db answer done = elim (reserve_darta_number-outcome ctx id db) [
  | missing s why shape ↦ cc (ap (λ q. q.0) shape)
  | kept d n s found has shape ↦
      reserve_darta_number-numbered ctx id (reserve_darta_number ctx id db).1 d n
        (ap (λ q. find darta_key id q.1.dartas) shape ∙ found) has
  | fresh d found without out ↦
      let r = NumberOutcome-IsNumbered id db answer found out done in
      reserve_darta_number-numbered ctx id (reserve_darta_number ctx id db).1 r.row r.number
        r.stored r.same
]
