-- ===== src/Darta/Service/Reservation/Numbered.antt =====
-- The part of `ReserveDartaNumber` of services/darta-chalani/internal/domain/darta_service.go that gives a
-- darta its number.
use mathlib.Core.Path.{subst}
use e_palika.Prelude.{
  ℕ, ◌<◌, ◌≡◌, refl, sym, ap, ◌∙◌, ◌⊎◌, inl, inr, Bool, true, false, String, some, List, string_eq,
  Bool-cases,
}
use e_palika.Prelude.Int.{half32}
use e_palika.Domain.Context.{UserContext}
use e_palika.Domain.Errors.{DbError, database, wrapped}
use e_palika.Store.Types.{Uuid, Darta, AuditTrail}
use e_palika.Store.Exec.{Db, Result, ok, err}
use e_palika.Store.Table.{
  find, replace, find-replace_self, replace-replace, key-find, clashes, clashes-replace,
}
use e_palika.Store.Checks.{darta_checks, darta_collision}
use e_palika.Store.Dartas.{darta_key, stamped, update_darta_status, update_darta_number}
use e_palika.Store.Dartas.Laws.{later, updated_store, Written-shape, update_darta-outcome}
use e_palika.Store.Dartas.Runs.{
  fails, passed, Written-passed, Written-checked, Written-alone, update_darta-goes,
  update_darta-lost, get_next_darta_number-passed, darta_checks-status,
}
use e_palika.Store.Dartas.Numbers.{next_number, counted, uncounted, get_next_darta_number-Counted}
use e_palika.Store.Creation
use e_palika.Store.Creation.{CreateAuditEntryParams}
use e_palika.Store.Creation.Laws.{audited, IsLogged, ignore-Trail}
use e_palika.Darta.Service.{
  reserve_new_number, store_number, create_audit_entry, audit_params, number_change, format_for,
}

-- The row with its number, and the same row after the change of status.
abbrev pub numbered : Db → Darta → ℕ → Darta
numbered db d n =
    stamped db (record d { darta_number = some n; formatted_darta_number = some (format_for d n) })

abbrev pub reserved_row : Db → Darta → ℕ → Darta
reserved_row db d n = stamped db (record (numbered db d n) { status = "NUMBER_RESERVED" })

abbrev pub number_entry : UserContext → Uuid → Darta → ℕ → CreateAuditEntryParams
number_entry user id d n =
    audit_params "DARTA" id "NUMBER_RESERVED" user (some (number_change n (format_for d n)))

abbrev set_number : Darta → ℕ → Darta → Darta
set_number d n x = record x {
  darta_number = some n;
  formatted_darta_number = some (format_for d n);
}

abbrev pub next_for : Db → Darta → ℕ
next_for db d = next_number db d.fiscal_year_id d.scope d.ward_id d.tenant_id

-- The row that a reservation leaves, where `before` is the schedule from the UPDATE of the number on: it
-- has the new status too, unless the statement after that one is lost.
pub data IsStored (db : Db) (d : Darta) (before : List Bool) (final : Darta) : Type 0 where
  status_set :
      fails (passed before) ≡ false
      → final ≡ reserved_row db d (next_for db d)
      → IsStored db d before final
  status_lost :
      fails (passed before) ≡ true
      → final ≡ numbered db d (next_for db d)
      → IsStored db d before final

pub stored_row :
    {db : Db} {d : Darta} {before : List Bool} {final : Darta}
    → IsStored db d before final
    → (final ≡ reserved_row db d (next_for db d)) ⊎ (final ≡ numbered db d (next_for db d))
stored_row (status_set runs e) = inl e
stored_row (status_lost lost e) = inr e

-- The outcomes for a darta without a number. The row that is returned has the status from before.
pub data NumberOutcome (user : UserContext) (id : Uuid) (d : Darta) (db : Db) (before : List Bool)
    (r : Result Darta × Db) : Type 0 where
  unnumbered :
      (text : String) (e : DbError) (s : List Bool)
      → r ≡ (err (wrapped text (database e)), later db s)
      → NumberOutcome user id d db before r
  numbered_as :
      (final : Darta) (extra : List AuditTrail) (ids : List Uuid) (s : List Bool)
      → next_for db d < half32
      → IsStored db d before final
      → IsLogged (number_entry user id d (next_for db d)) db extra
      → r ≡ (
        ok (numbered db d (next_for db d)),
        audited (record db { dartas = replace darta_key final db.dartas }) extra ids s,
      )
      → NumberOutcome user id d db before r

module _ (user : UserContext) (id : Uuid) (d : Darta) (db : Db)
    (found : find darta_key id db.dartas ≡ some d) where
  abbrev n : ℕ
  n = next_for db d

  logged_number :
      (before : List Bool) (final : Darta) (s : List Bool)
      → n < half32
      → IsStored db d before final
      → NumberOutcome user id d db before (
        ok (numbered db d n),
        (Creation.create_audit_entry (number_entry user id d n) (updated_store db final s)).1,
      )
  logged_number before final s fits which =
      let t = ignore-Trail (number_entry user id d n) (updated_store db final s) in
      numbered_as final t.extra t.ids t.schedule fits which t.entry
        (ap (λ after. (ok (numbered db d n), after)) t.shape)

  -- The second UPDATE finds the row that the first one has written.
  found_again :
      (s : List Bool)
      → find darta_key id (updated_store db (numbered db d n) s).dartas ≡ some (numbered db d n)
  found_again s =
      find-replace_self darta_key db.dartas (numbered db d n) id
        (key-find darta_key db.dartas id found) found

  -- The second UPDATE meets the constraints, since the first one has met them.
  second_update :
      (s : List Bool)
      → fails s ≡ false
      → darta_checks (numbered db d n) ≡ true
      → clashes darta_key (darta_collision (numbered db d n)) d.id db.dartas ≡ false
      → update_darta_status id "NUMBER_RESERVED" (updated_store db (numbered db d n) s) ≡ (
        ok (reserved_row db d n),
        updated_store (updated_store db (numbered db d n) s) (reserved_row db d n) (passed s),
      )
  unfolding update_darta_status darta_collision
  second_update s runs checked alone =
      update_darta-goes id (λ x. record x { status = "NUMBER_RESERVED" })
        (updated_store db (numbered db d n) s) (numbered db d n) runs (found_again s)
        (darta_checks-status (updated_store db (numbered db d n) s) (numbered db d n)
          "NUMBER_RESERVED" checked refl)
        (clashes-replace darta_key (darta_collision (reserved_row db d n)) db.dartas
            (numbered db d n) d.id refl
          ∙ alone)

  -- The statements after the UPDATE of the number.
  abbrev finish : (s : List Bool) → Result Darta × Db
  finish s =
      let (r, db') =
        update_darta_status id "NUMBER_RESERVED" (updated_store db (numbered db d n) s) in
      (ok (numbered db d n), (Creation.create_audit_entry (number_entry user id d n) db').1)

  finish-outcome :
      (before s : List Bool)
      → s ≡ passed before
      → n < half32
      → darta_checks (numbered db d n) ≡ true
      → clashes darta_key (darta_collision (numbered db d n)) d.id db.dartas ≡ false
      → NumberOutcome user id d db before (finish s)
  unfolding update_darta_status
  finish-outcome before s at fits checked alone = elim (Bool-cases (fails s)) [
    | inl lost ↦
        rw
          (update_darta-lost id (λ x. record x { status = "NUMBER_RESERVED" })
            (updated_store db (numbered db d n) s) lost)
          (logged_number before (numbered db d n) (passed s) fits
            (status_lost (sym (ap fails at) ∙ lost) refl))
    | inr runs ↦
        rw
          (
            second_update s runs checked alone,
            replace-replace darta_key db.dartas (numbered db d n) (reserved_row db d n) refl,
          )
          (logged_number before (reserved_row db d n) (passed s) fits
            (status_set (sym (ap fails at) ∙ runs) refl))
  ]

  pub store_number-outcome :
      (s : List Bool)
      → n < half32
      → NumberOutcome user id d db s (store_number user d id n (later db s))
  unfolding store_number create_audit_entry update_darta_number
  store_number-outcome s fits = elim (update_darta-outcome id (set_number d n) (later db s)) [
    | inl r ↦ rw r.shape (unnumbered "failed to update number" r.error r.schedule refl)
    | inr w ↦ rw (Written-shape w d found) (
        finish-outcome s w.schedule (Written-passed id (set_number d n) (later db s) w) fits
          (Written-checked id (set_number d n) (later db s) w d found)
          (Written-alone id (set_number d n) (later db s) w d found))
  ]

  pub reserve_new_number-outcome :
      (s : List Bool)
      → NumberOutcome user id d db (passed s) (reserve_new_number user d id (later db s))
  unfolding reserve_new_number
  reserve_new_number-outcome s =
      elim (get_next_darta_number-Counted d.fiscal_year_id d.scope d.ward_id d.tenant_id
        (later db s)) [
          | uncounted e s' shape ↦ rw shape (unnumbered "failed to get next number" e s' refl)
          | counted s' fits shape ↦
              let at : s' ≡ passed s =
                sym (ap (λ q. q.1.outages) shape)
                ∙ get_next_darta_number-passed d.fiscal_year_id d.scope d.ward_id d.tenant_id
                    (later db s) in
              rw shape (
                subst (λ x. NumberOutcome user id d db x (store_number user d id n (later db s')))
                  at (store_number-outcome s' fits))
        ]
