-- ===== src/Darta/Service/Success.antt =====
-- Calls of `UpdateDartaStatus` and `ReserveDartaNumber` of
-- services/darta-chalani/internal/domain/darta_service.go that succeed.
use mathlib.Core.Path.{subst}
use e_palika.Prelude.{
  ◌<◌, ◌+◌, lt→ltb, select, ◌≡◌, refl, ap, ◌∙◌, Bool, true, false, String, none, some, List, [],
}
use e_palika.Prelude.Int.{half32}
use e_palika.Domain.Context.{Ctx, UserContext, get_user_context}
use e_palika.Store.Types.{Uuid, Darta}
use e_palika.Store.Exec.{Db, Result, ok, ◌>>=◌, on_error, ignore}
use e_palika.Store.Table.{find, replace, clashes, key-find, find-replace_self}
use e_palika.Store.Checks.{darta_checks, darta_collision}
use e_palika.Store.Dartas
use e_palika.Store.Dartas.{
  max_number, in_series, in_range, darta_key, row_or_none, change_darta, put_darta, update_darta,
}
use e_palika.Store.Dartas.Runs.{fails, passed, darta_checks-status}
use e_palika.Darta.Lifecycle.{is_valid_status_transition}
use e_palika.Darta.Lifecycle.Paths.{transition-statuses}
use e_palika.Darta.Service.Reservation.{
  next_for, numbered, reserved_row, NumberOutcome, unnumbered, numbered_as, IsStored, status_set,
  status_lost, missing, kept, fresh, reserve_darta_number-outcome,
}
use e_palika.Darta.Service.{
  update_darta_status, change_status, reserve_darta_number, reserve_new_number, store_number,
  format_for,
}
use e_palika.Darta.Service.Status
use e_palika.Darta.Service.Status.{moved, update_darta_status-outcome}
use e_palika.Darta.Service.Idempotency.{on_schedule-quiet}

module _ (ctx : Ctx) (id : Uuid) (new : String) (db : Db) (d : Darta) where
  update_darta_status-answer :
      db.outages ≡ []
      → find darta_key id db.dartas ≡ some d
      → darta_checks d ≡ true
      → clashes darta_key (darta_collision d) d.id db.dartas ≡ false
      → is_valid_status_transition d.status new ≡ true
      → (update_darta_status ctx id new db).0 ≡ ok (moved db d new)
  unfolding update_darta_status change_status Dartas.get_darta_simple Dartas.update_darta_status
      update_darta put_darta ◌>>=◌ on_error ignore darta_collision
  update_darta_status-answer quiet found checked alone valid =
      rw
        (
          on_schedule-quiet db.outages (λ db'. row_or_none (find darta_key id db'.dartas) db') db
              quiet,
          found,
          valid,
          on_schedule-quiet db.outages
              (λ db'.
                change_darta (find darta_key id db'.dartas) (λ x. record x { status = new }) db')
              db quiet,
          found,
          darta_checks-status db d new checked (transition-statuses d.status new valid).1,
          alone,
        )
        refl

  -- The row that a call with an answer has written.
  update_darta_status-stored :
      find darta_key id db.dartas ≡ some d
      → (update_darta_status ctx id new db).0 ≡ ok (moved db d new)
      → find darta_key id (update_darta_status ctx id new db).1.dartas ≡ some (moved db d new)
  update_darta_status-stored found done = elim (update_darta_status-outcome ctx id new db) [
    | Status.missing s shape ↦ cc (ap (λ q. q.0) shape, done)
    | Status.refused d' s found' bad shape ↦ cc (ap (λ q. q.0) shape, done)
    | Status.failed d' e s found' good shape ↦ cc (ap (λ q. q.0) shape, done)
    | Status.changed d' extra ids s entry found' good shape ↦
        let same : d' ≡ d = cc (found, found') in
        ap (λ q. find darta_key id q.1.dartas) shape
        ∙ find-replace_self darta_key db.dartas (moved db d' new) id
            (key-find darta_key db.dartas id found') found'
        ∙ ap (λ x. some (moved db x new)) same
  ]

  -- If no statement fails, a stored darta that satisfies its CHECK constraints and collides with no other
  -- row has, after every accepted transition, the new status in its stored row, and the call returns
  -- that row.
  pub update_darta_status-succeeds :
      db.outages ≡ []
      → find darta_key id db.dartas ≡ some d
      → darta_checks d ≡ true
      → clashes darta_key (darta_collision d) d.id db.dartas ≡ false
      → is_valid_status_transition d.status new ≡ true
      → ((update_darta_status ctx id new db).0 ≡ ok (moved db d new))
        × (find darta_key id (update_darta_status ctx id new db).1.dartas ≡ some (moved db d new))
  update_darta_status-succeeds quiet found checked alone valid =
      let done = update_darta_status-answer quiet found checked alone valid in
      (done, update_darta_status-stored found done)

module _ (ctx : Ctx) (id : Uuid) (db : Db) (d : Darta) where
  reserve_darta_number-answer :
      db.outages ≡ []
      → find darta_key id db.dartas ≡ some d
      → d.darta_number ≡ none
      → next_for db d < half32
      → darta_checks d ≡ true
      → clashes darta_key (darta_collision (numbered db d (next_for db d))) d.id db.dartas ≡ false
      → (reserve_darta_number ctx id db).0 ≡ ok (numbered db d (next_for db d))
  unfolding reserve_darta_number reserve_new_number store_number Dartas.get_darta_simple
      Dartas.get_next_darta_number Dartas.update_darta_number update_darta put_darta max_number
      ◌>>=◌ on_error ignore darta_checks
  reserve_darta_number-answer quiet found without fits checked alone =
      rw
        (
          on_schedule-quiet db.outages (λ db'. row_or_none (find darta_key id db'.dartas) db') db
              quiet,
          found,
          without,
          on_schedule-quiet db.outages
              (λ db'.
                in_range
                  (max_number
                      (select (in_series d.fiscal_year_id d.scope d.ward_id d.tenant_id) db'.dartas)
                    + 1)
                  db')
              db quiet,
          lt→ltb (next_for db d) half32 fits,
          on_schedule-quiet db.outages
              (λ db'.
                change_darta (find darta_key id db'.dartas)
                  (λ x. record x {
                    darta_number = some (next_for db d);
                    formatted_darta_number = some (format_for d (next_for db d));
                  })
                  db')
              db quiet,
          found,
          checked,
          alone,
        )
        refl

  IsStored-reserved :
      {before : List Bool} {final : Darta}
      → fails (passed before) ≡ false
      → IsStored db d before final
      → final ≡ reserved_row db d (next_for db d)
  IsStored-reserved quiet (status_set runs e) = e
  IsStored-reserved quiet (status_lost lost e) = cc (quiet, lost)

  NumberOutcome-stored :
      {user : UserContext} {before : List Bool} {r : Result Darta × Db}
      → fails (passed before) ≡ false
      → find darta_key id db.dartas ≡ some d
      → NumberOutcome user id d db before r
      → r.0 ≡ ok (numbered db d (next_for db d))
      → find darta_key id r.1.dartas ≡ some (reserved_row db d (next_for db d))
  NumberOutcome-stored quiet found (unnumbered text e s shape) done = cc (ap (λ q. q.0) shape, done)
  NumberOutcome-stored quiet found (numbered_as final extra ids s fits stored entry shape) done =
      let same = IsStored-reserved quiet stored in
      ap (λ q. find darta_key id q.1.dartas) shape
      ∙ ap (λ x. find darta_key id (replace darta_key x db.dartas)) same
      ∙ find-replace_self darta_key db.dartas (reserved_row db d (next_for db d)) id
          (key-find darta_key db.dartas id found) found

  reserve_darta_number-stored :
      db.outages ≡ []
      → find darta_key id db.dartas ≡ some d
      → d.darta_number ≡ none
      → (reserve_darta_number ctx id db).0 ≡ ok (numbered db d (next_for db d))
      → find darta_key id (reserve_darta_number ctx id db).1.dartas
        ≡ some (reserved_row db d (next_for db d))
  reserve_darta_number-stored quiet found without done =
      elim (reserve_darta_number-outcome ctx id db) [
        | missing s why shape ↦ cc (ap (λ q. q.0) shape, done)
        | kept d' n s found' has shape ↦
            let same : d ≡ d' = cc (found, found') in
            cc (ap (λ (x : Darta). x.darta_number) same, without, has)
        | fresh d' found' without' out ↦
            NumberOutcome-stored (ap (λ s. fails (passed (passed (passed s)))) quiet) found
              (subst
                (λ x.
                  NumberOutcome (get_user_context ctx) id x db (passed (passed db.outages))
                    (reserve_darta_number ctx id db))
                (let same : d' ≡ d = cc (found, found') in same) out)
              done
      ]

  -- If no statement fails, a stored darta without a number that satisfies its CHECK constraints gets the
  -- number after the largest of its series, provided that this number fits the column and that the row
  -- with it collides with no other row: the call returns the row with the number, and the stored row
  -- has the number and the status NUMBER_RESERVED.
  pub reserve_darta_number-succeeds :
      db.outages ≡ []
      → find darta_key id db.dartas ≡ some d
      → d.darta_number ≡ none
      → next_for db d < half32
      → darta_checks d ≡ true
      → clashes darta_key (darta_collision (numbered db d (next_for db d))) d.id db.dartas ≡ false
      → ((reserve_darta_number ctx id db).0 ≡ ok (numbered db d (next_for db d)))
        × (find darta_key id (reserve_darta_number ctx id db).1.dartas
            ≡ some (reserved_row db d (next_for db d)))
  reserve_darta_number-succeeds quiet found without fits checked alone =
      let done = reserve_darta_number-answer quiet found without fits checked alone in
      (done, reserve_darta_number-stored quiet found without done)
