-- ===== src/Grpc/Chalani/Outcomes.antt =====
-- What the handlers of services/darta-chalani/internal/grpc/chalani_server.go that set a status or
-- reserve a number answer, and the store that they leave.
use e_palika.Prelude.{◌≡◌, refl, inl, inr, true, String, none, some, List, Bool, Option-cases}
use e_palika.Domain.Context.{Ctx, get_user_context}
use e_palika.Domain.Errors.{Code, DbError, Error, database, plain, statusf}
use e_palika.Store.Types.{Uuid, Chalani}
use e_palika.Store.Exec.{Db, Result, ok, err, ◌>>=◌, on_error}
use e_palika.Store.Table.{find}
use e_palika.Store.Checks.{chalani_checks}
use e_palika.Store.Dartas.Laws.{later}
use e_palika.Store.Chalanis.{chalani_key, with_status}
use e_palika.Store.Chalanis.Laws.{
  refused, written, status_store, update_chalani_status-Update, missed, read,
  get_chalani_simple-Read, failed, next, get_next_chalani_number-Numbering,
}
use e_palika.Proto.Messages.{ChalaniMessage}
use e_palika.Grpc.Packages.{Packages}
use e_palika.Grpc.Chalani.{
  to_proto_chalani, set_status, submit_chalani, approve_chalani, dispatch_chalani,
  mark_chalani_delivered, void_chalani, reserve_chalani_number,
}

-- The answers of a handler that sets the status to `new_status`.
pub data StatusOutcome (p : Packages) (text new_status : String) (db : Db)
    (r : Result ChalaniMessage × Db) : Type 0 where
  malformed :
      p.parse_uuid text ≡ none
      → r
        ≡ (err (statusf Code.invalid_argument "invalid chalani ID" (plain (p.uuid_error text))), db)
      → StatusOutcome p text new_status db r
  not_written :
      (e : DbError) (s : List Bool)
      → r ≡ (err (statusf Code.internal "failed to update status" (database e)), later db s)
      → StatusOutcome p text new_status db r
  set :
      (id : Uuid) (c : Chalani) (s : List Bool)
      → p.parse_uuid text ≡ some id
      → find chalani_key id db.chalanis ≡ some c
      → chalani_checks (with_status db new_status c) ≡ true
      → r ≡ (ok (to_proto_chalani p (with_status db new_status c)), status_store db new_status c s)
      → StatusOutcome p text new_status db r

module _ (p : Packages) (text : String) (db : Db) where
  set_status-outcome :
      (new_status : String) → StatusOutcome p text new_status db (set_status p text new_status db)
  unfolding set_status ◌>>=◌ on_error
  set_status-outcome new_status = elim (Option-cases (p.parse_uuid text)) [
    | inl bad ↦ malformed bad (rw bad)
    | inr (id, given) ↦ elim (update_chalani_status-Update id new_status db) [
      | refused e s shape ↦ not_written e s (rw (given, shape))
      | written c s found good shape ↦ set id c s given found good (rw (given, shape))
    ]
  ]

  -- SubmitChalani, ApproveChalani, DispatchChalani, MarkChalaniDelivered and VoidChalani each refuse a
  -- malformed identifier and leave the store; or the statement fails, they answer with Internal and no
  -- row changes; or they set the status of the stored row with that identifier to their own one,
  -- whatever status it had, leave all else in the tables, and answer with the new row.
  pub statuses-outcome :
      StatusOutcome p text "PENDING_REVIEW" db (submit_chalani p text db)
      × StatusOutcome p text "APPROVED" db (approve_chalani p text db)
      × StatusOutcome p text "DISPATCHED" db (dispatch_chalani p text db)
      × StatusOutcome p text "DELIVERED" db (mark_chalani_delivered p text db)
      × StatusOutcome p text "VOIDED" db (void_chalani p text db)
  unfolding submit_chalani approve_chalani dispatch_chalani mark_chalani_delivered void_chalani
  statuses-outcome = (
    set_status-outcome _,
    set_status-outcome _,
    set_status-outcome _,
    set_status-outcome _,
    set_status-outcome _,
  )

-- An answer with the row as it stands in the store, or an error; no table changes.
pub record IsUnnumbered (p : Packages) (text : String) (db : Db) (r : Result ChalaniMessage × Db)
    : Type 0 where
  pub schedule : List Bool
  pub kept : r.1 ≡ later db schedule
  pub answered :
      (m : ChalaniMessage)
      → r.0 ≡ ok m
      → (id : Uuid) × (c : Chalani) × (p.parse_uuid text ≡ some id)
        × (find chalani_key id db.chalanis ≡ some c)
        × (m ≡ to_proto_chalani p c)

unanswered :
    (p : Packages) (text : String) (db : Db) (e : Error) (s : List Bool)
    → IsUnnumbered p text db (err e, later db s)
unanswered p text db e s = record { schedule = s; kept = refl; answered = λ m h. cc }

module _ (p : Packages) (ctx : Ctx) (text : String) (db : Db) where
  -- ReserveChalaniNumber reserves nothing: whatever the store and the schedule, no table changes, and
  -- an answer shows the stored row as it was before the call.
  pub reserve_chalani_number-IsUnnumbered :
      IsUnnumbered p text db (reserve_chalani_number p ctx text db)
  unfolding reserve_chalani_number ◌>>=◌ on_error
  reserve_chalani_number-IsUnnumbered = elim (Option-cases (p.parse_uuid text)) [
    | inl bad ↦ rw bad (unanswered p text db _ db.outages)
    | inr (id, given) ↦ elim (get_chalani_simple-Read id db) [
      | missed e s shape ↦ rw (given, shape) (unanswered p text db _ s)
      | read c s found shape ↦
          elim (get_next_chalani_number-Numbering (later db s) c.fiscal_year_id c.scope none
            (get_user_context ctx).tenant_id) [
              | failed e s' shape' ↦ rw (given, shape, shape') (unanswered p text db _ s')
              | next n s' shape' ↦
                  rw (given, shape, shape')
                    (record {
                      schedule = s';
                      kept = refl;
                      answered = λ m h. (id, c, given, found, cc);
                    })
            ]
    ]
  ]
