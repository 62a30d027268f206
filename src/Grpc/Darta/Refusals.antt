-- ===== src/Grpc/Darta/Refusals.antt =====
-- Calls of services/darta-chalani/internal/grpc/darta_server.go that the constraints of the database
-- (services/darta-chalani/internal/dbutil/migrations/00001_initial_schema.sql) refuse each time.
use e_palika.Prelude.{
  ◌≡◌, refl, inl, inr, Bool, true, false, ◌&&◌, String, Option, none, some, List, [], ◌∷◌,
  is_one_of, string_eq, Option-cases,
}
use mathlib.Core.Path.{subst}
use e_palika.Domain.Context.{Ctx}
use e_palika.Domain.Errors.{
  Error, Code, DbError, database, check_violation, unavailable, wrapped, statusf,
}
use e_palika.Store.Types.{Uuid, Timestamptz, Darta, Applicant}
use e_palika.Store.Exec.{Db, Result, err, Exec, raise, gets, ◌>>=◌, on_schedule, on_error}
use e_palika.Store.Checks.{darta_checks, applicant_checks, darta_statuses, priorities, party_types}
use e_palika.Store.Dartas.{draw_uuid, update_darta_status, update_darta_assignment, stamped}
use e_palika.Store.Dartas.Laws.{Refused, update_darta-outcome, update_darta_status-outcome}
use e_palika.Store.Creation.{
  CreateApplicantParams, create_applicant, insert_applicant, new_applicant,
}
use e_palika.Proto.Enums.{Priority, priority_text}
use e_palika.Darta.Service
use e_palika.Darta.Service.Assignment
use e_palika.Proto.Messages.{CreateDartaInput, RouteDartaInput}
use e_palika.Proto.Texts.{applicant_type_text-unlisted, priority_text-unlisted}
use e_palika.Grpc.Packages.{Packages}
use e_palika.Grpc.Status.{code_of, code_for, root, map_domain_error, code_of-map_domain_error}
use e_palika.Grpc.Converters.{
  parse_applicant_input, applicant_params, proto_to_priority, string_ptr, int32_ptr,
}
use e_palika.Grpc.Darta as Server
use e_palika.Grpc.Darta.Records

-- A call that answers with an error of this code and changes no darta.
pub record IsRefused {A : Type 0} (code : Code) (db : Db) (r : Result A × Db) : Type 0 where
  pub error : Error
  pub answer : r.0 ≡ err error
  pub coded : code_of error ≡ some code
  pub kept : r.1.dartas ≡ db.dartas

right : (a b : Bool) → a && b ≡ true → b ≡ true
right true b h = h
right false b h = cc

left : (a b : Bool) → a && b ≡ true → a ≡ true
left true b h = refl
left false b h = cc

darta_checks-status : (d : Darta) → darta_checks d ≡ true → is_one_of d.status darta_statuses ≡ true
unfolding darta_checks
darta_checks-status d h = right _ _ (left _ _ (left _ _ h))

-- An UPDATE to a status that is not in the list of the constraint.
pub update_darta_status-unlisted :
    (id : Uuid) (status : String) (db : Db)
    → is_one_of status darta_statuses ≡ false
    → Refused db (update_darta_status id status db)
update_darta_status-unlisted id status db unlisted =
    elim (update_darta_status-outcome id db status) [
      | inl r ↦ r
      | inr w ↦
          cc (
            darta_checks-status (stamped db (record w.old { status = status })) w.checked,
            unlisted,
          )
    ]

-- The statuses that handlers write, and that the constraint does not list.
abbrev pub IsUnlisted : String → Type 0
IsUnlisted status = is_one_of status darta_statuses ≡ false

module _ (p : Packages) (ctx : Ctx) (text : String) (id : Uuid) (db : Db)
    (given : p.parse_uuid text ≡ some id) where
  set_status-IsRefused :
      (status failure : String)
      → IsUnlisted status
      → IsRefused Code.internal db (Records.set_status p text status failure db)
  unfolding Records.set_status ◌>>=◌ on_error
  set_status-IsRefused status failure unlisted =
      let r = update_darta_status-unlisted id status db unlisted in
      rw (given, r.shape)
        (record {
          error = statusf Code.internal failure (database r.error);
          answer = refl;
          coded = refl;
          kept = refl;
        })

  -- With a well-formed identifier, FinalizeDartaArchive, RequestDartaClarification, AcceptDarta and
  -- IssueDartaResponse answer with an internal error each time and change no darta, whatever the store:
  -- the constraint on the column does not list the statuses that they write.
  pub unlisted_status-IsRefused :
      IsRefused Code.internal db (Records.finalize_darta_archive p ctx text db)
      × IsRefused Code.internal db (Records.request_darta_clarification p ctx text db)
      × IsRefused Code.internal db (Records.accept_darta p ctx text db)
      × IsRefused Code.internal db (Records.issue_darta_response p ctx text db)
  unfolding Records.finalize_darta_archive Records.request_darta_clarification Records.accept_darta
      Records.issue_darta_response
  unlisted_status-IsRefused = (
    set_status-IsRefused _ _ refl,
    set_status-IsRefused _ _ refl,
    set_status-IsRefused _ _ refl,
    set_status-IsRefused _ _ refl,
  )

-- The outcomes of an INSERT into `applicants` of a type that the constraint does not list.
module _ (params : CreateApplicantParams)
    (unlisted : is_one_of params.type party_types ≡ false) where
  abbrev insert : Uuid → Exec Applicant
  insert id db = insert_applicant (new_applicant db id params) db

  record IsDropped (db : Db) (r : Result Applicant × Db) : Type 0 where
    error : DbError
    answer : r.0 ≡ err (database error)
    kept : r.1.dartas ≡ db.dartas

  drawn-IsDropped :
      (ids : List Uuid) (db : Db) (out : List Bool)
      → IsDropped db (draw_uuid insert (record db { uuids = ids; outages = out }))
  unfolding applicant_checks
  drawn-IsDropped [] db out = record { error = unavailable; answer = refl; kept = refl }
  drawn-IsDropped (id ∷ ids) db out =
      rw unlisted (record { error = check_violation; answer = refl; kept = refl })

  scheduled-IsDropped :
      (out : List Bool) (db : Db)
      → IsDropped db (on_schedule out (draw_uuid insert) (record db { outages = out }))
  scheduled-IsDropped [] db = drawn-IsDropped db.uuids db []
  scheduled-IsDropped (true ∷ out) db = record { error = unavailable; answer = refl; kept = refl }
  scheduled-IsDropped (false ∷ out) db = drawn-IsDropped db.uuids db out

  create_applicant-IsDropped : (db : Db) → IsDropped db (create_applicant params db)
  unfolding create_applicant
  create_applicant-IsDropped db = scheduled-IsDropped db.outages db

module _ (p : Packages) (ctx : Ctx) (db : Db) where
  -- CreateDarta answers with an InvalidArgument error for every request and every store, and creates no
  -- darta: the applicant's type is written as the enumeration's text, such as APPLICANT_TYPE_CITIZEN,
  -- which the constraint on the column does not list.
  pub create_darta-IsRefused :
      (input : Option CreateDartaInput)
      → IsRefused Code.invalid_argument db (Server.create_darta p ctx input db)
  unfolding Server.create_darta ◌>>=◌ on_error parse_applicant_input raise
  create_darta-IsRefused none = record { error = _; answer = refl; coded = refl; kept = refl }
  create_darta-IsRefused (some i) = elim (Option-cases i.applicant) [
    | inl absent ↦ rw absent (record { error = _; answer = refl; coded = refl; kept = refl })
    | inr (a, present) ↦
        let d =
          create_applicant-IsDropped (applicant_params a) (applicant_type_text-unlisted a.type)
            db in
        rw (present, d.answer) (record { error = _; answer = refl; coded = refl; kept = d.kept })
  ]

darta_checks-priority : (d : Darta) → darta_checks d ≡ true → is_one_of d.priority priorities ≡ true
unfolding darta_checks
darta_checks-priority d h = right _ _ (left _ _ h)

-- An UPDATE to a priority that is not in the list of the constraint.
update_darta_assignment-unlisted :
    (id : Uuid) (unit assignee : Option String) (deadline : Timestamptz) (priority : String)
    (db : Db)
    → is_one_of priority priorities ≡ false
    → Refused db (update_darta_assignment id unit assignee deadline (some priority) db)
unfolding update_darta_assignment
update_darta_assignment-unlisted id unit assignee deadline priority db unlisted =
    elim (update_darta-outcome id _ db) [
      | inl r ↦ r
      | inr w ↦ cc (darta_checks-priority _ w.checked, unlisted)
    ]

listed :
    (x : Priority) (t : String) → some (priority_text x) ≡ some t → is_one_of t priorities ≡ false
listed x t h =
    let e : priority_text x ≡ t = cc in
    subst (λ s. is_one_of s priorities ≡ false) e (priority_text-unlisted x)

proto_to_priority-unlisted :
    (x : Priority) (t : String) → proto_to_priority x ≡ some t → is_one_of t priorities ≡ false
unfolding proto_to_priority
proto_to_priority-unlisted Priority.unspecified t h = cc
proto_to_priority-unlisted Priority.low t h = listed Priority.low t h
proto_to_priority-unlisted Priority.medium t h = listed Priority.medium t h
proto_to_priority-unlisted Priority.high t h = listed Priority.high t h
proto_to_priority-unlisted Priority.urgent t h = listed Priority.urgent t h
proto_to_priority-unlisted (Priority.unnamed n) t h = listed (Priority.unnamed n) t h

module _ (p : Packages) (ctx : Ctx) (db : Db) where
  -- RouteDarta with any priority in the request, and a well-formed identifier, answers with an internal
  -- error each time and changes no darta: the priority is written as the enumeration's text, such as
  -- PRIORITY_HIGH, which the constraint on the column does not list.
  pub route_darta-IsRefused :
      (i : RouteDartaInput) (id : Uuid) (priority : String)
      → p.parse_uuid i.darta_id ≡ some id
      → proto_to_priority i.priority ≡ some priority
      → IsRefused Code.internal db (Server.route_darta p ctx (some i) db)
  unfolding Server.route_darta Assignment.assign_darta ◌>>=◌ on_error gets code_for root
  route_darta-IsRefused i id priority given chosen =
      let r =
        update_darta_assignment-unlisted id (string_ptr i.organizational_unit_id)
          (string_ptr i.assignee_id)
          (Service.time_ptr_to_pg (Assignment.sla_deadline db.now (int32_ptr i.sla_hours))) priority
          db (proto_to_priority-unlisted i.priority priority chosen) in
      rw (given, chosen, r.shape)
        (record {
          error = map_domain_error (wrapped "failed to assign darta" (database r.error));
          answer = refl;
          coded = code_of-map_domain_error (wrapped "failed to assign darta" (database r.error));
          kept = refl;
        })
