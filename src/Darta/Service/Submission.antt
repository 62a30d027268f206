-- ===== src/Darta/Service/Submission.antt =====
-- What `CreateDarta` of services/darta-chalani/internal/domain/darta_service.go promises.
use e_palika.Prelude.{
  ◌≡◌, refl, ap, ◌∙◌, ◌⊎◌, inl, inr, Bool, true, false, Option, none, some, List, [], ◌∷◌, ◌++◌,
  any, ◌==◌, string_eq, nat_eq, if◌then◌else◌, Bool-cases, Option-cases,
}
use e_palika.Prelude.Int.{pos}
use e_palika.Domain.Context.{Ctx, UserContext, get_user_context}
use e_palika.Domain.Errors.{Error, wrapped}
use e_palika.Store.Types.{Uuid, uuid_nil, Json, Darta}
use e_palika.Store.Exec.{Db, Result, ok, err, gets, pure, raise, ◌>>=◌, ◌>>◌, on_error, ignore}
use e_palika.Store.Checks.{darta_collision, overdue}
use e_palika.Store.Dartas.{with_key}
use e_palika.Store.Dartas.Laws.{later}
use e_palika.Store.Creation
use e_palika.Store.Creation.Laws.{ignore-Trail}
use e_palika.Store.Creation.Inserts.{
  get_applicant-Asked, get_attachment-Asked, missed, hit, get_darta_by_idempotency_key-Looked,
  refused, inserted, create_darta-Inserted, add_darta_annex-dartas,
}
use e_palika.Store.Steady.{ahead}
use e_palika.Darta.Service.{
  CreateDartaInput, marshal_metadata, params_of, create_darta, create_new_darta, existing_darta,
  or_create, add_annexes, create_audit_entry, audit_params, validate_create_darta_input,
}

Result-cases : {A : Type 0} (r : Result A) → ((e : Error) × (r ≡ err e)) ⊎ ((a : A) × (r ≡ ok a))
Result-cases (ok a) = inr (a, refl)
Result-cases (err e) = inl (e, refl)

-- The JSON of a map that json.Marshal accepts.
abbrev marshalled : Option (Result Json) → Option Json
marshalled none = none
marshalled (some (ok json)) = some json
marshalled (some (err e)) = none

marshal_metadata-cases :
    (metadata : Option (Result Json))
    → ((e : Error) × ((db : Db)
          → marshal_metadata metadata db ≡ (err (wrapped "failed to marshal metadata" e), db)))
      ⊎ ((db : Db) → marshal_metadata metadata db ≡ (ok (marshalled metadata), db))
unfolding marshal_metadata
marshal_metadata-cases none = inr (λ db. refl)
marshal_metadata-cases (some (ok json)) = inr (λ db. refl)
marshal_metadata-cases (some (err e)) = inl (e, λ db. refl)

-- The row that a call creates, column by column: what the caller has given, DRAFT as its status, no
-- number, no classification, no assignment and no deadline.
abbrev pub created_row : UserContext → CreateDartaInput → Db → Uuid → Darta
created_row user i db id = record {
  id = id;
  darta_number = none;
  formatted_darta_number = none;
  fiscal_year_id = i.fiscal_year_id;
  scope = i.scope;
  ward_id = i.ward_id;
  subject = i.subject;
  applicant_id = i.applicant_id;
  intake_channel = i.intake_channel;
  received_date = record { time = i.received_date; valid = true };
  entry_date = record { time = db.now; valid = true };
  is_backdated = i.is_backdated;
  backdate_reason = i.backdate_reason;
  backdate_approver_id = i.backdate_approver_id;
  primary_document_id = i.primary_document_id;
  status = "DRAFT";
  priority = i.priority;
  classification_code = none;
  assigned_to_unit_id = none;
  current_assignee_id = none;
  sla_deadline = record { time = pos 0; valid = false };
  is_overdue = some false;
  created_by = user.user_id;
  created_at = record { time = db.now; valid = true };
  updated_at = record { time = db.now; valid = true };
  tenant_id = user.tenant_id;
  idempotency_key = if i.idempotency_key == "" then none else some i.idempotency_key;
  metadata = marshalled i.metadata;
}

-- The outcomes of the part after the idempotency check.
pub data NewOutcome (user : UserContext) (i : CreateDartaInput) (db : Db) (r : Result Darta × Db)
    : Type 0 where
  failed : (e : Error) → r.0 ≡ err e → r.1.dartas ≡ db.dartas → NewOutcome user i db r
  created :
      (id : Uuid)
      → any (darta_collision (created_row user i db id)) db.dartas ≡ false
      → r.0 ≡ ok (created_row user i db id)
      → r.1.dartas ≡ db.dartas ++ created_row user i db id ∷ []
      → NewOutcome user i db r

-- The statements after the INSERT, whose errors are dropped.
record IsFinished (d : Darta) (db : Db) (r : Result Darta × Db) : Type 0 where
  answer : r.0 ≡ ok d
  rows : r.1.dartas ≡ db.dartas

module _ (user : UserContext) (d : Darta) where
  logged_last :
      (db : Db)
      → IsFinished d db
          ((ignore (create_audit_entry "DARTA" d.id "CREATED" user none) >> pure d) db)
  unfolding ◌>>=◌ ignore create_audit_entry
  logged_last db =
      let t = ignore-Trail (audit_params "DARTA" d.id "CREATED" user none) db in
      record { answer = refl; rows = ap (λ (x : Db). x.dartas) t.shape }

  finished :
      (annexes : List Uuid) (db : Db)
      → IsFinished d db (
          (add_annexes d.id annexes
              >> (ignore (create_audit_entry "DARTA" d.id "CREATED" user none) >> pure d))
            db)
  unfolding add_annexes ◌>>=◌ ignore
  finished [] db = logged_last db
  finished (annex ∷ annexes) db =
      let rest = finished annexes (Creation.add_darta_annex d.id annex db).1 in
      record { answer = rest.answer; rows = rest.rows ∙ add_darta_annex-dartas d.id annex db }

module _ (user : UserContext) (i : CreateDartaInput) (db : Db) where
  inserted-NewOutcome :
      (s : List Bool)
      → NewOutcome user i db (
          (on_error
                (wrapped "failed to create darta")
                (Creation.create_darta (params_of user i (marshalled i.metadata) db.now))
              >>= λ darta.
                  add_annexes darta.id i.annex_ids
                  >> (ignore (create_audit_entry "DARTA" darta.id "CREATED" user none)
                      >> pure darta))
            (later db s))
  unfolding ◌>>=◌ on_error overdue
  inserted-NewOutcome s =
      elim (create_darta-Inserted (params_of user i (marshalled i.metadata) db.now) (later db s)) [
        | refused e ids out shape ↦ rw shape (failed (wrapped "failed to create darta" e) refl refl)
        | inserted id ids out good alone linked shape ↦
            let d = created_row user i db id in
            let f =
              finished user d i.annex_ids
                (record (ahead db ids out) { dartas = db.dartas ++ d ∷ [] }) in
            rw shape (created id alone f.answer f.rows)
      ]

  create_new_darta-outcome :
      (s : List Bool) → NewOutcome user i db (create_new_darta user i (later db s))
  unfolding create_new_darta ◌>>=◌ on_error gets
  create_new_darta-outcome s =
      let a = get_applicant-Asked (later db s) i.applicant_id in
      elim (Result-cases a.answer) [
        | inl (e, bad) ↦ rw (a.shape, bad) (failed (wrapped "applicant not found" e) refl refl)
        | inr (x, good) ↦
            let b = get_attachment-Asked (later db a.schedule) i.primary_document_id in
            elim (Result-cases b.answer) [
              | inl (e, bad) ↦
                  rw (a.shape, good, b.shape, bad)
                    (failed (wrapped "primary document not found" e) refl refl)
              | inr (y, good') ↦ elim (marshal_metadata-cases i.metadata) [
                | inl (e, no_json) ↦
                    rw (a.shape, good, b.shape, good', no_json (later db b.schedule))
                      (failed (wrapped "failed to marshal metadata" e) refl refl)
                | inr json ↦
                    rw (a.shape, good, b.shape, good', json (later db b.schedule))
                      (inserted-NewOutcome b.schedule)
              ]
            ]
      ]

-- The outcomes of `CreateDarta`, as far as the rows of `dartas` go.
pub data CreateOutcome (ctx : Ctx) (i : CreateDartaInput) (db : Db) (r : Result Darta × Db)
    : Type 0 where
  failed : (e : Error) → r.0 ≡ err e → r.1.dartas ≡ db.dartas → CreateOutcome ctx i db r
  existing :
      (d : Darta)
      → validate_create_darta_input i ≡ none
      → (i.idempotency_key == "") ≡ false
      → with_key (some i.idempotency_key) (get_user_context ctx).tenant_id db.dartas ≡ some d
      → r.0 ≡ ok d
      → r.1.dartas ≡ db.dartas
      → CreateOutcome ctx i db r
  created :
      (id : Uuid)
      → validate_create_darta_input i ≡ none
      → any (darta_collision (created_row (get_user_context ctx) i db id)) db.dartas ≡ false
      → r.0 ≡ ok (created_row (get_user_context ctx) i db id)
      → r.1.dartas ≡ db.dartas ++ created_row (get_user_context ctx) i db id ∷ []
      → CreateOutcome ctx i db r

module _ (ctx : Ctx) (i : CreateDartaInput) (db : Db) where
  of_new :
      {r : Result Darta × Db}
      → validate_create_darta_input i ≡ none
      → NewOutcome (get_user_context ctx) i db r
      → CreateOutcome ctx i db r
  of_new valid (NewOutcome.failed e a b) = CreateOutcome.failed e a b
  of_new valid (NewOutcome.created id c a b) = CreateOutcome.created id valid c a b

  after_lookup :
      validate_create_darta_input i ≡ none
      → CreateOutcome ctx i db (
          (existing_darta i.idempotency_key (get_user_context ctx).tenant_id >>= λ found.
          or_create found (create_new_darta (get_user_context ctx) i))
            db)
  unfolding existing_darta ◌>>=◌
  after_lookup valid = elim (Bool-cases (i.idempotency_key == "")) [
    | inl empty ↦
        rw empty (of_new valid (create_new_darta-outcome (get_user_context ctx) i db db.outages))
    | inr given ↦
        elim (get_darta_by_idempotency_key-Looked db (some i.idempotency_key)
          (get_user_context ctx).tenant_id) [
            | missed e s shape ↦
                rw (given, shape)
                  (of_new valid (create_new_darta-outcome (get_user_context ctx) i db s))
            | hit d s found shape ↦ elim (Bool-cases (d.id == uuid_nil)) [
              | inl nil ↦
                  rw (given, shape, nil)
                    (of_new valid (create_new_darta-outcome (get_user_context ctx) i db s))
              | inr real ↦
                  rw (given, shape, real) (CreateOutcome.existing d valid given found refl refl)
            ]
          ]
  ]

  -- Every call of `CreateDarta`, for any store and any schedule of outages, has one of these outcomes: an
  -- error is returned and no darta is added; the input is valid and the darta with its idempotency key is
  -- returned, with none added; or the input is valid and exactly one row is added and returned, built
  -- from the input in DRAFT and without a number, which collides with no row of before.
  pub create_darta-outcome : CreateOutcome ctx i db (create_darta ctx i db)
  unfolding create_darta ◌>>=◌ raise pure
  create_darta-outcome = elim (Option-cases (validate_create_darta_input i)) [
    | inr (e, bad) ↦ rw bad (CreateOutcome.failed e refl refl)
    | inl good ↦ rw good (after_lookup good)
  ]
