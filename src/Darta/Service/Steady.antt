-- ===== src/Darta/Service/Steady.antt =====
-- The operations of DartaService (services/darta-chalani/internal/domain/darta_service.go) keep every
-- order on stores that the statements which they run keep.
use e_palika.Prelude.{
  ◌≡◌, refl, String, Option, none, some, List, [], ◌∷◌, ◌==◌, string_eq, Bool-cases, inl, inr,
}
use e_palika.Prelude.Int.{ℤ}
use e_palika.Domain.Context.{Ctx, UserContext, get_user_context}
use e_palika.Domain.Errors.{Error, wrapped}
use e_palika.Store.Types.{Uuid, Darta, Json}
use e_palika.Store.Exec.{Result, ok, err, Exec}
use e_palika.Store.Steady.{
  StoreOrder, Keeps, pure-Keeps, raise-Keeps, gets-Keeps, bind-Keeps, on_error-Keeps, ignore-Keeps,
  guard-Keeps,
}
use e_palika.Store.Reads.{
  get_darta-Keeps as row-Keeps, get_darta_simple-Keeps, get_applicant-Keeps, get_attachment-Keeps,
  get_darta_by_idempotency_key-Keeps,
}
use e_palika.Store.Dartas
use e_palika.Store.Creation
use e_palika.Store.History.{number_of, identity}
use e_palika.Store.History.Steps.{IsHarmless}
use e_palika.Darta.Service.{
  CreateDartaInput, create_audit_entry, add_annexes, marshal_metadata, create_new_darta,
  create_darta, get_darta, change_status, update_darta_status, reserve_darta_number, status_change,
  existing_darta, or_create, validate_create_darta_input, check,
}
use e_palika.Darta.Service.Assignment.{assign_darta, assignment_change}

-- What the statements that write, and the reservation of numbers, have to keep.
pub record Rules (o : StoreOrder) : Type 0 where
  pub update :
      (id : Uuid) (change : Darta → Darta)
      → IsHarmless change
      → Keeps o (Dartas.update_darta id change)
  pub insert : (p : Dartas.CreateDartaParams) → Keeps o (Creation.create_darta p)
  pub annex : (darta attachment : Uuid) → Keeps o (Creation.add_darta_annex darta attachment)
  pub applicant : (p : Creation.CreateApplicantParams) → Keeps o (Creation.create_applicant p)
  pub audit : (p : Creation.CreateAuditEntryParams) → Keeps o (Creation.create_audit_entry p)
  pub reserve : (ctx : Ctx) (id : Uuid) → Keeps o (reserve_darta_number ctx id)

-- A change of columns that are neither of the letter nor of its number.
harmless :
    {change : Darta → Darta}
    → ((d : Darta) → identity d ≡ identity (change d))
    → ((d : Darta) → number_of (change d) ≡ number_of d)
    → IsHarmless change
harmless i n = record { identical = i; numbered = n }

module _ (o : StoreOrder) (rules : Rules o) where
  pub set_status-Keeps :
      (id : Uuid) (status : String) → Keeps o (Dartas.update_darta_status id status)
  unfolding Dartas.update_darta_status
  set_status-Keeps id status = rules.update id _ (harmless (λ d. refl) (λ d. refl))

  pub close_darta-Keeps : (id : Uuid) → Keeps o (Dartas.close_darta id)
  unfolding Dartas.close_darta
  close_darta-Keeps id = rules.update id _ (harmless (λ d. refl) (λ d. refl))

  pub void_darta-Keeps : (id : Uuid) → Keeps o (Dartas.void_darta id)
  unfolding Dartas.void_darta
  void_darta-Keeps id = rules.update id _ (harmless (λ d. refl) (λ d. refl))

  pub classification-Keeps :
      (id : Uuid) (code : Option String) → Keeps o (Dartas.update_darta_classification id code)
  unfolding Dartas.update_darta_classification
  classification-Keeps id code = rules.update id _ (harmless (λ d. refl) (λ d. refl))

  pub metadata-Keeps :
      (id : Uuid) (metadata : Option Json) → Keeps o (Dartas.update_darta_metadata id metadata)
  unfolding Dartas.update_darta_metadata
  metadata-Keeps id metadata = rules.update id _ (harmless (λ d. refl) (λ d. refl))

  assignment-Keeps :
      (id : Uuid) (unit assignee : Option String) (deadline : _) (priority : Option String)
      → Keeps o (Dartas.update_darta_assignment id unit assignee deadline priority)
  unfolding Dartas.update_darta_assignment
  assignment-Keeps id unit assignee deadline priority =
      rules.update id _ (harmless (λ d. refl) (λ d. refl))

  entry-Keeps :
      (entity : String) (id : Uuid) (action : String) (user : UserContext) (changes : Option Json)
      → Keeps o (create_audit_entry entity id action user changes)
  unfolding create_audit_entry
  entry-Keeps entity id action user changes = rules.audit _

  annexes-Keeps : (darta : Uuid) (annexes : List Uuid) → Keeps o (add_annexes darta annexes)
  unfolding add_annexes
  annexes-Keeps darta [] = pure-Keeps o tt
  annexes-Keeps darta (annex ∷ annexes) =
      bind-Keeps o _ _ (ignore-Keeps o _ (rules.annex darta annex))
        (λ _. annexes-Keeps darta annexes)

  marshal-Keeps : (metadata : Option (Result Json)) → Keeps o (marshal_metadata metadata)
  unfolding marshal_metadata
  marshal-Keeps none = pure-Keeps o none
  marshal-Keeps (some (ok json)) = pure-Keeps o (some json)
  marshal-Keeps (some (err e)) = raise-Keeps o (wrapped "failed to marshal metadata" e)

  create_new_darta-Keeps :
      (user : UserContext) (i : CreateDartaInput) → Keeps o (create_new_darta user i)
  unfolding create_new_darta
  create_new_darta-Keeps user i =
      bind-Keeps o _ _ (on_error-Keeps o _ _ (get_applicant-Keeps o i.applicant_id)) λ _.
        bind-Keeps o _ _ (on_error-Keeps o _ _ (get_attachment-Keeps o i.primary_document_id)) λ _.
          bind-Keeps o _ _ (marshal-Keeps i.metadata) λ metadata.
            bind-Keeps o _ _ (gets-Keeps o (λ db. db.now)) λ now.
              bind-Keeps o _ _ (on_error-Keeps o _ _ (rules.insert _)) λ darta.
                bind-Keeps o _ _ (annexes-Keeps darta.id i.annex_ids) λ _.
                  bind-Keeps o _ _
                    (ignore-Keeps o _ (entry-Keeps "DARTA" darta.id "CREATED" user none))
                    λ _. pure-Keeps o darta

  check-Keeps : (e : Option Error) → Keeps o (check e)
  check-Keeps none = pure-Keeps o tt
  check-Keeps (some e) = raise-Keeps o e

  existing_darta-Keeps : (key tenant : String) → Keeps o (existing_darta key tenant)
  unfolding existing_darta
  existing_darta-Keeps key tenant = elim (Bool-cases (key == "")) [
    | inl empty ↦ record { at = λ db. rw empty (o.drawn db db.uuids db.outages) }
    | inr given ↦ record {
      at = λ db. rw given ((get_darta_by_idempotency_key-Keeps o (some key) tenant).at db);
    }
  ]

  or_create-Keeps :
      (found : Option Darta) (m : Exec Darta) → Keeps o m → Keeps o (or_create found m)
  or_create-Keeps none m k = k
  or_create-Keeps (some d) m k = pure-Keeps o d

  pub create_darta-Keeps : (ctx : Ctx) (i : CreateDartaInput) → Keeps o (create_darta ctx i)
  unfolding create_darta
  create_darta-Keeps ctx i = bind-Keeps o _ _ (check-Keeps (validate_create_darta_input i)) λ _.
      bind-Keeps o _ _ (existing_darta-Keeps i.idempotency_key (get_user_context ctx).tenant_id)
        λ existing. or_create-Keeps existing _ (create_new_darta-Keeps (get_user_context ctx) i)

  pub get_darta-Keeps : (id : Uuid) → Keeps o (get_darta id)
  unfolding get_darta
  get_darta-Keeps id = on_error-Keeps o _ _ (row-Keeps o id)

  change_status-Keeps :
      (ctx : Ctx) (id : Uuid) (current : Darta) (new : String)
      → Keeps o (change_status ctx id current new)
  unfolding change_status
  change_status-Keeps ctx id current new =
      bind-Keeps o _ _ (on_error-Keeps o _ _ (set_status-Keeps id new)) λ updated.
        bind-Keeps o _ _
          (ignore-Keeps o _ (
            entry-Keeps "DARTA" id "STATUS_CHANGED" (get_user_context ctx)
              (some (status_change current.status new))))
          λ _. pure-Keeps o updated

  pub update_darta_status-Keeps :
      (ctx : Ctx) (id : Uuid) (new : String) → Keeps o (update_darta_status ctx id new)
  unfolding update_darta_status
  update_darta_status-Keeps ctx id new =
      bind-Keeps o _ _ (on_error-Keeps o _ _ (get_darta_simple-Keeps o id))
        λ current. bind-Keeps o _ _ (guard-Keeps o _ _) λ _. change_status-Keeps ctx id current new

  pub assign_darta-Keeps :
      (ctx : Ctx) (id : Uuid) (unit assignee priority : Option String) (hours : Option ℤ)
      → Keeps o (assign_darta ctx id unit assignee priority hours)
  unfolding assign_darta
  assign_darta-Keeps ctx id unit assignee priority hours =
      bind-Keeps o _ _ (gets-Keeps o (λ db. db.now)) λ now.
        bind-Keeps o _ _ (on_error-Keeps o _ _ (assignment-Keeps id unit assignee _ priority))
          λ updated. bind-Keeps o _ _ (ignore-Keeps o _ (set_status-Keeps id "ASSIGNED")) λ _.
            bind-Keeps o _ _
              (ignore-Keeps o _ (
                entry-Keeps "DARTA" id "ASSIGNED" (get_user_context ctx)
                  (some (assignment_change unit assignee hours))))
              λ _. pure-Keeps o updated
