-- ===== src/Darta/Service.antt =====
-- services/darta-chalani/internal/domain/darta_service.go: the operations of DartaService.
pub mod Assignment
pub mod Status
pub mod Reservation
pub mod Numbering
pub mod Steady
pub mod History
pub mod Soundness
pub mod Distinct
pub mod Linkage
pub mod Submission
pub mod Idempotency
pub mod Deadline
pub mod Success
pub mod Race
use e_palika.Prelude.{
  ℕ, ◌^◌, ◌*◌, ◌≡◌, refl, Bool, true, false, not, ◌&&◌, ◌||◌, String, Option, none, some, List, [],
  ◌∷◌, ◌==◌, nat_eq, string_eq, if◌then◌else◌,
}
use e_palika.Prelude.Int.{ℤ, pos, ltb_ℤ, ◌+ℤ◌, mul_int64}
use e_palika.Prelude.Text.{trim_space}
use e_palika.Domain.Context.{Ctx, UserContext, get_user_context}
use e_palika.Domain.Errors.{
  Error, sentinel, validation, wrapped, darta_not_found, invalid_darta_status,
}
use e_palika.Store.Types.{
  Uuid, uuid_nil, Time, Timestamptz, Json, null, number, string, object, Members, member, Darta,
  AuditTrail, null_time, at_time,
}
use e_palika.Store.Types
use e_palika.Store.Exec.{
  Db, Result, ok, err, Exec, pure, raise, gets, ◌>>=◌, ◌>>◌, on_error, ignore, guard,
}
use e_palika.Store.Dartas
use e_palika.Store.Dartas.{DartaRow}
use e_palika.Store.Creation
use e_palika.Darta.Lifecycle.{is_valid_status_transition}
use e_palika.Darta.Number.{format_darta_number}

abbrev pub time_ptr_to_pg : Option Time → Timestamptz
time_ptr_to_pg none = null_time
time_ptr_to_pg (some t) = at_time t

abbrev pub string_ptr_if_not_empty : String → Option String
string_ptr_if_not_empty s = if s == "" then none else some s

pub record CreateDartaInput : Type 0 where
  pub fiscal_year_id : String
  pub scope : String
  pub ward_id : Option String
  pub subject : String
  pub applicant_id : Uuid
  pub intake_channel : String
  pub received_date : Time
  pub primary_document_id : Uuid
  pub annex_ids : List Uuid
  pub priority : String
  pub is_backdated : Bool
  pub backdate_reason : Option String
  pub backdate_approver_id : Option String
  pub idempotency_key : String
  -- the map, with what json.Marshal makes of it
  pub metadata : Option (Result Json)

-- `wardID == nil || *wardID == ""`
abbrev no_ward : Option String → Bool
no_ward none = true
no_ward (some w) = w == ""

unfoldable pub validate_create_darta_input : CreateDartaInput → Option Error
unfolding trim_space
validate_create_darta_input i =
    if trim_space i.subject == ""
    then some (validation "subject" "required")
    else if i.applicant_id == uuid_nil
    then some (validation "applicant_id" "required")
    else if i.primary_document_id == uuid_nil
    then some (validation "primary_document_id" "required")
    else if not (i.scope == "MUNICIPALITY") && not (i.scope == "WARD")
    then some (validation "scope" "must be MUNICIPALITY or WARD")
    else if i.scope == "WARD" && no_ward i.ward_id
    then some (validation "ward_id" "required when scope is WARD")
    else none

abbrev pub check : Option Error → Exec (Unit {0})
check none = pure tt
check (some e) = raise e

abbrev pub audit_params :
    String → Uuid → String → UserContext → Option Json → Creation.CreateAuditEntryParams
audit_params entity_type entity_id action user changes = record {
  entity_type = entity_type;
  entity_id = entity_id;
  action = action;
  performed_by = user.user_id;
  changes = changes;
  ip_address = some user.ip_address;
  user_agent = some user.user_agent;
  notes = none;
  tenant_id = user.tenant_id;
}

unfoldable pub create_audit_entry :
    String → Uuid → String → UserContext → Option Json → Exec AuditTrail
create_audit_entry entity_type entity_id action user changes =
    Creation.create_audit_entry (audit_params entity_type entity_id action user changes)

-- `err == nil && existing.ID != uuid.Nil`
abbrev pub found_darta : Result Darta → Option Darta
found_darta (ok d) = if d.id == uuid_nil then none else some d
found_darta (err e) = none

-- The darta that an earlier call with the same idempotency key has created.
unfoldable pub existing_darta : String → String → Exec (Option Darta)
existing_darta key tenant db =
    if key == ""
    then (ok none, db)
    else (let (r, db') =
          Dartas.get_darta_by_idempotency_key (string_ptr_if_not_empty key) tenant db in
        (ok (found_darta r), db'))

-- The loop over the annexes, which goes on after an error.
unfoldable pub add_annexes : Uuid → List Uuid → Exec (Unit {0})
unfolding ◌>>=◌ ignore
add_annexes darta [] = pure tt
add_annexes darta (annex ∷ annexes) =
    ignore (Creation.add_darta_annex darta annex) >> add_annexes darta annexes

unfoldable pub marshal_metadata : Option (Result Json) → Exec (Option Json)
unfolding pure raise
marshal_metadata none = pure none
marshal_metadata (some (ok json)) = pure (some json)
marshal_metadata (some (err e)) = raise (wrapped "failed to marshal metadata" e)

abbrev pub params_of :
    UserContext → CreateDartaInput → Option Json → Time → Dartas.CreateDartaParams
params_of user i metadata now = record {
  fiscal_year_id = i.fiscal_year_id;
  scope = i.scope;
  ward_id = i.ward_id;
  subject = i.subject;
  applicant_id = i.applicant_id;
  intake_channel = i.intake_channel;
  received_date = at_time i.received_date;
  entry_date = at_time now;
  is_backdated = i.is_backdated;
  backdate_reason = i.backdate_reason;
  backdate_approver_id = i.backdate_approver_id;
  primary_document_id = i.primary_document_id;
  status = "DRAFT";
  priority = i.priority;
  created_by = user.user_id;
  tenant_id = user.tenant_id;
  idempotency_key = string_ptr_if_not_empty i.idempotency_key;
  metadata = metadata;
}

-- The part of `CreateDarta` after the idempotency check.
unfoldable pub create_new_darta : UserContext → CreateDartaInput → Exec Darta
unfolding ◌>>=◌ on_error ignore
create_new_darta user i = do
  on_error (wrapped "applicant not found") (Creation.get_applicant i.applicant_id)
  on_error (wrapped "primary document not found") (Creation.get_attachment i.primary_document_id)
  metadata ← marshal_metadata i.metadata
  now ← gets (λ db. db.now)
  darta ←
      on_error (wrapped "failed to create darta")
        (Creation.create_darta (params_of user i metadata now))
  add_annexes darta.id i.annex_ids
  ignore (create_audit_entry "DARTA" darta.id "CREATED" user none)
  pure darta

abbrev or_create : Option Darta → Exec Darta → Exec Darta
or_create (some d) create = pure d
or_create none create = create

unfoldable pub create_darta : Ctx → CreateDartaInput → Exec Darta
unfolding ◌>>=◌
create_darta ctx i = do
  let user = get_user_context ctx
  check (validate_create_darta_input i)
  existing ← existing_darta i.idempotency_key user.tenant_id
  or_create existing (create_new_darta user i)

unfoldable pub get_darta : Uuid → Exec DartaRow
unfolding on_error
get_darta id = on_error (λ _. sentinel darta_not_found) (Dartas.get_darta id)

abbrev pub status_change : String → String → Json
status_change from to = object (
    member "status" (object (member "from" (string from) (member "to" (string to) Members.none)))
      Members.none)

-- The part of `UpdateDartaStatus` after its guard.
unfoldable pub change_status : Ctx → Uuid → Darta → String → Exec Darta
unfolding ◌>>=◌ on_error ignore
change_status ctx id current new_status = do
  updated ← on_error (wrapped "failed to update status") (Dartas.update_darta_status id new_status)
  ignore (
      create_audit_entry "DARTA" id "STATUS_CHANGED" (get_user_context ctx)
        (some (status_change current.status new_status)))
  pure updated

unfoldable pub update_darta_status : Ctx → Uuid → String → Exec Darta
unfolding ◌>>=◌ on_error
update_darta_status ctx id new_status = do
  current ← on_error (λ _. sentinel darta_not_found) (Dartas.get_darta_simple id)
  guard (is_valid_status_transition current.status new_status) (sentinel invalid_darta_status)
  change_status ctx id current new_status

abbrev pub number_change : ℕ → String → Json
number_change n formatted =
    object
      (member "darta_number" (number (pos n)) (member "formatted" (string formatted) Members.none))

abbrev pub format_for : Darta → ℕ → String
format_for d n = format_darta_number d.fiscal_year_id d.scope d.ward_id n

-- The part of `ReserveDartaNumber` after the next number is known.
unfoldable pub store_number : UserContext → Darta → Uuid → ℕ → Exec Darta
unfolding ◌>>=◌ on_error ignore
store_number user current id next = do
  let formatted = format_for current next
  updated ←
      on_error (wrapped "failed to update number")
        (Dartas.update_darta_number id (some next) (some formatted))
  ignore (Dartas.update_darta_status id "NUMBER_RESERVED")
  ignore
      (create_audit_entry "DARTA" id "NUMBER_RESERVED" user (some (number_change next formatted)))
  pure updated

-- The part of `ReserveDartaNumber` for a darta that has no number yet.
unfoldable pub reserve_new_number : UserContext → Darta → Uuid → Exec Darta
unfolding ◌>>=◌ on_error
reserve_new_number user current id = do
  next ← on_error (wrapped "failed to get next number") (
      Dartas.get_next_darta_number current.fiscal_year_id current.scope current.ward_id
        current.tenant_id)
  store_number user current id next

abbrev unless_numbered : Option ℕ → Darta → Exec Darta → Exec Darta
unless_numbered (some n) current reserve = pure current
unless_numbered none current reserve = reserve

unfoldable pub reserve_darta_number : Ctx → Uuid → Exec Darta
unfolding ◌>>=◌ on_error
reserve_darta_number ctx id = do
  let user = get_user_context ctx
  current ← on_error (λ _. sentinel darta_not_found) (Dartas.get_darta_simple id)
  unless_numbered current.darta_number current (reserve_new_number user current id)
