-- ===== src/Darta/Service/Assignment.antt =====
-- services/darta-chalani/internal/domain/darta_service.go: AssignDarta.
use e_palika.Prelude.{String, Option, none, some, if◌then◌else◌}
use e_palika.Prelude.Int.{ℤ, pos, ltb_ℤ, ◌+ℤ◌, mul_int64}
use e_palika.Domain.Context.{Ctx, get_user_context}
use e_palika.Domain.Errors.{wrapped}
use e_palika.Store.Types.{Uuid, Time, Json, null, number, string, object, Members, member, Darta}
use e_palika.Store.Exec.{Exec, pure, gets, ◌>>=◌, ◌>>◌, on_error, ignore}
use e_palika.Store.Dartas
use e_palika.Darta.Service.{time_ptr_to_pg, create_audit_entry}

-- `time.Hour`
abbrev pub hour : ℤ
hour = pos 3600000000000

-- `time.Now().Add(time.Duration(*slaHours) * time.Hour)`, if there are hours and they are positive.
unfoldable pub sla_deadline : Time → Option ℤ → Option Time
unfolding mul_int64 ◌+ℤ◌
sla_deadline now none = none
sla_deadline now (some hours) =
    if ltb_ℤ (pos 0) hours then some (now +ℤ mul_int64 hours hour) else none

abbrev string_or_null : Option String → Json
string_or_null none = null
string_or_null (some s) = string s

abbrev number_or_null : Option ℤ → Json
number_or_null none = null
number_or_null (some n) = number n

abbrev pub assignment_change : Option String → Option String → Option ℤ → Json
assignment_change unit assignee hours = object (
    member "assigned_to_unit" (string_or_null unit) (
      member "assigned_to_user" (string_or_null assignee)
        (member "sla_hours" (number_or_null hours) Members.none)))

unfoldable pub assign_darta :
    Ctx → Uuid → Option String → Option String → Option String → Option ℤ → Exec Darta
unfolding ◌>>=◌ on_error ignore
assign_darta ctx id unit assignee priority hours = do
  let user = get_user_context ctx
  now ← gets (λ db. db.now)
  updated ← on_error (wrapped "failed to assign darta") (
      Dartas.update_darta_assignment id unit assignee (time_ptr_to_pg (sla_deadline now hours))
        priority)
  ignore (Dartas.update_darta_status id "ASSIGNED")
  ignore
      (create_audit_entry "DARTA" id "ASSIGNED" user (some (assignment_change unit assignee hours)))
  pure updated
