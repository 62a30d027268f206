-- ===== src/Darta/Service/Soundness.antt =====
-- DartaService (services/darta-chalani/internal/domain/darta_service.go) leaves a sound store sound.
use e_palika.Prelude.{ℕ, Option, none, some}
use e_palika.Domain.Context.{Ctx, UserContext, get_user_context}
use e_palika.Store.Types.{Uuid, Darta}
use e_palika.Store.Steady.{Keeps, pure-Keeps, bind-Keeps, on_error-Keeps, ignore-Keeps}
use e_palika.Store.Reads.{get_darta_simple-Keeps, get_next_darta_number-Keeps}
use e_palika.Store.Dartas
use e_palika.Store.Valid.{
  soundness, update_darta-Keeps, create_audit_entry-Keeps, create_darta-Keeps,
  create_applicant-Keeps, add_darta_annex-Keeps,
}
use e_palika.Darta.Service.{
  create_audit_entry, number_change, format_for, store_number, reserve_new_number, unless_numbered,
  reserve_darta_number,
}
use e_palika.Darta.Service.Steady.{Rules}

number-Keeps :
    (id : Uuid) (number : Option ℕ) (text : Option _)
    → Keeps soundness (Dartas.update_darta_number id number text)
unfolding Dartas.update_darta_number
number-Keeps id number text = update_darta-Keeps id _

status-Keeps : (id : Uuid) (status : _) → Keeps soundness (Dartas.update_darta_status id status)
unfolding Dartas.update_darta_status
status-Keeps id status = update_darta-Keeps id _

module _ (user : UserContext) (current : Darta) (id : Uuid) where
  entry-Keeps :
      (n : ℕ)
      → Keeps soundness (
          create_audit_entry "DARTA" id "NUMBER_RESERVED" user
            (some (number_change n (format_for current n))))
  unfolding create_audit_entry
  entry-Keeps n = create_audit_entry-Keeps _

  store_number-Keeps : (n : ℕ) → Keeps soundness (store_number user current id n)
  unfolding store_number
  store_number-Keeps n =
      bind-Keeps soundness _ _
        (on_error-Keeps soundness _ _ (number-Keeps id (some n) (some (format_for current n))))
        λ updated.
          bind-Keeps soundness _ _ (ignore-Keeps soundness _ (status-Keeps id "NUMBER_RESERVED"))
            λ _.
              bind-Keeps soundness _ _ (ignore-Keeps soundness _ (entry-Keeps n))
                λ _. pure-Keeps soundness updated

  reserve_new_number-Keeps : Keeps soundness (reserve_new_number user current id)
  unfolding reserve_new_number
  reserve_new_number-Keeps =
      bind-Keeps soundness _ _
        (on_error-Keeps soundness _ _ (get_next_darta_number-Keeps soundness _ _ _ _))
        λ next. store_number-Keeps next

  unless-Keeps :
      (number : Option ℕ)
      → Keeps soundness (unless_numbered number current (reserve_new_number user current id))
  unless-Keeps none = reserve_new_number-Keeps
  unless-Keeps (some n) = pure-Keeps soundness current

reserve-Keeps : (ctx : Ctx) (id : Uuid) → Keeps soundness (reserve_darta_number ctx id)
unfolding reserve_darta_number
reserve-Keeps ctx id =
    bind-Keeps soundness _ _ (on_error-Keeps soundness _ _ (get_darta_simple-Keeps soundness id))
      λ current. unless-Keeps (get_user_context ctx) current id current.darta_number

pub sound_rules : Rules soundness
sound_rules = record {
  update = λ id change _. update_darta-Keeps id change;
  insert = create_darta-Keeps;
  annex = add_darta_annex-Keeps;
  applicant = create_applicant-Keeps;
  audit = create_audit_entry-Keeps;
  reserve = reserve-Keeps;
}
