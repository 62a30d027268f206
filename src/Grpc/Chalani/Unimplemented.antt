-- ===== src/Grpc/Chalani/Unimplemented.antt =====
-- services/darta-chalani/internal/grpc/chalani_server.go: the handlers that are not implemented, which read
-- nothing of their request, and HealthCheck. `A` stands for the message of the response.
use e_palika.Domain.Errors.{Code, status}
use e_palika.Store.Exec.{Exec, raise, gets}
use e_palika.Proto.Messages.{HealthMessage}

module _ {A : Type 0} where
  abbrev pub not_implemented : Exec A
  not_implemented = raise (status Code.unimplemented "not implemented")

  unfoldable pub get_chalani_by_number : Exec A
  get_chalani_by_number = not_implemented

  unfoldable pub get_my_chalani : Exec A
  get_my_chalani = not_implemented

  unfoldable pub get_chalani_stats : Exec A
  get_chalani_stats = not_implemented

  unfoldable pub list_chalani_templates : Exec A
  list_chalani_templates = not_implemented

  unfoldable pub get_chalani_template : Exec A
  get_chalani_template = not_implemented

  unfoldable pub review_chalani : Exec A
  review_chalani = not_implemented

  unfoldable pub finalize_chalani_registration : Exec A
  finalize_chalani_registration = not_implemented

  unfoldable pub direct_register_chalani : Exec A
  direct_register_chalani = not_implemented

  unfoldable pub sign_chalani : Exec A
  sign_chalani = not_implemented

  unfoldable pub seal_chalani : Exec A
  seal_chalani = not_implemented

  unfoldable pub mark_chalani_in_transit : Exec A
  mark_chalani_in_transit = not_implemented

  unfoldable pub acknowledge_chalani : Exec A
  acknowledge_chalani = not_implemented

  unfoldable pub mark_chalani_returned_undelivered : Exec A
  mark_chalani_returned_undelivered = not_implemented

  unfoldable pub resend_chalani : Exec A
  resend_chalani = not_implemented

  unfoldable pub supersede_chalani : Exec A
  supersede_chalani = not_implemented

  unfoldable pub close_chalani : Exec A
  close_chalani = not_implemented

unfoldable pub health_check : Exec HealthMessage
health_check =
    gets (λ db. record { status = "healthy"; service = "chalani-service"; timestamp = db.now })
