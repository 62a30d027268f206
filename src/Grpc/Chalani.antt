-- ===== src/Grpc/Chalani.antt =====
-- services/darta-chalani/internal/grpc/chalani_server.go: the handlers that set a chalani's status and
-- the one that reserves its number, each with the id of its request as argument.
pub mod Outcomes
pub mod Success
pub mod Creation
pub mod Lists
pub mod Unimplemented
pub mod Refusals
pub mod EmptyLists
pub mod Requests
pub mod History
use e_palika.Prelude.{String, Option, none, some, ◌==◌, string_eq, if◌then◌else◌}
use e_palika.Domain.Context.{Ctx, get_user_context}
use e_palika.Domain.Errors.{Code, plain, statusf}
use e_palika.Store.Types.{Uuid, Chalani}
use e_palika.Store.Exec.{Exec, pure, ◌>>=◌, ◌>>◌, on_error}
use e_palika.Store.Chalanis.{update_chalani_status, get_chalani_simple, get_next_chalani_number}
use e_palika.Proto.Enums.{ChalaniStatus, DispatchChannel}
use e_palika.Proto.Messages.{ChalaniMessage}
use e_palika.Grpc.Packages.{Packages}
use e_palika.Grpc.Converters.{
  string_to_scope, pg_timestamptz_to_proto, number_or_zero, text_or_empty,
}
use e_palika.Grpc.Darta.{parse_id}

unfoldable pub string_to_chalani_status : String → ChalaniStatus
string_to_chalani_status s =
    if s == "DRAFT"
    then ChalaniStatus.draft
    else if s == "PENDING_REVIEW"
    then ChalaniStatus.pending_review
    else if s == "PENDING_APPROVAL"
    then ChalaniStatus.pending_approval
    else if s == "APPROVED"
    then ChalaniStatus.approved
    else if s == "NUMBER_RESERVED"
    then ChalaniStatus.number_reserved
    else if s == "REGISTERED"
    then ChalaniStatus.registered
    else if s == "SIGNED"
    then ChalaniStatus.signed
    else if s == "SEALED"
    then ChalaniStatus.sealed
    else if s == "DISPATCHED"
    then ChalaniStatus.dispatched
    else if s == "IN_TRANSIT"
    then ChalaniStatus.in_transit
    else if s == "ACKNOWLEDGED"
    then ChalaniStatus.acknowledged
    else if s == "RETURNED_UNDELIVERED"
    then ChalaniStatus.returned_undelivered
    else if s == "DELIVERED"
    then ChalaniStatus.delivered
    else if s == "VOIDED"
    then ChalaniStatus.voided
    else if s == "SUPERSEDED"
    then ChalaniStatus.superseded
    else if s == "CLOSED"
    then ChalaniStatus.closed
    else ChalaniStatus.unspecified

unfoldable pub string_to_dispatch_channel : String → DispatchChannel
string_to_dispatch_channel s =
    if s == "POSTAL"
    then DispatchChannel.postal
    else if s == "COURIER"
    then DispatchChannel.courier
    else if s == "EMAIL"
    then DispatchChannel.email
    else if s == "HAND_DELIVERY"
    then DispatchChannel.hand_delivery
    else if s == "EDARTA_PORTAL"
    then DispatchChannel.edarta_portal
    else DispatchChannel.unspecified

abbrev channel_or_unspecified : Option String → DispatchChannel
channel_or_unspecified none = DispatchChannel.unspecified
channel_or_unspecified (some s) = string_to_dispatch_channel s

module _ (p : Packages) where
  unfoldable pub to_proto_chalani : Chalani → ChalaniMessage
  unfolding string_to_scope string_to_chalani_status string_to_dispatch_channel
      pg_timestamptz_to_proto
  to_proto_chalani c = record {
    id = p.print_uuid c.id;
    chalani_number = number_or_zero c.chalani_number;
    formatted_chalani_number = text_or_empty c.formatted_chalani_number;
    fiscal_year = some c.fiscal_year_id;
    scope = string_to_scope c.scope;
    ward = c.ward_id;
    subject = c.subject;
    body = c.body;
    status = string_to_chalani_status c.status;
    dispatch_channel = channel_or_unspecified c.dispatch_channel;
    dispatched_at = pg_timestamptz_to_proto c.dispatched_at;
    delivered_at = pg_timestamptz_to_proto c.delivered_at;
    created_at = some c.created_at.time;
    updated_at = some c.updated_at.time;
  }

  abbrev pub parse_chalani_id : String → Exec Uuid
  parse_chalani_id text =
      parse_id p text
        (statusf Code.invalid_argument "invalid chalani ID" (plain (p.uuid_error text)))

  -- The body that the five handlers share.
  unfoldable pub set_status : String → String → Exec ChalaniMessage
  unfolding ◌>>=◌ on_error
  set_status text new_status = do
    id ← parse_chalani_id text
    updated ←
        on_error (statusf Code.internal "failed to update status")
          (update_chalani_status id new_status)
    pure (to_proto_chalani updated)

  unfoldable pub submit_chalani : String → Exec ChalaniMessage
  unfolding set_status
  submit_chalani text = set_status text "PENDING_REVIEW"

  unfoldable pub approve_chalani : String → Exec ChalaniMessage
  unfolding set_status
  approve_chalani text = set_status text "APPROVED"

  unfoldable pub dispatch_chalani : String → Exec ChalaniMessage
  unfolding set_status
  dispatch_chalani text = set_status text "DISPATCHED"

  unfoldable pub mark_chalani_delivered : String → Exec ChalaniMessage
  unfolding set_status
  mark_chalani_delivered text = set_status text "DELIVERED"

  unfoldable pub void_chalani : String → Exec ChalaniMessage
  unfolding set_status
  void_chalani text = set_status text "VOIDED"

  unfoldable pub reserve_chalani_number : Ctx → String → Exec ChalaniMessage
  unfolding ◌>>=◌ on_error
  reserve_chalani_number ctx text = do
    id ← parse_chalani_id text
    chalani ← on_error (statusf Code.not_found "chalani not found") (get_chalani_simple id)
    next_number ← on_error (statusf Code.internal "failed to get next number") (
        get_next_chalani_number chalani.fiscal_year_id chalani.scope none
          (get_user_context ctx).tenant_id)
    pure (to_proto_chalani chalani)
