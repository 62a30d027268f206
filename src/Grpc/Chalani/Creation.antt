-- ===== src/Grpc/Chalani/Creation.antt =====
-- services/darta-chalani/internal/grpc/chalani_server.go: CreateChalani, with the Input of its request as
-- argument, and the helpers of converters.go that it uses.
use e_palika.Prelude.{String, Option, none, some, ◌==◌, string_eq, if◌then◌else◌}
use e_palika.Domain.Context.{Ctx, UserContext, get_user_context}
use e_palika.Domain.Errors.{Code, status, statusf}
use e_palika.Store.Types.{Uuid, Json, Members}
use e_palika.Store.Exec.{Exec, pure, raise, ◌>>=◌, on_error}
use e_palika.Store.Creation.{CreateRecipientParams, create_recipient}
use e_palika.Store.Chalanis.Updates
use e_palika.Store.Chalanis.Updates.{CreateChalaniParams}
use e_palika.Proto.Enums.{scope_text, recipient_type_text}
use e_palika.Proto.Messages.{ChalaniMessage, RecipientInput, CreateChalaniInput}
use e_palika.Grpc.Packages.{Packages}
use e_palika.Grpc.Chalani.{to_proto_chalani}

unfoldable pub sql_null_string : String → Option String
sql_null_string s = if s == "" then none else some s

abbrev pub recipient_params : RecipientInput → CreateRecipientParams
recipient_params i = record {
  type = recipient_type_text i.type;
  name = i.name;
  organization = sql_null_string i.organization;
  email = sql_null_string i.email;
  phone = sql_null_string i.phone;
  address = i.address;
}

unfoldable pub parse_recipient_input : Option RecipientInput → Exec Uuid
unfolding ◌>>=◌
parse_recipient_input none = raise (status Code.invalid_argument "recipient is required")
parse_recipient_input (some i) = do
  recipient ← create_recipient (recipient_params i)
  pure recipient.id

-- The year of the request, which is its tenant, or else the caller's tenant.
abbrev fiscal_year_of : UserContext → String → String
fiscal_year_of user tenant = if tenant == "" then user.tenant_id else tenant

module _ (p : Packages) where
  -- A text that is not a UUID counts as none.
  unfoldable pub sql_null_uuid : String → Option Uuid
  sql_null_uuid s = if s == "" then none else p.parse_uuid s

  abbrev pub chalani_params : Json → UserContext → CreateChalaniInput → Uuid → CreateChalaniParams
  chalani_params empty user i recipient = record {
    fiscal_year_id = fiscal_year_of user i.tenant_id;
    scope = scope_text i.scope;
    ward_id = sql_null_string i.ward_id;
    subject = i.subject;
    body = i.body;
    template_id = sql_null_string i.template_id;
    linked_darta_id = sql_null_uuid i.linked_darta_id;
    recipient_id = recipient;
    status = "DRAFT";
    created_by = user.user_id;
    tenant_id = user.tenant_id;
    idempotency_key = sql_null_string i.idempotency_key;
    metadata = some empty;
  }

  unfoldable pub create_chalani : Ctx → CreateChalaniInput → Exec ChalaniMessage
  unfolding ◌>>=◌ on_error
  create_chalani ctx i = do
    let user = get_user_context ctx
    recipient ←
        on_error (statusf Code.invalid_argument "invalid recipient")
          (parse_recipient_input i.recipient)
    chalani ←
        on_error (statusf Code.internal "failed to create chalani")
          (Updates.create_chalani (chalani_params (Json.object Members.none) user i recipient))
    pure (to_proto_chalani p chalani)
