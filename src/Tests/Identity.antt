-- ===== src/Tests/Identity.antt =====
-- The theorems on the identity service at concrete inputs, with a small Keycloak.
use e_palika.Prelude.{◌≡◌, refl, Option, none, some, map}
use e_palika.Prelude.Int.{pos}
use e_palika.Domain.Errors.{Code, plain}
use e_palika.Store.Exec.{Result, ok, err}
use e_palika.Identity.Config.{load}
use e_palika.Identity.Keycloak.{User, Client, Gocloak, Call}
use e_palika.Identity.Messages.{InviteUserInput, ListUsersRequest}
use e_palika.Identity.Converters.{
  convert_keycloak_user_to_proto, convert_keycloak_group_to_org_unit,
  convert_keycloak_role_to_proto,
}
use e_palika.Identity.Converters.RoundTrip.{
  kept, as_user, convert_keycloak_user_to_proto-invited_user,
}
use e_palika.Identity.Server.{
  users_of, roles_of, search_or_nil, invite_user, get_user, get_org_unit, get_role, list_users,
  list_org_units, list_roles,
}
use e_palika.Identity.Server.Codes.{LookUp, Reports, queries-Reports}
use e_palika.Identity.Server.Invitations.{Invitation, invite_user-outcome}

abbrev found : Option User → Result User
found none = err (plain "404 Not Found")
found (some u) = ok u

abbrev stored : Option User → Result User
stored none = err (plain "404 Not Found")
stored (some u) = ok (record u { id = some "u1"; created_timestamp = some (pos 1700000000000) })

abbrev down : {S A : Type 0} → Call S A
down s = (err (plain "connection refused"), s)

-- A Keycloak that keeps one user, and has no groups or roles.
abbrev small : Gocloak (Option User)
small = record {
  login_admin = λ user password realm s. (ok "token", s);
  login_client = λ id secret realm s. (ok "token", s);
  get_user_by_id = λ token realm id s. (stored s, s);
  get_users = λ token realm params. down;
  create_user = λ token realm u s. (ok "u1", some u);
  update_user = λ token realm u. down;
  get_user_groups = λ token realm id params. down;
  get_realm_roles = λ token realm. down;
  get_realm_role = λ token realm name. down;
  add_realm_role_to_user = λ token realm id roles. down;
  get_group = λ token realm id. down;
  get_groups = λ token realm params. down;
}

abbrev client : Client
client = record {
  realm = "epalika";
  client_id = "identity-service";
  client_secret = "s3cret";
  admin_token = "token";
}

abbrev invitation : InviteUserInput
invitation = record {
  username = "sita";
  email = "sita@palika.gov.np";
  person = some (record { legal_name = "Sita"; preferred_name = ""; date_of_birth = "2000-01-01" });
}

no_secret : load (λ key. "") ≡ err (plain "KEYCLOAK_CLIENT_SECRET is required")
unfolding load
no_secret = refl

convert_keycloak_user_to_proto-invited_user_example :
    convert_keycloak_user_to_proto (kept invitation "u1" (some (pos 0)))
    ≡ as_user invitation "u1" (some (pos 0))
convert_keycloak_user_to_proto-invited_user_example =
    convert_keycloak_user_to_proto-invited_user invitation "u1" (some (pos 0))

invite_user-outcome_example :
    Invitation small client invitation none (invite_user small client (some invitation) none)
invite_user-outcome_example = invite_user-outcome small client invitation none

abbrev request : ListUsersRequest
request = record { search = "sita"; limit = pos 10 }

queries-Reports_example :
    LookUp "u1" none convert_keycloak_user_to_proto
      (small.get_user_by_id client.admin_token client.realm "u1" none)
      (get_user small client "u1" none)
    × LookUp "u1" none convert_keycloak_group_to_org_unit
        (small.get_group client.admin_token client.realm "u1" none)
        (get_org_unit small client "u1" none)
    × LookUp "u1" none convert_keycloak_role_to_proto
        (small.get_realm_role client.admin_token client.realm "u1" none)
        (get_role small client "u1" none)
    × Reports Code.internal users_of
        (small.get_users client.admin_token client.realm
          (record { max = some request.limit; search = search_or_nil request.search })
          none)
        (list_users small client request none)
    × Reports Code.internal
        (map convert_keycloak_group_to_org_unit)
        (small.get_groups client.admin_token client.realm
          (record { search = search_or_nil "u1" })
          none)
        (list_org_units small client "u1" none)
    × Reports Code.internal roles_of
        (small.get_realm_roles client.admin_token client.realm none)
        (list_roles small client none)
queries-Reports_example = queries-Reports small client "u1" request none
