-- ===== src/Identity/Server.antt =====
-- services/identity/internal/grpc/server.go: the handlers of the identity service, each with the fields
-- of its request as arguments.
pub mod Codes
pub mod Invitations
use e_palika.Prelude.{String, Option, none, some, List, ◌==◌, string_eq, if◌then◌else◌, length, map}
use e_palika.Prelude.Int.{ℤ, pos}
use e_palika.Domain.Errors.{Code, status, statusf}
use e_palika.Store.Exec.{Result, ok, err}
use e_palika.Proto.Messages.{HealthMessage}
use e_palika.Store.Types.{Time}
use e_palika.Identity.Keycloak
use e_palika.Identity.Keycloak.{
  User, Group, Role, UsersParams, GroupsParams, Call, Client, Gocloak, after, converted,
}
use e_palika.Identity.Messages.{
  UserMessage, OrgUnitMessage, RoleMessage, InviteUserInput, ListUsersRequest, Users, Roles,
}
use e_palika.Identity.Converters.{
  convert_keycloak_user_to_proto, convert_keycloak_group_to_org_unit,
  convert_keycloak_role_to_proto, invited_user,
}

abbrev pub search_or_nil : String → Option String
search_or_nil s = if s == "" then none else some s

abbrev pub users_of : List User → Users
users_of l =
    let users = map convert_keycloak_user_to_proto l in
    record { users = users; total = pos (length users) }

abbrev pub roles_of : List Role → Roles
roles_of l =
    let roles = map convert_keycloak_role_to_proto l in
    record { roles = roles; total = pos (length roles) }

module _ {S : Type 0} where
  abbrev pub refuse : {A : Type 0} → Code → String → Call S A
  refuse code text s = (err (status code text), s)

  module _ (g : Gocloak S) (c : Client) where
    unfoldable pub get_me : Call S UserMessage
    get_me = refuse Code.unimplemented "GetMe requires authentication context from Oathkeeper"

    unfoldable pub get_user : String → Call S UserMessage
    unfolding convert_keycloak_user_to_proto
    get_user id =
        if id == ""
        then refuse Code.invalid_argument "user ID is required"
        else after (statusf Code.not_found "user not found") convert_keycloak_user_to_proto
            (Keycloak.get_user g c id)

    unfoldable pub list_users : ListUsersRequest → Call S Users
    unfolding convert_keycloak_user_to_proto
    list_users req = after (statusf Code.internal "failed to list users") users_of (
        Keycloak.get_users g c (record { max = some req.limit; search = search_or_nil req.search }))

    -- The look-up of the user that was created.
    abbrev pub after_creation : Result String → Call S UserMessage
    after_creation (err e) s = (err (statusf Code.internal "failed to create user" e), s)
    after_creation (ok id) s =
        after (statusf Code.internal "failed to retrieve created user")
          convert_keycloak_user_to_proto (Keycloak.get_user g c id) s

    unfoldable pub invite_user : Option InviteUserInput → Call S UserMessage
    unfolding convert_keycloak_user_to_proto invited_user
    invite_user none = refuse Code.invalid_argument "input is required"
    invite_user (some i) =
        λ s. let (r, s') = Keycloak.create_user g c (invited_user i) s in after_creation r s'

    unfoldable pub get_org_unit : String → Call S OrgUnitMessage
    unfolding convert_keycloak_group_to_org_unit
    get_org_unit id =
        if id == ""
        then refuse Code.invalid_argument "org unit ID is required"
        else after (statusf Code.not_found "org unit not found") convert_keycloak_group_to_org_unit
            (Keycloak.get_group g c id)

    unfoldable pub list_org_units : String → Call S (List OrgUnitMessage)
    unfolding convert_keycloak_group_to_org_unit
    list_org_units search =
        after (statusf Code.internal "failed to list org units")
          (map convert_keycloak_group_to_org_unit)
          (Keycloak.get_groups g c (record { search = search_or_nil search }))

    -- The input by whether it is there.
    unfoldable pub create_org_unit : Option (Unit {0}) → Call S OrgUnitMessage
    create_org_unit none = refuse Code.invalid_argument "input is required"
    create_org_unit (some i) = refuse Code.unimplemented "CreateOrgUnit not yet implemented"

    unfoldable pub get_role : String → Call S RoleMessage
    unfolding convert_keycloak_role_to_proto
    get_role key =
        if key == ""
        then refuse Code.invalid_argument "role key is required"
        else after (statusf Code.not_found "role not found") convert_keycloak_role_to_proto
            (Keycloak.get_role_by_name g c key)

    unfoldable pub list_roles : Call S Roles
    unfolding convert_keycloak_role_to_proto
    list_roles =
        after (statusf Code.internal "failed to list roles") roles_of (Keycloak.get_roles g c)

    -- GetGrant, ListGrants, RequestGrant and CheckPermission.
    unfoldable pub get_grant : Call S (Unit {0})
    get_grant = refuse Code.unimplemented "GetGrant requires grant management database"

    unfoldable pub list_grants : Call S (Unit {0})
    list_grants = refuse Code.unimplemented "ListGrants requires grant management database"

    unfoldable pub request_grant : Call S (Unit {0})
    request_grant = refuse Code.unimplemented "RequestGrant requires grant management database"

    unfoldable pub check_permission : Call S (Unit {0})
    check_permission = refuse Code.unimplemented "CheckPermission requires OpenFGA integration"

    unfoldable pub health_check : Time → Call S HealthMessage
    health_check now s =
        (ok (record { status = "healthy"; service = "identity"; timestamp = now }), s)
