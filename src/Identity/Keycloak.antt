-- ===== src/Identity/Keycloak.antt =====
-- services/identity/internal/keycloak/client.go: the client of Keycloak's REST API.
use e_palika.Prelude.{Bool, String, Option, List, ◌==◌, string_eq, ◌||◌, if◌then◌else◌}
use e_palika.Prelude.Int.{ℤ}
use e_palika.Domain.Errors.{Error, wrapped}
use e_palika.Store.Exec.{Result, ok, err}
use e_palika.Identity.Config.{KeycloakConfig}

-- The attributes of a user or group, a Go map.
abbrev pub Attributes : Type 0
Attributes = List (String × List String)

-- gocloak.User, gocloak.Group and gocloak.Role, the fields that the service reads or sets; each is a
-- pointer.
pub record User : Type 0 where
  pub id : Option String
  pub username : Option String
  pub email : Option String
  pub enabled : Option Bool
  pub email_verified : Option Bool
  pub attributes : Option Attributes
  -- milliseconds since 1970
  pub created_timestamp : Option ℤ

pub record Group : Type 0 where
  pub id : Option String
  pub name : Option String
  pub attributes : Option Attributes

pub record Role : Type 0 where
  pub id : Option String
  pub name : Option String
  pub description : Option String

pub record UsersParams : Type 0 where
  pub max : Option ℤ
  pub search : Option String

pub record GroupsParams : Type 0 where
  pub search : Option String

-- A request to Keycloak, which has a state of its own.
abbrev pub Call : Type 0 → Type 0 → Type 0
Call S A = S → Result A × S

-- gocloak.GoCloak: each method takes the access token and the realm first, a login the realm last.
pub record Gocloak (S : Type 0) : Type 0 where
  pub login_admin : String → String → String → Call S String
  pub login_client : String → String → String → Call S String
  pub get_user_by_id : String → String → String → Call S User
  pub get_users : String → String → UsersParams → Call S (List User)
  pub create_user : String → String → User → Call S String
  pub update_user : String → String → User → Call S (Unit {0})
  pub get_user_groups : String → String → String → GroupsParams → Call S (List Group)
  pub get_realm_roles : String → String → Call S (List Role)
  pub get_realm_role : String → String → String → Call S Role
  pub add_realm_role_to_user : String → String → String → List Role → Call S (Unit {0})
  pub get_group : String → String → String → Call S Group
  pub get_groups : String → String → GroupsParams → Call S (List Group)

pub record Client : Type 0 where
  pub realm : String
  pub client_id : String
  pub client_secret : String
  pub admin_token : String

unfoldable pub new_client : KeycloakConfig → Client
new_client cfg = record {
  realm = cfg.realm;
  client_id = cfg.client_id;
  client_secret = cfg.client_secret;
  admin_token = "";
}

-- The error of a call under a text of its own, and its result converted.
abbrev pub converted : {A B : Type 0} → (Error → Error) → (A → B) → Result A → Result B
converted f g (ok a) = ok (g a)
converted f g (err e) = err (f e)

module _ {S : Type 0} where
  module _ {A B : Type 0} where
    abbrev pub after : (Error → Error) → (A → B) → Call S A → Call S B
    after f g m s = let (r, s') = m s in (converted f g r, s')

  abbrev pub failed : {A : Type 0} → String → Call S A → Call S A
  failed text m = after (wrapped text) (λ a. a) m

  module _ (g : Gocloak S) where
    abbrev pub login_call : Client → Call S String
    login_call c =
        if c.client_secret == "" || c.client_secret == "admin"
        then g.login_admin "admin" "admin" c.realm
        else g.login_client c.client_id c.client_secret c.realm

    -- The client with the token, or, after an error, as it was.
    abbrev pub with_token : Client → Result String → Result (Unit {0}) × Client
    with_token c (ok token) = (ok tt, record c { admin_token = token })
    with_token c (err e) = (err (wrapped "failed to login to keycloak" e), c)

    unfoldable pub login : Client → S → (Result (Unit {0}) × Client) × S
    login c s = let (r, s') = login_call c s in (with_token c r, s')

    unfoldable pub get_user : Client → String → Call S User
    get_user c id = failed "failed to get user" (g.get_user_by_id c.admin_token c.realm id)

    unfoldable pub get_users : Client → UsersParams → Call S (List User)
    get_users c params = failed "failed to get users" (g.get_users c.admin_token c.realm params)

    unfoldable pub create_user : Client → User → Call S String
    create_user c user = failed "failed to create user" (g.create_user c.admin_token c.realm user)

    unfoldable pub update_user : Client → User → Call S (Unit {0})
    update_user c user = failed "failed to update user" (g.update_user c.admin_token c.realm user)

    unfoldable pub get_user_groups : Client → String → Call S (List Group)
    get_user_groups c id =
        failed "failed to get user groups"
          (g.get_user_groups c.admin_token c.realm id (record { search = Option.none }))

    unfoldable pub get_roles : Client → Call S (List Role)
    get_roles c = failed "failed to get roles" (g.get_realm_roles c.admin_token c.realm)

    unfoldable pub get_role_by_name : Client → String → Call S Role
    get_role_by_name c name =
        failed "failed to get role" (g.get_realm_role c.admin_token c.realm name)

    unfoldable pub add_realm_role_to_user : Client → String → List Role → Call S (Unit {0})
    add_realm_role_to_user c id roles =
        failed "failed to add role to user"
          (g.add_realm_role_to_user c.admin_token c.realm id roles)

    unfoldable pub get_group : Client → String → Call S Group
    get_group c id = failed "failed to get group" (g.get_group c.admin_token c.realm id)

    unfoldable pub get_groups : Client → GroupsParams → Call S (List Group)
    get_groups c params = failed "failed to get groups" (g.get_groups c.admin_token c.realm params)
