-- ===== src/Identity/Server/Codes.antt =====
-- The gRPC codes of the handlers of services/identity/internal/grpc/server.go.
use e_palika.Prelude.{
  ◌≡◌, refl, inl, inr, String, some, map, ◌==◌, string_eq, if◌then◌else◌, Bool-cases,
}
use e_palika.Domain.Errors.{Error, Code, statusf, wrapped}
use e_palika.Store.Exec.{Result, ok, err}
use e_palika.Grpc.Status.{code_of}
use e_palika.Identity.Keycloak
use e_palika.Identity.Keycloak.{Call, Client, Gocloak, after, failed, converted}
use e_palika.Identity.Converters.{
  convert_keycloak_user_to_proto, convert_keycloak_group_to_org_unit,
  convert_keycloak_role_to_proto,
}
use e_palika.Identity.Messages.{ListUsersRequest}
use e_palika.Identity.Server.{
  refuse, users_of, roles_of, search_or_nil, get_user, list_users, get_org_unit, list_org_units,
  get_role, list_roles,
}

module _ {S A : Type 0} where
  -- An error of this code, with no request to Keycloak.
  abbrev pub IsRefused : Code → S → Result A × S → Type 0
  IsRefused code s r = (e : Error) × (code_of e ≡ some code) × (r ≡ (err e, s))

  module _ {B : Type 0} where
    -- What Keycloak has answered is handed on, converted; its failure becomes an error of this code.
    abbrev pub Reports : Code → (B → A) → Result B × S → Result A × S → Type 0
    Reports code f (ok b, s') r = r ≡ (ok (f b), s')
    Reports code f (err x, s') r = (e : Error) × (code_of e ≡ some code) × (r ≡ (err e, s'))

    -- A look-up by a text: InvalidArgument and no request if it is empty, else what Keycloak answers, or
    -- NotFound.
    abbrev pub LookUp : String → S → (B → A) → Result B × S → Result A × S → Type 0
    LookUp text s f asked r =
        if text == "" then IsRefused Code.invalid_argument s r else Reports Code.not_found f asked r

    converted-Reports :
        (code : Code) (text failure : String) (f : B → A) (q : Result B × S)
        → Reports code f q
            (converted (statusf code text) f (converted (wrapped failure) (λ b. b) q.0), q.1)
    converted-Reports code text failure f (ok b, s) = refl
    converted-Reports code text failure f (err e, s) = (_, refl, refl)

    LookUp-Reports :
        (text message failure inner : String) (f : B → A) (m : Call S B) (s : S)
        → LookUp text s f (m s) (
            (if text == ""
                then refuse Code.invalid_argument message
                else after (statusf Code.not_found failure) f (failed inner m))
              s)
    LookUp-Reports text message failure inner f m s = elim (Bool-cases (text == "")) [
      | inl empty ↦ rw empty (_, refl, refl)
      | inr given ↦ rw given (converted-Reports Code.not_found failure inner f (m s))
    ]

module _ {S : Type 0} (g : Gocloak S) (c : Client) where
  -- Whatever Keycloak does: GetUser, GetOrgUnit and GetRole refuse an empty key with InvalidArgument and
  -- no request; else they make the one request for it, and answer with what it returned, converted, or
  -- with NotFound if it failed. The three lists make their one request and answer with what it
  -- returned, converted, or with Internal if it failed.
  pub queries-Reports :
      (id : String) (req : ListUsersRequest) (s : S)
      → LookUp id s convert_keycloak_user_to_proto
          (g.get_user_by_id c.admin_token c.realm id s)
          (get_user g c id s)
        × LookUp id s convert_keycloak_group_to_org_unit
            (g.get_group c.admin_token c.realm id s)
            (get_org_unit g c id s)
        × LookUp id s convert_keycloak_role_to_proto
            (g.get_realm_role c.admin_token c.realm id s)
            (get_role g c id s)
        × Reports Code.internal users_of
            (g.get_users c.admin_token c.realm
              (record { max = some req.limit; search = search_or_nil req.search })
              s)
            (list_users g c req s)
        × Reports Code.internal
            (map convert_keycloak_group_to_org_unit)
            (g.get_groups c.admin_token c.realm (record { search = search_or_nil id }) s)
            (list_org_units g c id s)
        × Reports Code.internal roles_of
            (g.get_realm_roles c.admin_token c.realm s)
            (list_roles g c s)
  unfolding get_user get_org_unit get_role list_users list_org_units list_roles Keycloak.get_user
      Keycloak.get_group Keycloak.get_role_by_name Keycloak.get_users Keycloak.get_groups
      Keycloak.get_roles
  queries-Reports id req s = (
    LookUp-Reports id _ _ _ _ (g.get_user_by_id c.admin_token c.realm id) s,
    LookUp-Reports id _ _ _ _ (g.get_group c.admin_token c.realm id) s,
    LookUp-Reports id _ _ _ _ (g.get_realm_role c.admin_token c.realm id) s,
    converted-Reports Code.internal _ _ _ (
        g.get_users c.admin_token c.realm
          (record { max = some req.limit; search = search_or_nil req.search }) s),
    converted-Reports Code.internal _ _ _
        (g.get_groups c.admin_token c.realm (record { search = search_or_nil id }) s),
    converted-Reports Code.internal _ _ _ (g.get_realm_roles c.admin_token c.realm s),
  )
