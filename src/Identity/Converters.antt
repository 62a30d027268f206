-- ===== src/Identity/Converters.antt =====
-- services/identity/internal/grpc/server.go: the conversions between Keycloak's types and the messages.
pub mod RoundTrip
use e_palika.Prelude.{
  Bool, true, false, String, Option, none, some, List, [], ◌∷◌, ◌++◌, ◌==◌, string_eq,
  if◌then◌else◌, lookup,
}
use e_palika.Prelude.Int.{ℤ, pos, ◌*ℤ◌}
use e_palika.Store.Types.{Time}
use e_palika.Identity.Keycloak.{Attributes, User, Group, Role}
use e_palika.Identity.Messages.{
  UserStatus, OrgUnitType, PersonMessage, UserMessage, OrgUnitMessage, RoleMessage, PersonInput,
  InviteUserInput,
}

unfoldable pub get_string_value : Option String → String
get_string_value none = ""
get_string_value (some s) = s

-- `if v, ok := attrs[key]; ok && len(v) > 0`, the field staying empty else.
abbrev first_or_empty : Option (List String) → String
first_or_empty none = ""
first_or_empty (some []) = ""
first_or_empty (some (v ∷ _)) = v

unfoldable pub attribute : Attributes → String → String
unfolding lookup
attribute attrs key = first_or_empty (lookup key attrs)

abbrev status_of : Option Bool → UserStatus
status_of none = UserStatus.active
status_of (some true) = UserStatus.active
status_of (some false) = UserStatus.disabled

abbrev person_of : String → Option Attributes → Option PersonMessage
person_of id none = none
person_of id (some attrs) = some (record {
  id = id;
  legal_name = attribute attrs "legalName";
  preferred_name = attribute attrs "preferredName";
  date_of_birth = attribute attrs "dateOfBirth";
})

abbrev full_name_of : Option Attributes → String
full_name_of none = ""
full_name_of (some attrs) = attribute attrs "legalName"

-- `timestamppb.New(time.UnixMilli(ms))`
abbrev unix_milli : Option ℤ → Option Time
unix_milli none = none
unix_milli (some ms) = some (ms *ℤ pos 1000000)

unfoldable pub convert_keycloak_user_to_proto : User → UserMessage
unfolding get_string_value attribute
convert_keycloak_user_to_proto u = record {
  id = get_string_value u.id;
  username = get_string_value u.username;
  email = get_string_value u.email;
  full_name = full_name_of u.attributes;
  status = status_of u.enabled;
  person = person_of (get_string_value u.id) u.attributes;
  created_at = unix_milli u.created_timestamp;
}

abbrev code_attribute : Option Attributes → String
code_attribute none = ""
code_attribute (some attrs) = attribute attrs "type"

unfoldable pub convert_keycloak_group_to_org_unit : Group → OrgUnitMessage
unfolding get_string_value attribute
convert_keycloak_group_to_org_unit g = record {
  id = get_string_value g.id;
  name = get_string_value g.name;
  code = code_attribute g.attributes;
  type = OrgUnitType.administration;
}

unfoldable pub convert_keycloak_role_to_proto : Role → RoleMessage
unfolding get_string_value
convert_keycloak_role_to_proto r = record {
  id = get_string_value r.id;
  key = get_string_value r.name;
  name = get_string_value r.name;
  description = get_string_value r.description;
  requires_mfa = false;
}

-- One entry of the map, if the field is not empty.
abbrev entry : String → String → Attributes
entry key value = if value == "" then [] else (key, value ∷ []) ∷ []

unfoldable pub person_attributes : Option PersonInput → Option Attributes
person_attributes none = none
person_attributes (some p) = some (
    entry "legalName" p.legal_name
    ++ (entry "preferredName" p.preferred_name ++ entry "dateOfBirth" p.date_of_birth))

-- The user that InviteUser sends.
unfoldable pub invited_user : InviteUserInput → User
unfolding person_attributes
invited_user i = record {
  id = none;
  username = some i.username;
  email = some i.email;
  enabled = some true;
  email_verified = some false;
  attributes = person_attributes i.person;
  created_timestamp = none;
}
