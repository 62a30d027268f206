-- ===== src/Grpc/Interceptors.antt =====
-- services/darta-chalani/internal/grpc/interceptors.go: the caller's data from the metadata of a call.
pub mod Callers
use Prim.Native.Char.{Char, code}
use Prim.Native.String
use e_palika.Prelude.{
  ℕ, ◌≡◌, refl, ◌≢◌, sym, ◌∙◌, ap, inl, inr, Bool, true, false, ◌||◌, String, Option, none, some,
  List, [], ◌∷◌, ◌==◌, string_eq, nat_eq, if◌then◌else◌, lookup, Bool-cases,
}
use e_palika.Prelude.Text.{trim_space}
use e_palika.Domain.Context.{Ctx, UserContext, with_user_context, get_user_context}

-- metadata.MD: the values of each key, the keys in lower case.
abbrev pub Metadata : Type 0
Metadata = List (String × List String)

-- `md.Get(key)`
abbrev values_or_nil : Option (List String) → List String
values_or_nil none = []
values_or_nil (some l) = l

abbrev first_or_empty : List String → String
first_or_empty [] = ""
first_or_empty (v ∷ _) = v

unfoldable pub get_metadata_value : Metadata → String → String
unfolding lookup
get_metadata_value md key = first_or_empty (values_or_nil (lookup key md))

abbrev push : Char → List String → List String
push c [] = String.◌∷◌ c "" ∷ []
push c (part ∷ parts) = String.◌∷◌ c part ∷ parts

-- `strings.Split(value, ",")`: as many parts as there are commas, and one more.
unfoldable pub split_commas : String → List String
split_commas String.[] = "" ∷ []
split_commas (String.◌∷◌ c s) =
    let parts = split_commas s in if code c == 44 then "" ∷ parts else push c parts

-- The loop over the parts.
unfoldable pub trimmed_parts : List String → List String
unfolding trim_space
trimmed_parts [] = []
trimmed_parts (part ∷ parts) =
    let rest = trimmed_parts parts in if trim_space part == "" then rest else trim_space part ∷ rest

unfoldable pub get_metadata_values : Metadata → String → List String
unfolding get_metadata_value split_commas trimmed_parts
get_metadata_values md key =
    let value = get_metadata_value md key in
    if value == "" then [] else trimmed_parts (split_commas value)

abbrev pub or_default : String → String → String
or_default value default = if value == "" then default else value

unfoldable pub user_from_metadata : Metadata → UserContext
unfolding get_metadata_value get_metadata_values
user_from_metadata md = record {
  user_id = or_default (get_metadata_value md "x-user-id") "system";
  tenant_id = or_default (get_metadata_value md "x-tenant") "default";
  roles = get_metadata_values md "x-roles";
  request_id = get_metadata_value md "x-request-id";
  ip_address = get_metadata_value md "x-forwarded-for";
  user_agent = get_metadata_value md "user-agent";
}

-- The context that the interceptor hands to the handler.
unfoldable pub unary_auth_interceptor : Option Metadata → Ctx → Ctx
unfolding user_from_metadata with_user_context
unary_auth_interceptor none ctx = ctx
unary_auth_interceptor (some md) ctx = with_user_context ctx (user_from_metadata md)
