-- ===== src/Grpc/Interceptors/Callers.antt =====
-- What the interceptor of services/darta-chalani/internal/grpc/interceptors.go promises to a handler.
use e_palika.Prelude.{
  ◌≡◌, refl, ◌≢◌, inl, inr, false, String, some, List, [], ◌∷◌, ◌==◌, string_eq, eq_iff, Bool-cases,
  All,
}
use e_palika.Prelude.Text.{trim_space}
use e_palika.Domain.Context.{Ctx, get_user_context, get_user_context-with_user_context}
use e_palika.Grpc.Interceptors.{
  Metadata, get_metadata_value, get_metadata_values, trimmed_parts, split_commas, or_default,
  user_from_metadata, unary_auth_interceptor,
}

abbrev pub IsGiven : String → Type 0
IsGiven s = s ≢ ""

tested : (s : String) → (s == "") ≡ false → IsGiven s
tested s other h = cc ((eq_iff s "").1 h, other)

or_default-IsGiven :
    (value default : String) → (default == "") ≡ false → IsGiven (or_default value default)
or_default-IsGiven value default d = elim (Bool-cases (value == "")) [
  | inl empty ↦ rw empty (tested default d)
  | inr given ↦ rw given (tested value given)
]

trimmed_parts-given : (parts : List String) → All IsGiven (trimmed_parts parts)
unfolding trimmed_parts
trimmed_parts-given [] = tt
trimmed_parts-given (part ∷ parts) = elim (Bool-cases (trim_space part == "")) [
  | inl empty ↦ rw empty (trimmed_parts-given parts)
  | inr given ↦ rw given (tested (trim_space part) given, trimmed_parts-given parts)
]

get_metadata_values-given :
    (md : Metadata) (key : String) → All IsGiven (get_metadata_values md key)
unfolding get_metadata_values
get_metadata_values-given md key = elim (Bool-cases (get_metadata_value md key == "")) [
  | inl empty ↦ rw empty tt
  | inr given ↦ rw given (trimmed_parts-given (split_commas (get_metadata_value md key)))
]

-- Whatever the metadata of a call holds, and whatever the context held before, the handler reads a user
-- and a tenant that are not empty, and no empty role.
pub unary_auth_interceptor-given :
    (md : Metadata) (ctx : Ctx)
    → IsGiven (get_user_context (unary_auth_interceptor (some md) ctx)).user_id
      × IsGiven (get_user_context (unary_auth_interceptor (some md) ctx)).tenant_id
      × All IsGiven (get_user_context (unary_auth_interceptor (some md) ctx)).roles
unfolding unary_auth_interceptor user_from_metadata
unary_auth_interceptor-given md ctx =
    rw (get_user_context-with_user_context ctx (user_from_metadata md)) (
      or_default-IsGiven (get_metadata_value md "x-user-id") "system" refl,
      or_default-IsGiven (get_metadata_value md "x-tenant") "default" refl,
      get_metadata_values-given md "x-roles",
    )
