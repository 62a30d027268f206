-- ===== src/Domain/Context.antt =====
-- services/darta-chalani/internal/domain/context.go: the caller's data in a context.Context.
use e_palika.Prelude.{
  ◌≡◌, refl, String, Option, none, some, List, [], ◌∷◌, ◌==◌, string_eq, if◌then◌else◌,
}

-- The values that the code puts in a context; `other` is a value of any other type.
pub data Value : Type 0 where
  text : String → Value
  texts : List String → Value
  other : Value

-- The chain of `context.WithValue`, the last one first.
abbrev pub Ctx : Type 0
Ctx = List (String × Value)

unfoldable pub value : Ctx → String → Option Value
value [] key = none
value ((k, v) ∷ ctx) key = if k == key then some v else value ctx key

pub record UserContext : Type 0 where
  pub user_id : String
  pub tenant_id : String
  pub roles : List String
  pub request_id : String
  pub ip_address : String
  pub user_agent : String

abbrev pub text_or_empty : Option Value → String
text_or_empty none = ""
text_or_empty (some (text s)) = s
text_or_empty (some (texts _)) = ""
text_or_empty (some other) = ""

abbrev pub texts_or_empty : Option Value → List String
texts_or_empty none = []
texts_or_empty (some (texts l)) = l
texts_or_empty (some (text _)) = []
texts_or_empty (some other) = []

unfoldable pub get_string_value : Ctx → String → String
unfolding value
get_string_value ctx key = text_or_empty (value ctx key)

unfoldable pub get_string_slice_value : Ctx → String → List String
unfolding value
get_string_slice_value ctx key = texts_or_empty (value ctx key)

unfoldable pub get_user_context : Ctx → UserContext
unfolding get_string_value get_string_slice_value
get_user_context ctx = record {
  user_id = get_string_value ctx "user_id";
  tenant_id = get_string_value ctx "tenant_id";
  roles = get_string_slice_value ctx "roles";
  request_id = get_string_value ctx "request_id";
  ip_address = get_string_value ctx "ip_address";
  user_agent = get_string_value ctx "user_agent";
}

unfoldable pub with_user_context : Ctx → UserContext → Ctx
with_user_context ctx uc =
    ("user_agent", text uc.user_agent)
    ∷ ("ip_address", text uc.ip_address)
    ∷ ("request_id", text uc.request_id)
    ∷ ("roles", texts uc.roles)
    ∷ ("tenant_id", text uc.tenant_id)
    ∷ ("user_id", text uc.user_id)
    ∷ ctx

-- What a handler reads from a context is what the interceptor has put there, whatever the context
-- held before.
pub get_user_context-with_user_context :
    (ctx : Ctx) (uc : UserContext) → get_user_context (with_user_context ctx uc) ≡ uc
unfolding get_user_context with_user_context
get_user_context-with_user_context ctx uc = refl
