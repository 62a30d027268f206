-- ===== src/Pdp/Service.antt =====
-- services/pdp/internal/service/service.go: the decision on a request, by OPA and then by OpenFGA. A
-- decision comes with the HTTP calls that were made for it, in their order. ErrInvalidInput of this
-- service stands as the sentinel of the same text; no error of the darta service reaches it.
use e_palika.Prelude.{
  ℕ, Bool, true, false, String, Option, none, some, List, [], ◌∷◌, ◌++◌, ◌==◌, nat_eq, string_eq,
  if◌then◌else◌, is_one_of,
}
use e_palika.Prelude.Text.{trim_space, decimal, join}
use e_palika.Domain.Errors.{Error, sentinel, invalid_input, plain, wrapped}
use e_palika.Store.Exec.{Result, ok, err}

-- config.Config, the fields that the service reads.
pub record Config : Type 0 where
  pub opa_decide_url : String
  pub fga_check_url : String
  pub fga_model_id : String
  pub fga_api_token : String

-- A map[string]string.
abbrev pub Attributes : Type 0
Attributes = List (String × String)

pub record AuthorizationRequest : Type 0 where
  pub user : String
  pub relation : String
  pub object : String
  pub context : Attributes

pub record AuthorizationResult : Type 0 where
  pub allowed : Bool
  pub message : String
  pub reason : String

-- The body of a POST: the input of OPA, or fgaCheckRequest with its bearer token.
pub data Call : Type 0 where
  opa : (url subject resource action : String) → Attributes → Call
  fga :
      (url : String) (token : Option String) (model user relation object : String)
      → Attributes
      → Call

-- A response with what encoding/json makes of its body as each of the types that the service decodes
-- it to; `none` is an error.
pub record Response : Type 0 where
  pub status_code : ℕ
  pub opa_result : Option Bool
  pub check : Option AuthorizationResult
  pub failure : Option (String × String)

pub data Answer : Type 0 where
  unreachable : String → Answer
  response : Response → Answer

-- What the service takes from packages: strings.ToLower, whether http.NewRequestWithContext accepts a
-- URL, and the HTTP client.
pub record Client : Type 0 where
  pub to_lower : String → String
  pub accepts : String → Bool
  pub perform : Call → Answer

-- A decision with the calls made for it.
abbrev pub Decision : Type 0 → Type 0
Decision A = Result A × List Call

module _ {A B : Type 0} where
  -- `if err != nil { return …, f(err) }`, and else on with the value.
  abbrev pub with_answer : (Error → Error) → (A → Decision B) → Decision A → Decision B
  with_answer f k (ok a, calls) = let (r, more) = k a in (r, calls ++ more)
  with_answer f k (err e, calls) = (err (f e), calls)

abbrev opa_body : Option Bool → Result Bool
opa_body none = err (wrapped "decode opa response" (plain "json"))
opa_body (some b) = ok b

abbrev opa_answer : Answer → Result Bool
opa_answer (unreachable text) = err (wrapped "perform opa request" (plain text))
opa_answer (response r) =
    if r.status_code == 200
    then opa_body r.opa_result
    else err (plain (join "opa returned status " (decimal r.status_code)))

-- An error of this text, and with ": %s" a message after it.
abbrev with_detail : String → String → Error
with_detail text msg = if msg == "" then plain text else plain (join text (join ": " msg))

abbrev pub fga_failure : ℕ → Option (String × String) → Error
fga_failure code none = plain (join "fga returned status " (decimal code))
fga_failure code (some (message, error)) =
    let msg = if message == "" then error else message in
    with_detail (join "fga returned status " (decimal code)) msg

abbrev with_message : AuthorizationResult → AuthorizationResult
with_message out = record out {
  message = if out.message == "" then "Authorization check completed" else out.message;
}

abbrev fga_body : Option AuthorizationResult → Result AuthorizationResult
fga_body none = err (wrapped "decode fga response" (plain "json"))
fga_body (some out) = ok (with_message out)

abbrev fga_answer : Answer → Result AuthorizationResult
fga_answer (unreachable text) = err (wrapped "perform fga request" (plain text))
fga_answer (response r) =
    if r.status_code == 200 then fga_body r.check else err (fga_failure r.status_code r.failure)

abbrev pub bearer : String → Option String
bearer token = let t = trim_space token in if t == "" then none else some t

abbrev pub denied_by_opa : AuthorizationResult
denied_by_opa = record { allowed = false; message = "Denied by OPA policy"; reason = "opa_denied" }

abbrev pub unless_denied : Decision AuthorizationResult → Bool → Decision AuthorizationResult
unless_denied next true = next
unless_denied next false = (ok denied_by_opa, [])

module _ (c : Client) where
  unfoldable pub map_action_to_relation : String → String
  unfolding trim_space
  map_action_to_relation action =
      let normalized = c.to_lower (trim_space action) in
      if is_one_of normalized ("read" ∷ "can_read" ∷ "viewer" ∷ [])
      then "can_read"
      else if is_one_of normalized ("update" ∷ "write" ∷ "can_write" ∷ "editor" ∷ [])
      then "can_write"
      else if is_one_of normalized ("delete" ∷ "owner" ∷ [])
      then "owner"
      else normalized

  unfoldable pub ask_opa : Config → String → String → String → Attributes → Decision Bool
  ask_opa cfg user relation object context =
      let call = opa cfg.opa_decide_url user object relation context in
      if c.accepts cfg.opa_decide_url
      then (opa_answer (c.perform call), call ∷ [])
      else (err (wrapped "create opa request" (plain cfg.opa_decide_url)), [])

  unfoldable pub ask_fga :
      Config → String → String → String → Attributes → Decision AuthorizationResult
  unfolding trim_space
  ask_fga cfg user relation object context =
      let call =
        fga cfg.fga_check_url (bearer cfg.fga_api_token) cfg.fga_model_id user relation object
          context in
      if c.accepts cfg.fga_check_url
      then (fga_answer (c.perform call), call ∷ [])
      else (err (wrapped "create fga request" (plain cfg.fga_check_url)), [])

  -- The part of `CheckAuthorization` after its checks of the input.
  unfoldable pub decide :
      Config → String → String → String → Attributes → Decision AuthorizationResult
  unfolding ask_opa ask_fga
  decide cfg user relation object context =
      let by_fga = ask_fga cfg user relation object context in
      if cfg.opa_decide_url == ""
      then by_fga
      else with_answer (wrapped "opa decision") (unless_denied by_fga)
          (ask_opa cfg user relation object context)

  unfoldable pub check_authorization : Config → AuthorizationRequest → Decision AuthorizationResult
  unfolding trim_space map_action_to_relation decide
  check_authorization cfg input =
      let user = trim_space input.user in
      let relation = trim_space input.relation in
      let object = trim_space input.object in
      if user == ""
      then (err (wrapped "user is required" (sentinel invalid_input)), [])
      else if relation == ""
      then (err (wrapped "relation is required" (sentinel invalid_input)), [])
      else if object == ""
      then (err (wrapped "object is required" (sentinel invalid_input)), [])
      else decide cfg user (map_action_to_relation relation) object input.context
