-- ===== src/Tests/Pdp.antt =====
-- The theorems on the policy decision point at concrete inputs.
use e_palika.Prelude.{◌≡◌, refl, true, false, none, some, []}
use e_palika.Store.Exec.{ok}
use e_palika.Pdp.Service.{
  Client, Config, AuthorizationRequest, AuthorizationResult, Response, Answer, response, Call, opa,
  fga, check_authorization,
}
use e_palika.Pdp.Server
use e_palika.Pdp.Decisions.{IsGranted, check_authorization-IsGranted}
use e_palika.Pdp.Codes.{HasCode, is_blank, check_authorization-HasCode}

abbrev granted : AuthorizationResult
granted = record { allowed = true; message = "fine"; reason = "tuple" }

abbrev yes_body : Response
yes_body = record {
  status_code = 200;
  opa_result = some true;
  check = some granted;
  failure = none;
}

abbrev no_body : Response
no_body = record { status_code = 200; opa_result = some false; check = none; failure = none }

-- OPA answers no, and OpenFGA yes.
abbrev split_answer : Call → Answer
split_answer (opa url subject resource action context) = response no_body
split_answer (fga url token model user relation object context) = response yes_body

abbrev client : Client
client = record { to_lower = λ s. s; accepts = λ url. true; perform = split_answer }

abbrev fga_only : Config
fga_only = record {
  opa_decide_url = "";
  fga_check_url = "http://fga";
  fga_model_id = "m";
  fga_api_token = "";
}

abbrev with_opa : Config
with_opa = record fga_only { opa_decide_url = "http://opa" }

abbrev asked : AuthorizationRequest
asked = record { user = "user:ram"; relation = "read"; object = "darta:1"; context = [] }

decided : (check_authorization client fga_only asked).0 ≡ ok granted
unfolding check_authorization
decided = refl

check_authorization-IsGranted_example : IsGranted client fga_only asked
check_authorization-IsGranted_example =
    check_authorization-IsGranted client fga_only asked granted decided refl

check_authorization-HasCode_example :
    HasCode (is_blank asked) (Server.check_authorization client with_opa asked).0
check_authorization-HasCode_example = check_authorization-HasCode client with_opa asked
