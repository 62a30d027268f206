-- ===== src/Pdp/Codes.antt =====
-- The errors of services/pdp/internal/grpc/server.go, and the calls that a refusal makes.
use e_palika.Prelude.{
  ℕ, ◌≡◌, refl, inl, inr, Bool, true, false, ◌||◌, String, Option, none, some, [], ◌∷◌, ◌==◌,
  nat_eq, string_eq, if◌then◌else◌, Bool-cases, Option-cases,
}
use e_palika.Prelude.Text.{trim_space}
use e_palika.Domain.Errors.{Error, Code, is, invalid_input}
use e_palika.Store.Exec.{Result, ok, err}
use e_palika.Grpc.Status.{code_of}
use e_palika.Pdp.Service
use e_palika.Pdp.Service.{
  Client, Config, AuthorizationRequest, AuthorizationResult, Attributes, Response, Answer,
  unreachable, response, Call, opa, fga, ask_opa, ask_fga, decide, map_action_to_relation,
  denied_by_opa, with_answer, unless_denied, Decision, fga_failure,
}
use e_palika.Pdp.Server
use e_palika.Pdp.Server.{answer_of}
use e_palika.Pdp.Decisions.{Answer-cases, IsAnswered, opa_call, fga_call}

-- An error that does not come from the input.
abbrev Foreign : {A : Type 0} → Result A → Type 0
Foreign (ok a) = Unit
Foreign (err e) = is e invalid_input ≡ false

fga_failure-Foreign :
    (code : ℕ) (f : Option (String × String)) → is (fga_failure code f) invalid_input ≡ false
unfolding is
fga_failure-Foreign code none = refl
fga_failure-Foreign code (some (message, error)) = elim (Bool-cases (message == "")) [
  | inl empty ↦ elim (Bool-cases (error == "")) [
    | inl also ↦ rw (empty, also) refl
    | inr given ↦ rw (empty, given) refl
  ]
  | inr given ↦ rw (given, given) refl
]

module _ (c : Client) (cfg : Config) (user relation object : String) (context : Attributes) where
  ask_opa-Foreign : Foreign (ask_opa c cfg user relation object context).0
  unfolding ask_opa is
  ask_opa-Foreign = elim (Bool-cases (c.accepts cfg.opa_decide_url)) [
    | inr refused ↦ rw refused refl
    | inl accepted ↦ elim (Answer-cases (c.perform (opa_call c cfg user relation object context))) [
      | inl (t, lost) ↦ rw (accepted, lost) refl
      | inr (r, got) ↦ elim (Bool-cases (r.status_code == 200)) [
        | inr bad ↦ rw (accepted, got, bad) refl
        | inl good ↦ elim (Option-cases r.opa_result) [
          | inl absent ↦ rw (accepted, got, good, absent) refl
          | inr (b, present) ↦ rw (accepted, got, good, present) tt
        ]
      ]
    ]
  ]

  ask_fga-Foreign : Foreign (ask_fga c cfg user relation object context).0
  unfolding ask_fga is
  ask_fga-Foreign = elim (Bool-cases (c.accepts cfg.fga_check_url)) [
    | inr refused ↦ rw refused refl
    | inl accepted ↦ elim (Answer-cases (c.perform (fga_call c cfg user relation object context))) [
      | inl (t, lost) ↦ rw (accepted, lost) refl
      | inr (r, got) ↦ elim (Bool-cases (r.status_code == 200)) [
        | inr bad ↦ rw (accepted, got, bad) (fga_failure-Foreign r.status_code r.failure)
        | inl good ↦ elim (Option-cases r.check) [
          | inl absent ↦ rw (accepted, got, good, absent) refl
          | inr (b, present) ↦ rw (accepted, got, good, present) tt
        ]
      ]
    ]
  ]

  both-Foreign :
      (q : Decision Bool) (next : Decision AuthorizationResult)
      → Foreign q.0
      → Foreign next.0
      → Foreign (with_answer (Error.wrapped "opa decision") (unless_denied next) q).0
  unfolding is
  both-Foreign (ok true, calls) next h k = k
  both-Foreign (ok false, calls) next h k = tt
  both-Foreign (err e, calls) next h k = h

  decide-Foreign : Foreign (decide c cfg user relation object context).0
  unfolding decide
  decide-Foreign = elim (Bool-cases (cfg.opa_decide_url == "")) [
    | inl off ↦ rw off ask_fga-Foreign
    | inr on ↦ rw on (
        both-Foreign (ask_opa c cfg user relation object context)
          (ask_fga c cfg user relation object context) ask_opa-Foreign ask_fga-Foreign)
  ]

-- Is a part of the request blank?
abbrev pub is_blank : AuthorizationRequest → Bool
is_blank input =
    trim_space input.user == "" || trim_space input.relation == "" || trim_space input.object == ""

-- The answer has no error, and then nothing is blank, or it has an error of the code that the request
-- calls for.
abbrev pub HasCode : Bool → Result AuthorizationResult → Type 0
HasCode blank (ok r) = blank ≡ false
HasCode blank (err e) = code_of e ≡ some (if blank then Code.invalid_argument else Code.internal)

answer_of-HasCode : (r : Result AuthorizationResult) → Foreign r → HasCode false (answer_of r)
unfolding is
answer_of-HasCode (ok r) h = refl
answer_of-HasCode (err e) h = rw h refl

module _ (c : Client) (cfg : Config) where
  -- CheckAuthorization answers a request with a blank user, relation or object with InvalidArgument, and any
  -- other request with a decision or with Internal, whatever OPA and OpenFGA do.
  pub check_authorization-HasCode :
      (input : AuthorizationRequest)
      → HasCode (is_blank input) (Server.check_authorization c cfg input).0
  unfolding Server.check_authorization Service.check_authorization is
  check_authorization-HasCode input = elim (Bool-cases (trim_space input.user == "")) [
    | inl blank ↦ rw blank refl
    | inr u ↦ elim (Bool-cases (trim_space input.relation == "")) [
      | inl blank ↦ rw (u, blank) refl
      | inr r ↦ elim (Bool-cases (trim_space input.object == "")) [
        | inl blank ↦ rw (u, r, blank) refl
        | inr o ↦
            rw (u, r, o)
              (answer_of-HasCode _ (
                decide-Foreign c cfg (trim_space input.user)
                  (map_action_to_relation c (trim_space input.relation)) (trim_space input.object)
                  input.context))
      ]
    ]
  ]

  -- If OPA is configured and answers no, the request is refused with the reason opa_denied, and OpenFGA is
  -- not asked: the one call is that of OPA.
  pub decide-denied :
      (user relation object : String) (context : Attributes) (r : Response)
      → (cfg.opa_decide_url == "") ≡ false
      → c.accepts cfg.opa_decide_url ≡ true
      → IsAnswered c (opa_call c cfg user relation object context) r
      → r.opa_result ≡ some false
      → decide c cfg user relation object context
        ≡ (ok denied_by_opa, opa_call c cfg user relation object context ∷ [])
  unfolding decide ask_opa
  decide-denied user relation object context r on accepted answered refusal =
      rw (on, accepted, answered.answer, answered.success, refusal) refl
