-- ===== src/Pdp/Decisions.antt =====
-- What services/pdp promises: it fails closed.
use e_palika.Prelude.{
  ◌≡◌, refl, ap, ◌∙◌, ◌⊎◌, inl, inr, Bool, true, false, String, some, ◌==◌, nat_eq, string_eq,
  Bool-cases, Option-cases,
}
use e_palika.Prelude.Text.{trim_space}
use e_palika.Domain.Errors.{wrapped}
use e_palika.Store.Exec.{ok, err}
use e_palika.Pdp.Service.{
  Client, Config, AuthorizationRequest, AuthorizationResult, Attributes, Response, Answer,
  unreachable, response, Call, opa, fga, bearer, ask_opa, ask_fga, decide, check_authorization,
  map_action_to_relation, with_answer, unless_denied, Decision,
}

pub Answer-cases :
    (a : Answer) → ((t : String) × (a ≡ unreachable t)) ⊎ ((r : Response) × (a ≡ response r))
Answer-cases (unreachable t) = inl (t, refl)
Answer-cases (response r) = inr (r, refl)

allowed_of : {a b : AuthorizationResult} → ok a ≡ ok b → a.allowed ≡ b.allowed
allowed_of {a} {b} h = let e : a ≡ b = cc in ap (λ (r : AuthorizationResult). r.allowed) e

-- A call that was answered with 200.
pub record IsAnswered (c : Client) (call : Call) (r : Response) : Type 0 where
  pub answer : c.perform call ≡ response r
  pub success : (r.status_code == 200) ≡ true

module _ (c : Client) (cfg : Config) (user relation object : String) (context : Attributes) where
  abbrev pub opa_call : Call
  opa_call = opa cfg.opa_decide_url user object relation context

  abbrev pub fga_call : Call
  fga_call =
      fga cfg.fga_check_url (bearer cfg.fga_api_token) cfg.fga_model_id user relation object context

  -- OPA has answered yes.
  pub record IsApproved : Type 0 where
    pub body : Response
    pub answered : IsAnswered c opa_call body
    pub approval : body.opa_result ≡ some true

  -- OpenFGA has answered yes.
  pub record IsRelated : Type 0 where
    pub body : Response
    pub answered : IsAnswered c fga_call body
    pub check : AuthorizationResult
    pub decoded : body.check ≡ some check
    pub permission : check.allowed ≡ true

  ask_opa-IsApproved : (ask_opa c cfg user relation object context).0 ≡ ok true → IsApproved
  unfolding ask_opa
  ask_opa-IsApproved = elim (Bool-cases (c.accepts cfg.opa_decide_url)) [
    | inr refused ↦ rw refused (λ h. cc)
    | inl accepted ↦ elim (Answer-cases (c.perform opa_call)) [
      | inl (t, lost) ↦ rw (accepted, lost) (λ h. cc)
      | inr (r, got) ↦ elim (Bool-cases (r.status_code == 200)) [
        | inr bad ↦ rw (accepted, got, bad) (λ h. cc)
        | inl good ↦ elim (Option-cases r.opa_result) [
          | inl absent ↦ rw (accepted, got, good, absent) (λ h. cc)
          | inr (b, present) ↦
              rw (accepted, got, good, present)
                (λ h.
                  let e : b ≡ true = cc in
                  record {
                    body = r;
                    answered = record { answer = got; success = good };
                    approval = present ∙ ap (λ x. some x) e;
                  })
        ]
      ]
    ]
  ]

  ask_fga-IsRelated :
      (out : AuthorizationResult)
      → (ask_fga c cfg user relation object context).0 ≡ ok out
      → out.allowed ≡ true
      → IsRelated
  unfolding ask_fga
  ask_fga-IsRelated out = elim (Bool-cases (c.accepts cfg.fga_check_url)) [
    | inr refused ↦ rw refused (λ h a. cc)
    | inl accepted ↦ elim (Answer-cases (c.perform fga_call)) [
      | inl (t, lost) ↦ rw (accepted, lost) (λ h a. cc)
      | inr (r, got) ↦ elim (Bool-cases (r.status_code == 200)) [
        | inr bad ↦ rw (accepted, got, bad) (λ h a. cc)
        | inl good ↦ elim (Option-cases r.check) [
          | inl absent ↦ rw (accepted, got, good, absent) (λ h a. cc)
          | inr (found, present) ↦
              rw (accepted, got, good, present)
                (λ h a. record {
                  body = r;
                  answered = record { answer = got; success = good };
                  check = found;
                  decoded = present;
                  permission = allowed_of h ∙ a;
                })
        ]
      ]
    ]
  ]

opa_then_fga :
    (q : Decision Bool) (next : Decision AuthorizationResult) (out : AuthorizationResult)
    → (with_answer (wrapped "opa decision") (unless_denied next) q).0 ≡ ok out
    → out.allowed ≡ true
    → (q.0 ≡ ok true) × (next.0 ≡ ok out)
opa_then_fga (ok true, calls) next out h a = (refl, h)
opa_then_fga (ok false, calls) next out h a = cc (allowed_of h, a)
opa_then_fga (err e, calls) next out h a = cc

-- Why a request is granted: nothing of it is blank, OPA has said yes unless it is not configured, and
-- OpenFGA has said yes.
pub record IsGranted (c : Client) (cfg : Config) (input : AuthorizationRequest) : Type 0 where
  pub user_given : (trim_space input.user == "") ≡ false
  pub relation_given : (trim_space input.relation == "") ≡ false
  pub object_given : (trim_space input.object == "") ≡ false
  pub policy :
      ((cfg.opa_decide_url == "") ≡ true)
      ⊎ IsApproved c cfg
          (trim_space input.user)
          (map_action_to_relation c (trim_space input.relation))
          (trim_space input.object)
          input.context
  pub tuple :
      IsRelated c cfg
        (trim_space input.user)
        (map_action_to_relation c (trim_space input.relation))
        (trim_space input.object)
        input.context

module _ (c : Client) (cfg : Config) where
  decide-granted :
      (user relation object : String) (context : Attributes) (out : AuthorizationResult)
      → (decide c cfg user relation object context).0 ≡ ok out
      → out.allowed ≡ true
      → (((cfg.opa_decide_url == "") ≡ true) ⊎ IsApproved c cfg user relation object context)
        × IsRelated c cfg user relation object context
  unfolding decide
  decide-granted user relation object context out = elim (Bool-cases (cfg.opa_decide_url == "")) [
    | inl off ↦
        rw off (λ h a. (inl refl, ask_fga-IsRelated c cfg user relation object context out h a))
    | inr on ↦ rw on (λ h a.
        let both =
          opa_then_fga (ask_opa c cfg user relation object context)
            (ask_fga c cfg user relation object context) out h a in
        (
          inr (ask_opa-IsApproved c cfg user relation object context both.0),
          ask_fga-IsRelated c cfg user relation object context out both.1 a,
        ))
  ]

  -- A request is allowed only if its user, relation and object are not blank, OPA has answered it with 200
  -- and yes (or is not configured), and OpenFGA has answered it with 200 and yes. So a service that
  -- cannot be reached, another status and a body that does not decode never lead to an allowed request.
  pub check_authorization-IsGranted :
      (input : AuthorizationRequest) (out : AuthorizationResult)
      → (check_authorization c cfg input).0 ≡ ok out
      → out.allowed ≡ true
      → IsGranted c cfg input
  unfolding check_authorization
  check_authorization-IsGranted input out = elim (Bool-cases (trim_space input.user == "")) [
    | inl blank ↦ rw blank (λ h a. cc)
    | inr u ↦ elim (Bool-cases (trim_space input.relation == "")) [
      | inl blank ↦ rw (u, blank) (λ h a. cc)
      | inr r ↦ elim (Bool-cases (trim_space input.object == "")) [
        | inl blank ↦ rw (u, r, blank) (λ h a. cc)
        | inr o ↦
            rw (u, r, o)
              (λ h a.
                let d =
                  decide-granted (trim_space input.user)
                    (map_action_to_relation c (trim_space input.relation)) (trim_space input.object)
                    input.context out h a in
                record {
                  user_given = u;
                  relation_given = r;
                  object_given = o;
                  policy = d.0;
                  tuple = d.1;
                })
      ]
    ]
  ]
