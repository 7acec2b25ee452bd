-- ===== src/Authorization.antt =====
-- Authorisation: src/razortrust/authorization.py (`LocalAuthorizer`, and the OPA client after its
-- request), with `Principal` and the request and decision of src/razortrust/domain.py.
pub mod Access
use razor_trust.Common.Exec.{Result, ok, err, authorization_unavailable}
use razor_trust.Common.{
  ℕ, zero, suc, ◌+◌, ◌-◌, ◌*◌, ◌/◌, ◌%◌, ◌≤◌, ◌<◌, String, ◌≡◌, refl, sym, ap, ◌∙◌, ◌≢◌, ◌↔◌, ◌⊎◌,
  inl, inr, Bool, true, false, not, ◌&&◌, ◌||◌, Option, none, some, List, [], ◌∷◌, ◌++◌, map, arith,
  str_eq, eq_iff, ltb, leb, ◌==◌, if◌then◌else◌, is_some, ==_iff, ==_refl, Bool-cases, Option-cases,
  length, take, replicate, last, length-append, All, All-append, All_mono,
}
use razor_trust.Common.Exec.{
  Exception, Result, ok, err, and_then, Exec, pure, raise, lift, gets, or_raise, modify, raise_if,
  ◌>>=◌, ◌>>◌, Result-cases, hold_not_found, invalid_transition, key_error, arithmetic_error,
  runtime_error, value_error, audit_format_error, policy_unavailable, authorization_unavailable,
  assertion_error, index_error,
}
use razor_trust.Common.Dict.{Dict, lookup, insert, lookup-insert, lookup-empty}
use razor_trust.Common.Platform.{Platform, IsTotal}
use razor_trust.Domain.{
  evidence_service, risk_analyst, admin, risk_service, merchant, role_eq, ActorRole, HoldDecision,
  release, evidence_needed, HoldState, opened, awaiting_evidence, evidence_submitted, resolved,
  human_review, denied,
}

pub record Principal : Type 0 where
  pub id : String
  pub role : ActorRole
  pub merchant_id : Option String

pub record AuthorizationRequest : Type 0 where
  pub principal : Principal
  pub action : String
  pub resource_type : String
  pub resource_id : Option String
  pub merchant_id : Option String

pub record AuthorizationDecision : Type 0 where
  pub allowed : Bool
  pub reasons : List String
  pub policy_version : String

-- `_roles_by_action`
abbrev pub roles_by_action : List (String × List ActorRole)
roles_by_action =
    ("CREATE_HOLD", merchant ∷ risk_service ∷ admin ∷ [])
    ∷ ("EVALUATE_HOLD", risk_analyst ∷ risk_service ∷ admin ∷ [])
    ∷ ("VIEW_HOLD", merchant ∷ risk_analyst ∷ risk_service ∷ admin ∷ [])
    ∷ ("LIST_HOLDS", merchant ∷ risk_analyst ∷ risk_service ∷ admin ∷ [])
    ∷ ("SUBMIT_EVIDENCE", merchant ∷ evidence_service ∷ admin ∷ [])
    ∷ ("VIEW_AUDIT", risk_analyst ∷ admin ∷ [])
    ∷ ("VIEW_OPERATOR_DASHBOARD", risk_analyst ∷ admin ∷ [])
    ∷ ("CHECK_POLICY", risk_service ∷ admin ∷ [])
    ∷ ("RECORD_ANALYST_OUTCOME", risk_analyst ∷ admin ∷ [])
    ∷ ("VIEW_INTEGRATION", risk_analyst ∷ risk_service ∷ admin ∷ [])
    ∷ ("MANAGE_INTEGRATION", risk_service ∷ admin ∷ [])
    ∷ ("SUBMIT_TELEMETRY", merchant ∷ risk_service ∷ admin ∷ [])
    ∷ ("VIEW_FEATURE_CONTRACT", risk_analyst ∷ risk_service ∷ admin ∷ [])
    ∷ ("CREATE_CHECKOUT", merchant ∷ risk_service ∷ admin ∷ [])
    ∷ ("VERIFY_CHECKOUT", merchant ∷ risk_service ∷ admin ∷ [])
    ∷ []

-- `table.get(action, set())`
unfoldable pub allowed_roles : String → List (String × List ActorRole) → List ActorRole
allowed_roles action [] = []
allowed_roles action ((a, roles) ∷ t) = if str_eq a action then roles else allowed_roles action t

unfoldable pub has_role : ActorRole → List ActorRole → Bool
has_role r [] = false
has_role r (x ∷ xs) = role_eq r x || has_role r xs

abbrev local_version : String
local_version = "api-authz-local@1"

abbrev deny : String → AuthorizationDecision
deny reason = record { allowed = false; reasons = reason ∷ []; policy_version = local_version }

abbrev permit : AuthorizationDecision
permit = record { allowed = true; reasons = "AUTHORIZED" ∷ []; policy_version = local_version }

-- `not m`, for `str | None`
abbrev pub is_blank : Option String → Bool
is_blank none = true
is_blank (some s) = str_eq s ""

-- `==`, for `str | None`
abbrev pub same_merchant : Option String → Option String → Bool
same_merchant none none = true
same_merchant none (some b) = false
same_merchant (some a) none = false
same_merchant (some a) (some b) = str_eq a b

-- `LocalAuthorizer.authorize`
unfoldable pub authorize : AuthorizationRequest → AuthorizationDecision
authorize r =
    if not (has_role r.principal.role (allowed_roles r.action roles_by_action))
    then deny "ROLE_NOT_ALLOWED"
    else if role_eq r.principal.role merchant
        && (is_blank r.principal.merchant_id
            || not (same_merchant r.merchant_id r.principal.merchant_id))
    then deny "MERCHANT_RESOURCE_MISMATCH"
    else permit

-- What comes back from OPA: a transport error, a body that is no object, a `result` that is missing or
-- no decision, or one that is.
pub data AuthorizationReply : Type 0 where
  http_error no_object invalid_result : AuthorizationReply
  answered : AuthorizationDecision → AuthorizationReply

-- `OpaAuthorizer.authorize`, after the request: every failure is `AuthorizationUnavailable`.
unfoldable pub opa_authorize : AuthorizationReply → Result AuthorizationDecision
opa_authorize (answered d) = ok d
opa_authorize _ = err authorization_unavailable
