-- ===== src/Authorization/Access.antt =====
-- Who may do what.
use mathlib.Core.Path.{subst}
use mathlib.Core.List.{Memᴰ}
use mathlib.Core.List.Memᴰ
use razor_trust.Common.{if◌then◌else◌, sym, inl, inr, All, Bool-cases, List}
use razor_trust.Domain.{evidence_service, risk_service}
use razor_trust.Common.{
  String, ◌≡◌, refl, ◌≢◌, ◌↔◌, ◌⊎◌, true, false, Option, none, some, [], ◌∷◌, arith, eq_iff,
}
use razor_trust.Authorization.{
  str_eq, List, All, ActorRole, admin, role_eq, risk_analyst, roles_by_action, has_role,
  allowed_roles, same_merchant, is_blank, merchant, AuthorizationRequest, authorize,
}

-- A merchant is allowed nothing on the resources of anybody else, whatever the action: an allowed
-- request of a merchant names a merchant that is not blank and is the resource's.
pub merchant_isolation :
    (r : AuthorizationRequest)
    → r.principal.role ≡ merchant
    → (authorize r).allowed ≡ true
    → (m : String) × (r.principal.merchant_id ≡ some m) × (r.merchant_id ≡ some m) × (m ≢ "")
unfolding authorize
merchant_isolation r role ok' =
    go r.principal.merchant_id r.merchant_id (ground arith) (ground arith)
  where
    go :
        (mine theirs : Option String)
        → is_blank mine ≡ false
        → same_merchant theirs mine ≡ true
        → (m : String) × (mine ≡ some m) × (theirs ≡ some m) × (m ≢ "")
    go none theirs blank same = cc
    go (some m) none blank same = cc
    go (some m) (some t) blank same =
        (m, refl, ground (arith, eq_iff t m), ground (arith, eq_iff m ""))

-- The actions of each role, which are listed by role here and by action in the code.
abbrev pub actions_of : ActorRole → List String
actions_of merchant =
    "CREATE_HOLD" ∷ "VIEW_HOLD" ∷ "LIST_HOLDS" ∷ "SUBMIT_EVIDENCE" ∷ "SUBMIT_TELEMETRY"
    ∷ "CREATE_CHECKOUT" ∷ "VERIFY_CHECKOUT" ∷ []
actions_of risk_analyst =
    "EVALUATE_HOLD" ∷ "VIEW_HOLD" ∷ "LIST_HOLDS" ∷ "VIEW_AUDIT" ∷ "VIEW_OPERATOR_DASHBOARD"
    ∷ "RECORD_ANALYST_OUTCOME" ∷ "VIEW_INTEGRATION" ∷ "VIEW_FEATURE_CONTRACT" ∷ []
actions_of risk_service =
    "CREATE_HOLD" ∷ "EVALUATE_HOLD" ∷ "VIEW_HOLD" ∷ "LIST_HOLDS" ∷ "CHECK_POLICY"
    ∷ "VIEW_INTEGRATION" ∷ "MANAGE_INTEGRATION" ∷ "SUBMIT_TELEMETRY" ∷ "VIEW_FEATURE_CONTRACT"
    ∷ "CREATE_CHECKOUT" ∷ "VERIFY_CHECKOUT" ∷ []
actions_of evidence_service = "SUBMIT_EVIDENCE" ∷ []
actions_of admin =
    "CREATE_HOLD" ∷ "EVALUATE_HOLD" ∷ "VIEW_HOLD" ∷ "LIST_HOLDS" ∷ "SUBMIT_EVIDENCE" ∷ "VIEW_AUDIT"
    ∷ "VIEW_OPERATOR_DASHBOARD" ∷ "CHECK_POLICY" ∷ "RECORD_ANALYST_OUTCOME" ∷ "VIEW_INTEGRATION"
    ∷ "MANAGE_INTEGRATION" ∷ "SUBMIT_TELEMETRY" ∷ "VIEW_FEATURE_CONTRACT" ∷ "CREATE_CHECKOUT"
    ∷ "VERIFY_CHECKOUT" ∷ []

-- The table read by role.
actions_in : ActorRole → List (String × List ActorRole) → List String
actions_in role [] = []
actions_in role ((action, roles) ∷ t) =
    let rest = actions_in role t in if has_role role roles then action ∷ rest else rest

actions_in-table : (role : ActorRole) → actions_in role roles_by_action ≡ actions_of role
unfolding actions_in has_role
actions_in-table merchant = refl
actions_in-table risk_analyst = refl
actions_in-table risk_service = refl
actions_in-table evidence_service = refl
actions_in-table admin = refl

-- A role that the table gives an action is listed with it.
granted-listed :
    (role : ActorRole) (action : String) (t : List (String × List ActorRole))
    → has_role role (allowed_roles action t) ≡ true
    → Memᴰ action (actions_in role t)
unfolding allowed_roles has_role actions_in
granted-listed role action [] h = ground arith
granted-listed role action ((a, roles) ∷ t) h = elim (Bool-cases (str_eq a action)) [
  | inl same ↦ rw (rw same at h) (Memᴰ.head (sym ((eq_iff a action).0 same)))
  | inr other ↦
      let rest = granted-listed role action t (rw other at h) in
      elim (Bool-cases (has_role role roles)) [
        | inl given ↦ rw given (Memᴰ.tail rest)
        | inr kept ↦ rw kept rest
      ]
]

-- Every listed action is given.
abbrev Grants : ActorRole → String → Type 0
Grants role action = has_role role (allowed_roles action roles_by_action) ≡ true

listed-granted : (role : ActorRole) → All (Grants role) (actions_of role)
unfolding allowed_roles has_role
listed-granted merchant = (refl, (refl, (refl, (refl, (refl, (refl, (refl, tt)))))))
listed-granted risk_analyst = (refl, (refl, (refl, (refl, (refl, (refl, (refl, (refl, tt))))))))
listed-granted risk_service =
    (refl, (refl, (refl, (refl, (refl, (refl, (refl, (refl, (refl, (refl, (refl, tt)))))))))))
listed-granted evidence_service = (refl, tt)
listed-granted admin = (
  refl,
  (
    refl,
    (
      refl,
      (
        refl,
        (refl, (refl, (refl, (refl, (refl, (refl, (refl, (refl, (refl, (refl, (refl, tt))))))))))),
      ),
    ),
  ),
)

-- An action that is listed is given.
All-listed {ℓ} : {A : Type ℓ} (P : A → Type 0) (xs : List A) (a : A) → All P xs → Memᴰ a xs → P a
All-listed P [] a h m = elim (Memᴰ.not-nil m) [ ]
All-listed P (x ∷ xs) a h m = elim (Memᴰ.cases_cons m) [
  | inl e ↦ subst P (sym e) h.0
  | inr rest ↦ All-listed P xs a h.1 rest
]

Grants-iff :
    (role : ActorRole) (action : String) → Grants role action ↔ Memᴰ action (actions_of role)
Grants-iff role action = (
  λ h. rw (← actions_in-table role) (granted-listed role action roles_by_action h),
  All-listed (Grants role) (actions_of role) action (listed-granted role),
)

-- The two tests of `authorize`.
authorize_tests :
    (r : AuthorizationRequest)
    → ((authorize r).allowed ≡ true) ↔ (
        (has_role r.principal.role (allowed_roles r.action roles_by_action) ≡ true)
        × ((role_eq r.principal.role merchant ≡ false)
            ⊎ ((is_blank r.principal.merchant_id ≡ false)
                × (same_merchant r.merchant_id r.principal.merchant_id ≡ true))))
unfolding authorize
authorize_tests r = ground arith

-- The resource is the merchant's own.
abbrev OwnResource : Option String → Option String → Type 0
OwnResource mine theirs = (m : String) × (mine ≡ some m) × (theirs ≡ some m) × (m ≢ "")

OwnResource-iff :
    (mine theirs : Option String)
    → ((is_blank mine ≡ false) × (same_merchant theirs mine ≡ true)) ↔ OwnResource mine theirs
OwnResource-iff none theirs = (λ h. ground arith, λ w. let (n, e, f, rest) = w in ground arith)
OwnResource-iff (some m) none = (λ h. ground arith, λ w. let (n, e, f, rest) = w in ground arith)
OwnResource-iff (some m) (some t) = (
  λ h. (m, refl, ground (arith, eq_iff t m), ground (arith, eq_iff m "")),
  λ w. let (n, e, f, g) = w in ground (arith, eq_iff t m, eq_iff m ""),
)

merchant_iff : (role : ActorRole) → (role_eq role merchant ≡ false) ↔ (role ≢ merchant)
merchant_iff merchant = (λ h. ground arith, λ h. absurd (h refl))
merchant_iff risk_analyst = (λ h e. ground arith, λ h. refl)
merchant_iff risk_service = (λ h e. ground arith, λ h. refl)
merchant_iff evidence_service = (λ h e. ground arith, λ h. refl)
merchant_iff admin = (λ h e. ground arith, λ h. refl)

-- A request is allowed exactly when its action is one of those listed for the role of the
-- principal, and the principal is no merchant or names a merchant that is not empty and is that
-- of the resource; an action that is listed for no role is allowed to nobody.
pub authorize_iff :
    (r : AuthorizationRequest)
    → ((authorize r).allowed ≡ true) ↔ (
        Memᴰ r.action (actions_of r.principal.role)
        × ((r.principal.role ≢ merchant)
            ⊎ ((m : String) × (r.principal.merchant_id ≡ some m)
                × (r.merchant_id ≡ some m)
                × (m ≢ ""))))
authorize_iff r =
    let granted = Grants-iff r.principal.role r.action in
    let outside = merchant_iff r.principal.role in
    let own = OwnResource-iff r.principal.merchant_id r.merchant_id in
    (
      λ h.
          let (g, rest) = (authorize_tests r).0 h in
          (granted.0 g, elim rest [ inl a ↦ inl (outside.0 a) | inr b ↦ inr (own.0 b) ]),
      λ h.
          (authorize_tests r).1
            (granted.1 h.0, elim h.1 [ inl a ↦ inl (outside.1 a) | inr b ↦ inr (own.1 b) ]),
    )

reviewer_roles :
    (role : ActorRole)
    → has_role role (risk_analyst ∷ admin ∷ []) ≡ true
    → (role ≡ risk_analyst) ⊎ (role ≡ admin)
unfolding has_role
reviewer_roles role h = ground arith

-- Only a risk analyst or an administrator is allowed to record the outcome of a review: no merchant
-- and no service is.
reviewers :
    (r : AuthorizationRequest)
    → r.action ≡ "RECORD_ANALYST_OUTCOME"
    → (authorize r).allowed ≡ true
    → (r.principal.role ≡ risk_analyst) ⊎ (r.principal.role ≡ admin)
unfolding allowed_roles
reviewers r act ok' = reviewer_roles r.principal.role (rw act at (((authorize_tests r).0 ok').0))
