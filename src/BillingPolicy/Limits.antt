-- ===== src/BillingPolicy/Limits.antt =====
-- What a feature's evaluation allows.
use prelude.Base.{ℕ, ◌<◌, ◌≤◌, ◌≡◌, ◌⊎◌, ◌↔◌, Bool, true, false, arith}
use prelude.BillingPolicy.{
  WorkspaceBilling, WorkspaceBillingFeature, recording, published_roles, candidate_interviews,
}
use prelude.BillingPolicy.Entitlement.{
  WorkspaceEntitlementDecision, allowed, is_unconfigured, limit_for, evaluate_workspace_entitlement,
}

abbrev pub is_allowed : WorkspaceEntitlementDecision → Bool
is_allowed (allowed limit usage) = true
is_allowed _ = false

-- What the plan itself says of a feature at some usage.
abbrev pub IsInPlan : WorkspaceBilling → WorkspaceBillingFeature → ℕ → Type 0
IsInPlan billing recording usage = billing.entitlements.recording ≡ true
IsInPlan billing published_roles usage = usage < billing.entitlements.active_role_limit
IsInPlan billing candidate_interviews usage = usage < billing.entitlements.candidate_interview_limit

-- A workspace whose billing is configured is allowed a feature exactly when its access is, and the
-- plan has the recording or the usage of the counted feature is below the plan's limit; without
-- configured billing every feature is allowed.
pub allowed_iff :
    (billing : WorkspaceBilling) (feature : WorkspaceBillingFeature) (usage : ℕ)
    → (is_allowed (evaluate_workspace_entitlement billing feature usage) ≡ true) ↔ (
        (is_unconfigured billing.state ≡ true)
        ⊎ ((billing.access_allowed ≡ true) × IsInPlan billing feature usage))
unfolding evaluate_workspace_entitlement limit_for
allowed_iff billing recording usage = ground arith
allowed_iff billing published_roles usage = ground arith
allowed_iff billing candidate_interviews usage = ground arith

-- What is allowed at some usage is allowed at every smaller one.
pub allowed_antitone :
    (billing : WorkspaceBilling) (feature : WorkspaceBillingFeature) (usage less : ℕ)
    → less ≤ usage
    → is_allowed (evaluate_workspace_entitlement billing feature usage) ≡ true
    → is_allowed (evaluate_workspace_entitlement billing feature less) ≡ true
unfolding evaluate_workspace_entitlement limit_for
allowed_antitone billing feature usage less h k = ground arith
