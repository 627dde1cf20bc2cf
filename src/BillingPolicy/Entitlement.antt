-- ===== src/BillingPolicy/Entitlement.antt =====
-- packages/billing/src/billing-policy.ts: what a workspace's billing allows of a feature.
use prelude.Base.{ℕ, Bool, true, false, not, Option, none, some, leb, if◌then◌else◌}
use prelude.BillingPolicy.{
  WorkspaceBillingState, WorkspaceBillingFeature, recording, WorkspaceBilling, candidate_interviews,
  published_roles,
}

pub data EntitlementCode : Type 0 where
  billing_unavailable feature_not_in_plan usage_limit_reached : EntitlementCode

pub data WorkspaceEntitlementDecision : Type 0 where
  allowed : Option ℕ → ℕ → WorkspaceEntitlementDecision
  denied : EntitlementCode → Option ℕ → ℕ → WorkspaceEntitlementDecision

abbrev pub is_unconfigured : WorkspaceBillingState → Bool
is_unconfigured WorkspaceBillingState.unconfigured = true
is_unconfigured _ = false

unfoldable pub limit_for : WorkspaceBilling → WorkspaceBillingFeature → Option ℕ
limit_for billing recording = none
limit_for billing published_roles =
    if is_unconfigured billing.state then none else some billing.entitlements.active_role_limit
limit_for billing candidate_interviews =
    if is_unconfigured billing.state
    then none
    else some billing.entitlements.candidate_interview_limit

abbrev pub is_reached_limit : Option ℕ → ℕ → Bool
is_reached_limit none usage = false
is_reached_limit (some limit) usage = leb limit usage

abbrev is_recording : WorkspaceBillingFeature → Bool
is_recording recording = true
is_recording _ = false

unfoldable pub evaluate_workspace_entitlement :
    WorkspaceBilling → WorkspaceBillingFeature → ℕ → WorkspaceEntitlementDecision
evaluate_workspace_entitlement billing feature usage =
    if is_unconfigured billing.state
    then allowed none usage
    else if not billing.access_allowed
    then denied EntitlementCode.billing_unavailable (limit_for billing feature) usage
    else if is_recording feature
    then (if billing.entitlements.recording
        then allowed none usage
        else denied feature_not_in_plan none usage)
    else if is_reached_limit (limit_for billing feature) usage
    then denied usage_limit_reached (limit_for billing feature) usage
    else allowed (limit_for billing feature) usage
