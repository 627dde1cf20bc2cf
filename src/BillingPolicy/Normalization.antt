-- ===== src/BillingPolicy/Normalization.antt =====
-- packages/billing/src/billing-policy.ts: a subscription's snapshot as the billing of its workspace.
use prelude.Base.{
  ℕ, Bool, true, false, not, ◌&&◌, ◌||◌, Option, none, some, ltb, if◌then◌else◌, filter, is_key,
}
use prelude.BillingPolicy.{
  WorkspacePlanKey, workspace_plan_catalog, WorkspaceBillingState, BillingSubscriptionStatus,
  BillingSubscriptionItemSnapshot, BillingSubscriptionSnapshot, PlanName, WorkspaceBilling,
  is_past_due, is_canceled, is_active, is_upcoming, is_after, is_reached, item_can_remain_effective,
  newest_item, unavailable_billing, v1_workspace, trialing, unavailable, supplied, free_plan,
  v1_workspace_plan, unavailable,
}

abbrev pub canceled_still_effective : BillingSubscriptionItemSnapshot → ℕ → Bool
canceled_still_effective item now = is_canceled item.status && is_after item.period_end now

abbrev pub is_effective : BillingSubscriptionItemSnapshot → ℕ → Bool
is_effective item now =
    is_active item.status
    || canceled_still_effective item now
    || is_upcoming item.status && is_reached item.period_start now

abbrev pub is_free_plan : WorkspacePlanKey → Bool
is_free_plan WorkspacePlanKey.free = true
is_free_plan _ = false

abbrev pub is_v1_plan : WorkspacePlanKey → Bool
is_v1_plan v1_workspace = true
is_v1_plan _ = false

abbrev pub is_unknown_plan : WorkspacePlanKey → Bool
is_unknown_plan WorkspacePlanKey.unknown = true
is_unknown_plan _ = false

unfoldable pub state_of :
    BillingSubscriptionStatus
    → BillingSubscriptionItemSnapshot
    → WorkspacePlanKey
    → ℕ
    → WorkspaceBillingState
state_of subscription_status selected plan_key now =
    if is_past_due selected.status || is_past_due subscription_status
    then WorkspaceBillingState.past_due
    else if canceled_still_effective selected now
    then WorkspaceBillingState.canceled
    else if is_effective selected now && selected.is_free_trial
    then trialing
    else if is_effective selected now && is_free_plan plan_key
    then WorkspaceBillingState.free
    else if is_effective selected now && is_v1_plan plan_key
    then WorkspaceBillingState.active
    else unavailable

abbrev pub grants_access : WorkspaceBillingState → Bool
grants_access WorkspaceBillingState.active = true
grants_access WorkspaceBillingState.canceled = true
grants_access WorkspaceBillingState.free = true
grants_access trialing = true
grants_access _ = false

-- `selected.planName ?? (planKey === "free" ? "Free" : "V1 Workspace")`
abbrev name_of : Option ℕ → WorkspacePlanKey → PlanName
name_of (some name) plan_key = supplied name
name_of none plan_key = if is_free_plan plan_key then free_plan else v1_workspace_plan

unfoldable pub billing_of :
    BillingSubscriptionSnapshot
    → BillingSubscriptionItemSnapshot
    → WorkspacePlanKey
    → ℕ
    → WorkspaceBilling
billing_of subscription selected plan_key now =
    let state = state_of subscription.status selected plan_key now in
    let access_allowed = not (is_unknown_plan plan_key) && grants_access state in
    record {
      access_allowed = access_allowed;
      entitlements =
          workspace_plan_catalog (if access_allowed then plan_key else WorkspacePlanKey.unknown);
      is_free_trial = selected.is_free_trial;
      period_end = selected.period_end;
      period_start = selected.period_start;
      plan_id = selected.plan_id;
      plan_key = plan_key;
      plan_name = name_of selected.plan_name plan_key;
      plan_slug = selected.plan_slug;
      source_updated_at =
          (if ltb subscription.updated_at selected.updated_at
            then selected.updated_at
            else subscription.updated_at);
      state = state;
      subscription_id = some subscription.id;
      subscription_item_id = some selected.id;
      subscription_item_status = some selected.status;
      subscription_status = some subscription.status;
    }

-- `paidCandidate && itemCanRemainEffective(paidCandidate, now) ? paidCandidate : undefined`
unfoldable pub effective_paid :
    Option BillingSubscriptionItemSnapshot → ℕ → Option BillingSubscriptionItemSnapshot
effective_paid none now = none
effective_paid (some candidate) now =
    if item_can_remain_effective candidate now then some candidate else none

-- `paidItem ?? defaultItem`, with the plan of the choice.
unfoldable pub select_item :
    BillingSubscriptionSnapshot
    → Option BillingSubscriptionItemSnapshot
    → Option BillingSubscriptionItemSnapshot
    → ℕ
    → WorkspaceBilling
select_item subscription (some paid) default_item now =
    billing_of subscription paid v1_workspace now
select_item subscription none (some item) now =
    billing_of subscription item
      (if item.is_default then WorkspacePlanKey.free else WorkspacePlanKey.unknown) now
select_item subscription none none now =
    unavailable_billing subscription.updated_at (some subscription.id) (some subscription.status)

unfoldable pub normalize_billing_subscription :
    Option BillingSubscriptionSnapshot → ℕ → ℕ → WorkspaceBilling
normalize_billing_subscription none now paid_plan_slug = unavailable_billing now none none
normalize_billing_subscription (some subscription) now paid_plan_slug =
    let paid_candidate =
      newest_item (filter (λ item. is_key paid_plan_slug item.plan_slug) subscription.items) in
    let default_item = newest_item (filter (λ item. item.is_default) subscription.items) in
    select_item subscription (effective_paid paid_candidate now) default_item now
