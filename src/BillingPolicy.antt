-- ===== src/BillingPolicy.antt =====
-- packages/billing/src/billing-policy.ts: what a workspace's subscription allows. Ids, slugs and
-- names that the billing service supplies are keys; instants are milliseconds.
pub mod Normalization
pub mod Entitlement
pub mod Access
pub mod Plans
pub mod Limits
pub mod Period
pub mod Tests
use prelude.Base.{
  ℕ, Bool, true, false, not, ◌&&◌, ◌||◌, Option, none, some, List, ltb, leb, if◌then◌else◌, filter,
  head?, is_key, ◌==◌,
}
use prelude.Base.Int.{ℤ, sub_ℕ}
use prelude.CreditLots.Sort.{sort}

pub record WorkspacePlanEntitlements : Type 0 where
  pub active_role_limit : ℕ
  pub candidate_interview_limit : ℕ
  pub recording : Bool

pub data WorkspacePlanKey : Type 0 where
  free unknown v1_workspace : WorkspacePlanKey

unfoldable pub workspace_plan_catalog : WorkspacePlanKey → WorkspacePlanEntitlements
workspace_plan_catalog free = record {
  active_role_limit = 1;
  candidate_interview_limit = 5;
  recording = false;
}
workspace_plan_catalog unknown = record {
  active_role_limit = 0;
  candidate_interview_limit = 0;
  recording = false;
}
workspace_plan_catalog v1_workspace = record {
  active_role_limit = 25;
  candidate_interview_limit = 250;
  recording = true;
}

pub data WorkspaceBillingState : Type 0 where
  active canceled free past_due trialing unavailable unconfigured : WorkspaceBillingState

pub data WorkspaceBillingFeature : Type 0 where
  candidate_interviews published_roles recording : WorkspaceBillingFeature

pub data BillingSubscriptionStatus : Type 0 where
  abandoned active canceled ended expired incomplete past_due upcoming : BillingSubscriptionStatus

pub record BillingSubscriptionItemSnapshot : Type 0 where
  pub id : ℕ
  pub is_default : Bool
  pub is_free_trial : Bool
  pub period_end : Option ℕ
  pub period_start : Option ℕ
  pub plan_id : Option ℕ
  pub plan_name : Option ℕ
  pub plan_slug : Option ℕ
  pub status : BillingSubscriptionStatus
  pub updated_at : ℕ

pub record BillingSubscriptionSnapshot : Type 0 where
  pub id : ℕ
  pub items : List BillingSubscriptionItemSnapshot
  pub status : BillingSubscriptionStatus
  pub updated_at : ℕ

-- A name that the billing service supplies, or one of the texts of this file.
pub data PlanName : Type 0 where
  supplied : ℕ → PlanName
  free_plan v1_workspace_plan billing_not_configured billing_unavailable : PlanName

pub record WorkspaceBilling : Type 0 where
  pub access_allowed : Bool
  pub entitlements : WorkspacePlanEntitlements
  pub is_free_trial : Bool
  pub period_end : Option ℕ
  pub period_start : Option ℕ
  pub plan_id : Option ℕ
  pub plan_key : WorkspacePlanKey
  pub plan_name : PlanName
  pub plan_slug : Option ℕ
  pub source_updated_at : ℕ
  pub state : WorkspaceBillingState
  pub subscription_id : Option ℕ
  pub subscription_item_id : Option ℕ
  pub subscription_item_status : Option BillingSubscriptionStatus
  pub subscription_status : Option BillingSubscriptionStatus

abbrev pub is_past_due : BillingSubscriptionStatus → Bool
is_past_due BillingSubscriptionStatus.past_due = true
is_past_due _ = false

abbrev pub is_canceled : BillingSubscriptionStatus → Bool
is_canceled BillingSubscriptionStatus.canceled = true
is_canceled _ = false

abbrev pub is_active : BillingSubscriptionStatus → Bool
is_active BillingSubscriptionStatus.active = true
is_active _ = false

abbrev pub is_upcoming : BillingSubscriptionStatus → Bool
is_upcoming upcoming = true
is_upcoming _ = false

-- `Boolean(date && date > now)` and `Boolean(date && date <= now)`
abbrev pub is_after : Option ℕ → ℕ → Bool
is_after none now = false
is_after (some date) now = ltb now date

abbrev pub is_reached : Option ℕ → ℕ → Bool
is_reached none now = false
is_reached (some date) now = leb date now

unfoldable pub item_can_remain_effective : BillingSubscriptionItemSnapshot → ℕ → Bool
item_can_remain_effective item now =
    if is_active item.status || is_past_due item.status
    then true
    else if is_upcoming item.status
    then is_reached item.period_start now
    else is_canceled item.status && is_after item.period_end now

abbrev pub by_newest : BillingSubscriptionItemSnapshot → BillingSubscriptionItemSnapshot → ℤ
by_newest left right = sub_ℕ right.updated_at left.updated_at

unfoldable pub newest_item :
    List BillingSubscriptionItemSnapshot → Option BillingSubscriptionItemSnapshot
newest_item items = head? (sort by_newest items)

unfoldable pub unavailable_billing :
    ℕ → Option ℕ → Option BillingSubscriptionStatus → WorkspaceBilling
unavailable_billing now subscription_id subscription_status = record {
  access_allowed = false;
  entitlements = workspace_plan_catalog WorkspacePlanKey.unknown;
  is_free_trial = false;
  period_end = none;
  period_start = none;
  plan_id = none;
  plan_key = WorkspacePlanKey.unknown;
  plan_name = billing_unavailable;
  plan_slug = none;
  source_updated_at = now;
  state = unavailable;
  subscription_id = subscription_id;
  subscription_item_id = none;
  subscription_item_status = none;
  subscription_status = subscription_status;
}

abbrev pub max_safe_integer : ℕ
max_safe_integer = 9007199254740991

unfoldable pub unconfigured_billing : ℕ → WorkspaceBilling
unconfigured_billing now = record {
  access_allowed = true;
  entitlements = record {
    active_role_limit = max_safe_integer;
    candidate_interview_limit = max_safe_integer;
    recording = true;
  };
  is_free_trial = false;
  period_end = none;
  period_start = none;
  plan_id = none;
  plan_key = WorkspacePlanKey.unknown;
  plan_name = billing_not_configured;
  plan_slug = none;
  source_updated_at = now;
  state = unconfigured;
  subscription_id = none;
  subscription_item_id = none;
  subscription_item_status = none;
  subscription_status = none;
}

pub data BillingRuntime : Type 0 where
  configured unavailable unconfigured : BillingRuntime

-- `production` is the key of the text "production".
unfoldable pub resolve_billing_runtime : ℕ → Option ℕ → Bool → BillingRuntime
resolve_billing_runtime production app_env billing_enabled =
    if billing_enabled
    then configured
    else if is_key production app_env
    then BillingRuntime.unavailable
    else BillingRuntime.unconfigured
