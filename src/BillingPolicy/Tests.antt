-- ===== src/BillingPolicy/Tests.antt =====
-- The billing policy on a paid subscription that is canceled with time left.
use prelude.Base.{◌≡◌, refl, true, false, none, some, [], ◌∷◌}
use prelude.BillingPolicy.{
  unconfigured_billing, BillingSubscriptionStatus, BillingSubscriptionItemSnapshot,
  BillingSubscriptionSnapshot, WorkspaceBilling, newest_item, item_can_remain_effective,
}
use prelude.BillingPolicy.Normalization.{
  normalize_billing_subscription, billing_of, state_of, select_item, effective_paid,
}
use prelude.BillingPolicy.Access.{Grant, access_needs_item}
use prelude.BillingPolicy.Plans.{FollowsAccess, normalize-FollowsAccess}
use prelude.Calendar.{
  date_of, find_year, find_month, utc_first_of_month, days_before_year, days_before_month,
}
use prelude.BillingPolicy.Period.{
  resolve_billing_usage_period, IsUsagePeriod, resolve_usage-IsUsagePeriod,
}

abbrev paid_item : BillingSubscriptionItemSnapshot
paid_item = record {
  id = 2;
  is_default = false;
  is_free_trial = false;
  period_end = some 5000;
  period_start = some 1000;
  plan_id = some 20;
  plan_name = none;
  plan_slug = some 40;
  status = BillingSubscriptionStatus.canceled;
  updated_at = 900;
}

abbrev free_item : BillingSubscriptionItemSnapshot
free_item = record {
  id = 1;
  is_default = true;
  is_free_trial = false;
  period_end = none;
  period_start = none;
  plan_id = none;
  plan_name = none;
  plan_slug = none;
  status = BillingSubscriptionStatus.active;
  updated_at = 800;
}

abbrev subscription : BillingSubscriptionSnapshot
subscription = record {
  id = 9;
  items = free_item ∷ paid_item ∷ [];
  status = BillingSubscriptionStatus.active;
  updated_at = 950;
}

abbrev billing : WorkspaceBilling
billing = normalize_billing_subscription (some subscription) 4000 40

access_needs_item_example : Grant subscription 4000 40 billing
unfolding normalize_billing_subscription select_item billing_of state_of effective_paid newest_item
    item_can_remain_effective
access_needs_item_example = access_needs_item subscription 4000 40 refl

normalize-FollowsAccess_example : FollowsAccess billing
normalize-FollowsAccess_example = normalize-FollowsAccess (some subscription) 4000 40

abbrev monthly : WorkspaceBilling
monthly = unconfigured_billing 1714732200000

usage_period_of_may :
    resolve_billing_usage_period monthly 1714732200000
    ≡ record { start = 1714521600000; end = 1717200000000 }
unfolding resolve_billing_usage_period date_of find_year find_month utc_first_of_month
    days_before_year days_before_month unconfigured_billing
usage_period_of_may = refl

resolve_usage-IsUsagePeriod_example :
    IsUsagePeriod 1714732200000 monthly.period_start monthly.period_end
      (resolve_billing_usage_period monthly 1714732200000)
resolve_usage-IsUsagePeriod_example = resolve_usage-IsUsagePeriod monthly 1714732200000
