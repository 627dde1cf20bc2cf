-- ===== src/BillingPolicy/Period.antt =====
-- `resolveBillingUsagePeriod` of billing-policy.ts: the subscription's period, or the calendar month.
use prelude.Base.{ℕ, ◌+◌, ◌≡◌, refl, Option, none, some}
use prelude.Calendar.{date_of, utc_first_of_month}
use prelude.Calendar.Round.{MonthAround, date_of-MonthAround}
use prelude.BillingPolicy.{WorkspaceBilling}

pub record BillingUsagePeriod : Type 0 where
  pub start : ℕ
  pub end : ℕ

abbrev month_of : ℕ → BillingUsagePeriod
month_of now = record {
  start = utc_first_of_month (date_of now).year (date_of now).month;
  end = utc_first_of_month (date_of now).year ((date_of now).month + 1);
}

abbrev period_of : Option ℕ → Option ℕ → ℕ → BillingUsagePeriod
period_of (some start) (some end) now = record { start = start; end = end }
period_of (some start) none now = month_of now
period_of none end now = month_of now

unfoldable pub resolve_billing_usage_period : WorkspaceBilling → ℕ → BillingUsagePeriod
resolve_billing_usage_period billing now = period_of billing.period_start billing.period_end now

abbrev pub IsUsagePeriod : ℕ → Option ℕ → Option ℕ → BillingUsagePeriod → Type 0
IsUsagePeriod now (some start) (some end) period = (period.start ≡ start) × (period.end ≡ end)
IsUsagePeriod now (some start) none period = MonthAround now period.start period.end (date_of now)
IsUsagePeriod now none end period = MonthAround now period.start period.end (date_of now)

-- Usage is counted over the subscription's own period where it has both bounds, and otherwise over a
-- calendar month that contains the instant: it begins at or before it, ends after it and is as long as
-- the days of that month.
pub resolve_usage-IsUsagePeriod :
    (billing : WorkspaceBilling) (now : ℕ)
    → IsUsagePeriod now billing.period_start billing.period_end
        (resolve_billing_usage_period billing now)
unfolding resolve_billing_usage_period
resolve_usage-IsUsagePeriod billing now = bounded billing.period_start billing.period_end
  where
    bounded : (start end : Option ℕ) → IsUsagePeriod now start end (period_of start end now)
    bounded (some start) (some end) = (refl, refl)
    bounded (some start) none = date_of-MonthAround now
    bounded none end = date_of-MonthAround now
