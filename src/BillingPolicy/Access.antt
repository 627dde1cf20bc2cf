-- ===== src/BillingPolicy/Access.antt =====
-- When a subscription allows access, and on which item.
use prelude.Base.{
  ℕ, ◌<◌, ◌≤◌, ◌≡◌, ◌⊎◌, refl, Bool, true, false, not, ◌&&◌, ◌||◌, Option, none, some, List, arith,
  if◌then◌else◌, inl, inr, All, In, In-All, All-filter, filter, head?, is_key, subst, [], ◌∷◌,
}
use prelude.CreditLots.Sort.{sort, All-sort}
use prelude.BillingPolicy.{
  BillingSubscriptionStatus, BillingSubscriptionItemSnapshot, BillingSubscriptionSnapshot,
  WorkspaceBilling, WorkspacePlanKey, v1_workspace, WorkspaceBillingState, is_past_due, is_canceled,
  is_active, is_upcoming, is_after, is_reached, by_newest, newest_item, unavailable_billing,
}
use prelude.BillingPolicy.Normalization.{
  is_effective, canceled_still_effective, state_of, grants_access, billing_of, effective_paid,
  select_item, normalize_billing_subscription, is_unknown_plan, is_v1_plan, is_free_plan,
}

-- An item in force at an instant: active, canceled with time left, or upcoming and begun.
abbrev pub IsInForce : ℕ → BillingSubscriptionItemSnapshot → Type 0
IsInForce now item =
    (item.status ≡ BillingSubscriptionStatus.active)
    ⊎ ((item.status ≡ BillingSubscriptionStatus.canceled)
        × (end : ℕ) × (item.period_end ≡ some end)
        × (now < end))
    ⊎ ((item.status ≡ BillingSubscriptionStatus.upcoming)
        × (begin : ℕ) × (item.period_start ≡ some begin)
        × (begin ≤ now))

active_status :
    (s : BillingSubscriptionStatus) → is_active s ≡ true → s ≡ BillingSubscriptionStatus.active
active_status s h = ground arith

canceled_status :
    (s : BillingSubscriptionStatus) → is_canceled s ≡ true → s ≡ BillingSubscriptionStatus.canceled
canceled_status s h = ground arith

upcoming_status :
    (s : BillingSubscriptionStatus) → is_upcoming s ≡ true → s ≡ BillingSubscriptionStatus.upcoming
upcoming_status s h = ground arith

after_date :
    (date : Option ℕ) (now : ℕ)
    → is_after date now ≡ true
    → (end : ℕ) × (date ≡ some end) × (now < end)
after_date none now h = cc
after_date (some end) now h = (end, refl, ground arith)

reached_date :
    (date : Option ℕ) (now : ℕ)
    → is_reached date now ≡ true
    → (begin : ℕ) × (date ≡ some begin) × (begin ≤ now)
reached_date none now h = cc
reached_date (some begin) now h = (begin, refl, ground arith)

split_three :
    (a b c d e : Bool)
    → (a || b && c || d && e) ≡ true
    → (a ≡ true) ⊎ ((b ≡ true) × (c ≡ true)) ⊎ ((d ≡ true) × (e ≡ true))
split_three a b c d e h = ground arith

effective-IsInForce :
    (item : BillingSubscriptionItemSnapshot) (now : ℕ)
    → is_effective item now ≡ true
    → IsInForce now item
effective-IsInForce item now h =
    elim (split_three (is_active item.status) (is_canceled item.status)
      (is_after item.period_end now) (is_upcoming item.status) (is_reached item.period_start now)
      h) [
        | inl a ↦ inl (active_status item.status a)
        | inr (inl (c, d)) ↦
            let (end, at, later) = after_date item.period_end now d in
            inr (inl (canceled_status item.status c, end, at, later))
        | inr (inr (u, d)) ↦
            let (begin, at, earlier) = reached_date item.period_start now d in
            inr (inr (upcoming_status item.status u, begin, at, earlier))
      ]

access_bits :
    (p q c a t f v u : Bool)
    → (not u
        && grants_access (
            if p || q
            then WorkspaceBillingState.past_due
            else if c
            then WorkspaceBillingState.canceled
            else if a && t
            then WorkspaceBillingState.trialing
            else if a && f
            then WorkspaceBillingState.free
            else if a && v
            then WorkspaceBillingState.active
            else WorkspaceBillingState.unavailable))
      ≡ true
    → ((c ≡ true) ⊎ (a ≡ true)) × (q ≡ false) × (p ≡ false) × (u ≡ false)
access_bits p q c a t f v u h = ground arith

either_effective :
    (b c d e : Bool) → (c ≡ true) ⊎ ((b || c || d && e) ≡ true) → (b || c || d && e) ≡ true
either_effective b c d e h = ground arith

pub billing_of_effective :
    (subscription : BillingSubscriptionSnapshot) (item : BillingSubscriptionItemSnapshot)
    (plan_key : WorkspacePlanKey) (now : ℕ)
    → (billing_of subscription item plan_key now).access_allowed ≡ true
    → (is_effective item now ≡ true)
      × (is_past_due subscription.status ≡ false)
      × (is_past_due item.status ≡ false)
      × (is_unknown_plan plan_key ≡ false)
unfolding billing_of state_of
billing_of_effective subscription item plan_key now h =
    let (live, settled, settled_item, known_plan) =
      access_bits (is_past_due item.status) (is_past_due subscription.status)
        (canceled_still_effective item now) (is_effective item now) item.is_free_trial
        (is_free_plan plan_key) (is_v1_plan plan_key) (is_unknown_plan plan_key) h in
    (
      either_effective (is_active item.status) (canceled_still_effective item now)
          (is_upcoming item.status) (is_reached item.period_start now) live,
      settled,
      settled_item,
      known_plan,
    )

newest_item-All :
    (P : BillingSubscriptionItemSnapshot → Type 0) (items : List BillingSubscriptionItemSnapshot)
    (item : BillingSubscriptionItemSnapshot)
    → newest_item items ≡ some item
    → All P items
    → P item
unfolding newest_item
newest_item-All P items item h all =
    head_all (sort by_newest items) h (All-sort by_newest P items all)
  where
    head_all :
        (xs : List BillingSubscriptionItemSnapshot) → head? xs ≡ some item → All P xs → P item
    head_all [] e k = cc
    head_all (x ∷ xs) e k = let same : x ≡ item = cc in subst P same k.0

-- What `normalizeBillingSubscription` chose, when access is allowed.
pub record Grant (subscription : BillingSubscriptionSnapshot) (now paid_plan_slug : ℕ)
    (billing : WorkspaceBilling) : Type 0 where
  pub item : BillingSubscriptionItemSnapshot
  pub listed : In item subscription.items
  pub in_force : IsInForce now item
  pub settled : is_past_due subscription.status ≡ false
  pub settled_item : is_past_due item.status ≡ false
  pub plan :
      ((billing.plan_key ≡ v1_workspace) × (is_key paid_plan_slug item.plan_slug ≡ true))
      ⊎ ((billing.plan_key ≡ WorkspacePlanKey.free) × (item.is_default ≡ true))

granted_by :
    (subscription : BillingSubscriptionSnapshot) (item : BillingSubscriptionItemSnapshot)
    (plan_key : WorkspacePlanKey) (now paid_plan_slug : ℕ)
    → In item subscription.items
    → ((plan_key ≡ v1_workspace) × (is_key paid_plan_slug item.plan_slug ≡ true))
      ⊎ ((plan_key ≡ WorkspacePlanKey.free) × (item.is_default ≡ true))
    → (billing_of subscription item plan_key now).access_allowed ≡ true
    → Grant subscription now paid_plan_slug (billing_of subscription item plan_key now)
unfolding billing_of
granted_by subscription item plan_key now paid_plan_slug listed plan h =
    let (live, settled, settled_item, _) = billing_of_effective subscription item plan_key now h in
    record {
      item = item;
      listed = listed;
      in_force = effective-IsInForce item now live;
      settled = settled;
      settled_item = settled_item;
      plan = plan;
    }

effective_paid-some :
    (candidate : Option BillingSubscriptionItemSnapshot) (now : ℕ)
    (item : BillingSubscriptionItemSnapshot)
    → effective_paid candidate now ≡ some item
    → candidate ≡ some item
unfolding effective_paid
effective_paid-some none now item h = cc
effective_paid-some (some c) now item h = ground arith

select_item-Grant :
    (subscription : BillingSubscriptionSnapshot) (now paid_plan_slug : ℕ)
    (paid_item default_item : Option BillingSubscriptionItemSnapshot)
    → ((item : BillingSubscriptionItemSnapshot)
        → paid_item ≡ some item
        → In item subscription.items × (is_key paid_plan_slug item.plan_slug ≡ true))
    → ((item : BillingSubscriptionItemSnapshot)
        → default_item ≡ some item
        → In item subscription.items × (item.is_default ≡ true))
    → (select_item subscription paid_item default_item now).access_allowed ≡ true
    → Grant subscription now paid_plan_slug (select_item subscription paid_item default_item now)
unfolding select_item unavailable_billing billing_of state_of
select_item-Grant subscription now slug (some item) default_item paid other h =
    let (listed, is_paid) = paid item refl in
    granted_by subscription item v1_workspace now slug listed (inl (refl, is_paid)) h
select_item-Grant subscription now slug none (some item) paid other h =
    let (listed, by_default) = other item refl in
    let allowed : (billing_of subscription item WorkspacePlanKey.free now).access_allowed ≡ true =
      rw by_default at h in
    rw by_default (
      granted_by subscription item WorkspacePlanKey.free now slug listed (inr (refl, by_default))
        allowed)
select_item-Grant subscription now slug none none paid other h = cc

-- Access is allowed to a subscription only by one of its items that is in force, neither the item nor
-- the subscription being past due: an item of the paid plan, or a default item, on the free plan.
pub access_needs_item :
    (subscription : BillingSubscriptionSnapshot) (now paid_plan_slug : ℕ)
    → (normalize_billing_subscription (some subscription) now paid_plan_slug).access_allowed ≡ true
    → Grant subscription now paid_plan_slug
        (normalize_billing_subscription (some subscription) now paid_plan_slug)
unfolding normalize_billing_subscription
access_needs_item subscription now slug h =
    let items = subscription.items in
    let paid_candidate = newest_item (filter (λ item. is_key slug item.plan_slug) items) in
    let default_item = newest_item (filter (λ item. item.is_default) items) in
    select_item-Grant subscription now slug (effective_paid paid_candidate now) default_item
      (λ item e.
        newest_item-All (λ i. In i items × (is_key slug i.plan_slug ≡ true))
          (filter (λ i. is_key slug i.plan_slug) items) item
          (effective_paid-some paid_candidate now item e)
          (All-filter (λ i. In i items) (λ i. is_key slug i.plan_slug) items (In-All items)))
      (λ item e.
        newest_item-All (λ i. In i items × (i.is_default ≡ true)) (filter (λ i. i.is_default) items)
          item e (All-filter (λ i. In i items) (λ i. i.is_default) items (In-All items)))
      h
