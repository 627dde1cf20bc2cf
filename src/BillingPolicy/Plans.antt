-- ===== src/BillingPolicy/Plans.antt =====
-- What a workspace's plan and access entitle it to.
use prelude.Base.{ℕ, ◌≡◌, refl, true, false, Option, none, some, if◌then◌else◌}
use prelude.BillingPolicy.{
  BillingSubscriptionItemSnapshot, BillingSubscriptionSnapshot, WorkspaceBilling, WorkspacePlanKey,
  free, unknown, v1_workspace, WorkspacePlanEntitlements, workspace_plan_catalog,
  unavailable_billing,
}
use prelude.BillingPolicy.Normalization.{
  billing_of, select_item, normalize_billing_subscription, is_unknown_plan,
}
use prelude.BillingPolicy.Access.{billing_of_effective}

-- One role and five interviews on the free plan, 25 roles, 250 interviews and recordings on the paid one.
abbrev pub IsEntitledBy : WorkspacePlanKey → WorkspacePlanEntitlements → Type 0
IsEntitledBy free e =
    (e.active_role_limit ≡ 1) × (e.candidate_interview_limit ≡ 5) × (e.recording ≡ false)
IsEntitledBy v1_workspace e =
    (e.active_role_limit ≡ 25) × (e.candidate_interview_limit ≡ 250) × (e.recording ≡ true)
IsEntitledBy unknown e = ⊥

abbrev pub IsNotEntitled : WorkspacePlanEntitlements → Type 0
IsNotEntitled e =
    (e.active_role_limit ≡ 0) × (e.candidate_interview_limit ≡ 0) × (e.recording ≡ false)

abbrev pub FollowsAccess : WorkspaceBilling → Type 0
FollowsAccess billing =
    (billing.access_allowed ≡ true → IsEntitledBy billing.plan_key billing.entitlements)
    × (billing.access_allowed ≡ false → IsNotEntitled billing.entitlements)

catalog-IsEntitledBy :
    (plan_key : WorkspacePlanKey)
    → is_unknown_plan plan_key ≡ false
    → IsEntitledBy plan_key (workspace_plan_catalog plan_key)
unfolding workspace_plan_catalog
catalog-IsEntitledBy free h = (refl, refl, refl)
catalog-IsEntitledBy v1_workspace h = (refl, refl, refl)
catalog-IsEntitledBy unknown h = cc

billing_of-FollowsAccess :
    (subscription : BillingSubscriptionSnapshot) (item : BillingSubscriptionItemSnapshot)
    (plan_key : WorkspacePlanKey) (now : ℕ)
    → FollowsAccess (billing_of subscription item plan_key now)
unfolding billing_of workspace_plan_catalog
billing_of-FollowsAccess subscription item plan_key now = (
  (λ h.
      let (_, _, _, known_plan) = billing_of_effective subscription item plan_key now h in
      rw h (catalog-IsEntitledBy plan_key known_plan)),
  (λ h. rw h (refl, refl, refl)),
)

select_item-FollowsAccess :
    (subscription : BillingSubscriptionSnapshot)
    (paid_item default_item : Option BillingSubscriptionItemSnapshot) (now : ℕ)
    → FollowsAccess (select_item subscription paid_item default_item now)
unfolding select_item unavailable_billing workspace_plan_catalog
select_item-FollowsAccess subscription (some item) default_item now =
    billing_of-FollowsAccess subscription item v1_workspace now
select_item-FollowsAccess subscription none (some item) now =
    billing_of-FollowsAccess subscription item
      (if item.is_default then WorkspacePlanKey.free else WorkspacePlanKey.unknown) now
select_item-FollowsAccess subscription none none now = ((λ h. cc), (λ _. (refl, refl, refl)))

-- A workspace with access is on the free plan, with one role, five interviews and no recordings, or on
-- the paid one, with 25 roles, 250 interviews and recordings; a workspace without access may have no role,
-- no interview and no recording, whatever its plan, with a subscription or without.
pub normalize-FollowsAccess :
    (subscription : Option BillingSubscriptionSnapshot) (now paid_plan_slug : ℕ)
    → FollowsAccess (normalize_billing_subscription subscription now paid_plan_slug)
unfolding normalize_billing_subscription unavailable_billing workspace_plan_catalog
normalize-FollowsAccess none now slug = ((λ h. cc), (λ _. (refl, refl, refl)))
normalize-FollowsAccess (some subscription) now slug =
    select_item-FollowsAccess subscription _ _ now
