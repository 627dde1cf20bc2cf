-- ===== src/Stripe/Reprocess/Report.antt =====
-- The deliveries and the counts of a backfill pass.
use prelude.Base.{
  ℕ, ◌+◌, ◌≡◌, Bool, true, false, Option, none, some, List, [], ◌∷◌, ◌==◌, length, filter, map,
  if◌then◌else◌,
}
use prelude.Stripe.{
  Reply, reply, raised, Store, StripeEvent, StripeWebhookEvent, StripeWebhookStatus, processed,
  ignored, needs_admin,
}
use prelude.Stripe.Webhook.{Delivery, deliver}
use prelude.Stripe.Webhook.Deliveries.{deliver_all}
use prelude.Stripe.Reprocess.{StripeEventReprocessReport}

-- The payload of a row, where it is the event that the row is of, before the others.
abbrev pub with_own : ℕ → Option StripeEvent → List StripeEvent → List StripeEvent
with_own id none rest = rest
with_own id (some event) rest = if event.id == id then event ∷ rest else rest

unfoldable pub own_events : List StripeWebhookEvent → List StripeEvent
own_events [] = []
own_events (row ∷ rows) = with_own row.stripe_event_id row.payload (own_events rows)

-- What each of a sequence of deliveries answers.
unfoldable pub replies : List Delivery → Store → List (Reply StripeWebhookStatus)
replies [] s = []
replies (d ∷ ds) s = (deliver d s).0 ∷ replies ds (deliver d s).1

abbrev pub is_processed : Reply StripeWebhookStatus → Bool
is_processed (reply processed) = true
is_processed _ = false

abbrev pub is_parked_reply : Reply StripeWebhookStatus → Bool
is_parked_reply (reply needs_admin) = true
is_parked_reply _ = false

abbrev pub is_ignored_reply : Reply StripeWebhookStatus → Bool
is_ignored_reply (reply ignored) = true
is_ignored_reply _ = false

abbrev pub is_raised : Reply StripeWebhookStatus → Bool
is_raised (raised e) = true
is_raised _ = false

abbrev pub count : (Reply StripeWebhookStatus → Bool) → List (Reply StripeWebhookStatus) → ℕ
count p answers = length (filter p answers)

-- What deliveries for `n` rows add to a report, by their answers; a row without a delivery has failed.
pub record Tallies (n : ℕ) (answers : List (Reply StripeWebhookStatus))
    (before after : StripeEventReprocessReport) : Type 0 where
  pub reprocessed : after.reprocessed ≡ before.reprocessed + length answers
  pub processed : after.processed ≡ before.processed + count is_processed answers
  pub needs_admin : after.needs_admin ≡ before.needs_admin + count is_parked_reply answers
  pub still_ignored : after.still_ignored ≡ before.still_ignored + count is_ignored_reply answers
  pub failed : after.failed + length answers ≡ before.failed + count is_raised answers + n

-- A pass over rows from a report and a store: its deliveries, and the report after it.
abbrev pub IsPass :
    List StripeWebhookEvent
    → StripeEventReprocessReport
    → Store
    → StripeEventReprocessReport × Store
    → Type 0
IsPass rows r s pass =
    (ds : List Delivery) × (map (λ (d : Delivery). d.event) ds ≡ own_events rows)
    × (pass.1 ≡ deliver_all ds s)
    × Tallies (length rows) (replies ds s) r pass.0

with_claimed : Option StripeEvent → List StripeEvent → List StripeEvent
with_claimed none rest = rest
with_claimed (some event) rest = event ∷ rest
