-- ===== src/Stripe/Reprocess.antt =====
-- `reprocessIgnoredStripeEvents` of stripe-webhook.ts: the archived events that were ignored are
-- dispatched again, one after the other. `supply` is what the outside supplies to the delivery of an
-- event in a state. The read of the rows is taken to succeed.
pub mod Report
pub mod Selected
use prelude.Base.{
  ℕ, zero, suc, ◌+◌, Bool, true, false, Option, none, some, List, [], ◌∷◌, ◌==◌, ◌&&◌,
  if◌then◌else◌, filter, any,
}
use prelude.Base.Int.{ℤ, pos, ◌-ℤ◌}
use prelude.CreditLots.Sort.{sort}
use prelude.Stripe.{
  Reply, reply, raised, Store, EventType, session_completed, session_async_payment_succeeded,
  session_async_payment_failed, session_expired, charge_refunded, refund_created, dispute_created,
  dispute_closed, unrecognised, StripeEvent, StripeWebhookStatus, ignored, ArchivedStatus, settled,
  StripeWebhookEvent,
}
use prelude.Stripe.Webhook.{Delivery, deliver}

pub record StripeEventReprocessReport : Type 0 where
  pub reprocessed : ℕ
  pub processed : ℕ
  pub needs_admin : ℕ
  pub still_ignored : ℕ
  pub failed : ℕ

abbrev pub empty_report : StripeEventReprocessReport
empty_report = record {
  reprocessed = 0;
  processed = 0;
  needs_admin = 0;
  still_ignored = 0;
  failed = 0;
}

abbrev pub refund_and_dispute_event_types : List EventType
refund_and_dispute_event_types =
    refund_created ∷ charge_refunded ∷ dispute_created ∷ dispute_closed ∷ []

abbrev pub reprocess_batch_limit : ℕ
reprocess_batch_limit = 100

abbrev pub type_code : EventType → ℕ
type_code session_completed = 0
type_code session_async_payment_succeeded = 1
type_code session_async_payment_failed = 2
type_code session_expired = 3
type_code charge_refunded = 4
type_code refund_created = 5
type_code dispute_created = 6
type_code dispute_closed = 7
type_code (unrecognised text) = 8 + text

abbrev pub same_type : EventType → EventType → Bool
same_type a b = type_code a == type_code b

abbrev pub is_ignored : ArchivedStatus → Bool
is_ignored (settled ignored) = true
is_ignored _ = false

-- The `where` of the query.
abbrev pub is_candidate : List EventType → StripeWebhookEvent → Bool
is_candidate types row = is_ignored row.status && any (same_type row.type) types

abbrev pub by_received_at : StripeWebhookEvent → StripeWebhookEvent → ℤ
by_received_at a b = pos a.received_at -ℤ pos b.received_at

abbrev pub take {ℓ} : {A : Type ℓ} → ℕ → List A → List A
take zero xs = []
take (suc n) [] = []
take (suc n) (x ∷ xs) = x ∷ take n xs

unfoldable pub select_rows : List EventType → ℕ → List StripeWebhookEvent → List StripeWebhookEvent
select_rows types limit rows = take limit (sort by_received_at (filter (is_candidate types) rows))

abbrev pub count_failed : StripeEventReprocessReport → StripeEventReprocessReport
count_failed r = record r { failed = r.failed + 1 }

abbrev count_dispatch : StripeEventReprocessReport → StripeEventReprocessReport
count_dispatch r = record r { reprocessed = r.reprocessed + 1 }

abbrev pub count_status :
    StripeWebhookStatus → StripeEventReprocessReport → StripeEventReprocessReport
count_status StripeWebhookStatus.processed r = record r { processed = r.processed + 1 }
count_status StripeWebhookStatus.needs_admin r = record r { needs_admin = r.needs_admin + 1 }
count_status ignored r = record r { still_ignored = r.still_ignored + 1 }

abbrev pub count_reply :
    Reply StripeWebhookStatus → StripeEventReprocessReport → StripeEventReprocessReport
count_reply (reply status) r = count_status status r
count_reply (raised e) r = count_failed r

-- The payload, where it is the event that its row claims.
abbrev pub claimed : StripeWebhookEvent → Option StripeEvent → Option StripeEvent
claimed row none = none
claimed row (some event) = if event.id == row.stripe_event_id then some event else none

unfoldable pub reprocess_event :
    (Store → StripeEvent → Delivery)
    → StripeEventReprocessReport
    → Option StripeEvent
    → Store
    → StripeEventReprocessReport × Store
reprocess_event supply report none s = (count_failed report, s)
reprocess_event supply report (some event) s =
    let (answer, s') = deliver (record (supply s event) { event = event }) s in
    (count_reply answer (count_dispatch report), s')

unfoldable pub reprocess_rows :
    (Store → StripeEvent → Delivery)
    → List StripeWebhookEvent
    → StripeEventReprocessReport
    → Store
    → StripeEventReprocessReport × Store
unfolding reprocess_event
reprocess_rows supply [] report s = (report, s)
reprocess_rows supply (row ∷ rows) report s =
    let (report', s') = reprocess_event supply report (claimed row row.payload) s in
    reprocess_rows supply rows report' s'

unfoldable pub reprocess_ignored_stripe_events :
    (Store → StripeEvent → Delivery)
    → List EventType
    → ℕ
    → Store
    → StripeEventReprocessReport × Store
unfolding reprocess_rows select_rows
reprocess_ignored_stripe_events supply types limit s =
    reprocess_rows supply (select_rows types limit s.events) empty_report s
