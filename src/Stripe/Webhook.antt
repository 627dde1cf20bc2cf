-- ===== src/Stripe/Webhook.antt =====
-- stripe-webhook.ts: `handleStripeWebhookEvent` and what it calls, the archive of events, the routing
-- table and the guard on the archived status. The upsert and what follows are two functions, since
-- two deliveries of one event can interleave there. The logs have no part in it.
pub mod Refunded
pub mod Payments
pub mod Routes
pub mod Booked
pub mod Handled
pub mod Rows
pub mod Deliveries
pub mod History
pub mod Failures
pub mod Books
use prelude.Base.{
  ℕ, ◌+◌, Bool, true, false, not, Option, none, some, List, [], ◌∷◌, ◌==◌, ◌||◌, if◌then◌else◌,
}
use prelude.Ledger.Schema.{Text}
use prelude.Ledger.Table.{find_row, update_row}
use prelude.Ledger.Wallet.{Call}
use prelude.Stripe.{
  Reply, reply, raised, StripeError, Store, StripeOp, return, ask, ◌>>=◌, proceed, EventType,
  session_completed, session_async_payment_succeeded, session_async_payment_failed, session_expired,
  charge_refunded, refund_created, dispute_created, dispute_closed, unrecognised, StripeEvent,
  StripeWebhookStatus, processed, ignored, needs_admin, ArchivedStatus, received, failed, settled,
  StripeWebhookEvent,
}
use prelude.Stripe.Refunds.{
  StripeRefundClient, DisputeFreezeNotifier, handle_refund_event, handle_dispute_event,
}
use prelude.Stripe.Fulfilment.{
  CheckoutSession, CreditCheckoutFulfilment, granted, already_granted, not_paid, unknown_pack,
  no_payment_intent, amount_mismatch, foreign_session, currency_mismatch,
}
use prelude.Stripe.Fulfilment.Handler.{fulfill_credit_checkout}

pub record StripeWebhookDeps : Type 0 where
  pub fulfill : ℕ → ℕ → ℕ → StripeOp CreditCheckoutFulfilment
  pub handle_refund : StripeEvent → StripeOp StripeWebhookStatus
  pub handle_dispute : DisputeFreezeNotifier → StripeEvent → StripeOp StripeWebhookStatus
  pub notify_dispute_frozen : DisputeFreezeNotifier
  pub now : ℕ

-- What the database supplies to the archive's own writes: their errors, if they fail, and the
-- default of `receivedAt`.
pub record ArchiveCall : Type 0 where
  pub upsert_fault : Option StripeError
  pub update_fault : Option StripeError
  pub received_at : ℕ

unfoldable pub archive_status_for_fulfilment : CreditCheckoutFulfilment → StripeWebhookStatus
archive_status_for_fulfilment (granted lot_id) = processed
archive_status_for_fulfilment already_granted = processed
archive_status_for_fulfilment not_paid = processed
archive_status_for_fulfilment no_payment_intent = processed
archive_status_for_fulfilment unknown_pack = needs_admin
archive_status_for_fulfilment amount_mismatch = needs_admin
archive_status_for_fulfilment currency_mismatch = needs_admin
archive_status_for_fulfilment foreign_session = needs_admin
archive_status_for_fulfilment (CreditCheckoutFulfilment.needs_admin reason) = needs_admin

abbrev pub fulfill_event : StripeWebhookDeps → StripeEvent → StripeOp StripeWebhookStatus
fulfill_event deps event = deps.fulfill event.object_id event.id deps.now >>= λ outcome.
    return (archive_status_for_fulfilment outcome)

-- The routing table.
unfoldable pub route : EventType → StripeWebhookDeps → StripeEvent → StripeOp StripeWebhookStatus
unfolding archive_status_for_fulfilment
route session_completed deps event = fulfill_event deps event
route session_async_payment_succeeded deps event = fulfill_event deps event
route session_async_payment_failed deps event = return processed
route session_expired deps event = return processed
route charge_refunded deps event = deps.handle_refund event
route refund_created deps event = deps.handle_refund event
route dispute_created deps event = deps.handle_dispute deps.notify_dispute_frozen event
route dispute_closed deps event = deps.handle_dispute deps.notify_dispute_frozen event
route (unrecognised text) deps event = return ignored

unfoldable pub dispatch : StripeWebhookDeps → StripeEvent → StripeOp StripeWebhookStatus
unfolding route
dispatch deps event = route event.type deps event

abbrev pub is_parked : ArchivedStatus → Bool
is_parked (settled needs_admin) = true
is_parked _ = false

abbrev pub is_needs_admin : StripeWebhookStatus → Bool
is_needs_admin needs_admin = true
is_needs_admin _ = false

-- `settleStatus`, at a returned status and at `failed`, which is never `needs_admin`.
unfoldable pub settle_status : ArchivedStatus → StripeWebhookStatus → StripeWebhookStatus
settle_status prior computed =
    if not (is_parked prior) || is_needs_admin computed then computed else needs_admin

unfoldable pub settle_failed : ArchivedStatus → ArchivedStatus
settle_failed prior = if not (is_parked prior) then failed else settled needs_admin

abbrev pub event_key : StripeWebhookEvent → ℕ
event_key row = row.stripe_event_id

unfoldable pub find_event : ℕ → List StripeWebhookEvent → Option StripeWebhookEvent
unfolding find_row
find_event id rows = find_row event_key id rows

abbrev pub new_row : StripeEvent → ℕ → StripeWebhookEvent
new_row event received_at = record {
  stripe_event_id = event.id;
  type = event.type;
  payload = some event;
  status = received;
  first_error = none;
  attempt_count = 1;
  last_error = none;
  received_at = received_at;
  processed_at = none;
}

abbrev pub count_attempt : StripeWebhookEvent → StripeWebhookEvent
count_attempt row = record row { attempt_count = row.attempt_count + 1 }

abbrev pub set_events : Store → List StripeWebhookEvent → Store
set_events s rows = record s { events = rows }

abbrev pub archive_row : StripeEvent → ℕ → Option StripeWebhookEvent → StripeOp StripeWebhookEvent
archive_row event received_at none s =
    (reply (new_row event received_at), set_events s (new_row event received_at ∷ s.events))
archive_row event received_at (some row) s =
    (reply (count_attempt row), set_events s (update_row event_key event.id count_attempt s.events))

abbrev pub or_fault : {A : Type 0} → Option StripeError → StripeOp A → StripeOp A
or_fault none op = op
or_fault (some e) op = ask (raised e)

-- The upsert, which returns the row with its status from before the delivery.
unfoldable pub archive_event : ArchiveCall → StripeEvent → StripeOp StripeWebhookEvent
unfolding find_event
archive_event archive event =
    or_fault archive.upsert_fault
      (λ s. archive_row event archive.received_at (find_event event.id s.events) s)

-- The row is there: the upsert of the delivery has left it. On a missing row the database would throw.
unfoldable pub update_event :
    ArchiveCall → ℕ → (StripeWebhookEvent → StripeWebhookEvent) → StripeOp Unit
update_event archive id change =
    or_fault archive.update_fault
      (λ s. (reply tt, set_events s (update_row event_key id change s.events)))

abbrev pub first_of : Option StripeError → Option StripeError → StripeError → Option StripeError
first_of none current e = some e
first_of (some seen) current e = current

-- What a failed attempt writes; `archived` is the row that the upsert returned.
unfoldable pub record_failure :
    StripeWebhookEvent → StripeError → StripeWebhookEvent → StripeWebhookEvent
unfolding settle_failed
record_failure archived e row = record row {
  status = settle_failed archived.status;
  last_error = some e;
  first_error = first_of archived.first_error row.first_error e;
}

abbrev pub same_status : StripeWebhookStatus → StripeWebhookStatus → Bool
same_status processed processed = true
same_status ignored ignored = true
same_status needs_admin needs_admin = true
same_status _ _ = false

-- What a settled attempt writes: a parked one leaves the error and the time alone.
unfoldable pub record_outcome :
    ℕ → Bool → StripeWebhookStatus → StripeWebhookEvent → StripeWebhookEvent
record_outcome now true status row = record row { status = settled status }
record_outcome now false status row = record row {
  status = settled status;
  last_error = none;
  processed_at = some now;
}

-- The `catch`: the handler's error is raised again, whatever the archive's update answers.
unfoldable pub conclude_failed :
    ArchiveCall
    → StripeEvent
    → StripeWebhookEvent
    → StripeError
    → Store
    → Reply StripeWebhookStatus × Store
unfolding update_event record_failure
conclude_failed archive event archived e s =
    (raised e, (update_event archive event.id (record_failure archived e) s).1)

unfoldable pub conclude_settled :
    ArchiveCall
    → StripeEvent
    → ℕ
    → StripeWebhookEvent
    → StripeWebhookStatus
    → StripeOp StripeWebhookStatus
unfolding update_event record_outcome settle_status
conclude_settled archive event now archived computed =
    let status = settle_status archived.status computed in
    let parked = not (same_status status computed) in
    update_event archive event.id (record_outcome now parked status) >>= λ _. return status

-- What follows the dispatch, on its reply.
unfoldable pub conclude :
    ArchiveCall
    → StripeEvent
    → ℕ
    → StripeWebhookEvent
    → Reply StripeWebhookStatus × Store
    → Reply StripeWebhookStatus × Store
unfolding conclude_failed conclude_settled
conclude archive event now archived (reply computed, s) =
    conclude_settled archive event now archived computed s
conclude archive event now archived (raised e, s) = conclude_failed archive event archived e s

unfoldable pub handle_stripe_webhook_event :
    ArchiveCall → StripeWebhookDeps → StripeEvent → StripeOp StripeWebhookStatus
unfolding archive_event conclude dispatch
handle_stripe_webhook_event archive deps event = archive_event archive event >>= λ archived s.
    conclude archive event deps.now archived (dispatch deps event s)

-- One delivery with all that the outside supplies to it. `clock` is the `now` of the dispute
-- handler, which reads the time for itself.
pub record Delivery : Type 0 where
  pub event : StripeEvent
  pub archive : ArchiveCall
  pub call : Call
  pub retrieve_session : ℕ → Reply CheckoutSession
  pub stripe : StripeRefundClient
  pub notify : DisputeFreezeNotifier
  pub now : ℕ
  pub clock : ℕ

-- The handlers that `deps` defaults to.
unfoldable pub default_deps : Delivery → StripeWebhookDeps
default_deps d = record {
  fulfill = λ session_id event_id now.
      fulfill_credit_checkout d.retrieve_session d.call session_id none (some event_id) now;
  handle_refund = handle_refund_event d.stripe d.call;
  handle_dispute = λ notify event. handle_dispute_event d.stripe notify d.call event d.clock;
  notify_dispute_frozen = d.notify;
  now = d.now;
}

unfoldable pub deliver : Delivery → StripeOp StripeWebhookStatus
unfolding default_deps
deliver d = handle_stripe_webhook_event d.archive (default_deps d) d.event
