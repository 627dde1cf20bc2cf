-- ===== src/Stripe/Webhook/Handled.antt =====
-- What the handlers of an event leave alone: the archive, the catalogue and the customers.
use prelude.Base.{ℕ, ◌≡◌, refl, Bool, true, false, Option, none, some}
use prelude.Ledger.Schema.{Db, Text}
use prelude.Ledger.Monad.{Op, Result, ok, err}
use prelude.Ledger.Wallet.{Call}
use prelude.Ledger.Exits.{
  CreditLotAdjustmentResult, applied, already_applied, no_lot, Disposition, freeze_lot_for_dispute,
  resolve_dispute_on_lot, revoke_unconsumed_lot,
}
use prelude.Ledger.Purchase.{grant_purchased_credit_lot}
use prelude.Stripe.{
  Reply, reply, raised, Store, StripeOp, settle, on_ledger, proceed, ◌>>=◌, return, truthy,
  StripeEvent, EventType, session_completed, session_async_payment_succeeded,
  session_async_payment_failed, session_expired, charge_refunded, refund_created, dispute_created,
  dispute_closed, unrecognised,
}
use prelude.Stripe.Refunds.{
  DisputeFreezeNotifier, StripeCharge, StripeDispute, StripeRefundClient, revoke_for, revoke_charge,
  charge_id, is_refund_created, handle_refund_event, notify_if_applied, notify_freeze, freeze_for,
  resolve_for, is_dispute_created, dispute_transition, transition_for, archive_status_for,
  resolve_payment_intent_id, handle_dispute_event, to_disposition,
}
use prelude.Stripe.Fulfilment.{CheckoutSession, Checked, passed, refused}
use prelude.Stripe.Fulfilment.Handler.{
  PaidCheckout, grant_checked, grant_input, fulfill_paid_payment_intent, fulfill_credit_checkout,
  assess,
}
use prelude.Stripe.Webhook.{Delivery, default_deps, dispatch, route, fulfill_event}

pub record Handled (s₀ s : Store) : Type 0 where
  pub events : s.events ≡ s₀.events
  pub packs : s.packs ≡ s₀.packs
  pub customers : s.customers ≡ s₀.customers

pub unhandled : (s : Store) → Handled s s
unhandled s = record { events = refl; packs = refl; customers = refl }

module _ {A B : Type 0} where
  -- A call that answers, and what comes after it.
  pub proceed-inv {κ} :
      (P : Store → Type κ) (r : Reply A × Store) (f : A → StripeOp B)
      → P r.1
      → ((a : A) (s : Store) → P s → P (f a s).1)
      → P (proceed r f).1
  proceed-inv P (reply a, s) f h k = k a s h
  proceed-inv P (raised e, s) f h k = h

settle-Handled :
    {A : Type 0} (s₀ s : Store) (r : Result A × Db) → Handled s₀ s → Handled s₀ (settle s r).1
settle-Handled s₀ s (ok a, db) h = record {
  events = h.events;
  packs = h.packs;
  customers = h.customers;
}
settle-Handled s₀ s (err e, db) h = record {
  events = h.events;
  packs = h.packs;
  customers = h.customers;
}

on_ledger-Handled :
    {A : Type 0} (s₀ s : Store) (op : Op A) → Handled s₀ s → Handled s₀ (on_ledger op s).1
on_ledger-Handled s₀ s op h = settle-Handled s₀ s (op s.db) h

revoke_for-Handled :
    (s₀ s : Store) (call : Call) (event : StripeEvent) (charge : StripeCharge) (payment : Option ℕ)
    → Handled s₀ s
    → Handled s₀ (revoke_for call event charge payment s).1
unfolding revoke_for
revoke_for-Handled s₀ s call event charge none h = h
revoke_for-Handled s₀ s call event charge (some payment) h =
    proceed-inv (Handled s₀) _ _
      (on_ledger-Handled s₀ s
        (revoke_unconsumed_lot call payment charge.amount_refunded charge.amount (some event.id)) h)
      λ _ _ k. k

revoke_charge-Handled :
    (s₀ s : Store) (stripe : StripeRefundClient) (call : Call) (event : StripeEvent)
    (charge : Option ℕ)
    → Handled s₀ s
    → Handled s₀ (revoke_charge stripe call event charge s).1
unfolding revoke_charge
revoke_charge-Handled s₀ s stripe call event none h = h
revoke_charge-Handled s₀ s stripe call event (some id) h =
    proceed-inv (Handled s₀) (stripe.retrieve_charge id, s) _ h
      λ charge s' h'. revoke_for-Handled s₀ s' call event charge _ h'

pub handle_refund-Handled :
    (stripe : StripeRefundClient) (call : Call) (event : StripeEvent) (s : Store)
    → Handled s (handle_refund_event stripe call event s).1
unfolding handle_refund_event
handle_refund-Handled stripe call event s =
    proceed-inv (Handled s) (charge_id stripe event (is_refund_created event.type), s) _
      (unhandled s) λ charge s' h. revoke_charge-Handled s s' stripe call event charge h

notify_freeze-Handled :
    (s₀ s : Store) (notify : DisputeFreezeNotifier) (event : StripeEvent)
    (result : CreditLotAdjustmentResult)
    → Handled s₀ s
    → Handled s₀ (notify_if_applied notify event result s).1
unfolding notify_if_applied notify_freeze
notify_freeze-Handled s₀ s none event (applied org lot_id credits) h = h
notify_freeze-Handled s₀ s (some notify) event (applied org lot_id credits) h = record {
  events = h.events;
  packs = h.packs;
  customers = h.customers;
}
notify_freeze-Handled s₀ s notify event (already_applied org lot_id status) h = h
notify_freeze-Handled s₀ s notify event no_lot h = h
notify_freeze-Handled s₀ s notify event (CreditLotAdjustmentResult.needs_admin org lot_id reason)
      h =
    h

freeze_for-Handled :
    (s₀ s : Store) (notify : DisputeFreezeNotifier) (call : Call) (event : StripeEvent)
    (payment now : ℕ)
    → Handled s₀ s
    → Handled s₀ (freeze_for notify call event payment now s).1
unfolding freeze_for
freeze_for-Handled s₀ s notify call event payment now h =
    proceed-inv (Handled s₀) (on_ledger (freeze_lot_for_dispute call payment (some event.id) now) s)
      (λ frozen. notify_if_applied notify event frozen >>= λ _. return (archive_status_for frozen))
      (on_ledger-Handled s₀ s (freeze_lot_for_dispute call payment (some event.id) now) h)
      λ result s' h'.
        proceed-inv (Handled s₀) (notify_if_applied notify event result s')
          (λ _. return (archive_status_for result))
          (notify_freeze-Handled s₀ s' notify event result h') λ _ _ k. k

resolve_for-Handled :
    (s₀ s : Store) (call : Call) (event : StripeEvent) (payment now : ℕ)
    (disposition : Option Disposition)
    → Handled s₀ s
    → Handled s₀ (resolve_for call event payment now disposition s).1
unfolding resolve_for
resolve_for-Handled s₀ s call event payment now none h = h
resolve_for-Handled s₀ s call event payment now (some disposition) h =
    proceed-inv (Handled s₀) _ _
      (on_ledger-Handled s₀ s (resolve_dispute_on_lot call payment disposition (some event.id) now)
        h)
      λ _ _ k. k

dispute_transition-Handled :
    (s₀ s : Store) (notify : DisputeFreezeNotifier) (call : Call) (event : StripeEvent)
    (dispute : StripeDispute) (now : ℕ) (payment : Option ℕ)
    → Handled s₀ s
    → Handled s₀ (dispute_transition notify call event dispute now payment s).1
unfolding dispute_transition transition_for
dispute_transition-Handled s₀ s notify call event dispute now none h = h
dispute_transition-Handled s₀ s notify call event dispute now (some payment) h =
    chosen (is_dispute_created event.type)
  where
    chosen :
        (created : Bool)
        → Handled s₀ (transition_for notify call event dispute payment now created s).1
    chosen true = freeze_for-Handled s₀ s notify call event payment now h
    chosen false = resolve_for-Handled s₀ s call event payment now (to_disposition dispute.status) h

pub handle_dispute-Handled :
    (stripe : StripeRefundClient) (notify : DisputeFreezeNotifier) (call : Call)
    (event : StripeEvent) (now : ℕ) (s : Store)
    → Handled s (handle_dispute_event stripe notify call event now s).1
unfolding handle_dispute_event
handle_dispute-Handled stripe notify call event now s =
    proceed-inv (Handled s) (stripe.retrieve_dispute event.object_id, s) _ (unhandled s)
      λ dispute s' h.
        proceed-inv (Handled s) (resolve_payment_intent_id stripe dispute, s') _ h
          λ payment s'' h'.
            dispute_transition-Handled s s'' notify call event dispute now (truthy payment) h'

grant_checked-Handled :
    (s₀ s : Store) (call : Call) (session : CheckoutSession) (event : Option ℕ) (now : ℕ)
    (checked : Checked PaidCheckout)
    → Handled s₀ s
    → Handled s₀ (grant_checked call session event now checked s).1
unfolding grant_checked fulfill_paid_payment_intent
grant_checked-Handled s₀ s call session event now (refused outcome) h = h
grant_checked-Handled s₀ s call session event now (passed checkout) h =
    let input = grant_input session event now checkout in
    proceed-inv (Handled s₀) _ _ (on_ledger-Handled s₀ s (grant_purchased_credit_lot call input) h)
      λ _ _ k. k

pub fulfill-Handled :
    (retrieve : ℕ → Reply CheckoutSession) (call : Call) (session_id : ℕ) (expected : Option Text)
    (event : Option ℕ) (now : ℕ) (s : Store)
    → Handled s (fulfill_credit_checkout retrieve call session_id expected event now s).1
unfolding fulfill_credit_checkout
fulfill-Handled retrieve call session_id expected event now s =
    proceed-inv (Handled s) (retrieve session_id, s) _ (unhandled s)
      λ session s' h.
        grant_checked-Handled s s' call session event now (assess expected s'.packs session) h

fulfill_event-Handled :
    (d : Delivery) (event : StripeEvent) (s : Store)
    → Handled s (fulfill_event (default_deps d) event s).1
unfolding default_deps
fulfill_event-Handled d event s =
    proceed-inv (Handled s)
      (fulfill_credit_checkout d.retrieve_session d.call event.object_id none (some event.id) d.now
        s)
      _ (fulfill-Handled d.retrieve_session d.call event.object_id none (some event.id) d.now s)
      λ _ _ k. k

-- A dispatched event leaves the archive, the catalogue and the customers alone.
pub dispatch-Handled :
    (d : Delivery) (event : StripeEvent) (s : Store)
    → Handled s (dispatch (default_deps d) event s).1
unfolding dispatch route default_deps
dispatch-Handled d event s = routed event.type
  where
    refund : Handled s ((default_deps d).handle_refund event s).1
    refund = handle_refund-Handled d.stripe d.call event s

    dispute :
        Handled s ((default_deps d).handle_dispute (default_deps d).notify_dispute_frozen event s).1
    dispute = handle_dispute-Handled d.stripe d.notify d.call event d.clock s

    routed : (type : EventType) → Handled s (route type (default_deps d) event s).1
    routed session_completed = fulfill_event-Handled d event s
    routed session_async_payment_succeeded = fulfill_event-Handled d event s
    routed session_async_payment_failed = unhandled s
    routed session_expired = unhandled s
    routed charge_refunded = refund
    routed refund_created = refund
    routed dispute_created = dispute
    routed dispute_closed = dispute
    routed (unrecognised text) = unhandled s
