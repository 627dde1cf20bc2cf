-- ===== src/Stripe/Refunds.antt =====
-- stripe-refunds.ts: from the event of a refund or of a dispute to the transition of the ledger, and
-- from its result to the status of the archive. `call` is what the outside supplies to the one call of
-- the ledger. The logs have no part in it.
use prelude.Base.{ℕ, Bool, true, false, Option, none, some, ◌∷◌}
use prelude.Base.Int.{ℤ}
use prelude.Ledger.Wallet.{Call}
use prelude.Ledger.Exits.{
  CreditLotAdjustmentResult, applied, already_applied, no_lot, Disposition, won, lost,
  freeze_lot_for_dispute, resolve_dispute_on_lot, revoke_unconsumed_lot,
}
use prelude.Stripe.{
  Reply, reply, raised, StripeOp, return, ask, on_ledger, ◌>>=◌, Expandable, id_of, truthy,
  StripeEvent, EventType, refund_created, dispute_created, StripeWebhookStatus, processed,
  needs_admin, DisputeFreezeNotice,
}

pub record StripeRefund : Type 0 where
  pub id : ℕ
  pub charge : Expandable
  pub payment_intent : Expandable
  pub amount : ℕ

pub record StripeCharge : Type 0 where
  pub id : ℕ
  pub amount : ℕ
  pub amount_refunded : ℕ
  pub payment_intent : Expandable

-- The texts that `toDisposition` tells apart.
pub data DisputeStatus : Type 0 where
  dispute_won warning_closed dispute_lost : DisputeStatus
  other : ℕ → DisputeStatus

pub record StripeDispute : Type 0 where
  pub id : ℕ
  pub status : DisputeStatus
  pub charge : Expandable
  pub payment_intent : Expandable

pub record StripeRefundClient : Type 0 where
  pub retrieve_refund : ℕ → Reply StripeRefund
  pub retrieve_charge : ℕ → Reply StripeCharge
  pub retrieve_dispute : ℕ → Reply StripeDispute

-- `notifyDisputeFrozen`, where the caller has one.
abbrev pub DisputeFreezeNotifier : Type 0
DisputeFreezeNotifier = Option (DisputeFreezeNotice → Reply ℕ)

unfoldable pub archive_status_for : CreditLotAdjustmentResult → StripeWebhookStatus
archive_status_for (applied org lot_id credits) = processed
archive_status_for (already_applied org lot_id status) = processed
archive_status_for no_lot = needs_admin
archive_status_for (CreditLotAdjustmentResult.needs_admin org lot_id reason) = needs_admin

abbrev pub is_refund_created : EventType → Bool
is_refund_created refund_created = true
is_refund_created _ = false

abbrev pub charge_of : Reply StripeRefund → Reply (Option ℕ)
charge_of (reply refund) = reply (truthy (id_of refund.charge))
charge_of (raised e) = raised e

-- The charge: the refund's, or the delivered object itself.
unfoldable pub charge_id : StripeRefundClient → StripeEvent → Bool → Reply (Option ℕ)
charge_id stripe event true = charge_of (stripe.retrieve_refund event.object_id)
charge_id stripe event false = reply (some event.object_id)

unfoldable pub revoke_for :
    Call → StripeEvent → StripeCharge → Option ℕ → StripeOp StripeWebhookStatus
unfolding archive_status_for
revoke_for call event charge none = return needs_admin
revoke_for call event charge (some payment) =
    on_ledger
      (revoke_unconsumed_lot call payment charge.amount_refunded charge.amount (some event.id))
    >>= λ result. return (archive_status_for result)

unfoldable pub revoke_charge :
    StripeRefundClient → Call → StripeEvent → Option ℕ → StripeOp StripeWebhookStatus
unfolding revoke_for
revoke_charge stripe call event none = return needs_admin
revoke_charge stripe call event (some id) = ask (stripe.retrieve_charge id) >>= λ charge.
    revoke_for call event charge (truthy (id_of charge.payment_intent))

unfoldable pub handle_refund_event :
    StripeRefundClient → Call → StripeEvent → StripeOp StripeWebhookStatus
unfolding revoke_charge charge_id
handle_refund_event stripe call event =
    ask (charge_id stripe event (is_refund_created event.type)) >>= revoke_charge stripe call event

abbrev pub payment_of : Reply StripeCharge → Reply (Option ℕ)
payment_of (reply charge) = reply (id_of charge.payment_intent)
payment_of (raised e) = raised e

abbrev pub payment_of_charge : StripeRefundClient → Option ℕ → Reply (Option ℕ)
payment_of_charge stripe none = reply none
payment_of_charge stripe (some charge_id) = payment_of (stripe.retrieve_charge charge_id)

-- The direct field, or else the charge's.
abbrev pub direct_or : Option ℕ → Reply (Option ℕ) → Reply (Option ℕ)
direct_or none fallback = fallback
direct_or (some payment) fallback = reply (some payment)

unfoldable pub resolve_payment_intent_id : StripeRefundClient → StripeDispute → Reply (Option ℕ)
resolve_payment_intent_id stripe dispute =
    direct_or (truthy (id_of dispute.payment_intent))
      (payment_of_charge stripe (truthy (id_of dispute.charge)))

unfoldable pub to_disposition : DisputeStatus → Option Disposition
to_disposition dispute_won = some won
to_disposition warning_closed = some won
to_disposition dispute_lost = some lost
to_disposition (other text) = none

-- The notifier is called where there is one, and what it raises is swallowed.
unfoldable pub notify_freeze : DisputeFreezeNotifier → DisputeFreezeNotice → StripeOp Unit
notify_freeze none notice s = (reply tt, s)
notify_freeze (some notify) notice s = (reply tt, record s { notices = notice ∷ s.notices })

abbrev pub freeze_notice : StripeEvent → ℕ → ℕ → ℤ → DisputeFreezeNotice
freeze_notice event org lot_id credits = record {
  organization_id = org;
  lot_id = lot_id;
  frozen_credits = credits;
  stripe_event_id = event.id;
}

unfoldable pub notify_if_applied :
    DisputeFreezeNotifier → StripeEvent → CreditLotAdjustmentResult → StripeOp Unit
unfolding notify_freeze
notify_if_applied notify event (applied org lot_id credits) =
    notify_freeze notify (freeze_notice event org lot_id credits)
notify_if_applied notify event (already_applied org lot_id status) = return tt
notify_if_applied notify event no_lot = return tt
notify_if_applied notify event (CreditLotAdjustmentResult.needs_admin org lot_id reason) = return tt

unfoldable pub freeze_for :
    DisputeFreezeNotifier → Call → StripeEvent → ℕ → ℕ → StripeOp StripeWebhookStatus
unfolding notify_if_applied archive_status_for
freeze_for notify call event payment now = do
  frozen ← on_ledger (freeze_lot_for_dispute call payment (some event.id) now)
  told ← notify_if_applied notify event frozen
  return (archive_status_for frozen)

unfoldable pub resolve_for :
    Call → StripeEvent → ℕ → ℕ → Option Disposition → StripeOp StripeWebhookStatus
unfolding archive_status_for
resolve_for call event payment now none = return needs_admin
resolve_for call event payment now (some disposition) = do
  resolved ← on_ledger (resolve_dispute_on_lot call payment disposition (some event.id) now)
  return (archive_status_for resolved)

abbrev pub is_dispute_created : EventType → Bool
is_dispute_created dispute_created = true
is_dispute_created _ = false

-- A created dispute freezes; a closed one is resolved by its status.
unfoldable pub transition_for :
    DisputeFreezeNotifier
    → Call
    → StripeEvent
    → StripeDispute
    → ℕ
    → ℕ
    → Bool
    → StripeOp StripeWebhookStatus
unfolding freeze_for resolve_for to_disposition
transition_for notify call event dispute payment now true = freeze_for notify call event payment now
transition_for notify call event dispute payment now false =
    resolve_for call event payment now (to_disposition dispute.status)

unfoldable pub dispute_transition :
    DisputeFreezeNotifier
    → Call
    → StripeEvent
    → StripeDispute
    → ℕ
    → Option ℕ
    → StripeOp StripeWebhookStatus
unfolding transition_for
dispute_transition notify call event dispute now none = return needs_admin
dispute_transition notify call event dispute now (some payment) =
    transition_for notify call event dispute payment now (is_dispute_created event.type)

unfoldable pub handle_dispute_event :
    StripeRefundClient
    → DisputeFreezeNotifier
    → Call
    → StripeEvent
    → ℕ
    → StripeOp StripeWebhookStatus
unfolding dispute_transition resolve_payment_intent_id
handle_dispute_event stripe notify call event now = do
  dispute ← ask (stripe.retrieve_dispute event.object_id)
  payment ← ask (resolve_payment_intent_id stripe dispute)
  dispute_transition notify call event dispute now (truthy payment)
