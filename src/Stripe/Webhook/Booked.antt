-- ===== src/Stripe/Webhook/Booked.antt =====
-- What an event is to do to the ledger, by its type.
use prelude.Base.{ℕ, ◌≡◌, ◌⊎◌, none, some, List}
use prelude.Ledger.Schema.{Db}
use prelude.Ledger.Purchase.{GrantPurchasedCreditLotInput, grant_purchased_credit_lot}
use prelude.Ledger.Exits.{
  Disposition, won, lost, freeze_lot_for_dispute, resolve_dispute_on_lot, revoke_unconsumed_lot,
}
use prelude.Stripe.{
  Reply, reply, raised, StripeError, Store, id_of, truthy, EventType, session_completed,
  session_async_payment_succeeded, session_async_payment_failed, session_expired, charge_refunded,
  refund_created, dispute_created, dispute_closed, unrecognised, StripeWebhookStatus, needs_admin,
  CreditPack,
}
use prelude.Stripe.Refunds.{
  StripeRefund, StripeCharge, StripeDispute, StripeRefundClient, DisputeStatus, dispute_won,
  warning_closed, dispute_lost,
}
use prelude.Stripe.Fulfilment.{CheckoutSession}
use prelude.Stripe.Fulfilment.Handler.{PaidCheckout}
use prelude.Stripe.Fulfilment.Grants.{PaidFor}
use prelude.Stripe.Fulfilment.Terms.{IsTermsOf}
use prelude.Stripe.Webhook.{Delivery}

-- The payment of a dispute: its own, and without one its charge's.
abbrev pub IsPaymentOf : StripeRefundClient → StripeDispute → ℕ → Type 0
IsPaymentOf stripe dispute payment =
    (truthy (id_of dispute.payment_intent) ≡ some payment)
    ⊎ ((truthy (id_of dispute.payment_intent) ≡ none)
        × (id : ℕ) × (charge : StripeCharge) × (truthy (id_of dispute.charge) ≡ some id)
        × (stripe.retrieve_charge id ≡ reply charge)
        × (truthy (id_of charge.payment_intent) ≡ some payment))

abbrev pub IsDisposition : DisputeStatus → Disposition → Type 0
IsDisposition status won = (status ≡ dispute_won) ⊎ (status ≡ warning_closed)
IsDisposition status lost = status ≡ dispute_lost

-- The ledger is left as it was, and the event is not settled: an operator's, or raised for a retry.
abbrev pub IsLeft : Db → Reply StripeWebhookStatus × Store → Type 0
IsLeft db r = (r.1.db ≡ db) × ((r.0 ≡ reply needs_admin) ⊎ ((e : StripeError) × (r.0 ≡ raised e)))

abbrev pub HasPayment : Delivery → ℕ → StripeCharge → ℕ → Type 0
HasPayment d id charge payment =
    (d.stripe.retrieve_charge id ≡ reply charge)
    × (truthy (id_of charge.payment_intent) ≡ some payment)

abbrev pub IsRefundOf : Delivery → StripeRefund → ℕ → Type 0
IsRefundOf d refund id =
    (d.stripe.retrieve_refund d.event.object_id ≡ reply refund)
    × (truthy (id_of refund.charge) ≡ some id)

abbrev pub IsDisputeOf : Delivery → StripeDispute → ℕ → Type 0
IsDisputeOf d dispute payment =
    (d.stripe.retrieve_dispute d.event.object_id ≡ reply dispute)
    × IsPaymentOf d.stripe dispute payment

-- A charge's refunds are taken back, at what the charge says now.
abbrev pub IsRevoked : Delivery → Db → ℕ → Reply StripeWebhookStatus × Store → Type 0
IsRevoked d db id r =
    (charge : StripeCharge) × (payment : ℕ) × HasPayment d id charge payment
    × (r.1.db
        ≡ (revoke_unconsumed_lot d.call payment charge.amount_refunded charge.amount
            (some d.event.id) db).1)

-- A session that meets the terms is granted, and one that cannot be read or does not meet them is not.
abbrev pub IsFulfilled :
    Delivery → Db → List CreditPack → Reply StripeWebhookStatus × Store → Type 0
IsFulfilled d db packs r =
    ((session : CheckoutSession) × (input : GrantPurchasedCreditLotInput) × (d.retrieve_session
          d.event.object_id
        ≡ reply session)
      × IsTermsOf none packs session (some d.event.id) d.now input
      × (r.1.db ≡ (grant_purchased_credit_lot d.call input db).1))
    ⊎ ((r.1.db ≡ db)
        × (((e : StripeError) × (d.retrieve_session d.event.object_id ≡ raised e))
            ⊎ ((session : CheckoutSession) × (d.retrieve_session d.event.object_id ≡ reply session)
                × ((checkout : PaidCheckout) → PaidFor none packs session checkout → ⊥))))

-- What an event's dispatch does to the ledger.
abbrev pub IsBooked :
    Delivery → Db → List CreditPack → EventType → Reply StripeWebhookStatus × Store → Type 0
IsBooked d db packs session_completed r = IsFulfilled d db packs r
IsBooked d db packs session_async_payment_succeeded r = IsFulfilled d db packs r
IsBooked d db packs session_async_payment_failed r = r.1.db ≡ db
IsBooked d db packs session_expired r = r.1.db ≡ db
IsBooked d db packs charge_refunded r =
    IsRevoked d db d.event.object_id r
    ⊎ (IsLeft db r
        × ((charge : StripeCharge) (payment : ℕ)
            → HasPayment d d.event.object_id charge payment
            → ⊥))
IsBooked d db packs refund_created r =
    ((refund : StripeRefund) × (id : ℕ) × IsRefundOf d refund id × IsRevoked d db id r)
    ⊎ (IsLeft db r
        × ((refund : StripeRefund) (id : ℕ) (charge : StripeCharge) (payment : ℕ)
            → IsRefundOf d refund id
            → HasPayment d id charge payment
            → ⊥))
IsBooked d db packs dispute_created r =
    ((dispute : StripeDispute) × (payment : ℕ) × IsDisputeOf d dispute payment
      × (r.1.db ≡ (freeze_lot_for_dispute d.call payment (some d.event.id) d.clock db).1))
    ⊎ (IsLeft db r × ((dispute : StripeDispute) (payment : ℕ) → IsDisputeOf d dispute payment → ⊥))
IsBooked d db packs dispute_closed r =
    ((dispute : StripeDispute) × (payment : ℕ) × (disposition : Disposition) × IsDisputeOf d dispute
        payment
      × IsDisposition dispute.status disposition
      × (r.1.db
          ≡ (resolve_dispute_on_lot d.call payment disposition (some d.event.id) d.clock db).1))
    ⊎ (IsLeft db r
        × ((dispute : StripeDispute) (payment : ℕ) (disposition : Disposition)
            → IsDisputeOf d dispute payment
            → IsDisposition dispute.status disposition
            → ⊥))
IsBooked d db packs (unrecognised text) r = r.1.db ≡ db
