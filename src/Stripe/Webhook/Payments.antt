-- ===== src/Stripe/Webhook/Payments.antt =====
-- The payment that a dispute is resolved to.
use prelude.Base.{
  ℕ, zero, suc, ◌≡◌, ◌⊎◌, inl, inr, refl, sym, ap, ◌∙◌, Option, none, some, Option-cases,
}
use prelude.Stripe.{reply, raised, StripeError, id_of, truthy}
use prelude.Stripe.Refunds.{
  StripeDispute, StripeRefundClient, payment_of, payment_of_charge, direct_or,
  resolve_payment_intent_id,
}
use prelude.Stripe.Fulfilment.Settled.{Reply-cases}
use prelude.Stripe.Webhook.Booked.{IsPaymentOf}

truthy_again : (o : Option ℕ) (n : ℕ) → truthy o ≡ some n → truthy (some n) ≡ some n
unfolding truthy
truthy_again none n h = cc
truthy_again (some zero) n h = cc
truthy_again (some (suc m)) n h = let same : suc m ≡ n = cc in rw (sym same) refl

pub payment_resolved :
    (stripe : StripeRefundClient) (dispute : StripeDispute)
    → let r = resolve_payment_intent_id stripe dispute in
      ((payment : ℕ) × (held : Option ℕ) × (r ≡ reply held)
        × (truthy held ≡ some payment)
        × IsPaymentOf stripe dispute payment)
      ⊎ ((held : Option ℕ) × (r ≡ reply held) × (truthy held ≡ none))
      ⊎ ((e : StripeError) × (r ≡ raised e))
unfolding resolve_payment_intent_id truthy
payment_resolved stripe dispute = elim (Option-cases (truthy (id_of dispute.payment_intent))) [
  | inr (payment, direct) ↦ inl (
    payment,
    some payment,
    ap (λ o. direct_or o (payment_of_charge stripe (truthy (id_of dispute.charge)))) direct,
    truthy_again (id_of dispute.payment_intent) payment direct,
    inl direct,
  )
  | inl missing ↦
      let falls_back =
        ap (λ o. direct_or o (payment_of_charge stripe (truthy (id_of dispute.charge)))) missing in
      elim (Option-cases (truthy (id_of dispute.charge))) [
        | inl nothing ↦ inr (inl (none, falls_back ∙ ap (payment_of_charge stripe) nothing, refl))
        | inr (id, of_charge) ↦
            let charged = falls_back ∙ ap (payment_of_charge stripe) of_charge in
            elim (Reply-cases (stripe.retrieve_charge id)) [
              | inr (e, failed) ↦ inr (inr (e, charged ∙ ap payment_of failed))
              | inl (charge, answered) ↦
                  elim (Option-cases (truthy (id_of charge.payment_intent))) [
                    | inl nothing ↦ inr (
                        inl
                          (id_of charge.payment_intent, charged ∙ ap payment_of answered, nothing))
                    | inr (payment, named) ↦ inl (
                      payment,
                      id_of charge.payment_intent,
                      charged ∙ ap payment_of answered,
                      named,
                      inr (missing, id, charge, of_charge, answered, named),
                    )
                  ]
            ]
      ]
]

pub IsPaymentOf-resolved :
    (stripe : StripeRefundClient) (dispute : StripeDispute) (payment : ℕ)
    → IsPaymentOf stripe dispute payment
    → (held : Option ℕ) × (resolve_payment_intent_id stripe dispute ≡ reply held)
      × (truthy held ≡ some payment)
unfolding resolve_payment_intent_id
IsPaymentOf-resolved stripe dispute payment (inl direct) = (
  some payment,
  ap (λ o. direct_or o (payment_of_charge stripe (truthy (id_of dispute.charge)))) direct,
  truthy_again (id_of dispute.payment_intent) payment direct,
)
IsPaymentOf-resolved stripe dispute payment
      (inr (missing, id, charge, of_charge, answered, named)) =
    (
      id_of charge.payment_intent,
      ap (λ o. direct_or o (payment_of_charge stripe (truthy (id_of dispute.charge)))) missing
          ∙ ap (payment_of_charge stripe) of_charge
          ∙ ap payment_of answered,
      named,
    )
