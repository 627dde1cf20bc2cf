-- ===== src/Stripe/Webhook/Refunded.antt =====
-- What a refund does to the ledger.
use prelude.Base.{ℕ, ◌≡◌, ◌⊎◌, inl, inr, refl, sym, ap, ◌∙◌, subst, true, none, some, Option-cases}
use prelude.Ledger.Schema.{Db}
use prelude.Ledger.Monad.{Op, Result, ok, err}
use prelude.Ledger.Exits.{revoke_unconsumed_lot}
use prelude.Stripe.{
  raised, reply, Store, StripeOp, settle, on_ledger, proceed, return, id_of, truthy,
}
use prelude.Stripe.Refunds.{
  StripeCharge, StripeRefund, charge_of, charge_id, revoke_for, revoke_charge, archive_status_for,
}
use prelude.Stripe.Fulfilment.Settled.{Reply-cases}
use prelude.Stripe.Webhook.{Delivery}
use prelude.Stripe.Webhook.Booked.{HasPayment, IsRefundOf, IsLeft, IsRevoked}

module _ {A B : Type 0} where
  -- A call of the ledger, and then an operation that leaves the ledger as it is.
  pub called-db :
      (op : Op A) (next : A → StripeOp B) (s : Store)
      → ((a : A) (t : Store) → (next a t).1.db ≡ t.db)
      → (proceed (on_ledger op s) next).1.db ≡ (op s.db).1
  called-db op next s h = settled (op s.db)
    where
      settled : (r : Result A × Db) → (proceed (settle s r) next).1.db ≡ r.1
      settled (ok a, db) = h a (record s { db = db })
      settled (err e, db) = refl

module _ (d : Delivery) (s : Store) where
  pub revoke_charge-IsRevoked :
      (id : ℕ)
      → let r = revoke_charge d.stripe d.call d.event (some id) s in
        IsRevoked d s.db id r
        ⊎ (IsLeft s.db r
            × ((charge : StripeCharge) (payment : ℕ) → HasPayment d id charge payment → ⊥))
  unfolding revoke_charge revoke_for
  revoke_charge-IsRevoked id = elim (Reply-cases (d.stripe.retrieve_charge id)) [
    | inr (e, failed) ↦ inr (
      rw failed (refl, inr (e, refl)),
      (λ other payment h. let clash : raised e ≡ reply other = sym failed ∙ h.0 in cc),
    )
    | inl (charge, answered) ↦ elim (Option-cases (truthy (id_of charge.payment_intent))) [
      | inl nothing ↦ inr (
        rw (answered, nothing) (refl, inl refl),
        (λ other payment h.
            let both : reply charge ≡ reply other = sym answered ∙ h.0 in
            let same : charge ≡ other = cc in
            let clash : none ≡ some payment =
              sym nothing ∙ ap (λ (c : StripeCharge). truthy (id_of c.payment_intent)) same ∙ h.1 in
            cc),
      )
      | inr (payment, paid_by) ↦ inl (
        charge,
        payment,
        (answered, paid_by),
        rw (answered, paid_by)
            (called-db
              (revoke_unconsumed_lot d.call payment charge.amount_refunded charge.amount
                (some d.event.id))
              (λ result. return (archive_status_for result)) s (λ _ _. refl)),
      )
    ]
  ]

  pub refund_created-IsRevoked :
      let r =
        proceed (charge_id d.stripe d.event true, s) (revoke_charge d.stripe d.call d.event) in
      ((refund : StripeRefund) × (id : ℕ) × IsRefundOf d refund id × IsRevoked d s.db id r)
      ⊎ (IsLeft s.db r
          × ((refund : StripeRefund) (id : ℕ) (charge : StripeCharge) (payment : ℕ)
              → IsRefundOf d refund id
              → HasPayment d id charge payment
              → ⊥))
  unfolding charge_id revoke_charge
  refund_created-IsRevoked = elim (Reply-cases (d.stripe.retrieve_refund d.event.object_id)) [
    | inr (e, failed) ↦ inr (
      rw failed (refl, inr (e, refl)),
      (λ other id charge payment h _. let clash : raised e ≡ reply other = sym failed ∙ h.0 in cc),
    )
    | inl (refund, answered) ↦
        let charge_of_other : (other : StripeRefund) (id : ℕ)
            → IsRefundOf d other id
            → truthy (id_of refund.charge) ≡ some id =
          λ other id h.
            let both : reply refund ≡ reply other = sym answered ∙ h.0 in
            let same : refund ≡ other = cc in
            ap (λ (c : StripeRefund). truthy (id_of c.charge)) same ∙ h.1 in
        elim (Option-cases (truthy (id_of refund.charge))) [
          | inl nothing ↦ inr (
            rw (answered, nothing) (refl, inl refl),
            (λ other id charge payment h _.
                let clash : none ≡ some id = sym nothing ∙ charge_of_other other id h in cc),
          )
          | inr (id, of_charge) ↦
              let same : proceed (charge_of (d.stripe.retrieve_refund d.event.object_id), s)
                    (revoke_charge d.stripe d.call d.event)
                  ≡ revoke_charge d.stripe d.call d.event (some id) s =
                rw (answered, of_charge) refl in
              elim (revoke_charge-IsRevoked id) [
                | inl revoked ↦ inl (
                  refund,
                  id,
                  (answered, of_charge),
                  subst (IsRevoked d s.db id) (sym same) revoked,
                )
                | inr (left, unpaid) ↦ inr (
                  subst (IsLeft s.db) (sym same) left,
                  (λ other id' charge payment h paid_by.
                      let both : some id' ≡ some id =
                        sym (charge_of_other other id' h) ∙ of_charge in
                      let one : id' ≡ id = cc in
                      unpaid charge payment
                        (subst (λ i. HasPayment d i charge payment) one paid_by)),
                )
              ]
        ]
  ]
