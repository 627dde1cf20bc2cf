-- ===== src/Stripe/Webhook/Routes.antt =====
-- What the routes of an event do to the ledger.
use prelude.Base.{ℕ, ◌≡◌, ◌⊎◌, inl, inr, refl, sym, ap, ◌∙◌, subst, none, some}
use prelude.Ledger.Schema.{Db}
use prelude.Ledger.Monad.{Result, ok, err}
use prelude.Ledger.Purchase.{GrantPurchasedCreditLotResult, grant_purchased_credit_lot}
use prelude.Ledger.Exits.{
  CreditLotAdjustmentResult, applied, already_applied, no_lot, Disposition, won, lost,
  freeze_lot_for_dispute, resolve_dispute_on_lot,
}
use prelude.Stripe.{
  raised, Reply, reply, Store, settle, proceed, return, truthy, EventType, session_completed,
  session_async_payment_succeeded, session_async_payment_failed, session_expired, charge_refunded,
  refund_created, dispute_created, dispute_closed, unrecognised, StripeWebhookStatus,
}
use prelude.Stripe.Refunds.{
  StripeDispute, DisputeStatus, dispute_won, warning_closed, dispute_lost, DisputeFreezeNotifier,
  charge_id, handle_refund_event, to_disposition, notify_if_applied, notify_freeze, freeze_for,
  resolve_for, is_dispute_created, transition_for, dispute_transition, handle_dispute_event,
  archive_status_for,
}
use prelude.Stripe.Fulfilment.{passed, refused}
use prelude.Stripe.Fulfilment.Handler.{
  assess, grant_input, grant_checked, fulfill_paid_payment_intent, fulfill_credit_checkout,
  outcome_of,
}
use prelude.Stripe.Fulfilment.Grants.{assess_iff}
use prelude.Stripe.Fulfilment.Terms.{grant_input-IsTermsOf}
use prelude.Stripe.Fulfilment.Settled.{Checked-cases, Reply-cases}
use prelude.Stripe.Webhook.{
  Delivery, default_deps, route, fulfill_event, archive_status_for_fulfilment,
}
use prelude.Stripe.Webhook.Booked.{
  IsPaymentOf, IsDisputeOf, IsDisposition, IsLeft, IsFulfilled, IsBooked,
}
use prelude.Stripe.Webhook.Payments.{payment_resolved, IsPaymentOf-resolved}
use prelude.Stripe.Webhook.Refunded.{called-db, revoke_charge-IsRevoked, refund_created-IsRevoked}

granted_db :
    (s : Store) (g : Result GrantPurchasedCreditLotResult × Db)
    → (proceed
        (proceed (settle s g) (λ grant. return (outcome_of grant)))
        (λ outcome. return (archive_status_for_fulfilment outcome))).1.db
      ≡ g.1
granted_db s (ok grant, db) = refl
granted_db s (err e, db) = refl

module _ (d : Delivery) (s : Store) where
  told-db :
      (result : CreditLotAdjustmentResult) (t : Store)
      → (proceed
          (notify_if_applied d.notify d.event result t)
          (λ _. return (archive_status_for result))).1.db
        ≡ t.db
  unfolding notify_if_applied notify_freeze
  told-db (applied org lot_id credits) t = noticed d.notify
    where
      noticed :
          (notify : DisputeFreezeNotifier)
          → (proceed
              (notify_if_applied notify d.event (applied org lot_id credits) t)
              (λ _. return (archive_status_for (applied org lot_id credits)))).1.db
            ≡ t.db
      noticed none = refl
      noticed (some notify) = refl
  told-db (already_applied org lot_id status) t = refl
  told-db no_lot t = refl
  told-db (CreditLotAdjustmentResult.needs_admin org lot_id reason) t = refl

  freeze_for-db :
      (payment : ℕ)
      → (freeze_for d.notify d.call d.event payment d.clock s).1.db
        ≡ (freeze_lot_for_dispute d.call payment (some d.event.id) d.clock s.db).1
  unfolding freeze_for
  freeze_for-db payment =
      called-db (freeze_lot_for_dispute d.call payment (some d.event.id) d.clock) _ s told-db

  resolve_for-db :
      (payment : ℕ) (status : DisputeStatus)
      → let r = resolve_for d.call d.event payment d.clock (to_disposition status) s in
        ((disposition : Disposition) × IsDisposition status disposition
          × (r.1.db
              ≡ (resolve_dispute_on_lot d.call payment disposition
                  (some d.event.id)
                  d.clock
                  s.db).1))
        ⊎ (IsLeft s.db r × ((disposition : Disposition) → IsDisposition status disposition → ⊥))
  unfolding resolve_for to_disposition
  resolve_for-db payment dispute_won = inl (
    won,
    inl refl,
    called-db (resolve_dispute_on_lot d.call payment won (some d.event.id) d.clock)
        (λ result. return (archive_status_for result)) s λ _ _. refl,
  )
  resolve_for-db payment warning_closed = inl (
    won,
    inr refl,
    called-db (resolve_dispute_on_lot d.call payment won (some d.event.id) d.clock)
        (λ result. return (archive_status_for result)) s λ _ _. refl,
  )
  resolve_for-db payment dispute_lost = inl (
    lost,
    refl,
    called-db (resolve_dispute_on_lot d.call payment lost (some d.event.id) d.clock)
        (λ result. return (archive_status_for result)) s λ _ _. refl,
  )
  resolve_for-db payment (DisputeStatus.other text) = inr ((refl, inl refl), undecided)
    where
      undecided :
          (disposition : Disposition) → IsDisposition (DisputeStatus.other text) disposition → ⊥
      undecided won (inl e) = cc
      undecided won (inr e) = cc
      undecided lost e = cc

  -- The dispute that is read is the only one.
  only_dispute :
      (dispute other : StripeDispute) (payment : ℕ)
      → d.stripe.retrieve_dispute d.event.object_id ≡ reply dispute
      → IsDisputeOf d other payment
      → (other ≡ dispute) × IsPaymentOf d.stripe dispute payment
  only_dispute dispute other payment answered h =
      let both : reply other ≡ reply dispute = sym h.0 ∙ answered in
      let same : other ≡ dispute = cc in
      (same, subst (λ x. IsPaymentOf d.stripe x payment) same h.1)

  disputed :
      let r = handle_dispute_event d.stripe d.notify d.call d.event d.clock s in
      ((dispute : StripeDispute) × (payment : ℕ) × IsDisputeOf d dispute payment
        × (r
            ≡ transition_for d.notify d.call d.event dispute payment d.clock
                (is_dispute_created d.event.type)
                s))
      ⊎ (IsLeft s.db r
          × ((dispute : StripeDispute) (payment : ℕ) → IsDisputeOf d dispute payment → ⊥))
  unfolding handle_dispute_event dispute_transition
  disputed = elim (Reply-cases (d.stripe.retrieve_dispute d.event.object_id)) [
    | inr (e, failed) ↦ inr (
      rw failed (refl, inr (e, refl)),
      (λ other payment h. let clash : raised e ≡ reply other = sym failed ∙ h.0 in cc),
    )
    | inl (dispute, answered) ↦ elim (payment_resolved d.stripe dispute) [
      | inl (payment, held, resolves, named, is_payment) ↦
          inl (dispute, payment, (answered, is_payment), rw (answered, resolves, named) refl)
      | inr (inl (held, resolves, nothing)) ↦ inr (
        rw (answered, resolves, nothing) (refl, inl refl),
        (λ other payment h.
            let (found, at, named) =
              IsPaymentOf-resolved d.stripe dispute payment
                (only_dispute dispute other payment answered h).1 in
            let both : reply held ≡ reply found = sym resolves ∙ at in
            let same : held ≡ found = cc in
            let clash : none ≡ some payment = sym nothing ∙ ap truthy same ∙ named in cc),
      )
      | inr (inr (e, failed)) ↦ inr (
        rw (answered, failed) (refl, inr (e, refl)),
        (λ other payment h.
            let (found, at, named) =
              IsPaymentOf-resolved d.stripe dispute payment
                (only_dispute dispute other payment answered h).1 in
            let clash : raised e ≡ reply found = sym failed ∙ at in cc),
      )
    ]
  ]

  fulfilled : IsFulfilled d s.db s.packs (fulfill_event (default_deps d) d.event s)
  unfolding default_deps fulfill_credit_checkout grant_checked fulfill_paid_payment_intent
  fulfilled = elim (Reply-cases (d.retrieve_session d.event.object_id)) [
    | inr (e, failed) ↦ rw failed (inr (refl, inl (e, refl)))
    | inl (session, answered) ↦ elim (Checked-cases (assess none s.packs session)) [
      | inl (outcome, refusal) ↦ inr (
        rw (answered, refusal) refl,
        inr (
          session,
          answered,
          (λ checkout p.
              let pass = (assess_iff none s.packs session checkout).1 p in
              let clash : refused outcome ≡ passed checkout = sym refusal ∙ pass in cc),
        ),
      )
      | inr (checkout, pass) ↦
          let p = (assess_iff none s.packs session checkout).0 pass in
          let input = grant_input session (some d.event.id) d.now checkout in
          inl (
            session,
            input,
            answered,
            grant_input-IsTermsOf none s.packs session checkout (some d.event.id) d.now p,
            rw (answered, pass) (granted_db s (grant_purchased_credit_lot d.call input s.db)),
          )
    ]
  ]

  pub routed :
      (type : EventType)
      → d.event.type ≡ type
      → IsBooked d s.db s.packs type (route type (default_deps d) d.event s)
  unfolding route default_deps handle_refund_event charge_id transition_for
  routed session_completed e = fulfilled
  routed session_async_payment_succeeded e = fulfilled
  routed session_async_payment_failed e = refl
  routed session_expired e = refl
  routed charge_refunded e = rw e (revoke_charge-IsRevoked d s d.event.object_id)
  routed refund_created e = rw e (refund_created-IsRevoked d s)
  routed dispute_created e = elim disputed [
    | inl (dispute, payment, found, same) ↦
        let freezes =
          same
          ∙ ap
              (λ t.
                transition_for d.notify d.call d.event dispute payment d.clock
                  (is_dispute_created t) s)
              e in
        inl (
          dispute,
          payment,
          found,
          ap (λ (r : Reply StripeWebhookStatus × Store). r.1.db) freezes ∙ freeze_for-db payment,
        )
    | inr left ↦ inr left
  ]
  routed dispute_closed e = elim disputed [
    | inl (dispute, payment, found, same) ↦
        let resolves =
          same
          ∙ ap
              (λ t.
                transition_for d.notify d.call d.event dispute payment d.clock
                  (is_dispute_created t) s)
              e in
        elim (resolve_for-db payment dispute.status) [
          | inl (disposition, by_status, books) ↦ inl (
            dispute,
            payment,
            disposition,
            found,
            by_status,
            ap (λ (r : Reply StripeWebhookStatus × Store). r.1.db) resolves ∙ books,
          )
          | inr (left, undecided) ↦ inr (
            subst (IsLeft s.db) (sym resolves) left,
            (λ other payment' disposition h by_status. undecided disposition (
                subst (λ (x : StripeDispute). IsDisposition x.status disposition)
                  (only_dispute dispute other payment' found.0 h).0 by_status)),
          )
        ]
    | inr (left, none_found) ↦
        inr (left, (λ dispute payment disposition h _. none_found dispute payment h))
  ]
  routed (unrecognised text) e = refl
