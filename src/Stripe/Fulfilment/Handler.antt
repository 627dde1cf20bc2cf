-- ===== src/Stripe/Fulfilment/Handler.antt =====
-- stripe-fulfilment.ts, fulfillCreditCheckout: the checks in the order of the code, the grant and its outcome.
use prelude.Base.{ℕ, Option, some, List}
use prelude.Base.Int.{ℤ}
use prelude.Ledger.Schema.{Text}
use prelude.Ledger.Table.{find_row}
use prelude.Ledger.Wallet.{Call}
use prelude.Ledger.Purchase.{
  GrantPurchasedCreditLotInput, GrantPurchasedCreditLotResult, grant_purchased_credit_lot,
}
use prelude.Stripe.{Reply, StripeOp, return, ask, on_ledger, ◌>>=◌, id_of, truthy, CreditPack}
use prelude.Texts.{key_of}
use prelude.Stripe.Numbers.{equals_int}
use prelude.Stripe.Fulfilment.{
  SessionMetadata, CheckoutSession, CreditCheckoutFulfilment, Checked, and_then, require, trimmed,
  metadata_of, is_owned, check_collected, usable, check_pack, number_of, FulfillableCurrency,
  currency_text, resolve_expected_payment, check_amount, check_payment_intent,
  resolve_observed_billing_country, granted, already_granted, amount_mismatch, foreign_session,
  currency_mismatch, passed, refused,
}

-- What the checks have found out about a session that is paid for.
pub record PaidCheckout : Type 0 where
  pub organization_id : Text
  pub pack : CreditPack
  pub currency : FulfillableCurrency
  pub amount_cents : ℤ
  pub payment_intent : ℕ

-- The guards of `fulfillCreditCheckout` from the last one to the first, each with those after it.
abbrev pub check_payment :
    CheckoutSession → Text → CreditPack → FulfillableCurrency × ℤ → Checked PaidCheckout
check_payment session org pack money =
    and_then (check_payment_intent (truthy (id_of session.payment_intent))) λ payment.
      passed (record {
        organization_id = org;
        pack = pack;
        currency = money.0;
        amount_cents = money.1;
        payment_intent = payment;
      })

abbrev pub check_money :
    CheckoutSession → SessionMetadata → Text → CreditPack → Checked PaidCheckout
check_money session metadata org pack =
    and_then
      (check_amount (resolve_expected_payment session.currency metadata) session.amount_subtotal)
      (check_payment session org pack)

abbrev pub check_credits :
    CheckoutSession → SessionMetadata → Text → CreditPack → Checked PaidCheckout
check_credits session metadata org pack =
    and_then
      (require (equals_int (number_of metadata.credits) pack.credits_granted) amount_mismatch)
      λ _. check_money session metadata org pack

abbrev pub check_catalogue :
    List CreditPack → CheckoutSession → SessionMetadata → Text → Text → Checked PaidCheckout
check_catalogue packs session metadata org pack_id =
    and_then (check_pack (find_row (λ (p : CreditPack). p.id) (key_of pack_id) packs))
      (check_credits session metadata org)

abbrev pub check_pack_named :
    List CreditPack → CheckoutSession → SessionMetadata → Text → Checked PaidCheckout
check_pack_named packs session metadata org =
    and_then (usable (trimmed metadata.pack_id)) (check_catalogue packs session metadata org)

abbrev pub check_metadata :
    List CreditPack → CheckoutSession → SessionMetadata → Checked PaidCheckout
check_metadata packs session metadata =
    and_then (usable (trimmed metadata.organization_id)) (check_pack_named packs session metadata)

abbrev pub check_paid : List CreditPack → CheckoutSession → Checked PaidCheckout
check_paid packs session =
    and_then (check_collected session.payment_status)
      λ _. check_metadata packs session (metadata_of session.metadata)

unfoldable pub assess : Option Text → List CreditPack → CheckoutSession → Checked PaidCheckout
unfolding check_pack check_amount
assess expected packs session =
    and_then (require (is_owned expected session.metadata) foreign_session)
      λ _. check_paid packs session

abbrev pub grant_input :
    CheckoutSession → Option ℕ → ℕ → PaidCheckout → GrantPurchasedCreditLotInput
grant_input session event now checkout = record {
  organization_id = key_of checkout.organization_id;
  pack_id = checkout.pack.id;
  credits_granted = checkout.pack.credits_granted;
  unit_amount_cents = checkout.amount_cents;
  currency = currency_text checkout.currency;
  billing_country = resolve_observed_billing_country session.customer_details;
  stripe_payment_intent_id = checkout.payment_intent;
  stripe_checkout_session_id = some session.id;
  stripe_invoice_id = id_of session.invoice;
  stripe_event_id = event;
  now = now;
}

unfoldable pub fulfill_paid_payment_intent :
    Call → GrantPurchasedCreditLotInput → StripeOp GrantPurchasedCreditLotResult
fulfill_paid_payment_intent call input = on_ledger (grant_purchased_credit_lot call input)

-- The ledger's result as an outcome; a mismatch loses its currencies.
unfoldable pub outcome_of : GrantPurchasedCreditLotResult → CreditCheckoutFulfilment
outcome_of (GrantPurchasedCreditLotResult.granted lot_id) = granted lot_id
outcome_of GrantPurchasedCreditLotResult.already_granted = already_granted
outcome_of (GrantPurchasedCreditLotResult.currency_mismatch wallet session) = currency_mismatch

unfoldable pub grant_checked :
    Call → CheckoutSession → Option ℕ → ℕ → Checked PaidCheckout → StripeOp CreditCheckoutFulfilment
unfolding fulfill_paid_payment_intent outcome_of
grant_checked call session event now (refused outcome) = return outcome
grant_checked call session event now (passed checkout) =
    fulfill_paid_payment_intent call (grant_input session event now checkout) >>= λ grant.
    return (outcome_of grant)

unfoldable pub fulfill_credit_checkout :
    (ℕ → Reply CheckoutSession)
    → Call
    → ℕ
    → Option Text
    → Option ℕ
    → ℕ
    → StripeOp CreditCheckoutFulfilment
unfolding grant_checked assess
fulfill_credit_checkout retrieve call session_id expected event now =
    ask (retrieve session_id) >>= λ session s.
    grant_checked call session event now (assess expected s.packs session) s
