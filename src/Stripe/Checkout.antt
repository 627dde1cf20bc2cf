-- ===== src/Stripe/Checkout.antt =====
-- `createCreditCheckoutSession` of stripe-purchase.ts: a pack of the catalogue becomes a hosted Checkout
-- session. Ids that end up in the session's metadata are texts, and the rows of the database have their
-- keys. Of the parameters of a session, those that are constants are left out.
pub mod Settles
use prelude.Base.{
  ℕ, zero, suc, ◌+◌, ◌*◌, Bool, true, false, not, Option, none, some, List, [], ◌∷◌, ◌++◌, ◌==◌,
  ◌||◌, ◌&&◌, if◌then◌else◌, leb, ltb, filter, any, head?, is_key, map,
}
use prelude.Base.Int.{ℤ, pos, ◌-ℤ◌, eqb_ℤ}
use prelude.Calendar.{Date, date_of, ms_per_day}
use prelude.CreditLots.Sort.{sort}
use prelude.Ledger.Schema.{Text, Db, CreditWallet}
use prelude.Ledger.Table.{find_row, update_row}
use prelude.Ledger.Monad.{unique_violation, record_not_found}
use prelude.Ledger.Wallet.{Call, ensure_wallet, first_five_expiry_days, paid_credit_expiry_days}
use prelude.Ledger.Purchase.{same_text, to_upper_case}
use prelude.Stripe.{
  Reply, reply, raised, StripeError, ledger, unsupported_credit_currency,
  missing_checkout_session_url, Store, StripeOp, return, ask, on_ledger, ◌>>=◌, truthy, CreditPack,
}
use prelude.Texts.{codes, trim, drop_end, is_empty, key_of}
use prelude.Stripe.Numbers.{decimal_text}
use prelude.Stripe.Fulfilment.{SessionMetadata}
use prelude.Stripe.Switches.{Environment, is_credit_billing_enabled, is_stripe_purchase_configured}
use prelude.Stripe.Customers.{
  StripePurchaseClient, PurchaseInput, SessionParams, CreatedSession, StripePrice, ListedPrice,
  Locale, ensure_stripe_customer,
}
use prelude.Stripe.Pricing.{PackPricing, resolve_pack_pricing}

pub data CheckoutError : Type 0 where
  unknown_pack pack_not_purchasable not_configured : CheckoutError

pub data CreditCheckoutResult : Type 0 where
  redirect : Text → CreditCheckoutResult
  failed : CheckoutError → CreditCheckoutResult

abbrev two_digits : ℕ → Text
two_digits n = if ltb n 10 then b'0' ∷ decimal_text (pos n) else decimal_text (pos n)

-- `toISOString().slice(0, 10)`
unfoldable pub iso_date : Date → Text
iso_date date =
    decimal_text (pos date.year)
    ++ (b'-' ∷ two_digits (date.month + 1))
    ++ (b'-' ∷ two_digits (date.day + 1))

unfoldable pub credit_invoice_description : ℤ → ℕ → Text
unfolding iso_date
credit_invoice_description credits now =
    let expires_at = now + paid_credit_expiry_days * ms_per_day in
    let label = if eqb_ℤ credits (pos 1) then codes "credit" else codes "credits" in
    decimal_text credits
    ++ codes " HireCall interview "
    ++ label
    ++ codes " — valid until "
    ++ iso_date (date_of expires_at)
    ++ codes " (12 months from the purchase date)."

abbrev pub text_of : Option ℤ → Option Text
text_of none = none
text_of (some n) = some (decimal_text n)

-- `pack.id` is the input's text, by which the pack was found.
unfoldable pub session_metadata : PurchaseInput → CreditPack → PackPricing → SessionMetadata
session_metadata input pack pricing = record {
  organization_id = some input.organization_id;
  pack_id = some input.pack_id;
  credits = some (decimal_text pack.credits_granted);
  amount_cents = some (decimal_text pricing.amount_cents);
  amount_cents_usd = text_of pricing.amount_cents_usd;
}

unfoldable pub session_params : PurchaseInput → CreditPack → PackPricing → ℕ → SessionParams
unfolding session_metadata credit_invoice_description drop_end
session_params input pack pricing customer =
    let base_url = drop_end (λ c. c == b'/') input.origin in
    record {
      customer = customer;
      price = pricing.price_id;
      locale = input.locale;
      description = credit_invoice_description pack.credits_granted input.now;
      client_reference_id = input.organization_id;
      metadata = session_metadata input pack pricing;
      success_url =
          base_url ++ codes "/api/billing/checkout-return?session_id={CHECKOUT_SESSION_ID}";
      cancel_url = base_url ++ codes "/settings?view=billing&purchase=cancelled";
    }

-- `!session.url`
unfoldable pub redirect_to : ℕ → Option Text → StripeOp CreditCheckoutResult
redirect_to id none = ask (raised (missing_checkout_session_url id))
redirect_to id (some []) = ask (raised (missing_checkout_session_url id))
redirect_to id (some (c ∷ url)) = return (redirect (c ∷ url))

unfoldable pub create_priced :
    StripePurchaseClient
    → Call
    → PurchaseInput
    → CreditPack
    → Option PackPricing
    → StripeOp CreditCheckoutResult
unfolding session_params ensure_stripe_customer redirect_to
create_priced stripe call input pack none = return (failed pack_not_purchasable)
create_priced stripe call input pack (some pricing) = do
  customer ← ensure_stripe_customer stripe call input
  session ← ask (stripe.create_session (session_params input pack pricing customer))
  redirect_to session.id session.url

abbrev supported_credit_currencies : List Text
supported_credit_currencies = codes "EUR" ∷ codes "USD" ∷ []

unfoldable pub is_supported_currency : Text → Bool
unfolding same_text to_upper_case
is_supported_currency t = any (same_text (to_upper_case (trim t))) supported_credit_currencies

unfoldable pub create_at_price :
    StripePurchaseClient
    → Call
    → PurchaseInput
    → CreditPack
    → Option ℕ
    → StripeOp CreditCheckoutResult
unfolding create_priced resolve_pack_pricing is_supported_currency
create_at_price stripe call input pack none = return (failed pack_not_purchasable)
create_at_price stripe call input pack (some price_id) =
    if is_supported_currency pack.currency
    then (resolve_pack_pricing stripe input.pack_id pack price_id
        >>= create_priced stripe call input pack)
    else ask (raised (unsupported_credit_currency pack.id pack.currency))

unfoldable pub purchase_pack :
    StripePurchaseClient → Call → PurchaseInput → Option CreditPack → StripeOp CreditCheckoutResult
unfolding create_at_price
purchase_pack stripe call input none = return (failed unknown_pack)
purchase_pack stripe call input (some pack) =
    if not pack.enabled
    then return (failed pack_not_purchasable)
    else create_at_price stripe call input pack (truthy pack.stripe_price_id)

unfoldable pub create_credit_checkout_session :
    Environment → StripePurchaseClient → Call → PurchaseInput → StripeOp CreditCheckoutResult
unfolding purchase_pack is_credit_billing_enabled is_stripe_purchase_configured
create_credit_checkout_session env stripe call input s =
    if not (is_credit_billing_enabled env) || not (is_stripe_purchase_configured env)
    then (reply (failed not_configured), s)
    else purchase_pack stripe call input
        (find_row (λ (p : CreditPack). p.id) (key_of input.pack_id) s.packs) s
