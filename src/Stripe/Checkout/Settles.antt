-- ===== src/Stripe/Checkout/Settles.antt =====
-- What a Checkout session carries is what fulfilment reads.
use prelude.Base.{
  ℕ, ◌≡◌, refl, ap, ◌∙◌, ◌⊎◌, inl, inr, true, false, Option, none, some, List, [], ◌∷◌, arith,
}
use prelude.Base.Int.{ℤ, pos, leb_ℤ, eqb_ℤ}
use prelude.Ledger.Schema.{Text}
use prelude.Ledger.Table.{find_row}
use prelude.Ledger.Purchase.{same_text}
use prelude.Stripe.{id_of, truthy, CreditPack}
use prelude.Texts.{same_text_refl, trim, is_empty, key_of, IsWord, trim-word}
use prelude.Stripe.Numbers.{number, equals_int, decimal_text}
use prelude.Stripe.Numbers.Decimals.{
  number-decimal_text, decimal_text-IsWord, decimal_text-nonempty,
}
use prelude.Stripe.Fulfilment.{
  paid, CheckoutSession, passed, metadata_of, is_owned, usable, FulfillableCurrency, eur, usd,
  currency_text, fulfillable_currency, expected_amount,
}
use prelude.Stripe.Fulfilment.Handler.{assess}
use prelude.Stripe.Fulfilment.Grants.{passes}
use prelude.Stripe.Customers.{PurchaseInput}
use prelude.Stripe.Pricing.{PackPricing}
use prelude.Stripe.Checkout.{session_metadata, text_of}

-- The price of a pack in a currency, where it has one.
abbrev pub price_in : FulfillableCurrency → PackPricing → Option ℤ
price_in eur pricing = some pricing.amount_cents
price_in usd pricing = pricing.amount_cents_usd

usable-word : (t : Text) → IsWord t → is_empty t ≡ false → usable (some (trim t)) ≡ passed t
usable-word [] w h = cc
usable-word (c ∷ t) w h = rw (trim-word (c ∷ t) w) refl

eqb_ℤ-refl : (z : ℤ) → eqb_ℤ z z ≡ true
eqb_ℤ-refl z = ground arith

number-quoted : (z : ℤ) → equals_int (number (decimal_text z)) z ≡ true
number-quoted z = number-decimal_text z z ∙ eqb_ℤ-refl z

settled_in : (c : FulfillableCurrency) → fulfillable_currency (some (currency_text c)) ≡ some c
unfolding fulfillable_currency same_text
settled_in eur = refl
settled_in usd = refl

quoted_in :
    (input : PurchaseInput) (pack : CreditPack) (pricing : PackPricing)
    (currency : FulfillableCurrency) (cents : ℤ)
    → price_in currency pricing ≡ some cents
    → expected_amount currency (session_metadata input pack pricing) ≡ some (decimal_text cents)
unfolding expected_amount session_metadata
quoted_in input pack pricing eur cents h =
    let same : pricing.amount_cents ≡ cents = cc in ap (λ c. some (decimal_text c)) same
quoted_in input pack pricing usd cents h = ap text_of h

-- A session that was created for a pack passes the checks of fulfilment once it is paid: for the webhook
-- and for the organization that bought it, in either currency that the pack has a price in, at that
-- price before tax, as long as the catalogue still sells the pack for the same credits, more than none;
-- the ids of the organization and the pack are not empty and have no white space.
pub checkout_settles :
    (input : PurchaseInput) (pack pack' : CreditPack) (pricing : PackPricing)
    (packs : List CreditPack) (session : CheckoutSession) (expected : Option Text)
    (currency : FulfillableCurrency) (cents : ℤ) (payment : ℕ)
    → session.metadata ≡ some (session_metadata input pack pricing)
    → IsWord input.organization_id
    → is_empty input.organization_id ≡ false
    → IsWord input.pack_id
    → is_empty input.pack_id ≡ false
    → (expected ≡ none) ⊎ (expected ≡ some input.organization_id)
    → find_row (λ (p : CreditPack). p.id) (key_of input.pack_id) packs ≡ some pack'
    → pack'.enabled ≡ true
    → leb_ℤ pack'.credits_granted (pos 0) ≡ false
    → pack'.credits_granted ≡ pack.credits_granted
    → session.payment_status ≡ paid
    → session.currency ≡ some (currency_text currency)
    → price_in currency pricing ≡ some cents
    → session.amount_subtotal ≡ some cents
    → truthy (id_of session.payment_intent) ≡ some payment
    → assess expected packs session
      ≡ passed (record {
        organization_id = input.organization_id;
        pack = pack';
        currency = currency;
        amount_cents = cents;
        payment_intent = payment;
      })
unfolding session_metadata metadata_of is_owned
checkout_settles input pack pack' pricing packs session expected currency cents payment carries
      org_word org_there pack_word pack_there owner listed on_sale is_worth same_credits is_paid
      in_currency priced charged by =
    passes expected packs session _ (record {
      pack_id = input.pack_id;
      quoted = decimal_text cents;
      owned = rw carries (owned owner);
      collected = is_paid;
      organization = rw carries (usable-word input.organization_id org_word org_there);
      names_pack = rw carries (usable-word input.pack_id pack_word pack_there);
      listed = listed;
      on_sale = on_sale;
      is_worth = is_worth;
      credits = rw (carries, same_credits) (number-quoted pack.credits_granted);
      settled_in = ap fulfillable_currency in_currency ∙ settled_in currency;
      quotes = rw carries (quoted_in input pack pricing currency cents priced);
      is_quote =
          rw (trim-word (decimal_text cents) (decimal_text-IsWord cents))
            (decimal_text-nonempty cents);
      subtotal = charged;
      amount = number-quoted cents;
      payment = by;
    })
  where
    owned :
        (expected ≡ none) ⊎ (expected ≡ some input.organization_id)
        → is_owned expected (some (session_metadata input pack pricing)) ≡ true
    owned (inl e) = rw e refl
    owned (inr e) =
        rw (e, trim-word input.organization_id org_word) (same_text_refl input.organization_id)
