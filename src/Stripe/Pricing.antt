-- ===== src/Stripe/Pricing.antt =====
-- `resolvePackPricing` of stripe-purchase.ts: the cached price of a pack, or the newest one that Stripe
-- has for it.
use prelude.Base.{
  ℕ, Bool, true, false, not, Option, none, some, List, ◌==◌, ◌&&◌, if◌then◌else◌, filter, any,
  head?, is_key,
}
use prelude.Base.Int.{ℤ, pos, ◌-ℤ◌}
use prelude.CreditLots.Sort.{sort}
use prelude.Ledger.Schema.{Text}
use prelude.Ledger.Table.{update_row}
use prelude.Ledger.Monad.{unique_violation}
use prelude.Ledger.Purchase.{same_text}
use prelude.Stripe.{reply, raised, ledger, StripeOp, return, ask, ◌>>=◌, CreditPack}
use prelude.Stripe.Customers.{StripePurchaseClient, StripePrice, ListedPrice}

pub record PackPricing : Type 0 where
  pub price_id : ℕ
  pub amount_cents : ℤ
  pub amount_cents_usd : Option ℤ

-- `a ?? b`
abbrev pub or_else {ℓ} : {A : Type ℓ} → Option A → A → A
or_else none b = b
or_else (some a) b = a

abbrev pub or_none : Option ℤ → Option ℤ → Option ℤ
or_none none b = b
or_none (some a) b = some a

abbrev pub is_price_of : Text → ListedPrice → Bool
is_price_of pack_id price = names price.pack_id
  where
    names : Option Text → Bool
    names none = false
    names (some t) = same_text t pack_id

abbrev by_creation : ListedPrice → ListedPrice → ℤ
by_creation left right = pos right.created -ℤ pos left.created

unfoldable pub newest_price : Text → List ListedPrice → Option ListedPrice
unfolding same_text
newest_price pack_id prices = head? (sort by_creation (filter (is_price_of pack_id) prices))

abbrev pub refreshed : CreditPack → ListedPrice → PackPricing
refreshed pack price = record {
  price_id = price.id;
  amount_cents = or_else price.unit_amount pack.unit_amount_cents;
  amount_cents_usd = or_none price.usd_unit_amount pack.unit_amount_cents_usd;
}

abbrev pub cache_pricing : PackPricing → CreditPack → CreditPack
cache_pricing pricing pack = record pack {
  stripe_price_id = some pricing.price_id;
  unit_amount_cents = pricing.amount_cents;
  unit_amount_cents_usd = pricing.amount_cents_usd;
}

-- `stripePriceId` is unique over the catalogue.
abbrev price_taken : ℕ → ℕ → List CreditPack → Bool
price_taken id price packs =
    any (λ (p : CreditPack). not (p.id == id) && is_key price p.stripe_price_id) packs

unfoldable pub store_pricing : CreditPack → PackPricing → StripeOp (Option PackPricing)
store_pricing pack pricing s =
    if price_taken pack.id pricing.price_id s.packs
    then (raised (ledger unique_violation), s)
    else (
      reply (some pricing),
      record s {
        packs = update_row (λ (p : CreditPack). p.id) pack.id (cache_pricing pricing) s.packs;
      },
    )

unfoldable pub reprice : CreditPack → Option ListedPrice → StripeOp (Option PackPricing)
unfolding store_pricing
reprice pack none = return none
reprice pack (some price) = store_pricing pack (refreshed pack price)

abbrev pub cached : CreditPack → ℕ → PackPricing
cached pack price_id = record {
  price_id = price_id;
  amount_cents = pack.unit_amount_cents;
  amount_cents_usd = pack.unit_amount_cents_usd;
}

-- The cached pricing under an active price, or else the product's newest price for the pack.
unfoldable pub price_or_replacement :
    StripePurchaseClient → Text → CreditPack → StripePrice → Bool → StripeOp (Option PackPricing)
unfolding reprice newest_price
price_or_replacement stripe pack_id pack stored true = return (some (cached pack stored.id))
price_or_replacement stripe pack_id pack stored false =
    ask (stripe.list_prices (or_else pack.stripe_product_id stored.product)) >>= λ prices.
    reprice pack (newest_price pack_id prices)

unfoldable pub resolve_pack_pricing :
    StripePurchaseClient → Text → CreditPack → ℕ → StripeOp (Option PackPricing)
unfolding price_or_replacement
resolve_pack_pricing stripe pack_id pack price_id =
    ask (stripe.retrieve_price price_id) >>= λ stored.
    price_or_replacement stripe pack_id pack stored stored.active
