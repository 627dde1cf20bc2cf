-- ===== src/Stripe/Fulfilment/Terms.antt =====
-- The terms of a grant, read off the session and the catalogue.
use prelude.Base.{
  ℕ, ◌≡◌, ◌⊎◌, inl, inr, refl, sym, ap, ◌∙◌, true, false, Bool-cases, Option, none, some, List, [],
  ◌∷◌,
}
use prelude.Base.Int.{ℤ, pos, leb_ℤ}
use prelude.Ledger.Schema.{Text}
use prelude.Ledger.Table.{find_row}
use prelude.Ledger.Purchase.{GrantPurchasedCreditLotInput, same_text}
use prelude.Stripe.{id_of, truthy, CreditPack}
use prelude.Texts.{trim, is_empty, key_of, codes, same_text→eq}
use prelude.Stripe.Numbers.{number, equals_int}
use prelude.Stripe.Fulfilment.{
  SessionMetadata, CheckoutSession, paid, trimmed, usable, passed, metadata_of, is_owned, is_text,
  number_of, FulfillableCurrency, eur, usd, currency_text, fulfillable_currency, settled_currency,
  expected_amount,
}
use prelude.Stripe.Fulfilment.Handler.{PaidCheckout, grant_input}
use prelude.Stripe.Fulfilment.Grants.{PaidFor}

-- What the metadata must quote for a payment in a currency.
abbrev pub IsQuotedIn : Text → SessionMetadata → Text → Type 0
IsQuotedIn currency metadata quoted =
    ((currency ≡ codes "eur") × (metadata.amount_cents ≡ some quoted))
    ⊎ ((currency ≡ codes "usd") × (metadata.amount_cents_usd ≡ some quoted))

-- The session is paid and its metadata names the organization, which is the caller's where the caller has
-- one, and a pack of the catalogue that is on sale; the credits are the pack's and the metadata quotes
-- them, the amount is the subtotal, which the metadata quotes for the session's currency, and the payment,
-- the session, the invoice, the event and the instant are their own.
pub record IsTermsOf (expected : Option Text) (packs : List CreditPack) (session : CheckoutSession)
    (event : Option ℕ) (now : ℕ) (input : GrantPurchasedCreditLotInput) : Type 0 where
  pub metadata : SessionMetadata
  pub organization : Text
  pub pack_named : Text
  pub credits : Text
  pub quoted : Text
  pub pack : CreditPack
  pub carries : session.metadata ≡ some metadata
  pub collected : session.payment_status ≡ paid
  pub names_organization : metadata.organization_id ≡ some organization
  pub has_organization : is_empty (trim organization) ≡ false
  pub owned : (expected ≡ none) ⊎ (expected ≡ some (trim organization))
  pub grants_to : input.organization_id ≡ key_of (trim organization)
  pub names_pack : metadata.pack_id ≡ some pack_named
  pub listed : find_row (λ (p : CreditPack). p.id) (key_of (trim pack_named)) packs ≡ some pack
  pub on_sale : pack.enabled ≡ true
  pub is_worth : leb_ℤ pack.credits_granted (pos 0) ≡ false
  pub grants_pack : input.pack_id ≡ pack.id
  pub grants_credits : input.credits_granted ≡ pack.credits_granted
  pub quotes_credits : metadata.credits ≡ some credits
  pub credits_agree : equals_int (number credits) pack.credits_granted ≡ true
  pub currency : session.currency ≡ some input.currency
  pub amount : session.amount_subtotal ≡ some input.unit_amount_cents
  pub quotes_amount : IsQuotedIn input.currency metadata quoted
  pub amount_agrees : equals_int (number quoted) input.unit_amount_cents ≡ true
  pub payment : truthy (id_of session.payment_intent) ≡ some input.stripe_payment_intent_id
  pub of_session : input.stripe_checkout_session_id ≡ some session.id
  pub of_invoice : input.stripe_invoice_id ≡ id_of session.invoice
  pub of_event : input.stripe_event_id ≡ event
  pub at : input.now ≡ now

usable-trimmed :
    (raw : Option Text) (t : Text)
    → usable (trimmed raw) ≡ passed t
    → (u : Text) × (raw ≡ some u) × (trim u ≡ t) × (is_empty (trim u) ≡ false)
usable-trimmed none t h = cc
usable-trimmed (some u) t h = let k = named (trim u) h in (u, refl, k.0, k.1)
  where
    named : (v : Text) → usable (some v) ≡ passed t → (v ≡ t) × (is_empty v ≡ false)
    named [] k = cc
    named (c ∷ v) k = (cc, refl)

carried :
    (m : Option SessionMetadata) (u : Text)
    → (metadata_of m).organization_id ≡ some u
    → m ≡ some (metadata_of m)
unfolding metadata_of
carried none u h = cc
carried (some metadata) u h = refl

quoted_number :
    (raw : Option Text) (n : ℤ)
    → equals_int (number_of raw) n ≡ true
    → (u : Text) × (raw ≡ some u) × (equals_int (number u) n ≡ true)
unfolding equals_int
quoted_number none n h = cc
quoted_number (some u) n h = (u, refl, h)

settled_text :
    (t : Text) (currency : FulfillableCurrency)
    → settled_currency t ≡ some currency
    → t ≡ currency_text currency
settled_text t currency h = elim (Bool-cases (same_text (currency_text eur) t)) [
  | inl e ↦
      let chosen : some eur ≡ some currency = rw e at h in
      let which : eur ≡ currency = cc in
      sym (same_text→eq (currency_text eur) t e) ∙ ap currency_text which
  | inr e ↦ elim (Bool-cases (same_text (currency_text usd) t)) [
    | inl f ↦
        let chosen : some usd ≡ some currency = rw (e, f) at h in
        let which : usd ≡ currency = cc in
        sym (same_text→eq (currency_text usd) t f) ∙ ap currency_text which
    | inr f ↦ let refusal : none ≡ some currency = rw (e, f) at h in cc
  ]
]

currency_of :
    (c : Option Text) (currency : FulfillableCurrency)
    → fulfillable_currency c ≡ some currency
    → c ≡ some (currency_text currency)
unfolding fulfillable_currency
currency_of none currency h = cc
currency_of (some t) currency h = ap some (settled_text t currency h)

quoted_in :
    (currency : FulfillableCurrency) (metadata : SessionMetadata) (quoted : Text)
    → expected_amount currency metadata ≡ some quoted
    → IsQuotedIn (currency_text currency) metadata quoted
unfolding expected_amount
quoted_in eur metadata quoted h = inl (refl, h)
quoted_in usd metadata quoted h = inr (refl, h)

is_text→eq :
    (t u : Text) (raw : Option Text) → raw ≡ some u → is_text t (trimmed raw) ≡ true → t ≡ trim u
is_text→eq t u none e h = cc
is_text→eq t u (some v) e h =
    let same : v ≡ u = cc in sym (same_text→eq (trim v) t h) ∙ ap trim same

owner :
    (expected : Option Text) (m : Option SessionMetadata) (u : Text)
    → (metadata_of m).organization_id ≡ some u
    → is_owned expected m ≡ true
    → (expected ≡ none) ⊎ (expected ≡ some (trim u))
unfolding is_owned
owner none m u e h = inl refl
owner (some t) m u e h = inr (ap some (is_text→eq t u (metadata_of m).organization_id e h))

pub grant_input-IsTermsOf :
    (expected : Option Text) (packs : List CreditPack) (session : CheckoutSession)
    (checkout : PaidCheckout) (event : Option ℕ) (now : ℕ)
    → PaidFor expected packs session checkout
    → IsTermsOf expected packs session event now (grant_input session event now checkout)
grant_input-IsTermsOf expected packs session checkout event now p =
    let metadata = metadata_of session.metadata in
    let (org, names, same, has) =
      usable-trimmed metadata.organization_id checkout.organization_id p.organization in
    let (pack_named, names_pack, same_pack, _) =
      usable-trimmed metadata.pack_id p.pack_id p.names_pack in
    let (credits, quotes, agree) =
      quoted_number metadata.credits checkout.pack.credits_granted p.credits in
    record {
      metadata = metadata;
      organization = org;
      pack_named = pack_named;
      credits = credits;
      quoted = p.quoted;
      pack = checkout.pack;
      carries = carried session.metadata org names;
      collected = p.collected;
      names_organization = names;
      has_organization = has;
      owned = owner expected session.metadata org names p.owned;
      grants_to = ap key_of (sym same);
      names_pack = names_pack;
      listed = ap (λ t. find_row (λ (q : CreditPack). q.id) (key_of t) packs) same_pack ∙ p.listed;
      on_sale = p.on_sale;
      is_worth = p.is_worth;
      grants_pack = refl;
      grants_credits = refl;
      quotes_credits = quotes;
      credits_agree = agree;
      currency = currency_of session.currency checkout.currency p.settled_in;
      amount = p.subtotal;
      quotes_amount = quoted_in checkout.currency metadata p.quoted p.quotes;
      amount_agrees = p.amount;
      payment = p.payment;
      of_session = refl;
      of_invoice = refl;
      of_event = refl;
      at = refl;
    }
