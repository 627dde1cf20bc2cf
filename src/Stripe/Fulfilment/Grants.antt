-- ===== src/Stripe/Fulfilment/Grants.antt =====
-- Which sessions pass the checks of fulfilment.
use prelude.Base.{
  ℕ, ◌≡◌, refl, sym, subst, ◌∙◌, ap, ◌↔◌, Bool, true, false, not, ◌||◌, Option, none, some, List,
  if◌then◌else◌,
}
use prelude.Base.Int.{ℤ, pos, leb_ℤ}
use prelude.Ledger.Schema.{Text}
use prelude.Ledger.Table.{find_row}
use prelude.Stripe.{id_of, truthy, CreditPack}
use prelude.Texts.{trim, is_empty, key_of}
use prelude.Stripe.Numbers.{number, equals_int}
use prelude.Stripe.Fulfilment.{
  PaymentStatus, paid, unpaid, SessionMetadata, CheckoutSession, CreditCheckoutFulfilment, Checked,
  passed, refused, and_then, require, trimmed, metadata_of, is_owned, check_collected, usable,
  check_pack, number_of, FulfillableCurrency, fulfillable_currency, expected_amount, expect,
  expect_in, resolve_expected_payment, check_amount, check_payment_intent, amount_mismatch,
  foreign_session,
}
use prelude.Stripe.Fulfilment.Handler.{
  PaidCheckout, check_payment, check_money, check_credits, check_catalogue, check_pack_named,
  check_metadata, check_paid, assess,
}

-- A session of the caller's, paid for, whose metadata names an organization and a pack of the
-- catalogue that is on sale and worth credits, quotes these credits and, for the currency that the
-- session settled in, an amount that is the session's, and whose payment is identified.
pub record PaidFor (expected : Option Text) (packs : List CreditPack) (session : CheckoutSession)
    (checkout : PaidCheckout) : Type 0 where
  pub pack_id : Text
  pub quoted : Text
  pub owned : is_owned expected session.metadata ≡ true
  pub collected : session.payment_status ≡ paid
  pub organization :
      usable (trimmed (metadata_of session.metadata).organization_id)
      ≡ passed checkout.organization_id
  pub names_pack : usable (trimmed (metadata_of session.metadata).pack_id) ≡ passed pack_id
  pub listed : find_row (λ (p : CreditPack). p.id) (key_of pack_id) packs ≡ some checkout.pack
  pub on_sale : checkout.pack.enabled ≡ true
  pub is_worth : leb_ℤ checkout.pack.credits_granted (pos 0) ≡ false
  pub credits :
      equals_int (number_of (metadata_of session.metadata).credits) checkout.pack.credits_granted
      ≡ true
  pub settled_in : fulfillable_currency session.currency ≡ some checkout.currency
  pub quotes : expected_amount checkout.currency (metadata_of session.metadata) ≡ some quoted
  pub is_quote : is_empty (trim quoted) ≡ false
  pub subtotal : session.amount_subtotal ≡ some checkout.amount_cents
  pub amount : equals_int (number quoted) checkout.amount_cents ≡ true
  pub payment : truthy (id_of session.payment_intent) ≡ some checkout.payment_intent

pub passes :
    (expected : Option Text) (packs : List CreditPack) (session : CheckoutSession)
    (checkout : PaidCheckout)
    → PaidFor expected packs session checkout
    → assess expected packs session ≡ passed checkout
unfolding assess check_pack check_amount check_collected resolve_expected_payment
passes expected packs session checkout p =
    rw
      (
        p.owned, p.collected, p.organization, p.names_pack, p.listed, p.on_sale, p.is_worth,
        p.credits, p.settled_in, p.quotes, p.is_quote, p.subtotal, p.amount, p.payment,
      )
      refl

-- A chain of checks passes where each of its checks does.
and_then-passed :
    {A B : Type 0} (c : Checked A) (f : A → Checked B) (b : B)
    → and_then c f ≡ passed b
    → (a : A) × (c ≡ passed a) × (f a ≡ passed b)
and_then-passed (passed a) f b h = (a, refl, h)
and_then-passed (refused outcome) f b h = cc

require-passed :
    (b : Bool) (outcome : CreditCheckoutFulfilment) (u : Unit)
    → require b outcome ≡ passed u
    → b ≡ true
require-passed true outcome u h = refl
require-passed false outcome u h = cc

check_collected-passed :
    (status : PaymentStatus) (u : Unit) → check_collected status ≡ passed u → status ≡ paid
unfolding check_collected
check_collected-passed paid u h = refl
check_collected-passed unpaid u h = cc
check_collected-passed (PaymentStatus.other text) u h = cc

unless-passed :
    {A : Type 0} (b : Bool) (outcome : CreditCheckoutFulfilment) (a a' : A)
    → (if b then refused outcome else passed a) ≡ passed a'
    → (b ≡ false) × (a ≡ a')
unless-passed true outcome a a' h = cc
unless-passed false outcome a a' h = (refl, cc)

if-passed :
    {A : Type 0} (b : Bool) (outcome : CreditCheckoutFulfilment) (a a' : A)
    → (if b then passed a else refused outcome) ≡ passed a'
    → (b ≡ true) × (a ≡ a')
if-passed true outcome a a' h = (refl, cc)
if-passed false outcome a a' h = cc

neither : (enabled low : Bool) → (not enabled || low) ≡ false → (enabled ≡ true) × (low ≡ false)
neither true low h = (refl, h)
neither false low h = cc

check_pack-passed :
    (found : Option CreditPack) (pack : CreditPack)
    → check_pack found ≡ passed pack
    → (found ≡ some pack) × (pack.enabled ≡ true) × (leb_ℤ pack.credits_granted (pos 0) ≡ false)
unfolding check_pack
check_pack-passed none pack h = cc
check_pack-passed (some p) pack h =
    let (sold, same) =
      unless-passed (not p.enabled || leb_ℤ p.credits_granted (pos 0)) _ p pack h in
    let (on, worth) = neither p.enabled (leb_ℤ p.credits_granted (pos 0)) sold in
    (
      ap some same,
      ap (λ (q : CreditPack). q.enabled) (sym same) ∙ on,
      ap (λ (q : CreditPack). leb_ℤ q.credits_granted (pos 0)) (sym same) ∙ worth,
    )

check_payment_intent-passed :
    (found : Option ℕ) (payment : ℕ)
    → check_payment_intent found ≡ passed payment
    → found ≡ some payment
check_payment_intent-passed none payment h = cc
check_payment_intent-passed (some p) payment h = let same : p ≡ payment = cc in ap some same

-- What an amount that passes was compared with.
record Agrees (currency : Option Text) (metadata : SessionMetadata) (charged : Option ℤ)
    (settled : FulfillableCurrency) (cents : ℤ) : Type 0 where
  pub quoted : Text
  pub settled_in : fulfillable_currency currency ≡ some settled
  pub quotes : expected_amount settled metadata ≡ some quoted
  pub is_quote : is_empty (trim quoted) ≡ false
  pub subtotal : charged ≡ some cents
  pub amount : equals_int (number quoted) cents ≡ true

check_amount-Agrees :
    (currency : Option Text) (metadata : SessionMetadata) (subtotal : Option ℤ)
    (settled : FulfillableCurrency) (cents : ℤ)
    → check_amount (resolve_expected_payment currency metadata) subtotal ≡ passed (settled, cents)
    → Agrees currency metadata subtotal settled cents
unfolding check_amount resolve_expected_payment
check_amount-Agrees currency metadata subtotal settled cents =
    at (fulfillable_currency currency) refl
  where
    paid_in :
        (in_currency : FulfillableCurrency) (raw : Text) (s : Option ℤ)
        → fulfillable_currency currency ≡ some in_currency
        → expected_amount in_currency metadata ≡ some raw
        → is_empty (trim raw) ≡ false
        → subtotal ≡ s
        → check_amount (some (record { currency = in_currency; amount_cents = number raw })) s
          ≡ passed (settled, cents)
        → Agrees currency metadata subtotal settled cents
    paid_in in_currency raw none found quoted filled sub h = cc
    paid_in in_currency raw (some c) found quoted filled sub h =
        let (agrees, same) =
          if-passed (equals_int (number raw) c) _ (in_currency, c) (settled, cents) h in
        let first : in_currency ≡ settled = ap (λ (x : FulfillableCurrency × ℤ). x.0) same in
        let second : c ≡ cents = ap (λ (x : FulfillableCurrency × ℤ). x.1) same in
        record {
          quoted = raw;
          settled_in = found ∙ ap some first;
          quotes = ap (λ u. expected_amount u metadata) (sym first) ∙ quoted;
          is_quote = filled;
          subtotal = sub ∙ ap some second;
          amount = ap (equals_int (number raw)) (sym second) ∙ agrees;
        }

    filled :
        (in_currency : FulfillableCurrency) (raw : Text) (blank : Bool)
        → fulfillable_currency currency ≡ some in_currency
        → expected_amount in_currency metadata ≡ some raw
        → is_empty (trim raw) ≡ blank
        → check_amount
            (if blank
              then none
              else some (record { currency = in_currency; amount_cents = number raw }))
            subtotal
          ≡ passed (settled, cents)
        → Agrees currency metadata subtotal settled cents
    filled in_currency raw true found quoted e h = cc
    filled in_currency raw false found quoted e h =
        paid_in in_currency raw subtotal found quoted e refl h

    in_text :
        (in_currency : FulfillableCurrency) (raw : Option Text)
        → fulfillable_currency currency ≡ some in_currency
        → expected_amount in_currency metadata ≡ raw
        → check_amount (expect in_currency raw) subtotal ≡ passed (settled, cents)
        → Agrees currency metadata subtotal settled cents
    in_text in_currency none found quoted h = cc
    in_text in_currency (some raw) found quoted h =
        filled in_currency raw (is_empty (trim raw)) found quoted refl h

    at :
        (found : Option FulfillableCurrency)
        → fulfillable_currency currency ≡ found
        → check_amount (expect_in found metadata) subtotal ≡ passed (settled, cents)
        → Agrees currency metadata subtotal settled cents
    at none e h = cc
    at (some in_currency) e h = in_text in_currency (expected_amount in_currency metadata) e refl h

-- A session passes the checks exactly when it is paid for.
pub assess_iff :
    (expected : Option Text) (packs : List CreditPack) (session : CheckoutSession)
    (checkout : PaidCheckout)
    → (assess expected packs session ≡ passed checkout) ↔ PaidFor expected packs session checkout
unfolding assess
assess_iff expected packs session checkout = (found, passes expected packs session checkout)
  where
    metadata : SessionMetadata
    metadata = metadata_of session.metadata

    found :
        assess expected packs session ≡ passed checkout → PaidFor expected packs session checkout
    found h =
        let (_, own, h1) = and_then-passed _ (λ _. check_paid packs session) checkout h in
        let (_, collected, h2) =
          and_then-passed (check_collected session.payment_status)
            (λ _. check_metadata packs session metadata) checkout h1 in
        let (org, organization, h3) =
          and_then-passed (usable (trimmed metadata.organization_id))
            (check_pack_named packs session metadata) checkout h2 in
        let (pack_id, names_pack, h4) =
          and_then-passed (usable (trimmed metadata.pack_id))
            (check_catalogue packs session metadata org) checkout h3 in
        let (pack, sold, h5) =
          and_then-passed (check_pack (find_row (λ (p : CreditPack). p.id) (key_of pack_id) packs))
            (check_credits session metadata org) checkout h4 in
        let (_, credits, h6) =
          and_then-passed
            (require (equals_int (number_of metadata.credits) pack.credits_granted) amount_mismatch)
            (λ _. check_money session metadata org pack) checkout h5 in
        let (money, agrees, h7) =
          and_then-passed
            (check_amount (resolve_expected_payment session.currency metadata)
              session.amount_subtotal)
            (check_payment session org pack) checkout h6 in
        let assembled : ℕ → PaidCheckout = λ payment. record {
          organization_id = org;
          pack = pack;
          currency = money.0;
          amount_cents = money.1;
          payment_intent = payment;
        } in
        let (payment, identified, h8) =
          and_then-passed (check_payment_intent (truthy (id_of session.payment_intent)))
            (λ payment. passed (assembled payment)) checkout h7 in
        let same : assembled payment ≡ checkout = cc in
        let on_sale =
          check_pack-passed (find_row (λ (p : CreditPack). p.id) (key_of pack_id) packs) pack
            sold in
        let money_agrees =
          check_amount-Agrees session.currency metadata session.amount_subtotal money.0 money.1
            agrees in
        subst (PaidFor expected packs session) {x = assembled payment} same (record {
          pack_id = pack_id;
          quoted = money_agrees.quoted;
          owned = require-passed (is_owned expected session.metadata) foreign_session _ own;
          collected = check_collected-passed session.payment_status _ collected;
          organization = organization;
          names_pack = names_pack;
          listed = on_sale.0;
          on_sale = on_sale.1;
          is_worth = on_sale.2;
          credits =
              require-passed (equals_int (number_of metadata.credits) pack.credits_granted)
                amount_mismatch _ credits;
          settled_in = money_agrees.settled_in;
          quotes = money_agrees.quotes;
          is_quote = money_agrees.is_quote;
          subtotal = money_agrees.subtotal;
          amount = money_agrees.amount;
          payment =
              check_payment_intent-passed (truthy (id_of session.payment_intent)) payment
                identified;
        })
