-- ===== src/Stripe/Fulfilment.antt =====
-- stripe-fulfilment.ts: a paid Checkout session becomes credits, or a refusal that says why not. The
-- checks that come before the grant read the session and the catalogue, so they are one function of
-- the two, `assess`, with the early returns as its errors. Of the metadata, the keys that the code
-- reads are the fields of a record. The logs have no part in it.
pub mod Handler
pub mod Grants
pub mod Terms
pub mod Refusals
pub mod Settled
pub mod Once
use prelude.Base.{ℕ, Bool, true, false, not, Option, none, some, List, [], ◌∷◌, ◌||◌, if◌then◌else◌}
use prelude.Base.Int.{ℤ, pos, leb_ℤ}
use prelude.Ledger.Schema.{Text}
use prelude.Ledger.Table.{find_row}
use prelude.Ledger.Wallet.{Call}
use prelude.Ledger.Purchase.{
  same_text, to_upper_case, GrantPurchasedCreditLotInput, GrantPurchasedCreditLotResult,
  grant_purchased_credit_lot,
}
use prelude.Stripe.{
  Reply, StripeOp, return, ask, on_ledger, ◌>>=◌, Expandable, id_of, truthy, CreditPack,
}
use prelude.Texts.{trim, is_empty, key_of}
use prelude.Stripe.Numbers.{Number, number, equals_int}

pub data PaymentStatus : Type 0 where
  paid unpaid : PaymentStatus
  other : ℕ → PaymentStatus

pub record SessionMetadata : Type 0 where
  pub organization_id : Option Text
  pub pack_id : Option Text
  pub credits : Option Text
  pub amount_cents : Option Text
  pub amount_cents_usd : Option Text

pub record Address : Type 0 where
  pub country : Option Text

pub record CustomerDetails : Type 0 where
  pub address : Option Address

pub record CheckoutSession : Type 0 where
  pub id : ℕ
  pub payment_status : PaymentStatus
  pub currency : Option Text
  pub amount_subtotal : Option ℤ
  pub metadata : Option SessionMetadata
  pub payment_intent : Expandable
  pub invoice : Expandable
  pub customer_details : Option CustomerDetails

pub data ParkReason : Type 0 where
  missing_metadata no_payment_required : ParkReason

pub data CreditCheckoutFulfilment : Type 0 where
  granted : ℕ → CreditCheckoutFulfilment
  already_granted not_paid unknown_pack no_payment_intent : CreditCheckoutFulfilment
  amount_mismatch foreign_session currency_mismatch : CreditCheckoutFulfilment
  needs_admin : ParkReason → CreditCheckoutFulfilment

-- A check that passes with a value, or returns an outcome.
pub data Checked (A : Type 0) : Type 0 where
  passed : A → Checked A
  refused : CreditCheckoutFulfilment → Checked A

module _ {A B : Type 0} where
  abbrev pub and_then : Checked A → (A → Checked B) → Checked B
  and_then (passed a) f = f a
  and_then (refused outcome) f = refused outcome

abbrev pub require : Bool → CreditCheckoutFulfilment → Checked Unit
require true outcome = passed tt
require false outcome = refused outcome

abbrev pub trimmed : Option Text → Option Text
trimmed none = none
trimmed (some t) = some (trim t)

abbrev no_metadata : SessionMetadata
no_metadata = record {
  organization_id = none;
  pack_id = none;
  credits = none;
  amount_cents = none;
  amount_cents_usd = none;
}

-- `session.metadata ?? {}`
unfoldable pub metadata_of : Option SessionMetadata → SessionMetadata
metadata_of none = no_metadata
metadata_of (some metadata) = metadata

abbrev pub is_text : Text → Option Text → Bool
is_text t none = false
is_text t (some u) = same_text u t

-- Without an expected organization every session is the caller's.
unfoldable pub is_owned : Option Text → Option SessionMetadata → Bool
unfolding metadata_of
is_owned none metadata = true
is_owned (some expected) metadata =
    is_text expected (trimmed (metadata_of metadata).organization_id)

unfoldable pub check_collected : PaymentStatus → Checked Unit
check_collected paid = passed tt
check_collected unpaid = refused not_paid
check_collected (other text) = refused (needs_admin no_payment_required)

-- A trimmed text of the metadata that is there and not empty.
abbrev pub usable : Option Text → Checked Text
usable none = refused (needs_admin missing_metadata)
usable (some []) = refused (needs_admin missing_metadata)
usable (some (c ∷ t)) = passed (c ∷ t)

-- `!pack || !pack.enabled || pack.creditsGranted <= 0`
unfoldable pub check_pack : Option CreditPack → Checked CreditPack
check_pack none = refused unknown_pack
check_pack (some pack) =
    if not pack.enabled || leb_ℤ pack.credits_granted (pos 0)
    then refused unknown_pack
    else passed pack

-- `Number(metadata.credits)`; an absent text is not a number.
abbrev pub number_of : Option Text → Number
number_of none = Number.nan
number_of (some t) = number t

pub data FulfillableCurrency : Type 0 where
  eur usd : FulfillableCurrency

abbrev pub currency_text : FulfillableCurrency → Text
currency_text eur = b'e' ∷ b'u' ∷ b'r' ∷ []
currency_text usd = b'u' ∷ b's' ∷ b'd' ∷ []

abbrev settled_currency : Text → Option FulfillableCurrency
settled_currency t =
    if same_text (currency_text eur) t
    then some eur
    else if same_text (currency_text usd) t
    then some usd
    else none

unfoldable pub fulfillable_currency : Option Text → Option FulfillableCurrency
unfolding same_text
fulfillable_currency none = none
fulfillable_currency (some t) = settled_currency t

-- The metadata key with the expected amount.
unfoldable pub expected_amount : FulfillableCurrency → SessionMetadata → Option Text
expected_amount eur metadata = metadata.amount_cents
expected_amount usd metadata = metadata.amount_cents_usd

pub record ExpectedPayment : Type 0 where
  pub currency : FulfillableCurrency
  pub amount_cents : Number

abbrev pub expect : FulfillableCurrency → Option Text → Option ExpectedPayment
expect currency none = none
expect currency (some raw) =
    if is_empty (trim raw)
    then none
    else some (record { currency = currency; amount_cents = number raw })

unfoldable pub expect_in : Option FulfillableCurrency → SessionMetadata → Option ExpectedPayment
unfolding expected_amount
expect_in none metadata = none
expect_in (some currency) metadata = expect currency (expected_amount currency metadata)

unfoldable pub resolve_expected_payment : Option Text → SessionMetadata → Option ExpectedPayment
unfolding fulfillable_currency expect_in
resolve_expected_payment currency metadata = expect_in (fulfillable_currency currency) metadata

-- What was paid and what was expected, where both are there and agree.
unfoldable pub check_amount : Option ExpectedPayment → Option ℤ → Checked (FulfillableCurrency × ℤ)
check_amount none subtotal = refused amount_mismatch
check_amount (some expected) none = refused amount_mismatch
check_amount (some expected) (some cents) =
    if equals_int expected.amount_cents cents
    then passed (expected.currency, cents)
    else refused amount_mismatch

abbrev pub check_payment_intent : Option ℕ → Checked ℕ
check_payment_intent none = refused no_payment_intent
check_payment_intent (some payment) = passed payment

abbrev nonempty_key : Text → Option ℕ
nonempty_key t = if is_empty t then none else some (key_of t)

abbrev observed : Option Text → Option ℕ
observed none = none
observed (some t) = nonempty_key (to_upper_case (trim t))

-- `customerDetails?.address?.country`, as the key of its normalised text; an empty text is none.
unfoldable pub resolve_observed_billing_country : Option CustomerDetails → Option ℕ
resolve_observed_billing_country none = none
resolve_observed_billing_country (some details) = in_address details.address
  where
    in_address : Option Address → Option ℕ
    in_address none = none
    in_address (some address) = observed address.country
