-- ===== src/Stripe.antt =====
-- What the Stripe modules of packages/billing/src/ share: the store that they work on, errors, the
-- calls of the Stripe client and of the ledger, expandable fields and events. The client is a
-- parameter: a function that answers or raises an error. An id that is written as a number is the
-- `key_of` its text (Texts), so that 0 is the id with the empty text.
mod Samples
pub mod Numbers
pub mod Refunds
pub mod Fulfilment
pub mod Webhook
pub mod Reprocess
pub mod Switches
pub mod Customers
pub mod Pricing
pub mod Checkout
mod Tests
use prelude.Base.{ℕ, zero, suc, Bool, true, false, Option, none, some, List}
use prelude.Base.Int.{ℤ}
use prelude.Ledger.Schema.{Db, Text}
use prelude.Ledger.Monad.{Error, Result, ok, err, Op}

-- An error of the ledger, of the Stripe client or of the archive's table; the message of an error is
-- read off the error.
pub data StripeError : Type 0 where
  ledger : Error → StripeError
  client archive : ℕ → StripeError
  unsupported_credit_currency : ℕ → Text → StripeError
  missing_checkout_session_url : ℕ → StripeError

pub data Reply (A : Type 0) : Type 0 where
  reply : A → Reply A
  raised : StripeError → Reply A

pub data Expandable : Type 0 where
  absent : Expandable
  bare expanded : ℕ → Expandable

unfoldable pub id_of : Expandable → Option ℕ
id_of absent = none
id_of (bare id) = some id
id_of (expanded id) = some id

-- What `if (!id)` lets pass.
unfoldable pub truthy : Option ℕ → Option ℕ
truthy none = none
truthy (some zero) = none
truthy (some (suc n)) = some (suc n)

pub data EventType : Type 0 where
  session_completed session_async_payment_succeeded : EventType
  session_async_payment_failed session_expired : EventType
  charge_refunded refund_created : EventType
  dispute_created dispute_closed : EventType
  unrecognised : ℕ → EventType

-- An event, with the id of the object that it delivers.
pub record StripeEvent : Type 0 where
  pub id : ℕ
  pub type : EventType
  pub object_id : ℕ

pub data StripeWebhookStatus : Type 0 where
  processed ignored needs_admin : StripeWebhookStatus

pub data ArchivedStatus : Type 0 where
  received failed : ArchivedStatus
  settled : StripeWebhookStatus → ArchivedStatus

-- A row of the archive. `payload` is none where the column does not hold an object.
pub record StripeWebhookEvent : Type 0 where
  pub stripe_event_id : ℕ
  pub type : EventType
  pub payload : Option StripeEvent
  pub status : ArchivedStatus
  pub first_error : Option StripeError
  pub attempt_count : ℕ
  pub last_error : Option StripeError
  pub received_at : ℕ
  pub processed_at : Option ℕ

pub record CreditPack : Type 0 where
  pub id : ℕ
  pub credits_granted : ℤ
  pub unit_amount_cents : ℤ
  pub unit_amount_cents_usd : Option ℤ
  pub currency : Text
  pub stripe_product_id : Option ℕ
  pub stripe_price_id : Option ℕ
  pub enabled : Bool

-- What a freeze tells the organization.
pub record DisputeFreezeNotice : Type 0 where
  pub organization_id : ℕ
  pub lot_id : ℕ
  pub frozen_credits : ℤ
  pub stripe_event_id : ℕ

-- The ledger's tables, the catalogue, the archive, the Stripe customer of each wallet by the wallet's
-- id, and the notices handed to the notifier.
pub record Store : Type 0 where
  pub db : Db
  pub packs : List CreditPack
  pub events : List StripeWebhookEvent
  pub customers : ℕ → Option ℕ
  pub notices : List DisputeFreezeNotice

abbrev pub StripeOp : Type 0 → Type 0
StripeOp A = Store → Reply A × Store

module _ {A : Type 0} where
  abbrev pub return : A → StripeOp A
  return a s = (reply a, s)

  abbrev pub ask : Reply A → StripeOp A
  ask answer s = (answer, s)

  abbrev pub settle : Store → Result A × Db → Reply A × Store
  settle s (ok a, db) = (reply a, record s { db = db })
  settle s (err e, db) = (raised (ledger e), record s { db = db })

  -- A call of the ledger on the store.
  abbrev pub on_ledger : Op A → StripeOp A
  on_ledger op s = settle s (op s.db)

module _ {A B : Type 0} where
  abbrev pub proceed : Reply A × Store → (A → StripeOp B) → Reply B × Store
  proceed (reply a, s) f = f a s
  proceed (raised e, s) f = (raised e, s)

  infixl 5 ◌>>=◌
  abbrev pub ◌>>=◌ : StripeOp A → (A → StripeOp B) → StripeOp B
  ◌>>=◌ m f s = proceed (m s) f
