-- ===== src/Stripe/Customers.antt =====
-- `ensureStripeCustomer` of stripe-purchase.ts, with the client that the purchase uses: one customer for
-- a wallet.
use prelude.Base.{
  ℕ, Bool, not, Option, none, some, List, ◌++◌, ◌==◌, ◌&&◌, if◌then◌else◌, any, is_key,
}
use prelude.Base.Int.{ℤ}
use prelude.Ledger.Schema.{Text, CreditWallet}
use prelude.Ledger.Table.{find_row}
use prelude.Ledger.Monad.{unique_violation, record_not_found}
use prelude.Ledger.Wallet.{Call, ensure_wallet, first_five_expiry_days}
use prelude.Stripe.{Reply, reply, raised, ledger, StripeOp, return, ask, on_ledger, ◌>>=◌, truthy}
use prelude.Texts.{codes, key_of}
use prelude.Stripe.Fulfilment.{SessionMetadata}

pub record StripePrice : Type 0 where
  pub id : ℕ
  pub active : Bool
  pub product : ℕ

-- `pack_id` is `metadata?.packId`, `usd_unit_amount` is `currency_options?.usd?.unit_amount`.
pub record ListedPrice : Type 0 where
  pub id : ℕ
  pub created : ℕ
  pub pack_id : Option Text
  pub unit_amount : Option ℤ
  pub usd_unit_amount : Option ℤ

pub data Locale : Type 0 where
  fr en : Locale

pub record SessionParams : Type 0 where
  pub customer : ℕ
  pub price : ℕ
  pub locale : Option Locale
  pub description : Text
  pub client_reference_id : Text
  pub metadata : SessionMetadata
  pub success_url : Text
  pub cancel_url : Text

pub record CreatedSession : Type 0 where
  pub id : ℕ
  pub url : Option Text

-- A customer is created by name, organization and idempotency key.
pub record StripePurchaseClient : Type 0 where
  pub create_customer : Text → Text → Text → Reply ℕ
  pub retrieve_price : ℕ → Reply StripePrice
  pub list_prices : ℕ → Reply (List ListedPrice)
  pub create_session : SessionParams → Reply CreatedSession

pub record PurchaseInput : Type 0 where
  pub organization_id : Text
  pub organization_name : Text
  pub pack_id : Text
  pub origin : Text
  pub now : ℕ
  pub locale : Option Locale

abbrev pub set_customer : ℕ → ℕ → (ℕ → Option ℕ) → ℕ → Option ℕ
set_customer wallet customer customers w = if w == wallet then some customer else customers w

-- `stripeCustomerId` is unique over the wallets.
abbrev taken : ℕ → ℕ → (ℕ → Option ℕ) → List CreditWallet → Bool
taken wallet customer customers wallets =
    any (λ (w : CreditWallet). not (w.id == wallet) && is_key customer (customers w.id)) wallets

unfoldable pub store_customer : ℕ → ℕ → StripeOp ℕ
store_customer wallet customer s =
    if taken wallet customer s.customers s.db.wallets
    then (raised (ledger unique_violation), s)
    else (reply customer, record s { customers = set_customer wallet customer s.customers })

unfoldable pub create_unless_customer :
    StripePurchaseClient → PurchaseInput → ℕ → Option ℕ → StripeOp ℕ
unfolding store_customer
create_unless_customer stripe input wallet (some customer) = return customer
create_unless_customer stripe input wallet none =
    ask (
      stripe.create_customer input.organization_name input.organization_id
        (codes "customer:" ++ input.organization_id))
    >>= store_customer wallet

-- `findUniqueOrThrow` of the wallet, by its id.
abbrev require_wallet : ℕ → StripeOp CreditWallet
require_wallet wallet s = (in_table (find_row (λ (w : CreditWallet). w.id) wallet s.db.wallets), s)
  where
    in_table : Option CreditWallet → Reply CreditWallet
    in_table none = raised (ledger record_not_found)
    in_table (some w) = reply w

unfoldable pub ensure_stripe_customer : StripePurchaseClient → Call → PurchaseInput → StripeOp ℕ
unfolding create_unless_customer
ensure_stripe_customer stripe call input = do
  wallet ←
      on_ledger (ensure_wallet call (key_of input.organization_id) input.now first_five_expiry_days)
  row ← require_wallet wallet
  λ s. create_unless_customer stripe input wallet (truthy (s.customers row.id)) s
