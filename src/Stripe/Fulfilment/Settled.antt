-- ===== src/Stripe/Fulfilment/Settled.antt =====
-- What fulfilment writes.
use prelude.Base.{ℕ, ◌≡◌, refl, subst, ◌⊎◌, inl, inr, false, Option}
use prelude.Ledger.Schema.{Text}
use prelude.Ledger.Wallet.{Call}
use prelude.Ledger.Purchase.{GrantPurchasedCreditLotInput, grant_purchased_credit_lot}
use prelude.Stripe.{Reply, reply, raised, Store, on_ledger, proceed, return}
use prelude.Stripe.Fulfilment.{CheckoutSession, CreditCheckoutFulfilment, Checked, passed, refused}
use prelude.Stripe.Fulfilment.Handler.{
  PaidCheckout, assess, grant_input, outcome_of, grant_checked, fulfill_paid_payment_intent,
  fulfill_credit_checkout,
}
use prelude.Stripe.Fulfilment.Grants.{PaidFor, assess_iff}
use prelude.Stripe.Fulfilment.Terms.{IsTermsOf, grant_input-IsTermsOf}
use prelude.Stripe.Fulfilment.Refusals.{Declines, reports_grant, assess-Declines}

-- The checks pass, and fulfilment is the ledger's grant of what they found.
abbrev pub IsCheckedGrant :
    (ℕ → Reply CheckoutSession)
    → Call
    → ℕ
    → Option Text
    → Option ℕ
    → ℕ
    → Store
    → Reply CreditCheckoutFulfilment × Store
    → Type 0
IsCheckedGrant retrieve call session_id expected event now s result =
    (session : CheckoutSession) × (checkout : PaidCheckout) × (retrieve session_id ≡ reply session)
    × PaidFor expected s.packs session checkout
    × (result
        ≡ proceed
            (on_ledger (grant_purchased_credit_lot call (grant_input session event now checkout)) s)
            λ grant. return (outcome_of grant))

pub Checked-cases :
    {A : Type 0} (c : Checked A)
    → ((outcome : CreditCheckoutFulfilment) × (c ≡ refused outcome)) ⊎ ((a : A) × (c ≡ passed a))
Checked-cases (refused outcome) = inl (outcome, refl)
Checked-cases (passed a) = inr (a, refl)

pub Reply-cases :
    {A : Type 0} (r : Reply A) → (((a : A) × (r ≡ reply a))) ⊎ ((e : _) × (r ≡ raised e))
Reply-cases (reply a) = inl (a, refl)
Reply-cases (raised e) = inr (e, refl)

pub fulfils_checked :
    (retrieve : ℕ → Reply CheckoutSession) (call : Call) (session_id : ℕ) (expected : Option Text)
    (event : Option ℕ) (now : ℕ) (s : Store)
    → let result = fulfill_credit_checkout retrieve call session_id expected event now s in
      ((result.1 ≡ s) × (reports_grant result.0 ≡ false))
      ⊎ IsCheckedGrant retrieve call session_id expected event now s result
unfolding fulfill_credit_checkout grant_checked fulfill_paid_payment_intent
fulfils_checked retrieve call session_id expected event now s =
    elim (Reply-cases (retrieve session_id)) [
      | inr (e, failed) ↦ inl (rw failed (refl, refl))
      | inl (session, answered) ↦ elim (Checked-cases (assess expected s.packs session)) [
        | inl (outcome, refusal) ↦ inl (
            rw (answered, refusal)
              (refl, subst Declines refusal (assess-Declines expected s.packs session)))
        | inr (checkout, pass) ↦ inr (
          session,
          checkout,
          answered,
          (assess_iff expected s.packs session checkout).0 pass,
          rw (answered, pass) refl,
        )
      ]
    ]

-- The session is paid for, and fulfilment is the ledger's grant on its terms.
abbrev pub IsGrantOf :
    (ℕ → Reply CheckoutSession)
    → Call
    → ℕ
    → Option Text
    → Option ℕ
    → ℕ
    → Store
    → Reply CreditCheckoutFulfilment × Store
    → Type 0
IsGrantOf retrieve call session_id expected event now s result =
    (session : CheckoutSession) × (input : GrantPurchasedCreditLotInput) × (retrieve session_id
      ≡ reply session)
    × IsTermsOf expected s.packs session event now input
    × (result
        ≡ proceed (on_ledger (grant_purchased_credit_lot call input) s)
            λ grant. return (outcome_of grant))

-- Fulfilment writes nothing and reports no grant, or the session was paid for and fulfilment is one grant
-- of the ledger: to the organization that the metadata names, which is the caller's where the caller has
-- one, of the credits of the pack that the metadata names, which is on sale and whose credits the metadata
-- quotes, at the subtotal and in the currency of the session, `eur` or `usd`, for which the metadata
-- quotes that amount, and for the session's payment, session and invoice, the caller's event and instant.
pub writes_only_paid :
    (retrieve : ℕ → Reply CheckoutSession) (call : Call) (session_id : ℕ) (expected : Option Text)
    (event : Option ℕ) (now : ℕ) (s : Store)
    → let result = fulfill_credit_checkout retrieve call session_id expected event now s in
      ((result.1 ≡ s) × (reports_grant result.0 ≡ false))
      ⊎ IsGrantOf retrieve call session_id expected event now s result
writes_only_paid retrieve call session_id expected event now s =
    elim (fulfils_checked retrieve call session_id expected event now s) [
      | inl nothing ↦ inl nothing
      | inr (session, checkout, answered, p, e) ↦ inr (
        session,
        grant_input session event now checkout,
        answered,
        grant_input-IsTermsOf expected s.packs session checkout event now p,
        e,
      )
    ]
