-- ===== src/Stripe/Fulfilment/Once.antt =====
-- A checkout that was fulfilled is fulfilled again by nobody.
use prelude.Base.{ℕ, ◌≡◌, refl, sym, ap, subst, ◌∙◌, inl, inr, true, false, Option}
use prelude.Ledger.Schema.{Text, Db}
use prelude.Ledger.Monad.{Result, ok, err}
use prelude.Ledger.Client.{find_wallet}
use prelude.Ledger.Wallet.{Call}
use prelude.Ledger.Purchase.{
  GrantPurchasedCreditLotResult, currency_mismatch, grant_purchased_credit_lot,
}
use prelude.Ledger.Purchase.Replay.{
  reports_granted, Settled, replay_refused, paid_for, grant_purchased-Tells,
}
use prelude.Stripe.{Reply, reply, Store, settle, proceed, return}
use prelude.Stripe.Webhook.Handled.{fulfill-Handled}
use prelude.Stripe.Fulfilment.{CheckoutSession, granted, already_granted, is_owned}
use prelude.Stripe.Fulfilment.Handler.{
  PaidCheckout, grant_input, outcome_of, grant_checked, fulfill_paid_payment_intent,
  fulfill_credit_checkout,
}
use prelude.Stripe.Fulfilment.Grants.{PaidFor, passes}
use prelude.Stripe.Fulfilment.Refusals.{reports_grant}
use prelude.Stripe.Fulfilment.Settled.{fulfils_checked}

-- The ledger granted the lot that fulfilment reports, and its state is the store's.
granted_below :
    (s : Store) (g : Result GrantPurchasedCreditLotResult × Db) (lot_id : ℕ)
    → (proceed (settle s g) (λ grant. return (outcome_of grant))).0 ≡ reply (granted lot_id)
    → (reports_granted g.0 ≡ true)
      × ((proceed (settle s g) (λ grant. return (outcome_of grant))).1.db ≡ g.1)
unfolding outcome_of
granted_below s (ok (GrantPurchasedCreditLotResult.granted id), db) lot_id h = (refl, refl)
granted_below s (ok GrantPurchasedCreditLotResult.already_granted, db) lot_id h = cc
granted_below s (ok (currency_mismatch wallet session), db) lot_id h = cc
granted_below s (err e, db) lot_id h = cc

-- The checks pass for everyone whose session it is.
PaidFor-owned :
    (expected expected' : Option Text) (s s' : Store) (session : CheckoutSession)
    (checkout : PaidCheckout)
    → s'.packs ≡ s.packs
    → is_owned expected' session.metadata ≡ true
    → PaidFor expected s.packs session checkout
    → PaidFor expected' s'.packs session checkout
PaidFor-owned expected expected' s s' session checkout same own p = record {
  owned = own;
  listed = rw same p.listed;
  pack_id = p.pack_id;
  quoted = p.quoted;
  collected = p.collected;
  organization = p.organization;
  names_pack = p.names_pack;
  on_sale = p.on_sale;
  is_worth = p.is_worth;
  credits = p.credits;
  settled_in = p.settled_in;
  quotes = p.quotes;
  is_quote = p.is_quote;
  subtotal = p.subtotal;
  amount = p.amount;
  payment = p.payment;
}

refused_again :
    (retrieve : ℕ → Reply CheckoutSession) (again : Call) (session_id : ℕ) (expected : Option Text)
    (event : Option ℕ) (now : ℕ) (s : Store) (session : CheckoutSession) (checkout : PaidCheckout)
    → retrieve session_id ≡ reply session
    → PaidFor expected s.packs session checkout
    → grant_purchased_credit_lot again (grant_input session event now checkout) s.db
      ≡ (ok GrantPurchasedCreditLotResult.already_granted, s.db)
    → fulfill_credit_checkout retrieve again session_id expected event now s
      ≡ (reply already_granted, s)
unfolding fulfill_credit_checkout grant_checked fulfill_paid_payment_intent outcome_of
refused_again retrieve again session_id expected event now s session checkout answered p refusal =
    rw (answered, passes expected s.packs session checkout p, refusal) refl

-- A checkout that was granted is granted once, however often the webhook, the browser's return and the
-- sweep fulfil it: when each later call sees the state that it starts from, its first attempt does not
-- expire and the session is its caller's, it reports `already_granted` and changes nothing.
pub fulfilled_once :
    (retrieve : ℕ → Reply CheckoutSession) (call again : Call) (session_id lot_id : ℕ)
    (expected expected' : Option Text) (event event' : Option ℕ) (now now' : ℕ) (s : Store)
    (session : CheckoutSession)
    → (fulfill_credit_checkout retrieve call session_id expected event now s).0
      ≡ reply (granted lot_id)
    → retrieve session_id ≡ reply session
    → is_owned expected' session.metadata ≡ true
    → again.seen ≡ (fulfill_credit_checkout retrieve call session_id expected event now s).1.db
    → again.expires 1 ≡ false
    → let s' = (fulfill_credit_checkout retrieve call session_id expected event now s).1 in
      fulfill_credit_checkout retrieve again session_id expected' event' now' s'
      ≡ (reply already_granted, s')
fulfilled_once retrieve call again session_id lot_id expected expected' event event' now now' s
      session h read own seen first =
    elim (fulfils_checked retrieve call session_id expected event now s) [
      | inl (same, none_granted) ↦
          let no : true ≡ false = ap reports_grant (sym h) ∙ none_granted in cc
      | inr (found, checkout, answered, p, e) ↦
          let after = (fulfill_credit_checkout retrieve call session_id expected event now s).1 in
          let input = grant_input found event now checkout in
          let input' = grant_input found event' now' checkout in
          let one : found ≡ session =
            let both : reply found ≡ reply session = sym answered ∙ read in cc in
          let reported : _ =
            granted_below s (grant_purchased_credit_lot call input s.db) lot_id
              (ap (λ r. r.0) (sym e) ∙ h) in
          let db' = ap (λ r. r.1.db) e ∙ reported.1 in
          let settled =
            subst (Settled input') (sym db') (grant_purchased-Tells call input s.db reported.0) in
          refused_again retrieve again session_id expected' event' now' after found checkout
            answered
            (PaidFor-owned expected expected' s after found checkout
              (fulfill-Handled retrieve call session_id expected event now s).packs
              (ap (λ (x : CheckoutSession). is_owned expected' x.metadata) one ∙ own) p)
            (replay_refused again input' after.db settled.1 (paid_for call input s.db reported.0)
              (ap (find_wallet input'.organization_id) seen ∙ settled.2) first settled)
    ]
