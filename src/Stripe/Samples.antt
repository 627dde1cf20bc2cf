-- ===== src/Stripe/Samples.antt =====
-- A pack that is bought and paid for, and the events that Stripe delivers about it.
use prelude.Base.{ℕ, true, false, ◌∷◌, [], Option, none, some, Bool}
use prelude.Base.Int.{pos}
use prelude.Ledger.Schema.{Db, Text}
use prelude.Ledger.Wallet.{Call}
use prelude.Ledger.Invariant.Reachable.{empty}
use prelude.Stripe.{
  Reply, reply, raised, client, Store, StripeEvent, session_completed, dispute_created,
  charge_refunded, bare, absent, CreditPack, StripeWebhookEvent, settled, needs_admin, processed,
  ignored,
}
use prelude.Texts.{codes, key_of}
use prelude.Stripe.Refunds.{StripeRefundClient, dispute_won}
use prelude.Stripe.Fulfilment.{paid, CheckoutSession}
use prelude.Stripe.Fulfilment.Handler.{fulfill_credit_checkout}
use prelude.Stripe.Customers.{PurchaseInput}
use prelude.Stripe.Pricing.{PackPricing}
use prelude.Stripe.Checkout.{session_metadata}
use prelude.Stripe.Webhook.{
  ArchiveCall, Delivery, find_event, new_row, conclude, archive_event, count_attempt,
}

abbrev pub never : ℕ → Bool
never attempt = false

abbrev pub a_call : Db → Call
a_call seen = record {
  seen = seen;
  ensure_expires = never;
  expires = never;
  wallet_id = 100;
  free_lot_id = 200;
  new_id = 201;
}

abbrev pub pack : CreditPack
pack = record {
  id = key_of (codes "p25");
  credits_granted = pos 25;
  unit_amount_cents = pos 9900;
  unit_amount_cents_usd = none;
  currency = codes "EUR";
  stripe_product_id = none;
  stripe_price_id = some 7;
  enabled = true;
}

abbrev pub purchase : PurchaseInput
purchase = record {
  organization_id = codes "org";
  organization_name = codes "Org";
  pack_id = codes "p25";
  origin = codes "https://x.test/";
  now = 1000;
  locale = none;
}

abbrev pub pricing : PackPricing
pricing = record { price_id = 7; amount_cents = pos 9900; amount_cents_usd = none }

abbrev pub session : CheckoutSession
session = record {
  id = 56;
  payment_status = paid;
  currency = some (codes "eur");
  amount_subtotal = some (pos 9900);
  metadata = some (session_metadata purchase pack pricing);
  payment_intent = bare 55;
  invoice = absent;
  customer_details = none;
}

abbrev pub retrieve : ℕ → Reply CheckoutSession
retrieve id = reply session

abbrev pub store : Store
store = record { db = empty; packs = pack ∷ []; events = []; customers = λ w. none; notices = [] }

abbrev pub bought : Store
bought = (fulfill_credit_checkout retrieve (a_call empty) 56 none (some 1) 2000 store).1

abbrev pub invoice_text : Text
invoice_text =
    codes
      "25 HireCall interview credits — valid until 2025-05-03 (12 months from the purchase date)."

abbrev pub completed : StripeEvent
completed = record { id = 1; type = session_completed; object_id = 56 }

abbrev pub disputed : StripeEvent
disputed = record { id = 2; type = dispute_created; object_id = 70 }

abbrev pub stripe : StripeRefundClient
stripe = record {
  retrieve_refund = λ id. raised (client 1);
  retrieve_charge = λ id. raised (client 2);
  retrieve_dispute = λ id.
      reply (record { id = 70; status = dispute_won; charge = absent; payment_intent = bare 55 });
}

abbrev pub sound_archive : ArchiveCall
sound_archive = record { upsert_fault = none; update_fault = none; received_at = 10 }

abbrev pub delivery : StripeEvent → Db → Delivery
delivery event seen = record {
  event = event;
  archive = sound_archive;
  call = a_call seen;
  retrieve_session = retrieve;
  stripe = stripe;
  notify = none;
  now = 2000;
  clock = 2001;
}

-- A refund whose charge cannot be read fails.
abbrev pub refunded : StripeEvent
refunded = record { id = 3; type = charge_refunded; object_id = 80 }

abbrev pub parked_row : StripeWebhookEvent
parked_row = record {
  stripe_event_id = 3;
  type = charge_refunded;
  payload = some refunded;
  status = settled needs_admin;
  first_error = some (client 9);
  attempt_count = 1;
  last_error = some (client 9);
  received_at = 5;
  processed_at = none;
}

abbrev pub parked_store : Store
parked_store = record store { events = parked_row ∷ [] }

abbrev pub ignored_row : StripeWebhookEvent
ignored_row = record (new_row disputed 3) { status = settled ignored }

-- Two deliveries of one event that interleave: both upserts come first, the one that parks the event
-- concludes first, and the other one, which was dispatched in between, overwrites its status.
abbrev pub overtaken : Option StripeWebhookEvent
overtaken =
    let first = archive_event sound_archive refunded store in
    let second = archive_event sound_archive refunded first.1 in
    let parked =
      conclude sound_archive refunded 20 (count_attempt (new_row refunded 10))
        (reply needs_admin, second.1) in
    let last =
      conclude sound_archive refunded 30 (new_row refunded 10) (reply processed, parked.1) in
    find_event 3 last.1.events
