-- ===== src/Stripe/Tests.antt =====
-- The Stripe modules on a small history: a pack is bought and paid for, the payment is delivered twice,
-- disputed, and an event fails.
use prelude.Base.{◌≡◌, refl, false, ◌∷◌, [], none, some, inl, ◌⊎◌}
use prelude.Base.Int.{pos}
use prelude.Ledger.Monad.{run_transaction}
use prelude.Ledger.Client.{create_wallet, create_lot, create_entry, find_payment, update_wallet}
use prelude.Ledger.Wallet.{ensure_wallet, run_in_wallet_transaction}
use prelude.Ledger.Invariant.Reachable.{empty}
use prelude.Ledger.Table.{find_row, update_row}
use prelude.Ledger.Purchase.{same_text, grant_purchased_credit_lot}
use prelude.Calendar.{date_of, find_year, find_month}
use prelude.Stripe.{truthy, id_of, reply, raised, client, StripeWebhookEvent, settled, processed}
use prelude.Texts.{codes, key_of, trim, trim_start, drop_end}
use prelude.Stripe.Refunds.{handle_refund_event, revoke_charge, charge_id}
use prelude.Stripe.Fulfilment.{
  granted, already_granted, passed, eur, is_owned, metadata_of, check_pack, check_amount,
  check_collected, resolve_expected_payment, fulfillable_currency, expect_in, expected_amount,
}
use prelude.Stripe.Fulfilment.Handler.{
  assess, fulfill_credit_checkout, grant_checked, fulfill_paid_payment_intent, outcome_of,
}
use prelude.Stripe.Fulfilment.Refusals.{reports_grant}
use prelude.Stripe.Fulfilment.Settled.{IsGrantOf, writes_only_paid}
use prelude.Stripe.Fulfilment.Once.{fulfilled_once}
use prelude.Stripe.Checkout.{session_metadata, credit_invoice_description, iso_date}
use prelude.Stripe.Checkout.Settles.{checkout_settles}
use prelude.Stripe.Numbers.{decimal_text, number, equals_int}
use prelude.Stripe.Webhook.{
  default_deps, deliver, find_event, new_row, conclude, archive_event, conclude_settled,
  update_event, record_outcome, settle_status, dispatch, route,
}
use prelude.Stripe.Webhook.Deliveries.{deliver_all}
use prelude.Stripe.Webhook.Rows.{Holds}
use prelude.Stripe.Webhook.History.{history_kept}
use prelude.Stripe.Webhook.Failures.{IsArchivedFailure, failure_recorded}
use prelude.Stripe.Samples.{
  a_call, pack, purchase, pricing, session, retrieve, store, bought, invoice_text, completed,
  delivery, refunded, parked_row, parked_store, overtaken,
}

checkout_settles_example :
    assess none (pack ∷ []) session
    ≡ passed (record {
      organization_id = codes "org";
      pack = pack;
      currency = eur;
      amount_cents = pos 9900;
      payment_intent = 55;
    })
unfolding find_row key_of truthy id_of
checkout_settles_example =
    checkout_settles purchase pack pack pricing (pack ∷ []) session none eur (pos 9900) 55 refl
      (refl, (refl, (refl, tt))) refl (refl, (refl, (refl, tt))) refl (inl refl) refl refl refl refl
      refl refl refl refl refl

writes_only_paid_example :
    let result = fulfill_credit_checkout retrieve (a_call empty) 56 none (some 1) 2000 store in
    ((result.1 ≡ store) × (reports_grant result.0 ≡ false))
    ⊎ IsGrantOf retrieve (a_call empty) 56 none (some 1) 2000 store result
writes_only_paid_example = writes_only_paid retrieve (a_call empty) 56 none (some 1) 2000 store

bought_lot :
    (fulfill_credit_checkout retrieve (a_call empty) 56 none (some 1) 2000 store).0
    ≡ reply (granted 201)
unfolding fulfill_credit_checkout grant_checked assess check_pack check_amount check_collected
    is_owned session_metadata metadata_of trim trim_start drop_end same_text key_of find_row truthy
    id_of resolve_expected_payment fulfillable_currency expect_in expected_amount number equals_int
    decimal_text fulfill_paid_payment_intent outcome_of grant_purchased_credit_lot ensure_wallet
    run_transaction create_wallet create_lot create_entry run_in_wallet_transaction find_payment
    update_wallet update_row
bought_lot = refl

-- The webhook grants, and the browser's return finds it granted.
fulfilled_once_example :
    fulfill_credit_checkout retrieve (a_call bought.db) 56 (some (codes "org")) none 3000 bought
    ≡ (reply already_granted, bought)
unfolding fulfill_credit_checkout is_owned session_metadata metadata_of trim same_text trim_start
    drop_end
fulfilled_once_example =
    fulfilled_once retrieve (a_call empty) (a_call bought.db) 56 201 none (some (codes "org"))
      (some 1) none 2000 3000 store session bought_lot refl refl refl refl

invoice_line : credit_invoice_description (pos 25) 1714732200000 ≡ invoice_text
unfolding credit_invoice_description iso_date decimal_text date_of find_year find_month
invoice_line = refl

history_kept_example :
    Holds 3 parked_row
      (deliver_all (delivery refunded empty ∷ delivery completed empty ∷ []) parked_store)
unfolding find_event find_row
history_kept_example =
    history_kept (delivery refunded empty ∷ delivery completed empty ∷ []) 3 parked_row parked_store
      refl

failure_recorded_example :
    ((deliver (delivery refunded empty) parked_store).0 ≡ raised (client 2))
    × (later : StripeWebhookEvent) × (find_event 3
          (deliver (delivery refunded empty) parked_store).1.events
        ≡ some later)
    × IsArchivedFailure none (some parked_row) (client 2) later
unfolding find_event find_row dispatch default_deps route handle_refund_event revoke_charge
    charge_id archive_event
failure_recorded_example =
    failure_recorded (delivery refunded empty) parked_store (client 2) refl refl

overtaken_status :
    overtaken
    ≡ some (record (new_row refunded 10) {
      status = settled processed;
      attempt_count = 2;
      processed_at = some 30;
    })
unfolding archive_event conclude conclude_settled update_event record_outcome settle_status
    find_event find_row update_row
overtaken_status = refl
