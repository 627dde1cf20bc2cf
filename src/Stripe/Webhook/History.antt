-- ===== src/Stripe/Webhook/History.antt =====
-- The history that the archive keeps of an event over deliveries, one after the other.
use prelude.Base.{ℕ, ◌≡◌, ◌∙◌, ap, some, List, [], ◌∷◌}
use prelude.Stripe.{Reply, Store, StripeWebhookEvent, proceed}
use prelude.Stripe.Webhook.{
  Delivery, default_deps, deliver, handle_stripe_webhook_event, archive_event, find_event, conclude,
  dispatch,
}
use prelude.Stripe.Webhook.Handled.{dispatch-Handled}
use prelude.Stripe.Webhook.Deliveries.{deliver_all}
use prelude.Stripe.Webhook.Rows.{
  Advances, Holds, stays, Advances-trans, Opened, unopened, opened, archive_event-Opened,
  conclude-Holds,
}

later-Holds :
    (k : ℕ) (row later : StripeWebhookEvent) (s : Store)
    → Advances row later
    → Holds k later s
    → Holds k row s
later-Holds k row later s a (last, found, b) = (last, found, Advances-trans row later last a b)

deliver-Holds :
    (k : ℕ) (row : StripeWebhookEvent) (d : Delivery) (s : Store)
    → find_event k s.events ≡ some row
    → Holds k row (deliver d s).1
unfolding deliver handle_stripe_webhook_event
deliver-Holds k row d s found =
    concluded (archive_event d.archive d.event s)
      (archive_event-Opened k row d.archive d.event s found)
  where
    concluded :
        (r : Reply StripeWebhookEvent × Store)
        → Opened k row d.event r
        → Holds k row
            (proceed r λ archived s.
              conclude d.archive d.event
                (default_deps d).now
                archived
                (dispatch (default_deps d) d.event s)).1
    concluded _ (unopened e s h) = h
    concluded _ (opened archived s now_row found a same) =
        let r = dispatch (default_deps d) d.event s in
        let h = dispatch-Handled d d.event s in
        later-Holds k row now_row (conclude d.archive d.event (default_deps d).now archived r).1 a (
          conclude-Holds k now_row d.archive d.event (default_deps d).now archived r same
            (ap (find_event k) h.events ∙ found))

-- What the archive knows of an event stays known over any deliveries, of this event and of others, one
-- after the other, whatever the handlers, the Stripe client and the archive's own writes answer: a
-- parked event stays parked for an operator, its first error stays, and its attempts never decrease.
pub history_kept :
    (ds : List Delivery) (k : ℕ) (row : StripeWebhookEvent) (s : Store)
    → find_event k s.events ≡ some row
    → Holds k row (deliver_all ds s)
unfolding deliver_all
history_kept [] k row s found = (row, found, stays row)
history_kept (d ∷ ds) k row s found =
    let (later, found', a) = deliver-Holds k row d s found in
    later-Holds k row later (deliver_all ds (deliver d s).1) a
      (history_kept ds k later (deliver d s).1 found')
