-- ===== src/Stripe/Webhook/Deliveries.antt =====
-- Deliveries of events, one after the other.
use prelude.Base.{List, [], ◌∷◌}
use prelude.Stripe.{Store}
use prelude.Stripe.Webhook.{Delivery, deliver}

unfoldable pub deliver_all : List Delivery → Store → Store
deliver_all [] s = s
deliver_all (d ∷ ds) s = deliver_all ds (deliver d s).1
