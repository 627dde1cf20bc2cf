-- ===== src/Stripe/Webhook/Books.antt =====
-- The one call of the ledger that a delivery comes to, by the type of its event.
