-- ===== src/Stripe/Switches.antt =====
-- credit-billing-flag.ts and the switch of stripe-client.ts: what the process's variables turn on.
use prelude.Base.{
  ℕ, ◌+◌, Bool, true, false, Option, none, some, List, [], ◌∷◌, ◌==◌, ◌&&◌, if◌then◌else◌, leb, any,
  map,
}
use prelude.Ledger.Schema.{Text}
use prelude.Ledger.Purchase.{same_text}
use prelude.Texts.{codes, trim}

-- The variables of the process that the switches read.
pub record Environment : Type 0 where
  pub credit_billing_enabled : Option Text
  pub stripe_secret_key : Option Text

abbrev lower : ℕ → ℕ
lower c = if leb b'A' c && leb c b'Z' then c + 32 else c

abbrev enabled_values : List Text
enabled_values = codes "1" ∷ codes "true" ∷ codes "yes" ∷ []

abbrev is_enabled_value : Option Text → Bool
is_enabled_value none = false
is_enabled_value (some t) = any (same_text (map lower (trim t))) enabled_values

unfoldable pub is_credit_billing_enabled : Environment → Bool
is_credit_billing_enabled env = is_enabled_value env.credit_billing_enabled

abbrev starts_with : Text → Text → Bool
starts_with [] t = true
starts_with (c ∷ p) [] = false
starts_with (c ∷ p) (d ∷ t) = c == d && starts_with p t

abbrev is_secret_key : Option Text → Bool
is_secret_key none = false
is_secret_key (some t) = starts_with (codes "sk_") (trim t)

unfoldable pub is_stripe_purchase_configured : Environment → Bool
is_stripe_purchase_configured env = is_secret_key env.stripe_secret_key
