-- ===== src/Stripe/Fulfilment/Refusals.antt =====
-- No check that refuses a session reports a grant.
use prelude.Base.{
  ℕ, ◌≡◌, refl, Bool, true, false, not, ◌||◌, Option, none, some, List, [], ◌∷◌, if◌then◌else◌,
}
use prelude.Base.Int.{ℤ, pos, leb_ℤ}
use prelude.Ledger.Schema.{Text}
use prelude.Ledger.Table.{find_row}
use prelude.Stripe.{Reply, reply, raised, id_of, truthy, CreditPack}
use prelude.Texts.{key_of}
use prelude.Stripe.Numbers.{equals_int}
use prelude.Stripe.Fulfilment.{
  PaymentStatus, paid, unpaid, SessionMetadata, CheckoutSession, CreditCheckoutFulfilment, granted,
  already_granted, foreign_session, amount_mismatch, unknown_pack, Checked, passed, refused,
  and_then, require, trimmed, metadata_of, is_owned, check_collected, usable, check_pack, number_of,
  FulfillableCurrency, ExpectedPayment, resolve_expected_payment, check_amount,
  check_payment_intent,
}
use prelude.Stripe.Fulfilment.Handler.{
  check_payment, check_money, check_credits, check_catalogue, check_pack_named, check_metadata,
  check_paid, assess,
}

-- A grant, now or before.
abbrev pub is_grant : CreditCheckoutFulfilment → Bool
is_grant (granted lot_id) = true
is_grant already_granted = true
is_grant _ = false

abbrev pub reports_grant : Reply CreditCheckoutFulfilment → Bool
reports_grant (reply outcome) = is_grant outcome
reports_grant (raised e) = false

abbrev pub Declines : {A : Type 0} → Checked A → Type 0
Declines (passed a) = Unit
Declines (refused outcome) = is_grant outcome ≡ false

and_then-Declines :
    {A B : Type 0} (c : Checked A) (f : A → Checked B)
    → Declines c
    → ((a : A) → Declines (f a))
    → Declines (and_then c f)
and_then-Declines (passed a) f h k = k a
and_then-Declines (refused outcome) f h k = h

require-Declines :
    (b : Bool) (outcome : CreditCheckoutFulfilment)
    → is_grant outcome ≡ false
    → Declines (require b outcome)
require-Declines true outcome h = tt
require-Declines false outcome h = h

check_collected-Declines : (status : PaymentStatus) → Declines (check_collected status)
unfolding check_collected
check_collected-Declines paid = tt
check_collected-Declines unpaid = refl
check_collected-Declines (PaymentStatus.other text) = refl

usable-Declines : (t : Option Text) → Declines (usable t)
usable-Declines none = refl
usable-Declines (some []) = refl
usable-Declines (some (c ∷ t)) = tt

check_pack-Declines : (found : Option CreditPack) → Declines (check_pack found)
unfolding check_pack
check_pack-Declines none = refl
check_pack-Declines (some pack) = chosen (not pack.enabled || leb_ℤ pack.credits_granted (pos 0))
  where
    chosen : (b : Bool) → Declines (if b then refused unknown_pack else passed pack)
    chosen true = refl
    chosen false = tt

check_amount-Declines :
    (expected : Option ExpectedPayment) (subtotal : Option ℤ)
    → Declines (check_amount expected subtotal)
unfolding check_amount
check_amount-Declines none subtotal = refl
check_amount-Declines (some expected) none = refl
check_amount-Declines (some expected) (some cents) = chosen (equals_int expected.amount_cents cents)
  where
    chosen :
        (b : Bool)
        → Declines {A = FulfillableCurrency × ℤ}
            (if b then passed (expected.currency, cents) else refused amount_mismatch)
    chosen true = tt
    chosen false = refl

check_payment_intent-Declines : (payment : Option ℕ) → Declines (check_payment_intent payment)
check_payment_intent-Declines none = refl
check_payment_intent-Declines (some payment) = tt

module _ (packs : List CreditPack) (session : CheckoutSession) (metadata : SessionMetadata)
    (org : Text) where
  check_credits-Declines : (pack : CreditPack) → Declines (check_credits session metadata org pack)
  check_credits-Declines pack =
      and_then-Declines
        (require (equals_int (number_of metadata.credits) pack.credits_granted) amount_mismatch)
        (λ _. check_money session metadata org pack) (require-Declines _ amount_mismatch refl)
        λ _.
          and_then-Declines
            (check_amount (resolve_expected_payment session.currency metadata)
              session.amount_subtotal)
            (check_payment session org pack) (check_amount-Declines _ session.amount_subtotal)
            λ money.
              and_then-Declines (check_payment_intent (truthy (id_of session.payment_intent))) _
                (check_payment_intent-Declines (truthy (id_of session.payment_intent))) λ _. tt

  check_pack_named-Declines : Declines (check_pack_named packs session metadata org)
  check_pack_named-Declines =
      and_then-Declines (usable (trimmed metadata.pack_id))
        (check_catalogue packs session metadata org) (usable-Declines (trimmed metadata.pack_id))
        λ pack_id.
          and_then-Declines
            (check_pack (find_row (λ (p : CreditPack). p.id) (key_of pack_id) packs))
            (check_credits session metadata org) (check_pack-Declines _) check_credits-Declines

pub assess-Declines :
    (expected : Option Text) (packs : List CreditPack) (session : CheckoutSession)
    → Declines (assess expected packs session)
unfolding assess
assess-Declines expected packs session =
    let metadata = metadata_of session.metadata in
    and_then-Declines (require (is_owned expected session.metadata) foreign_session)
      (λ _. check_paid packs session) (require-Declines _ foreign_session refl)
      λ _.
        and_then-Declines (check_collected session.payment_status)
          (λ _. check_metadata packs session metadata)
          (check_collected-Declines session.payment_status)
          λ _.
            and_then-Declines (usable (trimmed metadata.organization_id))
              (check_pack_named packs session metadata)
              (usable-Declines (trimmed metadata.organization_id))
              (check_pack_named-Declines packs session metadata)
