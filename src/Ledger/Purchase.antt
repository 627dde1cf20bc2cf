-- ===== src/Ledger/Purchase.antt =====
-- `grantPurchasedCreditLot`: one settled payment becomes one paid lot.
pub mod Replay
use prelude.Base.{
  ℕ, ◌+◌, ◌-◌, ◌*◌, Bool, true, false, Option, none, some, [], ◌∷◌, ◌==◌, if◌then◌else◌, not, ◌&&◌,
  ◌||◌, leb, filter, find, map,
}
use prelude.Base.Int.{ℤ, pos, ◌+ℤ◌, leb_ℤ, ltb_ℤ}
use prelude.CreditLots.{LotKind, paid, active}
use prelude.Ledger.Schema.{
  Db, CreditWallet, CreditLot, CreditLedgerEntry, Column, known, LotSource, EntryType,
  stripe_webhook, Text, pack,
}
use prelude.Ledger.Monad.{
  Tx, Op, invalid_credit_purchase_amount, unique_violation, Result, ok, err, pure, gets, ◌>>=◌,
  ◌>>◌,
}
use prelude.Ledger.Client.{
  find_wallet, find_payment, update_wallet, create_lot, create_entry, or_not_found,
}
use prelude.Ledger.Wallet.{
  Call, after_ensure, ensure_wallet, paid_credit_expiry_days, day_ms, run_in_wallet_transaction,
}

pub record GrantPurchasedCreditLotInput : Type 0 where
  pub organization_id : ℕ
  pub pack_id : ℕ
  pub credits_granted : ℤ
  pub unit_amount_cents : ℤ
  pub currency : Text
  pub billing_country : Option ℕ
  pub stripe_payment_intent_id : ℕ
  pub stripe_checkout_session_id : Option ℕ
  pub stripe_invoice_id : Option ℕ
  pub stripe_event_id : Option ℕ
  pub now : ℕ

pub data GrantPurchasedCreditLotResult : Type 0 where
  granted : ℕ → GrantPurchasedCreditLotResult
  already_granted : GrantPurchasedCreditLotResult
  currency_mismatch : Text → Text → GrantPurchasedCreditLotResult

-- `String.prototype.toUpperCase` on the letters of a currency code.
abbrev upper : ℕ → ℕ
upper c = if leb b'a' c && leb c b'z' then c - 32 else c

unfoldable pub to_upper_case : Text → Text
to_upper_case = map upper

unfoldable pub same_text : Text → Text → Bool
same_text [] [] = true
same_text (a ∷ s) (b ∷ t) = a == b && same_text s t
same_text _ _ = false

abbrev pub is_paid_kind : Column LotKind → Bool
is_paid_kind (known paid) = true
is_paid_kind _ = false

abbrev pub is_paid_lot : ℕ → CreditLot → Bool
is_paid_lot org lot = lot.organization_id == org && is_paid_kind lot.kind

abbrev pub lock_currency : Text → CreditWallet → CreditWallet
lock_currency currency w = record w { settlement_currency = some currency }

-- The paid lots of a wallet that has no settlement currency yet.
unfoldable pub adopt_currency :
    ℕ → Text → Option CreditLot → Tx (Option GrantPurchasedCreditLotResult)
adopt_currency org incoming (some conflicting) =
    pure (some (currency_mismatch conflicting.currency incoming))
adopt_currency org incoming none = do update_wallet org (lock_currency incoming); pure none

unfoldable pub check_currency : ℕ → Text → Option Text → Tx (Option GrantPurchasedCreditLotResult)
unfolding adopt_currency
check_currency org incoming none =
    gets
      (λ db. find (λ lot. not (same_text lot.currency incoming)) (filter (is_paid_lot org) db.lots))
    >>= adopt_currency org incoming
check_currency org incoming (some locked) =
    pure
      (if not (same_text locked incoming) then some (currency_mismatch locked incoming) else none)

-- The currency gate: skipped when the payment already has a lot, of another organization.
unfoldable pub currency_gate :
    ℕ → Text → Option CreditLot → Tx (Option GrantPurchasedCreditLotResult)
unfolding check_currency
currency_gate org incoming (some foreign) = pure none
currency_gate org incoming none = do
  found ← gets (find_wallet org)
  wallet ← or_not_found found
  check_currency org incoming wallet.settlement_currency

unfoldable pub purchased_lot : Call → GrantPurchasedCreditLotInput → CreditLot
purchased_lot call input = record {
  id = call.new_id;
  organization_id = input.organization_id;
  kind = known paid;
  source = LotSource.pack_purchase;
  pack_id = some input.pack_id;
  credits_granted = input.credits_granted;
  credits_consumed = pos 0;
  credits_reserved = pos 0;
  unit_amount_cents = some input.unit_amount_cents;
  currency = to_upper_case input.currency;
  billing_country = input.billing_country;
  status = known active;
  granted_at = input.now;
  expires_at = input.now + paid_credit_expiry_days * day_ms;
  frozen_at = none;
  stripe_payment_intent_id = some input.stripe_payment_intent_id;
  stripe_checkout_session_id = input.stripe_checkout_session_id;
  stripe_invoice_id = input.stripe_invoice_id;
}

abbrev pub purchase_entry : Call → GrantPurchasedCreditLotInput → CreditLedgerEntry
purchase_entry call input = record {
  organization_id = input.organization_id;
  lot_id = call.new_id;
  type = EntryType.pack_purchase;
  delta = input.credits_granted;
  candidate_session_id = none;
  stripe_event_id = input.stripe_event_id;
  actor_kind = stripe_webhook;
  reason = some (pack input.pack_id);
}

abbrev pub credit : ℤ → CreditWallet → CreditWallet
credit amount w = record w { available_credits = w.available_credits +ℤ amount }

unfoldable pub create_purchase :
    Call → GrantPurchasedCreditLotInput → Tx GrantPurchasedCreditLotResult
unfolding purchased_lot
create_purchase call input = do
  lot ← create_lot (purchased_lot call input)
  create_entry (purchase_entry call input)
  update_wallet input.organization_id (credit input.credits_granted)
  pure (granted lot.id)

abbrev pub unless_refused :
    Option GrantPurchasedCreditLotResult
    → Tx GrantPurchasedCreditLotResult
    → Tx GrantPurchasedCreditLotResult
unless_refused (some refusal) work = pure refusal
unless_refused none work = work

abbrev pub owned_by : ℕ → Option CreditLot → Bool
owned_by org none = false
owned_by org (some lot) = lot.organization_id == org

unfoldable pub grant_if_new :
    Call → GrantPurchasedCreditLotInput → Option CreditLot → Tx GrantPurchasedCreditLotResult
unfolding currency_gate create_purchase
grant_if_new call input existing =
    if owned_by input.organization_id existing
    then pure already_granted
    else (currency_gate input.organization_id (to_upper_case input.currency) existing >>= λ refusal.
        unless_refused refusal (create_purchase call input))

unfoldable pub grant_tx : Call → GrantPurchasedCreditLotInput → Tx GrantPurchasedCreditLotResult
unfolding grant_if_new
grant_tx call input =
    gets (λ db. find_payment input.stripe_payment_intent_id db.lots) >>= grant_if_new call input

-- The `catch`: a unique violation is a duplicate only if the payment's lot is this organization's.
unfoldable pub recover_grant :
    GrantPurchasedCreditLotInput
    → Result GrantPurchasedCreditLotResult × Db
    → Result GrantPurchasedCreditLotResult × Db
recover_grant input (err unique_violation, db) =
    if owned_by input.organization_id (find_payment input.stripe_payment_intent_id db.lots)
    then (ok already_granted, db)
    else (err unique_violation, db)
recover_grant input other = other

unfoldable pub grant_purchased_credit_lot :
    Call → GrantPurchasedCreditLotInput → Op GrantPurchasedCreditLotResult
unfolding grant_tx recover_grant
grant_purchased_credit_lot call input db =
    if leb_ℤ input.credits_granted (pos 0) || ltb_ℤ input.unit_amount_cents (pos 0)
    then (err (invalid_credit_purchase_amount input.organization_id), db)
    else after_ensure
        (λ db'.
          recover_grant input (
            run_in_wallet_transaction call.expires input.organization_id (grant_tx call input) db'))
        (ensure_wallet call input.organization_id input.now paid_credit_expiry_days db)
