-- ===== src/Ledger/Invariant/Samples.antt =====
-- A small history of the ledger: an organization opens its wallet, a session reserves a credit, a payment
-- is granted, disputed and refunded.
use prelude.Base.{true, ℕ, ◌≡◌, refl, Bool, false, none, some, [], ◌∷◌}
use prelude.Base.Int.{pos, ◌+ℤ◌, ◌-ℤ◌}
use prelude.CreditLots.{
  CreditLotSnapshot, free, active, select_lot_for_reservation, is_lot_eligible, available_in_lot,
  compare_lots_for_consumption,
}
use prelude.Ledger.Schema.{
  Db, CreditWallet, CreditLot, CreditReservation, known, LotSource, ReservationStatus,
}
use prelude.Ledger.Table.{find_row, update_row}
use prelude.Ledger.Monad.{run_transaction}
use prelude.Ledger.Purchase.Replay.{reports_granted}
use prelude.Ledger.Exits.Closed.{reports_applied}
use prelude.Ledger.Sweeps.{
  release_expired_reservations_in_tx, expire_due_lots_in_tx, expire_rows, release_reservation_row,
  release_rows,
}
use prelude.Ledger.Client.{
  find_payment, find_wallet, find_lot, find_reservation, create_wallet, create_lot, create_entry,
  create_reservation, update_wallet, update_lot, update_reservation,
}
use prelude.Ledger.Wallet.{
  Call, ensure_wallet, run_in_wallet_transaction, load_lots, to_lot_snapshots, to_lot_snapshot,
  to_lot_status, to_lot_kind, create_if_absent, ensure_unless, ensure_wallet_tx, lock_wallet,
  new_wallet, recover_wallet,
}
use prelude.Ledger.Reservations.{
  acquire_hold, hold_selected, reserve_tx, reserve_credit_for_session,
}
use prelude.Ledger.Purchase.{
  grant_tx, grant_if_new, currency_gate, check_currency, adopt_currency, create_purchase,
  purchased_lot, recover_grant, to_upper_case, same_text, GrantPurchasedCreditLotInput,
  grant_purchased_credit_lot,
}
use prelude.Ledger.Exits.{
  with_locked_lot_for_payment, reread, freeze_work, revoke_work, freeze_lot_for_dispute,
  revoke_unconsumed_lot,
}
use prelude.Ledger.Invariant.{IsConsistent}
use prelude.Ledger.Invariant.Calls.{
  ensure_wallet-IsConsistent, reserve_credit-IsConsistent, grant_purchased-IsConsistent,
}
use prelude.Ledger.Invariant.Exits.{freeze_lot-IsConsistent}
use prelude.Ledger.Invariant.Reachable.{
  empty, empty-IsConsistent, Reachable, start, ensured, reserved,
}

abbrev pub never : ℕ → Bool
never attempt = false

abbrev pub a_call : Db → ℕ → Call
a_call seen id = record {
  seen = seen;
  ensure_expires = never;
  expires = never;
  wallet_id = 100;
  free_lot_id = 200;
  new_id = id;
}

abbrev pub opened : Db
opened = (ensure_wallet (a_call empty 0) 1 0 30 empty).1

abbrev pub held : Db
held = (reserve_credit_for_session (a_call opened 300) 1 7 1000 opened).1

abbrev pub purchase : GrantPurchasedCreditLotInput
purchase = record {
  organization_id = 1;
  pack_id = 10;
  credits_granted = pos 20;
  unit_amount_cents = pos 9900;
  currency = b'e' ∷ b'u' ∷ b'r' ∷ [];
  billing_country = none;
  stripe_payment_intent_id = 55;
  stripe_checkout_session_id = some 56;
  stripe_invoice_id = none;
  stripe_event_id = some 57;
  now = 2000;
}

abbrev pub bought : Db
bought = (grant_purchased_credit_lot (a_call held 201) purchase held).1

abbrev pub disputed : Db
disputed = (freeze_lot_for_dispute (a_call bought 0) 55 (some 58) 3000 bought).1

pub opened-IsConsistent : IsConsistent opened
opened-IsConsistent = ensure_wallet-IsConsistent (a_call empty 0) 1 0 30 empty empty-IsConsistent

pub held-IsConsistent : IsConsistent held
held-IsConsistent =
    reserve_credit-IsConsistent (a_call opened 300) 1 7 1000 opened opened-IsConsistent

pub bought-IsConsistent : IsConsistent bought
bought-IsConsistent = grant_purchased-IsConsistent (a_call held 201) purchase held held-IsConsistent

pub disputed-IsConsistent : IsConsistent disputed
disputed-IsConsistent =
    freeze_lot-IsConsistent (a_call bought 0) 55 (some 58) 3000 bought bought-IsConsistent

abbrev pub held_wallet : CreditWallet
held_wallet = record {
  id = 100;
  organization_id = 1;
  available_credits = pos 4;
  reserved_credits = pos 1;
  settlement_currency = none;
}

abbrev pub held_reachable : Reachable held
held_reachable = reserved (a_call opened 300) 1 7 1000 (ensured (a_call empty 0) 1 0 30 start)

abbrev pub held_lot : CreditLot
held_lot = record {
  id = 200;
  organization_id = 1;
  kind = known free;
  source = LotSource.first_five;
  pack_id = none;
  credits_granted = pos 5;
  credits_consumed = pos 0;
  credits_reserved = pos 1;
  unit_amount_cents = none;
  currency = b'E' ∷ b'U' ∷ b'R' ∷ [];
  billing_country = none;
  status = known active;
  granted_at = 0;
  expires_at = 2592000000;
  frozen_at = none;
  stripe_payment_intent_id = none;
  stripe_checkout_session_id = none;
  stripe_invoice_id = none;
}

abbrev pub held_reservation : CreditReservation
held_reservation = record {
  id = 300;
  organization_id = 1;
  candidate_session_id = 7;
  lot_id = 200;
  status = known ReservationStatus.held;
  held_at = 1000;
  expires_at = 3601000;
  resolved_at = none;
}

pub held_rows :
    (find_wallet 1 held ≡ some held_wallet)
    × (find_lot 200 held ≡ some held_lot)
    × (find_reservation 7 held ≡ some held_reservation)
unfolding reserve_credit_for_session ensure_wallet find_row run_transaction create_wallet create_lot
    create_entry run_in_wallet_transaction release_expired_reservations_in_tx expire_due_lots_in_tx
    load_lots to_lot_snapshots to_lot_snapshot select_lot_for_reservation is_lot_eligible
    to_lot_status available_in_lot ◌-ℤ◌ update_lot ◌+ℤ◌ compare_lots_for_consumption
    create_reservation update_reservation update_wallet acquire_hold hold_selected reserve_tx
    expire_rows release_reservation_row release_rows update_row create_if_absent ensure_unless
    ensure_wallet_tx lock_wallet new_wallet recover_wallet to_lot_kind
held_rows = (refl, refl, refl)

pub bought_reports :
    reports_granted (grant_purchased_credit_lot (a_call held 201) purchase held).0 ≡ true
unfolding reserve_credit_for_session ensure_wallet find_row run_transaction create_wallet create_lot
    create_entry run_in_wallet_transaction release_expired_reservations_in_tx expire_due_lots_in_tx
    load_lots to_lot_snapshots to_lot_snapshot select_lot_for_reservation is_lot_eligible
    to_lot_status available_in_lot ◌-ℤ◌ update_lot ◌+ℤ◌ compare_lots_for_consumption
    create_reservation update_reservation update_wallet acquire_hold hold_selected reserve_tx
    expire_rows release_reservation_row release_rows update_row create_if_absent ensure_unless
    ensure_wallet_tx lock_wallet new_wallet recover_wallet to_lot_kind grant_purchased_credit_lot
    grant_tx grant_if_new find_payment currency_gate check_currency adopt_currency create_purchase
    purchased_lot recover_grant to_upper_case same_text
bought_reports = refl

abbrev pub held_snapshot : CreditLotSnapshot
held_snapshot = record {
  id = 200;
  kind = free;
  status = active;
  credits_granted = pos 5;
  credits_consumed = pos 0;
  credits_reserved = pos 1;
  granted_at = 0;
  expires_at = 2592000000;
}

pub frozen_reports :
    reports_applied (freeze_lot_for_dispute (a_call bought 0) 55 (some 58) 3000 bought).0 ≡ true
unfolding reserve_credit_for_session ensure_wallet find_row run_transaction create_wallet create_lot
    create_entry run_in_wallet_transaction release_expired_reservations_in_tx expire_due_lots_in_tx
    load_lots to_lot_snapshots to_lot_snapshot select_lot_for_reservation is_lot_eligible
    to_lot_status available_in_lot ◌-ℤ◌ update_lot ◌+ℤ◌ compare_lots_for_consumption
    create_reservation update_reservation update_wallet acquire_hold hold_selected reserve_tx
    expire_rows release_reservation_row release_rows update_row create_if_absent ensure_unless
    ensure_wallet_tx lock_wallet new_wallet recover_wallet to_lot_kind grant_purchased_credit_lot
    grant_tx grant_if_new find_payment currency_gate check_currency adopt_currency create_purchase
    purchased_lot recover_grant to_upper_case same_text freeze_lot_for_dispute
    with_locked_lot_for_payment reread freeze_work
frozen_reports = refl

abbrev pub refunded : Db
refunded = (revoke_unconsumed_lot (a_call bought 0) 55 9900 9900 (some 59) bought).1

pub revoked_reports :
    reports_applied (revoke_unconsumed_lot (a_call bought 0) 55 9900 9900 (some 59) bought).0 ≡ true
unfolding reserve_credit_for_session ensure_wallet find_row run_transaction create_wallet create_lot
    create_entry run_in_wallet_transaction release_expired_reservations_in_tx expire_due_lots_in_tx
    load_lots to_lot_snapshots to_lot_snapshot select_lot_for_reservation is_lot_eligible
    to_lot_status available_in_lot ◌-ℤ◌ update_lot ◌+ℤ◌ compare_lots_for_consumption
    create_reservation update_reservation update_wallet acquire_hold hold_selected reserve_tx
    expire_rows release_reservation_row release_rows update_row create_if_absent ensure_unless
    ensure_wallet_tx lock_wallet new_wallet recover_wallet to_lot_kind grant_purchased_credit_lot
    grant_tx grant_if_new find_payment currency_gate check_currency adopt_currency create_purchase
    purchased_lot recover_grant to_upper_case same_text revoke_unconsumed_lot
    with_locked_lot_for_payment reread revoke_work
revoked_reports = refl
