-- ===== src/Ledger/Invariant/Tests.antt =====
-- The calls of credit-ledger.ts on a small history: an organization opens its wallet, a session
-- reserves a credit, a payment is granted.
use prelude.Base.{true, ◌*◌, ◌+◌, arith, if◌then◌else◌, ◌&&◌, ◌≤◌, ◌≡◌, refl, none, some, [], ◌∷◌}
use prelude.Base.Int.{pos, ◌+ℤ◌, ◌-ℤ◌, ◌≤ℤ◌}
use prelude.CreditLots.{
  LotStatus, select_lot_for_reservation, is_lot_eligible, available_in_lot,
  compare_lots_for_consumption,
}
use prelude.Ledger.Schema.{CreditLot, given}
use prelude.Ledger.Table.{sum_of, find_row, update_row}
use prelude.Ledger.Monad.{run_transaction, ok, err, transaction_expired, commit}
use prelude.Ledger.Monad.Attempts.{run_transaction_once}
use prelude.Ledger.Purchase.Replay.{granted_once}
use prelude.Ledger.Exits.Closed.{IsReplay}
use prelude.Ledger.Exits.Once.{freeze_once, revoke_once}
use prelude.Ledger.Exits.Prorata.{prorata_accepts, prorata_determines}
use prelude.Ledger.Audit.Agreement.{reconcile_tx_consistent}
use prelude.Ledger.Invariant.Capturable.{hold_captures}
use prelude.Ledger.Sweeps.{
  release_expired_reservations_in_tx, expire_due_lots_in_tx, expire_rows, release_reservation_row,
  release_rows,
}
use prelude.Ledger.Client.{
  find_lot, create_wallet, create_lot, create_entry, create_reservation, update_wallet, update_lot,
  update_reservation,
}
use prelude.Ledger.Wallet.{
  ensure_wallet, run_in_wallet_transaction, load_lots, to_lot_snapshots, to_lot_snapshot,
  to_lot_status, to_lot_kind, create_if_absent, ensure_unless, ensure_wallet_tx, lock_wallet,
  new_wallet, recover_wallet,
}
use prelude.Ledger.Reservations.{
  CaptureReservationResult, acquire_hold, hold_selected, reserve_tx, reserve_credit_for_session,
  capture_reservation_for_session, release_reservation_for_session,
}
use prelude.Ledger.Purchase.{already_granted, grant_purchased_credit_lot}
use prelude.Ledger.Exits.{matches_unconsumed_prorata, freeze_lot_for_dispute, revoke_unconsumed_lot}
use prelude.Ledger.Audit.{ledger_sum, WalletReconciliation, reconcile_tx}
use prelude.Ledger.Sound.{row_available}
use prelude.Ledger.Books.{active_amount, reserved_amount}
use prelude.Ledger.Holds.{held_amount}
use prelude.Ledger.Invariant.{IsConsistent}
use prelude.Ledger.Invariant.Calls.{
  reserve_credit-IsConsistent, capture_reservation-IsConsistent, release_reservation-IsConsistent,
  grant_purchased-IsConsistent,
}
use prelude.Ledger.Invariant.Reachable.{
  empty, books_agree, never_overdrawn, lots_bounded, hold_has_credit,
}
use prelude.Ledger.Invariant.Samples.{
  never, a_call, opened, held, purchase, bought, disputed, opened-IsConsistent, held-IsConsistent,
  bought-IsConsistent, held_wallet, held_reachable, held_lot, held_reservation, held_rows,
  bought_reports, held_snapshot, frozen_reports, refunded, revoked_reports,
}

reserve_credit-IsConsistent_example :
    IsConsistent (reserve_credit_for_session (a_call opened 300) 1 7 1000 opened).1
reserve_credit-IsConsistent_example =
    reserve_credit-IsConsistent (a_call opened 300) 1 7 1000 opened opened-IsConsistent

capture_reservation-IsConsistent_example :
    IsConsistent (capture_reservation_for_session (a_call held 0) 1 7 1500 held).1
capture_reservation-IsConsistent_example =
    capture_reservation-IsConsistent (a_call held 0) 1 7 1500 held held-IsConsistent

release_reservation-IsConsistent_example :
    IsConsistent (release_reservation_for_session (a_call held 0) 1 7 1500 (given 9) held).1
release_reservation-IsConsistent_example =
    release_reservation-IsConsistent (a_call held 0) 1 7 1500 (given 9) held held-IsConsistent

grant_purchased-IsConsistent_example :
    IsConsistent (grant_purchased_credit_lot (a_call held 201) purchase held).1
grant_purchased-IsConsistent_example =
    grant_purchased-IsConsistent (a_call held 201) purchase held held-IsConsistent

books_agree_example :
    (pos 4 ≡ sum_of (active_amount 1) held.lots)
    × (pos 1 ≡ sum_of (reserved_amount 1) held.lots)
    × (pos 4 ≡ ledger_sum 1 held.entries)
books_agree_example = books_agree held held_reachable 1 held_wallet held_rows.0

never_overdrawn_example : (pos 0 ≤ℤ pos 4) × (pos 0 ≤ℤ pos 1)
never_overdrawn_example = never_overdrawn held held_reachable 1 held_wallet held_rows.0

lots_bounded_example :
    (pos 0 ≤ℤ row_available held_lot)
    × (pos 0 ≤ℤ pos 1)
    × (pos 1 ≡ sum_of (held_amount 200) held.reservations)
lots_bounded_example = lots_bounded held held_reachable 200 held_lot held_rows.1

hold_has_credit_example :
    (lot : CreditLot) × (find_lot 200 held ≡ some lot)
    × (lot.organization_id ≡ 1)
    × (pos 1 ≤ℤ lot.credits_reserved)
hold_has_credit_example = hold_has_credit held held_reachable 7 held_reservation held_rows.2 refl

granted_once_example :
    grant_purchased_credit_lot (a_call held 202) purchase bought ≡ (ok already_granted, bought)
granted_once_example =
    granted_once (a_call held 201) (a_call held 202) purchase held held_wallet bought_reports
      held_rows.0 refl

hold_captures_example :
    (capture_reservation_for_session (a_call held 0) 1 7 1500 held).0
    ≡ ok CaptureReservationResult.captured
hold_captures_example =
    hold_captures (a_call held 0) 1 7 1500 held_reservation held_wallet held held_reachable
      held_rows.2 refl refl held_rows.0 refl

run_transaction_once_example : run_transaction never (create_lot held_lot) empty ≡ (
    if never 1 && never 2 && never 3
    then (err transaction_expired, empty)
    else commit empty (create_lot held_lot empty))
run_transaction_once_example = run_transaction_once never (create_lot held_lot) empty

prorata_accepts_example : matches_unconsumed_prorata (some (pos 9900)) (pos 20) (pos 12) 5940 ≡ true
prorata_accepts_example =
    prorata_accepts 9900 20 12 5940 (omega arith) (omega arith) (omega arith) refl

prorata_determines_example :
    (pos 12 ≡ pos 12) × (5940 * 20 ≤ 12 * 9900 + 20) × (12 * 9900 ≤ 5940 * 20 + 20)
prorata_determines_example =
    prorata_determines (pos 9900) (pos 20) (pos 12) (pos 12) 5940 prorata_accepts_example
      prorata_accepts_example

reconcile_tx_consistent_example :
    (report : WalletReconciliation) × (reconcile_tx 1 2000 held ≡ ok (report, held))
    × (report.consistent ≡ true)
unfolding reserve_credit_for_session ensure_wallet find_row run_transaction create_wallet create_lot
    create_entry run_in_wallet_transaction release_expired_reservations_in_tx expire_due_lots_in_tx
    load_lots to_lot_snapshots to_lot_snapshot select_lot_for_reservation is_lot_eligible
    to_lot_status available_in_lot ◌-ℤ◌ update_lot ◌+ℤ◌ compare_lots_for_consumption
    create_reservation update_reservation update_wallet acquire_hold hold_selected reserve_tx
    expire_rows release_reservation_row release_rows update_row create_if_absent ensure_unless
    ensure_wallet_tx lock_wallet new_wallet recover_wallet to_lot_kind
reconcile_tx_consistent_example =
    reconcile_tx_consistent 1 2000 held held_wallet (held_snapshot ∷ [])
      ((held-IsConsistent).balanced 1) held_rows.0 refl ((λ _. omega arith), tt)

freeze_once_example :
    IsReplay LotStatus.frozen
      (freeze_lot_for_dispute (a_call disputed 0) 55 (some 60) 3500)
      disputed
freeze_once_example =
    freeze_once (a_call bought 0) (a_call disputed 0) 55 (some 58) (some 60) 3000 3500 bought
      bought-IsConsistent refl frozen_reports refl refl

revoke_once_example :
    IsReplay LotStatus.revoked
      (revoke_unconsumed_lot (a_call refunded 0) 55 9900 9900 none)
      refunded
revoke_once_example =
    revoke_once (a_call bought 0) (a_call refunded 0) 55 9900 9900 9900 9900 (some 59) none bought
      bought-IsConsistent refl revoked_reports refl refl
