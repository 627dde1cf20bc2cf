-- ===== src/Ledger/Reservations.antt =====
-- Reserve, capture and release of the one credit of a candidate session.
use prelude.Base.{ℕ, ◌+◌, ◌*◌, Option, none, some, ◌==◌, if◌then◌else◌, not, ◌&&◌}
use prelude.Base.Int.{ℤ, pos, ◌+ℤ◌, ◌-ℤ◌, leb_ℤ}
use prelude.CreditLots.{active, exhausted, CreditLotSnapshot, select_lot_for_reservation}
use prelude.Ledger.Schema.{
  CreditWallet, CreditLot, CreditLedgerEntry, CreditReservation, known, has_status, is_held,
  is_captured, ReservationStatus, EntryType, system, Reason,
}
use prelude.Ledger.Monad.{
  Tx, Op, credit_reservation_organization_mismatch, pure, throw, gets, ◌>>=◌, ◌>>◌,
}
use prelude.Ledger.Client.{
  update_lot, update_wallet, update_reservation, create_entry, create_reservation, find_reservation,
}
use prelude.Ledger.Wallet.{
  Call, load_lots, after_ensure, ensure_wallet, first_five_expiry_days, run_in_wallet_transaction,
}
use prelude.Ledger.Sweeps.{
  release_reservation_row, settle_release, release_expired_reservations_in_tx,
  expire_due_lots_in_tx,
}

abbrev pub reservation_ttl_ms : ℕ
reservation_ttl_ms = 1 * (60 * 60 * 1000)

pub data ReserveCreditResult : Type 0 where
  reserved : ℕ → ReserveCreditResult
  no_credits_available : ReserveCreditResult

pub data CaptureReservationResult : Type 0 where
  captured already_captured no_reservation : CaptureReservationResult

pub data ReleaseReservationResult : Type 0 where
  released already_resolved no_reservation : ReleaseReservationResult

abbrev pub renew_until : ℕ → CreditReservation → CreditReservation
renew_until expires_at r = record r { expires_at = expires_at }

abbrev pub hold_one : CreditLot → CreditLot
hold_one lot = record lot { credits_reserved = lot.credits_reserved +ℤ pos 1 }

-- `reservationData` on a row of the session.
abbrev pub hold_on : ℕ → ℕ → CreditReservation → CreditReservation
hold_on lot_id now r = record r {
  lot_id = lot_id;
  status = known ReservationStatus.held;
  held_at = now;
  expires_at = now + reservation_ttl_ms;
  resolved_at = none;
}

abbrev new_hold : Call → ℕ → ℕ → ℕ → ℕ → CreditReservation
new_hold call org session lot_id now = record {
  id = call.new_id;
  organization_id = org;
  candidate_session_id = session;
  lot_id = lot_id;
  status = known ReservationStatus.held;
  held_at = now;
  expires_at = now + reservation_ttl_ms;
  resolved_at = none;
}

abbrev session_entry : ℕ → ℕ → ℕ → EntryType → ℤ → CreditLedgerEntry
session_entry org lot_id session type delta = record {
  organization_id = org;
  lot_id = lot_id;
  type = type;
  delta = delta;
  candidate_session_id = some session;
  stripe_event_id = none;
  actor_kind = system;
  reason = none;
}

abbrev pub move_to_reserved : CreditWallet → CreditWallet
move_to_reserved w = record w {
  available_credits = w.available_credits -ℤ pos 1;
  reserved_credits = w.reserved_credits +ℤ pos 1;
}

-- A released reservation is held again on its row, a session without one gets a new row.
abbrev pub hold_row : Call → ℕ → ℕ → ℕ → ℕ → Option CreditReservation → Tx CreditReservation
hold_row call org session now lot_id none =
    create_reservation (new_hold call org session lot_id now)
hold_row call org session now lot_id (some existing) =
    update_reservation existing.id (hold_on lot_id now)

-- The hold on the lot that was chosen.
unfoldable pub hold_selected :
    Call → ℕ → ℕ → ℕ → Option CreditReservation → Option CreditLotSnapshot → Tx ReserveCreditResult
hold_selected call org session now existing none = pure no_credits_available
hold_selected call org session now existing (some lot) = do
  update_lot lot.id hold_one
  reservation ← hold_row call org session now lot.id existing
  create_entry (session_entry org lot.id session EntryType.reserve (pos 0 -ℤ pos 1))
  update_wallet org move_to_reserved
  pure (reserved reservation.id)

-- The sweeps, the choice of a lot and the hold.
unfoldable pub acquire_hold : Call → ℕ → ℕ → ℕ → Option CreditReservation → Tx ReserveCreditResult
unfolding hold_selected
acquire_hold call org session now existing = do
  release_expired_reservations_in_tx org now
  expire_due_lots_in_tx org now
  lots ← load_lots org
  hold_selected call org session now existing (select_lot_for_reservation lots now)

unfoldable pub reserve_tx : Call → ℕ → ℕ → ℕ → Option CreditReservation → Tx ReserveCreditResult
reserve_tx call org session now none = acquire_hold call org session now none
reserve_tx call org session now (some existing) =
    if not (existing.organization_id == org)
    then throw (credit_reservation_organization_mismatch existing.id session)
    else if is_captured existing.status
    then pure (reserved existing.id)
    else if is_held existing.status
    then update_reservation existing.id (renew_until (now + reservation_ttl_ms))
      >> pure (reserved existing.id)
    else acquire_hold call org session now (some existing)

unfoldable pub reserve_credit_for_session : Call → ℕ → ℕ → ℕ → Op ReserveCreditResult
unfolding reserve_tx acquire_hold
reserve_credit_for_session call org session now db =
    after_ensure
      (run_in_wallet_transaction call.expires org
        (gets (find_reservation session) >>= reserve_tx call org session now))
      (ensure_wallet call org now first_five_expiry_days db)

abbrev pub consume_one : CreditLot → CreditLot
consume_one lot = record lot {
  credits_reserved = lot.credits_reserved -ℤ pos 1;
  credits_consumed = lot.credits_consumed +ℤ pos 1;
}

abbrev pub exhaust : CreditLot → CreditLot
exhaust lot = record lot { status = known exhausted }

abbrev pub resolve_as_captured : ℕ → CreditReservation → CreditReservation
resolve_as_captured now r = record r {
  status = known ReservationStatus.captured;
  resolved_at = some now;
}

abbrev pub drop_reserved : CreditWallet → CreditWallet
drop_reserved w = record w { reserved_credits = w.reserved_credits -ℤ pos 1 }

-- `if (updatedLot.status === "active" && …) update(…)`
abbrev pub exhaust_if_spent : CreditLot → Tx CreditLot
exhaust_if_spent lot =
    if has_status active lot.status && leb_ℤ lot.credits_granted lot.credits_consumed
    then update_lot lot.id exhaust
    else pure lot

unfoldable pub capture_held : ℕ → ℕ → ℕ → CreditReservation → Tx CaptureReservationResult
capture_held org session now r = do
  updated_lot ← update_lot r.lot_id consume_one
  exhaust_if_spent updated_lot
  update_reservation r.id (resolve_as_captured now)
  create_entry (session_entry org r.lot_id session EntryType.consume (pos 0))
  update_wallet org drop_reserved
  pure CaptureReservationResult.captured

unfoldable pub capture_tx : ℕ → ℕ → ℕ → Option CreditReservation → Tx CaptureReservationResult
capture_tx org session now none = pure CaptureReservationResult.no_reservation
capture_tx org session now (some r) =
    if not (r.organization_id == org)
    then pure CaptureReservationResult.no_reservation
    else if is_captured r.status
    then pure already_captured
    else if not (is_held r.status)
    then pure CaptureReservationResult.no_reservation
    else capture_held org session now r

unfoldable pub capture_reservation_for_session : Call → ℕ → ℕ → ℕ → Op CaptureReservationResult
unfolding capture_tx capture_held
capture_reservation_for_session call org session now =
    run_in_wallet_transaction call.expires org
      (gets (find_reservation session) >>= capture_tx org session now)

unfoldable pub release_held : ℕ → ℕ → Reason → CreditReservation → Tx ReleaseReservationResult
release_held org now reason r = do
  available_delta ← release_reservation_row r now reason
  update_wallet org (settle_release available_delta (pos 1))
  expire_due_lots_in_tx org now
  pure ReleaseReservationResult.released

unfoldable pub release_tx : ℕ → ℕ → Reason → Option CreditReservation → Tx ReleaseReservationResult
release_tx org now reason none = pure ReleaseReservationResult.no_reservation
release_tx org now reason (some r) =
    if not (r.organization_id == org)
    then pure ReleaseReservationResult.no_reservation
    else if not (is_held r.status)
    then pure already_resolved
    else release_held org now reason r

unfoldable pub release_reservation_for_session :
    Call → ℕ → ℕ → ℕ → Reason → Op ReleaseReservationResult
unfolding release_tx release_held
release_reservation_for_session call org session now reason =
    run_in_wallet_transaction call.expires org
      (gets (find_reservation session) >>= release_tx org now reason)
