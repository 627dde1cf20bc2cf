-- ===== src/Ledger/Sweeps.antt =====
-- The primitives that assume the lock of the wallet: the release of a held reservation, the sweep of
-- expired reservations and the sweep of due lots.
use prelude.Base.{
  ℕ, Bool, true, false, none, some, List, [], ◌∷◌, ◌++◌, ◌==◌, if◌then◌else◌, filter, ◌&&◌, leb,
  length,
}
use prelude.Base.Int.{ℤ, pos, ◌+ℤ◌, ◌-ℤ◌, ltb_ℤ}
use prelude.CreditLots.{LotStatus, active}
use prelude.Ledger.Schema.{
  Db, CreditWallet, CreditLot, CreditLedgerEntry, CreditReservation, known, has_status, is_held,
  released, EntryType, system, Reason, reservation_ttl_expired, released_into_closed_lot,
  lot_expired,
}
use prelude.Ledger.Monad.{Tx, Op, pure, gets, ◌>>=◌, ◌>>◌}
use prelude.Ledger.Client.{update_lot, update_wallet, update_reservation, create_entry}
use prelude.Ledger.Wallet.{Call, available_in_row, run_in_wallet_transaction}

-- `{ creditsReserved: { decrement: 1 } }`
abbrev pub give_back : CreditLot → CreditLot
give_back lot = record lot { credits_reserved = lot.credits_reserved -ℤ pos 1 }

abbrev pub resolve_as_released : ℕ → CreditReservation → CreditReservation
resolve_as_released now r = record r { status = known released; resolved_at = some now }

abbrev pub session_entry : CreditReservation → EntryType → ℤ → Reason → CreditLedgerEntry
session_entry r type delta reason = record {
  organization_id = r.organization_id;
  lot_id = r.lot_id;
  type = type;
  delta = delta;
  candidate_session_id = some r.candidate_session_id;
  stripe_event_id = none;
  actor_kind = system;
  reason = some reason;
}

-- `if (lot.status === "active") return 1`, and otherwise the entry that balances the release.
abbrev pub balance_release : CreditReservation → Bool → Tx ℤ
balance_release r true = pure (pos 1)
balance_release r false = do
  create_entry (session_entry r EntryType.expire (pos 0 -ℤ pos 1) released_into_closed_lot)
  pure (pos 0)

-- The change to the available credits that the release makes: 1, or 0 into a closed lot.
unfoldable pub release_reservation_row : CreditReservation → ℕ → Reason → Tx ℤ
release_reservation_row r now reason = do
  lot ← update_lot r.lot_id give_back
  update_reservation r.id (resolve_as_released now)
  create_entry (session_entry r EntryType.release (pos 1) reason)
  balance_release r (has_status active lot.status)

-- The loop of `releaseExpiredReservationsInTx`.
unfoldable pub release_rows : List CreditReservation → ℕ → ℤ → Tx ℤ
release_rows [] now available_delta = pure available_delta
release_rows (r ∷ due) now available_delta =
    release_reservation_row r now reservation_ttl_expired >>= λ delta.
    release_rows due now (available_delta +ℤ delta)

abbrev pub settle_release : ℤ → ℤ → CreditWallet → CreditWallet
settle_release available_delta released_count w = record w {
  available_credits = w.available_credits +ℤ available_delta;
  reserved_credits = w.reserved_credits -ℤ released_count;
}

abbrev pub due_reservations : ℕ → ℕ → Db → List CreditReservation
due_reservations org now db =
    filter (λ r. r.organization_id == org && is_held r.status && leb r.expires_at now)
      db.reservations

abbrev pub release_due : ℕ → ℕ → List CreditReservation → Tx ℕ
release_due org now [] = pure 0
release_due org now (r ∷ rest) = do
  let due = r ∷ rest
  available_delta ← release_rows due now (pos 0)
  update_wallet org (settle_release available_delta (pos (length due)))
  pure (length due)

unfoldable pub release_expired_reservations_in_tx : ℕ → ℕ → Tx ℕ
release_expired_reservations_in_tx org now = gets (due_reservations org now) >>= release_due org now

abbrev pub with_status : LotStatus → CreditLot → CreditLot
with_status status lot = record lot { status = known status }

abbrev pub expire_entry : ℕ → ℕ → ℤ → CreditLedgerEntry
expire_entry org lot_id remaining = record {
  organization_id = org;
  lot_id = lot_id;
  type = EntryType.expire;
  delta = pos 0 -ℤ remaining;
  candidate_session_id = none;
  stripe_event_id = none;
  actor_kind = system;
  reason = some lot_expired;
}

-- The loop of `expireDueLotsInTx`: the ids of the expired lots and what was written off.
unfoldable pub expire_rows : ℕ → List CreditLot → List ℕ → ℤ → Tx (List ℕ × ℤ)
expire_rows org [] expired_lot_ids written_off = pure (expired_lot_ids, written_off)
expire_rows org (row ∷ rows) expired_lot_ids written_off = available_in_row row >>= λ remaining.
    update_lot row.id (with_status LotStatus.expired)
    >> create_entry (expire_entry org row.id remaining)
    >> expire_rows org rows (expired_lot_ids ++ row.id ∷ []) (written_off +ℤ remaining)

abbrev pub write_off : ℤ → CreditWallet → CreditWallet
write_off amount w = record w { available_credits = w.available_credits -ℤ amount }

abbrev pub due_lots : ℕ → ℕ → Db → List CreditLot
due_lots org now db =
    filter
      (λ lot. lot.organization_id == org && has_status active lot.status && leb lot.expires_at now)
      db.lots

-- `if (writtenOff > 0)` the wallet is debited.
abbrev pub settle_write_off : ℕ → List ℕ × ℤ → Tx (List ℕ)
settle_write_off org (expired_lot_ids, written_off) =
    if ltb_ℤ (pos 0) written_off
    then update_wallet org (write_off written_off) >> pure expired_lot_ids
    else pure expired_lot_ids

abbrev pub expire_due : ℕ → List CreditLot → Tx (List ℕ)
expire_due org [] = pure []
expire_due org (row ∷ rest) = expire_rows org (row ∷ rest) [] (pos 0) >>= settle_write_off org

unfoldable pub expire_due_lots_in_tx : ℕ → ℕ → Tx (List ℕ)
expire_due_lots_in_tx org now = gets (due_lots org now) >>= expire_due org

unfoldable pub release_expired_reservations : Call → ℕ → ℕ → Op ℕ
release_expired_reservations call org now = run_in_wallet_transaction call.expires org (do
  released_count ← release_expired_reservations_in_tx org now
  expire_due_lots_in_tx org now
  pure released_count)

unfoldable pub expire_due_lots : Call → ℕ → ℕ → Op (List ℕ)
expire_due_lots call org now =
    run_in_wallet_transaction call.expires org (expire_due_lots_in_tx org now)
