-- ===== src/Ledger/Exits.antt =====
-- The three transitions by which money leaves: freeze, resolution of a dispute, refund. Cents are
-- whole numbers, and the quotients of the prorata test are compared exactly.
pub mod Prorata
pub mod Closed
pub mod Once
use prelude.Base.{
  ℕ, ◌+◌, ◌*◌, ◌/◌, Bool, false, Option, none, some, ◌==◌, if◌then◌else◌, not, ◌&&◌, ◌||◌, leb,
}
use prelude.Base.Int.{ℤ, pos, ◌-ℤ◌, ltb_ℤ, leb_ℤ, pos_part}
use prelude.CreditLots.{LotStatus, active, exhausted, frozen, revoked}
use prelude.Ledger.Schema.{
  CreditLot, CreditLedgerEntry, Column, known, has_status, EntryType, stripe_webhook, Reason,
  dispute_created, dispute_won, refund_full, refund_prorata,
}
use prelude.Ledger.Monad.{Tx, Op, ok, pure, gets, ◌>>=◌, ◌>>◌}
use prelude.Ledger.Client.{
  find_lot, find_payment, update_lot, update_wallet, create_entry, or_not_found,
}
use prelude.Ledger.Wallet.{Call, available_in_row, run_in_wallet_transaction}
use prelude.Ledger.Sweeps.{with_status, write_off, expire_due_lots_in_tx}
use prelude.Ledger.Purchase.{credit}

pub data AdminReason : Type 0 where
  dispute_after_consumption full_refund_after_consumption partial_refund_not_prorata : AdminReason

pub data CreditLotAdjustmentResult : Type 0 where
  applied : ℕ → ℕ → ℤ → CreditLotAdjustmentResult
  already_applied : ℕ → ℕ → Column LotStatus → CreditLotAdjustmentResult
  no_lot : CreditLotAdjustmentResult
  needs_admin : ℕ → ℕ → AdminReason → CreditLotAdjustmentResult

-- The re-read of the located lot under the lock.
unfoldable pub reread :
    ℕ → (CreditLot → Tx CreditLotAdjustmentResult) → Tx CreditLotAdjustmentResult
reread lot_id work = do found ← gets (find_lot lot_id); lot ← or_not_found found; work lot

abbrev pub lock_located :
    Call
    → (CreditLot → Tx CreditLotAdjustmentResult)
    → Option CreditLot
    → Op CreditLotAdjustmentResult
lock_located call work none db = (ok no_lot, db)
lock_located call work (some located) db =
    run_in_wallet_transaction call.expires located.organization_id (reread located.id work) db

unfoldable pub with_locked_lot_for_payment :
    Call → ℕ → (CreditLot → Tx CreditLotAdjustmentResult) → Op CreditLotAdjustmentResult
with_locked_lot_for_payment call payment work =
    lock_located call work (find_payment payment call.seen.lots)

abbrev payment_entry : CreditLot → EntryType → ℤ → Option ℕ → Reason → CreditLedgerEntry
payment_entry lot type delta stripe_event_id reason = record {
  organization_id = lot.organization_id;
  lot_id = lot.id;
  type = type;
  delta = delta;
  candidate_session_id = none;
  stripe_event_id = stripe_event_id;
  actor_kind = stripe_webhook;
  reason = some reason;
}

abbrev pub freeze_at : ℕ → CreditLot → CreditLot
freeze_at now lot = record lot { status = known frozen; frozen_at = some now }

freeze_active : Option ℕ → ℕ → CreditLot → Tx CreditLotAdjustmentResult
freeze_active event now lot = do
  frozen_credits ← available_in_row lot
  update_lot lot.id (freeze_at now)
  create_entry
      (payment_entry lot EntryType.dispute_freeze (pos 0 -ℤ frozen_credits) event dispute_created)
  update_wallet lot.organization_id (write_off frozen_credits)
  pure (applied lot.organization_id lot.id frozen_credits)

unfoldable pub freeze_work : Option ℕ → ℕ → CreditLot → Tx CreditLotAdjustmentResult
unfolding freeze_active
freeze_work event now lot =
    if has_status exhausted lot.status
    then pure (needs_admin lot.organization_id lot.id dispute_after_consumption)
    else if not (has_status active lot.status)
    then pure (already_applied lot.organization_id lot.id lot.status)
    else freeze_active event now lot

unfoldable pub freeze_lot_for_dispute : Call → ℕ → Option ℕ → ℕ → Op CreditLotAdjustmentResult
freeze_lot_for_dispute call payment event now =
    with_locked_lot_for_payment call payment (freeze_work event now)

pub data Disposition : Type 0 where
  won lost : Disposition

resolve_frozen : Disposition → Option ℕ → ℕ → CreditLot → Tx CreditLotAdjustmentResult
resolve_frozen lost event now lot = do
  update_lot lot.id (with_status revoked)
  pure (applied lot.organization_id lot.id (pos 0))
resolve_frozen won event now lot = do
  restored_credits ← available_in_row lot
  update_lot lot.id (with_status active)
  create_entry (payment_entry lot EntryType.dispute_release restored_credits event dispute_won)
  update_wallet lot.organization_id (credit restored_credits)
  expire_due_lots_in_tx lot.organization_id now
  pure (applied lot.organization_id lot.id restored_credits)

unfoldable pub resolve_work : Disposition → Option ℕ → ℕ → CreditLot → Tx CreditLotAdjustmentResult
unfolding resolve_frozen
resolve_work disposition event now lot =
    if not (has_status frozen lot.status)
    then pure (already_applied lot.organization_id lot.id lot.status)
    else resolve_frozen disposition event now lot

unfoldable pub resolve_dispute_on_lot :
    Call → ℕ → Disposition → Option ℕ → ℕ → Op CreditLotAdjustmentResult
resolve_dispute_on_lot call payment disposition event now =
    with_locked_lot_for_payment call payment (resolve_work disposition event now)

-- `unit` cents for `granted` credits, all positive: `revocable` credits cost `refunded` cents up to
-- a cent, and `Math.round(refunded / (unit / granted))` is `revocable`.
abbrev prorata : ℕ → ℕ → ℕ → ℕ → Bool
prorata unit granted revocable refunded =
    leb (refunded * granted) (revocable * unit + granted)
    && leb (revocable * unit) (refunded * granted + granted)
    && (2 * (refunded * granted) + unit) / (2 * unit) == revocable

unfoldable pub matches_unconsumed_prorata : Option ℤ → ℤ → ℤ → ℕ → Bool
matches_unconsumed_prorata none granted revocable refunded = false
matches_unconsumed_prorata (some unit) granted revocable refunded =
    if leb_ℤ unit (pos 0) || leb_ℤ granted (pos 0)
    then false
    else if leb_ℤ revocable (pos 0)
    then false
    else prorata (pos_part unit) (pos_part granted) (pos_part revocable) refunded

revoke_active : ℕ → ℕ → Option ℕ → CreditLot → ℤ → Tx CreditLotAdjustmentResult
revoke_active refunded charged event lot revocable = do
  update_lot lot.id (with_status revoked)
  create_entry (
      payment_entry lot EntryType.refund_reversal (pos 0 -ℤ revocable) event
        (if leb charged refunded then refund_full else refund_prorata))
  update_wallet lot.organization_id (write_off revocable)
  pure (applied lot.organization_id lot.id revocable)

-- The refusals of an active lot, a full refund first.
revoke_if_settled : ℕ → ℕ → Option ℕ → CreditLot → ℤ → Tx CreditLotAdjustmentResult
unfolding revoke_active
revoke_if_settled refunded charged event lot revocable =
    if leb charged refunded
    then (if ltb_ℤ (pos 0) lot.credits_consumed
        then pure (needs_admin lot.organization_id lot.id full_refund_after_consumption)
        else revoke_active refunded charged event lot revocable)
    else if not
        (matches_unconsumed_prorata lot.unit_amount_cents lot.credits_granted revocable refunded)
    then pure (needs_admin lot.organization_id lot.id partial_refund_not_prorata)
    else revoke_active refunded charged event lot revocable

unfoldable pub revoke_work : ℕ → ℕ → Option ℕ → CreditLot → Tx CreditLotAdjustmentResult
unfolding revoke_if_settled
revoke_work refunded charged event lot =
    if has_status exhausted lot.status
    then pure (needs_admin lot.organization_id lot.id full_refund_after_consumption)
    else if not (has_status active lot.status)
    then pure (already_applied lot.organization_id lot.id lot.status)
    else (available_in_row lot >>= revoke_if_settled refunded charged event lot)

unfoldable pub revoke_unconsumed_lot : Call → ℕ → ℕ → ℕ → Option ℕ → Op CreditLotAdjustmentResult
revoke_unconsumed_lot call payment refunded_amount_cents charge_amount_cents event =
    with_locked_lot_for_payment call payment
      (revoke_work refunded_amount_cents charge_amount_cents event)
