-- ===== src/Ledger/Invariant/Exits.antt =====
-- Freeze, resolution and refund keep the invariant, whatever they return or throw.
use prelude.Base.{ℕ, ◌≡◌, Option, none, some}
use prelude.Ledger.Schema.{Db, CreditLot}
use prelude.Ledger.Monad.{Tx, Ensures}
use prelude.Ledger.Client.{find_lot, find_payment}
use prelude.Ledger.Wallet.{Call}
use prelude.Ledger.Exits.{
  CreditLotAdjustmentResult, lock_located, with_locked_lot_for_payment, freeze_work,
  freeze_lot_for_dispute, Disposition, resolve_work, resolve_dispute_on_lot, revoke_work,
  revoke_unconsumed_lot,
}
use prelude.Ledger.Balance.Exits.{
  freeze_work-Drift, revoke_work-Drift, resolve_work-Drift, reread-Drift,
}
use prelude.Ledger.Holds.Exits.{
  freeze_work-Tally, revoke_work-Tally, resolve_work-Tally, reread-Tally,
}
use prelude.Ledger.Holds.{IsCounted}
use prelude.Ledger.Invariant.{
  IsBalanced, IsConsistent, consistently, run_in_wallet_transaction-IsConsistent,
}

with_locked_lot-IsConsistent :
    (call : Call) (payment : ℕ) (work : CreditLot → Tx CreditLotAdjustmentResult) (db : Db)
    → ((o : ℕ) (lot : CreditLot)
        → find_lot lot.id db ≡ some lot
        → Ensures (λ _ db'. IsBalanced o db') (work lot db))
    → ((lot : CreditLot) → Ensures (λ _ db'. IsCounted db') (work lot db))
    → IsConsistent db
    → IsConsistent (with_locked_lot_for_payment call payment work db).1
unfolding with_locked_lot_for_payment
with_locked_lot-IsConsistent call payment work db balanced counted c =
    located (find_payment payment call.seen.lots)
  where
    located : (found : Option CreditLot) → IsConsistent (lock_located call work found db).1
    located none = c
    located (some lot) =
        run_in_wallet_transaction-IsConsistent call.expires lot.organization_id _ db c (
          consistently _ (λ o. reread-Drift o lot.id work db (balanced o))
            (reread-Tally lot.id work db counted))

-- A call of `freezeLotForDispute` keeps a consistent state consistent, in all its branches and when it
-- throws.
pub freeze_lot-IsConsistent :
    (call : Call) (payment : ℕ) (event : Option ℕ) (now : ℕ) (db : Db)
    → IsConsistent db
    → IsConsistent (freeze_lot_for_dispute call payment event now db).1
unfolding freeze_lot_for_dispute
freeze_lot-IsConsistent call payment event now db c =
    with_locked_lot-IsConsistent call payment (freeze_work event now) db
      (λ o lot found. freeze_work-Drift o event now lot db found (c.balanced o))
      (λ lot. freeze_work-Tally event now lot db c.counted) c

-- A call of `resolveDisputeOnLot` keeps a consistent state consistent, won or lost, and when it
-- throws.
pub resolve_dispute-IsConsistent :
    (call : Call) (payment : ℕ) (disposition : Disposition) (event : Option ℕ) (now : ℕ) (db : Db)
    → IsConsistent db
    → IsConsistent (resolve_dispute_on_lot call payment disposition event now db).1
unfolding resolve_dispute_on_lot
resolve_dispute-IsConsistent call payment disposition event now db c =
    with_locked_lot-IsConsistent call payment (resolve_work disposition event now) db
      (λ o lot found. resolve_work-Drift o disposition event now lot db found (c.balanced o))
      (λ lot. resolve_work-Tally disposition event now lot db c.counted) c

-- A call of `revokeUnconsumedLot` keeps a consistent state consistent, in all its branches and when it
-- throws.
pub revoke_lot-IsConsistent :
    (call : Call) (payment refunded charged : ℕ) (event : Option ℕ) (db : Db)
    → IsConsistent db
    → IsConsistent (revoke_unconsumed_lot call payment refunded charged event db).1
unfolding revoke_unconsumed_lot
revoke_lot-IsConsistent call payment refunded charged event db c =
    with_locked_lot-IsConsistent call payment (revoke_work refunded charged event) db
      (λ o lot found. revoke_work-Drift o refunded charged event lot db found (c.balanced o))
      (λ lot. revoke_work-Tally refunded charged event lot db c.counted) c
