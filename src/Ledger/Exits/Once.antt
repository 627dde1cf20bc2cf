-- ===== src/Ledger/Exits/Once.antt =====
-- An exit of money that is delivered again.
use prelude.Base.{ℕ, ◌≡◌, refl, true, false, not, Option, some, leb}
use prelude.Base.Int.{pos, ltb_ℤ}
use prelude.CreditLots.{active, exhausted, frozen, revoked}
use prelude.Ledger.Schema.{Db, CreditLot, has_status}
use prelude.Ledger.Monad.{Ensures, done, Ensures-bind, Ensures-choose, Ensures-weaken}
use prelude.Ledger.Client.{find_lot, find_payment}
use prelude.Ledger.Wallet.{Call}
use prelude.Ledger.Sweeps.{with_status}
use prelude.Ledger.Exits.{
  freeze_at, freeze_work, freeze_lot_for_dispute, revoke_work, revoke_unconsumed_lot,
  matches_unconsumed_prorata,
}
use prelude.Ledger.Balance.Expiry.{available_in_row-Ensures}
use prelude.Ledger.Invariant.{IsConsistent}
use prelude.Ledger.Exits.Closed.{
  Closed, close-Closed, is_applied, reports_applied, with_locked_lot-Tells, IsReplay,
  with_locked_lot-IsReplay,
}

freeze_work-Closed :
    (payment : ℕ) (event : Option ℕ) (now : ℕ) (lot : CreditLot) (db : Db)
    → find_payment payment db.lots ≡ some lot
    → find_lot lot.id db ≡ some lot
    → Ensures
        (λ r db'. is_applied r ≡ true → Closed payment frozen db')
        (freeze_work event now lot db)
unfolding freeze_work
freeze_work-Closed payment event now lot db located stands =
    Ensures-choose (has_status exhausted lot.status) _ _ db (λ _. done _ _ (λ h. cc))
      λ _.
        Ensures-choose (not (has_status active lot.status)) _ _ db (λ _. done _ _ (λ h. cc))
          λ _. Ensures-bind _ (available_in_row-Ensures lot db) λ amount db1 (_, here).
            Ensures-weaken
              (close-Closed payment frozen lot (freeze_at now) _ amount _ db1 (rw here located)
                (rw here stands) (λ _. refl) (λ _. refl) refl refl)
              λ _ _ c _. c

revoke_work-Closed :
    (payment refunded charged : ℕ) (event : Option ℕ) (lot : CreditLot) (db : Db)
    → find_payment payment db.lots ≡ some lot
    → find_lot lot.id db ≡ some lot
    → Ensures
        (λ r db'. is_applied r ≡ true → Closed payment revoked db')
        (revoke_work refunded charged event lot db)
unfolding revoke_work
revoke_work-Closed payment refunded charged event lot db located stands =
    Ensures-choose (has_status exhausted lot.status) _ _ db (λ _. done _ _ (λ h. cc))
      λ _.
        Ensures-choose (not (has_status active lot.status)) _ _ db (λ _. done _ _ (λ h. cc))
          λ _. Ensures-bind _ (available_in_row-Ensures lot db) λ amount db1 (_, here).
            let gone =
              Ensures-weaken {R = λ r db'. is_applied r ≡ true → Closed payment revoked db'}
                (close-Closed payment revoked lot (with_status revoked) _ amount _ db1
                  (rw here located) (rw here stands) (λ _. refl) (λ _. refl) refl refl)
                λ _ _ c _. c in
            Ensures-choose (leb charged refunded) _ _ db1
              (λ _.
                Ensures-choose (ltb_ℤ (pos 0) lot.credits_consumed) _ _ db1
                  (λ _. done _ _ (λ h. cc)) (λ _. gone))
              (λ _.
                Ensures-choose
                  (not (
                    matches_unconsumed_prorata lot.unit_amount_cents lot.credits_granted amount
                      refunded))
                  _ _ db1 (λ _. done _ _ (λ h. cc)) (λ _. gone))

-- A dispute that froze a lot freezes it once: when each call sees the state that it starts from, and
-- the first attempt of the second does not expire, the event delivered again reports the lot as frozen
-- already and changes nothing.
pub freeze_once :
    (call again : Call) (payment : ℕ) (event event' : Option ℕ) (now now' : ℕ) (db : Db)
    → IsConsistent db
    → call.seen ≡ db
    → reports_applied (freeze_lot_for_dispute call payment event now db).0 ≡ true
    → again.seen ≡ (freeze_lot_for_dispute call payment event now db).1
    → again.expires 1 ≡ false
    → IsReplay frozen
        (freeze_lot_for_dispute again payment event' now')
        (freeze_lot_for_dispute call payment event now db).1
unfolding freeze_lot_for_dispute freeze_work
freeze_once call again payment event event' now now' db c seen h seen' first =
    with_locked_lot-IsReplay again payment frozen (freeze_work event' now') _
      (with_locked_lot-Tells call payment frozen (freeze_work event now) db
        (c.balanced 0).sound.distinct seen
        (λ lot located stands. freeze_work-Closed payment event now lot db located stands) h)
      seen' first λ lot shut. rw shut refl

-- A refund that revoked a lot revokes it once: when each call sees the state that it starts from, and
-- the first attempt of the second does not expire, the event delivered again, of any amount, reports
-- the lot as revoked already and changes nothing.
pub revoke_once :
    (call again : Call) (payment refunded charged refunded' charged' : ℕ) (event event' : Option ℕ)
    (db : Db)
    → IsConsistent db
    → call.seen ≡ db
    → reports_applied (revoke_unconsumed_lot call payment refunded charged event db).0 ≡ true
    → again.seen ≡ (revoke_unconsumed_lot call payment refunded charged event db).1
    → again.expires 1 ≡ false
    → IsReplay revoked
        (revoke_unconsumed_lot again payment refunded' charged' event')
        (revoke_unconsumed_lot call payment refunded charged event db).1
unfolding revoke_unconsumed_lot revoke_work
revoke_once call again payment refunded charged refunded' charged' event event' db c seen h seen'
      first =
    with_locked_lot-IsReplay again payment revoked (revoke_work refunded' charged' event') _
      (with_locked_lot-Tells call payment revoked (revoke_work refunded charged event) db
        (c.balanced 0).sound.distinct seen
        (λ lot located stands.
          revoke_work-Closed payment refunded charged event lot db located stands)
        h)
      seen' first λ lot shut. rw shut refl
