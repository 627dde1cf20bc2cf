-- ===== src/Ledger/Holds/Exits.antt =====
-- Freeze, resolution and refund keep the count of held credits.
use prelude.Base.{ℕ, ◌≡◌, refl, Option, none, some, not, leb}
use prelude.Base.Int.{ℤ, pos, ltb_ℤ}
use prelude.CreditLots.{active, exhausted, frozen, revoked}
use prelude.Ledger.Schema.{Db, CreditLot, CreditLedgerEntry, has_status}
use prelude.Ledger.Monad.{
  pure, ◌>>=◌, ◌>>◌, Tx, Ensures, done, failed, Ensures-bind, Ensures-choose,
}
use prelude.Ledger.Client.{lot_id, find_lot, or_not_found, update_lot, update_wallet, create_entry}
use prelude.Ledger.Sweeps.{with_status, write_off}
use prelude.Ledger.Purchase.{credit}
use prelude.Ledger.Exits.{
  CreditLotAdjustmentResult, reread, freeze_at, freeze_work, won, lost, Disposition, resolve_work,
  revoke_work, matches_unconsumed_prorata,
}
use prelude.Ledger.Balance.Expiry.{available_in_row-Ensures}
use prelude.Ledger.Holds.{IsCounted, create_entry-Tally, update_wallet-Tally, keep_lot-Tally}
use prelude.Ledger.Holds.Release.{expire_due_lots-Tally}

leave-Tally :
    (lot : CreditLot) (f : CreditLot → CreditLot) (entry : CreditLedgerEntry) (amount : ℤ)
    (result : CreditLotAdjustmentResult) (db : Db)
    → ((y : CreditLot) → lot_id (f y) ≡ lot_id y)
    → ((y : CreditLot) → (f y).credits_reserved ≡ y.credits_reserved)
    → IsCounted db
    → Ensures
        (λ _ db'. IsCounted db')
        ((do
          update_lot lot.id f
          create_entry entry
          update_wallet lot.organization_id (write_off amount)
          pure result)
          db)
leave-Tally lot f entry amount result db keep same_reserved t =
    Ensures-bind _ (keep_lot-Tally 0 lot.id f db keep same_reserved t) λ _ db1 (_, t1).
      Ensures-bind _ (create_entry-Tally 0 entry db1 t1) λ _ db2 (_, t2).
        Ensures-bind _ (update_wallet-Tally 0 lot.organization_id (write_off amount) db2 t2)
          λ _ db3 t3. done _ _ t3

pub freeze_work-Tally :
    (event : Option ℕ) (now : ℕ) (lot : CreditLot) (db : Db)
    → IsCounted db
    → Ensures (λ _ db'. IsCounted db') (freeze_work event now lot db)
unfolding freeze_work
freeze_work-Tally event now lot db t =
    Ensures-choose (has_status exhausted lot.status) _ _ db (λ _. done _ _ t)
      λ _.
        Ensures-choose (not (has_status active lot.status)) _ _ db (λ _. done _ _ t)
          λ _. Ensures-bind _ (available_in_row-Ensures lot db) λ amount db1 (_, here).
            leave-Tally lot (freeze_at now) _ amount _ db1 (λ _. refl) (λ _. refl) (rw here t)

pub revoke_work-Tally :
    (refunded charged : ℕ) (event : Option ℕ) (lot : CreditLot) (db : Db)
    → IsCounted db
    → Ensures (λ _ db'. IsCounted db') (revoke_work refunded charged event lot db)
unfolding revoke_work
revoke_work-Tally refunded charged event lot db t =
    Ensures-choose (has_status exhausted lot.status) _ _ db (λ _. done _ _ t)
      λ _.
        Ensures-choose (not (has_status active lot.status)) _ _ db (λ _. done _ _ t)
          λ _. Ensures-bind _ (available_in_row-Ensures lot db) λ amount db1 (_, here).
            let t1 : IsCounted db1 = rw here t in
            let gone =
              leave-Tally lot (with_status revoked) _ amount _ db1 (λ _. refl) (λ _. refl) t1 in
            Ensures-choose (leb charged refunded) _ _ db1
              (λ _.
                Ensures-choose (ltb_ℤ (pos 0) lot.credits_consumed) _ _ db1 (λ _. done _ _ t1)
                  (λ _. gone))
              (λ _.
                Ensures-choose
                  (not (
                    matches_unconsumed_prorata lot.unit_amount_cents lot.credits_granted amount
                      refunded))
                  _ _ db1 (λ _. done _ _ t1) (λ _. gone))

pub resolve_work-Tally :
    (disposition : Disposition) (event : Option ℕ) (now : ℕ) (lot : CreditLot) (db : Db)
    → IsCounted db
    → Ensures (λ _ db'. IsCounted db') (resolve_work disposition event now lot db)
unfolding resolve_work
resolve_work-Tally lost event now lot db t =
    Ensures-choose (not (has_status frozen lot.status)) _ _ db (λ _. done _ _ t)
      λ _.
        Ensures-bind _ (keep_lot-Tally 0 lot.id (with_status revoked) db (λ _. refl) (λ _. refl) t)
          λ _ db1 (_, t1). done _ _ t1
resolve_work-Tally won event now lot db t =
    Ensures-choose (not (has_status frozen lot.status)) _ _ db (λ _. done _ _ t)
      λ _. Ensures-bind _ (available_in_row-Ensures lot db) λ amount db1 (_, here).
        let t1 : IsCounted db1 = rw here t in
        Ensures-bind _ (keep_lot-Tally 0 lot.id (with_status active) db1 (λ _. refl) (λ _. refl) t1)
          λ _ db2 (_, t2). Ensures-bind _ (create_entry-Tally 0 _ db2 t2) λ _ db3 (_, t3).
            Ensures-bind _ (update_wallet-Tally 0 lot.organization_id (credit amount) db3 t3)
              λ _ db4 t4.
                Ensures-bind _ (expire_due_lots-Tally 0 lot.organization_id now db4 t4)
                  λ _ db5 t5. done _ _ t5

pub reread-Tally :
    (id : ℕ) (work : CreditLot → Tx CreditLotAdjustmentResult) (db : Db)
    → ((lot : CreditLot) → Ensures (λ _ db'. IsCounted db') (work lot db))
    → Ensures (λ _ db'. IsCounted db') (reread id work db)
unfolding reread
reread-Tally id work db keeps = reread_found (find_lot id db)
  where
    reread_found :
        (found : Option CreditLot)
        → Ensures (λ _ db'. IsCounted db') ((or_not_found found >>= work) db)
    reread_found none = failed _
    reread_found (some lot) = keeps lot
