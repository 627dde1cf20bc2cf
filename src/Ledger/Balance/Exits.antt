-- ===== src/Ledger/Balance/Exits.antt =====
-- Freeze, resolution and refund keep the books: what leaves a lot leaves the wallet and is entered.
use prelude.Base.{ℕ, ◌≡◌, refl, Option, none, some, arith, not, leb, sym, subst}
use prelude.Base.Int.{ℤ, pos, ◌-ℤ◌, ltb_ℤ, int_laws}
use prelude.CreditLots.{active, exhausted, frozen, revoked}
use prelude.Ledger.Schema.{Db, CreditLot, CreditLedgerEntry, has_status}
use prelude.Ledger.Table.{same_row, find_row-key}
use prelude.Ledger.Monad.{
  pure, ◌>>=◌, ◌>>◌, Tx, Ensures, done, failed, Ensures-bind, Ensures-choose,
}
use prelude.Ledger.Client.{lot_id, find_lot, or_not_found, update_lot, update_wallet, create_entry}
use prelude.Ledger.Sound.{KeepsLot, row_available}
use prelude.Ledger.Books.{
  at, active_amount, reserved_amount, Drift, Drift-shift, create_entry-Drift,
}
use prelude.Ledger.Moves.{update_lot-Drift, update_wallet-Drift}
use prelude.Ledger.Sweeps.{with_status, write_off}
use prelude.Ledger.Purchase.{credit}
use prelude.Ledger.Exits.{
  CreditLotAdjustmentResult, reread, freeze_at, freeze_work, won, lost, Disposition, resolve_work,
  revoke_work, matches_unconsumed_prorata,
}
use prelude.Ledger.Balance.Amounts.{
  with_status-KeepsLot, freeze_at-KeepsLot, freeze_active_amount, revoke_active_amount,
  unfreeze_active_amount, lose_active_amount, taken, taken_entry, put, untouched,
}
use prelude.Ledger.Balance.Expiry.{available_in_row-Ensures, expire_due_lots-Drift}

module _ (o : ℕ) {a r e : ℤ} where
  -- A lot that leaves the books, its entry and the wallet's debit.
  leave-Drift :
      (lot : CreditLot) (f : CreditLot → CreditLot) (entry : CreditLedgerEntry) (amount : ℤ)
      (result : CreditLotAdjustmentResult) (db : Db)
      → ((l : CreditLot) → KeepsLot l f)
      → find_lot lot.id db ≡ some lot
      → amount ≡ row_available lot
      → active_amount o (f lot) -ℤ active_amount o lot
        ≡ pos 0 -ℤ at o lot.organization_id (row_available lot)
      → reserved_amount o (f lot) ≡ reserved_amount o lot
      → entry.organization_id ≡ lot.organization_id
      → entry.delta ≡ pos 0 -ℤ amount
      → Drift o a r e db
      → Ensures
          (λ _ db'. Drift o a r e db')
          ((do
            update_lot lot.id f
            create_entry entry
            update_wallet lot.organization_id (write_off amount)
            pure result)
            db)
  leave-Drift lot f entry amount result db keeps found same moved kept mine out d =
      Ensures-bind _ (update_lot-Drift o lot.id f db (λ l _. keeps l) d) λ x db1 m.
        Ensures-bind _ (create_entry-Drift o entry db1 m.drift) λ _ db2 (_, d2).
          Ensures-bind _
            (update_wallet-Drift o lot.organization_id (write_off amount) db2 (λ _. refl) d2)
            λ _ db3 n.
              let one : m.lot ≡ lot = same_row m.found found in
              let org = lot.organization_id in
              done _ _ (
                Drift-shift o _ _ _ n.drift
                  (rw (one, moved, same) (taken o org a (row_available lot) _))
                  (rw (one, kept) (omega (int_laws, untouched o org r n.wallet.reserved_credits)))
                  (rw (mine, out) (taken_entry o org e amount _)))

  pub freeze_work-Drift :
      (event : Option ℕ) (now : ℕ) (lot : CreditLot) (db : Db)
      → find_lot lot.id db ≡ some lot
      → Drift o a r e db
      → Ensures (λ _ db'. Drift o a r e db') (freeze_work event now lot db)
  unfolding freeze_work
  freeze_work-Drift event now lot db found d =
      Ensures-choose (has_status exhausted lot.status) _ _ db (λ _. done _ _ d)
        λ _.
          Ensures-choose (not (has_status active lot.status)) _ _ db (λ _. done _ _ d)
            λ open_lot. Ensures-bind _ (available_in_row-Ensures lot db) λ amount db1 (same, here).
              leave-Drift lot (freeze_at now) _ amount _ db1 (freeze_at-KeepsLot now)
                (rw here found) same (freeze_active_amount o now lot (ground arith)) refl refl refl
                (rw here d)

  pub revoke_work-Drift :
      (refunded charged : ℕ) (event : Option ℕ) (lot : CreditLot) (db : Db)
      → find_lot lot.id db ≡ some lot
      → Drift o a r e db
      → Ensures (λ _ db'. Drift o a r e db') (revoke_work refunded charged event lot db)
  unfolding revoke_work
  revoke_work-Drift refunded charged event lot db found d =
      Ensures-choose (has_status exhausted lot.status) _ _ db (λ _. done _ _ d)
        λ _.
          Ensures-choose (not (has_status active lot.status)) _ _ db (λ _. done _ _ d)
            λ open_lot. Ensures-bind _ (available_in_row-Ensures lot db) λ amount db1 (same, here).
              let d1 : Drift o a r e db1 = rw here d in
              let gone =
                leave-Drift lot (with_status revoked) _ amount _ db1 (with_status-KeepsLot revoked)
                  (rw here found) same (revoke_active_amount o lot (ground arith)) refl refl refl
                  d1 in
              Ensures-choose (leb charged refunded) _ _ db1
                (λ _.
                  Ensures-choose (ltb_ℤ (pos 0) lot.credits_consumed) _ _ db1 (λ _. done _ _ d1)
                    (λ _. gone))
                (λ _.
                  Ensures-choose
                    (not (
                      matches_unconsumed_prorata lot.unit_amount_cents lot.credits_granted amount
                        refunded))
                    _ _ db1 (λ _. done _ _ d1) (λ _. gone))

  pub resolve_work-Drift :
      (disposition : Disposition) (event : Option ℕ) (now : ℕ) (lot : CreditLot) (db : Db)
      → find_lot lot.id db ≡ some lot
      → Drift o a r e db
      → Ensures (λ _ db'. Drift o a r e db') (resolve_work disposition event now lot db)
  unfolding resolve_work
  resolve_work-Drift lost event now lot db found d =
      Ensures-choose (not (has_status frozen lot.status)) _ _ db (λ _. done _ _ d)
        λ h.
          Ensures-bind _
            (update_lot-Drift o lot.id (with_status revoked) db
              (λ l _. with_status-KeepsLot revoked l) d)
            λ x db1 m.
              let one : m.lot ≡ lot = same_row m.found found in
              done _ _ (
                Drift-shift o _ _ _ m.drift
                  (rw one (omega (int_laws, lose_active_amount o lot (ground arith))))
                  (rw one (omega int_laws)) refl)
  resolve_work-Drift won event now lot db found d =
      Ensures-choose (not (has_status frozen lot.status)) _ _ db (λ _. done _ _ d)
        λ h. Ensures-bind _ (available_in_row-Ensures lot db) λ amount db1 (same, here).
          let d1 : Drift o a r e db1 = rw here d in
          Ensures-bind _
            (update_lot-Drift o lot.id (with_status active) db1
              (λ l _. with_status-KeepsLot active l) d1)
            λ x db2 m. Ensures-bind _ (create_entry-Drift o _ db2 m.drift) λ _ db3 (_, d3).
              Ensures-bind _
                (update_wallet-Drift o lot.organization_id (credit amount) db3 (λ _. refl) d3)
                λ _ db4 n.
                  let found1 : find_lot lot.id db1 ≡ some lot = rw here found in
                  let one : m.lot ≡ lot = same_row m.found found1 in
                  let org = lot.organization_id in
                  let d4 : Drift o a r e db4 =
                    Drift-shift o _ _ _ n.drift
                      (rw (one, unfreeze_active_amount o lot (ground arith), same)
                        (put o org a (row_available lot) _))
                      (rw one (omega (int_laws, untouched o org r n.wallet.reserved_credits)))
                      (put o org e amount _) in
                  Ensures-bind _ (expire_due_lots-Drift org now o a r e db4 d4)
                    λ _ db5 d5. done _ _ d5

  pub reread-Drift :
      (id : ℕ) (work : CreditLot → Tx CreditLotAdjustmentResult) (db : Db)
      → ((lot : CreditLot)
          → find_lot lot.id db ≡ some lot
          → Ensures (λ _ db'. Drift o a r e db') (work lot db))
      → Ensures (λ _ db'. Drift o a r e db') (reread id work db)
  unfolding reread
  reread-Drift id work db keeps = reread_found (find_lot id db) refl
    where
      reread_found :
          (found : Option CreditLot)
          → find_lot id db ≡ found
          → Ensures (λ _ db'. Drift o a r e db') ((or_not_found found >>= work) db)
      reread_found none h = failed _
      reread_found (some lot) h =
          keeps lot
            (subst (λ k. find_lot k db ≡ some lot) (sym (find_row-key lot_id id db.lots lot h)) h)
