-- ===== src/Ledger/Balance/Grants.antt =====
-- The creation of a wallet with its free credits, and the grant of a payment's credits, keep the
-- books.
use prelude.Base.{ℕ, ◌≡◌, refl, Option, none, some, not, find, filter}
use prelude.Base.Int.{ℤ, pos, ◌+ℤ◌, ◌-ℤ◌, ◌≤ℤ◌, int_laws}
use prelude.Ledger.Schema.{Db, CreditWallet, CreditLot, Text}
use prelude.Ledger.Monad.{Ensures, done, failed, Ensures-bind, Ensures-choose}
use prelude.Ledger.Client.{find_wallet, find_payment, or_not_found}
use prelude.Ledger.Sound.{IsSolvent}
use prelude.Ledger.Books.{
  at, active_amount, reserved_amount, Drift, Drift-shift, create_entry-Drift,
}
use prelude.Ledger.Moves.{update_wallet-Drift, create_lot-Drift, create_wallet-Drift}
use prelude.Ledger.Wallet.{
  Call, first_five_credits, new_wallet, free_lot, grant_entry, create_if_absent, ensure_wallet_tx,
}
use prelude.Ledger.Purchase.{
  GrantPurchasedCreditLotInput, GrantPurchasedCreditLotResult, lock_currency, adopt_currency,
  check_currency, currency_gate, purchased_lot, purchase_entry, credit, create_purchase,
  unless_refused, owned_by, grant_if_new, grant_tx, is_paid_lot, same_text, to_upper_case,
}
use prelude.Ledger.Balance.Amounts.{put, untouched}

-- A lot that is worth what the wallet starts with.
opened_available : (o org : ℕ) (x y : ℤ) → x -ℤ at o org y +ℤ at o org y ≡ x
opened_available o org x y = grind int_laws

opened_reserved : (o org : ℕ) (x : ℤ) → x -ℤ at o org (pos 0) +ℤ at o org (pos 0) ≡ x
opened_reserved o org x = grind int_laws

free_lot-IsSolvent : (call : Call) (org now days : ℕ) → IsSolvent (free_lot call org now days)
free_lot-IsSolvent call org now days = omega int_laws

purchased_lot-IsSolvent :
    (call : Call) (input : GrantPurchasedCreditLotInput)
    → pos 0 ≤ℤ input.credits_granted
    → IsSolvent (purchased_lot call input)
unfolding purchased_lot
purchased_lot-IsSolvent call input h = omega int_laws

bought_available :
    (o : ℕ) (call : Call) (input : GrantPurchasedCreditLotInput)
    → active_amount o (purchased_lot call input) ≡ at o input.organization_id input.credits_granted
unfolding purchased_lot
bought_available o call input = grind int_laws

bought_reserved :
    (o : ℕ) (call : Call) (input : GrantPurchasedCreditLotInput) (x w : ℤ)
    → x +ℤ reserved_amount o (purchased_lot call input) -ℤ at o input.organization_id (w -ℤ w) ≡ x
unfolding purchased_lot
bought_reserved o call input x w = grind int_laws

module _ (o : ℕ) {a r e : ℤ} where
  create_if_absent-Drift :
      (call : Call) (org now days : ℕ) (found : Option CreditWallet) (db : Db)
      → Drift o a r e db
      → Ensures (λ _ db'. Drift o a r e db') (create_if_absent call org now days found db)
  unfolding create_if_absent new_wallet ◌-ℤ◌
  create_if_absent-Drift call org now days (some w) db d = done _ _ d
  create_if_absent-Drift call org now days none db d =
      Ensures-bind _ (create_wallet-Drift o (new_wallet call org) db d) λ _ db1 d1.
        Ensures-bind _
          (create_lot-Drift o (free_lot call org now days) db1
            (free_lot-IsSolvent call org now days) d1)
          λ _ db2 (_, d2).
            Ensures-bind _ (create_entry-Drift o (grant_entry call org) db2 d2) λ _ db3 (_, d3).
              done _ _ (
                Drift-shift o a r e d3 (opened_available o org a first_five_credits)
                  (opened_reserved o org r) (opened_available o org e first_five_credits))

  pub ensure_wallet_tx-Drift :
      (call : Call) (org now days : ℕ) (db : Db)
      → Drift o a r e db
      → Ensures (λ _ db'. Drift o a r e db') (ensure_wallet_tx call org now days db)
  unfolding ensure_wallet_tx
  ensure_wallet_tx-Drift call org now days db d =
      create_if_absent-Drift call org now days (find_wallet org db) db d

  adopt_currency-Drift :
      (org : ℕ) (incoming : Text) (conflict : Option CreditLot) (db : Db)
      → Drift o a r e db
      → Ensures (λ _ db'. Drift o a r e db') (adopt_currency org incoming conflict db)
  unfolding adopt_currency
  adopt_currency-Drift org incoming (some lot) db d = done _ _ d
  adopt_currency-Drift org incoming none db d =
      Ensures-bind _ (update_wallet-Drift o org (lock_currency incoming) db (λ _. refl) d)
        λ _ db1 n. done _ _ (
          Drift-shift o a r e n.drift (untouched o org a _) (untouched o org r _)
            (untouched o org e _))

  check_currency-Drift :
      (org : ℕ) (incoming : Text) (locked : Option Text) (db : Db)
      → Drift o a r e db
      → Ensures (λ _ db'. Drift o a r e db') (check_currency org incoming locked db)
  unfolding check_currency
  check_currency-Drift org incoming none db d =
      adopt_currency-Drift org incoming
        (find (λ lot. not (same_text lot.currency incoming)) (filter (is_paid_lot org) db.lots)) db
        d
  check_currency-Drift org incoming (some locked) db d = done _ _ d

  currency_gate-Drift :
      (org : ℕ) (incoming : Text) (existing : Option CreditLot) (db : Db)
      → Drift o a r e db
      → Ensures (λ _ db'. Drift o a r e db') (currency_gate org incoming existing db)
  unfolding currency_gate
  currency_gate-Drift org incoming (some foreign) db d = done _ _ d
  currency_gate-Drift org incoming none db d =
      Ensures-bind {Q = λ _ db'. Drift o a r e db'} _ (or_not_found-Drift (find_wallet org db))
        λ w db1 d1. check_currency-Drift org incoming w.settlement_currency db1 d1
    where
      or_not_found-Drift :
          (found : Option CreditWallet)
          → Ensures (λ _ db'. Drift o a r e db') (or_not_found found db)
      or_not_found-Drift none = failed _
      or_not_found-Drift (some w) = done _ _ d

module _ (o : ℕ) {a r e : ℤ} where
  create_purchase-Drift :
      (call : Call) (input : GrantPurchasedCreditLotInput) (db : Db)
      → pos 0 ≤ℤ input.credits_granted
      → Drift o a r e db
      → Ensures (λ _ db'. Drift o a r e db') (create_purchase call input db)
  unfolding create_purchase
  create_purchase-Drift call input db positive d =
      let org = input.organization_id in
      Ensures-bind _
        (create_lot-Drift o (purchased_lot call input) db
          (purchased_lot-IsSolvent call input positive) d)
        λ _ db1 (_, d1).
          Ensures-bind _ (create_entry-Drift o (purchase_entry call input) db1 d1) λ _ db2 (_, d2).
            Ensures-bind _
              (update_wallet-Drift o org (credit input.credits_granted) db2 (λ _. refl) d2)
              λ _ db3 n. done _ _ (
                Drift-shift o a r e n.drift
                  (rw (bought_available o call input) (put o org a input.credits_granted _))
                  (bought_reserved o call input r _) (put o org e input.credits_granted _))

  pub grant_tx-Drift :
      (call : Call) (input : GrantPurchasedCreditLotInput) (db : Db)
      → pos 0 ≤ℤ input.credits_granted
      → Drift o a r e db
      → Ensures (λ _ db'. Drift o a r e db') (grant_tx call input db)
  unfolding grant_tx grant_if_new
  grant_tx-Drift call input db positive d =
      let org = input.organization_id in
      let existing = find_payment input.stripe_payment_intent_id db.lots in
      Ensures-choose (owned_by org existing) _ _ db (λ _. done _ _ d)
        λ _.
          Ensures-bind _ (currency_gate-Drift o org (to_upper_case input.currency) existing db d)
            unless_refused-Drift
    where
      unless_refused-Drift :
          (refusal : Option GrantPurchasedCreditLotResult) (db' : Db)
          → Drift o a r e db'
          → Ensures
              (λ _ db''. Drift o a r e db'')
              (unless_refused refusal (create_purchase call input) db')
      unless_refused-Drift (some refusal) db' d' = done _ _ d'
      unless_refused-Drift none db' d' = create_purchase-Drift call input db' positive d'
