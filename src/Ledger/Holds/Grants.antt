-- ===== src/Ledger/Holds/Grants.antt =====
-- The creation of a wallet and the grant of a payment's credits keep the count of held credits.
use prelude.Base.{ℕ, refl, Option, none, some, not, find, filter, All, any}
use prelude.Ledger.Schema.{Db, CreditWallet, CreditLot, Text}
use prelude.Ledger.Monad.{Ensures, done, failed, Ensures-bind, Ensures-choose, Ensures-if}
use prelude.Ledger.Client.{
  find_wallet, find_payment, create_wallet, update_wallet, same_wallet, or_not_found,
}
use prelude.Ledger.Moves.{Ensures-with_row}
use prelude.Ledger.Sound.{IsBacked}
use prelude.Ledger.Wallet.{
  Call, new_wallet, free_lot, grant_entry, create_if_absent, ensure_wallet_tx,
}
use prelude.Ledger.Purchase.{
  GrantPurchasedCreditLotInput, GrantPurchasedCreditLotResult, lock_currency, adopt_currency,
  check_currency, currency_gate, purchased_lot, purchase_entry, credit, create_purchase,
  unless_refused, owned_by, grant_if_new, grant_tx, is_paid_lot, same_text, to_upper_case,
}
use prelude.Ledger.Holds.{IsCounted, create_entry-Tally, update_wallet-Tally, create_lot-Tally}

-- What the creation of a lot needs of the tables.
abbrev BackedCount : Db → Type 0
BackedCount db = All (IsBacked db.lots) db.reservations × IsCounted db

create_wallet-BackedCount :
    (w : CreditWallet) (db : Db)
    → BackedCount db
    → Ensures (λ _ db'. BackedCount db') (create_wallet w db)
unfolding create_wallet
create_wallet-BackedCount w db (b, t) =
    Ensures-if (any (same_wallet w) db.wallets) _ _ (λ _. failed _)
      λ _. done _ _ (b, record { counts = t.counts })

create_if_absent-Tally :
    (call : Call) (org now days : ℕ) (found : Option CreditWallet) (db : Db)
    → BackedCount db
    → Ensures (λ _ db'. IsCounted db') (create_if_absent call org now days found db)
unfolding create_if_absent
create_if_absent-Tally call org now days (some w) db (_, t) = done _ _ t
create_if_absent-Tally call org now days none db h =
    Ensures-bind _ (create_wallet-BackedCount (new_wallet call org) db h) λ _ db1 (b1, t1).
      Ensures-bind _ (create_lot-Tally (free_lot call org now days) db1 refl b1 t1) λ _ db2 t2.
        Ensures-bind _ (create_entry-Tally 0 (grant_entry call org) db2 t2)
          λ _ db3 (_, t3). done _ _ t3

pub ensure_wallet_tx-Tally :
    (call : Call) (org now days : ℕ) (db : Db)
    → All (IsBacked db.lots) db.reservations
    → IsCounted db
    → Ensures (λ _ db'. IsCounted db') (ensure_wallet_tx call org now days db)
unfolding ensure_wallet_tx
ensure_wallet_tx-Tally call org now days db b t =
    create_if_absent-Tally call org now days (find_wallet org db) db (b, t)

lock_currency-BackedCount :
    (org : ℕ) (incoming : Text) (db : Db)
    → BackedCount db
    → Ensures (λ _ db'. BackedCount db') (update_wallet org (lock_currency incoming) db)
unfolding update_wallet
lock_currency-BackedCount org incoming db (b, t) =
    Ensures-with_row (find_wallet org db) _ λ _ _. done _ _ (b, record { counts = t.counts })

adopt_currency-BackedCount :
    (org : ℕ) (incoming : Text) (conflict : Option CreditLot) (db : Db)
    → BackedCount db
    → Ensures (λ _ db'. BackedCount db') (adopt_currency org incoming conflict db)
unfolding adopt_currency
adopt_currency-BackedCount org incoming (some lot) db h = done _ _ h
adopt_currency-BackedCount org incoming none db h =
    Ensures-bind _ (lock_currency-BackedCount org incoming db h) λ _ _ h1. done _ _ h1

check_currency-BackedCount :
    (org : ℕ) (incoming : Text) (locked : Option Text) (db : Db)
    → BackedCount db
    → Ensures (λ _ db'. BackedCount db') (check_currency org incoming locked db)
unfolding check_currency
check_currency-BackedCount org incoming none db h =
    adopt_currency-BackedCount org incoming
      (find (λ lot. not (same_text lot.currency incoming)) (filter (is_paid_lot org) db.lots)) db h
check_currency-BackedCount org incoming (some locked) db h = done _ _ h

currency_gate-BackedCount :
    (org : ℕ) (incoming : Text) (existing : Option CreditLot) (db : Db)
    → BackedCount db
    → Ensures (λ _ db'. BackedCount db') (currency_gate org incoming existing db)
unfolding currency_gate
currency_gate-BackedCount org incoming (some foreign) db h = done _ _ h
currency_gate-BackedCount org incoming none db h =
    Ensures-bind {Q = λ _ db'. BackedCount db'} _ (or_not_found-BackedCount (find_wallet org db))
      λ w db1 h1. check_currency-BackedCount org incoming w.settlement_currency db1 h1
  where
    or_not_found-BackedCount :
        (found : Option CreditWallet) → Ensures (λ _ db'. BackedCount db') (or_not_found found db)
    or_not_found-BackedCount none = failed _
    or_not_found-BackedCount (some w) = done _ _ h

create_purchase-Tally :
    (call : Call) (input : GrantPurchasedCreditLotInput) (db : Db)
    → BackedCount db
    → Ensures (λ _ db'. IsCounted db') (create_purchase call input db)
unfolding create_purchase purchased_lot
create_purchase-Tally call input db (b, t) =
    Ensures-bind _ (create_lot-Tally (purchased_lot call input) db refl b t) λ _ db1 t1.
      Ensures-bind _ (create_entry-Tally 0 (purchase_entry call input) db1 t1) λ _ db2 (_, t2).
        Ensures-bind _
          (update_wallet-Tally 0 input.organization_id (credit input.credits_granted) db2 t2)
          λ _ db3 t3. done _ _ t3

pub grant_tx-Tally :
    (call : Call) (input : GrantPurchasedCreditLotInput) (db : Db)
    → All (IsBacked db.lots) db.reservations
    → IsCounted db
    → Ensures (λ _ db'. IsCounted db') (grant_tx call input db)
unfolding grant_tx grant_if_new
grant_tx-Tally call input db b t =
    let org = input.organization_id in
    let existing = find_payment input.stripe_payment_intent_id db.lots in
    Ensures-choose (owned_by org existing) _ _ db (λ _. done _ _ t)
      λ _.
        Ensures-bind _
          (currency_gate-BackedCount org (to_upper_case input.currency) existing db (b, t))
          unless_refused-Tally
  where
    unless_refused-Tally :
        (refusal : Option GrantPurchasedCreditLotResult) (db' : Db)
        → BackedCount db'
        → Ensures
            (λ _ db''. IsCounted db'')
            (unless_refused refusal (create_purchase call input) db')
    unless_refused-Tally (some refusal) db' h = done _ _ h.1
    unless_refused-Tally none db' h = create_purchase-Tally call input db' h
