-- ===== src/Ledger/Invariant/Calls.antt =====
-- The entry points on wallets, sessions, purchases and sweeps keep the invariant, whatever they return
-- or throw.
use prelude.Base.{ℕ, ◌≡◌, refl, false, ◌||◌, Option, none, some, arith, Bool-cases, inl, inr}
use prelude.Base.Int.{ℤ, pos, ◌≤ℤ◌, leb_ℤ, ltb_ℤ}
use prelude.Ledger.Schema.{Db, CreditWallet, Reason}
use prelude.Ledger.Monad.{
  Op, unique_violation, missing_credit_wallet, unknown_credit_lot_kind,
  credit_reservation_organization_mismatch, invalid_credit_purchase_amount, record_not_found,
  transaction_expired, Result, ok, err, Ensures, Ensures-bind, done,
}
use prelude.Ledger.Client.{find_wallet, find_reservation, find_payment}
use prelude.Ledger.Wallet.{
  Call, winner, recover_wallet, ensure_unless, ensure_wallet, ensure_wallet_tx, after_ensure,
  first_five_expiry_days, paid_credit_expiry_days, run_in_wallet_transaction,
}
use prelude.Ledger.Sweeps.{expire_due_lots_in_tx, release_expired_reservations, expire_due_lots}
use prelude.Ledger.Reservations.{
  reserve_credit_for_session, capture_reservation_for_session, release_reservation_for_session,
}
use prelude.Ledger.Purchase.{
  GrantPurchasedCreditLotInput, GrantPurchasedCreditLotResult, owned_by, grant_tx, recover_grant,
  grant_purchased_credit_lot,
}
use prelude.Ledger.Balance.Grants.{ensure_wallet_tx-Drift, grant_tx-Drift}
use prelude.Ledger.Balance.Release.{release_expired-Drift}
use prelude.Ledger.Balance.Expiry.{expire_due_lots-Drift}
use prelude.Ledger.Balance.Reservations.{reserve_tx-Drift}
use prelude.Ledger.Balance.Captures.{capture_tx-Drift, release_tx-Drift}
use prelude.Ledger.Holds.Grants.{ensure_wallet_tx-Tally, grant_tx-Tally}
use prelude.Ledger.Holds.Release.{release_expired-Tally, expire_due_lots-Tally}
use prelude.Ledger.Holds.Sessions.{reserve_tx-Tally, capture_tx-Tally, release_tx-Tally}
use prelude.Ledger.Invariant.{
  IsConsistent, backed, distinct, consistently, run_transaction-IsConsistent,
  run_in_wallet_transaction-IsConsistent,
}

winner-IsConsistent :
    (db : Db) (found : Option CreditWallet) → IsConsistent db → IsConsistent (winner db found).1
winner-IsConsistent db none c = c
winner-IsConsistent db (some w) c = c

recover_wallet-IsConsistent :
    (org : ℕ) (s : Result ℕ × Db) → IsConsistent s.1 → IsConsistent (recover_wallet org s).1
unfolding recover_wallet
recover_wallet-IsConsistent org (ok w, db) c = c
recover_wallet-IsConsistent org (err unique_violation, db) c =
    winner-IsConsistent db (find_wallet org db) c
recover_wallet-IsConsistent org (err (missing_credit_wallet id), db) c = c
recover_wallet-IsConsistent org (err (unknown_credit_lot_kind id), db) c = c
recover_wallet-IsConsistent org (err (credit_reservation_organization_mismatch id s), db) c = c
recover_wallet-IsConsistent org (err (invalid_credit_purchase_amount id), db) c = c
recover_wallet-IsConsistent org (err record_not_found, db) c = c
recover_wallet-IsConsistent org (err transaction_expired, db) c = c

recover_grant-IsConsistent :
    (input : GrantPurchasedCreditLotInput) (s : Result GrantPurchasedCreditLotResult × Db)
    → IsConsistent s.1
    → IsConsistent (recover_grant input s).1
unfolding recover_grant
recover_grant-IsConsistent input (ok r, db) c = c
recover_grant-IsConsistent input (err unique_violation, db) c =
    elim (Bool-cases
      (owned_by input.organization_id (find_payment input.stripe_payment_intent_id db.lots))) [
        | inl e ↦ rw e c
        | inr e ↦ rw e c
      ]
recover_grant-IsConsistent input (err (missing_credit_wallet id), db) c = c
recover_grant-IsConsistent input (err (unknown_credit_lot_kind id), db) c = c
recover_grant-IsConsistent input (err (credit_reservation_organization_mismatch id s), db) c = c
recover_grant-IsConsistent input (err (invalid_credit_purchase_amount id), db) c = c
recover_grant-IsConsistent input (err record_not_found, db) c = c
recover_grant-IsConsistent input (err transaction_expired, db) c = c

after_ensure-IsConsistent :
    {A : Type 0} (work : Op A) (s : Result ℕ × Db)
    → ((db : Db) → IsConsistent db → IsConsistent (work db).1)
    → IsConsistent s.1
    → IsConsistent (after_ensure work s).1
after_ensure-IsConsistent work (ok w, db) h c = h db c
after_ensure-IsConsistent work (err e, db) h c = c

ensure_unless-IsConsistent :
    (call : Call) (org now days : ℕ) (found : Option CreditWallet) (db : Db)
    → IsConsistent db
    → IsConsistent (ensure_unless call org now days found db).1
unfolding ensure_unless
ensure_unless-IsConsistent call org now days (some w) db c = c
ensure_unless-IsConsistent call org now days none db c = recover_wallet-IsConsistent org _ (
    run_transaction-IsConsistent call.ensure_expires (ensure_wallet_tx call org now days) db c (
      consistently (ensure_wallet_tx call org now days db)
        (λ o. ensure_wallet_tx-Drift o call org now days db (c.balanced o))
        (ensure_wallet_tx-Tally call org now days db (backed c) c.counted)))

-- A call of `ensureWallet` keeps a consistent state consistent, whether it finds the wallet, creates it
-- or throws.
pub ensure_wallet-IsConsistent :
    (call : Call) (org now days : ℕ) (db : Db)
    → IsConsistent db
    → IsConsistent (ensure_wallet call org now days db).1
unfolding ensure_wallet
ensure_wallet-IsConsistent call org now days db c =
    ensure_unless-IsConsistent call org now days (find_wallet org call.seen) db c

-- A call of `reserveCreditForSession` keeps a consistent state consistent, in all its branches and
-- when it throws.
pub reserve_credit-IsConsistent :
    (call : Call) (org session now : ℕ) (db : Db)
    → IsConsistent db
    → IsConsistent (reserve_credit_for_session call org session now db).1
unfolding reserve_credit_for_session
reserve_credit-IsConsistent call org session now db c =
    after_ensure-IsConsistent _ (ensure_wallet call org now first_five_expiry_days db)
      (λ db' c'.
        let found = find_reservation session db' in
        run_in_wallet_transaction-IsConsistent call.expires org _ db' c' (
          consistently _
            (λ o. reserve_tx-Drift o call org session now found db' refl (c'.balanced o))
            (reserve_tx-Tally call org session now found db' refl (distinct c') c'.counted)))
      (ensure_wallet-IsConsistent call org now first_five_expiry_days db c)

-- A call of `captureReservationForSession` keeps a consistent state consistent, in all its branches
-- and when it throws.
pub capture_reservation-IsConsistent :
    (call : Call) (org session now : ℕ) (db : Db)
    → IsConsistent db
    → IsConsistent (capture_reservation_for_session call org session now db).1
unfolding capture_reservation_for_session
capture_reservation-IsConsistent call org session now db c =
    let found = find_reservation session db in
    run_in_wallet_transaction-IsConsistent call.expires org _ db c (
      consistently _
        (λ o. capture_tx-Drift o org session now found db refl c.counted (c.balanced o))
        (capture_tx-Tally org session now found db refl (distinct c) c.counted))

-- A call of `releaseReservationForSession` keeps a consistent state consistent, into an open lot and
-- into a closed one, and when it throws.
pub release_reservation-IsConsistent :
    (call : Call) (org session now : ℕ) (reason : Reason) (db : Db)
    → IsConsistent db
    → IsConsistent (release_reservation_for_session call org session now reason db).1
unfolding release_reservation_for_session
release_reservation-IsConsistent call org session now reason db c =
    let found = find_reservation session db in
    run_in_wallet_transaction-IsConsistent call.expires org _ db c (
      consistently _ (λ o. release_tx-Drift o org session now reason found db refl (c.balanced o))
        (release_tx-Tally org session now reason found db refl (distinct c) c.counted))

expire_due-IsConsistent :
    (org now : ℕ) (db : Db)
    → IsConsistent db
    → Ensures (λ _ db'. IsConsistent db') (expire_due_lots_in_tx org now db)
expire_due-IsConsistent org now db c =
    consistently _ (λ o. expire_due_lots-Drift org now o _ _ _ db (c.balanced o))
      (expire_due_lots-Tally 0 org now db c.counted)

-- A sweep of expired reservations keeps a consistent state consistent, also when it throws.
pub release_expired-IsConsistent :
    (call : Call) (org now : ℕ) (db : Db)
    → IsConsistent db
    → IsConsistent (release_expired_reservations call org now db).1
unfolding release_expired_reservations
release_expired-IsConsistent call org now db c =
    run_in_wallet_transaction-IsConsistent call.expires org _ db c (
      Ensures-bind _
        (consistently _ (λ o. release_expired-Drift o org now _ _ _ db (c.balanced o))
          (release_expired-Tally org now db (distinct c) c.counted))
        λ count db1 c1.
          Ensures-bind _ (expire_due-IsConsistent org now db1 c1) λ _ db2 c2. done _ _ c2)

-- A sweep of due lots keeps a consistent state consistent, also when it throws.
pub expire_due_lots-IsConsistent :
    (call : Call) (org now : ℕ) (db : Db)
    → IsConsistent db
    → IsConsistent (expire_due_lots call org now db).1
unfolding expire_due_lots
expire_due_lots-IsConsistent call org now db c =
    run_in_wallet_transaction-IsConsistent call.expires org _ db c
      (expire_due-IsConsistent org now db c)

paid_up :
    (credits cents : ℤ) → (leb_ℤ credits (pos 0) || ltb_ℤ cents (pos 0)) ≡ false → pos 0 ≤ℤ credits
paid_up credits cents h = ground arith

-- A call of `grantPurchasedCreditLot` keeps a consistent state consistent: granted, granted before,
-- refused or thrown.
pub grant_purchased-IsConsistent :
    (call : Call) (input : GrantPurchasedCreditLotInput) (db : Db)
    → IsConsistent db
    → IsConsistent (grant_purchased_credit_lot call input db).1
unfolding grant_purchased_credit_lot
grant_purchased-IsConsistent call input db c =
    let org = input.organization_id in
    let grant : Op GrantPurchasedCreditLotResult = λ db'.
      recover_grant input (run_in_wallet_transaction call.expires org (grant_tx call input) db') in
    elim (Bool-cases
      (leb_ℤ input.credits_granted (pos 0) || ltb_ℤ input.unit_amount_cents (pos 0))) [
        | inl e ↦ rw e c
        | inr e ↦ rw e (
            after_ensure-IsConsistent grant
              (ensure_wallet call org input.now paid_credit_expiry_days db)
              (λ db' c'.
                let positive = paid_up input.credits_granted input.unit_amount_cents e in
                recover_grant-IsConsistent input
                  (run_in_wallet_transaction call.expires org (grant_tx call input) db')
                  (run_in_wallet_transaction-IsConsistent call.expires org (grant_tx call input) db'
                    c'
                    (consistently _ (λ o. grant_tx-Drift o call input db' positive (c'.balanced o))
                      (grant_tx-Tally call input db' (backed c') c'.counted))))
              (ensure_wallet-IsConsistent call org input.now paid_credit_expiry_days db c))
      ]
