-- ===== src/Ledger/Purchase/Replay.antt =====
-- A payment that is delivered again.
use prelude.Base.{
  ℕ, ◌≡◌, refl, ap, ◌∙◌, Bool, true, false, not, ◌||◌, Option, none, some, List, ◌∷◌, ==-refl,
  if◌then◌else◌, Bool-cases, inl, inr, any, find, filter,
}
use prelude.Base.Int.{pos, leb_ℤ, ltb_ℤ}
use prelude.Ledger.Schema.{Db, CreditWallet, CreditLot, Text}
use prelude.Ledger.Table.{find_row-update_row}
use prelude.Ledger.Monad.{
  Tx, continue, ◌>>◌, Result, ok, err, unique_violation, missing_credit_wallet,
  unknown_credit_lot_kind, credit_reservation_organization_mismatch, invalid_credit_purchase_amount,
  record_not_found, transaction_expired, Ensures, Ensures-if, Ensures-choose, Ensures-bind,
  Ensures-weaken, done, failed, commit, run_transaction_cases,
}
use prelude.Ledger.Monad.Attempts.{run_transaction_once}
use prelude.Ledger.Client.{
  wallet_org, find_wallet, find_payment, create_lot, create_entry, update_wallet, clashes,
  or_not_found,
}
use prelude.Ledger.Moves.{Ensures-with_row}
use prelude.Ledger.Wallet.{
  Call, after_ensure, ensure_wallet, ensure_unless, lock_wallet, locked_wallet,
  run_in_wallet_transaction, paid_credit_expiry_days,
}
use prelude.Ledger.Purchase.{
  GrantPurchasedCreditLotInput, GrantPurchasedCreditLotResult, granted, already_granted,
  currency_mismatch, is_paid_lot, same_text, to_upper_case, adopt_currency, check_currency,
  currency_gate, purchased_lot, credit, create_purchase, unless_refused, owned_by, grant_if_new,
  grant_tx, recover_grant, grant_purchased_credit_lot,
}

abbrev pub is_granted : GrantPurchasedCreditLotResult → Bool
is_granted (granted lot_id) = true
is_granted _ = false

abbrev pub reports_granted : Result GrantPurchasedCreditLotResult → Bool
reports_granted (ok r) = is_granted r
reports_granted (err e) = false

-- The payment has a lot of the organization, and the organization has a wallet.
abbrev pub Settled : GrantPurchasedCreditLotInput → Db → Type 0
Settled input db =
    (owned_by input.organization_id (find_payment input.stripe_payment_intent_id db.lots) ≡ true)
    × (w : CreditWallet) × (find_wallet input.organization_id db ≡ some w)

-- The gate refuses with a mismatch or not at all.
abbrev IsRefusal : Option GrantPurchasedCreditLotResult → Type 0
IsRefusal none = Unit
IsRefusal (some r) = is_granted r ≡ false

adopt_currency-IsRefusal :
    (org : ℕ) (incoming : Text) (conflict : Option CreditLot) (db : Db)
    → Ensures (λ r _. IsRefusal r) (adopt_currency org incoming conflict db)
unfolding adopt_currency update_wallet
adopt_currency-IsRefusal org incoming (some lot) db = done _ _ refl
adopt_currency-IsRefusal org incoming none db =
    Ensures-bind {Q = λ _ _. Unit} _ (Ensures-with_row (find_wallet org db) _ λ _ _. done _ _ tt)
      λ _ _ _. done _ _ tt

check_currency-IsRefusal :
    (org : ℕ) (incoming : Text) (locked : Option Text) (db : Db)
    → Ensures (λ r _. IsRefusal r) (check_currency org incoming locked db)
unfolding check_currency
check_currency-IsRefusal org incoming none db =
    adopt_currency-IsRefusal org incoming
      (find (λ lot. not (same_text lot.currency incoming)) (filter (is_paid_lot org) db.lots)) db
check_currency-IsRefusal org incoming (some locked) db =
    done _ _ (mismatch (same_text locked incoming))
  where
    mismatch :
        (b : Bool) → IsRefusal (if not b then some (currency_mismatch locked incoming) else none)
    mismatch true = tt
    mismatch false = refl

currency_gate-IsRefusal :
    (org : ℕ) (incoming : Text) (existing : Option CreditLot) (db : Db)
    → Ensures (λ r _. IsRefusal r) (currency_gate org incoming existing db)
unfolding currency_gate
currency_gate-IsRefusal org incoming (some lot) db = done _ _ tt
currency_gate-IsRefusal org incoming none db =
    Ensures-bind {Q = λ _ _. Unit} _ (found (find_wallet org db))
      λ w db' _. check_currency-IsRefusal org incoming w.settlement_currency db'
  where
    found : (w : Option CreditWallet) → Ensures (λ _ _. Unit) (or_not_found w db)
    found none = failed _
    found (some w) = done _ _ tt

new_lot_owned :
    (call : Call) (input : GrantPurchasedCreditLotInput) (lots : List CreditLot)
    → owned_by input.organization_id
        (find_payment input.stripe_payment_intent_id (purchased_lot call input ∷ lots))
      ≡ true
unfolding find_payment purchased_lot
new_lot_owned call input lots =
    rw (==-refl input.stripe_payment_intent_id, ==-refl input.organization_id) refl

create_purchase-Settled :
    (call : Call) (input : GrantPurchasedCreditLotInput) (db : Db)
    → Ensures (λ _ db'. Settled input db') (create_purchase call input db)
unfolding create_purchase create_lot create_entry update_wallet
create_purchase-Settled call input db =
    Ensures-bind {Q = λ _ db1. db1.lots ≡ purchased_lot call input ∷ db.lots} _
      (Ensures-if (any (clashes (purchased_lot call input)) db.lots) _ _ (λ _. failed _)
        (λ _. done _ _ refl))
      λ lot db1 e1.
        Ensures-bind {Q = λ _ db2. Settled input db2} _
          (Ensures-with_row (find_wallet input.organization_id db1) _ λ w found. done _ _ (
            rw e1 (new_lot_owned call input db.lots),
            credit input.credits_granted w,
            find_row-update_row wallet_org input.organization_id (credit input.credits_granted)
                db1.wallets w (λ _. refl) found,
          ))
          λ _ db3 s. done _ _ s

grant_tx-Settled :
    (call : Call) (input : GrantPurchasedCreditLotInput) (db : Db)
    → Ensures (λ r db'. is_granted r ≡ true → Settled input db') (grant_tx call input db)
unfolding grant_tx grant_if_new
grant_tx-Settled call input db =
    let org = input.organization_id in
    let existing = find_payment input.stripe_payment_intent_id db.lots in
    Ensures-choose (owned_by org existing) _ _ db (λ _. done _ _ (λ h. cc))
      λ _.
        Ensures-bind _ (currency_gate-IsRefusal org (to_upper_case input.currency) existing db)
          settled
  where
    settled :
        (refusal : Option GrantPurchasedCreditLotResult) (db' : Db)
        → IsRefusal refusal
        → Ensures
            (λ r db''. is_granted r ≡ true → Settled input db'')
            (unless_refused refusal (create_purchase call input) db')
    settled (some r) db' refused = done _ _ (λ h. cc)
    settled none db' _ = Ensures-weaken (create_purchase-Settled call input db') λ _ _ s _. s

-- What a result says of the state that it stands beside.
abbrev Tells : GrantPurchasedCreditLotInput → Result GrantPurchasedCreditLotResult × Db → Type 0
Tells input s = reports_granted s.0 ≡ true → Settled input s.1

commit-Tells :
    (input : GrantPurchasedCreditLotInput) (db : Db)
    (r : Result (GrantPurchasedCreditLotResult × Db))
    → Ensures (λ a db'. is_granted a ≡ true → Settled input db') r
    → Tells input (commit db r)
commit-Tells input db r (done a db' h) = h
commit-Tells input db r (failed e) = λ h. cc

recover_grant-Tells :
    (input : GrantPurchasedCreditLotInput) (s : Result GrantPurchasedCreditLotResult × Db)
    → Tells input s
    → Tells input (recover_grant input s)
unfolding recover_grant
recover_grant-Tells input (ok r, db) t = t
recover_grant-Tells input (err unique_violation, db) t =
    elim (Bool-cases
      (owned_by input.organization_id (find_payment input.stripe_payment_intent_id db.lots))) [
        | inl e ↦ rw e (λ h. cc)
        | inr e ↦ rw e (λ h. cc)
      ]
recover_grant-Tells input (err (missing_credit_wallet id), db) t = t
recover_grant-Tells input (err (unknown_credit_lot_kind id), db) t = t
recover_grant-Tells input (err (credit_reservation_organization_mismatch id s), db) t = t
recover_grant-Tells input (err (invalid_credit_purchase_amount id), db) t = t
recover_grant-Tells input (err record_not_found, db) t = t
recover_grant-Tells input (err transaction_expired, db) t = t

lock_then :
    {A : Type 0} {Q : A → Db → Type 0} (org : ℕ) (work : Tx A) (db : Db)
    → Ensures Q (work db)
    → Ensures Q (continue (lock_wallet org db) (λ _. work))
unfolding lock_wallet
lock_then {Q = Q} org work db h = locked (find_wallet org db)
  where
    locked : (w : Option CreditWallet) → Ensures Q (continue (locked_wallet org w db) (λ _. work))
    locked none = failed _
    locked (some w) = h

grant_in_wallet-Tells :
    (call : Call) (input : GrantPurchasedCreditLotInput) (db : Db)
    → Tells input
        (run_in_wallet_transaction call.expires input.organization_id (grant_tx call input) db)
unfolding run_in_wallet_transaction
grant_in_wallet-Tells call input db =
    run_transaction_cases (Tells input) call.expires _ db (λ h. cc)
      (commit-Tells input db _
        (lock_then input.organization_id (grant_tx call input) db (grant_tx-Settled call input db)))

pub grant_purchased-Tells :
    (call : Call) (input : GrantPurchasedCreditLotInput) (db : Db)
    → Tells input (grant_purchased_credit_lot call input db)
unfolding grant_purchased_credit_lot
grant_purchased-Tells call input db =
    elim (Bool-cases
      (leb_ℤ input.credits_granted (pos 0) || ltb_ℤ input.unit_amount_cents (pos 0))) [
        | inl e ↦ rw e (λ h. cc)
        | inr e ↦
            rw e (
              after (ensure_wallet call input.organization_id input.now paid_credit_expiry_days db))
      ]
  where
    after :
        (s : Result ℕ × Db)
        → Tells input (
            after_ensure
              (λ db'. recover_grant input (
                run_in_wallet_transaction call.expires input.organization_id
                  (grant_tx call input)
                  db'))
              s)
    after (ok w, db') = recover_grant-Tells input _ (grant_in_wallet-Tells call input db')
    after (err e, db') = λ h. cc

-- A settled payment is not granted again.
pub replay_refused :
    (call : Call) (input : GrantPurchasedCreditLotInput) (db : Db) (w : CreditWallet)
    → (leb_ℤ input.credits_granted (pos 0) || ltb_ℤ input.unit_amount_cents (pos 0)) ≡ false
    → find_wallet input.organization_id call.seen ≡ some w
    → call.expires 1 ≡ false
    → Settled input db
    → grant_purchased_credit_lot call input db ≡ (ok already_granted, db)
unfolding grant_purchased_credit_lot ensure_wallet ensure_unless run_in_wallet_transaction
    lock_wallet grant_tx grant_if_new recover_grant
replay_refused call input db w paid seen first (owned, v, found) =
    let org = input.organization_id in
    let ran : run_in_wallet_transaction call.expires org (grant_tx call input) db
        ≡ (ok already_granted, db) =
      run_transaction_once call.expires (lock_wallet org >> grant_tx call input) db
      ∙ rw (first, found, owned) refl in
    rw (paid, seen) (ap (recover_grant input) ran)

pub paid_for :
    (call : Call) (input : GrantPurchasedCreditLotInput) (db : Db)
    → reports_granted (grant_purchased_credit_lot call input db).0 ≡ true
    → (leb_ℤ input.credits_granted (pos 0) || ltb_ℤ input.unit_amount_cents (pos 0)) ≡ false
unfolding grant_purchased_credit_lot
paid_for call input db h =
    elim (Bool-cases
      (leb_ℤ input.credits_granted (pos 0) || ltb_ℤ input.unit_amount_cents (pos 0))) [
        | inl e ↦ let no : false ≡ true = rw e at h in cc
        | inr e ↦ e
      ]

-- A payment that was granted is granted once: the same purchase delivered again, by a call that sees
-- the organization's wallet and whose first attempt does not expire, returns `already_granted` and
-- changes nothing.
pub granted_once :
    (call again : Call) (input : GrantPurchasedCreditLotInput) (db : Db) (w : CreditWallet)
    → reports_granted (grant_purchased_credit_lot call input db).0 ≡ true
    → find_wallet input.organization_id again.seen ≡ some w
    → again.expires 1 ≡ false
    → let db' = (grant_purchased_credit_lot call input db).1 in
      grant_purchased_credit_lot again input db' ≡ (ok already_granted, db')
granted_once call again input db w h seen first =
    replay_refused again input (grant_purchased_credit_lot call input db).1 w
      (paid_for call input db h) seen first (grant_purchased-Tells call input db h)
