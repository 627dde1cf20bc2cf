-- ===== src/Ledger/Exits/Closed.antt =====
-- The lot of a payment that is closed, and a second call that finds it closed.
use prelude.Base.{
  ℕ, ◌≡◌, refl, sym, ◌∙◌, ap, subst, Bool, true, false, Option, none, some, List, [], ◌∷◌, All,
  ◌==◌, ==-refl, Bool-cases, inl, inr, is_key,
}
use prelude.Base.Int.{ℤ}
use prelude.CreditLots.{LotStatus}
use prelude.Ledger.Schema.{Db, CreditWallet, CreditLot, CreditLedgerEntry, known}
use prelude.Ledger.Table.{Distinct, Distinct-find_row, find_row, update_row, find_row-update_row}
use prelude.Ledger.Monad.{
  Tx, Op, Result, ok, err, pure, ◌>>◌, continue, commit, run_transaction_cases, Ensures, done,
  failed, Ensures-bind,
}
use prelude.Ledger.Monad.Attempts.{run_transaction_once}
use prelude.Ledger.Client.{
  lot_id, wallet_org, find_wallet, find_lot, find_payment, update_lot, update_wallet, create_entry,
}
use prelude.Ledger.Moves.{Ensures-with_row}
use prelude.Ledger.Wallet.{Call, locked_wallet, lock_wallet, run_in_wallet_transaction}
use prelude.Ledger.Sweeps.{write_off}
use prelude.Ledger.Exits.{
  CreditLotAdjustmentResult, applied, already_applied, reread, lock_located,
  with_locked_lot_for_payment,
}

-- A payment's lot that is closed, with its organization's wallet.
pub record Closed (payment : ℕ) (status : LotStatus) (db : Db) : Type 0 where
  pub lot : CreditLot
  pub located : find_payment payment db.lots ≡ some lot
  pub stands : find_lot lot.id db ≡ some lot
  pub closed : lot.status ≡ known status
  pub wallet : CreditWallet
  pub owner : find_wallet lot.organization_id db ≡ some wallet

find_payment-key :
    (payment : ℕ) (lots : List CreditLot) (lot : CreditLot)
    → find_payment payment lots ≡ some lot
    → is_key payment lot.stripe_payment_intent_id ≡ true
unfolding find_payment
find_payment-key payment [] lot h = cc
find_payment-key payment (y ∷ lots) lot h =
    elim (Bool-cases (is_key payment y.stripe_payment_intent_id)) [
      | inl e ↦
          let same : some y ≡ some lot = rw e at h in
          let first : y ≡ lot = cc in
          subst (λ z. is_key payment z.stripe_payment_intent_id ≡ true) first e
      | inr e ↦
          let rest : find_payment payment lots ≡ some lot = rw e at h in
          find_payment-key payment lots lot rest
    ]

find_payment-All :
    (P : CreditLot → Type 0) (payment : ℕ) (lots : List CreditLot) (lot : CreditLot)
    → find_payment payment lots ≡ some lot
    → All P lots
    → P lot
unfolding find_payment
find_payment-All P payment [] lot h all = cc
find_payment-All P payment (y ∷ lots) lot h all =
    elim (Bool-cases (is_key payment y.stripe_payment_intent_id)) [
      | inl e ↦
          let same : some y ≡ some lot = rw e at h in
          let first : y ≡ lot = cc in subst P first all.0
      | inr e ↦
          let rest : find_payment payment lots ≡ some lot = rw e at h in
          find_payment-All P payment lots lot rest all.1
    ]

-- The payment's lot is still the payment's after a write to it.
find_payment-update_row :
    (payment : ℕ) (f : CreditLot → CreditLot) (lots : List CreditLot) (lot : CreditLot)
    → ((y : CreditLot) → (f y).stripe_payment_intent_id ≡ y.stripe_payment_intent_id)
    → find_payment payment lots ≡ some lot
    → find_row lot_id lot.id lots ≡ some lot
    → find_payment payment (update_row lot_id lot.id f lots) ≡ some (f lot)
unfolding find_payment find_row update_row
find_payment-update_row payment f [] lot keep h there = cc
find_payment-update_row payment f (y ∷ lots) lot keep h there = elim (Bool-cases (y.id == lot.id)) [
  | inl e ↦
      let same : some y ≡ some lot = rw e at there in
      let first : y ≡ lot = cc in
      let key = ap (is_key payment) (keep lot) ∙ find_payment-key payment (y ∷ lots) lot h in
      rw (e, first) (rw key refl)
  | inr e ↦
      let rest : find_row lot_id lot.id lots ≡ some lot = rw e at there in
      elim (Bool-cases (is_key payment y.stripe_payment_intent_id)) [
        | inl k ↦
            let same : some y ≡ some lot = rw k at h in
            let first : y ≡ lot = cc in
            let no : (lot.id == lot.id) ≡ false = rw first at e in let yes = ==-refl lot.id in cc
        | inr k ↦
            let found : find_payment payment lots ≡ some lot = rw k at h in
            rw (e, k) (find_payment-update_row payment f lots lot keep found rest)
      ]
]

module _ (payment : ℕ) (status : LotStatus) where
  pub close-Closed :
      (lot : CreditLot) (f : CreditLot → CreditLot) (entry : CreditLedgerEntry) (amount : ℤ)
      (result : CreditLotAdjustmentResult) (db : Db)
      → find_payment payment db.lots ≡ some lot
      → find_lot lot.id db ≡ some lot
      → ((y : CreditLot) → lot_id (f y) ≡ lot_id y)
      → ((y : CreditLot) → (f y).stripe_payment_intent_id ≡ y.stripe_payment_intent_id)
      → (f lot).organization_id ≡ lot.organization_id
      → (f lot).status ≡ known status
      → Ensures
          (λ _ db'. Closed payment status db')
          ((do
            update_lot lot.id f
            create_entry entry
            update_wallet lot.organization_id (write_off amount)
            pure result)
            db)
  unfolding update_lot create_entry update_wallet
  close-Closed lot f entry amount result db located stands keep_id keep_payment keep_owner shut =
      let org = lot.organization_id in
      rw stands (
        Ensures-bind {Q = λ _ db'. Closed payment status db'} _
          (Ensures-with_row (find_wallet org db) _ λ w found. done _ _ (record {
            lot = f lot;
            located = find_payment-update_row payment f db.lots lot keep_payment located stands;
            stands =
                subst (λ k. find_row lot_id k (update_row lot_id lot.id f db.lots) ≡ some (f lot))
                  (sym (keep_id lot))
                  (find_row-update_row lot_id lot.id f db.lots lot keep_id stands);
            closed = shut;
            wallet = write_off amount w;
            owner =
                subst
                  (λ k.
                    find_row wallet_org k (update_row wallet_org org (write_off amount) db.wallets)
                    ≡ some (write_off amount w))
                  (sym keep_owner)
                  (find_row-update_row wallet_org org (write_off amount) db.wallets w (λ _. refl)
                    found);
          }))
          λ _ _ c. done _ _ c)

abbrev pub is_applied : CreditLotAdjustmentResult → Bool
is_applied (applied org lot_id credits) = true
is_applied _ = false

abbrev pub reports_applied : Result CreditLotAdjustmentResult → Bool
reports_applied (ok r) = is_applied r
reports_applied (err e) = false

-- What a result of an exit says of the state beside it.
abbrev pub Tells : ℕ → LotStatus → Result CreditLotAdjustmentResult × Db → Type 0
Tells payment status s = reports_applied s.0 ≡ true → Closed payment status s.1

commit-Tells :
    (payment : ℕ) (status : LotStatus) (db : Db) (r : Result (CreditLotAdjustmentResult × Db))
    → Ensures (λ a db'. is_applied a ≡ true → Closed payment status db') r
    → Tells payment status (commit db r)
commit-Tells payment status db r (done a db' h) = h
commit-Tells payment status db r (failed e) = λ h. cc

lock_then :
    {A : Type 0} {Q : A → Db → Type 0} (org : ℕ) (work : Tx A) (db : Db)
    → Ensures Q (work db)
    → Ensures Q (continue (lock_wallet org db) (λ _. work))
unfolding lock_wallet
lock_then {Q = Q} org work db h = locked (find_wallet org db)
  where
    locked : (w : Option CreditWallet) → Ensures Q (continue (locked_wallet org w db) (λ _. work))
    locked none = failed _
    locked (some w) = h

pub with_locked_lot-Tells :
    (call : Call) (payment : ℕ) (status : LotStatus)
    (work : CreditLot → Tx CreditLotAdjustmentResult) (db : Db)
    → Distinct lot_id db.lots
    → call.seen ≡ db
    → ((lot : CreditLot)
        → find_payment payment db.lots ≡ some lot
        → find_lot lot.id db ≡ some lot
        → Ensures (λ a db'. is_applied a ≡ true → Closed payment status db') (work lot db))
    → Tells payment status (with_locked_lot_for_payment call payment work db)
unfolding with_locked_lot_for_payment run_in_wallet_transaction reread
with_locked_lot-Tells call payment status work db distinct seen closes =
    rw seen (located (find_payment payment db.lots) refl)
  where
    located :
        (found : Option CreditLot)
        → find_payment payment db.lots ≡ found
        → Tells payment status (lock_located call work found db)
    located none e = λ h. cc
    located (some lot) e =
        let stands =
          find_payment-All (λ x. find_row lot_id (lot_id x) db.lots ≡ some x) payment db.lots lot e
            (Distinct-find_row lot_id db.lots distinct) in
        run_transaction_cases (Tells payment status) call.expires _ db (λ h. cc)
          (commit-Tells payment status db _ (
            lock_then lot.organization_id (reread lot.id work) db
              (rw stands (closes lot e stands))))

-- A closed lot, told that it is closed.
abbrev pub IsReplay : LotStatus → Op CreditLotAdjustmentResult → Db → Type 0
IsReplay status op db =
    (org : ℕ) × (id : ℕ) × (op db ≡ (ok (already_applied org id (known status)), db))

pub with_locked_lot-IsReplay :
    (call : Call) (payment : ℕ) (status : LotStatus)
    (work : CreditLot → Tx CreditLotAdjustmentResult) (db : Db)
    → Closed payment status db
    → call.seen ≡ db
    → call.expires 1 ≡ false
    → ((lot : CreditLot)
        → lot.status ≡ known status
        → work lot db ≡ ok (already_applied lot.organization_id lot.id (known status), db))
    → IsReplay status (with_locked_lot_for_payment call payment work) db
unfolding with_locked_lot_for_payment run_in_wallet_transaction lock_wallet reread
with_locked_lot-IsReplay call payment status work db c seen first told =
    let lot = c.lot in
    (
      lot.organization_id,
      lot.id,
      rw (seen, c.located)
          (run_transaction_once call.expires (lock_wallet lot.organization_id >> reread lot.id work)
              db
            ∙ rw (first, c.owner, c.stands, told lot c.closed) refl),
    )
