-- ===== src/Ledger/Invariant/Capturable.antt =====
-- A session that holds a credit can be captured.
use prelude.Base.{
  ℕ, ◌≡◌, refl, sym, ◌∙◌, subst, true, false, ◌&&◌, some, ◌==◌, ==-refl, Bool-cases, inl, inr, ap,
}
use prelude.Base.Int.{leb_ℤ}
use prelude.CreditLots.{active}
use prelude.Ledger.Schema.{
  Db, CreditWallet, CreditLot, CreditReservation, has_status, known, ReservationStatus,
}
use prelude.Ledger.Table.{find_row, find_row-key, update_row, find_row-update_row, All-find_row}
use prelude.Ledger.Monad.{Tx, Result, ok, commit, ◌>>◌, ◌>>=◌, gets, continue}
use prelude.Ledger.Monad.Attempts.{run_transaction_once}
use prelude.Ledger.Client.{
  wallet_org, lot_id, session_id, reservation_id, find_wallet, find_lot, find_reservation,
  update_lot, update_wallet, update_reservation, create_entry,
}
use prelude.Ledger.Sound.{IsBacked}
use prelude.Ledger.Wallet.{Call, lock_wallet, run_in_wallet_transaction}
use prelude.Ledger.Reservations.{
  consume_one, exhaust_if_spent, resolve_as_captured, drop_reserved, capture_held, capture_tx,
  capture_reservation_for_session, CaptureReservationResult, captured,
}
use prelude.Ledger.Holds.Sessions.{found_by_id}
use prelude.Ledger.Invariant.{backed, distinct}
use prelude.Ledger.Invariant.Reachable.{Reachable, reachable-IsConsistent}

-- A transaction that returns, and what holds of its result and its state.
data Returns {A : Type 0} (Q : A → Db → Type 0) : Result (A × Db) → Type 0 where
  returned : (a : A) (db : Db) → Q a db → Returns Q (ok (a, db))

Returns-bind :
    {A B : Type 0} {Q : A → Db → Type 0} {R : B → Db → Type 0} {r : Result (A × Db)} (f : A → Tx B)
    → Returns Q r
    → ((a : A) (db : Db) → Q a db → Returns R (f a db))
    → Returns R (continue r f)
Returns-bind f (returned a db q) k = k a db q

-- The tables that the lots leave alone.
abbrev KeepsOthers : Db → Db → Type 0
KeepsOthers db db' = (db'.wallets ≡ db.wallets) × (db'.reservations ≡ db.reservations)

consume-Returns :
    (id : ℕ) (lot : CreditLot) (db : Db)
    → find_lot id db ≡ some lot
    → Returns
        (λ x db'. (find_lot x.id db' ≡ some x) × KeepsOthers db db')
        (update_lot id consume_one db)
unfolding update_lot
consume-Returns id lot db there =
    let here = find_row-update_row lot_id id consume_one db.lots lot (λ _. refl) there in
    let key = find_row-key lot_id id db.lots lot there in
    rw there (
      returned _ _ (
        subst
            (λ k.
              find_row lot_id k (update_row lot_id id consume_one db.lots) ≡ some (consume_one lot))
            (sym key) here,
        (refl, refl),
      ))

exhaust-Returns :
    (lot : CreditLot) (db : Db)
    → find_lot lot.id db ≡ some lot
    → Returns (λ _ db'. KeepsOthers db db') (exhaust_if_spent lot db)
unfolding update_lot
exhaust-Returns lot db found =
    elim (Bool-cases
      (has_status active lot.status && leb_ℤ lot.credits_granted lot.credits_consumed)) [
        | inl e ↦ rw (e, found) (returned _ _ (refl, refl))
        | inr e ↦ rw e (returned _ _ (refl, refl))
      ]

resolve-Returns :
    (id now : ℕ) (q : CreditReservation) (db : Db)
    → find_row reservation_id id db.reservations ≡ some q
    → Returns
        (λ _ db'. db'.wallets ≡ db.wallets)
        (update_reservation id (resolve_as_captured now) db)
unfolding update_reservation
resolve-Returns id now q db found = rw found (returned _ _ refl)

drop-Returns :
    (org : ℕ) (w : CreditWallet) (db : Db)
    → find_wallet org db ≡ some w
    → Returns (λ _ _. Unit) (update_wallet org drop_reserved db)
unfolding update_wallet
drop-Returns org w db found = rw found (returned _ _ tt)

capture_held-Returns :
    (org session now : ℕ) (q : CreditReservation) (lot : CreditLot) (w : CreditWallet) (db : Db)
    → find_lot q.lot_id db ≡ some lot
    → find_row reservation_id q.id db.reservations ≡ some q
    → find_wallet org db ≡ some w
    → Returns (λ r _. r ≡ captured) (capture_held org session now q db)
unfolding capture_held create_entry
capture_held-Returns org session now q lot w db there found wallet =
    Returns-bind _ (consume-Returns q.lot_id lot db there) λ x db1 (here, (w1, r1)).
      Returns-bind _ (exhaust-Returns x db1 here) λ _ db2 (w2, r2).
        let found2 : find_row reservation_id q.id db2.reservations ≡ some q = rw (r2, r1) found in
        Returns-bind _ (resolve-Returns q.id now q db2 found2) λ _ db3 w3.
          let wallet3 : find_row wallet_org org db3.wallets ≡ some w = rw (w3, w2, w1) wallet in
          Returns-bind {Q = λ _ _. Unit} _ (drop-Returns org w _ wallet3)
            λ _ db4 _. returned _ _ refl

Returns-commit :
    (r : Result (CaptureReservationResult × Db)) (db : Db)
    → Returns (λ a _. a ≡ captured) r
    → (commit db r).0 ≡ ok captured
Returns-commit _ db (returned a db' e) = ap ok e

-- In every state that calls reach, a session's held reservation is captured: the call of its
-- organization, whose wallet exists and whose first attempt does not expire, returns `captured`.
pub hold_captures :
    (call : Call) (org session now : ℕ) (q : CreditReservation) (w : CreditWallet) (db : Db)
    → Reachable db
    → find_reservation session db ≡ some q
    → q.organization_id ≡ org
    → q.status ≡ known ReservationStatus.held
    → find_wallet org db ≡ some w
    → call.expires 1 ≡ false
    → (capture_reservation_for_session call org session now db).0 ≡ ok captured
unfolding capture_reservation_for_session run_in_wallet_transaction lock_wallet capture_tx
hold_captures call org session now q w db reach found owner held wallet first =
    let c = reachable-IsConsistent db reach in
    let (lot, there, _) =
      All-find_row session_id (IsBacked db.lots) session db.reservations q found (backed c) in
    let by_id = found_by_id session q db (distinct c) found in
    let mine : (q.organization_id == org) ≡ true = rw owner (==-refl org) in
    let runs =
      Returns-commit (capture_held org session now q db) db
        (capture_held-Returns org session now q lot w db there by_id wallet) in
    let once =
      run_transaction_once call.expires
        (lock_wallet org >> (gets (find_reservation session) >>= capture_tx org session now)) db in
    ap (λ s. s.0) once ∙ rw (first, wallet, found, mine, held) runs
