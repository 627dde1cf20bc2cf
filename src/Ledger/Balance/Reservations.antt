-- ===== src/Ledger/Balance/Reservations.antt =====
-- Reserve, capture and release keep the books: the credit moves between available, reserved and
-- consumed in the lot and in the wallet alike.
use prelude.Base.{
  ℕ, ◌+◌, ◌≡◌, refl, true, false, Option, none, some, List, arith, ◌==◌, not, All, All-map, [], ◌∷◌,
  sym, ◌∙◌, ==-refl,
}
use prelude.Base.Int.{ℤ, pos, ◌-ℤ◌, ◌≤ℤ◌, int_laws}
use prelude.CreditLots.{CreditLotSnapshot, active, select_lot_for_reservation}
use prelude.Ledger.Schema.{Db, CreditLot, CreditReservation, has_status, is_held, is_captured}
use prelude.Ledger.Table.{
  Distinct, same_row, find_row, find_row-key, find_row-update_row, All-find_row,
}
use prelude.Ledger.Monad.{
  Ensures, done, failed, Ensures-bind, Ensures-choose, Ensures-weaken, Ensures-both,
}
use prelude.Ledger.Client.{lot_id, reservation_id, session_id, find_reservation}
use prelude.Ledger.Wallet.{Call}
use prelude.Ledger.Sound.{KeepsLot, row_available}
use prelude.Ledger.Books.{
  at, active_amount, reserved_amount, Drift, Drift-shift, create_entry-Drift,
}
use prelude.Ledger.Moves.{
  update_lot-Drift, update_wallet-Drift, update_reservation-Drift, create_reservation-Drift,
}
use prelude.Ledger.Sweeps.{resolve_as_released}
use prelude.Ledger.Reservations.{
  hold_one, hold_on, hold_row, hold_selected, move_to_reserved, renew_until, acquire_hold,
  reserve_tx, reservation_ttl_ms,
}
use prelude.Ledger.Balance.Amounts.{taken, taken_entry, put}
use prelude.Ledger.Balance.Release.{release_expired-Drift}
use prelude.Ledger.Balance.Expiry.{expire_due_lots-Drift}
use prelude.Ledger.Balance.Kept.{
  kept-All, update_lot-same, release_expired-kept, expire_due_lots-same, session_unique,
}
use prelude.Ledger.Balance.Loading.{IsLoaded, load_lots-IsLoaded, selected_room}

hold_one-KeepsLot :
    (lot row : CreditLot) → lot ≡ row → pos 1 ≤ℤ row_available row → KeepsLot lot hold_one
hold_one-KeepsLot lot row same room = record {
  keeps_id = λ y. refl;
  keeps_owner = λ y. refl;
  keeps_solvent = λ h. rw same (omega int_laws);
}

hold_active :
    (o : ℕ) (lot : CreditLot)
    → has_status active lot.status ≡ true
    → active_amount o (hold_one lot) -ℤ active_amount o lot
      ≡ pos 0 -ℤ at o lot.organization_id (pos 1)
hold_active o lot live = grind int_laws

hold_reserved :
    (o : ℕ) (lot : CreditLot)
    → reserved_amount o (hold_one lot) -ℤ reserved_amount o lot ≡ at o lot.organization_id (pos 1)
hold_reserved o lot = grind int_laws

-- A session's earlier reservation: of the organization, and no longer held.
abbrev pub IsFree : ℕ → Option CreditReservation → CreditReservation → Type 0
IsFree org none p = Unit
IsFree org (some q) p =
    (p.id == q.id) ≡ true → (p.organization_id ≡ org) × (is_held p.status ≡ false)

module _ (o : ℕ) {a r e : ℤ} where
  hold_row-Drift :
      (call : Call) (org session now id : ℕ) (existing : Option CreditReservation) (lot : CreditLot)
      (db : Db)
      → find_row lot_id id db.lots ≡ some lot
      → lot.organization_id ≡ org
      → All (IsFree org existing) db.reservations
      → Drift o a r e db
      → Ensures (λ _ db'. Drift o a r e db') (hold_row call org session now id existing db)
  hold_row-Drift call org session now id none lot db found owner free d =
      create_reservation-Drift o _ db (lot, found, owner) d
  hold_row-Drift call org session now id (some q) lot db found owner free d =
      Ensures-weaken
        (update_reservation-Drift o q.id (hold_on id now) db (λ _. refl)
          (λ p there _.
            let key = find_row-key reservation_id q.id db.reservations p there in
            let mine =
              All-find_row reservation_id (IsFree org (some q)) q.id db.reservations p there free in
            (lot, found, owner ∙ sym (mine (rw key (==-refl q.id))).0))
          d)
        λ _ _ h. h.2

module _ (o : ℕ) {a r e : ℤ} where
  hold_selected-Drift :
      (call : Call) (org session now : ℕ) (existing : Option CreditReservation)
      (lots : List CreditLotSnapshot) (db : Db)
      → All (IsLoaded org db.lots) lots
      → All (IsFree org existing) db.reservations
      → Drift o a r e db
      → (choice : Option CreditLotSnapshot) → select_lot_for_reservation lots now ≡ choice
      → Ensures (λ _ db'. Drift o a r e db') (hold_selected call org session now existing choice db)
  unfolding hold_selected
  hold_selected-Drift call org session now existing lots db loaded free d none chosen = done _ _ d
  hold_selected-Drift call org session now existing lots db loaded free d (some lot) chosen =
      let (it, room) = selected_room org now db.lots lots lot chosen loaded in
      let room' : pos 1 ≤ℤ row_available it.row = rw it.amount at room in
      Ensures-bind _
        (Ensures-both
          (update_lot-Drift o lot.id hold_one db
            (λ l there. hold_one-KeepsLot l it.row (same_row there it.found) room') d)
          (update_lot-same lot.id hold_one db))
        λ _ db1 (m, e1).
          let one : m.lot ≡ it.row = same_row m.found it.found in
          let owner : (hold_one m.lot).organization_id ≡ org = rw one it.owned in
          let there : find_row lot_id lot.id db1.lots ≡ some (hold_one m.lot) =
            rw m.table
              (find_row-update_row lot_id lot.id hold_one db.lots m.lot (λ _. refl) m.found) in
          Ensures-bind _
            (hold_row-Drift o call org session now lot.id existing (hold_one m.lot) db1 there owner
              (rw e1 free) m.drift)
            λ held db2 d2. Ensures-bind _ (create_entry-Drift o _ db2 d2) λ _ db3 (_, d3).
              Ensures-bind _ (update_wallet-Drift o org move_to_reserved db3 (λ _. refl) d3)
                λ _ db4 n. done _ _ (
                  Drift-shift o _ _ _ n.drift
                    (rw (one, hold_active o it.row it.is_open, it.owned) (taken o org a (pos 1) _))
                    (rw (one, hold_reserved o it.row, it.owned) (put o org r (pos 1) _))
                    (taken_entry o org e (pos 1) _))

  acquire_hold-Drift :
      (call : Call) (org session now : ℕ) (existing : Option CreditReservation) (db : Db)
      → ((q : CreditReservation)
          → IsFree org existing q
          → IsFree org existing (resolve_as_released now q))
      → All (IsFree org existing) db.reservations
      → Drift o a r e db
      → Ensures (λ _ db'. Drift o a r e db') (acquire_hold call org session now existing db)
  unfolding acquire_hold
  acquire_hold-Drift call org session now existing db stable free d =
      Ensures-bind _
        (Ensures-both (release_expired-Drift o org now a r e db d)
          (release_expired-kept (IsFree org existing) now stable org db free))
        λ _ db1 (d1, free1).
          Ensures-bind _
            (Ensures-both (expire_due_lots-Drift org now o a r e db1 d1)
              (expire_due_lots-same org now db1))
            λ _ db2 (d2, kept).
              let free2 = kept-All (IsFree org existing) db1 db2 kept free1 in
              Ensures-bind _ (load_lots-IsLoaded org db2 d2.sound.distinct)
                λ lots db3 (same, loaded).
                  hold_selected-Drift call org session now existing lots db3 (rw same loaded)
                    (rw same free2) (rw same d2) (select_lot_for_reservation lots now) refl

pub IsFree-stable :
    (org now : ℕ) (existing : Option CreditReservation) (q : CreditReservation)
    → IsFree org existing q
    → IsFree org existing (resolve_as_released now q)
IsFree-stable org now none q h = tt
IsFree-stable org now (some p) q h = λ e. ((h e).0, refl)

-- A reservation found by its session, of the organization and not held, is free.
pub found-IsFree :
    (org session : ℕ) (q : CreditReservation) (rs : List CreditReservation)
    → Distinct reservation_id rs
    → find_row session_id session rs ≡ some q
    → q.organization_id ≡ org
    → is_held q.status ≡ false
    → All (IsFree org (some q)) rs
found-IsFree org session q rs distinct found owner idle =
    All-map rs (λ p same e. rw (same e) (owner, idle)) (session_unique session rs q distinct found)

pub none-IsFree : (org : ℕ) (rs : List CreditReservation) → All (IsFree org none) rs
none-IsFree org [] = tt
none-IsFree org (q ∷ rs) = (tt, none-IsFree org rs)

module _ (o : ℕ) {a r e : ℤ} where
  pub reserve_tx-Drift :
      (call : Call) (org session now : ℕ) (found : Option CreditReservation) (db : Db)
      → find_reservation session db ≡ found
      → Drift o a r e db
      → Ensures (λ _ db'. Drift o a r e db') (reserve_tx call org session now found db)
  unfolding reserve_tx
  reserve_tx-Drift call org session now none db there d =
      acquire_hold-Drift o call org session now none db (IsFree-stable org now none)
        (none-IsFree org db.reservations) d
  reserve_tx-Drift call org session now (some q) db there d =
      Ensures-choose (not (q.organization_id == org)) _ _ db (λ _. failed _)
        λ owner.
          Ensures-choose (is_captured q.status) _ _ db (λ _. done _ _ d)
            λ _.
              Ensures-choose (is_held q.status) _ _ db
                (λ _.
                  Ensures-bind _
                    (update_reservation-Drift o q.id (renew_until (now + reservation_ttl_ms)) db
                      (λ _. refl) (λ _ _ b. b) d)
                    λ _ db' h. done _ _ h.2)
                λ idle.
                  acquire_hold-Drift o call org session now (some q) db
                    (IsFree-stable org now (some q))
                    (found-IsFree org session q db.reservations d.sound.unique there (ground arith)
                      idle)
                    d
