-- ===== src/Ledger/Balance/Captures.antt =====
-- Capture and release of a session's hold keep the books.
use prelude.Base.{
  ℕ, ◌≡◌, refl, Bool, true, false, ◌&&◌, Option, none, some, arith, ◌==◌, if◌then◌else◌, not, sym,
  subst, ◌∙◌, ==-refl,
}
use prelude.Base.Int.{ℤ, pos, ◌+ℤ◌, ◌-ℤ◌, ◌≤ℤ◌, leb_ℤ, leb_ℤ→≤ℤ, int_laws}
use prelude.CreditLots.{active}
use prelude.Ledger.Schema.{
  Db, CreditLot, CreditReservation, Reason, has_status, is_held, is_captured,
}
use prelude.Ledger.Table.{
  same_row, find_row, find_row-key, find_row-update_row, All-find_row, find_row-le-sum_of,
}
use prelude.Ledger.Monad.{Ensures, done, Ensures-bind, Ensures-choose, Ensures-weaken}
use prelude.Ledger.Client.{lot_id, session_id, find_lot, find_reservation}
use prelude.Ledger.Sound.{IsBacked, IsSolvent, KeepsLot, row_available}
use prelude.Ledger.Books.{
  at, active_amount, reserved_amount, Drift, Drift-shift, create_entry-Drift,
}
use prelude.Ledger.Moves.{update_lot-Drift, update_wallet-Drift, update_reservation-Drift}
use prelude.Ledger.Sweeps.{settle_release}
use prelude.Ledger.Holds.{held_amount, IsCounted}
use prelude.Ledger.Reservations.{
  consume_one, exhaust, exhaust_if_spent, resolve_as_captured, drop_reserved, capture_held,
  capture_tx, release_held, release_tx,
}
use prelude.Ledger.Balance.Amounts.{put, untouched}
use prelude.Ledger.Balance.Release.{release_reservation_row-Drift, settled_count}
use prelude.Ledger.Balance.Expiry.{expire_due_lots-Drift}

pub held_amount_nonneg : (j : ℕ) (q : CreditReservation) → pos 0 ≤ℤ held_amount j q
held_amount_nonneg j q = ground arith

-- A held reservation holds a credit of its lot.
pub held_reserves :
    (session : ℕ) (q : CreditReservation) (lot : CreditLot) (db : Db)
    → IsCounted db
    → find_reservation session db ≡ some q
    → is_held q.status ≡ true
    → find_lot q.lot_id db ≡ some lot
    → pos 1 ≤ℤ lot.credits_reserved
held_reserves session q lot db t found held there =
    let sum =
      find_row-le-sum_of (held_amount q.lot_id) (held_amount_nonneg q.lot_id) session_id session
        db.reservations q found in
    let one : held_amount q.lot_id q ≡ pos 1 = rw (==-refl q.lot_id, held) refl in
    reserves_one (q.lot_id == 0) lot.credits_reserved (t.counts q.lot_id lot there) one sum
  where
    reserves_one :
        (b : Bool) (x : ℤ) {s u : ℤ}
        → x +ℤ (if b then pos 0 else pos 0) ≡ s
        → u ≡ pos 1
        → u ≤ℤ s
        → pos 1 ≤ℤ x
    reserves_one true x h e l = omega int_laws
    reserves_one false x h e l = omega int_laws

consume_one-KeepsLot : (lot : CreditLot) → KeepsLot lot consume_one
consume_one-KeepsLot lot = record {
  keeps_id = λ y. refl;
  keeps_owner = λ y. refl;
  keeps_solvent = λ h. omega int_laws;
}

exhaust-KeepsLot : (lot : CreditLot) → KeepsLot lot exhaust
exhaust-KeepsLot lot = record {
  keeps_id = λ y. refl;
  keeps_owner = λ y. refl;
  keeps_solvent = λ h. h;
}

consume_active :
    (o : ℕ) (lot : CreditLot) → active_amount o (consume_one lot) -ℤ active_amount o lot ≡ pos 0
consume_active o lot = grind int_laws

consume_reserved :
    (o : ℕ) (lot : CreditLot)
    → reserved_amount o (consume_one lot) -ℤ reserved_amount o lot
      ≡ pos 0 -ℤ at o lot.organization_id (pos 1)
consume_reserved o lot = grind int_laws

-- A lot that is spent has nothing available that could leave the books with it.
exhaust_active :
    (o : ℕ) (lot : CreditLot)
    → has_status active lot.status ≡ true
    → row_available lot ≡ pos 0
    → active_amount o (exhaust lot) -ℤ active_amount o lot ≡ pos 0
exhaust_active o lot live empty = grind int_laws

spent_empty :
    (lot : CreditLot)
    → IsSolvent lot
    → pos 0 ≤ℤ lot.credits_reserved
    → leb_ℤ lot.credits_granted lot.credits_consumed ≡ true
    → row_available lot ≡ pos 0
spent_empty lot solvent reserved spent =
    omega (int_laws, leb_ℤ→≤ℤ lot.credits_granted lot.credits_consumed spent)

nothing_entered : (o org : ℕ) (x w : ℤ) → x +ℤ at o org (pos 0) -ℤ at o org (w -ℤ w) ≡ x
nothing_entered o org x w = grind int_laws

spent_both : {b c : Bool} → (b && c) ≡ true → (b ≡ true) × (c ≡ true)
spent_both h = ground arith

module _ (o : ℕ) {a r e : ℤ} where
  exhaust_if_spent-Drift :
      (x : CreditLot) (db : Db)
      → find_lot x.id db ≡ some x
      → pos 0 ≤ℤ x.credits_reserved
      → Drift o a r e db
      → Ensures (λ _ db'. Drift o a r e db') (exhaust_if_spent x db)
  exhaust_if_spent-Drift x db found reserved d =
      Ensures-choose (has_status active x.status && leb_ℤ x.credits_granted x.credits_consumed) _ _
        db
        (λ spent.
          Ensures-weaken (update_lot-Drift o x.id exhaust db (λ l _. exhaust-KeepsLot l) d)
            λ _ db' m.
              let one : m.lot ≡ x = same_row m.found found in
              let solvent = All-find_row lot_id IsSolvent x.id db.lots x found d.sound.solvent in
              let empty : row_available x ≡ pos 0 =
                spent_empty x solvent reserved (spent_both spent).1 in
              Drift-shift o a r e m.drift
                (rw one (omega (int_laws, exhaust_active o x (spent_both spent).0 empty)))
                (rw one (omega int_laws)) refl)
        (λ _. done _ _ d)

module _ (o : ℕ) {a r e : ℤ} where
  capture_held-Drift :
      (org session now : ℕ) (q : CreditReservation) (db : Db)
      → find_reservation session db ≡ some q
      → is_held q.status ≡ true
      → q.organization_id ≡ org
      → IsCounted db
      → Drift o a r e db
      → Ensures (λ _ db'. Drift o a r e db') (capture_held org session now q db)
  unfolding capture_held
  capture_held-Drift org session now q db found held owner t d =
      let (lot, there, mine) =
        All-find_row session_id (IsBacked db.lots) session db.reservations q found d.sound.backed in
      let reserved = held_reserves session q lot db t found held there in
      Ensures-bind _ (update_lot-Drift o q.lot_id consume_one db (λ l _. consume_one-KeepsLot l) d)
        λ x db1 m.
          let one : m.lot ≡ lot = same_row m.found there in
          let here : find_row lot_id q.lot_id db1.lots ≡ some (consume_one m.lot) =
            rw m.table
              (find_row-update_row lot_id q.lot_id consume_one db.lots m.lot (λ _. refl) m.found) in
          let key = find_row-key lot_id q.lot_id db.lots m.lot m.found in
          let stands : find_lot (consume_one m.lot).id db1 ≡ some (consume_one m.lot) =
            subst (λ k. find_lot k db1 ≡ some (consume_one m.lot)) (sym key) here in
          let left : pos 0 ≤ℤ (consume_one m.lot).credits_reserved = rw one (omega int_laws) in
          let mine' : m.lot.organization_id ≡ org = rw one (mine ∙ owner) in
          let d1 : Drift o a (r -ℤ at o org (pos 1)) e db1 =
            Drift-shift o a (r -ℤ at o org (pos 1)) e m.drift
              (omega (int_laws, consume_active o m.lot))
              (rw (consume_reserved o m.lot, mine') (omega int_laws)) refl in
          Ensures-bind _
            (subst
              (λ y.
                Ensures (λ _ db'. Drift o a (r -ℤ at o org (pos 1)) e db') (exhaust_if_spent y db1))
              (sym m.result) (exhaust_if_spent-Drift o (consume_one m.lot) db1 stands left d1))
            λ _ db2 d2.
              Ensures-bind _
                (update_reservation-Drift o q.id (resolve_as_captured now) db2 (λ _. refl)
                  (λ _ _ b. b) d2)
                λ _ db3 (_, _, d3). Ensures-bind _ (create_entry-Drift o _ db3 d3) λ _ db4 (_, d4).
                  Ensures-bind _ (update_wallet-Drift o org drop_reserved db4 (λ _. refl) d4)
                    λ _ db5 n. done _ _ (
                      Drift-shift o a r e n.drift (untouched o org a _)
                        (settled_count o org r (pos 1) _) (nothing_entered o org e _))

  pub capture_tx-Drift :
      (org session now : ℕ) (found : Option CreditReservation) (db : Db)
      → find_reservation session db ≡ found
      → IsCounted db
      → Drift o a r e db
      → Ensures (λ _ db'. Drift o a r e db') (capture_tx org session now found db)
  unfolding capture_tx
  capture_tx-Drift org session now none db there t d = done _ _ d
  capture_tx-Drift org session now (some q) db there t d =
      Ensures-choose (not (q.organization_id == org)) _ _ db (λ _. done _ _ d)
        λ owner.
          Ensures-choose (is_captured q.status) _ _ db (λ _. done _ _ d)
            λ _.
              Ensures-choose (not (is_held q.status)) _ _ db (λ _. done _ _ d)
                λ held.
                  capture_held-Drift org session now q db there (ground arith) (ground arith) t d

module _ (o : ℕ) {a r e : ℤ} where
  release_held-Drift :
      (org session now : ℕ) (reason : Reason) (q : CreditReservation) (db : Db)
      → find_reservation session db ≡ some q
      → q.organization_id ≡ org
      → Drift o a r e db
      → Ensures (λ _ db'. Drift o a r e db') (release_held org now reason q db)
  unfolding release_held
  release_held-Drift org session now reason q db found owner d =
      let backed =
        All-find_row session_id (IsBacked db.lots) session db.reservations q found d.sound.backed in
      Ensures-bind _ (release_reservation_row-Drift o q now reason db backed d) λ delta db1 (_, d1).
        let d1' : Drift o (a +ℤ at o org delta) (r -ℤ at o org (pos 1)) (e +ℤ at o org delta) db1 =
          rw owner at d1 in
        Ensures-bind _
          (update_wallet-Drift o org (settle_release delta (pos 1)) db1 (λ _. refl) d1')
          λ _ db2 n.
            let d2 : Drift o a r e db2 =
              Drift-shift o _ _ _ n.drift (put o org a delta _) (settled_count o org r (pos 1) _)
                (put o org e delta _) in
            Ensures-bind _ (expire_due_lots-Drift org now o a r e db2 d2) λ _ db3 d3. done _ _ d3

  pub release_tx-Drift :
      (org session now : ℕ) (reason : Reason) (found : Option CreditReservation) (db : Db)
      → find_reservation session db ≡ found
      → Drift o a r e db
      → Ensures (λ _ db'. Drift o a r e db') (release_tx org now reason found db)
  unfolding release_tx
  release_tx-Drift org session now reason none db there d = done _ _ d
  release_tx-Drift org session now reason (some q) db there d =
      Ensures-choose (not (q.organization_id == org)) _ _ db (λ _. done _ _ d)
        λ owner.
          Ensures-choose (not (is_held q.status)) _ _ db (λ _. done _ _ d)
            λ _. release_held-Drift org session now reason q db there (ground arith) d
