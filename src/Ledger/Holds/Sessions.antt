-- ===== src/Ledger/Holds/Sessions.antt =====
-- Reserve, capture and release of a session's hold keep the count of held credits.
use prelude.Base.{
  ℕ, ◌+◌, ◌≡◌, refl, Bool, true, false, ◌&&◌, Option, none, some, arith, ◌==◌, if◌then◌else◌, not,
  All, Bool-cases, inl, inr, ==→eq, ==-refl, ==-false_symm,
}
use prelude.Base.Int.{ℤ, pos, ◌+ℤ◌, ◌-ℤ◌, leb_ℤ, int_laws}
use prelude.CreditLots.{CreditLotSnapshot, active, select_lot_for_reservation}
use prelude.Ledger.Schema.{
  Db, CreditLot, CreditReservation, Reason, has_status, is_held, is_captured,
}
use prelude.Ledger.Table.{
  Distinct, Distinct-find_row, same_row, find_row, find_row-key, All-find_row,
}
use prelude.Ledger.Monad.{
  Ensures, done, failed, Ensures-bind, Ensures-choose, Ensures-weaken, Ensures-both,
}
use prelude.Ledger.Client.{reservation_id, session_id, find_reservation}
use prelude.Ledger.Wallet.{Call}
use prelude.Ledger.Sweeps.{settle_release}
use prelude.Ledger.Reservations.{
  hold_one, hold_on, hold_row, hold_selected, move_to_reserved, renew_until, acquire_hold,
  reserve_tx, consume_one, exhaust, exhaust_if_spent, resolve_as_captured, drop_reserved,
  capture_held, capture_tx, release_held, release_tx, reservation_ttl_ms,
}
use prelude.Ledger.Balance.Kept.{kept-All, release_expired-kept, expire_due_lots-same}
use prelude.Ledger.Balance.Loading.{load_lots-same}
use prelude.Ledger.Balance.Reservations.{IsFree, IsFree-stable, found-IsFree, none-IsFree}
use prelude.Ledger.Holds.{
  held_amount, Tally, IsCounted, Tally-shift, create_entry-Tally, update_wallet-Tally,
  update_lot-Tally, keep_lot-Tally, update_reservation-Tally, create_reservation-Tally,
}
use prelude.Ledger.Holds.Release.{
  held_counts, release_reservation_row-Tally, release_expired-Tally, expire_due_lots-Tally,
}

-- The row that a session finds is the row of its id.
pub found_by_id :
    (session : ℕ) (q : CreditReservation) (db : Db)
    → Distinct reservation_id db.reservations
    → find_reservation session db ≡ some q
    → find_row reservation_id q.id db.reservations ≡ some q
found_by_id session q db distinct found =
    All-find_row session_id
      (λ p. find_row reservation_id (reservation_id p) db.reservations ≡ some p) session
      db.reservations q found (Distinct-find_row reservation_id db.reservations distinct)

-- A hold counts one on its lot, where the row counted nothing before.
one_on_lot :
    (k j : ℕ) → (if k == j && true then pos 1 else pos 0) ≡ (if j == k then pos 1 else pos 0)
one_on_lot k j = elim (Bool-cases (k == j)) [
  | inl e ↦ let same : k ≡ j = ==→eq k j e in rw (same, ==-refl j) refl
  | inr e ↦ rw (e, ==-false_symm k j e) refl
]

idle_amount : (j : ℕ) (q : CreditReservation) → is_held q.status ≡ false → held_amount j q ≡ pos 0
idle_amount j q idle = rw idle (ground arith)

counted_still : (b : Bool) (x : ℤ) → x ≡ x +ℤ (if b then pos 0 else pos 0)
counted_still true x = omega int_laws
counted_still false x = omega int_laws

hold_less : (y : CreditLot) → (hold_one y).credits_reserved +ℤ (pos 0 -ℤ pos 1) ≡ y.credits_reserved
hold_less y = omega int_laws

consume_less : (y : CreditLot) → (consume_one y).credits_reserved +ℤ pos 1 ≡ y.credits_reserved
consume_less y = omega int_laws

hold_row-Tally :
    (call : Call) (org session now k : ℕ) {d : ℤ} (existing : Option CreditReservation) (db : Db)
    → All (IsFree org existing) db.reservations
    → Tally k d db
    → Ensures (λ _ db'. Tally k (d +ℤ pos 1) db') (hold_row call org session now k existing db)
hold_row-Tally call org session now k none db free t =
    create_reservation-Tally k _ (pos 1) db (λ j. one_on_lot k j) t
hold_row-Tally call org session now k (some q) db free t =
    Ensures-weaken
      (update_reservation-Tally k q.id (hold_on k now) (pos 1) db
        (λ p there j.
          let key = find_row-key reservation_id q.id db.reservations p there in
          let mine =
            All-find_row reservation_id (IsFree org (some q)) q.id db.reservations p there free in
          let idle = idle_amount j p (mine (rw key (==-refl q.id))).1 in
          rw idle (omega (int_laws, one_on_lot k j)))
        t)
      λ _ _ h. h.1

hold_selected-Tally :
    (call : Call) (org session now : ℕ) (existing : Option CreditReservation)
    (choice : Option CreditLotSnapshot) (db : Db)
    → All (IsFree org existing) db.reservations
    → IsCounted db
    → Ensures (λ _ db'. IsCounted db') (hold_selected call org session now existing choice db)
unfolding hold_selected
hold_selected-Tally call org session now existing none db free t = done _ _ t
hold_selected-Tally call org session now existing (some lot) db free t =
    let k = lot.id in
    Ensures-bind _
      (update_lot-Tally k hold_one (pos 0 -ℤ pos 1) db (λ _. refl) hold_less
        (Tally-shift 0 k t refl))
      λ _ db1 (e1, t1).
        Ensures-bind _
          (hold_row-Tally call org session now k existing db1
            (kept-All (IsFree org existing) db db1 e1 free) t1)
          λ _ db2 t2. Ensures-bind _ (create_entry-Tally k _ db2 t2) λ _ db3 (_, t3).
            Ensures-bind _ (update_wallet-Tally k org move_to_reserved db3 t3)
              λ _ db4 t4. done _ _ (Tally-shift k 0 t4 (omega int_laws))

acquire_hold-Tally :
    (call : Call) (org session now : ℕ) (existing : Option CreditReservation) (db : Db)
    → Distinct reservation_id db.reservations
    → All (IsFree org existing) db.reservations
    → IsCounted db
    → Ensures (λ _ db'. IsCounted db') (acquire_hold call org session now existing db)
unfolding acquire_hold
acquire_hold-Tally call org session now existing db distinct free t =
    Ensures-bind _
      (Ensures-both (release_expired-Tally org now db distinct t) (
        release_expired-kept (IsFree org existing) now (IsFree-stable org now existing) org db
          free))
      λ _ db1 (t1, free1).
        Ensures-bind _
          (Ensures-both (expire_due_lots-Tally 0 org now db1 t1) (expire_due_lots-same org now db1))
          λ _ db2 (t2, kept).
            let free2 = kept-All (IsFree org existing) db1 db2 kept free1 in
            Ensures-bind _ (load_lots-same org db2) λ lots db3 same.
              hold_selected-Tally call org session now existing
                (select_lot_for_reservation lots now) db3 (rw same free2) (rw same t2)

pub reserve_tx-Tally :
    (call : Call) (org session now : ℕ) (found : Option CreditReservation) (db : Db)
    → find_reservation session db ≡ found
    → Distinct reservation_id db.reservations
    → IsCounted db
    → Ensures (λ _ db'. IsCounted db') (reserve_tx call org session now found db)
unfolding reserve_tx
reserve_tx-Tally call org session now none db there distinct t =
    acquire_hold-Tally call org session now none db distinct (none-IsFree org db.reservations) t
reserve_tx-Tally call org session now (some q) db there distinct t =
    Ensures-choose (not (q.organization_id == org)) _ _ db (λ _. failed _)
      λ owner.
        Ensures-choose (is_captured q.status) _ _ db (λ _. done _ _ t)
          λ _.
            Ensures-choose (is_held q.status) _ _ db
              (λ _.
                Ensures-bind _
                  (update_reservation-Tally 0 q.id (renew_until (now + reservation_ttl_ms)) (pos 0)
                    db (λ p _ j. counted_still (j == 0) (held_amount j p)) t)
                  λ _ db' (_, t'). done _ _ (Tally-shift 0 0 t' (omega int_laws)))
              λ idle.
                acquire_hold-Tally call org session now (some q) db distinct
                  (found-IsFree org session q db.reservations distinct there (ground arith) idle) t

captured_none :
    (j now : ℕ) (q : CreditReservation) {x : ℤ}
    → pos 0 ≡ x
    → held_amount j (resolve_as_captured now q) ≡ x
captured_none j now q h = elim (Bool-cases (q.lot_id == j)) [ inl e ↦ rw e h | inr e ↦ rw e h ]

exhaust_if_spent-Tally :
    (k : ℕ) {d : ℤ} (lot : CreditLot) (db : Db)
    → Tally k d db
    → Ensures
        (λ _ db'. (db'.reservations ≡ db.reservations) × Tally k d db')
        (exhaust_if_spent lot db)
exhaust_if_spent-Tally k lot db t =
    Ensures-choose (has_status active lot.status && leb_ℤ lot.credits_granted lot.credits_consumed)
      _ _ db (λ _. keep_lot-Tally k lot.id exhaust db (λ _. refl) (λ _. refl) t)
      (λ _. done _ _ (refl, t))

capture_held-Tally :
    (org session now : ℕ) (q : CreditReservation) (db : Db)
    → find_row reservation_id q.id db.reservations ≡ some q
    → is_held q.status ≡ true
    → IsCounted db
    → Ensures (λ _ db'. IsCounted db') (capture_held org session now q db)
unfolding capture_held
capture_held-Tally org session now q db found held t =
    let k = q.lot_id in
    Ensures-bind _
      (update_lot-Tally k consume_one (pos 1) db (λ _. refl) consume_less (Tally-shift 0 k t refl))
      λ lot db1 (e1, t1). Ensures-bind _ (exhaust_if_spent-Tally k lot db1 t1) λ _ db2 (e2, t2).
        Ensures-bind _
          (update_reservation-Tally k q.id (resolve_as_captured now) (pos 0 -ℤ pos 1) db2
            (λ p there j.
              let found2 : find_row reservation_id q.id db2.reservations ≡ some q =
                rw (e2, e1) found in
              let same : p ≡ q = same_row there found2 in
              rw same (captured_none j now q (held_counts j q held)))
            t2)
          λ _ db3 (_, t3). Ensures-bind _ (create_entry-Tally k _ db3 t3) λ _ db4 (_, t4).
            Ensures-bind _ (update_wallet-Tally k org drop_reserved db4 t4)
              λ _ db5 t5. done _ _ (Tally-shift k 0 t5 (omega int_laws))

pub capture_tx-Tally :
    (org session now : ℕ) (found : Option CreditReservation) (db : Db)
    → find_reservation session db ≡ found
    → Distinct reservation_id db.reservations
    → IsCounted db
    → Ensures (λ _ db'. IsCounted db') (capture_tx org session now found db)
unfolding capture_tx
capture_tx-Tally org session now none db there distinct t = done _ _ t
capture_tx-Tally org session now (some q) db there distinct t =
    Ensures-choose (not (q.organization_id == org)) _ _ db (λ _. done _ _ t)
      λ _.
        Ensures-choose (is_captured q.status) _ _ db (λ _. done _ _ t)
          λ _.
            Ensures-choose (not (is_held q.status)) _ _ db (λ _. done _ _ t)
              λ held.
                capture_held-Tally org session now q db (found_by_id session q db distinct there)
                  (ground arith) t

pub release_tx-Tally :
    (org session now : ℕ) (reason : Reason) (found : Option CreditReservation) (db : Db)
    → find_reservation session db ≡ found
    → Distinct reservation_id db.reservations
    → IsCounted db
    → Ensures (λ _ db'. IsCounted db') (release_tx org now reason found db)
unfolding release_tx release_held
release_tx-Tally org session now reason none db there distinct t = done _ _ t
release_tx-Tally org session now reason (some q) db there distinct t =
    Ensures-choose (not (q.organization_id == org)) _ _ db (λ _. done _ _ t)
      λ _.
        Ensures-choose (not (is_held q.status)) _ _ db (λ _. done _ _ t)
          λ held.
            Ensures-bind _
              (release_reservation_row-Tally q now reason db
                (found_by_id session q db distinct there) (ground arith) t)
              λ delta db1 (_, t1).
                Ensures-bind _ (update_wallet-Tally 0 org (settle_release delta (pos 1)) db1 t1)
                  λ _ db2 t2.
                    Ensures-bind _ (expire_due_lots-Tally 0 org now db2 t2) λ _ db3 t3. done _ _ t3
