-- ===== src/Ledger/Balance/Release.antt =====
-- The release of held reservations moves the books by what it reports, and its sweep settles the rest.
use prelude.Base.{
  ℕ, suc, ◌≡◌, refl, Bool, true, false, ◌&&◌, List, [], ◌∷◌, arith, ◌==◌, All, All-map, All-passes,
  All-filter, filter, leb, length, sym, ◌∙◌, ap,
}
use prelude.Base.Int.{ℤ, pos, ◌+ℤ◌, ◌-ℤ◌, int_laws}
use prelude.CreditLots.{active}
use prelude.Ledger.Schema.{
  Db, CreditLot, CreditReservation, Reason, has_status, reservation_ttl_expired, is_held,
}
use prelude.Ledger.Table.{same_row}
use prelude.Ledger.Monad.{Ensures, done, Ensures-bind, Ensures-weaken}
use prelude.Ledger.Sound.{IsBacked, KeepsBacked}
use prelude.Ledger.Books.{
  at, active_amount, reserved_amount, Drift, Drift-shift, create_entry-Drift,
}
use prelude.Ledger.Moves.{update_wallet-Drift, update_lot-Drift, update_reservation-Drift}
use prelude.Ledger.Sweeps.{
  release_reservation_row, balance_release, resolve_as_released, release_rows, release_due,
  settle_release, due_reservations, release_expired_reservations_in_tx, give_back,
}
use prelude.Ledger.Balance.Amounts.{
  give_back-KeepsLot, give_back_active, give_back_closed, give_back_reserved,
}

-- A release moves the available credits by what it reports and the held ones by one.
abbrev Released : ℕ → ℤ → ℤ → ℤ → CreditReservation → Db → ℤ → Db → Type 0
Released o a r e q db delta db' =
    KeepsBacked db db'
    × Drift o (a +ℤ at o q.organization_id delta) (r -ℤ at o q.organization_id (pos 1))
        (e +ℤ at o q.organization_id delta) db'

at_zero : (o org : ℕ) → at o org (pos 0) ≡ pos 0
at_zero o org = ground arith

at_neg : (o org : ℕ) (x : ℤ) → at o org (pos 0 -ℤ x) ≡ pos 0 -ℤ at o org x
at_neg o org x = grind int_laws

module _ (o : ℕ) (a r e : ℤ) where
  balance_release-Drift :
      (q : CreditReservation) (lot : CreditLot) (live : Bool) (db : Db)
      → has_status active lot.status ≡ live
      → lot.organization_id ≡ q.organization_id
      → Drift o
          (a +ℤ (active_amount o (give_back lot) -ℤ active_amount o lot))
          (r +ℤ (reserved_amount o (give_back lot) -ℤ reserved_amount o lot))
          (e +ℤ at o q.organization_id (pos 1))
          db
      → Ensures
          (λ delta db'.
            (db'.lots ≡ db.lots)
            × Drift o
                (a +ℤ at o q.organization_id delta)
                (r -ℤ at o q.organization_id (pos 1))
                (e +ℤ at o q.organization_id delta)
                db')
          (balance_release q live db)
  balance_release-Drift q lot true db status owner d =
      let org = q.organization_id in
      done _ _ (
        refl,
        Drift-shift o _ _ _ d (omega (int_laws, give_back_active o org lot owner status))
            (omega (int_laws, give_back_reserved o org lot owner)) refl,
      )
  balance_release-Drift q lot false db status owner d =
      let org = q.organization_id in
      Ensures-bind _ (create_entry-Drift o _ db d) λ _ db' (lots, d'). done _ _ (
        lots,
        Drift-shift o _ _ _ d'
            (omega (int_laws, give_back_closed o org lot owner status, at_zero o org))
            (omega (int_laws, give_back_reserved o org lot owner))
            (omega (int_laws, at_zero o org, at_neg o org (pos 1))),
      )

module _ (o : ℕ) {a r e : ℤ} where
  pub release_reservation_row-Drift :
      (q : CreditReservation) (now : ℕ) (reason : Reason) (db : Db)
      → IsBacked db.lots q
      → Drift o a r e db
      → Ensures (Released o a r e q db) (release_reservation_row q now reason db)
  unfolding release_reservation_row
  release_reservation_row-Drift q now reason db (lot, found, owner) d =
      Ensures-bind _ (update_lot-Drift o q.lot_id give_back db (λ l _. give_back-KeepsLot l) d)
        λ x db1 m.
          Ensures-bind _
            (update_reservation-Drift o q.id (resolve_as_released now) db1 (λ _. refl) (λ _ _ b. b)
              m.drift)
            λ _ db2 (lots2, _, d2).
              Ensures-bind _ (create_entry-Drift o _ db2 d2) λ _ db3 (lots3, d3).
                let mine : m.lot.organization_id ≡ q.organization_id =
                  rw (same_row m.found found) owner in
                let status = sym (ap (λ (y : CreditLot). has_status active y.status) m.result) in
                Ensures-weaken (balance_release-Drift o a r e q m.lot _ db3 status mine d3)
                  λ delta db4 (lots4, d4). ((λ p b. rw (lots4 ∙ (lots3 ∙ lots2)) (m.backs p b)), d4)

rows_step :
    (o org : ℕ) (a delta total acc : ℤ)
    → a +ℤ at o org delta +ℤ at o org (total -ℤ (acc +ℤ delta)) ≡ a +ℤ at o org (total -ℤ acc)
rows_step o org a delta total acc = grind int_laws

rows_count :
    (o org : ℕ) (r : ℤ) (n : ℕ)
    → r -ℤ at o org (pos 1) -ℤ at o org (pos n) ≡ r -ℤ at o org (pos (suc n))
rows_count o org r n = grind int_laws

rows_done : (o org : ℕ) (a acc : ℤ) → a ≡ a +ℤ at o org (acc -ℤ acc)
rows_done o org a acc = grind int_laws

rows_none : (o org : ℕ) (r : ℤ) → r ≡ r -ℤ at o org (pos 0)
rows_none o org r = grind int_laws

pub settled : (o org : ℕ) (a x y : ℤ) → a +ℤ at o org (x -ℤ pos 0) -ℤ at o org (y +ℤ x -ℤ y) ≡ a
settled o org a x y = grind int_laws

pub settled_count : (o org : ℕ) (r x y : ℤ) → r -ℤ at o org x -ℤ at o org (y -ℤ x -ℤ y) ≡ r
settled_count o org r x y = grind int_laws

module _ (o org now : ℕ) where
  pub release_rows-Drift :
      (due : List CreditReservation) (acc a r e : ℤ) (db : Db)
      → All (λ q. q.organization_id ≡ org) due
      → All (IsBacked db.lots) due
      → Drift o a r e db
      → Ensures
          (λ total db'.
            Drift o
              (a +ℤ at o org (total -ℤ acc))
              (r -ℤ at o org (pos (length due)))
              (e +ℤ at o org (total -ℤ acc))
              db')
          (release_rows due now acc db)
  unfolding release_rows
  release_rows-Drift [] acc a r e db owned backed d =
      done _ _
        (Drift-shift o _ _ _ d (rows_done o org a acc) (rows_none o org r) (rows_done o org e acc))
  release_rows-Drift (q ∷ due) acc a r e db owned backed d =
      Ensures-bind _ (release_reservation_row-Drift o q now reservation_ttl_expired db backed.0 d)
        λ delta db1 (backs, d1).
          let d2 : Drift o (a +ℤ at o org delta) (r -ℤ at o org (pos 1)) (e +ℤ at o org delta) db1 =
            rw owned.0 at d1 in
          Ensures-weaken
            (release_rows-Drift due (acc +ℤ delta) _ _ _ db1 owned.1 (All-map due backs backed.1)
              d2)
            λ total db2 d3.
              Drift-shift o _ _ _ d3 (rows_step o org a delta total acc)
                (rows_count o org r (length due)) (rows_step o org e delta total acc)

  due_owned :
      (reservations : List CreditReservation)
      → All
          (λ q. q.organization_id ≡ org)
          (filter
            (λ q. q.organization_id == org && is_held q.status && leb q.expires_at now)
            reservations)
  due_owned reservations =
      All-map _ (λ q h. ground arith)
        (All-passes (λ q. q.organization_id == org && is_held q.status && leb q.expires_at now)
          reservations)

  settle_rows-Drift :
      (due : List CreditReservation) (a r e : ℤ) (db : Db)
      → All (λ q. q.organization_id ≡ org) due
      → All (IsBacked db.lots) due
      → Drift o a r e db
      → Ensures (λ _ db'. Drift o a r e db') (release_due org now due db)
  settle_rows-Drift [] a r e db owned backed d = done _ _ d
  settle_rows-Drift (q ∷ rest) a r e db owned backed d =
      Ensures-bind _ (release_rows-Drift (q ∷ rest) (pos 0) a r e db owned backed d) λ total db1 d1.
        Ensures-bind _
          (update_wallet-Drift o org (settle_release total (pos (length (q ∷ rest)))) db1
            (λ _. refl) d1)
          λ _ db2 m. done _ _ (
            Drift-shift o _ _ _ m.drift (settled o org a total _) (settled_count o org r _ _)
              (settled o org e total _))

  -- The sweep of expired reservations leaves the books as they were.
  pub release_expired-Drift :
      (a r e : ℤ) (db : Db)
      → Drift o a r e db
      → Ensures (λ _ db'. Drift o a r e db') (release_expired_reservations_in_tx org now db)
  unfolding release_expired_reservations_in_tx
  release_expired-Drift a r e db d =
      settle_rows-Drift (due_reservations org now db) a r e db (due_owned db.reservations)
        (All-map _ (λ q h. h.0) (All-filter (IsBacked db.lots) _ db.reservations d.sound.backed)) d
