-- ===== src/Ledger/Balance/Expiry.antt =====
-- The sweep of due lots writes off exactly what the lots had available.
use prelude.Base.{
  ℕ, ◌≡◌, refl, Bool, true, false, ◌&&◌, some, List, [], ◌∷◌, ◌++◌, arith, ◌==◌, All, All-map,
  All-filter, leb, ◌∙◌,
}
use prelude.Base.Int.{ℤ, pos, ◌+ℤ◌, ◌-ℤ◌, ◌≤ℤ◌, ltb_ℤ, int_laws}
use prelude.CreditLots.{CreditLotSnapshot, LotStatus, active, expired, available_in_lot}
use prelude.Ledger.Schema.{Db, CreditLot, has_status}
use prelude.Ledger.Table.{
  same_row, find_row, update_row, Distinct, Distinct-find_row, filter-Distinct, find_row-none-All,
  find_row-update_row-All,
}
use prelude.Ledger.Monad.{
  Result, ok, err, lift, ◌>>◌, Ensures, done, failed, Ensures-bind, Ensures-choose, Ensures-weaken,
}
use prelude.Ledger.Client.{lot_id, update_lot, create_entry}
use prelude.Ledger.Wallet.{to_lot_snapshot, available_in_row}
use prelude.Ledger.Sound.{IsSolvent, row_available}
use prelude.Ledger.Books.{at, reserved_amount, Drift, Drift-shift, create_entry-Drift}
use prelude.Ledger.Moves.{update_lot-Drift, update_wallet-Drift}
use prelude.Ledger.Sweeps.{
  with_status, expire_rows, expire_due, expire_entry, write_off, settle_write_off, due_lots,
  expire_due_lots_in_tx,
}
use prelude.Ledger.Balance.Amounts.{untouched, with_status-KeepsLot, close_active}

pub Ensures-lift :
    {A : Type 0} (r : Result A) (db : Db) → Ensures (λ a db'. (r ≡ ok a) × (db' ≡ db)) (lift r db)
Ensures-lift (ok a) db = done a db (refl, refl)
Ensures-lift (err e) db = failed e

-- A snapshot has the counters of its row.
pub snapshot_available :
    (row : CreditLot) (lot : CreditLotSnapshot)
    → to_lot_snapshot row ≡ ok lot
    → available_in_lot lot ≡ row_available row
unfolding to_lot_snapshot available_in_lot
snapshot_available row lot h = ground arith

pub available_in_row-Ensures :
    (row : CreditLot) (db : Db)
    → Ensures (λ x db'. (x ≡ row_available row) × (db' ≡ db)) (available_in_row row db)
available_in_row-Ensures row db =
    Ensures-bind _ (Ensures-lift (to_lot_snapshot row) db)
      λ lot db' (found, same). done _ _ (snapshot_available row lot found, same)

abbrev Stands : List CreditLot → CreditLot → Type 0
Stands lots row = find_row lot_id (lot_id row) lots ≡ some row

-- A row that a sweep closes belongs to the organization, is open and is solvent.
pub record IsDue (org : ℕ) (row : CreditLot) : Type 0 where
  pub owned : row.organization_id ≡ org
  pub is_open : has_status active row.status ≡ true
  pub solvent : IsSolvent row

abbrev due_total : List CreditLot → ℤ
due_total [] = pos 0
due_total (row ∷ rows) = row_available row +ℤ due_total rows

due_total_nonneg :
    (org : ℕ) (rows : List CreditLot) → All (IsDue org) rows → pos 0 ≤ℤ due_total rows
due_total_nonneg org [] h = omega int_laws
due_total_nonneg org (row ∷ rows) h = omega (int_laws, due_total_nonneg org rows h.1, h.0.solvent)

reserved_kept :
    (o : ℕ) (r : ℤ) (status : LotStatus) (lot : CreditLot)
    → r +ℤ (reserved_amount o (with_status status lot) -ℤ reserved_amount o lot) ≡ r
reserved_kept o r status lot = omega int_laws

at_neg : (o org : ℕ) (x y : ℤ) → x +ℤ at o org (pos 0 -ℤ y) ≡ x -ℤ at o org y
at_neg o org x y = grind int_laws

expire_step : (o org : ℕ) (x y z : ℤ) → x -ℤ at o org y -ℤ at o org z ≡ x -ℤ at o org (y +ℤ z)
expire_step o org x y z = grind int_laws

expire_none : (o org : ℕ) (x : ℤ) → x ≡ x -ℤ at o org (pos 0)
expire_none o org x = grind int_laws

written_off :
    (o org : ℕ) (x total due y : ℤ)
    → total ≡ pos 0 +ℤ due
    → x -ℤ at o org due -ℤ at o org (y -ℤ total -ℤ y) ≡ x
written_off o org x total due y h = grind int_laws

nothing_due :
    (o org : ℕ) (x total due : ℤ)
    → total ≡ pos 0 +ℤ due
    → pos 0 ≤ℤ due
    → ltb_ℤ (pos 0) total ≡ false
    → x -ℤ at o org due ≡ x
nothing_due o org x total due h k l = grind int_laws

module _ (o org : ℕ) where
  close_row-Drift :
      (row : CreditLot) (remaining a r e : ℤ) (db : Db)
      → remaining ≡ row_available row
      → IsDue org row
      → Stands db.lots row
      → Drift o a r e db
      → Ensures
          (λ _ db'.
            (db'.lots ≡ update_row lot_id row.id (with_status expired) db.lots)
            × Drift o (a -ℤ at o org (row_available row)) r (e -ℤ at o org (row_available row)) db')
          ((update_lot row.id (with_status expired)
              >> create_entry (expire_entry org row.id remaining))
            db)
  close_row-Drift row remaining a r e db amount due stands d =
      Ensures-bind _
        (update_lot-Drift o row.id (with_status expired) db (λ l _. with_status-KeepsLot expired l)
          d)
        λ x db1 m. Ensures-weaken (create_entry-Drift o _ db1 m.drift) λ _ db2 (lots, d2).
          let one : m.lot ≡ row = same_row m.found stands in
          let closed = close_active o org row due.owned due.is_open in
          (
            lots ∙ m.table,
            Drift-shift o _ _ _ d2 (rw one (omega (int_laws, closed)))
                (reserved_kept o r expired m.lot) (rw amount (at_neg o org e (row_available row))),
          )

  abbrev Expired : ℤ → ℤ → ℤ → ℤ → List CreditLot → List ℕ × ℤ → Db → Type 0
  Expired a r e written rows out db' =
      (out.1 ≡ written +ℤ due_total rows)
      × Drift o (a -ℤ at o org (due_total rows)) r (e -ℤ at o org (due_total rows)) db'

  expire_rows-Drift :
      (rows : List CreditLot) (ids : List ℕ) (written a r e : ℤ) (db : Db)
      → Distinct lot_id rows
      → All (IsDue org) rows
      → All (Stands db.lots) rows
      → Drift o a r e db
      → Ensures (Expired a r e written rows) (expire_rows org rows ids written db)
  unfolding expire_rows
  expire_rows-Drift [] ids written a r e db distinct due stands d =
      done _ _
        (omega int_laws, Drift-shift o _ _ _ d (expire_none o org a) refl (expire_none o org e))
  expire_rows-Drift (row ∷ rows) ids written a r e db distinct due stands d =
      Ensures-bind _ (available_in_row-Ensures row db) λ remaining db0 (amount, same).
        let d0 : Drift o a r e db0 = rw same d in
        let stands0 : Stands db0.lots row = rw same stands.0 in
        Ensures-bind _ (close_row-Drift row remaining a r e db0 amount due.0 stands0 d0)
          λ _ db1 (lots, d1).
            let others =
              find_row-update_row-All lot_id row.id (with_status expired) db.lots rows (λ _. refl)
                (find_row-none-All lot_id row.id rows distinct.0) stands.1 in
            let stands1 : All (Stands db1.lots) rows = rw (lots, same) others in
            Ensures-weaken
              (expire_rows-Drift rows (ids ++ row.id ∷ []) (written +ℤ remaining) _ _ _ db1
                distinct.1 due.1 stands1 d1)
              λ out db2 (total, d2). (
                rw (total, amount) (omega int_laws),
                Drift-shift o _ _ _ d2 (expire_step o org a _ _) refl (expire_step o org e _ _),
              )

  settle_write_off-Drift :
      (rows : List CreditLot) (out : List ℕ × ℤ) (a r e : ℤ) (db : Db)
      → All (IsDue org) rows
      → Expired a r e (pos 0) rows out db
      → Ensures (λ _ db'. Drift o a r e db') (settle_write_off org out db)
  settle_write_off-Drift rows (ids, total) a r e db due (sum, d) =
      Ensures-choose (ltb_ℤ (pos 0) total) _ _ db
        (λ some_due.
          Ensures-bind _ (update_wallet-Drift o org (write_off total) db (λ _. refl) d) λ _ db' m.
            done _ _ (
              Drift-shift o _ _ _ m.drift (written_off o org a total _ _ sum) (untouched o org r _)
                (written_off o org e total _ _ sum)))
        (λ none_due.
          let zero_due = due_total_nonneg org rows due in
          done _ _ (
            Drift-shift o _ _ _ d (nothing_due o org a total _ sum zero_due none_due) refl
              (nothing_due o org e total _ sum zero_due none_due)))

  expire_due-Drift :
      (rows : List CreditLot) (a r e : ℤ) (db : Db)
      → Distinct lot_id rows
      → All (IsDue org) rows
      → All (Stands db.lots) rows
      → Drift o a r e db
      → Ensures (λ _ db'. Drift o a r e db') (expire_due org rows db)
  expire_due-Drift [] a r e db distinct due stands d = done _ _ d
  expire_due-Drift (row ∷ rest) a r e db distinct due stands d =
      Ensures-bind _ (expire_rows-Drift (row ∷ rest) [] (pos 0) a r e db distinct due stands d)
        λ out db' h. settle_write_off-Drift (row ∷ rest) out a r e db' due h

module _ (org now : ℕ) where
  abbrev is_due : CreditLot → Bool
  is_due lot = lot.organization_id == org && has_status active lot.status && leb lot.expires_at now

  is_due-IsDue : (lot : CreditLot) → IsSolvent lot × (is_due lot ≡ true) → IsDue org lot
  is_due-IsDue lot (solvent, h) = ground arith

  -- The sweep of due lots leaves the books as they were.
  pub expire_due_lots-Drift :
      (o : ℕ) (a r e : ℤ) (db : Db)
      → Drift o a r e db
      → Ensures (λ _ db'. Drift o a r e db') (expire_due_lots_in_tx org now db)
  unfolding expire_due_lots_in_tx
  expire_due_lots-Drift o a r e db d =
      expire_due-Drift o org (due_lots org now db) a r e db
        (filter-Distinct lot_id is_due db.lots d.sound.distinct)
        (All-map _ is_due-IsDue (All-filter IsSolvent is_due db.lots d.sound.solvent))
        (All-map _ (λ lot h. h.0)
          (All-filter (Stands db.lots) is_due db.lots
            (Distinct-find_row lot_id db.lots d.sound.distinct)))
        d
