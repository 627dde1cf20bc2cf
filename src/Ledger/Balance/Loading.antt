-- ===== src/Ledger/Balance/Loading.antt =====
-- The lots that a transaction loads stand in the table with the counters of their snapshots.
use prelude.Base.{
  ℕ, ◌≡◌, refl, Bool, true, ◌&&◌, some, List, [], ◌∷◌, arith, ◌==◌, All, All-In, All-filter, filter,
  sym, subst,
}
use prelude.Base.Int.{pos, ◌≤ℤ◌}
use prelude.CreditLots.{
  CreditLotSnapshot, active, available_in_lot, is_lot_eligible, select_lot_for_reservation,
}
use prelude.CreditLots.Selection.{Selects, select_lot_for_reservation-Selects}
use prelude.Ledger.Schema.{Db, CreditLot, has_status}
use prelude.Ledger.Table.{find_row, Distinct, Distinct-find_row}
use prelude.Ledger.Monad.{Result, ok, err, Ensures, Ensures-weaken}
use prelude.Ledger.Client.{lot_id}
use prelude.Ledger.Wallet.{to_lot_snapshot, to_lot_snapshots, cons_snapshot, load_lots}
use prelude.Ledger.Sound.{row_available}
use prelude.Ledger.Balance.Expiry.{Ensures-lift, snapshot_available}

All-cons_snapshot :
    (P : CreditLotSnapshot → Type 0) (x : Result CreditLotSnapshot)
    (xs : Result (List CreditLotSnapshot)) (lots : List CreditLotSnapshot)
    → cons_snapshot x xs ≡ ok lots
    → ((lot : CreditLotSnapshot) → x ≡ ok lot → P lot)
    → ((rest : List CreditLotSnapshot) → xs ≡ ok rest → All P rest)
    → All P lots
All-cons_snapshot P (err e) xs lots h first rest = cc
All-cons_snapshot P (ok lot) (err e) lots h first rest = cc
All-cons_snapshot P (ok lot) (ok more) lots h first rest =
    let same : lot ∷ more ≡ lots = cc in subst (All P) same (first lot refl, rest more refl)

-- What holds of the rows holds of their snapshots.
pub All-to_lot_snapshots :
    {R : CreditLot → Type 0} {P : CreditLotSnapshot → Type 0}
    → ((row : CreditLot) (lot : CreditLotSnapshot) → R row → to_lot_snapshot row ≡ ok lot → P lot)
    → (rows : List CreditLot) (lots : List CreditLotSnapshot) → to_lot_snapshots rows ≡ ok lots
    → All R rows
    → All P lots
unfolding to_lot_snapshots
All-to_lot_snapshots {P = P} f [] lots h all = let same : [] ≡ lots = cc in subst (All P) same tt
All-to_lot_snapshots {P = P} f (row ∷ rows) lots h all =
    All-cons_snapshot P (to_lot_snapshot row) (to_lot_snapshots rows) lots h
      (λ lot e. f row lot all.0 e) (λ rest e. All-to_lot_snapshots f rows rest e all.1)

snapshot_id :
    (row : CreditLot) (lot : CreditLotSnapshot) → to_lot_snapshot row ≡ ok lot → lot.id ≡ row.id
unfolding to_lot_snapshot
snapshot_id row lot h = ground arith

-- A snapshot of an open lot of the organization.
pub record IsLoaded (org : ℕ) (lots : List CreditLot) (lot : CreditLotSnapshot) : Type 0 where
  pub row : CreditLot
  pub found : find_row lot_id lot.id lots ≡ some row
  pub owned : row.organization_id ≡ org
  pub is_open : has_status active row.status ≡ true
  pub amount : available_in_lot lot ≡ row_available row

module _ (org : ℕ) where
  abbrev open_row : CreditLot → Bool
  open_row lot = lot.organization_id == org && has_status active lot.status

  loaded :
      (lots : List CreditLot) (row : CreditLot) (lot : CreditLotSnapshot)
      → (find_row lot_id row.id lots ≡ some row) × (open_row row ≡ true)
      → to_lot_snapshot row ≡ ok lot
      → IsLoaded org lots lot
  loaded lots row lot (stands, opened) h = record {
    row = row;
    found = subst (λ k. find_row lot_id k lots ≡ some row) (sym (snapshot_id row lot h)) stands;
    owned = ground arith;
    is_open = ground arith;
    amount = snapshot_available row lot h;
  }

  pub load_lots-IsLoaded :
      (db : Db)
      → Distinct lot_id db.lots
      → Ensures (λ lots db'. (db' ≡ db) × All (IsLoaded org db.lots) lots) (load_lots org db)
  unfolding load_lots
  load_lots-IsLoaded db distinct =
      Ensures-weaken (Ensures-lift (to_lot_snapshots (filter open_row db.lots)) db)
        λ lots db' (h, same). (
          same,
          All-to_lot_snapshots (loaded db.lots) (filter open_row db.lots) lots h (
              All-filter (λ row. find_row lot_id row.id db.lots ≡ some row) open_row db.lots
                (Distinct-find_row lot_id db.lots distinct)),
        )

  pub load_lots-same : (db : Db) → Ensures (λ _ db'. db' ≡ db) (load_lots org db)
  unfolding load_lots
  load_lots-same db =
      Ensures-weaken (Ensures-lift (to_lot_snapshots (filter open_row db.lots)) db) λ _ _ h. h.1

-- The lot that is chosen has a credit left.
eligible_room :
    (lot : CreditLotSnapshot) (now : ℕ)
    → is_lot_eligible lot now ≡ true
    → pos 1 ≤ℤ available_in_lot lot
unfolding is_lot_eligible
eligible_room lot now h = ground arith

pub selected_room :
    (org now : ℕ) (rows : List CreditLot) (lots : List CreditLotSnapshot) (lot : CreditLotSnapshot)
    → select_lot_for_reservation lots now ≡ some lot
    → All (IsLoaded org rows) lots
    → IsLoaded org rows lot × (pos 1 ≤ℤ available_in_lot lot)
selected_room org now rows lots lot h all =
    let chosen : Selects lots now (some lot) =
      subst (Selects lots now) h (select_lot_for_reservation-Selects lots now) in
    (All-In (IsLoaded org rows) lot lots all chosen.0, eligible_room lot now chosen.1)
