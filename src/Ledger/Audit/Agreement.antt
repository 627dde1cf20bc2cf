-- ===== src/Ledger/Audit/Agreement.antt =====
-- What `reconcileWallet` reports of consistent books.
use prelude.Base.{
  ℕ, ◌<◌, ◌≡◌, refl, true, ◌&&◌, some, List, [], ◌∷◌, arith, ◌==◌, ltb, if◌then◌else◌, Bool-cases,
  inl, inr, All, filter, subst,
}
use prelude.Base.Int.{ℤ, pos, ◌-ℤ◌, eqb_ℤ, int_laws}
use prelude.CreditLots.{
  CreditLotSnapshot, active, is_active, available_in_lot, is_lot_clock_active,
  compute_wallet_totals,
}
use prelude.CreditLots.Totals.{sum_where, compute_wallet_totals_sums}
use prelude.Ledger.Schema.{Db, CreditWallet, CreditLot, has_status}
use prelude.Ledger.Table.{sum_of}
use prelude.Ledger.Monad.{Result, ok, err}
use prelude.Ledger.Client.{find_wallet}
use prelude.Ledger.Wallet.{
  to_lot_kind, to_lot_status, to_lot_snapshot, cons_snapshot, to_lot_snapshots,
}
use prelude.Ledger.Sound.{row_available}
use prelude.Ledger.Books.{at, active_available, Drift}
use prelude.Ledger.Audit.{WalletReconciliation, ledger_sum, compare_books, reconcile_tx}

-- An active lot is not past its expiry.
abbrev pub IsNotDue : ℕ → CreditLot → Type 0
IsNotDue now row = has_status active row.status ≡ true → now < row.expires_at

same_status :
    (row : CreditLot) → is_active (to_lot_status row.status) ≡ has_status active row.status
unfolding to_lot_status
same_status row = ground arith

-- What a row and its snapshot have in common.
abbrev Matches : CreditLot → CreditLotSnapshot → Type 0
Matches row lot =
    (available_in_lot lot ≡ row_available row)
    × (lot.credits_reserved ≡ row.credits_reserved)
    × (is_active lot.status ≡ has_status active row.status)
    × (lot.expires_at ≡ row.expires_at)

snapshot-Matches :
    (row : CreditLot) (lot : CreditLotSnapshot) → to_lot_snapshot row ≡ ok lot → Matches row lot
unfolding to_lot_snapshot to_lot_kind available_in_lot to_lot_status
snapshot-Matches row lot h = ground arith

-- The sums over the snapshots that the totals take are those over the rows.
abbrev SumsAgree : ℕ → List CreditLot → List CreditLotSnapshot → Type 0
SumsAgree now rows lots =
    (sum_where (λ lot. is_lot_clock_active lot now) available_in_lot lots
      ≡ sum_of active_available rows)
    × (sum_where (λ _. true) (λ lot. lot.credits_reserved) lots
        ≡ sum_of (λ row. row.credits_reserved) rows)

clock_amount :
    (now : ℕ) (row : CreditLot) (lot : CreditLotSnapshot)
    → IsNotDue now row
    → Matches row lot
    → (if is_lot_clock_active lot now then available_in_lot lot else pos 0) ≡ active_available row
unfolding is_lot_clock_active available_in_lot ◌-ℤ◌
clock_amount now row lot due (amount, _, status, until) =
    elim (Bool-cases (has_status active row.status)) [
      | inl e ↦
          let later : ltb now row.expires_at ≡ true = ltb_true (due e) in
          rw (status, until, e, later, amount) refl
      | inr e ↦ rw (status, e) refl
    ]
  where
    ltb_true : {a b : ℕ} → a < b → ltb a b ≡ true
    ltb_true h = ground arith

sums_cons :
    (now : ℕ) (row : CreditLot) (rows : List CreditLot) (first : Result CreditLotSnapshot)
    (rest : Result (List CreditLotSnapshot)) (lots : List CreditLotSnapshot)
    → IsNotDue now row
    → ((lot : CreditLotSnapshot) → first ≡ ok lot → Matches row lot)
    → ((more : List CreditLotSnapshot) → rest ≡ ok more → SumsAgree now rows more)
    → cons_snapshot first rest ≡ ok lots
    → SumsAgree now (row ∷ rows) lots
unfolding sum_of
sums_cons now row rows (err e) rest lots due here there h = cc
sums_cons now row rows (ok lot) (err e) lots due here there h = cc
sums_cons now row rows (ok lot) (ok more) lots due here there h =
    let same : lot ∷ more ≡ lots = cc in
    let amount = clock_amount now row lot due (here lot refl) in
    let (open_sum, held_sum) = there more refl in
    subst (SumsAgree now (row ∷ rows)) same
      (rw (amount, open_sum) refl, rw ((here lot refl).1, held_sum) refl)

sums_agree :
    (now : ℕ) (rows : List CreditLot) (lots : List CreditLotSnapshot)
    → All (IsNotDue now) rows
    → to_lot_snapshots rows ≡ ok lots
    → SumsAgree now rows lots
unfolding to_lot_snapshots sum_of
sums_agree now [] lots due h =
    let same : [] ≡ lots = cc in subst (SumsAgree now []) same (refl, refl)
sums_agree now (row ∷ rows) lots due h =
    sums_cons now row rows (to_lot_snapshot row) (to_lot_snapshots rows) lots due.0
      (λ lot e. snapshot-Matches row lot e) (λ more e. sums_agree now rows more due.1 e) h

-- The rows of an organization are summed as the amounts that are its own.
sum_of-own :
    (o : ℕ) (amount : CreditLot → ℤ) (rows : List CreditLot)
    → sum_of amount (filter (λ lot. lot.organization_id == o) rows)
      ≡ sum_of (λ lot. at o lot.organization_id (amount lot)) rows
unfolding sum_of
sum_of-own o amount [] = refl
sum_of-own o amount (row ∷ rows) = elim (Bool-cases (row.organization_id == o)) [
  | inl e ↦ rw e (rw (sum_of-own o amount rows) refl)
  | inr e ↦ rw e (rw (sum_of-own o amount rows) (omega int_laws))
]

same_books : (a b c d e : ℤ) → a ≡ b → c ≡ d → e ≡ b → (eqb_ℤ a b && eqb_ℤ c d && eqb_ℤ e b) ≡ true
same_books a b c d e h k l = rw (h, k, l) (ground arith)

-- Where an organization's books balance, its wallet exists, none of its active lots is due, and the
-- kind of each of its lots is known, `reconcileWallet`'s transaction returns, changes nothing and
-- reports that the books are consistent.
pub reconcile_tx_consistent :
    (o now : ℕ) (db : Db) (w : CreditWallet) (lots : List CreditLotSnapshot)
    → Drift o (pos 0) (pos 0) (pos 0) db
    → find_wallet o db ≡ some w
    → to_lot_snapshots (filter (λ lot. lot.organization_id == o) db.lots) ≡ ok lots
    → All (IsNotDue now) (filter (λ lot. lot.organization_id == o) db.lots)
    → (report : WalletReconciliation) × (reconcile_tx o now db ≡ ok (report, db))
      × (report.consistent ≡ true)
unfolding reconcile_tx compare_books
reconcile_tx_consistent o now db w lots d found narrowed due =
    let rows = filter (λ (lot : CreditLot). lot.organization_id == o) db.lots in
    let totals = compute_wallet_totals lots now in
    let (open_sum, _, _, held_sum) = compute_wallet_totals_sums lots now in
    let (open_rows, held_rows) = sums_agree now rows lots due narrowed in
    let available = rw found at d.available in
    let reserved = rw found at d.reserved in
    let ledger = rw found at d.ledger in
    let own_open = sum_of-own o active_available db.lots in
    let own_held = sum_of-own o (λ lot. lot.credits_reserved) db.lots in
    (
      compare_books w totals (ledger_sum o db.entries),
      rw (found, narrowed) refl,
      same_books totals.available w.available_credits totals.reserved w.reserved_credits
          (ledger_sum o db.entries) (omega (int_laws, open_sum, open_rows, own_open, available))
          (omega (int_laws, held_sum, held_rows, own_held, reserved)) (omega (int_laws, ledger)),
    )
