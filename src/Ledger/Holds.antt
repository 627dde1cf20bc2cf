-- ===== src/Ledger/Holds.antt =====
-- The reserved credits of a lot are its held reservations: the count, and how the writes of the
-- database client move it.
pub mod Release
pub mod Grants
pub mod Exits
pub mod Sessions
use prelude.Base.{
  ℕ, ◌+◌, ◌≤◌, ◌≡◌, refl, Bool, true, false, ◌&&◌, ◌||◌, Option, none, some, List, [], ◌∷◌, arith,
  ◌==◌, if◌then◌else◌, Bool-cases, ==→eq, ==-refl, ==-false_symm, inl, inr, All, any, sym, ◌∙◌,
}
use prelude.Base.Int.{ℤ, pos, ◌+ℤ◌, ◌-ℤ◌, ◌≤ℤ◌, int_laws}
use prelude.Ledger.Schema.{
  Db, CreditWallet, CreditLot, CreditLedgerEntry, CreditReservation, is_held,
}
use prelude.Ledger.Table.{
  same_row, find_row, update_row, find_row-update_row, find_row-update_row_ne, sum_of, sum_of-cons,
  sum_of-update_row,
}
use prelude.Ledger.Monad.{Ensures, Ensures-if, done, failed}
use prelude.Ledger.Client.{
  lot_id, reservation_id, find_lot, find_wallet, update_lot, update_wallet, update_reservation,
  create_entry, create_reservation, same_reservation, create_lot, clashes,
}
use prelude.Ledger.Sound.{IsBacked, clashes-find_row}
use prelude.Ledger.Moves.{Ensures-with_row}

-- 1 for a held reservation of the lot.
abbrev pub held_amount : ℕ → CreditReservation → ℤ
held_amount j q = if q.lot_id == j && is_held q.status then pos 1 else pos 0

-- Every lot's reserved credits are its held reservations, lot `k` being short by `d`.
pub record Tally (k : ℕ) (d : ℤ) (db : Db) : Type 0 where
  pub counts :
      (j : ℕ) (lot : CreditLot)
      → find_lot j db ≡ some lot
      → lot.credits_reserved +ℤ (if j == k then d else pos 0)
        ≡ sum_of (held_amount j) db.reservations

tally_zero :
    (b c : Bool) (x : ℤ) {d s : ℤ}
    → d ≡ pos 0
    → x +ℤ (if b then d else pos 0) ≡ s
    → x +ℤ (if c then pos 0 else pos 0) ≡ s
tally_zero true true x e h = omega int_laws
tally_zero true false x e h = omega int_laws
tally_zero false true x e h = h
tally_zero false false x e h = h

tally_more :
    (b : Bool) (x d more u : ℤ) {s s' v : ℤ}
    → x +ℤ (if b then d else pos 0) ≡ s
    → v ≡ u +ℤ (if b then more else pos 0)
    → s' +ℤ u ≡ s +ℤ v
    → x +ℤ (if b then d +ℤ more else pos 0) ≡ s'
tally_more true x d more u h m e = omega int_laws
tally_more false x d more u h m e = omega int_laws

tally_new :
    (b : Bool) (x d more : ℤ) {s s' u : ℤ}
    → x +ℤ (if b then d else pos 0) ≡ s
    → u ≡ (if b then more else pos 0)
    → s' ≡ u +ℤ s
    → x +ℤ (if b then d +ℤ more else pos 0) ≡ s'
tally_new true x d more h m e = omega int_laws
tally_new false x d more h m e = omega int_laws

-- No lot is short: each lot's reserved credits are exactly its held reservations.
abbrev pub IsCounted : Db → Type 0
IsCounted db = Tally 0 (pos 0) db

module _ (k : ℕ) {d : ℤ} where
  pub Tally-shift : (k' : ℕ) {db : Db} → Tally k d db → d ≡ pos 0 → Tally k' (pos 0) db
  Tally-shift k' t e = record {
    counts = λ j lot found.
        let h = t.counts j lot found in tally_zero (j == k) (j == k') lot.credits_reserved e h;
  }

  pub create_entry-Tally :
      (entry : CreditLedgerEntry) (db : Db)
      → Tally k d db
      → Ensures
          (λ _ db'. (db'.reservations ≡ db.reservations) × Tally k d db')
          (create_entry entry db)
  unfolding create_entry
  create_entry-Tally entry db t = done _ _ (refl, record { counts = t.counts })

  pub update_wallet-Tally :
      (org : ℕ) (f : CreditWallet → CreditWallet) (db : Db)
      → Tally k d db
      → Ensures (λ _ db'. Tally k d db') (update_wallet org f db)
  unfolding update_wallet
  update_wallet-Tally org f db t =
      Ensures-with_row (find_wallet org db) _ λ _ _. done _ _ (record { counts = t.counts })

  -- A write to lot `k` that lowers its reserved credits by `less`.
  pub update_lot-Tally :
      (f : CreditLot → CreditLot) (less : ℤ) (db : Db)
      → ((y : CreditLot) → lot_id (f y) ≡ lot_id y)
      → ((y : CreditLot) → (f y).credits_reserved +ℤ less ≡ y.credits_reserved)
      → Tally k d db
      → Ensures
          (λ _ db'. (db'.reservations ≡ db.reservations) × Tally k (d +ℤ less) db')
          (update_lot k f db)
  unfolding update_lot
  update_lot-Tally f less db keep moved t = Ensures-with_row (find_lot k db) _ λ old found.
      done _ _ (
        refl,
        record {
          counts = λ j lot there. elim (Bool-cases (j == k)) [
            | inl e ↦
                let same : j ≡ k = ==→eq j k e in
                let there' : find_row lot_id k (update_row lot_id k f db.lots) ≡ some lot =
                  rw same at there in
                let now : f old ≡ lot =
                  same_row (find_row-update_row lot_id k f db.lots old keep found) there' in
                let h : old.credits_reserved +ℤ d ≡ sum_of (held_amount k) db.reservations =
                  rw (==-refl k) at (t.counts k old found) in
                rw (same, ← now, ==-refl k) (omega (int_laws, moved old, h))
            | inr e ↦
                let before = find_row-update_row_ne lot_id j k f db.lots keep e in
                let h = t.counts j lot (sym before ∙ there) in rw e (rw e at h)
          ];
        },
      )

  -- A write to any lot that keeps its reserved credits.
  pub keep_lot-Tally :
      (id : ℕ) (f : CreditLot → CreditLot) (db : Db)
      → ((y : CreditLot) → lot_id (f y) ≡ lot_id y)
      → ((y : CreditLot) → (f y).credits_reserved ≡ y.credits_reserved)
      → Tally k d db
      → Ensures (λ _ db'. (db'.reservations ≡ db.reservations) × Tally k d db') (update_lot id f db)
  unfolding update_lot
  keep_lot-Tally id f db keep same_reserved t = Ensures-with_row (find_lot id db) _ λ old found.
      done _ _ (
        refl,
        record {
          counts = λ j lot there. elim (Bool-cases (j == id)) [
            | inl e ↦
                let same : j ≡ id = ==→eq j id e in
                let found' : find_row lot_id j db.lots ≡ some old = rw same found in
                let there' : find_row lot_id j (update_row lot_id j f db.lots) ≡ some lot =
                  rw (← same) at there in
                let now : f old ≡ lot =
                  same_row (find_row-update_row lot_id j f db.lots old keep found') there' in
                rw (← now, same_reserved old) (t.counts j old found')
            | inr e ↦
                let before = find_row-update_row_ne lot_id j id f db.lots keep e in
                t.counts j lot (sym before ∙ there)
          ];
        },
      )

  -- A write to the reservation with a key, or a new one, that holds `more` on lot `k` and nothing
  -- on any other.
  pub update_reservation-Tally :
      (id : ℕ) (f : CreditReservation → CreditReservation) (more : ℤ) (db : Db)
      → ((q : CreditReservation)
          → find_row reservation_id id db.reservations ≡ some q
          → (j : ℕ) → held_amount j (f q) ≡ held_amount j q +ℤ (if j == k then more else pos 0))
      → Tally k d db
      → Ensures
          (λ _ db'.
            (db'.reservations ≡ update_row reservation_id id f db.reservations)
            × Tally k (d +ℤ more) db')
          (update_reservation id f db)
  unfolding update_reservation
  update_reservation-Tally id f more db moved t =
      Ensures-with_row (find_row reservation_id id db.reservations) _ λ q found. done _ _ (
        refl,
        record {
          counts = λ j lot there.
              let sums =
                sum_of-update_row (held_amount j) reservation_id id f db.reservations q found in
              tally_more (j == k) lot.credits_reserved d more (held_amount j q)
                (t.counts j lot there) (moved q found j) sums;
        },
      )

  pub create_reservation-Tally :
      (q : CreditReservation) (more : ℤ) (db : Db)
      → ((j : ℕ) → held_amount j q ≡ (if j == k then more else pos 0))
      → Tally k d db
      → Ensures (λ _ db'. Tally k (d +ℤ more) db') (create_reservation q db)
  unfolding create_reservation
  create_reservation-Tally q more db moved t =
      Ensures-if (any (same_reservation q) db.reservations) _ _ (λ _. failed _)
        λ _. done _ _ (record {
          counts = λ j lot there.
              let sums = sum_of-cons (held_amount j) q db.reservations in
              tally_new (j == k) lot.credits_reserved d more (t.counts j lot there) (moved j) sums;
        })

-- No reservation holds on a lot that is not in the table.
unbacked_none :
    (j : ℕ) (lots : List CreditLot) (rs : List CreditReservation)
    → find_row lot_id j lots ≡ none
    → All (IsBacked lots) rs
    → sum_of (held_amount j) rs ≡ pos 0
unfolding sum_of
unbacked_none j lots [] h b = refl
unbacked_none j lots (q ∷ rs) h (owner, rest) = elim (Bool-cases (q.lot_id == j)) [
  | inl e ↦
      let found : find_row lot_id j lots ≡ some owner.0 = rw (==→eq q.lot_id j e) at owner.1 in cc
  | inr e ↦ rw (e, unbacked_none j lots rs h rest) (omega int_laws)
]

tally_start : (b : Bool) → pos 0 +ℤ (if b then pos 0 else pos 0) ≡ pos 0
tally_start true = omega int_laws
tally_start false = omega int_laws

pub create_lot-Tally :
    (lot : CreditLot) (db : Db)
    → lot.credits_reserved ≡ pos 0
    → All (IsBacked db.lots) db.reservations
    → Tally 0 (pos 0) db
    → Ensures (λ _ db'. Tally 0 (pos 0) db') (create_lot lot db)
unfolding create_lot find_row
create_lot-Tally lot db zero_reserved backed t =
    Ensures-if (any (clashes lot) db.lots) _ _ (λ _. failed _)
      λ fresh. done _ _ (record {
        counts = λ j other there. elim (Bool-cases (lot.id == j)) [
          | inl e ↦
              let here : some lot ≡ some other = rw e at there in
              let now : lot ≡ other = cc in
              let new = clashes-find_row lot db.lots fresh in
              let none_held = unbacked_none lot.id db.lots db.reservations new backed in
              let same : lot.id ≡ j = ==→eq lot.id j e in
              rw (← same, ← now, zero_reserved, none_held) (tally_start (lot.id == 0))
          | inr e ↦
              let old : find_row lot_id j db.lots ≡ some other = rw e at there in
              t.counts j other old
        ];
      })
