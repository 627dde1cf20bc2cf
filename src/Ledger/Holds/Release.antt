-- ===== src/Ledger/Holds/Release.antt =====
-- The release of held reservations keeps the count.
use prelude.Base.{
  ℕ, ◌≡◌, refl, Bool, true, false, ◌&&◌, some, List, [], ◌∷◌, ◌++◌, arith, ◌==◌, if◌then◌else◌,
  Bool-cases, ==-false_symm, ==→eq, ==-refl, inl, inr, All, All-map, All-passes, All-filter, leb,
  length, ◌∙◌,
}
use prelude.Base.Int.{ℤ, pos, ◌+ℤ◌, ◌-ℤ◌, ltb_ℤ, int_laws}
use prelude.CreditLots.{active, expired}
use prelude.Ledger.Schema.{
  Db, CreditLot, CreditReservation, Reason, is_held, has_status, reservation_ttl_expired,
}
use prelude.Ledger.Table.{
  same_row, find_row, Distinct, Distinct-find_row, filter-Distinct, find_row-none-All,
  find_row-update_row-All, update_row,
}
use prelude.Ledger.Monad.{Ensures, done, Ensures-bind, Ensures-choose, Ensures-weaken}
use prelude.Ledger.Client.{reservation_id}
use prelude.Ledger.Sweeps.{
  release_reservation_row, balance_release, resolve_as_released, release_rows, release_due,
  settle_release, due_reservations, release_expired_reservations_in_tx, give_back, with_status,
  expire_rows, expire_due, write_off, settle_write_off, due_lots, expire_due_lots_in_tx,
}
use prelude.Ledger.Balance.Expiry.{available_in_row-Ensures}
use prelude.Ledger.Holds.{
  held_amount, Tally, IsCounted, Tally-shift, create_entry-Tally, update_wallet-Tally,
  update_lot-Tally, keep_lot-Tally, update_reservation-Tally,
}

-- A held reservation counts on its lot, and on no lot once it is resolved.
pub held_counts :
    (j : ℕ) (q : CreditReservation)
    → is_held q.status ≡ true
    → pos 0 ≡ held_amount j q +ℤ (if j == q.lot_id then pos 0 -ℤ pos 1 else pos 0)
held_counts j q held = elim (Bool-cases (q.lot_id == j)) [
  | inl e ↦
      let same : q.lot_id ≡ j = ==→eq q.lot_id j e in rw (e, held, same, ==-refl j) (omega int_laws)
  | inr e ↦ rw (e, ==-false_symm q.lot_id j e) (omega int_laws)
]

released_none :
    (j now : ℕ) (q : CreditReservation) {x : ℤ}
    → pos 0 ≡ x
    → held_amount j (resolve_as_released now q) ≡ x
released_none j now q h = elim (Bool-cases (q.lot_id == j)) [ inl e ↦ rw e h | inr e ↦ rw e h ]

give_back_less : (y : CreditLot) → (give_back y).credits_reserved +ℤ pos 1 ≡ y.credits_reserved
give_back_less y = omega int_laws

-- The reservations that a release leaves as they are, but for its own.
abbrev Resolved : CreditReservation → ℕ → Db → Db → Type 0
Resolved q now db db' =
    db'.reservations ≡ update_row reservation_id q.id (resolve_as_released now) db.reservations

balance_release-Tally :
    (k : ℕ) {d : ℤ} (q : CreditReservation) (live : Bool) (db : Db)
    → Tally k d db
    → Ensures
        (λ _ db'. (db'.reservations ≡ db.reservations) × Tally k d db')
        (balance_release q live db)
balance_release-Tally k q true db t = done _ _ (refl, t)
balance_release-Tally k q false db t =
    Ensures-bind _ (create_entry-Tally k _ db t) λ _ db' (e, t'). done _ _ (e, t')

pub release_reservation_row-Tally :
    (q : CreditReservation) (now : ℕ) (reason : Reason) (db : Db)
    → find_row reservation_id q.id db.reservations ≡ some q
    → is_held q.status ≡ true
    → IsCounted db
    → Ensures
        (λ _ db'. Resolved q now db db' × IsCounted db')
        (release_reservation_row q now reason db)
unfolding release_reservation_row
release_reservation_row-Tally q now reason db found held t =
    let k = q.lot_id in
    Ensures-bind _
      (update_lot-Tally k give_back (pos 1) db (λ _. refl) give_back_less (Tally-shift 0 k t refl))
      λ lot db1 (e1, t1).
        Ensures-bind _
          (update_reservation-Tally k q.id (resolve_as_released now) (pos 0 -ℤ pos 1) db1
            (λ p there j.
              let found1 : find_row reservation_id q.id db1.reservations ≡ some q = rw e1 found in
              let same : p ≡ q = same_row there found1 in
              rw same (released_none j now q (held_counts j q held)))
            t1)
          λ _ db2 (e2, t2). Ensures-bind _ (create_entry-Tally k _ db2 t2) λ _ db3 (e3, t3).
            Ensures-weaken (balance_release-Tally k q (has_status active lot.status) db3 t3)
              λ _ db4 (e4, t4).
                let same = e4 ∙ (e3 ∙ e2) in (rw (← e1) same, Tally-shift k 0 t4 (omega int_laws))

release_rows-Tally :
    (due : List CreditReservation) (now : ℕ) (acc : ℤ) (db : Db)
    → Distinct reservation_id due
    → All (λ q. is_held q.status ≡ true) due
    → All (λ q. find_row reservation_id (reservation_id q) db.reservations ≡ some q) due
    → IsCounted db
    → Ensures (λ _ db'. IsCounted db') (release_rows due now acc db)
unfolding release_rows
release_rows-Tally [] now acc db distinct held stands t = done _ _ t
release_rows-Tally (q ∷ due) now acc db distinct held stands t =
    Ensures-bind _
      (release_reservation_row-Tally q now reservation_ttl_expired db stands.0 held.0 t)
      λ delta db1 (e, t1).
        let others =
          find_row-update_row-All reservation_id q.id (resolve_as_released now) db.reservations due
            (λ _. refl) (find_row-none-All reservation_id q.id due distinct.0) stands.1 in
        release_rows-Tally due now (acc +ℤ delta) db1 distinct.1 held.1 (rw e others) t1

module _ (org now : ℕ) where
  abbrev is_due_hold : CreditReservation → Bool
  is_due_hold q = q.organization_id == org && is_held q.status && leb q.expires_at now

  release_due-Tally :
      (due : List CreditReservation) (db : Db)
      → Distinct reservation_id due
      → All (λ q. is_held q.status ≡ true) due
      → All (λ q. find_row reservation_id (reservation_id q) db.reservations ≡ some q) due
      → IsCounted db
      → Ensures (λ _ db'. IsCounted db') (release_due org now due db)
  release_due-Tally [] db distinct held stands t = done _ _ t
  release_due-Tally (q ∷ rest) db distinct held stands t =
      Ensures-bind _ (release_rows-Tally (q ∷ rest) now (pos 0) db distinct held stands t)
        λ total db1 t1.
          Ensures-bind _
            (update_wallet-Tally 0 org (settle_release total (pos (length (q ∷ rest)))) db1 t1)
            λ _ db2 t2. done _ _ t2

  -- The sweep of expired reservations keeps the count.
  pub release_expired-Tally :
      (db : Db)
      → Distinct reservation_id db.reservations
      → IsCounted db
      → Ensures (λ _ db'. IsCounted db') (release_expired_reservations_in_tx org now db)
  unfolding release_expired_reservations_in_tx
  release_expired-Tally db distinct t =
      release_due-Tally (due_reservations org now db) db
        (filter-Distinct reservation_id is_due_hold db.reservations distinct)
        (All-map _ (λ q h. ground arith) (All-passes is_due_hold db.reservations))
        (All-map _ (λ q h. h.0)
          (All-filter (λ q. find_row reservation_id (reservation_id q) db.reservations ≡ some q)
            is_due_hold db.reservations
            (Distinct-find_row reservation_id db.reservations distinct)))
        t

module _ (k : ℕ) {d : ℤ} (org : ℕ) where
  expire_rows-Tally :
      (rows : List CreditLot) (ids : List ℕ) (written : ℤ) (db : Db)
      → Tally k d db
      → Ensures (λ _ db'. Tally k d db') (expire_rows org rows ids written db)
  unfolding expire_rows
  expire_rows-Tally [] ids written db t = done _ _ t
  expire_rows-Tally (row ∷ rows) ids written db t =
      Ensures-bind _ (available_in_row-Ensures row db) λ remaining db0 (_, same).
        let t0 : Tally k d db0 = rw same t in
        Ensures-bind _
          (Ensures-bind _
            (keep_lot-Tally k row.id (with_status expired) db0 (λ _. refl) (λ _. refl) t0)
            λ _ db1 (_, t1). Ensures-weaken (create_entry-Tally k _ db1 t1) λ _ _ h. h.1)
          λ _ db2 t2. expire_rows-Tally rows (ids ++ row.id ∷ []) (written +ℤ remaining) db2 t2

  settle_write_off-Tally :
      (out : List ℕ × ℤ) (db : Db)
      → Tally k d db
      → Ensures (λ _ db'. Tally k d db') (settle_write_off org out db)
  settle_write_off-Tally (ids, total) db t =
      Ensures-choose (ltb_ℤ (pos 0) total) _ _ db
        (λ _.
          Ensures-bind _ (update_wallet-Tally k org (write_off total) db t) λ _ _ t'. done _ _ t')
        (λ _. done _ _ t)

  expire_due-Tally :
      (rows : List CreditLot) (db : Db)
      → Tally k d db
      → Ensures (λ _ db'. Tally k d db') (expire_due org rows db)
  expire_due-Tally [] db t = done _ _ t
  expire_due-Tally (row ∷ rest) db t =
      Ensures-bind _ (expire_rows-Tally (row ∷ rest) [] (pos 0) db t)
        λ out db1 t1. settle_write_off-Tally out db1 t1

  -- The sweep of due lots keeps the count.
  pub expire_due_lots-Tally :
      (now : ℕ) (db : Db)
      → Tally k d db
      → Ensures (λ _ db'. Tally k d db') (expire_due_lots_in_tx org now db)
  unfolding expire_due_lots_in_tx
  expire_due_lots-Tally now db t = expire_due-Tally (due_lots org now db) db t
