-- ===== src/Ledger/Balance/Kept.antt =====
-- What the sweeps keep of the reservations: any fact that the release of a reservation keeps.
use prelude.Base.{
  ℕ, ◌≡◌, refl, Bool, true, false, some, List, [], ◌∷◌, ◌++◌, ◌==◌, Bool-cases, ==-false_symm, inl,
  inr, All, length, All-map, ◌∙◌,
}
use prelude.Base.Int.{ℤ, pos, ◌+ℤ◌, ltb_ℤ}
use prelude.CreditLots.{active, expired}
use prelude.Ledger.Schema.{
  Db, CreditWallet, CreditLot, CreditLedgerEntry, CreditReservation, Reason, has_status,
  reservation_ttl_expired,
}
use prelude.Ledger.Table.{find_row, All-update_row, All-find_row, Distinct, find_row-none-All}
use prelude.Ledger.Monad.{Ensures, done, Ensures-bind, Ensures-choose, Ensures-weaken}
use prelude.Ledger.Client.{
  find_lot, find_wallet, reservation_id, session_id, update_lot, update_wallet, update_reservation,
  create_entry,
}
use prelude.Ledger.Moves.{Ensures-with_row}
use prelude.Ledger.Sweeps.{
  release_reservation_row, balance_release, resolve_as_released, release_rows, release_due,
  settle_release, due_reservations, release_expired_reservations_in_tx, give_back, with_status,
  expire_rows, expire_due, write_off, settle_write_off, due_lots, expire_due_lots_in_tx,
}
use prelude.Ledger.Balance.Expiry.{available_in_row-Ensures}

abbrev pub SameReservations : {A : Type 0} → Db → A → Db → Type 0
SameReservations db _ db' = db'.reservations ≡ db.reservations

pub kept-All :
    (P : CreditReservation → Type 0) (db db' : Db)
    → db'.reservations ≡ db.reservations
    → All P db.reservations
    → All P db'.reservations
kept-All P db db' e h = rw e h

pub update_lot-same :
    (id : ℕ) (f : CreditLot → CreditLot) (db : Db)
    → Ensures (SameReservations db) (update_lot id f db)
unfolding update_lot
update_lot-same id f db = Ensures-with_row (find_lot id db) _ λ _ _. done _ _ refl

pub update_wallet-same :
    (org : ℕ) (f : CreditWallet → CreditWallet) (db : Db)
    → Ensures (SameReservations db) (update_wallet org f db)
unfolding update_wallet
update_wallet-same org f db = Ensures-with_row (find_wallet org db) _ λ _ _. done _ _ refl

pub create_entry-same :
    (entry : CreditLedgerEntry) (db : Db) → Ensures (SameReservations db) (create_entry entry db)
unfolding create_entry
create_entry-same entry db = done _ _ refl

expire_rows-same :
    (org : ℕ) (rows : List CreditLot) (ids : List ℕ) (written : ℤ) (db : Db)
    → Ensures (SameReservations db) (expire_rows org rows ids written db)
unfolding expire_rows
expire_rows-same org [] ids written db = done _ _ refl
expire_rows-same org (row ∷ rows) ids written db =
    Ensures-bind _ (available_in_row-Ensures row db) λ remaining db0 (_, same).
      Ensures-bind _
        (Ensures-bind {Q = SameReservations db} _
          (Ensures-weaken (update_lot-same row.id (with_status expired) db0) λ _ _ e. rw same at e)
          λ _ db1 e1. Ensures-weaken (create_entry-same _ db1) λ _ _ e. e ∙ e1)
        λ _ db2 e2.
          Ensures-weaken (expire_rows-same org rows (ids ++ row.id ∷ []) (written +ℤ remaining) db2)
            λ _ _ e. e ∙ e2

settle_write_off-same :
    (org : ℕ) (out : List ℕ × ℤ) (db : Db)
    → Ensures (SameReservations db) (settle_write_off org out db)
settle_write_off-same org (ids, total) db =
    Ensures-choose (ltb_ℤ (pos 0) total) _ _ db
      (λ _. Ensures-bind _ (update_wallet-same org (write_off total) db) λ _ _ e. done _ _ e)
      (λ _. done _ _ refl)

expire_due-same :
    (org : ℕ) (rows : List CreditLot) (db : Db)
    → Ensures (SameReservations db) (expire_due org rows db)
expire_due-same org [] db = done _ _ refl
expire_due-same org (row ∷ rest) db =
    Ensures-bind _ (expire_rows-same org (row ∷ rest) [] (pos 0) db)
      λ out db1 e1. Ensures-weaken (settle_write_off-same org out db1) λ _ _ e. e ∙ e1

-- The sweep of due lots does not touch the reservations.
pub expire_due_lots-same :
    (org now : ℕ) (db : Db) → Ensures (SameReservations db) (expire_due_lots_in_tx org now db)
unfolding expire_due_lots_in_tx
expire_due_lots-same org now db = expire_due-same org (due_lots org now db) db

module _ (P : CreditReservation → Type 0) (now : ℕ)
    (stable : (q : CreditReservation) → P q → P (resolve_as_released now q)) where
  abbrev AllKept : {A : Type 0} → A → Db → Type 0
  AllKept _ db' = All P db'.reservations

  pub resolve-kept :
      (id : ℕ) (db : Db)
      → All P db.reservations
      → Ensures AllKept (update_reservation id (resolve_as_released now) db)
  unfolding update_reservation
  resolve-kept id db h = Ensures-with_row (find_row reservation_id id db.reservations) _ λ q found.
      done _ _ (
        All-update_row reservation_id P id (resolve_as_released now) db.reservations q found
          (stable q (All-find_row reservation_id P id db.reservations q found h)) h)

  balance_release-kept :
      (q : CreditReservation) (live : Bool) (db : Db)
      → All P db.reservations
      → Ensures AllKept (balance_release q live db)
  balance_release-kept q true db h = done _ _ h
  balance_release-kept q false db h =
      Ensures-bind _ (create_entry-same _ db) λ _ db' e. done _ _ (rw e h)

  pub release_reservation_row-kept :
      (q : CreditReservation) (reason : Reason) (db : Db)
      → All P db.reservations
      → Ensures AllKept (release_reservation_row q now reason db)
  unfolding release_reservation_row
  release_reservation_row-kept q reason db h =
      Ensures-bind _ (update_lot-same q.lot_id give_back db) λ lot db1 e1.
        let h1 : All P db1.reservations = rw e1 h in
        Ensures-bind _ (resolve-kept q.id db1 h1) λ _ db2 h2.
          Ensures-bind _ (create_entry-same _ db2) λ _ db3 e3.
            let h3 : All P db3.reservations = rw e3 h2 in
            balance_release-kept q (has_status active lot.status) db3 h3

  release_rows-kept :
      (due : List CreditReservation) (acc : ℤ) (db : Db)
      → All P db.reservations
      → Ensures AllKept (release_rows due now acc db)
  unfolding release_rows
  release_rows-kept [] acc db h = done _ _ h
  release_rows-kept (q ∷ due) acc db h =
      Ensures-bind _ (release_reservation_row-kept q reservation_ttl_expired db h)
        λ delta db1 h1. release_rows-kept due (acc +ℤ delta) db1 h1

  release_due-kept :
      (org : ℕ) (due : List CreditReservation) (db : Db)
      → All P db.reservations
      → Ensures AllKept (release_due org now due db)
  release_due-kept org [] db h = done _ _ h
  release_due-kept org (q ∷ rest) db h =
      Ensures-bind _ (release_rows-kept (q ∷ rest) (pos 0) db h) λ total db1 h1.
        Ensures-bind _ (update_wallet-same org (settle_release total (pos (length (q ∷ rest)))) db1)
          λ _ db2 e. done _ _ (rw e h1)

  pub release_expired-kept :
      (org : ℕ) (db : Db)
      → All P db.reservations
      → Ensures AllKept (release_expired_reservations_in_tx org now db)
  unfolding release_expired_reservations_in_tx
  release_expired-kept org db h = release_due-kept org (due_reservations org now db) db h

clash : {A : Type 0} {b : Bool} → b ≡ false → b ≡ true → A
clash p q = cc

-- With unique ids, the reservation that a session finds is the only one with its id.
pub session_unique :
    (session : ℕ) (rs : List CreditReservation) (q : CreditReservation)
    → Distinct reservation_id rs
    → find_row session_id session rs ≡ some q
    → All (λ p. (p.id == q.id) ≡ true → p ≡ q) rs
unfolding find_row
session_unique session [] q d h = tt
session_unique session (p ∷ rs) q d h = elim (Bool-cases (p.candidate_session_id == session)) [
  | inl e ↦
      let same : some p ≡ some q = rw e at h in
      let first : p ≡ q = cc in
      (
        (λ _. first),
        All-map rs (λ x ne eq. clash (rw first at ne) eq)
            (find_row-none-All reservation_id p.id rs d.0),
      )
  | inr e ↦
      let rest : find_row session_id session rs ≡ some q = rw e at h in
      let apart : (q.id == p.id) ≡ false =
        All-find_row session_id (λ x. (x.id == p.id) ≡ false) session rs q rest
          (find_row-none-All reservation_id p.id rs d.0) in
      ((λ eq. clash (==-false_symm q.id p.id apart) eq), session_unique session rs q d.1 rest)
]
