-- ===== src/Ledger/Invariant/Reachable.antt =====
-- The states that calls reach. A call that opens two transactions is two steps when others come
-- between them: the creation of the wallet is a step of its own, and a call that sees the wallet
-- committed creates none.
use prelude.Base.{
  ℕ, ◌≡◌, Bool, true, false, Option, some, List, [], ◌∷◌, ◌==◌, if◌then◌else◌, All, All-map,
}
use prelude.Base.Int.{ℤ, pos, ◌+ℤ◌, ◌≤ℤ◌, int_laws}
use prelude.Ledger.Schema.{Db, CreditWallet, CreditLot, CreditReservation, Reason, is_held}
use prelude.Ledger.Table.{sum_of, find_row, Distinct-find_row, All-find_row, sum_of_nonneg}
use prelude.Ledger.Client.{lot_id, session_id, find_wallet, find_lot, find_reservation}
use prelude.Ledger.Wallet.{Call, ensure_wallet}
use prelude.Ledger.Sweeps.{release_expired_reservations, expire_due_lots}
use prelude.Ledger.Reservations.{
  reserve_credit_for_session, capture_reservation_for_session, release_reservation_for_session,
}
use prelude.Ledger.Purchase.{GrantPurchasedCreditLotInput, grant_purchased_credit_lot}
use prelude.Ledger.Exits.{
  freeze_lot_for_dispute, Disposition, resolve_dispute_on_lot, revoke_unconsumed_lot,
}
use prelude.Ledger.Audit.{ledger_sum}
use prelude.Ledger.Sound.{IsBacked, IsSolvent, row_available}
use prelude.Ledger.Books.{active_amount, reserved_amount}
use prelude.Ledger.Holds.{held_amount}
use prelude.Ledger.Balance.Captures.{held_reserves, held_amount_nonneg}
use prelude.Ledger.Invariant.{IsConsistent}
use prelude.Ledger.Invariant.Calls.{
  ensure_wallet-IsConsistent, reserve_credit-IsConsistent, capture_reservation-IsConsistent,
  release_reservation-IsConsistent, release_expired-IsConsistent, expire_due_lots-IsConsistent,
  grant_purchased-IsConsistent,
}
use prelude.Ledger.Invariant.Exits.{
  freeze_lot-IsConsistent, resolve_dispute-IsConsistent, revoke_lot-IsConsistent,
}

abbrev pub empty : Db
empty = record { wallets = []; lots = []; entries = []; reservations = [] }

pub data Reachable : Db → Type 0 where
  start : Reachable empty
  ensured :
      (call : Call) (org now days : ℕ) {db : Db}
      → Reachable db
      → Reachable (ensure_wallet call org now days db).1
  reserved :
      (call : Call) (org session now : ℕ) {db : Db}
      → Reachable db
      → Reachable (reserve_credit_for_session call org session now db).1
  captured :
      (call : Call) (org session now : ℕ) {db : Db}
      → Reachable db
      → Reachable (capture_reservation_for_session call org session now db).1
  released :
      (call : Call) (org session now : ℕ) (reason : Reason) {db : Db}
      → Reachable db
      → Reachable (release_reservation_for_session call org session now reason db).1
  swept :
      (call : Call) (org now : ℕ) {db : Db}
      → Reachable db
      → Reachable (release_expired_reservations call org now db).1
  expired :
      (call : Call) (org now : ℕ) {db : Db}
      → Reachable db
      → Reachable (expire_due_lots call org now db).1
  granted :
      (call : Call) (input : GrantPurchasedCreditLotInput) {db : Db}
      → Reachable db
      → Reachable (grant_purchased_credit_lot call input db).1
  frozen :
      (call : Call) (payment : ℕ) (event : Option ℕ) (now : ℕ) {db : Db}
      → Reachable db
      → Reachable (freeze_lot_for_dispute call payment event now db).1
  resolved :
      (call : Call) (payment : ℕ) (disposition : Disposition) (event : Option ℕ) (now : ℕ) {db : Db}
      → Reachable db
      → Reachable (resolve_dispute_on_lot call payment disposition event now db).1
  revoked :
      (call : Call) (payment refunded charged : ℕ) (event : Option ℕ) {db : Db}
      → Reachable db
      → Reachable (revoke_unconsumed_lot call payment refunded charged event db).1

pub empty-IsConsistent : IsConsistent empty
unfolding sum_of ledger_sum find_row
empty-IsConsistent = record {
  balanced = λ o. record {
    available = omega int_laws;
    reserved = omega int_laws;
    ledger = omega int_laws;
    sound = record { backed = tt; distinct = tt; solvent = tt; unique = tt };
  };
  counted = record { counts = λ j lot found. cc };
}

pub reachable-IsConsistent : (db : Db) → Reachable db → IsConsistent db
reachable-IsConsistent _ start = empty-IsConsistent
reachable-IsConsistent _ (ensured call org now days {db = db} h) =
    ensure_wallet-IsConsistent call org now days db (reachable-IsConsistent db h)
reachable-IsConsistent _ (reserved call org session now {db = db} h) =
    reserve_credit-IsConsistent call org session now db (reachable-IsConsistent db h)
reachable-IsConsistent _ (captured call org session now {db = db} h) =
    capture_reservation-IsConsistent call org session now db (reachable-IsConsistent db h)
reachable-IsConsistent _ (released call org session now reason {db = db} h) =
    release_reservation-IsConsistent call org session now reason db (reachable-IsConsistent db h)
reachable-IsConsistent _ (swept call org now {db = db} h) =
    release_expired-IsConsistent call org now db (reachable-IsConsistent db h)
reachable-IsConsistent _ (expired call org now {db = db} h) =
    expire_due_lots-IsConsistent call org now db (reachable-IsConsistent db h)
reachable-IsConsistent _ (granted call input {db = db} h) =
    grant_purchased-IsConsistent call input db (reachable-IsConsistent db h)
reachable-IsConsistent _ (frozen call payment event now {db = db} h) =
    freeze_lot-IsConsistent call payment event now db (reachable-IsConsistent db h)
reachable-IsConsistent _ (resolved call payment disposition event now {db = db} h) =
    resolve_dispute-IsConsistent call payment disposition event now db (reachable-IsConsistent db h)
reachable-IsConsistent _ (revoked call payment refunded charged event {db = db} h) =
    revoke_lot-IsConsistent call payment refunded charged event db (reachable-IsConsistent db h)

-- In every state that calls reach, an organization's wallet row shows as available what its active
-- lots have available and what its ledger entries add up to, and as reserved what its lots have
-- reserved.
pub books_agree :
    (db : Db)
    → Reachable db
    → (o : ℕ) (w : CreditWallet) → find_wallet o db ≡ some w
    → (w.available_credits ≡ sum_of (active_amount o) db.lots)
      × (w.reserved_credits ≡ sum_of (reserved_amount o) db.lots)
      × (w.available_credits ≡ ledger_sum o db.entries)
books_agree db h o w found =
    let d = (reachable-IsConsistent db h).balanced o in
    let available = rw found at d.available in
    let reserved = rw found at d.reserved in
    let ledger = rw found at d.ledger in
    (omega (int_laws, available), omega (int_laws, reserved), omega (int_laws, ledger))

lots_nonneg : (db : Db) → IsConsistent db → All (λ lot. pos 0 ≤ℤ lot.credits_reserved) db.lots
lots_nonneg db c =
    All-map _
      (λ lot found.
        reserved_nonneg (lot.id == 0) lot.credits_reserved (c.counted.counts lot.id lot found)
          (sum_of_nonneg (held_amount lot.id) (held_amount_nonneg lot.id) db.reservations))
      (Distinct-find_row lot_id db.lots (c.balanced 0).sound.distinct)
  where
    reserved_nonneg :
        (b : Bool) (x : ℤ) {s : ℤ} → x +ℤ (if b then pos 0 else pos 0) ≡ s → pos 0 ≤ℤ s → pos 0 ≤ℤ x
    reserved_nonneg true x e h = omega int_laws
    reserved_nonneg false x e h = omega int_laws

-- In every state that calls reach, neither the available nor the reserved credits of a lot are
-- negative, and a lot has as many reserved credits as there are held reservations on it.
pub lots_bounded :
    (db : Db)
    → Reachable db
    → (id : ℕ) (lot : CreditLot) → find_lot id db ≡ some lot
    → (pos 0 ≤ℤ row_available lot)
      × (pos 0 ≤ℤ lot.credits_reserved)
      × (lot.credits_reserved ≡ sum_of (held_amount id) db.reservations)
lots_bounded db h id lot found =
    let c = reachable-IsConsistent db h in
    (
      All-find_row lot_id IsSolvent id db.lots lot found (c.balanced 0).sound.solvent,
      All-find_row lot_id _ id db.lots lot found (lots_nonneg db c),
      counted_exactly (id == 0) lot.credits_reserved (c.counted.counts id lot found),
    )
  where
    counted_exactly : (b : Bool) (x : ℤ) {s : ℤ} → x +ℤ (if b then pos 0 else pos 0) ≡ s → x ≡ s
    counted_exactly true x e = omega int_laws
    counted_exactly false x e = omega int_laws

sum_of_nonneg_All :
    {A : Type 0} (amount : A → ℤ) (xs : List A)
    → All (λ x. pos 0 ≤ℤ amount x) xs
    → pos 0 ≤ℤ sum_of amount xs
unfolding sum_of
sum_of_nonneg_All amount [] h = omega int_laws
sum_of_nonneg_All amount (x ∷ xs) h = omega (int_laws, h.0, sum_of_nonneg_All amount xs h.1)

active_nonneg : (o : ℕ) (lot : CreditLot) → IsSolvent lot → pos 0 ≤ℤ active_amount o lot
active_nonneg o lot h = grind int_laws

reserved_amount_nonneg :
    (o : ℕ) (lot : CreditLot) → pos 0 ≤ℤ lot.credits_reserved → pos 0 ≤ℤ reserved_amount o lot
reserved_amount_nonneg o lot h = grind int_laws

-- In every state that calls reach, no wallet is overdrawn: neither its available nor its reserved
-- credits are negative.
pub never_overdrawn :
    (db : Db)
    → Reachable db
    → (o : ℕ) (w : CreditWallet) → find_wallet o db ≡ some w
    → (pos 0 ≤ℤ w.available_credits) × (pos 0 ≤ℤ w.reserved_credits)
never_overdrawn db h o w found =
    let c = reachable-IsConsistent db h in
    let (open_sum, held_sum, _) = books_agree db h o w found in
    let some_left =
      sum_of_nonneg_All (active_amount o) db.lots
        (All-map _ (active_nonneg o) (c.balanced o).sound.solvent) in
    let some_held =
      sum_of_nonneg_All (reserved_amount o) db.lots
        (All-map _ (reserved_amount_nonneg o) (lots_nonneg db c)) in
    (omega (int_laws, open_sum, some_left), omega (int_laws, held_sum, some_held))

-- In every state that calls reach, a session's held reservation stands on a lot of its organization
-- that has a reserved credit for it.
pub hold_has_credit :
    (db : Db)
    → Reachable db
    → (session : ℕ) (q : CreditReservation) → find_reservation session db ≡ some q
    → is_held q.status ≡ true
    → (lot : CreditLot) × (find_lot q.lot_id db ≡ some lot)
      × (lot.organization_id ≡ q.organization_id)
      × (pos 1 ≤ℤ lot.credits_reserved)
hold_has_credit db h session q found held =
    let c = reachable-IsConsistent db h in
    let (lot, there, owner) =
      All-find_row session_id (IsBacked db.lots) session db.reservations q found
        (c.balanced 0).sound.backed in
    (lot, there, owner, held_reserves session q lot db c.counted found held there)
