-- ===== src/Ledger/Client.antt =====
-- The calls of the database client that credit-ledger.ts makes, with the unique columns of the
-- tables: `findUnique`, `update` with `where: { id }`, `create`. New rows stand first.
use prelude.Base.{
  ℕ, Bool, false, ◌||◌, Option, none, some, List, [], ◌∷◌, ◌==◌, if◌then◌else◌, any, is_key,
}
use prelude.Ledger.Schema.{Db, CreditWallet, CreditLot, CreditLedgerEntry, CreditReservation}
use prelude.Ledger.Table.{find_row, update_row}
use prelude.Ledger.Monad.{Tx, record_not_found, unique_violation, Result, ok, err}

abbrev pub wallet_org : CreditWallet → ℕ
wallet_org w = w.organization_id

abbrev pub lot_id : CreditLot → ℕ
lot_id lot = lot.id

abbrev pub reservation_id : CreditReservation → ℕ
reservation_id r = r.id

abbrev pub session_id : CreditReservation → ℕ
session_id r = r.candidate_session_id

abbrev pub find_wallet : ℕ → Db → Option CreditWallet
find_wallet org db = find_row wallet_org org db.wallets

abbrev pub find_lot : ℕ → Db → Option CreditLot
find_lot id db = find_row lot_id id db.lots

-- `creditReservation.findUnique({ where: { candidateSessionId } })`
abbrev pub find_reservation : ℕ → Db → Option CreditReservation
find_reservation session db = find_row session_id session db.reservations

-- `creditLot.findUnique({ where: { stripePaymentIntentId } })`
unfoldable pub find_payment : ℕ → List CreditLot → Option CreditLot
find_payment payment [] = none
find_payment payment (lot ∷ lots) =
    if is_key payment lot.stripe_payment_intent_id then some lot else find_payment payment lots

abbrev pub or_not_found : {A : Type 0} → Option A → Tx A
or_not_found none db = err record_not_found
or_not_found (some a) db = ok (a, db)

-- A write to a row that is not there throws.
abbrev pub with_row : {A B : Type 0} → Option A → (A → Result B) → Result B
with_row none f = err record_not_found
with_row (some a) f = f a

unfoldable pub update_wallet : ℕ → (CreditWallet → CreditWallet) → Tx CreditWallet
update_wallet org f db =
    with_row (find_wallet org db)
      (λ w. ok (f w, record db { wallets = update_row wallet_org org f db.wallets }))

unfoldable pub update_lot : ℕ → (CreditLot → CreditLot) → Tx CreditLot
update_lot id f db =
    with_row (find_lot id db)
      (λ lot. ok (f lot, record db { lots = update_row lot_id id f db.lots }))

unfoldable pub update_reservation :
    ℕ → (CreditReservation → CreditReservation) → Tx CreditReservation
update_reservation id f db =
    with_row (find_row reservation_id id db.reservations)
      (λ r. ok (f r, record db { reservations = update_row reservation_id id f db.reservations }))

unfoldable pub create_entry : CreditLedgerEntry → Tx CreditLedgerEntry
create_entry entry db = ok (entry, record db { entries = entry ∷ db.entries })

-- Two nullable unique columns clash when both hold one value.
abbrev same_key : Option ℕ → Option ℕ → Bool
same_key none k = false
same_key (some j) k = is_key j k

abbrev pub clashes : CreditLot → CreditLot → Bool
clashes a b =
    a.id == b.id
    || same_key a.stripe_payment_intent_id b.stripe_payment_intent_id
    || same_key a.stripe_checkout_session_id b.stripe_checkout_session_id
    || same_key a.stripe_invoice_id b.stripe_invoice_id

unfoldable pub create_lot : CreditLot → Tx CreditLot
create_lot lot db =
    if any (clashes lot) db.lots
    then err unique_violation
    else ok (lot, record db { lots = lot ∷ db.lots })

abbrev pub same_wallet : CreditWallet → CreditWallet → Bool
same_wallet w v = v.id == w.id || v.organization_id == w.organization_id

unfoldable pub create_wallet : CreditWallet → Tx CreditWallet
create_wallet w db =
    if any (same_wallet w) db.wallets
    then err unique_violation
    else ok (w, record db { wallets = w ∷ db.wallets })

abbrev pub same_reservation : CreditReservation → CreditReservation → Bool
same_reservation r q = q.id == r.id || q.candidate_session_id == r.candidate_session_id

unfoldable pub create_reservation : CreditReservation → Tx CreditReservation
create_reservation r db =
    if any (same_reservation r) db.reservations
    then err unique_violation
    else ok (r, record db { reservations = r ∷ db.reservations })
