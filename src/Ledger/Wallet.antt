-- ===== src/Ledger/Wallet.antt =====
-- Rows narrowed to snapshots, the wallet lock, and the wallet's creation with its free credits.
use prelude.Base.{ℕ, ◌+◌, ◌*◌, Bool, Option, none, some, List, [], ◌∷◌, ◌==◌, filter, ◌&&◌}
use prelude.Base.Int.{ℤ, pos}
use prelude.CreditLots.{
  CreditLotSnapshot, LotKind, LotStatus, free, active, revoked, available_in_lot,
}
use prelude.Ledger.Schema.{
  Db, CreditWallet, CreditLot, CreditLedgerEntry, Column, known, unknown, has_status, LotSource,
  EntryType, system, Reason,
}
use prelude.Ledger.Monad.{
  Tx, Op, missing_credit_wallet, unknown_credit_lot_kind, unique_violation, record_not_found,
  Result, ok, err, pure, throw, gets, lift, ◌>>=◌, ◌>>◌, run_transaction,
}
use prelude.Ledger.Client.{find_wallet, create_wallet, create_lot, create_entry}

-- What the outside supplies to one call: the committed state that its reads outside a transaction
-- see, the attempts of its transactions that the database expires, and the ids of new rows.
pub record Call : Type 0 where
  pub seen : Db
  pub ensure_expires : ℕ → Bool
  pub expires : ℕ → Bool
  pub wallet_id : ℕ
  pub free_lot_id : ℕ
  pub new_id : ℕ

abbrev pub first_five_credits : ℤ
first_five_credits = pos 5

abbrev pub first_five_expiry_days : ℕ
first_five_expiry_days = 30

abbrev pub paid_credit_expiry_days : ℕ
paid_credit_expiry_days = 365

abbrev pub day_ms : ℕ
day_ms = 24 * 60 * 60 * 1000

unfoldable pub to_lot_kind : ℕ → Column LotKind → Result LotKind
to_lot_kind id (known kind) = ok kind
to_lot_kind id (unknown text) = err (unknown_credit_lot_kind id)

unfoldable pub to_lot_status : Column LotStatus → LotStatus
to_lot_status (known status) = status
to_lot_status (unknown text) = revoked

abbrev pub snapshot_of : CreditLot → Result LotKind → Result CreditLotSnapshot
snapshot_of row (err e) = err e
snapshot_of row (ok kind) = ok (record {
  id = row.id;
  kind = kind;
  status = to_lot_status row.status;
  credits_granted = row.credits_granted;
  credits_consumed = row.credits_consumed;
  credits_reserved = row.credits_reserved;
  granted_at = row.granted_at;
  expires_at = row.expires_at;
})

unfoldable pub to_lot_snapshot : CreditLot → Result CreditLotSnapshot
unfolding to_lot_kind
to_lot_snapshot row = snapshot_of row (to_lot_kind row.id row.kind)

-- `availableInLot(toLotSnapshot(row))`, which throws on an unknown kind.
abbrev pub available_in_row : CreditLot → Tx ℤ
available_in_row row = do snapshot ← lift (to_lot_snapshot row); pure (available_in_lot snapshot)

-- `rows.map(toLotSnapshot)` throws at the first row that it cannot narrow.
abbrev pub cons_snapshot :
    Result CreditLotSnapshot → Result (List CreditLotSnapshot) → Result (List CreditLotSnapshot)
cons_snapshot (err e) rest = err e
cons_snapshot (ok lot) (err e) = err e
cons_snapshot (ok lot) (ok lots) = ok (lot ∷ lots)

unfoldable pub to_lot_snapshots : List CreditLot → Result (List CreditLotSnapshot)
to_lot_snapshots [] = ok []
to_lot_snapshots (row ∷ rows) = cons_snapshot (to_lot_snapshot row) (to_lot_snapshots rows)

abbrev pub try_lock_wallet : ℕ → Tx (Option CreditWallet)
try_lock_wallet org = gets (find_wallet org)

abbrev pub locked_wallet : ℕ → Option CreditWallet → Tx CreditWallet
locked_wallet org none = throw (missing_credit_wallet org)
locked_wallet org (some w) = pure w

unfoldable pub lock_wallet : ℕ → Tx CreditWallet
lock_wallet org = try_lock_wallet org >>= locked_wallet org

unfoldable pub run_in_wallet_transaction : {A : Type 0} → (ℕ → Bool) → ℕ → Tx A → Op A
unfolding lock_wallet
run_in_wallet_transaction expires org work = run_transaction expires (lock_wallet org >> work)

unfoldable pub load_lots : ℕ → Tx (List CreditLotSnapshot)
load_lots org db =
    lift
      (to_lot_snapshots
        (filter (λ lot. lot.organization_id == org && has_status active lot.status) db.lots))
      db

unfoldable pub new_wallet : Call → ℕ → CreditWallet
new_wallet call org = record {
  id = call.wallet_id;
  organization_id = org;
  available_credits = first_five_credits;
  reserved_credits = pos 0;
  settlement_currency = none;
}

abbrev pub free_lot : Call → ℕ → ℕ → ℕ → CreditLot
free_lot call org now days = record {
  id = call.free_lot_id;
  organization_id = org;
  kind = known free;
  source = LotSource.first_five;
  pack_id = none;
  credits_granted = first_five_credits;
  credits_consumed = pos 0;
  credits_reserved = pos 0;
  unit_amount_cents = none;
  currency = b'E' ∷ b'U' ∷ b'R' ∷ [];
  billing_country = none;
  status = known active;
  granted_at = now;
  expires_at = now + days * day_ms;
  frozen_at = none;
  stripe_payment_intent_id = none;
  stripe_checkout_session_id = none;
  stripe_invoice_id = none;
}

abbrev pub grant_entry : Call → ℕ → CreditLedgerEntry
grant_entry call org = record {
  organization_id = org;
  lot_id = call.free_lot_id;
  type = EntryType.free_grant;
  delta = first_five_credits;
  candidate_session_id = none;
  stripe_event_id = none;
  actor_kind = system;
  reason = some Reason.first_five;
}

-- The transaction of `ensureWallet` checks once more under the lock.
unfoldable pub create_if_absent : Call → ℕ → ℕ → ℕ → Option CreditWallet → Tx ℕ
unfolding new_wallet
create_if_absent call org now days (some locked) = pure locked.id
create_if_absent call org now days none = do
  wallet ← create_wallet (new_wallet call org)
  create_lot (free_lot call org now days)
  create_entry (grant_entry call org)
  pure wallet.id

unfoldable pub ensure_wallet_tx : Call → ℕ → ℕ → ℕ → Tx ℕ
unfolding create_if_absent
ensure_wallet_tx call org now days = try_lock_wallet org >>= create_if_absent call org now days

abbrev pub winner : Db → Option CreditWallet → Result ℕ × Db
winner db (some w) = (ok w.id, db)
winner db none = (err record_not_found, db)

-- The `catch`: the loser of a concurrent creation returns the winner's wallet.
unfoldable pub recover_wallet : ℕ → Result ℕ × Db → Result ℕ × Db
recover_wallet org (err unique_violation, db) = winner db (find_wallet org db)
recover_wallet org other = other

unfoldable pub ensure_unless : Call → ℕ → ℕ → ℕ → Option CreditWallet → Op ℕ
unfolding ensure_wallet_tx recover_wallet
ensure_unless call org now days (some existing) db = (ok existing.id, db)
ensure_unless call org now days none db =
    recover_wallet org (run_transaction call.ensure_expires (ensure_wallet_tx call org now days) db)

unfoldable pub ensure_wallet : Call → ℕ → ℕ → ℕ → Op ℕ
unfolding ensure_unless
ensure_wallet call org now days = ensure_unless call org now days (find_wallet org call.seen)

-- An error of `ensureWallet` ends the call; its wallet stays when the rest of the call fails.
abbrev pub after_ensure : {A : Type 0} → Op A → Result ℕ × Db → Result A × Db
after_ensure work (ok wallet, db) = work db
after_ensure work (err e, db) = (err e, db)
