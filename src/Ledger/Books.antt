-- ===== src/Ledger/Books.antt =====
-- The books of an organization: what the wallet row says, what the lots and the ledger entries say,
-- and how each call of the database client moves them.
use prelude.Base.{ℕ, ◌≡◌, refl, Option, none, some, ◌==◌, if◌then◌else◌}
use prelude.Base.Int.{ℤ, pos, ◌+ℤ◌, int_laws}
use prelude.CreditLots.{active}
use prelude.Ledger.Schema.{Db, CreditWallet, CreditLot, CreditLedgerEntry, has_status}
use prelude.Ledger.Table.{sum_of}
use prelude.Ledger.Monad.{Ensures, done}
use prelude.Ledger.Client.{find_wallet, create_entry}
use prelude.Ledger.Sound.{Sound, row_available}
use prelude.Ledger.Audit.{ledger_sum}

-- An amount that counts for organization `o` only if it is `org`'s.
abbrev pub at : ℕ → ℕ → ℤ → ℤ
at o org x = if org == o then x else pos 0

-- What a lot of any organization offers while its status is active.
abbrev pub active_available : CreditLot → ℤ
active_available lot = if has_status active lot.status then row_available lot else pos 0

abbrev pub active_amount : ℕ → CreditLot → ℤ
active_amount o lot = at o lot.organization_id (active_available lot)

abbrev pub reserved_amount : ℕ → CreditLot → ℤ
reserved_amount o lot = at o lot.organization_id lot.credits_reserved

abbrev pub wallet_amount : (CreditWallet → ℤ) → Option CreditWallet → ℤ
wallet_amount f none = pos 0
wallet_amount f (some w) = f w

abbrev pub wallet_available : ℕ → Db → ℤ
wallet_available o db = wallet_amount (λ w. w.available_credits) (find_wallet o db)

abbrev pub wallet_reserved : ℕ → Db → ℤ
wallet_reserved o db = wallet_amount (λ w. w.reserved_credits) (find_wallet o db)

-- The wallet of `o` is short of its active lots by `a`, of its held credits by `r`, and of its ledger
-- entries by `e`; the tables are sound.
pub record Drift (o : ℕ) (a r e : ℤ) (db : Db) : Type 0 where
  pub available : wallet_available o db +ℤ a ≡ sum_of (active_amount o) db.lots
  pub reserved : wallet_reserved o db +ℤ r ≡ sum_of (reserved_amount o) db.lots
  pub ledger : wallet_available o db +ℤ e ≡ ledger_sum o db.entries
  pub sound : Sound db.lots db.reservations

module _ (o : ℕ) {a r e : ℤ} where
  pub Drift-shift :
      (a' r' e' : ℤ) {db : Db} → Drift o a r e db → a ≡ a' → r ≡ r' → e ≡ e' → Drift o a' r' e' db
  Drift-shift a' r' e' d ea er ee = record {
    available = rw (← ea) d.available;
    reserved = rw (← er) d.reserved;
    ledger = rw (← ee) d.ledger;
    sound = d.sound;
  }

  pub create_entry-Drift :
      (entry : CreditLedgerEntry) (db : Db)
      → Drift o a r e db
      → Ensures
          (λ _ db'.
            (db'.lots ≡ db.lots) × Drift o a r (e +ℤ at o entry.organization_id entry.delta) db')
          (create_entry entry db)
  unfolding create_entry ledger_sum
  create_entry-Drift entry db d = done _ _ (
    refl,
    record {
      available = d.available;
      reserved = d.reserved;
      ledger = omega (int_laws, d.ledger);
      sound = d.sound;
    },
  )
