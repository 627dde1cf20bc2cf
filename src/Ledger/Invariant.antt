-- ===== src/Ledger/Invariant.antt =====
-- The invariant of the credit tables, and that a committed wallet transaction keeps it.
pub mod Samples
pub mod Calls
pub mod Exits
pub mod Capturable
mod Tests
pub mod Reachable
use prelude.Base.{ℕ, ◌≡◌, refl, Bool, Option, none, some, All}
use prelude.Base.Int.{ℤ, pos}
use prelude.Ledger.Schema.{Db, CreditWallet}
use prelude.Ledger.Table.{Distinct}
use prelude.Ledger.Monad.{
  Tx, Op, Result, ok, err, Ensures, done, failed, Ensures-bind, Ensures-both, Ensures-all,
  Ensures-weaken, run_transaction, run_transaction_Ensures,
}
use prelude.Ledger.Client.{reservation_id, find_wallet}
use prelude.Ledger.Sound.{IsBacked}
use prelude.Ledger.Books.{Drift}
use prelude.Ledger.Holds.{IsCounted}
use prelude.Ledger.Wallet.{lock_wallet, locked_wallet, run_in_wallet_transaction}

abbrev pub IsBalanced : ℕ → Db → Type 0
IsBalanced o db = Drift o (pos 0) (pos 0) (pos 0) db

-- For every organization the wallet row agrees with the lots and with the ledger entries, and every
-- lot's reserved credits are its held reservations.
pub record IsConsistent (db : Db) : Type 0 where
  pub balanced : (o : ℕ) → IsBalanced o db
  pub counted : IsCounted db

module _ {db : Db} (c : IsConsistent db) where
  pub backed : All (IsBacked db.lots) db.reservations
  backed = (c.balanced 0).sound.backed

  pub distinct : Distinct reservation_id db.reservations
  distinct = (c.balanced 0).sound.unique

pub consistently :
    {A : Type 0} (r : Result (A × Db))
    → ((o : ℕ) → Ensures (λ _ db'. IsBalanced o db') r)
    → Ensures (λ _ db'. IsCounted db') r
    → Ensures (λ _ db'. IsConsistent db') r
consistently r balanced counted =
    Ensures-weaken (Ensures-both (Ensures-all r balanced) counted)
      λ _ _ h. record { balanced = h.0; counted = h.1 }

pub run_transaction-IsConsistent :
    {A : Type 0} (expires : ℕ → Bool) (work : Tx A) (db : Db)
    → IsConsistent db
    → Ensures (λ _ db'. IsConsistent db') (work db)
    → IsConsistent (run_transaction expires work db).1
run_transaction-IsConsistent expires work db c h =
    run_transaction_Ensures IsConsistent expires work db h c λ _ _ k. k

-- The lock reads the wallet's row and changes nothing.
lock_wallet-Ensures : (org : ℕ) (db : Db) → Ensures (λ w db'. db' ≡ db) (lock_wallet org db)
unfolding lock_wallet
lock_wallet-Ensures org db = locked (find_wallet org db)
  where
    locked :
        (found : Option CreditWallet) → Ensures (λ w db'. db' ≡ db) (locked_wallet org found db)
    locked none = failed _
    locked (some w) = done _ _ refl

pub run_in_wallet_transaction-IsConsistent :
    {A : Type 0} (expires : ℕ → Bool) (org : ℕ) (work : Tx A) (db : Db)
    → IsConsistent db
    → Ensures (λ _ db'. IsConsistent db') (work db)
    → IsConsistent (run_in_wallet_transaction expires org work db).1
unfolding run_in_wallet_transaction
run_in_wallet_transaction-IsConsistent expires org work db c h =
    run_transaction-IsConsistent expires _ db c
      (Ensures-bind _ (lock_wallet-Ensures org db) λ w db' same. rw same h)
