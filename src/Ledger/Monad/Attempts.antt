-- ===== src/Ledger/Monad/Attempts.antt =====
-- The retry of `runTransaction`.
use prelude.Base.{ℕ, ◌≡◌, refl, Bool, ◌&&◌, if◌then◌else◌, Bool-cases, inl, inr}
use prelude.Ledger.Schema.{Db}
use prelude.Ledger.Monad.{Tx, err, transaction_expired, commit, run_transaction, attempts}

-- A transaction fails as expired, and leaves the state, exactly when the database expires all three
-- attempts; otherwise its work runs on the state that was found, and is committed once.
pub run_transaction_once :
    {A : Type 0} (expires : ℕ → Bool) (work : Tx A) (db : Db)
    → run_transaction expires work db ≡ (
        if expires 1 && expires 2 && expires 3
        then (err transaction_expired, db)
        else commit db (work db))
unfolding run_transaction attempts
run_transaction_once expires work db = elim (Bool-cases (expires 1)) [
  | inr e ↦ rw e refl
  | inl e ↦ rw e (elim (Bool-cases (expires 2)) [
    | inr f ↦ rw f refl
    | inl f ↦ rw f (elim (Bool-cases (expires 3)) [ inr g ↦ rw g refl | inl g ↦ rw g refl ])
  ])
]
