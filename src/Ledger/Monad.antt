-- ===== src/Ledger/Monad.antt =====
-- Transactions: what the client of the database does in one interactive transaction, the retry of
-- `runTransaction`, and the rules for what a transaction ensures.
pub mod Attempts
use prelude.Base.{
  ℕ, zero, suc, ◌+◌, ◌≡◌, refl, Bool, true, false, if◌then◌else◌, Bool-cases, inl, inr,
}
use mathlib.Core.Path.{subst₂}
use prelude.Ledger.Schema.{Db}

pub data Error : Type 0 where
  missing_credit_wallet : ℕ → Error
  unknown_credit_lot_kind : ℕ → Error
  credit_reservation_organization_mismatch : ℕ → ℕ → Error
  invalid_credit_purchase_amount : ℕ → Error
  -- P2002, P2025 and P2028 of the database client
  unique_violation record_not_found transaction_expired : Error

pub data Result {ℓ} (A : Type ℓ) : Type ℓ where
  ok : A → Result A
  err : Error → Result A

-- Inside a transaction an error loses the state: the database rolls it back.
abbrev pub Tx : Type 0 → Type 0
Tx A = Db → Result (A × Db)

module _ {A : Type 0} where
  abbrev pub pure : A → Tx A
  pure a db = ok (a, db)

  abbrev pub throw : Error → Tx A
  throw e db = err e

  abbrev pub gets : (Db → A) → Tx A
  gets f db = ok (f db, db)

  abbrev pub lift : Result A → Tx A
  lift (ok a) db = ok (a, db)
  lift (err e) db = err e

module _ {A B : Type 0} where
  abbrev pub continue : Result (A × Db) → (A → Tx B) → Result (B × Db)
  continue (ok (a, db)) f = f a db
  continue (err e) f = err e

  infixl 5 ◌>>=◌ ◌>>◌
  abbrev pub ◌>>=◌ : Tx A → (A → Tx B) → Tx B
  ◌>>=◌ m f db = continue (m db) f

  abbrev pub ◌>>◌ : Tx A → Tx B → Tx B
  m >> n = m >>= λ _. n

-- An entry point returns its result beside the committed state, an error too.
abbrev pub Op : Type 0 → Type 0
Op A = Db → Result A × Db

abbrev pub transaction_retry_attempts : ℕ
transaction_retry_attempts = 3

module _ {A : Type 0} where
  abbrev pub commit : Db → Result (A × Db) → Result A × Db
  commit db (ok (a, db')) = (ok a, db')
  commit db (err e) = (err e, db)

  -- The loop of `runTransaction`: `expires n` says that the database expires attempt `n` (P2028).
  attempts : (ℕ → Bool) → Tx A → ℕ → ℕ → Op A
  attempts expires work zero attempt db = (err transaction_expired, db)
  attempts expires work (suc left) attempt db =
      let retry = attempts expires work left (attempt + 1) db in
      if expires attempt then retry else commit db (work db)

  unfoldable pub run_transaction : (ℕ → Bool) → Tx A → Op A
  unfolding attempts
  run_transaction expires work = attempts expires work transaction_retry_attempts 1

  attempts_cases {κ} :
      (P : Result A × Db → Type κ) (expires : ℕ → Bool) (work : Tx A) (left attempt : ℕ) (db : Db)
      → P (err transaction_expired, db)
      → P (commit db (work db))
      → P (attempts expires work left attempt db)
  unfolding attempts
  attempts_cases P expires work zero attempt db lost done = lost
  attempts_cases P expires work (suc left) attempt db lost done =
      elim (Bool-cases (expires attempt)) [
        | inl e ↦ rw e (attempts_cases P expires work left (attempt + 1) db lost done)
        | inr e ↦ rw e done
      ]

  -- A transaction expires and leaves no trace, or it ran once on the state that it found.
  pub run_transaction_cases {κ} :
      (P : Result A × Db → Type κ) (expires : ℕ → Bool) (work : Tx A) (db : Db)
      → P (err transaction_expired, db)
      → P (commit db (work db))
      → P (run_transaction expires work db)
  unfolding run_transaction
  run_transaction_cases P expires work db lost done =
      attempts_cases P expires work transaction_retry_attempts 1 db lost done

-- What holds of the result and the state whenever a transaction does not throw.
pub data Ensures {A : Type 0} (Q : A → Db → Type 0) : Result (A × Db) → Type 0 where
  done : (a : A) (db : Db) → Q a db → Ensures Q (ok (a, db))
  failed : (e : Error) → Ensures Q (err e)

module _ {A : Type 0} {Q : A → Db → Type 0} where
  pub Ensures-if :
      (b : Bool) (m n : Result (A × Db))
      → (b ≡ true → Ensures Q m)
      → (b ≡ false → Ensures Q n)
      → Ensures Q (if b then m else n)
  Ensures-if true m n hm hn = hm refl
  Ensures-if false m n hm hn = hn refl

  pub Ensures-choose :
      (b : Bool) (m n : Tx A) (db : Db)
      → (b ≡ true → Ensures Q (m db))
      → (b ≡ false → Ensures Q (n db))
      → Ensures Q ((if b then m else n) db)
  Ensures-choose true m n db hm hn = hm refl
  Ensures-choose false m n db hm hn = hn refl

  pub Ensures-ok : {r : Result (A × Db)} (a : A) (db : Db) → Ensures Q r → r ≡ ok (a, db) → Q a db
  Ensures-ok a db (done a' db' q) e =
      let first : a' ≡ a = cc in let second : db' ≡ db = cc in subst₂ Q first second q
  Ensures-ok a db (failed e) h = cc

  pub Ensures-bind :
      {B : Type 0} {R : B → Db → Type 0} {r : Result (A × Db)} (f : A → Tx B)
      → Ensures Q r
      → ((a : A) (db : Db) → Q a db → Ensures R (f a db))
      → Ensures R (continue r f)
  Ensures-bind f (done a db q) k = k a db q
  Ensures-bind f (failed e) k = failed e

  pub Ensures-weaken :
      {R : A → Db → Type 0} {r : Result (A × Db)}
      → Ensures Q r
      → ((a : A) (db : Db) → Q a db → R a db)
      → Ensures R r
  Ensures-weaken (done a db q) k = done a db (k a db q)
  Ensures-weaken (failed e) k = failed e

  -- A rule for what a transaction does to the committed state, thrown errors included.
  pub run_transaction_Ensures {κ} :
      (P : Db → Type κ) (expires : ℕ → Bool) (work : Tx A) (db : Db)
      → Ensures Q (work db)
      → P db
      → ((a : A) (db' : Db) → Q a db' → P db')
      → P (run_transaction expires work db).1
  run_transaction_Ensures P expires work db h before after =
      run_transaction_cases (λ s. P s.1) expires work db before (committed (work db) h)
    where
      committed : (r : Result (A × Db)) → Ensures Q r → P (commit db r).1
      committed r (done a db' q) = after a db' q
      committed r (failed e) = before

pub Ensures-both :
    {A : Type 0} {Q R : A → Db → Type 0} {r : Result (A × Db)}
    → Ensures Q r
    → Ensures R r
    → Ensures (λ a db. Q a db × R a db) r
Ensures-both (done a db q) h = done a db (q, Ensures-ok a db h refl)
Ensures-both (failed e) h = failed e

pub Ensures-all :
    {A : Type 0} {Q : ℕ → A → Db → Type 0} (r : Result (A × Db))
    → ((o : ℕ) → Ensures (Q o) r)
    → Ensures (λ a db. (o : ℕ) → Q o a db) r
Ensures-all (ok (a, db)) h = done a db (λ o. Ensures-ok a db (h o) refl)
Ensures-all (err e) h = failed e
