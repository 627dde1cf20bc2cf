-- ===== src/Sessions/Keeps.antt =====
-- What a job keeps: the ledger, over the calls of the database.
use prelude.Base.{ℕ, ◌≡◌, refl, Option, none, some}
use prelude.Sessions.{
  CandidateSession, Store, SessionError, Outcome, returned, thrown, Job, proceed, unless_fault,
  find_session, update_session, updated,
}

module _ {A B : Type 0} where
  pub proceed-inv {κ} :
      (P : Store → Type κ) (r : Outcome A × Store) (f : A → Job B)
      → P r.1
      → ((a : A) (s : Store) → P s → P (f a s).1)
      → P (proceed r f).1
  proceed-inv P (returned a, s) f h k = k a s h
  proceed-inv P (thrown e, s) f h k = h

pub unless_fault-db :
    {A : Type 0} (fault : Option SessionError) (job : Job A) (s : Store)
    → (job s).1.db ≡ s.db
    → (unless_fault fault job s).1.db ≡ s.db
unless_fault-db none job s h = h
unless_fault-db (some e) job s h = refl

pub update_session-db :
    (id : ℕ) (change : CandidateSession → CandidateSession) (s : Store)
    → (update_session id change s).1.db ≡ s.db
unfolding update_session
update_session-db id change s = found (find_session id s.sessions)
  where
    found : (row : Option CandidateSession) → (updated id change row s).1.db ≡ s.db
    found none = refl
    found (some row) = refl
