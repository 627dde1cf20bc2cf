-- ===== src/Sessions/Admission/Reserved.antt =====
-- What an admission by a credit does to the sessions and to the ledger.
use prelude.Base.{ℕ, ◌≡◌, ◌∷◌}
use prelude.BillingPolicy.{WorkspaceBilling}
use prelude.Ledger.Monad.{Op, ok}
use prelude.Ledger.Wallet.{Call}
use prelude.Ledger.Reservations.{
  ReserveCreditResult, reserved, no_credits_available, reserve_credit_for_session,
}
use prelude.Sessions.{CandidateSession, Store, Outcome, returned, thrown}
use prelude.Sessions.Admission.{
  AdmissionResult, candidate_interview_limit_reached, admitted, refused, entitle,
}

-- The call of the ledger that reserves a credit for a new session.
abbrev pub reserve_for : Call → CandidateSession → ℕ → Op ReserveCreditResult
reserve_for call row now = reserve_credit_for_session call row.organization_id row.id now

-- An admitted session holds a credit that the ledger reserved for it; a session without one is refused, and
-- leaves no row behind, as an error leaves none.
abbrev pub IsReserved :
    Call
    → WorkspaceBilling
    → CandidateSession
    → ℕ
    → Store
    → Outcome AdmissionResult × Store
    → Type 0
IsReserved call billing row now s (returned (admitted session), s') =
    (session ≡ entitle billing row)
    × (s'.sessions ≡ entitle billing row ∷ s.sessions)
    × (s'.db ≡ (reserve_for call row now s.db).1)
    × (reservation : ℕ) × ((reserve_for call row now s.db).0 ≡ ok (reserved reservation))
IsReserved call billing row now s (returned (refused e), s') =
    (e ≡ candidate_interview_limit_reached)
    × (s'.sessions ≡ s.sessions)
    × (s'.db ≡ (reserve_for call row now s.db).1)
    × ((reserve_for call row now s.db).0 ≡ ok no_credits_available)
IsReserved call billing row now s (thrown e, s') = s'.sessions ≡ s.sessions
