-- ===== src/Sessions/Admission.antt =====
-- apps/candidate/src/server/billing-admission.ts: a session starts or resumes with what the workspace's
-- plan allows, or with a credit of the ledger. The `row` of a start is the one that the caller asks
-- for, with the id that the database gives it and the organization of the input. The logs have no part in it.
pub mod Usage
pub mod Limit
pub mod Reserved
use prelude.Base.{
  ℕ, zero, suc, Bool, true, false, not, Option, none, some, List, [], ◌∷◌, ◌==◌, ◌&&◌, ◌||◌, leb,
  ltb, if◌then◌else◌, filter, length,
}
use prelude.BillingPolicy.{WorkspaceBilling, candidate_interviews, recording}
use prelude.BillingPolicy.Entitlement.{
  WorkspaceEntitlementDecision, allowed, denied, EntitlementCode, usage_limit_reached,
  evaluate_workspace_entitlement,
}
use prelude.BillingPolicy.Limits.{is_allowed}
use prelude.BillingPolicy.Period.{BillingUsagePeriod, resolve_billing_usage_period}
use prelude.Ledger.Wallet.{Call}
use prelude.Ledger.Reservations.{
  ReserveCreditResult, reserved, no_credits_available, reserve_credit_for_session,
}
use prelude.Sessions.{
  CandidateSession, SessionStatus, failed, Store, SessionError, serialization_conflict, Outcome,
  returned, thrown, Job, return, on_ledger, unless_fault, ◌>>=◌, proceed, find_session, session_key,
  update_session,
}

pub data AdmissionError : Type 0 where
  candidate_interview_limit_reached billing_unavailable : AdmissionError

pub data AdmissionResult : Type 0 where
  admitted : CandidateSession → AdmissionResult
  refused : AdmissionError → AdmissionResult

-- Which of the database's own calls fail, the serialization conflicts by attempt.
pub record AdmissionFaults : Type 0 where
  pub conflicts : ℕ → Bool
  pub create_session : Option SessionError
  pub update_session : Option SessionError
  pub delete_session : Option SessionError

abbrev pub is_failed : SessionStatus → Bool
is_failed failed = true
is_failed _ = false

abbrev pub is_some_id : Option ℕ → Bool
is_some_id none = false
is_some_id (some id) = true

abbrev pub in_period : BillingUsagePeriod → Option ℕ → Bool
in_period period none = false
in_period period (some started_at) = leb period.start started_at && ltb started_at period.end

-- The `where` of the count.
abbrev pub is_counted : ℕ → BillingUsagePeriod → CandidateSession → Bool
is_counted org period row =
    row.organization_id == org
    && in_period period row.started_at
    && (not (is_failed row.status) || is_some_id row.realtime_session_id)

unfoldable pub count_usage : ℕ → BillingUsagePeriod → List CandidateSession → ℕ
count_usage org period rows = length (filter (is_counted org period) rows)

abbrev pub entitle : WorkspaceBilling → CandidateSession → CandidateSession
entitle billing row = record row {
  recording_entitled = is_allowed (evaluate_workspace_entitlement billing recording 0);
}

abbrev pub add_session : CandidateSession → Store → Store
add_session row s = record s { sessions = row ∷ s.sessions }

unfoldable pub create_session : AdmissionFaults → CandidateSession → Job CandidateSession
create_session faults row =
    unless_fault faults.create_session λ s. (returned row, add_session row s)

abbrev pub error_of : EntitlementCode → AdmissionError
error_of usage_limit_reached = candidate_interview_limit_reached
error_of _ = billing_unavailable

unfoldable pub admit_entitled :
    AdmissionFaults
    → WorkspaceBilling
    → CandidateSession
    → WorkspaceEntitlementDecision
    → Job AdmissionResult
unfolding create_session
admit_entitled faults billing row (denied code limit usage) = return (refused (error_of code))
admit_entitled faults billing row (allowed limit usage) =
    create_session faults (entitle billing row) >>= λ session. return (admitted session)

-- The count, the decision and the row, in one transaction.
unfoldable pub admit_tx :
    AdmissionFaults → WorkspaceBilling → BillingUsagePeriod → CandidateSession → Job AdmissionResult
unfolding admit_entitled count_usage
admit_tx faults billing period row s =
    let usage = count_usage row.organization_id period s.sessions in
    admit_entitled faults billing row
      (evaluate_workspace_entitlement billing candidate_interviews usage) s

-- An attempt that ended: an error rolls it back, and a serialization conflict (P2034) is tried again.
abbrev pub conclude_attempt :
    {A : Type 0} → Store → Outcome A × Store → Outcome A × Store → Outcome A × Store
conclude_attempt s again (returned a, s') = (returned a, s')
conclude_attempt s again (thrown serialization_conflict, s') = again
conclude_attempt s again (thrown e, s') = (thrown e, s)

-- `runSerializable`, with the attempts that are left; `conflicts` are those that end in a conflict when
-- they commit. The last conflict is thrown.
unfoldable pub run_serializable : {A : Type 0} → (ℕ → Bool) → ℕ → ℕ → Job A → Job A
run_serializable conflicts zero attempt job s = (thrown serialization_conflict, s)
run_serializable conflicts (suc left) attempt job s =
    let again = run_serializable conflicts left (suc attempt) job s in
    if conflicts attempt then again else conclude_attempt s again (job s)

abbrev pub drop_session : ℕ → Store → Store
drop_session id s = record s {
  sessions = filter (λ (row : CandidateSession). not (row.id == id)) s.sessions;
}

-- Best effort: an error of the delete is swallowed.
unfoldable pub delete_orphaned_session : AdmissionFaults → ℕ → Store → Store
delete_orphaned_session faults id s = deleted faults.delete_session
  where
    deleted : Option SessionError → Store
    deleted none = drop_session id s
    deleted (some e) = s

-- What follows the reservation of a new session: a refusal and an error take the session away.
unfoldable pub conclude_reservation :
    AdmissionFaults
    → CandidateSession
    → Outcome ReserveCreditResult × Store
    → Outcome AdmissionResult × Store
unfolding delete_orphaned_session
conclude_reservation faults session (returned (reserved id), s) = (returned (admitted session), s)
conclude_reservation faults session (returned no_credits_available, s) = (
  returned (refused candidate_interview_limit_reached),
  delete_orphaned_session faults session.id s,
)
conclude_reservation faults session (thrown e, s) =
    (thrown e, delete_orphaned_session faults session.id s)

unfoldable pub create_credit_backed_candidate_session :
    AdmissionFaults → Call → WorkspaceBilling → CandidateSession → ℕ → Job AdmissionResult
unfolding conclude_reservation create_session
create_credit_backed_candidate_session faults call billing row now =
    create_session faults (entitle billing row) >>= λ session s.
    conclude_reservation faults session
      (on_ledger (reserve_credit_for_session call session.organization_id session.id now) s)

-- `enabled` is isCreditBillingEnabled(), `billing` what `loadBilling` answers.
unfoldable pub create_entitled_candidate_session :
    Bool
    → AdmissionFaults
    → Call
    → Outcome WorkspaceBilling
    → CandidateSession
    → ℕ
    → Job AdmissionResult
unfolding create_credit_backed_candidate_session run_serializable admit_tx
create_entitled_candidate_session enabled faults call (thrown e) row now s = (thrown e, s)
create_entitled_candidate_session true faults call (returned billing) row now s =
    create_credit_backed_candidate_session faults call billing row now s
create_entitled_candidate_session false faults call (returned billing) row now s =
    run_serializable faults.conflicts 3 0
      (admit_tx faults billing (resolve_billing_usage_period billing now) row) s

abbrev pub resume :
    AdmissionFaults → ℕ → (CandidateSession → CandidateSession) → Job AdmissionResult
resume faults id change =
    unless_fault faults.update_session (update_session id change) >>= λ session.
    return (admitted session)

abbrev pub resume_reserved :
    AdmissionFaults
    → ℕ
    → (CandidateSession → CandidateSession)
    → ReserveCreditResult
    → Job AdmissionResult
resume_reserved faults id change (reserved reservation) = resume faults id change
resume_reserved faults id change no_credits_available =
    return (refused candidate_interview_limit_reached)

-- `change` is the update that the caller asks for.
unfoldable pub resume_entitled_candidate_session :
    Bool
    → AdmissionFaults
    → Call
    → ℕ
    → ℕ
    → (CandidateSession → CandidateSession)
    → ℕ
    → Job AdmissionResult
resume_entitled_candidate_session false faults call org id change now = resume faults id change
resume_entitled_candidate_session true faults call org id change now =
    on_ledger (reserve_credit_for_session call org id now) >>= resume_reserved faults id change
