-- ===== src/Sessions/Admission/Limit.antt =====
-- What an admission by the plan does to the sessions and to the counted usage.
use prelude.Base.{
  leb, ℕ, zero, suc, ◌≡◌, ◌≤◌, ◌⊎◌, ◌↔◌, refl, inl, inr, Bool, true, false, Option, none, some,
  List, ◌∷◌, Bool-cases, arith,
}
use prelude.BillingPolicy.{recording, WorkspaceBilling, candidate_interviews}
use prelude.BillingPolicy.Entitlement.{
  limit_for, WorkspaceEntitlementDecision, allowed, denied, is_unconfigured,
  evaluate_workspace_entitlement,
}
use prelude.BillingPolicy.Limits.{is_allowed, allowed_iff}
use prelude.BillingPolicy.Period.{BillingUsagePeriod, resolve_billing_usage_period}
use prelude.Ledger.Wallet.{Call}
use prelude.Sessions.{
  CandidateSession, Store, SessionError, ledger, database, record_not_found, serialization_conflict,
  Outcome, returned, thrown, proceed, unless_fault,
}
use prelude.Sessions.Admission.Usage.{Counts, IsCount, count_usage-IsCount}
use prelude.Sessions.Admission.{
  AdmissionError, candidate_interview_limit_reached, billing_unavailable, error_of, AdmissionResult,
  admitted, refused, AdmissionFaults, is_counted, count_usage, entitle, add_session, create_session,
  admit_entitled, admit_tx, conclude_attempt, run_serializable, create_entitled_candidate_session,
}

-- A row more counts at most one more.
count_usage-add :
    (org : ℕ) (period : BillingUsagePeriod) (row : CandidateSession) (rows : List CandidateSession)
    → count_usage org period (row ∷ rows) ≤ suc (count_usage org period rows)
unfolding count_usage
count_usage-add org period row rows = elim (Bool-cases (is_counted org period row)) [
  | inl e ↦ rw e (omega arith)
  | inr e ↦ rw e (omega arith)
]

-- The plan has a place for what it admits, and the counted usage stays within the plan's limit.
abbrev pub IsWithin : WorkspaceBilling → ℕ → Type 0
IsWithin billing usage =
    (is_unconfigured billing.state ≡ true)
    ⊎ ((billing.access_allowed ≡ true) × (usage ≤ billing.entitlements.candidate_interview_limit))

-- The limit is reached, or the access is not allowed.
abbrev pub IsRefusal : WorkspaceBilling → ℕ → AdmissionError → Type 0
IsRefusal billing usage candidate_interview_limit_reached =
    (is_unconfigured billing.state ≡ false)
    × (billing.access_allowed ≡ true)
    × (billing.entitlements.candidate_interview_limit ≤ usage)
IsRefusal billing usage billing_unavailable =
    (is_unconfigured billing.state ≡ false) × (billing.access_allowed ≡ false)

-- What a decision on the interviews says.
abbrev Judges : WorkspaceBilling → ℕ → WorkspaceEntitlementDecision → Type 0
Judges billing usage (allowed limit seen) = Unit
Judges billing usage (denied code limit seen) = IsRefusal billing usage (error_of code)

evaluate-Judges :
    (billing : WorkspaceBilling) (usage : ℕ)
    → Judges billing usage (evaluate_workspace_entitlement billing candidate_interviews usage)
unfolding evaluate_workspace_entitlement limit_for
evaluate-Judges billing usage = elim (Bool-cases (is_unconfigured billing.state)) [
  | inl e ↦ rw e tt
  | inr e ↦ elim (Bool-cases billing.access_allowed) [
    | inr f ↦ rw (e, f) (e, refl)
    | inl f ↦ elim (Bool-cases (leb billing.entitlements.candidate_interview_limit usage)) [
      | inl g ↦ rw (e, f, g) (e, refl, ground arith)
      | inr g ↦ rw (e, f, g) tt
    ]
  ]
]

-- The session that is asked for, whose recording is entitled exactly when no billing is configured or the
-- access is allowed and the plan has recordings.
abbrev pub IsEntitledRow : WorkspaceBilling → CandidateSession → CandidateSession → Type 0
IsEntitledRow billing row session =
    (session ≡ record row { recording_entitled = session.recording_entitled })
    × ((session.recording_entitled ≡ true) ↔ (
        (is_unconfigured billing.state ≡ true)
        ⊎ ((billing.access_allowed ≡ true) × (billing.entitlements.recording ≡ true))))

entitle-IsEntitledRow :
    (billing : WorkspaceBilling) (row : CandidateSession)
    → IsEntitledRow billing row (entitle billing row)
entitle-IsEntitledRow billing row = (refl, allowed_iff billing recording 0)

-- An admission leaves one more session, within the plan; a refusal and an error leave the store as it was.
abbrev pub IsAdmission :
    WorkspaceBilling
    → BillingUsagePeriod
    → CandidateSession
    → Store
    → Outcome AdmissionResult × Store
    → Type 0
IsAdmission billing period row s (returned (admitted session), s') =
    IsEntitledRow billing row session
    × (s' ≡ record s { sessions = session ∷ s.sessions })
    × (usage : ℕ) × IsCount (Counts row.organization_id period) s'.sessions usage
    × IsWithin billing usage
IsAdmission billing period row s (returned (refused e), s') =
    (s' ≡ s)
    × (usage : ℕ) × IsCount (Counts row.organization_id period) s.sessions usage
    × IsRefusal billing usage e
IsAdmission billing period row s (thrown e, s') = s' ≡ s

module _ (faults : AdmissionFaults) (billing : WorkspaceBilling) (period : BillingUsagePeriod)
    (row : CandidateSession) (s : Store) where
  allowed-IsWithin :
      is_allowed (
          evaluate_workspace_entitlement billing candidate_interviews
            (count_usage row.organization_id period s.sessions))
        ≡ true
      → IsWithin billing (count_usage row.organization_id period (entitle billing row ∷ s.sessions))
  allowed-IsWithin h =
      elim ((allowed_iff billing candidate_interviews
          (count_usage row.organization_id period s.sessions)).0
        h) [
          | inl e ↦ inl e
          | inr (access, below) ↦
              let more =
                count_usage-add row.organization_id period (entitle billing row) s.sessions in
              inr (access, omega arith)
        ]

  admit_entitled-IsAdmission :
      (decision : WorkspaceEntitlementDecision)
      → (is_allowed decision ≡ true
          → IsWithin billing
              (count_usage row.organization_id period (entitle billing row ∷ s.sessions)))
      → Judges billing (count_usage row.organization_id period s.sessions) decision
      → IsAdmission billing period row s (admit_entitled faults billing row decision s)
  unfolding admit_entitled create_session
  admit_entitled-IsAdmission (denied code limit usage) h refusal = (
    refl,
    count_usage row.organization_id period s.sessions,
    count_usage-IsCount row.organization_id period s.sessions,
    refusal,
  )
  admit_entitled-IsAdmission (allowed limit usage) h _ = created faults.create_session
    where
      created :
          (fault : Option SessionError)
          → IsAdmission billing period row s (
              proceed
                (unless_fault fault
                  (λ s. (returned (entitle billing row), add_session (entitle billing row) s))
                  s)
                (λ session s. (returned (admitted session), s)))
      created none = (
        entitle-IsEntitledRow billing row,
        refl,
        count_usage row.organization_id period (entitle billing row ∷ s.sessions),
        count_usage-IsCount row.organization_id period (entitle billing row ∷ s.sessions),
        h refl,
      )
      created (some e) = refl

  admit_tx-IsAdmission : IsAdmission billing period row s (admit_tx faults billing period row s)
  unfolding admit_tx
  admit_tx-IsAdmission =
      let usage = count_usage row.organization_id period s.sessions in
      admit_entitled-IsAdmission (evaluate_workspace_entitlement billing candidate_interviews usage)
        allowed-IsWithin (evaluate-Judges billing usage)

  conclude_attempt-IsAdmission :
      (again r : Outcome AdmissionResult × Store)
      → IsAdmission billing period row s again
      → IsAdmission billing period row s r
      → IsAdmission billing period row s (conclude_attempt s again r)
  conclude_attempt-IsAdmission again (returned (admitted session), s') k h = h
  conclude_attempt-IsAdmission again (returned (refused e), s') k h = h
  conclude_attempt-IsAdmission again (thrown serialization_conflict, s') k h = k
  conclude_attempt-IsAdmission again (thrown record_not_found, s') k h = refl
  conclude_attempt-IsAdmission again (thrown (ledger e), s') k h = refl
  conclude_attempt-IsAdmission again (thrown (database e), s') k h = refl

  run_serializable-IsAdmission :
      (conflicts : ℕ → Bool) (left attempt : ℕ)
      → IsAdmission billing period row s
          (run_serializable conflicts left attempt (admit_tx faults billing period row) s)
  unfolding run_serializable
  run_serializable-IsAdmission conflicts zero attempt = refl
  run_serializable-IsAdmission conflicts (suc left) attempt =
      elim (Bool-cases (conflicts attempt)) [
        | inl e ↦ rw e (run_serializable-IsAdmission conflicts left (suc attempt))
        | inr e ↦ rw e (
            conclude_attempt-IsAdmission _ (admit_tx faults billing period row s)
              (run_serializable-IsAdmission conflicts left (suc attempt)) admit_tx-IsAdmission)
      ]

-- With credit billing off, a session is admitted by the workspace's plan alone, whichever attempts end in
-- a serialization conflict and whether or not the database takes the row. An admission adds the session
-- that is asked for, entitled to a recording exactly when no billing is configured or the access is
-- allowed and the plan has recordings, and leaves the usage of the period within the plan's limit and
-- the access allowed, unless no billing is configured. A refusal says that the usage has reached the limit
-- or that the access is not allowed, and it is so; a refusal and an error change nothing. The usage counts
-- the organization's sessions that started in the period and did not fail before they were live.
pub create_entitled-IsAdmission :
    (faults : AdmissionFaults) (call : Call) (billing : WorkspaceBilling) (row : CandidateSession)
    (now : ℕ) (s : Store)
    → IsAdmission billing
        (resolve_billing_usage_period billing now)
        row
        s
        (create_entitled_candidate_session false faults call (returned billing) row now s)
unfolding create_entitled_candidate_session
create_entitled-IsAdmission faults call billing row now s =
    run_serializable-IsAdmission faults billing (resolve_billing_usage_period billing now) row s
      faults.conflicts 3 0
