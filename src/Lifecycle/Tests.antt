-- ===== src/Lifecycle/Tests.antt =====
-- The lifecycle on concrete sessions.
use prelude.Base.{ℕ, ◌+◌, ◌≡◌, ◌↔◌, ◌⊎◌, refl, true, Option, none, some, List, [], ◌∷◌, In}
use prelude.Lifecycle.{
  CandidateLifecycleStatus, invited, completed, failed, current, is_terminal,
  CandidateLifecycleEvent, open_it, confirm_ready, start, mark_in_progress, fail, retry, complete,
  lifecycle_transitions, normalize_candidate_lifecycle_status, can_transition_candidate_lifecycle,
  accepted, missing, resolve_candidate_consent_gate, retry_new_attempt, reject,
  resolve_candidate_start_policy,
}
use prelude.Lifecycle.Transitions.{start_policy_agrees, consent_gate_iff}
use prelude.Lifecycle.Runs.{run, starts, retries, begun, run_balance}

start_policy_agrees_example :
    ((resolve_candidate_start_policy (some (current failed)) ≡ retry_new_attempt)
      ↔ (can_transition_candidate_lifecycle (some (current failed)) retry ≡ true))
    × ((s : CandidateLifecycleStatus)
        → normalize_candidate_lifecycle_status (some (current failed)) ≡ some s
        → (resolve_candidate_start_policy (some (current failed)) ≡ reject (some s))
          ↔ (is_terminal s ≡ true))
    × ((resolve_candidate_start_policy (some (current failed)) ≡ reject none)
        ↔ (normalize_candidate_lifecycle_status (some (current failed)) ≡ none))
start_policy_agrees_example = start_policy_agrees (current failed)

abbrev version_read : Option ℕ
version_read = some 3

abbrev consented_at : Option ℕ
consented_at = some 1000

consent_gate_iff_example :
    ((resolve_candidate_consent_gate version_read consented_at (2 ∷ 3 ∷ []) ≡ accepted) ↔ (
      (v : ℕ) × (at : ℕ) × (version_read ≡ some v) × (consented_at ≡ some at) × In v (2 ∷ 3 ∷ [])))
    × ((resolve_candidate_consent_gate version_read consented_at (2 ∷ 3 ∷ []) ≡ missing)
        ↔ ((version_read ≡ none) ⊎ (consented_at ≡ none)))
consent_gate_iff_example = consent_gate_iff version_read consented_at (2 ∷ 3 ∷ [])

abbrev no_events : List CandidateLifecycleEvent
no_events = []

abbrev retried : List CandidateLifecycleEvent
retried = open_it ∷ confirm_ready ∷ start ∷ fail ∷ retry ∷ start ∷ mark_in_progress ∷ complete ∷ []

run_balance_example : starts retried + begun invited ≡ retries retried + begun completed
unfolding run lifecycle_transitions
run_balance_example = run_balance retried invited completed refl
