-- ===== src/Lifecycle.antt =====
-- packages/core/src/domain/candidate-lifecycle.ts: the life of a candidate's session. A text is told
-- by its spelling: that of a status, that of a legacy status, or any other that does not name a
-- property of every object.
pub mod Transitions
pub mod Runs
pub mod Tests
use prelude.Base.{ℕ, Bool, true, false, Option, none, some, List, [], ◌∷◌, any, ◌==◌, if◌then◌else◌}

pub data CandidateLifecycleStatus : Type 0 where
  invited opened consent_required ready starting in_progress : CandidateLifecycleStatus
  reconnecting completed abandoned failed expired superseded : CandidateLifecycleStatus

pub data LegacyStatus : Type 0 where
  agent_joining created paused started waiting_candidate : LegacyStatus

pub data StatusText : Type 0 where
  current : CandidateLifecycleStatus → StatusText
  legacy : LegacyStatus → StatusText
  other : ℕ → StatusText

unfoldable pub is_terminal : CandidateLifecycleStatus → Bool
is_terminal completed = true
is_terminal expired = true
is_terminal superseded = true
is_terminal _ = false

unfoldable pub is_active : CandidateLifecycleStatus → Bool
is_active starting = true
is_active in_progress = true
is_active reconnecting = true
is_active _ = false

unfoldable pub legacy_status_map : LegacyStatus → CandidateLifecycleStatus
legacy_status_map agent_joining = starting
legacy_status_map created = invited
legacy_status_map paused = reconnecting
legacy_status_map started = starting
legacy_status_map waiting_candidate = starting

pub data CandidateLifecycleEvent : Type 0 where
  open_it require_consent confirm_ready accept_consent start : CandidateLifecycleEvent
  mark_in_progress disconnect recover complete abandon : CandidateLifecycleEvent
  fail expire retry supersede : CandidateLifecycleEvent

-- A row of the table lists the events that it takes.
unfoldable pub lifecycle_transitions :
    CandidateLifecycleStatus → CandidateLifecycleEvent → Option CandidateLifecycleStatus
lifecycle_transitions abandoned retry = some ready
lifecycle_transitions abandoned supersede = some superseded
lifecycle_transitions consent_required accept_consent = some ready
lifecycle_transitions consent_required expire = some expired
lifecycle_transitions failed retry = some ready
lifecycle_transitions failed supersede = some superseded
lifecycle_transitions in_progress abandon = some abandoned
lifecycle_transitions in_progress complete = some completed
lifecycle_transitions in_progress disconnect = some reconnecting
lifecycle_transitions in_progress fail = some failed
lifecycle_transitions invited expire = some expired
lifecycle_transitions invited open_it = some opened
lifecycle_transitions opened confirm_ready = some ready
lifecycle_transitions opened expire = some expired
lifecycle_transitions opened require_consent = some consent_required
lifecycle_transitions ready expire = some expired
lifecycle_transitions ready start = some starting
lifecycle_transitions reconnecting abandon = some abandoned
lifecycle_transitions reconnecting fail = some failed
lifecycle_transitions reconnecting recover = some in_progress
lifecycle_transitions starting abandon = some abandoned
lifecycle_transitions starting fail = some failed
lifecycle_transitions starting mark_in_progress = some in_progress
lifecycle_transitions _ _ = none

-- `null`, `undefined` and the empty text are `none`.
unfoldable pub normalize_candidate_lifecycle_status :
    Option StatusText → Option CandidateLifecycleStatus
normalize_candidate_lifecycle_status none = none
normalize_candidate_lifecycle_status (some (current status)) = some status
normalize_candidate_lifecycle_status (some (legacy status)) = some (legacy_status_map status)
normalize_candidate_lifecycle_status (some (other text)) = none

pub data TransitionResult : Type 0 where
  moved : CandidateLifecycleStatus → TransitionResult
  invalid_transition unknown_status : TransitionResult

abbrev moved_to : Option CandidateLifecycleStatus → TransitionResult
moved_to none = invalid_transition
moved_to (some status) = moved status

abbrev transition_from :
    Option CandidateLifecycleStatus → CandidateLifecycleEvent → TransitionResult
transition_from none event = unknown_status
transition_from (some status) event = moved_to (lifecycle_transitions status event)

unfoldable pub transition_candidate_lifecycle :
    Option StatusText → CandidateLifecycleEvent → TransitionResult
transition_candidate_lifecycle current_status event =
    transition_from (normalize_candidate_lifecycle_status current_status) event

abbrev pub is_ok : TransitionResult → Bool
is_ok (moved status) = true
is_ok _ = false

unfoldable pub can_transition_candidate_lifecycle :
    Option StatusText → CandidateLifecycleEvent → Bool
can_transition_candidate_lifecycle current_status event =
    is_ok (transition_candidate_lifecycle current_status event)

pub data ConsentGateResult : Type 0 where
  accepted missing outdated : ConsentGateResult

-- The version that the session carries and the instant of the consent; a required version alone is
-- a list of one.
unfoldable pub resolve_candidate_consent_gate : Option ℕ → Option ℕ → List ℕ → ConsentGateResult
resolve_candidate_consent_gate (some version) (some consented_at) required =
    if any (λ v. v == version) required then accepted else outdated
resolve_candidate_consent_gate _ _ required = missing

pub data CandidateStartPolicy : Type 0 where
  start_new_attempt resume_same_attempt retry_new_attempt : CandidateStartPolicy
  reject : Option CandidateLifecycleStatus → CandidateStartPolicy

-- `reject none` is the rejection of an unknown status.
abbrev start_policy_of : Option CandidateLifecycleStatus → CandidateStartPolicy
start_policy_of none = reject none
start_policy_of (some completed) = reject (some completed)
start_policy_of (some expired) = reject (some expired)
start_policy_of (some superseded) = reject (some superseded)
start_policy_of (some failed) = retry_new_attempt
start_policy_of (some abandoned) = retry_new_attempt
start_policy_of (some starting) = resume_same_attempt
start_policy_of (some in_progress) = resume_same_attempt
start_policy_of (some reconnecting) = resume_same_attempt
start_policy_of (some ready) = resume_same_attempt
start_policy_of (some _) = start_new_attempt

unfoldable pub resolve_candidate_start_policy : Option StatusText → CandidateStartPolicy
resolve_candidate_start_policy current_status =
    start_policy_of (normalize_candidate_lifecycle_status current_status)

unfoldable pub map_realtime_status : Option StatusText → CandidateLifecycleStatus
map_realtime_status (some (current completed)) = completed
map_realtime_status (some (current failed)) = failed
map_realtime_status (some (current expired)) = expired
map_realtime_status (some (current in_progress)) = in_progress
map_realtime_status (some (legacy paused)) = reconnecting
map_realtime_status _ = starting
