-- ===== src/Sessions/Settlement.antt =====
-- apps/candidate/src/server/credit-settlement.ts: a session that has ended consumes its credit or hands
-- it back, and leaves a trace of why. The logs have no part in it.
pub mod Verdicts
pub mod Last
pub mod Charged
pub mod Books
use prelude.Base.{
  ℕ, Bool, true, false, not, Option, none, some, List, [], ◌∷◌, ◌==◌, ◌&&◌, if◌then◌else◌, filter,
  map,
}
use prelude.Base.Int.{ℤ, pos, ◌-ℤ◌}
use prelude.BillableCompletion.{
  CompletionReason, answered, BillableCompletion, evaluate_billable_completion,
}
use prelude.CreditLots.Sort.{sort}
use prelude.Ledger.Schema.{Text, Reason, given}
use prelude.Ledger.Wallet.{Call}
use prelude.Ledger.Purchase.{same_text}
use prelude.Ledger.Reservations.{
  CaptureReservationResult, ReleaseReservationResult, capture_reservation_for_session,
  release_reservation_for_session,
}
use prelude.Stripe.{truthy}
use prelude.Texts.{codes, key_of}
use prelude.Sessions.{
  BilledOutcome, BilledCounts, captured, released, CandidateSession, LiveEventType,
  question_completed, LivePayload, LiveInterviewEvent, Store, SessionError, Outcome, Job, return,
  on_ledger, unless_fault, ◌>>=◌, find_session, update_session,
}

pub data SettlementKind : Type 0 where
  abandoned completed expired failed superseded : SettlementKind

abbrev pub kind_text : SettlementKind → Text
kind_text abandoned = codes "abandoned"
kind_text completed = codes "completed"
kind_text expired = codes "expired"
kind_text failed = codes "failed"
kind_text superseded = codes "superseded"

-- Which of the database's own calls fail.
pub record Faults : Type 0 where
  pub find_session : Option SessionError
  pub find_events : Option SessionError
  pub update_session : Option SessionError

abbrev pub reason_of : Text → Reason
reason_of t = given (key_of t)

-- The first key that holds a text that is not empty, or the empty text.
unfoldable pub read_payload_string : Option Text → Option Text → Text
read_payload_string (some (c ∷ t)) later = c ∷ t
read_payload_string earlier (some t) = t
read_payload_string earlier none = []

abbrev empty_payload : LivePayload
empty_payload = record {
  question_id = none;
  question_id_camel = none;
  completion_reason = none;
  completion_reason_camel = none;
}

abbrev pub payload_of : Option LivePayload → LivePayload
payload_of none = empty_payload
payload_of (some payload) = payload

unfoldable pub question_id_of : LiveInterviewEvent → Text
unfolding read_payload_string
question_id_of event =
    let payload = payload_of event.payload in
    read_payload_string payload.question_id payload.question_id_camel

unfoldable pub reason_text_of : LiveInterviewEvent → Text
unfolding read_payload_string
reason_text_of event =
    let payload = payload_of event.payload in
    read_payload_string payload.completion_reason payload.completion_reason_camel

abbrev pub to_reason : Text → CompletionReason
to_reason t = if same_text t (codes "answered") then answered else CompletionReason.other (key_of t)

-- A `Map` in the order of its keys' first insertion.
abbrev pub Outcomes : Type 0
Outcomes = List (Text × CompletionReason)

unfoldable pub set_outcome : Text → CompletionReason → Outcomes → Outcomes
set_outcome k v [] = (k, v) ∷ []
set_outcome k v ((j, w) ∷ m) =
    let rest = set_outcome k v m in if same_text j k then (j, v) ∷ m else (j, w) ∷ rest

-- One event: an outcome that no question can be named for is dropped.
unfoldable pub collect : LiveInterviewEvent → Text → Outcomes → Outcomes
unfolding set_outcome
collect event [] m = m
collect event (c ∷ t) m = set_outcome (c ∷ t) (to_reason (reason_text_of event)) m

unfoldable pub collect_all : List LiveInterviewEvent → Outcomes → Outcomes
unfolding collect
collect_all [] m = m
collect_all (event ∷ events) m = collect_all events (collect event (question_id_of event) m)

abbrev pub is_question_completed : LiveEventType → Bool
is_question_completed question_completed = true
is_question_completed _ = false

abbrev pub by_sequence : LiveInterviewEvent → LiveInterviewEvent → ℤ
by_sequence a b = pos a.sequence_number -ℤ pos b.sequence_number

unfoldable pub completed_events : ℕ → List LiveInterviewEvent → List LiveInterviewEvent
completed_events realtime events = sort by_sequence (
    filter
      (λ (event : LiveInterviewEvent).
        event.session_id == realtime && is_question_completed event.type)
      events)

unfoldable pub question_outcomes : ℕ → List LiveInterviewEvent → List CompletionReason
unfolding collect_all completed_events
question_outcomes realtime events =
    map (λ (entry : Text × CompletionReason). entry.1)
      (collect_all (completed_events realtime events) [])

abbrev pub load_question_outcomes : Faults → ℕ → Job (List CompletionReason)
load_question_outcomes faults realtime =
    unless_fault faults.find_events λ s. return (question_outcomes realtime s.live_events) s

abbrev pub with_billed : BilledCounts → CandidateSession → CandidateSession
with_billed counts row = record row { billed = some counts }

unfoldable pub record_billed_counts : Faults → ℕ → BilledCounts → Job Unit
record_billed_counts faults session counts =
    unless_fault faults.update_session (update_session session (with_billed counts)) >>= λ _.
    return tt

abbrev pub counts_of : BilledOutcome → BillableCompletion → BilledCounts
counts_of outcome decision = record {
  answered_count = decision.answered_count;
  outcome = outcome;
  required_count = decision.required_count;
}

abbrev pub release_for : Call → CandidateSession → ℕ → Text → Job ReleaseReservationResult
release_for call row now reason =
    on_ledger
      (release_reservation_for_session call row.organization_id row.id now (reason_of reason))

-- The decision of a completed interview.
unfoldable pub settle_decision :
    Faults → Call → CandidateSession → ℕ → BillableCompletion → Bool → Job Unit
unfolding record_billed_counts
settle_decision faults call row now decision true = do
  result ← on_ledger (capture_reservation_for_session call row.organization_id row.id now)
  record_billed_counts faults row.id (counts_of captured decision)
settle_decision faults call row now decision false = do
  result ← release_for call row now (codes "below_billable_threshold")
  record_billed_counts faults row.id (counts_of released decision)

abbrev pub planned_of : Option ℕ → ℤ
planned_of none = pos 0
planned_of (some n) = pos n

unfoldable pub settle_completed : Faults → Call → CandidateSession → ℕ → Option ℕ → Job Unit
unfolding settle_decision record_billed_counts
settle_completed faults call row now none = do
  result ← release_for call row now (codes "no_billable_evidence")
  let decision = evaluate_billable_completion (planned_of row.questions) [] none in
      record_billed_counts faults row.id
        (record (counts_of released decision) { answered_count = 0 })
settle_completed faults call row now (some realtime) = do
  outcomes ← load_question_outcomes faults realtime
  let decision = evaluate_billable_completion (planned_of row.questions) outcomes none in
      settle_decision faults call row now decision decision.billable

abbrev pub hand_back : Call → CandidateSession → ℕ → SettlementKind → Job Unit
hand_back call row now kind = release_for call row now (kind_text kind) >>= λ _. return tt

unfoldable pub settle_kind : Faults → Call → SettlementKind → ℕ → CandidateSession → Job Unit
unfolding settle_completed
settle_kind faults call completed now row =
    settle_completed faults call row now (truthy row.realtime_session_id)
settle_kind faults call abandoned now row = hand_back call row now abandoned
settle_kind faults call expired now row = hand_back call row now expired
settle_kind faults call failed now row = hand_back call row now failed
settle_kind faults call superseded now row = hand_back call row now superseded

unfoldable pub settle_found :
    Faults → Call → SettlementKind → ℕ → Option CandidateSession → Job Unit
unfolding settle_kind
settle_found faults call kind now none = return tt
settle_found faults call kind now (some row) = settle_kind faults call kind now row

-- The body of the `try`.
unfoldable pub try_settle : Faults → Call → SettlementKind → ℕ → ℕ → Job Unit
unfolding settle_found
try_settle faults call kind now session =
    unless_fault faults.find_session (λ s. return (find_session session s.sessions) s)
    >>= settle_found faults call kind now

-- It never throws: what it has written before an error stays. `enabled` is isCreditBillingEnabled().
unfoldable pub settle_candidate_session_credit :
    Bool → Faults → Call → SettlementKind → ℕ → ℕ → Store → Store
unfolding try_settle
settle_candidate_session_credit false faults call kind now session s = s
settle_candidate_session_credit true faults call kind now session s =
    (try_settle faults call kind now session s).1
