-- ===== src/Sessions/Settlement/Charged.antt =====
-- What a settlement does to the ledger and to the session's trace.
use prelude.Base.{ℕ, ◌≡◌, refl, sym, ap, subst, ◌∙◌, true, false, Option, none, some}
use prelude.BillableCompletion.{BillableCompletion, evaluate_billable_completion}
use prelude.Ledger.Schema.{Db, CreditWallet, CreditReservation, known, ReservationStatus}
use prelude.Ledger.Monad.{Result, ok, err}
use prelude.Ledger.Table.{find_row-key, find_row-update_row}
use prelude.Ledger.Client.{find_reservation, find_wallet}
use prelude.Ledger.Wallet.{Call}
use prelude.Ledger.Reservations.{CaptureReservationResult, capture_reservation_for_session}
use prelude.Ledger.Invariant.Reachable.{Reachable}
use prelude.Ledger.Invariant.Capturable.{hold_captures}
use prelude.Stripe.{truthy}
use prelude.Sessions.{
  captured, CandidateSession, Store, SessionError, returned, Job, proceed, settle, unless_fault,
  session_key, find_session, update_session, BilledCounts,
}
use prelude.Sessions.Settlement.{
  completed, Faults, question_outcomes, with_billed, record_billed_counts, counts_of,
  settle_decision, planned_of, settle_completed, settle_kind, settle_found, try_settle,
  settle_candidate_session_credit,
}

-- The decision on a completed interview, from the events of its live session.
abbrev pub decision_on : CandidateSession → ℕ → Store → BillableCompletion
decision_on row realtime s =
    evaluate_billable_completion (planned_of row.questions)
      (question_outcomes realtime s.live_events) none

-- The ledger captured, and the trace of the session says so, with the counts of the decision.
pub record Charged (call : Call) (row : CandidateSession) (now : ℕ) (decision : BillableCompletion)
    (s s' : Store) : Type 0 where
  pub captures :
      (capture_reservation_for_session call row.organization_id row.id now s.db).0
      ≡ ok CaptureReservationResult.captured
  pub books : s'.db ≡ (capture_reservation_for_session call row.organization_id row.id now s.db).1
  pub trace : find_session row.id s'.sessions ≡ some (with_billed (counts_of captured decision) row)

settle_ok :
    {A : Type 0} (s : Store) (r : Result A × Db) (a : A)
    → r.0 ≡ ok a
    → settle s r ≡ (returned a, record s { db = r.1 })
settle_ok s (ok b, db) a h = let same : b ≡ a = cc in rw same refl
settle_ok s (err e, db) a h = cc

traces :
    (faults : Faults) (row : CandidateSession) (counts : BilledCounts) (s : Store)
    → find_session row.id s.sessions ≡ some row
    → faults.update_session ≡ none
    → (find_session row.id (record_billed_counts faults row.id counts s).1.sessions
        ≡ some (with_billed counts row))
      × ((record_billed_counts faults row.id counts s).1.db ≡ s.db)
unfolding record_billed_counts update_session find_session
traces faults row counts s found sound =
    rw (sound, found)
      (
        find_row-update_row session_key row.id (with_billed counts) s.sessions row (λ _. refl)
            found,
        refl,
      )

settle_decision-Charged :
    (faults : Faults) (call : Call) (row : CandidateSession) (now : ℕ)
    (decision : BillableCompletion) (s : Store)
    → (capture_reservation_for_session call row.organization_id row.id now s.db).0
      ≡ ok CaptureReservationResult.captured
    → find_session row.id s.sessions ≡ some row
    → faults.update_session ≡ none
    → Charged call row now decision s (settle_decision faults call row now decision true s).1
unfolding settle_decision
settle_decision-Charged faults call row now decision s h found sound =
    let op = capture_reservation_for_session call row.organization_id row.id now in
    let after : Store = record s { db = (op s.db).1 } in
    let written = traces faults row (counts_of captured decision) after found sound in
    record {
      captures = h;
      books = rw (settle_ok s (op s.db) CaptureReservationResult.captured h) written.1;
      trace = rw (settle_ok s (op s.db) CaptureReservationResult.captured h) written.0;
    }

pub unless_sound :
    {A : Type 0} (fault : Option SessionError) (job : Job A) (s : Store)
    → fault ≡ none
    → unless_fault fault job s ≡ job s
unless_sound none job s h = refl
unless_sound (some e) job s h = cc

find_session-key :
    (session : ℕ) (row : CandidateSession) (s : Store)
    → find_session session s.sessions ≡ some row
    → row.id ≡ session
unfolding find_session
find_session-key session row s found = find_row-key session_key session s.sessions row found

-- The settlement of a billable interview, when the database's own reads succeed.
reaches_decision :
    (faults : Faults) (call : Call) (now session realtime : ℕ) (row : CandidateSession) (s : Store)
    → find_session session s.sessions ≡ some row
    → truthy row.realtime_session_id ≡ some realtime
    → (decision_on row realtime s).billable ≡ true
    → faults.find_session ≡ none
    → faults.find_events ≡ none
    → try_settle faults call completed now session s
      ≡ settle_decision faults call row now (decision_on row realtime s) true s
unfolding try_settle settle_found settle_kind settle_completed
reaches_decision faults call now session realtime row s found live billable f1 f2 =
    ap (λ r. proceed r (settle_found faults call completed now))
      (unless_sound faults.find_session (λ s. (returned (find_session session s.sessions), s)) s f1)
    ∙ ap (λ r. settle_found faults call completed now r s) found
    ∙ ap (λ r. settle_completed faults call row now r s) live
    ∙ ap
        (λ r. proceed r λ outcomes.
          let decision = evaluate_billable_completion (planned_of row.questions) outcomes none in
          settle_decision faults call row now decision decision.billable)
        (unless_sound faults.find_events
          (λ s. (returned (question_outcomes realtime s.live_events), s)) s f2)
    ∙ ap (λ b. settle_decision faults call row now (decision_on row realtime s) b s) billable

-- A completed interview that is billable is charged: in every state of the ledger that calls reach, where
-- the session holds a reservation of its organization, whose wallet exists, the settlement captures the
-- credit and writes the trace `captured` with the counts of the decision, when the flag is on, the
-- database's own calls succeed and the first attempt of the capture does not expire.
pub completed-Charged :
    (faults : Faults) (call : Call) (now session realtime : ℕ) (row : CandidateSession)
    (q : CreditReservation) (w : CreditWallet) (s : Store)
    → Reachable s.db
    → find_session session s.sessions ≡ some row
    → truthy row.realtime_session_id ≡ some realtime
    → (decision_on row realtime s).billable ≡ true
    → find_reservation row.id s.db ≡ some q
    → q.organization_id ≡ row.organization_id
    → q.status ≡ known ReservationStatus.held
    → find_wallet row.organization_id s.db ≡ some w
    → call.expires 1 ≡ false
    → faults.find_session ≡ none
    → faults.find_events ≡ none
    → faults.update_session ≡ none
    → Charged call row now
        (decision_on row realtime s)
        s
        (settle_candidate_session_credit true faults call completed now session s)
unfolding settle_candidate_session_credit
completed-Charged faults call now session realtime row q w s reach found live billable holds mine
      held wallet first f1 f2 f3 =
    let org = row.organization_id in
    let capture = hold_captures call org row.id now q w s.db reach holds mine held wallet first in
    let same : row.id ≡ session = find_session-key session row s found in
    let by_id = ap (λ k. find_session k s.sessions) same ∙ found in
    let settled =
      settle_decision-Charged faults call row now (decision_on row realtime s) s capture by_id f3 in
    subst (Charged call row now (decision_on row realtime s) s)
      (sym (
        ap (λ r. r.1)
          (reaches_decision faults call now session realtime row s found live billable f1 f2)))
      settled
