-- ===== src/Sessions/Settlement/Books.antt =====
-- The one call of the ledger that a settlement comes to.
use prelude.Base.{ℕ, ◌≡◌, refl, ap, ◌∙◌, Bool, true, false, Option, none, some, []}
use prelude.BillableCompletion.{evaluate_billable_completion}
use prelude.Ledger.Schema.{Db, Text}
use prelude.Ledger.Monad.{Op, Result, ok, err}
use prelude.Ledger.Wallet.{Call}
use prelude.Ledger.Reservations.{
  ReleaseReservationResult, capture_reservation_for_session, release_reservation_for_session,
}
use prelude.Stripe.{truthy}
use prelude.Texts.{codes}
use prelude.Sessions.{
  CandidateSession, Store, returned, Job, proceed, settle, on_ledger, find_session, update_session,
  unless_fault, BilledCounts, captured, released,
}
use prelude.Sessions.Settlement.{
  SettlementKind, completed, abandoned, expired, failed, superseded, Faults, reason_of, kind_text,
  question_outcomes, record_billed_counts, with_billed, planned_of, counts_of, settle_decision,
  settle_completed, hand_back, settle_kind, settle_found, try_settle,
  settle_candidate_session_credit,
}
use prelude.Sessions.Keeps.{proceed-inv, unless_fault-db, update_session-db}
use prelude.Sessions.Settlement.Charged.{decision_on, unless_sound}

-- What a settlement is to do with the credit of its session.
pub data Charge : Type 0 where
  takes : Charge
  hands_back : Text → Charge

abbrev pub charge_if : Bool → Charge
charge_if true = takes
charge_if false = hands_back (codes "below_billable_threshold")

abbrev pub charge_completed : CandidateSession → Option ℕ → Store → Charge
charge_completed row none s = hands_back (codes "no_billable_evidence")
charge_completed row (some realtime) s = charge_if (decision_on row realtime s).billable

-- A completed interview with a live session is charged exactly when it is billable.
abbrev pub charge_of : SettlementKind → CandidateSession → Store → Charge
charge_of completed row s = charge_completed row (truthy row.realtime_session_id) s
charge_of abandoned row s = hands_back (kind_text abandoned)
charge_of expired row s = hands_back (kind_text expired)
charge_of failed row s = hands_back (kind_text failed)
charge_of superseded row s = hands_back (kind_text superseded)

-- The ledger after the call that a charge stands for.
abbrev pub book : Charge → Call → CandidateSession → ℕ → Db → Db
book takes call row now db =
    (capture_reservation_for_session call row.organization_id row.id now db).1
book (hands_back reason) call row now db =
    (release_reservation_for_session call row.organization_id row.id now (reason_of reason) db).1

record_billed-db :
    (faults : Faults) (session : ℕ) (counts : BilledCounts) (s : Store)
    → (record_billed_counts faults session counts s).1.db ≡ s.db
unfolding record_billed_counts
record_billed-db faults session counts s =
    proceed-inv (λ s'. s'.db ≡ s.db)
      (unless_fault faults.update_session (update_session session (with_billed counts)) s)
      (λ _ s'. (returned tt, s'))
      (unless_fault-db faults.update_session (update_session session (with_billed counts)) s
        (update_session-db session (with_billed counts) s))
      λ _ _ h. h

module _ {A B : Type 0} where
  -- A call of the ledger, and then a job that leaves the ledger as it is.
  called-db :
      (op : Op A) (job : A → Job B) (s : Store)
      → ((a : A) (t : Store) → (job a t).1.db ≡ t.db)
      → (proceed (on_ledger op s) job).1.db ≡ (op s.db).1
  called-db op job s h = settled (op s.db)
    where
      settled : (r : Result A × Db) → (proceed (settle s r) job).1.db ≡ r.1
      settled (ok a, db) = h a (record s { db = db })
      settled (err e, db) = refl

module _ (faults : Faults) (call : Call) (row : CandidateSession) (now : ℕ) (s : Store) where
  abbrev releasing : Text → Op ReleaseReservationResult
  releasing reason =
      release_reservation_for_session call row.organization_id row.id now (reason_of reason)

  -- A call of the ledger, and then the trace.
  traced-db :
      {A : Type 0} (op : Op A) (counts : BilledCounts)
      → (proceed (on_ledger op s) (λ _. record_billed_counts faults row.id counts)).1.db
        ≡ (op s.db).1
  traced-db op counts =
      called-db op (λ _. record_billed_counts faults row.id counts) s
        λ _ t. record_billed-db faults row.id counts t

  settle_decision-db :
      (realtime : ℕ) (billable : Bool)
      → (settle_decision faults call row now (decision_on row realtime s) billable s).1.db
        ≡ book (charge_if billable) call row now s.db
  unfolding settle_decision
  settle_decision-db realtime true =
      traced-db (capture_reservation_for_session call row.organization_id row.id now)
        (counts_of captured (decision_on row realtime s))
  settle_decision-db realtime false =
      traced-db (releasing (codes "below_billable_threshold"))
        (counts_of released (decision_on row realtime s))

  settle_completed-db :
      (realtime : Option ℕ)
      → faults.find_events ≡ none
      → (settle_completed faults call row now realtime s).1.db
        ≡ book (charge_completed row realtime s) call row now s.db
  unfolding settle_completed
  settle_completed-db none sound =
      let decision = evaluate_billable_completion (planned_of row.questions) [] none in
      traced-db (releasing (codes "no_billable_evidence"))
        (record (counts_of released decision) { answered_count = 0 })
  settle_completed-db (some realtime) sound =
      ap
        (λ r.
          (proceed r λ outcomes.
            let decision = evaluate_billable_completion (planned_of row.questions) outcomes none in
            settle_decision faults call row now decision decision.billable).1.db)
        (unless_sound faults.find_events
          (λ s. (returned (question_outcomes realtime s.live_events), s)) s sound)
      ∙ settle_decision-db realtime (decision_on row realtime s).billable

  hand_back-db :
      (kind : SettlementKind)
      → (hand_back call row now kind s).1.db ≡ book (hands_back (kind_text kind)) call row now s.db
  hand_back-db kind = called-db (releasing (kind_text kind)) (λ _ t. (returned tt, t)) s λ _ t. refl

  settle_kind-db :
      (kind : SettlementKind)
      → faults.find_events ≡ none
      → (settle_kind faults call kind now row s).1.db
        ≡ book (charge_of kind row s) call row now s.db
  unfolding settle_kind
  settle_kind-db completed sound = settle_completed-db (truthy row.realtime_session_id) sound
  settle_kind-db abandoned sound = hand_back-db abandoned
  settle_kind-db expired sound = hand_back-db expired
  settle_kind-db failed sound = hand_back-db failed
  settle_kind-db superseded sound = hand_back-db superseded

-- A settlement of a session that is there comes to one call of the ledger, when the reads succeed and
-- whether or not its trace can be written: a capture where the interview was completed over a live session
-- and is billable by the last verdicts of its questions, and a release in every other case, whose reason
-- is the kind, the missing evidence or the threshold.
pub settle_session_books :
    (faults : Faults) (call : Call) (kind : SettlementKind) (now session : ℕ)
    (row : CandidateSession) (s : Store)
    → find_session session s.sessions ≡ some row
    → faults.find_session ≡ none
    → faults.find_events ≡ none
    → (settle_candidate_session_credit true faults call kind now session s).db
      ≡ book (charge_of kind row s) call row now s.db
unfolding settle_candidate_session_credit try_settle settle_found
settle_session_books faults call kind now session row s found f1 f2 =
    ap (λ r. (proceed r (settle_found faults call kind now)).1.db)
      (unless_sound faults.find_session (λ s. (returned (find_session session s.sessions), s)) s f1)
    ∙ ap (λ r. (settle_found faults call kind now r s).1.db) found
    ∙ settle_kind-db faults call row now s kind f2
