-- ===== src/Sessions/Tests.antt =====
-- The sessions of an organization that holds a credit for session 7: its interview has three questions.
use prelude.Base.{map, ℕ, ◌≡◌, refl, true, false, none, some, [], ◌∷◌, List}
use prelude.Base.Int.{◌-ℤ◌}
use prelude.BillableCompletion.{CompletionReason, answered, evaluate_billable_completion}
use prelude.BillingPolicy.{WorkspaceBilling, unconfigured_billing}
use prelude.BillingPolicy.Period.{resolve_billing_usage_period}
use prelude.Ledger.Schema.{Db, Text}
use prelude.Ledger.Monad.{ok}
use prelude.Ledger.Table.{find_row}
use prelude.Ledger.Reservations.{CaptureReservationResult, capture_reservation_for_session}
use prelude.Ledger.Invariant.Samples.{
  a_call, opened, held, held_wallet, held_reservation, held_reachable, held_rows,
}
use prelude.Ledger.Purchase.{same_text}
use prelude.Ledger.Monad.{run_transaction}
use prelude.Ledger.Client.{create_wallet, create_lot, create_entry}
use prelude.Ledger.Wallet.{
  ensure_wallet, run_in_wallet_transaction, create_if_absent, ensure_unless, ensure_wallet_tx,
  lock_wallet, new_wallet, recover_wallet,
}
use prelude.Ledger.Table.{update_row}
use prelude.Stripe.{truthy}
use prelude.Texts.{codes, key_of}
use prelude.Sessions.{
  CandidateSession, SessionStatus, LiveInterviewEvent, question_completed, Store, update_session,
  captured, find_session, returned,
}
use prelude.Sessions.Settlement.{
  Faults, completed, abandoned, kind_text, try_settle, settle_found, settle_kind, settle_completed,
  settle_decision, record_billed_counts, question_outcomes, collect, set_outcome, question_id_of,
  reason_text_of, read_payload_string, collect_all, completed_events,
  settle_candidate_session_credit,
}
use prelude.Sessions.Settlement.Verdicts.{find_outcome, IsDistinct, last_verdict}
use prelude.Sessions.Settlement.Last.{IsLastReason, one_verdict}
use prelude.Sessions.Settlement.Charged.{decision_on, Charged, completed-Charged}
use prelude.Sessions.Settlement.Books.{book, hands_back, settle_session_books}
use prelude.Sessions.Admission.{AdmissionFaults, create_entitled_candidate_session}
use prelude.Sessions.Admission.Limit.{IsAdmission, create_entitled-IsAdmission}

abbrev interview : CandidateSession
interview = record {
  id = 7;
  organization_id = 1;
  realtime_session_id = some 70;
  questions = some 3;
  recording_entitled = true;
  status = SessionStatus.other 1;
  started_at = some 900;
  billed = none;
}

abbrev spoken : ℕ → Text → Text → LiveInterviewEvent
spoken number question reason = record {
  session_id = 70;
  type = question_completed;
  sequence_number = number;
  payload = some (record {
    question_id = some question;
    question_id_camel = none;
    completion_reason = some reason;
    completion_reason_camel = none;
  });
}

-- The first question timed out and was answered later.
abbrev spoken_events : List LiveInterviewEvent
spoken_events =
    spoken 3 (codes "q1") (codes "answered")
    ∷ spoken 1 (codes "q1") (codes "timeout")
    ∷ spoken 2 (codes "q2") (codes "answered")
    ∷ spoken 4 (codes "q3") (codes "answered")
    ∷ []

abbrev store_of : Db → Store
store_of db = record { db = db; sessions = interview ∷ []; live_events = spoken_events }

abbrev sound : Faults
sound = record { find_session = none; find_events = none; update_session = none }

abbrev admission_sound : AdmissionFaults
admission_sound = record {
  conflicts = λ attempt. false;
  create_session = none;
  update_session = none;
  delete_session = none;
}

abbrev q1 : Text
q1 = codes "q1"

one_verdict_example :
    let m = collect_all (completed_events 70 spoken_events) [] in
    (question_outcomes 70 spoken_events ≡ map (λ (entry : Text × CompletionReason). entry.1) m)
    × IsDistinct m
    × IsLastReason 70 spoken_events q1 (find_outcome q1 m)
one_verdict_example = one_verdict 70 spoken_events q1 refl

q1_answered : last_verdict q1 (completed_events 70 spoken_events) none ≡ some answered
unfolding last_verdict completed_events ◌-ℤ◌ same_text question_id_of reason_text_of
    read_payload_string key_of
q1_answered = refl

completed-Charged_example :
    Charged
      (a_call held 0)
      interview
      1500
      (decision_on interview 70 (store_of held))
      (store_of held)
      (settle_candidate_session_credit true sound (a_call held 0) completed 1500 7 (store_of held))
unfolding find_session find_row truthy evaluate_billable_completion question_outcomes
    completed_events collect_all collect set_outcome question_id_of reason_text_of
    read_payload_string ◌-ℤ◌ same_text
completed-Charged_example =
    completed-Charged sound (a_call held 0) 1500 7 70 interview held_reservation held_wallet
      (store_of held) held_reachable refl refl refl held_rows.2 refl refl held_rows.0 refl refl refl
      refl

-- A billable session without a reservation is traced as captured, and the ledger has charged nothing.
captured_without_reservation :
    (find_session 7
        (settle_candidate_session_credit true sound
          (a_call opened 0)
          completed
          1500
          7
          (store_of opened)).sessions
      ≡ some (record interview {
        billed = some (record { answered_count = 3; outcome = captured; required_count = 3 });
      }))
    × ((settle_candidate_session_credit true sound
          (a_call opened 0)
          completed
          1500
          7
          (store_of opened)).db
        ≡ opened)
    × ((capture_reservation_for_session (a_call opened 0) 1 7 1500 opened).0
        ≡ ok CaptureReservationResult.no_reservation)
unfolding find_session find_row settle_candidate_session_credit try_settle settle_found settle_kind
    settle_completed settle_decision record_billed_counts update_session update_row truthy
    evaluate_billable_completion question_outcomes completed_events collect_all collect set_outcome
    question_id_of reason_text_of read_payload_string ◌-ℤ◌ same_text capture_reservation_for_session
    ensure_wallet run_transaction create_wallet create_lot create_entry run_in_wallet_transaction
    create_if_absent ensure_unless ensure_wallet_tx lock_wallet new_wallet recover_wallet
captured_without_reservation = (refl, refl, refl)

abbrev newcomer : CandidateSession
newcomer = record interview { id = 8; started_at = some 1714732200000 }

abbrev no_plan : WorkspaceBilling
no_plan = unconfigured_billing 1714732200000

create_entitled-IsAdmission_example :
    IsAdmission no_plan
      (resolve_billing_usage_period no_plan 1714732200000)
      newcomer
      (store_of held)
      (create_entitled_candidate_session false admission_sound
        (a_call held 0)
        (returned no_plan)
        newcomer
        1714732200000
        (store_of held))
create_entitled-IsAdmission_example =
    create_entitled-IsAdmission admission_sound (a_call held 0) no_plan newcomer 1714732200000
      (store_of held)

settle_session_books_example :
    (settle_candidate_session_credit true sound (a_call held 0) abandoned 1500 7 (store_of held)).db
    ≡ book (hands_back (kind_text abandoned)) (a_call held 0) interview 1500 held
unfolding find_session find_row
settle_session_books_example =
    settle_session_books sound (a_call held 0) abandoned 1500 7 interview (store_of held) refl refl
      refl
