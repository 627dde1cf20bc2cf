-- ===== src/Sessions.antt =====
-- What the candidate's server does with a session's credit (apps/candidate/src/server): the rows of
-- packages/db/prisma/schema.prisma that it reads and writes beside the ledger's, its calls of the
-- database and of the ledger, and their errors. Of a session's row the fields that billing reads or
-- writes are kept, and `questions` is the count of the interview's questions, where they are an array.
pub mod Keeps
pub mod Settlement
pub mod Admission
mod Tests
use prelude.Base.{ℕ, Bool, true, false, Option, none, some, List, [], ◌∷◌, if◌then◌else◌}
use prelude.Ledger.Schema.{Db, Text}
use prelude.Ledger.Table.{find_row, update_row}
use prelude.Ledger.Monad.{Error, Result, ok, err, Op}

pub data BilledOutcome : Type 0 where
  captured released : BilledOutcome

-- The written trace of a settlement.
pub record BilledCounts : Type 0 where
  pub answered_count : ℕ
  pub outcome : BilledOutcome
  pub required_count : ℕ

pub data SessionStatus : Type 0 where
  failed : SessionStatus
  other : ℕ → SessionStatus

pub record CandidateSession : Type 0 where
  pub id : ℕ
  pub organization_id : ℕ
  pub realtime_session_id : Option ℕ
  pub questions : Option ℕ
  pub recording_entitled : Bool
  pub status : SessionStatus
  pub started_at : Option ℕ
  pub billed : Option BilledCounts

pub data LiveEventType : Type 0 where
  question_completed : LiveEventType
  other : ℕ → LiveEventType

-- The keys of a payload that are read, where they hold a text.
pub record LivePayload : Type 0 where
  pub question_id : Option Text
  pub question_id_camel : Option Text
  pub completion_reason : Option Text
  pub completion_reason_camel : Option Text

-- `payload` is none where the column does not hold an object.
pub record LiveInterviewEvent : Type 0 where
  pub session_id : ℕ
  pub type : LiveEventType
  pub sequence_number : ℕ
  pub payload : Option LivePayload

pub record Store : Type 0 where
  pub db : Db
  pub sessions : List CandidateSession
  pub live_events : List LiveInterviewEvent

pub data SessionError : Type 0 where
  ledger : Error → SessionError
  database : ℕ → SessionError
  record_not_found serialization_conflict : SessionError

pub data Outcome (A : Type 0) : Type 0 where
  returned : A → Outcome A
  thrown : SessionError → Outcome A

abbrev pub Job : Type 0 → Type 0
Job A = Store → Outcome A × Store

module _ {A : Type 0} where
  abbrev pub return : A → Job A
  return a s = (returned a, s)

  abbrev pub settle : Store → Result A × Db → Outcome A × Store
  settle s (ok a, db) = (returned a, record s { db = db })
  settle s (err e, db) = (thrown (ledger e), record s { db = db })

  -- A call of the ledger.
  abbrev pub on_ledger : Op A → Job A
  on_ledger op s = settle s (op s.db)

  -- A call of the database that the outside may fail.
  abbrev pub unless_fault : Option SessionError → Job A → Job A
  unless_fault none job s = job s
  unless_fault (some e) job s = (thrown e, s)

module _ {A B : Type 0} where
  abbrev pub proceed : Outcome A × Store → (A → Job B) → Outcome B × Store
  proceed (returned a, s) f = f a s
  proceed (thrown e, s) f = (thrown e, s)

  infixl 5 ◌>>=◌
  abbrev pub ◌>>=◌ : Job A → (A → Job B) → Job B
  ◌>>=◌ m f s = proceed (m s) f

abbrev pub session_key : CandidateSession → ℕ
session_key row = row.id

unfoldable pub find_session : ℕ → List CandidateSession → Option CandidateSession
unfolding find_row
find_session id rows = find_row session_key id rows

abbrev pub updated :
    ℕ → (CandidateSession → CandidateSession) → Option CandidateSession → Job CandidateSession
updated id change none s = (thrown record_not_found, s)
updated id change (some row) s =
    (returned (change row), record s { sessions = update_row session_key id change s.sessions })

-- `candidateSession.update` by id, which throws on a missing row (P2025).
unfoldable pub update_session : ℕ → (CandidateSession → CandidateSession) → Job CandidateSession
unfolding find_session
update_session id change s = updated id change (find_session id s.sessions) s
