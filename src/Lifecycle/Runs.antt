-- ===== src/Lifecycle/Runs.antt =====
-- The runs of a session through the table.
use prelude.Base.{
  ℕ, ◌+◌, ◌≡◌, refl, true, Option, none, some, List, [], ◌∷◌, arith, Option-cases, inl, inr,
}
use prelude.Lifecycle.{
  CandidateLifecycleStatus, invited, opened, consent_required, ready, expired, is_terminal,
  CandidateLifecycleEvent, start, retry, lifecycle_transitions,
}

abbrev next :
    Option CandidateLifecycleStatus
    → (CandidateLifecycleStatus → Option CandidateLifecycleStatus)
    → Option CandidateLifecycleStatus
next none rest = none
next (some t) rest = rest t

-- The status after the events, if the table takes each of them in its turn.
unfoldable pub run :
    List CandidateLifecycleEvent → CandidateLifecycleStatus → Option CandidateLifecycleStatus
run [] s = some s
run (e ∷ es) s = next (lifecycle_transitions s e) (run es)

abbrev pub starts : List CandidateLifecycleEvent → ℕ
starts [] = 0
starts (start ∷ es) = 1 + starts es
starts (_ ∷ es) = starts es

abbrev pub retries : List CandidateLifecycleEvent → ℕ
retries [] = 0
retries (retry ∷ es) = 1 + retries es
retries (_ ∷ es) = retries es

-- 1 once the last attempt has begun.
abbrev pub begun : CandidateLifecycleStatus → ℕ
begun invited = 0
begun opened = 0
begun consent_required = 0
begun ready = 0
begun expired = 0
begun _ = 1

step_balance :
    (s t : CandidateLifecycleStatus) (e : CandidateLifecycleEvent)
    → lifecycle_transitions s e ≡ some t
    → starts (e ∷ []) + begun s ≡ retries (e ∷ []) + begun t
unfolding lifecycle_transitions
step_balance s t e h = ground arith

starts-cons :
    (e : CandidateLifecycleEvent) (es : List CandidateLifecycleEvent)
    → starts (e ∷ es) ≡ starts (e ∷ []) + starts es
starts-cons e es = ground arith

retries-cons :
    (e : CandidateLifecycleEvent) (es : List CandidateLifecycleEvent)
    → retries (e ∷ es) ≡ retries (e ∷ []) + retries es
retries-cons e es = ground arith

-- Along every run the attempts that start are those that are retried, and the one that the last
-- status has begun: from a fresh invitation a session starts once more than it is retried, at most.
pub run_balance :
    (es : List CandidateLifecycleEvent) (s t : CandidateLifecycleStatus)
    → run es s ≡ some t
    → starts es + begun s ≡ retries es + begun t
unfolding run
run_balance [] s t h = let same : s ≡ t = cc in rw same refl
run_balance (e ∷ es) s t h = elim (Option-cases (lifecycle_transitions s e)) [
  | inl n ↦ let gone : none ≡ some t = rw n at h in cc
  | inr (u, m) ↦
      let rest : run es u ≡ some t = rw m at h in
      omega
        (arith, starts-cons e es, retries-cons e es, step_balance s u e m, run_balance es u t rest)
]

-- A run from a terminal status has no event.
pub terminal_run :
    (es : List CandidateLifecycleEvent) (s t : CandidateLifecycleStatus)
    → is_terminal s ≡ true
    → run es s ≡ some t
    → (es ≡ []) × (t ≡ s)
unfolding run is_terminal lifecycle_transitions
terminal_run [] s t terminal h = let same : s ≡ t = cc in (refl, rw same refl)
terminal_run (e ∷ es) s t terminal h = ground arith
