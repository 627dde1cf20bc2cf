-- ===== src/Lifecycle/Transitions.antt =====
-- What the lifecycle's table allows, from each status.
use prelude.Base.{
  In, sym, ℕ, ◌≡◌, ◌↔◌, ◌⊎◌, refl, inl, inr, true, false, Option, none, some, List, [], ◌∷◌, any,
  ◌==◌, ==→eq, ==-refl, arith, Bool-cases,
}
use prelude.Lifecycle.{
  CandidateLifecycleStatus, invited, opened, consent_required, ready, starting, in_progress,
  reconnecting, completed, abandoned, failed, expired, superseded, StatusText, is_terminal,
  is_active, CandidateLifecycleEvent, abandon, fail, expire, retry, lifecycle_transitions,
  normalize_candidate_lifecycle_status, legacy_status_map, transition_candidate_lifecycle,
  can_transition_candidate_lifecycle, accepted, missing, resolve_candidate_consent_gate,
  retry_new_attempt, reject, resolve_candidate_start_policy,
}

-- A status that takes an event, and is not terminal.
takes :
    (s : CandidateLifecycleStatus) (e : CandidateLifecycleEvent) {t : CandidateLifecycleStatus}
    → lifecycle_transitions s e ≡ some t
    → is_terminal s ≡ false
    → ((e : CandidateLifecycleEvent) → lifecycle_transitions s e ≡ none) ↔ (is_terminal s ≡ true)
takes s e h n = ((λ k. let l = k e in cc), (λ t. cc))

-- A status takes no event at all exactly when it is one of the terminal statuses.
pub terminal_iff :
    (s : CandidateLifecycleStatus)
    → ((e : CandidateLifecycleEvent) → lifecycle_transitions s e ≡ none) ↔ (is_terminal s ≡ true)
unfolding lifecycle_transitions is_terminal
terminal_iff invited = takes invited expire refl refl
terminal_iff opened = takes opened expire refl refl
terminal_iff consent_required = takes consent_required expire refl refl
terminal_iff ready = takes ready expire refl refl
terminal_iff starting = takes starting fail refl refl
terminal_iff in_progress = takes in_progress fail refl refl
terminal_iff reconnecting = takes reconnecting fail refl refl
terminal_iff completed = ((λ _. refl), (λ _ e. refl))
terminal_iff abandoned = takes abandoned retry refl refl
terminal_iff failed = takes failed retry refl refl
terminal_iff expired = ((λ _. refl), (λ _ e. refl))
terminal_iff superseded = ((λ _. refl), (λ _ e. refl))

-- The start policy of a text: a text that is no status is rejected as unknown, a terminal status is
-- rejected by its own name, and a new attempt is retried exactly where the table takes `retry`.
pub start_policy_agrees :
    (text : StatusText)
    → ((resolve_candidate_start_policy (some text) ≡ retry_new_attempt)
        ↔ (can_transition_candidate_lifecycle (some text) retry ≡ true))
      × ((s : CandidateLifecycleStatus)
          → normalize_candidate_lifecycle_status (some text) ≡ some s
          → (resolve_candidate_start_policy (some text) ≡ reject (some s)) ↔ (is_terminal s ≡ true))
      × ((resolve_candidate_start_policy (some text) ≡ reject none)
          ↔ (normalize_candidate_lifecycle_status (some text) ≡ none))
unfolding resolve_candidate_start_policy can_transition_candidate_lifecycle
    transition_candidate_lifecycle lifecycle_transitions normalize_candidate_lifecycle_status
    legacy_status_map is_terminal
start_policy_agrees text = ground arith

-- Abandoning and failing are possible exactly in the active statuses, and expiry exactly in the
-- statuses that are neither active nor terminal and take no `retry`.
pub interruptions :
    (s : CandidateLifecycleStatus)
    → ((lifecycle_transitions s abandon ≡ some abandoned) ↔ (is_active s ≡ true))
      × ((lifecycle_transitions s fail ≡ some failed) ↔ (is_active s ≡ true))
      × ((lifecycle_transitions s expire ≡ some expired) ↔ (
          (is_active s ≡ false) × (is_terminal s ≡ false) × (lifecycle_transitions s retry ≡ none)))
unfolding lifecycle_transitions is_active is_terminal
interruptions s = ground arith

any-In : (v : ℕ) (xs : List ℕ) → any (λ x. x == v) xs ≡ true → In v xs
any-In v [] h = absurd (clash h)
  where
    clash : false ≡ true → ⊥
    clash h = cc
any-In v (x ∷ xs) h = elim (Bool-cases (x == v)) [
  | inl e ↦ inl (sym (==→eq x v e))
  | inr e ↦ let rest : any (λ y. y == v) xs ≡ true = rw e at h in inr (any-In v xs rest)
]

In-any : (v : ℕ) (xs : List ℕ) → In v xs → any (λ x. x == v) xs ≡ true
In-any v [] m = absurd m
In-any v (x ∷ xs) (inl e) = rw (← e, ==-refl v) refl
In-any v (x ∷ xs) (inr m) = let rest = In-any v xs m in ground arith

none_of : {A P : Type 0} {a b : A} → (some a ≡ none) ⊎ (some b ≡ none) → P
none_of (inl e) = cc
none_of (inr e) = cc

not_among :
    {P : Type 0} (v w : ℕ) (xs : List ℕ)
    → any (λ x. x == v) xs ≡ false
    → some v ≡ some w
    → In w xs
    → P
not_among v w xs e h m =
    let same : v ≡ w = cc in let found : any (λ x. x == v) xs ≡ true = rw same (In-any w xs m) in cc

-- A consent is accepted exactly when it has an instant, and a version that is among the required
-- ones; it is missing exactly when it lacks one of the two.
pub consent_gate_iff :
    (version consented_at : Option ℕ) (required : List ℕ)
    → ((resolve_candidate_consent_gate version consented_at required ≡ accepted)
        ↔ ((v : ℕ) × (at : ℕ) × (version ≡ some v) × (consented_at ≡ some at) × In v required))
      × ((resolve_candidate_consent_gate version consented_at required ≡ missing)
          ↔ ((version ≡ none) ⊎ (consented_at ≡ none)))
unfolding resolve_candidate_consent_gate
consent_gate_iff none consented_at required =
    (((λ h. cc), (λ (v, at, e, _, _). cc)), ((λ _. inl refl), (λ _. refl)))
consent_gate_iff (some v) none required =
    (((λ h. cc), (λ (v, at, _, e, _). cc)), ((λ _. inr refl), (λ _. refl)))
consent_gate_iff (some v) (some at) required = elim (Bool-cases (any (λ x. x == v) required)) [
  | inl e ↦ rw e (
    ((λ _. (v, at, refl, refl, any-In v required e)), (λ _. refl)),
    ((λ h. cc), (λ h. none_of h)),
  )
  | inr e ↦ rw e (
    ((λ h. cc), (λ (w, t, ew, _, m). not_among v w required e ew m)),
    ((λ h. cc), (λ h. none_of h)),
  )
]
