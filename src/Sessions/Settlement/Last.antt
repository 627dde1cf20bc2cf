-- ===== src/Sessions/Settlement/Last.antt =====
-- The verdict of a question: that of its last event in the live session.
use prelude.Base.{
  ℕ, ◌≡◌, ◌≤◌, ◌⊎◌, inl, inr, refl, sym, ap, ◌∙◌, Bool, true, false, Bool-cases, Option, none, some,
  List, [], ◌∷◌, ◌==◌, ◌&&◌, ==→eq, ==-refl, All, All-map, All-filter, All-of_filter, In, In-All,
  filter, map, arith, subst,
}
use prelude.Base.Int.{pos, leb_ℤ, ◌-ℤ◌}
use prelude.BillableCompletion.{CompletionReason, answered}
use prelude.CreditLots.Sort.{Before, Sorted, All-sort, All-of_sort, sort-Sorted}
use prelude.Ledger.Schema.{Text}
use prelude.Ledger.Purchase.{same_text}
use prelude.Texts.{codes, key_of, is_empty, same_text_refl, same_text→eq}
use prelude.Sessions.{LiveInterviewEvent, LiveEventType, question_completed}
use prelude.Sessions.Settlement.{
  collect_all, question_id_of, reason_text_of, read_payload_string, payload_of, to_reason,
  by_sequence, is_question_completed, completed_events, question_outcomes,
}
use prelude.Sessions.Settlement.Verdicts.{
  find_outcome, IsDistinct, last_verdict, collect_all-IsDistinct, find_outcome-collect_all,
}

-- The text that two keys of a payload hold: the first one's, unless it is absent or empty.
abbrev pub IsRead : Option Text → Option Text → Text → Type 0
IsRead first second t =
    ((first ≡ some t) × (is_empty t ≡ false))
    ⊎ (((first ≡ none) ⊎ (first ≡ some [])) × ((second ≡ some t) ⊎ ((second ≡ none) × (t ≡ []))))

read_payload_string-IsRead :
    (first second : Option Text) → IsRead first second (read_payload_string first second)
unfolding read_payload_string
read_payload_string-IsRead (some (c ∷ t)) second = inl (refl, refl)
read_payload_string-IsRead (some []) (some t) = inr (inr refl, inl refl)
read_payload_string-IsRead (some []) none = inr (inr refl, inr (refl, refl))
read_payload_string-IsRead none (some t) = inr (inl refl, inl refl)
read_payload_string-IsRead none none = inr (inl refl, inr (refl, refl))

IsRead-read_payload_string :
    (first second : Option Text) (t : Text)
    → IsRead first second t
    → read_payload_string first second ≡ t
unfolding read_payload_string
IsRead-read_payload_string (some (c ∷ u)) second t (inl (e, h)) = cc
IsRead-read_payload_string (some []) second t (inl (e, h)) =
    let same : [] ≡ t = cc in let no : is_empty [] ≡ false = ap is_empty same ∙ h in cc
IsRead-read_payload_string none second t (inl (e, h)) = cc
IsRead-read_payload_string (some (c ∷ u)) second t (inr (inl e, h)) = cc
IsRead-read_payload_string (some (c ∷ u)) second t (inr (inr e, h)) = cc
IsRead-read_payload_string (some []) (some v) t (inr (e, inl h)) = cc
IsRead-read_payload_string (some []) (some v) t (inr (e, inr (h, k))) = cc
IsRead-read_payload_string (some []) none t (inr (e, inl h)) = cc
IsRead-read_payload_string (some []) none t (inr (e, inr (h, k))) = sym k
IsRead-read_payload_string none (some v) t (inr (e, inl h)) = cc
IsRead-read_payload_string none (some v) t (inr (e, inr (h, k))) = cc
IsRead-read_payload_string none none t (inr (e, inl h)) = cc
IsRead-read_payload_string none none t (inr (e, inr (h, k))) = sym k

-- Only the text "answered" is an answer.
abbrev pub IsReason : Text → CompletionReason → Type 0
IsReason t answered = t ≡ codes "answered"
IsReason t (CompletionReason.other key) = (t ≡ codes "answered" → ⊥) × (key ≡ key_of t)

to_reason-IsReason : (t : Text) → IsReason t (to_reason t)
to_reason-IsReason t = elim (Bool-cases (same_text t (codes "answered"))) [
  | inl e ↦ rw e (same_text→eq t (codes "answered") e)
  | inr e ↦ rw e (
    (λ same.
        let yes : same_text t (codes "answered") ≡ true =
          ap (same_text t) (sym same) ∙ same_text_refl t in
        cc),
    refl,
  )
]

-- An event of the live session that completes the question `k`.
abbrev pub Completes : ℕ → Text → LiveInterviewEvent → Type 0
Completes realtime k event =
    (event.session_id ≡ realtime)
    × (event.type ≡ question_completed)
    × IsRead (payload_of event.payload).question_id (payload_of event.payload).question_id_camel k

-- A question without an event has no verdict, and else the verdict is the reason of the event with the
-- greatest sequence number among those that complete the question.
abbrev pub IsLastReason : ℕ → List LiveInterviewEvent → Text → Option CompletionReason → Type 0
IsLastReason realtime events k none = All (λ event. Completes realtime k event → ⊥) events
IsLastReason realtime events k (some verdict) =
    (event : LiveInterviewEvent) × In event events
    × Completes realtime k event
    × All (λ other. Completes realtime k other → other.sequence_number ≤ event.sequence_number)
        events
    × (reason : Text) × IsRead (payload_of event.payload).completion_reason
        (payload_of event.payload).completion_reason_camel reason
    × IsReason reason verdict

sequence_total :
    (a b : LiveInterviewEvent) → leb_ℤ (by_sequence a b) (pos 0) ≡ false → Before by_sequence b a
unfolding ◌-ℤ◌
sequence_total a b h = ground arith

sequence_trans :
    (a b c : LiveInterviewEvent)
    → Before by_sequence a b
    → Before by_sequence b c
    → Before by_sequence a c
unfolding ◌-ℤ◌
sequence_trans a b c h k = ground arith

sequence_refl : (a : LiveInterviewEvent) → Before by_sequence a a
unfolding ◌-ℤ◌
sequence_refl a = ground arith

sequence_bound :
    (a b : LiveInterviewEvent) → Before by_sequence a b → a.sequence_number ≤ b.sequence_number
unfolding ◌-ℤ◌
sequence_bound a b h = ground arith

All-In {κ} : {A : Type 0} (P : A → Type κ) (a : A) (xs : List A) → In a xs → All P xs → P a
All-In P a [] i h = absurd i
All-In P a (x ∷ xs) (inl e) h = subst P (sym e) h.0
All-In P a (x ∷ xs) (inr i) h = All-In P a xs i h.1

abbrev names : Text → LiveInterviewEvent → Bool
names k event = same_text (question_id_of event) k

-- The last event of a question in a list, and none where no event names it.
abbrev IsLastIn : Text → List LiveInterviewEvent → LiveInterviewEvent → Type 0
IsLastIn k events event =
    In event events
    × (names k event ≡ true)
    × All (λ other. names k other ≡ true → Before by_sequence other event) events

last_verdict-cases :
    (k : Text) (events : List LiveInterviewEvent) (earlier : Option CompletionReason)
    → Sorted by_sequence events
    → ((last_verdict k events earlier ≡ earlier) × All (λ other. names k other ≡ false) events)
      ⊎ ((event : LiveInterviewEvent) × IsLastIn k events event
          × (last_verdict k events earlier ≡ some (to_reason (reason_text_of event))))
unfolding last_verdict
last_verdict-cases k [] earlier sorted = inl (refl, tt)
last_verdict-cases k (event ∷ events) earlier sorted = elim (Bool-cases (names k event)) [
  | inl e ↦
      rw e (elim (last_verdict-cases k events (some (to_reason (reason_text_of event))) sorted.1) [
        | inl (same, others) ↦ inr (
          event,
          (inl refl, e, ((λ _. sequence_refl event), All-map events (λ other n y. cc) others)),
          same,
        )
        | inr (last, (listed, named, bound), same) ↦ inr (
          last,
          (
            inr listed,
            named,
            ((λ _. All-In (Before by_sequence event) last events listed sorted.0), bound),
          ),
          same,
        )
      ])
  | inr e ↦ rw e (elim (last_verdict-cases k events earlier sorted.1) [
    | inl (same, others) ↦ inl (same, (refl, others))
    | inr (last, (listed, named, bound), same) ↦ inr (
      last,
      (
        inr listed,
        named,
        ((λ _. All-In (Before by_sequence event) last events listed sorted.0), bound),
      ),
      same,
    )
  ])
]

abbrev is_of : ℕ → LiveInterviewEvent → Bool
is_of realtime event = event.session_id == realtime && is_question_completed event.type

completed_type :
    (type : LiveEventType) → is_question_completed type ≡ true → type ≡ question_completed
completed_type question_completed h = refl
completed_type (LiveEventType.other n) h = cc

both_true : (a b : Bool) → (a && b) ≡ true → (a ≡ true) × (b ≡ true)
both_true a b h = ground arith

is_of-names-Completes :
    (realtime : ℕ) (k : Text) (event : LiveInterviewEvent)
    → is_of realtime event ≡ true
    → names k event ≡ true
    → Completes realtime k event
unfolding question_id_of
is_of-names-Completes realtime k event h n =
    let parts = both_true (event.session_id == realtime) (is_question_completed event.type) h in
    let payload = payload_of event.payload in
    (
      ==→eq event.session_id realtime parts.0,
      completed_type event.type parts.1,
      subst (IsRead payload.question_id payload.question_id_camel)
          (same_text→eq (question_id_of event) k n)
          (read_payload_string-IsRead payload.question_id payload.question_id_camel),
    )

Completes-is_of :
    (realtime : ℕ) (k : Text) (event : LiveInterviewEvent)
    → Completes realtime k event
    → (is_of realtime event ≡ true) × (names k event ≡ true)
unfolding question_id_of
Completes-is_of realtime k event (here, type, read) =
    let payload = payload_of event.payload in
    let same : question_id_of event ≡ k =
      IsRead-read_payload_string payload.question_id payload.question_id_camel k read in
    (
      ap (λ n. n == realtime && is_question_completed event.type) here
          ∙ ap (λ t. realtime == realtime && is_question_completed t) type
          ∙ ap (λ b. b && true) (==-refl realtime),
      ap (λ t. same_text t k) same ∙ same_text_refl k,
    )

reason-IsRead :
    (event : LiveInterviewEvent)
    → IsRead
        (payload_of event.payload).completion_reason
        (payload_of event.payload).completion_reason_camel
        (reason_text_of event)
unfolding reason_text_of
reason-IsRead event =
    let payload = payload_of event.payload in
    read_payload_string-IsRead payload.completion_reason payload.completion_reason_camel

-- A statement on the sorted events of a session is one on its events among all the others.
unsorted :
    (P : LiveInterviewEvent → Type 0) (realtime : ℕ) (events : List LiveInterviewEvent)
    → All P (completed_events realtime events)
    → All (λ event. is_of realtime event ≡ true → P event) events
unfolding completed_events
unsorted P realtime events h =
    All-of_filter P (is_of realtime) events
      (All-of_sort by_sequence P (filter (is_of realtime) events) h)

completed-of :
    (realtime : ℕ) (events : List LiveInterviewEvent)
    → All
        (λ event. In event events × (is_of realtime event ≡ true))
        (completed_events realtime events)
unfolding completed_events
completed-of realtime events =
    All-sort by_sequence _ (filter (is_of realtime) events)
      (All-filter (λ event. In event events) (is_of realtime) events (In-All events))

completed-Sorted :
    (realtime : ℕ) (events : List LiveInterviewEvent)
    → Sorted by_sequence (completed_events realtime events)
unfolding completed_events
completed-Sorted realtime events =
    sort-Sorted by_sequence sequence_total sequence_trans (filter (is_of realtime) events)

last_verdict-IsLastReason :
    (realtime : ℕ) (events : List LiveInterviewEvent) (k : Text)
    → IsLastReason realtime events k (last_verdict k (completed_events realtime events) none)
last_verdict-IsLastReason realtime events k =
    elim (last_verdict-cases k (completed_events realtime events) none
      (completed-Sorted realtime events)) [
        | inl (same, others) ↦ subst (IsLastReason realtime events k) (sym same) (
            All-map events
              (λ event apart c.
                let h = Completes-is_of realtime k event c in
                let no = apart h.0 in let clash : true ≡ false = sym h.1 ∙ no in cc)
              (unsorted (λ event. names k event ≡ false) realtime events others))
        | inr (event, (listed, named, bound), same) ↦
            let found =
              All-In (λ (e : LiveInterviewEvent). In e events × (is_of realtime e ≡ true)) event
                (completed_events realtime events) listed (completed-of realtime events) in
            subst (IsLastReason realtime events k) (sym same) (
              event,
              found.0,
              is_of-names-Completes realtime k event found.1 named,
              All-map events
                  (λ other bounded c.
                    let h = Completes-is_of realtime k other c in
                    sequence_bound other event (bounded h.0 h.1))
                  (unsorted (λ other. names k other ≡ true → Before by_sequence other event)
                    realtime events bound),
              reason_text_of event,
              reason-IsRead event,
              to_reason-IsReason (reason_text_of event),
            )
      ]

-- The completed questions of a live session are counted once each: the outcomes that are counted are those
-- of a map without a question twice, in which the outcome of a named question is the reason of the event
-- with the greatest sequence number among the events of this live session that complete it, whatever
-- order the events stand in; only the reason "answered" is an answer, and a question without such an event
-- has no outcome.
pub one_verdict :
    (realtime : ℕ) (events : List LiveInterviewEvent) (k : Text)
    → is_empty k ≡ false
    → let m = collect_all (completed_events realtime events) [] in
      (question_outcomes realtime events ≡ map (λ (entry : Text × CompletionReason). entry.1) m)
      × IsDistinct m
      × IsLastReason realtime events k (find_outcome k m)
unfolding find_outcome question_outcomes
one_verdict realtime events k h =
    let completed = completed_events realtime events in
    (
      refl,
      collect_all-IsDistinct completed [] tt,
      subst (IsLastReason realtime events k) (sym (find_outcome-collect_all k completed [] h))
          (last_verdict-IsLastReason realtime events k),
    )
