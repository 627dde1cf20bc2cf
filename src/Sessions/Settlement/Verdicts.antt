-- ===== src/Sessions/Settlement/Verdicts.antt =====
-- The outcomes of a session's questions: one for each question, its last one.
use prelude.Base.{
  ◌≡◌, refl, sym, ap, ◌∙◌, Bool, true, false, Option, none, some, List, [], ◌∷◌, if◌then◌else◌,
  Bool-cases, inl, inr, ◌⊎◌,
}
use prelude.BillableCompletion.{CompletionReason}
use prelude.Ledger.Schema.{Text}
use prelude.Ledger.Purchase.{same_text}
use prelude.Texts.{is_empty, same_text_refl, same_text→eq}
use prelude.Sessions.{LiveInterviewEvent}
use prelude.Sessions.Settlement.{
  Outcomes, set_outcome, collect, collect_all, question_id_of, reason_text_of, to_reason,
}

unfoldable pub find_outcome : Text → Outcomes → Option CompletionReason
find_outcome k [] = none
find_outcome k ((j, v) ∷ m) = let rest = find_outcome k m in if same_text j k then some v else rest

-- No question has two outcomes.
abbrev pub IsDistinct : Outcomes → Type 0
IsDistinct [] = Unit
IsDistinct ((k, v) ∷ m) = (find_outcome k m ≡ none) × IsDistinct m

-- The verdict of the last event of a question, after an earlier one.
unfoldable pub last_verdict :
    Text → List LiveInterviewEvent → Option CompletionReason → Option CompletionReason
last_verdict k [] earlier = earlier
last_verdict k (event ∷ events) earlier = last_verdict k events (
    if same_text (question_id_of event) k then some (to_reason (reason_text_of event)) else earlier)

-- Two keys that are not the same are not both the same as a third one.
same_text-apart :
    (i j k : Text) → same_text i j ≡ false → (same_text i k ≡ false) ⊎ (same_text j k ≡ false)
same_text-apart i j k h = elim (Bool-cases (same_text i k)) [
  | inr e ↦ inl e
  | inl e ↦ elim (Bool-cases (same_text j k)) [
    | inr f ↦ inr f
    | inl f ↦
        let same : i ≡ j = same_text→eq i k e ∙ sym (same_text→eq j k f) in
        let yes : same_text i j ≡ true = ap (same_text i) (sym same) ∙ same_text_refl i in cc
  ]
]

find_outcome-set_outcome :
    (k j : Text) (v : CompletionReason) (m : Outcomes)
    → find_outcome k (set_outcome j v m) ≡ (if same_text j k then some v else find_outcome k m)
unfolding find_outcome set_outcome
find_outcome-set_outcome k j v [] = refl
find_outcome-set_outcome k j v ((i, w) ∷ m) = elim (Bool-cases (same_text i j)) [
  | inl e ↦ let same : i ≡ j = same_text→eq i j e in rw e (rw same (both (same_text j k)))
  | inr e ↦ rw (e, find_outcome-set_outcome k j v m) (apart (same_text-apart i j k e))
]
  where
    both :
        (b : Bool)
        → (if b then some v else find_outcome k m)
          ≡ (if b then some v else (if b then some w else find_outcome k m))
    both true = refl
    both false = refl

    swap :
        (a b : Bool)
        → (a ≡ false) ⊎ (b ≡ false)
        → (if a then some w else (if b then some v else find_outcome k m))
          ≡ (if b then some v else (if a then some w else find_outcome k m))
    swap true true (inl e) = cc
    swap true true (inr e) = cc
    swap true false e = refl
    swap false true e = refl
    swap false false e = refl

    apart :
        (same_text i k ≡ false) ⊎ (same_text j k ≡ false)
        → (if same_text i k then some w else (if same_text j k then some v else find_outcome k m))
          ≡ (if same_text j k then some v else (if same_text i k then some w else find_outcome k m))
    apart = swap (same_text i k) (same_text j k)

set_outcome-IsDistinct :
    (k : Text) (v : CompletionReason) (m : Outcomes) → IsDistinct m → IsDistinct (set_outcome k v m)
unfolding set_outcome find_outcome
set_outcome-IsDistinct k v [] d = (refl, tt)
set_outcome-IsDistinct k v ((j, w) ∷ m) d = elim (Bool-cases (same_text j k)) [
  | inl e ↦ rw e d
  | inr e ↦
      let other : same_text k j ≡ false = elim (Bool-cases (same_text k j)) [
        | inl f ↦
            let yes : same_text j k ≡ true =
              ap (same_text j) (same_text→eq k j f) ∙ same_text_refl j in
            cc
        | inr f ↦ f
      ] in
      rw e (find_outcome-set_outcome j k v m ∙ rw other d.0, set_outcome-IsDistinct k v m d.1)
]

collect-IsDistinct :
    (event : LiveInterviewEvent) (id : Text) (m : Outcomes)
    → IsDistinct m
    → IsDistinct (collect event id m)
unfolding collect
collect-IsDistinct event [] m d = d
collect-IsDistinct event (c ∷ t) m d = set_outcome-IsDistinct (c ∷ t) _ m d

find_outcome-collect :
    (k : Text) (event : LiveInterviewEvent) (id : Text) (m : Outcomes)
    → is_empty k ≡ false
    → find_outcome k (collect event id m)
      ≡ (if same_text id k then some (to_reason (reason_text_of event)) else find_outcome k m)
unfolding collect same_text
find_outcome-collect [] event id m h = cc
find_outcome-collect (b ∷ k) event [] m h = refl
find_outcome-collect (b ∷ k) event (c ∷ t) m h = find_outcome-set_outcome (b ∷ k) (c ∷ t) _ m

pub collect_all-IsDistinct :
    (events : List LiveInterviewEvent) (m : Outcomes)
    → IsDistinct m
    → IsDistinct (collect_all events m)
unfolding collect_all
collect_all-IsDistinct [] m d = d
collect_all-IsDistinct (event ∷ events) m d =
    collect_all-IsDistinct events _ (collect-IsDistinct event (question_id_of event) m d)

pub find_outcome-collect_all :
    (k : Text) (events : List LiveInterviewEvent) (m : Outcomes)
    → is_empty k ≡ false
    → find_outcome k (collect_all events m) ≡ last_verdict k events (find_outcome k m)
unfolding collect_all last_verdict
find_outcome-collect_all k [] m h = refl
find_outcome-collect_all k (event ∷ events) m h =
    find_outcome-collect_all k events (collect event (question_id_of event) m) h
    ∙ ap (last_verdict k events) (find_outcome-collect k event (question_id_of event) m h)
