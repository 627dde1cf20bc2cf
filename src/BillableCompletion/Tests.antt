-- ===== src/BillableCompletion/Tests.antt =====
-- Billable completions on small interviews.
use prelude.Base.{◌≤◌, ◌*◌, ◌≡◌, ◌↔◌, true, none, List, [], ◌∷◌}
use prelude.Base.Int.{pos}
use prelude.BillableCompletion.{
  answered, other, CompletionReason, evaluate_billable_completion, billable_iff,
}

abbrev three_answers : List CompletionReason
three_answers = answered ∷ other 1 ∷ answered ∷ answered ∷ []

abbrev four_answers : List CompletionReason
four_answers = answered ∷ answered ∷ answered ∷ answered ∷ []

billable_iff_example :
    ((evaluate_billable_completion (pos 6) three_answers none).billable ≡ true)
    ↔ ((1 ≤ 6) × (3 ≤ 3) × (6 ≤ 2 * 3))
billable_iff_example = billable_iff (pos 6) three_answers
