-- ===== src/BillableCompletion.antt =====
-- packages/core/src/domain/billable-completion.ts: when an interview is billable.
-- The ratio is a fraction, so that `Math.ceil(count * ratio)` is exact.
pub mod Tests
use prelude.Base.{
  ℕ, ◌+◌, ◌-◌, ◌*◌, ◌/◌, ◌≤◌, ◌≡◌, ◌↔◌, Bool, true, Option, none, some, List, arith, leb,
  if◌then◌else◌, length, filter,
}
use prelude.Base.Int.{ℤ, pos, leb_ℤ, pos_part}
use Prim.Native.Nat.{max}

pub record Ratio : Type 0 where
  pub numerator : ℕ
  pub denominator : ℕ

abbrev pub billable_threshold_ratio : Ratio
billable_threshold_ratio = record { numerator = 1; denominator = 2 }

abbrev pub billable_minimum_answers : ℕ
billable_minimum_answers = 3

-- The completion reasons of the live event store; only `answered` counts.
pub data CompletionReason : Type 0 where
  answered : CompletionReason
  other : ℕ → CompletionReason

abbrev pub is_answered : CompletionReason → Bool
is_answered answered = true
is_answered (other _) = Bool.false

pub record BillableCompletion : Type 0 where
  pub billable : Bool
  pub answered_count : ℕ
  pub required_count : ℕ

-- `Math.ceil(count * ratio)`
abbrev ceil_times : ℕ → Ratio → ℕ
ceil_times count ratio = (count * ratio.numerator + (ratio.denominator - 1)) / ratio.denominator

abbrev or_default : Option Ratio → Ratio
or_default none = billable_threshold_ratio
or_default (some ratio) = ratio

unfoldable pub evaluate_billable_completion :
    ℤ → List CompletionReason → Option Ratio → BillableCompletion
evaluate_billable_completion planned_question_count outcomes threshold_ratio =
    let ratio = or_default threshold_ratio in
    if leb_ℤ planned_question_count (pos 0)
    then record { billable = Bool.false; answered_count = 0; required_count = 0 }
    else let answered_count = length (filter is_answered outcomes) in
      let required_count =
        max billable_minimum_answers (ceil_times (pos_part planned_question_count) ratio) in
      record {
        billable = leb required_count answered_count;
        answered_count = answered_count;
        required_count = required_count;
      }

-- Under the default ratio a plan of `planned` questions is billable exactly when it has a question,
-- at least three outcomes are answered, and the answered ones are at least half of the plan.
pub billable_iff :
    (planned : ℤ) (outcomes : List CompletionReason)
    → ((evaluate_billable_completion planned outcomes none).billable ≡ true) ↔ (
        (1 ≤ pos_part planned)
        × (3 ≤ length (filter is_answered outcomes))
        × (pos_part planned ≤ 2 * length (filter is_answered outcomes)))
unfolding evaluate_billable_completion
billable_iff planned outcomes = ground arith

-- One more answered question never makes a billable interview unbillable, at any ratio.
pub billable_mono :
    (planned : ℤ) (outcomes more : List CompletionReason) (ratio : Option Ratio)
    → length (filter is_answered outcomes) ≤ length (filter is_answered more)
    → (evaluate_billable_completion planned outcomes ratio).billable ≡ true
    → (evaluate_billable_completion planned more ratio).billable ≡ true
unfolding evaluate_billable_completion
billable_mono planned outcomes more ratio h b = ground arith
