-- ===== src/Sessions/Admission/Usage.antt =====
-- Which sessions the usage of a period counts.
use prelude.Base.{
  ℕ, suc, ◌≡◌, ◌≤◌, ◌<◌, ◌⊎◌, refl, sym, ap, ◌∙◌, inl, inr, Bool, true, false, not, ◌&&◌, ◌||◌,
  ◌==◌, ==→eq, ==-refl, Option, none, some, List, [], ◌∷◌, Bool-cases, filter, length, arith,
}
use prelude.BillingPolicy.Period.{BillingUsagePeriod}
use prelude.Sessions.{CandidateSession, SessionStatus, failed}
use prelude.Sessions.Admission.{is_failed, is_some_id, in_period, is_counted, count_usage}

-- A session of the organization that started in the period and did not fail, or failed with a live session.
abbrev pub Counts : ℕ → BillingUsagePeriod → CandidateSession → Type 0
Counts org period row =
    (row.organization_id ≡ org)
    × (start : ℕ) × (row.started_at ≡ some start)
    × (period.start ≤ start)
    × (start < period.end)
    × ((row.status ≡ failed → ⊥) ⊎ ((id : ℕ) × (row.realtime_session_id ≡ some id)))

-- As many elements of a list satisfy a predicate.
abbrev pub IsCount : {A : Type 0} → (A → Type 0) → List A → ℕ → Type 0
IsCount P [] n = n ≡ 0
IsCount P (x ∷ xs) n = (P x × (m : ℕ) × (n ≡ suc m) × IsCount P xs m) ⊎ ((P x → ⊥) × IsCount P xs n)

filter-IsCount :
    {A : Type 0} (p : A → Bool) (P : A → Type 0) (xs : List A)
    → ((x : A) → p x ≡ true → P x)
    → ((x : A) → P x → p x ≡ true)
    → IsCount P xs (length (filter p xs))
filter-IsCount p P [] sound whole = refl
filter-IsCount p P (x ∷ xs) sound whole = elim (Bool-cases (p x)) [
  | inl e ↦ rw e (inl (sound x e, length (filter p xs), refl, filter-IsCount p P xs sound whole))
  | inr e ↦ rw e (
      inr (
        (λ h. let clash : true ≡ false = sym (whole x h) ∙ e in cc),
        filter-IsCount p P xs sound whole,
      ))
]

all_three :
    (a b c d : Bool) → (a && b && (c || d)) ≡ true → (a ≡ true) × (b ≡ true) × ((c || d) ≡ true)
all_three a b c d h = ground arith

started :
    (period : BillingUsagePeriod) (at : Option ℕ)
    → in_period period at ≡ true
    → (start : ℕ) × (at ≡ some start) × (period.start ≤ start) × (start < period.end)
started period none h = cc
started period (some start) h = (start, refl, ground arith, ground arith)

lasting :
    (status : SessionStatus) (realtime : Option ℕ)
    → (not (is_failed status) || is_some_id realtime) ≡ true
    → (status ≡ failed → ⊥) ⊎ ((id : ℕ) × (realtime ≡ some id))
lasting status (some id) h = inr (id, refl)
lasting failed none h = cc
lasting (SessionStatus.other n) none h = inl (λ e. cc)

lasts :
    (status : SessionStatus) (realtime : Option ℕ)
    → (status ≡ failed → ⊥) ⊎ ((id : ℕ) × (realtime ≡ some id))
    → (not (is_failed status) || is_some_id realtime) ≡ true
lasts failed none (inl h) = absurd (h refl)
lasts failed none (inr (id, e)) = cc
lasts failed (some id) h = refl
lasts (SessionStatus.other n) realtime h = refl

is_counted-Counts :
    (org : ℕ) (period : BillingUsagePeriod) (row : CandidateSession)
    → is_counted org period row ≡ true
    → Counts org period row
is_counted-Counts org period row h =
    let parts =
      all_three (row.organization_id == org) (in_period period row.started_at)
        (not (is_failed row.status)) (is_some_id row.realtime_session_id) h in
    let (start, at, after, before) = started period row.started_at parts.1 in
    (
      ==→eq row.organization_id org parts.0,
      start,
      at,
      after,
      before,
      lasting row.status row.realtime_session_id parts.2,
    )

within_period :
    (period : BillingUsagePeriod) (start : ℕ)
    → period.start ≤ start
    → start < period.end
    → in_period period (some start) ≡ true
within_period period start h k = ground arith

Counts-is_counted :
    (org : ℕ) (period : BillingUsagePeriod) (row : CandidateSession)
    → Counts org period row
    → is_counted org period row ≡ true
Counts-is_counted org period row (mine, start, at, after, before, kept) =
    let here : (row.organization_id == org) ≡ true = ap (λ n. n == org) mine ∙ ==-refl org in
    let during : in_period period row.started_at ≡ true =
      ap (in_period period) at ∙ within_period period start after before in
    rw (here, during, lasts row.status row.realtime_session_id kept) refl

pub count_usage-IsCount :
    (org : ℕ) (period : BillingUsagePeriod) (rows : List CandidateSession)
    → IsCount (Counts org period) rows (count_usage org period rows)
unfolding count_usage
count_usage-IsCount org period rows =
    filter-IsCount (is_counted org period) (Counts org period) rows (is_counted-Counts org period)
      (Counts-is_counted org period)
