-- ===== src/Stripe/Reprocess/Selected.antt =====
-- Which archived events a backfill pass takes up.
use prelude.Base.{
  ℕ, zero, suc, ◌≤◌, ◌≡◌, ◌⊎◌, inl, inr, refl, sym, ap, ◌∙◌, subst, Bool, true, false, List, [],
  ◌∷◌, ◌&&◌, ◌||◌, ==-refl, Bool-cases, arith, length, All, All-map, All-filter, All-of_filter, In,
  In-All, any, filter,
}
use prelude.Base.Int.{pos, leb_ℤ, ◌-ℤ◌}
use prelude.CreditLots.Sort.{sort, Before, Sorted, All-sort, All-of_sort, sort-Sorted}
use prelude.Stripe.{EventType, StripeWebhookEvent, ArchivedStatus, settled, ignored}
use prelude.Stripe.Reprocess.{
  is_ignored, type_code, same_type, is_candidate, by_received_at, take, select_rows,
}

length-take : {A : Type 0} (n : ℕ) (xs : List A) → length (take n xs) ≤ n
length-take zero xs = omega arith
length-take (suc n) [] = omega arith
length-take (suc n) (x ∷ xs) = omega (arith, length-take n xs)

take-all : {A : Type 0} (n : ℕ) (xs : List A) → (n ≤ length (take n xs)) ⊎ (take n xs ≡ xs)
take-all zero xs = inl (omega arith)
take-all (suc n) [] = inr refl
take-all (suc n) (x ∷ xs) = elim (take-all n xs) [
  | inl h ↦ inl (omega (arith, h))
  | inr e ↦ inr (ap (λ ys. x ∷ ys) e)
]

All-take : {A : Type 0} (P : A → Type 0) (n : ℕ) (xs : List A) → All P xs → All P (take n xs)
All-take P zero xs h = tt
All-take P (suc n) [] h = tt
All-take P (suc n) (x ∷ xs) h = (h.0, All-take P n xs h.1)

same_type→eq : (a b : EventType) → same_type a b ≡ true → a ≡ b
same_type→eq a b h = ground arith

received_total :
    (a b : StripeWebhookEvent)
    → leb_ℤ (by_received_at a b) (pos 0) ≡ false
    → Before by_received_at b a
unfolding ◌-ℤ◌
received_total a b h = ground arith

received_trans :
    (a b c : StripeWebhookEvent)
    → Before by_received_at a b
    → Before by_received_at b c
    → Before by_received_at a c
unfolding ◌-ℤ◌
received_trans a b c h k = ground arith

received_bound :
    (a b : StripeWebhookEvent) → Before by_received_at a b → a.received_at ≤ b.received_at
unfolding ◌-ℤ◌
received_bound a b h = ground arith

-- The rows that were received first come first.
abbrev pub OldestFirst : List StripeWebhookEvent → Type 0
OldestFirst [] = Unit
OldestFirst (row ∷ rows) =
    All (λ later. row.received_at ≤ later.received_at) rows × OldestFirst rows

take-OldestFirst :
    (n : ℕ) (rows : List StripeWebhookEvent)
    → Sorted by_received_at rows
    → OldestFirst (take n rows)
take-OldestFirst zero rows h = tt
take-OldestFirst (suc n) [] h = tt
take-OldestFirst (suc n) (row ∷ rows) h = (
  All-take (λ later. row.received_at ≤ later.received_at) n rows
      (All-map rows (received_bound row) h.0),
  take-OldestFirst n rows h.1,
)

-- Ignored, and of one of the types.
abbrev pub IsTakenUp : List EventType → StripeWebhookEvent → Type 0
IsTakenUp types row = (row.status ≡ settled ignored) × In row.type types

any-In :
    (type : EventType) (types : List EventType) → any (same_type type) types ≡ true → In type types
any-In type [] h = cc
any-In type (t ∷ types) h = elim (Bool-cases (same_type type t)) [
  | inl e ↦ inl (same_type→eq type t e)
  | inr e ↦ inr (any-In type types (rw e at h))
]

In-any :
    (type : EventType) (types : List EventType) → In type types → any (same_type type) types ≡ true
In-any type [] i = absurd i
In-any type (t ∷ types) (inl e) =
    let here : same_type type t ≡ true = ap (same_type type) (sym e) ∙ ==-refl (type_code type) in
    rw here refl
In-any type (t ∷ types) (inr i) = rw (In-any type types i) (or_true (same_type type t))
  where
    or_true : (b : Bool) → (b || true) ≡ true
    or_true true = refl
    or_true false = refl

ignored_status : (status : ArchivedStatus) → is_ignored status ≡ true → status ≡ settled ignored
ignored_status status h = ground arith

both_true : (a b : Bool) → (a && b) ≡ true → (a ≡ true) × (b ≡ true)
both_true a b h = ground arith

candidate-IsTakenUp :
    (types : List EventType) (row : StripeWebhookEvent)
    → is_candidate types row ≡ true
    → IsTakenUp types row
candidate-IsTakenUp types row h =
    let parts = both_true (is_ignored row.status) (any (same_type row.type) types) h in
    (ignored_status row.status parts.0, any-In row.type types parts.1)

IsTakenUp-candidate :
    (types : List EventType) (row : StripeWebhookEvent)
    → IsTakenUp types row
    → is_candidate types row ≡ true
IsTakenUp-candidate types row (status, listed) =
    ap (λ t. is_ignored t && any (same_type row.type) types) status ∙ In-any row.type types listed

-- The selection of a pass: rows of the archive that are ignored and of one of the types, the oldest first,
-- no more than the limit, and all of them unless the limit is reached.
pub record IsSelection (types : List EventType) (limit : ℕ) (events rows : List StripeWebhookEvent)
    : Type 0 where
  pub taken_up : All (λ row. In row events × IsTakenUp types row) rows
  pub oldest_first : OldestFirst rows
  pub limited : length rows ≤ limit
  pub complete : (limit ≤ length rows) ⊎ All (λ row. IsTakenUp types row → In row rows) events

pub select_rows-IsSelection :
    (types : List EventType) (limit : ℕ) (events : List StripeWebhookEvent)
    → IsSelection types limit events (select_rows types limit events)
unfolding select_rows
select_rows-IsSelection types limit events =
    let candidates = filter (is_candidate types) events in
    let sorted = sort by_received_at candidates in
    record {
      taken_up =
          All-take (λ row. In row events × IsTakenUp types row) limit sorted
            (All-sort by_received_at _ candidates (
              All-map candidates (λ row h. (h.0, candidate-IsTakenUp types row h.1))
                (All-filter (λ row. In row events) (is_candidate types) events (In-All events))));
      oldest_first =
          take-OldestFirst limit sorted
            (sort-Sorted by_received_at received_total received_trans candidates);
      limited = length-take limit sorted;
      complete = elim (take-all limit sorted) [
        | inl full ↦ inl full
        | inr whole ↦ inr (
            All-map events
              (λ row h taken. subst (In row) (sym whole) (h (IsTakenUp-candidate types row taken)))
              (All-of_filter (λ row. In row sorted) (is_candidate types) events
                (All-of_sort by_received_at (λ row. In row sorted) candidates (In-All sorted))))
      ];
    }
