-- ===== src/CreditLots/Selection.antt =====
-- Which lot the next reservation spends: the least eligible one in the consumption order.
use prelude.Base.{
  All-map, ◌<◌, ◌≤◌, ◌⊎◌, ℕ, ◌≡◌, true, false, Option, none, some, List, [], ◌∷◌, arith, All, In,
  In-All, All-filter, All-of_filter, filter, Bool-cases, inl, inr, head?,
}
use prelude.Base.Int.{pos, leb_ℤ, ◌≤ℤ◌}
use prelude.CreditLots.{
  free, paid, CreditLotSnapshot, compare_lots_for_consumption, is_lot_eligible,
  select_lot_for_reservation,
}
use prelude.CreditLots.Sort.{sort, Before, HeadLeast, All-sort, All-of_sort, sort-HeadLeast}

consumption_total :
    (a b : CreditLotSnapshot)
    → leb_ℤ (compare_lots_for_consumption a b) (pos 0) ≡ false
    → Before compare_lots_for_consumption b a
unfolding compare_lots_for_consumption
consumption_total a b h = ground arith

consumption_trans :
    (a b c : CreditLotSnapshot)
    → Before compare_lots_for_consumption a b
    → Before compare_lots_for_consumption b c
    → Before compare_lots_for_consumption a c
unfolding compare_lots_for_consumption
consumption_trans a b c h k = ground arith

-- A free lot is spent before a paid one; of one kind, the lot that expires first, then the one that was
-- granted first, then the one with the lesser id.
abbrev pub IsSpentBefore : CreditLotSnapshot → CreditLotSnapshot → Type 0
IsSpentBefore a b =
    ((a.kind ≡ free) × (b.kind ≡ paid))
    ⊎ ((a.kind ≡ b.kind)
        × ((a.expires_at < b.expires_at)
            ⊎ ((a.expires_at ≡ b.expires_at)
                × ((a.granted_at < b.granted_at)
                    ⊎ ((a.granted_at ≡ b.granted_at) × (a.id ≤ b.id))))))

consumption-IsSpentBefore :
    (a b : CreditLotSnapshot) → Before compare_lots_for_consumption a b → IsSpentBefore a b
unfolding compare_lots_for_consumption
consumption-IsSpentBefore a b h = ground arith

-- The eligible lot that is spent before every other eligible lot, or none when there is no such lot.
abbrev pub Selects : List CreditLotSnapshot → ℕ → Option CreditLotSnapshot → Type 0
Selects lots now none = All (λ m. is_lot_eligible m now ≡ false) lots
Selects lots now (some lot) =
    In lot lots
    × (is_lot_eligible lot now ≡ true)
    × All (λ m. is_lot_eligible m now ≡ true → IsSpentBefore lot m) lots

no_eligible :
    (now : ℕ) (lots : List CreditLotSnapshot)
    → All (λ m. is_lot_eligible m now ≡ true → ⊥) lots
    → All (λ m. is_lot_eligible m now ≡ false) lots
no_eligible now [] h = tt
no_eligible now (m ∷ lots) h = elim (Bool-cases (is_lot_eligible m now)) [
  | inl e ↦ absurd (h.0 e)
  | inr e ↦ (e, no_eligible now lots h.1)
]

consumption_refl : (a : CreditLotSnapshot) → compare_lots_for_consumption a a ≤ℤ pos 0
unfolding compare_lots_for_consumption
consumption_refl a = ground arith

-- What the head of the sorted eligible lots is, given the facts on the sorted list.
head-Selects :
    (lots : List CreditLotSnapshot) (now : ℕ) (sorted : List CreditLotSnapshot)
    → HeadLeast compare_lots_for_consumption sorted
    → All (λ m. In m lots × (is_lot_eligible m now ≡ true)) sorted
    → ((P : CreditLotSnapshot → Type 0)
        → All P sorted
        → All (λ m. is_lot_eligible m now ≡ true → P m) lots)
    → Selects lots now (head? sorted)
head-Selects lots now [] least from back = no_eligible now lots (back (λ _. ⊥) tt)
head-Selects lots now (lot ∷ rest) least from back = (
  from.0.0,
  from.0.1,
  back (IsSpentBefore lot)
      (All-map (lot ∷ rest) (consumption-IsSpentBefore lot) (consumption_refl lot, least)),
)

-- For every list of lots and every time, the lot that is selected is in the list, is eligible and is
-- spent before every eligible lot of the list, or is that lot: a free lot before a paid one, and of one
-- kind the lot that expires first, then the one granted first, then the one with the lesser id. Where
-- none is selected, none is eligible.
pub select_lot_for_reservation-Selects :
    (lots : List CreditLotSnapshot) (now : ℕ)
    → Selects lots now (select_lot_for_reservation lots now)
unfolding select_lot_for_reservation
select_lot_for_reservation-Selects lots now =
    let eligible = filter (λ lot. is_lot_eligible lot now) lots in
    head-Selects lots now (sort compare_lots_for_consumption eligible)
      (sort-HeadLeast compare_lots_for_consumption consumption_total consumption_trans eligible)
      (All-sort compare_lots_for_consumption _ eligible
        (All-filter _ (λ lot. is_lot_eligible lot now) lots (In-All lots)))
      (λ P h.
        All-of_filter P (λ lot. is_lot_eligible lot now) lots
          (All-of_sort compare_lots_for_consumption P eligible h))
