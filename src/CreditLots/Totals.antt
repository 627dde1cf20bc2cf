-- ===== src/CreditLots/Totals.antt =====
-- The totals of a wallet: each is a sum over the lots, free and paid lots split the available
-- credits, and the next expiry is that of the soonest eligible lot.
use prelude.Base.{
  ℕ, ◌≤◌, ◌≡◌, refl, Bool, true, false, ◌&&◌, Option, none, some, List, [], ◌∷◌, arith, All, In,
  In-All, All-filter, All-of_filter, filter, Bool-cases, inl, inr, head?, if◌then◌else◌, not, ap,
  ◌∙◌,
}
use prelude.Base.Int.{ℤ, pos, leb_ℤ, ◌+ℤ◌, int_laws}
use prelude.CreditLots.{
  CreditLotSnapshot, LotKind, is_free, is_lot_eligible, is_lot_clock_active, available_in_lot,
  reduce, by_expiry, next_expiry_of, NextExpiry, compute_wallet_totals,
}
use prelude.CreditLots.Sort.{sort, Before, HeadLeast, All-sort, All-of_sort, sort-HeadLeast}

-- The sum of an amount over the lots that pass a test.
abbrev pub sum_where :
    (CreditLotSnapshot → Bool) → (CreditLotSnapshot → ℤ) → List CreditLotSnapshot → ℤ
sum_where p f [] = pos 0
sum_where p f (lot ∷ lots) = (if p lot then f lot else pos 0) +ℤ sum_where p f lots

reduce-filter :
    (p : CreditLotSnapshot → Bool) (f : CreditLotSnapshot → ℤ) (acc : ℤ)
    (lots : List CreditLotSnapshot)
    → reduce f acc (filter p lots) ≡ acc +ℤ sum_where p f lots
unfolding reduce
reduce-filter p f acc [] = omega int_laws
reduce-filter p f acc (lot ∷ lots) = elim (Bool-cases (p lot)) [
  | inl e ↦ rw e (rw (reduce-filter p f (acc +ℤ f lot) lots) (omega int_laws))
  | inr e ↦ rw e (rw (reduce-filter p f acc lots) (omega int_laws))
]

sum_where-filter :
    (p q : CreditLotSnapshot → Bool) (f : CreditLotSnapshot → ℤ) (lots : List CreditLotSnapshot)
    → sum_where p f (filter q lots) ≡ sum_where (λ lot. q lot && p lot) f lots
sum_where-filter p q f [] = refl
sum_where-filter p q f (lot ∷ lots) = elim (Bool-cases (q lot)) [
  | inl e ↦ rw e (rw (sum_where-filter p q f lots))
  | inr e ↦ rw e (rw (sum_where-filter p q f lots) (omega int_laws))
]

reduce_all :
    (f : CreditLotSnapshot → ℤ) (acc : ℤ) (lots : List CreditLotSnapshot)
    → reduce f acc lots ≡ acc +ℤ sum_where (λ _. true) f lots
unfolding reduce
reduce_all f acc [] = omega int_laws
reduce_all f acc (lot ∷ lots) = rw (reduce_all f (acc +ℤ f lot) lots) (omega int_laws)

abbrev pub is_paid : LotKind → Bool
is_paid kind = not (is_free kind)

-- What passes a test is what passes it and a second one, with what passes it and not the second.
sum_where-split :
    (q p : CreditLotSnapshot → Bool) (f : CreditLotSnapshot → ℤ) (lots : List CreditLotSnapshot)
    → sum_where q f lots
      ≡ sum_where (λ lot. q lot && p lot) f lots +ℤ sum_where (λ lot. q lot && not (p lot)) f lots
sum_where-split q p f [] = omega int_laws
sum_where-split q p f (lot ∷ lots) = elim (Bool-cases (q lot)) [
  | inl e ↦ rw e (elim (Bool-cases (p lot)) [
    | inl d ↦ rw d (omega (int_laws, sum_where-split q p f lots))
    | inr d ↦ rw d (omega (int_laws, sum_where-split q p f lots))
  ])
  | inr e ↦ rw e (omega (int_laws, sum_where-split q p f lots))
]

-- For every list of lots and every time: the available total is the sum of what is available in the
-- clock-active lots, the free and the paid total are the parts of that sum over the free and over
-- the paid lots, and the reserved total is the sum of the reserved credits of all lots, whatever
-- their status and expiry.
pub compute_wallet_totals_sums :
    (lots : List CreditLotSnapshot) (now : ℕ)
    → let t = compute_wallet_totals lots now in
      (t.available ≡ sum_where (λ lot. is_lot_clock_active lot now) available_in_lot lots)
      × (t.free_available
          ≡ sum_where
              (λ lot. is_lot_clock_active lot now && is_free lot.kind)
              available_in_lot
              lots)
      × (t.paid_available
          ≡ sum_where
              (λ lot. is_lot_clock_active lot now && is_paid lot.kind)
              available_in_lot
              lots)
      × (t.reserved ≡ sum_where (λ _. true) (λ lot. lot.credits_reserved) lots)
unfolding compute_wallet_totals
compute_wallet_totals_sums lots now =
    let live = λ (lot : CreditLotSnapshot). is_lot_clock_active lot now in
    let of_free = λ (lot : CreditLotSnapshot). is_free lot.kind in
    let all = reduce-filter live available_in_lot (pos 0) lots in
    let parts = sum_where-split live of_free available_in_lot lots in
    let free_sum =
      reduce-filter of_free available_in_lot (pos 0) (filter live lots)
      ∙ ap (λ (s : ℤ). pos 0 +ℤ s) (sum_where-filter of_free live available_in_lot lots) in
    (
      omega (int_laws, all),
      omega (int_laws, free_sum),
      omega (int_laws, all, free_sum, parts),
      omega (int_laws, reduce_all (λ lot. lot.credits_reserved) (pos 0) lots),
    )

by_expiry_total :
    (a b : CreditLotSnapshot) → leb_ℤ (by_expiry a b) (pos 0) ≡ false → Before by_expiry b a
by_expiry_total a b h = ground arith

by_expiry_trans :
    (a b c : CreditLotSnapshot) → Before by_expiry a b → Before by_expiry b c → Before by_expiry a c
by_expiry_trans a b c h k = ground arith

by_expiry_le : (a b : CreditLotSnapshot) → Before by_expiry a b → a.expires_at ≤ b.expires_at
by_expiry_le a b h = ground arith

-- The credits and the expiry of an eligible lot that expires no later than any eligible lot, or
-- nothing when no lot is eligible.
abbrev pub IsNextExpiry : List CreditLotSnapshot → ℕ → Option NextExpiry → Type 0
IsNextExpiry lots now none = All (λ m. is_lot_eligible m now ≡ true → ⊥) lots
IsNextExpiry lots now (some next) =
    (lot : CreditLotSnapshot) × In lot lots
    × (is_lot_eligible lot now ≡ true)
    × (next.credits ≡ available_in_lot lot)
    × (next.expires_at ≡ lot.expires_at)
    × All (λ m. is_lot_eligible m now ≡ true → next.expires_at ≤ m.expires_at) lots

All-by_expiry :
    (lot : CreditLotSnapshot) (lots : List CreditLotSnapshot)
    → All (Before by_expiry lot) lots
    → All (λ m. lot.expires_at ≤ m.expires_at) lots
All-by_expiry lot [] h = tt
All-by_expiry lot (m ∷ lots) h = (by_expiry_le lot m h.0, All-by_expiry lot lots h.1)

head-IsNextExpiry :
    (lots : List CreditLotSnapshot) (now : ℕ) (sorted : List CreditLotSnapshot)
    → HeadLeast by_expiry sorted
    → All (λ m. In m lots × (is_lot_eligible m now ≡ true)) sorted
    → ((P : CreditLotSnapshot → Type 0)
        → All P sorted
        → All (λ m. is_lot_eligible m now ≡ true → P m) lots)
    → IsNextExpiry lots now (next_expiry_of (head? sorted))
unfolding next_expiry_of
head-IsNextExpiry lots now [] least from back = back (λ _. ⊥) tt
head-IsNextExpiry lots now (lot ∷ rest) least from back = (
  lot,
  from.0.0,
  from.0.1,
  refl,
  refl,
  back (λ m. lot.expires_at ≤ m.expires_at) (omega arith, All-by_expiry lot rest least),
)

-- For every list of lots and every time, the next expiry is that of an eligible lot of the list that
-- expires no later than any eligible lot, with that lot's available credits; it is empty only if no
-- lot is eligible.
pub compute_wallet_totals-IsNextExpiry :
    (lots : List CreditLotSnapshot) (now : ℕ)
    → IsNextExpiry lots now (compute_wallet_totals lots now).next_expiry
unfolding compute_wallet_totals
compute_wallet_totals-IsNextExpiry lots now =
    let eligible = filter (λ lot. is_lot_eligible lot now) lots in
    head-IsNextExpiry lots now (sort by_expiry eligible)
      (sort-HeadLeast by_expiry by_expiry_total by_expiry_trans eligible)
      (All-sort by_expiry _ eligible
        (All-filter _ (λ lot. is_lot_eligible lot now) lots (In-All lots)))
      (λ P h.
        All-of_filter P (λ lot. is_lot_eligible lot now) lots (All-of_sort by_expiry P eligible h))
