-- ===== src/Ledger/Table.antt =====
-- Rows by key: the first row with a key, its update in place, and sums over a table. A key is unique
-- in its table, so the first row is the only one.
use prelude.Base.{
  ℕ, ◌≡◌, refl, Bool, false, Option, none, some, List, [], ◌∷◌, arith, ◌==◌, if◌then◌else◌,
  Bool-cases, ==-refl, ==-false_symm, inl, inr, All, filter, ◌∙◌, subst,
}
use prelude.Base.Int.{ℤ, pos, ◌+ℤ◌, ◌≤ℤ◌, int_laws}

module _ {A : Type 0} (key : A → ℕ) where
  unfoldable pub find_row : ℕ → List A → Option A
  find_row k [] = none
  find_row k (x ∷ xs) = if key x == k then some x else find_row k xs

  unfoldable pub update_row : ℕ → (A → A) → List A → List A
  update_row k f [] = []
  update_row k f (x ∷ xs) = if key x == k then f x ∷ xs else x ∷ update_row k f xs

  pub find_row-key : (k : ℕ) (xs : List A) (x : A) → find_row k xs ≡ some x → key x ≡ k
  unfolding find_row
  find_row-key k [] x h = cc
  find_row-key k (y ∷ xs) x h = ground (arith, find_row-key k xs x)

  pub find_row-update_row :
      (k : ℕ) (f : A → A) (xs : List A) (x : A)
      → ((y : A) → key (f y) ≡ key y)
      → find_row k xs ≡ some x
      → find_row k (update_row k f xs) ≡ some (f x)
  unfolding find_row update_row
  find_row-update_row k f [] x keep h = cc
  find_row-update_row k f (y ∷ xs) x keep h =
      ground (arith, keep y, find_row-update_row k f xs x keep)

  pub find_row-update_row_ne :
      (j k : ℕ) (f : A → A) (xs : List A)
      → ((y : A) → key (f y) ≡ key y)
      → (j == k) ≡ false
      → find_row j (update_row k f xs) ≡ find_row j xs
  unfolding find_row update_row
  find_row-update_row_ne j k f [] keep h = refl
  find_row-update_row_ne j k f (y ∷ xs) keep h =
      ground (arith, keep y, find_row-update_row_ne j k f xs keep)

module _ {A : Type 0} (amount : A → ℤ) where
  unfoldable pub sum_of : List A → ℤ
  sum_of [] = pos 0
  sum_of (x ∷ xs) = amount x +ℤ sum_of xs

  pub sum_of-cons : (x : A) (xs : List A) → sum_of (x ∷ xs) ≡ amount x +ℤ sum_of xs
  unfolding sum_of
  sum_of-cons x xs = refl

  pub sum_of-update_row :
      (key : A → ℕ) (k : ℕ) (f : A → A) (xs : List A) (x : A)
      → find_row key k xs ≡ some x
      → sum_of (update_row key k f xs) +ℤ amount x ≡ sum_of xs +ℤ amount (f x)
  unfolding find_row update_row sum_of
  sum_of-update_row key k f [] x h = cc
  sum_of-update_row key k f (y ∷ xs) x h = elim (Bool-cases (key y == k)) [
    | inl e ↦
        let same : some y ≡ some x = rw e at h in
        let first : y ≡ x = cc in rw e (rw first (omega int_laws))
    | inr e ↦
        let rest : find_row key k xs ≡ some x = rw e at h in
        rw e (omega (int_laws, sum_of-update_row key k f xs x rest))
  ]

module _ {A : Type 0} (key : A → ℕ) where
  -- No two rows have one key.
  abbrev pub Distinct : List A → Type 0
  Distinct [] = Unit
  Distinct (x ∷ xs) = (find_row key (key x) xs ≡ none) × Distinct xs

  find_row-update_row-none :
      (j k : ℕ) (f : A → A) (xs : List A)
      → ((y : A) → key (f y) ≡ key y)
      → find_row key j xs ≡ none
      → find_row key j (update_row key k f xs) ≡ none
  unfolding find_row update_row
  find_row-update_row-none j k f [] keep h = refl
  find_row-update_row-none j k f (y ∷ xs) keep h =
      ground (arith, keep y, find_row-update_row-none j k f xs keep)

  pub update_row-Distinct :
      (k : ℕ) (f : A → A) (xs : List A)
      → ((y : A) → key (f y) ≡ key y)
      → Distinct xs
      → Distinct (update_row key k f xs)
  unfolding update_row
  update_row-Distinct k f [] keep d = tt
  update_row-Distinct k f (y ∷ xs) keep d = elim (Bool-cases (key y == k)) [
    | inl e ↦ rw e (rw (keep y) d.0, d.1)
    | inr e ↦
        rw e (find_row-update_row-none (key y) k f xs keep d.0, update_row-Distinct k f xs keep d.1)
  ]

  -- A row that is not found has no row with its key.
  pub find_row-none-All :
      (k : ℕ) (xs : List A) → find_row key k xs ≡ none → All (λ x. (key x == k) ≡ false) xs
  unfolding find_row
  find_row-none-All k [] h = tt
  find_row-none-All k (x ∷ xs) h = elim (Bool-cases (key x == k)) [
    | inl e ↦ let g : some x ≡ none = rw e at h in cc
    | inr e ↦ let g : find_row key k xs ≡ none = rw e at h in (e, find_row-none-All k xs g)
  ]

  find_row-tail :
      (x : A) (xs ys : List A)
      → All (λ y. (key y == key x) ≡ false) ys
      → All (λ y. find_row key (key y) xs ≡ some y) ys
      → All (λ y. find_row key (key y) (x ∷ xs) ≡ some y) ys
  unfolding find_row
  find_row-tail x xs [] ne h = tt
  find_row-tail x xs (y ∷ ys) ne h =
      (rw (==-false_symm (key y) (key x) ne.0) h.0, find_row-tail x xs ys ne.1 h.1)

  -- With distinct keys every row is the one that its key finds.
  pub Distinct-find_row :
      (xs : List A) → Distinct xs → All (λ x. find_row key (key x) xs ≡ some x) xs
  unfolding find_row
  Distinct-find_row [] d = tt
  Distinct-find_row (x ∷ xs) d = (
    rw (==-refl (key x)) refl,
    find_row-tail x xs xs (find_row-none-All (key x) xs d.0) (Distinct-find_row xs d.1),
  )

  find_row-filter-none :
      (p : A → Bool) (k : ℕ) (xs : List A)
      → find_row key k xs ≡ none
      → find_row key k (filter p xs) ≡ none
  unfolding find_row
  find_row-filter-none p k [] h = refl
  find_row-filter-none p k (x ∷ xs) h = ground (arith, find_row-filter-none p k xs)

  pub filter-Distinct : (p : A → Bool) (xs : List A) → Distinct xs → Distinct (filter p xs)
  filter-Distinct p [] d = tt
  filter-Distinct p (x ∷ xs) d = elim (Bool-cases (p x)) [
    | inl e ↦ rw e (find_row-filter-none p (key x) xs d.0, filter-Distinct p xs d.1)
    | inr e ↦ rw e (filter-Distinct p xs d.1)
  ]

  -- A write to one row is seen at no other row of a list.
  pub find_row-update_row-All :
      (k : ℕ) (f : A → A) (xs ys : List A)
      → ((y : A) → key (f y) ≡ key y)
      → All (λ y. (key y == k) ≡ false) ys
      → All (λ y. find_row key (key y) xs ≡ some y) ys
      → All (λ y. find_row key (key y) (update_row key k f xs) ≡ some y) ys
  find_row-update_row-All k f xs [] keep ne h = tt
  find_row-update_row-All k f xs (y ∷ ys) keep ne h = (
    find_row-update_row_ne key (key y) k f xs keep ne.0 ∙ h.0,
    find_row-update_row-All k f xs ys keep ne.1 h.1,
  )

  -- What holds of every row holds after a write that keeps it at the row that is written.
  pub All-update_row :
      (P : A → Type 0) (k : ℕ) (f : A → A) (xs : List A) (x : A)
      → find_row key k xs ≡ some x
      → P (f x)
      → All P xs
      → All P (update_row key k f xs)
  unfolding find_row update_row
  All-update_row P k f [] x h p all = tt
  All-update_row P k f (y ∷ xs) x h p all = elim (Bool-cases (key y == k)) [
    | inl e ↦
        let same : some y ≡ some x = rw e at h in let first : y ≡ x = cc in rw e (rw first p, all.1)
    | inr e ↦
        let rest : find_row key k xs ≡ some x = rw e at h in
        rw e (all.0, All-update_row P k f xs x rest p all.1)
  ]

  pub All-find_row :
      (P : A → Type 0) (k : ℕ) (xs : List A) (x : A) → find_row key k xs ≡ some x → All P xs → P x
  unfolding find_row
  All-find_row P k [] x h all = cc
  All-find_row P k (y ∷ xs) x h all = elim (Bool-cases (key y == k)) [
    | inl e ↦
        let same : some y ≡ some x = rw e at h in let first : y ≡ x = cc in subst P first all.0
    | inr e ↦ let rest : find_row key k xs ≡ some x = rw e at h in All-find_row P k xs x rest all.1
  ]

-- A sum of amounts that are not negative is at least each of them.
module _ {A : Type 0} (amount : A → ℤ) (nonneg : (x : A) → pos 0 ≤ℤ amount x) where
  pub sum_of_nonneg : (xs : List A) → pos 0 ≤ℤ sum_of amount xs
  unfolding sum_of
  sum_of_nonneg [] = omega int_laws
  sum_of_nonneg (x ∷ xs) = omega (int_laws, nonneg x, sum_of_nonneg xs)

  pub find_row-le-sum_of :
      (key : A → ℕ) (k : ℕ) (xs : List A) (x : A)
      → find_row key k xs ≡ some x
      → amount x ≤ℤ sum_of amount xs
  unfolding find_row sum_of
  find_row-le-sum_of key k [] x h = cc
  find_row-le-sum_of key k (y ∷ xs) x h = elim (Bool-cases (key y == k)) [
    | inl e ↦
        let same : some y ≡ some x = rw e at h in
        let first : y ≡ x = cc in rw (← first) (omega (int_laws, sum_of_nonneg xs))
    | inr e ↦
        let rest : find_row key k xs ≡ some x = rw e at h in
        omega (int_laws, nonneg y, find_row-le-sum_of key k xs x rest)
  ]

-- The row that a key finds is one row.
pub same_row : {A : Type 0} {o : Option A} {x y : A} → o ≡ some x → o ≡ some y → x ≡ y
same_row p q = cc
