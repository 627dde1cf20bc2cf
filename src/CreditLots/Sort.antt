-- ===== src/CreditLots/Sort.antt =====
-- `Array.prototype.sort` with a comparator: a stable insertion sort, and what its first element is.
use prelude.Base.{◌≡◌, false, List, [], ◌∷◌, if◌then◌else◌, All, Bool-cases, inl, inr}
use prelude.Base.Int.{ℤ, pos, leb_ℤ, ◌≤ℤ◌, leb_ℤ→≤ℤ}

module _ {A : Type 0} (compare : A → A → ℤ) where
  abbrev pub insert : A → List A → List A
  insert x [] = x ∷ []
  insert x (y ∷ ys) =
      let rest = insert x ys in if leb_ℤ (compare x y) (pos 0) then x ∷ y ∷ ys else y ∷ rest

  abbrev pub sort : List A → List A
  sort [] = []
  sort (x ∷ xs) = insert x (sort xs)

  abbrev pub Before : A → A → Type 0
  Before a b = compare a b ≤ℤ pos 0

  -- The first element comes before every later one.
  abbrev pub HeadLeast : List A → Type 0
  HeadLeast [] = Unit
  HeadLeast (x ∷ xs) = All (Before x) xs

  -- Every element comes before the later ones.
  abbrev pub Sorted : List A → Type 0
  Sorted [] = Unit
  Sorted (x ∷ xs) = All (Before x) xs × Sorted xs

  All-insert {κ} : (P : A → Type κ) (x : A) (ys : List A) → P x → All P ys → All P (insert x ys)
  All-insert P x [] p h = (p, tt)
  All-insert P x (y ∷ ys) p h = elim (Bool-cases (leb_ℤ (compare x y) (pos 0))) [
    | inl e ↦ rw e (p, h)
    | inr e ↦ rw e (h.0, All-insert P x ys p h.1)
  ]

  pub All-sort {κ} : (P : A → Type κ) (xs : List A) → All P xs → All P (sort xs)
  All-sort P [] h = tt
  All-sort P (x ∷ xs) h = All-insert P x (sort xs) h.0 (All-sort P xs h.1)

  All-of_insert {κ} : (P : A → Type κ) (x : A) (ys : List A) → All P (insert x ys) → P x × All P ys
  All-of_insert P x [] h = h
  All-of_insert P x (y ∷ ys) h = elim (Bool-cases (leb_ℤ (compare x y) (pos 0))) [
    | inl e ↦ rw e at h
    | inr e ↦
        let k : P y × All P (insert x ys) = rw e at h in
        let r : P x × All P ys = All-of_insert P x ys k.1 in (r.0, (k.0, r.1))
  ]

  pub All-of_sort {κ} : (P : A → Type κ) (xs : List A) → All P (sort xs) → All P xs
  All-of_sort P [] h = tt
  All-of_sort P (x ∷ xs) h =
      let r : P x × All P (sort xs) = All-of_insert P x (sort xs) h in (r.0, All-of_sort P xs r.1)

  module _ (total : (a b : A) → leb_ℤ (compare a b) (pos 0) ≡ false → Before b a)
      (trans : (a b c : A) → Before a b → Before b c → Before a c) where
    All-trans : (a b : A) (xs : List A) → Before a b → All (Before b) xs → All (Before a) xs
    All-trans a b [] h k = tt
    All-trans a b (x ∷ xs) h k = (trans a b x h k.0, All-trans a b xs h k.1)

    insert-HeadLeast : (x : A) (ys : List A) → HeadLeast ys → HeadLeast (insert x ys)
    insert-HeadLeast x [] h = tt
    insert-HeadLeast x (y ∷ ys) h = elim (Bool-cases (leb_ℤ (compare x y) (pos 0))) [
      | inl e ↦
          let first : Before x y = leb_ℤ→≤ℤ (compare x y) (pos 0) e in
          rw e (first, All-trans x y ys first h)
      | inr e ↦ rw e (All-insert (Before y) x ys (total x y e) h)
    ]

    pub sort-HeadLeast : (xs : List A) → HeadLeast (sort xs)
    sort-HeadLeast [] = tt
    sort-HeadLeast (x ∷ xs) = insert-HeadLeast x (sort xs) (sort-HeadLeast xs)

    insert-Sorted : (x : A) (ys : List A) → Sorted ys → Sorted (insert x ys)
    insert-Sorted x [] h = (tt, tt)
    insert-Sorted x (y ∷ ys) h = elim (Bool-cases (leb_ℤ (compare x y) (pos 0))) [
      | inl e ↦
          let first : Before x y = leb_ℤ→≤ℤ (compare x y) (pos 0) e in
          rw e ((first, All-trans x y ys first h.0), h)
      | inr e ↦ rw e (All-insert (Before y) x ys (total x y e) h.0, insert-Sorted x ys h.1)
    ]

    pub sort-Sorted : (xs : List A) → Sorted (sort xs)
    sort-Sorted [] = tt
    sort-Sorted (x ∷ xs) = insert-Sorted x (sort xs) (sort-Sorted xs)
