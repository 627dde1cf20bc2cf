-- ===== src/Stripe/Numbers/Decimals.antt =====
-- A whole number that is written as a text is read as itself.
use prelude.Base.{
  ℕ, zero, suc, ◌+◌, ◌-◌, ◌*◌, ◌/◌, ◌%◌, ◌≤◌, ◌<◌, Bool, true, false, [], ◌∷◌, ◌++◌, ◌==◌, ltb, ◌≡◌,
  refl, ◌∙◌, All, arith, Bool-cases, inl, inr, length, ◌||◌,
}
use prelude.Base.Int.{ℤ, pos, negsuc, eqb_ℤ}
use prelude.Ledger.Schema.{Text}
use prelude.Ledger.Purchase.{same_text}
use prelude.Texts.{is_empty, IsWord, trim-word}
use prelude.Stripe.Numbers.{
  decimal, digit_value, digits, number, equals_int, decimal_digits, decimal_text, with_prefix,
  signed, unsigned,
}

abbrev IsDigit : ℕ → Type 0
IsDigit c = (b'0' ≤ c) × (c ≤ b'9')

abbrev pub AreDigits : Text → Type 0
AreDigits t = All IsDigit t

-- The value of a run of digits after `v`.
horner : ℕ → Text → ℕ
horner v [] = v
horner v (c ∷ t) = horner (v * 10 + (c - b'0')) t

digits-run :
    (t : Text) (v k : ℕ)
    → AreDigits t
    → digits 10 v k t ≡ record { value = horner v t; count = k + length t; rest = [] }
unfolding digits horner
digits-run [] v k d = ground arith
digits-run (c ∷ t) v k ((low, high), d) =
    let e : digit_value c ≡ c - b'0' = ground arith in
    let small : ltb (digit_value c) 10 ≡ true = ground arith in
    ground (arith, digits-run t (v * 10 + (c - b'0')) (k + 1) d, e, small)

horner-snoc : (t : Text) (v c : ℕ) → horner v (t ++ (c ∷ [])) ≡ horner v t * 10 + (c - b'0')
unfolding horner
horner-snoc [] v c = refl
horner-snoc (b ∷ t) v c = horner-snoc t _ c

AreDigits-snoc : (t : Text) (c : ℕ) → AreDigits t → IsDigit c → AreDigits (t ++ (c ∷ []))
AreDigits-snoc [] c d h = (h, tt)
AreDigits-snoc (b ∷ t) c d h = (d.0, AreDigits-snoc t c d.1 h)

decimal_digits-AreDigits : (fuel n : ℕ) → AreDigits (decimal_digits fuel n)
unfolding decimal_digits
decimal_digits-AreDigits zero n = ((omega arith, omega arith), tt)
decimal_digits-AreDigits (suc fuel) n = elim (Bool-cases (ltb n 10)) [
  | inl e ↦ rw e ((omega arith, ground arith), tt)
  | inr e ↦ rw e (
      AreDigits-snoc (decimal_digits fuel (n / 10)) _ (decimal_digits-AreDigits fuel (n / 10))
        (omega arith, omega arith))
]

horner-decimal_digits : (fuel n : ℕ) → n ≤ fuel → horner 0 (decimal_digits fuel n) ≡ n
unfolding decimal_digits horner
horner-decimal_digits zero n h = omega arith
horner-decimal_digits (suc fuel) n h = elim (Bool-cases (ltb n 10)) [
  | inl e ↦ rw e (omega arith)
  | inr e ↦
      let big : 10 ≤ n = ground arith in
      let rest = horner-decimal_digits fuel (n / 10) (omega arith) in
      rw e (horner-snoc (decimal_digits fuel (n / 10)) 0 _ ∙ rw rest (omega arith))
]

AreDigits-IsWord : (t : Text) → AreDigits t → IsWord t
AreDigits-IsWord [] d = tt
AreDigits-IsWord (c ∷ t) ((low, high), d) = (ground arith, AreDigits-IsWord t d)

unsigned-run :
    (negative : Bool) (c : ℕ) (t : Text)
    → AreDigits (c ∷ t)
    → unsigned negative (c ∷ t) ≡ decimal negative (horner 0 (c ∷ t)) 0 0
unfolding same_text
unsigned-run negative c t d =
    let other : (c == b'I') ≡ false = ground arith in
    rw (other, digits-run (c ∷ t) 0 0 d) (ground arith)

signed-run :
    (c : ℕ) (t : Text) → AreDigits (c ∷ t) → signed (c ∷ t) ≡ decimal false (horner 0 (c ∷ t)) 0 0
signed-run c t d =
    let minus : (c == b'-') ≡ false = ground arith in
    let plus : (c == b'+') ≡ false = ground arith in rw (minus, plus) (unsigned-run false c t d)

with_prefix-run :
    (c : ℕ) (t : Text)
    → AreDigits (c ∷ t)
    → with_prefix (c ∷ t) ≡ decimal false (horner 0 (c ∷ t)) 0 0
with_prefix-run c [] d = signed-run c [] d
with_prefix-run c (x ∷ t) (h, ((low, high), d)) =
    let hex : (x == b'x' || x == b'X') ≡ false = ground arith in
    let octal : (x == b'o' || x == b'O') ≡ false = ground arith in
    let binary : (x == b'b' || x == b'B') ≡ false = ground arith in
    elim (Bool-cases (c == b'0')) [
      | inl e ↦ rw (e, hex, octal, binary) (signed-run c (x ∷ t) (h, ((low, high), d)))
      | inr e ↦ rw e (signed-run c (x ∷ t) (h, ((low, high), d)))
    ]

digits_text : ℕ → Text
unfolding decimal_digits
digits_text n = decimal_digits n n

number-natural :
    (t : Text) → AreDigits t → (0 < length t) → number t ≡ decimal false (horner 0 t) 0 0
unfolding number
number-natural [] d h = absurd (omega arith)
number-natural (c ∷ t) d h =
    rw (trim-word (c ∷ t) (AreDigits-IsWord (c ∷ t) d)) (with_prefix-run c t d)

number-negative :
    (t : Text) → AreDigits t → (0 < length t) → number (b'-' ∷ t) ≡ decimal true (horner 0 t) 0 0
unfolding number
number-negative [] d h = absurd (omega arith)
number-negative (c ∷ t) d h =
    rw (trim-word (b'-' ∷ c ∷ t) (refl, AreDigits-IsWord (c ∷ t) d)) (unsigned-run true c t d)

decimal_digits-length : (fuel n : ℕ) → 0 < length (decimal_digits fuel n)
unfolding decimal_digits
decimal_digits-length zero n = omega arith
decimal_digits-length (suc fuel) n = elim (Bool-cases (ltb n 10)) [
  | inl e ↦ rw e (omega arith)
  | inr e ↦ rw e (snoc (decimal_digits fuel (n / 10)))
]
  where
    snoc : (t : Text) → 0 < length (t ++ ((b'0' + n % 10) ∷ []))
    snoc [] = omega arith
    snoc (c ∷ t) = omega arith

-- `Number(String(z)) === y` exactly when `y` is `z`.
pub number-decimal_text : (z y : ℤ) → equals_int (number (decimal_text z)) y ≡ eqb_ℤ z y
unfolding decimal_text equals_int
number-decimal_text (pos n) y =
    rw
      (number-natural (decimal_digits n n) (decimal_digits-AreDigits n n)
        (decimal_digits-length n n))
      (rw (horner-decimal_digits n n (omega arith)) (natural y))
  where
    natural : (y : ℤ) → equals_int (decimal false n 0 0) y ≡ eqb_ℤ (pos n) y
    natural (pos m) = ground arith
    natural (negsuc m) = ground arith
number-decimal_text (negsuc n) y =
    rw
      (number-negative (decimal_digits (suc n) (suc n)) (decimal_digits-AreDigits (suc n) (suc n))
        (decimal_digits-length (suc n) (suc n)))
      (rw (horner-decimal_digits (suc n) (suc n) (omega arith)) (negative y))
  where
    negative : (y : ℤ) → equals_int (decimal true (suc n) 0 0) y ≡ eqb_ℤ (negsuc n) y
    negative (pos m) = ground arith
    negative (negsuc m) = ground arith

-- `String(z)` has no white space and is not empty.
pub decimal_text-IsWord : (z : ℤ) → IsWord (decimal_text z)
unfolding decimal_text
decimal_text-IsWord (pos n) = AreDigits-IsWord (decimal_digits n n) (decimal_digits-AreDigits n n)
decimal_text-IsWord (negsuc n) = (
  refl,
  AreDigits-IsWord (decimal_digits (suc n) (suc n)) (decimal_digits-AreDigits (suc n) (suc n)),
)

pub decimal_text-nonempty : (z : ℤ) → is_empty (decimal_text z) ≡ false
unfolding decimal_text
decimal_text-nonempty (pos n) = long (decimal_digits n n) (decimal_digits-length n n)
  where
    long : (t : Text) → 0 < length t → is_empty t ≡ false
    long [] h = absurd (omega arith)
    long (c ∷ t) h = refl
decimal_text-nonempty (negsuc n) = refl
