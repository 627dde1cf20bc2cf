-- ===== src/Stripe/Numbers.antt =====
-- `Number(text)` and `String(n)` on the integers that the Stripe metadata carries. `Number` rounds to
-- a double, which has no part in the comparison with an integer for up to fifteen digits: here the
-- value is exact.
pub mod Decimals
use prelude.Base.{
  ℕ, zero, suc, ◌+◌, ◌-◌, ◌*◌, ◌/◌, ◌%◌, ◌≤◌, ◌<◌, Bool, true, false, not, Option, none, some, List,
  [], ◌∷◌, ◌++◌, ◌==◌, ◌||◌, ◌&&◌, if◌then◌else◌, leb, ltb, ◌≡◌, refl, All, arith,
}
use prelude.Base.Int.{ℤ, pos, negsuc}
use prelude.Ledger.Schema.{Text}
use prelude.Ledger.Purchase.{same_text}
use prelude.Texts.{is_space, is_empty, trim, trim-word}

-- ± mantissa · 10 ^ up / 10 ^ down
pub data Number : Type 0 where
  nan : Number
  infinite : Number
  decimal : Bool → ℕ → ℕ → ℕ → Number

-- The value of a digit, in any base up to sixteen.
abbrev pub digit_value : ℕ → ℕ
digit_value c =
    if leb b'0' c && leb c b'9'
    then c - b'0'
    else if leb b'a' c && leb c b'f'
    then c - 87
    else if leb b'A' c && leb c b'F'
    then c - 55
    else 16

pub record Digits : Type 0 where
  pub value : ℕ
  pub count : ℕ
  pub rest : Text

-- The longest run of digits at the start of a text, after `value` with its `count` digits.
unfoldable pub digits : ℕ → ℕ → ℕ → Text → Digits
digits base value count [] = record { value = value; count = count; rest = [] }
digits base value count (c ∷ t) =
    let more = digits base (value * base + digit_value c) (count + 1) t in
    if ltb (digit_value c) base then more else record { value = value; count = count; rest = c ∷ t }

abbrev whole : Digits → Number
whole d = if is_empty d.rest && not (d.count == 0) then decimal false d.value 0 0 else nan

-- The exponent after the `e`.
abbrev exponent : Bool → ℕ → ℕ → Digits → Number
exponent negative mantissa down d =
    if is_empty d.rest && not (d.count == 0) then decimal negative mantissa d.value down else nan

abbrev inverse_exponent : Bool → ℕ → ℕ → Digits → Number
inverse_exponent negative mantissa down d =
    if is_empty d.rest && not (d.count == 0)
    then decimal negative mantissa 0 (down + d.value)
    else nan

abbrev signed_exponent : Bool → ℕ → ℕ → Text → Number
signed_exponent negative mantissa down [] = nan
signed_exponent negative mantissa down (c ∷ t) =
    if c == b'-'
    then inverse_exponent negative mantissa down (digits 10 0 0 t)
    else if c == b'+'
    then exponent negative mantissa down (digits 10 0 0 t)
    else exponent negative mantissa down (digits 10 0 0 (c ∷ t))

-- What follows a mantissa with `count` digits, `down` of them after the point.
abbrev after_mantissa : Bool → ℕ → ℕ → ℕ → Text → Number
after_mantissa negative mantissa count down [] =
    if count == 0 then nan else decimal negative mantissa 0 down
after_mantissa negative mantissa count down (c ∷ t) =
    if not (count == 0) && (c == b'e' || c == b'E')
    then signed_exponent negative mantissa down t
    else nan

abbrev after_fraction : Bool → ℕ → Digits → Number
after_fraction negative count d = after_mantissa negative d.value d.count (d.count - count) d.rest

abbrev after_digits : Bool → ℕ → ℕ → Text → Number
after_digits negative value count [] = after_mantissa negative value count 0 []
after_digits negative value count (c ∷ t) =
    if c == b'.'
    then after_fraction negative count (digits 10 value count t)
    else after_mantissa negative value count 0 (c ∷ t)

abbrev infinity : Text
infinity = b'I' ∷ b'n' ∷ b'f' ∷ b'i' ∷ b'n' ∷ b'i' ∷ b't' ∷ b'y' ∷ []

abbrev after_run : Bool → Digits → Number
after_run negative d = after_digits negative d.value d.count d.rest

abbrev unsigned : Bool → Text → Number
unsigned negative t =
    if same_text t infinity then infinite else after_run negative (digits 10 0 0 t)

abbrev signed : Text → Number
signed [] = decimal false 0 0 0
signed (c ∷ t) =
    if c == b'-'
    then unsigned true t
    else if c == b'+'
    then unsigned false t
    else unsigned false (c ∷ t)

-- `0x`, `0o` and `0b` have no sign, no fraction and no exponent.
abbrev with_prefix : Text → Number
with_prefix (z ∷ x ∷ t) =
    if z == b'0' && (x == b'x' || x == b'X')
    then whole (digits 16 0 0 t)
    else if z == b'0' && (x == b'o' || x == b'O')
    then whole (digits 8 0 0 t)
    else if z == b'0' && (x == b'b' || x == b'B')
    then whole (digits 2 0 0 t)
    else signed (z ∷ x ∷ t)
with_prefix t = signed t

unfoldable pub number : Text → Number
unfolding digits same_text
number t = with_prefix (trim t)

abbrev power : ℕ → ℕ
power zero = 1
power (suc n) = 10 * power n

-- `Number(text) === z`
unfoldable pub equals_int : Number → ℤ → Bool
equals_int nan z = false
equals_int infinite z = false
equals_int (decimal negative m up down) (pos n) =
    (not negative || m == 0) && m * power up == n * power down
equals_int (decimal negative m up down) (negsuc n) = negative && m * power up == suc n * power down

-- The decimal digits of a number, with fuel for its digits.
unfoldable pub decimal_digits : ℕ → ℕ → Text
decimal_digits zero n = (b'0' + n % 10) ∷ []
decimal_digits (suc fuel) n =
    let leading = decimal_digits fuel (n / 10) in
    if ltb n 10 then (b'0' + n) ∷ [] else leading ++ ((b'0' + n % 10) ∷ [])

-- `String(z)`
unfoldable pub decimal_text : ℤ → Text
unfolding decimal_digits
decimal_text (pos n) = decimal_digits n n
decimal_text (negsuc n) = b'-' ∷ decimal_digits (suc n) (suc n)
