-- ===== src/Ledger/Exits/Prorata.antt =====
-- The prorata gate of a partial refund.
use prelude.Base.{ℕ, ◌+◌, ◌*◌, ◌/◌, ◌≤◌, ◌<◌, ◌≡◌, sym, ◌∙◌, ap, true, some, arith}
use prelude.Base.Int.{ℤ, pos, negsuc, pos_part}
use native.Mathlib.Nat.{mul-add-div, div-eq_of_lt}
use prelude.Ledger.Exits.{matches_unconsumed_prorata, prorata}

round_exact : (r u : ℕ) → 1 ≤ u → (2 * (r * u) + u) / (2 * u) ≡ r
round_exact r u h =
    let positive : 0 < 2 * u = omega (arith, h) in
    let small : u < 2 * u = omega (arith, h) in
    let whole : (2 * u * r + u) / (2 * u) ≡ r + u / (2 * u) = mul-add-div positive r u in
    let rest : u / (2 * u) ≡ 0 = div-eq_of_lt small in
    let same : 2 * (r * u) + u ≡ 2 * u * r + u = grind arith in
    ap (λ n. n / (2 * u)) same ∙ (whole ∙ (rw rest (omega arith)))

-- A refund of exactly the price of the credits that are left is accepted.
prorata_exact :
    (unit granted revocable refunded : ℕ)
    → 1 ≤ unit
    → refunded * granted ≡ revocable * unit
    → prorata unit granted revocable refunded ≡ true
prorata_exact unit granted revocable refunded h e =
    let rounded = round_exact revocable unit h in rw (e, rounded) (ground arith)

prorata_close :
    (unit granted revocable refunded : ℕ)
    → prorata unit granted revocable refunded ≡ true
    → (refunded * granted ≤ revocable * unit + granted)
      × (revocable * unit ≤ refunded * granted + granted)
      × ((2 * (refunded * granted) + unit) / (2 * unit) ≡ revocable)
prorata_close unit granted revocable refunded h = ground arith

-- A partial refund of exactly the price of all the credits that are left, at the lot's price for one,
-- is accepted, when the lot has a price and credits, and some are left.
pub prorata_accepts :
    (unit granted revocable refunded : ℕ)
    → 1 ≤ unit
    → 1 ≤ granted
    → 1 ≤ revocable
    → refunded * granted ≡ revocable * unit
    → matches_unconsumed_prorata (some (pos unit)) (pos granted) (pos revocable) refunded ≡ true
unfolding matches_unconsumed_prorata
prorata_accepts unit granted revocable refunded hu hg hr e =
    let exact = prorata_exact unit granted revocable refunded hu e in ground arith

accepted_parts :
    (unit granted revocable : ℤ) (refunded : ℕ)
    → matches_unconsumed_prorata (some unit) granted revocable refunded ≡ true
    → (1 ≤ pos_part unit)
      × (1 ≤ pos_part granted)
      × (1 ≤ pos_part revocable)
      × (prorata (pos_part unit) (pos_part granted) (pos_part revocable) refunded ≡ true)
unfolding matches_unconsumed_prorata
accepted_parts unit granted revocable refunded h = ground arith

pos_parts : (a b : ℤ) → 1 ≤ pos_part a → 1 ≤ pos_part b → pos_part a ≡ pos_part b → a ≡ b
pos_parts (pos m) (pos n) h k e = ap pos e
pos_parts (pos m) (negsuc n) h k e = absurd (omega arith)
pos_parts (negsuc m) b h k e = absurd (omega arith)

-- What is accepted determines the credits: one refund on a lot of one price matches at most one
-- number of credits left, and its amount is their price up to a cent.
pub prorata_determines :
    (unit granted revocable other : ℤ) (refunded : ℕ)
    → matches_unconsumed_prorata (some unit) granted revocable refunded ≡ true
    → matches_unconsumed_prorata (some unit) granted other refunded ≡ true
    → (revocable ≡ other)
      × (refunded * pos_part granted ≤ pos_part revocable * pos_part unit + pos_part granted)
      × (pos_part revocable * pos_part unit ≤ refunded * pos_part granted + pos_part granted)
prorata_determines unit granted revocable other refunded h k =
    let (_, _, some_left, p) = accepted_parts unit granted revocable refunded h in
    let (_, _, other_left, q) = accepted_parts unit granted other refunded k in
    let (above, below, rounded) =
      prorata_close (pos_part unit) (pos_part granted) (pos_part revocable) refunded p in
    let (_, _, rounded') =
      prorata_close (pos_part unit) (pos_part granted) (pos_part other) refunded q in
    (pos_parts revocable other some_left other_left (sym rounded ∙ rounded'), above, below)
