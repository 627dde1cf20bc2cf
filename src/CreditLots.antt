-- ===== src/CreditLots.antt =====
-- packages/core/src/domain/credit-lots.ts: the lot snapshot, eligibility, the consumption order and
-- the totals of a wallet. Ids are opaque keys, written as numbers; a `Date` is its `getTime()`.
pub mod Sort
pub mod Selection
pub mod Totals
pub mod Tests
use prelude.Base.{
  ℕ, ◌+◌, Bool, true, false, ◌&&◌, Option, none, some, List, [], ◌∷◌, ltb, ◌==◌, if◌then◌else◌, not,
  filter, head?,
}
use prelude.Base.Int.{ℤ, pos, negsuc, sub_ℕ, ◌+ℤ◌, ◌-ℤ◌, ltb_ℤ}
use Sort.{sort}

pub data LotKind : Type 0 where
  free paid : LotKind

pub data LotStatus : Type 0 where
  active exhausted expired frozen revoked : LotStatus

pub record CreditLotSnapshot : Type 0 where
  pub id : ℕ
  pub kind : LotKind
  pub status : LotStatus
  pub credits_granted : ℤ
  pub credits_consumed : ℤ
  pub credits_reserved : ℤ
  pub granted_at : ℕ
  pub expires_at : ℕ

abbrev pub is_active : LotStatus → Bool
is_active active = true
is_active _ = false

abbrev pub is_free : LotKind → Bool
is_free free = true
is_free paid = false

unfoldable pub available_in_lot : CreditLotSnapshot → ℤ
available_in_lot lot = lot.credits_granted -ℤ lot.credits_consumed -ℤ lot.credits_reserved

unfoldable pub is_lot_eligible : CreditLotSnapshot → ℕ → Bool
is_lot_eligible lot now =
    is_active lot.status && ltb now lot.expires_at && ltb_ℤ (pos 0) (available_in_lot lot)

unfoldable pub is_lot_clock_active : CreditLotSnapshot → ℕ → Bool
is_lot_clock_active lot now = is_active lot.status && ltb now lot.expires_at

-- `a.kind !== b.kind`
abbrev same_kind : LotKind → LotKind → Bool
same_kind free free = true
same_kind paid paid = true
same_kind _ _ = false

unfoldable pub compare_lots_for_consumption : CreditLotSnapshot → CreditLotSnapshot → ℤ
compare_lots_for_consumption a b =
    if not (same_kind a.kind b.kind)
    then if is_free a.kind then negsuc 0 else pos 1
    else if not (a.expires_at == b.expires_at)
    then sub_ℕ a.expires_at b.expires_at
    else if not (a.granted_at == b.granted_at)
    then sub_ℕ a.granted_at b.granted_at
    else if ltb a.id b.id
    then negsuc 0
    else if ltb b.id a.id
    then pos 1
    else pos 0

unfoldable pub select_lot_for_reservation : List CreditLotSnapshot → ℕ → Option CreditLotSnapshot
select_lot_for_reservation lots now =
    let eligible = filter (λ lot. is_lot_eligible lot now) lots in
    head? (sort compare_lots_for_consumption eligible)

-- `lots.reduce((sum, lot) => sum + amount(lot), 0)`
pub reduce : (CreditLotSnapshot → ℤ) → ℤ → List CreditLotSnapshot → ℤ
reduce amount sum [] = sum
reduce amount sum (lot ∷ lots) = reduce amount (sum +ℤ amount lot) lots

pub record NextExpiry : Type 0 where
  pub credits : ℤ
  pub expires_at : ℕ

pub record WalletTotals : Type 0 where
  pub available : ℤ
  pub reserved : ℤ
  pub free_available : ℤ
  pub paid_available : ℤ
  pub next_expiry : Option NextExpiry

abbrev by_expiry : CreditLotSnapshot → CreditLotSnapshot → ℤ
by_expiry a b = sub_ℕ a.expires_at b.expires_at

next_expiry_of : Option CreditLotSnapshot → Option NextExpiry
next_expiry_of none = none
next_expiry_of (some soonest) =
    some (record { credits = available_in_lot soonest; expires_at = soonest.expires_at })

unfoldable pub compute_wallet_totals : List CreditLotSnapshot → ℕ → WalletTotals
unfolding reduce next_expiry_of
compute_wallet_totals lots now =
    let clock_active = filter (λ lot. is_lot_clock_active lot now) lots in
    let available = reduce available_in_lot (pos 0) clock_active in
    let reserved = reduce (λ lot. lot.credits_reserved) (pos 0) lots in
    let free_available =
      reduce available_in_lot (pos 0) (filter (λ lot. is_free lot.kind) clock_active) in
    let eligible = filter (λ lot. is_lot_eligible lot now) lots in
    record {
      available = available;
      reserved = reserved;
      free_available = free_available;
      paid_available = available -ℤ free_available;
      next_expiry = next_expiry_of (head? (sort by_expiry eligible));
    }
