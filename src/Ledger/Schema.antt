-- ===== src/Ledger/Schema.antt =====
-- The rows of the credit tables (packages/db/prisma/schema.prisma) as packages/billing/src/
-- credit-ledger.ts reads and writes them. Ids, Stripe ids, reasons that a caller supplies and country
-- codes are opaque keys, written as numbers; a text column with a fixed vocabulary is `known` or some
-- other text.
use prelude.Base.{ℕ, Bool, true, false, Option, List}
use prelude.Base.Int.{ℤ}
use prelude.CreditLots.{LotKind, LotStatus}

pub data Column (A : Type 0) : Type 0 where
  known : A → Column A
  unknown : ℕ → Column A

-- The UTF-16 units of a text.
abbrev pub Text : Type 0
Text = List ℕ

pub record CreditWallet : Type 0 where
  pub id : ℕ
  pub organization_id : ℕ
  pub available_credits : ℤ
  pub reserved_credits : ℤ
  pub settlement_currency : Option Text

pub data LotSource : Type 0 where
  first_five pack_purchase : LotSource

pub record CreditLot : Type 0 where
  pub id : ℕ
  pub organization_id : ℕ
  pub kind : Column LotKind
  pub source : LotSource
  pub pack_id : Option ℕ
  pub credits_granted : ℤ
  pub credits_consumed : ℤ
  pub credits_reserved : ℤ
  pub unit_amount_cents : Option ℤ
  pub currency : Text
  pub billing_country : Option ℕ
  pub status : Column LotStatus
  pub granted_at : ℕ
  pub expires_at : ℕ
  pub frozen_at : Option ℕ
  pub stripe_payment_intent_id : Option ℕ
  pub stripe_checkout_session_id : Option ℕ
  pub stripe_invoice_id : Option ℕ

pub data EntryType : Type 0 where
  free_grant pack_purchase reserve release consume expire : EntryType
  dispute_freeze dispute_release refund_reversal : EntryType

pub data ActorKind : Type 0 where
  system stripe_webhook : ActorKind

pub data Reason : Type 0 where
  first_five dispute_created dispute_won refund_full refund_prorata : Reason
  lot_expired reservation_ttl_expired released_into_closed_lot : Reason
  pack given : ℕ → Reason

pub record CreditLedgerEntry : Type 0 where
  pub organization_id : ℕ
  pub lot_id : ℕ
  pub type : EntryType
  pub delta : ℤ
  pub candidate_session_id : Option ℕ
  pub stripe_event_id : Option ℕ
  pub actor_kind : ActorKind
  pub reason : Option Reason

pub data ReservationStatus : Type 0 where
  held captured released : ReservationStatus

pub record CreditReservation : Type 0 where
  pub id : ℕ
  pub organization_id : ℕ
  pub candidate_session_id : ℕ
  pub lot_id : ℕ
  pub status : Column ReservationStatus
  pub held_at : ℕ
  pub expires_at : ℕ
  pub resolved_at : Option ℕ

pub record Db : Type 0 where
  pub wallets : List CreditWallet
  pub lots : List CreditLot
  pub entries : List CreditLedgerEntry
  pub reservations : List CreditReservation

-- `status === "active"` and its like on a status column.
abbrev pub has_status : LotStatus → Column LotStatus → Bool
has_status LotStatus.active (known LotStatus.active) = true
has_status LotStatus.exhausted (known LotStatus.exhausted) = true
has_status LotStatus.expired (known LotStatus.expired) = true
has_status LotStatus.frozen (known LotStatus.frozen) = true
has_status LotStatus.revoked (known LotStatus.revoked) = true
has_status _ _ = false

abbrev pub is_held : Column ReservationStatus → Bool
is_held (known held) = true
is_held _ = false

abbrev pub is_captured : Column ReservationStatus → Bool
is_captured (known captured) = true
is_captured _ = false
