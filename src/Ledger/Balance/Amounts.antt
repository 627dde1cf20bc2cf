-- ===== src/Ledger/Balance/Amounts.antt =====
-- What each kind of write to a lot changes in the books.
use prelude.Base.{ℕ, ◌≡◌, refl, true, false, arith}
use prelude.Base.Int.{ℤ, pos, ◌+ℤ◌, ◌-ℤ◌, int_laws}
use prelude.CreditLots.{LotStatus, active, expired, frozen, revoked}
use prelude.Ledger.Schema.{CreditLot, has_status}
use prelude.Ledger.Sound.{row_available, KeepsLot}
use prelude.Ledger.Books.{at, active_amount, reserved_amount}
use prelude.Ledger.Exits.{freeze_at}
use prelude.Ledger.Sweeps.{give_back, with_status}

pub give_back-KeepsLot : (lot : CreditLot) → KeepsLot lot give_back
give_back-KeepsLot lot = record {
  keeps_id = λ y. refl;
  keeps_owner = λ y. refl;
  keeps_solvent = λ h. omega int_laws;
}

pub with_status-KeepsLot :
    (status : LotStatus) (lot : CreditLot) → KeepsLot lot (with_status status)
with_status-KeepsLot status lot = record {
  keeps_id = λ y. refl;
  keeps_owner = λ y. refl;
  keeps_solvent = λ h. h;
}

-- A credit given back to an open lot is available again.
pub give_back_active :
    (o org : ℕ) (lot : CreditLot)
    → lot.organization_id ≡ org
    → has_status active lot.status ≡ true
    → active_amount o (give_back lot) -ℤ active_amount o lot ≡ at o org (pos 1)
give_back_active o org lot owner live = grind int_laws

pub give_back_closed :
    (o org : ℕ) (lot : CreditLot)
    → lot.organization_id ≡ org
    → has_status active lot.status ≡ false
    → active_amount o (give_back lot) -ℤ active_amount o lot ≡ pos 0
give_back_closed o org lot owner closed = grind int_laws

pub give_back_reserved :
    (o org : ℕ) (lot : CreditLot)
    → lot.organization_id ≡ org
    → reserved_amount o (give_back lot) -ℤ reserved_amount o lot ≡ pos 0 -ℤ at o org (pos 1)
give_back_reserved o org lot owner = grind int_laws

-- A closed lot takes what it had available out of the books.
pub close_active :
    (o org : ℕ) (lot : CreditLot)
    → lot.organization_id ≡ org
    → has_status active lot.status ≡ true
    → active_amount o (with_status expired lot) -ℤ active_amount o lot
      ≡ pos 0 -ℤ at o org (row_available lot)
close_active o org lot owner live = grind int_laws

-- A payment's lot leaves the books when it is frozen or revoked, and comes back when it is unfrozen.
pub freeze_active_amount :
    (o now : ℕ) (lot : CreditLot)
    → has_status active lot.status ≡ true
    → active_amount o (freeze_at now lot) -ℤ active_amount o lot
      ≡ pos 0 -ℤ at o lot.organization_id (row_available lot)
freeze_active_amount o now lot live = grind int_laws

pub revoke_active_amount :
    (o : ℕ) (lot : CreditLot)
    → has_status active lot.status ≡ true
    → active_amount o (with_status revoked lot) -ℤ active_amount o lot
      ≡ pos 0 -ℤ at o lot.organization_id (row_available lot)
revoke_active_amount o lot live = grind int_laws

not_active :
    (lot : CreditLot) → has_status frozen lot.status ≡ true → has_status active lot.status ≡ false
not_active lot h = ground arith

pub unfreeze_active_amount :
    (o : ℕ) (lot : CreditLot)
    → has_status frozen lot.status ≡ true
    → active_amount o (with_status active lot) -ℤ active_amount o lot
      ≡ at o lot.organization_id (row_available lot)
unfreeze_active_amount o lot h = rw (not_active lot h) (grind int_laws)

pub lose_active_amount :
    (o : ℕ) (lot : CreditLot)
    → has_status frozen lot.status ≡ true
    → active_amount o (with_status revoked lot) -ℤ active_amount o lot ≡ pos 0
lose_active_amount o lot h = rw (not_active lot h) (grind int_laws)

pub freeze_at-KeepsLot : (now : ℕ) (lot : CreditLot) → KeepsLot lot (freeze_at now)
freeze_at-KeepsLot now lot = record {
  keeps_id = λ y. refl;
  keeps_owner = λ y. refl;
  keeps_solvent = λ h. h;
}

-- What a wallet update takes out or puts in, against what the lots and the entries moved.
module _ (o org : ℕ) where
  pub taken : (x y w : ℤ) → x +ℤ (pos 0 -ℤ at o org y) -ℤ at o org (w -ℤ y -ℤ w) ≡ x
  taken x y w = grind int_laws

  pub taken_entry : (x y w : ℤ) → x +ℤ at o org (pos 0 -ℤ y) -ℤ at o org (w -ℤ y -ℤ w) ≡ x
  taken_entry x y w = grind int_laws

  pub put : (x y w : ℤ) → x +ℤ at o org y -ℤ at o org (w +ℤ y -ℤ w) ≡ x
  put x y w = grind int_laws

  pub untouched : (x y : ℤ) → x -ℤ at o org (y -ℤ y) ≡ x
  untouched x y = grind int_laws
