-- ===== src/Ledger/Sound.antt =====
-- The shape of the lot and reservation tables: keys are distinct, every reservation has a lot of its
-- organization, and no lot has given out more credits than it was granted.
use prelude.Base.{
  ℕ, ◌≡◌, refl, true, false, none, some, List, [], ◌∷◌, arith, ◌==◌, Bool-cases, ==→eq,
  ==-false_symm, inl, inr, All, any, ◌∙◌,
}
use prelude.Base.Int.{ℤ, pos, ◌-ℤ◌, ◌≤ℤ◌}
use prelude.Ledger.Schema.{Db, CreditLot, CreditReservation}
use prelude.Ledger.Table.{
  find_row, update_row, find_row-update_row, find_row-update_row_ne, Distinct, update_row-Distinct,
  All-update_row, All-find_row,
}
use prelude.Ledger.Client.{lot_id, reservation_id, clashes, same_reservation}

abbrev pub row_available : CreditLot → ℤ
row_available lot = lot.credits_granted -ℤ lot.credits_consumed -ℤ lot.credits_reserved

-- A reservation's lot exists and belongs to the reservation's organization.
abbrev pub IsBacked : List CreditLot → CreditReservation → Type 0
IsBacked lots r =
    (lot : CreditLot) × (find_row lot_id r.lot_id lots ≡ some lot)
    × (lot.organization_id ≡ r.organization_id)

-- What was backed before is backed after.
abbrev pub KeepsBacked : Db → Db → Type 0
KeepsBacked db db' = (q : CreditReservation) → IsBacked db.lots q → IsBacked db'.lots q

abbrev pub IsSolvent : CreditLot → Type 0
IsSolvent lot = pos 0 ≤ℤ row_available lot

pub record Sound (lots : List CreditLot) (reservations : List CreditReservation) : Type 0 where
  pub backed : All (IsBacked lots) reservations
  pub distinct : Distinct lot_id lots
  pub solvent : All IsSolvent lots
  pub unique : Distinct reservation_id reservations

-- What a write to a lot must keep.
pub record KeepsLot (lot : CreditLot) (f : CreditLot → CreditLot) : Type 0 where
  pub keeps_id : (y : CreditLot) → lot_id (f y) ≡ lot_id y
  pub keeps_owner : (y : CreditLot) → (f y).organization_id ≡ y.organization_id
  pub keeps_solvent : IsSolvent lot → IsSolvent (f lot)

pub update_row-IsBacked :
    (id : ℕ) (f : CreditLot → CreditLot) (lots : List CreditLot) (r : CreditReservation)
    → ((y : CreditLot) → lot_id (f y) ≡ lot_id y)
    → ((y : CreditLot) → (f y).organization_id ≡ y.organization_id)
    → IsBacked lots r
    → IsBacked (update_row lot_id id f lots) r
update_row-IsBacked id f lots r keep_id keep_org (lot, found, owner) =
    elim (Bool-cases (r.lot_id == id)) [
      | inl e ↦
          let same : r.lot_id ≡ id = ==→eq r.lot_id id e in
          let found' : find_row lot_id id lots ≡ some lot = rw same at found in
          (
            f lot,
            rw same (find_row-update_row lot_id id f lots lot keep_id found'),
            keep_org lot ∙ owner,
          )
      | inr e ↦ (lot, find_row-update_row_ne lot_id r.lot_id id f lots keep_id e ∙ found, owner)
    ]

pub update_row-IsBacked-All :
    (id : ℕ) (f : CreditLot → CreditLot) (lots : List CreditLot) (rs : List CreditReservation)
    → ((y : CreditLot) → lot_id (f y) ≡ lot_id y)
    → ((y : CreditLot) → (f y).organization_id ≡ y.organization_id)
    → All (IsBacked lots) rs
    → All (IsBacked (update_row lot_id id f lots)) rs
update_row-IsBacked-All id f lots [] keep_id keep_org h = tt
update_row-IsBacked-All id f lots (r ∷ rs) keep_id keep_org h = (
  update_row-IsBacked id f lots r keep_id keep_org h.0,
  update_row-IsBacked-All id f lots rs keep_id keep_org h.1,
)

pub update_row-Sound :
    (id : ℕ) (f : CreditLot → CreditLot) (lots : List CreditLot) (rs : List CreditReservation)
    (lot : CreditLot)
    → KeepsLot lot f
    → find_row lot_id id lots ≡ some lot
    → Sound lots rs
    → Sound (update_row lot_id id f lots) rs
update_row-Sound id f lots rs lot k found s = record {
  backed = update_row-IsBacked-All id f lots rs k.keeps_id k.keeps_owner s.backed;
  distinct = update_row-Distinct lot_id id f lots k.keeps_id s.distinct;
  solvent =
      All-update_row lot_id IsSolvent id f lots lot found
        (k.keeps_solvent (All-find_row lot_id IsSolvent id lots lot found s.solvent)) s.solvent;
  unique = s.unique;
}

-- A lot that clashes with no row has a new id.
pub clashes-find_row :
    (lot : CreditLot) (lots : List CreditLot)
    → any (clashes lot) lots ≡ false
    → find_row lot_id lot.id lots ≡ none
unfolding find_row
clashes-find_row lot [] h = refl
clashes-find_row lot (y ∷ lots) h = elim (Bool-cases (lot.id == y.id)) [
  | inl e ↦ let g : true ≡ false = rw e at h in cc
  | inr e ↦ rw (==-false_symm lot.id y.id e) (clashes-find_row lot lots (ground arith))
]

cons-IsBacked :
    (lot : CreditLot) (lots : List CreditLot) (rs : List CreditReservation)
    → find_row lot_id lot.id lots ≡ none
    → All (IsBacked lots) rs
    → All (IsBacked (lot ∷ lots)) rs
unfolding find_row
cons-IsBacked lot lots [] new h = tt
cons-IsBacked lot lots (r ∷ rs) new ((owner, found, same), rest) = (
  (
    owner,
    elim (Bool-cases (lot.id == r.lot_id)) [
      | inl e ↦
          let k : find_row lot_id r.lot_id lots ≡ none = rw (← ==→eq lot.id r.lot_id e) new in cc
      | inr e ↦ rw e found
    ],
    same,
  ),
  cons-IsBacked lot lots rs new rest,
)

pub cons-Sound :
    (lot : CreditLot) (lots : List CreditLot) (rs : List CreditReservation)
    → any (clashes lot) lots ≡ false
    → IsSolvent lot
    → Sound lots rs
    → Sound (lot ∷ lots) rs
cons-Sound lot lots rs fresh solvent s =
    let new = clashes-find_row lot lots fresh in
    record {
      backed = cons-IsBacked lot lots rs new s.backed;
      distinct = (new, s.distinct);
      solvent = (solvent, s.solvent);
      unique = s.unique;
    }

pub reservation-Sound :
    (id : ℕ) (f : CreditReservation → CreditReservation) (lots : List CreditLot)
    (rs : List CreditReservation) (r : CreditReservation)
    → find_row reservation_id id rs ≡ some r
    → ((q : CreditReservation) → reservation_id (f q) ≡ reservation_id q)
    → IsBacked lots (f r)
    → Sound lots rs
    → Sound lots (update_row reservation_id id f rs)
reservation-Sound id f lots rs r found keep b s = record {
  backed = All-update_row reservation_id (IsBacked lots) id f rs r found b s.backed;
  distinct = s.distinct;
  solvent = s.solvent;
  unique = update_row-Distinct reservation_id id f rs keep s.unique;
}

-- A reservation that clashes with no row has a new id.
same_reservation-find_row :
    (q : CreditReservation) (rs : List CreditReservation)
    → any (same_reservation q) rs ≡ false
    → find_row reservation_id q.id rs ≡ none
unfolding find_row
same_reservation-find_row q [] h = refl
same_reservation-find_row q (p ∷ rs) h = ground (arith, same_reservation-find_row q rs)

pub create-Sound :
    (lots : List CreditLot) (q : CreditReservation) (rs : List CreditReservation)
    → any (same_reservation q) rs ≡ false
    → IsBacked lots q
    → Sound lots rs
    → Sound lots (q ∷ rs)
create-Sound lots q rs fresh b s = record {
  backed = (b, s.backed);
  distinct = s.distinct;
  solvent = s.solvent;
  unique = (same_reservation-find_row q rs fresh, s.unique);
}
