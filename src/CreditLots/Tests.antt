-- ===== src/CreditLots/Tests.antt =====
-- The selection and the totals on two lots, of which the free one is spent first.
use prelude.Base.{◌≡◌, ◌&&◌, true, List, [], ◌∷◌}
use prelude.Base.Int.{pos}
use prelude.CreditLots.{
  CreditLotSnapshot, free, paid, active, available_in_lot, is_lot_clock_active, is_free,
  select_lot_for_reservation, compute_wallet_totals,
}
use prelude.CreditLots.Selection.{Selects, select_lot_for_reservation-Selects}
use prelude.CreditLots.Totals.{
  sum_where, is_paid, compute_wallet_totals_sums, IsNextExpiry, compute_wallet_totals-IsNextExpiry,
}

abbrev two_lots : List CreditLotSnapshot
two_lots =
    record {
      id = 1;
      kind = paid;
      status = active;
      credits_granted = pos 20;
      credits_consumed = pos 3;
      credits_reserved = pos 1;
      granted_at = 0;
      expires_at = 1000;
    }
    ∷ record {
      id = 2;
      kind = free;
      status = active;
      credits_granted = pos 5;
      credits_consumed = pos 4;
      credits_reserved = pos 0;
      granted_at = 0;
      expires_at = 2000;
    }
    ∷ []

select_lot_for_reservation-Selects_example :
    Selects two_lots 500 (select_lot_for_reservation two_lots 500)
select_lot_for_reservation-Selects_example = select_lot_for_reservation-Selects two_lots 500

compute_wallet_totals_sums_example :
    let t = compute_wallet_totals two_lots 1500 in
    (t.available ≡ sum_where (λ lot. is_lot_clock_active lot 1500) available_in_lot two_lots)
    × (t.free_available
        ≡ sum_where
            (λ lot. is_lot_clock_active lot 1500 && is_free lot.kind)
            available_in_lot
            two_lots)
    × (t.paid_available
        ≡ sum_where
            (λ lot. is_lot_clock_active lot 1500 && is_paid lot.kind)
            available_in_lot
            two_lots)
    × (t.reserved ≡ sum_where (λ _. true) (λ lot. lot.credits_reserved) two_lots)
compute_wallet_totals_sums_example = compute_wallet_totals_sums two_lots 1500

compute_wallet_totals-IsNextExpiry_example :
    IsNextExpiry two_lots 500 (compute_wallet_totals two_lots 500).next_expiry
compute_wallet_totals-IsNextExpiry_example = compute_wallet_totals-IsNextExpiry two_lots 500
