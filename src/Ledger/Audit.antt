-- ===== src/Ledger/Audit.antt =====
-- `reconcileWallet`: the wallet recomputed from the lots and from the ledger entries.
pub mod Agreement
use prelude.Base.{ℕ, Bool, List, [], ◌∷◌, ◌==◌, if◌then◌else◌, filter, ◌&&◌}
use prelude.Base.Int.{ℤ, pos, ◌+ℤ◌, eqb_ℤ}
use prelude.CreditLots.{WalletTotals, compute_wallet_totals}
use prelude.Ledger.Schema.{CreditWallet, CreditLedgerEntry}
use prelude.Ledger.Monad.{Tx, Op, pure, gets, lift, ◌>>=◌}
use prelude.Ledger.Client.{find_wallet, or_not_found}
use prelude.Ledger.Wallet.{Call, to_lot_snapshots, run_in_wallet_transaction}

pub record WalletReconciliation : Type 0 where
  pub consistent : Bool
  pub expected_available : ℤ
  pub expected_reserved : ℤ
  pub actual_available : ℤ
  pub actual_reserved : ℤ

-- `_sum: { delta: true }`, 0 for no entry.
unfoldable pub ledger_sum : ℕ → List CreditLedgerEntry → ℤ
ledger_sum org [] = pos 0
ledger_sum org (e ∷ entries) =
    (if e.organization_id == org then e.delta else pos 0) +ℤ ledger_sum org entries

unfoldable pub compare_books : CreditWallet → WalletTotals → ℤ → WalletReconciliation
compare_books wallet totals ledger_delta = record {
  consistent =
      eqb_ℤ totals.available wallet.available_credits
      && eqb_ℤ totals.reserved wallet.reserved_credits
      && eqb_ℤ ledger_delta wallet.available_credits;
  expected_available = totals.available;
  expected_reserved = totals.reserved;
  actual_available = wallet.available_credits;
  actual_reserved = wallet.reserved_credits;
}

unfoldable pub reconcile_tx : ℕ → ℕ → Tx WalletReconciliation
reconcile_tx org now = do
  found ← gets (find_wallet org)
  wallet ← or_not_found found
  lot_rows ← gets (λ db. filter (λ lot. lot.organization_id == org) db.lots)
  ledger_delta ← gets (λ db. ledger_sum org db.entries)
  lots ← lift (to_lot_snapshots lot_rows)
  pure (compare_books wallet (compute_wallet_totals lots now) ledger_delta)

-- `now` is the real clock's.
unfoldable pub reconcile_wallet : Call → ℕ → ℕ → Op WalletReconciliation
reconcile_wallet call org now = run_in_wallet_transaction call.expires org (reconcile_tx org now)
