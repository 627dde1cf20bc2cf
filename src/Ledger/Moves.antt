-- ===== src/Ledger/Moves.antt =====
-- How the writes of the database client move the books of an organization.
use prelude.Base.{
  ℕ, ◌≡◌, refl, false, Option, none, some, List, [], ◌∷◌, arith, ◌==◌, Bool-cases, ==→eq, ==-refl,
  ==-false_symm, inl, inr, any,
}
use prelude.Base.Int.{ℤ, ◌+ℤ◌, ◌-ℤ◌, int_laws}
use prelude.Ledger.Schema.{Db, CreditWallet, CreditLot, CreditReservation}
use prelude.Ledger.Table.{
  find_row, update_row, find_row-update_row, find_row-update_row_ne, sum_of-update_row, sum_of-cons,
  All-find_row,
}
use prelude.Ledger.Monad.{Ensures, Ensures-if, done, failed, Result}
use prelude.Ledger.Client.{
  wallet_org, lot_id, reservation_id, find_wallet, find_lot, update_wallet, update_lot,
  update_reservation, with_row, clashes, same_wallet, same_reservation, create_lot,
  create_reservation, create_wallet,
}
use prelude.Ledger.Sound.{
  IsBacked, IsSolvent, KeepsLot, KeepsBacked, update_row-IsBacked, update_row-Sound, cons-Sound,
  create-Sound, reservation-Sound,
}
use prelude.Ledger.Books.{at, wallet_amount, active_amount, reserved_amount, Drift}

pub Ensures-with_row :
    {A B : Type 0} {Q : B → Db → Type 0} (o : Option A) (f : A → Result (B × Db))
    → ((a : A) → o ≡ some a → Ensures Q (f a))
    → Ensures Q (with_row o f)
Ensures-with_row none f h = failed _
Ensures-with_row (some a) f h = h a refl

-- The update of a lot that keeps its id and its owner moves the books by the change of that lot.
pub record LotMove (o : ℕ) (a r e : ℤ) (id : ℕ) (f : CreditLot → CreditLot) (db : Db)
    (x : CreditLot) (db' : Db) : Type 0 where
  pub lot : CreditLot
  pub found : find_lot id db ≡ some lot
  pub result : x ≡ f lot
  pub table : db'.lots ≡ update_row lot_id id f db.lots
  pub backs : KeepsBacked db db'
  pub drift :
      Drift o
        (a +ℤ (active_amount o (f lot) -ℤ active_amount o lot))
        (r +ℤ (reserved_amount o (f lot) -ℤ reserved_amount o lot))
        e
        db'

module _ (o : ℕ) {a r e : ℤ} where
  pub update_lot-Drift :
      (id : ℕ) (f : CreditLot → CreditLot) (db : Db)
      → ((lot : CreditLot) → find_lot id db ≡ some lot → KeepsLot lot f)
      → Drift o a r e db
      → Ensures (LotMove o a r e id f db) (update_lot id f db)
  unfolding update_lot
  update_lot-Drift id f db keeps d = Ensures-with_row (find_lot id db) _ λ lot found.
      let k = keeps lot found in
      done _ _ (record {
        lot = lot;
        found = found;
        result = refl;
        table = refl;
        backs = λ q. update_row-IsBacked id f db.lots q k.keeps_id k.keeps_owner;
        drift = record {
          available = omega (
            int_laws,
            d.available,
            sum_of-update_row (active_amount o) lot_id id f db.lots lot found,
          );
          reserved = omega (
            int_laws,
            d.reserved,
            sum_of-update_row (reserved_amount o) lot_id id f db.lots lot found,
          );
          ledger = d.ledger;
          sound = update_row-Sound id f db.lots db.reservations lot k found d.sound;
        };
      })

wallet_amount-update :
    (field : CreditWallet → ℤ) (o org : ℕ) (f : CreditWallet → CreditWallet)
    (wallets : List CreditWallet) (w : CreditWallet)
    → ((w : CreditWallet) → wallet_org (f w) ≡ wallet_org w)
    → find_row wallet_org org wallets ≡ some w
    → wallet_amount field (find_row wallet_org o (update_row wallet_org org f wallets))
      ≡ wallet_amount field (find_row wallet_org o wallets) +ℤ at o org (field (f w) -ℤ field w)
wallet_amount-update field o org f wallets w keep found = elim (Bool-cases (org == o)) [
  | inl same ↦
      let e : org ≡ o = ==→eq org o same in
      let found' : find_row wallet_org o wallets ≡ some w = rw e at found in
      rw e (
        rw (find_row-update_row wallet_org o f wallets w keep found', found', ==-refl o)
          (omega int_laws))
  | inr other ↦
      rw (find_row-update_row_ne wallet_org o org f wallets keep (==-false_symm org o other), other)
        (omega int_laws)
]

-- The update of a wallet.
pub record WalletMove (o : ℕ) (a r e : ℤ) (org : ℕ) (f : CreditWallet → CreditWallet) (db : Db)
    (x : CreditWallet) (db' : Db) : Type 0 where
  pub wallet : CreditWallet
  pub found : find_wallet org db ≡ some wallet
  pub result : x ≡ f wallet
  pub others : (db'.lots ≡ db.lots) × (db'.reservations ≡ db.reservations)
  pub drift :
      let gain = at o org ((f wallet).available_credits -ℤ wallet.available_credits) in
      Drift o
        (a -ℤ gain)
        (r -ℤ at o org ((f wallet).reserved_credits -ℤ wallet.reserved_credits))
        (e -ℤ gain)
        db'

module _ (o : ℕ) {a r e : ℤ} where
  pub update_wallet-Drift :
      (org : ℕ) (f : CreditWallet → CreditWallet) (db : Db)
      → ((w : CreditWallet) → wallet_org (f w) ≡ wallet_org w)
      → Drift o a r e db
      → Ensures (WalletMove o a r e org f db) (update_wallet org f db)
  unfolding update_wallet
  update_wallet-Drift org f db keep d = Ensures-with_row (find_wallet org db) _ λ w found.
      done _ _ (record {
        wallet = w;
        found = found;
        result = refl;
        others = (refl, refl);
        drift = record {
          available = omega (
            int_laws,
            d.available,
            wallet_amount-update (λ w. w.available_credits) o org f db.wallets w keep found,
          );
          reserved = omega (
            int_laws,
            d.reserved,
            wallet_amount-update (λ w. w.reserved_credits) o org f db.wallets w keep found,
          );
          ledger = omega (
            int_laws,
            d.ledger,
            wallet_amount-update (λ w. w.available_credits) o org f db.wallets w keep found,
          );
          sound = d.sound;
        };
      })

-- A new lot.
module _ (o : ℕ) {a r e : ℤ} where
  pub create_lot-Drift :
      (lot : CreditLot) (db : Db)
      → IsSolvent lot
      → Drift o a r e db
      → Ensures
          (λ x db'.
            (x ≡ lot) × Drift o (a +ℤ active_amount o lot) (r +ℤ reserved_amount o lot) e db')
          (create_lot lot db)
  unfolding create_lot
  create_lot-Drift lot db solvent d =
      Ensures-if (any (clashes lot) db.lots) _ _ (λ _. failed _)
        λ fresh. done _ _ (
          refl,
          record {
            available = omega (int_laws, d.available, sum_of-cons (active_amount o) lot db.lots);
            reserved = omega (int_laws, d.reserved, sum_of-cons (reserved_amount o) lot db.lots);
            ledger = d.ledger;
            sound = cons-Sound lot db.lots db.reservations fresh solvent d.sound;
          },
        )

  pub update_reservation-Drift :
      (id : ℕ) (f : CreditReservation → CreditReservation) (db : Db)
      → ((q : CreditReservation) → reservation_id (f q) ≡ reservation_id q)
      → ((q : CreditReservation)
          → find_row reservation_id id db.reservations ≡ some q
          → IsBacked db.lots q
          → IsBacked db.lots (f q))
      → Drift o a r e db
      → Ensures
          (λ _ db'. (db'.lots ≡ db.lots) × (db'.wallets ≡ db.wallets) × Drift o a r e db')
          (update_reservation id f db)
  unfolding update_reservation
  update_reservation-Drift id f db keep b d =
      Ensures-with_row (find_row reservation_id id db.reservations) _ λ q found. done _ _ (
        refl,
        refl,
        record {
          available = d.available;
          reserved = d.reserved;
          ledger = d.ledger;
          sound =
              reservation-Sound id f db.lots db.reservations q found keep
                (b q found (
                  All-find_row reservation_id (IsBacked db.lots) id db.reservations q found
                    d.sound.backed))
                d.sound;
        },
      )

  pub create_reservation-Drift :
      (q : CreditReservation) (db : Db)
      → IsBacked db.lots q
      → Drift o a r e db
      → Ensures (λ _ db'. Drift o a r e db') (create_reservation q db)
  unfolding create_reservation
  create_reservation-Drift q db b d =
      Ensures-if (any (same_reservation q) db.reservations) _ _ (λ _. failed _)
        λ fresh. done _ _ (record {
          available = d.available;
          reserved = d.reserved;
          ledger = d.ledger;
          sound = create-Sound db.lots q db.reservations fresh b d.sound;
        })

new_wallet_row :
    (w : CreditWallet) (wallets : List CreditWallet)
    → any (same_wallet w) wallets ≡ false
    → find_row wallet_org w.organization_id wallets ≡ none
unfolding find_row
new_wallet_row w [] h = refl
new_wallet_row w (v ∷ wallets) h = ground (arith, new_wallet_row w wallets)

wallet_amount-cons :
    (field : CreditWallet → ℤ) (o : ℕ) (w : CreditWallet) (wallets : List CreditWallet)
    → find_row wallet_org w.organization_id wallets ≡ none
    → wallet_amount field (find_row wallet_org o (w ∷ wallets))
      ≡ wallet_amount field (find_row wallet_org o wallets) +ℤ at o w.organization_id (field w)
unfolding find_row
wallet_amount-cons field o w wallets new = elim (Bool-cases (w.organization_id == o)) [
  | inl same ↦
      let e : w.organization_id ≡ o = ==→eq w.organization_id o same in
      let new' : find_row wallet_org o wallets ≡ none = rw e at new in
      rw (same, new') (omega int_laws)
  | inr other ↦ rw other (omega int_laws)
]

module _ (o : ℕ) {a r e : ℤ} where
  pub create_wallet-Drift :
      (w : CreditWallet) (db : Db)
      → Drift o a r e db
      → Ensures
          (λ _ db'.
            Drift o
              (a -ℤ at o w.organization_id w.available_credits)
              (r -ℤ at o w.organization_id w.reserved_credits)
              (e -ℤ at o w.organization_id w.available_credits)
              db')
          (create_wallet w db)
  unfolding create_wallet
  create_wallet-Drift w db d =
      Ensures-if (any (same_wallet w) db.wallets) _ _ (λ _. failed _)
        λ fresh.
          let new = new_wallet_row w db.wallets fresh in
          let av = wallet_amount-cons (λ v. v.available_credits) o w db.wallets new in
          let rs = wallet_amount-cons (λ v. v.reserved_credits) o w db.wallets new in
          done _ _ (record {
            available = omega (int_laws, d.available, av);
            reserved = omega (int_laws, d.reserved, rs);
            ledger = omega (int_laws, d.ledger, av);
            sound = d.sound;
          })
