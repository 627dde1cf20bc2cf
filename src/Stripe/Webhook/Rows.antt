-- ===== src/Stripe/Webhook/Rows.antt =====
-- What the upsert of an event and the update after its dispatch do to a row of the archive.
use prelude.Base.{
  ℕ, ◌≤◌, ◌≡◌, refl, ◌∙◌, sym, ap, Bool, true, false, not, Option, none, some, arith, ◌==◌, ==→eq,
  ==-false_symm, Bool-cases, Option-cases, inl, inr, ◌⊎◌, if◌then◌else◌, ◌||◌,
}
use prelude.Ledger.Table.{find_row, update_row, find_row-update_row, find_row-update_row_ne}
use prelude.Stripe.{
  Reply, reply, raised, StripeError, Store, ArchivedStatus, settled, needs_admin, StripeEvent,
  StripeWebhookEvent, StripeWebhookStatus, return,
}
use prelude.Stripe.Webhook.{
  ArchiveCall, archive_event, update_event, or_fault, archive_row, count_attempt, event_key,
  find_event, is_parked, conclude, conclude_failed, conclude_settled, record_failure,
  record_outcome, settle_failed, settle_status, is_needs_admin, same_status, first_of,
}
use prelude.Stripe.Webhook.Handled.{proceed-inv}

-- What a row may become: parked stays parked, a first error stays, attempts are never forgotten.
pub record Advances (row later : StripeWebhookEvent) : Type 0 where
  pub parked : (is_parked row.status ≡ false) ⊎ (is_parked later.status ≡ true)
  pub first : (row.first_error ≡ none) ⊎ (later.first_error ≡ row.first_error)
  pub attempts : row.attempt_count ≤ later.attempt_count

pub stays : (row : StripeWebhookEvent) → Advances row row
stays row = record {
  parked = still (is_parked row.status);
  first = inr refl;
  attempts = omega arith;
}
  where
    still : (b : Bool) → (b ≡ false) ⊎ (b ≡ true)
    still true = inr refl
    still false = inl refl

pub Advances-trans : (a b c : StripeWebhookEvent) → Advances a b → Advances b c → Advances a c
Advances-trans a b c f g = record {
  parked = parked f.parked g.parked;
  first = first f.first g.first;
  attempts = omega (arith, f.attempts, g.attempts);
}
  where
    parked :
        (is_parked a.status ≡ false) ⊎ (is_parked b.status ≡ true)
        → (is_parked b.status ≡ false) ⊎ (is_parked c.status ≡ true)
        → (is_parked a.status ≡ false) ⊎ (is_parked c.status ≡ true)
    parked (inl p) q = inl p
    parked (inr p) (inl q) = let no : true ≡ false = sym p ∙ q in cc
    parked (inr p) (inr q) = inr q

    first :
        (a.first_error ≡ none) ⊎ (b.first_error ≡ a.first_error)
        → (b.first_error ≡ none) ⊎ (c.first_error ≡ b.first_error)
        → (a.first_error ≡ none) ⊎ (c.first_error ≡ a.first_error)
    first (inl p) q = inl p
    first (inr p) (inl q) = inl (sym p ∙ q)
    first (inr p) (inr q) = inr (q ∙ p)

-- The archive has a row of the event that `row` may have become.
abbrev pub Holds : ℕ → StripeWebhookEvent → Store → Type 0
Holds k row s =
    (later : StripeWebhookEvent) × (find_event k s.events ≡ some later) × Advances row later

record_failure-Advances :
    (row : StripeWebhookEvent) (e : StripeError) → Advances row (record_failure row e row)
unfolding record_failure settle_failed
record_failure-Advances row e = record {
  parked = elim (Bool-cases (is_parked row.status)) [ inl p ↦ inr (rw p refl) | inr p ↦ inl p ];
  first = first row.first_error;
  attempts = omega arith;
}
  where
    first :
        (current : Option StripeError) → (current ≡ none) ⊎ (first_of current current e ≡ current)
    first none = inl refl
    first (some seen) = inr refl

settle_status-parked :
    (prior : ArchivedStatus) (computed : StripeWebhookStatus)
    → is_parked prior ≡ true
    → settle_status prior computed ≡ needs_admin
unfolding settle_status
settle_status-parked prior computed p = rw p (decided computed)
  where
    decided :
        (c : StripeWebhookStatus)
        → (if not true || is_needs_admin c then c else needs_admin) ≡ needs_admin
    decided StripeWebhookStatus.processed = refl
    decided StripeWebhookStatus.ignored = refl
    decided needs_admin = refl

outcome-parked :
    (row : StripeWebhookEvent) (status : StripeWebhookStatus)
    → (is_parked row.status ≡ true → status ≡ needs_admin)
    → (is_parked row.status ≡ false) ⊎ (is_parked (settled status) ≡ true)
outcome-parked row status h = elim (Bool-cases (is_parked row.status)) [
  | inl p ↦ let e = h p in inr (rw e refl)
  | inr p ↦ inl p
]

record_outcome-Advances :
    (row : StripeWebhookEvent) (now : ℕ) (stuck : Bool) (status : StripeWebhookStatus)
    → (is_parked row.status ≡ true → status ≡ needs_admin)
    → Advances row (record_outcome now stuck status row)
unfolding record_outcome
record_outcome-Advances row now true status h = record {
  parked = outcome-parked row status h;
  first = inr refl;
  attempts = omega arith;
}
record_outcome-Advances row now false status h = record {
  parked = outcome-parked row status h;
  first = inr refl;
  attempts = omega arith;
}

module _ (k : ℕ) (row : StripeWebhookEvent) where
  update_event-Holds :
      (archive : ArchiveCall) (id : ℕ) (change : StripeWebhookEvent → StripeWebhookEvent)
      (s : Store)
      → find_event k s.events ≡ some row
      → ((r : StripeWebhookEvent) → event_key (change r) ≡ event_key r)
      → (id ≡ k → Advances row (change row))
      → Holds k row (update_event archive id change s).1
  unfolding update_event find_event
  update_event-Holds archive id change s found keep h = faulty archive.update_fault
    where
      written : Holds k row (record s { events = update_row event_key id change s.events })
      written = elim (Bool-cases (k == id)) [
        | inl e ↦
            let same : id ≡ k = sym (==→eq k id e) in
            (
              change row,
              rw same (find_row-update_row event_key k change s.events row keep found),
              h same,
            )
        | inr e ↦
            (row, find_row-update_row_ne event_key k id change s.events keep e ∙ found, stays row)
      ]

      faulty :
          (fault : Option StripeError)
          → Holds k row
              (or_fault fault
                (λ s. (reply tt, record s { events = update_row event_key id change s.events }))
                s).1
      faulty none = written
      faulty (some e) = (row, found, stays row)

  -- The state after the upsert: the row of the event, and the row that the upsert returned.
  pub data Opened (event : StripeEvent) : Reply StripeWebhookEvent × Store → Type 0 where
    unopened : (e : StripeError) (s : Store) → Holds k row s → Opened event (raised e, s)
    opened :
        (archived : StripeWebhookEvent) (s : Store) (now_row : StripeWebhookEvent)
        → find_event k s.events ≡ some now_row
        → Advances row now_row
        → (event.id ≡ k → archived ≡ now_row)
        → Opened event (reply archived, s)

  counted : Advances row (count_attempt row)
  counted = record { parked = (stays row).parked; first = inr refl; attempts = omega arith }

  -- An event without a row is another event.
  absent-ne :
      (id : ℕ) (s : Store)
      → find_event k s.events ≡ some row
      → find_event id s.events ≡ none
      → (id == k) ≡ false
  absent-ne id s found missing = elim (Bool-cases (id == k)) [
    | inl e ↦
        let same : id ≡ k = ==→eq id k e in
        let none_here : find_event k s.events ≡ none =
          ap (λ i. find_event i s.events) (sym same) ∙ missing in
        cc
    | inr e ↦ e
  ]

  ne-ids : (id : ℕ) → (id == k) ≡ false → id ≡ k → ⊥
  ne-ids id other same = ground arith

  open_new-Opened :
      (event : StripeEvent) (received_at : ℕ) (s : Store)
      → find_event k s.events ≡ some row
      → find_event event.id s.events ≡ none
      → Opened event (archive_row event received_at none s)
  unfolding find_event find_row
  open_new-Opened event received_at s found missing =
      let other = absent-ne event.id s found missing in
      opened _ _ row (rw other found) (stays row) λ e. absurd (ne-ids event.id other e)

  open_stored-Opened :
      (event : StripeEvent) (received_at : ℕ) (stored : StripeWebhookEvent) (s : Store)
      → find_event k s.events ≡ some row
      → find_event event.id s.events ≡ some stored
      → Opened event (archive_row event received_at (some stored) s)
  unfolding find_event
  open_stored-Opened event received_at stored s found present = elim (Bool-cases (k == event.id)) [
    | inl e ↦
        let same : event.id ≡ k = sym (==→eq k event.id e) in
        let both : some stored ≡ some row =
          sym present ∙ ap (λ i. find_event i s.events) same ∙ found in
        let one : stored ≡ row = cc in
        opened _ _ (count_attempt row)
          (rw same (find_row-update_row event_key k count_attempt s.events row (λ _. refl) found))
          counted λ _. ap count_attempt one
    | inr e ↦
        opened _ _ row
          (find_row-update_row_ne event_key k event.id count_attempt s.events (λ _. refl) e ∙ found)
          (stays row) λ same. absurd (ne-ids event.id (==-false_symm k event.id e) same)
  ]

  pub archive_event-Opened :
      (archive : ArchiveCall) (event : StripeEvent) (s : Store)
      → find_event k s.events ≡ some row
      → Opened event (archive_event archive event s)
  unfolding archive_event
  archive_event-Opened archive event s found = faulty archive.upsert_fault
    where
      faulty :
          (fault : Option StripeError)
          → Opened event (
              or_fault fault
                (λ s. archive_row event archive.received_at (find_event event.id s.events) s)
                s)
      faulty (some e) = unopened e s (row, found, stays row)
      faulty none = elim (Option-cases (find_event event.id s.events)) [
        | inl e ↦ rw e (open_new-Opened event archive.received_at s found e)
        | inr (stored, e) ↦ rw e (open_stored-Opened event archive.received_at stored s found e)
      ]

  pub conclude-Holds :
      (archive : ArchiveCall) (event : StripeEvent) (now : ℕ) (archived : StripeWebhookEvent)
      (r : Reply StripeWebhookStatus × Store)
      → (event.id ≡ k → archived ≡ row)
      → find_event k r.1.events ≡ some row
      → Holds k row (conclude archive event now archived r).1
  unfolding conclude conclude_settled conclude_failed
  conclude-Holds archive event now archived (reply computed, s) same found =
      let status = settle_status archived.status computed in
      let change = record_outcome now (not (same_status status computed)) status in
      proceed-inv (Holds k row) (update_event archive event.id change s) (λ _. return status)
        (update_event-Holds archive event.id change s found
          (record_outcome-key now (not (same_status status computed)) status)
          (λ e.
            record_outcome-Advances row now (not (same_status status computed)) status
              λ p. settle_status-parked archived.status computed (rw (same e) p)))
        λ _ _ h. h
    where
      record_outcome-key :
          (now : ℕ) (stuck : Bool) (status : StripeWebhookStatus) (r : StripeWebhookEvent)
          → event_key (record_outcome now stuck status r) ≡ event_key r
      record_outcome-key now true status r = refl
      record_outcome-key now false status r = refl
  conclude-Holds archive event now archived (raised e, s) same found =
      update_event-Holds archive event.id (record_failure archived e) s found (λ _. refl)
        λ i. rw (same i) (record_failure-Advances row e)
