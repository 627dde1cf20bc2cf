-- ===== src/Stripe/Webhook/Failures.antt =====
-- What a delivery does when its handler fails.
use prelude.Base.{
  ==-refl, Bool-cases, inl, inr, ◌⊎◌, true, false, ℕ, ◌+◌, ◌≡◌, refl, ◌∙◌, ap, Option, none, some,
}
use prelude.Ledger.Table.{find_row, find_row-update_row, update_row}
use prelude.Stripe.{
  received, settled, needs_admin, failed, proceed, Reply, reply, raised, StripeError, Store,
  StripeWebhookEvent, StripeWebhookStatus, StripeEvent,
}
use prelude.Stripe.Webhook.{
  archive_row, new_row, or_fault, is_parked, ArchiveCall, Delivery, default_deps, deliver,
  handle_stripe_webhook_event, archive_event, update_event, count_attempt, event_key, find_event,
  conclude, conclude_failed, record_failure, dispatch, first_of, settle_failed,
}
use prelude.Stripe.Webhook.Handled.{dispatch-Handled}

-- The state in which the handler of a delivery runs: the attempt is counted already.
abbrev pub opened_store : Delivery → Store → Store
opened_store d s = (archive_event d.archive d.event s).1

-- The row of a failed attempt: the last error is this one, the first one that of the first failure, and
-- the status `failed`, unless the event was parked.
pub record Failed (row : StripeWebhookEvent) (e : StripeError) (later : StripeWebhookEvent)
    : Type 0 where
  pub last : later.last_error ≡ some e
  pub first :
      ((row.first_error ≡ none) × (later.first_error ≡ some e))
      ⊎ ((e₀ : StripeError) × (row.first_error ≡ some e₀) × (later.first_error ≡ some e₀))
  pub status :
      ((is_parked row.status ≡ true) × (later.status ≡ settled needs_admin))
      ⊎ ((is_parked row.status ≡ false) × (later.status ≡ failed))
  pub attempts : later.attempt_count ≡ row.attempt_count + 1

record_failure-Failed :
    (row : StripeWebhookEvent) (e : StripeError)
    → Failed row e (record_failure (count_attempt row) e (count_attempt row))
unfolding record_failure settle_failed
record_failure-Failed row e = record {
  last = refl;
  first = first row.first_error;
  status = elim (Bool-cases (is_parked row.status)) [
    | inl p ↦ inl (p, rw p refl)
    | inr p ↦ inr (p, rw p refl)
  ];
  attempts = refl;
}
  where
    first :
        (seen : Option StripeError)
        → ((seen ≡ none) × (first_of seen seen e ≡ some e))
          ⊎ ((e₀ : StripeError) × (seen ≡ some e₀) × (first_of seen seen e ≡ some e₀))
    first none = inl (refl, refl)
    first (some e₀) = inr (e₀, refl, refl)

-- What the row of an event says after an attempt that failed, by the row from before: a first delivery
-- has written the row itself.
abbrev pub HasFailed : Option StripeWebhookEvent → StripeError → StripeWebhookEvent → Type 0
HasFailed (some row) e later = Failed row e later
HasFailed none e later =
    (later.last_error ≡ some e)
    × (later.first_error ≡ some e)
    × (later.status ≡ failed)
    × (later.attempt_count ≡ 1)

-- The attempt is counted and nothing else is written.
abbrev pub IsOnlyCounted : Option StripeWebhookEvent → StripeWebhookEvent → Type 0
IsOnlyCounted (some row) later = later ≡ record row { attempt_count = row.attempt_count + 1 }
IsOnlyCounted none later =
    (later.last_error ≡ none)
    × (later.first_error ≡ none)
    × (later.status ≡ received)
    × (later.attempt_count ≡ 1)

-- The failure is written, unless the archive's update fails as well.
abbrev pub IsArchivedFailure :
    Option StripeError → Option StripeWebhookEvent → StripeError → StripeWebhookEvent → Type 0
IsArchivedFailure none prior e later = HasFailed prior e later
IsArchivedFailure (some fault) prior e later = IsOnlyCounted prior later

-- The row that the upsert returns.
abbrev upserted : Delivery → Option StripeWebhookEvent → StripeWebhookEvent
upserted d none = new_row d.event d.archive.received_at
upserted d (some row) = count_attempt row

archived_row :
    (d : Delivery) (s : Store) (prior : Option StripeWebhookEvent)
    → find_event d.event.id s.events ≡ prior
    → let r = archive_row d.event d.archive.received_at prior s in
      (r.0 ≡ reply (upserted d prior))
      × (find_event d.event.id r.1.events ≡ some (upserted d prior))
unfolding find_event find_row
archived_row d s none found = (refl, rw (==-refl d.event.id) refl)
archived_row d s (some row) found =
    (refl, find_row-update_row event_key d.event.id count_attempt s.events row (λ _. refl) found)

opened_row :
    (d : Delivery) (s : Store)
    → d.archive.upsert_fault ≡ none
    → let prior = find_event d.event.id s.events in
      ((archive_event d.archive d.event s).0 ≡ reply (upserted d prior))
      × (find_event d.event.id (opened_store d s).events ≡ some (upserted d prior))
unfolding archive_event
opened_row d s up = rw up (archived_row d s (find_event d.event.id s.events) refl)

-- The row after the `catch`.
abbrev row_after : Option StripeError → StripeError → StripeWebhookEvent → StripeWebhookEvent
row_after none e archived = record_failure archived e archived
row_after (some fault) e archived = archived

-- A failed dispatch is concluded with its error, and with the row that tells it.
conclude-row_after :
    (archive : ArchiveCall) (event : StripeEvent) (now : ℕ) (archived : StripeWebhookEvent)
    (e : StripeError) (r : Reply StripeWebhookStatus × Store)
    → r.0 ≡ raised e
    → find_event event.id r.1.events ≡ some archived
    → let done = conclude archive event now archived r in
      (done.0 ≡ raised e)
      × (find_event event.id done.1.events ≡ some (row_after archive.update_fault e archived))
unfolding conclude conclude_failed update_event find_event
conclude-row_after archive event now archived e (reply computed, s) h found = cc
conclude-row_after archive event now archived e (raised e', s) h found =
    let same : e' ≡ e = cc in (ap raised same, written e' same archive.update_fault)
  where
    written :
        (f : StripeError) (same : f ≡ e) (fault : Option StripeError)
        → find_event event.id
            (or_fault fault
              (λ s. (
                reply tt,
                record s {
                  events = update_row event_key event.id (record_failure archived f) s.events;
                },
              ))
              s).1.events
          ≡ some (row_after fault e archived)
    written f same (some fault) = found
    written f same none =
        find_row-update_row event_key event.id (record_failure archived f) s.events archived
          (λ _. refl) found
        ∙ ap (λ g. some (record_failure archived g archived)) same

row_after-IsArchivedFailure :
    (d : Delivery) (fault : Option StripeError) (prior : Option StripeWebhookEvent)
    (e : StripeError)
    → IsArchivedFailure fault prior e (row_after fault e (upserted d prior))
unfolding record_failure settle_failed
row_after-IsArchivedFailure d none (some row) e = record_failure-Failed row e
row_after-IsArchivedFailure d none none e = (refl, refl, refl, refl)
row_after-IsArchivedFailure d (some fault) (some row) e = refl
row_after-IsArchivedFailure d (some fault) none e = (refl, refl, refl, refl)

pub delivered :
    (d : Delivery) (s : Store)
    → d.archive.upsert_fault ≡ none
    → deliver d s
      ≡ conclude d.archive d.event
          (default_deps d).now
          (upserted d (find_event d.event.id s.events))
          (dispatch (default_deps d) d.event (opened_store d s))
unfolding deliver handle_stripe_webhook_event
delivered d s up =
    let deps = default_deps d in
    ap
      (λ (r : Reply StripeWebhookEvent).
        proceed (r, opened_store d s)
          λ archived s'. conclude d.archive d.event deps.now archived (dispatch deps d.event s'))
      (opened_row d s up).0

-- Once the attempt is counted, a handler's error is raised again as it is, so that Stripe retries the
-- event, whether or not the archive can write the failure. Where it can, the row has this error as its last
-- one; on a first delivery it is the first error too, the status is `failed` and the attempts are one, and
-- on a later one the row keeps the first error if it has one, is `failed` unless it was parked, and has one
-- attempt more. Where it cannot, the row has only the attempt counted.
pub failure_recorded :
    (d : Delivery) (s : Store) (e : StripeError)
    → d.archive.upsert_fault ≡ none
    → (dispatch (default_deps d) d.event (opened_store d s)).0 ≡ raised e
    → ((deliver d s).0 ≡ raised e)
      × (later : StripeWebhookEvent) × (find_event d.event.id (deliver d s).1.events ≡ some later)
      × IsArchivedFailure d.archive.update_fault (find_event d.event.id s.events) e later
failure_recorded d s e up fails =
    let prior = find_event d.event.id s.events in
    let same_rows =
      ap (find_event d.event.id) (dispatch-Handled d d.event (opened_store d s)).events in
    let done =
      conclude-row_after d.archive d.event (default_deps d).now (upserted d prior) e
        (dispatch (default_deps d) d.event (opened_store d s)) fails
        (same_rows ∙ (opened_row d s up).1) in
    rw (delivered d s up) (
      done.0,
      row_after d.archive.update_fault e (upserted d prior),
      done.1,
      row_after-IsArchivedFailure d d.archive.update_fault prior e,
    )
