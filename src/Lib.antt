-- ===== src/Lib.antt =====
-- The credit ledger and the rules of billing and of the candidate's session.
--
-- The program's parts that are modelled here, by their paths from the repository's root:
--   packages/billing/src/credit-ledger.ts, the transactional ledger of interview credits, in Ledger:
--     Ledger/Schema has the rows of the four credit tables (packages/db/prisma/schema.prisma), and
--     Ledger/Client the reads and writes of the database client with the unique constraints; a new row
--     stands before the old ones. Ledger/Table is the lookup by key and sums over a table.
--     Ledger/Monad has transactions: `Tx` passes the tables on, and an error loses them, as the
--     database rolls back; `run_transaction` is runTransaction with its three attempts. Ledger/Wallet
--     is toLotSnapshot, lockWallet, runInWalletTransaction, loadLots and ensureWallet; Ledger/Sweeps
--     the release of expired holds and the expiry of due lots; Ledger/Reservations reserve, capture
--     and release for a session; Ledger/Purchase grantPurchasedCreditLot; Ledger/Exits
--     freezeLotForDispute, resolveDisputeOnLot and revokeUnconsumedLot; Ledger/Audit reconcileWallet.
--     The proofs: Ledger/Sound and Ledger/Books say what the books of an organization are and
--     Ledger/Moves how each write moves them; Ledger/Balance follows every operation through its
--     writes, Ledger/Holds counts the held reservations of each lot, and Ledger/Invariant draws the
--     two together, for a call and for every sequence of calls. Ledger/Monad/Attempts is about the
--     retry, Ledger/Purchase/Replay and Ledger/Exits/Once about events that Stripe delivers again,
--     Ledger/Exits/Prorata about the gate of a partial refund, Ledger/Audit/Agreement about the audit.
--   packages/core/src/domain/credit-lots.ts, which lot is spent first and what a wallet shows, in
--     CreditLots; the ledger calls it to choose a lot and to audit.
--   packages/core/src/domain/billable-completion.ts in BillableCompletion.
--   packages/billing/src/billing-policy.ts in BillingPolicy: BillingPolicy/Normalization reads a
--     subscription and BillingPolicy/Entitlement decides on a feature. Its month of usage
--     (BillingPolicy/Period) stands on Calendar, the UTC calendar of the language's dates.
--   packages/billing/src/stripe-*.ts, which turn what Stripe reports into calls of the ledger, in Stripe:
--     Stripe/Webhook is stripe-webhook.ts, the archive of events, the routing table and the guard on
--     the archived status, Stripe/Reprocess its backfill of ignored events, Stripe/Fulfilment
--     stripe-fulfilment.ts (Handler composes its checks), Stripe/Refunds stripe-refunds.ts, and
--     Stripe/Checkout with Stripe/Customers, Stripe/Pricing and Stripe/Switches stripe-purchase.ts and
--     the switches of credit-billing-flag.ts and stripe-client.ts. Texts and Stripe/Numbers are what
--     the code uses of the language's texts and of `Number`. A handler works on a `Store`: the
--     ledger's tables, the catalogue, the archive and the customers. The webhook calls fulfilment and
--     the handlers of refunds and disputes, and each of them makes one call of the ledger at most:
--     Stripe/Webhook/Booked says which.
--   packages/core/src/domain/candidate-lifecycle.ts in Lifecycle.
--   apps/candidate/src/server/billing-admission.ts and credit-settlement.ts, which take a credit for a
--     session that starts or resumes and charge it or hand it back when it has ended, in Sessions:
--     Sessions/Admission with Usage (the counted sessions), Limit (by the plan) and Reserved (by a
--     credit), Sessions/Settlement with Verdicts and Last (one outcome for each question, that of its
--     last event), Books (the call of the ledger) and Charged; Sessions/Keeps is about the calls of
--     the database. A `Job` works on a store of the ledger's tables, the sessions and their live
--     events. The start calls the policy and the reservation, and the settlement BillableCompletion
--     and the capture or the release.
-- Base has the shared names, tests on native numbers, lists, and integers with their rules.
--
-- How the state corresponds. Ids, Stripe ids, country codes and reasons given by a caller are opaque
-- keys and are written as numbers; instants are milliseconds; credit counters are integers of any
-- size; cents of a refund are whole numbers. A text column is one of its known words or another text.
-- An operation takes a `Call`, which holds what the outside decides: the committed state that its
-- reads outside a transaction see, which attempts the database expires (P2028), and the ids of new
-- rows, whose uniqueness the tables check. The row lock on the wallet makes the transactions of an
-- organization happen one after another, so each is one step on the tables, and the attempts of one
-- transaction (runTransaction) run on the same tables: what other calls commit between two attempts is
-- not modelled. The recoveries from a
-- unique violation (P2002) are modelled; the quotients of the prorata test are compared exactly, where
-- the code divides in floating point; `toUpperCase` is that of ASCII letters. Loops are by recursion
-- on the rows that were read, and the retry loop on the three attempts. The calendar's loops and the
-- digits of a number run on fuel: the days of an instant, twelve months, the number itself, and the
-- theorems about them show that it is enough.
-- The Stripe client is a parameter, whose functions answer or raise an error, and so are the errors of
-- the archive's own writes. An id that a session's metadata carries is a text, and its key in the tables
-- is a number read off the text (key_of). Deliveries are taken one after the other; the upsert of a
-- delivery and its conclusion are separate functions, so that an interleaving of two can be written. The
-- archive's update finds the row that the upsert has left, since nothing deletes rows; on a missing row it
-- would write nothing here, where the database throws.
-- `Number` is compared exactly, where the code has a double. Which calls of the database fail around a
-- session, and which attempts end in a serialization conflict, are parameters too, and so is what the
-- loading of the workspace's billing answers; the three attempts of the admission are counted down.
--
-- Not modelled: logging, waiting between attempts, the signature check of a webhook, which is the
-- Stripe SDK's, and the rest of the repository, which is user interface, services around language and
-- voice models, integrations with Clerk, routes and dashboards, notifications, scripts and schemas.
pub mod Base
pub mod Calendar
pub mod CreditLots
pub mod Ledger
pub mod BillableCompletion
pub mod BillingPolicy
pub mod Lifecycle
pub mod Texts
pub mod Stripe
pub mod Sessions
