-- ===== src/Lib.antt =====
-- polymarket-live-copy: a service that copies the trades of a source wallet on Polymarket, at a fixed
-- scale, with the money of one wallet that several strategies share.
--
-- A source action is sized into a plan (app/cd90_live_sizing.py). The plan's cash or inventory is
-- reserved, the order is submitted, and the fill is booked in the ledger of the strategy, an SQLite
-- file (`LiveStore` of app/cd90_live_copy.py). When a market resolves, the tokens of one condition that
-- more than one strategy holds are redeemed once for all of them, under a receipt of the wallet's
-- coordinator (app/live_wallet_coordinator.py), and the payout is distributed to the ledgers.
--
-- The files:
--   Prelude        tests, lists, results, integers and the tables of a database with a text key
--   Decimal        Python's decimal arithmetic: a value is an integer number of units of
--                  10 ^ -places, and an operation rounds half to even to the digits of the context.
--                  The exponents are unbounded: decimal.Overflow, which the default context raises
--                  beyond 10 ^ 999999, is not modelled.
--   Sizing         app/cd90_live_sizing.py: `maximum_buy_fee_usd` and `derive_fixed_share_scale`
--                  (Sizing/Fee), `plan_action` (Sizing/Plan, `read_order` for the reading of the
--                  inputs, one definition for each block of its body)
--   Store          `LiveStore` of app/cd90_live_copy.py: the rows of the tables (Store),
--                  `begin_submission_attempt` (Store/Attempts), `_apply_fill_on_connection`
--                  (Store/Fills: `apply_fill`), `apply_fill_and_finalize` (Store/Finalize),
--                  `release_reservation_and_finalize` (Store/Release),
--                  `reconcile_definitive_submission_rejection` (Store/Rejection), `ensure_action_target`,
--                  the marks of an attempt and of a target, and `append_transition` (Store/Marks)
--   Settlement     `LiveStore` again: the tables of the redemptions and `condition_inventory`
--                  (Settlement), the receipts and their marks (Settlement/Receipts), the settlements
--                  (Settlement/Settle), `apply_shared_condition_settlement` (Settlement/Handoff)
--   Shared         app/live_wallet_coordinator.py: the redemption of a shared condition: its table of
--                  transitions (Shared) and its operations (Shared/Redemption)
--   Distribution   app/cd90_live_copy.py: `_apply_shared_redemption_allocations`, which calls Shared and
--                  Settlement in turn; app/live_wallet_coordinator.py: `_shared_condition_inventory`,
--                  what the ledgers hold of a condition (Distribution/Inventory)
--   Cash           app/live_wallet_coordinator.py: `authenticated_account_cash_snapshot`
--                  (Cash/Snapshot) and `reconcile_redeemed_cash_credit_quarantines`
--                  (Cash/Reconcile), with what they read of each ledger (Cash)
--   Retry          app/cd90_live_copy.py: `bounded_retry_phase`, `bounded_retry_price_boundary`
--   Alerter        ops/polymarket-deadman-alerter.py: the units, the fingerprints of the problems and `main`
-- The other files are about these: Sizing/Safety, Sizing/Scale, Sizing/ZeroPower and Sizing/FeeBound
-- about a plan and its fee, Store/Positions, Store/Accounting and Store/Targets about what a fill
-- books, Store/Opened, Store/Marked, Store/Retained, Store/Exclusive, Store/Aims, Store/Frozen and
-- Store/Frame about the operations on a ledger together, Settlement/Booked, Settlement/Conserved,
-- Settlement/Share and Settlement/Repeat about what a settlement books, Settlement/Once,
-- Settlement/Kept, Settlement/History and Settlement/Reopened about the operations on a receipt
-- together, Shared/Steps, Shared/Lifecycle and Shared/Settled about the interleavings of the
-- processes, Distribution/Payouts about what a freeze allocates, Distribution/Rows,
-- Distribution/Marking, Distribution/Delivery, Distribution/Completion and Distribution/Crash about
-- the loop over the allocations, Cash/Holds, Cash/Covered and Cash/Verified about the snapshot and
-- the reconciliation, Retry/Phases and Retry/Boundary about a retry, Alerter/Once about two runs of
-- the alerter. A file Tests has runs and examples.
--
-- A transaction is a function from the tables to the tables or an exception; an exception rolls the
-- transaction back, so it carries no tables. The loop of a distribution is several transactions, and
-- what they committed before an exception is kept (`stopped`). A process interleaves with the others
-- between transactions only: they are the steps of the step relations (Store/Exclusive,
-- Settlement/History, Settlement/Reopened, Shared/Steps). The inventory of a settlement is read
-- before its transaction, so it is an argument. settle_redeemed_condition, settle_losing_condition
-- and _set_redemption_state read the receipt or the account before their write transaction opens;
-- here each of them is one transaction.
-- Texts that the code only stores (JSON details, reasons, digests) are arguments. Nothing runs on fuel;
-- every definition is total. A power is taken for a natural exponent, which the guards before it
-- ensure.
--
-- Not modelled: the network (chain, exchange, relayer), the follower of the source wallet, the retry
-- driver, the registration of the strategies, the health reports, the release tools, the tests and
-- the service units. The prepared order of a submission is taken as the caller has normalised it. Of
-- the ledger: the corrections of fills and of payouts, and the settlements of platform credits and of
-- official activity. Of the alerter: the texts of the heartbeat and of the audit, which are arguments.
pub mod Prelude
pub mod Decimal
pub mod Sizing
pub mod Shared
pub mod Store
pub mod Settlement
pub mod Distribution
pub mod Cash
pub mod Retry
pub mod Alerter
