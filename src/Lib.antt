-- ===== src/Lib.antt =====
-- The relayer of Parly, as far as its own decisions go: what a relayer is paid, how the public
-- status of a payout moves, which worker may finalize a settlement job, when a signed transaction
-- is handed to the network, and what the local journal in the database promises after a restart.
--
-- Reward.antt models apps/relayer/src/phase3/relay-reward.ts and relay-reward-v4.ts:
-- costCoveringRelayReward, requireCostCoveredRelayReward, quoteSourceRewardV4,
-- quoteCrossChainRewardsV4.
--
-- Lifecycle.antt and Lifecycle/Versions.antt model the payout lifecycle of
-- packages/shared-types/src/index.ts: PHASE3_PAYOUT_TRANSITIONS, applyPhase3PayoutLifecycleEvent,
-- and for the V3, V4 and V5 adapters the mapping of an event to public events and its projection
-- for a data source. Lifecycle/Labels.antt has the labels of the statuses. The indexer and the
-- workers feed these events; the record of a payout is a value, and the fields that no event
-- touches are one value of any type.
--
-- Finalizer.antt models the jobs of the settlement finalizer in apps/relayer/src/phase3/index.ts:
-- canFinalizeJob, the in-memory job store, the listing of finalizable jobs, the idempotency key,
-- and the finalizer's fee. Finalizer/Calls.antt makes sequences of the calls of the store.
--
-- Broadcast.antt models runPayoutV7Transaction of apps/relayer/src/phase3/payout-v7-worker.ts over
-- the table of payout-v7-worker-store.ts. Runs are interleaved at each `await` by a list of events,
-- in which runs are launched, told a reply, or crash. The hash keccak256 is a parameter, for which
-- nothing is assumed; the replies of the network are part of the events. Broadcast/Execution.antt
-- models runPayoutV7Execution of the same file over its callbacks, which answer by any function of the
-- calls made before.
--
-- Journal.antt models the checkpoints and submissions of apps/relayer/src/pending-store.ts for the
-- payout adapters V4, V5 and V6. A table is the list of its rows; a statement that violates a
-- constraint is an error; CURRENT_TIMESTAMP is an argument.
--
-- Locks.antt models the table relay_pool_v4_executions of the same file, by which a call reserves
-- the nullifiers of a pool: retainPoolV4RelayExecution, retirePayoutV7SourceLock and the first
-- statement of recordPoolV4RelaySubmission. The verifier of a retirement is an argument.
--
-- Inbox.antt models the table relay_private_inbox of the same file, from which a relayer claims its
-- bundles, and recordPoolV4RelaySubmission over both tables. The key of a bundle is a parameter.
--
-- Pending.antt models the tables relay_pending_executions and relay_pending_execution_archive of
-- the same file: persistPendingExecution, listPendingExecutions, archiveResolvedPendingExecution.
-- The digest of a bundle is a parameter.
--
-- Payloads.antt, Payloads/Enqueue.antt, Payloads/Acquire.antt and Payloads/Report.antt model the queue
-- of sealed settlement payloads in apps/relayer/src/phase3/execution-payload-store.ts: the writer, and
-- the data source from which a worker leases a job (acquireRelayerOwnedOneTimeExecutionJob), records
-- its transactions and ends the lease. Payloads/Calls.antt makes sequences of these calls, and
-- Payloads/Moves.antt states the queue as a state machine of its rows. Encryption, the digest, JSON
-- and the constraints of the tables are parameters.
--
-- Payouts.antt models the queue of payouts of the same file, createPayoutV3ExecutionPayloadWriter and
-- createPayoutV3ExecutionPayloadDataSource, and Payouts/Worker.antt runPayoutV3ExecutionOnce of
-- apps/relayer/src/phase3/index.ts over it: runs are interleaved at each `await`, and crash. The
-- eligibility reader, the network and viem are outside.
--
-- Preparations.antt and Preparations/Promote.antt model createPayoutV3PreparationPayloadDataSource of
-- the same file: the listing of prepared payouts and the promotion of one into the queue of payouts,
-- with the rollback of a transaction that throws. What a preparation is read with is a parameter.
--
-- Tip1022.antt models packages/shared-types/src/phase3/tip1022.ts, the virtual addresses of Tempo.
--
-- Prelude.antt passes on what the files share: texts as lists of UTF-16 units with the regular
-- expressions of the source for hexadecimal identities, results of fallible code, lists and
-- integers. A JavaScript `bigint` is an integer, and a natural number where the code has tested it
-- to be one; times, attempts and counters are natural numbers. Every loop of the source is over a
-- list, so no definition needs fuel.
--
-- Not modelled: the bot and the indexer around these stores, HTTP and RPC clients, the readers of
-- environment variables, cryptography, contract interfaces, the advisory lock of the reconciler in
-- pending-store.ts, the workers of the payout adapters V4 to V6, the receiving runtime, the fee
-- schedule of relay-execution-fee-schedule-v2.ts, and the settlement worker that drives the queue of
-- Payloads.antt (runRelayerOwnedOneTimeExecutionOnce).
pub mod Prelude
pub mod Reward
pub mod Lifecycle
pub mod Finalizer
pub mod Broadcast
pub mod Journal
pub mod Locks
pub mod Inbox
pub mod Pending
pub mod Payloads
pub mod Payouts
pub mod Preparations
pub mod Tip1022
