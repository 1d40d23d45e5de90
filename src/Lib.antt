-- ===== src/Lib.antt =====
-- The token-gated rooms of the Superhero API, modelled and verified.
--
-- The program indexes the aeternity chain and keeps, for each bonding-curve token, a room on a Nostr
-- relay (NIP-29) for those who hold enough of the token. This library models the services that decide
-- who is in which room and carry it to the relay, all under src/token-gated-rooms:
--   * services/eligibility.service.ts compares balances with a room's threshold and writes the wanted
--     state of each membership row; it announces what changed.
--   * services/membership-sync.service.ts turns pending rows into publish jobs, by events and by two
--     cursor loops, and moves a row on when the relay has acknowledged its job.
--   * queues/publish-nip29.processor.ts works off the jobs, and emits
--     the acknowledgements.
--   * services/membership-access.service.ts keeps a ledger of effective access: a gain is announced at
--     once, a loss only if it outlasts a grace window.
--   * services/reorg-eviction.service.ts holds evictions back after a chain reorganisation.
--   * services/reconciliation.service.ts compares the relay's member list with the ledger.
--   * nostr/room-admins.ts, nostr/shard.ts, nostr/nip29.ts and services/group-missing-tracker.service.ts
--     are their helpers.
-- Besides the rooms it models the balances that they read (services/balance-indexer.service.ts,
-- services/balance-reconciliation.service.ts and plugins/aex9-transfer-sync.service.ts there), the
-- links of addresses (services/identity.service.ts there), the walk of
-- src/mdw-sync/services/indexer.service.ts back through the chain, with block-validation.service.ts
-- and plugin-batch-processor.service.ts beside it, the home feed of src/feed, the signed challenges of
-- src/notifications (services/device-challenge.service.ts and the messages of
-- notifications.constants.ts), and of src/profile/services/profile-x-posting-reward.service.ts the
-- ledger of rewards for posts on X with its payouts, the streaks of days and the daily slot of a scan.
-- That service's scan of X, its onboarding payout and the payout of bonuses for streaks, which goes
-- the same way as that of a ledger row, are left out. The bucket that limits the rate of publishes
-- (queues/token-bucket.ts) counts in floating point and is left out, and so is what
-- block-sync.service.ts stores when it is asked for a range. The other parts of the repository are not
-- modelled: connections to the relay and to the node, HTTP controllers, queries that only read, schema
-- migrations, and the other subsystems of src.
--
-- Files. Base holds what is shared: Tests and Lists (Boolean tests, lists as tables), Pages (the loop
-- `WHERE key > cursor ORDER BY key LIMIT n`, as `pages`), Keys (a table written by id), Todo (loops
-- over rows that a query found first) and Text. Rooms.Store has the rows, the events and `World`, the
-- database with the queue and the event bus, which every service takes and returns. Rooms.Config has
-- the settings. Rooms.Eligibility, with Recompute below it, is EligibilityService; Rooms.Sync, with
-- Scan below it, is MembershipSyncService; Rooms.Access is MembershipAccessService; Rooms.Eviction is
-- ReorgEvictionService; Rooms.Drift is the comparison of ReconciliationService, without its rotation
-- and its admins; Rooms.Missing is GroupMissingTracker; Rooms.Publish is PublishNip29Processor with
-- publish-policy.ts, without the timer that resumes a paused queue; Rooms.Admins, Rooms.Shard and
-- Rooms.Nip29 are the files of nostr and queues that are named above. A function has the name of the
-- method that it translates, in snake case; the child modules of a component hold its proofs, and
-- Rooms.Tests runs the models on small worlds. Rooms.Balances is BalanceIndexerService; below it,
-- Transfers is Aex9TransferSyncService and Sweep is BalanceReconciliationService. Feed.Cursor is
-- feed-cursor.util.ts and Feed.Latest is the latest feed of feed.controller.ts.
-- Notifications.Challenge is DeviceChallengeService, and Notifications.Message has its messages.
-- Mdw.Indexer is IndexerService, Mdw.Plugins is PluginBatchProcessorService with recordFailure of
-- PluginFailedTransactionService, whose retries are Mdw.Plugins.Retry, and Mdw.Validation is
-- BlockValidationService. Rooms.Identity is IdentityService, with its batch lookup in Batch.
-- Rewards.Payout, Rewards.Streak and Rewards.Slot are parts of ProfileXPostingRewardService: below
-- Payout, Drain is payPendingLedger, Recovery is the ledger's part of reconcileConfirmationPending,
-- Entry is ledgerPerPost, and System has the attempts of several processes as steps. Base.Count counts
-- the items that satisfy a test, and Base.Every has the lemmas on what holds of every item.
--
-- How the code is modelled. Addresses, pubkeys and group ids are texts that the code only compares:
-- each is a number, 0 the empty text, and the order of numbers stands for the database's order of
-- texts. A time is in milliseconds and an argument, `now`. A null column is `none`. created_at and
-- updated_at, which the database sets, are left out. Which row an ACK finds, where several of a sale
-- have the pubkey, is an argument. A table is the list of its rows: a query is its `where` as a
-- Boolean test, `ORDER BY` sorts by insertion, `LIMIT` takes a front part. A service's step takes a
-- world and gives the next one; a handler is one step, which may be given a row that was read before
-- other steps ran. A database error (the try/catch around a step) is not modelled. Balances and
-- thresholds are whole numbers of base units. The pubkeys of addresses (outside Rooms.Identity), the
-- relay's health and answers and normalizePubkey, which decodes bech32 by a library, are parameters.
--
-- Fuel. A cursor loop has one unit for each row of the table and one more: each page but the last
-- takes at least one row where the limit is not zero. The pages of the feed are followed one time more
-- than there are items: each page with a successor serves at least one. The backward walk takes a
-- round for each height and one more, as each round lowers the marker; a range is split on fuel above
-- its end. The drain of the ledger has the number of runs that the source gives it. The retry of
-- failed transactions has one round for each of them: each batch takes at least one.
pub mod Base
pub mod Rooms
pub mod Feed
pub mod Notifications
pub mod Mdw
pub mod Rewards
