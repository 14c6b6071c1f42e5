-- ===== src/Lib.antt =====
-- Cloudbreak: the core of an account index for a Solana RPC.
--
-- Cloudbreak streams blocks into a database and answers account requests from it. This library models
-- the parts that keep state of their own between blocks, and proves what each of them promises.
--
-- The parts and their files (all paths of the code are below crates/):
-- - Processed: the blocks above the confirmed slot, served before they are in the database
--   (core/src/modules/processed). Ingest is ingest.rs, Store is store.rs, Read is read.rs and Writer is
--   writer.rs with the handle of mod.rs. Below Store: Chain has the walk over ancestors, Latest what is
--   served, Conflict and Prune what is removed, Events all operations together. Below Writer: Runs and
--   Quarantine have sequences of events.
-- - Cleanup: the queue of keys whose older rows are to be deleted (index/src/modules/cleanup). Pending
--   is pending.rs with the two ends of a drain in drain.rs, between which keys may come in, Keys is
--   keys_for_slot. Below Pending: Owed says which deletions are owed, Progress the rounds of drains.
-- - Supply: the running total of lamports (core/src/modules/supply). Cache is cache.rs and Tracker is
--   tracker.rs. Below Cache: Pins, Total, Sweep and Repeated; below Tracker: Delta, which compares what a
--   block adds with a ledger of all balances, and Stale.
-- - NonCirculating: the stake accounts and which are out of circulation (core/src/modules/non_circulating,
--   mod.rs and tracker.rs). The root has the membership, Tracker the whole tracker. Below it, Indexed and
--   Changes relate the sets and the total to the entries, Settled, Leaving and Expiries follow the clock,
--   Folds is a block, Loading and Bootstrap the time before the flip, Life the order of what reaches a
--   tracker and Runs what holds of it. Owned, Effects and Delta are the change that a block reports to the
--   supply tracker, and Ledger is a block on both trackers (index/src/modules/save_block.rs).
-- - Largest: the largest holders of each mint (core/src/modules/largest_accounts/tracker.rs). Top is one
--   mint's top, State the whole state, Seed the snapshot's candidates, Block the blocks and the end of
--   the bootstrap. Below Top: Sound, Update and Runs.
-- - Mint: what is known of each token mint (core/src/modules/mint_cache). Store is store.rs, Indexer is
--   indexer.rs and Api is api.rs. Below Store: View reads the three maps as one state for each key, Runs
--   has sequences of writes. Below Indexer: Followed and Lossless follow the changes of one mint, Covered
--   and Runs what is sent of them to the table. Below Api: Buffer and Chain have the blocks that wait and
--   the chain of a confirmed slot, Confirmed a notification, Reads the lookups.
-- - Filter: the comparisons of account data in a request (core/src/modules/rpc_filter_type.rs). Below it
--   Read says what is read of the data. An operation has three results: a panic, the error and a value.
-- - Finalize: the confirmed blocks that wait for their finalization (index/src/modules/finalize_slot.rs).
--   Below it, Ancestors has the walk over parents and Runs sequences of operations.
-- - Healing: the slots missing in the stream and their repair (index/src/modules/self_healing.rs). Below
--   it, Runs follows each slot, Resume says when finalization is paused, and Races has blocks that come
--   between the steps of the repair task.
-- - Owners: the owner of each account (core/src/modules/account_owner_map.rs). Below it, Drained compares
--   the pairs that route the cleanup with those that are saved.
-- - OrdMap, PairSet and Prelude: ordered maps, ordered sets of pairs and the shared helpers. A module
--   Tests has runs of its part.
--
-- How they interact: a block that the indexer receives goes to the processed writer, which publishes
-- what requests are served; once it is confirmed its accounts go to the supply tracker, to the tops and,
-- as keys, to the cleanup queue. The mints of a block go into the indexer's table and, over the feed, into
-- the cache of the requests, which reads the table again after a gap. Healing holds the finalizer and the
-- supply tracker, which a gap pauses and marks. Any other part sees only the block, so each is modelled
-- alone with the block as an argument. The non-circulating tracker takes a block first: the change of the
-- accounts that it owns and their names are an argument of the supply tracker, which skips them.
--
-- Conventions. A timestamp of the non-circulating tracker, an `i64`, is its value plus 2^63. A public
-- key is the big-endian number of its bytes, whose order is that of the bytes. A BTreeMap or a HashMap
-- is the list of its entries in the order of the keys; the code breaks ties by the key where the order
-- of a HashMap could show. A mutex makes each operation one step, so a concurrent run is a sequence of
-- steps. Unsigned arithmetic wraps as in a release build, and a panic is `none`. Loops are recursion on
-- lists. The walks over ancestors run on fuel, one more than the slot they start at, which is enough
-- when each parent has a lower slot; the loops that evict blocks and the walk of Finalize have as much
-- fuel as there are blocks, of which each round removes one.
--
-- Not modelled: HTTP, gRPC and SQL, whose results are arguments; logs, gauges and timers; disabled
-- trackers, which do nothing; and the parts of the program that hold no state of their own, such as the
-- handlers of requests.
mod Prelude
pub mod OrdMap
pub mod PairSet
pub mod Processed
pub mod Cleanup
pub mod Supply
pub mod Largest
pub mod Mint
pub mod Filter
pub mod Finalize
pub mod Healing
pub mod Owners
pub mod NonCirculating
