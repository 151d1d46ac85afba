-- ===== src/Lib.antt =====
-- Sana is a node of a decentralised storage and communication network. This library models core
-- logic of the node, file by file, and proves properties of the models.
--
-- Accounting (pkg/accounting/accounting.go) keeps for each peer a balance, a surplus and an originated
-- balance in the state store, and reserved amounts in memory. State has the records and the store
-- accesses, any of which may fail as a list of faults says; Blocking has blocklistUntil and the debts;
-- Spending has Reserve, Release, Credit and settle; Debiting has PrepareDebit, Apply, Cleanup, Connect
-- and Disconnect; Notices has the Notify methods; Peers has the map of the peers. The refreshment
-- function is a parameter, and calls of the pay function and of the p2p service are recorded as
-- events. Balances and CompensatedBalances, which iterate over the store, are not modelled.
--
-- Pseudosettle (pkg/settlement/pseudosettle/pseudosettle.go) is the refreshment function that
-- Accounting calls, and the handler at the other end, for one peer. What the transport, the clock, the
-- store and the accounting answer are arguments of a run. The map of the peers and the totals are not
-- modelled.
--
-- Intervals (pkg/intervalstore/intervals.go) keeps which values were synchronised, for the puller: Add
-- with its loop and its two indices, Merge, Next and Last. The text form is not modelled.
--
-- PeerSlice (pkg/topology/pslice/pslice.go, pkg/swarm/proximity.go, pkg/swarm/distance.go) keeps
-- addresses by proximity, in one list with an index for each bin: State has the operations, with
-- uint8 and uint wrap-around and panics as none, and Bins the bins as a list of lists that the list
-- represents.
--
-- Reserve (pkg/postage/batchstore/reserve.go, pkg/postage/batchstore/store.go) has the limits, tiers,
-- sizes and radii of the batches that a node keeps, and the encoding of the unreserve queue. The loop
-- of exp2 runs by recursion on the rounds that are left.
--
-- StampIssuer (pkg/postage/stampissuer.go) counts the stamps of a batch by buckets and gives each its
-- index. Signatures and the msgpack form are not modelled.
--
-- Breaker (pkg/p2p/libp2p/internal/breaker/breaker.go) refuses calls after failures in a row. Each call
-- under its lock is a step; Reach has the states of all interleavings.
--
-- Blocklist (pkg/p2p/libp2p/internal/blocklist/blocklist.go) is where the blocks that Accounting asks
-- for end up: the entry of one peer, in a store whose accesses may fail. Peers is not modelled.
--
-- Localstore (pkg/localstore/mode_put.go, pkg/localstore/mode_set.go, pkg/localstore/mode_get.go,
-- pkg/localstore/gc.go) keeps chunks, with an index of those that are garbage and a count of them.
-- State has the indexes as maps and the batch of writes that a call commits as a whole, Keys the ordered
-- index of garbage, Put, Set and Get the operations, Collect the two steps of collectGarbage, and Worker
-- its repetition, on fuel that the number of garbage chunks bounds. Data, signatures, failures of the
-- disk, subscriptions and the eviction of the reserve are not modelled.
--
-- Mantaray (pkg/manifest/mantaray/node.go) is the trie of manifests: Node has the reads and Changes Add,
-- on fuel that the length of the path bounds, and Remove. Loading and saving of nodes are not modelled.
--
-- Kademlia (pkg/topology/kademlia/kademlia.go, pkg/topology/kademlia/internal/waitnext/waitnext.go) is a
-- client of PeerSlice: State has the depth and the saturation of bins, Closest the changes of the peers and
-- ClosestPeer. The loops that make connections are not modelled.
--
-- Lightnode (pkg/topology/lightnode/container.go) is a client of PeerSlice too: State has the container of
-- the light nodes and RandomPeer, with the numbers that are drawn as an argument, Tracking the container
-- after a sequence of reports, and Picking the peer that is answered.
--
-- Batchstore (pkg/postage/batchstore/store.go, pkg/postage/batchstore/reserve.go) is the store of batches, a
-- client of Reserve: State has Put and evictOuter, Chain evictExpired, PutChainState, Unreserve and Reset.
-- evictOuter takes fuel, one for each radius that it tries. A batch id is its 32
-- bytes as a number, the index of values a list in the order of the keys, and a write to the disk succeeds.
--
-- Syncer (pkg/syncer/syncer.go) pages through the blocks for an updater, and Batchservice
-- (pkg/postage/batchservice/batchservice.go) is the updater that changes the store of batches by the events
-- of the contract. The hash, the logs and the eviction in the localstore are arguments. Block numbers of the
-- syncer are below 2^64 - 5000, so that its additions do not wrap.
--
-- Go's `*big.Int` is ℤ, a machine integer is a natural number with its wrap-around written out (`%`),
-- and `int64` arithmetic on differences of times and on durations is `wrap64`. A method that changes
-- its receiver is a function to the new state, one that can fail returns a result, and locks are left
-- out: an operation runs whole, as it does under its lock. Metrics, logging, tracing and the transport
-- are left out. Common holds what the parts share: tests, lists, integers and words.
pub mod Common
pub mod Accounting
pub mod Pseudosettle
pub mod Intervals
pub mod PeerSlice
pub mod Reserve
pub mod StampIssuer
pub mod Breaker
pub mod Blocklist
pub mod Localstore
pub mod Mantaray
pub mod Kademlia
pub mod Lightnode
pub mod Batchstore
pub mod Syncer
pub mod Batchservice
