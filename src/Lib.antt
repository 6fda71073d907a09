-- ===== src/Lib.antt =====
-- inference_sim: a model of the discrete-event simulator of LLM serving in this repository.
--
-- The program simulates serving instances. Requests arrive, wait in a queue, are batched, take blocks
-- of a KV cache, and give them back when they finish or are preempted. A router in front of the
-- instances remembers which blocks each has seen, and a gateway queue holds admitted requests until
-- there is room for them. A placement manager puts the instances on the GPUs of nodes that come up,
-- drain and terminate. Modelled is the state that these decisions rest on: the nodes, the gateway
-- queue, the wait queue, the block cache and the resident adapters of an instance, the CPU tier behind
-- the cache, the router's prefix index, the hashing that lets requests share blocks, and the intrusive
-- list that keeps free blocks and recent entries in order.
--
-- Files, and the code each is about:
--   Request       sim/request.go: the fields and accessors of Request that the other parts read
--   Hash          sim/internal/hash/hash.go: HashBlock and ComputeBlockHashes
--   Dll           the doubly linked list that the components write out by hand, over a table of links
--   Kv            sim/kv/cache.go: KVCacheState. Kv.State has the records, Kv.FreeList the free list and
--                 NewKVCacheState, Kv.Lookup GetCachedBlocks and SnapshotCachedBlocksFn, Kv.Release
--                 commitCachedBlocks and ReleaseKVBlocks, Kv.Allocate AllocateKVBlocks. The other files
--                 of the folder hold the invariant and the proofs, and Kv.Inv is where to start. The
--                 closure of SnapshotCachedBlocksFn is the record of the variables that it captures
--   Nodes         what the map-and-list caches share: a map from keys to nodes beside a Dll
--   PrefixIndex   sim/prefix_cache_index.go: PrefixCacheIndex and lruBlockCache, over Nodes;
--                 PrefixIndex.Session runs calls from the constructor on
--   ResidentSet   sim/lora/resident_set.go: residentSet, over Nodes; ResidentSet.Ordered is the
--                 association list that it refines, and ResidentSet.Session runs calls from the
--                 constructor on
--   CpuTier       sim/kv/offload_cputier.go: offloadCPUTier, over Nodes; a BlockKey is its text.
--                 CpuTier.Inv states the invariant
--   KvKey         sim/internal/kvkey/kvkey.go: DeriveChunkKeys and Interner
--   SloPriority   sim/slo_priority.go: SLOPriorityMap
--   Gateway       sim/cluster/gateway_queue.go: GatewayQueue. Gateway.Flows has the flows and bands,
--                 Gateway.Policy the fairness policies, Gateway.State the queue with its setters and
--                 findOrCreateBand, Gateway.Enqueue Enqueue and the choice of its victim, Gateway.Dispatch
--                 Dequeue, DequeueGated and RemoveByRequestID; Gateway.Contents states the invariant
--   Placement     sim/cluster/infra_node.go and sim/cluster/infra_placement.go: nodes, their GPUs and
--                 their life cycle. Placement.Manager has PlaceInstance, Placement.Lifecycle
--                 ReleaseInstance, DrainNode, MarkNodeTerminated, MarkNodeReady and the counts;
--                 Placement.Armed states the invariant and Placement.Reaching the steps
--   Queue         sim/queue.go: WaitQueue, a request being its address
--   Prelude       Boolean tests, lists, integers, results and maps over the native numbers
--   Tests         runs on concrete data
--
-- Correspondence. A pointer to a node or a block is its address, a number, and nil is `none`; a
-- band of the gateway queue is known by its index, and a flow by its tenant. A Go map is an
-- association list without repeated keys where the code iterates or counts it, and a function to
-- Option where it only looks up. A counter that the code may take below zero (RefCount,
-- FreeBlockCnt) is a signed integer, and the pin count of a resident adapter a uint of 64 bits that
-- wraps. A panic, an index out of range, a division by zero and a nil dereference are values
-- of Prelude.Fault, so that a theorem that a call returns `ok` says that none of them happens. Token
-- identifiers and tick counts are natural numbers: the code rejects negative dimensions, and none of
-- the modelled operations subtracts below zero except where the model writes the test out.
--
-- Fuel. The outer loop of AllocateKVBlocks takes one unit of fuel a round, and gets one more than
-- the tokens, since a round consumes at least one. The walk of verifyBlockConservation gets as many
-- units as there are blocks, and the scans of the resident set as many as it has entries.
-- Running out is a fault of its own. sort.Search gets as many units as there are bands, and each round
-- shortens its range by one at least.
--
-- Parameters. SHA256 with its hexadecimal printer and the decimal printer of strconv are the record
-- Hash.Sha: code of other packages, of which the theorems assume nothing.
-- float64, in the ceilings of the gateway queue, is the record Gateway.State.Floats: nothing is assumed
-- of its operations.
--
-- The callback that a drain stores is a value of a type parameter, and an operation that calls
-- callbacks returns those it called; what they do is not assumed. The two indexes of the nodes are read
-- off one list, in the order of creation.
--
-- Not modelled: logging, the constructor of the placement manager and its random delays, the list of
-- instances that wait for a node, the accessors of the KVStore interface, the chain of tiers above the CPU
-- tier, the event loop, batching, routing and the rest of the cluster; and code with floating-point
-- formulas, random sampling, command lines and file formats, which has little discrete state.
pub mod Prelude
pub mod Dll
pub mod Request
pub mod Gateway
pub mod Hash
pub mod Nodes
pub mod Kv
pub mod PrefixIndex
pub mod ResidentSet
pub mod CpuTier
pub mod KvKey
pub mod SloPriority
pub mod Placement
pub mod Queue
pub mod Tests
