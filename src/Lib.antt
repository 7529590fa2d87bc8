-- ===== src/Lib.antt =====
-- A verification library for Sandook, a block storage system that spreads the blocks of virtual disks
-- over many disk servers and keeps reads and writes on different servers.
--
-- The program. A client's virtual disk splits a request into one-sector requests. For a write it asks
-- its data-plane scheduler for two servers, takes server blocks that the controller has allocated,
-- and records them in its block resolver; for a read it resolves the block and asks the scheduler
-- which replica's server to read from. The controller's control plane collects the servers'
-- statistics, decides which servers take reads and which take writes, and publishes modes and weights
-- to the clients. Each client keeps a rate limit for each server, which scales that server's weight.
--
-- The files, with the sources under sandook/ that they model:
--   * Base, Status, Types: helpers, base/error.h, base/types.h, base/constants.h, base/io_desc.h and
--     base/server_stats.h.
--   * Allocator: controller/block_allocator.h (BlockAllocator) and ControllerAgent::AllocateBlocks of
--     controller/controller_agent.cc.
--   * Resolver: virtual_disk/block_resolver.h (BlockResolver); Resolver/Overlap has the calls for different
--     blocks that overlap.
--   * Sharding: VirtualDiskBase::ProcessShardedRequests of virtual_disk/virtual_disk_base.cc.
--   * Isolation: scheduler/control_plane/rw_isolation_base.h (RWIsolationBase).
--   * Selection: GetValidServers and the schedulers RandomRead, WeightedRead, HashWrite, RandomWrite
--     and WeightedWrite of scheduler/data_plane/.
--   * Congestion: scheduler/data_plane/congestion_control.h (CongestionControl).
--   * Routing: ServerStatsManager and Scheduler of scheduler/data_plane/.
--   * Counter: base/counter.h and base/counter.cc (ThreadSafeCounter).
--   * Cache: base/core_local_cache.h (CoreLocalCache), in which virtual disks keep allocated blocks.
--   * Monitor: disk_server/disk_monitor.h (DiskMonitor): reads, writes, modes, flushes and the
--     congestion state.
--   * DiskServer: HandleStorageOp of disk_server/disk_conn_handler.cc, with what it uses of
--     disk_server/storage_server.h and storage_server.cc.
--   * Remote: virtual_disk/virtual_disk_remote.cc and virtual_disk_remote.h: HandleStorageOpReply;
--     ProcessStorageOp, GetBlocks and GetBlocksWithAffinity (Remote/Disk), ProcessReadOp
--     (Remote/ReadOp), ProcessWriteOp (Remote/WriteOp), ProcessRequest (Remote/Requests) and
--     RunGarbageCollector (Remote/Collector).
--   * Rpc: RPCFlow of rpc/rpc.cc and rpc/rpc.h, with ThreadWaker of bindings/sync.h.
--   * DiskModel: disk_model/disk_model.h (DiskModel).
--   * ControlPlane: scheduler/control_plane/server_stats_manager.h (ControlPlane/Stats), base_scheduler.h,
--     no_op.h, rw_isolation_weak.h and rw_isolation_strict.h (ControlPlane/Policies) and scheduler.h.
--   * Controller: controller/controller_agent.h, controller_agent.cc, server_desc.h and volume_desc.h.
--   * Reporting: the rounds in which a disk server reports to the controller: UpdateStats, GetServerStats
--     and CalculateLoad of disk_server/disk_monitor.h, ControllerStatsUpdater of
--     disk_server/storage_server.cc, and HandleUpdateServerStats of
--     controller/controller_conn_handler.cc.
--   * Pulling: the round in which a client fetches statistics: UpdateServerStats and
--     HandleGetServerStatsReply of virtual_disk/virtual_disk_remote.cc, HandleGetServerStats of
--     controller/controller_conn_handler.cc, and AddServerStats of base/msg.h.
--   * Slab: mem/slab.h and mem/slab.cc (FreePtrsList in Slab/FreeList, SlabAllocator).
-- A component's file has its state as a record and its operations as functions that return the new
-- state; the children of a component have its proofs, and its Tests module concrete runs.
--
-- Conventions. An operation that returns std::expected returns a Status, whose `fault` is a failed
-- assertion or an exception that nobody catches. Integers are natural numbers with the wrap-around of
-- their width written out where the source can reach it. Doubles, the random engine's draws, hashes
-- and std::ranges::sample are parameters; what the proofs use of them is a named hypothesis. A mutex
-- makes the call that it guards one step, and a round of the control plane's scheduler is one step too,
-- although the source locks each of its calls by itself. A call to a server is one that is answered.
-- The threads of a sharded request are interleaved in every order. Loops are over lists, or count a number of rounds that their bound fixes. Each round of
-- the slab allocator's loops moves one object, and it gets as many as the cache has to gain or
-- lose. The loop of `reserve` gets one round for each item that is asked for, and `get` two rounds.
--
-- A request of the remote virtual disk gets fuel: process_request may be started anew n times, and each
-- of its reads gets n rounds, one for an attempt at a server and one for the pause after a pass over the
-- replicas. The source bounds neither, since a request whose servers refuse forever never ends; a pass
-- over the replicas takes at most two rounds. The other threads of the disk run while a read sleeps,
-- the two threads of a write take their steps in any order, and a retry is one step for the other
-- thread. A server's part of a garbage collection gets one round for each block.
--
-- Not modelled: the registration of the remote virtual disk and the waiting of its periodic threads, the adaptive
-- isolation and the profile-guided weights of the control plane, the reading of model files, the
-- server side of RPC and its connections; telemetry and logs, which only record; bindings of the
-- runtime library, the block device frontend, configuration, samples, tests, scripts and the load
-- generator; copies of other projects.
pub mod Base
pub mod Status
pub mod Types
pub mod Allocator
pub mod Resolver
pub mod Sharding
pub mod Isolation
pub mod Selection
pub mod Congestion
pub mod Counter
pub mod Monitor
pub mod DiskModel
pub mod DiskServer
pub mod Pulling
pub mod Remote
pub mod Routing
pub mod Slab
pub mod Cache
pub mod Reporting
pub mod Rpc
pub mod ControlPlane
pub mod Controller
