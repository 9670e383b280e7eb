-- ===== src/Lib.antt =====
-- doki, a distributed key-value store: the leaf nodes, and the coordinator.
--
-- A node holds replicas of shards. A client's write goes to the shard's leader, which asks the live
-- followers to take the entry, and applies it once enough of them have; a follower that misses an
-- entry recovers from the leader; the replicas of a shard elect their leader by votes; and each
-- replica keeps a write-ahead log and snapshot files to come back after a restart. The coordinator
-- keeps the shard map, watches which nodes are alive, gives shards a new leader, and moves and splits
-- shards; a node hosts what the map that it fetches lists it for.
--
--   * Storage: internal/storage/memory/memory.go, the pairs of a shard.
--   * ReplicationLog: internal/replicationlog/replicationlog.go, the recent entries of a shard, from
--     which a leader serves recoveries (`Since`).
--   * Wal: internal/wal/wal.go, the lines of a write-ahead log.
--   * Snapshot: internal/snapshot/snapshot.go, a snapshot file.
--   * Node/DiskState: node/diskstate.go, the log and the snapshots of a replica: `load`,
--     `takeSnapshot`, `rotateSnapshots`, `appendWAL`. Rotate, Load, Take and OnDisk say what the files
--     stand for.
--   * Node/StateMachine: node/statemachine.go, the one entry point for changes of a shard (`Apply`,
--     `ApplySnapshot`). Durability ties it to the disk, Losses shows where the tie breaks.
--   * Node/Replica: node/replica.go, node/recovery_state.go, node/write_guard.go.
--   * Node/Quorum: node/quorum.go, which peers a write needs.
--   * Node/Rpc: node/grpc.go, the handlers of a replica: `Replicate`, `ForceRecover`, `RequestVote`,
--     `LeaderHeartbeat`, `Get`.
--   * Node/Election: node/election.go, the timer, one election, the leader's heartbeats. Votes, Wins and
--     Safety lead to one leader for each term.
--   * Node/Write: `leaderWrite` of node/server.go, `fanOutReplicate` of node/replication.go and the
--     write RPCs.
--   * Node/Recovery: `Recover` of node/grpc.go and node/recovery.go.
--   * Node/Server: node/server.go, how a node sets up and drops replicas (`initShardLocked`; Refetch has
--     `refetchShardMap`), and the shard map as node/grpc_client.go reads it. Restart, Wanted, Beside,
--     Hosting, Promotion, Protocol and Splits hold its theorems. A starting node sets up its shards by
--     the map that cmd/node/main.go fetches as JSON, `ShardMapResponse`; a running one gets it by gRPC.
--   * ShardMap: internal/shardmap/shardmap.go, the coordinator's map of the shards.
--   * Coordinator/Membership, Coordinator/Leader: coordinator/membership.go, coordinator/leader.go.
--   * Coordinator/Migration: coordinator/migration.go, over the leader manager.
--   * Coordinator/Server: coordinator/server.go and coordinator/grpc.go, over the migration manager;
--     Reach has every order of its calls and ticks.
--   * Config: internal/config/config.go.
--   * Sql: internal/sql. Ast, Catalog, Analyzer, Planner and Executor are the files of these names;
--     Resolved, Steps and RoundTrip prove that what is inserted can be selected. Lexer and
--     Parser are lexer.go and parser.go with the tokens of token.go; `Parse` is Lexer.parse. The
--     modules below Parser and Lexer/Total prove their fuel enough.
--   * Prelude: shared names, Boolean tests on numbers, lists measured by numbers.
--   * Node/Examples, ReplicationLog/Examples, ShardMap/Examples, Coordinator/Examples,
--     Config/Examples, Sql/Examples, Sql/Lexer/Examples: small concrete states.
--
-- A handler that holds the replica's lock throughout is one function from the replica to the replica
-- and its answer. Where the source releases the lock, the parts before and after are two functions
-- (`plan_write` and `finish_write`, `begin_election` and `conclude`, `recover` and
-- `do_incremental_recovery`), and `Moves` of Node/Election/Votes lets other handlers run in between.
-- `uint64` is a number with the wrap-around written out (`u64`); where a theorem needs that a
-- version does not wrap, it says so. Times are numbers of nanoseconds; the clock, the file system,
-- the JSON encoder and the network answer with arguments of the definitions (`Io`, `AppendOutcome`,
-- `send`, `Delivery`, `Env`, `KvOps`, `Json`). `fits` says which entries the scanner of the log's
-- reader can take in. The loops are over lists or over a count of files, save those of the lexer
-- and the parser of SQL, which go by fuel: one more than there are bytes or tokens, as each round
-- takes at least one.
--
-- Keys and values are texts: that `encoding/json` replaces bytes that are not UTF-8 in the files of a
-- shard is left out. `leader_write` is a write during which no other handler runs.
--
-- Not modelled: metrics, log lines and status reports; the texts of the errors of SQL; the start of
-- listeners and goroutines; the HTTP handlers of node/server.go that are never registered.
mod Prelude
pub mod Storage
pub mod ReplicationLog
pub mod Wal
pub mod Snapshot
pub mod Node
pub mod ShardMap
pub mod Coordinator
pub mod Config
pub mod Sql
