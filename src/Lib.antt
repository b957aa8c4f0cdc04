-- ===== src/Lib.antt =====
-- Verification of vermouth, an HTTP reverse proxy with a management server, whose configuration a
-- raft cluster can share.
--
-- How the program works. Each HttpReverseProxy (vermouth/http_proxy.go) listens at a port. A request
-- passes the black list (acl/radix_tree.go), the longest registered prefix of its path
-- (prefix/hash_prefixer.go) whose balancer (balancer) names a host, and the rate limiter of its path
-- (rate_limiter), and goes on to this host. The proxies stand in the table of a StateContext
-- (vermouth/context.go). Commands (vermouth/vermouth_state_manager.go), given by the management
-- server (vermouth/http_server.go) or by service discovery (discovery), change the table: at once in
-- stand mode; through an entry of the raft log (vermouth/log_entry.go), which Apply decodes and
-- hands to a handler (vermouth/log_entry_handler.go), in cluster mode, before the command returns.
--
-- Which file models which part:
--   Prelude      Go calls that return, panic or wait for ever; mutexes; Go maps; signed integers;
--                strings as lists of bytes; lemmas on lists
--   Golib        what the program calls of Go's library: strings, strconv, sort, crc32
--   Net          utils/net.go and utils/tag.go (RemoteIp, InetToi, ValidIPAddress, ParseTag)
--   Balancer     balancer/balancer.go; RoundRobin for round_robin.go, ConsistentHash for
--                consist-hash.go
--   Prefix       prefix/prefixer.go and hash_prefixer.go; Scan and Mapping hold the proofs on
--                MappingPath
--   Rate         rate_limiter
--   Acl          acl/radix_tree.go, nodes in a heap with the free list; Delete for Delete; Trails,
--                Masks, Represents, Growth, Walk, Leading, Longest and Coverage hold the proofs that
--                a tree stands for a list of networks
--   Proxy        vermouth/http_proxy.go and the records of config/config.go that it reads; Limiters
--                for SetRateLimit, Networks for the black list, Serve for ServeHTTP, Restore for
--                Restore and BuildHttpReverseProxyFromConfig, Snapshot for what a JSON text holds
--                of a proxy; Forbidden takes AddBlackList and ServeHTTP together, and Rebuild,
--                Remade, Restorable and Restored hold the proofs on Restore
--   State        vermouth/context.go, log_entry.go, log_entry_structs.go, log_entry_handler.go,
--                raft_info.go and vermouth_state_manager.go: Manager for the commands, Stand for
--                what they call in stand mode, Context for Apply and its handlers; Snapshot for Persist, Restore and
--                restoreFromSnap of vermouth/start.go, Restart and Crash for the proofs on them
--   Server       vermouth/http_server.go
--   Lifecycle    vermouth/vermouth.go and start.go: a node of a cluster over the notices of raft;
--                Leadership for its permissions, Refusal for its management server
--   Rpc          vermouth/rpc_server.go; Client for client/client.go over the server
--   Zookeeper    discovery/zookeeper_client.go, the rounds of watchServices; Nodes for those of
--                watchNode, Watchers and Follow for the proofs
--   Config       the check of config/config.go by reflection, PathIsValid of utils/file.go
--   Logger       logger/logger.go and console_logger.go; Steps and Async for the channel and its
--                goroutine, a step relation; Format for messageFormat; File for the files of
--                file_logger.go that are cut by lines
--   Monitor      static/403/script.js; Identity for sayswho, with its regular expressions as matchers
--   Fixtures     values for the parameters, for the examples
-- A method of a Go type is the function of the same name in snake case on the record of the type's
-- fields. A method that changes its receiver returns the changed one. An operation that can panic
-- or wait for a lock has its result in `Go`.
--
-- Bounds and fuel. Loops go by recursion on the list or the number that they run over, but for the
-- radix tree and the check of the configuration, whose fuel is the depth of the records, two. The
-- loops over the bits of a mask have fuel of 33 rounds: the bit halves in every round and is below
-- 2^32. The search has fuel for every node of the heap and 32 bits more, and the pruning of delete
-- has 33 rounds: a tree whose pointers form a cycle has no end in the code either. The counter of
-- the round robin balancer wraps at 2^64, the options of the log are 16 bits wide, and the shifts of
-- InetToi are those of uint32. The native numbers stand for int where the values stay small.
--
-- Parameters. The token bucket of golang.org/x/time/rate (Rate.RateLib), the gob codec
-- (State.Bodies, with the round trip that the program relies on), whether a port can be listened at,
-- raft's answer for an entry of the log and for a voter, the file system of PathIsValid, what zookeeper lists, JSON texts of nodes, the
-- lookup of host names, the JSON library that takes a snapshot and reads it (State.Snapshot), and
-- whether the rpc server can listen.
--
-- Not modelled. The HTTP transport, the start of the listeners, of raft and of the timer of the
-- snapshots, the joining of a cluster, the output of the logger to consoles and files and its files
-- that are cut by date or size, the gRPC and HTTP calls of the client, ReadConfig (by the library
-- viper), the zookeeper client, and generated or third party code (pb, static/static). What a
-- handler starts in a goroutine, the deletion of a closed proxy too, is done at once. An entry for
-- which raft lost its answer may be applied later, which is no step of the commands. The locks
-- of the table, the prefixers, the round robin balancers, the limiters, the logger and the tree of
-- networks are released on every path and never taken twice, and are left out; those of the proxies
-- and of the rings of consistent hashes are kept.
pub mod Prelude
pub mod Golib
pub mod Net
pub mod Balancer
pub mod Prefix
pub mod Rate
pub mod Acl
pub mod Proxy
pub mod State
pub mod Server
pub mod Lifecycle
pub mod Config
pub mod Rpc
pub mod Logger
pub mod Zookeeper
pub mod Monitor
pub mod Fixtures
