-- ===== src/Lib.antt =====
-- storeMonitor watches store servers and exchanges those that are down. Two processes share its
-- code. `dmonitor` asks a meta server which servers to monitor, queries each through its engine and
-- writes the state of those that are up to the store servers; `analyzer` reads these states back in
-- rounds, counts in how many answers a server is missing, and puts it on the list of down servers,
-- for which an action runs a script that exchanges it for its backup.
--
-- The files, each beside the code that it models:
-- - Connection (connection.c, connection.h, engine.h): Data has the records, with servers named by
--   their address on an explicit heap; Queue the four operations on the linked queues
--   (`addServerToServerQueue` is `add_server_to_server_queue`, and so on for every name); Pool and
--   Create the rest of connection.c, with the repair timer in Create/Repair. Queue/Links says what a
--   queue on the heap stands for, Queue/Append, Queue/Remove and Queue/Move what the operations do;
--   Create/Ends and Create/Requeue are about the repair timer, Callbacks about the callbacks.
-- - Meta (meta.c): the search for a connected meta server, which the searches for a store server in
--   gather.c and monitor.c repeat, the timer and the callback. Meta/Fetch is about the search.
-- - Store (store.c): the commands to a store server.
-- - Action (action.c, action.h): Data has the records; DownList the list of down servers; Info
--   `updateDownServerInfo`; Exchange the thread and the reply that prepares it; Exchanged the
--   transaction that tells the meta server, and the dispatch; Check the timer. Their Laws are the
--   theorems, and Threads those on the exchange thread beside the other operations.
-- - Gather (gather.c, gather.h, analyzer.h): Meta keeps the list of target servers, State the rounds.
--   Meta/Listing and Meta/Clear are about the rebuilt list, Meta/Tracked and Meta/Updates about the
--   names that come in, Meta/Cycle about both together, with Meta/Members for what tables and list
--   have in common; State/Counts and State/Replies are about what a reply counts.
-- - Monitor (monitor.c, monitor.h, dmonitor.h): the monitored servers. Monitor/Named is about those
--   that are named, Monitor/Clear about those that are no longer, Monitor/Report about the report
--   to a store server, with Monitor/Alike on connection states.
-- - Engine: Packet (engine/memcached.c) is the machine that reads the answer to `STATS`
--   (`memcachedReadStatsResponse` is `read_stats_response`), Stats reads its text
--   (`logMonitorInfo`); Raw (engine/rawAsyncClient.c, engine/rawAsyncClient.h) is a raw
--   connection, Memcached and Memcached/Query the functions of the memcached engine over contexts,
--   servers and properties; Info and Redis (engine/redis.c) are the reply to `INFO` and the redis
--   engine. Packet/Wire is the protocol; Packet/Bytes, Filling, Steps, Parts, Stops and Response
--   go from one `read` to the whole answer, Stats/Recorded from its statistics to the fields that
--   they set, and Stats/RoundTrip from the one to the other. Memcached/Stale is about a connect that
--   is taken for failed.
-- - Config (config.h, `initConfig`): Config/Load is `loadConfig`, Config/Load/Servers and
--   Config/Load/Queued are about the servers that it declares.
-- - Processes (analyzer.c, dmonitor.c): the start of both processes and their timers.
--   Processes/Started is what they have when they come to the event loop.
-- - Log (log.c): Log/Ring is a ring buffer of the log.
-- - Hiredis: replies and commands. Common: shared names; Common/Hash is the interface to uthash,
--   Common/Int has signed integers, Common/Memory runs of bytes, Common/Text texts and numbers.
-- - Examples: small concrete states, on which the theorems are applied.
--
-- Conventions. A result `none` is a fault: a read or write through NULL or a freed address, or
-- outside an array. Addresses are numbers, NULL is 0. The return value 0 is `true` and -1 is `false`.
-- In monitor.c a store queue behind the end of `storeServerQueue` is no fault but an empty queue: it
-- is read when no store server is configured, since all monitored servers have the number 0.
-- A freed address is never handed out again, so that a use after free is a fault. Callbacks of
-- hiredis are functions of the reply, run by the environment at any time after the command was sent.
-- Where a function takes fuel, `none` also means that it ran out.
--
-- Fuel. The loops that take servers from a queue until it is empty run on fuel. For the search for a
-- connected server more fuel than the queue has servers is enough, and for the repair timer one
-- round more than there are unconnected servers, and two at least. The monitor timer has no such
-- theorem. An answer of n statistics that pauses k times takes at most 3n + k + 1 calls; the text of
-- an answer has fewer statistics than bytes, and so has the reply to `INFO`.
--
-- Parameters. The hash tables of uthash.h are an interface with laws, which an association list
-- fills. The splits of sds.c are functions from a text to its parts; where the code calls `sdslen` on
-- a text that is no sds, the split is a separate parameter. Whether hiredis takes a command, what
-- `system` returns, what `pthread_create` returns, what an engine's functions do and what `dlopen`
-- finds are parameters too. So are the calls of the operating system below a raw connection, what
-- `read` finds in turn, `sdstrim`, `sdssplitargs`, `sdstolower`, `atof`, and what hiredis does with a
-- context that is freed.
--
-- Not modelled: `dumpConfig` and the lines that the engines log, with the differences that only
-- these lines show; the formatting of a log line, the log files and pipe; the signals that `main`
-- of both processes ignores, and the event loop; sds.c, uthash.h and deps, which are copies of
-- libraries. `calloc` never fails, since the program exits if it does. In Log, `fwrite` writes all
-- that it is given, and a round of the log thread is one step, beside which nothing is
-- written. Times that the program keeps as `double` seconds are milliseconds.
pub mod Common
pub mod Connection
pub mod Hiredis
pub mod Meta
pub mod Store
pub mod Config
pub mod Action
pub mod Gather
pub mod Monitor
pub mod Engine
pub mod Log
pub mod Processes
pub mod Examples
