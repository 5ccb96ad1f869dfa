-- ===== src/Lib.antt =====
-- A model of psnet, the tracker and the router of a small overlay network written in C, and what is
-- proved of it.
--
-- Clients and routers announce themselves by datagrams ("connect") that they repeat; the tracker, and
-- each router for its clients, keeps them in a table whose entries expire. Peers ask for lists over
-- TCP, in JSON with "\r\n\r\n" behind each message. Routers ask the tracker for other routers and pass
-- messages on to them and to their clients, each message once.
--
-- Files and the code that they model:
--   Prelude      shared names: tests on numbers, lists, 32-bit arithmetic, signed numbers
--   Libc         strtol and decimal printing, which the program calls
--   DeltaList    common/deltalist.c and include/deltalist.h: the table of entries that expire, a hash
--                table threaded on a delta list (delta_tick and the steps that the operations
--                share; DeltaList/Operations has delta_insert, delta_update and so on)
--   Ipv6         include/ipv6.h: socket addresses and their comparison
--   Client       common/client.c: the table of clients (add_client, clients_to_json and so on)
--   MsgCache     router/msgcache.c: the identifiers of messages that have been seen
--   Network      common/network.c: the loops over send and recv, and datagrams
--   Server       common/server.c: the limit on the number of threads, as a relation of steps, the
--                search for a socket, and what the handler of a datagram gets
--   Protocol     common/protocol.c: responses, requests and the datagrams of a router; of psnet_request
--                also what stands behind a goto that is always taken (Protocol/Exchange)
--   Router       router/router.c: the list of routers, the flooding of messages, and how a router
--                announces itself
--   Jsmn         the additions to common/jsmn.c and include/jsmn.h: looking up values by token, and in
--                Jsmn/Tree which tokens are those of a document, a tree of values
--   Parse        common/parse.c: the messages, headers and lists of nodes that a peer sends
--   Tracker      tracker/service.c: the requests; Tracker/Trace is about any sequence of them and of
--                turns of the clock, Tracker/Asked about what a router then gets of the tracker, and
--                Tracker/Lease and Tracker/Newest about single peers among others
--   Broadcast    process_broadcast of router/service.c: passing messages on
--   RouterService  the other requests of router/service.c, and their dispatch; RouterService/Trace is
--                about any sequence of them, of turns of both clocks and of new routers, and
--                RouterService/Lease about single identifiers among others
--   Connection   the loop of handle_connection, the same in tracker/service.c and router/service.c
--   Startup      main of tracker/service.c and of router/service.c, with the threads that they start
--   Settings     the options and configuration entries, TrackerSettings and RouterSettings what
--                tracker/service.c and router/service.c make of them
--   Tests        runs at concrete inputs
--
-- State and operations. A DeltaList has each field of struct delta_list, and each field of struct
-- delta_node as a map from addresses; its predicate Represents says which sequence of entries it
-- stands for, in the order of expiry, and DeltaList/Spec has what each operation promises on that
-- sequence. Every function of C keeps its name. A result `none` is a fault of memory,
-- or a wait for a peer that never ends. The mutex of a table makes each operation one step. The
-- client table and the message cache are DeltaLists with the callbacks of their files. DeltaList/Timed
-- forgets the addresses: what a table stands for is a list of entries with the turns of the clock that
-- each has left, and DeltaList/Lease counts the turns of one entry among others. Programs as a whole are
-- sequences of events: each datagram and each turn of a clock is one, in the order in which they come.
--
-- Bounds and fuel. A walk along a bucket has the number of addresses handed out as its fuel; the
-- addresses fall along a bucket, so it is enough. The loop of delta_tick has one more than the size of
-- the table, and delta_foreach and delta_clear have the size. The loop of jsmn_get_value has the number
-- of tokens, since each turn passes one at least, and that of parse_node_list too; that of
-- handle_connection has one more than the bytes that arrive, since each turn reads one at least.
-- Numbers are those of a 64-bit Linux: int has 32 bits, long and size_t have 64; char is signed.
--
-- What the code takes from outside is a parameter: htons, ntohs and inet_ntop (Client's Host), the
-- answers of send, recv, sendto and recvfrom, inet_pton and the parser jsmn_parse; getopt_long and
-- ini_parse are the lists of what they deliver, and getaddrinfo is a function or the list of what comes
-- of its addresses. malloc does not fail, and the stack has room for the arrays. A memory leak is not
-- seen.
--
-- Not modelled: the third-party parsers of common/jsmn.c and common/ini.c; the kernel's lists of
-- include/list.h (a list is a List); common/misc.c and the messages of the log, which only call the
-- system, and with it the build with DAEMON; and functions that only free or print.
pub mod Prelude
pub mod Libc
pub mod Ipv6
pub mod DeltaList
pub mod Client
pub mod MsgCache
pub mod Network
pub mod Protocol
pub mod Router
pub mod Server
pub mod Jsmn
pub mod Parse
pub mod Connection
pub mod Tracker
pub mod Settings
pub mod TrackerSettings
pub mod RouterSettings
pub mod Broadcast
pub mod RouterService
pub mod Startup
mod Tests
