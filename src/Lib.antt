-- ===== src/Lib.antt =====
-- A multi-threaded HTTP proxy in C, and what keeps its shared state in order:
-- proxy_server_with_cache.c, the parser in proxy_parse.c and proxy_parse.h, and an earlier server,
-- proxy_server_without_cache.c.
--
-- A worker thread takes a request, looks its key up in the response cache, and on a miss parses
-- it. The pending table then makes it either the one thread that fetches the key or a thread
-- that waits for that fetch. The fetching thread prints the headers, takes a connection to the
-- server out of the connection pool or opens one, passes the answer on, adds it to the cache,
-- and returns the connection to the pool.
--
-- Base: names shared by all parts. Base/Lists has lists measured by native numbers, Base/Strings
--   C strings as lists of bytes, Base/Tests Boolean tests.
-- Hash: fnv1a_hash, pending_hash and pool_hash, with their 32-bit arithmetic.
-- Cache: the response cache. Cache/Store is the memory: elements at addresses, the list's ends,
--   the buckets, and the `int` counter as a bit pattern; a read through NULL or a freed address
--   is a fault. Cache/Lru has lru_init, lru_remove, lru_append_tail and lru_get_lru; Cache/Ops
--   has find, the lookup of thread_fn (cache_lookup), _remove_cache_element_unlocked
--   (remove_unlocked) and add_cache_element. Each is one step: removal and insertion hold
--   `rwlock` alone, and lookups, which share it, write the list under `lru_mutex` only.
--   Cache/Order and Cache/Linked are about the doubly linked list, Cache/Refine about the queue
--   of items that a store stands for, Cache/Evict and Cache/Add about removal and insertion,
--   Cache/Lookup about searching, Cache/History about any sequence of calls from start-up on.
-- Pending: the requests in flight. Pending/Table has find_pending, add_pending,
--   create_pending_entry, pending_wait_or_register, pending_complete and the two halves of
--   pending_wait (is_completed, drop_ref); Pending/System is any number of threads over one
--   table, interleaved in any order. Pending/Inv, Walk, Refs and Ops lead to Pending/Safety;
--   Pending/Keys to Pending/SingleFlight and Pending/Fetched, which says what the table promises
--   without it; Pending/Long is about keys longer than their field.
-- Pool: the connection pool. Pool/Store has the pools at the start, is_connection_alive,
--   get_from_pool, return_to_pool and cleanup_connection_pool; what the socket calls answer is
--   an argument. Pool/Get, Bounds, Reuse and Cleanup are about these. A call runs without others
--   in between, also where get_from_pool takes the bucket's lock again to retry. Pool/Connect
--   has connectRemoteServer; Pool/Shared is any number of threads over the pool, and Pool/Buckets
--   and Held are about the sockets that they hold.
-- Headers: the headers of a request. Headers/Store has the ParsedHeader functions, Headers/Parse
--   ParsedHeader_parse and the header loop of ParsedRequest_parse, Headers/Text the searches in
--   the text; Headers/Laws, Setting and RoundTrip are about these.
-- Request: the request line, what is printed of a request, and its parsing. Request/Line has
--   ParsedRequest_create, _requestLineLen, _printRequestLine, _unparse and _totalLen, and
--   checkHTTPversion; Request/Lengths is about the room that they need. Request/Token has
--   strtok_r and the string functions that the parser calls, on one buffer into which the
--   pointers are offsets, and Request/Parse has ParsedRequest_parse on top of them;
--   Request/TokenLaws, Split, Address, Form and LineBack lead to Request/RoundTrip;
--   Request/NoVersion is about a line without a version. Request/LineEnd says where the parser
--   gives a line up, which decides what it frees.
-- Relay: the loop of handle_request that passes an answer on. Relay/Loop has the loop, its send
--   loop and the growing buffer; Relay/Sending is about the parts, Relay/Answer about the loop
--   in every case, Relay/Whole about the loop when nothing fails. `send` and `realloc` answer
--   through arguments.
-- Worker: thread_fn and main. Worker/Errors has sendErrorMessage, Worker/Receive the loop of
--   thread_fn that receives a request, Worker/Cached its loop that sends a cached response and
--   the one of the earlier server, Worker/Accept the loops of both servers that accept
--   connections; Worker/ErrorLaws is about the texts of the errors. Worker/Thread has thread_fn
--   from its first line to its last, where what other threads can change in between is an
--   argument; Worker/Served and Sent are about it.
-- Earlier: proxy_server_without_cache.c. Earlier/Cache has its find, remove_cache_element and
--   add_cache_element, on a list with times and a lock; Earlier/Bounds, Remove and Find are
--   about one call, Earlier/History about any sequence of calls. Earlier/Relay has the loop of
--   its handle_request, and Earlier/Whole is about it. Earlier/Handle has its
--   connectRemoteServer and handle_request, and Earlier/Leak is about their sockets.
--   Earlier/Errors has its sendErrorMessage and checkHTTPversion, Earlier/Thread its thread_fn;
--   Earlier/Ends, Key, Sent and Served are about the end of a thread, the key that it looks for,
--   the cache that it leaves and what its client gets.
-- Handle: handle_request as a whole. Handle/Upstream has the request that is written for the
--   server, as bytes over what the memory held, in both servers; Handle/Run the call from its
--   first line to its last, on the parts above. Handle/Sent is about the former, Handle/
--   Untouched, Sockets and Finishes about the latter.
-- Server: proxy_server_with_cache.c as a whole. Server/System is the accept loop, the semaphore and
--   any number of threads over the pending table and the cache, interleaved in any order; a
--   thread waits for the semaphore, is idle (at work outside of the table), or stands in the
--   table. Server/Bounds is about the numbers of threads, Slots about the array of sockets,
--   Progress about coming to an end, Answers about thread_fn over a cache that is reached.
--   A thread that comes to its end posts the semaphore as often as its run of thread_fn says.
--   Server/Main has main of both servers up to the loop, with init_connection_pool, and
--   Server/Started is about it.
-- Memory: the memory of a parsed request. Memory/Blocks has blocks that are in use, with malloc,
--   free and the accesses to them, and a predicate on runs that is passed on from step to step;
--   Memory/Headers and Memory/Request have the functions of proxy_parse.c by what they allocate,
--   use and free. HeaderLaws, SetLaws, LineLaws, DestroyLaws, RequestLaws and ParseLaws are about
--   these, and Memory/Lost about a realloc that gives no memory.
-- Tests: runs at concrete inputs.
--
-- Fuel. thread_fn comes back to its lookup at most once, so it has two rounds. find and
-- unlink_loop need more fuel than the chain has elements; since no chain of a reachable cache
-- has any, one is enough. The loop that makes room has its counter's value and one as rounds:
-- each item takes at least 57 bytes of the counter. get_from_pool retries after each dead
-- connection, so more fuel than the bucket has connections is enough. The header loop needs more
-- than the text has bytes, and the relay more than the answer has, for each send of at least a
-- byte and each doubling of the buffer.
--
-- Memory. `malloc` is an argument: an address, or whether the memory is given. It hands out
-- addresses that are not in use. Strings are the bytes before their NUL.
--
-- Not modelled: the locks of the later server themselves, signals and condition variables; what
-- is printed to the terminal; malloc without memory where the code does not test for it, other
-- than in thread_fn and handle_request; the benchmark scripts. The threads of Server/System have
-- no identity in the pending table, and of a thread's own order it keeps its phase only.
pub mod Base
pub mod Hash
pub mod Cache
pub mod Pool
pub mod Pending
pub mod Headers
pub mod Request
pub mod Relay
pub mod Earlier
pub mod Worker
pub mod Handle
pub mod Server
pub mod Memory
pub mod Tests
