-- ===== src/Lib.antt =====
-- Cachetron: an in-memory key-value server (server.c), its client (client.c) and the data structures
-- that both stand on (data_structures/).
--
-- The server reads requests from sockets, parses each into a vector of strings, runs the command
-- on a hash map from keys to entries and answers with a tagged byte string. The map resizes a few
-- nodes at each operation, so that no request waits for a whole rehash. A heap of expiry times
-- points back to the entries. Strings, vectors and the deque (the queue of the thread pool) are the
-- containers that the rest is written in.
--
-- Files and what they model:
--   Connection  try_one_request to connection_io of server.c: the buffers and the states of a
--               connection, over what read and write answer. Connection/Flush: what state_res
--               sends; Connection/Overrun: a request that fills the buffer.
--   Database    do_get, do_set, entry_eq and the entries of server.c, against a map from keys to
--               values (Database/Maps). Database/Exists: do_exists. Database/Timers: do_del, do_expire, do_ttl, next_timer and
--               the loop of process_timers over the heap.
--   Expiry      entry_set_ttl of server.c.
--   Heap        data_structures/trees/heap.{h,c}.
--   Avl         data_structures/trees/avl.{h,c}: Avl/Fix insertion, Avl/Delete removal, Avl/Offset,
--               Search, Parent and Climb the search by offset.
--   Zset        data_structures/set/zset.{h,c}: the sorted set over Avl and HashMap.
--   ThreadPool  thread_pool.{h,c}, as steps that come in any order, over the deque: ThreadPool/Turns
--               and Wake the signals, Drain the end of the threads, Dangling the locals that the
--               deque points to.
--   Client      read_full, write_all, process_response and read_res of client.c.
--   HashMap     data_structures/hashmap/hashtable.{h,c}: h_init to hm_destroy, one definition each.
--   Vector      data_structures/vector/vector_c.{h,c}: vector_c; Vector/Pointers: ptr_vector.
--   Deque       data_structures/queue/deque_c.{h,c}.
--   LiteString  data_structures/string/lite_string.{h,c}: storage and appending; LiteString/Edit
--               insertions, LiteString/Compare comparisons and copies, LiteString/Search searches.
--   Wire        parse_req of server.c and send_req of client.c (Wire/Request, Wire/Request/Send), out_nil to end_arr of
--               server.c (Wire/Response).
--   Ring        data_structures/list/list.{h,c}, the linked ring of idle connections.
--   Hash        fnv1a_hash of common.h, the hash code of a key.
--   Branchless  the branch-free max of avl.c and vector_c.c and the min of zset.c.
--   Prelude     lists and tests on native numbers, bits, arrays with checked ranges, clp2, and the
--               results of code that can go wrong.
--   Tests       the theorems at concrete inputs.
--
-- A definition has the name of the function that it models. The functions state_req and state_res
-- of server.c are read_all and flush_all of Connection, beside the states of the same names. State
-- is passed and returned: a structure that the source changes in place is an argument and a part of
-- the result. A `size_t` is a native number, wrapped by `% 2 ^ 64` (add_size, sub_size) where the
-- source may wrap. A null pointer is `none`. Every array access is checked: one that leaves the
-- array, a null pointer that is read, freed storage that is read and a failed assert are values of
-- `Result` (Prelude/Result).
--
-- Parameters stand for what the C library does: `alloc` and `calloc` tell which allocations
-- succeed, `in_place` whether realloc leaves an array where it is, `same_case` is strncasecmp,
-- `strtoll` itself, `now` what the clock answers. A test that the caller passes to the hash map
-- (`eq`) is any function from nodes to Bool. The answers of read and write are lists of events; a
-- call gives or takes at most as many bytes as it is asked for. A connection takes the handler of a
-- command as a parameter. The tests `!=` and `<` of doubles are `ne` and `less`.
--
-- Fuel: the loop of hm_help_resizing is run for as many rounds as the older table has buckets, and
-- k_resizing_work + 1 more. Each round passes a bucket or does a unit of work, so this is enough.
-- The loop of heap_up takes pos + 1 rounds and that of heap_down len + 1, as the place moves up or
-- down at each. The loop over the requests of a connection takes one round more than it has bytes,
-- as each request takes bytes away. avl_del takes one call more than the right subtree of its node has
-- nodes, as the next node lies in that subtree; avl_offset takes as many rounds as the path is long and
-- the tree has nodes, as it goes up and then down. process_response takes the levels of arrays that it
-- may enter; a reply has as many as are nested in it. All other loops are structural on the number of rounds left,
-- which the source's bounds give, or on the events left.
--
-- A chain of the hash map is the list of its nodes, so nothing is said of nodes that are linked
-- into two chains. Strings and vectors that are passed together do not share storage, as `restrict`
-- demands. An entry is known by its address, a number that malloc gives but once; its strings are
-- lists of bytes. The vector of the heap is the list of its items. The functions that only free
-- storage have no model, but tree_dispose, whose nodes are listed in the order in which it frees them.
-- The `parent` pointers of a tree are the path to a node (Avl), and the pointers from a node of a
-- sorted set to its fields a function from addresses (Zset). What a thread of the pool does under the
-- mutex is one step; the local of each call that pushes a task has an address of its own, and can be
-- read until the call returns (ThreadPool). An element of a vector is one cell, so a wrap of
-- size * element_size, which needs arrays beyond any object, is not modelled (Vector).
--
-- Not modelled: the commands on sorted sets, do_keys, do_command and do_request; the ring of
-- idle connections in the event loop, accept_new_conn and both main functions, which are calls of the
-- system for the most part; the failures of pthread functions and allocations in thread_pool_init.
pub mod Prelude
pub mod HashMap
pub mod Branchless
pub mod Vector
pub mod Deque
pub mod Ring
pub mod Heap
pub mod Avl
pub mod Zset
pub mod Client
pub mod ThreadPool
pub mod Expiry
pub mod Database
pub mod Connection
pub mod Hash
pub mod Wire
pub mod LiteString
mod Tests
