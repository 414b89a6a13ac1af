-- ===== src/Lib.antt =====
-- The infrastructure layer and the port forwarder of ppdb.
--
-- ppdb is a layered C program. The layer infra holds the allocator, the data structures, the byte
-- buffer, the thread pool, files, sockets and the event multiplexer; on it stand the port
-- forwarder peer_rinetd and the command line framework poly_cmdline, which `main` in ppdb.c
-- drives. Paths are from the repository's root:
--
--   Memory   ppdb/src/internal/infra/infra_memory.c: the pool (Memory/Pool: search, split, merge;
--            Memory/Heap: allocate_memory, free_memory, infra_realloc in the pool) and the public
--            functions with their system mode (Memory/Api). `g_memory` is the record Memory; a
--            function takes it and returns it. The list of blocks is a List in address order, which
--            replaces the pointer `next`; that the blocks lie one after another is Pool/Tiles.
--   Linked   infra_list_* of ppdb/src/internal/infra/infra_ds.c, over a store of nodes with their
--            pointers; Linked/Chain says when a store holds a sequence.
--   Hash     infra_hash_* of the same file. A bucket is the List that its `next` pointers make.
--   RedBlack infra_rbtree_* of the same file. The parent pointers of a node are the path of frames to
--            the root; a read through NULL is a result of its own. RedBlack/Spec is the sorted list of
--            entries that a tree stands for, Balance and Place are about insertion, Fixup, Erase and
--            Unlink about removal.
--   ThreadPool
--            ppdb/src/internal/infra/infra_sync.c: what runs under the pool's mutex is one function;
--            ThreadPool/Steps interleaves workers, submissions and the destruction as a step relation.
--   Mux      ppdb/src/internal/infra/infra_mux.c and infra_mux_epoll.c: creation and destruction;
--            Mux/Events adds the operations, with the epoll wrappers of infra_platform.c.
--   Config   infra_config_* of ppdb/src/internal/infra/infra_core.c.
--   Core     infra_init, infra_cleanup, the status and the log filter of the same file, over Memory.
--   Files    infra_file_* of the same file: the loops over read (Files/Transfer) and over write
--            (Files/Writing).
--   Net      ppdb/src/internal/infra/infra_net.c: creation, options, binding, connecting, closing;
--            Net/Exchange: accepting, sending, receiving. The port forwarder (Rinetd) has its own
--            parameters for the calls of sockets.
--   Buffer   infra_buffer_* of ppdb/src/internal/infra/infra_core.c.
--   Rinetd   ppdb/src/internal/peer/peer_rinetd.c: rules, the service and its commands, as the main
--            thread runs them. A call that blocks for good and one that C leaves undefined have no
--            outcome. Rinetd/Reachable is the relation of the contexts that public calls reach.
--   Cmdline  ppdb/src/internal/poly/poly_cmdline.c and the option loop of ppdb/src/ppdb/ppdb.c.
--   Error    ppdb/src/internal/infra/infra_error.c and infra_error.h.
--   Runtime, System, Rinetd.Calls, Kernel, SocketCalls, EpollCalls,
--   ThreadCalls
--            what a part calls outside itself: the C library under the allocator; the allocator and
--            epoll under the tables and the multiplexer, with the laws IsSystem; the threads,
--            mutexes and sockets under the forwarder; reads, writes and sockets of the kernel, with the
--            laws IsSource, IsSink, IsSockets, AddLaw and WaitLaw. Apart from the laws their
--            results are arbitrary.
--   Base     tests, lists, signed integers and 64-bit words; Tests holds the concrete inputs.
--
-- Numbers are natural; a size_t keeps its wrap-around at 2^64 (Base/Words), and an `int` that
-- counts slots is a natural number. The merging loop and the walk that destroys a list run on
-- a number of rounds: two and the number of nodes are shown to be enough. The loops over read
-- and write run on rounds too: more than the bytes and the signals that may come are enough.
-- The repairs of the red-black tree are recursion on the path to the root, all other loops on
-- their list. The thread pool's bounds are for sizes below 2^64. The pool's invariant is for
-- alignments of 8, 16 and 32 bytes, which divide the block header's 32.
--
-- Not modelled: locking outside the thread pool and the forwarder (operations run one after
-- another), log lines and printed text, the functions that only call the C library (bytes,
-- strings, formatted output, time, random numbers), the wrappers of mutexes, conditions and
-- read-write locks, the platform wrappers but those of epoll, and in the network layer
-- infra_net_recvfrom and the resolver. The threads of the forwarder are not followed; they
-- change its sessions while a call is on its way; create_forward_session and the session list,
-- which only they use, are left out. A write past the end of an array, undefined in C, changes
-- nothing.
pub mod Base
pub mod Error
pub mod Runtime
pub mod Memory
pub mod System
pub mod Core
pub mod Files
pub mod Hash
pub mod Mux
pub mod Rinetd
pub mod Buffer
pub mod Cmdline
pub mod Linked
pub mod Tests
pub mod Config
pub mod Net
pub mod RedBlack
pub mod ThreadPool
