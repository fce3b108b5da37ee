-- ===== src/Lib.antt =====
-- A verification library for systemish, a collection of small systems programs in C and C++.
-- Most of the programs do not call one another; each has its module here, and what they share of
-- the language is in Base.
--
-- Base: `int` and its wrap-around (Words), arrays and counted loops (Arrays), Boolean tests
--   (Tests), sums over lists (Lists), chains of steps that may fail (Options), facts about bytes
--   (Tables), and what a program takes from the operating system (System): the results of shmget,
--   shmat, malloc and rand are the fields of a `Host`.
-- HugeAlloc: utils/huge_alloc.h. State is the class with its fields, and how a member function
--   ends: with a result, an exception, a failed assertion, or still waiting for shmget. The
--   member functions have their names. Addresses are numbers; each turn of the loop in
--   `alloc_raw` takes what the random key and shmget, shmat and mbind are from a list. Inv is the
--   invariant for the buffers that the user holds; Split, Take and Grow are the parts of `alloc`,
--   Alloc and Free its laws and those of `free_buf`; Raw is about the regions that the user asks
--   for itself; Calls has the calls of a user in any order, and Run the invariant after them;
--   Stats and Delete are the statistics and the destructor. The instruction bsrl is an argument
--   with the law that it is the index of the top bit of a number above 0. The processor's manual
--   leaves its result for 0 open, which `get_class` asks for when the size is 64 or less: what is
--   proved of `alloc` is for the larger sizes.
-- RawEth: raw_eth/rxtx. Frame and Checksum are common.h, Sender is sender.cc with rand.h,
--   Receiver a thread of receiver.cc with its ring of buffers. The frame of a packet is a record
--   of its headers, since the padding is never written. The device is an argument that steers
--   packets by the flow rules; its queues are lists, and its calls succeed, but for the results
--   of posting and polling by the sender: a packet is posted if ibv_post_send returns 0, as its
--   documentation says. Inet is the text of MAC addresses in raw_eth/utils/inet_hdrs.h. Ring and
--   Fifo are about the ring, Sequence, Sent and Delivery about the packets on their way.
-- Ioat: ioat/bench.cc. Pools, Drain and Run are about one channel of the DMA engine: its buffers
--   and tasks, the loops, a whole run of `work_fn`. Which copies the engine finishes in each
--   call, and what `memcmp` says of them, is an argument; the engine takes every copy. Worker is
--   `work_fn` over the channels of a worker, Drains how that ends, Config the options, Setup the
--   devices, the workers and the association, Balance how the channels are shared out, Totals the
--   table at the end, and Main and Cleanup `main` with what it gives back. What SPDK and calloc
--   return is in an `Env`. A task is in flight only on the channel of its own entry, so its
--   pointer to the entry is left out.
-- Content: hyperscan/vs_dfc: snort_patterns/content_to_bytes.cc, and the loading of patterns in
--   bench.cc. Decimal has the text of numbers, Grammar and Accept the strings that are accepted,
--   Load the way from a rule's string to a pattern. `trim` and `split` of Boost are a record of
--   functions with the laws that their documentation gives.
-- Gpu: gpu/mtMappedMemory: Mapped is the host thread and the kernel as steps, each an access of
--   the mapped memory, which both sides see in one order; Handshake has the invariant, Progress
--   the way to the end. RandMem is gpu/randMem: the kernel, the same loop on the processor, and
--   the comparison; Interleaved the loop over eight packets at a time. The threads of a kernel
--   step in any order, so also in lockstep.
-- Masstree: masstree-example/index. The tree itself is a record of operations on strings of bytes,
--   with the laws of a map, and of a scan that passes the rows from a key on in the order of their
--   keys. Strings and Order are about the keys as strings, Gets about the lookups of example.cc,
--   Scan and Sums about its sums, Threads about its threads, whose operations on the tree are
--   atomic.
-- Udp: udp/udp_client.h. A name has the same address each time it is resolved, an argument;
--   Cache compares the client with one that has no cache. Server is the constructor in
--   udp/udp_server.h.
-- Timely: timely/timely_test.cc, for any type with the operations of `double`.
-- Goto: goto/. Machine is fpp.h with the frame of every `process_pkts_in_batch` in goto form.
--   Simple, Locals and Divergence are goto/simple, goto/locals and goto/synthetic-divergence, with
--   a module for each C file and the comparison in Same; Log has the hash and the `main` that
--   goto/simple and goto/locals share. Memory that C leaves uninitialised is an argument
--   `garbage`.
-- DsQueue: DS/queue. A function on a queue is an action on a heap of nodes; `ds_queue_add` takes
--   the address that malloc returns.
-- Tls: thread-local-storage/tls.c. Work is what a thread does, Options is `main`.
-- Ispc: ispc-test/memory-capacity/no-ispc (Lookups) and ispc-test/pointer-chasing/ispc (Chase).
--   The kernel that the ISPC compiler makes is an argument of `main`.
-- Locks: locks/. Counter is locks/elementry_locks.c with its spinlock, as a step relation;
--   FetchAdd is locks/fetch-add.c, where a schedule is the list of the threads that take a round;
--   ManyLock is locks/manylock.c, whose measured times are an argument.
-- Bench: cpu-hog/, bench/modulo, bench/strlen, bench/crc, prefetch/, memory-capacity/ and
--   gpu/seqMem/cpu.c. The CRC32 instruction is a pair of functions with the law that a word is its
--   four bytes.
-- SharedMemory: shared-memory/, the rounds of the server and the reads of a client.
-- Examples: tests, and the theorems at concrete inputs.
--
-- Numbers: an `int` is its 32-bit pattern, with `% 2 ^ 32` written out, also where C leaves the
-- overflow open; compilers make wrapping code of it for these programs.
--
-- Bounds: in HugeAlloc a size of 64 bits wraps; the invariant holds while the regions, and so
--   the last reservation, have at most 2 ^ 47 bytes, which is the user's half of the address
--   space.
--
-- Fuel: the second loop of `ip_checksum` has at most five turns, which Verified shows to be
-- enough for 64 bits. The goto form of goto/simple has 17 turns for a batch of 8 packets of 2
-- blocks each, that of goto/synthetic-divergence 25 turns for 8 packets of at most 3 blocks
-- each, that of goto/locals 16 labels; the loops of DS/queue have one more round than the queue
-- has nodes; `strlen` has one round for each byte of its array. Endless loops are given by the
-- number of their rounds.
--
-- The lists of calls of Ioat stand for its loops on the clock and on the depth of the queue.
--
-- Not modelled: times and printed text, the copies of other projects
-- (hyperscan/vs_dfc/dfc_src, the hash functions below bench/, spdlog), programs that only
-- call sockets, verbs or measure the system, and the other programs in C++ and CUDA. In
-- raw_eth/rxtx, `init_ctx` is a sequence of calls of verbs.
pub mod Base
pub mod Bench
pub mod Content
pub mod DsQueue
pub mod Examples
pub mod Goto
pub mod Gpu
pub mod HugeAlloc
pub mod Ioat
pub mod Ispc
pub mod Locks
pub mod Masstree
pub mod RawEth
pub mod SharedMemory
pub mod Timely
pub mod Tls
pub mod Udp
