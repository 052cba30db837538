-- ===== src/Lib.antt =====
-- A verification library for the C and C++ programs of this repository.
--
-- Parts. `KdTree` is the k-d tree of 数据结构/kd-tree/kdtree.c: points with an item each, inserted
-- one by one, and searched for those within a range of a point. `Reactor` is the event loop of
-- 网络编程/aeReactor/cversion: ae.c over ae_epoll.c. `MedianTree` is the tree of
-- base-kdtree.c, built at once, and `Web` the web server of 网络编程/web
-- with `Rio`, its package for input and output. `Sorting`, `Vector`, `LinkedList`,
-- `Avl` and `SearchTree` are the templates of 算法/cpp: sorts, a vector, a doubly linked list, a balanced
-- tree and a plain search tree; the first two are over the lemmas of `Arrays`. `QuadTree` is the tree of
-- points of 数据结构/q-tree. `Cache` holds the caches of 网络编程/cache.h. The parts do not call each other.
--
-- Prelude, Prelude/*: names and lemmas that the parts share; lists with C's array accesses.
-- Scalar, Scalar/Integers: coordinates as an interface with the laws of an ordered ring, in place of
-- `double`, and the integers as an instance. Rounding is not modelled.
--
-- KdTree/Types: `struct kdnode`, `kdtree`, `kdres`, `res_node` and `kdhyperrect`, `kd_create`,
--   `kd_clear`, and the free list of result nodes. A pointer to a node is the node; `malloc` takes the
--   next outcome from a list, which is a parameter, so that every pattern of failures is covered.
-- KdTree/Rect, KdTree/Build: the bounding box; `kd_insert`, `insert_rec`.
-- KdTree/Results, KdTree/Search: result sets; `find_nearest`, `kd_nearest_range`.
-- The other files of KdTree hold proofs, and are named for what they prove.
--
-- Reactor/Types: `aeEventLoop` and its parts, and the interface of the kernel (`epoll_create`,
--   `epoll_ctl`, `epoll_wait`, `gettimeofday`, `time`), a parameter over a state of all that is
--   outside the loop. `maxfd` is kept as `maxfd + 1`. Masks are their bits.
-- Reactor/Files, Reactor/Timers: file events and time events, with the requests of ae_epoll.c.
-- Reactor/Callbacks: the procedures that clients register are a parameter too: one may read the loop
--   and ask for any calls of the public functions, which are made in order. One that runs the loop
--   again, resizes it or frees it is not modelled.
-- Reactor/Due, Reactor/Process, Reactor/Wait: `processTimeEvents`; `aeApiPoll`, `aeProcessEvents` and
--   `aeMain`; `aeWait`.
--   The main loop runs on fuel, one unit for each turn, and is `none` while it is still running:
--   it need not end, so that no bound is enough.
-- The other files of Reactor hold proofs, and are named for what they prove.
--
-- MedianTree/Types, MedianTree/Build, MedianTree/Nearest: 数据结构/kd-tree/base-kdtree.c, its tree, how
--   it is built from an array, on fuel for the loop and the recursion, and its search for the nearest
--   node. `best` and `best_dist2` are threaded through as a record. The other files hold proofs.
-- Web/Bytes: strings as lists of bytes, with the string functions of C.
-- Web/Request, Web/Reply, Web/Serve: 网络编程/web/src/web.c, built with HTTPS as web.h says: reading a
--   request, writing a reply, and `doit`. The files, the CGI programs and the decimal numbers of printf
--   are parameters. The walk over the headers of a POST request runs on fuel, one unit for each round;
--   the number is a parameter. The opening and the reading of a file succeed, where a failure ends the
--   process; file sizes are below 2^31, as `filesize` is an int; a Content-Length is not negative. The
--   other files hold proofs.
-- Rio/Types, Rio/Io, Rio/Wrappers: the Rio package of 网络编程/web/src/csapp.c over `read` and `write`, which are
--   parameters. Each loop runs on fuel, one unit for each round, of which a stream that hands out
--   something at every call needs one for each byte and one more. A call that is interrupted is tried
--   again; a count of 0 from `write` is an error, whatever `errno` holds from before.
-- Arrays/*: arrays as lists that are read and written by index, and the order of their elements, an
--   interface with `<` and its laws. `Swap` is sort.h's.
-- Sorting/Select, Sorting/Gap, Sorting/Quick, Sorting/Merging, Sorting/Heap: the templates of
--   算法/cpp/sort/sort.h. Loops run on fuel that their calls set: as many rounds as there are elements,
--   or one more. The loop of `Partition` need not end, so its fuel is a parameter, and so is that of
--   `SortQuick`. Indices of int are natural numbers: lengths are below 2^30. The sorts of int arrays,
--   which count in arrays of their own, are not modelled. The other files hold proofs.
-- Vector/Types, Vector/Duplicates, Vector/Sorts: the class `Vector` of 算法/cpp/MYSTL/vector.h as a record of its
--   size, capacity and array; `==` of the elements is a parameter. Each allocation succeeds. The other
--   files hold proofs. Selection, merge and heap sort, `unsort`, the constructors and `operator=` are
--   not modelled.
-- Cache/Types: `LRUCache` of 网络编程/cache.h, over a store of nodes at addresses, a map as a function with a
--   count, and a list of addresses; `==` of the keys is an interface, and nodes that the code forgets
--   stay in the store. `Evict` runs its rounds on their number.
-- Cache/Frequencies: `LFUCache`, in the same way, with the sorted map of frequencies as a list. The other
--   files hold proofs.
-- Avl/Types: 算法/cpp/tree/avl_tree.h: `Insert`, the rotations and `Search`, on trees without `parent_`; heights
--   are natural numbers. `Delete`, which reads `parent_`, is not modelled. The other files hold proofs.
-- SearchTree/Types, SearchTree/Deleting, SearchTree/Iterations, SearchTree/Rebuild: 算法/cpp/tree/tree.h. A
--   tree is a value, so that what a caller's pointer leads to after `Delete` is the result. The loops with
--   a stack or a queue, and the builds from two walks, run on fuel that is a parameter; the fuel that is
--   enough is stated with each theorem. `LastTraverIteration`, which compares pointers, runs on trees
--   whose values come with addresses. The other files hold proofs.
-- LinkedList/Types, LinkedList/Finding, LinkedList/Sorts, LinkedList/Runners: the class `List` of
--   算法/cpp/MYSTL/list.h and its nodes, over a store: each member of a node is a function of its address.
--   What is read through `NULL` is not told. Loops run on fuel that is a parameter. `reverse` keeps that
--   name, and `Reverse` is `turn_round`. LinkedList/Linked says what a well-formed list is, by the address
--   at each position. Copies from another list and `clear` are not modelled. The other files hold proofs.
-- QuadTree/Types, QuadTree/Adding, QuadTree/Searching: 数据结构/q-tree/sbd_tree.cpp and sbd_tree.h. A node of type
--   DATA holds the list of those behind `next`. Coordinates are natural numbers, so that bounds on
--   negative numbers are not covered, and `AddNode` runs on fuel, one unit for each level, of which the
--   width and the height of the root's bound together are enough. QuadTree/Well says what a well-formed
--   tree is, without chains and with them. The nearest-point search and the dump to a file are not
--   modelled. The other files hold proofs.
--
-- Not modelled: overflow of machine integers; the release of memory; zmalloc.c, anet.c,
-- cJSON and the sources of Linux, which are copies of other projects; the other parts in C++, and those in Go.
pub mod Prelude
pub mod Scalar
pub mod KdTree
pub mod Reactor
pub mod MedianTree
pub mod Web
pub mod Rio
pub mod Arrays
pub mod Sorting
pub mod Vector
pub mod Avl
pub mod Cache
pub mod SearchTree
pub mod LinkedList
pub mod QuadTree
