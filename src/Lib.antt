-- ===== src/Lib.antt =====
-- C_Utils: data structures, strings and HTTP headers of a C library, modelled as functions and as
-- steps of threads.
--
-- The parts. heap.c is a priority queue on an array. list.c is a doubly linked list with an
-- optional order; map.c is a hash map with open addressing. The nodes of helpers.h are what the
-- list and the stack are made of. string_manip.c works on C strings, and
-- http.c reads the headers of requests and responses into a map. queue.c, blocking_queue.c and
-- events.c are what threads meet at. The structures call
-- ref_count.c and the callbacks of their user: such calls are recorded in the field `events` of a
-- structure, the last one first.
--
-- The files, and the code they are about:
--   Base, Base/*       shared: tests on numbers, lists as C arrays, string literals as bytes,
--                      what threads share, and runs. A `Run` returns, or
--                      comes to undefined behaviour (`fault`), or its fuel ends.
--   Heap               data_structures/heap.c: insert, get, remove, delete, remove_all, delete_all
--                      for c_utils_heap_*, and the helpers by their names; Heap/Create has the
--                      configuration, the creation and the destruction. The proofs: Heap/Order
--                      (heap order), Heap/Sift (heapify_up, heapify_down), Heap/Insert,
--                      Heap/Remove, Heap/Session (sequences of calls), Heap/Fresh, Heap/Clear.
--   Node, Node/Links   data_structures/helpers.h: nodes in a store, and chains of them.
--   LinkedList         data_structures/list.c: the additions; LinkedList/Access has the searches and
--                      walks, LinkedList/Drop the removals. The proofs: LinkedList/Add,
--                      LinkedList/Between and LinkedList/Sorted (additions), LinkedList/Insert (c_utils_list_add),
--                      LinkedList/Retire (how a removal ends), LinkedList/Cut and
--                      LinkedList/Bridge (removals), LinkedList/Index,
--                      LinkedList/Find, LinkedList/Clear.
--   LinkedList/Iterate data_structures/list.c: the functions of the iterator; LinkedList/Handle has
--                      c_utils_list_iterator, LinkedList/Walk the loops of list.h. The proofs:
--                      LinkedList/Hold and LinkedList/Moves (the references of update_pos),
--                      LinkedList/Travel and LinkedList/Session (moves against a cursor),
--                      LinkedList/Release (destruction).
--   Iterator           data_structures/iterator.c: calls through the table of functions.
--   HashMap            data_structures/map.c: the buckets and the probes; HashMap/Hash has the hash,
--                      HashMap/Create the configuration and the creation, HashMap/Access the
--                      operations on one key, HashMap/Bulk those on all buckets, HashMap/Iterate
--                      the iterator. The proofs: HashMap/Probe, HashMap/Lookup, HashMap/Count and
--                      HashMap/Insert (the invariant), HashMap/Remove, HashMap/Clear,
--                      HashMap/Scan, HashMap/Walk.
--   Strings            string/string_manip.c; Strings/Edit has the trimming and the count. The proofs:
--                      Strings/Match, Strings/Search, Strings/Reverse, Strings/Trim, Strings/Count.
--   Http               networking/http.c: the reading of headers, the clearing and the fields;
--                      Http/Status has the table of the statuses, Http/Print the start of the
--                      printing. The proofs: Http/Tokens (lines and words), Http/RoundTrip (requests),
--                      Http/Reply (responses), Http/Reread (printing and reading), Http/Bounds,
--                      Http/Access (fields).
--   RefCount           memory/ref_count.c: the counter of an object. The proofs: RefCount/Life.
--   Stack              data_structures/stack.c without its lock-free mode. The proofs: Stack/Chain,
--                      and Stack/Session (sequences of calls).
--   Queue              data_structures/queue.c: the steps of threads. The proofs: Queue/Invariant,
--                      Queue/Frame, Queue/Reads and Queue/Growth (steps), Queue/Order, Queue/Whole.
--   BlockingQueue      data_structures/blocking_queue.c, over an interface; BlockingQueue/Steps has
--                      the steps of threads, BlockingQueue/OverHeap and BlockingQueue/OverList what
--                      stands behind the interface. The proofs: BlockingQueue/Waiting (counter and
--                      mutex), BlockingQueue/History (what the heap was asked), BlockingQueue/Progress,
--                      BlockingQueue/OverHeap, BlockingQueue/Results.
--   Events             threading/events.c: the steps of threads. The proofs: Events/Waiting.
--   Timer              misc/timer.c. The proofs: Timer/Elapsed.
--   */Tests            the theorems at concrete inputs.
--
-- State. Addresses of items, keys, values and nodes are numbers, and NULL is 0. A structure is a
-- record with the fields of the C structure. A heap's array is a list, and access out of its
-- bounds is a fault. A list's nodes are in a store, from addresses to nodes; access through an
-- address without a node is a fault. A node that the list creates has the destructor `free`, which
-- its last release hands an address inside of the block: that is a fault too. `malloc` and `realloc` are arguments: what they return, and
-- what is in the memory. A ratio or trigger of the type double is a fraction. A comparator is a
-- function to an ordering; `Ranks` says that it follows a rank.
--
-- The counter of references is a number below 2^32, and each call on it is one atomic step. The
-- clock of a timer is an argument.
--
-- Threads. The queues and the events are step relations: a step is what one thread does between two
-- accesses to what the threads share, and any thread may make the next one. A mutex is the number
-- of the thread that holds it. A wait may end at any time, as POSIX allows; which
-- signal wakes which thread is not modelled. In the queue without locks the hazard
-- pointers are taken as doing what they are for: a retired node keeps its memory, and no new node
-- gets it.
--
-- Headers. What strtok_r gives, call after call, is the list of the words. The map of the fields is
-- an interface: http.c calls c_utils_map_remove with a destructor, c_utils_map_clear and
-- c_utils_map_key_value_to_string, which map.c does not have, and its keys are buffers of the caller.
-- The lengths are those of http.h where no macro sets others.
--
-- Fuel. The sifts of the heap have one round more than there are items: each round at least
-- halves or doubles the index. The walks over a list have one round more than there are cells.
-- The probes of the map have as many rounds as there are buckets, as in the code. The loops of a
-- timer have a round more than there are seconds. The theorems show that this is enough, since
-- they say that the calls return.
--
-- Not modelled: the loops that print the fields of a header, since each snprintf in them reads the
-- buffer that it writes, which has no defined result; the locks of the data structures (an operation is one step), logging, the check
-- of a handle for NULL, the hazard pointers, numbers that overflow apart from the hash, the
-- counter of references and the index in the reversal of a string, what a string has behind its
-- closing zero, and the other files of the repository.
pub mod Base
pub mod Heap
pub mod Node
pub mod LinkedList
pub mod HashMap
pub mod Strings
pub mod RefCount
pub mod Timer
pub mod Stack
pub mod Events
pub mod Iterator
pub mod BlockingQueue
pub mod Queue
pub mod Http
