-- ===== src/Lib.antt =====
-- A verification library for seq, a header-only C++ library of containers and of what they need.
--
-- Seven parts are modelled: the double-ended vector of seq/devector.hpp, the tiered vector of
-- seq/tiered_vector.hpp with its circular buffers and the manager that holds them as buckets, the
-- search in sorted ranges of seq/internal/binary_search.hpp, the flat maps and sets of
-- seq/flat_map.hpp, which search in the buckets of a sorted tiered vector, the tagged pointers of
-- seq/tagged_pointer.hpp, the locks of seq/lock.hpp, which the concurrent maps use, and the
-- sorting and merging functions of seq/algorithm.hpp. The vector and the circular buffers stand
-- on the same memory; the tiered vector, the flat maps and the merges stand on lists. The vector stands on three layers, each of which uses only the one before:
--
-- * Memory models what placement new, destructors, memcpy and an allocator do (seq/utils.hpp:
--   construct_ptr, destroy_ptr; the two traits of seq/type_traits.hpp that the vector asks for).
--   An address is not allocated, or raw storage, or holds an object. An operation ends normally,
--   ends in an exception with the state that it leaves, or faults: undefined behaviour, such as a
--   construction over an object or the use of an object that is not there. A world carries a fuse,
--   the number of constructions that may throw which still succeed, so a statement for every world speaks
--   of every point at which an exception can strike. Memory/Overlay is the algebra of layouts of cells,
--   Memory/Steps the single steps on them.
-- * Devector/Transfer has the loops that construct, move, copy and destroy ranges
--   (construct_range, copy_destroy_input, destroy_range of DEVectorData); its child modules say what
--   each leaves, with and without an exception.
-- * Devector has the pointers of DEVectorData and the operations: reallocation, reserve and
--   shrink_to_fit (Devector), growth, emplace_back, emplace_front, pop_back and pop_front
--   (Devector/Grow), resize, resize_front, clear and at (Devector/Resize), copy and destruction
--   (Devector/Lifetime). Devector/Layout says when a vector holds a list: its pointers lie in its
--   storage, the storage has raw cells, the objects and raw cells, and all else in memory is a given
--   rest of which no cell is the vector's. The theorems are stated by that relation with the same
--   rest before and after an operation, unless they name another.
--
-- CircularBuffer has the buckets of a tiered vector: a ring of a power of two of cells, where an
-- index is turned into an address by a mask. Its state is the members of BaseCircularBuffer and a
-- world. CircularBuffer has the operations at both ends, CircularBuffer/Shift the moves by one
-- cell (move_right_1 and its three kin, in at most two stretches around one cell),
-- CircularBuffer/Insert emplace, insert_pop_back and insert_pop_front, CircularBuffer/Erase the
-- erasures, CircularBuffer/Resize resize and destroy. CircularBuffer/Masks is about the mask,
-- View and Turn look at the cells in the order of their indices and turn the ring by one cell,
-- Cells says when a ring contains a list (Contains): the objects are its first cells, all others
-- are raw, and memory around the ring is a given rest. Element carries what the code asks of the
-- element type. Moves of objects do not throw here, so the handlers that restore the size of an
-- erasure do not run; constructions from arguments may throw, by the fuse.
--
-- BucketManager has the manager of a tiered vector above its buckets. A bucket is the list that
-- it contains, and the operations on it (BucketManager/Bucket) are those of CircularBuffer on
-- lists; allocation and exceptions are left out here; the back values, which update() caches after
-- each change of a bucket, are computed in FlatMap where they are read. BucketManager has the state, the search of a position by shift and mask, and the
-- insertions, BucketManager/Erasure the removals; a loop over bucket indices is a recursion over
-- the buckets that it visits. An operation gives none where the code would read a bucket or an
-- element that is not there. BucketManager/Spine says which sizes the buckets have, Locate when a
-- manager represents a list (Represents), Propagate, Insertion, Ends and Anywhere follow the
-- insertions, the child modules of Erasure the removals.
--
-- BinarySearch has the branches of lower_bound, one definition for each: halving (a test only),
-- probing after rounds of two halvings (arithmetic keys), and two searches by three-way
-- comparison (containers with and without equal keys). A range is a list; a read outside of it,
-- or a loop that runs out of fuel, gives none. The fuel is the length of the list: each round
-- makes the range shorter. The comparisons compute `s + e` modulo `max`, the number of values of
-- its type. upper_bound is not modelled: as written it passes the template arguments of
-- lower_bound in the wrong order.
--
-- TieredVector has tiered_vector itself, above BucketManager: the bucket size for a size
-- (FindBucketSize), when the vector looks for another one (update_bucket_size, check_bucket_size,
-- set_bucket_size), the constructor that moves a range of values into a manager with another
-- bucket size (rebuild), and emplace, emplace_back, emplace_front, pop_back, pop_front and erase,
-- which all begin with that. Config has the template arguments, and two functions that rest on
-- the compiler and on the C library, the scan for the highest bit and the square root: the
-- theorems on lists ask of the first that it inverts the powers of two, and nothing of the second;
-- the theorem on the bucket size asks of both what they document (BucketSize/Near), and that the
-- size is below 2^52, up to which a double holds it exactly. The bucket size is shifted in 32 bits,
-- as in the code. The
-- loop of rebuild has as much fuel as the number of buckets that the code computes before it; its
-- inner loop, for_each_bucket (TieredVector/ForEach), has as much as there are old buckets. The old
-- buckets are destroyed while the values are moved out of them, and a read of one that is destroyed
-- gives none. What is left of the old manager behind the last value is destroyed at the end, which
-- is left out, as is the handler of an exception. Parts, Visited and Taken of ForEach have the
-- lemmas on it.
-- TieredVector/BucketSize (with Powers and Near), Rebuild (with its loop in Fill) and Operations have the theorems.
--
-- FlatMap has the searches of seq/flat_map.hpp (tvector_lower_bound, tvector_upper_bound,
-- tvector_binary_search) and flat_tree over them: lower_bound_pos, upper_bound_pos,
-- equal_range_pos, contains, count, emplace_pos, emplace_pos_hint and erase of a key, for
-- containers with unique keys whose comparison has only operator(). FlatMap/Multi has the
-- branches of those for keys that may be equal (emplace_pos_multi, emplace_pos_hint,
-- equal_range_pos, count) with their theorems in Multi/Ascending and Bounds. A tree is the
-- manager of its deque. A search looks first among the back values of the buckets and then in one
-- half of the ring of one bucket; where a ring starts is not part of the manager's state here, so
-- `begins` gives it for each bucket, and the theorems hold for all starts inside of the rings.
-- TreeTraits are the template arguments; Lawful asks of them a strict weak order and a search
-- that finds the bound, which both BinarySearch searches by operator() do. FlatMap/Criterion and
-- Halves are about bounds in parts of a list, Backs about the back values, Search puts them
-- together, with the start of a bucket from Start; Positions and Order are about sorted lists;
-- Find, Emplace, Range and RoundTrip have the theorems on the operations.
--
-- TaggedPointer has the one word of tagged_pointer on 64 bits, where the compiler computes on
-- unsigned numbers: the masks, both constructors, ptr, tag, split, set_ptr, set_tag, set, full and
-- set_full. The number of bits for the tag is a parameter, the logarithm of the alignment.
-- TaggedPointer/Digits is about the digits of `|` and `&`, Words says when a word is made of an
-- aligned address and a tag.
--
-- Lock has shared_spinner of seq/lock.hpp, for lock types of more than one byte. Each atomic
-- operation of its functions is a step of a thread; any number of threads take their steps in the
-- order of a schedule, which is arbitrary. Lock/Consistent relates the lock word to the phases of
-- the threads, Lock/Exclusion has the theorems. The word wraps around at `max`, the number of
-- values of the lock type, and the theorems ask for fewer threads than would make it do so. Memory
-- orders are not modelled beyond the order of modifications of the one word; nor are the one-byte
-- variant of try_lock_shared and null_lock. Lock/Spin has spinlock in the same way, with the answers
-- of the clock to try_lock_until as a part of the schedule; Lock/Spin/Holders counts who holds it,
-- Lock/Spin/Progress has the theorem.
--
-- Algorithm has the parts that net_sort is made of: insertion_sort_n, reverse_sort and
-- merge_forward in its three ways (Algorithm), and the merge of two neighbouring ranges in place
-- (Algorithm/Inplace): merge_backward, merge_with_buffer, merge_adaptive_n and inplace_merge. A
-- range is the list of its elements. Algorithm/Stable says what a stable sort gives, for any
-- strict weak order; Insertion and Reversal follow the first two functions. Algorithm/Merging
-- has the merge that all others are compared with, and the first of the ways; its children have
-- a search in an ascending range (Bound), merges of ranges cut in two (Blocks), merges from
-- behind (Backward) and merge_forward as a whole (Forward). Inplace/Split, Checks and Pivot are
-- about the parts of a range, the easy checks and the element between two merges, Merged about
-- the recursion. Algorithm/Runs has the ping-pong merges and merge_sorted_runs_with_buffer for
-- types that are not relocatable; its children have two to four runs (Pairs) and any number of
-- them (Merged). Algorithm/Blocks has atom_sort_8, atom_sort_64 and sort_128 for such types, and
-- Blocks/Sorted the theorem for iterators without random access. Algorithm/Network has the
-- sorting network for eight values, which atom_sort_8 uses with random access; its child
-- Booleans tries it on all lists of eight Booleans, and Sorted carries that over to any values.
-- `random` says whether iterators have random access; lower_bound and upper_bound of the
-- standard library are a parameter, of which the theorems ask that it finds the bound in a
-- partitioned range. merge_adaptive has as much fuel as there are elements: the two calls of a
-- round share all of them but one. merge_runs has as much as there are runs: each of its four
-- calls has fewer. atom_runs has as much as there are values.
-- The functions with a count and no end, insertion_sort_n to sort_128, give none where they read
-- behind the last element. That a merge into the free half of
-- its own range overwrites nothing that is still to be read is not modelled, nor that moves can
-- throw.
--
-- Parameters. The allocator's answer `p` is an argument of each operation that allocates; the
-- theorems ask of it what an allocator promises, an address that is not null of cells that are not
-- in use (Fresh). SEQ_GROW_FACTOR is the function `grown`, of which the theorems ask that it does
-- not shrink a capacity. Whether the element type is relocatable, and whether its move constructor
-- can throw, are the two fields of Traits. The element type can be copied. No object is taken to be
-- left at the source of a memcpy of a relocatable type, though its bytes are: no theorem says that
-- such a type faults.
--
-- Addresses are counted in elements and are natural numbers: alignment and the top of the address
-- space are not modelled. Destructors do not throw. An allocation does not fail. Loops run over
-- the number of elements, so no fuel is needed. A deallocation of cells that still hold objects
-- is not a fault, since a program may skip destructors.
--
-- Not modelled of seq/tiered_vector.hpp: grow_front, resizing and copying of managers, sorting,
-- the iterators, and the operations on ranges. Not modelled of seq/flat_map.hpp: erasure of equal
-- keys, comparisons to a sign, insertion of ranges, merging, assignment and the map's own
-- interface. Not modelled of seq/devector.hpp: reserve_back and reserve_front, insertion and
-- removal in the middle, assignment, swap, iterators and comparison. Not modelled of
-- seq/algorithm.hpp: the merge from both ends for relocatable types, the search for runs, the
-- passes of net_sort, and unique. The other headers are not modelled; tests, benchs (with
-- copies of other libraries), docs and cmake are no part of the model.
pub mod Prelude
pub mod Memory
pub mod Devector
pub mod BinarySearch
pub mod TaggedPointer
pub mod Lock
pub mod CircularBuffer
pub mod BucketManager
pub mod TieredVector
pub mod FlatMap
pub mod Algorithm
