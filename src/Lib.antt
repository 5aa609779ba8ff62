-- ===== src/Lib.antt =====
-- CBList, the dynamic graph store of GastCoCo: every vertex keeps its neighbours in a level-1
-- chunk, and when that is full, in a B+ tree whose leaf chunks form a chain.
--
-- The files and the code that they model:
--
-- - ChunkSize: CBList/cblist_chunk_size.hpp, the capacities for each value of CM.
-- - Types: other/type.hpp, and `union nextPointer` of CBList/cblist.hpp.
-- - Leaf: `struct LeafChunk` of CBList/cblist.hpp with `Insert` and `Split`. The cells of its array
--   are a list; a loop that shifts cells is a function of the number of its rounds. Leaf/Insert and
--   Leaf/Split have the lemmas.
-- - Tree: `struct InterNode`, `class BplusTree` with `Find`, `Insert`, `InsertKnowPos`, `Add_Node`,
--   `GetLeafStart`, `GetLeafEnd`. Leaf chunks live in a heap by address, since the tree and the
--   chain of `nextPtr` fields share them; an inner node has one parent and stands in the tree by
--   value. The `Parent` fields from a node up to the root are the path that `find` returns: which
--   side of each key the search took. An insertion rebuilds the tree along the path, where the C++
--   code writes it. Tree/Items, Tree/Order and Tree/Rows flatten a tree to its row of leaf
--   addresses and separators; Tree/Valid says when a row is valid; Tree/Grow, Tree/Divide and
--   Tree/Halved treat the splits, Tree/Search the search, Tree/Chain the chain of the leaf chunks,
--   Tree/Insert and Tree/Correct the whole insertion, Tree/Frame what it leaves alone, Tree/Ends
--   the descents to both ends, Tree/Shape and Tree/Balance the height.
-- - Vertex: `struct Lv1Chunk`, `class CBLNode` with `Insert`, and its change from the first form to
--   the second. Vertex/Valid has the two forms, Vertex/Read `ReadEdgeOut`, `ReadEdgeIn`,
--   `GetNeighborOut` and `GetNeighborIn` for one vertex, Vertex/Iterator `EdgeIterator`.
-- - Graph: the tables of `class CBList` with `InsertEdgeOut`, `InsertEdgeIn`, their VLock forms
--   with the locks as flags, and the readers by index. Each table has a store of its own, since no
--   chunk of one is reached from the other. Graph/Valid has the invariant of a table, Graph/Insert,
--   Graph/Edge and Graph/Read the theorems. Graph/Load: the constructor from the list of edges to
--   the chains; a parallel loop inserts the edges in some order of the list. Graph/Construct: the
--   constructors with a path, from the binary file to the chain. Graph/Chain: `ConnectGTChain`, and
--   the loop of `pagerank_one_iter` in app/copagerank.hpp as the list of the units that it visits.
-- - Slice: the divisions of other/slice_for_cbl_coro.hpp and other/slice_task.hpp. Slice/Even has
--   the equal slices, Slice/Balanced and Slice/Greedy the rounds of the loop that cuts by chunks,
--   Slice/Whole the loop.
-- - Parallel: the loops of CBList/graph_coro.hpp in which threads take chunks of 64 vertices from
--   their ranges and then from those of others. A state has the ranges and the place of each thread
--   in the code; a step is one atomic action of one thread, and a schedule is a list of threads, so
--   that every interleaving is a list. What a chunk is, whether the loop steals, and whether it
--   tries an empty range again are the fields of a record, one record for each method.
--   Parallel/Invariant has the balance of processed, pending and remaining vertices, Parallel/Moves
--   and Parallel/Steps that each step keeps it, Parallel/Runs schedules, Parallel/Chunks the chunks
--   of the methods, Parallel/Once and Parallel/Loops the methods from their slices on.
-- - Atomic: other/atomic.hpp, with steps and schedules as in Parallel. Atomic/Total has `write_add`
--   and `write_sub`, Atomic/Least `write_min`; `cas` returns false on a word that changed, and the
--   loops try again.
-- - GraphIo: other/graph_io.hpp. A binary file is a number of words; a text file comes as its lines
--   with the numbers that stream input reads from them, and rand() and the contents of new memory
--   as parameters. A read behind the end of a file leaves the cells as they were. GraphIo/Binary
--   has the readers of binary files, GraphIo/Text those of text files.
-- - TransBinary: others/dataproc/TransBinary.cpp, which writes the binary files; TransBinary/Blocks
--   has the blocks, TransBinary/RoundTrip the way to the readers and back.
-- - VertexRemap: others/dataproc/VertexRemap.cpp; VertexRemap/Ranks has the new numbers of the
--   vertices, VertexRemap/Restore the way back.
-- - Tests, GraphTests, SliceTests, ParallelTests, IoTests, AtomicTests: runs on small inputs.
--
-- Numbers: the counters and identifiers of the code are `uint32_t`. `NeighboorCnt` and the count of
-- a level-1 chunk wrap at 2^32 in the model; the counts of a leaf chunk and of an inner node are at
-- most the capacities of their arrays, and are natural numbers. The index `dest` is compared and
-- copied only, so a number stands for it. Where the code uses `int`, the readers and writers of
-- files and the renumbering are `none` for an index that overflows, the iterator converts
-- `NeighboorCnt`, and the slices are natural numbers, which what uses them bounds by 2^31. A loop
-- of coroutines takes their number and is there for two of them only, since the code sets two
-- handles of each chunk.
--
-- Fuel is used for the traversal of the chain, where as many rounds as the vertices have chunks are
-- enough, since each round visits one, and for the loop of the slices, where the vertices and the
-- slices bound the rounds. The loops over arrays recurse on the number of rounds that are left, and
-- those along the tree on the tree or the path. A read through a null pointer, or through the wrong
-- member of the union, is `none`.
--
-- An insertion is stated for a neighbour that the vertex does not have yet. With many equal
-- neighbours `InterNode::Insert` puts a separator before an equal one, and the search can miss
-- units; the code does not test for it.
--
-- Not modelled: the parsing of text and the failures of files, printing, the sums that the parallel
-- loops return, the sparse loops over edges, which start from slices that the class never makes,
-- the coroutine frames and their allocator, the binding of threads to cores, prefetching, and the
-- code of the PBBS library in rmat_util.hpp.
pub mod Prelude
pub mod Types
pub mod ChunkSize
pub mod Leaf
pub mod Tree
pub mod Vertex
pub mod Graph
pub mod Slice
pub mod Parallel
pub mod Atomic
pub mod GraphIo
pub mod TransBinary
pub mod VertexRemap
mod Tests
mod GraphTests
mod SliceTests
mod ParallelTests
mod IoTests
mod AtomicTests
