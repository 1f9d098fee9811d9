-- ===== src/Lib.antt =====
-- PipeANN: approximate nearest-neighbour search and in-place updates of a graph index on SSD.
--
-- The program keeps a graph of records on disk. A search walks it from an entry point with a
-- bounded, sorted pool of candidates, which drives the reads of records and the distances computed;
-- the best candidates become the answer. A visited set keeps ids from being scanned twice. An insert
-- finds neighbours by such a search, allocates locations for the new record and for the records of
-- its neighbours, prunes full neighbour lists, writes the pages, and moves the ids to their new
-- locations. Locks by page and by id make the searches and the inserts of several threads safe.
-- A filtered search asks a selector, a tree of conditions on the attributes of a vector, for the
-- ids that may match before the search, for a quick test in memory during it, and for the exact
-- test once a record has been read. A query in a subset of SQL is turned into the text of a
-- document, and the document is compiled to such a tree and to records of its operands.
--
-- The parts, their files here and their code:
--   Base (Base/Tests, Base/Lists): names of the libraries, Boolean tests, lists over native numbers.
--   Neighbor: struct Neighbor and its order, include/utils.h.
--   Pool: struct CandidatePool, include/candidate_pool.h. `insert_into_pool` is split as its code is:
--     `bisect`, `equal_id`, `insert_between`, `shift_in`. Pool/Position has its search and its place,
--     Pool/Insert the insertion, Pool/Frontier the cursors, Pool/Window the window as a whole.
--   Layout: SSDIndexMetadata and DiskNode, include/ssd_index_defs.h. Layout/Bytes and Layout/Header
--     are the metadata sector byte by byte, Layout/Sectors the places of records.
--   Locations: the maps between ids and locations and their allocator, src/ssd_index.cpp and
--     include/ssd_index.h. Locations/Tables has the maps, Locations/Alloc `alloc_loc` step by step,
--     Locations/Relocate the update at the end of `insert_in_place` (src/update/direct_insert.cpp),
--     Locations/Load the maps of a new index and the first loop of `verify_id2loc`, Locations/Verify that
--     function as a whole. Claims, Resize, Pages, Fresh and Assign are the proofs about them.
--   Locks: include/utils/lock_table.h. Locks/Spin is RWSpinLock as a step relation on its state and
--     its threads, Locks/Table the callbacks of SparseLockTable with the heap of its locks,
--     Locks/Order `get_to_lock_idx`, Locks/Round a round of `lock_idx` (src/ssd_index.cpp). Exclusion,
--     Pinned and Safety are the proofs.
--   Prune: `get_occlude_factor` and `delta_prune_neighbors`, include/utils/prune_neighbors.h.
--   Answer: `id2tag` and `copy_top_k`, src/ssd_index.cpp.
--   Queue: SPSCQueue, include/utils/concurrent_queue.h. Queue/Gap counts around the ring, Queue/Fifo
--     is about the queue.
--   VisitedSet: FlatVisitedSet, include/utils/visited_set.h. VisitedSet/Walk is about the probes,
--     VisitedSet/Fill and VisitedSet/Grow about a table that is filled, VisitedSet/Refine about the
--     set.
--   Filter/Ids: the operations on sorted lists of ids, include/filter/filter_utils.h.
--   Filter/Bloom: struct BloomFilter, include/filter/attribute.h, on the bytes of its slice; Bloom/Rounds,
--     Bloom/Holds and Bloom/Total are about what it answers.
--   Filter/Labels: InvertedLabelAttrIndex, include/filter/attribute.h, the side of the queries.
--     Labels/Lists is about the lists of ids, Labels/Conjunction about their intersection,
--     Labels/Members about the vectors that are accepted.
--   Filter/Attributes, Text, Prefix, Like (Like/Loop): include/filter/attribute.h. Attributes is the
--     struct of that name with its bytes on disk, Text the string attributes and the tests on them,
--     Ended the texts that a NUL ends, Prefix the range of texts with one prefix, Like the loop of `like_match`.
--   Filter/Selector: include/filter/selector.h: the leaf classes behind the interface `AttrIndex` of
--     an index, and the composite selectors AND and OR over them. PreFilter, InFilter, Member, Reads,
--     Records, Precision and Selectivity are their operations and proofs about them; Ordered is about
--     the branches of a conjunction by their selectivity; Locked follows the locks of the indexes, Exact is about the ids of
--     `pre_filter`, Complete about `is_member_approx`, Complement and Negation about NOT.
--   Filter/Sql: the SQL front end of include/filter/dsl_compiler.h. Sql/Json writes its texts,
--     Sql/Values and Sql/Grammar are the parser, Sql/Sizes, Sql/Ends and Sql/Stops count the tokens
--     that it takes, Sql/Quote is about quoted texts, Sql/ShortCode about control characters
--     in them.
--   Filter/Compile: DSLCompiler of the same file, from a document to selectors and records.
--     Compile/Nodes compiles a node, Compile/Interval is about comparisons, Compile/Slots about
--     placeholders.
-- How they meet: Pool holds the candidates that Answer copies out; Layout says where a location
-- lies on disk; Locations hands out locations and is told the moves of an insert; Prune bounds the
-- neighbour lists that the insert writes; Locks orders the inserts. The text that Filter/Sql writes
-- is read by picojson into the document that Filter/Compile takes; the tree that Filter/Compile makes
-- is a `Selector`, whose leaves ask an `AttrIndex`; its operands come to it as the records of a query,
-- in the layout that Filter/Attributes and the leaves read back.
--
-- Numbers: ids, locations, offsets and counters are natural numbers. Ids and locations stay below
-- the two reserved ids 0xFFFFFFFE and 0xFFFFFFFF; where a theorem needs such a bound it is one of
-- its hypotheses. A distance in Pool and Answer is the place of the float among the floats that are
-- not NaN, since that code only compares distances; in Prune the arithmetic of floats is a
-- parameter. The state of a spin lock is an `int` with a sign.
--
-- Fuel: `align` of alloc_loc runs `nnodes_per_sector` rounds, since the next page starts at most that
-- many locations on. The searches of the pool run on the length of the window. A probe of the
-- visited set goes once around the table, half of which is empty. The rounds of the fast path of
-- delta_prune_neighbors are an argument: how often alpha can be divided depends on the floats.
-- like_match is given (|s| + 2) * (|p| + 1) rounds: a retry moves the mark on in the text, and between
-- two retries the pattern is gone through once at most. The parser of SQL has 3 * length + 6 calls nested, more than three for
-- each token. Records of a query are read on the length of the query.
--
-- Failure: `crashed` stands for a call of crash(), `undefined` for an access out of bounds or a
-- remainder by zero, `none` for a refused load, for an exception, and for a read out of bounds in
-- the filters.
--
-- Not modelled: the search loops and the graph build, page I/O and its caches, quantizers and
-- distance kernels, the sorted and text indexes of attributes on disk (behind `AttrIndex`), the files
-- and the updates of the inverted index, the configuration files
-- and label matrices of the filters, `estimate_precision` of a composite selector, the position in a
-- parse error, the server, the Python bindings, and the libraries that the repository carries
-- (liburing, libcuckoo, tsl, picojson, CityHash). A concurrent map is a parameter, or its callbacks
-- are steps; doubles in estimates and in intervals are bit patterns whose arithmetic is a parameter
-- (`Doubles`). The resize locks of the
-- maps and `alloc_lock` make an operation of Locations one step; the builds NO_MAPPING,
-- NO_POLLUTE_ORIGINAL, IN_PLACE_RECORD_UPDATE and READ_ONLY_TESTS are left out.
pub mod Base
pub mod Neighbor
pub mod Pool
pub mod Filter
pub mod Layout
pub mod Locations
pub mod Locks
pub mod Prune
pub mod Answer
pub mod Queue
pub mod VisitedSet
