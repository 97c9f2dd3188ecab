-- ===== src/Lib.antt =====
--
-- scratch: a log-structured merge store of fixed-size keys and values, as the master process under
-- scratch/ runs it.
--
-- The parts. A write goes to an in-memory search tree with a log
-- (scratch/include/RBTree/rbtree.hpp) and to a Bloom filter with a file
-- (scratch/include/Bloom/bloom.hpp). A tree of 1024 nodes is handed over and becomes the reserve; a
-- background thread merges the two oldest of ten level files (scratch/include/Core/Merge.hpp) and
-- dumps the reserve over the oldest, which is then the most recent. A read asks the filter, then
-- both trees, then the level files from the most recent one on, by a binary search
-- (scratch/include/Core/Read.hpp) through block buffers (scratch/src/BufferManager/FileIO.cpp). All
-- this is put together in scratch/src/master.cpp.
--
-- The files. Key: `K`, `V` and their bytes. Order: what the templates ask of a key type. Layout:
-- the bytes of a value and `isTomb`. Level: a level file as a first block and entries. Assoc: runs
-- of entries, the common view of trees and files. Tree: the nodes and the pointer walks of
-- `_search`, `insert`, `del`, and the loops of `dump` and `_free`. BinaryTree: the object with its
-- size, log and stack; its child Log has `fromFile`, LogFile the names and streams of logs, and
-- Sizes `check` and the constructors with a first node. Merge: `merge_files`, with the recursion
-- that it implements in Merge.Reference. Bloom: `BloomFile` and `Bloom`. FileIo: `FileIO`, with the
-- order of its queue in FileIo.Recency and FileIo.Evict. Read: `findEntry` over the interface
-- `Pager`, which Read.Paged fills with FileIo; Read.Searcher has the open, search and close of a
-- level file, behind the interface `Searcher`, which `dbread` takes. Master: `dbread`, `dbwrite`,
-- `adjust` and the hand-over that `serve` makes; Master.View says what the store stands for,
-- Master.Steps puts the operations in sequence, Master.Boot has the constructor, Master.Stamps the
-- times by which it finds the most recent file, and Master.Serve the lines of a batch file;
-- Serve.Lines is about the lines as data/datagen.py writes them, Serve.Objects about their words,
-- and Serve.Threads has the threads of `run` in their serial runs, in which no other thread has a
-- step within a line or a merge. Setup is fs.cpp, and Setup.Run the whole program behind it.
-- Master.Race has `dbread` and `adjust` cut at their locks, each part one step, with the writes and
-- the hand-over of other threads, and the searches of other reads in the frames that all of them
-- share, between any two of them; one search of a file is one step: Race.View and Race.Moves say
-- what the steps keep, Race.Place and Race.Reader what a read relies on, Race.Arrives and
-- Race.Answers what it answers, Race.Turns and Race.Ends are about its end, Race.Alone about a
-- thread that nothing disturbs. Samples and the Tests modules hold sample data and runs.
--
-- The state. Pointers into a tree are paths from its root, since no two nodes share a child. A log
-- and a level file are lists of entries; Read.Paged relates entries to bytes. Words of keys and
-- values are numbers; where the bytes matter, they are below 2^64. The contents of files behind
-- handles are a parameter of FileIo. `dbread` opens one file at a time, so `openFile` gives the
-- same handle each time, a parameter of Read.Searcher. `none` stands for a fault of the code (a
-- null pointer, a read outside of a block or of a key, an exception, an exit) or for the end of the
-- fuel.
--
-- Fuel. `dump` and `_free` have one more than the nodes of the tree, `merge_files` in `adjust` one
-- more than the entries of both files, the binary search one more than its range, the loops of
-- `dbread` eleven for ten files, and the search for the most recent file ten. The results that run
-- these say that the run ends.
--
-- Not modelled: the steps of two reads within the search of one file, where they share the static
-- frames of `FileIO` with no lock; a run of all threads of `run` in which those steps fall between
-- each other (a read among other threads is in Master.Race, lines one after the other in
-- Master.Serve); `openFile`, `flushFile`; a file that cannot be created; the byte form of a log;
-- time stamps, but as bytes of a first block and as numbers that a parameter (`strptime`, `mktime`)
-- makes of them; the tests, and the copy of a PostgreSQL extension in pglsm-docker.
pub mod Prelude
pub mod Order
pub mod Key
pub mod Layout
pub mod Assoc
pub mod Tree
pub mod Level
pub mod BinaryTree
pub mod Merge
pub mod Bloom
pub mod FileIo
pub mod Read
pub mod Master
pub mod Setup
pub mod Samples
