-- ===== src/Lib.antt =====
-- lmdb-js: the write path, environments and transactions, the stored form of values, the order of
-- keys, and the ID lists and pages of the LMDB fork that the repository keeps and compiles into its
-- addon.
--
-- JavaScript writes a batch as a buffer of instructions, which a worker thread reads and carries out
-- in one LMDB transaction (src/writer.cpp, `DoWrites`). The main thread has transactions too, and
-- shares the lock with the worker (src/env.cpp, src/txn.cpp). A value may be compressed before it is
-- stored and is uncompressed when it is read (src/compression.cpp; src/misc.cpp,
-- `getVersionAndUncompress`). LMDB orders the keys by `compareFast` (src/ordered-binary.cpp). Below
-- that, LMDB keeps keys and data as nodes on pages (dependencies/lmdb/libraries/liblmdb/mdb.c), and
-- free, dirty and loose pages in ID lists (midl.c beside it).
--
--   Midl: midl.c and midl.h. A list is a block of cells with its capacity, whose cell 0 is the count;
--   an access behind the last cell is a fault, `none`. `malloc` and `realloc` are the parameter
--   `available`. Midl/Idl has `mdb_midl_alloc`, `_shrink`, `_grow`, `_need`, `_append`,
--   `_append_list`, `_append_range` and `mdb_midl_xappend`; Midl/BinarySearch and Midl/Search the
--   searches; Midl/Merge `mdb_midl_xmerge`; Midl/Sort `mdb_midl_sort`; Midl/Id2l the lists of
--   `MDB_ID2` and `MDB_ID3`, one definition for the two copies of the code. Machine numbers wrap
--   around as in C. The searches run on fuel, the count of the list, which every round makes smaller;
--   the sort on two rounds for each ID and two more, since a split leaves at least one ID in place.
--   OrderedBinary: `compareFast`, on a little-endian machine. A key is its size and the memory from
--   its address on, so that what the code reads behind the end of a key is in the model.
--   Compression: `Compression::compress`, `Compression::decompress` and `getVersionAndUncompress`.
--   LZ4 is the parameter `Lz4`, whose documented behaviour is `IsLossless`. Compression/Handshake is
--   the exchange of the status word between `compressInstruction`, `CompressionWorker` and `DoWrites`,
--   as a relation of the steps that the writer and a thread of the pool take in any order. The writer
--   holds `writingLock` but while it waits, and the pool's thread is started once for a value.
--   Env: the table of environments that the wraps share, with its counts, of src/env.cpp: the
--   constructor, `open`, `openEnv`, `closeEnv` and `close`. LMDB's codes are the parameter `Lmdb`.
--   `closeEnv` begins with `cleanupStrayTxns`, which Txn/Wraps has.
--   Cursor: `doPosition`, `returnEntry`, `iterate` and `getCurrentValue` of src/cursor.cpp. A cursor of
--   LMDB is the parameter `Lmdb`, and the loop that counts runs on fuel, one for each entry.
--   Dbi: `doGetByBinary` and `getByBinary` of src/dbi.cpp, with `valToBinaryFast` of src/misc.cpp. The
--   memory that a read writes to is a list of bytes for each buffer; `mdb_get`, and what is left at
--   the target by a decompression that fails, are parameters. Dbi/Opening has `DbiWrap::open`.
--   Txn: Txn/State is what the transactions of an `EnvWrap` share. Txn/Write has `beginTxn`,
--   `commitTxn` and `abortTxn` of src/env.cpp for write transactions, with `AcquireTxn` and `UnlockTxn`
--   of src/writer.cpp; Txn/Wraps the class `TxnWrap` of src/txn.cpp, and `cleanupStrayTxns`,
--   `getReadTxn` and `resetCurrentReadTxn` of src/env.cpp. LMDB and what the worker's thread does
--   meanwhile are the parameter `Host`; a thread that would wait for itself, or a null pointer, is
--   `none`. The loop of `cleanupStrayTxns` runs on fuel, one for each reader.
--   Writer: `DoWrites`. Writer/Instr reads an instruction from memory, Writer/Kinds has the kinds and
--   flags, Writer/Checks the tests and the calls that change the database (`putWithVersion` of
--   src/misc.cpp is one), Writer/Exec a round of the loop and the loop itself, on fuel, since it
--   waits for instructions without end. LMDB and the other threads are the parameters of Writer/Host.
--   Writer/Waiting has the main thread and the writer together, as a relation of their steps: `Write`,
--   `WaitForCallbacks`, `AcquireTxn`, `UnlockTxn` and `HandleProgressCallback`, with the lock, the
--   signals, `interruptionStatus` and the writer's transaction; what a thread does while it has the
--   lock is one step. LMDB refuses nothing there, and `DoWrites` may return before the end of a
--   batch at flags that are not known.
--   Writer/Blocks says what nested blocks mean and Writer/Blocks/Depths that the two counters of the
--   loop carry it out.
--   Pages: the pages of dependencies/lmdb/libraries/liblmdb/mdb.c. Pages/Compare has `mdb_cmp_long`,
--   `mdb_cmp_int`, `mdb_cmp_cint`, `mdb_cmp_memn` and `mdb_cmp_memnr`, Pages/Search `mdb_node_search`,
--   with fuel for one round per key, Pages/Nodes `mdb_node_del` and Pages/Adding `mdb_node_add`, with
--   `mdb_page_new` as a parameter, Pages/Sizes `mdb_leaf_size`. A page's slots and its nodes are two
--   functions, since they are apart in memory.
--   Tests: runs on concrete data.
--
-- Not modelled: the bindings to V8 and the reading of options, the other operations of
-- databases, what LMDB refuses while the writer waits, the counts of references to wrapped
-- objects, and the rest of LMDB. In the writer, `free` of a compressed value and output to the
-- console are left out, and the return code of `WaitForCallbacks` is not looked at, as in the code.
pub mod Prelude
pub mod Midl
pub mod OrderedBinary
pub mod Compression
pub mod Writer
pub mod Pages
pub mod Txn
pub mod Env
pub mod Cursor
pub mod Dbi
pub mod Tests
