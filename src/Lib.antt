-- ===== src/Lib.antt =====
-- Models of the core of amitools, a set of tools for AmigaOS disks, files and binaries, and of its
-- run-time vamos, with proofs about them. vamos keeps the memory of the emulated machine: its
-- allocator hands out the memory in which Exec's lists, nodes and the other structures stand, its
-- scheduler switches between the tasks, and its path manager works on Amiga paths. The file system
-- reads and writes a volume in blocks of 32-bit longs, a bitmap says which of them are free, and a
-- geometry lays the blocks out on a disk. The rigid disk blocks of a hard disk say which cylinders
-- its partitions have, and keep the file systems that these need. The ROM tools check and make
-- Kickstart ROMs. The DOS library of vamos matches names against AmigaDOS patterns.
--
-- The parts, and the files that model them:
-- - Prelude.antt: shared names, with children for lists and dicts, the bits and bytes of numbers,
--   integers by their sign, and the tests of comparisons.
-- - Alloc.antt: MemoryAlloc of amitools/vamos/mem/alloc.py. The record MemoryAlloc has the fields
--   of the class; the linked free list is the list of its chunks, and a pointer into it is a
--   Position, the chunks before it (nearest first), itself and those behind. alloc_mem, free_mem
--   and their helpers keep the names of the methods without the underscore; take_chunk and release
--   are what alloc_mem does after its search and free_mem after its checks. A failed assertion or a
--   raised error is a value of Error. `calls` logs the calls of the memory that the allocator
--   makes.
-- - ExecList.antt: MinList and List of amitools/vamos/libtypes/list_.py, and NodeBase.remove of
--   node.py. The memory is a function from addresses to longs, since the operations read and write
--   nothing else; longs less than 4 bytes apart would share bytes, which those of nodes that do not
--   overlap never are. A node is its address, and the null pointer 0 is None. The priority of a
--   node is a byte of the long 8 bytes behind it.
-- - Fs/Bitmap.antt: ADFSBitmap of amitools/fs/ADFSBitmap.py. bitmap_data is a list of bytes, and an
--   access behind its end is none, for struct.error.
-- - Fs/Block.antt: Block of amitools/fs/block/Block.py. The device is a parameter: read is given
--   the bytes that read_block returns, and what write passes to write_block is the data it leaves.
-- - Fs/Geometry.antt: DiskGeometry of amitools/fs/blkdev/DiskGeometry.py. The options, a dict of
--   strings there, are a record of the numbers in them; the size of an image that they name, and
--   the size that a string stands for, are part of that record. The loop of the second guess is
--   halve.
-- - Fs/Rdb.antt: RDisk of amitools/fs/rdb/RDisk.py, with Partition.py and FileSystem.py beside it.
--   The device holds blocks by their kind and fields, those that PartitionBlock, FSHeaderBlock,
--   LoadSegBlock and RDBlock of amitools/fs/block/rdb keep: write stores a block, and read succeeds
--   on one of its kind. Writing the block of a partition, or the header of a new file system,
--   raises where a number does not fit its long or a name is too long, as struct and the assertion
--   on names do. Edit.antt, Remove.antt, Resize.antt and FileSystems.antt have the operations; what
--   one raises is an Outcome, beside the state that it leaves. Made.antt is what the operations
--   come to when nothing is raised. blk_off is what PartBlockDevice.open of
--   amitools/fs/blkdev/PartBlockDevice.py finds as the first block of a partition.
-- - Schedule.antt: Scheduler of amitools/vamos/schedule/scheduler.py, with TaskBase of task.py. The
--   store of the tasks is a function. Greenlets are explicit: System.active is the one that runs,
--   and Task.place where a task goes on. A step is an Action of the task that runs, or a round of
--   the main loop; `events` logs what the hooks are called with. Tasks are added from the main
--   greenlet.
-- - MemCache.antt: MemoryCache of amitools/vamos/mem/cache.py, with the blocks and strings in
--   MemCache/Blocks.antt. What a method raises is a value of CacheError. `immutable` says whether
--   the bytes are a bytearray or, after read_cache, a bytes object.
-- - AmiPath.antt: AmiPath of amitools/vamos/path/amipath.py. A path is its string, a list of code
--   points; Prelude/Strs.antt has the methods of Python's str that it calls.
-- - KickRom.antt: KickRomAccess of amitools/rom/kickrom.py and its parent RomAccess of
--   romaccess.py. The data is a list of bytes, and a raised error is none. A negative offset counts
--   from the end, as Python's struct has it.
-- - DosPattern.antt: pattern_parse and pattern_match of amitools/vamos/lib/dos/PatternMatch.py, in
--   Parse.antt and Match.antt. A token is a code point, as it is there; the state of the parser is
--   a Parsing, that of the matcher a Matching, whose stack and history are those of MarkerStack.
--   The lower case of one character, an argument, is one character.
-- Each directory beside such a file has its proofs, and a module Tests with runs and concrete
-- inputs.
--
-- Subtraction on the natural numbers stops at 0. The allocator's free_bytes and free_entries would
-- only meet that in a state outside the invariant IsValid of Alloc/Valid.antt. Counts that Python
-- lets go below 0, such as num_used of the bitmap, are integers.
--
-- Loops run over a list or over the number of rounds that the source gives. The walks along an Exec
-- list have fuel; a walk visits each node once, so one more than the number of nodes is enough. The
-- loop that halves the cylinders of a disk has them as fuel, and ends before. A round of
-- pattern_parse takes a character at least, so the length of the source, and one, is enough. The
-- matcher tries the rest of a string again for every wildcard; match_fuel bounds that for patterns
-- of characters, ? and #?. The chains of blocks of a rigid disk are read on fuel; one more than the
-- number of blocks in the chain is enough.
--
-- Not modelled: the dump and print functions; the methods of MemoryAlloc that make Memory objects
-- and labels, and the log; find_name, get_path and the promotion of nodes; reading and writing the
-- bitmap's blocks; BCPL strings, byte runs, signed longs and timestamps in blocks, and the device
-- below the blocks; the places of the longs in the blocks of a rigid disk, the fields that the
-- operations only pass on, its texts and maps, and the search of a partition by its name;
-- rem_task, the callbacks of the scheduler and tasks that tasks add; the lower case of paths,
-- which depends on the tables of Unicode; the loading of ROM files. The loader of programs, the
-- libraries, the assigns and volumes of paths, the file system's directories and files, the tools
-- that split and patch ROMs and the command lines have no model. The CPU emulator is not part of
-- the repository.
pub mod Prelude
pub mod Alloc
pub mod AmiPath
pub mod DosPattern
pub mod ExecList
pub mod Fs
pub mod KickRom
pub mod MemCache
pub mod Schedule
