-- ===== src/Lib.antt =====
-- The memory and storage core of the JSD/OS kernel: the physical and the virtual memory manager, the
-- kernel's locks, the block cache that drives are read and written through, the FAT driver's allocation
-- table, the ext2 driver's bitmaps and block map, and the kernel's hash map and Unicode conversions.
--
-- The parts and how they meet. The physical memory manager (kernel/physical_manager.cpp) keeps the free
-- memory as an ordered list of blocks. The virtual one (kernel/memorymanager.cpp) takes page tables and
-- frames from it, and maps a page when it is asked for or at its first access. A drive
-- (kernel/filesystem/drives.cpp) caches lines of blocks; a read or write of bytes is cut into chunks by
-- kernel/filesystem/util.h, and each chunk goes through the cache or, where it is many whole blocks,
-- around it. The FAT driver (drivers/formats/fat.cpp) reads and writes its table as bytes of a partition,
-- and keeps files as chains of clusters in it; the ext2 driver (drivers/formats/ext2.cpp) keeps bitmaps
-- of its blocks and finds a file's blocks by a tree of pointers. Open files
-- (kernel/filesystem/streams.cpp) are read and written through such a driver. Long names are turned
-- between UTF-8 and UTF-16 by kernel/util/unicode.h, and kernel/util/hash.h is the map of names and
-- addresses that the kernel's tables use.
--
-- The files, by the code they are about:
-- - Prelude: shared names, Boolean tests, lists, words of 32 bits and lemmas on masks and shifts.
-- - Physical: kernel/physical_manager.cpp with `align_addr` of common/util.h. The list of free blocks
--   is a list of `Block`; `physical_memory_reserve`, `physical_memory_free`, `physical_memory_allocate`,
--   `physical_memory_allocate_in_range` and `physical_memory_init` take it and return it.
-- - Paging: kernel/memorymanager.cpp. `AddressSpace` is the current page directory with the frames of its
--   tables and the free memory; Paging.Separate has the address spaces whose tables have frames of their own. Paging.Search is the search for pages, Paging.NewPages the mapping at new pages;
--   Paging.Lazy has the pages of `memmanager_virtual_alloc`, the page faults and the release of pages.
-- - Locks: kernel/locks.cpp and kernel/locks.h. `Move` has the steps of `upgradable_shared_mutex`, one for
--   each atomic operation; `System` is the lock with its tasks.
-- - Chunks: `fs_chunks` and its functions in kernel/filesystem/util.h. Chunks.Blocks is what the chunks make of
--   a file whose blocks a driver finds by their numbers.
-- - BlockCache: kernel/filesystem/drives.cpp. `Drive` is `filesystem_drive` with its cache and with the
--   medium behind the disk driver; BlockCache.Disk has the reads and writes of bytes.
-- - Fat: drivers/formats/fat.cpp. `Volume` is a partition's bytes with the driver's record; Fat.Clusters
--   has the operations on chains with Fat.Clusters.Reading for the reads, Fat.Boot the boot block and Fat.Entries the directory entries.
-- - Ext2: drivers/formats/ext2.cpp. `Ext2Fs` is what the driver keeps of a partition, with its bytes;
--   Ext2.Bitmap, Ext2.Groups, Ext2.Pointers, Ext2.Reading and Ext2.Growth are about its operations.
-- - Streams: kernel/filesystem/streams.cpp over any driver, which is the parameter `FsDriver`.
-- - Unicode: kernel/util/unicode.h, on lists of units.
-- - HashMap: kernel/util/hash.h, for any key, hash and comparison.
-- Each has an Examples module with the theorems at concrete inputs.
--
-- Numbers are natural; a 32-bit size wraps by `% 2 ^ 32` where the code's does. Loops over a list are
-- recursions on it, and loops over pages, tables and entries are recursions on how many are left. Two
-- loops run on fuel: the search of the FAT for free clusters, whose cluster grows in every round and
-- stays below the number of clusters, which is the fuel; and the decoders' loops over a string, where
-- every character takes a unit and the fuel is the length.
--
-- What is not modelled: the locking in the other components (an operation runs alone), condition
-- variables, the order of memory accesses, the contents of pages and the translation cache, the fixed
-- capacity of the array of free blocks, allocation of host memory, and the contents of device drivers: a
-- medium is a function from addresses to bytes, which a disk driver reads and writes at whole blocks.
-- Failed assertions stop the kernel; the virtual memory manager and the streams return `none` there, and
-- elsewhere their conditions are hypotheses where a theorem needs them.
pub mod Prelude
pub mod Physical
pub mod Chunks
pub mod BlockCache
pub mod Ext2
pub mod Fat
pub mod Unicode
pub mod HashMap
pub mod Streams
pub mod Locks
pub mod Paging
