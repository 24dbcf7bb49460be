-- ===== src/Lib.antt =====
-- A model of the legendary-journey kernel, with proofs.
--
-- The kernel is a 32-bit operating system: a FAT32 volume on an ATA drive, a keyboard, a heap of
-- pages, a text screen and a shell. Each file below models one source file; the functions keep the
-- names of the source. The modules are listed with the file that they translate.
--
-- - Base: shared notation. `Words` is the wrap-around arithmetic of uint32_t, `Lists` and `Blocks`
--   are sequences and memory, `Bits` the bits of a word.
-- - RingBuf (src/kernel/util/ringbuf.c): the byte ring. `Queue.contents` is the sequence of bytes held, which
--   `Put` and `Take` are proved against.
-- - Kbd (src/kernel/drivers/kbd.c and kbd.h): the keyboard interrupt and the readers of its ring.
--   The byte that port 0x60 delivers is an argument. Each `halt` of the blocking reader consumes
--   one scancode from a list, so the reader is total and `none` is a reader still asleep.
-- - Errno (src/common/std.h): the error numbers.
-- - Ata (src/kernel/disk/ata.c): sector reads and writes on a drive of which some sectors raise ERR.
-- - Fat (src/kernel/disk/fat.c, src/common/fat.h and fatdefs.h): the allocation table behind a cache of eight of its
--   sectors. `Covered` and the modules on chains speak of a table that fits into the cache, `Window` of
--   a larger one. The loops that follow a chain take fuel, and the theorems ask only for as much fuel as
--   the chain has clusters. Memory is a function from index to byte, an entry four bytes of it.
-- - Std (src/kernel/std.c): memory and string functions over one memory of bytes, with
--   pointers as addresses. `Strings.CString` says that a string stands at an address.
-- - Kalloc (src/kernel/memory/kalloc.c): the free list, which runs through the pages themselves.
--   `Pages.IsFree` says which list of pages that is. The addresses of the linker and of the build are a
--   record `Layout`.
-- - Paging (src/kernel/memory/virtmem.c, src/common/mmu.h): page directories in the memory of Kalloc.
--   `Walk.translate` is what the processor does with an address, `Table` is `walkpgdir` and `Map` is
--   `pg_map` against it. `none` is a stop of the machine or a NULL pointer that is followed; loops over a range that may wrap round take fuel.
-- - Cpu (src/kernel/cpu/idt.c, isr.c, irq.c, gdt.c and isrstubs.h): the interrupt table, the handlers
--   and the interrupt controllers. The bytes written to ports are a list. What a handler does is a parameter.
-- - Timer (src/kernel/drivers/timer.c): ticks and waits, over the list of the interrupts to come.
-- - File (src/kernel/disk/file.c, src/common/file.h): an open file with its buffered sector. `Io` and
--   `Write` are the reading and writing loops. The caller's data is a block indexed from 0. Theorems
--   on resizing take the fuel of the loop that frees a chain. `Seek.Holds` says that a buffer
--   holds a sector of the drive.
--   `Stream` names the sectors that a file has ahead of it, `Read` the rounds of the reading loop and
--   `Delivered` the whole of a read; `Place` and `At` are a read at any position.
-- - Dir (src/kernel/disk/file.c and path.c, src/common/fatdefs.h): directories as files of 32-byte entries.
--   `Create` is the creation and closing of files, and `Open` the opening by path, in a memory that holds the
--   path. What uninitialised buffers held before is an argument. Fuel bounds the lengths of chains, of the path and of its
--   components. `Search` is what a search finds.
-- - Elf (src/kernel/user/elf.c and user_functions.c, src/common/elf.h): the loader, over the memory of Kalloc and an open
--   file. `Header` reads headers and loads segments, `Load` is `elfread`, with its locals as a record.
--   The table of functions stands in memory. `none` is a stop of the machine in `kfree`.
-- - Path (src/kernel/disk/path.c): paths as strings in memory. `Simplify` and `Join` hold
--   `path_simplify`, `path_concat` and `path_load`. The pointers of `path_simplify`
--   are addresses that do not wrap round, and its main loop has as many rounds as the path has characters, of which each
--   round takes one.
-- - Names (src/kernel/disk/fat.c): the 8.3 names of directory entries, in memory.
-- - BootFat (src/boot/stage2/fat.c and ata.c): the allocation table of the second boot stage, of which one sector
--   is cached. `Chain` reads its entries and chains. The loop on a chain takes fuel, at most as much as the chain has clusters.
-- - BootFile (src/boot/stage2/file.c): the reading of open files in the second boot stage. `Overrun` is a read over
--   the end of a sector.
-- - BootScreen (src/boot/stage2/write.c): the text screen of the second boot stage.
-- - Screen (src/kernel/graphics/printf.c): the words of the video memory, the cursor and the color.
--   `Print` is numbers and formats; a format and its strings stand in a memory of bytes, and the
--   arguments are the words behind the format. Loops that end only at a null byte take fuel.
-- - Shell (src/kernel/user/shell.c): the loop that reads a command, over the list of the characters
--   that the keyboard delivers. The line that the keys edit is `Line.edit`. `Exec` (with shell_builtins.c) cuts a
--   command into arguments, in a memory that holds it, and runs it; fuel bounds its length.
-- - Program (src/kernel/user/program.c and user_functions.c): starting and ending programs, and their calls on
--   files and on the directory. The allocator librmalloc is the record `Heap`, a parameter. `Calls` are the
--   calls, `Files` what they do with the table of files of a program.
--
-- Not modelled: the paths, the loader and the file names of the second boot stage, whose other functions repeat the kernel's, port traffic
-- within a sector, messages of failures, the assembly files, the copied allocator librmalloc.h, and
-- the user library with the programs that use it.
pub mod Base
pub mod Dir
pub mod Elf
pub mod Program
pub mod Errno
pub mod RingBuf
pub mod Kbd
pub mod Ata
pub mod Fat
pub mod Std
pub mod Kalloc
pub mod Paging
pub mod File
pub mod Screen
pub mod Cpu
pub mod Path
pub mod Names
pub mod BootFat
pub mod BootFile
pub mod BootScreen
pub mod Timer
pub mod Shell
