-- ===== src/Lib.antt =====
-- Serra, an x86 boot manager: the parts of its kernel-side library that find memory and partitions, the
-- FAT reader, the memory map and the page tables of its legacy loader, and the formatted output and the text
-- console of the kernel.
--
-- The parts and the files that model them (paths from the repository's root):
-- - Text: Common/Kernel/Libraries/String.c. Strlen, StrlenWide, Strrev and Itoa are `strlen`,
--   `strlen_wide`, `strrev` and `itoa`, on the list of the cells of an array; a read or a write outside
--   is `none`.
-- - Memory: Common/Kernel/Memory/Memory.c. Memcmp, Memcpy, Memmove, Memset and MemsetBlock act on the
--   function from an address to its byte.
-- - Mm: Common/Kernel/Memory/Mm.c and Memory.h. State has the nodes, the memory map and the lists of
--   free blocks; Level the search for a level; Block has PushBlock, PopBlock and DivideBlock; Release
--   FreeBlock and MergeBlock; Init the initializer; Allocator has Allocate, Free and the self-test.
-- - Crc: Common/Kernel/Disk/Fs/Crc32.c. `calculate_crc32` with the table of the source.
-- - Disk: Common/Kernel/Disk/Disk.h and Disk.c. The volume list, and in Disk.Read ReadSectors and ReadDisk,
--   with the path by way of a temporary buffer and the path that reads into the caller's buffer. Disk.Bios
--   is the driver of Disk/Bios/Bios.c, Disk.Efi that of Disk/Efi/Efi.c; Disk.Start has
--   InitializeDiskSubsystem and TerminateDiskSubsystem, and Disk.Drivers puts the drivers under ReadDisk.
-- - Fs: Common/Kernel/Disk/Fs/Fs.c and Fs.h. Layout reads the structures from the bytes of a sector; Mbr
--   and Gpt have the header checks; Detect has DetectPartitionMap, and Subsystem InitializeFsSubsystem.
-- - Fat: Boot/Legacy/Shared/Disk/Disk.c and Disk.h. ReadFatSector, GetFatEntry, FindDirectory and ReadFile of
--   the legacy loader, and ReadSector over the record `Drive` with int 13h; File has what ReadFile reads, along
--   the chain, and Find what FindDirectory finds.
-- - E820: Boot/Legacy/Stage3/Memory/Mmap/Mmap.c and the loops of Boot/Legacy/Stage3/Bootloader.c that read the
--   memory map, sort it and make the map of usable memory: `read_mmap`, `sort_mmap` and `usable_of`. An array
--   is a function of the index.
-- - Paging: Boot/Legacy/Stage3/Memory/Paging/Paging.c and Memory.h. PageAlign, AllocateFromMmap and
--   InitializePageEntries, on the function from an address to the 64-bit word there; Walk has the
--   processor's translation of an address, and Identity the identity map of Bootloader.c.
-- - Console: Common/Kernel/Graphics/Console/Format.c. vPrintf as the list of its calls of Print and Putchar;
--   Spec says what a format stands for. Vga is Print_Vga of Console/Vga/Vga.c on the cells at B8000h, and
--   Output has InitializeConsoleSubsystem, Print and Putchar of Console/Console.c, with
--   InitializeBitmapFont of Common/Kernel/Graphics/Fonts/Bitmap.c and Common/Kernel/Firmware/Efi.c.
-- - Base has the lemmas on lists, loops, tests and bits that they share, and Tests has runs.
--
-- How they interact: DetectPartitionMap reads sectors through ReadDisk into buffers from Allocate, checks
-- them with CalculateCrc32 and Memcmp, and adds volumes to the volume list. It stands over the record
-- `Services` with Allocate, Free and ReadDisk, so that its results hold whatever these answer. ReadDisk
-- stands over the record `Machine` with Allocate, Free and the drivers, and moves bytes with Memcpy and
-- Memmove as they are in Memory. The drivers stand over the records `Firmware` (the real mode code and
-- the processor) and `BootServices` (EFI); InitializeFsSubsystem calls ReadDisk and DetectPartitionMap.
-- The third stage makes the usable memory map from the firmware's, allocates the tables of its pages from it
-- by AllocateFromMmap, and maps the low memory and all usable memory to itself.
--
-- Bounds and fuel: the loops of Itoa (65 rounds, as a 64-bit number has at most 64 digits), of Strlen and
-- Strrev (the length of the array), of the search for a level (65 rounds, one more than there are shifts)
-- and of MemsetBlock (one round for each byte) end before their fuel does. The searches for a neighbour
-- in FreeBlock double a 64-bit distance, which is 0 after 58 rounds and stays 0, so a search of 64 rounds
-- that has not ended never ends: it is `none`. The loop of ReadSectors_Bios has one round for each sector,
-- and that of ReadFile at most one for each byte of the file; FindDirectory has no bound, as a FAT may have a
-- cycle, and is recursive on any fuel. The levels of MergeBlock grow to at most 63, and the loop
-- over the powers of two in a memory map entry takes one of 64 bits away each round. The loops of Paging and
-- E820 count the rounds that their bounds leave; the one that reads the memory map breaks off at 128 entries.
--
-- Not modelled: the vector routines of x64/Memcpy.asm and x64/Memset.asm, which are the record
-- `Routines` with the hypothesis that they copy and fill; the real mode code of Disk/Bios/Int13.asm
-- and the EFI firmware, which are records with what they promise as hypotheses; messages; the
-- graphical and EFI consoles behind Print and Putchar, which are the record `Consoles`, the graphics, the
-- processor setup, the rest of the loaders under Boot and the bootsectors. Panic does not return, so a call
-- of it ends a model with `none`; the words that InitializePageEntries and its Memset touch are at multiples
-- of 8. Addresses in Memory do not wrap at the end of the address space, addresses of blocks in PushBlock
-- and DivideBlock do not either, and the 32-bit positions of the measuring loop of Print_Vga do not, as its
-- strings are shorter; an `int` that overflows in the address of a cell wraps around. Of the font data and
-- the EFI tables, Output keeps what the console uses.
pub mod Base
pub mod Text
pub mod Crc
pub mod Memory
pub mod Paging
pub mod E820
pub mod Mm
pub mod Disk
pub mod Fs
pub mod Fat
pub mod Console
mod Tests
