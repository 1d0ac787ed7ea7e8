-- ===== src/Lib.antt =====
-- Verification of partclone-utils: libraries that give block access to images of partclone and ntfsclone and to raw disk images,
-- with changes kept apart in a change file.
--
-- The parts of the program, and the files that model them:
--
-- - src/libchecksum.c: `init_crc32` and `update_crc32`, in Checksum; Checksum.Linear and
--   Checksum.Reference compare the table-driven checksum with the one that works bit by bit.
-- - src/sysdep_int.h: the table of system services that every library is given, in Sysdep, as a
--   record of functions on a world `W`. A function of the program is a computation `M W A`, which
--   is a function from the world to an optional result and world; `none` is undefined behaviour:
--   NULL or a stale pointer is followed, or an array is indexed outside its bounds.
--   Sysdep.Contract states what files and memory promise (open(2), lseek(2), read(2), write(2) and
--   malloc(3) as src/sysdep_posix.c calls them); the theorems take it as a hypothesis, and
--   Sysdep.Memory is a table of services over files in memory that meets it.
-- - src/changefile.c, src/changefileint.h: the change file, in ChangeFile (header, trailer, context,
--   `cf_seek`, `cf_crc32`, `cf_blockused`) and ChangeFile.Open (`cf_init`, `cf_verify`,
--   `cf_create`), ChangeFile.Blocks (`cf_readblock`, `cf_writeblock`), ChangeFile.Sync (`cf_sync`,
--   `cf_finish`). ChangeFile.Map is its specification: a finite map from block numbers to blocks,
--   read off the bytes of the file. ChangeFile.Read, Put, Write, Store, Saved,
--   Durable, Fresh, Failure and Past are the proofs.
-- - src/libpartclone.c, src/libpartclone.h, src/partclone.h: partclone images, in Partclone (contexts
--   and flags), Partclone.Head (the two headers), Partclone.Version1 and Version2 (loading and
--   seeking), Partclone.Blocks (one block), Partclone.Handle (the public functions). A version 1
--   or 2 image holds a bitmap, then the blocks that the bitmap names, one behind another.
--   Partclone.Layout says where stored blocks and checksums stand in the file, and Partclone.View is
--   the specification: the disk that the image stands for. Bitmap bytes other than 0 and 1 occur; the
--   program counts them as absent in its hints and takes them as held everywhere else. What is read
--   is specified for bitmaps without them (`IsBitmap`), loading and Partclone.Seek for all bitmaps.
--   Partclone.Rank, OneBlock, Read, Unpack, Hints, Load, Load2, Verify, Overlay and Write are the
--   other proofs, and Partclone.Sample is an image for the tests.
-- - src/librawimage.c: raw images, in RawImage and RawImage.Handle; RawImage.Read is the proof.
-- - src/libimage.c, src/libimage.h: one handle for all types of image, in Image and Image.Dispatch; the
--   dispatch takes the table of ntfsclone images as an argument, and Ntfsclone.Table is that of
--   src/libntfsclone.c. Image.Stale has the proofs.
-- - src/libntfsclone.c, src/libntfsclone.h, src/ntfsclone.h: images of ntfsclone, in Ntfsclone (contexts, flags
--   and the header), Ntfsclone.Bitmap, Ntfsclone.Scan and Version10 (loading), Ntfsclone.Seek (finding a
--   cluster), Ntfsclone.Blocks (one cluster), Ntfsclone.Handle (the public functions). Such an image is a
--   list of atoms: a number of clusters that are not in use, or one cluster with its data.
--   Ntfsclone.View is the specification: the clusters that a list of atoms stands for. Ntfsclone.Bits,
--   Atoms, Marks, Scanning, Start, Verified, Walk, Found, Counted, Sought, Read, Clusters, Entered, Steps,
--   Opened and Limits are the proofs, Ntfsclone.Table is the table that src/libimage.c calls, and
--   Ntfsclone.Sample is an image for the tests.
-- - src/imagemount.c: how the server of a network block device turns a request for bytes into calls on
--   blocks of the image, in Imagemount; the calls are a table, and Imagemount.Ops is that of
--   src/libimage.c. Imagemount.Covers, Served and Received are the proofs; Base.And has what the masks
--   of a power of two do.
--
-- libimage calls the dispatch tables of the types, these call the change file, and all of them call
-- the system services. A struct is a record, its pointer fields are options, and a function that
-- changes a struct returns the new one. Names are those of the source; a helper that has no name
-- there says in its comment which part of which function it is.
--
-- Numbers: every number is a natural number below the width of its C type, and an operation that can
-- pass that width has the wrap-around written out (`% 2 ^ 64`). Memory is lists of bytes, little-
-- endian as on the machines that the program is built for. `malloc` hands out indeterminate bytes.
-- An `int` that overflows, in `v2_verify` from 2 ^ 31 blocks on, is undefined behaviour.
--
-- Loops are structural recursion on what is left of the source's own counter (`left`, `nblocks`,
-- `size`), so that no fuel is needed and every definition is total. The two loops of libntfsclone that
-- walk over atoms need not end on a damaged image, where an atom may stand for no cluster: they run on
-- fuel, one unit for an atom, and the theorems on them take as much fuel as the image has atoms.
-- `none` also stands for fuel that has run out. The loops of src/imagemount.c that retry run over the list
-- of the answers to come, and `none` also stands for a list that has run out.
--
-- Not modelled: of src/imagemount.c the sockets, signals, child processes and the set-up of the device;
-- src/sysdep_posix.c (calls of the operating system,
-- whose promises are the contract), and the programs src/cfdump.c, src/cfchanges.c,
-- src/partclone_imageinfo.c, src/ntfsclone_imageinfo.c, src/libpctest.c and src/libntfstest.c, which
-- print.
pub mod Base
pub mod Checksum
pub mod Sysdep
pub mod ChangeFile
pub mod Partclone
pub mod RawImage
pub mod Ntfsclone
pub mod Image
pub mod Imagemount
