-- ===== src/Lib.antt =====
-- cloudfs is a FUSE file system over a local disk and a cloud store. A file is worked on locally;
-- when it is closed and larger than a threshold, its content becomes an object of the store, its
-- `struct stat` a metadata file, and the local path a link to that file. Beside it stands a
-- library that divides data into segments by Rabin fingerprints.
--
-- The parts, and the files that model them:
--   * dedup-lib/msb.h, msb.c: Rabin/Msb (`bytemsb`, `fls32`, `fls64`) and Rabin/Msb/Least
--     (`bytelsb`, `ffs32`, `ffs64`, `log2c64`).
--   * dedup-lib/rabinpoly.c, rabinpoly.h: Rabin/Poly (`polymod`, `polymult`, `polymmult`),
--     Rabin/Window (`struct rabinpoly`, `calcT`, `slide8`, `rabin_init`, `rabin_reset`),
--     Rabin/Segment (`rabin_segment_next`). 64-bit words are natural numbers with the wrap
--     written out; an array is a list. Gf2 is the arithmetic of polynomials over the field of two
--     elements that the statements use.
--   * dedup-lib/rabin-example.c: Rabin/Divide, the loops of `main` that cut a file, and
--     Rabin/Example, the options, the input and the exits around them.
--   * cloudfs/s3_cloudfs.c: Fs/Names (`get_key`), Fs/Cloud (`s3_cloudfs_put`, `s3_cloudfs_get`,
--     `s3_delete`). cloud-lib/cloudapi.c: Fs/Cloud (`cloud_put_object`, `cloud_get_object`,
--     `cloud_delete_object`, with their callbacks), and Fs/Details, the text of an error in
--     `errorDetailsG`. cloud-lib/cloud-example.c: Fs/CloudExample.
--   * cloudfs/cloudfs.c: Fs/Names (paths), Fs/State (the globals `version` and `skip`, and
--     `statusG` of cloudapi.c), Fs/Lock (the calls of the lock service), Fs/Files (`fh_t`, open,
--     read, write, release, flush, unlink, mknod, truncate), Fs/Attrs (attributes, and the
--     operations that are not implemented), Fs/Dirs (directories), Fs/Requests (the table
--     `cloudfs_operations`, with the `fh_t` of each open file). Of the children of these,
--     Fs/Files/Stored says what a file is between sessions and what a session is, Fs/Files/History
--     is the state machine of one file, Fs/Files/Many that of all files, Fs/Files/Truncate
--     is about the files that can be cut, Fs/Files/Lost about a put that fails, Fs/Files/Shared
--     and Fs/Attrs/Dangling are about two machines on one store, Fs/Lock/Retries describes the
--     retransmissions, and Fs/Dirs/Listing states the laws of a directory stream.
--   * cloudfs/main.c: Fs/Options (`parse_arguments`) and Fs/Start (`main`, with `cloudfs_init`,
--     `cloudfs_destroy` and `cloudfs_start` of cloudfs/cloudfs.c). cloudfs/cloudlock_client.c:
--     Fs/Cloudlock. cloudfs/cloudfs_lock_service_xdr.c: Fs/LockWire. The requests on buckets of
--     cloud-lib/cloudapi.c, and `s3_init` and the listings of cloudfs/s3_cloudfs.c: Fs/Buckets.
--   * Fs/Os is the interface of all that these files call and this repository does not
--     implement: system calls, streams, FUSE's filler, the RPC stubs, libs3. Fs/Laws states the
--     documented effects of the calls on what is stored (Fs/Disk), when nothing hinders them.
--     The disk has no directories, but says at which names there is room for a file (`room`).
--     Fs/Memory is a system in memory that has these effects. Fs/Recorder is a system
--     that notes what the lock service is sent. Tests holds runs on them.
--
-- A handler is a function on the state of the globals and of the world. It returns a count or
-- the negative of an error number, with what it writes through its pointers.
--
-- Bounds and fuel: the sizes and the window of Rabin/Window are below 2 ^ 32, as C's `unsigned`.
-- The loops that shift a word down or cut a buffer run on a count that is enough; that the cutting
-- of a file ends is part of its theorem. The lock calls count down from MAXBLOCK. The loops
-- of `cloudfs_readdir`, `cloud_list_bucket` and `cloudlock_connect` run on fuel, as the number of
-- entries, of pages and of reads is not the program's; each has a theorem on the fuel that is
-- enough. `version` is a 32-bit pattern. The flag values are those of Linux.
--
-- A `strcpy` of an option or a name that overruns its array is an outcome of its own (`overrun`,
-- `overran`), at which the model stops.
--
-- Not modelled: the log of `write_log`, which is taken to leave `errno` alone; `free` and
-- `rabin_free`; failing allocations; `log_dedupe_compute_cost`, which writes a counter to a file;
-- MD5; what cloudapi.c and cloud-lib/cloud-example.c print;
-- cloudfs/cloudfs_lock_service_clnt.c, which only calls the RPC library; libs3 and FUSE.
pub mod Base
pub mod Gf2
pub mod Rabin
pub mod Fs
mod Tests
