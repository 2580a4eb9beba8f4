-- ===== src/Lib.antt =====
-- fusedav mounts a WebDAV server as a file system. It keeps the attributes of remote files and
-- local copies of their contents in one LevelDB database, and lives on the local copies while its
-- servers are down. This library models the parts that keep that state:
--
-- - Prelude, Text, Path: lists, C strings as lists of bytes (with `%u`, `strtol` and the order of
--   LevelDB's keys), and `path_parent` of src/util.c.
-- - Bloom: src/bloom-filter.c. An access outside the bit field is a failure of the call. Bloom.Bits
--   and Bloom.Member are about adding and finding keys, Bloom.Sizes about `bloomfilter_init`.
-- - LevelDb: the database, a library that the program links, as a record of its calls with what it
--   documents of them; LevelDb.Memory is one that keeps this, on which the tests run.
-- - Structs: the structures stored in the database, `errno` values and `GError`.
-- - StatCache: src/statcache.c. StatCache.Key has the keys (a path behind its decimal depth),
--   StatCache.Iter the iterator over a directory's children, StatCache.Children the calls that go
--   through them, StatCache.Prune `stat_cache_prune`, which visits the snapshot of the database in
--   up to four passes, by the number of digits of a path's depth, and fills a Bloom filter with the
--   directories that it has seen. Its passes are counted down from four, and the loop in the source
--   is left after at most four, since `passes` is at most 4.
-- - FileCache: src/filecache.c. FileCache.Entry has the entries `fc:` in the database, the new
--   files and the etag of a response; FileCache.Io the calls on an open file; FileCache.Fetch
--   `get_fresh_fd`; FileCache.Open `filecache_open`; FileCache.Put the upload; FileCache.Remove
--   deletion, renaming and the forensic haven; FileCache.Cleanup the removal of old files. The
--   other modules below StatCache and FileCache hold theorems, and the modules Tests hold runs.
-- - Props: src/props.c. The handlers of the expat parser run over the events of a document, and
--   undefined behaviour is `none`. Props.Relative has the paths of a response, Props.Request
--   `simple_propfind` with its loop over the servers.
-- - Session: src/session.c, saint mode, the escaping of paths, the scores of the servers and the
--   list of their addresses.
-- - Dav: src/fusedav.c, the calls that FUSE makes, over both caches and the requests. Dav.Callbacks
--   has the callbacks of a PROPFIND, Dav.Update `update_directory` and `dav_readdir`, Dav.GetStat
--   `get_stat`, Dav.Handles the calls on open files, Dav.Writes `dav_write`, Dav.Names
--   those that remove, make and rename, Dav.Release `dav_release`; the other modules below Dav,
--   Props and Session hold theorems and tests.
--
-- A function of the source is a definition of the same name; a part of a long one has a name of its
-- own. State is passed explicitly. What the clock, the operating system and the network return is an
-- argument, one field for each call; the servers are asked as often as
-- `num_filesystem_server_nodes`, an argument too, says. Memory is always allocated, except where a
-- definition has an argument for it. Numbers are natural; where the source's are of a fixed width
-- and can wrap around, as the local generation, the definition takes the remainder.
--
-- Not modelled: logging, statistics and error injection; the opening and closing of the database;
-- the creation of curl's handles and their options in src/session.c; main, the mount and its options
-- in src/fusedav.c and src/fusedav_config.c, which hand everything to third-party libraries.
pub mod Prelude
pub mod Text
pub mod Path
pub mod Bloom
pub mod LevelDb
pub mod Structs
pub mod StatCache
pub mod FileCache
pub mod Props
pub mod Dav
pub mod Session
