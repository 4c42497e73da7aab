-- ===== src/Lib.antt =====
-- Verification of the data structures of the Redis server in redis/src.
--
-- The program is the Windows port of Redis 2.8: a server that keeps a keyspace of typed values in
-- memory and writes it to a dump file. Modelled are the parts that the rest is built on.
--
-- Memory: blocks of bytes, little-endian words, `memmove`, and the assignments between machine
-- integers and words. Memory/Laws has what a read sees after a write.
-- Intset (redis/src/intset.c): `Intset` is the header and the block of `intset`; `search`, `add`,
-- `remove`, `find` and so on are `intsetSearch`, `intsetAdd`, ... The invariant is `IsValid` in
-- Intset/Insert: sorted, bytes below 256, and a block of the size that the length asks for.
-- Dict (redis/src/dict.c, dict.h): `Dict` is `dict` with its two tables. `view` in Dict/Invariant is
-- the map that a dictionary stands for, and `IsValid` its invariant, also in the midst of a
-- rehashing. Each operation is compared with its meaning on maps. Dict/Hash has the hash functions
-- and Dict/Iterate the iterators.
-- Numbers (redis/src/util.c): `ll2string`, `string2ll`, `string2l`.
-- Rdb (redis/src/rdb.c, with parts of object.c and sds.c): lengths, integers and strings of the dump
-- format, writers over a device (`Rio`) that may refuse a write, readers over the bytes left.
-- It uses Numbers for the decimal form and Memory for two's complement.
--
-- Sds (redis/src/sds.c, sds.h): `Sds` is the header and the block of a string, `content` in
-- Sds/Content the text that it stands for, and `IsValid` its invariant.
-- Glob (redis/src/util.c): `stringmatchlen` on the memory of its arguments.
-- Adlist (redis/src/adlist.c): doubly linked lists of nodes in a heap.
-- Registry: the dictionaries of lists of clients that multi.c and pubsub.c keep. Registry/Agreement
-- says when such a dictionary agrees with the lists that the clients keep themselves.
-- Multi (redis/src/multi.c, with the end of `processCommand` in redis.c): `Server` has the clients, the
-- watched keys and the keyspace; `exec_command`, `watch_command` and so on are the commands.
-- Multi/Agreement has the invariant `Agrees`, Multi/Queue the order in which a queue is run, and
-- Multi/Steps any sequence of steps of the clients. The
-- other commands and `call` of redis.c are a parameter, `Calls`, of which `Lawful` says what is asked:
-- watched keys stay in agreement, and no command but UNWATCH clears a mark. `call` changes `Server`
-- only through what commands do: they touch keys, flush, and change the keyspace.
-- Pubsub (redis/src/pubsub.c): channels go through Registry, patterns are a list of pairs; `Agrees` in
-- Pubsub/Agreement is the invariant, and Pubsub/News has what is sent. `stringmatchlen` is a parameter.
-- Slowlog (redis/src/slowlog.c): the log is a list of entries.
-- Ziplist (redis/src/ziplist.c): the headers and integer encodings of an entry on a byte memory;
-- Ziplist/Entry has how an entry is written and read, Ziplist/Walk the iteration over a list, and
-- `IsZiplist` in Ziplist/Index says when a memory holds one. It uses Memory, and Numbers for
-- `string2ll`.
-- Protocol (redis/src/networking.c, with `sdssplitlen` of sds.c): the parser of what clients send.
-- `Client` is its part of `redisClient`, `process_multibulk_buffer` and so on are the functions;
-- Protocol/Input has `processInputBuffer` and `readQueryFromClient`, with `processCommand` as a
-- parameter, and Protocol/Encode `catAppendOnlyGenericCommand` of aof.c. Protocol/Advances and
-- Protocol/Safe are about any input, Protocol/Inline about requests of one line; Header, Stream, Lengths, Arguments, Bulks, Requests, Rounds and
-- Filling lead to Protocol/Delivery, where the input is a stream of commands.
-- Keyspace (redis/src/db.c): the functions on keys of one database and their times of expiry, and
-- Keyspace/Commands the commands. `IsLinked` in Keyspace/Expiry is the invariant, `live` what can be
-- seen at a time. The time that `mstime` gives is an argument. A dictionary is the list of its
-- entries, the meaning that Dict gives to one.
--
-- Memory/Blocks has `memcpy` and runs of bytes, which Sds is built on.
--
-- Bounds. A native number stands for an unsigned integer, and a result that can wrap is written with
-- its modulus. A long has 32 bits and a size_t 64, as on 64 bit Windows. Theorems on integer sets
-- assume at most 2 ^ 28 elements, so that no size in bytes leaves 32 bits and no int of the search
-- overflows; those on
-- dictionaries assume fewer than 2 ^ 62 entries where the code doubles a size. The lengths of strings
-- and the counts of the writers are ints: theorems on streams of commands assume fewer than 2 ^ 30
-- bytes, on objects in a dump fewer than 2 ^ 31 - 16, on entries of a ziplist, whose sizes are
-- unsigned, fewer than 2 ^ 32 - 18. Loops run on fuel:
-- the search of an integer set has one round per element, the search for a power of two 30, the
-- skipping of empty buckets one per bucket, the loops of `stringmatchlen` and of a search through a
-- linked list what the caller gives, the digits of a number one per byte of the buffer, the trimming of the
-- slow log one per entry, `processInputBuffer` one per byte of the buffer.
--
-- Outside the model: allocation (memory does not run out), reference counts and destructors,
-- `strtoll` and the LZF library, which are parameters (`External`), and all input and output.
-- Insertion into a ziplist, the cascade of previous lengths, the commands on values, the replies and
-- their buffers, replication and the other encodings of values are not modelled.
pub mod Prelude
pub mod Memory
pub mod Intset
pub mod Dict
pub mod Numbers
pub mod Registry
pub mod Keyspace
pub mod Multi
pub mod Protocol
pub mod Pubsub
pub mod Slowlog
pub mod Ziplist
pub mod Rdb
pub mod Sds
pub mod Glob
pub mod Adlist
