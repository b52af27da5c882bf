-- ===== src/Lib.antt =====
-- PulseDB: an in-memory database that speaks the Redis protocol over TCP. A connection's bytes
-- are parsed into requests (src/resp.c), a request is looked up, checked, queued or run
-- (src/commands.c, src/txn.c), the commands act on a keyspace of typed values (src/store.c), and
-- the replies are written into an output buffer (src/reply.c).
--
-- - Prelude: shared names, lists and integers over the native numbers, and the functions of the C
--   library on text that the program calls: strcmp (Prelude/Bytes), strtoll and the decimal
--   formats of printf (Prelude/Decimal).
--
-- - Table: a chained hash table, independent of what its nodes are: the chains (Chain), the
--   bucket array (Buckets), the move into a larger array (Rehash, Grow) and what an array holds
--   (Holds).
--
-- - Store: src/store.h in Types, the hash functions in Hashing, the keyspace of src/store.c
--   (lookup with lazy expiry, create_entry with growth, store_del, store_exists, store_type,
--   store_get_expiry, store_scan) in Keys, its strings in Strings, lists in Lists, hashes in
--   Hashes, sorted sets in ZSets and streams in Streams. Invariant says what a valid store is and
--   reads it as a map from keys to entries; Live reads it as a map from keys to live contents at
--   a time; Update says what the writes do to that map. Each Effects module holds what the
--   operations of its parent do. ZSets/Order is the order of the entries, Rank the binary search,
--   Insert, Entries and Taken the array with an entry put in or taken out, Put and Move the
--   addition of a new member and of one that is there.
--
-- - Resp: the parser of src/resp.c, and in Resp/Stable what it does when more bytes arrive.
--   Reply: the encoders of src/reply.c, and in Reply/Lines and Reply/RoundTrip that the parser
--   reads them back.
--
-- - Buffer: the byte buffer of src/util.c. Config: the command line of src/config.c.
--
-- - Txn: src/txn.c. Commands: the command table of src/commands.c; Commands/Lookup its
--   open-addressing lookup, Commands/Scan that lookup against a scan, Commands/Process the checks
--   and the state machine of MULTI, EXEC and DISCARD, Commands/Queued and Commands/Transactions
--   the invariant of the queue, Commands/Atomic and Commands/Aborted whole transactions. The
--   functions that the table names: Commands/Strings (src/cmd_string.c, and PING, ECHO and CONFIG
--   of src/commands.c; Replies in it has GET behind SET), Lists (src/cmd_list.c), Hashes
--   (src/cmd_hash.c), Streams (src/cmd_stream.c), ZSets (src/cmd_zset.c); Commands/Lists/Missing
--   has BLPOP on missing keys, Commands/Streams/Reads XREAD, and Commands/Errors the commands at
--   a key of another type. Commands/Args has the macros of src/cmd.h, Commands/Table the column
--   proc. World is what they work on, Libc and Doubles what they take from the C library and
--   src/util.c for floating point.
--
-- - Cli: tools/cli.c, the command line client: what it sends, how it prints a reply and how it
--   splits a line; Cli/Requests joins it to the parser of the server, and Cli/Lines and Cli/Ends
--   are about split_line, whose loop has as much fuel as the line has bytes and one more.
--
-- - Server: src/server.c. Server/Input is process_input, read_from_client and service_blocked;
--   Ends, Pipeline, Waiting and Nulls are about them.
--
-- - Rdb: src/rdb.c, with the choice of the store in src/main.c; Rdb/Writer is a writer of such
--   files, in the forms that the loader supports; the program has none. Geo: src/geo.c.
--
-- - Tests: small runs, and the theorems at concrete inputs.
--
-- Conventions. A pointer to a structure is the structure, passed and returned; a linked list is
-- the sequence of its values, with the length that the structure keeps beside it; an array of
-- chains is a function that is read below its size. A reading of the clock is an argument, one
-- for each call of the store; store_stream_add has a second one for the ID. Times are integers. A
-- C string is the list of its bytes. Hashes and IDs wrap around as their C types do; the counters
-- of type size_t do not, since memory ends first. A parser position is the text from there to the
-- end of what has arrived, and a nesting depth is the number of levels that are left,
-- RESP_MAX_DEPTH + 1 - depth. A signed overflow, which C leaves undefined, is the outcome
-- undefined of the parser; a call through a null pointer is the outcome none of a command.
--
-- Fuel. decimal has one unit more than its number, and so at least one for each digit. The search
-- of command_lookup and the search for a free slot have 128 units, one for each slot. The
-- doubling of a buffer has as much fuel as bytes are needed. Every other loop is structural.
--
-- The handlers of commands are an interface, Handlers: each returns whether it blocks, the bytes
-- it appends and the changed world. Commands/Table fills it. Every call of the store takes one
-- reading of the clock, XADD two; a sum of an expiry or a deadline that overflows, which C leaves
-- undefined, wraps around.
--
-- The loop of process_input takes the bytes of a request off the input at once, where the code
-- keeps a position and takes them off at the end; no command reads the input. It has as much fuel
-- as the input has bytes and one more, as the loop of rdb_load has for the file. A list of what
-- the reads or writes of the system give that ends stands for EAGAIN.
--
-- Not modelled: the release of memory (values are not blocks); floating point: scores are doubles
-- by their order, as exact multiples of 2^-1074, so that 0.0 and -0.0 are one score, while
-- strtod, printf, the arithmetic of src/geo.c on doubles and its geo_distance_m are parameters
-- (Libc, Floats); fnmatch, a parameter; the sockets and poll of src/server.c with server_run and
-- server_init around them; the messages of src/main.c; the connection and the prompt of
-- tools/cli.c; the benchmark, which is outside the server.
pub mod Prelude
pub mod Table
pub mod Resp
pub mod Rdb
pub mod Geo
pub mod Server
pub mod Reply
pub mod Store
pub mod Buffer
pub mod Config
pub mod Libc
pub mod Doubles
pub mod World
pub mod Txn
pub mod Commands
pub mod Cli
mod Tests
