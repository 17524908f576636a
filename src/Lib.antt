-- ===== src/Lib.antt =====
-- rdss, an in-memory key-value server that speaks the Redis protocol.
--
-- A client's bytes are parsed into arguments, the service dispatches them to the handler of a
-- command, the handler reads and writes two hash tables (data and deadlines), and the result that it
-- leaves is printed to the client.
--
-- The files, and the code that they are about:
-- - Base: bytes, lists and integers over the native numbers, with `std::from_chars` and
--   `std::to_chars`.
-- - HashTable: src/data_structure/hash_table.h. A `Table` is its two vectors, `entries_` and
--   `rehash_index_`; a bucket is the list of its entries, and a pointer to an entry is the key under
--   which it stands. `HashTable::FindOrCreate` is `find_or_create`, and so on for each operation.
--   HashTable/Valid has the well-formedness, HashTable/Rehash to HashTable/Operations one operation
--   each, and HashTable/Refinement the table as a function from keys to values;
--   HashTable/Random is `GetRandomEntry`, HashTable/Hitting has draws with which it returns,
--   HashTable/Traverse is `TraverseBucket` with `NextIndex`, and
--   HashTable/Incremental is `IncrementalRehashing` of src/service/data_structure_service.cc. The hash (XXH64 of a
--   third-party library) is a parameter of which nothing is assumed.
-- - KeyTable: the operations of a table and their laws, as the service relies on them.
--   HashTable/Implementation proves that the hash table has them.
-- - Service: src/service/data_structure_service.cc. The state is the two tables, the command's time
--   and the access clock; `FindOrExpire`, `EraseKey` and `SetData` are `find_or_expire`, `erase_key`
--   and `set_data`. Service/View has what a client sees of it.
--   Service/Eviction is src/service/eviction_strategy.cc: `Evict` is `evict`, `GetSomeOldEntry` is
--   `get_some_old_entry`; its child modules are about the pool, the sampling, what an eviction drops,
--   and that it returns. Service/Expiry is src/service/expire_strategy.cc, and Service/Expiry/View what
--   it leaves for a client to see.
-- - Config: src/base/config.cc, with the file as the tortellini parser read it as a parameter.
-- - Dispatch: `RegisterCommand`, `Invoke` and `Shutdown` of src/service/data_structure_service.cc, with
--   the dictionary as a list of names and commands. Dispatch/Misc has src/service/commands/misc_commands.cc
--   and client_commands.cc, Dispatch/Registry what src/service/command_registry.cc registers. The
--   other modules are proofs: Dispatch/Names about the names, Dispatch/Calls about each command,
--   Dispatch/Dictionary about what is registered, Dispatch/Invocation about `Invoke` with all of it,
--   Dispatch/Limits about a full memory and INFO. Dispatch/Cron is the loop of `Cron` and the server as a
--   sequence of requests and ticks, and Dispatch/History the states that they lead to.
-- - MemoryTracker: src/base/memory.h, with MemoryTracker/Exact the numbers that it stands for.
-- - ClientManager: src/client_manager.cc, with ClientManager/Slots the connections that it holds.
-- - Resp: src/resp. Resp/Result has the results and errors, Resp/Parser the multi-bulk and the inline
--   parser, Resp/Replier the printer; Resp/Digits, Resp/Requests and Resp/Replies have
--   their proofs, and Resp/Arguments, Resp/Resuming and Resp/Splits that a request may arrive in parts.
-- - Buffer: src/base/buffer.h and src/base/buffer.cc, with Buffer/Contents the buffer as a queue.
-- - Client: src/client.cc, the choice between the two parsers. Client/Process is a round of
--   `Process`, Client/Serving that a request is answered, Client/RoundTrip a value set and got.
-- - Commands: src/service/commands, the handlers of the string commands and of the key commands;
--   Commands/Validity and Commands/WriteValidity have that each keeps the tables well formed.
-- - Tests: concrete tables, services and queries.
--
-- Bounds. The loop of `RehashSome` runs on fuel, the number of buckets left, which is enough by
-- `rehash_some_done`. The loop of `GetSomeOldEntry` has two rounds and that of `Evict` one more than there
-- are keys, which is enough by `get_some_old_entry-IsOld` and `evict-Evicts`. The loops of `ActiveExpire`
-- take any number of rounds and of buckets and say whether they ended; a tick whose loops have not ended
-- has no result. Times are milliseconds since 1970;
-- a sum that wraps in the code wraps here. Vectors stay below 2 ^ 31 buckets. Decimal printing runs on the
-- number as fuel.
--
-- Parameters. The values of `std::rand` are lists of draws, the memory tracker is a number read at a
-- call and a function of the tables, and the readings of clocks and of the operating system are
-- arguments. Who shares a string or a key is not in the state: whether SETRANGE finds its value held by
-- a reply, and whether the key of GETDEL is still there when `EraseKey` reads it for the second time, are
-- arguments too. Where it is not, where TTL has no key, at a second SHUTDOWN and in a `Cron` with `hz` 0, there is no result.
--
-- Not modelled: the event loop, sockets and coroutines (src/io, src/runtime, src/sys, src/server.cc),
-- which call the kernel, and with them the end of a connection; the statistics of
-- connections (src/client_manager.h), which are read as numbers; the growth of a client's query
-- buffer while a request is incomplete; the interleaving of threads: calls of the tracker and of the
-- manager come one after another.
pub mod Base
pub mod Config
pub mod HashTable
pub mod KeyTable
pub mod Resp
pub mod Service
pub mod Commands
pub mod Tests
pub mod Buffer
pub mod Client
pub mod Dispatch
pub mod MemoryTracker
pub mod ClientManager
