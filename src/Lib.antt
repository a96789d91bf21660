-- ===== src/Lib.antt =====
-- redis-counter: a small key-value server built on the hash table and the strings of Redis 5.
--
-- The server (src/server.c) reads requests from its clients, src/command.c divides a request into
-- words and calls an operation of src/db.c, and that operation works on objects (src/object.c) that
-- the hash table (src/dict.c) holds under keys that are strings (src/sds.c), hashed by
-- src/siphash.c.
--
-- The model covers the hash table, the hash function, the core of the strings, the linked list, the
-- keyspace and the requests.
--
-- - Base: helpers. Base.Outcome has the result of a run of C code: it returns, it crashes (an access
--   outside an allocation, a read through NULL, an assert that fails), or a loop of the model runs
--   out of fuel. Base.Words has 64-bit arithmetic with its wrap-around, Base.Bits the bounds of the
--   bitwise operations.
-- - Dict: src/dict.c and src/include/dict.h. Dict.Types has the structures: `dict` is Dict, `dictht`
--   is Table, a chain of `dictEntry` is a list, `dictType` is DictType, and a pointer to an entry is
--   Ref: the table, the bucket and the place in the chain. Dict.Size models `_dictNextPower`,
--   `dictExpand`, `dictResize` and `_dictExpandIfNeeded`; Dict.Rehash `dictRehash` and
--   `_dictRehashStep`, and Dict.Rehash.Finish is about calling the latter again and again; Dict.Search
--   `_dictKeyIndex`, `dictFind` and `dictFetchValue`; Dict.Update
--   `dictAddRaw`, `dictAdd`, `dictReplace`, `dictAddOrFind`, `dictGenericDelete`, `_dictClear` and
--   `dictEmpty`; Dict.Iterate the iterators and the fingerprint. Dict.Model says what a dictionary stands for and when it is well formed, and
--   Dict.Session runs sequences of calls against a map from keys to values.
-- - SipHash: src/siphash.c.
-- - Sds: src/sds.c and src/include/sds.h. A string is Sds: the type of its header, `len`, `alloc` and
--   the bytes after the header. Sds.Buffer has reads and writes of the bytes, Sds.Room what a string
--   must satisfy and the part of `sdsMakeRoomFor` that allocates, Sds.Append that function and
--   `sdscatlen`, Sds.Copy `sdscpylen`. Sds.Make has `sdsnewlen`, `sdsdup`, `sdsgrowzero` and
--   `sdsRemoveFreeSpace`, Sds.Slice `sdsrange` and `sdstrim`.
-- - Args: the lines of arguments of src/sds.c. `sdssplitargs` is a loop over tokens of a loop over
--   rounds; Args.Progress shows that both end, Args.RoundTrip relates it to `sdscatrepr`.
--   Args.Split has `sdssplitlen`; the array of tokens, which it makes larger, is a list.
-- - Number: `sdsll2str` and `sdsull2str` of src/sds.c on a caller's buffer, and `atol`.
-- - Text: `sdscmp` of src/sds.c on the text of two strings.
-- - Adlist: src/adlist.c and src/include/adlist.h. `listNode` is Node, at an address of a Heap, and
--   `list` is DList; Adlist.Operations has the functions. Adlist.Seg says when nodes are linked in both
--   directions, Adlist.Links and Adlist.Fresh what a write, an allocation and a release do to that.
--   Adlist.Add, Insert, Remove, Rotate, Clear, Join, Dup and Index are each about one function, Adlist.Walk
--   about iterators, and Adlist.Session runs sequences of calls against a sequence of values.
-- - Db: src/db.c and what it uses of src/object.c. `redisDb` is Db, a dictionary from keys, texts of fewer than 2 ^ 31 bytes, to Robj;
--   `dbDictType` is db_dict_type, whose laws Db.Keys proves. Db.Store is about `setKey`, Db.Counter about
--   `incrKey` and `decrKey`.
-- - Request: `clientBuf` of src/db.c and `commandServer` of src/command.c. Request.Wire is about the
--   words of a request, Request.Reply about the buffer of the reply, Request.Serve about commands that
--   go through both.
-- - Tests: runs on concrete inputs.
--
-- Where two branches of the source differ only by the table they work on, a Boolean selects it. The
-- callbacks of `dictType` and the hash function of the keys are a parameter; what is assumed of
-- them is that key comparison is an equivalence, that keys that compare equal have the same hash,
-- and that duplicating a key does not change what it compares equal to. The global
-- `dict_can_resize` is a parameter of the operations that read it. The value field that `zmalloc`
-- leaves uninitialised is an argument.
--
-- In the keyspace every object belongs to one entry, so it stands in the entry. Addresses of new
-- strings, the bytes that an allocator gives beyond those asked for, and what an allocation holds
-- before it is written are arguments, and so is the memory behind a pointer that is a number and not
-- the address of a string. A key of 2 ^ 31 bytes or more makes the `int` lengths of the keyspace
-- negative or truncates them; such keys are outside the model. A reply that does not fit in the buffer of the server moves
-- the string and leaves the caller a dangling pointer, which is a crash of the model.
--
-- Nodes of linked lists are allocated at addresses that are used once. The loops of src/adlist.c
-- that follow a list have one round of fuel more than it has nodes; those that count have their
-- count.
--
-- `dictRehash` and the search are structural recursion on the steps asked for and on the chains.
-- The loop of `_dictNextPower` has 62 rounds of fuel: from 4 each doubles, and 2 ^ 63 is reached
-- before they are used up; beyond that the source does not end. The operations that can expand a
-- table assume fewer than 2 ^ 59 entries, so that twice that number is at most 2 ^ 60 and neither a
-- size nor the bytes of an allocation wrap around. A call of `dictNext` chooses a bucket at most
-- once for each bucket of both tables and twice more, and so does its fuel; a loop over it has one
-- call more than there are entries. The loops of `sdssplitargs` have one round of fuel more than
-- the line has bytes, the loop over digits has 20, as many as a 64-bit number, and the loop that
-- reverses them has one more than there are digits.
--
-- Not modelled: sockets and epoll (src/server.c, src/client.c), the SQLite calls (src/sqlite.c),
-- the reports of src/redis_assert.c, and failing allocations, which end the process. The other
-- functions of the strings and of the objects, the allocator's accounting, and of the hash table
-- scanning and random sampling are outside the model. The `printf` family of src/sds.c is not
-- modelled; `sdscatfmt` in `clientBuf` is taken by the text of the two formats it uses.
pub mod Base
pub mod SipHash
pub mod Sds
pub mod Adlist
pub mod Args
pub mod Number
pub mod Text
pub mod Request
pub mod Db
pub mod Dict
mod Tests
