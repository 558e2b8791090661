-- ===== src/Lib.antt =====
-- GNU Serveez, a framework for internet servers: a library (src/libserveez) of containers, sockets,
-- servers, port configurations and an event loop, and servers that use it (src/irc-server,
-- src/nut-server, src/http-server and others). The servers keep their state in the library's arrays
-- and hash tables; the event loop hands the data of each socket to a server's callbacks.
--
-- Parts and files:
-- - Base: names from the libraries, Boolean tests on numbers, lists by index, bits.
-- - Array: src/libserveez/array.c. `SvzArray` is `struct svz_array`; each function has its name here.
--   Array/Invariant says what a well-formed array is, Array/Refine that the functions act on the
--   list of the elements, Array/Session the same for sequences of calls. Array/Purge is
--   `svz_sock_prefree` of src/libserveez/socket.c, a client of the array.
-- - Hash: src/libserveez/hash.c. `SvzHash` is `struct svz_hash` of hash.h; Hash has the buckets and
--   `rehash` (its two branches are `rehash_expand` and `rehash_shrink`), Hash/Ops put, get, exists and
--   delete, Hash/Create the constructor, Hash/Iterate the walks over the whole table. The three
--   callbacks of a table are the interface Hash/Keys, which Hash/Strings fills with the default ones.
--   Hash/Invariant says what a valid table is, Hash/View what map it stands for, Hash/Rehash has the
--   proofs on `rehash`, Hash/Methods those on the operations.
-- - Irc/Crypt: src/irc-server/irc-crypt.c, `irc_gen_key`, `irc_encrypt_text`, `irc_decrypt_text`.
--   Irc/Channels: src/irc-server/irc-proto.c, the channels with the arrays of their clients and the
--   clients with the arrays of their channels, both as functions from pointers; Irc/Swap is how an
--   element is taken out of such an array. The test of names is a parameter.
-- - Number: `svz_itoa` and `svz_atoi` of src/libserveez/util.c.
-- - Nut: the gnutella packets of src/nut-server/nut-core.c. Nut/Bytes has the byte order macros of
--   nut-core.h and `memcpy` between numbers and memory, on a host of either byte order; Nut/Packets the
--   functions `nut_get_*` and `nut_put_*` on the structures of gnutella.h.
-- - Socket: src/libserveez/socket.c. Socket/Buffer is `svz_sock_reduce_recv` and
--   `svz_sock_reduce_send`, Socket/Split `split_packet_and_dispatch`, with `handle_request` as a
--   function of the protocol's state. Socket/Boundary and Socket/Packets have the proofs.
--   Socket/Unibyte and Socket/Fixed are the routines for a boundary of one byte and for packets of a
--   fixed size, Socket/Request is `svz_sock_check_request`, which chooses among the three, for
--   handlers that leave the boundary and its size as they are. Socket/Write
--   is `svz_sock_write`, with `write_socket` and `kicked_socket` as parameters.
-- - Raw: src/libserveez/raw-socket.c, the unpacking and the test of IP headers and their checksum.
-- - Chain: doubly linked lists through the objects of a heap: a pointer is a number, and each of the
--   fields `next` and `prev` a map from pointers. Chain/Segment cuts and joins parts of such a list,
--   Chain/Unlink, Chain/Push and Chain/Move are the writes that take an element out, put one in, and
--   move the last one.
-- - Core: src/libserveez/server-core.c, on Chain. `Socks` holds the list of sockets, the lookup table
--   by id, and the fields of the sockets; `svz_sock_enqueue`, `dequeue`, `svz_sock_find` and
--   `svz_sock_unique_id` have their names here, Core/Rechain is `rechain_list_of_socks`, and
--   Core/Parent has the references between sockets, Core/Access is `svz_sock_check_access`, Core/Shutdown
--   closes sockets at the end of `svz_loop_one` and `svz_loop_post`. Core/Valid says what `validate_list_of_socks`
--   checks, and that list, table and flags agree. The system calls that test descriptors are a
--   parameter.
-- - Cache: src/http-server/http-cache.c, on Chain: the list of cached files in the order of their use.
--   Its table is the interface `Names`, which Cache/Hashed fills with the hash table. Cache/Order is
--   about that order, Cache/Evict about the entry that `http_init_cache` gives up.
-- - IrcCore: src/irc-core/irc-core.c. IrcCore/Parse and IrcCore/Target are `irc_parse_request` and
--   `irc_parse_target`, IrcCore/Compare and IrcCore/Regex the comparison of names and masks,
--   IrcCore/Receive `irc_check_request` and `irc_detect_proto`, IrcCore/GetTarget `irc_get_target`.
--   `tolower` and the handler of a request are parameters.
-- - Bind: src/libserveez/portcfg.c and src/libserveez/binding.c. `PortCfg` is `svz_portcfg_t`, whose
--   union and its tag are the data type `Protocol`. Bind/Equal is `svz_portcfg_equal`, Bind/Prepare
--   `svz_portcfg_prepare`, Bind/Expand `svz_portcfg_dup` and `svz_portcfg_expand`, Bind/Address
--   `svz_portcfg_mkaddr`. Bind/Binding has the bindings of the listeners: `all_ears` is a field of each
--   listener, and the listeners are the list that `svz_sock_foreach_listener` goes through, to which
--   Core adds and from which it takes; Bind/Binding/Server is `svz_server_bind`, Bind/Binding/Unbind
--   the loop of `server_unbind` of src/libserveez/server.c over the listeners, its child Clients the
--   whole function, Bind/Binding/Filter `svz_binding_filter`. The other files below Bind/Binding have
--   the proofs, in which Bind/Equal/Key names a port.
-- - Http: src/http-server/http-proto.c and src/http-server/http-core.c. Http/Receive is
--   `http_check_request`, which cuts a request out of the buffer, and `http_detect_proto`; Http/Request
--   is `http_handle_request`, with Http/Property (`http_parse_property`, `http_find_property`) and
--   Http/Uri (`http_process_uri`). Http/Range has the byte ranges. A pointer into the buffer is the list
--   of the bytes behind it, and the callbacks of `http_request` are their indices.
-- - Examples: the theorems at concrete inputs.
--
-- Bounds and fuel: `size_t` and `unsigned long` are 64 bits and wrap, `unsigned int` is 32 bits,
-- and an `int` that wraps is its 32 bits. The theorems bound sizes by 2 ^ 58 to 2 ^ 60, which no
-- address space exceeds. Loops without a structural bound take fuel and give `none` when it is
-- used up: the size as fuel is enough for `svz_hash_create`, ten rounds for `svz_itoa`, more than
-- the length of the list for `svz_sock_prefree`, more than the fill of the buffer for the routines
-- that split it, more than the number of elements for the loops over a linked list, over the
-- bindings of a listener or over the channels of a client, and one more than the length of the
-- text for the parsers and the masks of IRC. Allocation does not fail, since
-- src/libserveez/alloc.c ends the program instead.
--
-- Not modelled: waiting for events and other system calls, logging, the Guile interface, coservers
-- and codecs, and so far the messages of the IRC server, the responses of the HTTP server, the
-- gnutella server behind its packets, and the small servers. The arrays of an IRC request are
-- lists of what is written, and the parsers give `none` where a word does not fit into its array,
-- which src/irc-core/irc-core.c does not test; a byte of a string is taken as `unsigned char` has
-- it.
pub mod Base
pub mod Array
pub mod Hash
pub mod Irc
pub mod IrcCore
pub mod Number
pub mod Nut
pub mod Socket
pub mod Raw
pub mod Chain
pub mod Core
pub mod Bind
pub mod Http
pub mod Cache
mod Examples
