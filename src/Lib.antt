-- ===== src/Lib.antt =====
-- A model of trurlib, a C library of containers: the arrays of void pointers (narray), the chained
-- hash tables (nhash), the linked lists (nlist), the open-addressing hash tables (noash), the tuples (ntuple),
-- sorting and binary search, the dynamic buffers (nbuf) and their storage in streams (nstream, nstore), and
-- the calls on strings (nstr).
--
-- A call that does not return has a reason of its own: `Run` (Run.antt) tells apart the end with a
-- message (trurl_die of ndie.c), a failed n_assert (nassert.c), and a fault, that is a step that C
-- leaves undefined or a loop that does not end. No die hook and no assertion hook is set, so both
-- abort the process.
--
-- The parts, the files that model them, and the sources:
-- Memory has a block of cells, with the writes of memmove and memset. An access outside the block is a
-- fault.
-- Array has struct trurl_array_private of include/trurl/narray.h as the record `Array`, with its block
-- in `cells`. Array.State has the settings (n_array_new.c), Array.Grow n_array_grow_priv.c,
-- Array.Slots the calls by index (n_array_nth.c, n_array_set_nth.c, n_array_remove_nth.c),
-- Array.Ends those at the ends (n_array_push.c, n_array_pop.c, n_array_shift.c, n_array_unshift.c),
-- Array.Whole those on all elements (n_array_clean.c, n_array_clone.c, n_array_map.c,
-- n_array_map_arg.c, n_array_reverse), and Array.Scan those that compare (n_array_remove_ex.c,
-- n_array_uniq_ex.c, n_array_eq_ex.c). Pointers are numbers; the caller's functions are a record
-- `Code` of functions of the address, and the calls of `free_fn` are logged in `freed`.
-- Hash has struct trurl_hash_table of n_hash_int.h as the record `Hash`, a chain of buckets as a list,
-- since only the table points into it. Hash.Murmur and Hash.Table have n_hash_new.c and
-- n_hash_ctl.c, Hash.Lookup n_hash_get.c, Hash.Put n_hash_put.c, Hash.Remove n_hash_remove.c and
-- n_hash_clean.c, Hash.Walk the calls that go through the table. The field `na` tells the tables of
-- n_hash_new_na, whose buckets come from an allocator: n_hash_remove gives them to free(), a fault.
-- `items` is counted modulo 2 ^ 32.
--
-- Lists has struct trurl_list of n_list_int.h as the record `Linked`, together with the nodes of the
-- process: Lists.Nodes has the nodes, where a read of NULL or of a freed node is a fault, Lists.State
-- n_list_new.c, n_list_free.c and n_list_size.c, Lists.Scan the walks (n_list_nth.c,
-- n_list_lookup_ex.c, n_list_contains_ex.c, n_list_map_arg.c, n_list_iterator.c), Lists.Ends
-- n_list_push.c, n_list_pop.c, n_list_shift.c and n_list_unshift.c, Lists.Remove n_list_remove_nth.c
-- and n_list_remove_ex.c.
--
-- Oash has struct trurl_oash_table of noash.c as the record `Oash`, with the slots in `table` and the
-- pointers of `data` in `dentries`: Oash.Table makes a table and hashes a key, Oash.Probe has the two
-- probes (ohash_get_entry, n_oash_put_entry), Oash.Put n_oash_put, its callers and ohash_rehash,
-- Oash.Remove the lookups, n_oash_remove and n_oash_clean, Oash.Walk the walks and the iterator. The
-- record `IsRobin` of Oash.Probe.Robin is the order that Robin Hood hashing keeps, `IsTable` of
-- Oash.Probe.Added and `IsStore` of Oash.Put.Store are a table with its data in that order. They bound
-- the slots by 2 ^ 16, with which a distance fits into the 16 bits of `psl`: n_oash_new makes larger
-- tables as well, of which the theorems do not speak.
--
-- Sort has the sorts of n_array_sorts.c and the binary search that n_array_bsearch_ex.c and ntuple.c
-- both have, on blocks of pointers. Array.Order has n_array_sort_ex and n_array_bsearch_ex, with
-- void_tim_sort of vendor/sort.h as a parameter. Tuple has ntuple.c, Str n_strncpy of nstr_cpy.c.
--
-- The theorems on arrays speak of the sequence that an array stands for (`Models` of Array.View): the
-- cells of its window, with NULL in the others. Those on tables compare what lookups of any key
-- return before and after (`seek` of Hash.Lookup.View). Those on lists
-- speak of the sequence that the nodes from the head on carry (`Carries` of Lists.Scan.View).
--
-- Numbers: size_t is a natural number, reduced modulo 2 ^ 64 where the code can wrap; an int that a
-- size_t is cast to is `to_int`. The doubling in n_array_grow has 65 rounds of fuel, which is enough
-- since a size passes 2 ^ 64 or is 0 by then. The sweep of n_array_remove_ex has as much fuel as there
-- are cells and items: every round leaves a cell behind or takes an item out. A walk over a list has
-- one round more than there are nodes in the store: with more it would meet a node again. A lookup in
-- an open-addressing table has one round more than there are slots: no distance is as large as their
-- number. An insertion has as many rounds as slots, and so has the search for an empty data slot: on a
-- table that is not full an empty one is met by then; the same for the entries that a removal moves
-- back. The binary search has as many rounds as elements, since every round leaves fewer. The quicksort
-- has as many rounds as elements, which is not proved to be enough; n_strncpy has one round more than
-- there are cells in the source.
--
-- Buf has struct trurl_buf of include/trurl/nbuf.h as the record `Buf`, with the block at `data` in
-- `cells`, `none` for NULL: Buf.Host is what the C library and the machine give (the bytes of new
-- memory, how a word lies in memory, htons and its kin, with their documented behaviour as laws),
-- Buf.State the calls that make a buffer or set its fields, Buf.Write n_buf_grow, n_buf_write_ex and
-- the typed writers, Buf.Iterator the iterator, Buf.Store n_buf_store_buf, Buf.Restore n_buf_store,
-- n_buf_restore_ex and n_buf_restore_skip (all of nbuf.c and of the inline functions of nbuf.h but the
-- printf calls). `IsBuf` of Buf.State.View is what holds between two calls.
-- Stream has the streams of include/trurl/nstream.h over a `Table` of functions that the caller gives,
-- as the C code has a table of the functions of stdio, zlib or zstd. `IsFile` of Stream.File states
-- what the calls rely on of a stream that is a file. Stream.Getline has n_stream_gets and
-- n_stream_getline of nstream.c, Stream.Open n_stream_guess_type, n_stream_new, n_stream_open and
-- n_stream_dopen. Store has n_store_uint32 and n_restore_uint32 of nstore.c.
-- Str has the calls on strings: n_strncpy (nstr_cpy.c), Str.Lexer lp_parse and n_str_etokl_ext and
-- Str.Tok n_str_tokl_n of nstr_tokl.c and n_str_tok of nstr_tok.c, Str.Strip n_str_strip_ws and n_str_in
-- of nstr.c, Str.Join nstr_concat.c and nstr_len.c, Str.Path nstr_basenam.c. A string that is written or
-- whose end is looked for is a block of cells with its 0; one that is only read is its characters.
-- Fuel bounds the loops there: lp_parse takes every character at most twice, n_stream_getline one
-- character of the stream a round, so that a text shorter than the fuel is enough, the growing loop of
-- a buffer doubles a size_t at most 64 times.
--
-- Not modelled: that malloc fails for a size below 2 ^ 63 (the process ends when there is no memory), the
-- copied sort template and the copy of obstacks, the obstack allocator of nmalloc.c, the unfinished
-- nstring.c, the back ends of the streams (nstream_z.c, nstream_zng.c, niobuf.c, niobuf_zstd.c, which
-- call zlib and zstd), the printf calls, and the calls that print statistics. The bytes that a buffer is
-- given to write do not lie in its own block.
-- The keys of a table are lists of bytes; a key that the table does not copy is taken to stay as it is.
pub mod Prelude
pub mod Run
pub mod Memory
pub mod Array
pub mod Hash
pub mod Lists
pub mod Oash
pub mod Sort
pub mod Tuple
pub mod Str
pub mod Tests
pub mod Buf
pub mod Store
pub mod Stream
