-- ===== src/Lib.antt =====
-- Models and theorems for the C parts of the repository and for one of the Rust ones: a pool allocator, two
-- pointer structures, three readers of ELF files, an injector of code, an event loop, a reader of files with
-- threads, and the code around them that opens, closes and registers things of the system.
--
-- Which file models which part:
--   HeapPool     heap_pool/heap_pool.c, heap_pool.h: heap_pool_create, heap_pool_alloc, heap_pool_free and
--                the alignment arithmetic, over the bytes of one mapping. Client is the transition system
--                of a program that uses a pool, Refine the stack of free chunks that a pool stands for,
--                Sharing the opening, closing and destroying with a file of shared memory, and
--                Program heap_pool/main.c.
--   Links        the walk over `next` pointers that the next two share.
--   SList        tad/s_list.h: slist_insert_elt, slist_remove_elt.
--   NTree        tad/n_tree.h: ntree_prepend_child, ntree_insert_child, ntree_remove_child,
--                ntree_remove_child_if, and in Walks the loops and tests that change nothing;
--                Program is tad/ntree_ex.c.
--   Elf          the loops over tables of records that the ELF readers share, the fields of the 32-bit
--                structures, and in Elf/First what a search promises.
--   ObjParser    got_modifier/linux_obj_parser.c: lop_init_info and all that it calls,
--                lop_get_dynsym_by_name, and in Display lop_display.
--   Injector     got_modifier/process_injector.c: all of it, on the memory and the registers of the
--                traced process.
--   MapParser    got_modifier/map_parser.c: the opening and closing of its two files; in FileNames their
--                names, with Digits for the number in decimal; in Replace
--                map_parser_replace_virtual_addrfunc and main, which uses Injector. Line is
--                got_modifier/parse_map_line.c.
--   EvilPrint    got_modifier/libtest.c: the function of the injected library.
--   SymResolver  sym_resolv/sym_resolver.c: all of it. Program is sym_resolv/test.c.
--   Dsl          dslelf/dsl_elf.c: the opening of a file and the searches in it; in Hook dls_search_dso
--                and main.
--   Resources    what a program holds of the system: descriptors, mappings, streams, kernel objects, blocks.
--                To release what is not held is a fault.
--   DsoPlugin    dso/dso_plugin.c, dso_plugin.h: all of it. Program is dso/test, main.c and plugin.c.
--   CharDevice   modrefcnt/modtest.c: the registration of the device and the exit of the module.
--   IoLoop       ioloop/ioloop.c: all of it. Rounds has iol_main_loop with callbacks that add and delete
--                events; Stop and OwnDeletion say what becomes of iol_stop_loop and of a callback that
--                deletes its own event; Program is ioloop/test.c, as the states that its loop passes.
--   Packet       nfqueue_example/squash_packet.c: corrupt_packet and process_packet; in Queue the set-up of
--                the queue and the loop.
--   DoubleBuffer double_buffering/dblbuffering/src/lib.rs: Reader is the thread of a reader, the parent the
--                writer and the steps of all threads in any order; Output is what one thread would print,
--                Invariant what holds at each place of the writer, Left how many steps can be left.
--   DbgPrint     dbg_print/dbgprint.c: dbg_printf in both builds.
--   HeapLooker   heap_looker/heap_looker.c: the functions in front of the allocator's, on DbgPrint. Trace
--                reads the blocks in use back from what they print, and Trace/Example is
--                heap_looker/main.c with f1.c.
--   SigLooker    sig_looker/sig_look.c: the handler, on SymResolver and DbgPrint, its registration, and main.
--   Netplug      netplug/net_plug.c: all of it.
--   ThreadName   thread_name/thsetname.c: set_thread_name; in Threads the steps of its three threads.
--   Memory, Base bytes and little-endian words; tests, lists, and lemmas on bits.
--
-- Names lose the prefix of their part: heap_pool_alloc is HeapPool.alloc, lop_find_rel_by_sym is
-- ObjParser.find_rel_by_sym. Pointers are numbers; NULL is 0, or none where a result is looked at only for
-- being NULL. size_t wraps at 2^64 where heap_pool and squash_packet compute with it, and so does usize. A
-- return value -e is written e, but for the -1 of iol_main_loop, which is its 32 bits.
--
-- Fuel bounds the walks over `next` pointers, one unit for each element and one more, and the loop over
-- program headers, one for each header and one more; the theorems state that this much is enough, and, for
-- 256 headers and more, that no fuel is. The store of sig_look.c that is tried again needs two tries, a
-- number of 16 bits five digits, and lop_display 129 rounds. The other loops run over a list or a count; a
-- loop without an end is given by its first turns, or by the states that it reaches.
-- What the system and other libraries answer (mmap, open, epoll_ctl, calloc, ptrace, dlsym, libnet, the
-- kernel's calls, the reads of DoubleBuffer's files) is a parameter; a run of injected code is a function
-- on the traced process. strcmp and strstr against a fixed text are tests on addresses; in NTree/Program
-- strcmp is a parameter on texts.
--
-- Not modelled: the formatting of what is printed, and the times that heap_pool/main.c and
-- sym_resolv/test.c measure; heap_pool_create in the HP_HAVE_SHM build, which does not compile; what the C
-- library allocates inside the functions that it offers; races of the second thread of ioloop/test.c inside
-- a round of the loop; got_modifier/target.c, dbg_print/test.c, dslelf/lib.c and dso/interface.c, which
-- only print; gnucext, which names attributes of the compiler; the patches of exmap, a program of others;
-- a second call of `work` in double_buffering, which finds answers of the first one; and small_rust_tree,
-- one insertion into a tree of shared references, whose content is the counts of Rust's library.
pub mod Base
pub mod Memory
pub mod HeapPool
pub mod Links
pub mod SList
pub mod NTree
pub mod DbgPrint
pub mod DoubleBuffer
pub mod Elf
pub mod ObjParser
pub mod Resources
pub mod DsoPlugin
pub mod Injector
pub mod MapParser
pub mod Packet
pub mod Netplug
pub mod ThreadName
pub mod EvilPrint
pub mod HeapLooker
pub mod IoLoop
pub mod Dsl
pub mod SymResolver
pub mod CharDevice
pub mod SigLooker
