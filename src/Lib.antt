-- ===== src/Lib.antt =====
-- A model of Enduro/X Java, the Java interface of the Enduro/X middleware, and the proofs of what
-- its parts promise each other.
--
-- The program has two halves that meet in a generated executable. The linker exjld (exjld/) unpacks
-- JAR files, gives each class and resource a name and a number, collects them in hashes, sorts the
-- hashes by name and generates a C program with the tables `ndrxj_G_class_index` and
-- `ndrxj_G_emb_index`. The boot library (libexjlds/) starts a JVM in that executable, and its class
-- loader searches the tables by bisection. The two agree on three things that nothing but the code
-- states: the name of a class, the order of a table, and that no name is twice in it.
--
-- Base: shared names; tests on native numbers, lists, C strings as lists of bytes, `strcmp`.
--   Base/Bytes/Order: `strcmp` is a strict total order.
-- Linker: exjld/.
--   Entry: findclasses.c, `process_entry` (the name of a file, its job) and the walk over the
--     entries that nftw meets. Its statics and the work of the thread pool are the record Walk.
--   Resources: resources.c, the hashes, `exljd_res_add_th` and the sort. Serial, Sorted and Freed
--     are on jobs done one after another, as a pool of one thread does them. Threads has a pool of any
--     number of threads: they take turns in any order, and in a turn a job runs up to the end of its next
--     critical section (look-up, insertion). Race has these sections as the steps of a relation on
--     system states, with Safety, Complete, Turns, Waited and Slips on what they reach.
--   Settings, Options: the globals of exjld.c and the options that set them.
--   Codegen: codegen.c, `ndrxj_codegen`: the text of jmain.c and the build command.
--   Main: exjld.c, `main` as phases that stop at the first failure, with the clean-up behind `out:`.
-- Boot: libexjlds/.
--   Index: exj.c, `getIndexBytes` and its two callers.
--   Jni: the references and answers of the Java Native Interface that libexjlds uses.
--   Handler: exj.c, `ndrxj_ldr_get_static_handler` and `run_ldr_main`.
--   ClassPath: cp.c, `ndrxj_cp_proc` and, in Urls, `ndrxj_build_classpath_urls`.
--   Vm: exj.c, `ndrxj_ldr_getvm` and `ndrxj_run_main`.
--   FindClass: exj.c, `ndrxj_FindClass`.
-- Xa: libsrc/.
--   Xid: c/util.c and java/org/endurox/ExXid.java, transaction ids between C and Java.
--   Entry: c/xaj.c, the entries of the XA switch, and c/xatmsrv.c, `ndrxj_alloc_context`.
--   Config: c/xaconfig.c, `ndrxj_xa_cfgparse`, on the tree that the JSON library gives.
-- Convert: libsrc/c/util.c, `ndrxj_cvt_to_c` and `ndrxj_cvt_to_java`, objects by a table of their
--   fields, and the table of libsrc/c/TPQCTL.c. Tranid: libsrc/c/TPTRANID.c.
-- Signal: libsrc/c/TermSigHandler.c, the installation of the signal thread.
-- Buffers: libsrc/c/TypedBuffer.c and libsrc/java/org/endurox/TypedBuffer.java. A World has the buffers
--   of C by address with their type names, the Java objects by number, the pending exception and
--   whether a context is set. Owned: which object frees which buffer. Freed: the finalizers.
-- Calls: libsrc/c/tpcallj.c and conversations.c; Queue: tpenqueue.c and tpdequeue.c; Alloc: tpalloc of
--   AtmiCtx.c and tprealloc of TypedBuffer.c. What the Enduro/X library answers is an argument; its
--   manuals' word on buffers that it replaces is the record Answered of Calls/Contract. History: any
--   sequence of these methods, of finalizers, of caught exceptions and of methods that change no object
--   and no allocation, such as those of Sent.
--   Settings: time-outs, the list of buffers and the data of a context (AtmiCtx_Util.c, AtmiCtx.c).
-- Logging: the log methods of libsrc/c/AtmiCtx.c and logging.c; a Logs has the entries that the logs were
--   given, and counts of references and of the JVM's copies. History: any sequence of them. Requests:
--   the files for requests, over what the library keeps (the record RequestLib).
-- Exceptions: libsrc/c/exceptions.c, the throws, and MetaCache.c, the dynamic cache of their classes.
--   Load: the load and the unload of the classes of the library. Pending: the throws against the short
--   account of them in Buffers, which the native methods use. Backtrace: the text of an exception.
-- Server: libsrc/c/AtmiCtx.c, `tpRunC`, `dispatch_call` and `tpadvertiseC`, c/TpSvcInfo.c, and
--   tpCallDispatch of java/org/endurox/AtmiCtx.java. Unsolicited: c/AtmiCtx_unsol.c, the dispatcher.
--   A service is any function on Worlds; Behaves says that it uses the native methods as a history
--   does. Calls/Return: tpreturn and tpforward. Calls/Transaction: the XA connection, transactions.
-- Ubf: libsrc/c/TypedUbf_*.c, the methods of TypedUbf, over a World and the buffers by address, with
--   counts of the JVM's copies and of malloc's blocks. Fields and Project: arrays of field ids. Pairs: two
--   buffers. Values: single fields. Info: questions and JSON. Stream: Bread, Bwrite and Bextread.
--   Expressions: TypedUbf_Bbool.c and the compilation in AtmiCtx.c. The functions of the UBF library are
--   the record UbfLib, without laws; those that a theorem needs are KeepsValues, Writes, Reads and Runs.
--   Leaves, Calls, Context: what any method leaves as it was.
-- Linked: both halves together.
-- Tests: a hash table by lists that meets the interface, and every theorem at a concrete input.
--
-- Conventions. A C string is the list of its bytes without the NUL. A C int is an integer whose
-- sums are checked against 2 ^ 31: the model says `undefined` where C leaves the result open. What
-- the system answers (nftw, mkdtemp, the exit statuses of commands, the JVM) is an argument.
-- uthash under its Enduro/X names and the Enduro/X macros for buffers are not part of the repository:
-- they are the records HashLib and BufferLib, whose laws are what their manuals say.
--
-- Fuel. The loop of `getIndexBytes` gets one round more than the table has entries;
-- Boot/Index/Bisect shows that this is enough. The loop over an array of field ids (Ubf/Fields) gets one
-- round more than the array has elements.
--
-- Not modelled: the bodies of the ZIP reader (a copy of another project), the log output of the C
-- functions themselves, the threads' locks beyond the critical sections above, the table of native
-- methods in libsrc/c/loader.c and the JDBC glue of xadrv, which pass values on, and the printing of
-- expression trees to a Java stream. Of AtmiCtx.c tpinit and getAtmiError, and of AtmiCtx_unsol.c all
-- but the dispatcher, are left.
pub mod Base
pub mod Boot
pub mod Linker
pub mod Linked
pub mod Xa
pub mod Signal
pub mod Buffers
pub mod Calls
pub mod Ubf
pub mod Logging
pub mod Exceptions
pub mod Server
pub mod Convert
mod Tests
