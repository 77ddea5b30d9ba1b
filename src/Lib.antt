-- ===== src/Lib.antt =====
-- Verification of tyndall, a library for C++ programs that talk through shared memory.
--
-- A topic has an id such as "/my-process/my_topic". tyndall/ipc/id.h makes the name of a shared
-- memory of it, with the hash of tyndall/meta/hash.h, at compile time on the strings of
-- tyndall/meta/strval.h or at run time on C strings. The shared memory holds a sequence lock
-- (tyndall/ipc/seq_lock.h) through which one writer hands its last entry to any number of readers.
-- At run time a process keeps a registry of the topics it has opened (tyndall/ipc/ipc_rtid.h). Beside
-- the lock lies a text that tells the types of the entry's fields, which tyndall/reflect makes with the
-- macros of tyndall/meta/macro.h, and by which tools/ipc_read.cpp prints the entry of any topic.
-- tyndall/log prints messages by category, with a level from the environment variable LOG_LEVEL.
-- examples/ipc/god.cpp is a supervisor for the processes of a system: it starts them, respawns those
-- that fail, and removes all topics when it is stopped.
--
-- Files:
--   Base       helpers: tests, lists, order, bitwise xor, 32 bit integers, and the functions of the C
--              library on strings. A byte is a number; a C string is the list of the bytes before NUL
--   Meta.Hash     tyndall/meta/hash.h: `hash_fnv1a_32`, with its wrap around at 2 ^ 32 written out.
--              Its first parameter says whether char is signed
--   Meta.Strval   tyndall/meta/strval.h: a type strval<Chars...> is the list of its characters
--   Meta.MacroTables, Meta.Macro   tyndall/meta/macro.h: the tables of M_DEC, M_INC and M_COMPARE, and
--              M_RANGE as the list of what it expands. Macro.Text has M_NOT_EQUAL as the text that it
--              becomes by M_IF, M_BITAND, M_CAT, M_CHECK and M_IS_PAREN
--   Meta.Typeinfo   tyndall/meta/typeinfo.h: the hash of a type. The text that the compiler has for it is
--              a parameter
--   Reflect.NFields   tyndall/reflect/n_fields.h: the search for the number of fields
--   Reflect.PrintFormat   tyndall/reflect/print_format.h: `print_format` by type and by character.
--              PrintFormat.Conversions compares its formats with what C documents of printf
--   Reflect.Reflection   tyndall/reflect/reflection.h and reflect.h, on the types of the fields
--              Reflection.Storage is what `reflect` and shmem.h demand of the type of entries
--   Reflect.Values   reflect.h on values: the structured bindings with the names that M_RANGE writes
--   Ipc.Id        tyndall/ipc/id.h: `id_prepare` and `id_rtid_prepare`. `std::to_string` is the
--              parameter ToString, with the decimal notation it is documented to give
--   Ipc.SeqLock   tyndall/ipc/seq_lock.h: `write` and `read` as functions on the lock and the reader's
--              state. `errno` is part of the return code Rc. A loop that waits runs on fuel, and
--              returns none when it still waits. SeqLock.Protocol has the same code as a step
--              relation, one step for an access to shared memory, for one writer and any number of
--              readers; the entry is copied word by word in any order between the barriers
--   Ipc.Shmem     tyndall/ipc/shmem.h: the clean up (with ipc.h), the type check of `init` (with the
--              compare and exchange of smp.h; TypeCheck.Race has any number of processes at it at
--              once), in Shmem.Buf the objects of a process with the addresses they hold, in
--              Shmem.Pages the pages that are mapped and unmapped, and in Shmem.Create
--              `shmem_create`. /dev/shm is the parameter DevShm: what it holds, opendir with
--              readdir, and shm_unlink; shm_open, ftruncate and mmap are the parameter ShmCalls,
--              with the laws Posix. Shmem.Directory and Examples show that the laws can hold
--   Ipc.Objects   the types of the transports in ipc.h and ipc_rtid.h, with the static_asserts of the
--              constructors, `write` and `read` of shmem.h: none is what does not compile
--   Ipc.Rtid      tyndall/ipc/ipc_rtid.h: the registry of `create_ipc_rtid_lazy`; the constructor of a
--              transport is a parameter
--   Ipc.Bus       ipc.h and ipc_rtid.h on all of the above: `ipc_lazy_write`, `ipc_lazy_read`,
--              `ipc_rtid_write` and `ipc_rtid_read` by any processes on any topics, one call after the
--              other, with function statics and registries. `open_topic` is `init` of shmem.h, with
--              `shmem_create` and the assertions behind it; Bus.Opens is what is documented of the calls
--              that it makes, with a limit on how many memories can be opened. Bus.Contract is what the
--              calls promise: topics are lists of messages, and readers have places in them
--   Log.Level     tyndall/log/log.h and log.cpp: levels and their names
--   Log.Glob      log.cpp: `log_glob_match`
--   Log.Filter    log.cpp: `log_level`; the value of LOG_LEVEL is an argument
--   Log.Output    log.h and log.cpp: `log_cat_log` with its static, `log_string`, and the colours; fmt
--              and printf are the parameter Libraries
--   Log.Program   examples/log/log.cpp: what the program prints until a signal ends it
--   Debug         tyndall/debug.h: its macros with DEBUG and without; the calls of stdio are the parameter
--              Stdio
--   Clients       examples/ipc/writer.cpp, reader.cpp and my_struct.h: their rounds in any order
--   God           examples/ipc/god.cpp, with DEBUG as CMakeLists.txt sets it: `child_handler`,
--              `exit_handler` and the starts; fork, waitpid and kill are the parameter Processes.
--              God.Reaping, Respawn and Stop are about the ends of children, their respawns, and the
--              end of god, God.Release is about its end in a build without DEBUG, God.Reuse about
--              pids that are given out again, and God.System
--              about the whole of its run, with the laws Kernel of the processes
--   Tools.IpcRead   tools/ipc_read.cpp: `print`, with what it prints as a list of events, and in
--              IpcRead.Main `main`, on a memory that changes from one access to the next. Main.Observed
--              makes this memory that of a run of SeqLock.Protocol. Layout and
--              Nested have the layout of structs in C that what it prints is compared with
--   Tools.IpcCleanup   tools/ipc_cleanup.cpp
--   *.Examples    the theorems at concrete inputs, and tests
--
-- Fuel: a round of `log_glob_match` takes a byte of the pattern, and a round of `log_level` a byte
-- of LOG_LEVEL, so their fuel is the size plus 1. `read` of a lock with an even number needs one
-- round. The searches of n_fields.h get the depth that the size of the type bounds. M_RANGE runs on
-- a number of rounds, and `m_eval` is how many M_EVAL gives. `print` of ipc_read takes a character
-- of the format per round. `main` of ipc_read has no end: `rounds` says how many rounds of it are
-- looked at, and `fuel` how often it tries to copy a message. `child_handler` needs one round more
-- than there are ended processes. In the functions of Log, none stands for a read behind the end of
-- a string as well.
--
-- Not modelled: the padding and the alignment of the lock, and the barriers of smp.h, which the steps
-- of SeqLock.Protocol stand for; references and constness of reflected fields; the C preprocessor as
-- such, whose order of expansion the functions of Meta.Macro have built in (M_DEFER and M_OBSTRUCT make
-- a round of a loop one scan of M_EVAL); a signal that interrupts god or the log program between two
-- statements; the return codes that debug.h drops in god without DEBUG but for those of `kill`; writes
-- of two processes at once to one topic; tyndall/meta/static_warn.h, which wraps a warning of the
-- compiler; examples/meta, and tests.
pub mod Base
pub mod Meta
pub mod Reflect
pub mod Ipc
pub mod Log
pub mod Debug
pub mod Clients
pub mod God
pub mod Tools
