-- ===== src/Lib.antt =====
-- dromozoa-unix: Lua bindings for the UNIX system interface.
--
-- The C++ library has two layers. `src/lib` with `include/dromozoa` is a library over the system
-- calls: a thread pool for calls that block, a self pipe for child signals, process creation, an
-- event selector, and versions of calls that a system may lack. `src/lua` binds it to Lua. `bind` is
-- a copy of the project dromozoa-bind, on which both stand.
--
-- Async models `src/lib/async_service.cpp`. Async/Service.antt has the state of `async_service_impl`
-- and a function for each section of `open`, `push`, `cancel`, `pop`, `info`, `close` and `start` that
-- runs under one mutex. Async/System.antt runs workers and callers interleaved, a section at a time,
-- as a step relation. A list iterator is the identity of a node, a task its address, a null pointer
-- `none`; the counters wrap at 2 ^ 32. The calls that may fail are choices of a step. A wait on
-- `queue_condition_` or `counter_condition_` is a step that is possible once its test holds, so a
-- wake-up that is lost would not show. A thread that cannot be created, and a task whose `push` fails
-- after it was counted, are remembered in the state beside the code's own. A `write` to
-- the ready pipe stores a byte or fails, which it does only where there are bytes in the pipe; bytes leave it
-- only by `read`, which is a call of the relation too. Async/Stages.antt follows a `close` through its
-- sections. Async/Open.antt has `open` as it runs on a system whose calls may fail, and `read` by itself; it
-- works with the descriptors of Fd.
--
-- Pathexec models `src/lib/pathexec.cpp`: `pathexec_buffer_size` and `pathexec` over byte lists, with
-- the index arithmetic of the source and every write to the buffer checked against its bounds.
-- Pathexec/Copy.antt is about the copies, Pathexec/Search.antt about the search. `execve` is a
-- parameter on a state of its own. Sizes of objects in memory are taken not to wrap.
--
-- Fd models descriptors. Fd.antt has `src/lib/file_descriptor.cpp`, `coe.cpp`, `ndelay.cpp`, `sigmask.cpp`
-- and `compat_sigmask.cpp`; a destructor that runs at the end of a scope is the function `owned` or
-- `with_blocked` around the scope's body. Fd/Compat.antt has `compat_pipe2.cpp`, `compat_socket.cpp`,
-- `compat_accept4.cpp` and `compat_mkostemp.cpp`, where each `HAVE_` macro is a field. The system calls are
-- parameters; Fd/Laws.antt says what is relied on: what a call opens and closes, that a `close` closes
-- also where it reports an error, that setting a signal mask works, and which errors are `Reported`.
-- Fd/Leaks.antt, Fd/Leaks/Scopes.antt, Fd/Leaks/Calls.antt and Fd/Leaks/Pair.antt are about what is left
-- open, Fd/Made.antt about the pair that `compat_pipe2` gives. Fd/Drain.antt has the loop that the two `read` functions share.
--
-- Selector models `src/lib/selector_epoll.cpp`, and Selector/Kqueue.antt `src/lib/selector_kqueue.cpp`:
-- `add`, `mod` (`mod_events`), `del`, `select` and `event`, with the calls of `epoll` and `kqueue` as
-- parameters. Selector/Buffer.antt has the buffer of events that both keep. Selector/Open.antt has `open` of
-- both and `close`, over the descriptors of Fd. Selector/Bounds.antt and Selector/Kqueue/Bounds.antt are
-- about the buffer and what is read from it. A timeout over `epoll` is taken not to be negative.
-- `src/lib/selector.cpp` forwards the calls to one of the two.
--
-- Arguments models `src/lib/argument_vector.cpp`. A change of the vector of strings may move them, so the
-- model counts the changes and a pointer remembers the count; Arguments/Fresh.antt is about the array that
-- `get` gives after any calls on one object. The implicit copy constructor is `copy_of`, which is not among
-- these calls.
--
-- Forkexec models `src/lib/forkexec.cpp` over Pathexec and Fd. Forkexec.antt has `forkexec_impl` and
-- `forkexec`, Forkexec/Daemon.antt `forkexec_daemon`. A child is a computation of its own that ends with a
-- new program, by `die` or by `quit`; `fork`, `dup2`, `chdir` and the other calls are parameters, and the
-- parent's state at a read from a pipe is `joined` with the last state of the child, since the read ends
-- when the child has closed its ends. Forkexec/Laws.antt says what is relied on. Forkexec/Ends.antt,
-- Forkexec/Child.antt, Forkexec/Report.antt and Forkexec/Verdict.antt are about what the parent is told,
-- Forkexec/Parent.antt and Forkexec/Daemon/Leak.antt about descriptors and the signal mask.
--
-- Selfpipe models `src/lib/selfpipe.cpp`. Selfpipe.antt has the variables of the file, `selfpipe_open`,
-- `selfpipe_close` and the loop of the publisher, each as one step, since they hold the mutexes;
-- Selfpipe/Impl.antt has `selfpipe_impl`. Selfpipe/Effect.antt is about the variables and the descriptors.
-- Selfpipe/Threads.antt has the signal handler, the thread of the publisher and the subscribers, whose steps
-- come in any order, with pipes that hold a number of bytes; Selfpipe/Threads/Delivery.antt and
-- Selfpipe/Threads/Notified.antt are about the bytes that reach a subscriber. There the thread runs from
-- the start on, and the last subscriber does not leave.
--
-- Sockaddr models `src/lib/socket_address.cpp` and the constructors and fields of `src/lua/sockaddr.cpp`.
-- An object is the list of its bytes; the sizes, the offsets and the families of the system's headers are
-- a parameter, and Sockaddr/Inet.antt says what is relied on (`IsLayout`). Sockaddr/Memory.antt has the
-- copies between objects, Sockaddr/Inet.antt the addresses with a port, Sockaddr/Path.antt those with a
-- path, Sockaddr/Bounds.antt what is read of an address that a system call has filled.
--
-- Timer models `src/lib/compat_clock_gettime.cpp` and `src/lib/timer.cpp`: the macros of the build are
-- fields, the clocks of the system parameters, and Timer/Elapsed.antt is about the time between two
-- readings. The floating point of `elapsed` is a parameter.
--
-- Timespec models `src/lua/timespec.cpp`, with the constants of `src/lua/common.hpp`:
-- Timespec/Arith.antt is about sums, differences and orders, Timespec/Kinds.antt about the type
-- matrices, Timespec/Tables.antt about the operations from Lua table to Lua table. Seconds are
-- integers, since an overflow of `time_t` is undefined. Lua's tables and numbers, as `bind` reads
-- them, are parameters; `tostring` and `tonumber` are not modelled, since calendar and floating point
-- belong to the C library.
--
-- Lua models functions of `src/lua` that do more than to hand a call on. Lua.antt has what they push, how they
-- end and `push_error`; an argument is what the readers of `bind` make of it, none where they raise an error.
-- A read outside of an object, or through a null pointer, is a `fault`. Lua/Error.antt has `error.cpp`;
-- Lua/Buffer.antt vectors that a call fills.
--   Lua/Descriptor.antt has `fd.cpp` and the functions that open descriptors (`pipe.cpp`, `sys_socket.cpp`,
-- `accept`, `mkstemp`), over Fd. Lua/Transfer.antt has `fd_unistd.cpp` and `fd_socket.cpp`.
--   Lua/Tasks.antt has the reference by which a task in `async_task.cpp` keeps itself from the collector, on
-- each step of Async, and `async_service.cpp` of `src/lua`. Lua/Netdb.antt has `netdb.cpp`, and
-- Lua/Netdb/Deferred.antt its calls as tasks.
--   Lua/Process.antt has `process.cpp`, `pathexec.cpp` and `argument_vector.cpp` of `src/lua`, over Arguments,
-- Pathexec and Forkexec; Lua/Process/Vector.antt is about the arguments, Lua/Process/Tried.antt about
-- `pathexec`, Lua/Process/Told.antt about `forkexec`.
--   Lua/Selector.antt has `selector.cpp` of `src/lua`, over the selector of epoll. Lua/Dirent.antt has
-- `dirent.cpp`, Lua/Sched.antt `sched.cpp`, Lua/Xattr.antt `sys_xattr.cpp`.
--
-- Prelude has the names that all parts share, tests and lists over the native numbers, and the signed
-- integers.
--
-- Fuel: the two `read` loops, and in Lua the loops over the names of attributes, over the CPUs of a set and
-- over the fields of a table, take a number of rounds, and the theorems say how many are enough. The other
-- loops are recursions on lists, or steps of a relation.
--
-- Not modelled: what in `src/lua` makes one call and pushes its result (`unistd.cpp`, `fcntl.cpp`,
-- `sys_stat.cpp`, `sys_statvfs.cpp`, `sys_mman.cpp`, `sys_wait.cpp`, `pwd.cpp`, `syslog.cpp`, `termios.cpp`, `time.cpp`
-- and others), the tables of constants (`errno.cpp`, `signal.cpp`), the registration of functions, `lock.cpp`
-- and `hardware_concurrency.cpp` of `src/lib`; and `bind`, a project of its own.
pub mod Prelude
pub mod Async
pub mod Arguments
pub mod Fd
pub mod Lua
pub mod Forkexec
pub mod Pathexec
pub mod Selector
pub mod Selfpipe
pub mod Sockaddr
pub mod Timer
pub mod Timespec
