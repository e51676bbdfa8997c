-- ===== src/Lua/Process.antt =====
-- src/lua/argument_vector.cpp, src/lua/pathexec.cpp and src/lua/process.cpp: programs that Lua starts. A
-- table of arguments is the reader of its fields: the string at an index, or none where there is no
-- string. The loop over a table takes fuel. `envp` is handed on unchanged and left out.
pub mod Vector
pub mod Tried
pub mod Told
mod Tests
use dromozoa_unix.Prelude.{
  ℕ, zero, suc, ◌+◌, Option, none, some, List, [], ◌∷◌, replicate, if◌then◌else◌, ◌>>=◌,
}
use dromozoa_unix.Prelude.Int.{ℤ, minus_one, eq_ℤ}
use dromozoa_unix.Arguments.{Pointer, ArgumentVector, new, clear, push_back, get, follow}
use dromozoa_unix.Pathexec.{
  Exec, Outcome, replaced, returned as came_back, c_string, pathexec, pathexec_buffer_size,
}
use dromozoa_unix.Fd.{Kernel, Machine}
use dromozoa_unix.Fd.Compat.{Openers}
use dromozoa_unix.Forkexec.{Processes, Program, forkexec}
use dromozoa_unix.Forkexec.Daemon.{forkexec_daemon}
use dromozoa_unix.Lua.{success, Answer, returned, thrown, fault, Session, push_error, error_of}
use dromozoa_unix.Lua.Descriptor.{FdArg, to_fd}

abbrev pub Bytes : Type 0
Bytes = List ℕ

abbrev pub Table : Type 0
Table = ℕ → Option Bytes

-- The loop of `to_argument_vector` from field `i` on. `push_back` takes a string up to its first NUL.
unfoldable pub push_fields : ℕ → Table → ℕ → ArgumentVector → Option ArgumentVector
push_fields zero t i v = none
push_fields (suc fuel) t i v = elim (t i) [
  | none ↦ some v
  | some item ↦ push_fields fuel t (i + 1) (push_back (c_string item) v)
]

-- `to_argument_vector`, of a table or of anything else.
unfoldable pub to_argument_vector : ℕ → Option Table → Option ArgumentVector
unfolding push_fields
to_argument_vector fuel none = some new
to_argument_vector fuel (some t) = push_fields fuel t 1 (clear new)

abbrev pub first_of : ArgumentVector → Option (List (Option Pointer)) → Option Bytes
first_of v none = none
first_of v (some []) = none
first_of v (some (p ∷ ps)) = elim (follow v p) [ none ↦ none | some text ↦ text ]

-- The string `argv.get()[0]`, or none where the pointer must not be followed.
unfoldable pub command_of : ArgumentVector → Option Bytes
unfolding get
command_of v = first_of (get v).1 (get v).0

-- The process has another program, or the function is back in Lua.
pub data Executed (W : Type 0) : Type 0 where
  gone : W → Executed W
  back : Answer → Session W → Executed W

-- The fields 0, 1 and 2 of a table.
unfoldable pub stdio_of : Option (FdArg × FdArg × FdArg) → ℤ × ℤ × ℤ
unfolding to_fd
stdio_of none = (minus_one, minus_one, minus_one)
stdio_of (some (a, b, c)) = (to_fd a, to_fd b, to_fd c)

unfoldable pub program : Bytes → Bytes → Option Bytes → Option (FdArg × FdArg × FdArg) → Program
unfolding stdio_of
program path command directory stdio = record {
  path = some (c_string path);
  command = command;
  directory = elim directory [ none ↦ none | some d ↦ some (c_string d) ];
  stdio = stdio_of stdio;
}

module _ {W : Type 0} (strerror : ℤ → Bytes) where
  abbrev pub reported : Session W → Outcome W → Executed W
  reported s (replaced w) = gone w
  reported s (came_back e w) = let r = error_of strerror e w s in back r.0 r.1

  abbrev pub attempted : Session W → Option (Outcome W) → Executed W
  attempted s none = back fault s
  attempted s (some o) = reported s o

  module _ (os : Exec W) where
    -- The buffer has just the size that is asked for.
    abbrev pub execute : Bytes → Option Bytes → Session W → Executed W
    execute path none s = back fault s
    execute path (some command) s =
        let size = pathexec_buffer_size (some (c_string path)) command in
        attempted s
          (pathexec os (some (c_string path)) command (replicate size 0) size s.machine.os)

    unfoldable pub impl_pathexec : ℕ → Option Bytes → Option Table → Session W → Option (Executed W)
    unfolding to_argument_vector command_of
    impl_pathexec fuel none argv s = some (back thrown s)
    impl_pathexec fuel (some path) none s = some (back thrown s)
    impl_pathexec fuel (some path) (some t) s =
        to_argument_vector fuel (some t) >>= λ v. some (execute path (command_of v) s)

  module _ (k : Kernel W) (o : Openers W) (p : Processes W) where
    -- What the function pushes, the field 1 that it sets in the process object, and the session.
    abbrev pub Started : Type 0
    Started = Answer × Option ℤ × Session W

    abbrev pub keep_pid : ℤ → Option ℤ
    keep_pid pid = if eq_ℤ pid minus_one then none else some pid

    abbrev pub after_forkexec : Session W → (Option (Unit {0}) × ℤ) × Machine W → Started
    after_forkexec s ((some u, pid), m) =
        (returned (success ∷ []), keep_pid pid, record s { machine = m })
    after_forkexec s ((none, pid), m) =
        let r = push_error strerror (record s { machine = m }) in (r.0, keep_pid pid, r.1)

    abbrev pub start :
        Bytes → Option Bytes → Option (FdArg × FdArg × FdArg) → Option Bytes → Session W → Started
    start path directory stdio none s = (fault, none, s)
    start path directory stdio (some command) s =
        after_forkexec s (forkexec k o p (program path command directory stdio) s.machine)

    unfoldable pub impl_forkexec :
        ℕ
        → Option Bytes
        → Option Table
        → Option Bytes
        → Option (FdArg × FdArg × FdArg)
        → Session W
        → Option Started
    unfolding to_argument_vector command_of
    impl_forkexec fuel none argv directory stdio s = some (thrown, none, s)
    impl_forkexec fuel (some path) none directory stdio s = some (thrown, none, s)
    impl_forkexec fuel (some path) (some t) directory stdio s =
        to_argument_vector fuel (some t) >>= λ v. some (start path directory stdio (command_of v) s)

    abbrev pub after_daemon :
        Session W
        → (Option (Unit {0}) × ℤ × ℤ) × Machine W
        → Answer × Option ℤ × Option ℤ × Session W
    after_daemon s ((some u, pid1, pid2), m) =
        (returned (success ∷ []), keep_pid pid1, keep_pid pid2, record s { machine = m })
    after_daemon s ((none, pid1, pid2), m) =
        let r = push_error strerror (record s { machine = m }) in
        (r.0, keep_pid pid1, keep_pid pid2, r.1)

    abbrev pub start_daemon :
        Bytes → Option Bytes → Option Bytes → Session W → Answer × Option ℤ × Option ℤ × Session W
    start_daemon path directory none s = (fault, none, none, s)
    start_daemon path directory (some command) s =
        after_daemon s (forkexec_daemon k o p (program path command directory none) s.machine)

    -- The fields are those at 1 and at 2.
    unfoldable pub impl_forkexec_daemon :
        ℕ
        → Option Bytes
        → Option Table
        → Option Bytes
        → Session W
        → Option (Answer × Option ℤ × Option ℤ × Session W)
    unfolding to_argument_vector command_of
    impl_forkexec_daemon fuel none argv directory s = some (thrown, none, none, s)
    impl_forkexec_daemon fuel (some path) none directory s = some (thrown, none, none, s)
    impl_forkexec_daemon fuel (some path) (some t) directory s =
        to_argument_vector fuel (some t) >>= λ v.
        some (start_daemon path directory (command_of v) s)
