-- ===== src/Lua/Process/Told.antt =====
-- src/lua/process.cpp: what Lua is told of the program that it starts.
use dromozoa_unix.Prelude.{
  ℕ, ◌+◌, ◌<◌, ◌≡◌, refl, ap, ◌⊎◌, inl, inr, true, Option, none, some, List, [], ◌∷◌, length,
  get_elem?,
}
use dromozoa_unix.Prelude.Int.{ℤ, pos}
use dromozoa_unix.Pathexec.{c_string}
use dromozoa_unix.Fd.{Kernel, Machine}
use dromozoa_unix.Fd.Compat.{Openers}
use dromozoa_unix.Fd.Laws.{View, Contract}
use dromozoa_unix.Forkexec.{Processes, Program, started, died, forkexec}
use dromozoa_unix.Forkexec.Laws.{PipeView, PipeContract}
use dromozoa_unix.Forkexec.Verdict.{Forked, NoChild, Verdict, forkexec-Verdict}
use dromozoa_unix.Lua.{nil, success, integer, text, Answer, returned, Session}
use dromozoa_unix.Lua.Descriptor.{FdArg}
use dromozoa_unix.Lua.Process.{Bytes, Table, program, after_forkexec, keep_pid, impl_forkexec}
use dromozoa_unix.Lua.Process.Vector.{to_argument_vector-command, c_string-NoNul}

module _ {W : Type 0} (strerror : ℤ → Bytes) (k : Kernel W) (o : Openers W) (p : Processes W) where
  -- Success, with the number of a process that runs the program; or an error, with no process, or with one
  -- that has died with it. The call has begun in `before`.
  pub Told : Program → Machine W → Answer × Option ℤ × Session W → Type 0
  Told g before (answer, field, t) =
      let e = t.machine.errno in
      ((answer ≡ returned (success ∷ []))
        × ((n : ℕ) × (w : W) × (field ≡ some (pos n)) × Forked k o p g before n (started w)))
      ⊎ ((answer ≡ returned (nil ∷ text (strerror (pos e)) ∷ integer (pos e) ∷ []))
          × (((field ≡ none) × NoChild k o p before e)
              ⊎ ((n : ℕ) × (w : W) × (field ≡ some (pos n)) × Forked k o p g before n (died e w))))

  after_forkexec-Told :
      (g : Program) (before : Machine W) (s : Session W) (r : (Option (Unit {0}) × ℤ) × Machine W)
      → Verdict k o p g before r.0 r.1.errno
      → Told g before (after_forkexec strerror k o p s r)
  unfolding Told
  after_forkexec-Told g before s ((some y, pid), m) (n, w, number, forked) =
      inl (refl, (n, w, ap (keep_pid strerror k o p) number, forked))
  after_forkexec-Told g before s ((none, pid), m) (inl (nobody, why)) =
      inr (refl, inl (ap (keep_pid strerror k o p) nobody, why))
  after_forkexec-Told g before s ((none, pid), m) (inr (n, w, number, forked)) =
      inr (refl, inr (n, w, ap (keep_pid strerror k o p) number, forked))

  module _ (u : View W) (v : PipeView W) (d : Contract u k o) (c : PipeContract v k o p) where
    -- `process:forkexec` with a path and a table of one string or more, where the system has `pipe2` and
    -- the descriptors 0, 1 and 2 are open: it pushes success and keeps the number of the process only if
    -- its child runs the program, which is the first string. Else it pushes the error `errno`; and either
    -- it keeps no number and there is no child, because the signals could not be blocked, the pipe could
    -- not be opened or `fork` has failed with this error, or the child whose number it keeps has died with
    -- it. A round for each string and one more are enough.
    pub impl_forkexec-Told :
        (fuel : ℕ) (path : Bytes) (t : Table) (command : Bytes) (rest : List Bytes)
        (directory : Option Bytes) (stdio : Option (FdArg × FdArg × FdArg)) (s : Session W)
        → o.have_pipe2 ≡ true
        → ((n : ℕ) → n < 3 → u.opened s.machine.os n ≡ true)
        → ((j : ℕ) → t (1 + j) ≡ get_elem? (command ∷ rest) j)
        → length (command ∷ rest) < fuel
        → (r : Answer × Option ℤ × Session W) × (impl_forkexec strerror k o p fuel
              (some path)
              (some t)
              directory
              stdio
              s
            ≡ some r)
          × Told (program path (c_string command) directory stdio) s.machine r
    unfolding impl_forkexec program
    impl_forkexec-Told fuel path t command rest directory stdio s has open3 at_j room =
        let g = program path (c_string command) directory stdio in
        let (v', run, first_is) = to_argument_vector-command fuel t (command ∷ rest) at_j room in
        let result = forkexec k o p g s.machine in
        (
          after_forkexec strerror k o p s result,
          rw run (rw first_is),
          after_forkexec-Told g s.machine s result (
              forkexec-Verdict u v k o p d c s.machine g (c_string-NoNul path)
                (c_string-NoNul command) has open3),
        )
