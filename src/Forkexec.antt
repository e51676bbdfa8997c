-- ===== src/Forkexec.antt =====
-- src/lib/forkexec.cpp: a program started in a child process, whose failures come back over a pipe. The
-- system's calls are parameters. The code behind `fork` is run for each process on a state of its own: a
-- child starts with `child` of the state, and the parent goes on with `joined` of its own state and the
-- child's last one where it reads from a pipe until the child has closed its ends.
pub mod Daemon
pub mod Laws
pub mod Ends
pub mod Child
pub mod Parent
pub mod Report
pub mod Verdict
pub mod Sample
mod Tests
use dromozoa_unix.Prelude.{
  ℕ, zero, Bool, true, false, Option, none, some, List, [], replicate, leb, ◌==◌, if◌then◌else◌,
}
use dromozoa_unix.Prelude.Int.{ℤ, pos, minus_one, eq_ℤ}
use dromozoa_unix.Pathexec.{Exec, Outcome, replaced, returned, pathexec, pathexec_buffer_size}
use dromozoa_unix.Fd.{
  Reply, Machine, Kernel, Action, Result, ◌>>=◌, call, close, destroy, restore,
  sigmask_block_all_signals, sigmask_unblock_all_signals,
}
use dromozoa_unix.Fd.Compat.{Openers, compat_pipe2}

-- `write_int` and `read_int` move one `int`; a read gives none at the end of the file.
pub record Processes (W : Type 0) : Type 0 where
  pub exec : Exec W
  pub chdir : List ℕ → W → Reply Unit × W
  pub dup2 : ℤ → ℕ → W → Reply Unit × W
  pub open_null : W → Reply ℕ × W
  pub write_int : ℤ → ℕ → W → Reply Unit × W
  pub read_int : ℤ → W → Reply (Option ℕ) × W
  pub setsid : W → Reply ℕ × W
  pub fork : W → Reply ℕ × W
  pub child : W → W
  pub joined : W → W → W

pub record ForkexecImpl : Type 0 where
  pub die_reader : ℤ
  pub die_writer : ℤ
  pub pid_reader : ℤ
  pub pid_writer : ℤ
  pub null_fd : ℤ

abbrev pub no_descriptors : ForkexecImpl
no_descriptors = record {
  die_reader = minus_one;
  die_writer = minus_one;
  pid_reader = minus_one;
  pid_writer = minus_one;
  null_fd = minus_one;
}

-- What the caller asks for. No `dup2_stdio` is three times -1, which is what the code makes of it.
pub record Program : Type 0 where
  pub path : Option (List ℕ)
  pub command : List ℕ
  pub directory : Option (List ℕ)
  pub stdio : ℤ × ℤ × ℤ

-- How a child ends: with a new program, by `die` with this `errno`, by `quit`, or by a write outside of
-- the buffer, which is undefined.
pub data End (W : Type 0) : Type 0 where
  started : W → End W
  died : ℕ → W → End W
  ended : W → End W
  overrun : W → End W

abbrev pub last_state : {W : Type 0} → End W → W
last_state (started w) = w
last_state (died e w) = w
last_state (ended w) = w
last_state (overrun w) = w

-- A step of a child: it goes on, or has ended.
pub data Step (W A : Type 0) : Type 0 where
  running : A → ForkexecImpl → Machine W → Step W A
  over : End W → Step W A

abbrev pub Child : Type 0 → Type 0 → Type 0
Child W A = ForkexecImpl → Machine W → Step W A

abbrev pub go_on : {W A B : Type 0} → (A → Child W B) → Step W A → Step W B
go_on f (running a impl s) = f a impl s
go_on f (over e) = over e

infixl 5 ◌>=>◌
abbrev pub ◌>=>◌ : {W A B : Type 0} → Child W A → (A → Child W B) → Child W B
(m >=> f) impl s = go_on f (m impl s)

-- The buffer for `pathexec`: on the stack where it fits.
abbrev pub static_buffer_size : ℕ
static_buffer_size = 256

abbrev pub buffer_of : ℕ → List ℕ
buffer_of size = replicate (if leb size static_buffer_size then static_buffer_size else size) 0

module _ {W : Type 0} (k : Kernel W) (o : Openers W) (p : Processes W) where
  -- `forkexec_impl::~forkexec_impl`: the members, the last one first.
  unfoldable pub destroy_members : ForkexecImpl → Machine W → Machine W
  unfolding destroy
  destroy_members impl s = destroy k impl.die_reader (
      destroy k impl.die_writer
        (destroy k impl.pid_reader (destroy k impl.pid_writer (destroy k impl.null_fd s))))

  abbrev pub set_die : ForkexecImpl → Result W (ℕ × ℕ) → Result W ForkexecImpl
  unfolding destroy
  set_die impl (none, s) = (none, s)
  set_die impl (some fd, s) = (
    some (record impl { die_reader = pos fd.0; die_writer = pos fd.1 }),
    destroy k impl.die_writer (destroy k impl.die_reader s),
  )

  unfoldable pub open_die : ForkexecImpl → Action W ForkexecImpl
  unfolding compat_pipe2 set_die
  open_die impl s = set_die impl (compat_pipe2 k o k.o_cloexec s)

  abbrev pub close_stdio : Machine W → Machine W
  unfolding close
  close_stdio s = (close k (pos 2) (close k (pos 1) (close k (pos 0) s).1).1).1

  unfoldable pub die : ForkexecImpl → Machine W → End W
  unfolding destroy_members close_stdio
  die impl s =
      died s.errno
        (destroy_members impl (close_stdio (call (p.write_int impl.die_writer s.errno) s).1)).os

  abbrev pub or_die : {A : Type 0} → ForkexecImpl → Result W A → Step W A
  unfolding die
  or_die impl (none, s) = over (die impl s)
  or_die impl (some a, s) = running a impl s

  -- `if (... == -1) die();`
  abbrev pub must : {A : Type 0} → Action W A → Child W A
  unfolding or_die
  must m impl s = or_die impl (m s)

  unfoldable pub change_directory : Option (List ℕ) → Child W Unit
  unfolding must
  change_directory none impl s = running tt impl s
  change_directory (some d) impl s = must (call (p.chdir d)) impl s

  unfoldable pub dup_one : ℤ → ℕ → Child W Unit
  unfolding must
  dup_one fd to impl s =
      if eq_ℤ fd minus_one then running tt impl s else must (call (p.dup2 fd to)) impl s

  unfoldable pub dup_stdio : ℤ × ℤ × ℤ → Child W Unit
  unfolding dup_one
  dup_stdio (a, b, c) = dup_one a 0 >=> λ _. dup_one b 1 >=> λ _. dup_one c 2

  abbrev pub set_null : ℕ → Child W Unit
  unfolding destroy
  set_null fd impl s = running tt (record impl { null_fd = pos fd }) (destroy k impl.null_fd s)

  abbrev pub dup_from_null : ℕ → Child W Unit
  unfolding must
  dup_from_null to impl s = must (call (p.dup2 impl.null_fd to)) impl s

  abbrev pub close_null : Child W Unit
  unfolding close
  close_null impl s = running tt (record impl { null_fd = minus_one }) (close k impl.null_fd s).1

  unfoldable pub dup_null : Bool → Child W Unit
  unfolding must set_null dup_from_null close_null
  dup_null false impl s = running tt impl s
  dup_null true impl s =
      (must (call p.open_null) >=> λ fd. set_null fd >=> λ _.
      dup_from_null 0 >=> λ _. dup_from_null 1 >=> λ _. dup_from_null 2 >=> λ _. close_null)
        impl s

  -- The steps before `pathexec`.
  unfoldable pub prepare : Program → Bool → Child W ℕ
  unfolding change_directory dup_stdio dup_null must sigmask_unblock_all_signals
  prepare g dup2_null = change_directory g.directory >=> λ _.
      dup_stdio g.stdio >=> λ _. dup_null dup2_null >=> λ _. must (sigmask_unblock_all_signals k 0)

  abbrev pub after_pathexec : ForkexecImpl → Machine W → Option (Outcome W) → End W
  unfolding die
  after_pathexec impl s none = overrun s.os
  after_pathexec impl s (some (replaced w)) = started w
  after_pathexec impl s (some (returned e w)) = die impl (record { os = w; errno = e })

  abbrev pub run_program : Program → List ℕ → ℕ → Step W ℕ → End W
  unfolding after_pathexec pathexec
  run_program g buffer size (over e) = e
  run_program g buffer size (running _ impl s) =
      after_pathexec impl s (pathexec p.exec g.path g.command buffer size s.os)

  -- `forkexec_impl::forkexec`, which does not return.
  unfoldable pub exec_program : Program → Bool → ForkexecImpl → Machine W → End W
  unfolding prepare run_program pathexec_buffer_size
  exec_program g dup2_null impl s =
      let size = pathexec_buffer_size g.path g.command in
      run_program g (buffer_of size) size (prepare g dup2_null impl s)

  -- The child of `forkexec`.
  unfoldable pub run_child : Program → ForkexecImpl → Machine W → End W
  unfolding exec_program close
  run_child g impl s =
      exec_program g false (record impl { die_reader = minus_one }) (close k impl.die_reader s).1

  -- What is read, and 0 where nothing is.
  abbrev pub code_read : Option (Option ℕ) → ℕ
  code_read (some (some e)) = e
  code_read _ = 0

  -- `read_die`, in the parent, when the child has ended.
  unfoldable pub read_die : ForkexecImpl → Machine W → ℕ × ForkexecImpl × Machine W
  unfolding close
  read_die impl s =
      let r = call (p.read_int impl.die_reader) s in
      (code_read r.0, record impl { die_reader = minus_one }, (close k impl.die_reader r.1).1)

  -- The result, the process number, the object, and the state.
  abbrev pub Started : Type 0
  Started = Option (Unit {0}) × ℤ × ForkexecImpl × Machine W

  abbrev pub finish_parent : ℕ → ℕ × ForkexecImpl × Machine W → Started
  finish_parent pid (code, impl, s) =
      if code == 0
      then (some tt, pos pid, impl, s)
      else (none, pos pid, impl, record s { errno = code })

  abbrev pub parent : ℕ → End W → ForkexecImpl → Machine W → Started
  unfolding read_die close
  parent pid end impl s =
      let t = (close k impl.die_writer s).1 in
      finish_parent pid (
        read_die (record impl { die_writer = minus_one })
          (record t { os = p.joined t.os (last_state end) }))

  abbrev pub after_fork : Program → ForkexecImpl → Result W ℕ → Started
  unfolding run_child parent
  after_fork g impl (none, s) = (none, minus_one, impl, s)
  after_fork g impl (some pid, s) =
      parent pid (run_child g impl (record s { os = p.child s.os })) impl s

  abbrev pub after_die : Program → Result W ForkexecImpl → Started
  unfolding after_fork
  after_die g (none, s) = (none, minus_one, no_descriptors, s)
  after_die g (some impl, s) = after_fork g impl (call p.fork s)

  -- The end of the scope: the mask, then the object.
  abbrev pub leave : ℕ → Started → (Option (Unit {0}) × ℤ) × Machine W
  unfolding destroy_members restore
  leave mask (r, pid, impl, s) = ((r, pid), destroy_members impl (restore k mask s))

  abbrev pub with_mask : (Machine W → Started) → Result W ℕ → (Option (Unit {0}) × ℤ) × Machine W
  unfolding leave
  with_mask body (none, s) = ((none, minus_one), s)
  with_mask body (some mask, s) = leave mask (body s)

  -- The function `forkexec`: its result, `pid`, and the state.
  unfoldable pub forkexec : Program → Machine W → (Option (Unit {0}) × ℤ) × Machine W
  unfolding with_mask after_die open_die sigmask_block_all_signals
  forkexec g s =
      with_mask (λ t. after_die g (open_die no_descriptors t)) (sigmask_block_all_signals k 0 s)
