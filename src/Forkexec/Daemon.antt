-- ===== src/Forkexec/Daemon.antt =====
-- src/lib/forkexec.cpp: `forkexec_daemon`. A process between the parent and the daemon makes a session and
-- ends at once. Its state is `joined` with the daemon's, so that it carries what the daemon wrote to the
-- pipes until the parent reads.
pub mod Leak
use dromozoa_unix.Prelude.{ℕ, zero, Bool, true, false, Option, none, some, ◌==◌, if◌then◌else◌}
use dromozoa_unix.Prelude.Int.{ℤ, pos, minus_one}
use dromozoa_unix.Fd.{
  Machine, Kernel, Action, Result, call, close, destroy, restore, sigmask_block_all_signals,
}
use dromozoa_unix.Fd.Compat.{Openers, compat_pipe2}
use dromozoa_unix.Forkexec.{
  Processes, ForkexecImpl, no_descriptors, Program, End, died, ended, last_state, Step, running,
  over, destroy_members, open_die, close_stdio, die, or_die, exec_program, code_read, read_die,
}

-- What is read of a process number.
abbrev pub pid_read : Option (Option ℕ) → ℤ
pid_read (some (some n)) = pos n
pid_read _ = minus_one

module _ {W : Type 0} (k : Kernel W) (o : Openers W) (p : Processes W) where
  abbrev pub set_pid : ForkexecImpl → Result W (ℕ × ℕ) → Result W ForkexecImpl
  unfolding destroy
  set_pid impl (none, s) = (none, s)
  set_pid impl (some fd, s) = (
    some (record impl { pid_reader = pos fd.0; pid_writer = pos fd.1 }),
    destroy k impl.pid_writer (destroy k impl.pid_reader s),
  )

  unfoldable pub open_pid : ForkexecImpl → Action W ForkexecImpl
  unfolding compat_pipe2 set_pid
  open_pid impl s = set_pid impl (compat_pipe2 k o k.o_cloexec s)

  unfoldable pub quit : ℕ → ForkexecImpl → Machine W → End W
  unfolding destroy_members close_stdio
  quit pid impl s =
      let t = (call (p.write_int impl.pid_writer pid) s).1 in
      ended (destroy_members k o p impl (close_stdio k o p t)).os

  -- The process that becomes the daemon.
  unfoldable pub daemon : Program → ForkexecImpl → Machine W → End W
  unfolding exec_program close
  daemon g impl s =
      exec_program k o p (record g { stdio = (minus_one, minus_one, minus_one) }) true
        (record impl { pid_writer = minus_one }) (close k impl.pid_writer s).1

  abbrev pub after_second_fork : Program → ForkexecImpl → Result W ℕ → End W
  unfolding daemon quit die
  after_second_fork g impl (none, s) = die k o p impl s
  after_second_fork g impl (some pid, s) =
      let end = daemon g impl (record s { os = p.child s.os }) in
      quit pid impl (record s { os = p.joined s.os (last_state end) })

  abbrev pub after_setsid : Program → Step W ℕ → End W
  unfolding after_second_fork
  after_setsid g (over e) = e
  after_setsid g (running _ impl s) = after_second_fork g impl (call p.fork s)

  -- The process in between.
  unfoldable pub run_middle : Program → ForkexecImpl → Machine W → End W
  unfolding after_setsid close or_die
  run_middle g impl s =
      let t = (close k impl.pid_reader (close k impl.die_reader s).1).1 in
      let impl' = record impl { die_reader = minus_one; pid_reader = minus_one } in
      after_setsid g (or_die k o p impl' (call p.setsid t))

  unfoldable pub read_pid : ForkexecImpl → Machine W → ℤ × ForkexecImpl × Machine W
  unfolding close
  read_pid impl s =
      let r = call (p.read_int impl.pid_reader) s in
      (pid_read r.0, record impl { pid_reader = minus_one }, (close k impl.pid_reader r.1).1)

  -- The result, the two process numbers, the object, and the state.
  abbrev pub Launched : Type 0
  Launched = Option (Unit {0}) × ℤ × ℤ × ForkexecImpl × Machine W

  abbrev pub finish_launch : ℕ → ℕ → ℤ × ForkexecImpl × Machine W → Launched
  finish_launch pid1 code (pid2, impl, s) =
      if code == 0
      then (some tt, pos pid1, pid2, impl, s)
      else (none, pos pid1, pid2, impl, record s { errno = code })

  abbrev pub launch_parent : ℕ → End W → ForkexecImpl → Machine W → Launched
  unfolding read_die read_pid close
  launch_parent pid1 end impl s =
      let t = (close k impl.pid_writer (close k impl.die_writer s).1).1 in
      let r =
        read_die k o p (record impl { die_writer = minus_one; pid_writer = minus_one })
          (record t { os = p.joined t.os (last_state end) }) in
      finish_launch pid1 r.0 (read_pid r.1 r.2)

  abbrev pub after_first_fork : Program → ForkexecImpl → Result W ℕ → Launched
  unfolding run_middle launch_parent
  after_first_fork g impl (none, s) = (none, minus_one, minus_one, impl, s)
  after_first_fork g impl (some pid1, s) =
      launch_parent pid1 (run_middle g impl (record s { os = p.child s.os })) impl s

  abbrev pub after_open_pid : Program → ForkexecImpl → Result W ForkexecImpl → Launched
  unfolding after_first_fork
  after_open_pid g old (none, s) = (none, minus_one, minus_one, old, s)
  after_open_pid g old (some impl, s) = after_first_fork g impl (call p.fork s)

  abbrev pub after_open_die : Program → Result W ForkexecImpl → Launched
  unfolding after_open_pid open_pid
  after_open_die g (none, s) = (none, minus_one, minus_one, no_descriptors, s)
  after_open_die g (some impl, s) = after_open_pid g impl (open_pid impl s)

  abbrev pub leave_daemon : ℕ → Launched → (Option (Unit {0}) × ℤ × ℤ) × Machine W
  unfolding destroy_members restore
  leave_daemon mask (r, pid1, pid2, impl, s) =
      ((r, pid1, pid2), destroy_members k o p impl (restore k mask s))

  abbrev pub with_mask_daemon :
      (Machine W → Launched) → Result W ℕ → (Option (Unit {0}) × ℤ × ℤ) × Machine W
  unfolding leave_daemon
  with_mask_daemon body (none, s) = ((none, minus_one, minus_one), s)
  with_mask_daemon body (some mask, s) = leave_daemon mask (body s)

  -- The function `forkexec_daemon`: its result, `pid1`, `pid2`, and the state.
  unfoldable pub forkexec_daemon : Program → Machine W → (Option (Unit {0}) × ℤ × ℤ) × Machine W
  unfolding with_mask_daemon after_open_die open_die sigmask_block_all_signals
  forkexec_daemon g s =
      with_mask_daemon (λ t. after_open_die g (open_die k o p no_descriptors t))
        (sigmask_block_all_signals k 0 s)
