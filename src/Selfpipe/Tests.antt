-- ===== src/Selfpipe/Tests.antt =====
-- src/lib/selfpipe.cpp: runs on a system that keeps its descriptors in a table.
use dromozoa_unix.Prelude.{
  ℕ, suc, ◌-◌, ◌≡◌, refl, arith, Bool, true, false, not, ◌||◌, ◌&&◌, none, some, [], ◌∷◌, ◌==◌,
  Bool-cases, inl, inr, if◌then◌else◌, ltb,
}
use dromozoa_unix.Prelude.Int.{ℤ, pos, negsuc}
use dromozoa_unix.Fd.{Reply, done, failed, Machine, Kernel}
use dromozoa_unix.Fd.Compat.{Openers}
use dromozoa_unix.Fd.Laws.{View, Same, OpensTwo, Contract}
use dromozoa_unix.Selfpipe.{
  Signals, returned, selfpipe_open, selfpipe_close, publish, byte, end_of_file, error,
}
use dromozoa_unix.Selfpipe.Effect.{
  SignalContract, idle, busy, resting, serving, Effect, selfpipe_open-Effect, selfpipe_close-Effect,
}
use dromozoa_unix.Selfpipe.Impl.{impl_open, impl_close, closed}

-- `bytes` are in the pipe of a subscriber.
record World : Type 0 where
  table : ℕ → Bool
  next : ℕ
  mask : ℕ
  bytes : ℕ

abbrev open_pipe : World → Reply (ℕ × ℕ) × World
open_pipe w = if w.table w.next || w.table (suc w.next) then (failed 24, w) else (
  done (w.next, suc w.next),
  record w { table = λ n. w.table n || (n == w.next || n == suc w.next); next = suc (suc w.next) },
)

abbrev close_fd : ℤ → World → Reply Unit × World
close_fd (pos fd) w = (done tt, record w { table = λ n. w.table n && not (n == fd) })
close_fd (negsuc n) w = (failed 9, w)

abbrev kernel : Kernel World
kernel = record {
  fd_cloexec = 1;
  o_cloexec = 524288;
  o_nonblock = 2048;
  o_append = 1024;
  o_sync = 1052672;
  sock_cloexec = 524288;
  sock_nonblock = 2048;
  have_pthread = true;
  close = close_fd;
  fcntl = λ fd c a w. (done 0, w);
  sigfillset = λ w. (done 31, w);
  sigemptyset = λ w. (done 0, w);
  pthread_sigmask = λ m w. (done w.mask, record w { mask = m });
  sigprocmask = λ m w. (done w.mask, record w { mask = m });
  unexpected = λ e s. s;
}

abbrev openers : Openers World
openers = record {
  have_pipe2 = true;
  have_sock_flags = true;
  have_accept4 = true;
  have_mkostemp = true;
  pipe = open_pipe;
  pipe2 = λ f. open_pipe;
  socket = λ d t p w. (failed 24, w);
  socketpair = λ d t p. open_pipe;
  accept = λ fd w. (failed 24, w);
  accept4 = λ fd f w. (failed 24, w);
  mkstemp = λ t w. (failed 24, w);
  mkostemp = λ t f w. (failed 24, w);
  unlink = λ name w. (done tt, w);
}

abbrev take_byte : World → Bool × World
take_byte w = (not (w.bytes == 0), record w { bytes = w.bytes - 1 })

abbrev signals : Signals World
signals = record {
  einval = 22;
  eintr = 4;
  sigaction_trigger = λ w. (done 5, w);
  sigaction_set = λ sa w. (done tt, w);
  create_thread = λ w. (true, w);
  join_thread = λ w. (true, w);
  read_byte = λ fd. take_byte;
}

abbrev view : View World
view = record { opened = λ w. w.table; mask = λ w. w.mask; Reported = λ e. Unit }

Same-refl : (w : World) → Same view w w
Same-refl w = (λ n. refl, refl)

open_pipe-OpensTwo : (w : World) → OpensTwo view w (open_pipe w)
open_pipe-OpensTwo w = elim (Bool-cases (w.table w.next)) [
  | inl h ↦ rw h (Same-refl w, tt)
  | inr h ↦ elim (Bool-cases (w.table (suc w.next))) [
    | inl g ↦ rw (h, g) (Same-refl w, tt)
    | inr g ↦ rw (h, g) (omega arith, h, g, λ n. refl, refl)
  ]
]

contract : Contract view kernel openers
contract = record {
  fcntl_quiet = λ fd c a. Same-refl;
  close_closes = λ fd w. (λ n. refl, refl);
  sigfillset_quiet = Same-refl;
  pthread_masks = λ m w. (refl, refl, λ n. refl);
  sigprocmask_masks = λ m w. (refl, refl, λ n. refl);
  unexpected_quiet = λ e s. Same-refl s.os;
  pipe_opens = open_pipe-OpensTwo;
  pipe2_opens = λ f. open_pipe-OpensTwo;
  socket_opens = λ d t p w. (Same-refl w, tt);
  socketpair_opens = λ d t p. open_pipe-OpensTwo;
  accept_opens = λ fd w. (Same-refl w, tt);
  accept4_opens = λ fd f w. (Same-refl w, tt);
  mkstemp_opens = λ t w. (Same-refl w, tt);
  mkostemp_opens = λ t f w. (Same-refl w, tt);
  unlink_same = λ name. Same-refl;
}

signal_contract : SignalContract view signals
signal_contract = record {
  trigger_same = Same-refl;
  set_same = λ sa. Same-refl;
  create_same = Same-refl;
  join_same = Same-refl;
}

abbrev start : Machine World
start = record { os = record { table = λ n. ltb n 3; next = 3; mask = 7; bytes = 2 }; errno = 0 }

-- The first subscriber brings the pipe of the file, 5 and 6, besides its own.
open_runs :
    let r = impl_open kernel openers signals closed (idle 0) start in
    (r.0 ≡ returned (some tt)) × (r.2 ≡ busy 5 6 5 (pos 4 ∷ []))
unfolding impl_open
open_runs = (refl, refl)

open_close_runs :
    let r = impl_open kernel openers signals closed (idle 0) start in
    let r' = impl_close kernel openers signals r.1 r.2 r.3 in
    (r'.0 ≡ returned (some tt))
    × (r'.2 ≡ idle 5)
    × (r'.3.os.table 3 ≡ false)
    × (r'.3.os.table 6 ≡ false)
unfolding impl_open impl_close
open_close_runs = (refl, refl, refl, refl)

publish_runs :
    publish 4
      ((byte, pos 4 ∷ []) ∷ (error 4, []) ∷ (byte, pos 4 ∷ pos 8 ∷ []) ∷ (end_of_file, []) ∷ [])
    ≡ (pos 4 ∷ pos 4 ∷ pos 8 ∷ [], none)
unfolding publish
publish_runs = refl

selfpipe_open-Effect_example :
    Effect view
      (idle 0)
      (pos 4 ∷ [])
      start.os
      (selfpipe_open kernel openers signals (pos 4) (idle 0) start)
selfpipe_open-Effect_example =
    selfpipe_open-Effect view kernel openers signals contract signal_contract (pos 4) (idle 0) start
      (resting 0)

selfpipe_close-Effect_example :
    Effect view
      (busy 1 2 5 (pos 4 ∷ []))
      []
      start.os
      (selfpipe_close kernel openers signals (pos 4) (busy 1 2 5 (pos 4 ∷ [])) start)
selfpipe_close-Effect_example =
    selfpipe_close-Effect view kernel openers signals contract signal_contract (pos 4)
      (busy 1 2 5 (pos 4 ∷ [])) start (serving 1 2 5 (pos 4) [])

takes : (w : World) → (take_byte w).0 ≡ true → w.bytes ≡ suc (take_byte w).1.bytes
takes w h = ground arith

ends : (w : World) → (take_byte w).0 ≡ false → (w.bytes ≡ 0) × ((take_byte w).1.bytes ≡ 0)
ends w h = ground arith
