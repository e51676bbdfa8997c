-- ===== src/Fd/Sample.antt =====
-- A system in which `F_SETFL` and every `close` fail, for runs of the code that opens descriptors.
use dromozoa_unix.Prelude.{
  ℕ, suc, ◌≢◌, refl, Bool, true, false, not, ◌||◌, ◌&&◌, List, arith, ◌==◌, if◌then◌else◌,
  Bool-cases, inl, inr, ltb,
}
use dromozoa_unix.Prelude.Int.{ℤ, pos, negsuc}
use dromozoa_unix.Fd.{
  Reply, done, failed, Machine, Kernel, Command, f_getfd, f_setfd, f_getfl, f_setfl,
}
use dromozoa_unix.Fd.Compat.{Openers}
use dromozoa_unix.Fd.Laws.{View, Same, Quiet, OpensOne, OpensTwo, Contract}

pub record World : Type 0 where
  pub table : ℕ → Bool
  pub next : ℕ
  pub mask : ℕ

-- The next numbers are given, unless they are in use.
abbrev pub open_one_fd : World → Reply ℕ × World
open_one_fd w =
    if w.table w.next
    then (failed 24, w)
    else (done w.next, record w { table = λ n. w.table n || n == w.next; next = suc w.next })

abbrev open_two_fds : World → Reply (ℕ × ℕ) × World
open_two_fds w = if w.table w.next || w.table (suc w.next) then (failed 24, w) else (
  done (w.next, suc w.next),
  record w { table = λ n. w.table n || (n == w.next || n == suc w.next); next = suc (suc w.next) },
)

abbrev close_fd : ℤ → World → Reply Unit × World
close_fd (pos fd) w = (failed 5, record w { table = λ n. w.table n && not (n == fd) })
close_fd (negsuc n) w = (failed 9, w)

abbrev set_flags : Command → World → Reply ℕ × World
set_flags f_setfl w = (failed 22, w)
set_flags _ w = (done 0, w)

abbrev open_file : List ℕ → World → Reply (ℕ × List ℕ) × World
open_file t w =
    if w.table w.next
    then (failed 24, w)
    else (done (w.next, t), record w { table = λ n. w.table n || n == w.next; next = suc w.next })

abbrev pub kernel : Kernel World
kernel = record {
  fd_cloexec = 1;
  o_cloexec = 524288;
  o_nonblock = 2048;
  o_append = 1024;
  o_sync = 1052672;
  sock_cloexec = 524288;
  sock_nonblock = 2048;
  have_pthread = true;
  close = close_fd;
  fcntl = λ fd c a w. set_flags c w;
  sigfillset = λ w. (done 31, w);
  sigemptyset = λ w. (done 0, w);
  pthread_sigmask = λ m w. (done w.mask, record w { mask = m });
  sigprocmask = λ m w. (done w.mask, record w { mask = m });
  unexpected = λ e s. record s { errno = 99 };
}

abbrev pub openers : Openers World
openers = record {
  have_pipe2 = false;
  have_sock_flags = false;
  have_accept4 = false;
  have_mkostemp = false;
  pipe = open_two_fds;
  pipe2 = λ f. open_two_fds;
  socket = λ d t p. open_one_fd;
  socketpair = λ d t p. open_two_fds;
  accept = λ fd. open_one_fd;
  accept4 = λ fd f. open_one_fd;
  mkstemp = open_file;
  mkostemp = λ t f. open_file t;
  unlink = λ name w. (failed 5, w);
}

-- The error of `close` and `unlink` here is not one that a caller may see.
abbrev pub view : View World
view = record { opened = λ w. w.table; mask = λ w. w.mask; Reported = λ e. e ≢ 5 }

Same-refl : (w : World) → Same view w w
Same-refl w = (λ n. refl, refl)

open_two_OpensTwo : (w : World) → OpensTwo view w (open_two_fds w)
open_two_OpensTwo w = elim (Bool-cases (w.table w.next)) [
  | inl h ↦ rw h (Same-refl w, omega arith)
  | inr h ↦ elim (Bool-cases (w.table (suc w.next))) [
    | inl g ↦ rw (h, g) (Same-refl w, omega arith)
    | inr g ↦ rw (h, g) (omega arith, h, g, λ n. refl, refl)
  ]
]

pub open_one_OpensOne : (w : World) → OpensOne view {A = ℕ} (λ a. a) w (open_one_fd w)
open_one_OpensOne w = elim (Bool-cases (w.table w.next)) [
  | inl h ↦ rw h (Same-refl w, omega arith)
  | inr h ↦ rw h (h, λ n. refl, refl)
]

open_file-OpensOne :
    (t : List ℕ) (w : World) → OpensOne view {A = ℕ × List ℕ} (λ a. a.0) w (open_file t w)
open_file-OpensOne t w = elim (Bool-cases (w.table w.next)) [
  | inl h ↦ rw h (Same-refl w, omega arith)
  | inr h ↦ rw h (h, λ n. refl, refl)
]

set_flags-Quiet : (c : Command) (a : ℕ) (w : World) → Quiet view w (set_flags c w)
set_flags-Quiet f_getfd a w = Same-refl w
set_flags-Quiet f_setfd a w = Same-refl w
set_flags-Quiet f_getfl a w = Same-refl w
set_flags-Quiet f_setfl a w = (Same-refl w, omega arith)

-- The system keeps the contract.
pub contract : Contract view kernel openers
contract = record {
  fcntl_quiet = λ fd. set_flags-Quiet;
  close_closes = λ fd w. (λ n. refl, refl);
  sigfillset_quiet = Same-refl;
  pthread_masks = λ m w. (refl, refl, λ n. refl);
  sigprocmask_masks = λ m w. (refl, refl, λ n. refl);
  unexpected_quiet = λ e s. Same-refl s.os;
  pipe_opens = open_two_OpensTwo;
  pipe2_opens = λ f. open_two_OpensTwo;
  socket_opens = λ d t p. open_one_OpensOne;
  socketpair_opens = λ d t p. open_two_OpensTwo;
  accept_opens = λ fd. open_one_OpensOne;
  accept4_opens = λ fd f. open_one_OpensOne;
  mkstemp_opens = open_file-OpensOne;
  mkostemp_opens = λ t f. open_file-OpensOne t;
  unlink_same = λ name. Same-refl;
}

-- 0, 1 and 2 are open.
abbrev pub start : Machine World
start = record { os = record { table = λ n. ltb n 3; next = 3; mask = 7 }; errno = 0 }
