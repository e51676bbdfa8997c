-- ===== src/Forkexec/Sample.antt =====
-- src/lib/forkexec.cpp: a system that keeps its descriptors and pipes in tables, to run it on.
use dromozoa_unix.Prelude.{
  ℕ, suc, ◌<◌, ◌≡◌, ◌≢◌, refl, ap, arith, Bool, true, false, not, ◌||◌, ◌&&◌, Option, none, some,
  List, [], ◌∷◌, ◌==◌, Bool-cases, inl, inr, if◌then◌else◌, ltb, lt→ltb,
}
use dromozoa_unix.Prelude.Int.{ℤ, pos, negsuc}
use dromozoa_unix.Fd.{Reply, done, failed, Machine, Kernel}
use dromozoa_unix.Fd.Compat.{Openers}
use dromozoa_unix.Fd.Laws.{View, Same, OpensTwo, Contract}
use dromozoa_unix.Forkexec.{Processes}
use dromozoa_unix.Forkexec.Laws.{
  ParentContract, PipeView, SamePipes, SameBut, SameContent, Fails, OpensPipe, PipeContract,
}

pub record World : Type 0 where
  pub table : ℕ → Bool
  pub next : ℕ
  pub mask : ℕ
  pub pipes : ℕ → Option ℕ
  pub content : ℕ → Option ℕ

-- A new pipe has the number of its reader.
abbrev open_pipe : World → Reply (ℕ × ℕ) × World
open_pipe w = if w.table w.next || w.table (suc w.next) then (failed 24, w) else (
  done (w.next, suc w.next),
  record w {
    table = λ n. w.table n || (n == w.next || n == suc w.next);
    next = suc (suc w.next);
    pipes = λ n. if n == w.next || n == suc w.next then some w.next else w.pipes n;
    content = λ q. if q == w.next then none else w.content q;
  },
)

abbrev close_fd : ℤ → World → Reply Unit × World
close_fd (pos fd) w = (
  done tt,
  record w {
    table = λ n. w.table n && not (n == fd);
    pipes = λ n. if n == fd then none else w.pipes n;
  },
)
close_fd (negsuc n) w = (failed 9, w)

abbrev dup_fd : ℤ → ℕ → World → Reply Unit × World
dup_fd (pos fd) to w = (
  done tt,
  record w {
    table = λ n. w.table n || n == to;
    pipes = λ n. if n == to then w.pipes fd else w.pipes n;
  },
)
dup_fd (negsuc n) to w = (failed 9, w)

abbrev write_pipe : Option ℕ → ℕ → World → Reply Unit × World
write_pipe none e w = (failed 9, w)
write_pipe (some q) e w =
    (done tt, record w { content = λ x. if x == q then some e else w.content x })

abbrev write_fd : ℤ → ℕ → World → Reply Unit × World
write_fd (pos fd) e w = write_pipe (w.pipes fd) e w
write_fd (negsuc n) e w = (failed 9, w)

abbrev read_pipe : World → Option ℕ → Reply (Option ℕ)
read_pipe w none = failed 9
read_pipe w (some q) = done (w.content q)

abbrev read_fd : ℤ → World → Reply (Option ℕ) × World
read_fd (pos fd) w = (read_pipe w (w.pipes fd), w)
read_fd (negsuc n) w = (failed 9, w)

-- The names that begin with a slash are programs.
abbrev execute : List ℕ → World → Option ℕ × World
execute [] w = (some 2, w)
execute (c ∷ name) w = (if c == b'/' then none else some 2, w)

abbrev pub kernel : Kernel World
kernel = record {
  fd_cloexec = 1;
  o_cloexec = 524288;
  o_nonblock = 2048;
  o_append = 1024;
  o_sync = 1052672;
  sock_cloexec = 524288;
  sock_nonblock = 2048;
  have_pthread = true;
  close = close_fd;
  fcntl = λ fd c a w. (done 0, w);
  sigfillset = λ w. (done 31, w);
  sigemptyset = λ w. (done 0, w);
  pthread_sigmask = λ m w. (done w.mask, record w { mask = m });
  sigprocmask = λ m w. (done w.mask, record w { mask = m });
  unexpected = λ e s. s;
}

abbrev pub openers : Openers World
openers = record {
  have_pipe2 = true;
  have_sock_flags = true;
  have_accept4 = true;
  have_mkostemp = true;
  pipe = open_pipe;
  pipe2 = λ f. open_pipe;
  socket = λ d t p w. (failed 24, w);
  socketpair = λ d t p. open_pipe;
  accept = λ fd w. (failed 24, w);
  accept4 = λ fd f w. (failed 24, w);
  mkstemp = λ t w. (failed 24, w);
  mkostemp = λ t f w. (failed 24, w);
  unlink = λ name w. (done tt, w);
}

abbrev pub processes : Processes World
processes = record {
  exec = record { enoent = 2; eacces = 13; eisdir = 21; eperm = 1; execve = execute };
  chdir = λ d w. (done tt, w);
  dup2 = dup_fd;
  open_null = λ w. (failed 24, w);
  write_int = write_fd;
  read_int = read_fd;
  setsid = λ w. (done 100, w);
  fork = λ w. (done 100, w);
  child = λ w. w;
  joined = λ w c. record w { content = c.content };
}

abbrev pub view : View World
view = record { opened = λ w. w.table; mask = λ w. w.mask; Reported = λ e. Unit }

abbrev pub pipe_view : PipeView World
pipe_view = record { pipe_of = λ w. w.pipes; content = λ w. w.content }

Same-refl : (w : World) → Same view w w
Same-refl w = (λ n. refl, refl)

open_pipe-OpensTwo : (w : World) → OpensTwo view w (open_pipe w)
open_pipe-OpensTwo w = elim (Bool-cases (w.table w.next)) [
  | inl h ↦ rw h (Same-refl w, tt)
  | inr h ↦ elim (Bool-cases (w.table (suc w.next))) [
    | inl g ↦ rw (h, g) (Same-refl w, tt)
    | inr g ↦ rw (h, g) (omega arith, h, g, λ n. refl, refl)
  ]
]

pub contract : Contract view kernel openers
contract = record {
  fcntl_quiet = λ fd c a. Same-refl;
  close_closes = λ fd w. (λ n. refl, refl);
  sigfillset_quiet = Same-refl;
  pthread_masks = λ m w. (refl, refl, λ n. refl);
  sigprocmask_masks = λ m w. (refl, refl, λ n. refl);
  unexpected_quiet = λ e s. Same-refl s.os;
  pipe_opens = open_pipe-OpensTwo;
  pipe2_opens = λ f. open_pipe-OpensTwo;
  socket_opens = λ d t p w. (Same-refl w, tt);
  socketpair_opens = λ d t p. open_pipe-OpensTwo;
  accept_opens = λ fd w. (Same-refl w, tt);
  accept4_opens = λ fd f w. (Same-refl w, tt);
  mkstemp_opens = λ t w. (Same-refl w, tt);
  mkostemp_opens = λ t f w. (Same-refl w, tt);
  unlink_same = λ name. Same-refl;
}

read_fd-Same : (fd : ℤ) (w : World) → Same view w (read_fd fd w).1
read_fd-Same (pos fd) w = Same-refl w
read_fd-Same (negsuc n) w = Same-refl w

pub parent_contract : ParentContract view processes
parent_contract = record {
  fork_same = Same-refl;
  joined_same = λ w c. Same-refl w;
  read_same = read_fd-Same;
}

other_number : (n fd : ℕ) → n ≢ fd → (n == fd) ≡ false
other_number n fd h = ground arith

same_number : (n : ℕ) → (n == n) ≡ true
same_number n = ground arith

-- A table changed at one number.
changed_but :
    {A : Type 0} (fd : ℕ) (a : A) (t : ℕ → A) (n : ℕ) → n ≢ fd → (if n == fd then a else t n) ≡ t n
changed_but fd a t n d = rw (other_number n fd d)

SamePipes-refl : (w : World) → SamePipes pipe_view w w
SamePipes-refl w = (λ n. refl, λ q. refl)

close_same_lem :
    (fd : ℤ) (w : World)
    → ((n : ℕ) → pos n ≢ fd → (close_fd fd w).1.pipes n ≡ w.pipes n)
      × SameContent pipe_view w (close_fd fd w).1
close_same_lem (pos fd) w = (λ n d. changed_but fd none w.pipes n (λ x. d (ap pos x)), λ q. refl)
close_same_lem (negsuc m) w = (λ n d. refl, λ q. refl)

dup_same_lem : (fd : ℤ) (to : ℕ) (w : World) → SameBut pipe_view to w (dup_fd fd to w).1
dup_same_lem (pos fd) to w = (λ n d. changed_but to (w.pipes fd) w.pipes n d, λ q. refl)
dup_same_lem (negsuc m) to w = (λ n d. refl, λ q. refl)

dup_fd-Fails : (fd : ℤ) (to : ℕ) (w : World) → Fails pipe_view (dup_fd fd to w).0
dup_fd-Fails (pos fd) to w = tt
dup_fd-Fails (negsuc m) to w = omega arith

open_pipe-OpensPipe : (w : World) → OpensPipe pipe_view w (open_pipe w)
open_pipe-OpensPipe w = elim (Bool-cases (w.table w.next || w.table (suc w.next))) [
  | inl h ↦ rw h (omega arith)
  | inr h ↦ rw h (w.next, ground arith, ground arith, ground arith)
]

execute_nonzero : (f : List ℕ) (w : World) (e : ℕ) → (execute f w).0 ≡ some e → e ≢ 0
execute_nonzero [] w e h = ground arith
execute_nonzero (c ∷ f) w e h = ground arith

execute_same : (f : List ℕ) (w : World) → SamePipes pipe_view w (execute f w).1
execute_same [] w = SamePipes-refl w
execute_same (c ∷ f) w = SamePipes-refl w

write_fd_lem :
    (fd q e : ℕ) (w : World)
    → w.pipes fd ≡ some q
    → w.content q ≡ none
    → (write_fd (pos fd) e w).1.content q ≡ some e
write_fd_lem fd q e w h g = rw (h, same_number q)

pub pipe_contract : PipeContract pipe_view kernel openers processes
pipe_contract = record {
  enoent_nonzero = omega arith;
  execve_nonzero = execute_nonzero;
  execve_same = execute_same;
  chdir_same = λ d w. (SamePipes-refl w, tt);
  dup2_same = λ fd to w. (dup_same_lem fd to w, dup_fd-Fails fd to w);
  open_null_opens = λ w. (SamePipes-refl w, omega arith);
  close_same = close_same_lem;
  unexpected_same = λ e s. SamePipes-refl s.os;
  sigfillset_same = SamePipes-refl;
  sigemptyset_same = λ w. (SamePipes-refl w, tt);
  pthread_same = λ m w. SamePipes-refl w;
  sigprocmask_same = λ m w. (SamePipes-refl w, tt);
  pipe2_opens = λ f. open_pipe-OpensPipe;
  write_writes = write_fd_lem;
  read_reads = λ fd q w h. ap (read_pipe w) h;
  fork_same = λ w. (SamePipes-refl w, SamePipes-refl w);
  joined_same = λ w c n. refl;
  joined_content = λ w c q h. refl;
}

-- 0, 1 and 2 are open.
abbrev pub start : Machine World
start = record {
  os = record { table = λ n. ltb n 3; next = 3; mask = 7; pipes = λ n. none; content = λ q. none };
  errno = 0;
}

pub three_open : (n : ℕ) → n < 3 → start.os.table n ≡ true
three_open n h = lt→ltb n 3 h
