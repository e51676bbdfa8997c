-- ===== src/Selfpipe.antt =====
-- src/lib/selfpipe.cpp: a thread that passes on the signals of ended children to every subscriber. The
-- set of subscribers is a list of descriptors without order, a signal action a number. The calls for
-- signals and threads are parameters.
pub mod Effect
pub mod Impl
pub mod Threads
mod Tests
use dromozoa_unix.Prelude.{
  ℕ, zero, suc, ◌+◌, Bool, true, false, not, ◌||◌, Option, none, some, List, [], ◌∷◌, ◌++◌,
  if◌then◌else◌,
}
use dromozoa_unix.Prelude.Int.{ℤ, pos, minus_one, eq_ℤ}
use dromozoa_unix.Prelude.Bits.{bit_or}
use dromozoa_unix.Fd.{
  Reply, done, failed, Machine, Kernel, Result, call, close, destroy, ndelay_on, restore,
  sigmask_block_all_signals,
}
use dromozoa_unix.Fd.Compat.{Openers, compat_pipe2}

-- A thread is created, or `thread` throws; it is joined, or `join` throws. `read_byte` says whether a
-- byte was read.
pub record Signals (W : Type 0) : Type 0 where
  pub einval : ℕ
  pub eintr : ℕ
  pub sigaction_trigger : W → Reply ℕ × W
  pub sigaction_set : ℕ → W → Reply Unit × W
  pub create_thread : W → Bool × W
  pub join_thread : W → Bool × W
  pub read_byte : ℤ → W → Bool × W

-- The variables of the file.
pub record Selfpipe : Type 0 where
  pub thread : Bool
  pub reader : ℤ
  pub writer : ℤ
  pub save_sa : ℕ
  pub subscribers : List ℤ

abbrev pub initial : Selfpipe
initial = record {
  thread = false;
  reader = minus_one;
  writer = minus_one;
  save_sa = 0;
  subscribers = [];
}

-- How a call ends: it returns, throws, or ends the program.
pub data Outcome : Type 0 where
  returned : Option (Unit {0}) → Outcome
  thrown : Outcome
  terminated : Outcome

abbrev pub member : ℤ → List ℤ → Bool
member x [] = false
member x (y ∷ ys) = eq_ℤ y x || member x ys

-- `std::set::erase`.
abbrev pub erase : ℤ → List ℤ → List ℤ
erase x [] = []
erase x (y ∷ ys) = if eq_ℤ y x then erase x ys else y ∷ erase x ys

abbrev pub is_empty : List ℤ → Bool
is_empty [] = true
is_empty (y ∷ ys) = false

-- What `read` gives the publisher: a byte, the end of the file, or an error.
pub data Read : Type 0 where
  byte : Read
  end_of_file : Read
  error : ℕ → Read

-- The loop of `selfpipe_publisher` over what it reads, with the subscribers at that time: the
-- descriptors that it writes a byte to, and the error that it reports.
unfoldable pub publish : ℕ → List (Read × List ℤ) → List ℤ × Option ℕ
publish eintr [] = ([], none)
publish eintr ((byte, subscribers) ∷ rest) = let r = publish eintr rest in (subscribers ++ r.0, r.1)
publish eintr ((end_of_file, subscribers) ∷ rest) = ([], none)
publish eintr ((error e, subscribers) ∷ rest) = elim (eq_ℤ (pos e) (pos eintr)) [
  | true ↦ publish eintr rest
  | false ↦ ([], some e)
]

module _ {W : Type 0} (k : Kernel W) (o : Openers W) (p : Signals W) where
  abbrev pub After : Type 0
  After = Outcome × Selfpipe × Machine W

  -- A call whose failure cannot be returned.
  abbrev pub report : Result W Unit → Machine W
  report (some u, s) = s
  report (none, s) = k.unexpected s.errno s

  abbrev pub with_os : Machine W → Bool × W → Bool × Machine W
  with_os s (b, w) = (b, record s { os = w })

  -- The two descriptors of the scope, the writer first.
  abbrev pub destroy_two : ℕ → ℕ → Machine W → Machine W
  unfolding destroy
  destroy_two a b s = destroy k (pos a) (destroy k (pos b) s)

  abbrev pub no_pipe : Selfpipe → Selfpipe
  no_pipe g = record g { reader = minus_one; writer = minus_one }

  abbrev pub after_thread : ℤ → Selfpipe → ℕ → ℕ → Bool × Machine W → After
  unfolding destroy_two
  after_thread x g a b (true, s) =
      (returned (some tt), record g { thread = true; subscribers = x ∷ g.subscribers }, s)
  after_thread x g a b (false, s) =
      (thrown, no_pipe g, destroy_two a b (report (call (p.sigaction_set g.save_sa) s)))

  abbrev pub after_sigaction : ℤ → Selfpipe → ℕ → ℕ → Result W ℕ → After
  unfolding after_thread
  after_sigaction x g a b (none, s) = (returned none, no_pipe g, destroy_two a b s)
  after_sigaction x g a b (some old, s) =
      after_thread x (record g { save_sa = old }) a b (with_os s (p.create_thread s.os))

  abbrev pub after_ndelay : ℤ → Selfpipe → ℕ → ℕ → Result W Unit → After
  unfolding after_sigaction
  after_ndelay x g a b (none, s) = (returned none, g, destroy_two a b s)
  after_ndelay x g a b (some u, s) =
      after_sigaction x (record g { reader = pos a; writer = pos b }) a b
        (call p.sigaction_trigger s)

  abbrev pub after_pipe : ℤ → Selfpipe → Result W (ℕ × ℕ) → After
  unfolding after_ndelay ndelay_on
  after_pipe x g (none, s) = (returned none, g, s)
  after_pipe x g (some (a, b), s) = after_ndelay x g a b (ndelay_on k b s)

  -- `selfpipe_open`, with every signal blocked.
  unfoldable pub open_blocked : ℤ → Selfpipe → Machine W → After
  unfolding after_pipe compat_pipe2
  open_blocked x g s =
      if member x g.subscribers
      then (returned none, g, record s { errno = p.einval })
      else (if g.thread
          then (returned (some tt), record g { subscribers = x ∷ g.subscribers }, s)
          else after_pipe x g (compat_pipe2 k o k.o_cloexec s))

  abbrev pub leave : ℕ → After → After
  unfolding restore
  leave mask (r, g, s) = (r, g, restore k mask s)

  abbrev pub blocked : (Selfpipe → Machine W → After) → Selfpipe → Result W ℕ → After
  unfolding leave
  blocked body g (none, s) = (returned none, g, s)
  blocked body g (some mask, s) = leave mask (body g s)

  unfoldable pub selfpipe_open : ℤ → Selfpipe → Machine W → After
  unfolding blocked open_blocked sigmask_block_all_signals
  selfpipe_open x g s = blocked (open_blocked x) g (sigmask_block_all_signals k 0 s)

  abbrev pub after_join : Selfpipe → Bool × Machine W → After
  unfolding close
  after_join g (false, s) = (terminated, g, s)
  after_join g (true, s) = (
    returned (some tt),
    record g { thread = false; reader = minus_one },
    report (close k g.reader s),
  )

  -- The end of `selfpipe_close`, for the last subscriber.
  unfoldable pub stop : Selfpipe → Machine W → After
  unfolding after_join close
  stop g s =
      let t = report (close k g.writer (report (call (p.sigaction_set g.save_sa) s))) in
      after_join (record g { writer = minus_one }) (with_os t (p.join_thread t.os))

  unfoldable pub close_blocked : ℤ → Selfpipe → Machine W → After
  unfolding stop
  close_blocked x g s =
      let left = record g { subscribers = erase x g.subscribers } in
      if member x g.subscribers
      then (if is_empty left.subscribers then stop left s else (returned (some tt), left, s))
      else (returned none, g, record s { errno = p.einval })

  unfoldable pub selfpipe_close : ℤ → Selfpipe → Machine W → After
  unfolding blocked close_blocked sigmask_block_all_signals
  selfpipe_close x g s = blocked (close_blocked x) g (sigmask_block_all_signals k 0 s)
