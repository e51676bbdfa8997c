-- ===== src/Selfpipe/Impl.antt =====
-- src/lib/selfpipe.cpp: `selfpipe_impl`, a subscriber with its own pipe.
use dromozoa_unix.Prelude.{ℕ, suc, ◌+◌, ◌<◌, ◌≡◌, Bool, true, false, not, Option, none, some}
use dromozoa_unix.Prelude.Int.{ℤ, pos, minus_one, eq_ℤ}
use dromozoa_unix.Prelude.Bits.{bit_or}
use dromozoa_unix.Fd.{Machine, Kernel, Result, close, destroy}
use dromozoa_unix.Fd.Drain.{drain, drain-pending}
use dromozoa_unix.Fd.Compat.{Openers, compat_pipe2}
use dromozoa_unix.Selfpipe.{
  Signals, Selfpipe, Outcome, returned, thrown, terminated, After, destroy_two, selfpipe_open,
  selfpipe_close,
}

pub record SelfpipeImpl : Type 0 where
  pub reader : ℤ
  pub writer : ℤ

abbrev pub closed : SelfpipeImpl
closed = record { reader = minus_one; writer = minus_one }

module _ {W : Type 0} (k : Kernel W) (o : Openers W) (p : Signals W) where
  -- The outcome, the object, the variables of the file, and the state.
  abbrev pub Done : Type 0
  Done = Outcome × SelfpipeImpl × Selfpipe × Machine W

  abbrev pub subscribed : SelfpipeImpl → ℕ → ℕ → After k o p → Done
  unfolding destroy_two
  subscribed impl a b (returned (some u), g, s) = (
    returned (some u),
    record { reader = pos a; writer = pos b },
    g,
    destroy k impl.reader (destroy k impl.writer s),
  )
  subscribed impl a b (returned none, g, s) = (returned none, impl, g, destroy_two k o p a b s)
  subscribed impl a b (thrown, g, s) = (thrown, impl, g, destroy_two k o p a b s)
  subscribed impl a b (terminated, g, s) = (terminated, impl, g, s)

  abbrev pub after_open_pipe : SelfpipeImpl → Selfpipe → Result W (ℕ × ℕ) → Done
  unfolding subscribed selfpipe_open
  after_open_pipe impl g (none, s) = (returned none, impl, g, s)
  after_open_pipe impl g (some (a, b), s) = subscribed impl a b (selfpipe_open k o p (pos b) g s)

  unfoldable pub impl_open : SelfpipeImpl → Selfpipe → Machine W → Done
  unfolding after_open_pipe compat_pipe2
  impl_open impl g s = after_open_pipe impl g (compat_pipe2 k o (bit_or k.o_cloexec k.o_nonblock) s)

  abbrev pub after_writer : Selfpipe → Result W Unit → Done
  after_writer g (none, s) = (returned none, closed, g, s)
  after_writer g (some u, s) = (returned (some u), closed, g, s)

  abbrev pub after_reader : ℤ → Selfpipe → Result W Unit → Done
  unfolding destroy close
  after_reader writer g (none, s) = (returned none, closed, g, destroy k writer s)
  after_reader writer g (some u, s) = after_writer g (close k writer s)

  abbrev pub unsubscribed : ℤ → ℤ → After k o p → Done
  unfolding destroy close after_reader
  unsubscribed reader writer (returned (some u), g, s) = after_reader writer g (close k reader s)
  unsubscribed reader writer (returned none, g, s) =
      (returned none, closed, g, destroy k reader (destroy k writer s))
  unsubscribed reader writer (thrown, g, s) =
      (thrown, closed, g, destroy k reader (destroy k writer s))
  unsubscribed reader writer (terminated, g, s) = (terminated, closed, g, s)

  unfoldable pub impl_close : SelfpipeImpl → Selfpipe → Machine W → Done
  unfolding unsubscribed selfpipe_close
  impl_close impl g s = unsubscribed impl.reader impl.writer (selfpipe_close k o p impl.writer g s)

  abbrev pub valid : SelfpipeImpl → Bool
  valid impl = not (eq_ℤ impl.reader minus_one)

  -- `read`, with fuel for its loop.
  unfoldable pub read : ℕ → ℤ → ℕ → W → Option (ℕ × W)
  unfolding drain
  read fuel fd count w = drain (p.read_byte fd) fuel count w

  -- Where a read takes one of the bytes that are in the pipe, and fails at once when there are none,
  -- `read` ends with more rounds than there are bytes: it has counted every byte and left none.
  read-pending :
      (pending : W → ℕ) (fd : ℤ)
      → ((w : W) → (p.read_byte fd w).0 ≡ true → pending w ≡ suc (pending (p.read_byte fd w).1))
      → ((w : W)
          → (p.read_byte fd w).0 ≡ false
          → (pending w ≡ 0) × (pending (p.read_byte fd w).1 ≡ 0))
      → (fuel count : ℕ) (w : W) → pending w < fuel
      → (w' : W) × (read fuel fd count w ≡ some (count + pending w, w')) × (pending w' ≡ 0)
  unfolding read
  read-pending pending fd takes ends fuel count w h =
      drain-pending (p.read_byte fd) pending takes ends fuel count w h
