-- ===== src/Async/Open.antt =====
-- src/lib/async_service.cpp: the whole of `open`, with the calls that may fail, the three functions
-- `async_service::open`, and `read`. The threads that are made run on in Async/System.antt.
pub mod Effect
mod Tests
use dromozoa_unix.Prelude.{ℕ, zero, suc, Bool, true, false, Option, none, some, ltb, if◌then◌else◌}
use dromozoa_unix.Prelude.Int.{ℤ, pos}
use dromozoa_unix.Prelude.Bits.{bit_or}
use dromozoa_unix.Fd.{Machine, Kernel, Result, destroy, restore, sigmask_block_all_signals}
use dromozoa_unix.Fd.Compat.{Openers, compat_pipe2}
use dromozoa_unix.Fd.Drain.{drain}
use dromozoa_unix.Fd.Leaks.Pair.{destroy_pair}
use dromozoa_unix.Async.Service.{Service, init, open_counters, open_ready}

-- `open` returns 0 or -1, or the exception of `thread` leaves it.
pub data Opened : Type 0 where
  opened : Opened
  refused : Opened
  thrown : Opened

-- The arguments of the constructor and of `open`: the threads to start, the most threads and the most
-- spare threads, as the three functions choose them.
unfoldable pub open_one : ℕ → ℕ × ℕ × ℕ
open_one start_threads = (start_threads, start_threads, start_threads)

unfoldable pub open_two : ℕ → ℕ → ℕ × ℕ × ℕ
open_two start_threads max_threads = (start_threads, max_threads, max_threads)

unfoldable pub open_three : ℕ → ℕ → ℕ → ℕ × ℕ × ℕ
open_three start_threads max_threads max_spare_threads =
    (start_threads, max_threads, max_spare_threads)

-- `create_thread` says whether the thread was made; if not, `thread` throws.
module _ {W : Type 0} (k : Kernel W) (o : Openers W) (create_thread : W → Bool × W) where
  abbrev pub Done : Type 0
  Done = Opened × Service × Machine W

  -- The loop over the threads: whether all were made.
  unfoldable pub create_threads : ℕ → Machine W → Bool × Machine W
  create_threads zero s = (true, s)
  create_threads (suc n) s = elim (create_thread s.os).0 [
    | true ↦ create_threads n (record s { os = (create_thread s.os).1 })
    | false ↦ (false, record s { os = (create_thread s.os).1 })
  ]

  -- The pipe is swapped in; the old descriptors are destroyed.
  abbrev pub swap_in : ℕ → ℕ → Service → Machine W → Done
  unfolding open_ready destroy
  swap_in a b g s =
      (opened, open_ready (pos a) (pos b) g, destroy k g.ready_reader (destroy k g.ready_writer s))

  abbrev pub after_threads : ℕ → ℕ → ℕ → Service → Bool × Machine W → Done
  unfolding swap_in restore destroy_pair
  after_threads mask a b g (true, s) = swap_in a b g (restore k mask s)
  after_threads mask a b g (false, s) = (thrown, g, destroy_pair k a b (restore k mask s))

  abbrev pub with_threads : ℕ → ℕ → ℕ → Service → Result W ℕ → Done
  unfolding after_threads destroy_pair open_counters
  with_threads start a b g (none, s) = (refused, g, destroy_pair k a b s)
  with_threads start a b g (some mask, s) =
      after_threads mask a b (open_counters start g) (create_threads start s)

  abbrev pub after_pipe : ℕ → Service → Result W (ℕ × ℕ) → Done
  unfolding with_threads swap_in sigmask_block_all_signals
  after_pipe start g (none, s) = (refused, g, s)
  after_pipe start g (some (a, b), s) =
      if ltb 0 start
      then with_threads start a b g (sigmask_block_all_signals k 0 s)
      else swap_in a b g s

  unfoldable pub impl_open : ℕ → Service → Machine W → Done
  unfolding after_pipe compat_pipe2
  impl_open start g s = after_pipe start g (compat_pipe2 k o (bit_or k.o_cloexec k.o_nonblock) s)

  -- `async_service::open`: a new object, kept only where `open` has succeeded.
  abbrev pub kept : Done → Option Service × Opened × Machine W
  kept (opened, g, s) = (some g, opened, s)
  kept (refused, g, s) = (none, refused, s)
  kept (thrown, g, s) = (none, thrown, s)

  unfoldable pub service_open : ℕ × ℕ × ℕ → Machine W → Option Service × Opened × Machine W
  unfolding impl_open init
  service_open (start, max_threads, max_spare_threads) s =
      kept (impl_open start (init max_threads max_spare_threads) s)

-- `read`, with fuel for its loop, over what `::read` does with the descriptor.
unfoldable pub read : {W : Type 0} → (ℤ → W → Bool × W) → ℕ → Service → W → Option (ℕ × W)
unfolding drain
read read_byte fuel g w = drain (read_byte g.ready_reader) fuel 0 w
