-- ===== src/Async/Open/Effect.antt =====
-- src/lib/async_service.cpp: what `open` leaves of descriptors, of the signal mask and of the counters.
use dromozoa_unix.Prelude.{
  ℕ, zero, suc, ◌≡◌, refl, sym, ap, ◌∙◌, Bool, true, false, none, some, ltb, Bool-cases, arith, inl,
  inr,
}
use dromozoa_unix.Prelude.Int.{pos, minus_one}
use dromozoa_unix.Prelude.Bits.{bit_or}
use dromozoa_unix.Fd.{Machine, Kernel, Result, destroy, restore, sigmask_block_all_signals}
use dromozoa_unix.Fd.Compat.{Openers, compat_pipe2}
use dromozoa_unix.Fd.Laws.{View, Same, SameOpen, GainsTwo, LeavesTwo, Contract}
use dromozoa_unix.Fd.Leaks.{compat_pipe2-LeavesTwo}
use dromozoa_unix.Fd.Leaks.Calls.{
  Same-trans, Blocked, sigmask_block_all_signals-Blocked, restore-SameOpen,
}
use dromozoa_unix.Fd.Leaks.Sets.{GainsTwo-Same}
use dromozoa_unix.Fd.Made.{MadeByPipe, compat_pipe2-MadeByPipe}
use dromozoa_unix.Fd.Leaks.Pair.{destroy_pair-Same}
use dromozoa_unix.Async.Service.{Service, init, open_counters, open_ready}
use dromozoa_unix.Async.Open.{
  Opened, opened, refused, thrown, create_threads, swap_in, after_threads, with_threads, after_pipe,
  impl_open,
}

-- How `open` ends from `g`: with a pipe in place, of which `Pipe` holds for the reader and the writer; or
-- with no descriptor and the mask as before.
abbrev pub Ends :
    {W : Type 0}
    → View W
    → (ℕ → ℕ → Type 0)
    → ℕ
    → Service
    → W
    → Opened × Service × Machine W
    → Type 0
Ends v Pipe start g w (opened, g', s) =
    (a : ℕ) × (b : ℕ) × (g' ≡ open_ready (pos a) (pos b) (open_counters start g))
    × Pipe a b
    × GainsTwo v w a b s.os
Ends v Pipe start g w (refused, g', s) = (g' ≡ g) × Same v w s.os
Ends v Pipe start g w (thrown, g', s) = (g' ≡ open_counters start g) × Same v w s.os

-- The counters after `open`, which are those of a new object where no thread is to be started.
open_counters-zero : (start : ℕ) (g : Service) → ltb 0 start ≡ false → open_counters start g ≡ g
unfolding open_counters
open_counters-zero start g h = rw h

open_counters-ready :
    (start : ℕ) (g : Service)
    → ((open_counters start g).ready_reader ≡ g.ready_reader)
      × ((open_counters start g).ready_writer ≡ g.ready_writer)
unfolding open_counters
open_counters-ready start g = ground arith

module _ {W : Type 0} (v : View W) (k : Kernel W) (o : Openers W) (create_thread : W → Bool × W)
    (c : Contract v k o) (create_same : (w : W) → Same v w (create_thread w).1)
    (Pipe : ℕ → ℕ → Type 0) where
  create_threads-Same :
      (n : ℕ) (s : Machine W) → Same v s.os (create_threads k o create_thread n s).1.os
  unfolding create_threads
  create_threads-Same zero s = (λ n. refl, refl)
  create_threads-Same (suc n) s = elim (Bool-cases (create_thread s.os).0) [
    | inl made ↦
        rw (made, create_threads)
          (Same-trans v (create_same s.os)
            (create_threads-Same n (record s { os = (create_thread s.os).1 })))
    | inr failed ↦ rw (failed, create_threads) (create_same s.os)
  ]

  -- Signals blocked, then threads, then the old mask again.
  blocked-Same :
      (m : ℕ) (s t u : Machine W)
      → SameOpen v s.os t.os
      → m ≡ v.mask s.os
      → Same v t.os u.os
      → Same v s.os (restore k m u).os
  blocked-Same m s t u h e l =
      let q = restore-SameOpen v k o c m u in (λ n. q.0 n ∙ (l.0 n ∙ h n), q.1 ∙ e)

  -- Nothing is destroyed where the object had no pipe.
  swap_in-Ends :
      (start : ℕ) (g g' : Service) (w : W) (a b : ℕ) (s : Machine W)
      → g'.ready_reader ≡ minus_one
      → g'.ready_writer ≡ minus_one
      → g' ≡ open_counters start g
      → Pipe a b
      → GainsTwo v w a b s.os
      → Ends v Pipe start g w (swap_in k o create_thread a b g' s)
  unfolding swap_in destroy
  swap_in-Ends start g g' w a b s r q e two h =
      (a, b, ap (open_ready (pos a) (pos b)) e, two, rw r (rw q h))

  module _ (start : ℕ) (g : Service) (fresh_reader : g.ready_reader ≡ minus_one)
      (fresh_writer : g.ready_writer ≡ minus_one) (w : W) (a b : ℕ) (two : Pipe a b) where
    after_threads-Ends :
        (m : ℕ) (r : Bool × Machine W)
        → GainsTwo v w a b (restore k m r.1).os
        → Ends v Pipe start g w (after_threads k o create_thread m a b (open_counters start g) r)
    unfolding after_threads
    after_threads-Ends m (true, s) h =
        let same = open_counters-ready start g in
        swap_in-Ends start g (open_counters start g) w a b (restore k m s) (same.0 ∙ fresh_reader)
          (same.1 ∙ fresh_writer) refl two h
    after_threads-Ends m (false, s) h = (refl, destroy_pair-Same v k o c w a b (restore k m s) h)

    with_threads-Ends :
        (s : Machine W) (r : Result W ℕ)
        → GainsTwo v w a b s.os
        → Blocked v k o c s r
        → Ends v Pipe start g w (with_threads k o create_thread start a b g r)
    unfolding with_threads
    with_threads-Ends s (none, t) h l =
        (refl, destroy_pair-Same v k o c w a b t (GainsTwo-Same v w s.os t.os a b h l.0))
    with_threads-Ends s (some m, t) h l =
        let r = create_threads k o create_thread start t in
        after_threads-Ends m r (
          GainsTwo-Same v w s.os (restore k m r.1).os a b h
            (blocked-Same m s t r.1 l.0 l.1 (create_threads-Same start t)))

  after_pipe-Ends :
      (start : ℕ) (g : Service) (s : Machine W) (r : Result W (ℕ × ℕ))
      → g.ready_reader ≡ minus_one
      → g.ready_writer ≡ minus_one
      → ((a b : ℕ) → r.0 ≡ some (a, b) → Pipe a b)
      → LeavesTwo v s r
      → Ends v Pipe start g s.os (after_pipe k o create_thread start g r)
  unfolding after_pipe
  after_pipe-Ends start g s (none, t) fr fw made l = (refl, l.0)
  after_pipe-Ends start g s (some (a, b), t) fr fw made l = elim (Bool-cases (ltb 0 start)) [
    | inl some_threads ↦ rw some_threads (
        with_threads-Ends start g fr fw s.os a b (made a b refl) t (sigmask_block_all_signals k 0 t)
          l (sigmask_block_all_signals-Blocked v k o c t))
    | inr no_threads ↦ rw no_threads (
        swap_in-Ends start g g s.os a b t fr fw (sym (open_counters-zero start g no_threads))
          (made a b refl) l)
  ]

module _ {W : Type 0} (v : View W) (k : Kernel W) (o : Openers W) (create_thread : W → Bool × W)
    (c : Contract v k o) (create_same : (w : W) → Same v w (create_thread w).1) where
  -- `open` of a new object, however its calls end: it succeeds with the pair of descriptors that `pipe2`
  -- has made (or `pipe`, where there is no `pipe2`), which were closed, the first, to read from, in
  -- `ready_reader_` and the second, to write to, in `ready_writer_`, with no other descriptor opened, and
  -- with the threads to start counted; or it returns -1 with the object as before; or the exception of
  -- `thread` leaves it with these threads counted, made or not. Where it does not succeed no descriptor is
  -- left open; and the signal mask is the old one in each case.
  pub impl_open-Ends :
      (start max_threads max_spare_threads : ℕ) (s : Machine W)
      → Ends v
          (MadeByPipe k o (bit_or k.o_cloexec k.o_nonblock) s)
          start
          (init max_threads max_spare_threads)
          s.os
          (impl_open k o create_thread start (init max_threads max_spare_threads) s)
  unfolding impl_open init
  impl_open-Ends start max_threads max_spare_threads s =
      let flags = bit_or k.o_cloexec k.o_nonblock in
      after_pipe-Ends v k o create_thread c create_same (MadeByPipe k o flags s) start
        (init max_threads max_spare_threads) s (compat_pipe2 k o flags s) refl refl
        (compat_pipe2-MadeByPipe k o flags s) (compat_pipe2-LeavesTwo v k o c flags s)
