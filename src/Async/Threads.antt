-- ===== src/Async/Threads.antt =====
-- src/lib/async_service.cpp: what the two thread counters count.
use dromozoa_unix.Prelude.{
  ℕ, zero, suc, ◌+◌, ◌%◌, ◌^◌, ◌≤◌, ◌<◌, ◌≡◌, none, some, List, arith, max, total, total-middle,
  total-at,
}
use dromozoa_unix.Prelude.Int.{ℤ}
use dromozoa_unix.Async.Service.{
  push_counter, push_queue, cancel_queue, cancel_counter, pop, close_ready, close_queue,
  close_counter, take_front, begin_task, publish, finish_task, created, mask_failed, thread_failed,
}
use dromozoa_unix.Async.System.{
  Agent, waiting, counting, dispatching, publishing, retiring, Shared, Move, take, begin, finish,
  enter_push, find_cancel, pop_none, pop_some, swap_ready, swap_queue, end_close, System, Step,
  move, call, call_push, calls_cancel, calls_pop, calls_info, calls_read, calls_close, opened,
  Reach, next, replicate_waiting,
}

-- A worker that has not returned.
abbrev pub live : Agent → ℕ
live waiting = 1
live (counting _) = 1
live (dispatching _) = 1
live (publishing _) = 1
live retiring = 1
live _ = 0

-- A worker that has no task.
abbrev pub idle : Agent → ℕ
idle waiting = 1
idle (counting _) = 1
idle _ = 0

-- The counters, where `n` workers run and `k` of them have no task.
pub record CountsThreads (m : Shared) (n k : ℕ) : Type 0 where
  pub current : m.service.current_threads ≡ (n + m.lost_threads) % 2 ^ 32
  pub spare : m.service.spare_threads ≡ (k + m.lost_threads) % 2 ^ 32

-- One section keeps the counters right, whatever the other agents are.
Move-CountsThreads :
    {m m' : Shared} {a : Agent} {bs : List Agent}
    → Move m a m' bs
    → (n k : ℕ) → CountsThreads m (n + live a) (k + idle a)
    → CountsThreads m' (n + total live bs) (k + total idle bs)
unfolding begin_task finish_task push_counter take_front publish push_queue cancel_queue
    cancel_counter pop close_ready close_queue close_counter
Move-CountsThreads (take e) n k h = ground arith
Move-CountsThreads (begin {o = none}) n k h = omega arith
Move-CountsThreads (begin {o = some t}) n k h = omega arith
Move-CountsThreads finish n k h = ground arith
Move-CountsThreads (enter_push created e) n k h = ground arith
Move-CountsThreads (enter_push mask_failed e) n k h = ground arith
Move-CountsThreads (enter_push thread_failed e) n k h = ground arith
Move-CountsThreads (find_cancel e) n k h = ground arith
Move-CountsThreads (pop_none e) n k h = ground arith
Move-CountsThreads (pop_some e) n k h = ground arith
Move-CountsThreads (swap_ready e) n k h = ground arith
Move-CountsThreads (swap_queue e) n k h = ground arith
Move-CountsThreads (end_close r w e) n k h = omega arith
Move-CountsThreads mv n k h = omega arith

abbrev pub ThreadsCounted : System → Type 0
ThreadsCounted s = CountsThreads s.shared (total live s.agents) (total idle s.agents)

Step-ThreadsCounted : {s t : System} → Step s t → ThreadsCounted s → ThreadsCounted t
Step-ThreadsCounted {s} (move pre post {a} {m} {bs} e mv) h =
    rw (total-middle live pre bs post, total-middle idle pre bs post)
      (Move-CountsThreads mv _ _ (rw (e, total-at live pre a post, total-at idle pre a post) at h))
Step-ThreadsCounted (call (calls_cancel t)) h = omega arith
Step-ThreadsCounted (call calls_pop) h = omega arith
Step-ThreadsCounted (call calls_info) h = omega arith
Step-ThreadsCounted (call calls_read) h = omega arith
Step-ThreadsCounted (call calls_close) h = omega arith
Step-ThreadsCounted (call_push t) h = omega arith

total-waiting :
    (n : ℕ) → (total live (replicate_waiting n) ≡ n) × (total idle (replicate_waiting n) ≡ n)
total-waiting zero = omega arith
total-waiting (suc n) = omega (arith, total-waiting n)

opened-ThreadsCounted :
    (start max_threads max_spare_threads : ℕ) (reader writer : ℤ)
    → ThreadsCounted (opened start max_threads max_spare_threads reader writer)
unfolding opened
opened-ThreadsCounted start max_threads max_spare_threads reader writer =
    ground (arith, total-waiting start)

-- In every state that a service can reach, `current_threads` is the number of the workers that run,
-- and `spare_threads` of those that have no task, both modulo 2 ^ 32, where each thread that was
-- counted and could not be created is counted in both.
pub Reach-ThreadsCounted :
    {start max_threads max_spare_threads : ℕ} {reader writer : ℤ} {s : System}
    → Reach start max_threads max_spare_threads reader writer s
    → ThreadsCounted s
Reach-ThreadsCounted {start} {max_threads} {max_spare_threads} {reader} {writer} Reach.begin =
    opened-ThreadsCounted start max_threads max_spare_threads reader writer
Reach-ThreadsCounted (next r st) = Step-ThreadsCounted st (Reach-ThreadsCounted r)

-- The limits of a service are those that it was opened with.
pub record Limits (max_threads max_spare_threads : ℕ) (m : Shared) : Type 0 where
  threads : m.service.max_threads ≡ max_threads
  spares : m.service.max_spare_threads ≡ max_spare_threads

Move-Limits :
    {m m' : Shared} {a : Agent} {bs : List Agent}
    → Move m a m' bs
    → (x y : ℕ) → Limits x y m
    → Limits x y m'
unfolding begin_task finish_task push_counter take_front publish push_queue cancel_queue
    cancel_counter pop close_ready close_queue close_counter
Move-Limits (take e) x y h = ground arith
Move-Limits (begin {o = none}) x y h = omega arith
Move-Limits (begin {o = some t}) x y h = omega arith
Move-Limits finish x y h = ground arith
Move-Limits (enter_push created e) x y h = ground arith
Move-Limits (enter_push mask_failed e) x y h = ground arith
Move-Limits (enter_push thread_failed e) x y h = ground arith
Move-Limits (find_cancel e) x y h = ground arith
Move-Limits (pop_none e) x y h = ground arith
Move-Limits (pop_some e) x y h = ground arith
Move-Limits (swap_ready e) x y h = ground arith
Move-Limits (swap_queue e) x y h = ground arith
Move-Limits (end_close r w e) x y h = omega arith
Move-Limits mv x y h = omega arith

-- A section starts a worker only below the limit.
Move-bounded :
    {m m' : Shared} {a : Agent} {bs : List Agent}
    → Move m a m' bs
    → (n bound : ℕ) → m.service.current_threads ≡ (n + live a + m.lost_threads) % 2 ^ 32
    → m.service.max_threads ≤ bound
    → bound < 2 ^ 32
    → n + live a + m.lost_threads ≤ bound
    → n + total live bs + m'.lost_threads ≤ bound
unfolding push_counter finish_task
Move-bounded (begin {o = none}) n bound c l b h = omega arith
Move-bounded (begin {o = some t}) n bound c l b h = omega arith
Move-bounded finish n bound c l b h = ground arith
Move-bounded (enter_push created e) n bound c l b h = ground arith
Move-bounded (enter_push mask_failed e) n bound c l b h = ground arith
Move-bounded (enter_push thread_failed e) n bound c l b h = ground arith
Move-bounded (find_cancel e) n bound c l b h = ground arith
Move-bounded mv n bound c l b h = omega arith

abbrev pub Bounded : ℕ → System → Type 0
Bounded bound s = total live s.agents + s.shared.lost_threads ≤ bound

Step-Bounded :
    {s t : System}
    → Step s t
    → (bound : ℕ) → ThreadsCounted s
    → s.shared.service.max_threads ≤ bound
    → bound < 2 ^ 32
    → Bounded bound s
    → Bounded bound t
Step-Bounded {s} (move pre post {a} {m} {bs} e mv) bound c l b h =
    rw (total-middle live pre bs post) (
      Move-bounded mv _ bound (rw (e, total-at live pre a post) at c.current) l b
        (rw (e, total-at live pre a post) at h))
Step-Bounded (call (calls_cancel t)) bound c l b h = omega arith
Step-Bounded (call calls_pop) bound c l b h = omega arith
Step-Bounded (call calls_info) bound c l b h = omega arith
Step-Bounded (call calls_read) bound c l b h = omega arith
Step-Bounded (call calls_close) bound c l b h = omega arith
Step-Bounded (call_push t) bound c l b h = omega arith

Step-Limits : {s t : System} → Step s t → (x y : ℕ) → Limits x y s.shared → Limits x y t.shared
Step-Limits (move pre post e mv) x y h = Move-Limits mv x y h
Step-Limits (call c) x y h = h
Step-Limits (call_push t) x y h = omega arith

opened-Limits :
    (start x y : ℕ) (reader writer : ℤ) → Limits x y (opened start x y reader writer).shared
unfolding opened
opened-Limits start x y reader writer = ground arith

pub Reach-Limits :
    {start x y : ℕ} {reader writer : ℤ} {s : System}
    → Reach start x y reader writer s
    → Limits x y s.shared
Reach-Limits {start} {x} {y} {reader} {writer} Reach.begin = opened-Limits start x y reader writer
Reach-Limits {x = x} {y = y} (next r st) = Step-Limits st x y (Reach-Limits r)

-- Where the two numbers are `unsigned int`, no more workers ever run at a time than the larger of
-- the number that `open` starts and `max_threads`, those that could not be created included.
pub Reach-Bounded :
    {start x y : ℕ} {reader writer : ℤ} {s : System}
    → start < 2 ^ 32
    → x < 2 ^ 32
    → Reach start x y reader writer s
    → Bounded (max start x) s
unfolding opened
Reach-Bounded {start} a b Reach.begin = omega (arith, total-waiting start)
Reach-Bounded {start} {x} a b (next r st) =
    Step-Bounded st (max start x) (Reach-ThreadsCounted r) (omega (arith, (Reach-Limits r).threads))
      (omega arith) (Reach-Bounded a b r)
