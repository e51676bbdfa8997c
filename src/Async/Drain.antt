-- ===== src/Async/Drain.antt =====
-- src/lib/async_service.cpp: why `close` comes to its end. It waits until `current_threads_` is 0;
-- here are the steps that its workers still take, and what keeps it waiting for ever.
use dromozoa_unix.Prelude.{
  ℕ, zero, suc, ◌+◌, ◌∙◌, ◌^◌, ◌≤◌, ◌<◌, ◌≡◌, ◌≢◌, refl, ap, none, some, List, [], ◌∷◌, ◌++◌, arith,
  ◌⊎◌, inl, inr, Bool-cases, true, ==_iff, total, total-middle, total-at, ◌==◌,
}
use dromozoa_unix.Prelude.Int.{ℤ}
use dromozoa_unix.Async.Service.{Service, take_front, finish_task}
use dromozoa_unix.Async.System.{
  Agent, waiting, counting, dispatching, publishing, retiring, Shared, Move, take, begin, dispatch,
  publish_ready, finish, enter_push, end_close, close_wait, System, Step, move, call, call_push,
  Reach, next, Later, now, go_on,
}
use dromozoa_unix.Async.Index.{Reach-Linked}
use dromozoa_unix.Async.Shutdown.{Later-Reach, IsClosed, take_front-IsClosed, Move-IsClosed}
use dromozoa_unix.Async.Threads.{live, Reach-ThreadsCounted, Reach-Bounded}

-- How many sections a worker still runs after the queue is closed, at most.
abbrev pub work : Agent → ℕ
work waiting = 2
work (counting none) = 1
work (counting (some _)) = 6
work (dispatching _) = 5
work (publishing _) = 4
work retiring = 3
work _ = 0

Move-work :
    {m m' : Shared} {a : Agent} {bs : List Agent}
    → Move m a m' bs
    → IsClosed m.service
    → live a ≡ 1
    → total work bs < work a
unfolding finish_task
Move-work {m} (take {o = none} e) h w = omega arith
Move-work {m} (take {o = some t} e) h w = ground (arith, take_front-IsClosed m.service h e)
Move-work (begin {o = none}) h w = omega arith
Move-work (begin {o = some t}) h w = omega arith
Move-work finish h w = ground arith
Move-work (end_close r v e) h w = absurd (omega arith)
Move-work mv h w = omega arith

-- Steps of the workers alone, any of them in any order, and how many.
pub data WorkerRun (s : System) : ℕ → System → Type 0 where
  stay : WorkerRun s 0 s
  work_on :
      {n : ℕ} {t : System} (pre post : List Agent) {a : Agent} {m : Shared} {bs : List Agent}
      → WorkerRun s n t
      → t.agents ≡ pre ++ (a ∷ post)
      → live a ≡ 1
      → Move t.shared a m bs
      → WorkerRun s (suc n) (record { shared = m; agents = pre ++ (bs ++ post) })

WorkerRun-Reach :
    {start x y : ℕ} {reader writer : ℤ} {s t : System} {n : ℕ}
    → WorkerRun s n t
    → Reach start x y reader writer s
    → Reach start x y reader writer t
WorkerRun-Reach stay r = r
WorkerRun-Reach (work_on pre post run e w mv) r = next (WorkerRun-Reach run r) (move pre post e mv)

WorkerRun-IsClosed :
    {start x y : ℕ} {reader writer : ℤ} {s t : System} {n : ℕ}
    → WorkerRun s n t
    → Reach start x y reader writer s
    → IsClosed s.shared.service
    → IsClosed t.shared.service
WorkerRun-IsClosed stay r h = h
WorkerRun-IsClosed (work_on pre post run e w mv) r h =
    Move-IsClosed mv (Reach-Linked (WorkerRun-Reach run r)) (WorkerRun-IsClosed run r h)

-- Once a reachable service is closed, its workers can take no more steps than `work` counts, in
-- whatever order they run.
WorkerRun-work :
    {start x y : ℕ} {reader writer : ℤ} {s t : System} {n : ℕ}
    → Reach start x y reader writer s
    → IsClosed s.shared.service
    → WorkerRun s n t
    → n + total work t.agents ≤ total work s.agents
WorkerRun-work r h stay = omega arith
WorkerRun-work r h (work_on {t} pre post {a} {m} {bs} run e w mv) =
    rw (total-middle work pre bs post) (
      omega (
        arith,
        WorkerRun-work r h run,
        ap (total work) e,
        total-at work pre a post,
        Move-work mv (WorkerRun-IsClosed run r h) w,
      ))

front_null-take : (s : Service) → IsClosed s → take_front s ≡ some (none, s)
unfolding take_front
front_null-take s h = ground arith

-- In a closed service no worker is held up.
worker_moves :
    (m : Shared) (a : Agent)
    → IsClosed m.service
    → live a ≡ 1
    → (m' : Shared) × (bs : List Agent) × Move m a m' bs
worker_moves m waiting h w = (_, _, take (front_null-take m.service h))
worker_moves m (counting o) h w = (_, _, Move.begin)
worker_moves m (dispatching t) h w = (_, _, dispatch)
worker_moves m (publishing t) h w = (_, _, publish_ready true (inl refl))
worker_moves m retiring h w = (_, _, finish)
worker_moves m a h w = absurd (omega arith)

live-cases : (a : Agent) → (live a ≡ 1) ⊎ (live a ≡ 0)
live-cases waiting = inl refl
live-cases (counting _) = inl refl
live-cases (dispatching _) = inl refl
live-cases (publishing _) = inl refl
live-cases retiring = inl refl
live-cases _ = inr refl

find_live :
    (as' : List Agent)
    → 0 < total live as'
    → (pre : List Agent) × (a : Agent) × (post : List Agent) × (as' ≡ pre ++ (a ∷ post))
      × (live a ≡ 1)
find_live [] h = absurd (omega arith)
find_live (x ∷ xs) h = elim (live-cases x) [
  | inl one ↦ ([], x, xs, refl, one)
  | inr none_here ↦
      let (pre, a, post, e, w) = find_live xs (omega arith) in (x ∷ pre, a, post, ap (◌∷◌ x) e, w)
]

-- While a worker runs, the run can be made longer, with less left to do.
run_longer :
    {start x y : ℕ} {reader writer : ℤ} {s t : System} {n : ℕ}
    → Reach start x y reader writer s
    → IsClosed s.shared.service
    → WorkerRun s n t
    → 0 < total live t.agents
    → (v : System) × WorkerRun s (suc n) v × (total work v.agents < total work t.agents)
run_longer {t = t} r h run busy =
    let (pre, a, post, e, w) = find_live t.agents busy in
    let closed : IsClosed t.shared.service = WorkerRun-IsClosed run r h in
    let (m, bs, mv) = worker_moves t.shared a closed w in
    let less : total work bs < work a = Move-work mv closed w in
    (
      _,
      work_on pre post run e w mv,
      rw (total-middle work pre bs post)
          (omega (arith, ap (total work) e, total-at work pre a post)),
    )

-- The workers of a closed service run until none is left.
drain_from :
    {start x y : ℕ} {reader writer : ℤ} {s : System}
    → Reach start x y reader writer s
    → IsClosed s.shared.service
    → (fuel n : ℕ) (t : System) → WorkerRun s n t
    → total work t.agents < fuel
    → (k : ℕ) × (v : System) × WorkerRun s k v × (total live v.agents ≡ 0)
drain_from r h zero n t run f = absurd (omega arith)
drain_from r h (suc fuel) n t run f = elim (Bool-cases (total live t.agents == 0)) [
  | inl quiet ↦ (_, t, run, (==_iff _ 0).0 quiet)
  | inr busy ↦
      let (v, longer, less) = run_longer r h run (ground arith) in
      drain_from r h fuel (suc n) v longer (omega arith)
]

Move-lost :
    {m m' : Shared} {a : Agent} {bs : List Agent}
    → Move m a m' bs
    → live a ≡ 1
    → m'.lost_threads ≡ m.lost_threads
Move-lost (take e) w = refl
Move-lost (enter_push spawn e) w = absurd (omega arith)
Move-lost mv w = refl

WorkerRun-lost :
    {s t : System} {n : ℕ} → WorkerRun s n t → t.shared.lost_threads ≡ s.shared.lost_threads
WorkerRun-lost stay = refl
WorkerRun-lost (work_on pre post run e w mv) = Move-lost mv w ∙ WorkerRun-lost run

-- Once a reachable service is closed, and every thread that was counted was created, its workers
-- can run on alone until `current_threads` is 0, which is what `close` waits for.
pub close_ends :
    {start x y : ℕ} {reader writer : ℤ} {s : System}
    → Reach start x y reader writer s
    → IsClosed s.shared.service
    → s.shared.lost_threads ≡ 0
    → (n : ℕ) × (t : System) × WorkerRun s n t × (t.shared.service.current_threads ≡ 0)
close_ends {s = s} r h z =
    let (n, t, run, quiet) = drain_from r h (suc (total work s.agents)) 0 s stay (omega arith) in
    (
      n,
      t,
      run,
      omega (arith, (Reach-ThreadsCounted (WorkerRun-Reach run r)).current, WorkerRun-lost run),
    )

-- A `close` that waits for the workers.
abbrev pub close_waits : Agent → ℕ
close_waits (close_wait reader writer) = 1
close_waits _ = 0

Move-close_waits :
    {m m' : Shared} {a : Agent} {bs : List Agent}
    → Move m a m' bs
    → m.service.current_threads ≢ 0
    → close_waits a ≤ total close_waits bs
Move-close_waits (end_close r w e) h = absurd (h e)
Move-close_waits mv h = omega arith

Move-lost_grow :
    {m m' : Shared} {a : Agent} {bs : List Agent}
    → Move m a m' bs
    → m.lost_threads ≤ m'.lost_threads
Move-lost_grow (take e) = omega arith
Move-lost_grow mv = omega arith

Step-lost : {s t : System} → Step s t → s.shared.lost_threads ≤ t.shared.lost_threads
Step-lost (move pre post e mv) = Move-lost_grow mv
Step-lost (call c) = omega arith
Step-lost (call_push t) = omega arith

Step-close_waits :
    {s t : System}
    → Step s t
    → s.shared.service.current_threads ≢ 0
    → total close_waits s.agents ≤ total close_waits t.agents
Step-close_waits (move pre post {a} {m} {bs} e mv) h =
    rw (e, total-middle close_waits pre bs post, total-at close_waits pre a post)
      (omega (arith, Move-close_waits mv h))
Step-close_waits (call c) h = omega arith
Step-close_waits (call_push t) h = omega arith

module _ {start x y : ℕ} {reader writer : ℤ} (small_start : start < 2 ^ 32)
    (small : x < 2 ^ 32) where
  lost-current :
      {s : System}
      → Reach start x y reader writer s
      → 0 < s.shared.lost_threads
      → s.shared.service.current_threads ≢ 0
  lost-current r l =
      omega (arith, (Reach-ThreadsCounted r).current, Reach-Bounded small_start small r)

  Later-lost :
      {s t : System}
      → Reach start x y reader writer s
      → 0 < s.shared.lost_threads
      → Later s t
      → (0 < t.shared.lost_threads) × (total close_waits s.agents ≤ total close_waits t.agents)
  Later-lost r l now = (l, omega arith)
  Later-lost r l (go_on run st) =
      let (lost, waits) = Later-lost r l run in
      (
        omega (arith, Step-lost st),
        omega (arith, Step-close_waits st (lost-current (Later-Reach r run) lost)),
      )

-- Where the two numbers are `unsigned int`: if a thread was counted and could not be created, then in
-- every later state, whatever is done, `current_threads` is not 0, a `close` that waits for it to be 0
-- cannot go on, and no `close` that has come to this wait has left it.
pub lost_thread_blocks_close :
    {start x y : ℕ} {reader writer : ℤ} {s t : System}
    → start < 2 ^ 32
    → x < 2 ^ 32
    → Reach start x y reader writer s
    → 0 < s.shared.lost_threads
    → Later s t
    → (r w : ℤ) (m : Shared) (bs : List Agent)
    → (t.shared.service.current_threads ≢ 0)
      × (¬ Move t.shared (close_wait r w) m bs)
      × (total close_waits s.agents ≤ total close_waits t.agents)
lost_thread_blocks_close a b r l run q w m bs =
    let (lost, waits) = Later-lost a b r l run in
    let busy = lost-current a b (Later-Reach r run) lost in (busy, end_blocked busy, waits)
  where
    end_blocked :
        {m m' : Shared} {r w : ℤ} {bs : List Agent}
        → m.service.current_threads ≢ 0
        → ¬ Move m (close_wait r w) m' bs
    end_blocked h (end_close r v e) = h e
