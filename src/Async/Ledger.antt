-- ===== src/Async/Ledger.antt =====
-- src/lib/async_service.cpp: where each task is, and what `current_tasks` counts.
mod Queue
pub use Queue.{hit, count, occ, queued}
use dromozoa_unix.Prelude.{
  ℕ, suc, ◌+◌, ◌%◌, ◌^◌, ◌≡◌, refl, ap, Option, none, some, List, [], ◌∷◌, ◌++◌, arith, length,
  total, total-append, total-middle, total-at, zero, true, false,
}
use dromozoa_unix.Prelude.Int.{ℤ}
use Queue.{
  hit, count, occ, queued, count-append, take_front-occ, push_queue-occ, cancel_queue-occ,
  close_queue-occ, take_front-queued, push_queue-queued, cancel_queue-queued, close_queue-queued,
}
use dromozoa_unix.Async.Service.{
  Service, Node, push_queue, cancel_queue, close_queue, take_front, begin_task, finish_task,
  push_counter, publish, cancel_counter, pop, close_ready, close_counter, init, created,
  mask_failed, thread_failed,
}
use dromozoa_unix.Async.System.{
  Agent, waiting, counting, dispatching, publishing, retiring, push_entry, push_insert,
  cancel_entry, cancel_call, cancel_account, close_cancel, close_account, crashed, Shared, Move,
  take, begin, dispatch, publish_ready, finish, enter_push, insert_push, find_cancel, call_cancel,
  count_cancel, pop_none, pop_some, inform, swap_ready, swap_queue, cancel_next, cancel_null,
  cancel_end, count_close, end_close, System, Step, move, call, calls_cancel, calls_pop, calls_info,
  calls_read, calls_close, call_push, opened, replicate_waiting, Reach, next,
}
use dromozoa_unix.Async.Index.{Linked, Reach-Linked}

-- How often an agent has a task in hand: it has left the caller or the queue, and has not come to
-- `ready_`, nor been canceled.
abbrev pub holds : ℕ → Agent → ℕ
holds u (push_entry t) = hit u t
holds u (push_insert t) = hit u t
holds u (counting (some t)) = hit u t
holds u (dispatching t) = hit u t
holds u (publishing t) = hit u t
holds u (cancel_call t) = hit u t
holds u (close_cancel _ _ _ ns) = occ u ns
holds u (crashed _ ns) = occ u ns
holds u _ = 0

-- A task that has been dispatched and is not in `ready_` yet.
abbrev pub past : ℕ → Agent → ℕ
past u (publishing t) = hit u t
past u _ = 0

-- The places of task `u`, where the agents hold it `n` times, `p` of them dispatched.
pub record Ledger (u : ℕ) (m : Shared) (n p : ℕ) : Type 0 where
  pub places :
      count u m.pushed
      ≡ n
        + occ u m.service.queue
        + count u m.service.ready
        + count u m.popped
        + count u m.canceled
        + count u m.lost_tasks
  pub runs : count u m.dispatched ≡ p + count u m.service.ready + count u m.popped

Move-Ledger :
    {m m' : Shared} {a : Agent} {bs : List Agent}
    → Move m a m' bs
    → Linked m.service
    → (u n p : ℕ) → Ledger u m (n + holds u a) (p + past u a)
    → Ledger u m' (n + total (holds u) bs) (p + total (past u) bs)
unfolding begin_task finish_task push_counter publish cancel_counter pop close_ready close_counter
Move-Ledger {m} (take {o = none} e) l u n p h = ground (arith, take_front-occ u m.service e)
Move-Ledger {m} (take {o = some t} e) l u n p h = ground (arith, take_front-occ u m.service e)
Move-Ledger (begin {o = none}) l u n p h = omega arith
Move-Ledger (begin {o = some t}) l u n p h = omega arith
Move-Ledger {m} (publish_ready {t} stored w) l u n p h =
    omega (arith, count-append u m.service.ready (t ∷ []))
Move-Ledger finish l u n p h = ground arith
Move-Ledger (enter_push created e) l u n p h = ground arith
Move-Ledger (enter_push mask_failed e) l u n p h = ground arith
Move-Ledger (enter_push thread_failed e) l u n p h = ground arith
Move-Ledger {m} (insert_push {t}) l u n p h = ground (arith, push_queue-occ u t m.service)
Move-Ledger {m} (find_cancel {t} {b = true} e) l u n p h =
    ground (arith, cancel_queue-occ u t m.service l e)
Move-Ledger {m} (find_cancel {t} {b = false} e) l u n p h =
    ground (arith, cancel_queue-occ u t m.service l e)
Move-Ledger (pop_none e) l u n p h = ground arith
Move-Ledger (pop_some e) l u n p h = ground arith
Move-Ledger (swap_ready e) l u n p h = ground arith
Move-Ledger {m} (swap_queue e) l u n p h = ground (arith, close_queue-occ u m.service e)
Move-Ledger (end_close r w e) l u n p h = omega arith
Move-Ledger mv l u n p h = omega arith

-- How many tasks an agent stands for in `current_tasks`.
abbrev pub load : Agent → ℕ
load (push_insert _) = 1
load (counting (some _)) = 1
load (dispatching _) = 1
load (publishing _) = 1
load retiring = 1
load (cancel_call _) = 1
load cancel_account = 1
load (close_cancel _ _ k ns) = k + queued ns
load (close_account _ _ k) = k
load (crashed k ns) = k + queued ns
load _ = 0

abbrev pub CountsTasks : Shared → ℕ → Type 0
CountsTasks m n =
    m.service.current_tasks ≡ (n + queued m.service.queue + length m.lost_tasks) % 2 ^ 32

Move-CountsTasks :
    {m m' : Shared} {a : Agent} {bs : List Agent}
    → Move m a m' bs
    → Linked m.service
    → (n : ℕ) → CountsTasks m (n + load a)
    → CountsTasks m' (n + total load bs)
unfolding begin_task finish_task push_counter publish cancel_counter pop close_ready close_counter
Move-CountsTasks {m} (take {o = none} e) l n h = ground (arith, take_front-queued m.service e)
Move-CountsTasks {m} (take {o = some t} e) l n h = ground (arith, take_front-queued m.service e)
Move-CountsTasks (begin {o = none}) l n h = omega arith
Move-CountsTasks (begin {o = some t}) l n h = omega arith
Move-CountsTasks finish l n h = ground arith
Move-CountsTasks (enter_push created e) l n h = ground arith
Move-CountsTasks (enter_push mask_failed e) l n h = ground arith
Move-CountsTasks (enter_push thread_failed e) l n h = ground arith
Move-CountsTasks {m} (insert_push {t}) l n h = ground (arith, push_queue-queued t m.service)
Move-CountsTasks {m} (find_cancel {t} {b = true} e) l n h =
    ground (arith, cancel_queue-queued t m.service l e)
Move-CountsTasks {m} (find_cancel {t} {b = false} e) l n h =
    ground (arith, cancel_queue-queued t m.service l e)
Move-CountsTasks (pop_none e) l n h = ground arith
Move-CountsTasks (pop_some e) l n h = ground arith
Move-CountsTasks (swap_ready e) l n h = ground arith
Move-CountsTasks {m} (swap_queue e) l n h = ground (arith, close_queue-queued m.service e)
Move-CountsTasks (end_close r w e) l n h = omega arith
Move-CountsTasks mv l n h = omega arith

abbrev pub InLedger : ℕ → System → Type 0
InLedger u s = Ledger u s.shared (total (holds u) s.agents) (total (past u) s.agents)

abbrev pub TasksCounted : System → Type 0
TasksCounted s = CountsTasks s.shared (total load s.agents)

Step-InLedger :
    {s t : System} → Step s t → (u : ℕ) → Linked s.shared.service → InLedger u s → InLedger u t
Step-InLedger {s} (move pre post {a} {m} {bs} e mv) u l h =
    rw (total-middle (holds u) pre bs post, total-middle (past u) pre bs post)
      (Move-Ledger mv l u _ _
        (rw (e, total-at (holds u) pre a post, total-at (past u) pre a post) at h))
Step-InLedger (call (calls_cancel t)) u l h = omega arith
Step-InLedger (call calls_pop) u l h = omega arith
Step-InLedger (call calls_info) u l h = omega arith
Step-InLedger (call calls_read) u l h = omega arith
Step-InLedger (call calls_close) u l h = omega arith
Step-InLedger (call_push t) u l h = omega arith

Step-TasksCounted :
    {s t : System} → Step s t → Linked s.shared.service → TasksCounted s → TasksCounted t
Step-TasksCounted {s} (move pre post {a} {m} {bs} e mv) l h =
    rw (total-middle load pre bs post)
      (Move-CountsTasks mv l _ (rw (e, total-at load pre a post) at h))
Step-TasksCounted (call (calls_cancel t)) l h = omega arith
Step-TasksCounted (call calls_pop) l h = omega arith
Step-TasksCounted (call calls_info) l h = omega arith
Step-TasksCounted (call calls_read) l h = omega arith
Step-TasksCounted (call calls_close) l h = omega arith
Step-TasksCounted (call_push t) l h = omega arith

-- Workers that wait weigh nothing.
total-waiting_zero :
    (u n : ℕ)
    → (total (holds u) (replicate_waiting n) ≡ 0)
      × (total (past u) (replicate_waiting n) ≡ 0)
      × (total load (replicate_waiting n) ≡ 0)
total-waiting_zero u zero = omega arith
total-waiting_zero u (suc n) = omega (arith, total-waiting_zero u n)

opened-InLedger :
    (u start x y : ℕ) (reader writer : ℤ)
    → InLedger u (opened start x y reader writer) × TasksCounted (opened start x y reader writer)
unfolding opened
opened-InLedger u start x y reader writer = ground (arith, total-waiting_zero u start)

-- In every state that a service can reach, the calls of `push` for a task are as many as the times
-- that the task is in an agent's hand, in the queue, in `ready_`, popped, canceled or lost to a
-- `push` that failed; and it has been dispatched as often as it is with a worker after its dispatch,
-- in `ready_` or popped.
pub Reach-InLedger :
    {start x y : ℕ} {reader writer : ℤ} {s : System}
    → Reach start x y reader writer s
    → (u : ℕ) → InLedger u s
Reach-InLedger {start} {x} {y} {reader} {writer} Reach.begin u =
    (opened-InLedger u start x y reader writer).0
Reach-InLedger (next r st) u = Step-InLedger st u (Reach-Linked r) (Reach-InLedger r u)

-- In every state that a service can reach, `current_tasks` is, modulo 2 ^ 32, the number of the tasks
-- that are in the queue, that a call or a worker still has to account for, or whose `push` failed.
pub Reach-TasksCounted :
    {start x y : ℕ} {reader writer : ℤ} {s : System}
    → Reach start x y reader writer s
    → TasksCounted s
Reach-TasksCounted {start} {x} {y} {reader} {writer} Reach.begin =
    (opened-InLedger 0 start x y reader writer).1
Reach-TasksCounted (next r st) = Step-TasksCounted st (Reach-Linked r) (Reach-TasksCounted r)
