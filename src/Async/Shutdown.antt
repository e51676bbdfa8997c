-- ===== src/Async/Shutdown.antt =====
-- src/lib/async_service.cpp: what `close` sets in motion. It leaves a null task at the front of the
-- queue, which every worker reads and no worker removes.
use dromozoa_unix.Prelude.{
  ℕ, ◌+◌, ◌≡◌, refl, ap, Bool, Option, none, some, List, [], ◌∷◌, ◌++◌, arith, total, total-middle,
  total-at, true, false,
}
use dromozoa_unix.Prelude.Int.{ℤ}
use dromozoa_unix.Async.Service.{
  Service, Node, find_key, erase_node, push_queue, cancel_queue, close_queue, take_front,
  begin_task, finish_task, push_counter, publish, cancel_counter, pop, close_ready, close_counter,
  created, mask_failed, thread_failed,
}
use dromozoa_unix.Async.System.{
  Agent, counting, dispatching, Shared, Move, take, begin, finish, enter_push, insert_push,
  find_cancel, pop_none, pop_some, swap_ready, swap_queue, end_close, System, Step, move, call,
  calls_cancel, calls_pop, calls_info, calls_read, calls_close, call_push, Reach, Later, now, go_on,
}
use dromozoa_unix.Async.Index.{task_at, Linked, Reach-Linked}
use dromozoa_unix.Async.Ledger.{hit, count}

abbrev pub front_null : List Node → Bool
front_null [] = false
front_null (n ∷ ns) = elim n.task [ none ↦ true | some _ ↦ false ]

-- The null task stands at the front.
abbrev pub IsClosed : Service → Type 0
IsClosed s = front_null s.queue ≡ true

front_null-append : (ns ms : List Node) → front_null ns ≡ true → front_null (ns ++ ms) ≡ true
front_null-append [] ms h = cc
front_null-append (n ∷ ns) ms h = h

front_null-erase :
    (i t : ℕ) (ns : List Node)
    → task_at i ns ≡ some (some t)
    → front_null ns ≡ true
    → front_null (erase_node i ns) ≡ true
unfolding erase_node
front_null-erase i t [] e h = cc
front_null-erase i t (n ∷ ns) e h = ground arith

cancel_found-IsClosed :
    (t : ℕ) (s : Service) (o : Option ℕ)
    → find_key t s.queue_index ≡ o
    → Linked s
    → IsClosed s
    → IsClosed (cancel_queue t s).1
unfolding cancel_queue
cancel_found-IsClosed t s none e l h = rw (e, cancel_queue) h
cancel_found-IsClosed t s (some i) e l h =
    rw (e, cancel_queue) (front_null-erase i t s.queue (l.0 t i e) h)

-- A worker that looks at the front of a closed queue reads the null task, and removes nothing.
pub take_front-IsClosed :
    (s : Service) {o : Option ℕ} {s' : Service}
    → IsClosed s
    → take_front s ≡ some (o, s')
    → (o ≡ none) × (s' ≡ s)
unfolding take_front
take_front-IsClosed s h e = ground arith

pub Move-IsClosed :
    {m m' : Shared} {a : Agent} {bs : List Agent}
    → Move m a m' bs
    → Linked m.service
    → IsClosed m.service
    → IsClosed m'.service
unfolding begin_task finish_task push_counter publish cancel_counter pop close_ready close_counter
    push_queue close_queue
Move-IsClosed {m} (take e) l h = ground (arith, take_front-IsClosed m.service h e)
Move-IsClosed (begin {o = none}) l h = h
Move-IsClosed (begin {o = some t}) l h = h
Move-IsClosed finish l h = ground arith
Move-IsClosed (enter_push created e) l h = ground arith
Move-IsClosed (enter_push mask_failed e) l h = ground arith
Move-IsClosed (enter_push thread_failed e) l h = ground arith
Move-IsClosed {m} insert_push l h = front_null-append m.service.queue _ h
Move-IsClosed {m} (find_cancel {t} e) l h =
    rw (ap (λ p. p.1) e) at (cancel_found-IsClosed t m.service _ refl l h)
Move-IsClosed (pop_none e) l h = ground arith
Move-IsClosed (pop_some e) l h = ground arith
Move-IsClosed (swap_ready e) l h = ground arith
Move-IsClosed (swap_queue e) l h = ground arith
Move-IsClosed (end_close r w e) l h = h
Move-IsClosed mv l h = h

pub Step-IsClosed :
    {s t : System}
    → Step s t
    → Linked s.shared.service
    → IsClosed s.shared.service
    → IsClosed t.shared.service
Step-IsClosed (move pre post e mv) l h = Move-IsClosed mv l h
Step-IsClosed (call c) l h = h
Step-IsClosed (call_push t) l h = h

pub Later-Reach :
    {start x y : ℕ} {reader writer : ℤ} {s t : System}
    → Reach start x y reader writer s
    → Later s t
    → Reach start x y reader writer t
Later-Reach r now = r
Later-Reach r (go_on l st) = Reach.next (Later-Reach r l) st

pub Later-IsClosed :
    {start x y : ℕ} {reader writer : ℤ} {s t : System}
    → Reach start x y reader writer s
    → IsClosed s.shared.service
    → Later s t
    → IsClosed t.shared.service
Later-IsClosed r h now = h
Later-IsClosed r h (go_on l st) =
    Step-IsClosed st (Reach-Linked (Later-Reach r l)) (Later-IsClosed r h l)

-- A task that a worker has taken and not dispatched.
abbrev pub claims : ℕ → Agent → ℕ
claims u (counting (some t)) = hit u t
claims u (dispatching t) = hit u t
claims u _ = 0

Move-claims :
    {m m' : Shared} {a : Agent} {bs : List Agent}
    → Move m a m' bs
    → IsClosed m.service
    → (u n : ℕ)
    → n + total (claims u) bs + count u m'.dispatched ≡ n + claims u a + count u m.dispatched
unfolding finish_task push_counter cancel_queue
Move-claims {m} (take {o = none} e) h u n = omega arith
Move-claims {m} (take {o = some t} e) h u n = ground (arith, take_front-IsClosed m.service h e)
Move-claims (begin {o = none}) h u n = omega arith
Move-claims (begin {o = some t}) h u n = omega arith
Move-claims finish h u n = ground arith
Move-claims (enter_push created e) h u n = ground arith
Move-claims (enter_push mask_failed e) h u n = ground arith
Move-claims (enter_push thread_failed e) h u n = ground arith
Move-claims (find_cancel {b = true} e) h u n = omega arith
Move-claims (find_cancel {b = false} e) h u n = omega arith
Move-claims mv h u n = omega arith

-- Once a service is closed, no step lets a worker take a task: the dispatches of each task that are
-- done or that a worker has before it are the same after the step, and the service stays closed.
-- A task that `push` adds then is never dispatched.
pub IsClosed-dispatches_nothing_new :
    {start x y : ℕ} {reader writer : ℤ} {s t : System}
    → Reach start x y reader writer s
    → IsClosed s.shared.service
    → Step s t
    → (u : ℕ)
    → (total (claims u) t.agents + count u t.shared.dispatched
        ≡ total (claims u) s.agents + count u s.shared.dispatched)
      × IsClosed t.shared.service
IsClosed-dispatches_nothing_new {s = s} r h st u =
    (Step-claims st h u, Step-IsClosed st (Reach-Linked r) h)
  where
    Step-claims :
        {s t : System}
        → Step s t
        → IsClosed s.shared.service
        → (u : ℕ)
        → total (claims u) t.agents + count u t.shared.dispatched
          ≡ total (claims u) s.agents + count u s.shared.dispatched
    Step-claims {s} (move pre post {a} {m} {bs} e mv) h u =
        rw (e, total-middle (claims u) pre bs post, total-at (claims u) pre a post)
          (Move-claims mv h u _)
    Step-claims (call (calls_cancel t)) h u = omega arith
    Step-claims (call calls_pop) h u = omega arith
    Step-claims (call calls_info) h u = omega arith
    Step-claims (call calls_read) h u = omega arith
    Step-claims (call calls_close) h u = omega arith
    Step-claims (call_push t) h u = omega arith
