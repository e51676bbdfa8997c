-- ===== src/Async/Tests.antt =====
-- src/lib/async_service.cpp: runs of the thread pool, and its theorems at states of these runs.
use dromozoa_unix.Prelude.{
  ℕ, ◌+◌, ◌≤◌, ◌≡◌, ◌≢◌, refl, true, false, some, [], ◌∷◌, ◌++◌, arith, total, List, ◌⊎◌, inl,
}
use dromozoa_unix.Prelude.Int.{pos}
use dromozoa_unix.Async.Service.{
  Node, created, thread_failed, push_counter, push_queue, cancel_queue, close_ready, close_queue,
  close_counter, take_front, erase_key, begin_task, publish, finish_task,
}
use dromozoa_unix.Async.System.{
  Move, close_wait, close_swap, close_cancel, close_entry, returned, cancel_next, cancel_end,
  count_close, take, dispatch, publish_ready, finish, enter_push, insert_push, swap_ready,
  swap_queue, cancel_null, crashed, System, Step, move, call, calls_close, calls_info, call_push,
  opened, Reach, next, now, go_on, Follow, stands, own,
}
use dromozoa_unix.Async.Threads.{ThreadsCounted, Bounded, Reach-ThreadsCounted, Reach-Bounded}
use dromozoa_unix.Async.Index.{Linked, Reach-Linked}
use dromozoa_unix.Async.Ledger.{InLedger, TasksCounted, Reach-InLedger, Reach-TasksCounted}
use dromozoa_unix.Async.Shutdown.{IsClosed, claims, IsClosed-dispatches_nothing_new}
use dromozoa_unix.Async.Drain.{WorkerRun, close_waits, close_ends, lost_thread_blocks_close}
use dromozoa_unix.Async.Stages.{Crashing}
use dromozoa_unix.Async.Calls.{Wakes, cancel_queue_exact, Reach-Wakes, second_close_crashes}

-- A state of a service that was opened with one thread and room for two.
record Run : Type 0 where
  last : System
  reach : Reach 1 2 1 (pos 3) (pos 4) last

abbrev after : (r : Run) {t : System} → Step r.last t → Run
after r {t} st = record { last = t; reach = next r.reach st }

-- Task 7 is in the queue.
queued_run : Run
unfolding opened push_counter push_queue
queued_run =
    after
      (after (after (record { last = _; reach = Reach.begin }) (call_push 7))
        (move [] (_ ∷ []) refl (enter_push created refl)))
      (move [] (_ ∷ []) refl insert_push)

queued_run_queue : queued_run.last.shared.service.queue ≡ record { id = 0; task = some 7 } ∷ []
unfolding queued_run
queued_run_queue = refl

-- The worker has run the task, and waits again.
done_run : Run
unfolding queued_run take_front begin_task publish finish_task
done_run =
    after
      (after
        (after
          (after (after queued_run (move (_ ∷ []) [] refl (take refl)))
            (move (_ ∷ []) [] refl Move.begin))
          (move (_ ∷ []) [] refl dispatch))
        (move (_ ∷ []) [] refl (publish_ready true (inl refl))))
      (move (_ ∷ []) [] refl finish)

done_run_counts :
    (done_run.last.shared.service.ready ≡ 7 ∷ [])
    × (done_run.last.shared.writes ≡ 1)
    × (done_run.last.shared.service.spare_threads ≡ 1)
    × (done_run.last.shared.service.current_tasks ≡ 0)
unfolding done_run
done_run_counts = (refl, refl, refl, refl)

-- `close` has swapped the queue, in which task 7 was.
shut_run : Run
unfolding queued_run close_ready close_queue
shut_run =
    after
      (after (after queued_run (call calls_close)) (move [] (_ ∷ _ ∷ []) refl (swap_ready refl)))
      (move [] (_ ∷ _ ∷ []) refl (swap_queue refl))

IsClosed-shut_run : IsClosed shut_run.last.shared.service
unfolding shut_run
IsClosed-shut_run = refl

-- A `push` whose thread could not be created: two tasks and one thread, and room for two.
failed_run : Run
unfolding queued_run push_counter
failed_run =
    after (after queued_run (call_push 8))
      (move [] (_ ∷ _ ∷ []) refl (enter_push thread_failed refl))

Reach-ThreadsCounted_example : ThreadsCounted done_run.last
Reach-ThreadsCounted_example = Reach-ThreadsCounted done_run.reach

Reach-Bounded_example : Bounded 2 done_run.last
Reach-Bounded_example = Reach-Bounded (omega arith) (omega arith) done_run.reach

Reach-Linked_example : Linked queued_run.last.shared.service
Reach-Linked_example = Reach-Linked queued_run.reach

Reach-InLedger_example : InLedger 7 done_run.last
Reach-InLedger_example = Reach-InLedger done_run.reach 7

Reach-TasksCounted_example : TasksCounted queued_run.last
Reach-TasksCounted_example = Reach-TasksCounted queued_run.reach

IsClosed-dispatches_nothing_new_example :
    (total (claims 7) shut_run.last.agents + 0 ≡ total (claims 7) shut_run.last.agents + 0)
    × IsClosed shut_run.last.shared.service
unfolding shut_run
IsClosed-dispatches_nothing_new_example =
    IsClosed-dispatches_nothing_new shut_run.reach refl (call_push 7) 7

close_ends_example :
    (n : ℕ) × (t : System) × WorkerRun shut_run.last n t × (t.shared.service.current_threads ≡ 0)
unfolding shut_run
close_ends_example = close_ends shut_run.reach refl refl

-- A `close` in the failed run that waits, and then a call of `info`.
waiting_run : Run
unfolding failed_run close_ready close_queue close_counter
waiting_run =
    after
      (after
        (after
          (after
            (after (after failed_run (call calls_close))
              (move [] (_ ∷ _ ∷ _ ∷ []) refl (swap_ready refl)))
            (move [] (_ ∷ _ ∷ _ ∷ []) refl (swap_queue refl)))
          (move [] (_ ∷ _ ∷ _ ∷ []) refl cancel_next))
        (move [] (_ ∷ _ ∷ _ ∷ []) refl cancel_end))
      (move [] (_ ∷ _ ∷ _ ∷ []) refl count_close)

lost_thread_blocks_close_example :
    (waiting_run.last.shared.service.current_threads ≢ 0)
    × (¬ Move waiting_run.last.shared
        (close_wait (pos 3) (pos 4))
        waiting_run.last.shared
        (returned (pos 0) ∷ []))
    × (1 ≤ total close_waits waiting_run.last.agents)
unfolding waiting_run
lost_thread_blocks_close_example =
    lost_thread_blocks_close (omega arith) (omega arith) waiting_run.reach (omega arith)
      (go_on now (call calls_info)) (pos 3) (pos 4) waiting_run.last.shared (returned (pos 0) ∷ [])

cancel_queue_exact_example :
    ((true ≡ true)
      × ((i : ℕ) × (pre : List Node) × (post : List Node) × (queued_run.last.shared.service.queue
            ≡ pre ++ (record { id = i; task = some 7 } ∷ post))
          × ((cancel_queue 7 queued_run.last.shared.service).1
              ≡ record queued_run.last.shared.service {
                queue = pre ++ post;
                queue_index = erase_key 7 queued_run.last.shared.service.queue_index;
              })))
    ⊎ ((true ≡ false)
        × ((cancel_queue 7 queued_run.last.shared.service).1 ≡ queued_run.last.shared.service))
unfolding queued_run cancel_queue
cancel_queue_exact_example = cancel_queue_exact queued_run.reach 7 true _ refl

Reach-Wakes_example : Wakes done_run.last.shared
Reach-Wakes_example = Reach-Wakes (λ e. cc) done_run.reach

-- A first `close` is about to swap the queue.
first_run : Run
unfolding queued_run close_ready
first_run =
    after (after queued_run (call calls_close)) (move [] (_ ∷ _ ∷ []) refl (swap_ready refl))

first_swap :
    Move first_run.last.shared
      (close_swap (pos 3) (pos 4))
      shut_run.last.shared
      (close_cancel (pos 3) (pos 4) 0 (record { id = 0; task = some 7 } ∷ []) ∷ [])
unfolding first_run shut_run
first_swap = swap_queue refl

-- The second one is called then, and runs three sections.
second_run : Run
unfolding shut_run
second_run = after shut_run (call calls_close)

second_ends : (v : System) × Follow second_run.last close_entry 3 v (crashed 0 [])
unfolding second_run close_ready close_queue
second_ends = (
  _,
  own [] (_ ∷ _ ∷ _ ∷ [])
      (own [] (_ ∷ _ ∷ _ ∷ [])
        (own [] (_ ∷ _ ∷ _ ∷ []) (stands [] (_ ∷ _ ∷ _ ∷ []) refl) refl (swap_ready refl)) refl
        (swap_queue refl))
      refl cancel_null,
)

second_close_crashes_example : Crashing 3 second_ends.0 (crashed 0 [])
unfolding first_run shut_run second_run
second_close_crashes_example =
    second_close_crashes [] (_ ∷ _ ∷ []) first_run.reach refl first_swap
      (go_on now (call calls_close)) second_ends.1
