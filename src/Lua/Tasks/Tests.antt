-- ===== src/Lua/Tasks/Tests.antt =====
-- src/lua/async_service.cpp: runs of a thread pool under Lua.
use dromozoa_unix.Prelude.{◌<◌, ◌≡◌, refl, false, true, [], ◌∷◌, arith, inl}
use dromozoa_unix.Prelude.Int.{pos}
use dromozoa_unix.Async.Service.{
  created, pop, push_counter, push_queue, take_front, begin_task, publish, finish_task, Service,
}
use dromozoa_unix.Async.System.{
  enter_push, insert_push, take, dispatch, publish_ready, finish, Move, Step, move, call, calls_pop,
  call_push, opened, System,
}
use dromozoa_unix.Lua.Tasks.{Refs, LuaReach, begin, next}
use dromozoa_unix.Lua.Tasks.Referenced.{held, LuaReach-referenced, pop-unreferenced}

record Run : Type 0 where
  last : System
  refs : Refs
  reach : LuaReach 1 2 1 (pos 3) (pos 4) last refs

-- Task 7 is in the queue.
queued_run : Run
unfolding opened push_counter push_queue
queued_run = record {
  last = _;
  refs = _;
  reach =
      next (next (next begin (call_push 7)) (move [] (_ ∷ []) refl (enter_push created refl)))
        (move [] (_ ∷ []) refl insert_push);
}

LuaReach-referenced_example : queued_run.refs 7 ≡ true
unfolding queued_run
LuaReach-referenced_example = LuaReach-referenced queued_run.reach 7 (omega arith) (omega arith)

abbrev after : (r : Run) {t : System} → Step r.last t → Run
after r {t} st = record { last = t; refs = _; reach = next r.reach st }

-- The worker has run task 7, which is pushed again, and `pop` is called.
again_run : Run
unfolding queued_run push_counter push_queue take_front begin_task publish finish_task
again_run =
    after
      (after
        (after
          (after
            (after
              (after
                (after
                  (after (after queued_run (move (_ ∷ []) [] refl (take refl)))
                    (move (_ ∷ []) [] refl Move.begin))
                  (move (_ ∷ []) [] refl dispatch))
                (move (_ ∷ []) [] refl (publish_ready true (inl refl))))
              (move (_ ∷ []) [] refl finish))
            (call_push 7))
          (move [] (_ ∷ _ ∷ []) refl (enter_push created refl)))
        (move [] (_ ∷ _ ∷ []) refl insert_push))
      (call calls_pop)

again_rest : Service
unfolding again_run
again_rest = record again_run.last.shared.service { ready = [] }

pop-unreferenced_example :
    (u : System) × (refs : Refs) × Step again_run.last u
    × LuaReach 1 2 1 (pos 3) (pos 4) u refs
    × (u.shared.popped ≡ 7 ∷ [])
    × (0 < held 7 u)
    × (refs 7 ≡ false)
unfolding again_run again_rest pop
pop-unreferenced_example =
    pop-unreferenced {after = again_rest} [] (_ ∷ _ ∷ _ ∷ []) again_run.reach refl refl
      (omega arith)
