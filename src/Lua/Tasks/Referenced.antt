-- ===== src/Lua/Tasks/Referenced.antt =====
-- src/lua/async_service.cpp: a task that the service holds is not collected.
use dromozoa_unix.Prelude.{
  ℕ, ◌+◌, ◌≤◌, ◌<◌, ◌≡◌, refl, true, false, some, List, ◌∷◌, ◌++◌, arith, total, ◌⊎◌, inl, inr,
}
use dromozoa_unix.Prelude.Int.{ℤ}
use dromozoa_unix.Async.Service.{Service, pop}
use dromozoa_unix.Async.System.{
  Agent, pop_entry, Shared, Move, take, call_cancel, pop_none, pop_some, cancel_next, System, Step,
  move, call, call_push, opened, Reach,
}
use dromozoa_unix.Async.Ledger.{count, occ, holds, Reach-InLedger}
use dromozoa_unix.Lua.Tasks.{Refs, moved, stepped, LuaReach, begin, next}

-- How often the service and its calls hold a task.
abbrev pub held : ℕ → System → ℕ
held u s = total (holds u) s.agents + occ u s.shared.service.queue + count u s.shared.service.ready

count-head : (t : ℕ) (ts : List ℕ) → count t (t ∷ ts) ≡ 1 + count t ts
count-head t ts = ground arith

-- A reference that is not there was never made, or has been given up for a pop or a cancel.
abbrev Accounted : ℕ → Shared → Refs → Type 0
Accounted u m refs =
    (refs u ≡ true) ⊎ ((count u m.pushed ≡ 0) ⊎ (0 < count u m.popped + count u m.canceled))

Move-Accounted :
    {m m' : Shared} {a : Agent} {bs : List Agent} (mv : Move m a m' bs) (u : ℕ) (refs : Refs)
    → Accounted u m refs
    → Accounted u m' (moved mv refs)
unfolding moved
Move-Accounted (take e) u refs h = h
Move-Accounted (call_cancel {t}) u refs h = ground arith
Move-Accounted (pop_none e) u refs h = h
Move-Accounted (pop_some {t} e) u refs h = ground arith
Move-Accounted (cancel_next {t}) u refs h = ground arith
Move-Accounted _ u refs h = h

Step-Accounted :
    {s t : System} (st : Step s t) (u : ℕ) (refs : Refs)
    → Accounted u s.shared refs
    → Accounted u t.shared (stepped st refs)
unfolding stepped
Step-Accounted (move pre post e mv) u refs h = Move-Accounted mv u refs h
Step-Accounted (call c) u refs h = h
Step-Accounted (call_push t) u refs h = ground arith

module _ {start x y : ℕ} {reader writer : ℤ} where
  LuaReach-Reach :
      {s : System} {refs : Refs}
      → LuaReach start x y reader writer s refs
      → Reach start x y reader writer s
  LuaReach-Reach begin = Reach.begin
  LuaReach-Reach (next r st) = Reach.next (LuaReach-Reach r) st

  LuaReach-Accounted :
      {s : System} {refs : Refs}
      → LuaReach start x y reader writer s refs
      → (u : ℕ) → Accounted u s.shared refs
  unfolding opened
  LuaReach-Accounted begin u = inr (inl refl)
  LuaReach-Accounted (next {refs} r st) u = Step-Accounted st u refs (LuaReach-Accounted r u)

  -- In every state that a service can reach under Lua: a task that has been pushed once at most, and that
  -- a call, a thread, the queue or `ready_` still holds, is referred to, so Lua does not collect it.
  pub LuaReach-referenced :
      {s : System} {refs : Refs}
      → LuaReach start x y reader writer s refs
      → (u : ℕ) → count u s.shared.pushed ≤ 1
      → 0 < held u s
      → refs u ≡ true
  LuaReach-referenced {s} {refs} r u once some_hold =
      let places = (Reach-InLedger (LuaReach-Reach r) u).places in
      elim (LuaReach-Accounted r u) [
        | inl referenced ↦ referenced
        | inr (inl none_pushed) ↦ absurd (omega (arith, places))
        | inr (inr given_up) ↦ absurd (omega (arith, places))
      ]

  -- Under Lua, where a call of `pop` takes task `t`, and `t` has been pushed at least two times more than it
  -- has been popped, canceled or lost to a `push` that failed: after the call, in a state that the service
  -- can reach, a queue, a thread or another call still holds `t`, and `t` no longer refers to itself, so
  -- Lua may collect it.
  pub pop-unreferenced :
      {s : System} {refs : Refs} {t : ℕ} {after : Service} (pre post : List Agent)
      → LuaReach start x y reader writer s refs
      → (e : s.agents ≡ pre ++ (pop_entry ∷ post))
      → (taken : pop s.shared.service ≡ (some t, after))
      → 2 + count t s.shared.popped + count t s.shared.canceled + count t s.shared.lost_tasks
        ≤ count t s.shared.pushed
      → (u : System) × (refs' : Refs) × Step s u
        × LuaReach start x y reader writer u refs'
        × (u.shared.popped ≡ t ∷ s.shared.popped)
        × (0 < held t u)
        × (refs' t ≡ false)
  unfolding moved stepped
  pop-unreferenced {s} {refs} {t} pre post r e taken twice =
      let st : Step s _ = move pre post e (pop_some taken) in
      let reached = next r st in
      (
        _,
        _,
        st,
        reached,
        refl,
        omega (
          arith,
          (Reach-InLedger (LuaReach-Reach reached) t).places,
          count-head t s.shared.popped,
        ),
        ground arith,
      )
