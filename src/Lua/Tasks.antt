-- ===== src/Lua/Tasks.antt =====
-- src/lua/async_task.cpp and src/lua/async_service.cpp: the tasks of Lua in a thread pool. A task is an
-- object that Lua may collect, unless `ref_` refers to it from the registry. The threads of the pool
-- run interleaved with Lua as in Async/System.antt; Lua itself is one thread, so what a function does
-- beside its call of the service is part of a section of that call.
pub mod Referenced
mod Tests
use dromozoa_unix.Prelude.{
  ℕ, zero, suc, ◌+◌, ◌<◌, ◌≡◌, Bool, true, false, Option, none, some, List, [], ◌∷◌, ltb, ◌==◌,
  if◌then◌else◌,
}
use dromozoa_unix.Prelude.Int.{ℤ, pos, minus_one}
use dromozoa_unix.Async.System.{
  Agent, Shared, Move, take, dispatch, publish_ready, finish, enter_push, insert_push, find_cancel,
  call_cancel, count_cancel, pop_none, pop_some, read_byte, read_end, inform, swap_ready,
  swap_queue, cancel_next, cancel_null, cancel_end, count_close, end_close, System, Step, move,
  call, call_push, opened,
}
use dromozoa_unix.Async.Open.{open_one, open_two, open_three}
use dromozoa_unix.Lua.{
  Key, name, Value, nil, success, integer, table, Fields, end, field, Answer, returned, thrown,
  Session, Run, push_error,
}

-- Whether `ref_` of a task refers to it.
abbrev pub Refs : Type 0
Refs = ℕ → Bool

abbrev pub update : ℕ → Bool → Refs → Refs
update t b refs u = if u == t then b else refs u

-- `async_task::ref`, `unref` and `cancel`.
unfoldable pub ref : ℕ → Refs → Refs
ref t refs = update t true refs

unfoldable pub unref : ℕ → Refs → Refs
unref t refs = update t false refs

unfoldable pub cancel : ℕ → Refs → Refs
unfolding unref
cancel t refs = unref t refs

-- `async_task::get_field`: the task itself, or nil where nothing refers to it.
unfoldable pub get_field : ℕ → Refs → Option ℕ
get_field t refs = if refs t then some t else none

-- What `impl_pop` pushes, and the references after it.
unfoldable pub impl_pop : Option ℕ → Refs → Option (Option ℕ) × Refs
unfolding get_field unref
impl_pop none refs = (none, refs)
impl_pop (some t) refs = (some (get_field t refs), unref t refs)

-- The sections that touch a reference: the virtual `cancel`, and `pop` of a task.
unfoldable pub moved : {m m' : Shared} {a : Agent} {bs : List Agent} → Move m a m' bs → Refs → Refs
unfolding impl_pop cancel
moved (take e) refs = refs
moved Move.begin refs = refs
moved dispatch refs = refs
moved (publish_ready stored h) refs = refs
moved (read_byte h) refs = refs
moved (read_end h) refs = refs
moved finish refs = refs
moved (enter_push spawn e) refs = refs
moved insert_push refs = refs
moved (find_cancel e) refs = refs
moved (call_cancel {t}) refs = cancel t refs
moved count_cancel refs = refs
moved (pop_none e) refs = (impl_pop none refs).1
moved (pop_some {t} e) refs = (impl_pop (some t) refs).1
moved inform refs = refs
moved (swap_ready e) refs = refs
moved (swap_queue e) refs = refs
moved (cancel_next {t}) refs = cancel t refs
moved cancel_null refs = refs
moved cancel_end refs = refs
moved count_close refs = refs
moved (end_close r w e) refs = refs

-- `impl_push` refers to the task before it calls `push`.
unfoldable pub stepped : {s t : System} → Step s t → Refs → Refs
unfolding moved ref
stepped (move pre post e mv) refs = moved mv refs
stepped (call c) refs = refs
stepped (call_push t) refs = ref t refs

-- A service under Lua, from `opened` on, with the references that the calls leave.
pub data LuaReach (start max_threads max_spare_threads : ℕ) (reader writer : ℤ)
    : System → Refs → Type 0 where
  begin :
      LuaReach start max_threads max_spare_threads reader writer
        (opened start max_threads max_spare_threads reader writer)
        (λ t. false)
  next :
      {s t : System} {refs : Refs}
      → LuaReach start max_threads max_spare_threads reader writer s refs
      → (st : Step s t)
      → LuaReach start max_threads max_spare_threads reader writer t (stepped st refs)

-- `impl_call`, by the arguments behind the class; an argument is `none` where its check raises.
unfoldable pub impl_call : ℕ → List (Option ℕ) → Option (ℕ × ℕ × ℕ)
unfolding open_one open_two open_three
impl_call hardware_concurrency [] =
    some (open_one (if ltb hardware_concurrency 1 then 1 else hardware_concurrency))
impl_call hardware_concurrency (some start ∷ []) = some (open_one start)
impl_call hardware_concurrency (some start ∷ some most ∷ []) = some (open_two start most)
impl_call hardware_concurrency (some start ∷ some most ∷ some spare ∷ rest) =
    some (open_three start most spare)
impl_call hardware_concurrency _ = none

-- `impl_info`.
unfoldable pub impl_info : ℕ × ℕ × ℕ → Value
impl_info (spare_threads, current_threads, current_tasks) = table (
    field (name "spare_threads") (integer (pos spare_threads)) (
      field (name "current_threads") (integer (pos current_threads))
        (field (name "current_tasks") (integer (pos current_tasks)) end)))
