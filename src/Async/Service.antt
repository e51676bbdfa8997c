-- ===== src/Async/Service.antt =====
-- src/lib/async_service.cpp: the state of `async_service_impl`, and each section of its methods that
-- runs under one mutex, as a function on that state. A task is named by its address; a null pointer
-- in the queue is `none`. The counters are `unsigned int`, and wrap at 2 ^ 32.
use dromozoa_unix.Prelude.{
  ℕ, suc, ◌+◌, ◌-◌, ◌%◌, ◌^◌, Bool, true, false, not, ◌&&◌, ◌||◌, Option, none, some, List, [], ◌∷◌,
  ◌++◌, ltb, leb, ◌==◌, if◌then◌else◌,
}
use dromozoa_unix.Prelude.Int.{ℤ, minus_one, eq_ℤ}

-- Arithmetic on `unsigned int`.
abbrev pub add32 : ℕ → ℕ → ℕ
add32 a b = (a + b) % 2 ^ 32

abbrev pub sub32 : ℕ → ℕ → ℕ
sub32 a b = (a + (2 ^ 32 - b % 2 ^ 32)) % 2 ^ 32

-- A node of the `std::list`; an iterator is the identity of its node.
pub record Node : Type 0 where
  pub id : ℕ
  pub task : Option ℕ

pub record Service : Type 0 where
  pub max_threads : ℕ
  pub max_spare_threads : ℕ
  pub spare_threads : ℕ
  pub current_threads : ℕ
  pub current_tasks : ℕ
  pub queue : List Node
  pub queue_index : List (ℕ × ℕ)  -- the node of a task
  pub next_node : ℕ  -- the identity of the next node that is allocated
  pub ready : List ℕ
  pub ready_reader : ℤ
  pub ready_writer : ℤ

-- `std::map::find`, `erase` by key and `insert`, which keeps an entry that is there.
unfoldable pub find_key : ℕ → List (ℕ × ℕ) → Option ℕ
find_key t [] = none
find_key t ((k, n) ∷ m) = if k == t then some n else find_key t m

unfoldable pub erase_key : ℕ → List (ℕ × ℕ) → List (ℕ × ℕ)
erase_key t [] = []
erase_key t ((k, n) ∷ m) = let rest = erase_key t m in if k == t then rest else (k, n) ∷ rest

unfoldable pub insert_key : ℕ → ℕ → List (ℕ × ℕ) → List (ℕ × ℕ)
unfolding find_key
insert_key t n m = elim (find_key t m) [ none ↦ (t, n) ∷ m | some _ ↦ m ]

-- `std::list::erase` at an iterator.
unfoldable pub erase_node : ℕ → List Node → List Node
erase_node i [] = []
erase_node i (n ∷ ns) = if n.id == i then ns else n ∷ erase_node i ns

-- The constructor.
unfoldable pub init : ℕ → ℕ → Service
init max_threads max_spare_threads = record {
  max_threads = max_threads;
  max_spare_threads = max_spare_threads;
  spare_threads = 0;
  current_threads = 0;
  current_tasks = 0;
  queue = [];
  queue_index = [];
  next_node = 0;
  ready = [];
  ready_reader = minus_one;
  ready_writer = minus_one;
}

-- `open`, with the pipe made, the mask set and each thread created: the counters, then the pipe.
unfoldable pub open_counters : ℕ → Service → Service
open_counters start s =
    if ltb 0 start
    then record s {
      spare_threads = add32 s.spare_threads start;
      current_threads = add32 s.current_threads start;
    }
    else s

unfoldable pub open_ready : ℤ → ℤ → Service → Service
open_ready reader writer s = record s { ready_reader = reader; ready_writer = writer }

-- What the calls of `push` that may fail do: `sigmask_block_all_signals` and the `thread` that is
-- made, which throws where no thread can be created.
pub data Spawn : Type 0 where
  created mask_failed thread_failed : Spawn

-- How `push` leaves its first section.
pub data Entered : Type 0 where
  enough : Entered  -- no thread is wanted
  grown : Entered  -- a thread has been started
  refused : Entered  -- returns -1
  thrown : Entered  -- the exception of `thread` leaves `push`

wants_thread : Service → Bool
wants_thread s = ltb s.current_threads s.current_tasks && ltb s.current_threads s.max_threads

count_thread : Service → Service
count_thread s = record s {
  spare_threads = add32 s.spare_threads 1;
  current_threads = add32 s.current_threads 1;
}

grow : Spawn → Service → Entered × Service
unfolding count_thread
grow created s = (grown, count_thread s)
grow mask_failed s = (refused, s)
grow thread_failed s = (thrown, count_thread s)

unfoldable pub push_counter : Spawn → Service → Entered × Service
unfolding wants_thread grow
push_counter spawn s =
    let counted : Service = record s { current_tasks = add32 s.current_tasks 1 } in
    if wants_thread counted then grow spawn counted else (enough, counted)

unfoldable pub push_queue : ℕ → Service → Service
unfolding insert_key
push_queue t s = record s {
  queue = s.queue ++ record { id = s.next_node; task = some t } ∷ [];
  queue_index = insert_key t s.next_node s.queue_index;
  next_node = suc s.next_node;
}

-- The first section of `cancel`: whether the task was found, and the state without it.
unfoldable pub cancel_queue : ℕ → Service → Bool × Service
unfolding find_key erase_key erase_node
cancel_queue t s = elim (find_key t s.queue_index) [
  | none ↦ (false, s)
  | some i ↦
      (true, record s { queue = erase_node i s.queue; queue_index = erase_key t s.queue_index })
]

unfoldable pub cancel_counter : Service → Service
cancel_counter s = record s { current_tasks = sub32 s.current_tasks 1 }

unfoldable pub pop : Service → Option ℕ × Service
pop s = elim s.ready [ [] ↦ (none, s) | t ∷ rest ↦ (some t, record s { ready = rest }) ]

unfoldable pub info : Service → ℕ × ℕ × ℕ
info s = (s.spare_threads, s.current_threads, s.current_tasks)

-- `close`, section by section. The descriptors, then the queue, are swapped out.
unfoldable pub close_ready : Service → (ℤ × ℤ) × Service
close_ready s = (
  (s.ready_reader, s.ready_writer),
  record s { ready_reader = minus_one; ready_writer = minus_one },
)

unfoldable pub close_queue : Service → List Node × Service
close_queue s = (
  s.queue,
  record s {
    queue = record { id = s.next_node; task = none } ∷ [];
    queue_index = [];
    next_node = suc s.next_node;
  },
)

unfoldable pub close_counter : ℕ → Service → Service
close_counter canceled_tasks s = record s { current_tasks = sub32 s.current_tasks canceled_tasks }

-- `start`, section by section. A worker waits while the queue is empty; a null task stays queued.
unfoldable pub take_node : Service → Node → List Node → Option ℕ × Service
unfolding erase_key
take_node s n rest = elim n.task [
  | none ↦ (none, s)
  | some t ↦ (some t, record s { queue = rest; queue_index = erase_key t s.queue_index })
]

unfoldable pub take_front : Service → Option (Option ℕ × Service)
unfolding take_node
take_front s = elim s.queue [ [] ↦ none | n ∷ rest ↦ some (take_node s n rest) ]

unfoldable pub begin_task : Option ℕ → Service → Service
begin_task (some t) s = record s { spare_threads = sub32 s.spare_threads 1 }
begin_task none s = record s {
  spare_threads = sub32 s.spare_threads 1;
  current_threads = sub32 s.current_threads 1;
}

-- Whether `write` is called for a byte, with a result that is not looked at, and the state.
unfoldable pub publish : ℕ → Service → Bool × Service
publish t s = (not (eq_ℤ s.ready_writer minus_one), record s { ready = s.ready ++ t ∷ [] })

keeps_thread : Service → Bool
keeps_thread s = leb s.current_threads s.current_tasks || ltb s.spare_threads s.max_spare_threads

-- Whether the worker stays, and the state after its task.
unfoldable pub finish_task : Service → Bool × Service
unfolding keeps_thread
finish_task s =
    let counted : Service = record s { current_tasks = sub32 s.current_tasks 1 } in
    if keeps_thread counted
    then (true, record counted { spare_threads = add32 counted.spare_threads 1 })
    else (false, record counted { current_threads = sub32 counted.current_threads 1 })
