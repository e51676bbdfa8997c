-- ===== src/Async/System.antt =====
-- src/lib/async_service.cpp under threads: the workers (`start`) and the callers of `push`, `cancel`,
-- `pop`, `info` and `close` run interleaved, one section under a mutex at a time. An agent is a
-- running worker or call: where it stands, with the locals that are live there.
use dromozoa_unix.Prelude.{
  ℕ, ◌+◌, ◌-◌, ◌<◌, ◌≡◌, ◌⊎◌, not, ◌&&◌, ltb, Bool, true, false, Option, none, some, List, [], ◌∷◌,
  ◌++◌,
}
use dromozoa_unix.Prelude.Int.{ℤ, pos, minus_one, eq_ℤ}
use dromozoa_unix.Async.Service.{
  Service, Node, Spawn, Entered, enough, grown, refused, thrown, push_counter, push_queue,
  cancel_queue, cancel_counter, pop, info, close_ready, close_queue, close_counter, take_front,
  begin_task, publish, finish_task, init, open_counters, open_ready,
}

pub data Agent : Type 0 where
  waiting : Agent  -- a worker at the head of its loop
  counting : Option ℕ → Agent  -- has read the front of the queue
  dispatching : ℕ → Agent
  publishing : ℕ → Agent
  retiring : Agent
  push_entry : ℕ → Agent
  push_insert : ℕ → Agent
  cancel_entry : ℕ → Agent
  cancel_call : ℕ → Agent
  cancel_account : Agent
  pop_entry : Agent
  info_entry : Agent
  reading : ℕ → Agent  -- `read`, with its count
  close_entry : Agent
  close_swap : ℤ → ℤ → Agent  -- with the descriptors
  close_cancel : ℤ → ℤ → ℕ → List Node → Agent  -- tasks seen, tasks to cancel
  close_account : ℤ → ℤ → ℕ → Agent
  close_wait : ℤ → ℤ → Agent
  returned : ℤ → Agent  -- a call has returned this (a bool is 0 or 1)
  popped : Option ℕ → Agent
  informed : ℕ × ℕ × ℕ → Agent
  failed : Agent  -- a call was left by the exception of `thread`
  crashed : ℕ → List Node → Agent  -- `cancel` was called on a null pointer

-- What all agents share, and a record of what has happened, which no code reads.
pub record Shared : Type 0 where
  pub service : Service
  pub bytes : ℕ  -- in the ready pipe
  pub writes : ℕ  -- bytes that were written to the ready pipe
  pub unwritten : ℕ  -- bytes that found the pipe full
  pub fresh : ℕ  -- tasks that have come to `ready_` since a byte was read
  pub pushed : List ℕ  -- tasks whose `push` has begun
  pub dispatched : List ℕ
  pub canceled : List ℕ
  pub popped : List ℕ
  pub lost_threads : ℕ  -- threads counted and never created
  pub lost_tasks : List ℕ  -- tasks counted whose `push` failed

-- Whether a result that is tested against -1 comes out of the two `close` calls on descriptors.
abbrev pub close_result : Bool → Bool → ℤ
close_result false _ = minus_one
close_result true false = minus_one
close_result true true = pos 0

abbrev pub bool_result : Bool → ℤ
bool_result true = pos 1
bool_result false = pos 0

-- A `write` of a byte to the ready pipe, which does not block: where it is called, the byte is stored, or
-- the call fails.
abbrev pub bytes_stored : Bool → Bool → ℕ
bytes_stored true true = 1
bytes_stored _ _ = 0

abbrev pub bytes_refused : Bool → Bool → ℕ
bytes_refused true false = 1
bytes_refused _ _ = 0

-- Whether `::read` takes a byte from the ready pipe.
abbrev pub has_byte : Shared → Bool
has_byte m = not (eq_ℤ m.service.ready_reader minus_one) && ltb 0 m.bytes

abbrev pub after_finish : Bool → List Agent
after_finish true = waiting ∷ []
after_finish false = []

abbrev pub after_begin : Option ℕ → List Agent
after_begin (some t) = dispatching t ∷ []
after_begin none = []

-- A call after the first section of `push`, which may have started a worker.
abbrev pub after_entry : Entered → ℕ → List Agent
after_entry enough t = push_insert t ∷ []
after_entry grown t = push_insert t ∷ waiting ∷ []
after_entry refused t = returned minus_one ∷ []
after_entry thrown t = failed ∷ []

abbrev pub entry_losses : Entered → ℕ
entry_losses thrown = 1
entry_losses _ = 0

abbrev pub entry_lost_tasks : Entered → ℕ → List ℕ
entry_lost_tasks enough t = []
entry_lost_tasks grown t = []
entry_lost_tasks refused t = t ∷ []
entry_lost_tasks thrown t = t ∷ []

abbrev pub after_cancel_queue : Bool → ℕ → Agent
after_cancel_queue true t = cancel_call t
after_cancel_queue false t = returned (bool_result false)

-- A `write` to the pipe fails only where it is full, so that there are bytes in it.
-- One section of one agent: the shared state after it, and the agents in the agent's place.
pub data Move (m : Shared) : Agent → Shared → List Agent → Type 0 where
  take :
      {o : Option ℕ} {s : Service}
      → take_front m.service ≡ some (o, s)
      → Move m waiting (record m { service = s }) (counting o ∷ [])
  begin :
      {o : Option ℕ}
      → Move m (counting o) (record m { service = begin_task o m.service }) (after_begin o)
  dispatch :
      {t : ℕ}
      → Move m (dispatching t) (record m { dispatched = t ∷ m.dispatched }) (publishing t ∷ [])
  publish_ready :
      {t : ℕ} (stored : Bool)
      → (stored ≡ true) ⊎ (0 < m.bytes)
      → Move m
          (publishing t)
          (record m {
            service = (publish t m.service).1;
            bytes = m.bytes + bytes_stored (publish t m.service).0 stored;
            writes = m.writes + bytes_stored (publish t m.service).0 stored;
            unwritten = m.unwritten + bytes_refused (publish t m.service).0 stored;
            fresh = m.fresh + 1;
          })
          (retiring ∷ [])
  finish :
      Move m retiring
        (record m { service = (finish_task m.service).1 })
        (after_finish (finish_task m.service).0)
  enter_push :
      {t : ℕ} {e : Entered} {s : Service} (spawn : Spawn)
      → push_counter spawn m.service ≡ (e, s)
      → Move m
          (push_entry t)
          (record m {
            service = s;
            lost_threads = m.lost_threads + entry_losses e;
            lost_tasks = entry_lost_tasks e t ++ m.lost_tasks;
          })
          (after_entry e t)
  insert_push :
      {t : ℕ}
      → Move m
          (push_insert t)
          (record m { service = push_queue t m.service })
          (returned (pos 0) ∷ [])
  find_cancel :
      {t : ℕ} {b : Bool} {s : Service}
      → cancel_queue t m.service ≡ (b, s)
      → Move m (cancel_entry t) (record m { service = s }) (after_cancel_queue b t ∷ [])
  call_cancel :
      {t : ℕ}
      → Move m (cancel_call t) (record m { canceled = t ∷ m.canceled }) (cancel_account ∷ [])
  count_cancel :
      Move m cancel_account
        (record m { service = cancel_counter m.service })
        (returned (bool_result true) ∷ [])
  pop_none :
      {s : Service}
      → pop m.service ≡ (none, s)
      → Move m pop_entry (record m { service = s }) (popped none ∷ [])
  pop_some :
      {t : ℕ} {s : Service}
      → pop m.service ≡ (some t, s)
      → Move m pop_entry (record m { service = s; popped = t ∷ m.popped }) (popped (some t) ∷ [])
  read_byte :
      {n : ℕ}
      → has_byte m ≡ true
      → Move m (reading n) (record m { bytes = m.bytes - 1; fresh = 0 }) (reading (n + 1) ∷ [])
  read_end : {n : ℕ} → has_byte m ≡ false → Move m (reading n) m (returned (pos n) ∷ [])
  inform : Move m info_entry m (informed (info m.service) ∷ [])
  swap_ready :
      {reader writer : ℤ} {s : Service}
      → close_ready m.service ≡ ((reader, writer), s)
      → Move m close_entry (record m { service = s }) (close_swap reader writer ∷ [])
  swap_queue :
      {reader writer : ℤ} {ns : List Node} {s : Service}
      → close_queue m.service ≡ (ns, s)
      → Move m
          (close_swap reader writer)
          (record m { service = s })
          (close_cancel reader writer 0 ns ∷ [])
  cancel_next :
      {reader writer : ℤ} {k i t : ℕ} {ns : List Node}
      → Move m
          (close_cancel reader writer k (record { id = i; task = some t } ∷ ns))
          (record m { canceled = t ∷ m.canceled })
          (close_cancel reader writer (k + 1) ns ∷ [])
  cancel_null :
      {reader writer : ℤ} {k i : ℕ} {ns : List Node}
      → Move m
          (close_cancel reader writer k (record { id = i; task = none } ∷ ns))
          m
          (crashed k ns ∷ [])
  cancel_end :
      {reader writer : ℤ} {k : ℕ}
      → Move m (close_cancel reader writer k []) m (close_account reader writer k ∷ [])
  count_close :
      {reader writer : ℤ} {k : ℕ}
      → Move m
          (close_account reader writer k)
          (record m { service = close_counter k m.service })
          (close_wait reader writer ∷ [])
  end_close :
      {reader writer : ℤ} (reader_closed writer_closed : Bool)
      → m.service.current_threads ≡ 0
      → Move m
          (close_wait reader writer)
          m
          (returned (close_result reader_closed writer_closed) ∷ [])

pub record System : Type 0 where
  pub shared : Shared
  pub agents : List Agent

-- The calls that a caller may make at any time.
pub data Call : Agent → Type 0 where
  calls_cancel : (t : ℕ) → Call (cancel_entry t)
  calls_pop : Call pop_entry
  calls_info : Call info_entry
  calls_read : Call (reading 0)
  calls_close : Call close_entry

pub data Step (s : System) : System → Type 0 where
  move :
      (pre post : List Agent) {a : Agent} {m : Shared} {bs : List Agent}
      → s.agents ≡ pre ++ (a ∷ post)
      → Move s.shared a m bs
      → Step s (record { shared = m; agents = pre ++ (bs ++ post) })
  call : {a : Agent} → Call a → Step s (record s { agents = a ∷ s.agents })
  call_push :
      (t : ℕ)
      → Step s (record {
        shared = record s.shared { pushed = t ∷ s.shared.pushed };
        agents = push_entry t ∷ s.agents;
      })

abbrev pub replicate_waiting : ℕ → List Agent
replicate_waiting ℕ.zero = []
replicate_waiting (ℕ.suc n) = waiting ∷ replicate_waiting n

-- `open` that has succeeded: its threads are running, and the pipe is in place.
unfoldable pub opened : ℕ → ℕ → ℕ → ℤ → ℤ → System
unfolding init open_counters open_ready
opened start max_threads max_spare_threads reader writer = record {
  shared = record {
    service = open_ready reader writer (open_counters start (init max_threads max_spare_threads));
    bytes = 0;
    writes = 0;
    unwritten = 0;
    fresh = 0;
    pushed = [];
    dispatched = [];
    canceled = [];
    popped = [];
    lost_threads = 0;
    lost_tasks = [];
  };
  agents = replicate_waiting start;
}

pub data Reach (start max_threads max_spare_threads : ℕ) (reader writer : ℤ) : System → Type 0 where
  begin :
      Reach start max_threads max_spare_threads reader writer
        (opened start max_threads max_spare_threads reader writer)
  next :
      {s t : System}
      → Reach start max_threads max_spare_threads reader writer s
      → Step s t
      → Reach start max_threads max_spare_threads reader writer t

-- From one state to another, in any number of steps of anyone.
pub data Later (s : System) : System → Type 0 where
  now : Later s s
  go_on : {t u : System} → Later s t → Step t u → Later s u

-- A run from `s`, in which an agent that stands at `a` is followed through `n` sections of its own to `b`,
-- the others taking steps in between.
pub data Follow (s : System) (a : Agent) : ℕ → System → Agent → Type 0 where
  stands : (pre post : List Agent) → s.agents ≡ pre ++ (a ∷ post) → Follow s a 0 s a
  others :
      {n : ℕ} {t u : System} {b : Agent} (pre post : List Agent)
      → Follow s a n t b
      → Step t u
      → u.agents ≡ pre ++ (b ∷ post)
      → Follow s a n u b
  own :
      {n : ℕ} {t : System} {b c : Agent} {m : Shared} (pre post : List Agent)
      → Follow s a n t b
      → t.agents ≡ pre ++ (b ∷ post)
      → Move t.shared b m (c ∷ [])
      → Follow s a (n + 1) (record { shared = m; agents = pre ++ ((c ∷ []) ++ post) }) c
