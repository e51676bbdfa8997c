-- ===== src/Async/Index.antt =====
-- src/lib/async_service.cpp: `queue_index_` against `queue_`. `cancel` erases the node that the index
-- names, so the index must never name a node that is gone, or that holds another task.
use dromozoa_unix.Prelude.{
  ℕ, suc, ◌<◌, ◌≡◌, ◌≢◌, refl, ap, Option, none, some, List, [], ◌∷◌, ◌++◌, arith, ◌==◌,
  if◌then◌else◌, All,
}
use dromozoa_unix.Async.Service.{
  Service, Node, find_key, erase_key, insert_key, erase_node, push_queue, cancel_queue, close_queue,
  take_node, take_front, begin_task, finish_task, push_counter, publish, cancel_counter, pop,
  close_ready, close_counter, init, created, mask_failed, thread_failed,
}
use dromozoa_unix.Async.System.{
  Agent, Shared, Move, take, begin, finish, enter_push, insert_push, find_cancel, pop_none,
  pop_some, swap_ready, swap_queue, end_close, System, Step, move, call, call_push, opened, Reach,
  next,
}
use dromozoa_unix.Prelude.Int.{ℤ}

-- The task of the first node with an identity.
abbrev pub task_at : ℕ → List Node → Option (Option ℕ)
task_at i [] = none
task_at i (n ∷ ns) = if n.id == i then some n.task else task_at i ns

-- Every entry names a node of the queue that holds the entry's task.
abbrev pub Indexed : List (ℕ × ℕ) → List Node → Type 0
Indexed m ns = (t i : ℕ) → find_key t m ≡ some i → task_at i ns ≡ some (some t)

-- Identities that are still to be allocated are not in the queue.
abbrev pub Fresh : ℕ → List Node → Type 0
Fresh k = All (λ n. n.id < k)

find_key-erase_self : (t : ℕ) (m : List (ℕ × ℕ)) → find_key t (erase_key t m) ≡ none
unfolding find_key erase_key
find_key-erase_self t [] = refl
find_key-erase_self t ((k, n) ∷ m) = ground (arith, find_key-erase_self t m)

find_key-erase_ne : (t u : ℕ) (m : List (ℕ × ℕ)) → t ≢ u → find_key u (erase_key t m) ≡ find_key u m
unfolding find_key erase_key
find_key-erase_ne t u [] h = refl
find_key-erase_ne t u ((k, n) ∷ m) h = ground (arith, find_key-erase_ne t u m h)

-- An entry that is left after an erasure is an entry of before, of another task.
find_key-erase :
    (t u i : ℕ) (m : List (ℕ × ℕ))
    → find_key u (erase_key t m) ≡ some i
    → (t ≢ u) × (find_key u m ≡ some i)
unfolding find_key erase_key
find_key-erase t u i [] h = cc
find_key-erase t u i ((k, n) ∷ m) h = ground (arith, find_key-erase t u i m)

task_at-append :
    (i : ℕ) (ns ms : List Node) (o : Option ℕ)
    → task_at i ns ≡ some o
    → task_at i (ns ++ ms) ≡ some o
task_at-append i [] ms o h = cc
task_at-append i (n ∷ ns) ms o h = ground (arith, task_at-append i ns ms o)

task_at-Fresh :
    (k : ℕ) (ns : List Node) (n : Node)
    → Fresh k ns
    → n.id ≡ k
    → task_at k (ns ++ n ∷ []) ≡ some n.task
task_at-Fresh k [] n f e = ground arith
task_at-Fresh k (x ∷ ns) n f e = ground (arith, task_at-Fresh k ns n f.1 e)

task_at-erase : (i j : ℕ) (ns : List Node) → i ≢ j → task_at j (erase_node i ns) ≡ task_at j ns
unfolding erase_node
task_at-erase i j [] h = refl
task_at-erase i j (n ∷ ns) h = ground (arith, task_at-erase i j ns h)

Fresh-suc : (k : ℕ) (ns : List Node) → Fresh k ns → Fresh (suc k) ns
Fresh-suc k [] f = tt
Fresh-suc k (n ∷ ns) f = (omega arith, Fresh-suc k ns f.1)

pub Fresh-push :
    (k : ℕ) (ns : List Node) (n : Node) → n.id ≡ k → Fresh k ns → Fresh (suc k) (ns ++ n ∷ [])
Fresh-push k [] n e f = (omega arith, tt)
Fresh-push k (x ∷ ns) n e f = (omega arith, Fresh-push k ns n e f.1)

pub Fresh-erase : (k i : ℕ) (ns : List Node) → Fresh k ns → Fresh k (erase_node i ns)
unfolding erase_node
Fresh-erase k i [] f = tt
Fresh-erase k i (n ∷ ns) f = ground (arith, Fresh-erase k i ns f.1)

-- The three ways in which the code changes the queue and its index together.
pub Indexed-push :
    (t k : ℕ) (m : List (ℕ × ℕ)) (ns : List Node)
    → Fresh k ns
    → Indexed m ns
    → Indexed (insert_key t k m) (ns ++ record { id = k; task = some t } ∷ [])
unfolding insert_key find_key
Indexed-push t k m ns f h u i e = ground (
  arith,
  h u i,
  task_at-append i ns (record { id = k; task = some t } ∷ []) (some u),
  task_at-Fresh k ns (record { id = k; task = some t }) f,
)

pub Indexed-pop :
    (t : ℕ) (m : List (ℕ × ℕ)) (n : Node) (ns : List Node)
    → n.task ≡ some t
    → Indexed m (n ∷ ns)
    → Indexed (erase_key t m) ns
Indexed-pop t m n ns e h u i q = ground (arith, find_key-erase t u i m q, h u i)

pub Indexed-cancel :
    (t i : ℕ) (m : List (ℕ × ℕ)) (ns : List Node)
    → find_key t m ≡ some i
    → Indexed m ns
    → Indexed (erase_key t m) (erase_node i ns)
Indexed-cancel t i m ns e h u j q =
    ground (arith, find_key-erase t u j m q, h u j, h t i e, task_at-erase i j ns)

-- The index and the queue of a service.
abbrev pub Linked : Service → Type 0
Linked s = Indexed s.queue_index s.queue × Fresh s.next_node s.queue

record SameQueue (s s' : Service) : Type 0 where
  same_queue : s'.queue ≡ s.queue
  same_index : s'.queue_index ≡ s.queue_index
  same_next : s'.next_node ≡ s.next_node

Linked-SameQueue : (s s' : Service) → SameQueue s s' → Linked s → Linked s'
Linked-SameQueue s s' e h = rw (e.same_queue, e.same_index, e.same_next) h

push_queue-Linked : (t : ℕ) (s : Service) → Linked s → Linked (push_queue t s)
unfolding push_queue
push_queue-Linked t s h = (
  Indexed-push t s.next_node s.queue_index s.queue h.1 h.0,
  Fresh-push s.next_node s.queue _ refl h.1,
)

cancel_found-Linked :
    (t : ℕ) (s : Service) (o : Option ℕ)
    → find_key t s.queue_index ≡ o
    → Linked s
    → Linked (cancel_queue t s).1
unfolding cancel_queue
cancel_found-Linked t s none e h = rw (e, cancel_queue) h
cancel_found-Linked t s (some i) e h =
    rw (e, cancel_queue)
      (Indexed-cancel t i s.queue_index s.queue e h.0, Fresh-erase s.next_node i s.queue h.1)

close_queue-Linked : (s : Service) → Linked s → Linked (close_queue s).1
unfolding close_queue find_key
close_queue-Linked s h = (λ t i e. cc, (omega arith, tt))

take_node-Linked :
    (s : Service) (n : Node) (rest : List Node) (o : Option ℕ)
    → n.task ≡ o
    → s.queue ≡ n ∷ rest
    → Linked s
    → Linked (take_node s n rest).1
unfolding take_node
take_node-Linked s n rest none t e h = rw (t, take_node) h
take_node-Linked s n rest (some u) t e h =
    let h' : Indexed s.queue_index (n ∷ rest) × Fresh s.next_node (n ∷ rest) = rw e at h in
    rw (t, take_node) (Indexed-pop u s.queue_index n rest t h'.0, h'.1.1)

take_front-Linked :
    (s : Service) (ns : List Node) {o : Option ℕ} {s' : Service}
    → s.queue ≡ ns
    → take_front s ≡ some (o, s')
    → Linked s
    → Linked s'
unfolding take_front
take_front-Linked s [] e t h = absurd (ground arith)
take_front-Linked s (n ∷ rest) {o} {s'} e t h =
    let t' : (take_node s n rest).1 ≡ s' = ground arith in
    rw t' at (take_node-Linked s n rest n.task refl e h)

-- Every section keeps the index and the queue together.
Move-Linked :
    {m m' : Shared} {a : Agent} {bs : List Agent}
    → Move m a m' bs
    → Linked m.service
    → Linked m'.service
unfolding begin_task finish_task push_counter publish cancel_counter pop close_ready close_counter
Move-Linked {m} (take e) h = take_front-Linked m.service m.service.queue refl e h
Move-Linked {m} (begin {o = none}) h = h
Move-Linked {m} (begin {o = some t}) h = h
Move-Linked {m} finish h = Linked-SameQueue m.service (finish_task m.service).1 (ground arith) h
Move-Linked {m} (enter_push {s = s'} created e) h = Linked-SameQueue m.service s' (ground arith) h
Move-Linked {m} (enter_push {s = s'} mask_failed e) h =
    Linked-SameQueue m.service s' (ground arith) h
Move-Linked {m} (enter_push {s = s'} thread_failed e) h =
    Linked-SameQueue m.service s' (ground arith) h
Move-Linked {m} (insert_push {t}) h = push_queue-Linked t m.service h
Move-Linked {m} (find_cancel {t} e) h =
    rw (ap (λ p. p.1) e) at (cancel_found-Linked t m.service _ refl h)
Move-Linked {m} (pop_none {s = s'} e) h = Linked-SameQueue m.service s' (ground arith) h
Move-Linked {m} (pop_some {s = s'} e) h = Linked-SameQueue m.service s' (ground arith) h
Move-Linked {m} (swap_ready {s = s'} e) h = Linked-SameQueue m.service s' (ground arith) h
Move-Linked {m} (swap_queue e) h = rw (ap (λ p. p.1) e) at (close_queue-Linked m.service h)
Move-Linked {m} (end_close r w e) h = h
Move-Linked {m} mv h = h

Step-Linked : {s t : System} → Step s t → Linked s.shared.service → Linked t.shared.service
Step-Linked (move pre post e mv) h = Move-Linked mv h
Step-Linked (call c) h = h
Step-Linked (call_push t) h = h

opened-Linked :
    (start x y : ℕ) (reader writer : ℤ) → Linked (opened start x y reader writer).shared.service
unfolding opened find_key
opened-Linked start x y reader writer =
    Linked-SameQueue (init x y) (opened start x y reader writer).shared.service (ground arith)
      (λ t i e. cc, tt)

-- In every state that a service can reach, each entry of `queue_index_` names a node that is in
-- `queue_` and holds the entry's task, also where one task has been pushed more than once.
pub Reach-Linked :
    {start x y : ℕ} {reader writer : ℤ} {s : System}
    → Reach start x y reader writer s
    → Linked s.shared.service
Reach-Linked {start} {x} {y} {reader} {writer} Reach.begin = opened-Linked start x y reader writer
Reach-Linked (next r st) = Step-Linked st (Reach-Linked r)
