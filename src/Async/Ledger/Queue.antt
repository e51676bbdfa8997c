-- ===== src/Async/Ledger/Queue.antt =====
-- src/lib/async_service.cpp: what each operation on `queue_` does to the number of its tasks.
use dromozoa_unix.Prelude.{
  ℕ, ◌+◌, ◌≡◌, refl, Bool, Option, none, some, List, [], ◌∷◌, ◌++◌, arith, total, total-append,
  ◌==◌, if◌then◌else◌,
}
use dromozoa_unix.Async.Service.{
  Service, Node, find_key, erase_node, push_queue, cancel_queue, close_queue, take_front,
}
use dromozoa_unix.Async.Index.{task_at, Linked}

abbrev pub hit : ℕ → ℕ → ℕ
hit u t = if u == t then 1 else 0

abbrev pub count : ℕ → List ℕ → ℕ
count u = total (hit u)

abbrev pub node_hit : ℕ → Option ℕ → ℕ
node_hit u none = 0
node_hit u (some t) = hit u t

abbrev pub is_task : Option ℕ → ℕ
is_task none = 0
is_task (some t) = 1

-- How often the queue has a task, and how many tasks it has.
abbrev pub occ : ℕ → List Node → ℕ
occ u = total (λ n. node_hit u n.task)

abbrev pub queued : List Node → ℕ
queued = total (λ n. is_task n.task)

pub count-append : (u : ℕ) (xs ys : List ℕ) → count u (xs ++ ys) ≡ count u xs + count u ys
count-append u xs ys = total-append (hit u) xs ys

-- Any weight of a node falls with the node that is erased.
total-erase :
    (w : Option ℕ → ℕ) (i t : ℕ) (ns : List Node)
    → task_at i ns ≡ some (some t)
    → total (λ n. w n.task) (erase_node i ns) + w (some t) ≡ total (λ n. w n.task) ns
unfolding erase_node
total-erase w i t [] e = cc
total-erase w i t (n ∷ ns) e = ground (arith, total-erase w i t ns)

module _ (w : Option ℕ → ℕ) where
  abbrev weight : List Node → ℕ
  weight = total (λ n. w n.task)

  take_front-weight :
      w none ≡ 0
      → (s : Service) {o : Option ℕ} {s' : Service} → take_front s ≡ some (o, s')
      → (weight s'.queue + w o ≡ weight s.queue)
        × (s'.ready ≡ s.ready)
        × (s'.current_tasks ≡ s.current_tasks)
  unfolding take_front
  take_front-weight z s e = ground arith

  push_queue-weight :
      (t : ℕ) (s : Service)
      → (weight (push_queue t s).queue ≡ weight s.queue + w (some t))
        × ((push_queue t s).ready ≡ s.ready)
        × ((push_queue t s).current_tasks ≡ s.current_tasks)
  unfolding push_queue
  push_queue-weight t s =
      (omega (arith, total-append (λ (n : Node). w n.task) s.queue (node ∷ [])), refl, refl)
    where
      node : Node
      node = record { id = s.next_node; task = some t }

  cancel_found-weight :
      (t : ℕ) (s : Service) (r : Option ℕ) {b : Bool} {s' : Service}
      → find_key t s.queue_index ≡ r
      → Linked s
      → cancel_queue t s ≡ (b, s')
      → (weight s'.queue + (if b then w (some t) else 0) ≡ weight s.queue)
        × (s'.ready ≡ s.ready)
        × (s'.current_tasks ≡ s.current_tasks)
  unfolding cancel_queue
  cancel_found-weight t s none f l e = ground arith
  cancel_found-weight t s (some i) f l e = ground (arith, total-erase w i t s.queue (l.0 t i f))

  cancel_queue-weight :
      (t : ℕ) (s : Service) {b : Bool} {s' : Service}
      → Linked s
      → cancel_queue t s ≡ (b, s')
      → (weight s'.queue + (if b then w (some t) else 0) ≡ weight s.queue)
        × (s'.ready ≡ s.ready)
        × (s'.current_tasks ≡ s.current_tasks)
  cancel_queue-weight t s l e = cancel_found-weight t s (find_key t s.queue_index) refl l e

  close_queue-weight :
      w none ≡ 0
      → (s : Service) {ns : List Node} {s' : Service} → close_queue s ≡ (ns, s')
      → (weight s'.queue ≡ 0)
        × (weight ns ≡ weight s.queue)
        × (s'.ready ≡ s.ready)
        × (s'.current_tasks ≡ s.current_tasks)
  unfolding close_queue
  close_queue-weight z s e = ground arith

-- The number of a task in the queue.
pub take_front-occ :
    (u : ℕ) (s : Service) {o : Option ℕ} {s' : Service}
    → take_front s ≡ some (o, s')
    → (occ u s'.queue + node_hit u o ≡ occ u s.queue)
      × (s'.ready ≡ s.ready)
      × (s'.current_tasks ≡ s.current_tasks)
take_front-occ u = take_front-weight (node_hit u) refl

pub push_queue-occ :
    (u t : ℕ) (s : Service)
    → (occ u (push_queue t s).queue ≡ occ u s.queue + hit u t)
      × ((push_queue t s).ready ≡ s.ready)
      × ((push_queue t s).current_tasks ≡ s.current_tasks)
push_queue-occ u = push_queue-weight (node_hit u)

pub cancel_queue-occ :
    (u t : ℕ) (s : Service) {b : Bool} {s' : Service}
    → Linked s
    → cancel_queue t s ≡ (b, s')
    → (occ u s'.queue + (if b then hit u t else 0) ≡ occ u s.queue)
      × (s'.ready ≡ s.ready)
      × (s'.current_tasks ≡ s.current_tasks)
cancel_queue-occ u = cancel_queue-weight (node_hit u)

pub close_queue-occ :
    (u : ℕ) (s : Service) {ns : List Node} {s' : Service}
    → close_queue s ≡ (ns, s')
    → (occ u s'.queue ≡ 0)
      × (occ u ns ≡ occ u s.queue)
      × (s'.ready ≡ s.ready)
      × (s'.current_tasks ≡ s.current_tasks)
close_queue-occ u = close_queue-weight (node_hit u) refl

-- The number of tasks in the queue.
pub take_front-queued :
    (s : Service) {o : Option ℕ} {s' : Service}
    → take_front s ≡ some (o, s')
    → (queued s'.queue + is_task o ≡ queued s.queue)
      × (s'.ready ≡ s.ready)
      × (s'.current_tasks ≡ s.current_tasks)
take_front-queued = take_front-weight is_task refl

pub push_queue-queued :
    (t : ℕ) (s : Service)
    → (queued (push_queue t s).queue ≡ queued s.queue + 1)
      × ((push_queue t s).ready ≡ s.ready)
      × ((push_queue t s).current_tasks ≡ s.current_tasks)
push_queue-queued = push_queue-weight is_task

pub cancel_queue-queued :
    (t : ℕ) (s : Service) {b : Bool} {s' : Service}
    → Linked s
    → cancel_queue t s ≡ (b, s')
    → (queued s'.queue + (if b then 1 else 0) ≡ queued s.queue)
      × (s'.ready ≡ s.ready)
      × (s'.current_tasks ≡ s.current_tasks)
cancel_queue-queued = cancel_queue-weight is_task

pub close_queue-queued :
    (s : Service) {ns : List Node} {s' : Service}
    → close_queue s ≡ (ns, s')
    → (queued s'.queue ≡ 0)
      × (queued ns ≡ queued s.queue)
      × (s'.ready ≡ s.ready)
      × (s'.current_tasks ≡ s.current_tasks)
close_queue-queued = close_queue-weight is_task refl
