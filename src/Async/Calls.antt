-- ===== src/Async/Calls.antt =====
-- src/lib/async_service.cpp: what the calls promise to their callers.
use dromozoa_unix.Prelude.{
  ℕ, ◌+◌, ◌≤◌, ◌<◌, ◌∙◌, sym, ◌≡◌, ◌≢◌, refl, ap, Bool, true, false, Option, none, some, List, [],
  ◌∷◌, ◌++◌, arith, length, length-append, Bool-cases, ◌⊎◌, inl, inr, ◌==◌,
}
use dromozoa_unix.Prelude.Int.{ℤ, minus_one, eq_ℤ, eq_ℤ_iff}
use dromozoa_unix.Async.Service.{
  Service, Node, find_key, erase_key, erase_node, push_queue, cancel_queue, close_queue, take_front,
  begin_task, finish_task, push_counter, publish, cancel_counter, pop, close_ready, close_counter,
  created, mask_failed, thread_failed,
}
use dromozoa_unix.Async.System.{
  Agent, bytes_stored, bytes_refused, close_entry, close_swap, Shared, Move, take, begin,
  publish_ready, read_byte, finish, enter_push, find_cancel, pop_none, pop_some, swap_ready,
  swap_queue, end_close, System, Step, move, call, call_push, opened, Reach, next, Later, Follow,
}
use dromozoa_unix.Async.Index.{task_at, Linked, Reach-Linked}
use dromozoa_unix.Async.Shutdown.{Later-Reach, Later-IsClosed}
use dromozoa_unix.Async.Stages.{Crashing, swap_queue-IsClosed, Stage-moves, Follow-Stage}

erase_node-splits :
    (i t : ℕ) (ns : List Node)
    → task_at i ns ≡ some (some t)
    → (pre : List Node) × (post : List Node) × (ns
        ≡ pre ++ (record { id = i; task = some t } ∷ post))
      × (erase_node i ns ≡ pre ++ post)
unfolding erase_node
erase_node-splits i t [] e = cc
erase_node-splits i t (n ∷ ns) e = elim (Bool-cases (n.id == i)) [
  | inl here ↦ ([], ns, ground arith, ground arith)
  | inr later ↦
      let (pre, post, f, g) = erase_node-splits i t ns (ground arith) in
      (n ∷ pre, post, ap (◌∷◌ n) f, ground arith)
]

cancel_found :
    (t : ℕ) (s : Service) (o : Option ℕ) {s' : Service}
    → find_key t s.queue_index ≡ o
    → Linked s
    → cancel_queue t s ≡ (true, s')
    → (i : ℕ) × (pre : List Node) × (post : List Node) × (s.queue
        ≡ pre ++ (record { id = i; task = some t } ∷ post))
      × (s' ≡ record s { queue = pre ++ post; queue_index = erase_key t s.queue_index })
unfolding cancel_queue
cancel_found t s none f l e = absurd (ground arith)
cancel_found t s (some i) f l e =
    let (pre, post, p, q) = erase_node-splits i t s.queue (l.0 t i f) in
    (i, pre, post, p, ground arith)

-- In every state that a service can reach, a `cancel` that finds its task takes one node with that
-- task out of the queue and its entry out of the index, keeps the other tasks in their order, and
-- changes nothing else; one that does not find it changes nothing.
pub cancel_queue_exact :
    {start x y : ℕ} {reader writer : ℤ} {s : System}
    → Reach start x y reader writer s
    → (t : ℕ) (b : Bool) (s' : Service) → cancel_queue t s.shared.service ≡ (b, s')
    → ((b ≡ true)
        × ((i : ℕ) × (pre : List Node) × (post : List Node) × (s.shared.service.queue
              ≡ pre ++ (record { id = i; task = some t } ∷ post))
            × (s' ≡ record s.shared.service {
              queue = pre ++ post;
              queue_index = erase_key t s.shared.service.queue_index;
            })))
      ⊎ ((b ≡ false) × (s' ≡ s.shared.service))
unfolding cancel_queue
cancel_queue_exact {s = s} r t true s' e =
    inl (refl, cancel_found t s.shared.service _ refl (Reach-Linked r) e)
cancel_queue_exact r t false s' e = inr (refl, ground arith)

-- While the pipe is open, a `write` was called for each task that has come to `ready_`, and a byte is in
-- the pipe unless no task has come since one was read.
abbrev pub Woken : Shared → Type 0
Woken m =
    (m.writes + m.unwritten ≡ length m.service.ready + length m.popped)
    × ((m.fresh ≡ 0) ⊎ (0 < m.bytes))
    × (m.bytes ≤ m.writes)

abbrev pub Wakes : Shared → Type 0
Wakes m = (m.service.ready_writer ≡ minus_one) ⊎ ((m.service.ready_writer ≢ minus_one) × Woken m)

record SameReady (s s' : Service) : Type 0 where
  ready : s'.ready ≡ s.ready
  writer : s'.ready_writer ≡ s.ready_writer

Wakes-SameReady :
    (m : Shared) (s : Service) → SameReady m.service s → Wakes m → Wakes (record m { service = s })
Wakes-SameReady m s e (inl shut) = inl (e.writer ∙ shut)
Wakes-SameReady m s e (inr (up, h)) = inr (
  λ shut. up (sym e.writer ∙ shut),
  (h.0 ∙ ap (λ l. length l + length m.popped) (sym e.ready), h.1, h.2),
)

publish-Wakes :
    (m : Shared) (t : ℕ) (stored : Bool)
    → (stored ≡ true) ⊎ (0 < m.bytes)
    → Wakes m
    → Wakes (record m {
      service = (publish t m.service).1;
      bytes = m.bytes + bytes_stored (publish t m.service).0 stored;
      writes = m.writes + bytes_stored (publish t m.service).0 stored;
      unwritten = m.unwritten + bytes_refused (publish t m.service).0 stored;
      fresh = m.fresh + 1;
    })
unfolding publish
publish-Wakes m t stored full (inl shut) = inl shut
publish-Wakes m t stored full (inr (up, h)) =
    elim (Bool-cases (eq_ℤ m.service.ready_writer minus_one)) [
      | inl shut ↦ absurd (up ((eq_ℤ_iff _ _).0 shut))
      | inr valid ↦ inr (up, rw valid (called stored full))
    ]
  where
    called :
        (stored : Bool)
        → (stored ≡ true) ⊎ (0 < m.bytes)
        → Woken (record m {
          service = (publish t m.service).1;
          bytes = m.bytes + bytes_stored true stored;
          writes = m.writes + bytes_stored true stored;
          unwritten = m.unwritten + bytes_refused true stored;
          fresh = m.fresh + 1;
        })
    called true full =
        (omega (arith, length-append m.service.ready (t ∷ [])), inr (omega arith), omega arith)
    called false (inl e) = absurd (ground arith)
    called false (inr some_bytes) =
        (omega (arith, length-append m.service.ready (t ∷ [])), inr (omega arith), omega arith)

Move-Wakes : {m m' : Shared} {a : Agent} {bs : List Agent} → Move m a m' bs → Wakes m → Wakes m'
unfolding begin_task finish_task push_counter cancel_counter close_ready close_counter push_queue
    close_queue take_front cancel_queue pop
Move-Wakes {m} (take {s} e) h = Wakes-SameReady m s (ground arith) h
Move-Wakes (begin {o = none}) h = h
Move-Wakes (begin {o = some t}) h = h
Move-Wakes {m} (publish_ready {t} stored full) h = publish-Wakes m t stored full h
Move-Wakes {m} (read_byte some_bytes) (inl shut) = inl shut
Move-Wakes {m} (read_byte some_bytes) (inr (up, h)) = inr (up, (h.0, inl refl, omega arith))
Move-Wakes {m} finish h = Wakes-SameReady m (finish_task m.service).1 (ground arith) h
Move-Wakes {m} (enter_push {s} created e) h = Wakes-SameReady m s (ground arith) h
Move-Wakes {m} (enter_push {s} mask_failed e) h = Wakes-SameReady m s (ground arith) h
Move-Wakes {m} (enter_push {s} thread_failed e) h = Wakes-SameReady m s (ground arith) h
Move-Wakes {m} (find_cancel {s} e) h = Wakes-SameReady m s (ground arith) h
Move-Wakes {m} (pop_none {s} e) h = Wakes-SameReady m s (ground arith) h
Move-Wakes {m} (pop_some {t} {s} e) (inl shut) = inl (ground arith)
Move-Wakes {m} (pop_some {t} {s} e) (inr (up, h)) = inr (ground arith, (ground arith, h.1, h.2))
Move-Wakes {m} (swap_ready e) h = inl (ground arith)
Move-Wakes {m} (swap_queue {s} e) h = Wakes-SameReady m s (ground arith) h
Move-Wakes (end_close r w e) h = h
Move-Wakes mv h = h

Step-Wakes : {s t : System} → Step s t → Wakes s.shared → Wakes t.shared
Step-Wakes (move pre post e mv) h = Move-Wakes mv h
Step-Wakes (call c) h = h
Step-Wakes (call_push t) h = h

opened-Wakes :
    (start x y : ℕ) (reader writer : ℤ)
    → writer ≢ minus_one
    → Wakes (opened start x y reader writer).shared
unfolding opened
opened-Wakes start x y reader writer up = inr (up, (ground arith, inl refl, omega arith))

-- In every state that a service can reach whose pipe was opened with a valid writer, either the
-- writer has been swapped out by `close`; or `write` was called as often as tasks have come to `ready_`,
-- those that have been popped included, and where a task has come since a byte was last read, there is a
-- byte in the pipe, though a `write` to a full pipe stores none.
pub Reach-Wakes :
    {start x y : ℕ} {reader writer : ℤ} {s : System}
    → writer ≢ minus_one
    → Reach start x y reader writer s
    → Wakes s.shared
Reach-Wakes {start} {x} {y} {reader} {writer} up Reach.begin =
    opened-Wakes start x y reader writer up
Reach-Wakes up (next r st) = Step-Wakes st (Reach-Wakes up r)

-- After a first `close` has swapped out the queue of a service, a second one that is begun, now or later,
-- can only crash, whatever the other calls and the workers do in between: it can run on until it has
-- run three sections, and the third is the call of `cancel` on the null task.
pub second_close_crashes :
    {start x y : ℕ} {reader writer r w : ℤ} {s u v : System} {m : Shared} {b : Agent} {n : ℕ}
    {bs : List Agent} (pre post : List Agent)
    → Reach start x y reader writer s
    → s.agents ≡ pre ++ (close_swap r w ∷ post)
    → Move s.shared (close_swap r w) m bs
    → Later (record { shared = m; agents = pre ++ (bs ++ post) }) u
    → Follow u close_entry n v b
    → Crashing n v b
second_close_crashes {v = v} {b = b} {n = n} pre post r e mv run f =
    let first = Reach.next r (move pre post e mv) in
    let stage =
      Follow-Stage (Later-Reach first run) (Later-IsClosed first (swap_queue-IsClosed mv) run) f in
    (stage, Stage-moves n v b stage)
