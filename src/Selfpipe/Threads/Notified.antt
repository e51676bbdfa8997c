-- ===== src/Selfpipe/Threads/Notified.antt =====
-- src/lib/selfpipe.cpp: a signal reaches every subscriber, by steps of the thread alone.
use dromozoa_unix.Prelude.{
  ℕ, zero, suc, ◌+◌, ◌-◌, ◌≤◌, ◌<◌, ◌≡◌, refl, arith, true, Option, some, List, [], ◌∷◌, length,
  ltb, Bool-cases, inl, inr, ◌>>=◌,
}
use dromozoa_unix.Prelude.Int.{ℤ, eq_ℤ}
use dromozoa_unix.Selfpipe.{member}
use dromozoa_unix.Selfpipe.Threads.{
  Publisher, reading, locking, writing, State, write_byte, at_key, publisher_step, Reach,
}
use dromozoa_unix.Selfpipe.Threads.Delivery.{coming, Reach-IsDelivered}

-- `n` steps of the thread, with nothing in between.
pub runs : ℕ → ℕ → State → Option State
runs capacity zero s = some s
runs capacity (suc n) s = publisher_step capacity s >>= runs capacity n

-- The subscribers that the thread is still writing to.
abbrev pub backlog : Publisher → ℕ
backlog reading = 0
backlog locking = 0
backlog (writing rest) = length rest

-- After no more than `n` steps a byte is in the subscriber's pipe.
abbrev pub Notifies : ℕ → ℕ → State → ℤ → Type 0
Notifies capacity n s x =
    (m : ℕ) × (t : State) × (m ≤ n) × (runs capacity m s ≡ some t) × (0 < t.bytes x)

module _ (capacity : ℕ) (room : 0 < capacity) (x : ℤ) where
  one_more :
      (n : ℕ) (s s' : State)
      → publisher_step capacity s ≡ some s'
      → Notifies capacity n s' x
      → Notifies capacity (suc n) s x
  unfolding runs
  one_more n s s' e (m, t, le, run, got) = (suc m, t, omega arith, rw e run, got)

  weaken : (n k : ℕ) (s : State) → n ≤ k → Notifies capacity n s x → Notifies capacity k s x
  weaken n k s h (m, t, le, run, got) = (m, t, omega arith, run, got)

  at_once : (n : ℕ) (s : State) → 0 < s.bytes x → Notifies capacity n s x
  unfolding runs
  at_once n s got = (0, s, omega arith, refl, got)

  abbrev written : State → ℤ → List ℤ → State
  written s y rest = record s {
    bytes = at_key y (write_byte capacity (s.bytes y)) s.bytes;
    publisher = writing rest;
  }

  step_writing :
      (y : ℤ) (rest : List ℤ) (s : State)
      → s.publisher ≡ writing (y ∷ rest)
      → publisher_step capacity s ≡ some (written s y rest)
  unfolding publisher_step
  step_writing y rest s e = rw e

  from_writing :
      (rest : List ℤ) (s : State)
      → s.publisher ≡ writing rest
      → member x rest ≡ true
      → Notifies capacity (length rest) s x
  from_writing [] s e m = absurd (cc)
  from_writing (y ∷ rest) s e m = elim (Bool-cases (eq_ℤ y x)) [
    | inl here ↦
        one_more (length rest) s (written s y rest) (step_writing y rest s e)
          (at_once (length rest) (written s y rest) (ground arith))
    | inr other ↦
        one_more (length rest) s (written s y rest) (step_writing y rest s e)
          (from_writing rest (written s y rest) refl (ground arith))
  ]

  step_locking :
      (s : State)
      → s.publisher ≡ locking
      → publisher_step capacity s ≡ some (record s { publisher = writing s.subscribers })
  unfolding publisher_step
  step_locking s e = rw e

  step_reading :
      (n : ℕ) (s : State)
      → s.publisher ≡ reading
      → s.pending ≡ suc n
      → publisher_step capacity s ≡ some (record s { pending = n; publisher = locking })
  unfolding publisher_step
  step_reading n s e p = rw e (rw p)

  step_done :
      (s : State)
      → s.publisher ≡ writing []
      → publisher_step capacity s ≡ some (record s { publisher = reading })
  unfolding publisher_step
  step_done s e = rw e

  from_locking :
      (s : State)
      → s.publisher ≡ locking
      → member x s.subscribers ≡ true
      → Notifies capacity (length s.subscribers + 1) s x
  from_locking s e m =
      let s' : State = record s { publisher = writing s.subscribers } in
      weaken (suc (length s.subscribers)) _ s (omega arith) (
        one_more (length s.subscribers) s s' (step_locking s e)
          (from_writing s.subscribers s' refl m))

  from_reading :
      (s : State)
      → s.publisher ≡ reading
      → 0 < s.pending
      → member x s.subscribers ≡ true
      → Notifies capacity (length s.subscribers + 2) s x
  from_reading s e got m =
      let n = s.pending - 1 in
      let s' : State = record s { pending = n; publisher = locking } in
      weaken (suc (length s.subscribers + 1)) _ s (omega arith) (
        one_more (length s.subscribers + 1) s s' (step_reading n s e (omega arith))
          (from_locking s' refl m))

  -- Bytes wait in the thread's pipe, and it is still writing for an earlier one.
  from_backlog :
      (rest : List ℤ) (s : State)
      → s.publisher ≡ writing rest
      → 0 < s.pending
      → member x s.subscribers ≡ true
      → Notifies capacity (length rest + (length s.subscribers + 3)) s x
  from_backlog [] s e got m =
      let s' : State = record s { publisher = reading } in
      weaken (suc (length s.subscribers + 2)) _ s (omega arith)
        (one_more (length s.subscribers + 2) s s' (step_done s e) (from_reading s' refl got m))
  from_backlog (y ∷ rest) s e got m =
      weaken (suc (length rest + (length s.subscribers + 3))) _ s (omega arith) (
        one_more (length rest + (length s.subscribers + 3)) s (written s y rest)
          (step_writing y rest s e) (from_backlog rest (written s y rest) refl got m))

  from_publisher :
      (p : Publisher) (s : State)
      → s.publisher ≡ p
      → member x s.subscribers ≡ true
      → coming s x ≡ true
      → Notifies capacity (backlog p + (length s.subscribers + 3)) s x
  unfolding coming
  from_publisher reading s e m c = elim (Bool-cases (ltb 0 (s.bytes x))) [
    | inl got ↦ at_once _ s (ground arith)
    | inr empty ↦
        weaken (length s.subscribers + 2) _ s (omega arith) (from_reading s e (ground arith) m)
  ]
  from_publisher locking s e m c =
      weaken (length s.subscribers + 1) _ s (omega arith) (from_locking s e m)
  from_publisher (writing rest) s e m c = elim (Bool-cases (ltb 0 (s.bytes x))) [
    | inl got ↦ at_once _ s (ground arith)
    | inr empty ↦ elim (Bool-cases (member x rest)) [
      | inl next ↦ weaken (length rest) _ s (omega arith) (from_writing rest s e next)
      | inr past ↦ from_backlog rest s e (ground arith) m
    ]
  ]

  -- In every state that signals, the thread and the subscribers can reach, where the pipes have room for
  -- a byte or more: if a signal has come that a subscriber has read no byte after, then a byte is in its
  -- pipe after no more steps of the thread alone than there are subscribers left to write to, and
  -- subscribers, and three.
  pub signal-Notifies :
      {y : ℤ} (s : State)
      → Reach capacity y s
      → member x s.subscribers ≡ true
      → s.due x ≡ true
      → Notifies capacity (backlog s.publisher + (length s.subscribers + 3)) s x
  signal-Notifies s r m d =
      from_publisher s.publisher s refl m (Reach-IsDelivered capacity room r x m d)
