-- ===== src/Selfpipe/Threads.antt =====
-- src/lib/selfpipe.cpp: signals that come at any time, and the thread that passes them on, as
-- interleaved steps. The thread's pipe and the subscribers' pipes do not block a writer: a byte that
-- finds no room is dropped, and nobody looks at what `write` returns. The thread reads while it has
-- at least one subscriber, so its pipe does not end; a read that a signal interrupts is begun again.
pub mod Delivery
pub mod Notified
mod Tests
use dromozoa_unix.Prelude.{
  ℕ, zero, suc, ◌+◌, ◌-◌, ◌≡◌, Bool, true, false, ◌||◌, Option, none, some, List, [], ◌∷◌, ltb,
  if◌then◌else◌,
}
use dromozoa_unix.Prelude.Int.{ℤ, eq_ℤ}
use dromozoa_unix.Selfpipe.{member, erase, is_empty}

-- Where the loop of `selfpipe_publisher` stands: before `read`, before the lock, or with the lock and
-- with the subscribers that it still has to write to.
pub data Publisher : Type 0 where
  reading : Publisher
  locking : Publisher
  writing : List ℤ → Publisher

pub record State : Type 0 where
  pub pending : ℕ  -- bytes in the thread's pipe
  pub bytes : ℤ → ℕ  -- bytes in the pipe of a subscriber
  pub subscribers : List ℤ
  pub publisher : Publisher
  pub due : ℤ → Bool  -- a signal has come that the subscriber has read no byte after; no code reads this

-- `write` of one byte to a pipe with room for `capacity` bytes.
abbrev pub write_byte : ℕ → ℕ → ℕ
write_byte capacity n = if ltb n capacity then n + 1 else n

abbrev pub at_key {ℓ} : {A : Type ℓ} → ℤ → A → (ℤ → A) → ℤ → A
at_key x a f y = if eq_ℤ x y then a else f y

-- `dromozoa_selfpipe_trigger`.
unfoldable pub trigger : ℕ → State → State
trigger capacity s = record s {
  pending = write_byte capacity s.pending;
  due = λ x. member x s.subscribers || s.due x;
}

-- One step of `selfpipe_publisher`, where it does not wait.
unfoldable pub publisher_step : ℕ → State → Option State
publisher_step capacity s = elim s.publisher [
  | reading ↦ elim s.pending [
    | zero ↦ none
    | suc n ↦ some (record s { pending = n; publisher = locking })
  ]
  | locking ↦ some (record s { publisher = writing s.subscribers })
  | writing rest ↦ elim rest [
    | [] ↦ some (record s { publisher = reading })
    | x ∷ others ↦ some (record s {
      bytes = at_key x (write_byte capacity (s.bytes x)) s.bytes;
      publisher = writing others;
    })
  ]
]

-- `read` of a byte by a subscriber, of the loop of `selfpipe_impl::read`.
unfoldable pub read_byte : ℤ → State → State
read_byte x s = record s { bytes = at_key x (s.bytes x - 1) s.bytes; due = at_key x false s.due }

abbrev pub holds_lock : Publisher → Bool
holds_lock (writing rest) = true
holds_lock reading = false
holds_lock locking = false

-- `selfpipe_open` beside a running thread, with an empty pipe, and `selfpipe_close` of one of several
-- subscribers: both want the lock.
unfoldable pub subscribe : ℤ → State → State
subscribe x s = record s {
  subscribers = x ∷ s.subscribers;
  bytes = at_key x 0 s.bytes;
  due = at_key x false s.due;
}

unfoldable pub unsubscribe : ℤ → State → State
unsubscribe x s = record s { subscribers = erase x s.subscribers }

pub data Step (capacity : ℕ) (s : State) : State → Type 0 where
  signal : Step capacity s (trigger capacity s)
  publisher : {t : State} → publisher_step capacity s ≡ some t → Step capacity s t
  reads : (x : ℤ) → ltb 0 (s.bytes x) ≡ true → Step capacity s (read_byte x s)
  opens :
      (x : ℤ)
      → holds_lock s.publisher ≡ false
      → member x s.subscribers ≡ false
      → Step capacity s (subscribe x s)
  closes :
      (x : ℤ)
      → holds_lock s.publisher ≡ false
      → is_empty (erase x s.subscribers) ≡ false
      → Step capacity s (unsubscribe x s)

-- The thread has been created for its first subscriber. Since the action for the signal was set, signals
-- may have come, and the thread may have read one of their bytes and wait for the lock.
abbrev pub started : ℕ → Publisher → ℤ → State
started pending p x = record {
  pending = pending;
  bytes = λ y. 0;
  subscribers = x ∷ [];
  publisher = p;
  due = λ y. false;
}

pub data Reach (capacity : ℕ) (x : ℤ) : State → Type 0 where
  begin :
      (pending : ℕ) (p : Publisher) → holds_lock p ≡ false → Reach capacity x (started pending p x)
  next : {s t : State} → Reach capacity x s → Step capacity s t → Reach capacity x t
