-- ===== src/Selfpipe/Threads/Delivery.antt =====
-- src/lib/selfpipe.cpp: no signal is lost on its way to a subscriber.
use dromozoa_unix.Prelude.{ℕ, ◌<◌, ◌≡◌, arith, Bool, true, false, ◌||◌, some, List, [], ◌∷◌, ltb}
use dromozoa_unix.Prelude.Int.{ℤ}
use dromozoa_unix.Selfpipe.{member, erase}
use dromozoa_unix.Selfpipe.Threads.{
  Publisher, reading, locking, writing, State, trigger, publisher_step, read_byte, subscribe,
  unsubscribe, Step, signal, publisher, reads, opens, closes, Reach, begin, next,
}

-- The publisher has a byte in hand for the subscriber.
abbrev pub in_hand : Publisher → ℤ → Bool
in_hand reading x = false
in_hand locking x = true
in_hand (writing rest) x = member x rest

-- A byte is in the subscriber's pipe, or on its way there.
unfoldable pub coming : State → ℤ → Bool
coming s x = ltb 0 (s.bytes x) || (ltb 0 s.pending || in_hand s.publisher x)

member-erase : (x y : ℤ) (l : List ℤ) → member x (erase y l) ≡ true → member x l ≡ true
member-erase x y [] h = h
member-erase x y (z ∷ l) h = ground (arith, member-erase x y l)

abbrev pub IsDelivered : State → Type 0
IsDelivered s = (x : ℤ) → member x s.subscribers ≡ true → s.due x ≡ true → coming s x ≡ true

module _ (capacity : ℕ) (room : 0 < capacity) where
  trigger-IsDelivered : (s : State) → IsDelivered s → IsDelivered (trigger capacity s)
  unfolding trigger coming
  trigger-IsDelivered s h x m d = ground (arith, h x)

  publisher_step-IsDelivered :
      (s t : State) → publisher_step capacity s ≡ some t → IsDelivered s → IsDelivered t
  unfolding publisher_step coming
  publisher_step-IsDelivered s t e h x m d = ground (arith, h x)

  read_byte-IsDelivered : (s : State) (y : ℤ) → IsDelivered s → IsDelivered (read_byte y s)
  unfolding read_byte coming
  read_byte-IsDelivered s y h x m d = ground (arith, h x)

  subscribe-IsDelivered : (s : State) (y : ℤ) → IsDelivered s → IsDelivered (subscribe y s)
  unfolding subscribe coming
  subscribe-IsDelivered s y h x m d = ground (arith, h x)

  unsubscribe-IsDelivered : (s : State) (y : ℤ) → IsDelivered s → IsDelivered (unsubscribe y s)
  unfolding unsubscribe coming
  unsubscribe-IsDelivered s y h x m d = ground (arith, h x, member-erase x y s.subscribers)

  Step-IsDelivered : {s t : State} → Step capacity s t → IsDelivered s → IsDelivered t
  Step-IsDelivered {s} signal h = trigger-IsDelivered s h
  Step-IsDelivered {s} {t} (publisher e) h = publisher_step-IsDelivered s t e h
  Step-IsDelivered {s} (reads x e) h = read_byte-IsDelivered s x h
  Step-IsDelivered {s} (opens x e f) h = subscribe-IsDelivered s x h
  Step-IsDelivered {s} (closes x e f) h = unsubscribe-IsDelivered s x h

  -- Signals, the thread, subscribers that read, come and go, in any order: whenever a signal has come
  -- that a subscriber has read no byte after, a byte is in its pipe, or on its way there.
  pub Reach-IsDelivered : {y : ℤ} {s : State} → Reach capacity y s → IsDelivered s
  Reach-IsDelivered (begin n p free) = λ x m d. cc
  Reach-IsDelivered (next r st) = Step-IsDelivered st (Reach-IsDelivered r)
