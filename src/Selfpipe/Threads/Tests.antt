-- ===== src/Selfpipe/Threads/Tests.antt =====
-- src/lib/selfpipe.cpp: a signal that comes while the thread serves one subscriber.
use dromozoa_unix.Prelude.{ℕ, ◌≤◌, ◌<◌, ◌≡◌, refl, some, arith}
use dromozoa_unix.Prelude.Int.{pos}
use dromozoa_unix.Selfpipe.Threads.{State, reading, started, trigger, signal, Reach, begin, next}
use dromozoa_unix.Selfpipe.Threads.Notified.{runs, signal-Notifies}

-- A signal has come for the subscriber 4.
signaled : State
signaled = trigger 8 (started 0 reading (pos 4))

signaled-Reach : Reach 8 (pos 4) signaled
unfolding signaled
signaled-Reach = next (begin 0 reading refl) signal

signal-Notifies_example :
    (m : ℕ) × (t : State) × (m ≤ 4) × (runs 8 m signaled ≡ some t) × (0 < t.bytes (pos 4))
unfolding signaled trigger
signal-Notifies_example = signal-Notifies 8 (omega arith) (pos 4) signaled signaled-Reach refl refl
