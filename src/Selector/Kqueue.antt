-- ===== src/Selector/Kqueue.antt =====
-- src/lib/selector_kqueue.cpp: the selector over `kqueue`, whose calls are a parameter.
pub mod Bounds
mod Tests
use dromozoa_unix.Prelude.{
  ℕ, zero, ◌*◌, Bool, true, false, Option, none, some, List, [], ◌∷◌, length, replicate, ◌==◌,
  if◌then◌else◌,
}
use dromozoa_unix.Prelude.Int.{ℤ, pos, minus_one}
use dromozoa_unix.Prelude.Bits.{bit_or}
use dromozoa_unix.Fd.{Reply, done, failed, Machine, Action, Result, call, has}
use dromozoa_unix.Selector.{selector_read, selector_write}
use dromozoa_unix.Selector.Buffer.{Polled, Report, report, grow, waited, event_at}

pub data Filter : Type 0 where
  evfilt_read : Filter
  evfilt_write : Filter
  evfilt_other : Filter

pub record Kevent : Type 0 where
  pub ident : ℤ
  pub filter : Filter
  pub flags : ℕ

-- `kevent` applies changes, or gives the events that it writes to the front of the buffer.
pub record KqueueCalls (W : Type 0) : Type 0 where
  pub ev_add : ℕ
  pub ev_enable : ℕ
  pub ev_disable : ℕ
  pub ev_delete : ℕ
  pub epipe : ℕ
  pub enoent : ℕ
  pub kevent_change : ℤ → List Kevent → W → Reply Unit × W
  pub kevent_wait : ℤ → ℕ → Option (ℤ × ℤ) → W → Reply (List Kevent) × W

abbrev pub SelectorKqueue : Type 0
SelectorKqueue = Polled Kevent

abbrev pub kqueue_initial_size : ℕ
kqueue_initial_size = 64

abbrev pub kqueue_max_size : ℕ
kqueue_max_size = 8192

abbrev pub zero_kevent : Kevent
zero_kevent = record { ident = pos 0; filter = evfilt_other; flags = 0 }

unfoldable pub new_kqueue : ℤ → SelectorKqueue
new_kqueue fd = record {
  fd = fd;
  result = minus_one;
  buffer = replicate kqueue_initial_size zero_kevent;
}

-- One error that counts as success.
abbrev pub forgive : {W : Type 0} → ℕ → Result W Unit → Result W Unit
forgive e (some u, s) = (some u, s)
forgive e (none, s) = (if s.errno == e then some tt else none, s)

abbrev pub decode_kevent : Kevent → Report
decode_kevent kev = report kev.ident (elim kev.filter [
  | evfilt_read ↦ selector_read
  | evfilt_write ↦ selector_write
  | evfilt_other ↦ 0
])

module _ {W : Type 0} (kq : KqueueCalls W) where
  -- The two changes of a descriptor, with flags that are always set.
  abbrev pub changes : ℕ → ℤ → ℕ → List Kevent
  changes base fd event =
      let flags =
        λ (bit : ℕ). bit_or base (if has event bit then kq.ev_enable else kq.ev_disable) in
      (record { ident = fd; filter = evfilt_read; flags = flags selector_read })
      ∷ (record { ident = fd; filter = evfilt_write; flags = flags selector_write })
      ∷ []

  unfoldable pub kqueue_add : SelectorKqueue → ℤ → ℕ → Action W Unit
  kqueue_add s fd event m =
      forgive kq.epipe (call (kq.kevent_change s.fd (changes kq.ev_add fd event)) m)

  unfoldable pub kqueue_mod : SelectorKqueue → ℤ → ℕ → Action W Unit
  kqueue_mod s fd event m = forgive kq.epipe (call (kq.kevent_change s.fd (changes 0 fd event)) m)

  unfoldable pub kqueue_del : SelectorKqueue → ℤ → Action W Unit
  kqueue_del s fd m = forgive kq.enoent (
      call
        (kq.kevent_change s.fd (
          (record { ident = fd; filter = evfilt_read; flags = kq.ev_delete })
          ∷ (record { ident = fd; filter = evfilt_write; flags = kq.ev_delete })
          ∷ []))
        m)

  unfoldable pub kqueue_select : Option (ℤ × ℤ) → SelectorKqueue → W → SelectorKqueue × W
  unfolding grow
  kqueue_select timeout s w =
      let grown = grow kqueue_max_size zero_kevent s in
      waited grown (kq.kevent_wait grown.fd (length grown.buffer) timeout w)

unfoldable pub kqueue_event : SelectorKqueue → ℤ → Option Report
unfolding event_at
kqueue_event = event_at decode_kevent
