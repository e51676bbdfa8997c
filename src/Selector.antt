-- ===== src/Selector.antt =====
-- src/lib/selector_epoll.cpp: the selector over `epoll`, whose calls are a parameter. A timeout is not
-- negative; its seconds and nanoseconds are numbers, and its milliseconds are stored in an `int`.
pub mod Buffer
pub mod Bounds
pub mod Kqueue
pub mod Open
mod Tests
use dromozoa_unix.Prelude.{
  ℕ, zero, suc, ◌+◌, ◌-◌, ◌*◌, ◌/◌, ◌%◌, ◌^◌, Bool, true, false, not, ◌&&◌, Option, none, some,
  List, [], ◌++◌, length, drop, replicate, get_elem?, ltb, ◌==◌, if◌then◌else◌,
}
use dromozoa_unix.Prelude.Int.{ℤ, pos, negsuc, minus_one, eq_ℤ, ltb_ℤ}
use dromozoa_unix.Prelude.Bits.{bit_or}
use dromozoa_unix.Selector.Buffer.{Polled, Report, report, grow, waited, event_at}
use dromozoa_unix.Fd.{Reply, done, failed, has}

pub record EpollEvent : Type 0 where
  pub events : ℕ
  pub data_fd : ℤ

pub data Operation : Type 0 where
  epoll_ctl_add : Operation
  epoll_ctl_mod : Operation
  epoll_ctl_del : Operation

-- `epoll_wait` gives the events that it writes to the front of the buffer.
pub record Epoll (W : Type 0) : Type 0 where
  pub epollin : ℕ
  pub epollout : ℕ
  pub epoll_ctl : ℤ → Operation → ℤ → EpollEvent → W → Reply Unit × W
  pub epoll_wait : ℤ → ℕ → ℤ → W → Reply (List EpollEvent) × W

abbrev pub SelectorEpoll : Type 0
SelectorEpoll = Polled EpollEvent

abbrev pub initial_buffer_size : ℕ
initial_buffer_size = 32

abbrev pub max_buffer_size : ℕ
max_buffer_size = 4096

abbrev pub selector_read : ℕ
selector_read = 1

abbrev pub selector_write : ℕ
selector_write = 2

abbrev pub zero_event : EpollEvent
zero_event = record { events = 0; data_fd = pos 0 }

-- The constructor, and the descriptor that `open` puts in.
unfoldable pub new : ℤ → SelectorEpoll
new fd = record { fd = fd; result = minus_one; buffer = replicate initial_buffer_size zero_event }

-- A value stored in an `int` of 32 bits.
abbrev pub to_int : ℕ → ℤ
to_int n = let low = n % 2 ^ 32 in if ltb low (2 ^ 31) then pos low else negsuc (2 ^ 32 - low - 1)

abbrev pub timeout_ms : Option (ℕ × ℕ) → ℤ
timeout_ms none = minus_one
timeout_ms (some t) = to_int (t.0 * 1000 + t.1 / 1000000)

module _ {W : Type 0} (epoll : Epoll W) where
  abbrev pub interest : ℕ → ℕ
  interest event =
      let in_bit = if has event selector_read then epoll.epollin else 0 in
      if has event selector_write then bit_or in_bit epoll.epollout else in_bit

  unfoldable pub add : SelectorEpoll → ℤ → ℕ → W → Reply Unit × W
  add s fd event =
      epoll.epoll_ctl s.fd epoll_ctl_add fd (record { events = interest event; data_fd = fd })

  unfoldable pub mod_events : SelectorEpoll → ℤ → ℕ → W → Reply Unit × W
  mod_events s fd event =
      epoll.epoll_ctl s.fd epoll_ctl_mod fd (record { events = interest event; data_fd = fd })

  unfoldable pub del : SelectorEpoll → ℤ → W → Reply Unit × W
  del s fd = epoll.epoll_ctl s.fd epoll_ctl_del fd zero_event

  unfoldable pub select : Option (ℕ × ℕ) → SelectorEpoll → W → SelectorEpoll × W
  unfolding grow
  select timeout s w =
      let grown = grow max_buffer_size zero_event s in
      waited grown (epoll.epoll_wait grown.fd (length grown.buffer) (timeout_ms timeout) w)

  abbrev pub decode : EpollEvent → Report
  decode ev =
      let read = if has ev.events epoll.epollin then selector_read else 0 in
      report ev.data_fd (if has ev.events epoll.epollout then bit_or read selector_write else read)

  unfoldable pub event : SelectorEpoll → ℤ → Option Report
  unfolding event_at
  event = event_at decode
