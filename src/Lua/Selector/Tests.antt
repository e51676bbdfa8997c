-- ===== src/Lua/Selector/Tests.antt =====
-- src/lua/selector.cpp: a run with two events that are ready.
use dromozoa_unix.Prelude.{ℕ, ◌≡◌, refl, none, some, List, [], ◌∷◌, take, length-take_le}
use dromozoa_unix.Prelude.Int.{ℤ, pos}
use dromozoa_unix.Fd.{done}
use dromozoa_unix.Selector.Bounds.{Fits}
use dromozoa_unix.Selector.Buffer.{grow}
use dromozoa_unix.Selector.{EpollEvent, Epoll, SelectorEpoll, new}
use dromozoa_unix.Lua.{integer, returned, Session, at}
use dromozoa_unix.Lua.Selector.{impl_select, impl_event}
use dromozoa_unix.Lua.Selector.Events.{numbered, impl_select-numbered}

abbrev message : ℤ → List ℕ
message e = 69 ∷ []

-- `EPOLLIN` is 1 and `EPOLLOUT` 4.
abbrev ready : Epoll (List EpollEvent)
ready = record {
  epollin = 1;
  epollout = 4;
  epoll_ctl = λ e o fd ev w. (done tt, ev ∷ w);
  epoll_wait = λ e size t w. (done (take size w), w);
}

abbrev two_events : List EpollEvent
two_events =
    (record { events = 5; data_fd = pos 7 }) ∷ (record { events = 4; data_fd = pos 8 }) ∷ []

abbrev session : Session (List EpollEvent)
session = record { machine = record { os = two_events; errno = 0 }; last_errno = none }

ready-Fits :
    (fd : ℤ) (size : ℕ) (t : ℤ) (w : List EpollEvent) → Fits size (ready.epoll_wait fd size t w)
ready-Fits fd size t w = length-take_le size w

impl_select-numbered_example :
    (self : SelectorEpoll) × (impl_select message ready 22 (some none) (new (pos 4)) session
      ≡ (returned (integer (pos 2) ∷ []), self, at two_events session))
    × (impl_event message ready 22 self (some (pos 2)) session
        ≡ numbered message ready 22 two_events (pos 2) session)
unfolding new grow
impl_select-numbered_example =
    impl_select-numbered message ready 22 none (new (pos 4)) session two_events two_events (pos 2)
      session ready-Fits refl

second_event :
    numbered message ready 22 two_events (pos 2) session
    ≡ (returned (integer (pos 8) ∷ integer (pos 2) ∷ []), session)
unfolding numbered
second_event = refl
