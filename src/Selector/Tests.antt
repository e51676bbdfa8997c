-- ===== src/Selector/Tests.antt =====
-- src/lib/selector_epoll.cpp: runs on a list of events that are ready.
use dromozoa_unix.Prelude.{◌≡◌, refl, some, List, [], ◌∷◌, take}
use dromozoa_unix.Prelude.Int.{pos}
use dromozoa_unix.Fd.{done}
use dromozoa_unix.Selector.Buffer.{grow, report}
use dromozoa_unix.Selector.{EpollEvent, Epoll, select, event, new, add}

-- `EPOLLIN` is 1 and `EPOLLOUT` 4.
abbrev ready : Epoll (List EpollEvent)
ready = record {
  epollin = 1;
  epollout = 4;
  epoll_ctl = λ e o fd ev w. (done tt, ev ∷ w);
  epoll_wait = λ e size t w. (done (take size w), w);
}

abbrev two_events : List EpollEvent
two_events =
    (record { events = 5; data_fd = pos 7 }) ∷ (record { events = 4; data_fd = pos 8 }) ∷ []

select_runs :
    let s = (select ready (some (1, 500000000)) (new (pos 4)) two_events).0 in
    (s.result ≡ pos 2)
    × (event ready s (pos 0) ≡ some (report (pos 7) 3))
    × (event ready s (pos 1) ≡ some (report (pos 8) 2))
unfolding select event grow new
select_runs = (refl, refl, refl)

-- Interest in both directions.
add_runs :
    add ready (new (pos 4)) (pos 7) 3 [] ≡ (done tt, (record { events = 5; data_fd = pos 7 }) ∷ [])
unfolding add new
add_runs = refl
