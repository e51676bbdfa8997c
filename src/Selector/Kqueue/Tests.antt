-- ===== src/Selector/Kqueue/Tests.antt =====
-- src/lib/selector_kqueue.cpp: runs on a list of events that are ready.
use dromozoa_unix.Prelude.{ℕ, ◌≡◌, refl, Option, some, none, List, [], ◌∷◌, take, length-take_le}
use dromozoa_unix.Prelude.Int.{ℤ, pos}
use dromozoa_unix.Fd.{done, failed, Machine}
use dromozoa_unix.Selector.Buffer.{grow, report, einval}
use dromozoa_unix.Selector.Bounds.{Fits}
use dromozoa_unix.Selector.Kqueue.{
  Kevent, evfilt_read, evfilt_write, evfilt_other, KqueueCalls, new_kqueue, kqueue_add, kqueue_mod,
  kqueue_del, kqueue_select, kqueue_event,
}

-- Changes are kept as they come, and an empty list of them is refused with `EPIPE`.
abbrev ready : KqueueCalls (List Kevent)
ready = record {
  ev_add = 1;
  ev_enable = 4;
  ev_disable = 8;
  ev_delete = 2;
  epipe = 32;
  enoent = 2;
  kevent_change = λ fd changes w. (failed 32, changes);
  kevent_wait = λ fd size t w. (done (take size w), w);
}

abbrev two_events : List Kevent
two_events =
    (record { ident = pos 7; filter = evfilt_write; flags = 0 })
    ∷ (record { ident = pos 8; filter = evfilt_other; flags = 0 })
    ∷ []

ready_Fits :
    (fd : ℤ) (size : ℕ) (t : Option (ℤ × ℤ)) (w : List Kevent)
    → Fits size (ready.kevent_wait fd size t w)
ready_Fits fd size t w = length-take_le size w

abbrev start : Machine (List Kevent)
start = record { os = two_events; errno = 0 }

select_runs :
    let s = (kqueue_select ready none (new_kqueue (pos 4)) two_events).0 in
    (s.result ≡ pos 2)
    × (kqueue_event s (pos 0) ≡ some (report (pos 7) 2))
    × (kqueue_event s (pos 1) ≡ some (report (pos 8) 0))
    × (kqueue_event s (pos 2) ≡ some einval)
unfolding kqueue_select kqueue_event grow new_kqueue
select_runs = (refl, refl, refl, refl)

-- `EPIPE` is no failure of `add`, but it is one of `del`.
add_runs :
    let r = kqueue_add ready (new_kqueue (pos 4)) (pos 7) 1 start in
    (r.0 ≡ some tt)
    × (r.1.os
        ≡ (record { ident = pos 7; filter = evfilt_read; flags = 5 })
          ∷ (record { ident = pos 7; filter = evfilt_write; flags = 9 })
          ∷ [])
unfolding kqueue_add new_kqueue
add_runs = (refl, refl)

mod_runs :
    let r = kqueue_mod ready (new_kqueue (pos 4)) (pos 7) 2 start in
    (r.0 ≡ some tt)
    × (r.1.os
        ≡ (record { ident = pos 7; filter = evfilt_read; flags = 8 })
          ∷ (record { ident = pos 7; filter = evfilt_write; flags = 4 })
          ∷ [])
unfolding kqueue_mod new_kqueue
mod_runs = (refl, refl)

del_runs : (kqueue_del ready (new_kqueue (pos 4)) (pos 7) start).0 ≡ none
unfolding kqueue_del new_kqueue
del_runs = refl
