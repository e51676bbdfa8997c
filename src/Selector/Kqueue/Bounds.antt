-- ===== src/Selector/Kqueue/Bounds.antt =====
-- src/lib/selector_kqueue.cpp: the size of the buffer, and what `event` reads from it.
use dromozoa_unix.Prelude.{ℕ, ◌≤◌, ◌≡◌, refl, ap, subst, ◌∙◌, arith, Option, some, List, length}
use dromozoa_unix.Prelude.Int.{ℤ}
use dromozoa_unix.Fd.{done}
use dromozoa_unix.Selector.Buffer.{grow, waited, event_at}
use dromozoa_unix.Selector.Bounds.{Fitting, Fits, step-Fitting, nth_event, event_done}
use dromozoa_unix.Selector.Kqueue.{
  Kevent, KqueueCalls, SelectorKqueue, kqueue_initial_size, kqueue_max_size, zero_kevent,
  new_kqueue, decode_kevent, kqueue_select, kqueue_event,
}

pub new_kqueue-Fitting : (fd : ℤ) → Fitting kqueue_initial_size (new_kqueue fd)
unfolding new_kqueue
new_kqueue-Fitting fd = ((0, omega arith, refl), refl)

module _ {W : Type 0} (kq : KqueueCalls W) where
  -- Where `kevent` gives no more events than it was asked for: a `select` that gave events leaves a
  -- buffer of 64 elements, doubled at most seven times, which has room for them; and `event` gives for
  -- `i` from 0 the `i`-th of them, decoded, and `EINVAL` for every other number.
  kqueue_select-event :
      (timeout : Option (ℤ × ℤ)) (s : SelectorKqueue) (w w' : W) (evs : List Kevent)
      → ((fd : ℤ) (size : ℕ) (t : Option (ℤ × ℤ)) (w : W) → Fits size (kq.kevent_wait fd size t w))
      → Fitting kqueue_initial_size s
      → let g = grow kqueue_max_size zero_kevent s in
        kq.kevent_wait g.fd (length g.buffer) timeout w ≡ (done evs, w')
        → Fitting kqueue_initial_size (kqueue_select kq timeout s w).0
          × ((i : ℤ)
              → kqueue_event (kqueue_select kq timeout s w).0 i
                ≡ some (nth_event decode_kevent evs i))
  unfolding kqueue_select kqueue_event
  kqueue_select-event timeout s w w' evs fits h e =
      let g = grow kqueue_max_size zero_kevent s in
      let room : length evs ≤ length g.buffer =
        subst (Fits (length g.buffer)) e (fits g.fd (length g.buffer) timeout w) in
      (
        step-Fitting kqueue_initial_size zero_kevent s
            (λ g. kq.kevent_wait g.fd (length g.buffer) timeout w) h
            (λ g. fits g.fd (length g.buffer) timeout w),
        λ i.
            ap (λ r. event_at decode_kevent (waited g r).0 i) e
            ∙ event_done decode_kevent g evs w' room i,
      )
