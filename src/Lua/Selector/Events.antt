-- ===== src/Lua/Selector/Events.antt =====
-- src/lua/selector.cpp: the events that Lua reads after a call of `select`.
use dromozoa_unix.Prelude.{
  ℕ, zero, suc, ◌+◌, ◌≤◌, Bool-cases, inl, inr, subst, if◌then◌else◌, ◌≡◌, refl, ap, sym, ◌∙◌,
  Option, none, some, List, [], ◌∷◌, length, get_elem?,
}
use dromozoa_unix.Prelude.Int.{ℤ, pos, negsuc}
use dromozoa_unix.Fd.{Reply, done, has}
use dromozoa_unix.Selector.Buffer.{grow, waited}
use dromozoa_unix.Selector.{
  Epoll, EpollEvent, SelectorEpoll, max_buffer_size, zero_event, timeout_ms, decode, select, event,
}
use dromozoa_unix.Selector.Bounds.{Fits, nth_report, select-event}
use dromozoa_unix.Lua.{nil, text, integer, Answer, returned, Session, at}
use dromozoa_unix.Lua.Selector.{before, after_wait, shown, impl_select, impl_event}

module _ {W : Type 0} (strerror : ℤ → List ℕ) (epoll : Epoll W) (einval_code : ℕ) where
  -- 1 where the descriptor can be read, 2 where it can be written, and their sum for both.
  abbrev pub readiness : EpollEvent → ℕ
  readiness ev =
      (if has ev.events epoll.epollin then 1 else 0)
      + (if has ev.events epoll.epollout then 2 else 0)

  -- The `i`-th event, counted from 1: its descriptor and what it is ready for, or the error `EINVAL`.
  abbrev pub numbered_at : Option EpollEvent → Session W → Answer × Session W
  numbered_at none t = (
    returned (nil ∷ text (strerror (pos einval_code)) ∷ integer (pos einval_code) ∷ []),
    record t {
      machine = record t.machine { errno = einval_code };
      last_errno = some (pos einval_code);
    },
  )
  numbered_at (some ev) t = (returned (integer ev.data_fd ∷ integer (pos (readiness ev)) ∷ []), t)

  unfoldable pub numbered : List EpollEvent → ℤ → Session W → Answer × Session W
  numbered evs (negsuc n) t = numbered_at none t
  numbered evs (pos zero) t = numbered_at none t
  numbered evs (pos (suc n)) t = numbered_at (get_elem? evs n) t

  shown-readiness :
      (ev : EpollEvent) (t : Session W)
      → shown strerror epoll einval_code t (some (decode epoll ev)) ≡ numbered_at (some ev) t
  shown-readiness ev t = elim (Bool-cases (has ev.events epoll.epollin)) [
    | inl in_bit ↦ elim (Bool-cases (has ev.events epoll.epollout)) [
      | inl out_bit ↦ rw (in_bit, out_bit)
      | inr no_out ↦ rw (in_bit, no_out)
    ]
    | inr no_in ↦ elim (Bool-cases (has ev.events epoll.epollout)) [
      | inl out_bit ↦ rw (no_in, out_bit)
      | inr no_out ↦ rw (no_in, no_out)
    ]
  ]

  nth_at :
      (evs : List EpollEvent) (n : ℕ) (t : Session W)
      → shown strerror epoll einval_code t (some (nth_report epoll evs (pos n)))
        ≡ numbered_at (get_elem? evs n) t
  nth_at [] n t = refl
  nth_at (ev ∷ evs) zero t = shown-readiness ev t
  nth_at (ev ∷ evs) (suc n) t = nth_at evs n t

  shown-numbered :
      (evs : List EpollEvent) (i : ℤ) (t : Session W)
      → shown strerror epoll einval_code t (some (nth_report epoll evs (before i)))
        ≡ numbered evs i t
  unfolding numbered
  shown-numbered evs (negsuc n) t = refl
  shown-numbered evs (pos zero) t = refl
  shown-numbered evs (pos (suc n)) t = nth_at evs n t

  select-waited :
      (timeout : Option (ℕ × ℕ)) (self : SelectorEpoll) (w : W) (r : Reply (List EpollEvent) × W)
      → let g = grow max_buffer_size zero_event self in
        epoll.epoll_wait g.fd (length g.buffer) (timeout_ms timeout) w ≡ r
        → (waited g r).0 ≡ (select epoll timeout self w).0
  unfolding select
  select-waited timeout self w r h =
      let g = grow max_buffer_size zero_event self in ap (λ q. (waited g q).0) (sym h)

  -- Where `epoll_wait` gives no more events than it was asked for: a `select` of Lua for which it gave
  -- events pushes their number, and `event` then gives for `i` from 1 to this number the descriptor of the
  -- `i`-th of them with 1 where it can be read, 2 where it can be written or 3 for both, and the error
  -- `EINVAL` for every other `i`. Nothing is read outside of the buffer.
  pub impl_select-numbered :
      (timeout : Option (ℕ × ℕ)) (self : SelectorEpoll) (s : Session W) (w' : W)
      (evs : List EpollEvent) (i : ℤ) (t : Session W)
      → ((fd : ℤ) (size : ℕ) (ms : ℤ) (w : W) → Fits size (epoll.epoll_wait fd size ms w))
      → let g = grow max_buffer_size zero_event self in
        epoll.epoll_wait g.fd (length g.buffer) (timeout_ms timeout) s.machine.os ≡ (done evs, w')
        → (self' : SelectorEpoll) × (impl_select strerror epoll einval_code (some timeout) self s
            ≡ (returned (integer (pos (length evs)) ∷ []), self', at w' s))
          × (impl_event strerror epoll einval_code self' (some i) t ≡ numbered evs i t)
  unfolding impl_select impl_event
  impl_select-numbered timeout self s w' evs i t fits h =
      let g = grow max_buffer_size zero_event self in
      let after = (waited g (done evs, w')).0 in
      let same : after ≡ (select epoll timeout self s.machine.os).0 =
        select-waited timeout self s.machine.os (done evs, w') h in
      let room : length evs ≤ length g.buffer =
        subst (Fits (length g.buffer)) h
          (fits g.fd (length g.buffer) (timeout_ms timeout) s.machine.os) in
      let read : event epoll after (before i) ≡ some (nth_report epoll evs (before i)) =
        ap (λ (x : SelectorEpoll). event epoll x (before i)) same
        ∙ select-event epoll timeout self s.machine.os w' evs h room (before i) in
      (
        after,
        ap (after_wait strerror epoll einval_code g s) h,
        ap (shown strerror epoll einval_code t) read ∙ shown-numbered evs i t,
      )
