-- ===== src/Lua/Selector.antt =====
-- src/lua/selector.cpp: the selector of events that Lua uses, over epoll. A timeout is the number of seconds
-- and nanoseconds that are read from its table, or none for no timeout.
pub mod Events
mod Tests
use dromozoa_unix.Prelude.{ℕ, zero, suc, Option, none, some, List, [], ◌∷◌, length}
use dromozoa_unix.Prelude.Int.{ℤ, pos, negsuc}
use dromozoa_unix.Fd.{Reply, done, failed}
use dromozoa_unix.Selector.Buffer.{Report, report, einval, grow, waited}
use dromozoa_unix.Selector.{
  Epoll, EpollEvent, SelectorEpoll, max_buffer_size, zero_event, timeout_ms, add, mod_events, del,
  event,
}
use dromozoa_unix.Lua.{
  success, integer, Answer, returned, thrown, fault, Session, Run, checked, system, error_of, at,
}

-- `i - 1`.
abbrev pub before : ℤ → ℤ
before (pos zero) = negsuc 0
before (pos (suc n)) = pos n
before (negsuc n) = negsuc (suc n)

module _ {W : Type 0} (strerror : ℤ → List ℕ) (epoll : Epoll W) (einval_code : ℕ) where
  abbrev pub done_with : (W → Reply Unit × W) → Run W
  done_with f = system strerror f λ _ s. (returned (success ∷ []), s)

  unfoldable pub impl_add : SelectorEpoll → Option ℤ → Option ℕ → Run W
  impl_add self fd event = checked fd λ d. checked event λ e. done_with (add epoll self d e)

  unfoldable pub impl_mod : SelectorEpoll → Option ℤ → Option ℕ → Run W
  impl_mod self fd event = checked fd λ d. checked event λ e. done_with (mod_events epoll self d e)

  unfoldable pub impl_del : SelectorEpoll → Option ℤ → Run W
  impl_del self fd = checked fd λ d. done_with (del epoll self d)

  abbrev pub after_wait :
      SelectorEpoll → Session W → Reply (List EpollEvent) × W → Answer × SelectorEpoll × Session W
  after_wait g s (done evs, w) =
      (returned (integer (pos (length evs)) ∷ []), (waited g (done evs, w)).0, at w s)
  after_wait g s (failed e, w) =
      let r = error_of strerror e w s in (r.0, (waited g (failed e, w)).0, r.1)

  -- `selector_epoll::select`, with the error of `epoll_wait`.
  unfoldable pub impl_select :
      Option (Option (ℕ × ℕ)) → SelectorEpoll → Session W → Answer × SelectorEpoll × Session W
  unfolding grow
  impl_select none self s = (thrown, self, s)
  impl_select (some timeout) self s =
      let g = grow max_buffer_size zero_event self in
      after_wait g s (epoll.epoll_wait g.fd (length g.buffer) (timeout_ms timeout) s.machine.os)

  abbrev pub shown : Session W → Option Report → Answer × Session W
  shown s none = (fault, s)
  shown s (some (report fd event)) = (returned (integer fd ∷ integer (pos event) ∷ []), s)
  shown s (some einval) = error_of strerror einval_code s.machine.os s

  unfoldable pub impl_event : SelectorEpoll → Option ℤ → Run W
  impl_event self i = checked i λ n s. shown s (event epoll self (before n))
