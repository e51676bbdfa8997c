-- ===== src/Selector/Buffer.antt =====
-- src/lib/selector_epoll.cpp and selector_kqueue.cpp: what the two selectors share, their buffer of events
-- and the number of events in it. `E` is an event as the system gives it.
use dromozoa_unix.Prelude.{
  ℕ, not, ◌&&◌, Option, none, some, List, [], ◌∷◌, ◌++◌, length, replicate, get_elem?, ltb,
  if◌then◌else◌,
}
use dromozoa_unix.Prelude.Int.{ℤ, pos, negsuc, minus_one, eq_ℤ, ltb_ℤ}
use dromozoa_unix.Fd.{Reply, done, failed}

pub record Polled (E : Type 0) : Type 0 where
  pub fd : ℤ
  pub result : ℤ
  pub buffer : List E

-- What `event` gives: a descriptor with its events, or -1 with `EINVAL`.
pub data Report : Type 0 where
  report : ℤ → ℕ → Report
  einval : Report

abbrev pub index_of : ℤ → ℕ
index_of (pos n) = n
index_of (negsuc n) = 0

module _ {E : Type 0} where
  -- The buffer doubles when the last call filled it and it is smaller than `max_size`.
  unfoldable pub grow : ℕ → E → Polled E → Polled E
  grow max_size zero_event s =
      let size = length s.buffer in
      if eq_ℤ s.result (pos size) && ltb size max_size
      then record s { buffer = s.buffer ++ replicate size zero_event }
      else s

  -- The events that the system writes to the front of the buffer; what has no room is lost.
  abbrev pub store : List E → List E → List E
  store [] buffer = buffer
  store (ev ∷ evs) [] = []
  store (ev ∷ evs) (old ∷ rest) = ev ∷ store evs rest

  -- `result_` and the buffer after the system's call.
  abbrev pub waited : {W : Type 0} → Polled E → Reply (List E) × W → Polled E × W
  waited s (done evs, w) = (record s { result = pos (length evs); buffer = store evs s.buffer }, w)
  waited s (failed e, w) = (record s { result = minus_one }, w)

  -- `buffer_[i]`, which is `none` behind the end of the buffer.
  abbrev pub read_at : (E → Report) → Option E → Option Report
  read_at decode none = none
  read_at decode (some ev) = some (decode ev)

  unfoldable pub event_at : (E → Report) → Polled E → ℤ → Option Report
  event_at decode s i =
      if not (ltb_ℤ i (pos 0)) && ltb_ℤ i s.result
      then read_at decode (get_elem? s.buffer (index_of i))
      else some einval
