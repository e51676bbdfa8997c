-- ===== src/Selector/Bounds.antt =====
-- src/lib/selector_epoll.cpp and selector_kqueue.cpp: the size of the buffer, and what `event` reads
-- from it.
use dromozoa_unix.Prelude.{
  ℕ, zero, suc, ◌+◌, ◌*◌, ◌≤◌, ◌<◌, ◌≡◌, refl, Bool, true, false, not, ◌&&◌, Option, some, List, [],
  ◌∷◌, length, length-append, length-replicate, replicate, get_elem?, ltb, arith, if◌then◌else◌,
  Bool-cases, inl, inr, ltb→lt, ap, subst, ◌∙◌,
}
use dromozoa_unix.Prelude.Int.{ℤ, pos, negsuc, eq_ℤ}
use dromozoa_unix.Fd.{Reply, done, failed}
use dromozoa_unix.Selector.Buffer.{Polled, Report, einval, grow, store, waited, read_at, event_at}
use dromozoa_unix.Selector.{
  EpollEvent, Epoll, SelectorEpoll, initial_buffer_size, max_buffer_size, zero_event, timeout_ms,
  select, decode, event, new,
}

-- The sizes that a buffer takes: the first one, doubled.
abbrev pub size_at : ℕ → ℕ → ℕ
size_at first zero = first
size_at first (suc k) = 2 * size_at first k

-- `result_` is -1 or a number of events that the buffer has room for.
abbrev pub ResultFits : ℤ → ℕ → Type 0
ResultFits (pos n) size = n ≤ size
ResultFits (negsuc n) size = n ≡ 0

-- The buffer has been doubled at most seven times.
abbrev pub Fitting : {E : Type 0} → ℕ → Polled E → Type 0
Fitting first s =
    ((k : ℕ) × (k ≤ 7) × (length s.buffer ≡ size_at first k))
    × ResultFits s.result (length s.buffer)

-- The system gives no more events than it was asked for.
abbrev pub Fits : {E W : Type 0} → ℕ → Reply (List E) × W → Type 0
Fits size (done evs, w) = length evs ≤ size
Fits size (failed e, w) = Unit

ResultFits-mono : (r : ℤ) (n : ℕ) {m : ℕ} → ResultFits r n → n ≤ m → ResultFits r m
ResultFits-mono (pos a) n h l = omega arith
ResultFits-mono (negsuc a) n h l = h

shift : (n m : ℕ) → ltb (suc n) (suc m) ≡ ltb n m
shift n m = ground arith

in_range : (n m : ℕ) → (not (ltb (n + 0) 0) && ltb (n + 0) (m + 0)) ≡ ltb n m
in_range n m = ground arith

size_at_below : (first k : ℕ) → k ≤ 7 → size_at first k < size_at first 7 → k < 7
size_at_below first k h l = elim (Bool-cases (ltb k 7)) [
  | inl lt7 ↦ ltb→lt k 7 lt7
  | inr ge7 ↦ absurd (top k h ge7 l)
]
  where
    top : (k : ℕ) → k ≤ 7 → ltb k 7 ≡ false → size_at first k < size_at first 7 → ⊥
    top k h g l =
        let e : k ≡ 7 = ground arith in
        let b : size_at first 7 < size_at first 7 =
          subst (λ n. size_at first n < size_at first 7) e l in
        omega (arith, b)

length-store : {E : Type 0} (evs buffer : List E) → length (store evs buffer) ≡ length buffer
length-store [] buffer = refl
length-store (ev ∷ evs) [] = refl
length-store (ev ∷ evs) (old ∷ rest) = ap suc (length-store evs rest)

module _ {E : Type 0} (first : ℕ) where
  grow-Fitting :
      (z : E) (s : Polled E) → Fitting first s → Fitting first (grow (size_at first 7) z s)
  unfolding grow
  grow-Fitting z s ((k, h, e), r) =
      let size = length s.buffer in
      elim (Bool-cases (eq_ℤ s.result (pos size) && ltb size (size_at first 7))) [
        | inr stays ↦ rw stays ((k, h, e), r)
        | inl grows ↦
            let l : size < size_at first 7 = both size (eq_ℤ s.result (pos size)) grows in
            let q = length-append s.buffer (replicate size z) in
            let d = length-replicate size z in
            rw grows (
              (
                suc k,
                size_at_below first k h (subst (λ n. n < size_at first 7) e l),
                omega (arith, q, d, e),
              ),
              ResultFits-mono s.result size r (omega (arith, q, d)),
            )
      ]
    where
      both :
          (size : ℕ) (b : Bool) → (b && ltb size (size_at first 7)) ≡ true → size < size_at first 7
      both size b g = ground arith

  waited-Fitting :
      {W : Type 0} (s : Polled E) (r : Reply (List E) × W)
      → Fitting first s
      → Fits (length s.buffer) r
      → Fitting first (waited s r).0
  waited-Fitting s (failed e, w) h f = (h.0, refl)
  waited-Fitting s (done evs, w) ((k, h, e), r) f =
      let q = length-store evs s.buffer in ((k, h, q ∙ e), omega (arith, q, f))

  pub step-Fitting :
      {W : Type 0} (z : E) (s : Polled E) (call : Polled E → Reply (List E) × W)
      → Fitting first s
      → ((g : Polled E) → Fits (length g.buffer) (call g))
      → Fitting first (waited (grow (size_at first 7) z s) (call (grow (size_at first 7) z s))).0
  step-Fitting z s call h f =
      let g = grow (size_at first 7) z s in waited-Fitting g (call g) (grow-Fitting z s h) (f g)

module _ {E : Type 0} (decode : E → Report) where
  -- What a caller may read after events came: the `i`-th of them, and nothing else.
  abbrev pub nth_event : List E → ℤ → Report
  nth_event evs (negsuc n) = einval
  nth_event [] (pos n) = einval
  nth_event (ev ∷ evs) (pos zero) = decode ev
  nth_event (ev ∷ evs) (pos (suc n)) = nth_event evs (pos n)

  read_in :
      (evs buffer : List E) (n : ℕ)
      → length evs ≤ length buffer
      → (if ltb n (length evs)
          then read_at decode (get_elem? (store evs buffer) n)
          else some einval)
        ≡ some (nth_event evs (pos n))
  read_in [] buffer n h = ground arith
  read_in (ev ∷ evs) [] n h = absurd (omega arith)
  read_in (ev ∷ evs) (old ∷ rest) zero h = ground arith
  read_in (ev ∷ evs) (old ∷ rest) (suc n) h =
      rw (shift n (length evs)) (read_in evs rest n (omega arith))

  pub event_done :
      {W : Type 0} (g : Polled E) (evs : List E) (w : W)
      → length evs ≤ length g.buffer
      → (i : ℤ) → event_at decode (waited g (done evs, w)).0 i ≡ some (nth_event evs i)
  unfolding event_at
  event_done g evs w h (negsuc n) = ground arith
  event_done g evs w h (pos n) = rw (in_range n (length evs)) (read_in evs g.buffer n h)

-- The buffer has 32 elements, doubled at most seven times, and `result_` is -1 or a number of elements
-- that the buffer has.
abbrev pub IsWellFormed : SelectorEpoll → Type 0
IsWellFormed = Fitting initial_buffer_size

pub new-IsWellFormed : (fd : ℤ) → IsWellFormed (new fd)
unfolding new
new-IsWellFormed fd = ((0, omega arith, refl), refl)

module _ {W : Type 0} (epoll : Epoll W)
    (fits : (fd : ℤ) (size : ℕ) (t : ℤ) (w : W) → Fits size (epoll.epoll_wait fd size t w)) where
  -- Where `epoll_wait` gives no more events than it was asked for, `select` leaves a well-formed
  -- selector well-formed: its buffer has 32 elements, doubled at most seven times, and `result_` is -1
  -- or a number of elements that the buffer has.
  select-IsWellFormed :
      (timeout : Option (ℕ × ℕ)) (s : SelectorEpoll) (w : W)
      → IsWellFormed s
      → IsWellFormed (select epoll timeout s w).0
  unfolding select
  select-IsWellFormed timeout s w h =
      step-Fitting initial_buffer_size zero_event s
        (λ g. epoll.epoll_wait g.fd (length g.buffer) (timeout_ms timeout) w) h
        (λ g. fits g.fd (length g.buffer) (timeout_ms timeout) w)

module _ {W : Type 0} (epoll : Epoll W) where
  abbrev pub nth_report : List EpollEvent → ℤ → Report
  nth_report = nth_event (decode epoll)

  -- After a `select` for which `epoll_wait` gave events, no more than it was asked for, `event` gives for
  -- `i` from 0 the `i`-th of them, decoded, and `EINVAL` for every other number; it reads nothing outside
  -- the buffer.
  pub select-event :
      (timeout : Option (ℕ × ℕ)) (s : SelectorEpoll) (w w' : W) (evs : List EpollEvent)
      → let g = grow max_buffer_size zero_event s in
        epoll.epoll_wait g.fd (length g.buffer) (timeout_ms timeout) w ≡ (done evs, w')
        → length evs ≤ length g.buffer
        → (i : ℤ) → event epoll (select epoll timeout s w).0 i ≡ some (nth_report evs i)
  unfolding select event
  select-event timeout s w w' evs h room i =
      let g = grow max_buffer_size zero_event s in
      ap (λ r. event_at (decode epoll) (waited g r).0 i) h
      ∙ event_done (decode epoll) g evs w' room i
