-- ===== src/Selector/Open.antt =====
-- src/lib/selector_epoll.cpp and selector_kqueue.cpp: `open` and `close`, over the descriptors.
mod Tests
use dromozoa_unix.Prelude.{
  ℕ, ◌≡◌, refl, Bool, true, false, Option, none, some, if◌then◌else◌, Bool-cases, inl, inr,
}
use dromozoa_unix.Prelude.Int.{ℤ, pos, minus_one, eq_ℤ}
use dromozoa_unix.Fd.{
  Reply, Machine, Kernel, Action, Result, ◌>>=◌, ret, and_then, call, has, close, destroy, owned,
  with_blocked,
}
use dromozoa_unix.Fd.Compat.{Openers, set_one, open_one}
use dromozoa_unix.Fd.Laws.{View, OpensOne, LeavesOne, Contract}
use dromozoa_unix.Fd.Leaks.Scopes.{
  answer-LeavesOne, set_one-LeavesNone, with_blocked-LeavesOne, opened_one,
}
use dromozoa_unix.Selector.Buffer.{Polled}

-- The calls that make the kernel's object: with flags, or without.
pub record Creators (W : Type 0) : Type 0 where
  pub have_epoll_create1 : Bool
  pub selector_cloexec : ℕ
  pub epoll_create1 : ℕ → W → Reply ℕ × W
  pub epoll_create : W → Reply ℕ × W
  pub kqueue : W → Reply ℕ × W

module _ {W : Type 0} (k : Kernel W) (o : Openers W) (n : Creators W) where
  -- The new descriptor goes into the object, and the old one is destroyed with the scope.
  abbrev pub swap_in : ℤ → ℕ → Action W ℕ
  unfolding destroy
  swap_in old fd s = (some fd, destroy k old s)

  unfoldable pub epoll_open : ℕ → ℤ → Action W ℕ
  unfolding swap_in open_one set_one with_blocked
  epoll_open flags old =
      if n.have_epoll_create1
      then (call (n.epoll_create1 flags) >>= swap_in old)
      else with_blocked k (
          open_one k o (call n.epoll_create) (set_one k o (has flags n.selector_cloexec) false)
          >>= swap_in old)

  unfoldable pub kqueue_open : ℕ → ℤ → Action W ℕ
  unfolding swap_in open_one set_one with_blocked
  kqueue_open flags old = with_blocked k (
      open_one k o (call n.kqueue) (set_one k o (has flags n.selector_cloexec) false)
      >>= swap_in old)

-- `open` of a selector puts the descriptor in; `close` lets go of it, failure or not.
abbrev pub put_fd :
    {W E : Type 0} → Polled E → Result W ℕ → (Option (Unit {0}) × Polled E) × Machine W
put_fd s (none, m) = ((none, s), m)
put_fd s (some fd, m) = ((some tt, record s { fd = pos fd }), m)

unfoldable pub close_selector :
    {W E : Type 0} → Kernel W → Polled E → Machine W → (Option (Unit {0}) × Polled E) × Machine W
unfolding close
close_selector k s m = (((close k s.fd m).0, record s { fd = minus_one }), (close k s.fd m).1)

abbrev pub valid : {E : Type 0} → Polled E → Bool
valid s = if eq_ℤ s.fd minus_one then false else true

module _ {W : Type 0} (v : View W) (k : Kernel W) (o : Openers W) (n : Creators W)
    (c : Contract v k o)
    (create1 : (f : ℕ) (w : W) → OpensOne v {A = ℕ} (λ a. a) w (n.epoll_create1 f w))
    (create : (w : W) → OpensOne v {A = ℕ} (λ a. a) w (n.epoll_create w))
    (queue : (w : W) → OpensOne v {A = ℕ} (λ a. a) w (n.kqueue w)) where
  swap_in-LeavesOne :
      (s : Machine W) (r : Result W ℕ)
      → LeavesOne v {A = ℕ} (λ a. a) s r
      → LeavesOne v {A = ℕ} (λ a. a) s (and_then (swap_in k o n minus_one) r)
  unfolding swap_in destroy
  swap_in-LeavesOne s (none, t) h = h
  swap_in-LeavesOne s (some fd, t) h = h

  created-LeavesOne :
      (make : W → Reply ℕ × W) (cloexec : Bool) (s : Machine W)
      → ((w : W) → OpensOne v {A = ℕ} (λ a. a) w (make w))
      → LeavesOne v {A = ℕ}
          (λ a. a)
          s
          (with_blocked k
            (open_one k o (call make) (set_one k o cloexec false) >>= swap_in k o n minus_one)
            s)
  unfolding open_one
  created-LeavesOne make cloexec s h =
      let body = set_one k o cloexec false in
      with_blocked-LeavesOne v k o c {A = ℕ} (λ a. a)
        (open_one k o (call make) body >>= swap_in k o n minus_one)
        (λ t. swap_in-LeavesOne t (open_one k o (call make) body t) (
          opened_one v k o c {A = ℕ} (λ a. a) body t (call make t)
            (set_one-LeavesNone v k o c cloexec false)
            (answer-LeavesOne v k o c {A = ℕ} (λ a. a) t (make t.os) (h t.os))))
        s

  -- On a new object `open`, with `epoll_create1`, with `epoll_create` or with `kqueue`, has opened one
  -- descriptor that was closed, and no other, if it succeeds; if it fails, none, and `errno` is the error
  -- of a call that opens or sets flags. The signal mask is the old one.
  pub open-LeavesOne :
      (flags : ℕ) (s : Machine W)
      → LeavesOne v {A = ℕ} (λ a. a) s (epoll_open k o n flags minus_one s)
        × LeavesOne v {A = ℕ} (λ a. a) s (kqueue_open k o n flags minus_one s)
  unfolding epoll_open kqueue_open
  open-LeavesOne flags s = (
    elim (Bool-cases n.have_epoll_create1) [
      | inl h ↦ rw h (
          swap_in-LeavesOne s (call (n.epoll_create1 flags) s) (
            answer-LeavesOne v k o c {A = ℕ} (λ a. a) s (n.epoll_create1 flags s.os)
              (create1 flags s.os)))
      | inr h ↦ rw h (created-LeavesOne n.epoll_create (has flags n.selector_cloexec) s create)
    ],
    created-LeavesOne n.kqueue (has flags n.selector_cloexec) s queue,
  )
