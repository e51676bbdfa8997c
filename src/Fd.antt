-- ===== src/Fd.antt =====
-- src/lib/file_descriptor.cpp, coe.cpp, ndelay.cpp, sigmask.cpp and compat_sigmask.cpp: descriptors that
-- a scope owns, their flags, and the signal mask. The operating system's calls are a parameter, the
-- record `Kernel`; a call that fails gives its error number, which the C library stores in `errno`. A
-- function that returns -1 for a failure gives `none`.
pub mod Compat
pub mod Drain
pub mod Made
pub mod Laws
pub mod Leaks
pub mod Sample
mod Tests
use dromozoa_unix.Prelude.{
  ℕ, zero, Bool, true, false, Option, none, some, List, ◌==◌, if◌then◌else◌,
}
use dromozoa_unix.Prelude.Int.{ℤ, pos, minus_one, eq_ℤ}
use dromozoa_unix.Prelude.Bits.{bit_or, bit_and, bit_clear}

pub data Reply (A : Type 0) : Type 0 where
  done : A → Reply A
  failed : ℕ → Reply A

pub record Machine (W : Type 0) : Type 0 where
  pub os : W
  pub errno : ℕ

pub data Command : Type 0 where
  f_getfd : Command
  f_setfd : Command
  f_getfl : Command
  f_setfl : Command

-- The calls and the constants of the system. A signal mask is a number. `unexpected` reports a failure
-- that cannot be returned.
pub record Kernel (W : Type 0) : Type 0 where
  pub fd_cloexec : ℕ
  pub o_cloexec : ℕ
  pub o_nonblock : ℕ
  pub o_append : ℕ
  pub o_sync : ℕ
  pub sock_cloexec : ℕ
  pub sock_nonblock : ℕ
  pub have_pthread : Bool
  pub close : ℤ → W → Reply Unit × W
  pub fcntl : ℕ → Command → ℕ → W → Reply ℕ × W
  pub sigfillset : W → Reply ℕ × W
  pub sigemptyset : W → Reply ℕ × W
  pub pthread_sigmask : ℕ → W → Reply ℕ × W
  pub sigprocmask : ℕ → W → Reply ℕ × W
  pub unexpected : ℕ → Machine W → Machine W

abbrev pub Action : Type 0 → Type 0 → Type 0
Action W A = Machine W → Option A × Machine W

abbrev pub Result : Type 0 → Type 0 → Type 0
Result W A = Option A × Machine W

-- What follows a result: a failure is returned.
abbrev pub and_then : {W A B : Type 0} → (A → Action W B) → Result W A → Result W B
and_then f (none, s) = (none, s)
and_then f (some a, s) = f a s

infixl 5 ◌>>=◌
abbrev pub ◌>>=◌ : {W A B : Type 0} → Action W A → (A → Action W B) → Action W B
(m >>= f) s = and_then f (m s)

abbrev pub ret : {W A : Type 0} → A → Action W A
ret a s = (some a, s)

abbrev pub when : {W : Type 0} → Bool → Action W Unit → Action W Unit
when true m = m
when false m = ret tt

abbrev pub answer : {W A : Type 0} → Machine W → Reply A × W → Result W A
answer s (done a, w) = (some a, record s { os = w })
answer s (failed e, w) = (none, record { os = w; errno = e })

-- A system call.
abbrev pub call : {W A : Type 0} → (W → Reply A × W) → Action W A
call f s = answer s (f s.os)

-- How a destructor ends: a failure is reported, and `errno` is what it was.
abbrev pub settle : {W : Type 0} → (ℕ → Machine W → Machine W) → ℕ → Result W Unit → Machine W
settle unexpected saved (some u, s) = record s { errno = saved }
settle unexpected saved (none, s) = record (unexpected s.errno s) { errno = saved }

-- A test of a bit, as in `if (flags & bit)`.
abbrev pub has : ℕ → ℕ → Bool
has flags bit = if bit_and flags bit == 0 then false else true

module _ {W : Type 0} (k : Kernel W) where
  -- The result of `file_descriptor::close`: the object has let go of the descriptor, failure or not.
  unfoldable pub close : ℤ → Action W Unit
  close fd = call (k.close fd)

  -- `file_descriptor::~file_descriptor`: `errno` is saved around the call.
  unfoldable pub destroy : ℤ → Machine W → Machine W
  unfolding close
  destroy fd s = if eq_ℤ fd minus_one then s else settle k.unexpected s.errno (close fd s)

  abbrev pub end_owned : {A : Type 0} → ℕ → Result W A → Result W A
  unfolding destroy
  end_owned fd (some a, s) = (some a, destroy minus_one s)
  end_owned fd (none, s) = (none, destroy (pos fd) s)

  -- A scope that owns a descriptor: it is released where the scope ends with success.
  unfoldable pub owned : {A : Type 0} → ℕ → Action W A → Action W A
  unfolding destroy
  owned fd body s = end_owned fd (body s)

  unfoldable pub coe_on : ℕ → Action W Unit
  coe_on fd = do
    result ← call (k.fcntl fd f_getfd 0)
    _ ← call (k.fcntl fd f_setfd (bit_or result k.fd_cloexec))
    ret tt

  unfoldable pub is_coe : ℕ → Action W Bool
  is_coe fd = do result ← call (k.fcntl fd f_getfd 0); ret (has result k.fd_cloexec)

  unfoldable pub ndelay_on : ℕ → Action W Unit
  ndelay_on fd = do
    result ← call (k.fcntl fd f_getfl 0)
    _ ← call (k.fcntl fd f_setfl (bit_or result k.o_nonblock))
    ret tt

  unfoldable pub ndelay_off : ℕ → Action W Unit
  ndelay_off fd = do
    result ← call (k.fcntl fd f_getfl 0)
    _ ← call (k.fcntl fd f_setfl (bit_clear result k.o_nonblock))
    ret tt

  unfoldable pub is_ndelay_on : ℕ → Action W Bool
  is_ndelay_on fd = do result ← call (k.fcntl fd f_getfl 0); ret (has result k.o_nonblock)

  unfoldable pub is_ndelay_off : ℕ → Action W Bool
  is_ndelay_off fd = do
    result ← call (k.fcntl fd f_getfl 0)
    ret (if has result k.o_nonblock then false else true)

  abbrev pub pthread_code : ℕ → Machine W → Reply ℕ × W → (ℤ × ℕ) × Machine W
  pthread_code old s (done before, w) = ((pos 0, before), record s { os = w })
  pthread_code old s (failed e, w) = ((pos e, old), record s { os = w })

  abbrev pub sigprocmask_code : ℕ → Machine W → Reply ℕ × W → (ℤ × ℕ) × Machine W
  sigprocmask_code old s (done before, w) = ((pos 0, before), record s { os = w })
  sigprocmask_code old s (failed e, w) = ((minus_one, old), record { os = w; errno = e })

  -- The code returned and the content of the caller's variable for the old mask. `pthread_sigmask`
  -- returns its error number and leaves `errno` alone.
  unfoldable pub compat_sigmask : ℕ → ℕ → Machine W → (ℤ × ℕ) × Machine W
  compat_sigmask mask old s =
      if k.have_pthread
      then pthread_code old s (k.pthread_sigmask mask s.os)
      else sigprocmask_code old s (k.sigprocmask mask s.os)

  -- What the callers make of it: the old mask, unless -1 was returned.
  abbrev pub unless_minus_one : (ℤ × ℕ) × Machine W → Result W ℕ
  unless_minus_one ((code, old), s) = (if eq_ℤ code minus_one then none else some old, s)

  unfoldable pub sigmask_block_all_signals : ℕ → Action W ℕ
  unfolding compat_sigmask
  sigmask_block_all_signals old = do
    new_mask ← call k.sigfillset
    λ s. unless_minus_one (compat_sigmask new_mask old s)

  unfoldable pub sigmask_unblock_all_signals : ℕ → Action W ℕ
  unfolding compat_sigmask
  sigmask_unblock_all_signals old = do
    new_mask ← call k.sigemptyset
    λ s. unless_minus_one (compat_sigmask new_mask old s)

  -- `sigmask_saver::~sigmask_saver`.
  unfoldable pub restore : ℕ → Machine W → Machine W
  unfolding compat_sigmask
  restore mask s =
      let r = compat_sigmask mask 0 s in
      settle k.unexpected s.errno (if eq_ℤ r.0.0 minus_one then none else some tt, r.1)

  abbrev pub end_blocked : {A : Type 0} → ℕ → Result W A → Result W A
  unfolding restore
  end_blocked mask (r, s) = (r, restore mask s)

  -- A scope with every signal blocked.
  unfoldable pub with_blocked : {A : Type 0} → Action W A → Action W A
  unfolding sigmask_block_all_signals restore
  with_blocked body s =
      and_then (λ mask s'. end_blocked mask (body s')) (sigmask_block_all_signals 0 s)
