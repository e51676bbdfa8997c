-- ===== src/Lua/Descriptor/Owned.antt =====
-- src/lua: every descriptor that a function opens belongs to an object that it gives to Lua.
use package.text.Mathlib.Text.{◌==◌ as str_eq}
use dromozoa_unix.Prelude.{
  ℕ, ◌≡◌, refl, ap, ◌∙◌, Bool, true, false, not, ◌&&◌, ◌||◌, Option, none, some, List, [], ◌∷◌,
  ◌++◌, ◌==◌, if◌then◌else◌, arith, ==_iff,
}
use dromozoa_unix.Prelude.Int.{ℤ, pos}
use dromozoa_unix.Fd.{Machine, Kernel, Result, destroy}
use dromozoa_unix.Fd.Compat.{
  Openers, compat_pipe2, compat_socket, compat_socketpair, compat_accept4, compat_mkostemp,
}
use dromozoa_unix.Fd.Laws.{View, Same, GainsOne, LeavesOne, LeavesTwo, Contract}
use dromozoa_unix.Fd.Leaks.{
  compat_pipe2-LeavesTwo, compat_socketpair-LeavesTwo, sockets-LeavesOne, compat_mkostemp-LeavesOne,
}
use dromozoa_unix.Fd.Leaks.Calls.{destroy-Loses}
use dromozoa_unix.Fd.Leaks.Pair.{destroy_pair, destroy_pair-Same}
use dromozoa_unix.Lua.{Value, text, object, address, Answer, returned, thrown, fault, Session}
use dromozoa_unix.Lua.Descriptor.{
  new_fd, after, impl_gc, one_fd, two_fds, impl_pipe, impl_socket, impl_socketpair, impl_accept,
  impl_mkstemp,
}

-- The descriptors of the objects that own one.
abbrev pub fds : List Value → List ℤ
fds [] = []
fds (object class fd ∷ rest) = if str_eq class "dromozoa.unix.fd" then fd ∷ fds rest else fds rest
fds (_ ∷ rest) = fds rest

abbrev pub owned_by : Answer → List ℤ
owned_by (returned values) = fds values
owned_by thrown = []
owned_by fault = []

module _ {W : Type 0} (strerror : ℤ → List ℕ) (k : Kernel W) where
  -- The collector takes the objects, the last one first.
  unfoldable pub collect : List ℤ → Machine W → Machine W
  unfolding impl_gc
  collect [] m = m
  collect (fd ∷ rest) m = impl_gc strerror k fd (collect rest m)

module _ {W : Type 0} (strerror : ℤ → List ℕ) (v : View W) (k : Kernel W) (o : Openers W)
    (c : Contract v k o) where
  -- Once the objects that a call has given are collected, the same descriptors are open as before the
  -- call, and the signal mask is the old one.
  abbrev pub Collectable : Session W → Answer × Session W → Type 0
  Collectable s (a, t) = Same v s.machine.os (collect strerror k (owned_by a) t.machine).os

  reopened :
      (x : Bool) (n a : ℕ) → ((n == a) ≡ true → x ≡ false) → ((x || n == a) && not (n == a)) ≡ x
  reopened x n a h = ground arith

  only_there : (n a : ℕ) (w : W) → v.opened w a ≡ false → (n == a) ≡ true → v.opened w n ≡ false
  only_there n a w h e = ap (v.opened w) ((==_iff n a).0 e) ∙ h

  gained-Same :
      (w : W) (a : ℕ) (s : Machine W) → GainsOne v w a s.os → Same v w (destroy k (pos a) s).os
  gained-Same w a s h =
      let l = (destroy-Loses v k o c a s).0 in
      (
        λ n.
            l.0 n
            ∙ (ap (λ b. b && not (n == a)) (h.1 n)
                ∙ reopened (v.opened w n) n a (only_there n a w h.0)),
        l.1 ∙ h.2,
      )

  -- A function whose values own just what the library has opened.
  one-Collectable :
      {A : Type 0} (fd : A → ℕ) (values : A → List Value) (s : Session W) (r : Result W A)
      → ((a : A) → fds (values a) ≡ pos (fd a) ∷ [])
      → LeavesOne v fd s.machine r
      → Collectable s (after strerror values s r)
  unfolding collect impl_gc
  one-Collectable fd values s (some a, m) owns l = rw (owns a) (gained-Same s.machine.os (fd a) m l)
  one-Collectable fd values s (none, m) owns l = l.0

  two-Collectable :
      (values : ℕ × ℕ → List Value) (s : Session W) (r : Result W (ℕ × ℕ))
      → ((a b : ℕ) → fds (values (a, b)) ≡ pos a ∷ pos b ∷ [])
      → LeavesTwo v s.machine r
      → Collectable s (after strerror values s r)
  unfolding collect impl_gc destroy_pair
  two-Collectable values s (some (a, b), m) owns l =
      rw (owns a b) (destroy_pair-Same v k o c s.machine.os a b m l)
  two-Collectable values s (none, m) owns l = l.0

  pipe-Collectable : (x : Option ℕ) (s : Session W) → Collectable s (impl_pipe strerror k o x s)
  unfolding impl_pipe two_fds new_fd collect
  pipe-Collectable none s = (λ n. refl, refl)
  pipe-Collectable (some f) s =
      two-Collectable (two_fds strerror k o) s (compat_pipe2 k o f s.machine) (λ a b. refl)
        (compat_pipe2-LeavesTwo v k o c f s.machine)

  pair-Collectable :
      (x y z : Option ℕ) (s : Session W) → Collectable s (impl_socketpair strerror k o x y z s)
  unfolding impl_socketpair two_fds new_fd collect
  pair-Collectable none y z s = (λ n. refl, refl)
  pair-Collectable (some d) none z s = (λ n. refl, refl)
  pair-Collectable (some d) (some t) none s = (λ n. refl, refl)
  pair-Collectable (some d) (some t) (some p) s =
      two-Collectable (two_fds strerror k o) s (compat_socketpair k o d t p s.machine) (λ a b. refl)
        (compat_socketpair-LeavesTwo v k o c d t p s.machine)

  socket-Collectable :
      (x y z : Option ℕ) (s : Session W) → Collectable s (impl_socket strerror k o x y z s)
  unfolding impl_socket one_fd new_fd collect
  socket-Collectable none y z s = (λ n. refl, refl)
  socket-Collectable (some d) none z s = (λ n. refl, refl)
  socket-Collectable (some d) (some t) none s = (λ n. refl, refl)
  socket-Collectable (some d) (some t) (some p) s =
      one-Collectable {A = ℕ} (λ a. a) (one_fd strerror k o) s (compat_socket k o d t p s.machine)
        (λ a. refl) (sockets-LeavesOne v k o c d t p 0 0 s.machine).0

  accept-Collectable :
      (x y : Option ℕ) (peer : List ℕ) (s : Session W)
      → Collectable s (impl_accept strerror k o x y peer s)
  unfolding impl_accept one_fd new_fd collect
  accept-Collectable x none peer s = (λ n. refl, refl)
  accept-Collectable none (some f) peer s = (λ n. refl, refl)
  accept-Collectable (some d) (some f) peer s =
      one-Collectable {A = ℕ} (λ a. a) (λ a. one_fd strerror k o a ++ (address peer ∷ [])) s
        (compat_accept4 k o d f s.machine) (λ a. refl)
        (sockets-LeavesOne v k o c 0 0 0 d f s.machine).1

  mkstemp-Collectable :
      (tmpl : Option (List ℕ)) (x : Option ℕ) (s : Session W)
      → Collectable s (impl_mkstemp strerror k o tmpl x s)
  unfolding impl_mkstemp one_fd new_fd collect
  mkstemp-Collectable none x s = (λ n. refl, refl)
  mkstemp-Collectable (some t) none s = (λ n. refl, refl)
  mkstemp-Collectable (some t) (some f) s =
      one-Collectable {A = ℕ × List ℕ} (λ r. r.0) (λ r. one_fd strerror k o r.0 ++ (text r.1 ∷ []))
        s (compat_mkostemp k o t f s.machine) (λ r. refl)
        (compat_mkostemp-LeavesOne v k o c t f s.machine)

  -- `pipe`, `socketpair`, `socket`, `accept` and `mkstemp` of Lua, whatever their arguments: all that a
  -- call opens belongs to the objects that it gives. Once these are collected, the same descriptors
  -- are open as before the call, and the signal mask is the old one, whether the call succeeds, fails or
  -- raises an error.
  pub openers-Collectable :
      (x y z : Option ℕ) (peer : List ℕ) (tmpl : Option (List ℕ)) (s : Session W)
      → Collectable s (impl_pipe strerror k o x s)
        × Collectable s (impl_socketpair strerror k o x y z s)
        × Collectable s (impl_socket strerror k o x y z s)
        × Collectable s (impl_accept strerror k o x y peer s)
        × Collectable s (impl_mkstemp strerror k o tmpl x s)
  openers-Collectable x y z peer tmpl s = (
    pipe-Collectable x s,
    pair-Collectable x y z s,
    socket-Collectable x y z s,
    accept-Collectable x y peer s,
    mkstemp-Collectable tmpl x s,
  )
