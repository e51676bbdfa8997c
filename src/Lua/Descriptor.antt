-- ===== src/Lua/Descriptor.antt =====
-- src/lua/fd.cpp, and the functions of src/lua that open descriptors: pipe.cpp, sys_socket.cpp, `accept`
-- of fd_socket.cpp and `mkstemp` of stdlib.cpp. An object of the class "dromozoa.unix.fd" closes its
-- descriptor when it is collected, one of the class "dromozoa.unix.fd_ref" does not.
pub mod Owned
mod Tests
use Prim.Native.String.{String}
use dromozoa_unix.Prelude.{ℕ, zero, Bool, true, false, Option, none, some, List, [], ◌∷◌, ◌++◌}
use dromozoa_unix.Prelude.Int.{ℤ, pos, minus_one}
use dromozoa_unix.Fd.{Machine, Kernel, Result, close, destroy}
use dromozoa_unix.Fd.Compat.{
  Openers, compat_pipe2, compat_socket, compat_socketpair, compat_accept4, compat_mkostemp,
}
use dromozoa_unix.Lua.{
  Value, success, integer, text, object, address, Answer, returned, thrown, fault, Session, Run,
  checked, push_error,
}

-- An argument where a descriptor is wanted: an object of one of the two classes with its `fd_`, a userdata
-- of another class, a number, or anything else.
pub data FdArg : Type 0 where
  fd_object : ℤ → FdArg
  foreign : FdArg
  number : ℤ → FdArg
  other : FdArg

unfoldable pub new_fd : ℤ → Value
new_fd fd = object "dromozoa.unix.fd" fd

unfoldable pub new_fd_ref : ℤ → Value
new_fd_ref fd = object "dromozoa.unix.fd_ref" fd

unfoldable pub to_fd : FdArg → ℤ
to_fd (fd_object fd) = fd
to_fd foreign = minus_one
to_fd (number n) = n
to_fd other = minus_one

unfoldable pub check_fd : FdArg → Option ℤ
check_fd (fd_object fd) = some fd
check_fd foreign = none
check_fd (number n) = some n
check_fd other = none

-- What follows a result of the library: a failure is pushed.
abbrev pub after :
    {W A : Type 0} → (ℤ → List ℕ) → (A → List Value) → Session W → Result W A → Answer × Session W
after strerror values s (some a, m) = (returned (values a), record s { machine = m })
after strerror values s (none, m) = push_error strerror (record s { machine = m })

abbrev pub library :
    {W A : Type 0} → (ℤ → List ℕ) → (Machine W → Result W A) → (A → List Value) → Run W
library strerror f values s = after strerror values s (f s.machine)

unfoldable pub impl_call : {W : Type 0} → FdArg → Run W
unfolding check_fd new_fd
impl_call arg = checked (check_fd arg) λ fd s. (returned (new_fd fd ∷ []), s)

unfoldable pub impl_fd_ref : {W : Type 0} → FdArg → Run W
unfolding check_fd new_fd_ref
impl_fd_ref arg = checked (check_fd arg) λ fd s. (returned (new_fd_ref fd ∷ []), s)

unfoldable pub impl_get : {W : Type 0} → FdArg → Run W
unfolding check_fd
impl_get arg = checked (check_fd arg) λ fd s. (returned (integer fd ∷ []), s)

module _ {W : Type 0} (strerror : ℤ → List ℕ) (k : Kernel W) where
  -- `impl_gc`, of an object of the class "dromozoa.unix.fd".
  unfoldable pub impl_gc : ℤ → Machine W → Machine W
  unfolding destroy
  impl_gc fd m = destroy k fd m

  -- The argument is what it is after the call: an object has let go of its descriptor.
  unfoldable pub impl_close : FdArg → Session W → Answer × FdArg × Session W
  unfolding close
  impl_close (fd_object fd) s =
      let r = library strerror (close k fd) (λ _. success ∷ []) s in (r.0, fd_object minus_one, r.1)
  impl_close (number n) s =
      let r = library strerror (close k n) (λ _. success ∷ []) s in (r.0, number n, r.1)
  impl_close foreign s = (thrown, foreign, s)
  impl_close other s = (thrown, other, s)

  module _ (o : Openers W) where
    abbrev pub one_fd : ℕ → List Value
    unfolding new_fd
    one_fd fd = new_fd (pos fd) ∷ []

    abbrev pub two_fds : ℕ × ℕ → List Value
    unfolding new_fd
    two_fds fds = new_fd (pos fds.0) ∷ new_fd (pos fds.1) ∷ []

    unfoldable pub impl_pipe : Option ℕ → Run W
    unfolding two_fds compat_pipe2
    impl_pipe flags = checked flags λ f. library strerror (compat_pipe2 k o f) two_fds

    unfoldable pub impl_socket : Option ℕ → Option ℕ → Option ℕ → Run W
    unfolding one_fd compat_socket
    impl_socket domain type protocol = checked domain λ d.
        checked type λ t. checked protocol λ p. library strerror (compat_socket k o d t p) one_fd

    unfoldable pub impl_socketpair : Option ℕ → Option ℕ → Option ℕ → Run W
    unfolding two_fds compat_socketpair
    impl_socketpair domain type protocol = checked domain λ d.
        checked type
          λ t. checked protocol λ p. library strerror (compat_socketpair k o d t p) two_fds

    -- The address that the system has filled is `peer`.
    unfoldable pub impl_accept : Option ℕ → Option ℕ → List ℕ → Run W
    unfolding one_fd compat_accept4
    impl_accept fd flags peer = checked flags λ f.
        checked fd
          λ d. library strerror (compat_accept4 k o d f) (λ a. one_fd a ++ (address peer ∷ []))

    -- A template, and the name that is made of it, are their bytes before the NUL.
    unfoldable pub impl_mkstemp : Option (List ℕ) → Option ℕ → Run W
    unfolding one_fd compat_mkostemp
    impl_mkstemp tmpl flags = checked tmpl λ t.
        checked flags
          λ f. library strerror (compat_mkostemp k o t f) (λ r. one_fd r.0 ++ (text r.1 ∷ []))
