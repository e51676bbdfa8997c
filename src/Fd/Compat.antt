-- ===== src/Fd/Compat.antt =====
-- src/lib/compat_pipe2.cpp, compat_socket.cpp, compat_accept4.cpp and compat_mkostemp.cpp: the calls
-- that open descriptors with their flags set, for systems that lack them.
use dromozoa_unix.Prelude.{ℕ, Bool, true, false, none, some, List, ◌==◌, if◌then◌else◌}
use dromozoa_unix.Prelude.Bits.{bit_or, bit_and, bit_clear}
use dromozoa_unix.Fd.{
  Reply, Machine, Kernel, f_getfl, f_setfl, Action, Result, settle, ◌>>=◌, ret, when, call, has,
  owned, coe_on, ndelay_on, with_blocked,
}

-- The calls that open descriptors. A path is the list of its bytes; `mkstemp` gives the name that it
-- wrote over its template.
pub record Openers (W : Type 0) : Type 0 where
  pub have_pipe2 : Bool
  pub have_sock_flags : Bool
  pub have_accept4 : Bool
  pub have_mkostemp : Bool
  pub pipe : W → Reply (ℕ × ℕ) × W
  pub pipe2 : ℕ → W → Reply (ℕ × ℕ) × W
  pub socket : ℕ → ℕ → ℕ → W → Reply ℕ × W
  pub socketpair : ℕ → ℕ → ℕ → W → Reply (ℕ × ℕ) × W
  pub accept : ℕ → W → Reply ℕ × W
  pub accept4 : ℕ → ℕ → W → Reply ℕ × W
  pub mkstemp : List ℕ → W → Reply (ℕ × List ℕ) × W
  pub mkostemp : List ℕ → ℕ → W → Reply (ℕ × List ℕ) × W
  pub unlink : List ℕ → W → Reply Unit × W

module _ {W : Type 0} (k : Kernel W) (o : Openers W) where
  -- The flags of the two ends, in the order in which they are set.
  unfoldable pub set_both : Bool → Bool → ℕ → ℕ → Action W Unit
  unfolding coe_on ndelay_on
  set_both cloexec nonblock fd0 fd1 = do
    _ ← when cloexec (coe_on k fd0 >>= λ _. coe_on k fd1)
    when nonblock (ndelay_on k fd0 >>= λ _. ndelay_on k fd1)

  unfoldable pub set_one : Bool → Bool → ℕ → Action W Unit
  unfolding coe_on ndelay_on
  set_one cloexec nonblock fd = do _ ← when cloexec (coe_on k fd); when nonblock (ndelay_on k fd)

  -- Two descriptors, owned by the scope while `body` runs, and released after it.
  unfoldable pub open_two : Action W (ℕ × ℕ) → (ℕ → ℕ → Action W Unit) → Action W (ℕ × ℕ)
  unfolding owned
  open_two make body = make >>= λ fd. owned k fd.0 (owned k fd.1 (body fd.0 fd.1)) >>= λ _. ret fd

  unfoldable pub open_one : Action W ℕ → (ℕ → Action W Unit) → Action W ℕ
  unfolding owned
  open_one make body = make >>= λ fd. owned k fd (body fd) >>= λ _. ret fd

  unfoldable pub compat_pipe2 : ℕ → Action W (ℕ × ℕ)
  unfolding set_both open_two with_blocked
  compat_pipe2 flags =
      if o.have_pipe2
      then call (o.pipe2 flags)
      else with_blocked k
          (open_two (call o.pipe) (set_both (has flags k.o_cloexec) (has flags k.o_nonblock)))

  abbrev pub plain_type : ℕ → ℕ
  plain_type type = bit_clear type (bit_or k.sock_cloexec k.sock_nonblock)

  unfoldable pub compat_socket : ℕ → ℕ → ℕ → Action W ℕ
  unfolding set_one open_one with_blocked
  compat_socket domain type protocol =
      if o.have_sock_flags
      then call (o.socket domain type protocol)
      else with_blocked k (
          open_one (call (o.socket domain (plain_type type) protocol))
            (set_one (has type k.sock_cloexec) (has type k.sock_nonblock)))

  unfoldable pub compat_socketpair : ℕ → ℕ → ℕ → Action W (ℕ × ℕ)
  unfolding set_both open_two with_blocked
  compat_socketpair domain type protocol =
      if o.have_sock_flags
      then call (o.socketpair domain type protocol)
      else with_blocked k (
          open_two (call (o.socketpair domain (plain_type type) protocol))
            (set_both (has type k.sock_cloexec) (has type k.sock_nonblock)))

  unfoldable pub compat_accept4 : ℕ → ℕ → Action W ℕ
  unfolding set_one open_one with_blocked
  compat_accept4 socket flags =
      if o.have_accept4
      then call (o.accept4 socket flags)
      else with_blocked k (
          open_one (call (o.accept socket))
            (set_one (has flags k.sock_cloexec) (has flags k.sock_nonblock)))

  -- `scoped_file::~scoped_file` of a file that was not released.
  unfoldable pub unlink_file : List ℕ → Machine W → Machine W
  unlink_file path s = settle k.unexpected s.errno (call (o.unlink path) s)

  abbrev pub end_scoped_file : List ℕ → Result W Unit → Result W Unit
  unfolding unlink_file
  end_scoped_file path (some u, s) = (some u, s)
  end_scoped_file path (none, s) = (none, unlink_file path s)

  unfoldable pub scoped_file : List ℕ → Action W Unit → Action W Unit
  unfolding unlink_file
  scoped_file path body s = end_scoped_file path (body s)

  unfoldable pub set_file : ℕ → ℕ → Action W Unit
  unfolding coe_on
  set_file flags fd = do
    _ ← when (has flags k.o_cloexec) (coe_on k fd)
    let kept = bit_and flags (bit_or k.o_append k.o_sync)
    when (if kept == 0 then false else true) (do
      result ← call (k.fcntl fd f_getfl 0)
      _ ← call (k.fcntl fd f_setfl (bit_or result kept))
      ret tt)

  -- The descriptor and the name of the file.
  unfoldable pub compat_mkostemp : List ℕ → ℕ → Action W (ℕ × List ℕ)
  unfolding scoped_file set_file owned with_blocked
  compat_mkostemp tmpl flags =
      if o.have_mkostemp
      then call (o.mkostemp tmpl flags)
      else with_blocked k (
          call (o.mkstemp tmpl) >>= λ file.
          owned k file.0 (scoped_file file.1 (set_file flags file.0)) >>= λ _. ret file)
