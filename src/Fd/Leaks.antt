-- ===== src/Fd/Leaks.antt =====
-- src/lib/compat_pipe2.cpp, compat_socket.cpp, compat_accept4.cpp and compat_mkostemp.cpp: what the
-- calls leave open, the signal mask they leave, and the error they report.
pub mod Calls
pub mod Scopes
pub mod Sets
pub mod Pair
use dromozoa_unix.Prelude.{
  ℕ, ◌≡◌, ◌≢◌, refl, sym, ◌∙◌, subst, Bool, true, false, Option, none, some, List, ◌==◌,
  if◌then◌else◌, Bool-cases, inl, inr,
}
use dromozoa_unix.Prelude.Bits.{bit_or, bit_and}
use dromozoa_unix.Fd.{
  Reply, done, failed, Machine, Kernel, f_getfl, f_setfl, Result, Action, ◌>>=◌, and_then, ret,
  when, answer, call, has, settle, owned, coe_on, with_blocked,
}
use dromozoa_unix.Fd.Compat.{
  Openers, set_both, set_one, open_two, open_one, plain_type, compat_pipe2, compat_socket,
  compat_socketpair, compat_accept4, unlink_file, end_scoped_file, scoped_file, set_file,
  compat_mkostemp,
}
use dromozoa_unix.Fd.Laws.{View, Same, LeavesNone, LeavesOne, LeavesTwo, Contract}
use Calls.{
  Same-trans, and_then-LeavesNone, when-LeavesNone, settle-Same, update-LeavesNone,
  coe_on-LeavesNone,
}
use Scopes.{
  answer-LeavesOne, answer-LeavesTwo, set_one-LeavesNone, set_both-LeavesNone,
  with_blocked-LeavesOne, with_blocked-LeavesTwo, opened_one, opened_two, both-LeavesNone,
}

module _ {W : Type 0} (v : View W) (k : Kernel W) (o : Openers W) (c : Contract v k o) where
  -- `compat_pipe2`, with the system's `pipe2` or without it: on success it has opened two different
  -- descriptors that were closed, and no other; on failure the same descriptors are open as before,
  -- and `errno` is the error of a call that opens or sets flags, whatever the destructors' `close`
  -- does. The signal mask is the old one in both cases.
  pub compat_pipe2-LeavesTwo :
      (flags : ℕ) (s : Machine W) → LeavesTwo v s (compat_pipe2 k o flags s)
  unfolding compat_pipe2 open_two
  compat_pipe2-LeavesTwo flags s = elim (Bool-cases o.have_pipe2) [
    | inl h ↦ rw h (answer-LeavesTwo v k o c s (o.pipe2 flags s.os) (c.pipe2_opens flags s.os))
    | inr h ↦ rw h (
        let body = set_both k o (has flags k.o_cloexec) (has flags k.o_nonblock) in
        with_blocked-LeavesTwo v k o c (open_two k o (call o.pipe) body)
          (λ t.
            opened_two v k o c body t (call o.pipe t)
              (set_both-LeavesNone v k o c (has flags k.o_cloexec) (has flags k.o_nonblock))
              (answer-LeavesTwo v k o c t (o.pipe t.os) (c.pipe_opens t.os)))
          s)
  ]

  -- `compat_socketpair`: on success it has opened two different descriptors that were closed, and no
  -- other; on failure none, and `errno` is the error of a call that opens or sets flags. The signal mask
  -- is the old one.
  pub compat_socketpair-LeavesTwo :
      (domain type protocol : ℕ) (s : Machine W)
      → LeavesTwo v s (compat_socketpair k o domain type protocol s)
  unfolding compat_socketpair open_two
  compat_socketpair-LeavesTwo domain type protocol s = elim (Bool-cases o.have_sock_flags) [
    | inl h ↦ rw h (
        answer-LeavesTwo v k o c s (o.socketpair domain type protocol s.os)
          (c.socketpair_opens domain type protocol s.os))
    | inr h ↦ rw h (
        let plain = plain_type k o type in
        let body = set_both k o (has type k.sock_cloexec) (has type k.sock_nonblock) in
        with_blocked-LeavesTwo v k o c
          (open_two k o (call (o.socketpair domain plain protocol)) body)
          (λ t.
            opened_two v k o c body t (call (o.socketpair domain plain protocol) t)
              (set_both-LeavesNone v k o c (has type k.sock_cloexec) (has type k.sock_nonblock))
              (answer-LeavesTwo v k o c t (o.socketpair domain plain protocol t.os)
                (c.socketpair_opens domain plain protocol t.os)))
          s)
  ]

  compat_socket-LeavesOne :
      (domain type protocol : ℕ) (s : Machine W)
      → LeavesOne v {A = ℕ} (λ a. a) s (compat_socket k o domain type protocol s)
  unfolding compat_socket open_one
  compat_socket-LeavesOne domain type protocol s = elim (Bool-cases o.have_sock_flags) [
    | inl h ↦ rw h (
        answer-LeavesOne v k o c {A = ℕ} (λ a. a) s (o.socket domain type protocol s.os)
          (c.socket_opens domain type protocol s.os))
    | inr h ↦ rw h (
        let plain = plain_type k o type in
        let body = set_one k o (has type k.sock_cloexec) (has type k.sock_nonblock) in
        with_blocked-LeavesOne v k o c {A = ℕ} (λ a. a)
          (open_one k o (call (o.socket domain plain protocol)) body)
          (λ t.
            opened_one v k o c {A = ℕ} (λ a. a) body t (call (o.socket domain plain protocol) t)
              (set_one-LeavesNone v k o c (has type k.sock_cloexec) (has type k.sock_nonblock))
              (answer-LeavesOne v k o c {A = ℕ} (λ a. a) t (o.socket domain plain protocol t.os)
                (c.socket_opens domain plain protocol t.os)))
          s)
  ]

  compat_accept4-LeavesOne :
      (socket flags : ℕ) (s : Machine W)
      → LeavesOne v {A = ℕ} (λ a. a) s (compat_accept4 k o socket flags s)
  unfolding compat_accept4 open_one
  compat_accept4-LeavesOne socket flags s = elim (Bool-cases o.have_accept4) [
    | inl h ↦ rw h (
        answer-LeavesOne v k o c {A = ℕ} (λ a. a) s (o.accept4 socket flags s.os)
          (c.accept4_opens socket flags s.os))
    | inr h ↦ rw h (
        let body = set_one k o (has flags k.sock_cloexec) (has flags k.sock_nonblock) in
        with_blocked-LeavesOne v k o c {A = ℕ} (λ a. a) (open_one k o (call (o.accept socket)) body)
          (λ t.
            opened_one v k o c {A = ℕ} (λ a. a) body t (call (o.accept socket) t)
              (set_one-LeavesNone v k o c (has flags k.sock_cloexec) (has flags k.sock_nonblock))
              (answer-LeavesOne v k o c {A = ℕ} (λ a. a) t (o.accept socket t.os)
                (c.accept_opens socket t.os)))
          s)
  ]

  -- `compat_socket` and `compat_accept4`: on success the call has opened one descriptor that was closed,
  -- and no other; on failure none, and `errno` is the error of a call that opens or sets flags. The
  -- signal mask is the old one.
  pub sockets-LeavesOne :
      (domain type protocol socket flags : ℕ) (s : Machine W)
      → LeavesOne v {A = ℕ} (λ a. a) s (compat_socket k o domain type protocol s)
        × LeavesOne v {A = ℕ} (λ a. a) s (compat_accept4 k o socket flags s)
  sockets-LeavesOne domain type protocol socket flags s =
      (compat_socket-LeavesOne domain type protocol s, compat_accept4-LeavesOne socket flags s)

  -- The destructor of the temporary file.
  answer_keeps :
      (name : List ℕ) (s : Machine W) (r : Reply Unit × W)
      → Same v s.os r.1
      → Same v s.os (answer s r).1.os
  answer_keeps name s (done u, w) h = h
  answer_keeps name s (failed e, w) h = h

  scoped_file-LeavesNone :
      (name : List ℕ) (s : Machine W) (r : Result W Unit)
      → LeavesNone v s r
      → LeavesNone v s (end_scoped_file k o name r)
  unfolding unlink_file
  scoped_file-LeavesNone name s (some u, t) h = h
  scoped_file-LeavesNone name s (none, t) h =
      let (p, q) = settle-Same v k o c t.errno (call (o.unlink name) t) in
      let u = answer_keeps name t (o.unlink name t.os) (c.unlink_same name t.os) in
      (Same-trans v h.0 (Same-trans v u p), subst v.Reported (sym q) h.1)

  set_file-LeavesNone : (flags fd : ℕ) (s : Machine W) → LeavesNone v s (set_file k o flags fd s)
  unfolding set_file
  set_file-LeavesNone flags fd =
      let kept = bit_and flags (bit_or k.o_append k.o_sync) in
      let m =
        (call (k.fcntl fd f_getfl 0) >>= λ r.
        call (k.fcntl fd f_setfl (bit_or r kept)) >>= λ _. ret tt) in
      both-LeavesNone v k o c (when (has flags k.o_cloexec) (coe_on k fd))
        (when (if kept == 0 then false else true) m)
        (when-LeavesNone v (has flags k.o_cloexec) (coe_on k fd) (coe_on-LeavesNone v k o c fd))
        (when-LeavesNone v (if kept == 0 then false else true) m
          (update-LeavesNone v k o c fd f_getfl f_setfl (λ r. bit_or r kept)))

  -- `compat_mkostemp`: on success it has opened the descriptor of the file, and no other; on failure
  -- none, and `errno` is the error of a call that opens or sets flags, whatever `close` and `unlink` do
  -- in the destructors. The signal mask is the old one.
  pub compat_mkostemp-LeavesOne :
      (tmpl : List ℕ) (flags : ℕ) (s : Machine W)
      → LeavesOne v {A = ℕ × List ℕ} (λ a. a.0) s (compat_mkostemp k o tmpl flags s)
  unfolding compat_mkostemp scoped_file
  compat_mkostemp-LeavesOne tmpl flags s = elim (Bool-cases o.have_mkostemp) [
    | inl h ↦ rw h (
        answer-LeavesOne v k o c {A = ℕ × List ℕ} (λ a. a.0) s (o.mkostemp tmpl flags s.os)
          (c.mkostemp_opens tmpl flags s.os))
    | inr h ↦ rw h (
        let body : ℕ × List ℕ → Action W Unit = λ f. scoped_file k o f.1 (set_file k o flags f.0) in
        with_blocked-LeavesOne v k o c {A = ℕ × List ℕ} (λ a. a.0)
          (call (o.mkstemp tmpl) >>= λ f. owned k f.0 (body f) >>= λ _. ret f)
          (λ t.
            opened_one v k o c {A = ℕ × List ℕ} (λ a. a.0) body t (call (o.mkstemp tmpl) t)
              (λ f u.
                scoped_file-LeavesNone f.1 u (set_file k o flags f.0 u)
                  (set_file-LeavesNone flags f.0 u))
              (answer-LeavesOne v k o c {A = ℕ × List ℕ} (λ a. a.0) t (o.mkstemp tmpl t.os)
                (c.mkstemp_opens tmpl t.os)))
          s)
  ]
