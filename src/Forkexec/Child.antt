-- ===== src/Forkexec/Child.antt =====
-- src/lib/forkexec.cpp: what a child writes to the pipe that it was given before it ends.
use dromozoa_unix.Prelude.{
  ℕ, ◌<◌, ◌≡◌, ◌≢◌, refl, sym, ap, ◌∙◌, arith, Bool, true, false, Option, none, some, List,
  Bool-cases, inl, inr,
}
use dromozoa_unix.Prelude.Int.{ℤ, pos, pos_part, minus_one, eq_ℤ}
use dromozoa_unix.Fd.{
  Reply, done, failed, Machine, Kernel, Result, answer, call, close, destroy, settle,
}
use dromozoa_unix.Fd.Compat.{Openers}
use dromozoa_unix.Forkexec.{
  Processes, ForkexecImpl, End, started, died, ended, overrun, Step, running, over, Child, go_on,
  ◌>=>◌, destroy_members, close_stdio, die, or_die, must, change_directory, dup_one, dup_stdio,
  set_null, dup_from_null, close_null, dup_null,
}
use dromozoa_unix.Forkexec.Ends.{SamePipes-refl, call_os}
use dromozoa_unix.Forkexec.Laws.{
  PipeView, SamePipes, SameContent, SameBut, Fails, OpensNull, PipeContract,
}

module _ {W : Type 0} (v : PipeView W) (k : Kernel W) (o : Openers W) (p : Processes W)
    (c : PipeContract v k o p) where
  -- A descriptor is let go of, if it is one.
  abbrev pub LosesEnd : ℤ → W → W → Type 0
  LosesEnd fd w w' = ((n : ℕ) → pos n ≢ fd → v.pipe_of w' n ≡ v.pipe_of w n) × SameContent v w w'

  pub close_Same : (fd : ℤ) (s : Machine W) → LosesEnd fd s.os (close k fd s).1.os
  unfolding close
  close_Same fd s =
      let e = call_os v (k.close fd) s in
      let h = c.close_same fd s.os in
      (λ n d. ap (λ w. v.pipe_of w n) e ∙ h.0 n d, λ q. ap (λ w. v.content w q) e ∙ h.1 q)

  pub settle_Same :
      (saved : ℕ) (r : Result W Unit) → SamePipes v r.1.os (settle k.unexpected saved r).os
  settle_Same saved (some u, s) = SamePipes-refl v s.os
  settle_Same saved (none, s) = c.unexpected_same s.errno s

  pub destroy_Same : (fd : ℤ) (s : Machine W) → LosesEnd fd s.os (destroy k fd s).os
  unfolding destroy
  destroy_Same fd s = elim (Bool-cases (eq_ℤ fd minus_one)) [
    | inl nothing ↦ rw nothing (λ n d. refl, λ q. refl)
    | inr held ↦
        let h = close_Same fd s in
        let g = settle_Same s.errno (close k fd s) in
        rw held (λ n d. g.0 n ∙ h.0 n d, λ q. g.1 q ∙ h.1 q)
  ]

  destroy_members_content :
      (impl : ForkexecImpl) (s : Machine W) → SameContent v s.os (destroy_members k o p impl s).os
  unfolding destroy_members
  destroy_members_content impl s q =
      let s1 = destroy k impl.null_fd s in
      let s2 = destroy k impl.pid_writer s1 in
      let s3 = destroy k impl.pid_reader s2 in
      let s4 = destroy k impl.die_writer s3 in
      (destroy_Same impl.die_reader s4).1 q
      ∙ ((destroy_Same impl.die_writer s3).1 q
          ∙ ((destroy_Same impl.pid_reader s2).1 q
              ∙ ((destroy_Same impl.pid_writer s1).1 q ∙ (destroy_Same impl.null_fd s).1 q)))

  module _ (dw q : ℕ) (high : 2 < dw) where
    -- The child still has the writer, and has written nothing.
    abbrev pub IsSilent : ForkexecImpl → W → Type 0
    IsSilent impl w =
        (impl.die_writer ≡ pos dw)
        × (impl.null_fd ≢ pos dw)
        × (v.pipe_of w dw ≡ some q)
        × (v.content w q ≡ none)

    -- A child ends with a new program and an empty pipe, or it has written its error, which is not 0.
    abbrev pub Tells : End W → Type 0
    Tells (started w) = v.content w q ≡ none
    Tells (died e w) = (v.content w q ≡ some e) × (e ≢ 0)
    Tells (ended w) = ⊥
    Tells (overrun w) = ⊥

    abbrev pub Keeps : {A : Type 0} → Step W A → Type 0
    Keeps (running a impl s) = IsSilent impl s.os
    Keeps (over e) = Tells e

    pub go_on-Keeps :
        {A B : Type 0} (f : A → Child W B) (r : Step W A)
        → Keeps r
        → ((a : A) (impl : ForkexecImpl) (s : Machine W) → IsSilent impl s.os → Keeps (f a impl s))
        → Keeps (go_on f r)
    go_on-Keeps f (running a impl s) h g = g a impl s h
    go_on-Keeps f (over e) h g = h

    pub die-Tells :
        (impl : ForkexecImpl) (s : Machine W)
        → IsSilent impl s.os
        → s.errno ≢ 0
        → Tells (die k o p impl s)
    unfolding die close_stdio
    die-Tells impl s h e =
        let t = (call (p.write_int impl.die_writer s.errno) s).1 in
        let w : v.content t.os q ≡ some s.errno =
          rw (call_os v (p.write_int impl.die_writer s.errno) s, h.0)
            (c.write_writes dw q s.errno s.os h.2 h.3) in
        let t0 = (close k (pos 0) t).1 in
        let t1 = (close k (pos 1) t0).1 in
        let t2 = (close k (pos 2) t1).1 in
        (
          (destroy_members_content impl t2 q)
              ∙ ((close_Same (pos 2) t1).1 q
                  ∙ ((close_Same (pos 1) t0).1 q ∙ ((close_Same (pos 0) t).1 q ∙ w))),
          e,
        )

    pub IsSilent-SamePipes :
        (impl : ForkexecImpl) (w w' : W) → SamePipes v w w' → IsSilent impl w → IsSilent impl w'
    IsSilent-SamePipes impl w w' e h = (h.0, h.1, e.0 dw ∙ h.2, e.1 q ∙ h.3)

    pub or_die-Keeps :
        {A : Type 0} (impl : ForkexecImpl) (s : Machine W) (r : Reply A × W)
        → IsSilent impl r.1
        → Fails v r.0
        → Keeps (or_die k o p impl (answer s r))
    unfolding or_die
    or_die-Keeps impl s (done a, w) h z = h
    or_die-Keeps impl s (failed e, w) h z = die-Tells impl (record { os = w; errno = e }) h z

    pub seq-Keeps :
        {A B : Type 0} (m : Child W A) (f : A → Child W B)
        → ((impl : ForkexecImpl) (s : Machine W) → IsSilent impl s.os → Keeps (m impl s))
        → ((a : A) (impl : ForkexecImpl) (s : Machine W) → IsSilent impl s.os → Keeps (f a impl s))
        → (impl : ForkexecImpl) (s : Machine W) → IsSilent impl s.os
        → Keeps ((m >=> f) impl s)
    seq-Keeps m f h g impl s i = go_on-Keeps f (m impl s) (h impl s i) g

    IsSilent-SameBut :
        (n : ℕ) (impl : ForkexecImpl) (w w' : W)
        → dw ≢ n
        → SameBut v n w w'
        → IsSilent impl w
        → IsSilent impl w'
    IsSilent-SameBut n impl w w' d e h = (h.0, h.1, e.0 dw d ∙ h.2, e.1 q ∙ h.3)

    pub change_directory-Keeps :
        (d : Option (List ℕ)) (impl : ForkexecImpl) (s : Machine W)
        → IsSilent impl s.os
        → Keeps (change_directory k o p d impl s)
    unfolding change_directory must
    change_directory-Keeps none impl s h = h
    change_directory-Keeps (some d) impl s h =
        let e = c.chdir_same d s.os in
        or_die-Keeps impl s (p.chdir d s.os) (IsSilent-SamePipes impl s.os (p.chdir d s.os).1 e.0 h)
          e.1

    dup2-Keeps :
        (fd : ℤ) (to : ℕ) (impl : ForkexecImpl) (s : Machine W)
        → to < 3
        → IsSilent impl s.os
        → Keeps (must k o p (call (p.dup2 fd to)) impl s)
    unfolding must
    dup2-Keeps fd to impl s l h =
        let e = c.dup2_same fd to s.os in
        or_die-Keeps impl s (p.dup2 fd to s.os)
          (IsSilent-SameBut to impl s.os (p.dup2 fd to s.os).1 (omega arith) e.0 h) e.1

    dup_one-Keeps :
        (fd : ℤ) (to : ℕ)
        → to < 3
        → (impl : ForkexecImpl) (s : Machine W) → IsSilent impl s.os
        → Keeps (dup_one k o p fd to impl s)
    unfolding dup_one
    dup_one-Keeps fd to l impl s h = elim (Bool-cases (eq_ℤ fd minus_one)) [
      | inl nothing ↦ rw (nothing, Keeps) h
      | inr given ↦ rw (given, Keeps) (dup2-Keeps fd to impl s l h)
    ]

    pub dup_stdio-Keeps :
        (t : ℤ × ℤ × ℤ) (impl : ForkexecImpl) (s : Machine W)
        → IsSilent impl s.os
        → Keeps (dup_stdio k o p t impl s)
    unfolding dup_stdio
    dup_stdio-Keeps (x, y, z) =
        seq-Keeps (dup_one k o p x 0) (λ _. dup_one k o p y 1 >=> λ _. dup_one k o p z 2)
          (dup_one-Keeps x 0 (omega arith))
          (λ _.
            seq-Keeps (dup_one k o p y 1) (λ _. dup_one k o p z 2) (dup_one-Keeps y 1 (omega arith))
              (λ _. dup_one-Keeps z 2 (omega arith)))

    dup_from_null-Keeps :
        (to : ℕ)
        → to < 3
        → (impl : ForkexecImpl) (s : Machine W) → IsSilent impl s.os
        → Keeps (dup_from_null k o p to impl s)
    unfolding dup_from_null must
    dup_from_null-Keeps to l impl s h = dup2-Keeps impl.null_fd to impl s l h

    close_null-Keeps :
        (impl : ForkexecImpl) (s : Machine W) → IsSilent impl s.os → Keeps (close_null k o p impl s)
    unfolding close_null
    close_null-Keeps impl s h =
        let e = close_Same impl.null_fd s in (h.0, cc, e.0 dw (λ x. h.1 (sym x)) ∙ h.2, e.1 q ∙ h.3)

    -- What follows the opening of the null device.
    abbrev after_null : Child W Unit
    unfolding dup_from_null close_null must
    after_null = dup_from_null k o p 0 >=> λ _.
        dup_from_null k o p 1 >=> λ _. dup_from_null k o p 2 >=> λ _. close_null k o p

    after_null-Keeps :
        (impl : ForkexecImpl) (s : Machine W) → IsSilent impl s.os → Keeps (after_null impl s)
    unfolding after_null
    after_null-Keeps =
        seq-Keeps (dup_from_null k o p 0)
          (λ _. dup_from_null k o p 1 >=> λ _. dup_from_null k o p 2 >=> λ _. close_null k o p)
          (dup_from_null-Keeps 0 (omega arith))
          (λ _.
            seq-Keeps (dup_from_null k o p 1) (λ _. dup_from_null k o p 2 >=> λ _. close_null k o p)
              (dup_from_null-Keeps 1 (omega arith))
              (λ _.
                seq-Keeps (dup_from_null k o p 2) (λ _. close_null k o p)
                  (dup_from_null-Keeps 2 (omega arith)) (λ _. close_null-Keeps)))

    opened_null-Keeps :
        (impl : ForkexecImpl) (s : Machine W) (r : Reply ℕ × W)
        → IsSilent impl s.os
        → OpensNull v s.os r
        → Keeps
            (go_on (λ fd. set_null k o p fd >=> λ _. after_null) (or_die k o p impl (answer s r)))
    unfolding or_die set_null
    opened_null-Keeps impl s (failed e, w) h l =
        die-Tells impl (record { os = w; errno = e }) (IsSilent-SamePipes impl s.os w l.0 h) l.1
    opened_null-Keeps impl s (done fd, w) h l =
        let other : fd ≢ dw =
          λ (x : fd ≡ dw). none-ne-some (sym l.0 ∙ (ap (v.pipe_of s.os) x ∙ h.2)) in
        let t = record s { os = w } in
        let e = destroy_Same impl.null_fd t in
        after_null-Keeps (record impl { null_fd = pos fd }) (destroy k impl.null_fd t)
          (
            h.0,
            λ x. other (ap pos_part x),
            e.0 dw (λ x. h.1 (sym x)) ∙ (l.1.0 dw (λ x. other (sym x)) ∙ h.2),
            e.1 q ∙ (l.1.1 q ∙ h.3),
          )
      where
        none-ne-some : {A : Type 0} {a : A} → ◌≡◌ {A = Option A} none (some a) → ⊥
        none-ne-some e = cc

    pub dup_null-Keeps :
        (b : Bool) (impl : ForkexecImpl) (s : Machine W)
        → IsSilent impl s.os
        → Keeps (dup_null k o p b impl s)
    unfolding dup_null after_null
    dup_null-Keeps false impl s h = h
    dup_null-Keeps true impl s h =
        opened_null-Keeps impl s (p.open_null s.os) h (c.open_null_opens s.os)
