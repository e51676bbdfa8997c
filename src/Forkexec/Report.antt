-- ===== src/Forkexec/Report.antt =====
-- src/lib/forkexec.cpp: what the parent of a `forkexec` is told of its child.
use dromozoa_unix.Prelude.{ℕ, ◌<◌, ◌≢◌, ◌∙◌, Bool, none, some, Bool-cases, inl, inr}
use dromozoa_unix.Pathexec.{Outcome, replaced, returned, pathexec_buffer_size}
use dromozoa_unix.Pathexec.Search.{NoNul}
use dromozoa_unix.Fd.{
  Reply, done, failed, Machine, Kernel, Result, answer, and_then, pthread_code, sigprocmask_code,
  unless_minus_one, compat_sigmask, sigmask_unblock_all_signals,
}
use dromozoa_unix.Fd.Compat.{Openers}
use dromozoa_unix.Forkexec.{
  Processes, ForkexecImpl, Program, Step, running, over, ◌>=>◌, or_die, must, change_directory,
  dup_stdio, dup_null, prepare, after_pathexec, run_program, exec_program, buffer_of,
}
use dromozoa_unix.Forkexec.Laws.{PipeView, SamePipes, Fails, PipeContract}
use dromozoa_unix.Forkexec.Ends.{SamePipes-trans, Ends, NoNul?, pathexec-Ends}
use dromozoa_unix.Forkexec.Child.{
  IsSilent, Tells, Keeps, die-Tells, IsSilent-SamePipes, seq-Keeps, change_directory-Keeps,
  dup_stdio-Keeps, dup_null-Keeps,
}

module _ {W : Type 0} (v : PipeView W) (k : Kernel W) (o : Openers W) (p : Processes W)
    (c : PipeContract v k o p) where
  -- A result that has changed no pipe, and whose error is not 0.
  abbrev Quiet : {A : Type 0} → W → Result W A → Type 0
  Quiet w (some a, s) = SamePipes v w s.os
  Quiet w (none, s) = SamePipes v w s.os × (s.errno ≢ 0)

  pthread_code-Quiet :
      (old : ℕ) (s : Machine W) (w : W) (r : Reply ℕ × W)
      → SamePipes v w r.1
      → Quiet w (unless_minus_one k (pthread_code k old s r))
  pthread_code-Quiet old s w (done before, w') h = h
  pthread_code-Quiet old s w (failed e, w') h = h

  sigprocmask_code-Quiet :
      (old : ℕ) (s : Machine W) (w : W) (r : Reply ℕ × W)
      → SamePipes v w r.1
      → Fails v r.0
      → Quiet w (unless_minus_one k (sigprocmask_code k old s r))
  sigprocmask_code-Quiet old s w (done before, w') h z = h
  sigprocmask_code-Quiet old s w (failed e, w') h z = (h, z)

  compat_sigmask-Quiet :
      (m old : ℕ) (s : Machine W) (w : W)
      → SamePipes v w s.os
      → Quiet w (unless_minus_one k (compat_sigmask k m old s))
  unfolding compat_sigmask
  compat_sigmask-Quiet m old s w h = elim (Bool-cases k.have_pthread) [
    | inl e ↦
        rw (e, Quiet)
          (pthread_code-Quiet old s w (k.pthread_sigmask m s.os)
            (SamePipes-trans v h (c.pthread_same m s.os)))
    | inr e ↦
        let l = c.sigprocmask_same m s.os in
        rw (e, Quiet)
          (sigprocmask_code-Quiet old s w (k.sigprocmask m s.os) (SamePipes-trans v h l.0) l.1)
  ]

  mask_from :
      (s : Machine W) (r : Reply ℕ × W)
      → SamePipes v s.os r.1
      → Fails v r.0
      → Quiet s.os (and_then (λ m t. unless_minus_one k (compat_sigmask k m 0 t)) (answer s r))
  mask_from s (failed e, w) h z = (h, z)
  mask_from s (done m, w) h z = compat_sigmask-Quiet m 0 (record s { os = w }) s.os h

  unblock-Quiet : (s : Machine W) → Quiet s.os (sigmask_unblock_all_signals k 0 s)
  unfolding sigmask_unblock_all_signals
  unblock-Quiet s = let l = c.sigemptyset_same s.os in mask_from s (k.sigemptyset s.os) l.0 l.1

  module _ (dw q : ℕ) (high : 2 < dw) where
    Quiet-Keeps :
        {A : Type 0} (impl : ForkexecImpl) (w : W) (r : Result W A)
        → Quiet w r
        → IsSilent v k o p c dw q high impl w
        → Keeps v k o p c dw q high (or_die k o p impl r)
    unfolding or_die
    Quiet-Keeps impl w (some a, t) h i = IsSilent-SamePipes v k o p c dw q high impl w t.os h i
    Quiet-Keeps impl w (none, t) h i =
        die-Tells v k o p c dw q high impl t
          (IsSilent-SamePipes v k o p c dw q high impl w t.os h.0 i) h.1

    unblock-Keeps :
        (impl : ForkexecImpl) (s : Machine W)
        → IsSilent v k o p c dw q high impl s.os
        → Keeps v k o p c dw q high (must k o p (sigmask_unblock_all_signals k 0) impl s)
    unfolding must
    unblock-Keeps impl s h =
        Quiet-Keeps impl s.os (sigmask_unblock_all_signals k 0 s) (unblock-Quiet s) h

    prepare-Keeps :
        (g : Program) (b : Bool) (impl : ForkexecImpl) (s : Machine W)
        → IsSilent v k o p c dw q high impl s.os
        → Keeps v k o p c dw q high (prepare k o p g b impl s)
    unfolding prepare
    prepare-Keeps g b =
        let last = must k o p (sigmask_unblock_all_signals k 0) in
        seq-Keeps v k o p c dw q high (change_directory k o p g.directory)
          (λ _. dup_stdio k o p g.stdio >=> λ _. dup_null k o p b >=> λ _. last)
          (change_directory-Keeps v k o p c dw q high g.directory)
          (λ _.
            seq-Keeps v k o p c dw q high (dup_stdio k o p g.stdio)
              (λ _. dup_null k o p b >=> λ _. last) (dup_stdio-Keeps v k o p c dw q high g.stdio)
              (λ _.
                seq-Keeps v k o p c dw q high (dup_null k o p b) (λ _. last)
                  (dup_null-Keeps v k o p c dw q high b) (λ _. unblock-Keeps)))

    after_pathexec-Tells :
        (impl : ForkexecImpl) (s : Machine W) (r : Outcome W)
        → Ends v k o p c s.os r
        → IsSilent v k o p c dw q high impl s.os
        → Tells v k o p c dw q high (after_pathexec k o p impl s (some r))
    unfolding after_pathexec
    after_pathexec-Tells impl s (replaced w) h i = h.1 q ∙ i.3
    after_pathexec-Tells impl s (returned e w) h i =
        die-Tells v k o p c dw q high impl (record { os = w; errno = e })
          (IsSilent-SamePipes v k o p c dw q high impl s.os w h.0 i) h.1

    run_program-Tells :
        (g : Program) (r : Step W ℕ)
        → NoNul? v k o p c g.path
        → NoNul g.command
        → Keeps v k o p c dw q high r
        → Tells v k o p c dw q high (
            run_program k o p g
              (buffer_of (pathexec_buffer_size g.path g.command))
              (pathexec_buffer_size g.path g.command)
              r)
    unfolding run_program
    run_program-Tells g (over e) hp hc h = h
    run_program-Tells g (running m impl s) hp hc h =
        let (r, e, l) = pathexec-Ends v k o p c g.path g.command s.os hp hc in
        rw e (after_pathexec-Tells impl s r l h)

    pub exec_program-Tells :
        (g : Program) (b : Bool) (impl : ForkexecImpl) (s : Machine W)
        → NoNul? v k o p c g.path
        → NoNul g.command
        → IsSilent v k o p c dw q high impl s.os
        → Tells v k o p c dw q high (exec_program k o p g b impl s)
    unfolding exec_program
    exec_program-Tells g b impl s hp hc h =
        run_program-Tells g (prepare k o p g b impl s) hp hc (prepare-Keeps g b impl s h)
