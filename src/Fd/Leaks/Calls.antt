-- ===== src/Fd/Leaks/Calls.antt =====
-- src/lib/coe.cpp, ndelay.cpp, sigmask.cpp and the destructor of file_descriptor.cpp: what each leaves
-- open.
use dromozoa_unix.Prelude.{
  ℕ, ◌≡◌, refl, sym, ◌∙◌, ap, subst, Bool, true, false, not, ◌&&◌, none, some, ◌==◌, Bool-cases,
  inl, inr,
}
use dromozoa_unix.Prelude.Int.{ℤ, pos, minus_one, eq_ℤ}
use dromozoa_unix.Prelude.Bits.{bit_or}
use dromozoa_unix.Fd.{
  Reply, done, failed, Machine, Kernel, f_getfd, f_setfd, f_getfl, f_setfl, Command, Result, Action,
  ◌>>=◌, and_then, ret, when, answer, call, settle, close, destroy, end_owned, coe_on, ndelay_on,
  pthread_code, sigprocmask_code, unless_minus_one, compat_sigmask, sigmask_block_all_signals,
  restore,
}
use dromozoa_unix.Fd.Compat.{Openers}
use dromozoa_unix.Fd.Laws.{View, Same, SameOpen, Quiet, Masks, LeavesNone, Contract}

module _ {W : Type 0} (v : View W) where
  pub Same-trans : {a b c : W} → Same v a b → Same v b c → Same v a c
  Same-trans p q = (λ n. q.0 n ∙ p.0 n, q.1 ∙ p.1)

  pub answer-LeavesNone :
      {A : Type 0} (s : Machine W) (r : Reply A × W) → Quiet v s.os r → LeavesNone v s (answer s r)
  answer-LeavesNone s (done a, w) h = h
  answer-LeavesNone s (failed e, w) h = h

  after_Same :
      {A : Type 0} (s s' : Machine W) (r : Result W A)
      → Same v s.os s'.os
      → LeavesNone v s' r
      → LeavesNone v s r
  after_Same s s' (some a, s'') p h = Same-trans p h
  after_Same s s' (none, s'') p h = (Same-trans p h.0, h.1)

  pub and_then-LeavesNone :
      {A B : Type 0} (s : Machine W) (r : Result W A) (f : A → Action W B)
      → LeavesNone v s r
      → ((a : A) (s' : Machine W) → LeavesNone v s' (f a s'))
      → LeavesNone v s (and_then f r)
  and_then-LeavesNone s (none, s') f h g = h
  and_then-LeavesNone s (some a, s') f h g = after_Same s s' (f a s') h (g a s')

  pub ret-LeavesNone : {A : Type 0} (a : A) (s : Machine W) → LeavesNone v s (ret {A = A} a s)
  ret-LeavesNone a s = (λ n. refl, refl)

  pub when-LeavesNone :
      (b : Bool) (m : Action W Unit)
      → ((s : Machine W) → LeavesNone v s (m s))
      → (s : Machine W) → LeavesNone v s (when b m s)
  when-LeavesNone true m h s = h s
  when-LeavesNone false m h s = ret-LeavesNone tt s

  -- What is open is closed at the numbers where `keep` is false.
  abbrev pub Loses : (ℕ → Bool) → W → W → Type 0
  Loses keep w w' = ((n : ℕ) → v.opened w' n ≡ (v.opened w n && keep n)) × (v.mask w' ≡ v.mask w)

  -- A failure closes descriptors, success changes nothing.
  abbrev pub LosesOnFailure : {A : Type 0} → (ℕ → Bool) → Machine W → Result W A → Type 0
  LosesOnFailure keep s (some a, s') = Same v s.os s'.os
  LosesOnFailure keep s (none, s') = Loses keep s.os s'.os × v.Reported s'.errno

  and_true : (b : Bool) → b ≡ (b && true)
  and_true true = refl
  and_true false = refl

  pub LeavesNone-LosesOnFailure :
      {A : Type 0} (s : Machine W) (r : Result W A)
      → LeavesNone v s r
      → LosesOnFailure (λ n. true) s r
  LeavesNone-LosesOnFailure s (some a, s') h = h
  LeavesNone-LosesOnFailure s (none, s') h =
      ((λ n. h.0.0 n ∙ and_true (v.opened s.os n), h.0.1), h.1)

  module _ (k : Kernel W) (o : Openers W) (c : Contract v k o) where
    pub settle-Same :
        (saved : ℕ) (r : Result W Unit)
        → Same v r.1.os (settle k.unexpected saved r).os
          × ((settle k.unexpected saved r).errno ≡ saved)
    settle-Same saved (some u, s) = ((λ n. refl, refl), refl)
    settle-Same saved (none, s) = (c.unexpected_quiet s.errno s, refl)

    pub answer_os : {A : Type 0} (s : Machine W) (r : Reply A × W) → (answer s r).1.os ≡ r.1
    answer_os s (done a, w) = refl
    answer_os s (failed e, w) = refl

    -- Flags read, changed and written back.
    pub update-LeavesNone :
        (fd : ℕ) (get put : Command) (g : ℕ → ℕ) (s : Machine W)
        → LeavesNone v s
            ((call (k.fcntl fd get 0) >>= λ r. call (k.fcntl fd put (g r)) >>= λ _. ret tt) s)
    update-LeavesNone fd get put g s =
        and_then-LeavesNone s (call (k.fcntl fd get 0) s)
          (λ r. call (k.fcntl fd put (g r)) >>= λ _. ret tt)
          (answer-LeavesNone s (k.fcntl fd get 0 s.os) (c.fcntl_quiet fd get 0 s.os))
          (λ r s'.
            and_then-LeavesNone s' (call (k.fcntl fd put (g r)) s') (λ _. ret tt)
              (answer-LeavesNone s' (k.fcntl fd put (g r) s'.os) (c.fcntl_quiet fd put (g r) s'.os))
              (λ _ s''. ret-LeavesNone tt s''))

    pub coe_on-LeavesNone : (fd : ℕ) (s : Machine W) → LeavesNone v s (coe_on k fd s)
    unfolding coe_on
    coe_on-LeavesNone fd = update-LeavesNone fd f_getfd f_setfd (λ r. bit_or r k.fd_cloexec)

    pub ndelay_on-LeavesNone : (fd : ℕ) (s : Machine W) → LeavesNone v s (ndelay_on k fd s)
    unfolding ndelay_on
    ndelay_on-LeavesNone fd = update-LeavesNone fd f_getfl f_setfl (λ r. bit_or r k.o_nonblock)

    pub call-Same :
        {A : Type 0} (f : W → Reply A × W) (s : Machine W)
        → Same v s.os (f s.os).1
        → Same v s.os (call f s).1.os
    call-Same f s h =
        let e = answer_os s (f s.os) in (λ n. ap (λ w. v.opened w n) e ∙ h.0 n, ap v.mask e ∙ h.1)

    pub close-Loses :
        (fd : ℕ) (s : Machine W) → Loses (λ n. not (n == fd)) s.os (close k (pos fd) s).1.os
    unfolding close
    close-Loses fd s =
        let e = answer_os s (k.close (pos fd) s.os) in
        let h = c.close_closes fd s.os in (λ n. ap (λ w. v.opened w n) e ∙ h.0 n, ap v.mask e ∙ h.1)

    -- The destructor closes its descriptor, reports what fails, and leaves `errno` as it was.
    pub destroy-Loses :
        (fd : ℕ) (s : Machine W)
        → Loses (λ n. not (n == fd)) s.os (destroy k (pos fd) s).os
          × ((destroy k (pos fd) s).errno ≡ s.errno)
    unfolding destroy close
    destroy-Loses fd s =
        let r = k.close (pos fd) s.os in
        let (p, q) = settle-Same s.errno (answer s r) in
        let e = answer_os s r in
        let h = c.close_closes fd s.os in
        ((λ n. p.0 n ∙ (ap (λ w. v.opened w n) e ∙ h.0 n), p.1 ∙ (ap v.mask e ∙ h.1)), q)

    and_shift : (a b x y : Bool) → b ≡ (a && x) → (b && y) ≡ (a && (x && y))
    and_shift true b x y h = ap (λ z. z && y) h
    and_shift false b x y h = ap (λ z. z && y) h

    -- A scope that owns a descriptor closes it too when it fails.
    pub end_owned-LosesOnFailure :
        {A : Type 0} (fd : ℕ) (keep : ℕ → Bool) (s : Machine W) (r : Result W A)
        → LosesOnFailure keep s r
        → LosesOnFailure (λ n. keep n && not (n == fd)) s (end_owned k fd r)
    unfolding destroy
    end_owned-LosesOnFailure fd keep s (some a, s') h = h
    end_owned-LosesOnFailure fd keep s (none, s') h =
        let (p, q) = destroy-Loses fd s' in
        (
          (
            λ n.
                p.0 n
                ∙ and_shift (v.opened s.os n) (v.opened s'.os n) (keep n) (not (n == fd)) (h.0.0 n),
            p.1 ∙ h.0.1,
          ),
          subst v.Reported (sym q) h.1,
        )

    -- The mask is set, the old one given, and no error is returned.
    abbrev pub Sets : ℕ → Machine W → (ℤ × ℕ) × Machine W → Type 0
    Sets m s ((code, old), s') =
        (eq_ℤ code minus_one ≡ false)
        × (old ≡ v.mask s.os)
        × (v.mask s'.os ≡ m)
        × SameOpen v s.os s'.os
        × (s'.errno ≡ s.errno)

    pthread_code-Sets :
        (m old : ℕ) (s : Machine W) (r : Reply ℕ × W)
        → Masks v m s.os r
        → Sets m s (pthread_code k old s r)
    pthread_code-Sets m old s (done before, w) h = (refl, h.0, h.1, h.2, refl)
    pthread_code-Sets m old s (failed e, w) h = absurd h

    sigprocmask_code-Sets :
        (m old : ℕ) (s : Machine W) (r : Reply ℕ × W)
        → Masks v m s.os r
        → Sets m s (sigprocmask_code k old s r)
    sigprocmask_code-Sets m old s (done before, w) h = (refl, h.0, h.1, h.2, refl)
    sigprocmask_code-Sets m old s (failed e, w) h = absurd h

    pub compat_sigmask-Sets : (m old : ℕ) (s : Machine W) → Sets m s (compat_sigmask k m old s)
    unfolding compat_sigmask
    compat_sigmask-Sets m old s = elim (Bool-cases k.have_pthread) [
      | inl h ↦ rw h (pthread_code-Sets m old s (k.pthread_sigmask m s.os) (c.pthread_masks m s.os))
      | inr h ↦
          rw h (sigprocmask_code-Sets m old s (k.sigprocmask m s.os) (c.sigprocmask_masks m s.os))
    ]

    -- Every signal is blocked, and the old mask kept; or nothing has happened.
    abbrev pub Blocked : Machine W → Result W ℕ → Type 0
    Blocked s (some m, s') = SameOpen v s.os s'.os × (m ≡ v.mask s.os)
    Blocked s (none, s') = Same v s.os s'.os × v.Reported s'.errno

    unless_minus_one-Blocked :
        (m : ℕ) (s0 s : Machine W) (r : (ℤ × ℕ) × Machine W)
        → Same v s0.os s.os
        → Sets m s r
        → Blocked s0 (unless_minus_one k r)
    unless_minus_one-Blocked m s0 s ((code, old), s') h t = rw t.0 (λ n. t.3 n ∙ h.0 n, t.1 ∙ h.1)

    block_from :
        (s : Machine W) (r : Reply ℕ × W)
        → Quiet v s.os r
        → Blocked s (and_then (λ m s'. unless_minus_one k (compat_sigmask k m 0 s')) (answer s r))
    block_from s (failed e, w) h = h
    block_from s (done m, w) h =
        let s' = record s { os = w } in
        unless_minus_one-Blocked m s s' (compat_sigmask k m 0 s') h (compat_sigmask-Sets m 0 s')

    pub sigmask_block_all_signals-Blocked :
        (s : Machine W) → Blocked s (sigmask_block_all_signals k 0 s)
    unfolding sigmask_block_all_signals
    sigmask_block_all_signals-Blocked s = block_from s (k.sigfillset s.os) (c.sigfillset_quiet s.os)

    pub restore-SameOpen :
        (m : ℕ) (s : Machine W)
        → SameOpen v s.os (restore k m s).os
          × (v.mask (restore k m s).os ≡ m)
          × ((restore k m s).errno ≡ s.errno)
    unfolding restore
    restore-SameOpen m s = let t = compat_sigmask-Sets m 0 s in rw t.0 (t.3, t.2, refl)
