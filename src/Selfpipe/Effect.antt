-- ===== src/Selfpipe/Effect.antt =====
-- src/lib/selfpipe.cpp: what `selfpipe_open` and `selfpipe_close` do to the variables of the file and to
-- the descriptors of the process.
use dromozoa_unix.Prelude.{
  ℕ, ◌≡◌, refl, sym, ap, ◌∙◌, Bool, true, false, not, ◌&&◌, ◌||◌, none, some, List, [], ◌∷◌, ◌==◌,
  ◌⊎◌, Bool-cases, inl, inr, if◌then◌else◌,
}
use dromozoa_unix.Prelude.Int.{ℤ, pos, minus_one}
use dromozoa_unix.Fd.{
  Machine, Kernel, Result, call, close, ndelay_on, restore, sigmask_block_all_signals,
}
use dromozoa_unix.Fd.Compat.{Openers, compat_pipe2}
use dromozoa_unix.Fd.Laws.{View, Same, SameOpen, GainsTwo, LeavesNone, LeavesTwo, Contract}
use dromozoa_unix.Fd.Leaks.{compat_pipe2-LeavesTwo}
use dromozoa_unix.Fd.Leaks.Calls.{
  Same-trans, call-Same, close-Loses, ndelay_on-LeavesNone, Blocked,
  sigmask_block_all_signals-Blocked, restore-SameOpen,
}
use dromozoa_unix.Fd.Leaks.Pair.{destroy_pair, destroy_pair-Same}
use dromozoa_unix.Fd.Leaks.Sets.{GainsTwo-Same}
use dromozoa_unix.Selfpipe.{
  Signals, Selfpipe, initial, Outcome, returned, thrown, terminated, member, erase, is_empty,
  report, with_os, destroy_two, after_thread, after_sigaction, after_ndelay, after_pipe,
  open_blocked, leave, blocked, selfpipe_open, after_join, stop, close_blocked, selfpipe_close,
}

-- What the documented calls for signals and threads leave as it was.
pub record SignalContract {W : Type 0} (v : View W) (p : Signals W) : Type 0 where
  pub trigger_same : (w : W) → Same v w (p.sigaction_trigger w).1
  pub set_same : (sa : ℕ) (w : W) → Same v w (p.sigaction_set sa w).1
  pub create_same : (w : W) → Same v w (p.create_thread w).1
  pub join_same : (w : W) → Same v w (p.join_thread w).1

-- No thread, and no pipe; or a thread with both ends of its pipe.
abbrev pub idle : ℕ → Selfpipe
idle sa = record initial { save_sa = sa }

abbrev pub busy : ℕ → ℕ → ℕ → List ℤ → Selfpipe
busy a b sa xs = record {
  thread = true;
  reader = pos a;
  writer = pos b;
  save_sa = sa;
  subscribers = xs;
}

-- The thread and its pipe are there just as long as there are subscribers.
pub data IsConsistent : Selfpipe → Type 0 where
  resting : (sa : ℕ) → IsConsistent (idle sa)
  serving : (a b sa : ℕ) (x : ℤ) (xs : List ℤ) → IsConsistent (busy a b sa (x ∷ xs))

module _ {W : Type 0} (v : View W) where
  abbrev pub LosesTwo : W → ℕ → ℕ → W → Type 0
  LosesTwo w a b w' =
      ((n : ℕ) → v.opened w' n ≡ ((v.opened w n && not (n == b)) && not (n == a)))
      × (v.mask w' ≡ v.mask w)

  -- The descriptors of the process change as the variables do: a pipe comes with the thread and goes
  -- with it, and is the only one that does.
  abbrev pub Accounts : Selfpipe → W → Selfpipe → W → Type 0
  Accounts g w g' w' =
      ((g'.thread ≡ g.thread) × (g'.reader ≡ g.reader) × (g'.writer ≡ g.writer) × Same v w w')
      ⊎ (((g.thread ≡ false)
            × (a : ℕ) × (b : ℕ) × (g'.thread ≡ true)
            × (g'.reader ≡ pos a)
            × (g'.writer ≡ pos b)
            × GainsTwo v w a b w')
          ⊎ ((g.thread ≡ true)
              × (a : ℕ) × (b : ℕ) × (g.reader ≡ pos a)
              × (g.writer ≡ pos b)
              × (g'.thread ≡ false)
              × LosesTwo w a b w'))

  -- How a call ends from `g`: success with these subscribers, or a failure that leaves them; and the end
  -- of the program only where a join throws.
  abbrev pub Effect : Selfpipe → List ℤ → W → Outcome × Selfpipe × Machine W → Type 0
  Effect g xs w (returned (some u), g', s) =
      IsConsistent g' × (g'.subscribers ≡ xs) × Accounts g w g' s.os
  Effect g xs w (returned none, g', s) = (g' ≡ g) × Same v w s.os
  Effect g xs w (thrown, g', s) =
      IsConsistent g' × (g'.subscribers ≡ g.subscribers) × Accounts g w g' s.os
  Effect g xs w (terminated, g', s) = g'.subscribers ≡ []

module _ {W : Type 0} (v : View W) (k : Kernel W) (o : Openers W) (p : Signals W)
    (c : Contract v k o) (d : SignalContract v p) where
  report-Same : (r : Result W Unit) → Same v r.1.os (report k o p r).os
  report-Same (some u, s) = (λ n. refl, refl)
  report-Same (none, s) = c.unexpected_quiet s.errno s

  destroy_two-Same :
      (w : W) (a b : ℕ) (s : Machine W)
      → GainsTwo v w a b s.os
      → Same v w (destroy_two k o p a b s).os
  unfolding destroy_two destroy_pair
  destroy_two-Same w a b s h = destroy_pair-Same v k o c w a b s h

  -- The pipe is there, the thread is not yet.
  abbrev pending : ℕ → ℕ → ℕ → Selfpipe
  pending a b sa = record (idle sa) { reader = pos a; writer = pos b }

  module _ (x : ℤ) (sa : ℕ) (w : W) (a b : ℕ) where
    after_thread-Effect :
        (old : ℕ) (r : Bool × Machine W)
        → GainsTwo v w a b r.1.os
        → Effect v (idle sa) (x ∷ []) w (after_thread k o p x (pending a b old) a b r)
    unfolding after_thread
    after_thread-Effect old (true, s) h =
        (serving a b old x [], refl, inr (inl (refl, a, b, refl, refl, refl, h)))
    after_thread-Effect old (false, s) h =
        let t = report k o p (call (p.sigaction_set old) s) in
        let e =
          Same-trans v (call-Same v k o c (p.sigaction_set old) s (d.set_same old s.os))
            (report-Same (call (p.sigaction_set old) s)) in
        (
          resting old,
          refl,
          inl (refl, refl, refl, destroy_two-Same w a b t (GainsTwo-Same v w s.os t.os a b h e)),
        )

    after_sigaction-Effect :
        (r : Result W ℕ)
        → GainsTwo v w a b r.1.os
        → Effect v (idle sa) (x ∷ []) w (after_sigaction k o p x (pending a b sa) a b r)
    unfolding after_sigaction
    after_sigaction-Effect (none, s) h = (refl, destroy_two-Same w a b s h)
    after_sigaction-Effect (some old, s) h =
        after_thread-Effect old (with_os k o p s (p.create_thread s.os))
          (GainsTwo-Same v w s.os (p.create_thread s.os).1 a b h (d.create_same s.os))

    after_ndelay-Effect :
        (s : Machine W) (r : Result W Unit)
        → GainsTwo v w a b s.os
        → LeavesNone v s r
        → Effect v (idle sa) (x ∷ []) w (after_ndelay k o p x (idle sa) a b r)
    unfolding after_ndelay
    after_ndelay-Effect s (none, t) h l =
        (refl, destroy_two-Same w a b t (GainsTwo-Same v w s.os t.os a b h l.0))
    after_ndelay-Effect s (some u, t) h l = after_sigaction-Effect (call p.sigaction_trigger t) (
        GainsTwo-Same v w s.os (call p.sigaction_trigger t).1.os a b h
          (Same-trans v l (call-Same v k o c p.sigaction_trigger t (d.trigger_same t.os))))

  after_pipe-Effect :
      (x : ℤ) (sa : ℕ) (s : Machine W) (r : Result W (ℕ × ℕ))
      → LeavesTwo v s r
      → Effect v (idle sa) (x ∷ []) s.os (after_pipe k o p x (idle sa) r)
  unfolding after_pipe
  after_pipe-Effect x sa s (none, t) l = (refl, l.0)
  after_pipe-Effect x sa s (some (a, b), t) l =
      after_ndelay-Effect x sa s.os a b t (ndelay_on k b t) l (ndelay_on-LeavesNone v k o c b t)

  open_blocked-Effect :
      (x : ℤ) (g : Selfpipe) (s : Machine W)
      → IsConsistent g
      → Effect v g (x ∷ g.subscribers) s.os (open_blocked k o p x g s)
  unfolding open_blocked
  open_blocked-Effect x g s (resting sa) =
      after_pipe-Effect x sa s (compat_pipe2 k o k.o_cloexec s)
        (compat_pipe2-LeavesTwo v k o c k.o_cloexec s)
  open_blocked-Effect x g s (serving a b sa y ys) = elim (Bool-cases (member x (y ∷ ys))) [
    | inl known ↦ rw (known, Effect) (refl, (λ n. refl, refl))
    | inr new ↦
        rw (new, Effect)
          (serving a b sa x (y ∷ ys), refl, inl (refl, refl, refl, (λ n. refl, refl)))
  ]

  -- The scope that blocks the signals adds nothing to the effect of its body.
  Accounts-moved :
      (g g' : Selfpipe) (w w1 w2 w3 : W)
      → SameOpen v w w1
      → SameOpen v w2 w3
      → v.mask w3 ≡ v.mask w
      → Accounts v g w1 g' w2
      → Accounts v g w g' w3
  Accounts-moved g g' w w1 w2 w3 h l m (inl (t, r, u, e)) =
      inl (t, r, u, (λ n. l n ∙ (e.0 n ∙ h n), m))
  Accounts-moved g g' w w1 w2 w3 h l m (inr (inl (t, a, b, t', r, u, e))) = inr (
      inl (
        t,
        a,
        b,
        t',
        r,
        u,
        (
          e.0,
          sym (h a) ∙ e.1,
          sym (h b) ∙ e.2,
          λ n. l n ∙ (e.3 n ∙ ap (λ z. z || (n == a || n == b)) (h n)),
          m,
        ),
      ))
  Accounts-moved g g' w w1 w2 w3 h l m (inr (inr (t, a, b, r, u, t', e))) = inr (
      inr (
        t,
        a,
        b,
        r,
        u,
        t',
        (λ n. l n ∙ (e.0 n ∙ ap (λ z. (z && not (n == b)) && not (n == a)) (h n)), m),
      ))

  leave-Effect :
      (g : Selfpipe) (xs : List ℤ) (s s' : Machine W) (m : ℕ) (r : Outcome × Selfpipe × Machine W)
      → SameOpen v s.os s'.os
      → m ≡ v.mask s.os
      → Effect v g xs s'.os r
      → Effect v g xs s.os (leave k o p m r)
  unfolding leave
  leave-Effect g xs s s' m (returned (some u), g', t) h l e =
      let q = restore-SameOpen v k o c m t in
      (e.0, e.1, Accounts-moved g g' s.os s'.os t.os (restore k m t).os h q.0 (q.1 ∙ l) e.2)
  leave-Effect g xs s s' m (returned none, g', t) h l e =
      let q = restore-SameOpen v k o c m t in (e.0, (λ n. q.0 n ∙ (e.1.0 n ∙ h n), q.1 ∙ l))
  leave-Effect g xs s s' m (thrown, g', t) h l e =
      let q = restore-SameOpen v k o c m t in
      (e.0, e.1, Accounts-moved g g' s.os s'.os t.os (restore k m t).os h q.0 (q.1 ∙ l) e.2)
  leave-Effect g xs s s' m (terminated, g', t) h l e = e

  blocked-Effect :
      (body : Selfpipe → Machine W → Outcome × Selfpipe × Machine W) (g : Selfpipe) (xs : List ℤ)
      (s : Machine W) (r : Result W ℕ)
      → ((t : Machine W) → Effect v g xs t.os (body g t))
      → Blocked v k o c s r
      → Effect v g xs s.os (blocked k o p body g r)
  unfolding blocked
  blocked-Effect body g xs s (none, t) h b = (refl, b.0)
  blocked-Effect body g xs s (some m, t) h b = leave-Effect g xs s t m (body g t) b.0 b.1 (h t)

  after_join-Effect :
      (a b sa : ℕ) (y : ℤ) (ys : List ℤ) (w t : W) (r : Bool × Machine W)
      → ((n : ℕ) → v.opened t n ≡ (v.opened w n && not (n == b))) × (v.mask t ≡ v.mask w)
      → Same v t r.1.os
      → Effect v
          (busy a b sa (y ∷ ys))
          []
          w
          (after_join k o p (record (busy a b sa []) { writer = minus_one }) r)
  unfolding after_join
  after_join-Effect a b sa y ys w t (false, s) h e = refl
  after_join-Effect a b sa y ys w t (true, s) h e =
      let l = close-Loses v k o c a s in
      let q = report-Same (close k (pos a) s) in
      (
        resting sa,
        refl,
        inr (
            inr (
              refl,
              a,
              b,
              refl,
              refl,
              refl,
              (
                λ n. q.0 n ∙ (l.0 n ∙ ap (λ z. z && not (n == a)) (e.0 n ∙ h.0 n)),
                q.1 ∙ (l.1 ∙ (e.1 ∙ h.1)),
              ),
            )),
      )

  stop-Effect :
      (a b sa : ℕ) (y : ℤ) (ys : List ℤ) (s : Machine W)
      → Effect v (busy a b sa (y ∷ ys)) [] s.os (stop k o p (busy a b sa []) s)
  unfolding stop
  stop-Effect a b sa y ys s =
      let r = call (p.sigaction_set sa) s in
      let t0 = report k o p r in
      let e0 =
        Same-trans v (call-Same v k o c (p.sigaction_set sa) s (d.set_same sa s.os))
          (report-Same r) in
      let l = close-Loses v k o c b t0 in
      let q = report-Same (close k (pos b) t0) in
      let t1 = report k o p (close k (pos b) t0) in
      after_join-Effect a b sa y ys s.os t1.os (with_os k o p t1 (p.join_thread t1.os))
        (λ n. q.0 n ∙ (l.0 n ∙ ap (λ z. z && not (n == b)) (e0.0 n)), q.1 ∙ (l.1 ∙ e0.1))
        (d.join_same t1.os)

  -- What is left of the subscribers decides.
  left-Effect :
      (a b sa : ℕ) (y : ℤ) (ys zs : List ℤ) (s : Machine W)
      → Effect v (busy a b sa (y ∷ ys)) zs s.os (
          if is_empty zs
          then stop k o p (busy a b sa zs) s
          else (returned (some tt), busy a b sa zs, s))
  left-Effect a b sa y ys [] s = stop-Effect a b sa y ys s
  left-Effect a b sa y ys (z ∷ zs) s =
      (serving a b sa z zs, refl, inl (refl, refl, refl, (λ n. refl, refl)))

  close_blocked-Effect :
      (x : ℤ) (g : Selfpipe) (s : Machine W)
      → IsConsistent g
      → Effect v g (erase x g.subscribers) s.os (close_blocked k o p x g s)
  unfolding close_blocked
  close_blocked-Effect x g s (resting sa) = (refl, (λ n. refl, refl))
  close_blocked-Effect x g s (serving a b sa y ys) = elim (Bool-cases (member x (y ∷ ys))) [
    | inl known ↦ rw (known, Effect) (left-Effect a b sa y ys (erase x (y ∷ ys)) s)
    | inr new ↦ rw (new, Effect) (refl, (λ n. refl, refl))
  ]

  -- From consistent variables, `selfpipe_open` succeeds with the subscriber added, or fails with all as
  -- before, or throws with the subscribers as before. The variables stay consistent: the thread and its
  -- pipe are there just as long as there are subscribers; and no other descriptor is left open or closed.
  pub selfpipe_open-Effect :
      (x : ℤ) (g : Selfpipe) (s : Machine W)
      → IsConsistent g
      → Effect v g (x ∷ g.subscribers) s.os (selfpipe_open k o p x g s)
  unfolding selfpipe_open
  selfpipe_open-Effect x g s h =
      blocked-Effect (open_blocked k o p x) g (x ∷ g.subscribers) s
        (sigmask_block_all_signals k 0 s) (λ t. open_blocked-Effect x g t h)
        (sigmask_block_all_signals-Blocked v k o c s)

  -- From consistent variables, `selfpipe_close` succeeds with the subscriber taken out, or fails with all
  -- as before. The variables stay consistent, so the last subscriber takes the thread and both ends of
  -- its pipe along, and no other descriptor is closed. The program ends only at the last subscriber.
  pub selfpipe_close-Effect :
      (x : ℤ) (g : Selfpipe) (s : Machine W)
      → IsConsistent g
      → Effect v g (erase x g.subscribers) s.os (selfpipe_close k o p x g s)
  unfolding selfpipe_close
  selfpipe_close-Effect x g s h =
      blocked-Effect (close_blocked k o p x) g (erase x g.subscribers) s
        (sigmask_block_all_signals k 0 s) (λ t. close_blocked-Effect x g t h)
        (sigmask_block_all_signals-Blocked v k o c s)
