-- ===== src/Fd/Leaks/Scopes.antt =====
-- src/lib/file_descriptor.cpp and sigmask.cpp: what the scopes that own descriptors, and the scope that
-- blocks the signals, leave behind.
use dromozoa_unix.Prelude.{
  ℕ, ◌≡◌, sym, ◌∙◌, ap, subst, Bool, true, false, not, ◌||◌, ◌&&◌, none, some, arith, ◌==◌,
}
use dromozoa_unix.Fd.{
  Reply, done, failed, Machine, Kernel, Result, Action, ◌>>=◌, and_then, ret, when, answer,
  end_owned, owned, coe_on, ndelay_on, end_blocked, with_blocked, sigmask_block_all_signals,
}
use dromozoa_unix.Fd.Compat.{Openers, set_both, set_one}
use dromozoa_unix.Fd.Laws.{View, OpensOne, OpensTwo, LeavesNone, LeavesOne, LeavesTwo, Contract}
use dromozoa_unix.Fd.Leaks.Calls.{
  and_then-LeavesNone, when-LeavesNone, LosesOnFailure, LeavesNone-LosesOnFailure,
  coe_on-LeavesNone, ndelay_on-LeavesNone, end_owned-LosesOnFailure, Blocked,
  sigmask_block_all_signals-Blocked, restore-SameOpen,
}

-- Descriptors that were not open, opened and closed.
undo_one :
    (w : ℕ → Bool) (n a : ℕ) → w a ≡ false → ((w n || n == a) && (true && not (n == a))) ≡ w n
undo_one w n a h = grind arith

undo_two :
    (w : ℕ → Bool) (n a b : ℕ)
    → w a ≡ false
    → w b ≡ false
    → ((w n || (n == a || n == b)) && ((true && not (n == b)) && not (n == a))) ≡ w n
undo_two w n a b h g = grind arith

module _ {W : Type 0} (v : View W) (k : Kernel W) (o : Openers W) (c : Contract v k o) where
  pub answer-LeavesOne :
      {A : Type 0} (fd : A → ℕ) (s : Machine W) (r : Reply A × W)
      → OpensOne v fd s.os r
      → LeavesOne v fd s (answer s r)
  answer-LeavesOne fd s (done a, w) h = h
  answer-LeavesOne fd s (failed e, w) h = h

  pub answer-LeavesTwo :
      (s : Machine W) (r : Reply (ℕ × ℕ) × W) → OpensTwo v s.os r → LeavesTwo v s (answer s r)
  answer-LeavesTwo s (done (a, b), w) h = h
  answer-LeavesTwo s (failed e, w) h = h

  pub set_one-LeavesNone :
      (x y : Bool) (fd : ℕ) (s : Machine W) → LeavesNone v s (set_one k o x y fd s)
  unfolding set_one
  set_one-LeavesNone x y fd s =
      and_then-LeavesNone v s (when x (coe_on k fd) s) (λ _. when y (ndelay_on k fd))
        (when-LeavesNone v x (coe_on k fd) (coe_on-LeavesNone v k o c fd) s)
        (λ _. when-LeavesNone v y (ndelay_on k fd) (ndelay_on-LeavesNone v k o c fd))

  -- One action after the other.
  pub both-LeavesNone :
      (m m' : Action W Unit)
      → ((s : Machine W) → LeavesNone v s (m s))
      → ((s : Machine W) → LeavesNone v s (m' s))
      → (s : Machine W) → LeavesNone v s ((m >>= λ _. m') s)
  both-LeavesNone m m' h h' s = and_then-LeavesNone v s (m s) (λ _. m') (h s) (λ _. h')

  pub set_both-LeavesNone :
      (x y : Bool) (a b : ℕ) (s : Machine W) → LeavesNone v s (set_both k o x y a b s)
  unfolding set_both
  set_both-LeavesNone x y a b =
      both-LeavesNone (when x (coe_on k a >>= λ _. coe_on k b))
        (when y (ndelay_on k a >>= λ _. ndelay_on k b))
        (when-LeavesNone v x (coe_on k a >>= λ _. coe_on k b) (
          both-LeavesNone (coe_on k a) (coe_on k b) (coe_on-LeavesNone v k o c a)
            (coe_on-LeavesNone v k o c b)))
        (when-LeavesNone v y (ndelay_on k a >>= λ _. ndelay_on k b) (
          both-LeavesNone (ndelay_on k a) (ndelay_on k b) (ndelay_on-LeavesNone v k o c a)
            (ndelay_on-LeavesNone v k o c b)))

  -- What a scope that owns one descriptor leaves of it.
  keep_one :
      {A : Type 0} (fd : A → ℕ) (a : A) (s s' : Machine W) (r : Result W Unit)
      → LeavesOne v fd s (some a, s')
      → LosesOnFailure v (λ n. true && not (n == fd a)) s' r
      → LeavesOne v fd s (and_then (λ _. ret a) r)
  keep_one fd a s s' (some u, t) h l = (h.0, λ n. l.0 n ∙ h.1 n, l.1 ∙ h.2)
  keep_one fd a s s' (none, t) h l = (
    (
      λ n.
          l.0.0 n
          ∙ (ap (λ z. z && (true && not (n == fd a))) (h.1 n)
              ∙ undo_one (v.opened s.os) n (fd a) h.0),
      l.0.1 ∙ h.2,
    ),
    l.1,
  )

  keep_two :
      (a b : ℕ) (s s' : Machine W) (r : Result W Unit)
      → LeavesTwo v s (some (a, b), s')
      → LosesOnFailure v (λ n. (true && not (n == b)) && not (n == a)) s' r
      → LeavesTwo v s (and_then (λ _. ret (a, b)) r)
  keep_two a b s s' (some u, t) h l = (h.0, h.1, h.2, λ n. l.0 n ∙ h.3 n, l.1 ∙ h.4)
  keep_two a b s s' (none, t) h l = (
    (
      λ n.
          l.0.0 n
          ∙ (ap (λ z. z && ((true && not (n == b)) && not (n == a))) (h.3 n)
              ∙ undo_two (v.opened s.os) n a b h.1 h.2),
      l.0.1 ∙ h.4,
    ),
    l.1,
  )

  -- The scope that blocks the signals gives the old mask back, and the error of its body.
  end_blocked-LeavesOne :
      {A : Type 0} (fd : A → ℕ) (s s' : Machine W) (m : ℕ) (r : Result W A)
      → Blocked v k o c s (some m, s')
      → LeavesOne v fd s' r
      → LeavesOne v fd s (end_blocked k m r)
  unfolding end_blocked
  end_blocked-LeavesOne fd s s' m (some a, t) h l =
      let e = restore-SameOpen v k o c m t in
      (sym (h.0 (fd a)) ∙ l.0, λ n. e.0 n ∙ (l.1 n ∙ ap (λ z. z || n == fd a) (h.0 n)), e.1 ∙ h.1)
  end_blocked-LeavesOne fd s s' m (none, t) h l =
      let e = restore-SameOpen v k o c m t in
      ((λ n. e.0 n ∙ (l.0.0 n ∙ h.0 n), e.1 ∙ h.1), subst v.Reported (sym e.2) l.1)

  end_blocked-LeavesTwo :
      (s s' : Machine W) (m : ℕ) (r : Result W (ℕ × ℕ))
      → Blocked v k o c s (some m, s')
      → LeavesTwo v s' r
      → LeavesTwo v s (end_blocked k m r)
  unfolding end_blocked
  end_blocked-LeavesTwo s s' m (some (a, b), t) h l =
      let e = restore-SameOpen v k o c m t in
      (
        l.0,
        sym (h.0 a) ∙ l.1,
        sym (h.0 b) ∙ l.2,
        λ n. e.0 n ∙ (l.3 n ∙ ap (λ z. z || (n == a || n == b)) (h.0 n)),
        e.1 ∙ h.1,
      )
  end_blocked-LeavesTwo s s' m (none, t) h l =
      let e = restore-SameOpen v k o c m t in
      ((λ n. e.0 n ∙ (l.0.0 n ∙ h.0 n), e.1 ∙ h.1), subst v.Reported (sym e.2) l.1)

  run_masked_one :
      {A : Type 0} (fd : A → ℕ) (body : Action W A) (s : Machine W) (r : Result W ℕ)
      → ((s : Machine W) → LeavesOne v fd s (body s))
      → Blocked v k o c s r
      → LeavesOne v fd s (and_then (λ m s'. end_blocked k m (body s')) r)
  run_masked_one fd body s (none, s') h b = b
  run_masked_one fd body s (some m, s') h b = end_blocked-LeavesOne fd s s' m (body s') b (h s')

  pub with_blocked-LeavesOne :
      {A : Type 0} (fd : A → ℕ) (body : Action W A)
      → ((s : Machine W) → LeavesOne v fd s (body s))
      → (s : Machine W) → LeavesOne v fd s (with_blocked k body s)
  unfolding with_blocked
  with_blocked-LeavesOne fd body h s =
      run_masked_one fd body s (sigmask_block_all_signals k 0 s) h
        (sigmask_block_all_signals-Blocked v k o c s)

  run_masked_two :
      (body : Action W (ℕ × ℕ)) (s : Machine W) (r : Result W ℕ)
      → ((s : Machine W) → LeavesTwo v s (body s))
      → Blocked v k o c s r
      → LeavesTwo v s (and_then (λ m s'. end_blocked k m (body s')) r)
  run_masked_two body s (none, s') h b = b
  run_masked_two body s (some m, s') h b = end_blocked-LeavesTwo s s' m (body s') b (h s')

  pub with_blocked-LeavesTwo :
      (body : Action W (ℕ × ℕ))
      → ((s : Machine W) → LeavesTwo v s (body s))
      → (s : Machine W) → LeavesTwo v s (with_blocked k body s)
  unfolding with_blocked
  with_blocked-LeavesTwo body h s =
      run_masked_two body s (sigmask_block_all_signals k 0 s) h
        (sigmask_block_all_signals-Blocked v k o c s)

  -- A descriptor opened and set up.
  pub opened_one :
      {A : Type 0} (fd : A → ℕ) (body : A → Action W Unit) (s : Machine W) (r : Result W A)
      → ((a : A) (s : Machine W) → LeavesNone v s (body a s))
      → LeavesOne v fd s r
      → LeavesOne v fd s (and_then (λ a. owned k (fd a) (body a) >>= λ _. ret a) r)
  unfolding owned
  opened_one fd body s (none, s') h l = l
  opened_one fd body s (some a, s') h l = keep_one fd a s s' (end_owned k (fd a) (body a s')) l (
      end_owned-LosesOnFailure v k o c (fd a) (λ n. true) s' (body a s')
        (LeavesNone-LosesOnFailure v s' (body a s') (h a s')))

  pub opened_two :
      (body : ℕ → ℕ → Action W Unit) (s : Machine W) (r : Result W (ℕ × ℕ))
      → ((a b : ℕ) (s : Machine W) → LeavesNone v s (body a b s))
      → LeavesTwo v s r
      → LeavesTwo v s (and_then (λ f. owned k f.0 (owned k f.1 (body f.0 f.1)) >>= λ _. ret f) r)
  unfolding owned
  opened_two body s (none, s') h l = l
  opened_two body s (some (a, b), s') h l =
      keep_two a b s s' (end_owned k a (end_owned k b (body a b s'))) l (
        end_owned-LosesOnFailure v k o c a (λ n. true && not (n == b)) s'
          (end_owned k b (body a b s'))
          (end_owned-LosesOnFailure v k o c b (λ n. true) s' (body a b s')
            (LeavesNone-LosesOnFailure v s' (body a b s') (h a b s'))))
