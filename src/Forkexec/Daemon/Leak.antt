-- ===== src/Forkexec/Daemon/Leak.antt =====
-- src/lib/forkexec.cpp: what the parent of a `forkexec_daemon` is left with.
use dromozoa_unix.Prelude.{
  ℕ, ◌≡◌, refl, sym, ap, ◌∙◌, Bool, true, false, not, ◌||◌, ◌&&◌, none, some, ◌==◌, ◌⊎◌, arith,
  Bool-cases, inl, inr,
}
use dromozoa_unix.Prelude.Int.{ℤ, pos}
use dromozoa_unix.Fd.{
  Machine, Kernel, Result, call, close, destroy, restore, sigmask_block_all_signals,
}
use dromozoa_unix.Fd.Compat.{Openers, compat_pipe2}
use dromozoa_unix.Fd.Laws.{View, Same, SameOpen, GainsTwo, LeavesTwo, Contract}
use dromozoa_unix.Fd.Leaks.{compat_pipe2-LeavesTwo}
use dromozoa_unix.Fd.Leaks.Calls.{
  Same-trans, call-Same, Loses, close-Loses, destroy-Loses, Blocked,
  sigmask_block_all_signals-Blocked, restore-SameOpen,
}
use dromozoa_unix.Forkexec.{
  Processes, ForkexecImpl, no_descriptors, Program, End, last_state, destroy_members, open_die,
  set_die, code_read, read_die,
}
use dromozoa_unix.Forkexec.Laws.{ParentContract}
use dromozoa_unix.Forkexec.Daemon.{
  pid_read, set_pid, open_pid, run_middle, read_pid, Launched, finish_launch, launch_parent,
  after_first_fork, after_open_pid, after_open_die, with_mask_daemon, forkexec_daemon,
}

-- A number that was not open, opened and closed.
taken_out : (x e c : Bool) → (c ≡ true → x ≡ false) → ((x || e) && not c) ≡ (x || (e && not c))
taken_out true true true h = sym (h refl)
taken_out true false true h = sym (h refl)
taken_out true true false h = refl
taken_out true false false h = refl
taken_out false e c h = refl

module _ {W : Type 0} (v : View W) (k : Kernel W) (o : Openers W) (p : Processes W)
    (c : Contract v k o) (d : ParentContract v p) where
  -- Besides what was open, the numbers of a set are, and the mask is the same.
  abbrev Open : W → (ℕ → Bool) → W → Type 0
  Open s e w = ((n : ℕ) → v.opened w n ≡ (v.opened s n || e n)) × (v.mask w ≡ v.mask s)

  Open-Same : (s w w' : W) (e : ℕ → Bool) → Open s e w → Same v w w' → Open s e w'
  Open-Same s w w' e h l = (λ n. l.0 n ∙ h.0 n, l.1 ∙ h.1)

  -- The set, less a number.
  abbrev less : (ℕ → Bool) → ℕ → ℕ → Bool
  less e x n = e n && not (n == x)

  Open-Loses :
      (s w w' : W) (e : ℕ → Bool) (x : ℕ)
      → v.opened s x ≡ false
      → Open s e w
      → Loses v (λ n. not (n == x)) w w'
      → Open s (less e x) w'
  Open-Loses s w w' e x f h l = (
    λ n.
        l.0 n
        ∙ (ap (λ z. z && not (n == x)) (h.0 n)
            ∙ taken_out (v.opened s n) (e n) (n == x)
                (λ (q : (n == x) ≡ true). ap (v.opened s) (eq_of n x q) ∙ f)),
    l.1 ∙ h.1,
  )
    where
      eq_of : (n x : ℕ) → (n == x) ≡ true → n ≡ x
      eq_of n x q = ground arith

  abbrev two : ℕ → ℕ → ℕ → Bool
  two a b n = n == a || n == b

  abbrev four : ℕ → ℕ → ℕ → ℕ → ℕ → Bool
  four a b x y n = two a b n || two x y n

  Open-nothing : (s w : W) (e : ℕ → Bool) → Open s e w → ((n : ℕ) → e n ≡ false) → Same v s w
  Open-nothing s w e h z =
      (λ n. h.0 n ∙ (ap (λ t. v.opened s n || t) (z n) ∙ or_false (v.opened s n)), h.1)
    where
      or_false : (t : Bool) → (t || false) ≡ t
      or_false true = refl
      or_false false = refl

  gone_two : (i j : Bool) → ((i || j) && not j) && not i ≡ false
  gone_two i j = ground arith

  gone_back :
      (i j x y : Bool) → (((((i || j) || (x || y)) && not y) && not x) && not j) && not i ≡ false
  gone_back i j x y = ground arith

  gone_parent :
      (i j x y : Bool) → (((((i || j) || (x || y)) && not j) && not y) && not i) && not x ≡ false
  gone_parent i j x y = ground arith

  abbrev die_pair : ℕ → ℕ → ForkexecImpl
  die_pair a b = record no_descriptors { die_reader = pos a; die_writer = pos b }

  abbrev both_pairs : ℕ → ℕ → ℕ → ℕ → ForkexecImpl
  both_pairs a b x y = record (die_pair a b) { pid_reader = pos x; pid_writer = pos y }

  abbrev WereClosed : W → ℕ → ℕ → Type 0
  WereClosed s a b = (v.opened s a ≡ false) × (v.opened s b ≡ false)

  -- What the object may hold: nothing, one pipe, or both.
  abbrev Owns : W → ForkexecImpl → W → Type 0
  Owns s impl w =
      ((impl ≡ no_descriptors) × Same v s w)
      ⊎ (((a : ℕ) × (b : ℕ) × (impl ≡ die_pair a b) × WereClosed s a b × Open s (two a b) w)
          ⊎ ((a : ℕ) × (b : ℕ) × (x : ℕ) × (y : ℕ) × (impl ≡ both_pairs a b x y)
              × WereClosed s a b
              × WereClosed s x y
              × Open s (four a b x y) w))

  destroyed_Same :
      (s : W) (u : Machine W) (impl : ForkexecImpl)
      → Owns s impl u.os
      → Same v s (destroy_members k o p impl u).os
  unfolding destroy_members destroy
  destroyed_Same s u impl (inl (e, h)) = rw e h
  destroyed_Same s u impl (inr (inl (a, b, e, f, h))) =
      let u1 = destroy k (pos b) u in
      let h1 = Open-Loses s u.os u1.os (two a b) b f.1 h (destroy-Loses v k o c b u).0 in
      let u2 = destroy k (pos a) u1 in
      let h2 =
        Open-Loses s u1.os u2.os (less (two a b) b) a f.0 h1 (destroy-Loses v k o c a u1).0 in
      rw e (Open-nothing s u2.os (less (less (two a b) b) a) h2 (λ n. gone_two (n == a) (n == b)))
  destroyed_Same s u impl (inr (inr (a, b, x, y, e, f, g, h))) =
      let e0 = four a b x y in
      let u1 = destroy k (pos y) u in
      let h1 = Open-Loses s u.os u1.os e0 y g.1 h (destroy-Loses v k o c y u).0 in
      let u2 = destroy k (pos x) u1 in
      let h2 = Open-Loses s u1.os u2.os (less e0 y) x g.0 h1 (destroy-Loses v k o c x u1).0 in
      let u3 = destroy k (pos b) u2 in
      let h3 =
        Open-Loses s u2.os u3.os (less (less e0 y) x) b f.1 h2 (destroy-Loses v k o c b u2).0 in
      let u4 = destroy k (pos a) u3 in
      let h4 =
        Open-Loses s u3.os u4.os (less (less (less e0 y) x) b) a f.0 h3
          (destroy-Loses v k o c a u3).0 in
      rw e (
        Open-nothing s u4.os (less (less (less (less e0 y) x) b) a) h4
          (λ n. gone_back (n == a) (n == b) (n == x) (n == y)))

  abbrev Leaves : W → Launched k o p → Type 0
  Leaves s (r, pid1, pid2, impl, t) = Owns s impl t.os

  finish_launch-Leaves :
      (s : W) (pid1 code : ℕ) (r : ℤ × ForkexecImpl × Machine W)
      → Owns s r.1 r.2.os
      → Leaves s (finish_launch k o p pid1 code r)
  finish_launch-Leaves s pid1 code (pid2, impl, t) h = elim (Bool-cases (code == 0)) [
    | inl zero_code ↦ rw zero_code h
    | inr other ↦ rw other h
  ]

  launch_parent-Leaves :
      (s : W) (pid1 : ℕ) (end : End W) (t : Machine W) (a b x y : ℕ)
      → WereClosed s a b
      → WereClosed s x y
      → Open s (four a b x y) t.os
      → Leaves s (launch_parent k o p pid1 end (both_pairs a b x y) t)
  unfolding launch_parent read_die read_pid
  launch_parent-Leaves s pid1 end t a b x y f g h =
      let e0 = four a b x y in
      let t1 = (close k (pos b) t).1 in
      let h1 = Open-Loses s t.os t1.os e0 b f.1 h (close-Loses v k o c b t) in
      let t2 = (close k (pos y) t1).1 in
      let h2 = Open-Loses s t1.os t2.os (less e0 b) y g.1 h1 (close-Loses v k o c y t1) in
      let j = record t2 { os = p.joined t2.os (last_state end) } in
      let r = call (p.read_int (pos a)) j in
      let e2 = less (less e0 b) y in
      let h3 = Open-Same s t2.os r.1.os e2 h2 (
        Same-trans v (d.joined_same t2.os (last_state end))
          (call-Same v k o c (p.read_int (pos a)) j (d.read_same (pos a) j.os))) in
      let t3 = (close k (pos a) r.1).1 in
      let h4 = Open-Loses s r.1.os t3.os e2 a f.0 h3 (close-Loses v k o c a r.1) in
      let q = call (p.read_int (pos x)) t3 in
      let h5 =
        Open-Same s t3.os q.1.os (less e2 a) h4
          (call-Same v k o c (p.read_int (pos x)) t3 (d.read_same (pos x) t3.os)) in
      let t4 = (close k (pos x) q.1).1 in
      let h6 = Open-Loses s q.1.os t4.os (less e2 a) x g.0 h5 (close-Loses v k o c x q.1) in
      finish_launch-Leaves s pid1 (code_read k o p r.0) (pid_read q.0, no_descriptors, t4)
        (inl (
          refl,
          Open-nothing s t4.os (less (less e2 a) x) h6
              (λ n. gone_parent (n == a) (n == b) (n == x) (n == y)),
        ))

  after_first_fork-Leaves :
      (g : Program) (s : W) (a b x y : ℕ) (r : Result W ℕ)
      → WereClosed s a b
      → WereClosed s x y
      → Open s (four a b x y) r.1.os
      → Leaves s (after_first_fork k o p g (both_pairs a b x y) r)
  unfolding after_first_fork
  after_first_fork-Leaves g s a b x y (none, t) f q h = inr (inr (a, b, x, y, refl, f, q, h))
  after_first_fork-Leaves g s a b x y (some pid, t) f q h =
      launch_parent-Leaves s pid
        (run_middle k o p g (both_pairs a b x y) (record t { os = p.child t.os })) t a b x y f q h

  -- Two descriptors more, that were closed also before the first two were opened.
  four_opened :
      (s w w' : W) (a b x y : ℕ)
      → WereClosed s a b
      → Open s (two a b) w
      → GainsTwo v w x y w'
      → WereClosed s x y × Open s (four a b x y) w'
  four_opened s w w' a b x y f h l = (
    (
      left (v.opened s x) (two a b x) (sym (h.0 x) ∙ l.1),
      left (v.opened s y) (two a b y) (sym (h.0 y) ∙ l.2),
    ),
    (
      λ n.
          l.3 n
          ∙ (ap (λ z. z || two x y n) (h.0 n) ∙ or_assoc (v.opened s n) (two a b n) (two x y n)),
      l.4 ∙ h.1,
    ),
  )
    where
      left : (i j : Bool) → (i || j) ≡ false → i ≡ false
      left i j e = ground arith

      or_assoc : (i j z : Bool) → ((i || j) || z) ≡ (i || (j || z))
      or_assoc i j z = ground arith

  after_open_pid-Leaves :
      (g : Program) (s : W) (a b : ℕ) (t : Machine W) (r : Result W (ℕ × ℕ))
      → WereClosed s a b
      → Open s (two a b) t.os
      → LeavesTwo v t r
      → Leaves s (after_open_pid k o p g (die_pair a b) (set_pid k o p (die_pair a b) r))
  unfolding after_open_pid set_pid destroy
  after_open_pid-Leaves g s a b t (none, t') f h l =
      inr (inl (a, b, refl, f, Open-Same s t.os t'.os (two a b) h l.0))
  after_open_pid-Leaves g s a b t (some (x, y), t') f h l =
      let (q, e) = four_opened s t.os t'.os a b x y f h l in
      after_first_fork-Leaves g s a b x y (call p.fork t') f q (
        Open-Same s t'.os (call p.fork t').1.os (four a b x y) e
          (call-Same v k o c p.fork t' (d.fork_same t'.os)))

  after_open_die-Leaves :
      (g : Program) (s : Machine W) (r : Result W (ℕ × ℕ))
      → LeavesTwo v s r
      → Leaves s.os (after_open_die k o p g (set_die k o p no_descriptors r))
  unfolding after_open_die set_die open_pid destroy
  after_open_die-Leaves g s (none, t) h = inl (refl, h.0)
  after_open_die-Leaves g s (some (a, b), t) h =
      after_open_pid-Leaves g s.os a b t (compat_pipe2 k o k.o_cloexec t) (h.1, h.2) (h.3, h.4)
        (compat_pipe2-LeavesTwo v k o c k.o_cloexec t)

  module _ (s s' t : Machine W) (m : ℕ) (same : SameOpen v s.os s'.os) (old : m ≡ v.mask s.os) where
    restored_Open : (e : ℕ → Bool) → Open s'.os e t.os → Open s.os e (restore k m t).os
    restored_Open e l =
        let r = restore-SameOpen v k o c m t in
        (λ n. r.0 n ∙ (l.0 n ∙ ap (λ z. z || e n) (same n)), r.1 ∙ old)

    restored_WereClosed : (a b : ℕ) → WereClosed s'.os a b → WereClosed s.os a b
    restored_WereClosed a b f = (sym (same a) ∙ f.0, sym (same b) ∙ f.1)

    restored_Owns : (impl : ForkexecImpl) → Owns s'.os impl t.os → Owns s.os impl (restore k m t).os
    restored_Owns impl (inl (e, l)) =
        let r = restore-SameOpen v k o c m t in inl (e, (λ n. r.0 n ∙ (l.0 n ∙ same n), r.1 ∙ old))
    restored_Owns impl (inr (inl (a, b, e, f, l))) =
        inr (inl (a, b, e, restored_WereClosed a b f, restored_Open (two a b) l))
    restored_Owns impl (inr (inr (a, b, x, y, e, f, g, l))) = inr (
        inr (
          a,
          b,
          x,
          y,
          e,
          restored_WereClosed a b f,
          restored_WereClosed x y g,
          restored_Open (four a b x y) l,
        ))

  with_mask_daemon-Same :
      (body : Machine W → Launched k o p) (s : Machine W) (r : Result W ℕ)
      → ((t : Machine W) → Leaves t.os (body t))
      → Blocked v k o c s r
      → Same v s.os (with_mask_daemon k o p body r).1.os
  unfolding with_mask_daemon
  with_mask_daemon-Same body s (none, s') h b = b.0
  with_mask_daemon-Same body s (some m, s') h b =
      let x = body s' in
      destroyed_Same s.os (restore k m x.4) x.3 (restored_Owns s s' x.4 m b.0 b.1 x.3 (h s'))

  -- `forkexec_daemon` leaves the parent, whatever it returns, with the descriptors that were open before
  -- and with its signal mask.
  pub forkexec_daemon-Same :
      (g : Program) (s : Machine W) → Same v s.os (forkexec_daemon k o p g s).1.os
  unfolding forkexec_daemon open_die
  forkexec_daemon-Same g s =
      with_mask_daemon-Same (λ t. after_open_die k o p g (open_die k o p no_descriptors t)) s
        (sigmask_block_all_signals k 0 s)
        (λ t.
          after_open_die-Leaves g t (compat_pipe2 k o k.o_cloexec t)
            (compat_pipe2-LeavesTwo v k o c k.o_cloexec t))
        (sigmask_block_all_signals-Blocked v k o c s)
