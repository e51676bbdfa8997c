-- ===== src/Forkexec/Parent.antt =====
-- src/lib/forkexec.cpp: what the parent of a `forkexec` is left with.
use dromozoa_unix.Prelude.{
  ℕ, ◌≡◌, refl, sym, ap, ◌∙◌, ◌||◌, none, some, ◌==◌, ◌⊎◌, Bool-cases, inl, inr,
}
use dromozoa_unix.Prelude.Int.{pos}
use dromozoa_unix.Fd.{
  Machine, Kernel, Result, call, close, destroy, restore, sigmask_block_all_signals,
}
use dromozoa_unix.Fd.Compat.{Openers, compat_pipe2}
use dromozoa_unix.Fd.Laws.{View, Same, SameOpen, LeavesTwo, GainsTwo, Contract}
use dromozoa_unix.Fd.Leaks.{compat_pipe2-LeavesTwo}
use dromozoa_unix.Fd.Leaks.Calls.{
  Same-trans, call-Same, close-Loses, destroy-Loses, Blocked, sigmask_block_all_signals-Blocked,
  restore-SameOpen,
}
use dromozoa_unix.Fd.Leaks.Sets.{GainsTwo-Same, both_closed}
use dromozoa_unix.Forkexec.{
  Processes, ForkexecImpl, no_descriptors, Program, End, last_state, Started, destroy_members,
  open_die, set_die, code_read, read_die, finish_parent, parent, after_fork, after_die, with_mask,
  forkexec, run_child,
}
use dromozoa_unix.Forkexec.Laws.{ParentContract}

module _ {W : Type 0} (v : View W) (k : Kernel W) (o : Openers W) (p : Processes W)
    (c : Contract v k o) (d : ParentContract v p) where
  -- The object holds no descriptors, or both ends of one pipe.
  abbrev pub Holds : Machine W → ForkexecImpl → W → Type 0
  Holds s impl w =
      ((impl ≡ no_descriptors) × Same v s.os w)
      ⊎ ((a : ℕ) × (b : ℕ) × (impl
            ≡ record no_descriptors { die_reader = pos a; die_writer = pos b })
          × GainsTwo v s.os a b w)

  abbrev Leaves : Machine W → Started k o p → Type 0
  Leaves s (r, pid, impl, t) = Holds s impl t.os

  finish_parent-os :
      (pid : ℕ) (s : Machine W) (r : ℕ × ForkexecImpl × Machine W)
      → Holds s r.1 r.2.os
      → Leaves s (finish_parent k o p pid r)
  finish_parent-os pid s (code, impl, t) h = elim (Bool-cases (code == 0)) [
    | inl zero_code ↦ rw zero_code h
    | inr other ↦ rw other h
  ]

  parent-Leaves :
      (pid : ℕ) (end : End W) (s t : Machine W) (a b : ℕ)
      → GainsTwo v s.os a b t.os
      → Leaves s (
          parent k o p pid end (record no_descriptors { die_reader = pos a; die_writer = pos b }) t)
  unfolding parent read_die
  parent-Leaves pid end s t a b h =
      let t1 = (close k (pos b) t).1 in
      let j = record t1 { os = p.joined t1.os (last_state end) } in
      let r = call (p.read_int (pos a)) j in
      let e =
        Same-trans v (d.joined_same t1.os (last_state end))
          (call-Same v k o c (p.read_int (pos a)) j (d.read_same (pos a) j.os)) in
      finish_parent-os pid s (code_read k o p r.0, no_descriptors, (close k (pos a) r.1).1)
        (inl (
          refl,
          both_closed v s.os t.os t1.os r.1.os (close k (pos a) r.1).1.os a b h
              (close-Loses v k o c b t) e (close-Loses v k o c a r.1),
        ))

  after_fork-Leaves :
      (g : Program) (s : Machine W) (a b : ℕ) (r : Result W ℕ)
      → GainsTwo v s.os a b r.1.os
      → Leaves s
          (after_fork k o p g (record no_descriptors { die_reader = pos a; die_writer = pos b }) r)
  unfolding after_fork
  after_fork-Leaves g s a b (none, t) h = inr (a, b, refl, h)
  after_fork-Leaves g s a b (some pid, t) h =
      let impl = record no_descriptors { die_reader = pos a; die_writer = pos b } in
      parent-Leaves pid (run_child k o p g impl (record t { os = p.child t.os })) s t a b h

  after_die-Leaves :
      (g : Program) (s : Machine W) (r : Result W (ℕ × ℕ))
      → LeavesTwo v s r
      → Leaves s (after_die k o p g (set_die k o p no_descriptors r))
  unfolding after_die set_die destroy
  after_die-Leaves g s (none, t) h = inl (refl, h.0)
  after_die-Leaves g s (some (a, b), t) h = after_fork-Leaves g s a b (call p.fork t) (
      GainsTwo-Same v s.os t.os (call p.fork t).1.os a b h
        (call-Same v k o c p.fork t (d.fork_same t.os)))

  -- The destructor closes what the object holds.
  destroyed_Same :
      (s u : Machine W) (impl : ForkexecImpl)
      → Holds s impl u.os
      → Same v s.os (destroy_members k o p impl u).os
  unfolding destroy_members destroy
  destroyed_Same s u impl (inl (e, h)) = rw e h
  destroyed_Same s u impl (inr (a, b, e, h)) =
      let t = destroy k (pos b) u in
      rw e (
        both_closed v s.os u.os t.os t.os (destroy k (pos a) t).os a b h
          (destroy-Loses v k o c b u).0 (λ n. refl, refl) (destroy-Loses v k o c a t).0)

  restored_Holds :
      (s s' t : Machine W) (m : ℕ) (impl : ForkexecImpl)
      → SameOpen v s.os s'.os
      → m ≡ v.mask s.os
      → Holds s' impl t.os
      → Holds s impl (restore k m t).os
  restored_Holds s s' t m impl h hm (inl (e, l)) =
      let r = restore-SameOpen v k o c m t in inl (e, (λ n. r.0 n ∙ (l.0 n ∙ h n), r.1 ∙ hm))
  restored_Holds s s' t m impl h hm (inr (a, b, e, l)) =
      let r = restore-SameOpen v k o c m t in
      inr (
        a,
        b,
        e,
        (
          l.0,
          sym (h a) ∙ l.1,
          sym (h b) ∙ l.2,
          λ n. r.0 n ∙ (l.3 n ∙ ap (λ z. z || (n == a || n == b)) (h n)),
          r.1 ∙ hm,
        ),
      )

  with_mask-Same :
      (body : Machine W → Started k o p) (s : Machine W) (r : Result W ℕ)
      → ((t : Machine W) → Leaves t (body t))
      → Blocked v k o c s r
      → Same v s.os (with_mask k o p body r).1.os
  unfolding with_mask
  with_mask-Same body s (none, s') h b = b.0
  with_mask-Same body s (some m, s') h b =
      let x = body s' in
      destroyed_Same s (restore k m x.3) x.2 (restored_Holds s s' x.3 m x.2 b.0 b.1 (h s'))

  -- `forkexec` leaves the parent, whatever it returns, with the descriptors that were open before and
  -- with its signal mask.
  pub forkexec-Same : (g : Program) (s : Machine W) → Same v s.os (forkexec k o p g s).1.os
  unfolding forkexec open_die
  forkexec-Same g s =
      with_mask-Same (λ t. after_die k o p g (open_die k o p no_descriptors t)) s
        (sigmask_block_all_signals k 0 s)
        (λ t.
          after_die-Leaves g t (compat_pipe2 k o k.o_cloexec t)
            (compat_pipe2-LeavesTwo v k o c k.o_cloexec t))
        (sigmask_block_all_signals-Blocked v k o c s)
