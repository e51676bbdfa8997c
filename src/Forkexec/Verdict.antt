-- ===== src/Forkexec/Verdict.antt =====
-- src/lib/forkexec.cpp: the result of a `forkexec` says how its child has ended.
use dromozoa_unix.Prelude.{
  ℕ, ◌<◌, ◌≡◌, ◌≢◌, refl, sym, ap, subst, ◌∙◌, arith, ltb, ltb→lt, Bool, true, false, Option, none,
  some, ◌==◌, ◌⊎◌, Bool-cases, inl, inr,
}
use dromozoa_unix.Prelude.Int.{ℤ, pos, minus_one, eq_ℤ, pos_part}
use dromozoa_unix.Pathexec.Search.{NoNul}
use dromozoa_unix.Fd.{
  Reply, done, failed, Machine, Kernel, Result, answer, call, close, destroy, restore, settle,
  sigmask_block_all_signals,
}
use dromozoa_unix.Fd.Compat.{Openers, compat_pipe2}
use dromozoa_unix.Fd.Laws.{View, SameOpen, OpensTwo, Contract}
use dromozoa_unix.Fd.Leaks.Calls.{Blocked, sigmask_block_all_signals-Blocked}
use dromozoa_unix.Forkexec.{
  Processes, ForkexecImpl, no_descriptors, Program, End, started, died, ended, overrun, last_state,
  run_child, destroy_members, code_read, read_die, finish_parent, parent, Started, set_die,
  open_die, after_fork, after_die, with_mask, forkexec,
}
use dromozoa_unix.Forkexec.Laws.{PipeView, OpensPipe, PipeContract}
use dromozoa_unix.Forkexec.Ends.{NoNul?}
use dromozoa_unix.Forkexec.Child.{close_Same, Tells}
use dromozoa_unix.Forkexec.Report.{exec_program-Tells}

settle_errno :
    {W : Type 0} (u : ℕ → Machine W → Machine W) (saved : ℕ) (r : Result W Unit)
    → (settle u saved r).errno ≡ saved
settle_errno u saved (some x, s) = refl
settle_errno u saved (none, s) = refl

answer_value :
    {W A : Type 0} (s : Machine W) (r : Reply A × W) (a : A)
    → r.0 ≡ done a
    → (answer s r).0 ≡ some a
answer_value s (done b, w) a h = ground arith
answer_value s (failed e, w) a h = ground arith

module _ {W : Type 0} (k : Kernel W) (o : Openers W) (p : Processes W) where
  -- In a call from `s` the signals were blocked, the pipe was opened, and `fork` is called in `t`.
  abbrev pub Begun : Machine W → ForkexecImpl → Machine W → Type 0
  Begun s impl t =
      let r = sigmask_block_all_signals k 0 s in
      (m : ℕ) × (r.0 ≡ some m) × (open_die k o p no_descriptors r.1 ≡ (some impl, t))

  -- This `fork` made the process `n`, and its child ended so.
  abbrev pub Forked : Program → Machine W → ℕ → End W → Type 0
  Forked g s n end =
      (impl : ForkexecImpl) × (t : Machine W) × Begun s impl t
      × ((p.fork t.os).0 ≡ done n)
      × (run_child k o p g impl (record t { os = p.child (p.fork t.os).1 }) ≡ end)

  -- The signals could not be blocked, or the pipe could not be opened, so `fork` is not called; or it
  -- fails. The error is `e`.
  abbrev pub NoChild : Machine W → ℕ → Type 0
  NoChild s e =
      let r = sigmask_block_all_signals k 0 s in
      let d = open_die k o p no_descriptors r.1 in
      ((r.0 ≡ none) × (r.1.errno ≡ e))
      ⊎ (((m : ℕ) × (r.0 ≡ some m) × (d.0 ≡ none) × (d.1.errno ≡ e))
          ⊎ ((impl : ForkexecImpl) × (t : Machine W) × Begun s impl t
              × ((p.fork t.os).0 ≡ failed e)))

  -- Success: the child runs the program. Failure: there is no child, or it has died with `errno`.
  abbrev pub Verdict : Program → Machine W → Option (Unit {0}) × ℤ → ℕ → Type 0
  Verdict g s (some u, pid) e = (n : ℕ) × (w : W) × (pid ≡ pos n) × Forked g s n (started w)
  Verdict g s (none, pid) e =
      ((pid ≡ minus_one) × NoChild s e)
      ⊎ ((n : ℕ) × (w : W) × (pid ≡ pos n) × Forked g s n (died e w))

  abbrev Says : Program → Machine W → Started k o p → Type 0
  Says g s (r, pid, impl, t) = Verdict g s (r, pid) t.errno

  destroy_errno : (fd : ℤ) (s : Machine W) → (destroy k fd s).errno ≡ s.errno
  unfolding destroy
  destroy_errno fd s = elim (Bool-cases (eq_ℤ fd minus_one)) [
    | inl nothing ↦ rw nothing refl
    | inr held ↦ rw held (settle_errno k.unexpected s.errno (close k fd s))
  ]

  destroy_members_errno :
      (impl : ForkexecImpl) (s : Machine W) → (destroy_members k o p impl s).errno ≡ s.errno
  unfolding destroy_members
  destroy_members_errno impl s =
      let s1 = destroy k impl.null_fd s in
      let s2 = destroy k impl.pid_writer s1 in
      let s3 = destroy k impl.pid_reader s2 in
      let s4 = destroy k impl.die_writer s3 in
      destroy_errno impl.die_reader s4
      ∙ (destroy_errno impl.die_writer s3
          ∙ (destroy_errno impl.pid_reader s2
              ∙ (destroy_errno impl.pid_writer s1 ∙ destroy_errno impl.null_fd s)))

  restore_errno : (m : ℕ) (s : Machine W) → (restore k m s).errno ≡ s.errno
  unfolding restore
  restore_errno m s = settle_errno k.unexpected s.errno _

  with_mask-Verdict :
      (g : Program) (s : Machine W) (body : Machine W → Started k o p) (r : Result W ℕ)
      → r ≡ sigmask_block_all_signals k 0 s
      → ((m : ℕ) → r.0 ≡ some m → Says g s (body r.1))
      → Verdict g s (with_mask k o p body r).0 (with_mask k o p body r).1.errno
  unfolding with_mask
  with_mask-Verdict g s body (none, t) same h =
      inl (refl, inl (ap (λ x. x.0) (sym same), ap (λ x. x.1.errno) (sym same)))
  with_mask-Verdict g s body (some m, t) same h =
      let x = body t in
      let e = destroy_members_errno x.2 (restore k m x.3) ∙ restore_errno m x.3 in rw e (h m refl)

  finish_zero :
      (g : Program) (s : Machine W) (n code : ℕ) (impl : ForkexecImpl) (t : Machine W) (w : W)
      → code ≡ 0
      → Forked g s n (started w)
      → Says g s (finish_parent k o p n (code, impl, t))
  finish_zero g s n code impl t w h f = rw h (n, w, refl, f)

  finish_error :
      (g : Program) (s : Machine W) (n code e : ℕ) (impl : ForkexecImpl) (t : Machine W) (w : W)
      → code ≡ e
      → e ≢ 0
      → Forked g s n (died e w)
      → Says g s (finish_parent k o p n (code, impl, t))
  finish_error g s n code e impl t w h z f = elim (Bool-cases (code == 0)) [
    | inl zero_code ↦ absurd (z (ground arith))
    | inr other ↦
        rw (other, Says) (inr (n, w, refl, subst (λ x. Forked g s n (died x w)) (sym h) f))
  ]

-- Three open descriptors stand below a new one.
above : (f : ℕ → Bool) (b : ℕ) → ((n : ℕ) → n < 3 → f n ≡ true) → f b ≡ false → 2 < b
above f b h e = elim (Bool-cases (ltb 2 b)) [
  | inl high ↦ ltb→lt 2 b high
  | inr low ↦ absurd (true-ne-false (sym (h b (ground arith)) ∙ e))
]
  where
    true-ne-false : true ≡ false → ⊥
    true-ne-false x = cc

module _ {W : Type 0} (u : View W) (v : PipeView W) (k : Kernel W) (o : Openers W) (p : Processes W)
    (d : Contract u k o) (c : PipeContract v k o p) (s0 : Machine W) where
  parent-Says :
      (g : Program) (n : ℕ) (end : End W) (a b q : ℕ) (high : 2 < b) (t : Machine W)
      → a ≢ b
      → v.pipe_of t.os a ≡ some q
      → v.content t.os q ≡ none
      → Tells v k o p c b q high end
      → Forked k o p g s0 n end
      → Says k o p g s0
          (parent k o p n end (record no_descriptors { die_reader = pos a; die_writer = pos b }) t)
  unfolding parent read_die
  parent-Says g n end a b q high t d pa empty tells f =
      let t1 = (close k (pos b) t).1 in
      let e1 = close_Same v k o p c (pos b) t in
      let w = p.joined t1.os (last_state end) in
      let j = record t1 { os = w } in
      let pj : v.pipe_of w a ≡ some q =
        c.joined_same t1.os (last_state end) a ∙ (e1.0 a (λ x. d (ap pos_part x)) ∙ pa) in
      let cj : v.content w q ≡ v.content (last_state end) q =
        c.joined_content t1.os (last_state end) q (e1.1 q ∙ empty) in
      let r = answer_value j (p.read_int (pos a) w) (v.content w q) (c.read_reads a q w pj) in
      let x : code_read k o p (call (p.read_int (pos a)) j).0
          ≡ code_read k o p (some (v.content (last_state end) q)) =
        ap (code_read k o p) (r ∙ ap some cj) in
      conclude end tells f (close k (pos a) (call (p.read_int (pos a)) j).1).1 x
    where
      conclude :
          (end : End W)
          → Tells v k o p c b q high end
          → Forked k o p g s0 n end
          → {code : ℕ} (z : Machine W)
          → code ≡ code_read k o p (some (v.content (last_state end) q))
          → Says k o p g s0 (finish_parent k o p n (code, no_descriptors, z))
      conclude (started w) tells f {code} z x =
          finish_zero k o p g s0 n code no_descriptors z w
            (x ∙ ap (λ y. code_read k o p (some y)) tells) f
      conclude (died e w) tells f {code} z x =
          finish_error k o p g s0 n code e no_descriptors z w
            (x ∙ ap (λ y. code_read k o p (some y)) tells.0) tells.1 f
      conclude (ended w) tells f z x = absurd tells
      conclude (overrun w) tells f z x = absurd tells

  module _ (g : Program) (path_text : NoNul? v k o p c g.path)
      (command_text : NoNul g.command) where
    child-Tells :
        (a b q : ℕ) (high : 2 < b) (s : Machine W)
        → a ≢ b
        → v.pipe_of s.os b ≡ some q
        → v.content s.os q ≡ none
        → Tells v k o p c b q high
            (run_child k o p g (record no_descriptors { die_reader = pos a; die_writer = pos b }) s)
    unfolding run_child
    child-Tells a b q high s d pb empty =
        let e = close_Same v k o p c (pos a) s in
        exec_program-Tells v k o p c b q high g false (record no_descriptors { die_writer = pos b })
          (close k (pos a) s).1 path_text command_text
          (refl, cc, e.0 b (λ x. d (sym (ap pos_part x))) ∙ pb, e.1 q ∙ empty)

    after_fork-Says :
        (a b q : ℕ) (high : 2 < b) (s : Machine W) (r : Reply ℕ × W)
        → r ≡ p.fork s.os
        → a ≢ b
        → v.pipe_of s.os a ≡ some q
        → v.pipe_of s.os b ≡ some q
        → v.content s.os q ≡ none
        → Begun k o p s0 (record no_descriptors { die_reader = pos a; die_writer = pos b }) s
        → Says k o p g s0 (
            after_fork k o p g
              (record no_descriptors { die_reader = pos a; die_writer = pos b })
              (answer s r))
    unfolding after_fork
    after_fork-Says a b q high s (failed e, w) f d pa pb empty begun =
        inl (refl, inr (inr (_, s, begun, sym (ap (λ x. x.0) f))))
    after_fork-Says a b q high s (done n, w) f d pa pb empty begun =
        let impl = record no_descriptors { die_reader = pos a; die_writer = pos b } in
        let e = c.fork_same s.os in
        let ew : w ≡ (p.fork s.os).1 = ap (λ x. x.1) f in
        let m = record s { os = p.child w } in
        let child_pipe = λ (i : ℕ). ap (λ y. v.pipe_of (p.child y) i) ew ∙ e.1.0 i in
        let child_content = ap (λ y. v.content (p.child y) q) ew ∙ e.1.1 q in
        parent-Says g n (run_child k o p g impl m) a b q high (record s { os = w }) d
          (ap (λ y. v.pipe_of y a) ew ∙ (e.0.0 a ∙ pa))
          (ap (λ y. v.content y q) ew ∙ (e.0.1 q ∙ empty))
          (child-Tells a b q high m d (child_pipe b ∙ pb) (child_content ∙ empty))
          (
            impl,
            s,
            begun,
            sym (ap (λ x. x.0) f),
            ap (λ y. run_child k o p g impl (record s { os = p.child y })) (sym ew),
          )

    after_die-Says :
        (t : Machine W) (r : Reply (ℕ × ℕ) × W)
        → OpensTwo u t.os r
        → OpensPipe v t.os r
        → ((n : ℕ) → n < 3 → u.opened t.os n ≡ true)
        → (m : ℕ) → (sigmask_block_all_signals k 0 s0).0 ≡ some m
        → open_die k o p no_descriptors (sigmask_block_all_signals k 0 s0).1
          ≡ set_die k o p no_descriptors (answer t r)
        → Says k o p g s0 (after_die k o p g (set_die k o p no_descriptors (answer t r)))
    unfolding after_die set_die destroy
    after_die-Says t (failed e, w) h l open3 m blocked opens =
        inl (refl, inr (inl (m, blocked, ap (λ x. x.0) opens, ap (λ x. x.1.errno) opens)))
    after_die-Says t (done (a, b), w) h (q, pa, pb, empty) open3 m blocked opens =
        let s = record t { os = w } in
        after_fork-Says a b q (above (u.opened t.os) b open3 h.2) s (p.fork w) refl h.0 pa pb empty
          (m, blocked, opens)

    open_kept :
        (s : Machine W) (r : Result W ℕ) (m : ℕ)
        → Blocked u k o d s r
        → r.0 ≡ some m
        → SameOpen u s.os r.1.os
    open_kept s (some m', t) m b e = b.0
    open_kept s (none, t) m b e = b.0.0

    -- Where the system has `pipe2`, the descriptors 0, 1 and 2 are open, and path and command are texts:
    -- `forkexec` returns 0 only if its `fork` has made the process `pid` and the child runs the program. If
    -- it returns -1, then `pid` is -1 and there is no child, because the signals could not be blocked, the
    -- pipe could not be opened or `fork` has failed, and `errno` is that error; or the child that `fork`
    -- made as `pid` has died, and `errno` is the error that it died with.
    pub forkexec-Verdict :
        o.have_pipe2 ≡ true
        → ((n : ℕ) → n < 3 → u.opened s0.os n ≡ true)
        → Verdict k o p g s0 (forkexec k o p g s0).0 (forkexec k o p g s0).1.errno
    unfolding forkexec open_die compat_pipe2
    forkexec-Verdict has open3 =
        let r = sigmask_block_all_signals k 0 s0 in
        with_mask-Verdict k o p g s0 (λ t. after_die k o p g (open_die k o p no_descriptors t)) r
          refl
          (λ m e.
            let same = open_kept s0 r m (sigmask_block_all_signals-Blocked u k o d s0) e in
            let opens : open_die k o p no_descriptors r.1
                ≡ set_die k o p no_descriptors (answer r.1 (o.pipe2 k.o_cloexec r.1.os)) =
              rw has refl in
            subst (λ x. Says k o p g s0 (after_die k o p g x)) (sym opens)
              (after_die-Says r.1 (o.pipe2 k.o_cloexec r.1.os) (d.pipe2_opens k.o_cloexec r.1.os)
                (c.pipe2_opens k.o_cloexec r.1.os) (λ n l. same n ∙ open3 n l) m e opens))
