-- ===== src/Fd/Made.antt =====
-- src/lib/compat_pipe2.cpp: where the two descriptors come from.
use dromozoa_unix.Prelude.{
  ℕ, ◌≡◌, refl, ap, ◌∙◌, ◌⊎◌, inl, inr, true, false, Bool-cases, some, none, Option,
}
use dromozoa_unix.Fd.{
  Reply, done, failed, Machine, Kernel, Action, Result, answer, and_then, call, end_blocked, owned,
  ret, sigmask_block_all_signals, with_blocked,
}
use dromozoa_unix.Fd.Compat.{Openers, open_two, compat_pipe2}

abbrev or_else : {A : Type 0} → A → Option A → A
or_else a none = a
or_else a (some b) = b

module _ {W : Type 0} where
  and_then_value :
      {A B : Type 0} (f : A → Action W B) (r : Result W A) (x : B)
      → (and_then f r).0 ≡ some x
      → (y : A) × (r.0 ≡ some y) × ((f y r.1).0 ≡ some x)
  and_then_value f (some y, s) x h = (y, refl, h)
  and_then_value f (none, s) x h = cc

  call_value :
      {A : Type 0} (s : Machine W) (r : Reply A × W) (x : A)
      → (answer s r).0 ≡ some x
      → r.0 ≡ done x
  call_value s (done y, w) x h = ap done (ap (or_else y) h)
  call_value s (failed e, w) x h = cc

module _ {W : Type 0} (k : Kernel W) (o : Openers W) where
  -- The pair `(a, b)` is what the system has made, the end to read from first: by `pipe2`, or by `pipe`
  -- where signals are blocked.
  abbrev pub MadeByPipe : ℕ → Machine W → ℕ → ℕ → Type 0
  MadeByPipe flags s a b =
      ((o.have_pipe2 ≡ true) × ((o.pipe2 flags s.os).0 ≡ done (a, b)))
      ⊎ ((o.have_pipe2 ≡ false) × ((o.pipe (sigmask_block_all_signals k 0 s).1.os).0 ≡ done (a, b)))

  open_two_value :
      (make : Action W (ℕ × ℕ)) (body : ℕ → ℕ → Action W Unit) (s : Machine W) (x : ℕ × ℕ)
      → (open_two k o make body s).0 ≡ some x
      → (make s).0 ≡ some x
  unfolding open_two
  open_two_value make body s x h =
      let f : ℕ × ℕ → Action W (ℕ × ℕ) =
        λ fd t. and_then (λ _. ret fd) (owned k fd.0 (owned k fd.1 (body fd.0 fd.1)) t) in
      let (y, made, rest) = and_then_value f (make s) x h in
      let (u, ran, same) =
        and_then_value (λ _. ret y) (owned k y.0 (owned k y.1 (body y.0 y.1)) (make s).1) x rest in
      made ∙ same

  pub compat_pipe2-MadeByPipe :
      (flags : ℕ) (s : Machine W) (a b : ℕ)
      → (compat_pipe2 k o flags s).0 ≡ some (a, b)
      → MadeByPipe flags s a b
  unfolding compat_pipe2 with_blocked end_blocked
  compat_pipe2-MadeByPipe flags s a b h = elim (Bool-cases o.have_pipe2) [
    | inl has ↦ inl (has, call_value s (o.pipe2 flags s.os) (a, b) (rw has at h))
    | inr lacks ↦
        let (m, blocked, rest) =
          and_then_value _ (sigmask_block_all_signals k 0 s) (a, b) (rw lacks at h) in
        let t = (sigmask_block_all_signals k 0 s).1 in
        inr
          (lacks, call_value t (o.pipe t.os) (a, b) (open_two_value (call o.pipe) _ t (a, b) rest))
  ]
