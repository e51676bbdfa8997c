-- ===== src/Forkexec/Ends.antt =====
-- src/lib/forkexec.cpp: how the call of `pathexec` in a child ends.
use dromozoa_unix.Prelude.{
  ℕ, ◌≡◌, ◌≢◌, refl, ◌∙◌, arith, leb, leb→le, length, length-replicate, ◌≤◌, true, false, Option,
  none, some, List, [], ◌∷◌, map, ◌==◌, Bool-cases, inl, inr, if◌then◌else◌,
}
use dromozoa_unix.Pathexec.{
  Outcome, replaced, returned, pathexec, pathexec_buffer_size, has_slash, execve_only,
}
use dromozoa_unix.Pathexec.Search.{ends_search, try_each, NoNul, pathexec-try_each, parts}
use dromozoa_unix.Pathexec.Copy.{candidate}
use dromozoa_unix.Fd.{Reply, done, failed, Machine, Kernel, answer, call}
use dromozoa_unix.Fd.Compat.{Openers}
use dromozoa_unix.Forkexec.{Processes, buffer_of}
use dromozoa_unix.Forkexec.Laws.{PipeView, SamePipes, PipeContract}

module _ {W : Type 0} (v : PipeView W) where
  pub SamePipes-trans : {a b c : W} → SamePipes v a b → SamePipes v b c → SamePipes v a c
  SamePipes-trans h g = (λ n. g.0 n ∙ h.0 n, λ q. g.1 q ∙ h.1 q)

  pub SamePipes-refl : (w : W) → SamePipes v w w
  SamePipes-refl w = (λ n. refl, λ q. refl)

  pub call_os : {A : Type 0} (f : W → Reply A × W) (s : Machine W) → (call f s).1.os ≡ (f s.os).1
  call_os {A = A} f s = answer_state s (f s.os)
    where
      answer_state : (s : Machine W) (r : Reply A × W) → (answer s r).1.os ≡ r.1
      answer_state s (done a, w) = refl
      answer_state s (failed e, w) = refl

  module _ (k : Kernel W) (o : Openers W) (p : Processes W) (c : PipeContract v k o p) where
    -- How `pathexec` ends: no pipe has changed, and an error is not 0.
    abbrev pub Ends : W → Outcome W → Type 0
    Ends w0 (replaced w) = SamePipes v w0 w
    Ends w0 (returned e w) = SamePipes v w0 w × (e ≢ 0)

    abbrev try_next : (ℕ → W → Outcome W) → ℕ → Option ℕ × W → Outcome W
    try_next rest code r = elim r.0 [
      | none ↦ replaced r.1
      | some e ↦ elim (ends_search p.exec e) [
        | true ↦ returned e r.1
        | false ↦ rest (if e == p.exec.enoent then code else e) r.1
      ]
    ]

    try_next-Ends :
        (rest : ℕ → W → Outcome W) (code : ℕ) (w0 : W) (r : Option ℕ × W)
        → ((code' : ℕ) (w : W) → code' ≢ 0 → SamePipes v w0 w → Ends w0 (rest code' w))
        → code ≢ 0
        → SamePipes v w0 r.1
        → ((e : ℕ) → r.0 ≡ some e → e ≢ 0)
        → Ends w0 (try_next rest code r)
    try_next-Ends rest code w0 (none, w) f h s z = s
    try_next-Ends rest code w0 (some e, w) f h s z = elim (Bool-cases (ends_search p.exec e)) [
      | inl last ↦ rw (last, Ends) (s, z e refl)
      | inr more ↦ elim (Bool-cases (e == p.exec.enoent)) [
        | inl absent ↦ rw (more, absent, Ends) (f code w h s)
        | inr other ↦ rw (more, other, Ends) (f e w (z e refl) s)
      ]
    ]

    try_each-Ends :
        (cs : List (List ℕ)) (code : ℕ) (w0 w : W)
        → code ≢ 0
        → SamePipes v w0 w
        → Ends w0 (try_each p.exec cs code w)
    unfolding try_each
    try_each-Ends [] code w0 w h s = (s, h)
    try_each-Ends (f ∷ cs) code w0 w h s =
        try_next-Ends (try_each p.exec cs) code w0 (p.exec.execve f w)
          (λ code' w'. try_each-Ends cs code' w0 w') h (SamePipes-trans s (c.execve_same f w))
          (c.execve_nonzero f w)

    execve_only-Ends :
        (w0 : W) (r : Option ℕ × W)
        → SamePipes v w0 r.1
        → ((e : ℕ) → r.0 ≡ some e → e ≢ 0)
        → Ends w0 (execve_only p.exec r)
    execve_only-Ends w0 (none, w) s z = s
    execve_only-Ends w0 (some e, w) s z = (s, z e refl)

    abbrev pub NoNul? : Option (List ℕ) → Type 0
    NoNul? none = Unit
    NoNul? (some path) = NoNul path

    length-buffer_of : (n : ℕ) → n ≤ length (buffer_of n)
    length-buffer_of n = elim (Bool-cases (leb n 256)) [
      | inl fits ↦ rw fits (omega (arith, length-replicate {A = ℕ} 256 0, leb→le n 256 fits))
      | inr large ↦ rw large (omega (arith, length-replicate {A = ℕ} n 0))
    ]

    -- `pathexec` in its buffer ends, and does not write outside.
    abbrev pub PathexecEnds : Option (List ℕ) → List ℕ → W → Type 0
    PathexecEnds path command w =
        (r : Outcome W) × (pathexec p.exec path command
            (buffer_of (pathexec_buffer_size path command)) (pathexec_buffer_size path command) w
          ≡ some r)
        × Ends w r

    pathexec_plain :
        (path : Option (List ℕ)) (command : List ℕ) (w : W)
        → has_slash command ≡ false
        → NoNul? path
        → NoNul command
        → PathexecEnds path command w
    unfolding pathexec
    pathexec_plain none command w plain hp hc =
        (returned p.exec.enoent w, rw plain, (SamePipes-refl w, c.enoent_nonzero))
    pathexec_plain (some path) command w plain hp hc =
        let size = pathexec_buffer_size (some path) command in
        let names = map (candidate command) (parts [] path) in
        (
          try_each p.exec names p.exec.enoent w,
          pathexec-try_each p.exec path command (buffer_of size) w plain hp hc
              (length-buffer_of size),
          try_each-Ends names p.exec.enoent w w c.enoent_nonzero (SamePipes-refl w),
        )

    pub pathexec-Ends :
        (path : Option (List ℕ)) (command : List ℕ) (w : W)
        → NoNul? path
        → NoNul command
        → PathexecEnds path command w
    unfolding pathexec
    pathexec-Ends path command w hp hc = elim (Bool-cases (has_slash command)) [
      | inl slash ↦ (
        execve_only p.exec (p.exec.execve command w),
        rw slash,
        execve_only-Ends w (p.exec.execve command w) (c.execve_same command w)
            (c.execve_nonzero command w),
      )
      | inr plain ↦ pathexec_plain path command w plain hp hc
    ]
