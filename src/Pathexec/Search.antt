-- ===== src/Pathexec/Search.antt =====
-- src/lib/pathexec.cpp against a description by lists: the path split at its colons, and the
-- candidates tried in that order.
use dromozoa_unix.Prelude.{
  ◌>>=◌, ℕ, ◌+◌, ◌-◌, ◌≤◌, ◌<◌, ◌≡◌, ◌≢◌, refl, sym, ap, ◌∙◌, Bool, true, false, Option, none, some,
  List, [], ◌∷◌, ◌++◌, map, arith, length, length-append, take, drop, drop-append, take-append, All,
  ltb, ◌==◌, if◌then◌else◌, ◌||◌, not, Bool-cases, inl, inr, ==_iff,
}
use mathlib.Core.List.{append_assoc, append-nil}
use dromozoa_unix.Pathexec.{
  Exec, Outcome, replaced, returned, go_on, stop, longest, pathexec_buffer_size, has_slash,
  after_execve, visit, search_loop, pathexec,
}
use dromozoa_unix.Pathexec.Copy.{directory, candidate, fill_lem}

-- The parts of a path, `cur` begun already.
unfoldable pub parts : List ℕ → List ℕ → List (List ℕ)
parts cur [] = cur ∷ []
parts cur (c ∷ rest) = elim (c == b':') [
  | true ↦ cur ∷ parts [] rest
  | false ↦ parts (cur ++ (c ∷ [])) rest
]

module _ {W : Type 0} (os : Exec W) where
  -- An error other than the four ends the search.
  abbrev pub ends_search : ℕ → Bool
  ends_search e = not (e == os.enoent || (e == os.eacces || (e == os.eisdir || e == os.eperm)))

  -- The candidates one after the other: the last error that is not ENOENT is the result.
  unfoldable pub try_each : List (List ℕ) → ℕ → W → Outcome W
  try_each [] code w = returned code w
  try_each (c ∷ cs) code w =
      let (r, w') = os.execve c w in
      elim r [
        | none ↦ replaced w'
        | some e ↦ elim (ends_search e) [
          | true ↦ returned e w'
          | false ↦ try_each cs (if e == os.enoent then code else e) w'
        ]
      ]

module _ (c : ℕ) (rest : List ℕ) where
  parts-colon : (cur : List ℕ) → (c == b':') ≡ true → parts cur (c ∷ rest) ≡ cur ∷ parts [] rest
  unfolding parts
  parts-colon cur h = rw (h, parts)

  parts-plain :
      (cur : List ℕ) → (c == b':') ≡ false → parts cur (c ∷ rest) ≡ parts (cur ++ (c ∷ [])) rest
  unfolding parts
  parts-plain cur h = rw (h, parts)

  longest-colon :
      (i j size : ℕ)
      → (c == b':') ≡ true
      → longest (c ∷ rest) i j size
        ≡ longest rest (i + 1) (i + 1) (if ltb size (i - j) then i - j else size)
  unfolding longest
  longest-colon i j size h = rw (h, longest)

  longest-plain :
      (i j size : ℕ)
      → (c == b':') ≡ false
      → longest (c ∷ rest) i j size ≡ longest rest (i + 1) j size
  unfolding longest
  longest-plain i j size h = rw (h, longest)

module _ {W : Type 0} (os : Exec W) (cs : List (List ℕ)) (code : ℕ) (b : List ℕ) where
  abbrev try_next : Option ℕ × W → Outcome W
  try_next p = elim p.0 [
    | none ↦ replaced p.1
    | some e ↦ elim (ends_search os e) [
      | true ↦ returned e p.1
      | false ↦ try_each os cs (if e == os.enoent then code else e) p.1
    ]
  ]

  -- The `switch` and what follows it, where the loop goes on with the other candidates.
  after_execve_lem :
      (k : ℕ → List ℕ → W → Option (Outcome W))
      → ((code' : ℕ) (w : W) → k code' b w ≡ some (try_each os cs code' w))
      → (p : Option ℕ × W)
      → ◌≡◌ {A = Option (Outcome W)}
          (elim (after_execve os code b p) [ stop o ↦ some o | go_on code' b' w ↦ k code' b' w ])
          (some (try_next p))
  unfolding after_execve
  after_execve_lem k h (none, w) = refl
  after_execve_lem k h (some e, w) = ground (arith, h code w, h e w)

-- The longest part bounds each part.
abbrev pub Within : ℕ → List (List ℕ) → Type 0
Within n = All (λ part. length part ≤ n)

longest-le : (rest : List ℕ) (i j size : ℕ) → size ≤ longest rest i j size
unfolding longest
longest-le [] i j size = ground arith
longest-le (c ∷ rest) i j size = ground (
  arith,
  longest-le rest (i + 1) (i + 1) size,
  longest-le rest (i + 1) (i + 1) (i - j),
  longest-le rest (i + 1) j size,
)

longest-Within :
    (rest cur : List ℕ) (i j size n : ℕ)
    → length cur + j ≡ i
    → longest rest i j size ≤ n
    → Within n (parts cur rest)
unfolding longest parts
longest-Within [] cur i j size n h b = (ground arith, tt)
longest-Within (c ∷ rest) cur i j size n h b = elim (Bool-cases (c == b':')) [
  | inl colon ↦
      let longer : ℕ = if ltb size (i - j) then i - j else size in
      let b' : longest rest (i + 1) (i + 1) longer ≤ n =
        rw (longest-colon c rest i j size colon) at b in
      rw (parts-colon c rest cur colon) (
        ground (arith, longest-le rest (i + 1) (i + 1) longer),
        longest-Within rest [] (i + 1) (i + 1) longer n (omega arith) b',
      )
  | inr plain ↦ rw (parts-plain c rest cur plain) (
      longest-Within rest (cur ++ (c ∷ [])) (i + 1) j size n
        (omega (arith, length-append cur (c ∷ []))) (rw (longest-plain c rest i j size plain) at b))
]

abbrev pub NoNul : List ℕ → Type 0
NoNul = All (λ c. c ≢ 0)

NoNul-snoc : (xs : List ℕ) (c : ℕ) → NoNul xs → c ≢ 0 → NoNul (xs ++ (c ∷ []))
NoNul-snoc [] c h k = (k, tt)
NoNul-snoc (x ∷ xs) c h k = (h.0, NoNul-snoc xs c h.1 k)

module _ {W : Type 0} (os : Exec W) (path command : List ℕ) (size : ℕ) where
  -- The loop stands at `i`, behind the begun part `cur`, before which the path is `done`.
  record Position (done cur rest : List ℕ) (i j : ℕ) : Type 0 where
    split : path ≡ done ++ (cur ++ rest)
    start : j ≡ length done
    here : i ≡ length done + length cur

  Position-colon :
      (done cur rest : List ℕ) (c i j : ℕ)
      → Position done cur (c ∷ rest) i j
      → Position (done ++ (cur ++ (c ∷ []))) [] rest (i + 1) (i + 1)
  Position-colon done cur rest c i j at = record {
    split =
        at.split
        ∙ sym (
            append_assoc done (cur ++ (c ∷ [])) rest
            ∙ ap (◌++◌ done) (append_assoc cur (c ∷ []) rest));
    start =
        omega (arith, at.here, length-append done (cur ++ (c ∷ [])), length-append cur (c ∷ []));
    here = omega (arith, at.here, length-append done (cur ++ (c ∷ [])), length-append cur (c ∷ []));
  }

  Position-plain :
      (done cur rest : List ℕ) (c i j : ℕ)
      → Position done cur (c ∷ rest) i j
      → Position done (cur ++ (c ∷ [])) rest (i + 1) j
  Position-plain done cur rest c i j at = record {
    split = at.split ∙ ap (◌++◌ done) (sym (append_assoc cur (c ∷ []) rest));
    start = at.start;
    here = omega (arith, at.here, length-append cur (c ∷ []));
  }

  -- Where all parts fit, a visit gives the candidate to `execve`, and keeps the buffer's length.
  visit_lem :
      (done cur rest buffer : List ℕ) (i j code : ℕ) (w : W)
      → Position done cur rest i j
      → length cur + 1 + length command < size
      → 2 + length command < size
      → size ≤ length buffer
      → NoNul cur
      → NoNul command
      → (b : List ℕ) × (visit os path command size i j code buffer w
          ≡ some (after_execve os code b (os.execve (candidate command cur) w)))
        × (length b ≡ length buffer)
  unfolding visit
  visit_lem done cur rest buffer i j code w at fits one room nc nm =
      let (b, filled, held, l) =
        fill_lem buffer path command cur i j part (omega arith) (wide cur fits) nc nm in
      (b, rw test (rw (filled, ◌>>=◌) (rw held)), l)
    where
      whole : i - j ≡ length cur
      whole = omega arith

      part : cur ≡ take (i - j) (drop j path)
      part =
          rw (whole, at.split, at.start)
            (rw (drop-append done (cur ++ rest)) (sym (take-append cur rest)))

      wide :
          (cur : List ℕ)
          → length cur + 1 + length command < size
          → length (directory cur) + length command + 2 ≤ length buffer
      wide [] f = omega arith
      wide (c ∷ cs) f = omega arith

      test : ltb ((if ltb j i then i - j else 1) + 1 + length command) size ≡ true
      test = ground arith

  -- Each part of a list fits the buffer.
  abbrev Fits : List (List ℕ) → Type 0
  Fits = All (λ part. length part + 1 + length command < size)

  -- From any position the loop does what `try_each` does with the parts that are left.
  search_loop_lem :
      (rest done cur buffer : List ℕ) (i j code : ℕ) (w : W)
      → Position done cur rest i j
      → Fits (parts cur rest)
      → 2 + length command < size
      → size ≤ length buffer
      → NoNul cur
      → NoNul rest
      → NoNul command
      → search_loop os path command size rest i j code buffer w
        ≡ some (try_each os (map (candidate command) (parts cur rest)) code w)
  unfolding search_loop try_each parts
  search_loop_lem [] done cur buffer i j code w at fits one room nc nr nm =
      let (b, visited, l) = visit_lem done cur [] buffer i j code w at fits.0 one room nc nm in
      rw (visited, ◌>>=◌)
        (after_execve_lem os [] code b (λ code' _ w'. some (returned code' w')) (λ code' w'. refl)
          _)
  search_loop_lem (c ∷ rest) done cur buffer i j code w at fits one room nc nr nm =
      elim (Bool-cases (c == b':')) [
        | inl colon ↦
            let fits' : Fits (cur ∷ parts [] rest) = rw (parts-colon c rest cur colon) at fits in
            let (b, visited, l) =
              visit_lem done cur (c ∷ rest) buffer i j code w at fits'.0 one room nc nm in
            rw (colon, search_loop)
              (rw (visited, ◌>>=◌)
                (rw (parts-colon c rest cur colon) (
                  after_execve_lem os (map (candidate command) (parts [] rest)) code b
                    (λ code' b' w'.
                      search_loop os path command size rest (i + 1) (i + 1) code' b' w')
                    (λ code' w'.
                      search_loop_lem rest (done ++ (cur ++ (c ∷ []))) [] b (i + 1) (i + 1) code' w'
                        (Position-colon done cur rest c i j at) fits'.1 one (omega arith) tt nr.1
                        nm)
                    _)))
        | inr plain ↦
            rw (plain, search_loop)
              (rw (parts-plain c rest cur plain) (
                search_loop_lem rest done (cur ++ (c ∷ [])) buffer (i + 1) j code w
                  (Position-plain done cur rest c i j at)
                  (rw (parts-plain c rest cur plain) at fits) one room (NoNul-snoc cur c nc nr.0)
                  nr.1 nm))
      ]

longest-Fits :
    (n command : ℕ) (ps : List (List ℕ))
    → Within n ps
    → All (λ part. length part + 1 + command < n + command + 2) ps
longest-Fits n command [] h = tt
longest-Fits n command (p ∷ ps) h = (omega arith, longest-Fits n command ps h.1)

-- For a command without a slash and a path, a buffer of the size that `pathexec_buffer_size` gives
-- (or a larger one) is never overrun, and `pathexec` gives `execve` just the candidates that the
-- parts of the path make with the command, in their order, until one replaces the process or fails
-- with an error other than the four; if none does, it returns the last error that is not ENOENT.
pub pathexec-try_each :
    {W : Type 0} (os : Exec W) (path command buffer : List ℕ) (w : W)
    → has_slash command ≡ false
    → NoNul path
    → NoNul command
    → pathexec_buffer_size (some path) command ≤ length buffer
    → pathexec os (some path) command buffer (pathexec_buffer_size (some path) command) w
      ≡ some (try_each os (map (candidate command) (parts [] path)) os.enoent w)
unfolding pathexec pathexec_buffer_size
pathexec-try_each os path command buffer w plain np nc room = rw plain (
    search_loop_lem os path command (longest path 0 0 1 + length command + 2) path [] [] buffer 0 0
      os.enoent w (record { split = refl; start = refl; here = refl })
      (longest-Fits (longest path 0 0 1) (length command) (parts [] path)
        (longest-Within path [] 0 0 1 (longest path 0 0 1) refl (omega arith)))
      (omega (arith, longest-le path 0 0 1)) (rw (plain, pathexec_buffer_size) at room) tt np nc)

-- Lists of bytes, joined by colons.
abbrev pub join : List (List ℕ) → List ℕ
join [] = []
join (p ∷ []) = p
join (p ∷ (q ∷ ps)) = p ++ (b':' ∷ join (q ∷ ps))

abbrev pub NoColon : List ℕ → Type 0
NoColon = All (λ c. c ≢ b':')

NoColon-snoc : (xs : List ℕ) (c : ℕ) → NoColon xs → c ≢ b':' → NoColon (xs ++ (c ∷ []))
NoColon-snoc [] c h k = (k, tt)
NoColon-snoc (x ∷ xs) c h k = (h.0, NoColon-snoc xs c h.1 k)

parts-nonempty :
    (cur rest : List ℕ) → (p : List ℕ) × (ps : List (List ℕ)) × (parts cur rest ≡ p ∷ ps)
unfolding parts
parts-nonempty cur [] = (cur, [], refl)
parts-nonempty cur (c ∷ rest) = elim (Bool-cases (c == b':')) [
  | inl colon ↦ (cur, parts [] rest, parts-colon c rest cur colon)
  | inr plain ↦
      let (p, ps, e) = parts-nonempty (cur ++ (c ∷ [])) rest in
      (p, ps, parts-plain c rest cur plain ∙ e)
]

join-cons :
    (p q : List ℕ) (ps qs : List (List ℕ)) → qs ≡ q ∷ ps → join (p ∷ qs) ≡ p ++ (b':' ∷ join qs)
join-cons p q ps qs e = rw e

join-parts : (cur rest : List ℕ) → join (parts cur rest) ≡ cur ++ rest
unfolding parts
join-parts cur [] = sym (append-nil cur)
join-parts cur (c ∷ rest) = elim (Bool-cases (c == b':')) [
  | inl colon ↦
      let (q, ps, e) = parts-nonempty [] rest in
      ap join (parts-colon c rest cur colon)
      ∙ join-cons cur q ps (parts [] rest) e
      ∙ ap (λ r. cur ++ (b':' ∷ r)) (join-parts [] rest)
      ∙ ap (λ (d : ℕ). cur ++ (d ∷ rest)) (sym ((==_iff c b':').0 colon))
  | inr plain ↦
      ap join (parts-plain c rest cur plain)
      ∙ join-parts (cur ++ (c ∷ [])) rest
      ∙ append_assoc cur (c ∷ []) rest
]

parts-NoColon : (cur rest : List ℕ) → NoColon cur → All NoColon (parts cur rest)
unfolding parts
parts-NoColon cur [] h = (h, tt)
parts-NoColon cur (c ∷ rest) h = elim (Bool-cases (c == b':')) [
  | inl colon ↦ rw (parts-colon c rest cur colon) (h, parts-NoColon [] rest tt)
  | inr plain ↦
      rw (parts-plain c rest cur plain)
        (parts-NoColon (cur ++ (c ∷ [])) rest (NoColon-snoc cur c h (ground arith)))
]

-- The parts of a path hold no colon, and joined by colons they are the path.
join-parts-NoColon : (path : List ℕ) → (join (parts [] path) ≡ path) × All NoColon (parts [] path)
join-parts-NoColon path = (join-parts [] path, parts-NoColon [] path tt)
