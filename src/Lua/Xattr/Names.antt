-- ===== src/Lua/Xattr/Names.antt =====
-- src/lua/sys_xattr.cpp: the list of the names that `impl_listxattr_` makes of the bytes that the system
-- gives, where names may come and go between its two calls.
use dromozoa_unix.Prelude.{
  ℕ, zero, suc, ◌+◌, ◌<◌, ◌≡◌, ◌≢◌, ◌∙◌, refl, ap, arith, true, some, List, [], ◌∷◌, ◌++◌, length,
  drop, replicate, All, leb, ltb, if◌then◌else◌, Bool-cases, inl, inr, length-append, lt→ltb,
}
use mathlib.Core.List.{append_assoc}
use dromozoa_unix.Prelude.Int.{ℤ}
use dromozoa_unix.Fd.{Reply, done, failed}
use dromozoa_unix.Lua.{
  index, text, table, Fields, end, field, Answer, returned, Session, error_of, at,
}
use dromozoa_unix.Lua.Buffer.{filled, c_string, append-c_string}
use dromozoa_unix.Lua.Xattr.{Bytes, list_names, listed, sized, impl_listxattr_}

-- The names one after another, each with its NUL, as the system gives them.
unfoldable pub joined : List Bytes → Bytes
joined [] = []
joined (name ∷ names) = name ++ (zero ∷ joined names)

-- A table with the names from index `i` on.
unfoldable pub array : ℕ → List Bytes → Fields
array i [] = end
array i (name ∷ names) = field (index i) (text name) (array (i + 1) names)

abbrev pub IsName : Bytes → Type 0
IsName name = All (λ c. c ≢ 0) name

drop-add : (j k : ℕ) (b : Bytes) → drop (j + k) b ≡ drop k (drop j b)
drop-add zero k b = ap (λ (n : ℕ). drop n b) (omega arith)
drop-add (suc j) zero [] = ap (λ (n : ℕ). drop n []) {x = suc j + zero} {y = suc j} (omega arith)
drop-add (suc j) (suc k) [] =
    ap (λ (n : ℕ). drop n []) {x = suc j + suc k} {y = suc (suc (j + k))} (omega arith)
drop-add (suc j) k (c ∷ b) =
    ap (λ (n : ℕ). drop n (c ∷ b)) {x = suc j + k} {y = suc (j + k)} (omega arith) ∙ drop-add j k b

-- Past the first name and its NUL.
drop-name : (name rest : Bytes) → drop (length name + 1) (name ++ (zero ∷ rest)) ≡ rest
drop-name [] rest = refl
drop-name (c ∷ name) rest =
    ap (λ (n : ℕ). drop n (c ∷ name ++ (zero ∷ rest))) {x = suc (length name) + 1}
      {y = suc (length name + 1)} (omega arith)
    ∙ drop-name name rest

list_names-joined :
    (rounds : ℕ) (buffer : Bytes) (i j : ℕ) (names : List Bytes) (rest : Bytes)
    → All IsName names
    → drop j buffer ≡ joined names ++ rest
    → length (joined names) < rounds
    → list_names rounds buffer (j + length (joined names)) i j ≡ some (array i names)
unfolding list_names joined array
list_names-joined zero buffer i j names rest h at_j room = absurd (omega arith)
list_names-joined (suc rounds) buffer i j [] rest h at_j room = ground arith
list_names-joined (suc rounds) buffer i j (name ∷ names) rest h at_j room =
    let after : Bytes = joined names ++ rest in
    let here : drop j buffer ≡ name ++ (zero ∷ after) =
      at_j ∙ append_assoc name (zero ∷ joined names) rest in
    let named : c_string (drop j buffer) ≡ some name =
      ap c_string here ∙ append-c_string name after h.0 in
    let next : drop (j + (length name + 1)) buffer ≡ after =
      drop-add j (length name + 1) buffer
      ∙ (ap (drop (length name + 1)) here ∙ drop-name name after) in
    let size : length (name ++ (zero ∷ joined names)) ≡ length name + suc (length (joined names)) =
      length-append name (zero ∷ joined names) in
    let more : ltb j (j + length (name ++ (zero ∷ joined names))) ≡ true =
      lt→ltb _ _ (omega (arith, size)) in
    let shift : j + length (name ++ (zero ∷ joined names))
        ≡ j + (length name + 1) + length (joined names) =
      omega (arith, size) in
    let ih =
      list_names-joined rounds buffer (i + 1) (j + (length name + 1)) names rest h.1 next
        (omega (arith, size)) in
    rw (more, list_names) (rw (named, list_names) (rw shift (rw ih)))

-- The reply to a call that fills a buffer of `size` bytes: the names, where there is room.
abbrev pub names_reply : {W : Type 0} → List Bytes → ℕ → ℕ → W → Reply (ℕ × Bytes) × W
names_reply names size erange w =
    if leb (length (joined names)) size
    then (done (length (joined names), joined names), w)
    else (failed erange, w)

-- What Lua is given of the names at the first call and those at the second.
pub expected :
    {W : Type 0} (strerror : ℤ → Bytes) (erange : ℕ) (old new : List Bytes) (w1 w2 : W)
    → Session W
    → Answer × Session W
expected strerror erange [] new w1 w2 s = (returned (table end ∷ []), at w1 s)
expected strerror erange (name ∷ old) new w1 w2 s =
    if leb (length (joined new)) (length (joined (name ∷ old)))
    then (returned (table (array 1 new) ∷ []), at w2 s)
    else error_of strerror erange w2 s

listed-suc :
    {W : Type 0} (size m : ℕ) (written : Bytes) (names : List Bytes) (s : Session W)
    → All IsName names
    → written ≡ joined names
    → length written ≡ suc m
    → listed size (suc m, written) s ≡ (returned (table (array 1 names) ∷ []), s)
unfolding listed filled
listed-suc size m written names s h e n =
    let rest : Bytes = drop (length written) (replicate size 0) in
    let size_eq : 0 + length (joined names) ≡ suc m =
      omega (arith, n, ap {A = Bytes} (λ b. length b) e) in
    let found : list_names (suc (suc m)) (written ++ rest) (suc m) 1 0 ≡ some (array 1 names) =
      rw size_eq at (
        list_names-joined (suc (suc m)) (written ++ rest) 1 0 names rest h
          (ap {A = Bytes} (λ b. b ++ rest) e) (omega (arith, size_eq))) in
    rw found

listed-joined :
    {W : Type 0} (size : ℕ) (new : List Bytes) (s : Session W)
    → All IsName new
    → listed size (length (joined new), joined new) s ≡ (returned (table (array 1 new) ∷ []), s)
unfolding listed joined array
listed-joined size [] s h = refl
listed-joined size (name ∷ new) s h =
    let n : length (name ++ (zero ∷ joined new)) ≡ suc (length name + length (joined new)) =
      omega (arith, length-append name (zero ∷ joined new)) in
    rw n (
      listed-suc size (length name + length (joined new)) (joined (name ∷ new)) (name ∷ new) s h
        refl n)

module _ {W : Type 0} (strerror : ℤ → Bytes) (f : Bytes → ℕ → W → Reply (ℕ × Bytes) × W)
    (path : Bytes) (erange : ℕ) (new : List Bytes) (w1 w2 : W) (s : Session W)
    (second : (n : ℕ) → f path (suc n) w1 ≡ names_reply new (suc n) erange w2)
    (names : All IsName new) where
  after_first :
      (m : ℕ)
      → sized strerror (f path) (suc m) (at w1 s) ≡ (
          if leb (length (joined new)) (suc m)
          then (returned (table (array 1 new) ∷ []), at w2 s)
          else error_of strerror erange w2 s)
  unfolding sized
  after_first m = elim (Bool-cases (leb (length (joined new)) (suc m))) [
    | inl fits ↦ rw (second m) (rw fits (listed-joined (suc m) new (at w2 s) names))
    | inr small ↦ rw (second m) (rw small)
  ]

  -- `impl_listxattr_` and `listxattr`, whose first call is told the size of the names of that time and
  -- whose second call gives the names of its own time, where they fit: if there were no names, an empty
  -- table; if the names still fit, a table of just these names, in their order, from index 1 on; else
  -- the error of the call. Nothing is read outside of the buffer.
  pub impl_listxattr_-names :
      (old : List Bytes)
      → f path 0 s.machine.os ≡ (done (length (joined old), []), w1)
      → impl_listxattr_ strerror f (some path) s ≡ expected strerror erange old new w1 w2 s
  unfolding impl_listxattr_ expected joined sized
  impl_listxattr_-names [] first = rw first
  impl_listxattr_-names (name ∷ old) first =
      let n : length (name ++ (zero ∷ joined old)) ≡ suc (length name + length (joined old)) =
        omega (arith, length-append name (zero ∷ joined old)) in
      rw first (rw n (after_first (length name + length (joined old))))
