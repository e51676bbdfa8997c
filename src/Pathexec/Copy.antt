-- ===== src/Pathexec/Copy.antt =====
-- src/lib/pathexec.cpp: what the buffer holds after the four copies.
use dromozoa_unix.Prelude.{
  ◌>>=◌, ℕ, zero, suc, ◌+◌, ◌-◌, ◌≤◌, ◌<◌, ◌≡◌, refl, sym, ap, ◌∙◌, true, false, Option, some, List,
  [], ◌∷◌, ◌++◌, arith, length, length-append, length-drop, take, take-length, ◌≢◌, drop, All, ltb,
}
use mathlib.Core.List.{append_assoc, append-nil}
use dromozoa_unix.Pathexec.{write, copy_char, copy_bytes, fill, c_string}

write-append :
    (pre : List ℕ) (x : ℕ) (post : List ℕ) (c : ℕ)
    → write (pre ++ (x ∷ post)) (length pre) c ≡ some (pre ++ (c ∷ post))
unfolding write
write-append [] x post c = refl
write-append (y ∷ pre) x post c = rw (write-append pre x post c, ◌>>=◌)

-- The pointer stands behind `pre`; what is written joins `pre`.
copy_char-append :
    (pre : List ℕ) (x : ℕ) (post : List ℕ) (c : ℕ)
    → copy_char (pre ++ (x ∷ post)) (length pre) c
      ≡ some ((pre ++ (c ∷ [])) ++ post, length (pre ++ (c ∷ [])))
unfolding copy_char
copy_char-append pre x post c =
    rw
      (write-append pre x post c, ◌>>=◌, append_assoc pre (c ∷ []) post, length-append pre (c ∷ []))

copy_bytes-append :
    (pre rest src : List ℕ) (n : ℕ)
    → n ≤ length rest
    → n ≤ length src
    → copy_bytes (pre ++ rest) (length pre) src n
      ≡ some ((pre ++ take n src) ++ drop n rest, length (pre ++ take n src))
unfolding copy_bytes
copy_bytes-append pre rest src zero h k = rw append-nil
copy_bytes-append pre [] src (suc n) h k = absurd (omega arith)
copy_bytes-append pre (x ∷ rest) [] (suc n) h k = absurd (omega arith)
copy_bytes-append pre (x ∷ rest) (c ∷ src) (suc n) h k =
    let later = copy_bytes-append (pre ++ (c ∷ [])) rest src n (omega arith) (omega arith) in
    rw (write-append pre x rest c, ◌>>=◌)
      (rw
        (
          append_assoc pre (c ∷ []) rest,
          append_assoc pre (c ∷ []) (take n src),
          length-append pre (c ∷ []),
        )
        at later)

-- The four copies after the first, from behind `pre`.
abbrev finish_fill : List ℕ → List ℕ → ℕ → Option (List ℕ)
finish_fill command b p = do
  (b2, p2) ← copy_char b p b'/'
  (b3, p3) ← copy_bytes b2 p2 command (length command)
  (b4, p4) ← copy_char b3 p3 0
  some b4

nonempty : (xs : List ℕ) → 0 < length xs → (y : ℕ) × (ys : List ℕ) × (xs ≡ y ∷ ys)
nonempty [] h = absurd (omega arith)
nonempty (y ∷ ys) h = (y, ys, refl)

finish_fill_cons :
    (pre : List ℕ) (x : ℕ) (rest command : List ℕ) (y : ℕ) (post : List ℕ)
    → length command + 1 ≤ length rest
    → drop (length command) rest ≡ y ∷ post
    → finish_fill command (pre ++ (x ∷ rest)) (length pre)
      ≡ some (((pre ++ (b'/' ∷ [])) ++ command) ++ (0 ∷ post))
finish_fill_cons pre x rest command y post h e =
    rw (copy_char-append pre x rest b'/', ◌>>=◌)
      (rw
        (
          copy_bytes-append (pre ++ (b'/' ∷ [])) rest command (length command) (omega arith)
              (omega arith),
          ◌>>=◌,
        )
        (rw (take-length command, e)
          (rw (copy_char-append ((pre ++ (b'/' ∷ [])) ++ command) y post 0, ◌>>=◌)
            (ap some (append_assoc ((pre ++ (b'/' ∷ [])) ++ command) (0 ∷ []) post)))))

finish_fill_lem :
    (pre rest command : List ℕ)
    → length command + 2 ≤ length rest
    → (post : List ℕ) × (finish_fill command (pre ++ rest) (length pre)
        ≡ some (((pre ++ (b'/' ∷ [])) ++ command) ++ (0 ∷ post)))
      × (length post + length command + 2 ≡ length rest)
finish_fill_lem pre [] command h = absurd (omega arith)
finish_fill_lem pre (x ∷ rest) command h =
    let (y, post, e) =
      nonempty (drop (length command) rest) (omega (arith, length-drop (length command) rest)) in
    (
      post,
      finish_fill_cons pre x rest command y post (omega arith) e,
      omega (arith, ap length e, length-drop (length command) rest),
    )

-- The directory that the code puts before the slash: a part that is empty is the current one.
abbrev pub directory : List ℕ → List ℕ
directory [] = b'.' ∷ []
directory (c ∷ cs) = c ∷ cs

-- What `execve` is to be given for a part of the path.
abbrev pub candidate : List ℕ → List ℕ → List ℕ
candidate command part = directory part ++ (b'/' ∷ command)

c_string-append : (xs post : List ℕ) → All (λ c. c ≢ 0) xs → c_string (xs ++ (0 ∷ post)) ≡ xs
c_string-append [] post h = refl
c_string-append (x ∷ xs) post h = ground (arith, c_string-append xs post h.1)

All-append :
    (xs ys : List ℕ) → All (λ c. c ≢ 0) xs → All (λ c. c ≢ 0) ys → All (λ c. c ≢ 0) (xs ++ ys)
All-append [] ys h k = k
All-append (x ∷ xs) ys h k = (h.0, All-append xs ys h.1 k)

take-full : (n : ℕ) (xs : List ℕ) → length (take n xs) ≡ n → n ≤ length xs
take-full zero xs h = omega arith
take-full (suc n) [] h = omega arith
take-full (suc n) (x ∷ xs) h = omega (arith, take-full n xs)

-- The buffer is filled without a fault, and holds the candidate.
abbrev pub Filled : List ℕ → List ℕ → Option (List ℕ) → Type 0
Filled buffer wanted r =
    (b : List ℕ) × (r ≡ some b) × (c_string b ≡ wanted) × (length b ≡ length buffer)

finish_fill-Filled :
    (buffer pre rest command : List ℕ)
    → length command + 2 ≤ length rest
    → length pre + length rest ≡ length buffer
    → All (λ c. c ≢ 0) pre
    → All (λ c. c ≢ 0) command
    → Filled buffer (pre ++ (b'/' ∷ command)) (finish_fill command (pre ++ rest) (length pre))
finish_fill-Filled buffer pre rest command room whole np nc =
    let (post, e, l) = finish_fill_lem pre rest command room in
    (
      _,
      e,
      c_string-append ((pre ++ (b'/' ∷ [])) ++ command) post
            (All-append (pre ++ (b'/' ∷ [])) command (All-append pre _ np (omega arith)) nc)
          ∙ append_assoc pre (b'/' ∷ []) command,
      omega (
        arith,
        l,
        length-append ((pre ++ (b'/' ∷ [])) ++ command) (0 ∷ post),
        length-append (pre ++ (b'/' ∷ [])) command,
        length-append pre (b'/' ∷ []),
      ),
    )

-- With the part of the path from `j` to `i`, if there is room for it and its terminator.
pub fill_lem :
    (buffer path command part : List ℕ) (i j : ℕ)
    → part ≡ take (i - j) (drop j path)
    → length part ≡ i - j
    → length (directory part) + length command + 2 ≤ length buffer
    → All (λ c. c ≢ 0) part
    → All (λ c. c ≢ 0) command
    → Filled buffer (candidate command part) (fill buffer path command i j)
unfolding fill
fill_lem [] path command part i j p l room np nc = absurd (omega arith)
fill_lem (x ∷ buffer) path command [] i j p l room np nc =
    let closed : ltb j i ≡ false = ground arith in
    rw closed (
      rw (copy_char-append [] x buffer b'.', ◌>>=◌)
        (finish_fill-Filled (x ∷ buffer) (b'.' ∷ []) buffer command (omega arith) (omega arith)
          (omega arith) nc))
fill_lem (x ∷ buffer) path command (c ∷ cs) i j p l room np nc =
    let open_part : ltb j i ≡ true = ground arith in
    let there : i - j ≤ length (drop j path) =
      take-full (i - j) (drop j path) (ap length (sym p) ∙ l) in
    rw open_part (
      rw (copy_bytes-append [] (x ∷ buffer) (drop j path) (i - j) (omega arith) there, ◌>>=◌)
        (rw (← p) (
          finish_fill-Filled (x ∷ buffer) (c ∷ cs) (drop (i - j) (x ∷ buffer)) command
            (omega (arith, length-drop (i - j) (x ∷ buffer)))
            (omega (arith, length-drop (i - j) (x ∷ buffer))) np nc)))
