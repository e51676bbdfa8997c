-- ===== src/Pathexec.antt =====
-- src/lib/pathexec.cpp: `execve` over a search path, without an allocation. A C string is the list of
-- its bytes before the terminator; a null `path` is `none`. Sizes of objects in memory do not wrap.
-- `execve` is a parameter: it returns its error, or does not return. A write outside the buffer, or a
-- read behind the end of a string, is `none`.
pub mod Copy
pub mod Search
mod Tests
use dromozoa_unix.Prelude.{
  ℕ, zero, suc, ◌+◌, ◌-◌, Bool, true, false, Option, none, some, List, [], ◌∷◌, length, drop, ltb,
  ◌==◌, if◌then◌else◌, ◌||◌, ◌>>=◌,
}

-- The call and the four error codes that `pathexec` tells apart.
pub record Exec (W : Type 0) : Type 0 where
  pub enoent : ℕ
  pub eacces : ℕ
  pub eisdir : ℕ
  pub eperm : ℕ
  pub execve : List ℕ → W → Option ℕ × W

-- The process image is replaced, or -1 is returned with `errno`.
pub data Outcome (W : Type 0) : Type 0 where
  replaced : W → Outcome W
  returned : ℕ → W → Outcome W

-- `*p = c`, at an index of the buffer.
unfoldable pub write : List ℕ → ℕ → ℕ → Option (List ℕ)
write [] p c = none
write (x ∷ xs) zero c = some (c ∷ xs)
write (x ∷ xs) (suc p) c = do let rest = write xs p c; ys ← rest; some (x ∷ ys)

-- The two functions `copy`: the buffer, and the pointer behind what was written.
unfoldable pub copy_char : List ℕ → ℕ → ℕ → Option (List ℕ × ℕ)
unfolding write
copy_char buffer p c = do b ← write buffer p c; some (b, p + 1)

unfoldable pub copy_bytes : List ℕ → ℕ → List ℕ → ℕ → Option (List ℕ × ℕ)
unfolding write
copy_bytes buffer p src zero = some (buffer, p)
copy_bytes buffer p [] (suc n) = none
copy_bytes buffer p (c ∷ src) (suc n) = write buffer p c >>= λ b. copy_bytes b (p + 1) src n

-- Whether the command has a slash.
unfoldable pub has_slash : List ℕ → Bool
has_slash [] = false
has_slash (c ∷ rest) = c == b'/' || has_slash rest

-- The loop of `pathexec_buffer_size` over the path: `rest` begins at index `i`.
unfoldable pub longest : List ℕ → ℕ → ℕ → ℕ → ℕ
longest [] i j path_size = if ltb path_size (i - j) then i - j else path_size
longest (c ∷ rest) i j path_size = elim (c == b':') [
  | true ↦ longest rest (i + 1) (i + 1) (if ltb path_size (i - j) then i - j else path_size)
  | false ↦ longest rest (i + 1) j path_size
]

unfoldable pub pathexec_buffer_size : Option (List ℕ) → List ℕ → ℕ
unfolding has_slash longest
pathexec_buffer_size path command =
    if has_slash command
    then 0
    else (elim path [ none ↦ 0 | some p ↦ longest p 0 0 1 + length command + 2 ])

-- What `execve` reads from the buffer.
abbrev pub c_string : List ℕ → List ℕ
c_string [] = []
c_string (c ∷ rest) = if c == 0 then [] else c ∷ c_string rest

-- The part between two colons: the path, the index of its first byte and of the byte behind it.
unfoldable pub fill : List ℕ → List ℕ → List ℕ → ℕ → ℕ → Option (List ℕ)
fill buffer path command i j = do
  (b1, p1) ← if ltb j i then copy_bytes buffer 0 (drop j path) (i - j) else copy_char buffer 0 b'.'
  (b2, p2) ← copy_char b1 p1 b'/'
  (b3, p3) ← copy_bytes b2 p2 command (length command)
  (b4, p4) ← copy_char b3 p3 0
  some b4

-- What the loop of `pathexec` does at the end of a part.
pub data Visit (W : Type 0) : Type 0 where
  go_on : ℕ → List ℕ → W → Visit W  -- the code to return, the buffer
  stop : Outcome W → Visit W

module _ {W : Type 0} (os : Exec W) where
  -- The `switch` on `errno`.
  unfoldable pub after_execve : ℕ → List ℕ → Option ℕ × W → Visit W
  after_execve code buffer (none, w) = stop (replaced w)
  after_execve code buffer (some e, w) =
      if e == os.enoent
      then go_on code buffer w
      else (if e == os.eacces || (e == os.eisdir || e == os.eperm)
          then go_on e buffer w
          else stop (returned e w))

  unfoldable pub visit : List ℕ → List ℕ → ℕ → ℕ → ℕ → ℕ → List ℕ → W → Option (Visit W)
  unfolding after_execve fill
  visit path command size i j code buffer w =
      if ltb ((if ltb j i then i - j else 1) + 1 + length command) size
      then (do
        b ← fill buffer path command i j
        some (after_execve code b (os.execve (c_string b) w)))
      else some (go_on code buffer w)

  -- The loop of `pathexec` over the path: `rest` begins at index `i`.
  unfoldable pub search_loop :
      List ℕ → List ℕ → ℕ → List ℕ → ℕ → ℕ → ℕ → List ℕ → W → Option (Outcome W)
  unfolding visit
  search_loop path command size [] i j code buffer w =
      visit path command size i j code buffer w >>= λ v. elim v [
        | stop o ↦ some o
        | go_on code' _ w' ↦ some (returned code' w')
      ]
  search_loop path command size (c ∷ rest) i j code buffer w = elim (c == b':') [
    | true ↦ visit path command size i j code buffer w >>= λ v. elim v [
      | stop o ↦ some o
      | go_on code' b w' ↦ search_loop path command size rest (i + 1) (i + 1) code' b w'
    ]
    | false ↦ search_loop path command size rest (i + 1) j code buffer w
  ]

  abbrev pub execve_only : Option ℕ × W → Outcome W
  execve_only (none, w) = replaced w
  execve_only (some e, w) = returned e w

  unfoldable pub pathexec : Option (List ℕ) → List ℕ → List ℕ → ℕ → W → Option (Outcome W)
  unfolding has_slash search_loop
  pathexec path command buffer size w =
      if has_slash command then some (execve_only (os.execve command w)) else (elim path [
        | none ↦ some (returned os.enoent w)
        | some p ↦ search_loop p command size p 0 0 os.enoent buffer w
      ])
