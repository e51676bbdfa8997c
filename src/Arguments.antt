-- ===== src/Arguments.antt =====
-- src/lib/argument_vector.cpp: the arguments of a program, and the array of pointers to them. A string is
-- the list of its bytes. A change of `str_` may move its strings, so a pointer to one is good only as
-- long as `moved`, a count of the changes which the code does not have, is what it was.
pub mod Fresh
mod Tests
use dromozoa_unix.Prelude.{
  ℕ, zero, suc, ◌+◌, Bool, true, false, Option, none, some, List, [], ◌∷◌, ◌++◌, get_elem?, ◌==◌,
  if◌then◌else◌,
}

pub record Pointer : Type 0 where
  pub taken : ℕ
  pub index : ℕ

pub record ArgumentVector : Type 0 where
  pub initialized : Bool
  pub str : List (List ℕ)
  pub ptr : List (Option Pointer)
  pub moved : ℕ

abbrev pub new : ArgumentVector
new = record { initialized = false; str = []; ptr = []; moved = 0 }

unfoldable pub clear : ArgumentVector → ArgumentVector
clear s = record { initialized = true; str = []; ptr = []; moved = suc s.moved }

unfoldable pub push_back : List ℕ → ArgumentVector → ArgumentVector
push_back value s = record {
  initialized = true;
  str = s.str ++ value ∷ [];
  ptr = [];
  moved = suc s.moved;
}

-- The pointers to the strings from index `i`, and the null pointer.
abbrev pub pointers : ℕ → ℕ → List (List ℕ) → List (Option Pointer)
pointers moved i [] = none ∷ []
pointers moved i (x ∷ xs) = some (record { taken = moved; index = i }) ∷ pointers moved (suc i) xs

abbrev pub fill : List (Option Pointer) → ℕ → List (List ℕ) → List (Option Pointer)
fill [] moved str = pointers moved 0 str
fill (p ∷ ps) moved str = p ∷ ps

-- The array, or a null pointer.
unfoldable pub get : ArgumentVector → Option (List (Option Pointer)) × ArgumentVector
get s =
    if s.initialized
    then (some (fill s.ptr s.moved s.str), record s { ptr = fill s.ptr s.moved s.str })
    else (none, s)

-- The implicit copy constructor: the copy has strings of its own, but its pointers are those of the
-- original, which do not lead to them.
abbrev pub copy_of : ArgumentVector → ArgumentVector
copy_of s = record s { moved = suc s.moved }

-- What an element of the array points to: a string, null, or nothing that may be read.
abbrev pub follow : ArgumentVector → Option Pointer → Option (Option (List ℕ))
follow s none = some none
follow s (some p) =
    if p.taken == s.moved
    then (elim (get_elem? s.str p.index) [ none ↦ none | some x ↦ some (some x) ])
    else none

pub data Operation : Type 0 where
  op_clear : Operation
  op_push_back : List ℕ → Operation
  op_get : Operation

unfoldable pub run : List Operation → ArgumentVector → ArgumentVector
unfolding clear push_back get
run [] s = s
run (op_clear ∷ ops) s = run ops (clear s)
run (op_push_back x ∷ ops) s = run ops (push_back x s)
run (op_get ∷ ops) s = run ops (get s).1
