-- ===== src/Lua/Process/Vector.antt =====
-- src/lua/argument_vector.cpp: the arguments that `to_argument_vector` takes from a table.
use dromozoa_unix.Prelude.{
  ℕ, zero, suc, ◌+◌, ◌<◌, ◌≡◌, refl, ap, sym, ◌∙◌, arith, inl, inr, Bool-cases, Option, none, some,
  List, [], ◌∷◌, ◌++◌, map, length, get_elem?, ◌==◌,
}
use dromozoa_unix.Arguments.{Pointer, ArgumentVector, new, clear, push_back, get, follow}
use dromozoa_unix.Arguments.Fresh.{Holds, listed, push_back-Holds, get-Gives}
use dromozoa_unix.Pathexec.{c_string}
use dromozoa_unix.Pathexec.Search.{NoNul}
use dromozoa_unix.Lua.Process.{Bytes, Table, push_fields, to_argument_vector, first_of, command_of}

append_one :
    (pre : List Bytes) (x : Bytes) (post : List Bytes) → (pre ++ x ∷ []) ++ post ≡ pre ++ x ∷ post
append_one [] x post = refl
append_one (y ∷ pre) x post = ap (◌∷◌ y) (append_one pre x post)

append_nil : (pre : List Bytes) → pre ++ [] ≡ pre
append_nil [] = refl
append_nil (x ∷ pre) = ap (◌∷◌ x) (append_nil pre)

push_fields-Holds :
    (fuel : ℕ) (t : Table) (i : ℕ) (v : ArgumentVector) (pre xs : List Bytes)
    → ((j : ℕ) → t (i + j) ≡ get_elem? xs j)
    → length xs < fuel
    → Holds (some pre) v
    → (v' : ArgumentVector) × (push_fields fuel t i v ≡ some v')
      × Holds (some (pre ++ map c_string xs)) v'
unfolding push_fields push_back
push_fields-Holds zero t i v pre xs at_j room h = absurd (omega arith)
push_fields-Holds (suc fuel) t i v pre [] at_j room h =
    let here : t i ≡ none = ap t {x = i} {y = i + 0} (omega arith) ∙ at_j 0 in
    (v, rw (here, push_fields), rw (append_nil pre) h)
push_fields-Holds (suc fuel) t i v pre (x ∷ xs) at_j room h =
    let here : t i ≡ some x = ap t {x = i} {y = i + 0} (omega arith) ∙ at_j 0 in
    let next : (j : ℕ) → t (i + 1 + j) ≡ get_elem? xs j =
      λ j. ap t {x = i + 1 + j} {y = i + suc j} (omega arith) ∙ at_j (suc j) in
    let (v', run, holds) =
      push_fields-Holds fuel t (i + 1) (push_back (c_string x) v) (pre ++ c_string x ∷ []) xs next
        (omega arith) (push_back-Holds (some pre) (c_string x) v h) in
    (v', rw (here, push_fields) run, rw (sym (append_one pre (c_string x) (map c_string xs))) holds)

-- The first string of an array, by what its pointers show.
abbrev leading : List (Option (Option Bytes)) → Option Bytes
leading [] = none
leading (x ∷ rest) = elim x [ none ↦ none | some text ↦ text ]

abbrev pub first : List Bytes → Option Bytes
first [] = none
first (x ∷ xs) = some x

first_of-leading :
    (v : ArgumentVector) (ps : List (Option Pointer))
    → first_of v (some ps) ≡ leading (map (follow v) ps)
first_of-leading v [] = refl
first_of-leading v (p ∷ ps) = refl

leading-listed : (xs : List Bytes) → leading (listed xs) ≡ first xs
leading-listed [] = refl
leading-listed (x ∷ xs) = refl

command_of-Holds :
    (v : ArgumentVector) (xs : List Bytes) → Holds (some xs) v → command_of v ≡ first xs
unfolding command_of
command_of-Holds v xs h =
    let (ps, array, shows) = get-Gives (some xs) v h in
    ap (first_of (get v).1) array
    ∙ (first_of-leading (get v).1 ps ∙ (ap leading shows ∙ leading-listed xs))

-- A table that holds strings at the indexes from 1 on, and none behind them, is read with a round for
-- each of them and one more: the command is the first, up to its first NUL.
pub to_argument_vector-command :
    (fuel : ℕ) (t : Table) (xs : List Bytes)
    → ((j : ℕ) → t (1 + j) ≡ get_elem? xs j)
    → length xs < fuel
    → (v : ArgumentVector) × (to_argument_vector fuel (some t) ≡ some v)
      × (command_of v ≡ first (map c_string xs))
unfolding to_argument_vector clear
to_argument_vector-command fuel t xs at_j room =
    let (v, run, holds) =
      push_fields-Holds fuel t 1 (clear new) [] xs at_j room (refl, refl, inl refl) in
    (v, run, command_of-Holds v (map c_string xs) holds)

pub c_string-NoNul : (bytes : Bytes) → NoNul (c_string bytes)
c_string-NoNul [] = tt
c_string-NoNul (c ∷ rest) = elim (Bool-cases (c == 0)) [
  | inl end ↦ rw end tt
  | inr more ↦ rw more (ground arith, c_string-NoNul rest)
]
