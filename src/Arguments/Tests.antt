-- ===== src/Arguments/Tests.antt =====
-- src/lib/argument_vector.cpp: runs.
use dromozoa_unix.Prelude.{ℕ, ◌≡◌, refl, Option, none, some, List, [], ◌∷◌, ◌++◌, map}
use dromozoa_unix.Arguments.{
  Operation, op_push_back, op_get, new, get, run, push_back, pointers, follow, copy_of,
  ArgumentVector, Pointer,
}
use dromozoa_unix.Arguments.Fresh.{Gives, get-built}

-- A `get` between two `push_back`.
abbrev calls : List Operation
calls = op_push_back (b'a' ∷ []) ∷ op_get ∷ op_push_back (b'b' ∷ []) ∷ []

get_runs : (get (run calls new)).0 ≡ some (pointers 2 0 ((b'a' ∷ []) ∷ (b'b' ∷ []) ∷ []))
unfolding get run push_back
get_runs = refl

abbrev array : Option (List (Option Pointer)) → List (Option Pointer)
array none = []
array (some ps) = ps

-- What `get` of a copy gives leads to the copy's strings only where the original had not built its array.
abbrev read_copy : ArgumentVector → List (Option (Option (List ℕ)))
read_copy s = map (follow (copy_of s)) (array (get (copy_of s)).0)

copy_before_get :
    read_copy (run calls new) ≡ some (some (b'a' ∷ [])) ∷ some (some (b'b' ∷ [])) ∷ some none ∷ []
unfolding get run push_back
copy_before_get = refl

copy_after_get : read_copy (run (calls ++ op_get ∷ []) new) ≡ none ∷ none ∷ some none ∷ []
unfolding get run push_back
copy_after_get = refl

get-built_example : Gives (some ((b'a' ∷ []) ∷ (b'b' ∷ []) ∷ [])) (get (run calls new))
get-built_example = get-built calls
