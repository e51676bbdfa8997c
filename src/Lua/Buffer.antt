-- ===== src/Lua/Buffer.antt =====
-- `std::vector<char>` as a buffer that a system call fills, and reads of it that stay inside or fault.
use dromozoa_unix.Prelude.{
  ℕ, zero, suc, ◌≡◌, ◌≢◌, refl, arith, Option, none, some, List, [], ◌∷◌, ◌++◌, length, take, drop,
  replicate, All, leb, ◌==◌, if◌then◌else◌, ◌>>=◌, length-append, take-append,
}

-- What a call wrote stands at the start of the buffer.
unfoldable pub filled : ℕ → List ℕ → List ℕ
filled size written = written ++ drop (length written) (replicate size 0)

-- `luaX_string_reference(data, size)` when it is pushed.
unfoldable pub string_reference : ℕ → List ℕ → Option (List ℕ)
string_reference n buffer = if leb n (length buffer) then some (take n buffer) else none

-- The bytes before the first NUL, as `strlen` finds them.
unfoldable pub c_string : List ℕ → Option (List ℕ)
c_string [] = none
c_string (c ∷ rest) =
    let tail = c_string rest in if c == 0 then some [] else (tail >>= λ bytes. some (c ∷ bytes))

pub filled-string_reference :
    (size : ℕ) (written : List ℕ)
    → string_reference (length written) (filled size written) ≡ some written
unfolding string_reference filled
filled-string_reference size written = ground (
  arith,
  length-append written (drop (length written) (replicate size 0)),
  take-append written (drop (length written) (replicate size 0)),
)

pub append-c_string :
    (name rest : List ℕ) → All (λ c. c ≢ 0) name → c_string (name ++ (zero ∷ rest)) ≡ some name
unfolding c_string
append-c_string [] rest h = refl
append-c_string (c ∷ name) rest h = ground (arith, append-c_string name rest h.1)

pub string_reference-outside : (n : ℕ) → string_reference (suc n) [] ≡ none
unfolding string_reference
string_reference-outside n = ground arith
