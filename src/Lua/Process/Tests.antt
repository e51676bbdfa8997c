-- ===== src/Lua/Process/Tests.antt =====
-- src/lua/pathexec.cpp and src/lua/process.cpp: runs with small tables.
use native.Mathlib.Nat.{add_comm}
use native.Mathlib.Numerals.{add-one}
use dromozoa_unix.Prelude.{
  ℕ, zero, suc, ◌+◌, ◌≡◌, refl, arith, Option, none, some, List, [], ◌∷◌, get_elem?,
}
use dromozoa_unix.Prelude.Int.{ℤ}
use dromozoa_unix.Pathexec.{Exec}
use dromozoa_unix.Forkexec.Sample.{
  World, kernel, openers, processes, view, pipe_view, contract, pipe_contract, start, three_open,
}
use dromozoa_unix.Lua.{Answer, Session}
use dromozoa_unix.Lua.Process.{Bytes, Table, program, impl_pathexec, impl_forkexec}
use dromozoa_unix.Lua.Process.Tried.{expected, impl_pathexec-sought}
use dromozoa_unix.Lua.Process.Told.{Told, impl_forkexec-Told}

abbrev message : ℤ → Bytes
message e = 69 ∷ []

-- The table { "x", "y" }.
abbrev two_fields : Table
two_fields zero = none
two_fields (suc zero) = some (b'x' ∷ [])
two_fields (suc (suc zero)) = some (b'y' ∷ [])
two_fields (suc (suc (suc n))) = none

abbrev two_strings : List Bytes
two_strings = (b'x' ∷ []) ∷ (b'y' ∷ []) ∷ []

two_fields_at : (j : ℕ) → two_fields (1 + j) ≡ get_elem? two_strings j
two_fields_at zero = refl
two_fields_at (suc zero) = refl
two_fields_at (suc (suc j)) = rw (add_comm 1 (suc (suc j))) (rw add-one)

-- Every program is missing; the names that were tried are kept.
abbrev logging : Exec (List Bytes)
logging = record {
  enoent = 2;
  eacces = 13;
  eisdir = 21;
  eperm = 1;
  execve = λ name log. (some 2, name ∷ log);
}

abbrev log_session : Session (List Bytes)
log_session = record { machine = record { os = []; errno = 0 }; last_errno = none }

-- The path "a:b".
abbrev two_parts : Bytes
two_parts = b'a' ∷ b':' ∷ b'b' ∷ []

impl_pathexec-sought_example :
    impl_pathexec message logging 3 (some two_parts) (some two_fields) log_session
    ≡ some (expected message logging two_parts two_strings log_session)
impl_pathexec-sought_example =
    impl_pathexec-sought message logging 3 two_parts two_fields two_strings log_session
      two_fields_at (omega arith)

abbrev session : Session World
session = record { machine = start; last_errno = none }

impl_forkexec-Told_example :
    (r : Answer × Option ℤ × Session World) × (impl_forkexec message kernel openers processes 3
        (some two_parts)
        (some two_fields)
        none
        none
        session
      ≡ some r)
    × Told message kernel openers processes (program two_parts (b'x' ∷ []) none none) start r
impl_forkexec-Told_example =
    impl_forkexec-Told message kernel openers processes view pipe_view contract pipe_contract 3
      two_parts two_fields (b'x' ∷ []) ((b'y' ∷ []) ∷ []) none none session refl three_open
      two_fields_at (omega arith)
