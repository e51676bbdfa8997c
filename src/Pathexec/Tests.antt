-- ===== src/Pathexec/Tests.antt =====
-- src/lib/pathexec.cpp: runs over a log of the calls of `execve`.
use dromozoa_unix.Prelude.{
  ℕ, ◌≡◌, refl, some, List, [], ◌∷◌, map, arith, replicate, ◌==◌, if◌then◌else◌,
}
use dromozoa_unix.Pathexec.{
  Exec, returned, pathexec, pathexec_buffer_size, visit, fill, copy_char, copy_bytes,
}
use dromozoa_unix.Pathexec.Copy.{candidate}
use dromozoa_unix.Pathexec.Search.{parts, try_each, pathexec-try_each}

-- Every call is logged; a candidate that begins with `b` cannot be executed, others do not exist.
abbrev logging : Exec (List (List ℕ))
logging = record {
  enoent = 2;
  eacces = 13;
  eisdir = 21;
  eperm = 1;
  execve = λ name log. (some (first name), name ∷ log);
}
  where
    first : List ℕ → ℕ
    first [] = 2
    first (c ∷ cs) = if c == b'b' then 13 else 2

-- The path "a::b" and the command "x".
abbrev colons : List ℕ
colons = b'a' ∷ b':' ∷ b':' ∷ b'b' ∷ []

abbrev command : List ℕ
command = b'x' ∷ []

search_runs :
    pathexec logging (some colons) command (replicate 4 0) 4 []
    ≡ some (returned 13 (map (candidate command) ((b'b' ∷ []) ∷ [] ∷ (b'a' ∷ []) ∷ [])))
unfolding pathexec visit fill copy_char copy_bytes
search_runs = refl

buffer_size_runs : pathexec_buffer_size (some colons) command ≡ 4
unfolding pathexec_buffer_size
buffer_size_runs = refl

pathexec-try_each_example :
    pathexec logging
      (some colons)
      command
      (replicate 9 0)
      (pathexec_buffer_size (some colons) command)
      []
    ≡ some (try_each logging (map (candidate command) (parts [] colons)) 2 [])
unfolding pathexec_buffer_size
pathexec-try_each_example =
    pathexec-try_each logging colons command (replicate 9 0) [] refl (omega arith) (omega arith)
      (omega arith)
