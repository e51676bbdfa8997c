-- ===== src/Lua/Process/Tried.antt =====
-- src/lua/pathexec.cpp: the programs that a call from Lua tries.
use dromozoa_unix.Prelude.{
  ℕ, ◌+◌, ◌<◌, ◌≤◌, ◌≡◌, refl, ap, ◌∙◌, arith, inl, inr, true, Bool-cases, Option, some, List, [],
  ◌∷◌, map, length, replicate, get_elem?, length-replicate, if◌then◌else◌,
}
use dromozoa_unix.Prelude.Int.{ℤ}
use dromozoa_unix.Pathexec.{
  Exec, Outcome, c_string, has_slash, pathexec, pathexec_buffer_size, execve_only,
}
use dromozoa_unix.Pathexec.Copy.{candidate}
use dromozoa_unix.Pathexec.Search.{parts, try_each, pathexec-try_each}
use dromozoa_unix.Lua.{fault, Session}
use dromozoa_unix.Lua.Process.{Bytes, Table, Executed, back, reported, attempted, impl_pathexec}
use dromozoa_unix.Lua.Process.Vector.{to_argument_vector-command, c_string-NoNul}

module _ {W : Type 0} (strerror : ℤ → Bytes) (os : Exec W) where
  -- A command with a slash is the program; another one is looked for in the parts of the path.
  pub sought : Bytes → Bytes → W → Outcome W
  sought path command w =
      if has_slash command
      then execve_only os (os.execve command w)
      else try_each os (map (candidate command) (parts [] path)) os.enoent w

  pub expected : Bytes → List Bytes → Session W → Executed W
  expected path [] s = back fault s
  expected path (command ∷ rest) s =
      reported strerror s (sought (c_string path) (c_string command) s.machine.os)

  pathexec-slash :
      (path command buffer : Bytes) (size : ℕ) (w : W)
      → has_slash command ≡ true
      → pathexec os (some path) command buffer size w ≡ some (execve_only os (os.execve command w))
  unfolding pathexec
  pathexec-slash path command buffer size w slash = rw slash refl

  -- The buffer has the size that is asked for.
  pathexec-sought :
      (path command : Bytes) (w : W)
      → let size = pathexec_buffer_size (some (c_string path)) (c_string command) in
        pathexec os (some (c_string path)) (c_string command) (replicate size 0) size w
        ≡ some (sought (c_string path) (c_string command) w)
  unfolding sought
  pathexec-sought path command w =
      let name = c_string command in
      let size = pathexec_buffer_size (some (c_string path)) name in
      elim (Bool-cases (has_slash name)) [
        | inl slash ↦
            pathexec-slash (c_string path) name (replicate size 0) size w slash ∙ rw slash refl
        | inr plain ↦
            let room : size ≤ length (replicate size 0) =
              omega (arith, length-replicate {A = ℕ} size 0) in
            pathexec-try_each os (c_string path) name (replicate size 0) w plain
              (c_string-NoNul path) (c_string-NoNul command) room
            ∙ rw plain refl
      ]

  -- `pathexec` of Lua, with a path and a table of strings: where the table has none, it reads through a
  -- null pointer; else, with a buffer that is never overrun, it gives `execve` the first string, if there
  -- is a slash in it, or just the candidates that the parts of the path make with it, in their order,
  -- until one replaces the process or fails with an error other than the four. The function comes back
  -- only with an error: that of the last call, or of the last that is not ENOENT. Path and command end at
  -- their first NUL; a round for each string and one more are enough.
  pub impl_pathexec-sought :
      (fuel : ℕ) (path : Bytes) (t : Table) (xs : List Bytes) (s : Session W)
      → ((j : ℕ) → t (1 + j) ≡ get_elem? xs j)
      → length xs < fuel
      → impl_pathexec strerror os fuel (some path) (some t) s ≡ some (expected path xs s)
  unfolding impl_pathexec expected
  impl_pathexec-sought fuel path t [] s at_j room =
      let (v, run, command) = to_argument_vector-command fuel t [] at_j room in rw run (rw command)
  impl_pathexec-sought fuel path t (x ∷ xs) s at_j room =
      let (v, run, command) = to_argument_vector-command fuel t (x ∷ xs) at_j room in
      rw run (
        rw command (
          ap (λ (o : Option (Outcome W)). some (attempted strerror s o))
            (pathexec-sought path x s.machine.os)))
