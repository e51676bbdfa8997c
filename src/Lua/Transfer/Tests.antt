-- ===== src/Lua/Transfer/Tests.antt =====
-- src/lua/fd_unistd.cpp and src/lua/fd_socket.cpp: a string of four bytes, written to a descriptor that
-- remembers what it was given.
use dromozoa_unix.Prelude.{ℕ, none, some, [], ◌∷◌, ◌≡◌, refl, length}
use dromozoa_unix.Prelude.Int.{ℤ, pos}
use dromozoa_unix.Fd.{Reply, done, failed}
use dromozoa_unix.Lua.{Session}
use dromozoa_unix.Lua.Transfer
use dromozoa_unix.Lua.Transfer.{Bytes, inside, written, impl_write, impl_send, impl_sendto}
use dromozoa_unix.Lua.Transfer.Range.{part, expected, writes_range}

abbrev message : ℤ → Bytes
message e = 69 ∷ []

-- A descriptor that takes the bytes that are written, and nothing else.
abbrev kept : Bytes → Bytes → Reply ℕ × Bytes
kept bytes w = (done (length bytes), bytes)

abbrev refused : {A : Type 0} → Bytes → Reply A × Bytes
refused w = (failed 22, w)

abbrev sink : Transfer.Calls Bytes
sink = record {
  read = λ fd n w. refused w;
  write = λ fd bytes w. kept bytes w;
  fsync = λ fd w. refused w;
  lseek = λ fd offset whence w. refused w;
  ftruncate = λ fd n w. refused w;
  bind = λ fd a w. refused w;
  listen = λ fd n w. refused w;
  connect = λ fd a w. refused w;
  shutdown = λ fd how w. refused w;
  setsockopt = λ fd level name v w. refused w;
  getsockopt = λ fd level name w. refused w;
  getsockname = λ fd w. refused w;
  getpeername = λ fd w. refused w;
  recv = λ fd n flags w. refused w;
  recvfrom = λ fd n flags w. refused w;
  send = λ fd bytes flags w. kept bytes w;
  sendto = λ fd bytes flags a w. kept bytes w;
}

abbrev empty_sink : Session Bytes
empty_sink = record { machine = record { os = []; errno = 0 }; last_errno = none }

abbrev four_bytes : Bytes
four_bytes = 5 ∷ 6 ∷ 7 ∷ 8 ∷ []

writes_range_example :
    (impl_write message sink (some (pos 1)) (some four_bytes) (λ n. some 1) (λ n. some 3) empty_sink
      ≡ inside (expected 1 3 four_bytes) (λ bytes. written message sink (kept bytes)) empty_sink)
    × (impl_send message sink
          (some (pos 1))
          (some four_bytes)
          (λ n. some 1)
          (λ n. some 3)
          (some (pos 0))
          empty_sink
        ≡ inside (expected 1 3 four_bytes) (λ bytes. written message sink (kept bytes)) empty_sink)
    × (impl_sendto message sink
          (some (pos 1))
          (some four_bytes)
          (λ n. some 1)
          (λ n. some 3)
          (some (pos 0))
          (some (some (9 ∷ [])))
          empty_sink
        ≡ inside (expected 1 3 four_bytes) (λ bytes. written message sink (kept bytes)) empty_sink)
writes_range_example =
    writes_range message sink (pos 1) four_bytes (λ n. some 1) (λ n. some 3) (pos 0) (some (9 ∷ []))
      1 3 empty_sink refl refl

expected_middle : expected 1 3 four_bytes ≡ some (6 ∷ 7 ∷ [])
unfolding expected part
expected_middle = refl
