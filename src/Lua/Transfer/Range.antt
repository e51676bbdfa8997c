-- ===== src/Lua/Transfer/Range.antt =====
-- src/lua/fd_unistd.cpp and src/lua/fd_socket.cpp: the bytes that are written are those that the
-- arguments name.
use dromozoa_unix.Prelude.{
  ℕ, ◌-◌, ◌≡◌, false, Option, none, some, length, take, drop, ltb, ◌==◌, if◌then◌else◌, arith,
  Bool-cases, inl, inr, ◌&&◌, ap, ◌∙◌, ==_iff,
}
use dromozoa_unix.Prelude.Int.{ℤ}
use dromozoa_unix.Lua.{Session}
use dromozoa_unix.Lua.Transfer.{
  Bytes, Calls, slice, amount, inside, written, impl_write, impl_send, impl_sendto, with_range,
}

-- Bytes `i` to `j` of a string, counted from 0, the last not included.
unfoldable pub part : ℕ → ℕ → Bytes → Bytes
part i j b = take (j - i) (drop i b)

-- What a system call is handed: the part, unless it reaches past the end of the string.
unfoldable pub expected : ℕ → ℕ → Bytes → Option Bytes
expected i j b = if ltb i j && ltb (length b) j then none else some (part i j b)

amount-eq : (i j : ℕ) → amount i j ≡ j - i
amount-eq i j = ground arith

slice-part : (i j : ℕ) (b : Bytes) → slice i (j - i) b ≡ expected i j b
unfolding slice part expected
slice-part i j b = elim (Bool-cases ((j - i) == 0)) [
  | inl nothing ↦
      let none_left : j - i ≡ 0 = (==_iff (j - i) 0).0 nothing in
      let short : (ltb i j && ltb (length b) j) ≡ false = ground arith in rw short (rw none_left)
  | inr more ↦ ground arith
]

module _ {W : Type 0} (strerror : ℤ → Bytes) (k : Calls W) where
  -- `write`, `send` and `sendto` of Lua, of a string with a range whose readers give `i` and `j`: the call
  -- of the system is handed the bytes from `i` to `j`, the last not included, none where `j` is not after
  -- `i`; but where `j` lies behind the end of the string, and after `i`, it reads outside of the string.
  pub writes_range :
      (fd : ℤ) (b : Bytes) (range_i range_j : ℕ → Option ℕ) (flags : ℤ) (addr : Option Bytes)
      (i j : ℕ) (s : Session W)
      → range_i (length b) ≡ some i
      → range_j (length b) ≡ some j
      → (impl_write strerror k (some fd) (some b) range_i range_j s
          ≡ inside (expected i j b) (λ bytes. written strerror k (k.write fd bytes)) s)
        × (impl_send strerror k (some fd) (some b) range_i range_j (some flags) s
            ≡ inside (expected i j b) (λ bytes. written strerror k (k.send fd bytes flags)) s)
        × (impl_sendto strerror k (some fd) (some b) range_i range_j (some flags) (some addr) s
            ≡ inside
                (expected i j b)
                (λ bytes. written strerror k (k.sendto fd bytes flags addr))
                s)
  unfolding impl_write impl_send impl_sendto with_range
  writes_range fd b range_i range_j flags addr i j s at_i at_j =
      let chosen : slice i (amount i j) b ≡ expected i j b =
        ap (λ (n : ℕ). slice i n b) (amount-eq i j) ∙ slice-part i j b in
      (rw at_i (rw at_j (rw chosen)), rw at_i (rw at_j (rw chosen)), rw at_i (rw at_j (rw chosen)))
