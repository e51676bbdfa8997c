-- ===== src/Lua/Transfer.antt =====
-- src/lua/fd_unistd.cpp and src/lua/fd_socket.cpp: bytes that are read from a descriptor and written to
-- it, and the calls on sockets. The descriptor is what `check_fd` gives. The first and the last byte of
-- a string that is written come from the readers of `bind`, as a function of the size of the string. An
-- address is its bytes.
pub mod Range
mod Tests
use dromozoa_unix.Prelude.{
  ℕ, zero, suc, ◌+◌, ◌-◌, Bool, true, false, Option, none, some, List, [], ◌∷◌, ◌++◌, length, take,
  drop, leb, ltb, ◌==◌, if◌then◌else◌,
}
use dromozoa_unix.Prelude.Int.{ℤ, pos}
use dromozoa_unix.Fd.{Reply, done, failed}
use dromozoa_unix.Lua.{
  Value, success, integer, text, address, Answer, returned, thrown, fault, Session, Run, checked,
  system,
}
use dromozoa_unix.Lua.Buffer.{filled, string_reference}

abbrev pub Bytes : Type 0
Bytes = List ℕ

-- Of a call that fills a buffer, the reply is its result and the bytes that it has written; of one that
-- fills an address too, those of the address.
pub record Calls (W : Type 0) : Type 0 where
  pub read : ℤ → ℕ → W → Reply (ℕ × Bytes) × W
  pub write : ℤ → Bytes → W → Reply ℕ × W
  pub fsync : ℤ → W → Reply Unit × W
  pub lseek : ℤ → ℤ → ℤ → W → Reply ℤ × W
  pub ftruncate : ℤ → ℤ → W → Reply Unit × W
  pub bind : ℤ → Bytes → W → Reply Unit × W
  pub listen : ℤ → ℤ → W → Reply Unit × W
  pub connect : ℤ → Bytes → W → Reply Unit × W
  pub shutdown : ℤ → ℤ → W → Reply Unit × W
  pub setsockopt : ℤ → ℤ → ℤ → ℤ → W → Reply Unit × W
  pub getsockopt : ℤ → ℤ → ℤ → W → Reply ℤ × W
  pub getsockname : ℤ → W → Reply Bytes × W
  pub getpeername : ℤ → W → Reply Bytes × W
  pub recv : ℤ → ℕ → ℤ → W → Reply (ℕ × Bytes) × W
  pub recvfrom : ℤ → ℕ → ℤ → W → Reply (ℕ × Bytes × Bytes) × W
  pub send : ℤ → Bytes → ℤ → W → Reply ℕ × W
  pub sendto : ℤ → Bytes → ℤ → Option Bytes → W → Reply ℕ × W

-- The `n` bytes from `data + i` on, as a system call reads them: none of them, or all inside the string.
unfoldable pub slice : ℕ → ℕ → Bytes → Option Bytes
slice i n buffer =
    if n == 0
    then some []
    else (if leb (i + n) (length buffer) then some (take n (drop i buffer)) else none)

-- `if (j < i) { j = i; }`, and the size that is handed over.
abbrev pub amount : ℕ → ℕ → ℕ
amount i j = if ltb j i then 0 else j - i

abbrev pub inside : {W : Type 0} → Option Bytes → (Bytes → Run W) → Run W
inside none body s = (fault, s)
inside (some bytes) body s = body bytes s

abbrev pub one : {W : Type 0} → Value → Run W
one v s = (returned (v ∷ []), s)

-- What `luaX_string_reference(&buffer[0], result)` pushes, before other values.
abbrev pub received : {W : Type 0} → List Value → Option Bytes → Run W
received more none s = (fault, s)
received more (some bytes) s = (returned (text bytes ∷ more), s)

module _ {W : Type 0} (strerror : ℤ → Bytes) (k : Calls W) where
  unfoldable pub impl_read : Option ℤ → Option ℕ → Run W
  unfolding filled string_reference
  impl_read fd size = checked fd λ d.
      checked size
        λ n. system strerror (k.read d n) λ r. received [] (string_reference r.0 (filled n r.1))

  -- The part of a string that the arguments name, for the call that writes it.
  unfoldable pub with_range :
      Option Bytes → (ℕ → Option ℕ) → (ℕ → Option ℕ) → (Option Bytes → Run W) → Run W
  unfolding slice
  with_range buffer range_i range_j body = checked buffer λ b.
      checked (range_i (length b))
        λ i. checked (range_j (length b)) λ j. body (slice i (amount i j) b)

  abbrev pub written : (W → Reply ℕ × W) → Run W
  written f = system strerror f λ n. one (integer (pos n))

  unfoldable pub impl_write : Option ℤ → Option Bytes → (ℕ → Option ℕ) → (ℕ → Option ℕ) → Run W
  unfolding with_range
  impl_write fd buffer range_i range_j =
      with_range buffer range_i range_j
        λ chosen. checked fd λ d. inside chosen λ bytes. written (k.write d bytes)

  abbrev pub status : (W → Reply Unit × W) → Run W
  status f = system strerror f λ _. one success

  unfoldable pub impl_fsync : Option ℤ → Run W
  impl_fsync fd = checked fd λ d. status (k.fsync d)

  unfoldable pub impl_lseek : Option ℤ → Option ℤ → Option ℤ → Run W
  impl_lseek fd offset whence =
      checked offset λ n.
        checked whence λ w. checked fd λ d. system strerror (k.lseek d n w) λ r. one (integer r)

  unfoldable pub impl_ftruncate : Option ℤ → Option ℤ → Run W
  impl_ftruncate fd size = checked size λ n. checked fd λ d. status (k.ftruncate d n)

  unfoldable pub impl_bind : Option ℤ → Option Bytes → Run W
  impl_bind fd addr = checked addr λ a. checked fd λ d. status (k.bind d a)

  unfoldable pub impl_listen : Option ℤ → Option ℤ → Run W
  impl_listen fd backlog = checked backlog λ n. checked fd λ d. status (k.listen d n)

  unfoldable pub impl_connect : Option ℤ → Option Bytes → Run W
  impl_connect fd addr = checked addr λ a. checked fd λ d. status (k.connect d a)

  unfoldable pub impl_shutdown : Option ℤ → Option ℤ → Run W
  impl_shutdown fd how = checked how λ h. checked fd λ d. status (k.shutdown d h)

  unfoldable pub impl_setsockopt : Option ℤ → Option ℤ → Option ℤ → Option ℤ → Run W
  impl_setsockopt fd level name value =
      checked level
        λ l. checked name λ n. checked value λ v. checked fd λ d. status (k.setsockopt d l n v)

  unfoldable pub impl_getsockopt : Option ℤ → Option ℤ → Option ℤ → Run W
  impl_getsockopt fd level name = checked level λ l.
      checked name λ n. checked fd λ d. system strerror (k.getsockopt d l n) λ v. one (integer v)

  unfoldable pub impl_getsockname : Option ℤ → Run W
  impl_getsockname fd = checked fd λ d. system strerror (k.getsockname d) λ a. one (address a)

  unfoldable pub impl_getpeername : Option ℤ → Run W
  impl_getpeername fd = checked fd λ d. system strerror (k.getpeername d) λ a. one (address a)

  unfoldable pub impl_recv : Option ℤ → Option ℕ → Option ℤ → Run W
  unfolding filled string_reference
  impl_recv fd size flags = checked fd λ d. checked size λ n.
      checked flags
        λ f. system strerror (k.recv d n f) λ r. received [] (string_reference r.0 (filled n r.1))

  unfoldable pub impl_recvfrom : Option ℤ → Option ℕ → Option ℤ → Run W
  unfolding filled string_reference
  impl_recvfrom fd size flags = checked fd λ d. checked size λ n. checked flags λ f.
      system strerror (k.recvfrom d n f)
        λ r. received (address r.2 ∷ []) (string_reference r.0 (filled n r.1))

  unfoldable pub impl_send :
      Option ℤ → Option Bytes → (ℕ → Option ℕ) → (ℕ → Option ℕ) → Option ℤ → Run W
  unfolding with_range
  impl_send fd buffer range_i range_j flags =
      with_range buffer range_i range_j λ chosen.
        checked flags λ f. checked fd λ d. inside chosen λ bytes. written (k.send d bytes f)

  -- An address is none or nil, or an argument that is checked.
  unfoldable pub impl_sendto :
      Option ℤ
      → Option Bytes
      → (ℕ → Option ℕ)
      → (ℕ → Option ℕ)
      → Option ℤ
      → Option (Option Bytes)
      → Run W
  unfolding with_range
  impl_sendto fd buffer range_i range_j flags addr = with_range buffer range_i range_j λ chosen.
      checked flags
        λ f. checked addr λ a. checked fd λ d. inside chosen λ bytes. written (k.sendto d bytes f a)
