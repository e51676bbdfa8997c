-- ===== src/Sockaddr.antt =====
-- src/lib/socket_address.cpp and src/lua/sockaddr.cpp: socket addresses, and their Lua constructors and
-- fields. An object in memory is the list of its bytes; a read or a write outside it is `none`.
pub mod Memory
pub mod Inet
pub mod Path
pub mod Bounds
mod Tests
use dromozoa_unix.Prelude.{
  ℕ, zero, suc, ◌+◌, ◌-◌, ◌*◌, ◌/◌, ◌%◌, ◌^◌, Bool, true, false, not, ◌&&◌, Option, none, some,
  ◌>>=◌, List, [], ◌∷◌, length, drop, get_elem?, ltb, ◌==◌, if◌then◌else◌,
}
use dromozoa_unix.Sockaddr.Memory.{zeros, read, write}

-- What the system's headers fix: sizes of the structures, offsets of their fields, the families, and
-- the field of the family, which every structure has in the same place.
pub record Layout : Type 0 where
  pub storage_size : ℕ
  pub get_family : List ℕ → ℕ
  pub set_family : ℕ → List ℕ → List ℕ
  pub af_inet : ℕ
  pub af_inet6 : ℕ
  pub af_unix : ℕ
  pub sockaddr_in_size : ℕ
  pub sin_addr : ℕ
  pub sin_port : ℕ
  pub sockaddr_in6_size : ℕ
  pub sin6_addr : ℕ
  pub sin6_port : ℕ
  pub sockaddr_un_size : ℕ
  pub sun_path : ℕ
  pub sun_path_size : ℕ
  pub einval : ℕ

-- `address_`, of the size of `sockaddr_storage`, and `size_`.
pub record SocketAddress : Type 0 where
  pub address : List ℕ
  pub size : ℕ

-- A constructor makes an object, throws the error of the system, or raises a Lua error at an argument.
pub data Made : Type 0 where
  made : SocketAddress → Made
  thrown : ℕ → Made
  arg_error : ℕ → Made

-- What a function gives to Lua.
pub data Pushed : Type 0 where
  bytes : List ℕ → Pushed
  nil : Pushed
  nothing : Pushed

-- `sizeof(in_addr_t)`, the size of `s6_addr`, and `sizeof(in_port_t)`.
abbrev pub in_addr_size : ℕ
in_addr_size = 4

abbrev pub in6_addr_size : ℕ
in6_addr_size = 16

abbrev pub in_port_size : ℕ
in_port_size = 2

-- Whether an abstract address begins here: 1 where the search for the end skips its first byte.
unfoldable pub first : List ℕ → ℕ → Option ℕ
first path arg = if not (ltb 1 arg) then some 0 else do
  c ← get_elem? path 0
  if not (c == 0) then some 0 else (do d ← get_elem? path 1; some (if d == 0 then 0 else 1))

-- The loop over the path: `rest` begins at `path[i]`, and `n` is `arg - i`.
unfoldable pub end_of : ℕ → List ℕ → ℕ → Option ℕ
end_of zero rest i = some i
end_of (suc n) [] i = none
end_of (suc n) (c ∷ rest) i = do
  let further = end_of n rest (suc i)
  if c == 0 then some i else further

-- The string at `path`, in an object of which `arg` bytes from there belong to the address.
unfoldable pub path_string : List ℕ → ℕ → Option (List ℕ)
unfolding first end_of read
path_string path arg = do i ← first path arg; n ← end_of (arg - i) (drop i path) i; read 0 n path

module _ (l : Layout) where
  abbrev pub family : SocketAddress → ℕ
  family self = l.get_family self.address

  -- The constructor without arguments, and the one that copies.
  abbrev pub empty_address : SocketAddress
  empty_address = record { address = zeros l.storage_size; size = l.storage_size }

  unfoldable pub new_sockaddr : List ℕ → ℕ → Option Made
  unfolding read write
  new_sockaddr address size = if ltb l.storage_size size then some (thrown l.einval) else do
    copied ← read 0 size address
    storage ← write 0 copied (zeros l.storage_size)
    some (made (record { address = storage; size = size }))

  -- A structure of zeros in which the family, the address and the port are stored.
  abbrev pub inet : ℕ → ℕ → ℕ → List ℕ → ℕ → List ℕ → Option Made
  unfolding new_sockaddr write
  inet family size addr_at addr port_at port = do
    with_addr ← write addr_at addr (l.set_family family (zeros size))
    with_port ← write port_at port with_addr
    new_sockaddr with_port size

  unfoldable pub impl_sockaddr_in : List ℕ → List ℕ → Option Made
  unfolding inet
  impl_sockaddr_in addr port =
      if not (length addr == in_addr_size)
      then some (arg_error 1)
      else if not (length port == in_port_size)
      then some (arg_error 2)
      else inet l.af_inet l.sockaddr_in_size l.sin_addr addr l.sin_port port

  unfoldable pub impl_sockaddr_in6 : List ℕ → List ℕ → Option Made
  unfolding inet
  impl_sockaddr_in6 addr port =
      if not (length addr == in6_addr_size)
      then some (arg_error 1)
      else if not (length port == in_port_size)
      then some (arg_error 2)
      else inet l.af_inet6 l.sockaddr_in6_size l.sin6_addr addr l.sin6_port port

  unfoldable pub impl_sockaddr_un : List ℕ → Option Made
  unfolding new_sockaddr write
  impl_sockaddr_un path = if not (ltb (length path) l.sun_path_size) then some (arg_error 1) else do
    with_path ← write l.sun_path path (l.set_family l.af_unix (zeros l.sockaddr_un_size))
    ended ← write (l.sun_path + length path) (0 ∷ []) with_path
    new_sockaddr ended l.sockaddr_un_size

  -- A field of the structure of `AF_INET`, or of the one of `AF_INET6`.
  abbrev pub field : ℕ → ℕ → ℕ → ℕ → SocketAddress → Option Pushed
  unfolding read
  field at size at6 size6 self =
      if family self == l.af_inet
      then (do found ← read at size self.address; some (bytes found))
      else if family self == l.af_inet6
      then (do found ← read at6 size6 self.address; some (bytes found))
      else some nothing

  unfoldable pub impl_addr : SocketAddress → Option Pushed
  unfolding field
  impl_addr = field l.sin_addr in_addr_size l.sin6_addr in6_addr_size

  unfoldable pub impl_port : SocketAddress → Option Pushed
  unfolding field
  impl_port = field l.sin_port in_port_size l.sin6_port in_port_size

  -- `size()` and the offset are unsigned, and the difference is stored in 32 bits.
  abbrev pub path_bound : SocketAddress → ℕ
  path_bound self = (self.size + 2 ^ 32 - l.sun_path) % 2 ^ 32

  unfoldable pub impl_path : SocketAddress → Option Pushed
  unfolding path_string
  impl_path self =
      if not (family self == l.af_unix)
      then some nil
      else let arg = path_bound self in
        if not (ltb 0 arg)
        then some (bytes [])
        else (do string ← path_string (drop l.sun_path self.address) arg; some (bytes string))
