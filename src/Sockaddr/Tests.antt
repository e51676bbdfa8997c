-- ===== src/Sockaddr/Tests.antt =====
-- src/lib/socket_address.cpp and src/lua/sockaddr.cpp: runs with the structures of Linux.
use dromozoa_unix.Prelude.{
  ℕ, ◌+◌, ◌*◌, ◌/◌, ◌%◌, ◌≤◌, ◌≡◌, refl, ap, List, [], ◌∷◌, length, take, some, arith, ◌<◌,
}
use dromozoa_unix.Sockaddr.Memory.{zeros}
use dromozoa_unix.Sockaddr.{
  Layout, SocketAddress, made, thrown, arg_error, bytes, nil, nothing, family, new_sockaddr,
  empty_address, impl_sockaddr_in, impl_sockaddr_in6, impl_sockaddr_un, impl_addr, impl_path,
  path_string,
}
use dromozoa_unix.Sockaddr.Inet.{IsLayout, Reads, inet-Reads}
use dromozoa_unix.Sockaddr.Path.{visible, impl_path-visible}

-- The two bytes of the family.
abbrev get_two : List ℕ → ℕ
get_two (a ∷ b ∷ rest) = a + 256 * b
get_two _ = 0

abbrev set_two : ℕ → List ℕ → List ℕ
set_two f (a ∷ b ∷ rest) = f % 256 ∷ f / 256 ∷ rest
set_two f m = m

abbrev linux : Layout
linux = record {
  storage_size = 128;
  get_family = λ m. get_two (take 2 m);
  set_family = set_two;
  af_inet = 2;
  af_inet6 = 10;
  af_unix = 1;
  sockaddr_in_size = 16;
  sin_addr = 4;
  sin_port = 2;
  sockaddr_in6_size = 28;
  sin6_addr = 8;
  sin6_port = 2;
  sockaddr_un_size = 110;
  sun_path = 2;
  sun_path_size = 108;
  einval = 22;
}

length-set_two : (f : ℕ) (m : List ℕ) → 2 ≤ length m → length (set_two f m) ≡ length m
length-set_two f [] h = refl
length-set_two f (a ∷ []) h = refl
length-set_two f (a ∷ b ∷ rest) h = refl

get_two-set_two : (f : ℕ) (m : List ℕ) → f < 256 → 2 ≤ length m → get_two (take 2 (set_two f m)) ≡ f
get_two-set_two f [] g h = omega arith
get_two-set_two f (a ∷ []) g h = omega arith
get_two-set_two f (a ∷ b ∷ rest) g h = omega arith

linux-IsLayout : IsLayout linux
linux-IsLayout = record {
  header = 2;
  length-set_family = length-set_two;
  get_set = get_two-set_two;
  get_local = λ m m' e. ap get_two e;
  inet_small = omega arith;
  inet6_small = omega arith;
  unix_small = omega arith;
  inet6_other = omega arith;
  port_behind = omega arith;
  addr_behind = omega arith;
  addr_inside = omega arith;
  in_stored = omega arith;
  port6_behind = omega arith;
  addr6_behind = omega arith;
  addr6_inside = omega arith;
  in6_stored = omega arith;
  path_behind = omega arith;
  path_inside = omega arith;
  storage_small = omega arith;
  un_stored = omega arith;
}

abbrev localhost : List ℕ
localhost = 127 ∷ 0 ∷ 0 ∷ 1 ∷ []

abbrev http : List ℕ
http = 0 ∷ 80 ∷ []

abbrev abstract_path : List ℕ
abstract_path = 0 ∷ 116 ∷ 101 ∷ 115 ∷ 116 ∷ []

-- Lengths that do not fit.
refused_runs :
    (impl_sockaddr_in linux http http ≡ some (arg_error 1))
    × (impl_sockaddr_in6 linux (zeros 16) localhost ≡ some (arg_error 2))
    × (impl_sockaddr_un linux (zeros 108) ≡ some (arg_error 1))
    × (new_sockaddr linux (zeros 129) 129 ≡ some (thrown 22))
unfolding impl_sockaddr_in impl_sockaddr_in6 impl_sockaddr_un new_sockaddr
refused_runs = (refl, refl, refl, refl)

-- An address without a family, as `accept` fills it.
empty_runs :
    (impl_addr linux (empty_address linux) ≡ some nothing)
    × (impl_path linux (empty_address linux) ≡ some nil)
unfolding impl_addr impl_path
empty_runs = (refl, refl)

-- A NUL inside a path ends it, unless it is the first byte.
visible_runs :
    (visible (116 ∷ 0 ∷ 115 ∷ []) ≡ 116 ∷ [])
    × (visible (0 ∷ 116 ∷ 0 ∷ 115 ∷ []) ≡ 0 ∷ 116 ∷ [])
    × (visible abstract_path ≡ abstract_path)
unfolding visible
visible_runs = (refl, refl, refl)

-- A path that fills the field without a NUL ends with the address.
path_runs : path_string (116 ∷ 101 ∷ 115 ∷ 116 ∷ []) 3 ≡ some (116 ∷ 101 ∷ 115 ∷ [])
unfolding path_string
path_runs = refl

inet-Reads_example :
    Reads linux 2 16 localhost http (impl_sockaddr_in linux localhost http)
    × Reads linux 10 28 (zeros 16) http (impl_sockaddr_in6 linux (zeros 16) http)
inet-Reads_example = inet-Reads linux linux-IsLayout localhost (zeros 16) http refl refl refl

impl_path-visible_example :
    (a : SocketAddress) × (impl_sockaddr_un linux abstract_path ≡ some (made a))
    × (family linux a ≡ 1)
    × (a.size ≡ 110)
    × (impl_path linux a ≡ some (bytes (visible abstract_path)))
impl_path-visible_example =
    impl_path-visible linux linux-IsLayout abstract_path (omega arith) (omega arith)

-- The address of a socket that is bound to a path of two bytes, as `getsockname` may give it.
abbrev short_address : SocketAddress
short_address = record { address = 1 ∷ 0 ∷ 116 ∷ 101 ∷ zeros 124; size = 4 }

short_runs : impl_path linux short_address ≡ some (bytes (116 ∷ 101 ∷ []))
unfolding impl_path
short_runs = refl
