-- ===== src/Sockaddr/Inet.antt =====
-- src/lua/sockaddr.cpp: what is read from the addresses of `AF_INET` and `AF_INET6` that it makes.
use dromozoa_unix.Prelude.{
  ℕ, ◌+◌, ◌≤◌, ◌<◌, ◌≡◌, ◌≢◌, ◌^◌, refl, ap, ◌∙◌, true, false, Option, some, ◌>>=◌, List, length,
  subst, take, drop, ltb, ◌==◌, arith, take-length,
}
use dromozoa_unix.Sockaddr.Memory.{
  zeros, length-zeros, slice, splice, read, read_inside, write_inside, length-splice, slice-splice,
  slice_before, slice_behind, slice_within,
}
use dromozoa_unix.Sockaddr.{
  Layout, SocketAddress, Made, made, bytes, in_addr_size, in6_addr_size, in_port_size, family,
  new_sockaddr, inet, impl_sockaddr_in, impl_sockaddr_in6, field, impl_addr, impl_port,
}

-- The headers of a system: the family lies before the other fields, in `header` bytes, and the fields
-- lie apart from each other, inside structures that `sockaddr_storage` has room for.
pub record IsLayout (l : Layout) : Type 0 where
  pub header : ℕ
  pub length-set_family :
      (f : ℕ) (m : List ℕ) → header ≤ length m → length (l.set_family f m) ≡ length m
  pub get_set :
      (f : ℕ) (m : List ℕ) → f < 256 → header ≤ length m → l.get_family (l.set_family f m) ≡ f
  pub get_local :
      (m m' : List ℕ) → take header m ≡ take header m' → l.get_family m ≡ l.get_family m'
  pub inet_small : l.af_inet < 256
  pub inet6_small : l.af_inet6 < 256
  pub unix_small : l.af_unix < 256
  pub inet6_other : l.af_inet6 ≢ l.af_inet
  pub port_behind : header ≤ l.sin_port
  pub addr_behind : l.sin_port + in_port_size ≤ l.sin_addr
  pub addr_inside : l.sin_addr + in_addr_size ≤ l.sockaddr_in_size
  pub in_stored : l.sockaddr_in_size ≤ l.storage_size
  pub port6_behind : header ≤ l.sin6_port
  pub addr6_behind : l.sin6_port + in_port_size ≤ l.sin6_addr
  pub addr6_inside : l.sin6_addr + in6_addr_size ≤ l.sockaddr_in6_size
  pub in6_stored : l.sockaddr_in6_size ≤ l.storage_size
  pub path_behind : header ≤ l.sun_path
  pub path_inside : l.sun_path + l.sun_path_size ≤ l.sockaddr_un_size
  pub storage_small : l.storage_size < 2 ^ 32
  pub un_stored : l.sockaddr_un_size ≤ l.storage_size

module _ (l : Layout) where
  -- An object that has been made of a structure of `size` bytes, which can be read in it.
  abbrev pub Copies : List ℕ → ℕ → Option Made → Type 0
  Copies m size r =
      (a : SocketAddress) × (r ≡ some (made a))
      × (a.size ≡ size)
      × (length a.address ≡ l.storage_size)
      × ((at n : ℕ) → at + n ≤ size → slice at n a.address ≡ slice at n m)

  -- The storage has room for the copy.
  room : (m : List ℕ) → length m ≤ l.storage_size → 0 + length m ≤ length (zeros l.storage_size)
  room m h = omega (arith, length-zeros l.storage_size)

  copied :
      (m : List ℕ) → length m ≤ l.storage_size → Copies m (length m) (new_sockaddr l m (length m))
  unfolding new_sockaddr
  copied m h =
      let z = zeros l.storage_size in
      let a : SocketAddress = record { address = splice 0 m z; size = length m } in
      let small : ltb l.storage_size (length m) ≡ false = ground arith in
      (
        a,
        rw small (
            rw
              (
                read_inside 0 (length m) m (omega arith),
                ◌>>=◌,
                take-length m,
                write_inside 0 m z (room m h),
              )
              refl),
        refl,
        length-splice 0 m z (room m h) ∙ length-zeros l.storage_size,
        λ at n g. slice_within at n m (drop (length m) z) g,
      )

  pub new_sockaddr-Copies :
      (m : List ℕ) (size : ℕ)
      → length m ≡ size
      → size ≤ l.storage_size
      → Copies m size (new_sockaddr l m size)
  new_sockaddr-Copies m size e h =
      subst (λ n. Copies m n (new_sockaddr l m n)) e (copied m (omega arith))

  abbrev pub Fields : ℕ → ℕ → ℕ → List ℕ → ℕ → List ℕ → Option Made → Type 0
  Fields f size addr_at addr port_at port r =
      (a : SocketAddress) × (r ≡ some (made a))
      × (family l a ≡ f)
      × (a.size ≡ size)
      × (read addr_at (length addr) a.address ≡ some addr)
      × (read port_at (length port) a.address ≡ some port)

  module _ (h : IsLayout l) where
    pub length-set_zeros :
        (f size : ℕ) → h.header ≤ size → length (l.set_family f (zeros size)) ≡ size
    length-set_zeros f size g =
        h.length-set_family f (zeros size) (omega (arith, length-zeros size)) ∙ length-zeros size

    pub get_copied :
        (f size : ℕ) (m : List ℕ) (a : SocketAddress)
        → f < 256
        → h.header ≤ size
        → take h.header m ≡ take h.header (l.set_family f (zeros size))
        → take h.header a.address ≡ take h.header m
        → family l a ≡ f
    get_copied f size m a small g e i =
        h.get_local a.address (l.set_family f (zeros size)) (i ∙ e)
        ∙ h.get_set f (zeros size) small (omega (arith, length-zeros size))

    inet-Fields :
        (f size addr_at : ℕ) (addr : List ℕ) (port_at : ℕ) (port : List ℕ)
        → f < 256
        → h.header ≤ port_at
        → port_at + length port ≤ addr_at
        → addr_at + length addr ≤ size
        → size ≤ l.storage_size
        → Fields f size addr_at addr port_at port (inet l f size addr_at addr port_at port)
    unfolding inet
    inet-Fields f size addr_at addr port_at port small g1 g2 g3 g4 =
        let m0 = l.set_family f (zeros size) in
        let m1 = splice addr_at addr m0 in
        let m2 = splice port_at port m1 in
        let e0 : length m0 ≡ size = length-set_zeros f size (omega arith) in
        let e1 : length m1 ≡ size = length-splice addr_at addr m0 (omega arith) ∙ e0 in
        let e2 : length m2 ≡ size = length-splice port_at port m1 (omega arith) ∙ e1 in
        let (a, e, s, long, same) = new_sockaddr-Copies m2 size e2 g4 in
        (
          a,
          rw
              (
                write_inside addr_at addr m0 (omega arith),
                ◌>>=◌,
                write_inside port_at port m1 (omega arith),
              )
              e,
          get_copied f size m2 a small (omega arith)
              (slice_before 0 h.header port_at port m1 (omega arith) (omega arith)
                ∙ slice_before 0 h.header addr_at addr m0 (omega arith) (omega arith))
              (same 0 h.header (omega arith)),
          s,
          read_inside addr_at (length addr) a.address (omega arith)
              ∙ ap some (
                  same addr_at (length addr) (omega arith)
                  ∙ slice_behind port_at addr_at (length addr) port m1 (omega arith) (omega arith)
                  ∙ slice-splice addr_at addr m0 (omega arith)),
          read_inside port_at (length port) a.address (omega arith)
              ∙ ap some (
                  same port_at (length port) (omega arith)
                  ∙ slice-splice port_at port m1 (omega arith)),
        )

  field_inet :
      (at n at6 n6 : ℕ) (a : SocketAddress) (bs : List ℕ)
      → family l a ≡ l.af_inet
      → read at n a.address ≡ some bs
      → field l at n at6 n6 a ≡ some (bytes bs)
  unfolding field
  field_inet at n at6 n6 a bs f r =
      let same : (l.af_inet == l.af_inet) ≡ true = ground arith in rw (f, same, r, ◌>>=◌) refl

  field_inet6 :
      (at n at6 n6 : ℕ) (a : SocketAddress) (bs : List ℕ)
      → family l a ≡ l.af_inet6
      → l.af_inet6 ≢ l.af_inet
      → read at6 n6 a.address ≡ some bs
      → field l at n at6 n6 a ≡ some (bytes bs)
  unfolding field
  field_inet6 at n at6 n6 a bs f other r =
      let no : (l.af_inet6 == l.af_inet) ≡ false = ground arith in
      let same : (l.af_inet6 == l.af_inet6) ≡ true = ground arith in rw (f, no, same, r, ◌>>=◌) refl

  accepted_in :
      (addr port : List ℕ)
      → length addr ≡ in_addr_size
      → length port ≡ in_port_size
      → impl_sockaddr_in l addr port
        ≡ inet l l.af_inet l.sockaddr_in_size l.sin_addr addr l.sin_port port
  unfolding impl_sockaddr_in
  accepted_in addr port e4 e2 =
      let long : (length addr == in_addr_size) ≡ true = ground arith in
      let short : (length port == in_port_size) ≡ true = ground arith in rw (long, short) refl

  accepted_in6 :
      (addr port : List ℕ)
      → length addr ≡ in6_addr_size
      → length port ≡ in_port_size
      → impl_sockaddr_in6 l addr port
        ≡ inet l l.af_inet6 l.sockaddr_in6_size l.sin6_addr addr l.sin6_port port
  unfolding impl_sockaddr_in6
  accepted_in6 addr port e16 e2 =
      let long : (length addr == in6_addr_size) ≡ true = ground arith in
      let short : (length port == in_port_size) ≡ true = ground arith in rw (long, short) refl

  -- The address that is made has the family and the size, and gives its address and its port to Lua.
  abbrev pub Reads : ℕ → ℕ → List ℕ → List ℕ → Option Made → Type 0
  Reads f size addr port r =
      (a : SocketAddress) × (r ≡ some (made a))
      × (family l a ≡ f)
      × (a.size ≡ size)
      × (impl_addr l a ≡ some (bytes addr))
      × (impl_port l a ≡ some (bytes port))

  -- An address of 4 bytes and a port of 2 make an address of `AF_INET`, and one of 16 bytes and a port
  -- of 2 an address of `AF_INET6`, of the size of their structure; `addr` and `port` give the bytes
  -- back. Nothing is read or written outside an object.
  pub inet-Reads :
      IsLayout l
      → (addr addr6 port : List ℕ) → length addr ≡ in_addr_size
      → length addr6 ≡ in6_addr_size
      → length port ≡ in_port_size
      → Reads l.af_inet l.sockaddr_in_size addr port (impl_sockaddr_in l addr port)
        × Reads l.af_inet6 l.sockaddr_in6_size addr6 port (impl_sockaddr_in6 l addr6 port)
  unfolding impl_addr impl_port
  inet-Reads h addr addr6 port e4 e16 e2 =
      let (a, made4, family4, size4, addr4, port4) =
        inet-Fields h l.af_inet l.sockaddr_in_size l.sin_addr addr l.sin_port port h.inet_small
          h.port_behind (omega (arith, h.addr_behind)) (omega (arith, h.addr_inside)) h.in_stored in
      let (a6, made6, family6, size6, read6, port6) =
        inet-Fields h l.af_inet6 l.sockaddr_in6_size l.sin6_addr addr6 l.sin6_port port
          h.inet6_small h.port6_behind (omega (arith, h.addr6_behind))
          (omega (arith, h.addr6_inside)) h.in6_stored in
      (
        (
          a,
          accepted_in addr port e4 e2 ∙ made4,
          family4,
          size4,
          field_inet l.sin_addr in_addr_size l.sin6_addr in6_addr_size a addr family4
              (subst (λ n. read l.sin_addr n a.address ≡ some addr) e4 addr4),
          field_inet l.sin_port in_port_size l.sin6_port in_port_size a port family4
              (subst (λ n. read l.sin_port n a.address ≡ some port) e2 port4),
        ),
        (
          a6,
          accepted_in6 addr6 port e16 e2 ∙ made6,
          family6,
          size6,
          field_inet6 l.sin_addr in_addr_size l.sin6_addr in6_addr_size a6 addr6 family6
              h.inet6_other (subst (λ n. read l.sin6_addr n a6.address ≡ some addr6) e16 read6),
          field_inet6 l.sin_port in_port_size l.sin6_port in_port_size a6 port family6 h.inet6_other
              (subst (λ n. read l.sin6_port n a6.address ≡ some port) e2 port6),
        ),
      )
