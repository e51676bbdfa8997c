-- ===== src/Lua/Netdb.antt =====
-- src/lua/netdb.cpp: names and addresses of hosts, in one call or as a task. The calls of the system are
-- parameters. The list that `getaddrinfo` allocates has a number, by which it is freed.
pub mod Deferred
use dromozoa_unix.Prelude.{
  ℕ, zero, suc, ◌+◌, Bool, true, false, Option, none, some, List, [], ◌∷◌, ◌>>=◌,
}
use dromozoa_unix.Prelude.Int.{ℤ, pos, eq_ℤ}
use dromozoa_unix.Fd.{Machine}
use dromozoa_unix.Lua.{
  Key, index, name, Value, nil, integer, text, table, address, Fields, end, field, Answer, returned,
  thrown, fault, Session, Run, checked,
}
use dromozoa_unix.Lua.Buffer.{filled, c_string}

abbrev pub Bytes : Type 0
Bytes = List ℕ

-- `struct addrinfo`, with the bytes of its address.
pub record AddrInfo : Type 0 where
  pub ai_family : ℤ
  pub ai_socktype : ℤ
  pub ai_protocol : ℤ
  pub ai_addrlen : ℕ
  pub ai_addr : Option Bytes
  pub ai_canonname : Option Bytes

pub record Hints : Type 0 where
  pub ai_flags : ℤ
  pub ai_family : ℤ
  pub ai_socktype : ℤ
  pub ai_protocol : ℤ

pub record Found : Type 0 where
  pub number : ℕ
  pub list : List AddrInfo

-- `getaddrinfo` gives its code and what it has stored in `result`; `getnameinfo` its code and what it has
-- written to the two buffers.
pub record Calls (W : Type 0) : Type 0 where
  pub getaddrinfo :
      Option Bytes → Option Bytes → Option Hints → Machine W → (ℤ × Option Found) × Machine W
  pub freeaddrinfo : ℕ → Machine W → Machine W
  pub getnameinfo : Bytes → ℕ → ℕ → ℤ → Machine W → (ℤ × Bytes × Bytes) × Machine W
  pub gai_strerror : ℤ → Option Bytes
  pub error_number : ℤ → Bytes  -- `lua_pushfstring(L, "error number %d", code)`
  pub ni_maxhost : ℕ
  pub ni_maxserv : ℕ
  pub ai_v4mapped_addrconfig : ℤ  -- AI_V4MAPPED | AI_ADDRCONFIG
  pub af_unspec : ℤ

abbrev pub or_else : Option Bytes → Bytes → Bytes
or_else none other = other
or_else (some what) other = what

-- An argument with hints: none or nil, or what reads its fields, with a default, unless that raises.
abbrev pub HintsArg : Type 0
HintsArg = Option (Key → ℤ → Option ℤ)

-- The entries of a table that are set only if they are there.
abbrev pub with_canonname : Option Bytes → Fields
with_canonname none = end
with_canonname (some what) = field (name "ai_canonname") (text what) end

abbrev pub with_addr : Option Bytes → Fields → Fields
with_addr none rest = rest
with_addr (some bytes) rest = field (name "ai_addr") (address bytes) rest

unfoldable pub addrinfo_table : AddrInfo → Fields
addrinfo_table ai = field (name "ai_family") (integer ai.ai_family) (
    field (name "ai_socktype") (integer ai.ai_socktype) (
      field (name "ai_protocol") (integer ai.ai_protocol) (
        field (name "ai_addrlen") (integer (pos ai.ai_addrlen))
          (with_addr ai.ai_addr (with_canonname ai.ai_canonname)))))

-- The loop of `new_result`, from index `i` on.
unfoldable pub new_result : ℕ → List AddrInfo → Fields
unfolding addrinfo_table
new_result i [] = end
new_result i (ai ∷ rest) = field (index i) (table (addrinfo_table ai)) (new_result (i + 1) rest)

abbrev pub in_machine : {W A : Type 0} → (Machine W → A × Machine W) → (A → Run W) → Run W
in_machine f body s = let r = f s.machine in body r.0 (record s { machine = r.1 })

module _ {W : Type 0} (k : Calls W) where
  unfoldable pub push_netdb_error : ℤ → Answer
  push_netdb_error code =
      returned
        (nil ∷ text (or_else (k.gai_strerror code) (k.error_number code)) ∷ integer code ∷ [])

  unfoldable pub check_hints : HintsArg → Option (Option Hints)
  check_hints none = some none
  check_hints (some opt_integer_field) =
      opt_integer_field (name "ai_flags") k.ai_v4mapped_addrconfig >>= λ flags.
      opt_integer_field (name "ai_family") k.af_unspec >>= λ family.
      opt_integer_field (name "ai_socktype") (pos 0) >>= λ socktype.
      opt_integer_field (name "ai_protocol") (pos 0) >>= λ protocol. some (
        some (record {
          ai_flags = flags;
          ai_family = family;
          ai_socktype = socktype;
          ai_protocol = protocol;
        }))

  abbrev pub list_of : Option Found → List AddrInfo
  list_of none = []
  list_of (some found) = found.list

  abbrev pub free : Option Found → Machine W → Machine W
  free none m = m
  free (some found) m = k.freeaddrinfo found.number m

  -- `impl_getaddrinfo` behind its call.
  abbrev pub after_getaddrinfo : ℤ × Option Found → Run W
  after_getaddrinfo (code, result) s = elim (eq_ℤ code (pos 0)) [
    | true ↦ (
      returned (table (new_result 1 (list_of result)) ∷ []),
      record s { machine = free result s.machine },
    )
    | false ↦ (push_netdb_error code, s)
  ]

  unfoldable pub impl_getaddrinfo : Option Bytes → Option Bytes → HintsArg → Run W
  unfolding check_hints new_result push_netdb_error
  impl_getaddrinfo nodename servname hints =
      checked (check_hints hints)
        λ h. in_machine (k.getaddrinfo nodename servname h) after_getaddrinfo

  -- The two names that are pushed, each up to its NUL.
  abbrev pub push_names : Option Bytes → Option Bytes → Answer
  push_names (some node) (some serv) = returned (text node ∷ text serv ∷ [])
  push_names (some node) none = fault
  push_names none serv = fault

  abbrev pub names : Bytes → Bytes → Answer
  names node serv =
      push_names (c_string (filled k.ni_maxhost node)) (c_string (filled k.ni_maxserv serv))

  abbrev pub after_getnameinfo : ℤ × Bytes × Bytes → Run W
  after_getnameinfo (code, node, serv) s = elim (eq_ℤ code (pos 0)) [
    | true ↦ (names node serv, s)
    | false ↦ (push_netdb_error code, s)
  ]

  unfoldable pub impl_getnameinfo : Bytes → Option ℤ → Run W
  unfolding filled c_string push_netdb_error
  impl_getnameinfo addr flags =
      checked flags
        λ f. in_machine (k.getnameinfo addr k.ni_maxhost k.ni_maxserv f) after_getnameinfo
