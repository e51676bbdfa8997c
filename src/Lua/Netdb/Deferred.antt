-- ===== src/Lua/Netdb/Deferred.antt =====
-- src/lua/netdb.cpp: `async_getaddrinfo` and `async_getnameinfo`, the tasks that a thread of the pool
-- dispatches and whose result is asked for later.
use dromozoa_unix.Prelude.{
  ◌≡◌, refl, true, false, Option, none, some, [], ◌∷◌, inl, inr, ◌⊎◌, arith,
}
use dromozoa_unix.Prelude.Int.{ℤ, pos, eq_ℤ}
use dromozoa_unix.Fd.{Machine}
use dromozoa_unix.Lua.{table, Answer, returned, thrown, fault, Session, Run, checked}
use dromozoa_unix.Lua.Netdb.{
  Bytes, Hints, Found, Calls, HintsArg, new_result, push_netdb_error, check_hints, free, names,
  after_getaddrinfo, impl_getaddrinfo, impl_getnameinfo, in_machine,
}

pub record AddrTask : Type 0 where
  pub nodename : Option Bytes
  pub servname : Option Bytes
  pub hints : Option Hints
  pub result : Option Found
  pub code : ℤ

-- `code` is `none` until `code_` is set, which no constructor does.
pub record NameTask : Type 0 where
  pub addr : Bytes
  pub nodename : Bytes
  pub servname : Bytes
  pub flags : ℤ
  pub code : Option ℤ

module _ {W : Type 0} (k : Calls W) where
  unfoldable pub new_addr_task : Option Bytes → Option Bytes → Option Hints → AddrTask
  new_addr_task nodename servname hints = record {
    nodename = nodename;
    servname = servname;
    hints = hints;
    result = none;
    code = pos 0;
  }

  -- `impl_async_getaddrinfo`: the task, unless a field of the hints raises.
  unfoldable pub impl_async_getaddrinfo : Option Bytes → Option Bytes → HintsArg → Option AddrTask
  unfolding check_hints new_addr_task
  impl_async_getaddrinfo nodename servname hints = elim (check_hints k hints) [
    | none ↦ none
    | some h ↦ some (new_addr_task nodename servname h)
  ]

  unfoldable pub dispatch_addr : AddrTask → Machine W → AddrTask × Machine W
  dispatch_addr t m =
      let r = k.getaddrinfo t.nodename t.servname t.hints m in
      (record t { code = r.0.0; result = r.0.1 }, r.1)

  unfoldable pub result_addr : AddrTask → Answer
  unfolding new_result push_netdb_error
  result_addr t = elim t.result [
    | none ↦ push_netdb_error k t.code
    | some found ↦ returned (table (new_result 1 found.list) ∷ [])
  ]

  -- The destructor.
  unfoldable pub destroy_addr : AddrTask → Machine W → Machine W
  destroy_addr t m = free k t.result m

  unfoldable pub impl_async_getnameinfo : Bytes → Option ℤ → Option NameTask
  impl_async_getnameinfo addr none = none
  impl_async_getnameinfo addr (some flags) =
      some (record { addr = addr; nodename = []; servname = []; flags = flags; code = none })

  -- The names that are kept are what was written at the start of the two buffers.
  unfoldable pub dispatch_name : NameTask → Machine W → NameTask × Machine W
  dispatch_name t m =
      let r = k.getnameinfo t.addr k.ni_maxhost k.ni_maxserv t.flags m in
      (record t { code = some r.0.0; nodename = r.0.1; servname = r.0.2 }, r.1)

  unfoldable pub result_name : NameTask → Answer
  unfolding push_netdb_error
  result_name t = elim t.code [
    | none ↦ fault
    | some code ↦ elim (eq_ℤ code (pos 0)) [
      | true ↦ names k t.nodename t.servname
      | false ↦ push_netdb_error k code
    ]
  ]

  -- A task from its constructor to its destructor, dispatched once before its result is asked for.
  abbrev pub run_addr : AddrTask → Run W
  run_addr t s =
      let d = dispatch_addr t s.machine in
      (result_addr d.0, record s { machine = destroy_addr d.0 d.1 })

  abbrev pub run_name : NameTask → Run W
  run_name t s = let d = dispatch_name t s.machine in (result_name d.0, record s { machine = d.1 })

  abbrev pub made : {T : Type 0} → Option T → (T → Run W) → Run W
  made none run s = (thrown, s)
  made (some t) run s = run t s

  -- The documented behaviour of `getaddrinfo`: a list is stored just when the code is 0.
  abbrev pub Stores : Type 0
  Stores =
      (node serv : Option Bytes) (h : Option Hints) (m : Machine W)
      → let r = k.getaddrinfo node serv h m in
        ((r.0.0 ≡ pos 0) × ((f : Found) × (r.0.1 ≡ some f)))
        ⊎ ((eq_ℤ r.0.0 (pos 0) ≡ false) × (r.0.1 ≡ none))

  addr_same :
      (node serv : Option Bytes) (h : Option Hints) (s : Session W)
      → Stores
      → run_addr (new_addr_task node serv h) s
        ≡ after_getaddrinfo k
            (k.getaddrinfo node serv h s.machine).0
            (record s { machine = (k.getaddrinfo node serv h s.machine).1 })
  unfolding new_addr_task dispatch_addr result_addr destroy_addr
  addr_same node serv h s stores = elim (stores node serv h s.machine) [
    | inl (zero_code, found) ↦ rw zero_code (rw found.1)
    | inr (other, missing) ↦ ground arith
  ]

  name_same :
      (addr : Bytes) (flags : Option ℤ) (s : Session W)
      → made (impl_async_getnameinfo addr flags) run_name s ≡ impl_getnameinfo k addr flags s
  unfolding impl_async_getnameinfo impl_getnameinfo dispatch_name result_name
  name_same addr none s = refl
  name_same addr (some f) s = ground arith

  -- Where `getaddrinfo` stores a list just when its code is 0: a task that is made by
  -- `async_getaddrinfo`, dispatched once, asked for its result and destroyed, gives what `getaddrinfo`
  -- gives for the same arguments and leaves the process as that does, the list freed; and so does a task
  -- made by `async_getnameinfo` with what `getnameinfo` gives.
  pub deferred_same :
      Stores
      → (node serv : Option Bytes) (hints : HintsArg) (addr : Bytes) (flags : Option ℤ)
        (s : Session W)
      → (made (impl_async_getaddrinfo node serv hints) run_addr s
          ≡ impl_getaddrinfo k node serv hints s)
        × (made (impl_async_getnameinfo addr flags) run_name s ≡ impl_getnameinfo k addr flags s)
  unfolding impl_async_getaddrinfo impl_getaddrinfo impl_async_getnameinfo impl_getnameinfo
  deferred_same stores node serv hints addr flags s =
      (addr_part (check_hints k hints), name_same addr flags s)
    where
      addr_part :
          (h : Option (Option Hints))
          → made (elim h [ none ↦ none | some g ↦ some (new_addr_task node serv g) ]) run_addr s
            ≡ checked h (λ g. in_machine (k.getaddrinfo node serv g) (after_getaddrinfo k)) s
      addr_part none = refl
      addr_part (some g) = addr_same node serv g s stores
