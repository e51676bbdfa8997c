-- ===== src/Lua/Descriptor/Tests.antt =====
-- src/lua: functions that open descriptors, on a system in which every `close` fails.
use dromozoa_unix.Prelude.{ℕ, none, some, List, [], ◌∷◌}
use dromozoa_unix.Prelude.Int.{ℤ}
use dromozoa_unix.Fd.Sample.{World, kernel, openers, view, contract, start}
use dromozoa_unix.Lua.{Session}
use dromozoa_unix.Lua.Descriptor.{
  impl_pipe, impl_socket, impl_socketpair, impl_accept, impl_mkstemp,
}
use dromozoa_unix.Lua.Descriptor.Owned.{Collectable, openers-Collectable}

abbrev message : ℤ → List ℕ
message e = 69 ∷ []

abbrev session : Session World
session = record { machine = start; last_errno = none }

openers-Collectable_example :
    let C = Collectable message view kernel openers contract session in
    C (impl_pipe message kernel openers (some 524288) session)
    × C (impl_socketpair message kernel openers (some 524288) (some 1) (some 0) session)
    × C (impl_socket message kernel openers (some 524288) (some 1) (some 0) session)
    × C (impl_accept message kernel openers (some 524288) (some 1) (7 ∷ []) session)
    × C (impl_mkstemp message kernel openers (some (88 ∷ [])) (some 524288) session)
openers-Collectable_example =
    openers-Collectable message view kernel openers contract (some 524288) (some 1) (some 0)
      (7 ∷ []) (some (88 ∷ [])) session
