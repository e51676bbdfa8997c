-- ===== src/Lua.antt =====
-- src/lua: what the functions that are bound to Lua share. An argument that a function reads from the
-- Lua stack is what the reader of `bind` makes of it, and `none` where that reader raises an error. A
-- table that a function makes is the list of the fields that it sets, in their order.
pub mod Error
pub mod Buffer
pub mod Xattr
pub mod Sched
pub mod Dirent
pub mod Tasks
pub mod Netdb
pub mod Process
pub mod Descriptor
pub mod Transfer
pub mod Selector
mod Tests
use Prim.Native.String.{String}
use dromozoa_unix.Prelude.{ℕ, Bool, Option, none, some, List, [], ◌∷◌}
use dromozoa_unix.Prelude.Int.{ℤ, pos}
use dromozoa_unix.Fd.{Reply, done, failed, Machine}

pub data Key : Type 0 where
  index : ℕ → Key
  name : String → Key

-- What is pushed on the stack; `success` is what `luaX_push_success` pushes, an `object` a userdata with
-- its metatable and the number that it holds, an `address` a userdata with the bytes of a
-- `socket_address`.
mutual
  pub data Value : Type 0 where
    nil : Value
    success : Value
    integer : ℤ → Value
    text : List ℕ → Value
    table : Fields → Value
    function : String → Value
    object : String → ℤ → Value
    address : List ℕ → Value

  pub data Fields : Type 0 where
    end : Fields
    field : Key → Value → Fields → Fields

-- How a function ends: with the values that it has pushed, by an exception, which `bind` makes an
-- error of Lua, or by a read outside of an object.
pub data Answer : Type 0 where
  returned : List Value → Answer
  thrown : Answer
  fault : Answer

-- The process, and the field of the registry that keeps the last error.
pub record Session (W : Type 0) : Type 0 where
  pub machine : Machine W
  pub last_errno : Option ℤ

abbrev pub Run : Type 0 → Type 0
Run W = Session W → Answer × Session W

-- An argument that is checked: the function goes on with its value.
abbrev pub checked : {W A : Type 0} → Option A → (A → Run W) → Run W
checked none body s = (thrown, s)
checked (some a) body s = body a s

-- `push_error` of src/lua/error.cpp, with the message of `compat_strerror`.
abbrev pub push_error : {W : Type 0} → (ℤ → List ℕ) → Run W
push_error strerror s =
    let e = s.machine.errno in
    (
      returned (nil ∷ text (strerror (pos e)) ∷ integer (pos e) ∷ []),
      record s { last_errno = some (pos e) },
    )

-- A system call: what follows its result, or `push_error` with the error of the call.
abbrev pub answered :
    {W A : Type 0} → (ℤ → List ℕ) → (A → Run W) → Session W → Reply A × W → Answer × Session W
answered strerror body s (done a, w) = body a (record s { machine = record s.machine { os = w } })
answered strerror body s (failed e, w) =
    push_error strerror (record s { machine = record { os = w; errno = e } })

abbrev pub system : {W A : Type 0} → (ℤ → List ℕ) → (W → Reply A × W) → (A → Run W) → Run W
system strerror f body s = answered strerror body s (f s.machine.os)

-- What a failed call leaves, where nothing follows it.
abbrev pub error_of : {W : Type 0} → (ℤ → List ℕ) → ℕ → W → Session W → Answer × Session W
error_of strerror e w s = (
  returned (nil ∷ text (strerror (pos e)) ∷ integer (pos e) ∷ []),
  record { machine = record { os = w; errno = e }; last_errno = some (pos e) },
)

-- A session after calls that have not failed.
abbrev pub at : {W : Type 0} → W → Session W → Session W
at w s = record s { machine = record s.machine { os = w } }
