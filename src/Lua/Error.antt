-- ===== src/Lua/Error.antt =====
-- src/lua/error.cpp: the error of the last function that failed, kept in the registry.
use dromozoa_unix.Prelude.{ℕ, Option, none, some, List, [], ◌∷◌}
use dromozoa_unix.Prelude.Int.{ℤ, pos}
use dromozoa_unix.Lua.{nil, success, integer, text, returned, Session, Run, checked}

unfoldable pub set_last_errno : {W : Type 0} → ℤ → Session W → Session W
set_last_errno code s = record s { last_errno = some code }

-- The field of the registry is 0 where none was set.
abbrev or_zero : Option ℤ → ℤ
or_zero none = pos 0
or_zero (some code) = code

unfoldable pub get_last_errno : {W : Type 0} → Session W → ℤ
get_last_errno s = or_zero s.last_errno

module _ {W : Type 0} (strerror : ℤ → List ℕ) where
  -- The code is that of `errno` where none is given.
  unfoldable pub impl_strerror : Option (Option ℤ) → Run W
  impl_strerror code = checked code λ given s.
      (returned (text (strerror (elim given [ none ↦ pos s.machine.errno | some e ↦ e ])) ∷ []), s)

  unfoldable pub impl_get_errno : Run W
  impl_get_errno s = (returned (integer (pos s.machine.errno) ∷ []), s)

  unfoldable pub impl_get_error : Run W
  impl_get_error s =
      let e = pos s.machine.errno in (returned (nil ∷ text (strerror e) ∷ integer e ∷ []), s)

  unfoldable pub impl_set_last_errno : Option ℤ → Run W
  unfolding set_last_errno
  impl_set_last_errno code = checked code (λ c s. (returned (success ∷ []), set_last_errno c s))

  unfoldable pub impl_get_last_errno : Run W
  unfolding get_last_errno
  impl_get_last_errno s = (returned (integer (get_last_errno s) ∷ []), s)

  unfoldable pub impl_get_last_error : Run W
  unfolding get_last_errno
  impl_get_last_error s =
      let code = get_last_errno s in (returned (nil ∷ text (strerror code) ∷ integer code ∷ []), s)
