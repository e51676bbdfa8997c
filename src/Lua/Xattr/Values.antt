-- ===== src/Lua/Xattr/Values.antt =====
-- src/lua/sys_xattr.cpp: the value that `impl_getxattr_` reads, which may change between its two calls.
use dromozoa_unix.Prelude.{
  ℕ, zero, suc, ◌≡◌, ap, Option, some, [], ◌∷◌, length, leb, if◌then◌else◌, Bool-cases, inl, inr,
}
use dromozoa_unix.Prelude.Int.{ℤ}
use dromozoa_unix.Fd.{Reply, done, failed}
use dromozoa_unix.Lua.{text, Answer, returned, fault, Session, error_of, at}
use dromozoa_unix.Lua.Buffer.{filled-string_reference, string_reference-outside}
use dromozoa_unix.Lua.Xattr.{Bytes, impl_getxattr_, text_of, pushed}

-- The reply to a call with room for `size` bytes: with none it only tells the size.
abbrev pub value_reply : {W : Type 0} → Bytes → ℕ → ℕ → W → Reply (ℕ × Bytes) × W
value_reply value zero erange w = (done (length value, []), w)
value_reply value (suc size) erange w =
    if leb (length value) (suc size) then (done (length value, value), w) else (failed erange, w)

-- What Lua is given of the value at the first call and that at the second.
pub expected :
    {W : Type 0} (strerror : ℤ → Bytes) (erange : ℕ) (old new : Bytes) (w2 : W)
    → Session W
    → Answer × Session W
expected strerror erange [] [] w2 s = (returned (text [] ∷ []), at w2 s)
expected strerror erange [] (c ∷ new) w2 s = (fault, at w2 s)
expected strerror erange (d ∷ old) new w2 s =
    if leb (length new) (length (d ∷ old))
    then (returned (text new ∷ []), at w2 s)
    else error_of strerror erange w2 s

module _ {W : Type 0} (strerror : ℤ → Bytes) (f : Bytes → Bytes → ℕ → W → Reply (ℕ × Bytes) × W)
    (path name : Bytes) (erange : ℕ) (w1 w2 : W) (s : Session W) where
  -- `impl_getxattr_` and `getxattr`, whose first call is told the size of the value of that time and
  -- whose second call gives the value of its own time, where it fits, or only its size if there is no
  -- room at all: a value that still fits is given whole; one that has outgrown the first is the error of
  -- the call; but one that was empty and no longer is makes the function read outside of its empty buffer.
  pub impl_getxattr_-value :
      (old new : Bytes)
      → f path name 0 s.machine.os ≡ value_reply old 0 erange w1
      → ((size : ℕ) → f path name size w1 ≡ value_reply new size erange w2)
      → impl_getxattr_ strerror f (some path) (some name) s ≡ expected strerror erange old new w2 s
  unfolding impl_getxattr_ expected
  impl_getxattr_-value [] [] first second = rw first (rw (second 0))
  impl_getxattr_-value [] (c ∷ new) first second =
      rw first (rw (second 0) (rw (string_reference-outside (length new))))
  impl_getxattr_-value (d ∷ old) new first second =
      elim (Bool-cases (leb (length new) (suc (length old)))) [
        | inl fits ↦ rw first (
            rw (second (suc (length old))) (
              rw fits (
                ap {B = Answer × Session W} (λ (o : Option Bytes). pushed (text_of o) (at w2 s))
                  (filled-string_reference (suc (length old)) new))))
        | inr small ↦ rw first (rw (second (suc (length old))) (rw small))
      ]
