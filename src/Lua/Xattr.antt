-- ===== src/Lua/Xattr.antt =====
-- src/lua/sys_xattr.cpp: extended attributes. The system's calls are parameters, with the macros of the
-- build as fields: `XATTR_NOFOLLOW` stands for the form of the calls that takes options. Of a call that
-- fills a buffer, the reply is the size that it returns and the bytes that it has written.
pub mod Names
pub mod Values
use mathlib.Core.Option
use dromozoa_unix.Prelude.{
  ℕ, zero, suc, ◌+◌, ◌<◌, ◌≡◌, refl, arith, Bool, true, false, Option, none, some, List, [], ◌∷◌,
  length, drop, ltb, if◌then◌else◌,
}
use dromozoa_unix.Prelude.Int.{ℤ, pos}
use dromozoa_unix.Prelude.Bits.{bit_or}
use dromozoa_unix.Fd.{Reply, Result}
use dromozoa_unix.Lua.{
  Key, index, Value, nil, success, text, table, Fields, end, field, Answer, returned, thrown, fault,
  Session, Run, checked, answered, system,
}
use dromozoa_unix.Lua.Buffer.{filled, string_reference, c_string}

abbrev pub Bytes : Type 0
Bytes = List ℕ

-- The calls with `position` and `options` are those of a system that has `XATTR_NOFOLLOW`.
pub record Calls (W : Type 0) : Type 0 where
  pub xattr_nofollow : Option ℕ
  pub have_getxattr : Bool
  pub have_lgetxattr : Bool
  pub have_setxattr : Bool
  pub have_lsetxattr : Bool
  pub have_removexattr : Bool
  pub have_lremovexattr : Bool
  pub have_listxattr : Bool
  pub have_llistxattr : Bool
  pub getxattr : Bytes → Bytes → ℕ → W → Reply (ℕ × Bytes) × W
  pub getxattr_options : Bytes → Bytes → ℕ → ℕ → ℕ → W → Reply (ℕ × Bytes) × W
  pub lgetxattr : Bytes → Bytes → ℕ → W → Reply (ℕ × Bytes) × W
  pub setxattr : Bytes → Bytes → Bytes → ℕ → W → Reply Unit × W
  pub setxattr_options : Bytes → Bytes → Bytes → ℕ → ℕ → W → Reply Unit × W
  pub lsetxattr : Bytes → Bytes → Bytes → ℕ → W → Reply Unit × W
  pub removexattr : Bytes → Bytes → W → Reply Unit × W
  pub removexattr_options : Bytes → Bytes → ℕ → W → Reply Unit × W
  pub lremovexattr : Bytes → Bytes → W → Reply Unit × W
  pub listxattr : Bytes → ℕ → W → Reply (ℕ × Bytes) × W
  pub listxattr_options : Bytes → ℕ → ℕ → W → Reply (ℕ × Bytes) × W
  pub llistxattr : Bytes → ℕ → W → Reply (ℕ × Bytes) × W

-- A function that is there if its `HAVE_` macro is, and else if the other form can stand for it.
abbrev pub either_of {ℓ} : {F : Type ℓ} → Bool → F → Option F → Option F
either_of true f g = some f
either_of false f g = g

abbrev pub plain_or {ℓ} : {F : Type ℓ} → Option ℕ → F → F → F
plain_or none f g = f
plain_or (some nofollow) f g = g

abbrev pub nofollow_form {ℓ} : {F : Type ℓ} → Bool → Option ℕ → (ℕ → F) → Option F
nofollow_form true (some nofollow) f = some (f nofollow)
nofollow_form true none f = none
nofollow_form false nofollow f = none

module _ {W : Type 0} (x : Calls W) where
  unfoldable pub compat_getxattr : Option (Bytes → Bytes → ℕ → W → Reply (ℕ × Bytes) × W)
  compat_getxattr =
      either_of x.have_getxattr
        (plain_or x.xattr_nofollow x.getxattr (λ p n k. x.getxattr_options p n k 0 0)) none

  unfoldable pub compat_lgetxattr : Option (Bytes → Bytes → ℕ → W → Reply (ℕ × Bytes) × W)
  compat_lgetxattr =
      either_of x.have_lgetxattr x.lgetxattr
        (nofollow_form x.have_getxattr x.xattr_nofollow (λ f p n k. x.getxattr_options p n k 0 f))

  unfoldable pub compat_setxattr : Option (Bytes → Bytes → Bytes → ℕ → W → Reply Unit × W)
  compat_setxattr =
      either_of x.have_setxattr
        (plain_or x.xattr_nofollow x.setxattr (λ p n v. x.setxattr_options p n v 0)) none

  unfoldable pub compat_lsetxattr : Option (Bytes → Bytes → Bytes → ℕ → W → Reply Unit × W)
  compat_lsetxattr = either_of x.have_lsetxattr x.lsetxattr (
      nofollow_form x.have_setxattr x.xattr_nofollow
        (λ f p n v flags. x.setxattr_options p n v 0 (bit_or flags f)))

  unfoldable pub compat_removexattr : Option (Bytes → Bytes → W → Reply Unit × W)
  compat_removexattr =
      either_of x.have_removexattr
        (plain_or x.xattr_nofollow x.removexattr (λ p n. x.removexattr_options p n 0)) none

  unfoldable pub compat_lremovexattr : Option (Bytes → Bytes → W → Reply Unit × W)
  compat_lremovexattr =
      either_of x.have_lremovexattr x.lremovexattr
        (nofollow_form x.have_removexattr x.xattr_nofollow (λ f p n. x.removexattr_options p n f))

  unfoldable pub compat_listxattr : Option (Bytes → ℕ → W → Reply (ℕ × Bytes) × W)
  compat_listxattr =
      either_of x.have_listxattr
        (plain_or x.xattr_nofollow x.listxattr (λ p k. x.listxattr_options p k 0)) none

  unfoldable pub compat_llistxattr : Option (Bytes → ℕ → W → Reply (ℕ × Bytes) × W)
  compat_llistxattr =
      either_of x.have_llistxattr x.llistxattr
        (nofollow_form x.have_listxattr x.xattr_nofollow (λ f p k. x.listxattr_options p k f))

-- A value that was read, or the read outside of the buffer.
abbrev pub pushed : {W : Type 0} → Option Value → Run W
pushed none s = (fault, s)
pushed (some v) s = (returned (v ∷ []), s)

abbrev pub text_of : Option Bytes → Option Value
text_of none = none
text_of (some bytes) = some (text bytes)

-- The loop over the names: `i` is the next index, `j` where the next name begins.
unfoldable pub list_names : ℕ → List ℕ → ℕ → ℕ → ℕ → Option Fields
unfolding c_string
list_names zero buffer result i j = none
list_names (suc rounds) buffer result i j = elim (ltb j result) [
  | true ↦ elim (c_string (drop j buffer)) [
    | none ↦ none
    | some name ↦ elim (list_names rounds buffer result (i + 1) (j + (length name + 1))) [
      | none ↦ none
      | some rest ↦ some (field (index i) (text name) rest)
    ]
  ]
  | false ↦ some end
]

-- The table of the names in the first `result` bytes. Each round takes a byte or more.
abbrev pub name_table : {W : Type 0} → Option Fields → Run W
name_table none s = (fault, s)
name_table (some names) s = (returned (table names ∷ []), s)

-- What follows the second call of `impl_listxattr_`.
unfoldable pub listed : {W : Type 0} → ℕ → ℕ × Bytes → Run W
unfolding list_names filled
listed size (zero, written) s = (returned (table end ∷ []), s)
listed size (suc n, written) s =
    name_table (list_names (suc (suc n)) (filled size written) (suc n) 1 0) s

module _ {W : Type 0} (strerror : ℤ → Bytes) where
  unfoldable pub impl_getxattr_ :
      (Bytes → Bytes → ℕ → W → Reply (ℕ × Bytes) × W) → Option Bytes → Option Bytes → Run W
  unfolding filled string_reference
  impl_getxattr_ f path name = checked path λ p. checked name λ n.
      system strerror (f p n 0) λ q.
        system strerror (f p n q.0) λ r. pushed (text_of (string_reference r.0 (filled q.0 r.1)))

  unfoldable pub impl_setxattr_ :
      (Bytes → Bytes → Bytes → ℕ → W → Reply Unit × W)
      → Option Bytes
      → Option Bytes
      → Option Bytes
      → Option ℕ
      → Run W
  impl_setxattr_ f path name value flags = checked path λ p. checked name λ n.
      checked value
        λ v. checked flags λ k. system strerror (f p n v k) λ _ s. (returned (success ∷ []), s)

  unfoldable pub impl_removexattr_ :
      (Bytes → Bytes → W → Reply Unit × W) → Option Bytes → Option Bytes → Run W
  impl_removexattr_ f path name =
      checked path
        λ p. checked name λ n. system strerror (f p n) λ _ s. (returned (success ∷ []), s)

  abbrev pub sized : (ℕ → W → Reply (ℕ × Bytes) × W) → ℕ → Run W
  unfolding listed
  sized f zero s = (returned (table end ∷ []), s)
  sized f (suc n) s = system strerror (f (suc n)) (listed (suc n)) s

  unfoldable pub impl_listxattr_ : (Bytes → ℕ → W → Reply (ℕ × Bytes) × W) → Option Bytes → Run W
  unfolding sized
  impl_listxattr_ f path = checked path λ p. system strerror (f p 0) λ q. sized (f p) q.0

  -- The functions that are registered, where the build has them.
  module _ (x : Calls W) where
    unfoldable pub impl_getxattr : Option (Option Bytes → Option Bytes → Run W)
    unfolding compat_getxattr impl_getxattr_
    impl_getxattr = Option.map impl_getxattr_ (compat_getxattr x)

    unfoldable pub impl_lgetxattr : Option (Option Bytes → Option Bytes → Run W)
    unfolding compat_lgetxattr impl_getxattr_
    impl_lgetxattr = Option.map impl_getxattr_ (compat_lgetxattr x)

    unfoldable pub impl_setxattr :
        Option (Option Bytes → Option Bytes → Option Bytes → Option ℕ → Run W)
    unfolding compat_setxattr impl_setxattr_
    impl_setxattr = Option.map impl_setxattr_ (compat_setxattr x)

    unfoldable pub impl_lsetxattr :
        Option (Option Bytes → Option Bytes → Option Bytes → Option ℕ → Run W)
    unfolding compat_lsetxattr impl_setxattr_
    impl_lsetxattr = Option.map impl_setxattr_ (compat_lsetxattr x)

    unfoldable pub impl_removexattr : Option (Option Bytes → Option Bytes → Run W)
    unfolding compat_removexattr impl_removexattr_
    impl_removexattr = Option.map impl_removexattr_ (compat_removexattr x)

    unfoldable pub impl_lremovexattr : Option (Option Bytes → Option Bytes → Run W)
    unfolding compat_lremovexattr impl_removexattr_
    impl_lremovexattr = Option.map impl_removexattr_ (compat_lremovexattr x)

    unfoldable pub impl_listxattr : Option (Option Bytes → Run W)
    unfolding compat_listxattr impl_listxattr_
    impl_listxattr = Option.map impl_listxattr_ (compat_listxattr x)

    unfoldable pub impl_llistxattr : Option (Option Bytes → Run W)
    unfolding compat_llistxattr impl_listxattr_
    impl_llistxattr = Option.map impl_listxattr_ (compat_llistxattr x)
