-- ===== src/Timespec.antt =====
-- src/lua/timespec.cpp: times with seconds and nanoseconds, their kinds, and the Lua tables that hold
-- them. Seconds are integers: a sum that overflows `time_t` is undefined in the source. Numbers of
-- Lua (doubles) and its tables are parameters.
pub mod Arith
pub mod Kinds
pub mod Tables
mod Tests
use dromozoa_unix.Prelude.{
  ◌>>=◌, ℕ, ◌+◌, ◌*◌, ◌≡◌, ◌≢◌, Bool, Option, none, some, List, [], ◌∷◌, get_elem?, ◌&&◌,
  if◌then◌else◌, not, ◌≤◌,
}
use dromozoa_unix.Prelude.Int.{ℤ, pos, negsuc, eq_ℤ, ltb_ℤ, ◌+ℤ◌, ◌-ℤ◌}

-- struct timespec
pub record Timespec : Type 0 where
  pub tv_sec : ℤ
  pub tv_nsec : ℤ

abbrev pub realtime : ℕ
realtime = 0

abbrev pub monotonic : ℕ
monotonic = 1

abbrev pub duration : ℕ
duration = 2

abbrev pub unknown : ℕ
unknown = 3

abbrev pub type_size : ℕ
type_size = unknown + 1

abbrev matrix : (r m d u : ℕ) → List ℕ
matrix r m d u = r ∷ m ∷ d ∷ u ∷ []

abbrev pub matrix_add : List ℕ
matrix_add = 3 ∷ 3 ∷ 0 ∷ 0 ∷ 3 ∷ 3 ∷ 1 ∷ 1 ∷ 0 ∷ 1 ∷ 2 ∷ 3 ∷ 0 ∷ 1 ∷ 3 ∷ 3 ∷ []

abbrev pub matrix_sub : List ℕ
matrix_sub = 2 ∷ 3 ∷ 0 ∷ 3 ∷ 3 ∷ 2 ∷ 1 ∷ 3 ∷ 3 ∷ 3 ∷ 2 ∷ 2 ∷ 2 ∷ 2 ∷ 3 ∷ 3 ∷ []

abbrev pub matrix_call : List ℕ
matrix_call = 0 ∷ 1 ∷ 2 ∷ 0 ∷ 0 ∷ 1 ∷ 2 ∷ 1 ∷ 0 ∷ 1 ∷ 2 ∷ 2 ∷ 0 ∷ 1 ∷ 2 ∷ 3 ∷ []

-- A read of a matrix; `none` is a read outside it.
unfoldable pub type_at : List ℕ → ℕ → ℕ → Option ℕ
type_at table type1 type2 = get_elem? table (type1 * type_size + type2)

-- The times of `impl_add` and `impl_sub`.
unfoldable pub add : Timespec → Timespec → Timespec
add tv1 tv2 =
    let sec = tv1.tv_sec +ℤ tv2.tv_sec in
    let nsec = tv1.tv_nsec +ℤ tv2.tv_nsec in
    if ltb_ℤ (pos 999999999) nsec
    then record { tv_sec = sec +ℤ pos 1; tv_nsec = nsec -ℤ pos 1000000000 }
    else record { tv_sec = sec; tv_nsec = nsec }

unfoldable pub sub : Timespec → Timespec → Timespec
sub tv1 tv2 =
    let sec = tv1.tv_sec -ℤ tv2.tv_sec in
    let nsec = tv1.tv_nsec -ℤ tv2.tv_nsec in
    if ltb_ℤ nsec (pos 0)
    then record { tv_sec = sec -ℤ pos 1; tv_nsec = nsec +ℤ pos 1000000000 }
    else record { tv_sec = sec; tv_nsec = nsec }

-- `impl_eq`, `impl_lt`, `impl_le`.
unfoldable pub eq : Timespec → Timespec → Bool
eq tv1 tv2 = eq_ℤ tv1.tv_sec tv2.tv_sec && eq_ℤ tv1.tv_nsec tv2.tv_nsec

unfoldable pub lt : Timespec → Timespec → Bool
lt tv1 tv2 =
    if eq_ℤ tv1.tv_sec tv2.tv_sec
    then ltb_ℤ tv1.tv_nsec tv2.tv_nsec
    else ltb_ℤ tv1.tv_sec tv2.tv_sec

unfoldable pub le : Timespec → Timespec → Bool
le tv1 tv2 =
    if eq_ℤ tv1.tv_sec tv2.tv_sec
    then not (ltb_ℤ tv2.tv_nsec tv1.tv_nsec)
    else not (ltb_ℤ tv2.tv_sec tv1.tv_sec)

-- What is passed from Lua, by its kind: a number, a table or something else.
pub data Arg (D T : Type 0) : Type 0 where
  number : D → Arg D T
  table : T → Arg D T
  other : Arg D T

pub data Key : Type 0 where
  tv_sec tv_nsec tv_type : Key

-- What the binding calls: `modf` with the two conversions, and the fields of tables. An optional
-- field or argument has a default; a read with bounds, or of what is no integer, may be an error, `none`.
pub record Lua (D T : Type 0) : Type 0 where
  pub whole_seconds : D → ℤ
  pub nanoseconds : D → ℤ
  pub new_table : T
  pub set_field : T → Key → ℤ → T
  pub opt_integer_field : T → Key → ℤ → Option ℤ
  pub opt_integer_field_in : T → Key → ℤ → ℤ → ℤ → Option ℤ
  pub opt_integer_in : Arg D T → ℤ → ℤ → ℤ → Option ℤ

-- A type out of its range cannot be read.
abbrev pub to_type : ℤ → ℕ
to_type (pos n) = n
to_type (negsuc n) = 0

module _ {D T : Type 0} (lua : Lua D T) where
  unfoldable pub new_timespec : Timespec → ℕ → T
  new_timespec tv type =
      lua.set_field
        (lua.set_field (lua.set_field lua.new_table tv_sec tv.tv_sec) tv_nsec tv.tv_nsec) tv_type
        (pos type)

  -- The time and its type, or an argument error.
  unfoldable pub check_timespec : Bool → Arg D T → Option (Timespec × ℕ)
  check_timespec check_nsec (number t) =
      some (record { tv_sec = lua.whole_seconds t; tv_nsec = lua.nanoseconds t }, unknown)
  check_timespec check_nsec (table t) = do
    sec ← lua.opt_integer_field t tv_sec (pos 0)
    nsec ←
        if check_nsec
        then lua.opt_integer_field_in t tv_nsec (pos 0) (pos 0) (pos 999999999)
        else lua.opt_integer_field t tv_nsec (pos 0)
    type ← lua.opt_integer_field_in t tv_type (pos unknown) (pos realtime) (pos unknown)
    some (record { tv_sec = sec; tv_nsec = nsec }, to_type type)
  check_timespec check_nsec other = none

  -- A binary operation on times, with its matrix.
  operate : (Timespec → Timespec → Timespec) → List ℕ → Arg D T → Arg D T → Option T
  operate f types a b = do
    (tv1, type1) ← check_timespec Bool.true a
    (tv2, type2) ← check_timespec Bool.true b
    type ← type_at types type1 type2
    some (new_timespec (f tv1 tv2) type)

  unfoldable pub impl_add : Arg D T → Arg D T → Option T
  unfolding operate
  impl_add = operate add matrix_add

  unfoldable pub impl_sub : Arg D T → Arg D T → Option T
  unfolding operate
  impl_sub = operate sub matrix_sub

  -- A time from an operand, with the type that the second argument asks for.
  unfoldable pub impl_call : Arg D T → Arg D T → Option T
  impl_call a b = do
    (tv, type1) ← check_timespec Bool.true a
    type2 ← lua.opt_integer_in b (pos unknown) (pos realtime) (pos unknown)
    type ← type_at matrix_call type1 (to_type type2)
    some (new_timespec tv type)
