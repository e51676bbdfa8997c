-- ===== src/Timespec/Tests.antt =====
-- src/lua/timespec.cpp: runs over tables that are functions of their three fields, with whole seconds
-- for the numbers.
use dromozoa_unix.Prelude.{
  ◌≡◌, ◌≢◌, refl, Bool, true, false, Option, none, some, arith, ◌||◌, if◌then◌else◌,
}
use dromozoa_unix.Prelude.Int.{ℤ, pos, negsuc, ltb_ℤ, ◌+ℤ◌, ◌-ℤ◌}
use dromozoa_unix.Timespec.{
  Timespec, Arg, table, number, other, matrix_call, impl_call, unknown, Key, Lua, new_timespec,
  check_timespec, type_at, impl_add, impl_sub, matrix_add, matrix_sub, add, sub, duration,
}
use dromozoa_unix.Timespec.Arith.{IsNormal, nanos}
use dromozoa_unix.Timespec.Kinds.{infer, asked, sum, difference, matrices-infer}
use dromozoa_unix.Timespec.Tables.{Laws, Reads, check-new, impl_add-Reads, impl_add-refused}

abbrev Table : Type 0
Table = Key → Option ℤ

abbrev same : Key → Key → Bool
same Key.tv_sec Key.tv_sec = true
same Key.tv_nsec Key.tv_nsec = true
same Key.tv_type Key.tv_type = true
same _ _ = false

abbrev or_default : Option ℤ → ℤ → ℤ
or_default none d = d
or_default (some v) d = v

-- An argument that is left out is `other`.
abbrev argument : Arg ℤ Table → ℤ → ℤ → ℤ → Option ℤ
argument (number v) d lo hi = if ltb_ℤ v lo || ltb_ℤ hi v then none else some v
argument (table t) d lo hi = none
argument other d lo hi = some d

abbrev simple : Lua ℤ Table
simple = record {
  whole_seconds = λ d. d;
  nanoseconds = λ d. pos 0;
  new_table = λ k. none;
  set_field = λ t k v j. if same k j then some v else t j;
  opt_integer_field = λ t k d. some (or_default (t k) d);
  opt_integer_field_in = λ t k d lo hi.
      if ltb_ℤ (or_default (t k) d) lo || ltb_ℤ hi (or_default (t k) d)
      then none
      else some (or_default (t k) d);
  opt_integer_in = argument;
}

same_self : (k : Key) → same k k ≡ true
same_self k = ground arith

same_ne : (k j : Key) → k ≢ j → same k j ≡ false
same_ne k j h = ground arith

simple-Laws : Laws simple
simple-Laws = record {
  read_back = λ t k v d. rw (same_self k);
  read_other = λ t k j v d h. rw (same_ne k j h);
  read_in = λ t k d lo hi v e. let e' : or_default (t k) d ≡ v = cc in rw e';
}

-- 1.6 and 2.7 seconds.
abbrev early : Timespec
early = record { tv_sec = pos 1; tv_nsec = pos 600000000 }

abbrev late : Timespec
late = record { tv_sec = pos 2; tv_nsec = pos 700000000 }

add_runs : add early late ≡ record { tv_sec = pos 4; tv_nsec = pos 300000000 }
unfolding add ◌+ℤ◌ ◌-ℤ◌
add_runs = refl

sub_runs : sub early late ≡ record { tv_sec = negsuc 1; tv_nsec = pos 900000000 }
unfolding sub ◌+ℤ◌ ◌-ℤ◌
sub_runs = refl

early-IsNormal : IsNormal early
early-IsNormal = omega arith

late-IsNormal : IsNormal late
late-IsNormal = omega arith

-- A number of seconds becomes a duration, or keeps the unknown type; 4 is no type.
call_runs :
    (impl_call simple (number (pos 7)) (number (pos 2))
      ≡ some (new_timespec simple (record { tv_sec = pos 7; tv_nsec = pos 0 }) duration))
    × (impl_call simple (number (pos 7)) other
        ≡ some (new_timespec simple (record { tv_sec = pos 7; tv_nsec = pos 0 }) unknown))
    × (impl_call simple (number (pos 7)) (number (pos 4)) ≡ none)
unfolding impl_call check_timespec type_at
call_runs = (refl, refl, refl)

matrices-infer_example :
    (type_at matrix_add 0 2 ≡ some (infer sum 0 2))
    × (type_at matrix_sub 0 2 ≡ some (infer difference 0 2))
    × (type_at matrix_call 0 2 ≡ some (asked 0 2))
matrices-infer_example = matrices-infer 0 2 (omega arith) (omega arith)

late-Reads : Reads simple (table (new_timespec simple late duration)) late duration
late-Reads = record {
  read = check-new simple simple-Laws late duration late-IsNormal (omega arith);
  normal = late-IsNormal;
  known = omega arith;
}

number-Reads : Reads simple (number (pos 9)) (record { tv_sec = pos 9; tv_nsec = pos 0 }) 3
unfolding check_timespec
number-Reads = record { read = refl; normal = omega arith; known = omega arith }

impl_add-Reads_example :
    (t : Table) × (impl_add simple (number (pos 9)) (table (new_timespec simple late duration))
      ≡ some t)
    × Reads simple (table t) (add (record { tv_sec = pos 9; tv_nsec = pos 0 }) late) 3
    × (nanos (add (record { tv_sec = pos 9; tv_nsec = pos 0 }) late)
        ≡ nanos (record { tv_sec = pos 9; tv_nsec = pos 0 }) +ℤ nanos late)
impl_add-Reads_example =
    impl_add-Reads simple simple-Laws (number (pos 9)) (table (new_timespec simple late duration)) _
      late 3 duration number-Reads late-Reads

-- A number is a whole number of seconds less a half.
abbrev less_half : Lua ℤ Table
less_half = record {
  whole_seconds = λ d. d;
  nanoseconds = λ d. negsuc 499999999;
  new_table = simple.new_table;
  set_field = simple.set_field;
  opt_integer_field = simple.opt_integer_field;
  opt_integer_field_in = simple.opt_integer_field_in;
  opt_integer_in = simple.opt_integer_in;
}

less_half-Laws : Laws less_half
less_half-Laws = record {
  read_back = simple-Laws.read_back;
  read_other = simple-Laws.read_other;
  read_in = simple-Laws.read_in;
}

abbrev whole : Timespec
whole = record { tv_sec = pos 2; tv_nsec = pos 0 }

whole-Reads : Reads less_half (table (new_timespec less_half whole duration)) whole duration
whole-Reads = record {
  read = check-new less_half less_half-Laws whole duration (omega arith) (omega arith);
  normal = omega arith;
  known = omega arith;
}

impl_add-refused_example :
    (s : Table) × (impl_add less_half
        (table (new_timespec less_half whole duration))
        (number (pos 0))
      ≡ some s)
    × (impl_add less_half (table s) (number (pos 9)) ≡ none)
    × (impl_sub less_half (table s) (number (pos 9)) ≡ none)
    × (impl_add less_half (number (pos 9)) (table s) ≡ none)
    × (impl_sub less_half (number (pos 9)) (table s) ≡ none)
unfolding ◌+ℤ◌
impl_add-refused_example =
    impl_add-refused less_half less_half-Laws (table (new_timespec less_half whole duration)) whole
      duration whole-Reads (pos 0) (number (pos 9)) refl
