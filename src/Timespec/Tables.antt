-- ===== src/Timespec/Tables.antt =====
-- src/lua/timespec.cpp: times on their way through Lua tables.
use dromozoa_unix.Prelude.{
  ◌>>=◌, Option, refl, ℕ, ◌<◌, ◌≡◌, ◌≢◌, ◌∙◌, true, false, none, some, arith, if◌then◌else◌, ◌||◌,
}
use dromozoa_unix.Prelude.Int.{ℤ, pos, ltb_ℤ, ◌+ℤ◌, ◌-ℤ◌}
use dromozoa_unix.Timespec.{
  Timespec, Arg, number, table, Key, Lua, new_timespec, check_timespec, impl_add, impl_sub, add,
  sub,
}
use dromozoa_unix.Timespec.Arith.{IsNormal, nanos, add-nanos, sub-nanos}
use dromozoa_unix.Timespec.Kinds.{infer, sum, difference, matrices-infer, infer-lt}

-- How Lua tables behave: a field that was set is read back, whatever other fields were set after it,
-- and a read with bounds refuses what is out of them.
pub record Laws {D T : Type 0} (lua : Lua D T) : Type 0 where
  pub read_back :
      (t : T) (k : Key) (v d : ℤ) → lua.opt_integer_field (lua.set_field t k v) k d ≡ some v
  pub read_other :
      (t : T) (k j : Key) (v d : ℤ)
      → k ≢ j
      → lua.opt_integer_field (lua.set_field t k v) j d ≡ lua.opt_integer_field t j d
  pub read_in :
      (t : T) (k : Key) (d lo hi v : ℤ)
      → lua.opt_integer_field t k d ≡ some v
      → lua.opt_integer_field_in t k d lo hi ≡ (if ltb_ℤ v lo || ltb_ℤ hi v then none else some v)

module _ {D T : Type 0} (lua : Lua D T) (laws : Laws lua) (tv : Timespec) (type : ℕ) where
  made : T
  made = new_timespec lua tv type

  made_sec : (d : ℤ) → lua.opt_integer_field made Key.tv_sec d ≡ some tv.tv_sec
  unfolding made new_timespec
  made_sec d =
      laws.read_other _ Key.tv_type Key.tv_sec _ d (λ e. cc)
      ∙ laws.read_other _ Key.tv_nsec Key.tv_sec _ d (λ e. cc)
      ∙ laws.read_back _ Key.tv_sec _ d

  made_nsec : (d : ℤ) → lua.opt_integer_field made Key.tv_nsec d ≡ some tv.tv_nsec
  unfolding made new_timespec
  made_nsec d =
      laws.read_other _ Key.tv_type Key.tv_nsec _ d (λ e. cc) ∙ laws.read_back _ Key.tv_nsec _ d

  made_type : (d : ℤ) → lua.opt_integer_field made Key.tv_type d ≡ some (pos type)
  unfolding made new_timespec
  made_type d = laws.read_back _ Key.tv_type _ d

  in_range : IsNormal tv → (ltb_ℤ tv.tv_nsec (pos 0) || ltb_ℤ (pos 999999999) tv.tv_nsec) ≡ false
  in_range n = ground arith

  typed : type < 4 → (ltb_ℤ (pos type) (pos 0) || ltb_ℤ (pos 3) (pos type)) ≡ false
  typed n = ground arith

  -- A time with 0 to 999999999 nanoseconds and a type from 0 to 3 is read back from the table that
  -- is made of it.
  pub check-new :
      IsNormal tv
      → type < 4
      → check_timespec lua true (table (new_timespec lua tv type)) ≡ some (tv, type)
  unfolding check_timespec made
  check-new n small =
      rw (made_sec (pos 0), ◌>>=◌)
        (rw
          (
            laws.read_in made Key.tv_nsec (pos 0) (pos 0) (pos 999999999) _ (made_nsec (pos 0)),
            in_range n,
            ◌>>=◌,
          )
          (rw (
            laws.read_in made Key.tv_type (pos 3) (pos 0) (pos 3) _ (made_type (pos 3)),
            typed small,
            ◌>>=◌,
          )))

  -- A time whose nanoseconds are out of range makes a table that is refused where they are checked.
  check-new_refused :
      (ltb_ℤ tv.tv_nsec (pos 0) || ltb_ℤ (pos 999999999) tv.tv_nsec) ≡ true
      → check_timespec lua true (table (new_timespec lua tv type)) ≡ none
  unfolding check_timespec made
  check-new_refused out =
      rw (made_sec (pos 0), ◌>>=◌)
        (rw (
          laws.read_in made Key.tv_nsec (pos 0) (pos 0) (pos 999999999) _ (made_nsec (pos 0)),
          out,
          ◌>>=◌,
        ))

-- A valid operand: what it is read as.
pub record Reads {D T : Type 0} (lua : Lua D T) (a : Arg D T) (tv : Timespec) (type : ℕ)
    : Type 0 where
  pub read : check_timespec lua true a ≡ some (tv, type)
  pub normal : IsNormal tv
  pub known : type < 4

module _ {D T : Type 0} (lua : Lua D T) (laws : Laws lua) (a b : Arg D T) (tv1 tv2 : Timespec)
    (type1 type2 : ℕ) (ra : Reads lua a tv1 type1) (rb : Reads lua b tv2 type2) where
  -- The sum of two valid operands is a table that is a valid operand again: it is read as the sum,
  -- which is that of the nanoseconds, with the type that can be inferred.
  pub impl_add-Reads :
      (t : T) × (impl_add lua a b ≡ some t)
      × Reads lua (table t) (add tv1 tv2) (infer sum type1 type2)
      × (nanos (add tv1 tv2) ≡ nanos tv1 +ℤ nanos tv2)
  unfolding impl_add
  impl_add-Reads = (
    new_timespec lua (add tv1 tv2) (infer sum type1 type2),
    rw (ra.read, ◌>>=◌)
        (rw (rb.read, ◌>>=◌) (rw ((matrices-infer type1 type2 ra.known rb.known).0, ◌>>=◌))),
    record {
      read = check-new lua laws (add tv1 tv2) _ total.0 (infer-lt sum type1 type2);
      normal = total.0;
      known = infer-lt sum type1 type2;
    },
    total.1,
  )
    where
      total : IsNormal (add tv1 tv2) × (nanos (add tv1 tv2) ≡ nanos tv1 +ℤ nanos tv2)
      total = add-nanos tv1 tv2 ra.normal rb.normal

  -- The difference of two valid operands is a table that is a valid operand again: it is read as the
  -- difference, which is that of the nanoseconds, with the type that can be inferred.
  impl_sub-Reads :
      (t : T) × (impl_sub lua a b ≡ some t)
      × Reads lua (table t) (sub tv1 tv2) (infer difference type1 type2)
      × (nanos (sub tv1 tv2) ≡ nanos tv1 -ℤ nanos tv2)
  unfolding impl_sub
  impl_sub-Reads = (
    new_timespec lua (sub tv1 tv2) (infer difference type1 type2),
    rw (ra.read, ◌>>=◌)
        (rw (rb.read, ◌>>=◌) (rw ((matrices-infer type1 type2 ra.known rb.known).1, ◌>>=◌))),
    record {
      read = check-new lua laws (sub tv1 tv2) _ total.0 (infer-lt difference type1 type2);
      normal = total.0;
      known = infer-lt difference type1 type2;
    },
    total.1,
  )
    where
      total : IsNormal (sub tv1 tv2) × (nanos (sub tv1 tv2) ≡ nanos tv1 -ℤ nanos tv2)
      total = sub-nanos tv1 tv2 ra.normal rb.normal

-- An operand that is refused, on either side.
module _ {D T : Type 0} (lua : Lua D T) (bad : Arg D T)
    (refused : check_timespec lua true bad ≡ none) where
  left_refused : (b : Arg D T) → (impl_add lua bad b ≡ none) × (impl_sub lua bad b ≡ none)
  unfolding impl_add impl_sub
  left_refused b = (rw (refused, ◌>>=◌), rw (refused, ◌>>=◌))

  right_refused :
      (b : Arg D T) (o : Option (Timespec × ℕ))
      → check_timespec lua true b ≡ o
      → (impl_add lua b bad ≡ none) × (impl_sub lua b bad ≡ none)
  unfolding impl_add impl_sub
  right_refused b none e = (rw (e, ◌>>=◌), rw (e, ◌>>=◌))
  right_refused b (some (tv, type)) e =
      (rw (e, ◌>>=◌) (rw (refused, ◌>>=◌)), rw (e, ◌>>=◌) (rw (refused, ◌>>=◌)))

add-nsec :
    (tv1 tv2 : Timespec)
    → ltb_ℤ (tv1.tv_nsec +ℤ tv2.tv_nsec) (pos 0) ≡ true
    → (ltb_ℤ (add tv1 tv2).tv_nsec (pos 0) || ltb_ℤ (pos 999999999) (add tv1 tv2).tv_nsec) ≡ true
unfolding add
add-nsec tv1 tv2 h = ground arith

module _ {D T : Type 0} (lua : Lua D T) (laws : Laws lua) (a : Arg D T) (tv : Timespec) (type : ℕ)
    (ra : Reads lua a tv type) where
  -- A valid operand and a number are added; where their nanoseconds add up to less than 0, as for a
  -- number such as -0.5, the sum is a table that `impl_add` and `impl_sub` refuse, on either side of any
  -- other operand.
  pub impl_add-refused :
      (t : D) (b : Arg D T)
      → ltb_ℤ (tv.tv_nsec +ℤ lua.nanoseconds t) (pos 0) ≡ true
      → (s : T) × (impl_add lua a (number t) ≡ some s)
        × (impl_add lua (table s) b ≡ none)
        × (impl_sub lua (table s) b ≡ none)
        × (impl_add lua b (table s) ≡ none)
        × (impl_sub lua b (table s) ≡ none)
  unfolding impl_add check_timespec
  impl_add-refused t b h =
      let tv2 : Timespec = record { tv_sec = lua.whole_seconds t; tv_nsec = lua.nanoseconds t } in
      let s = new_timespec lua (add tv tv2) (infer sum type 3) in
      let bad : check_timespec lua true (table s) ≡ none =
        check-new_refused lua laws (add tv tv2) (infer sum type 3) (add-nsec tv tv2 h) in
      let left = left_refused lua (table s) bad b in
      let right = right_refused lua (table s) bad b (check_timespec lua true b) refl in
      (
        s,
        rw (ra.read, ◌>>=◌) (rw ((matrices-infer type 3 ra.known (omega arith)).0, ◌>>=◌)),
        left.0,
        left.1,
        right.0,
        right.1,
      )
