-- ===== src/Timespec/Arith.antt =====
-- src/lua/timespec.cpp: its arithmetic and its orders against the number of nanoseconds.
use dromozoa_unix.Prelude.{
  ◌+◌, ◌*◌, ◌≤◌, ◌≡◌, refl, ap, true, false, arith, ◌⊎◌, not, Bool-cases, inl, inr,
}
use dromozoa_unix.Prelude.Int.{
  ℤ, pos, negsuc, pos_part, neg_part, sub_ℕ, ltb_ℤ, ◌+ℤ◌, ◌-ℤ◌, +ℤ_parts, -ℤ_parts, eq_of_parts,
  eq_ℤ_iff,
}
use dromozoa_unix.Timespec.{Timespec, add, sub, lt, le}

billion : ℤ → ℤ
billion a = sub_ℕ (1000000000 * pos_part a) (1000000000 * neg_part a)

-- The time in nanoseconds.
pub nanos : Timespec → ℤ
nanos t = billion t.tv_sec +ℤ t.tv_nsec

-- From 0 to 999999999 nanoseconds.
pub record IsNormal (t : Timespec) : Type 0 where
  pub nonneg : neg_part t.tv_nsec ≡ 0
  pub below : pos_part t.tv_nsec ≤ 999999999

billion_parts :
    (a : ℤ)
    → (pos_part (billion a) ≡ 1000000000 * pos_part a)
      × (neg_part (billion a) ≡ 1000000000 * neg_part a)
unfolding billion
billion_parts (pos n) = ground arith
billion_parts (negsuc n) = ground arith

ruleset laws = (arith, +ℤ_parts, -ℤ_parts, eq_of_parts, billion_parts)

ltb_ℤ→lt : (a b : ℤ) → ltb_ℤ a b ≡ true → pos_part a + neg_part b + 1 ≤ pos_part b + neg_part a
ltb_ℤ→lt a b h = ground arith

ltb_ℤ→le : (a b : ℤ) → ltb_ℤ a b ≡ false → pos_part b + neg_part a ≤ pos_part a + neg_part b
ltb_ℤ→le a b h = ground arith

disjoint : (a : ℤ) → (pos_part a ≡ 0) ⊎ (neg_part a ≡ 0)
disjoint (pos n) = inr refl
disjoint (negsuc n) = inl refl

module _ (a b : Timespec) where
  -- Where both times have 0 to 999999999 nanoseconds, so has the sum, and it is the sum of the times
  -- in nanoseconds.
  pub add-nanos :
      IsNormal a → IsNormal b → IsNormal (add a b) × (nanos (add a b) ≡ nanos a +ℤ nanos b)
  unfolding add nanos
  add-nanos p q = elim (Bool-cases (ltb_ℤ (pos 999999999) nsec)) [
    | inl carry ↦
        rw carry
          (omega (laws, ltb_ℤ→lt (pos 999999999) nsec carry, disjoint (nsec -ℤ pos 1000000000)))
    | inr plain ↦ rw plain (omega (laws, ltb_ℤ→le (pos 999999999) nsec plain, disjoint nsec))
  ]
    where
      nsec : ℤ
      nsec = a.tv_nsec +ℤ b.tv_nsec

  -- Likewise for the difference.
  pub sub-nanos :
      IsNormal a → IsNormal b → IsNormal (sub a b) × (nanos (sub a b) ≡ nanos a -ℤ nanos b)
  unfolding sub nanos
  sub-nanos p q = elim (Bool-cases (ltb_ℤ nsec (pos 0))) [
    | inl borrow ↦
        rw borrow (omega (laws, ltb_ℤ→lt nsec (pos 0) borrow, disjoint (nsec +ℤ pos 1000000000)))
    | inr plain ↦ rw plain (omega (laws, ltb_ℤ→le nsec (pos 0) plain, disjoint nsec))
  ]
    where
      nsec : ℤ
      nsec = a.tv_nsec -ℤ b.tv_nsec

  -- Likewise for the orders.
  lt-nanos : IsNormal a → IsNormal b → lt a b ≡ ltb_ℤ (nanos a) (nanos b)
  unfolding lt nanos
  lt-nanos p q = ground (
    arith,
    +ℤ_parts (billion a.tv_sec) a.tv_nsec,
    +ℤ_parts (billion b.tv_sec) b.tv_nsec,
    billion_parts a.tv_sec,
    billion_parts b.tv_sec,
    eq_ℤ_iff a.tv_sec b.tv_sec,
    eq_of_parts a.tv_sec b.tv_sec,
  )

  le-nanos : IsNormal a → IsNormal b → le a b ≡ not (ltb_ℤ (nanos b) (nanos a))
  unfolding le nanos
  le-nanos p q = ground (
    arith,
    +ℤ_parts (billion a.tv_sec) a.tv_nsec,
    +ℤ_parts (billion b.tv_sec) b.tv_nsec,
    billion_parts a.tv_sec,
    billion_parts b.tv_sec,
    eq_ℤ_iff a.tv_sec b.tv_sec,
    eq_of_parts a.tv_sec b.tv_sec,
  )

  -- On two times with 0 to 999999999 nanoseconds each, `lt` compares the times in nanoseconds, and `le`
  -- says that the second is not less in nanoseconds.
  orders-nanos :
      IsNormal a
      → IsNormal b
      → (lt a b ≡ ltb_ℤ (nanos a) (nanos b)) × (le a b ≡ not (ltb_ℤ (nanos b) (nanos a)))
  orders-nanos p q = (lt-nanos p q, le-nanos p q)

  -- Two such times with the same nanoseconds are the same.
  nanos-injective :
      IsNormal a → IsNormal b → nanos a ≡ nanos b → (a.tv_sec ≡ b.tv_sec) × (a.tv_nsec ≡ b.tv_nsec)
  unfolding nanos
  nanos-injective p q e = (eq_of_parts _ _ seconds, eq_of_parts _ _ (omega (arith, seconds, sums)))
    where
      sums :
          1000000000 * pos_part a.tv_sec + pos_part a.tv_nsec + 1000000000 * neg_part b.tv_sec
          ≡ 1000000000 * pos_part b.tv_sec + pos_part b.tv_nsec + 1000000000 * neg_part a.tv_sec
      sums = omega (
        arith,
        +ℤ_parts (billion a.tv_sec) a.tv_nsec,
        +ℤ_parts (billion b.tv_sec) b.tv_nsec,
        billion_parts a.tv_sec,
        billion_parts b.tv_sec,
        ap pos_part e,
        ap neg_part e,
      )

      seconds : pos_part a.tv_sec + neg_part b.tv_sec ≡ pos_part b.tv_sec + neg_part a.tv_sec
      seconds = omega (arith, sums)

-- Of two times with 0 to 999999999 nanoseconds each, taking the second from their sum gives the
-- first back.
sub-add : (a b : Timespec) → IsNormal a → IsNormal b → sub (add a b) b ≡ a
sub-add a b p q =
    let (normal, total) = add-nanos a b p q in
    let (normal', rest) = sub-nanos (add a b) b normal q in
    let (s, n) = nanos-injective (sub (add a b) b) a normal' p (
      eq_of_parts _ _ (
        omega (
          arith,
          ap pos_part total,
          ap neg_part total,
          ap pos_part rest,
          ap neg_part rest,
          +ℤ_parts (nanos a) (nanos b),
          -ℤ_parts (nanos (add a b)) (nanos b),
        ))) in
    λ i. record { tv_sec = s i; tv_nsec = n i }
