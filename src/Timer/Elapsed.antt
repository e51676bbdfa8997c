-- ===== src/Timer/Elapsed.antt =====
-- src/lib/compat_clock_gettime.cpp and src/lib/timer.cpp: what a clock gives, and the time between two
-- readings.
use dromozoa_unix.Prelude.{
  ℕ, ◌*◌, ◌<◌, ◌≡◌, sym, ◌∙◌, subst, ap, arith, none, some, ◌&&◌, Bool-cases, inl, inr,
}
use dromozoa_unix.Prelude.Int.{ℤ, pos, eq_ℤ, ◌-ℤ◌}
use dromozoa_unix.Fd.{Reply, done, failed, Machine, Result, answer, and_then, ret}
use dromozoa_unix.Timespec.{Timespec, sub}
use dromozoa_unix.Timespec.Arith.{IsNormal, nanos, sub-nanos}
use dromozoa_unix.Timer.{
  Clock, Timer, compat_clock_monotonic_raw, compat_clock_gettime, set_start, set_stop, start, stop,
  elapsed_parts,
}

module _ {W : Type 0} where
  abbrev pub GivesNormal : Reply Timespec × W → Type 0
  GivesNormal (done t, w) = IsNormal t
  GivesNormal (failed e, w) = Unit

  abbrev pub GivesMicroseconds : Reply (ℤ × ℕ) × W → Type 0
  GivesMicroseconds (done tv, w) = tv.1 < 1000000
  GivesMicroseconds (failed e, w) = Unit

  abbrev pub ResultIsNormal : Result W Timespec → Type 0
  ResultIsNormal (none, s) = Unit
  ResultIsNormal (some t, s) = IsNormal t

-- The system's clocks give less than a second of nanoseconds, or of microseconds.
pub record ClockContract {W : Type 0} (c : Clock W) : Type 0 where
  pub nanoseconds : (clock_id : ℤ) (w : W) → GivesNormal (c.clock_gettime clock_id w)
  pub microseconds : (w : W) → GivesMicroseconds (c.gettimeofday w)

module _ {W : Type 0} (c : Clock W) where
  answer-ResultIsNormal :
      (s : Machine W) (r : Reply Timespec × W) → GivesNormal r → ResultIsNormal (answer s r)
  answer-ResultIsNormal s (done t, w) h = h
  answer-ResultIsNormal s (failed e, w) h = tt

  realtime-ResultIsNormal :
      (s : Machine W) (r : Reply (ℤ × ℕ) × W)
      → GivesMicroseconds r
      → ResultIsNormal (
          and_then
            (λ (tv : ℤ × ℕ). ret (record { tv_sec = tv.0; tv_nsec = pos (tv.1 * 1000) }))
            (answer s r))
  realtime-ResultIsNormal s (done tv, w) h = omega arith
  realtime-ResultIsNormal s (failed e, w) h = tt

  -- What a reading puts into the timer, where it succeeds.
  set_start_lem :
      (t t' : Timer) (s : Machine W) (r : Result W Timespec)
      → set_start c t r ≡ ((some tt, t'), s)
      → (r ≡ (some t'.start, s)) × (t'.stop ≡ t.stop)
  set_start_lem t t' s (none, s') e = ground (arith, ap (λ x. x.0.0) e)
  set_start_lem t t' s (some tv, s') e =
      (λ i. (some (e i).0.1.start, (e i).1), sym (λ i. (e i).0.1.stop))

  set_stop_lem :
      (t t' : Timer) (s : Machine W) (r : Result W Timespec)
      → set_stop c t r ≡ ((some tt, t'), s)
      → (r ≡ (some t'.stop, s)) × (t'.start ≡ t.start)
  set_stop_lem t t' s (none, s') e = ground (arith, ap (λ x. x.0.0) e)
  set_stop_lem t t' s (some tv, s') e =
      (λ i. (some (e i).0.1.stop, (e i).1), sym (λ i. (e i).0.1.start))

  module _ (h : ClockContract c) where
    compat_clock_gettime-ResultIsNormal :
        (clock_id : ℤ) (s : Machine W) → ResultIsNormal (compat_clock_gettime c clock_id s)
    unfolding compat_clock_gettime
    compat_clock_gettime-ResultIsNormal clock_id s = elim (Bool-cases c.have_clock_gettime) [
      | inl g ↦
          rw g
            (answer-ResultIsNormal s (c.clock_gettime clock_id s.os) (h.nanoseconds clock_id s.os))
      | inr g ↦ elim (Bool-cases (eq_ℤ clock_id (pos 0))) [
        | inl r ↦ rw (g, r) (realtime-ResultIsNormal s (c.gettimeofday s.os) (h.microseconds s.os))
        | inr r ↦ elim (Bool-cases (c.have_mach_absolute_time && eq_ℤ clock_id (pos 1))) [
          | inl m ↦ rw (g, r, m) (omega arith)
          | inr m ↦ rw (g, r, m) tt
        ]
      ]
    ]

    reading-IsNormal :
        (clock_id : ℤ) (s s' : Machine W) (tv : Timespec)
        → compat_clock_gettime c clock_id s ≡ (some tv, s')
        → IsNormal tv
    reading-IsNormal clock_id s s' tv e =
        subst ResultIsNormal e (compat_clock_gettime-ResultIsNormal clock_id s)

    -- Where `start` and later `stop` succeed, the timer holds the two readings of the monotonic clock,
    -- each with less than a second of nanoseconds, and so has `elapsed`, which is their difference in
    -- nanoseconds.
    pub elapsed-nanos :
        (t t1 t2 : Timer) (s s1 s2 s3 : Machine W)
        → start c t s ≡ ((some tt, t1), s1)
        → stop c t1 s2 ≡ ((some tt, t2), s3)
        → let clock = compat_clock_gettime c (compat_clock_monotonic_raw c) in
          (clock s ≡ (some t2.start, s1))
          × (clock s2 ≡ (some t2.stop, s3))
          × IsNormal t2.start
          × IsNormal t2.stop
          × IsNormal (elapsed_parts t2)
          × (nanos (elapsed_parts t2) ≡ nanos t2.stop -ℤ nanos t2.start)
    unfolding start stop elapsed_parts sub
    elapsed-nanos t t1 t2 s s1 s2 s3 e1 e2 =
        let raw = compat_clock_monotonic_raw c in
        let (r1, kept) = set_start_lem t t1 s1 (compat_clock_gettime c raw s) e1 in
        let (r2, same) = set_stop_lem t1 t2 s3 (compat_clock_gettime c raw s2) e2 in
        let first : compat_clock_gettime c raw s ≡ (some t2.start, s1) =
          r1 ∙ ap (λ tv. (some tv, s1)) (sym same) in
        let p = reading-IsNormal raw s s1 t2.start first in
        let q = reading-IsNormal raw s2 s3 t2.stop r2 in
        let (normal, difference) = sub-nanos t2.stop t2.start q p in
        (first, r2, p, q, normal, difference)
