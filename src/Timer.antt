-- ===== src/Timer.antt =====
-- src/lib/compat_clock_gettime.cpp and src/lib/timer.cpp: clocks, and a timer over one of them. Seconds
-- are integers. The choices that the build makes are fields of the record of the system's calls.
pub mod Elapsed
mod Tests
use dromozoa_unix.Prelude.{ℕ, ◌*◌, ◌/◌, ◌%◌, ◌^◌, Bool, Option, none, some, ◌&&◌, if◌then◌else◌}
use dromozoa_unix.Prelude.Int.{ℤ, pos, eq_ℤ, ltb_ℤ, ◌+ℤ◌, ◌-ℤ◌}
use dromozoa_unix.Fd.{Reply, done, failed, Machine, Action, Result, ◌>>=◌, call, ret}
use dromozoa_unix.Timespec.{Timespec}

-- The constants and the calls. `gettimeofday` gives seconds and microseconds; the numerator and the
-- denominator belong to `mach_absolute_time`, whose numbers have 64 bits.
pub record Clock (W : Type 0) : Type 0 where
  pub have_clock_gettime : Bool
  pub have_raw : Bool
  pub have_mach_absolute_time : Bool
  pub clock_realtime : ℤ
  pub clock_monotonic : ℤ
  pub clock_monotonic_raw : ℤ
  pub einval : ℕ
  pub clock_gettime : ℤ → W → Reply Timespec × W
  pub gettimeofday : W → Reply (ℤ × ℕ) × W
  pub mach_absolute_time : W → ℕ × W
  pub numer : ℕ
  pub denom : ℕ

-- `start_` and `stop_`.
pub record Timer : Type 0 where
  pub start : Timespec
  pub stop : Timespec

abbrev pub new_timer : Timer
new_timer = record {
  start = record { tv_sec = pos 0; tv_nsec = pos 0 };
  stop = record { tv_sec = pos 0; tv_nsec = pos 0 };
}

module _ {W : Type 0} (c : Clock W) where
  abbrev pub compat_clock_realtime : ℤ
  compat_clock_realtime = if c.have_clock_gettime then c.clock_realtime else pos 0

  abbrev pub compat_clock_monotonic : ℤ
  compat_clock_monotonic = if c.have_clock_gettime then c.clock_monotonic else pos 1

  abbrev pub compat_clock_monotonic_raw : ℤ
  compat_clock_monotonic_raw =
      if c.have_clock_gettime && c.have_raw then c.clock_monotonic_raw else compat_clock_monotonic

  abbrev pub clock_gettime_realtime : Action W Timespec
  clock_gettime_realtime = do
    tv ← call c.gettimeofday
    ret (record { tv_sec = tv.0; tv_nsec = pos (tv.1 * 1000) })

  -- The product wraps at 64 bits.
  abbrev pub clock_gettime_monotonic : Action W Timespec
  clock_gettime_monotonic s =
      let (now, w) = c.mach_absolute_time s.os in
      let t = now * c.numer % 2 ^ 64 / c.denom in
      (
        some (record { tv_sec = pos (t / 1000000000); tv_nsec = pos (t % 1000000000) }),
        record s { os = w },
      )

  unfoldable pub compat_clock_gettime : ℤ → Action W Timespec
  compat_clock_gettime clock_id =
      if c.have_clock_gettime
      then call (c.clock_gettime clock_id)
      else if eq_ℤ clock_id compat_clock_realtime
      then clock_gettime_realtime
      else if c.have_mach_absolute_time && eq_ℤ clock_id compat_clock_monotonic
      then clock_gettime_monotonic
      else (λ s. (none, record s { errno = c.einval }))

  -- A call that fails leaves the timer as it was.
  abbrev pub set_start : Timer → Result W Timespec → (Option (Unit {0}) × Timer) × Machine W
  set_start timer (none, s) = ((none, timer), s)
  set_start timer (some tv, s) = ((some tt, record timer { start = tv }), s)

  abbrev pub set_stop : Timer → Result W Timespec → (Option (Unit {0}) × Timer) × Machine W
  set_stop timer (none, s) = ((none, timer), s)
  set_stop timer (some tv, s) = ((some tt, record timer { stop = tv }), s)

  unfoldable pub start : Timer → Machine W → (Option (Unit {0}) × Timer) × Machine W
  unfolding compat_clock_gettime
  start timer s = set_start timer (compat_clock_gettime compat_clock_monotonic_raw s)

  unfoldable pub stop : Timer → Machine W → (Option (Unit {0}) × Timer) × Machine W
  unfolding compat_clock_gettime
  stop timer s = set_stop timer (compat_clock_gettime compat_clock_monotonic_raw s)

-- The seconds and the nanoseconds of `elapsed`.
unfoldable pub elapsed_parts : Timer → Timespec
elapsed_parts timer =
    let s = timer.stop.tv_sec -ℤ timer.start.tv_sec in
    let n = timer.stop.tv_nsec -ℤ timer.start.tv_nsec in
    if ltb_ℤ n (pos 0)
    then record { tv_sec = s -ℤ pos 1; tv_nsec = n +ℤ pos 1000000000 }
    else record { tv_sec = s; tv_nsec = n }

-- `s + n * 0.000000001`, in the floating point of the C library.
unfoldable pub elapsed : {D : Type 0} → (ℤ → ℤ → D) → Timer → D
unfolding elapsed_parts
elapsed to_double timer = let parts = elapsed_parts timer in to_double parts.tv_sec parts.tv_nsec
