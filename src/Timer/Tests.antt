-- ===== src/Timer/Tests.antt =====
-- src/lib/compat_clock_gettime.cpp and src/lib/timer.cpp: runs on a clock that advances with each reading.
use dromozoa_unix.Prelude.{ℕ, suc, ◌*◌, ◌≡◌, refl, arith, true, false, Bool, some, none}
use dromozoa_unix.Prelude.Int.{pos, ◌-ℤ◌, ◌+ℤ◌}
use dromozoa_unix.Fd.{done, failed, Machine}
use dromozoa_unix.Timespec.{Timespec}
use dromozoa_unix.Timespec.Arith.{IsNormal, nanos}
use dromozoa_unix.Timer.{
  Clock, Timer, new_timer, compat_clock_monotonic_raw, compat_clock_gettime, start, stop,
  elapsed_parts,
}
use dromozoa_unix.Timer.Elapsed.{ClockContract, elapsed-nanos}

-- The state is the number of readings; a reading is 700000000 nanoseconds after the last one.
abbrev ticking : Bool → Clock ℕ
ticking have = record {
  have_clock_gettime = have;
  have_raw = false;
  have_mach_absolute_time = true;
  clock_realtime = pos 0;
  clock_monotonic = pos 1;
  clock_monotonic_raw = pos 4;
  einval = 22;
  clock_gettime = λ clock_id n. (done (record { tv_sec = pos n; tv_nsec = pos 5 }), suc n);
  gettimeofday = λ n. (failed 14, n);
  mach_absolute_time = λ n. (n * 700000000, suc n);
  numer = 1;
  denom = 1;
}

contract : ClockContract (ticking false)
contract = record { nanoseconds = λ clock_id w. omega arith; microseconds = λ w. tt }

abbrev at_reading : ℕ → Machine ℕ
at_reading n = record { os = n; errno = 0 }

abbrev time : ℕ → ℕ → Timespec
time s n = record { tv_sec = pos s; tv_nsec = pos n }

-- From 700000000 to 2100000000 nanoseconds.
abbrev started : Timer
started = record { start = time 0 700000000; stop = time 0 0 }

abbrev stopped : Timer
stopped = record { start = time 0 700000000; stop = time 2 100000000 }

elapsed_runs : elapsed_parts stopped ≡ time 1 400000000
unfolding elapsed_parts ◌-ℤ◌ ◌+ℤ◌
elapsed_runs = refl

-- Without `clock_gettime` the real time is that of `gettimeofday`, and other clocks are refused.
other_clocks :
    (compat_clock_gettime (ticking false) (pos 0) (at_reading 0)
      ≡ (none, record { os = 0; errno = 14 }))
    × (compat_clock_gettime (ticking false) (pos 7) (at_reading 0)
        ≡ (none, record { os = 0; errno = 22 }))
unfolding compat_clock_gettime
other_clocks = (refl, refl)

start_runs : start (ticking false) new_timer (at_reading 1) ≡ ((some tt, started), at_reading 2)
unfolding start compat_clock_gettime
start_runs = refl

stop_runs : stop (ticking false) started (at_reading 3) ≡ ((some tt, stopped), at_reading 4)
unfolding stop compat_clock_gettime
stop_runs = refl

elapsed-nanos_example :
    let clock = compat_clock_gettime (ticking false) (compat_clock_monotonic_raw (ticking false)) in
    (clock (at_reading 1) ≡ (some (time 0 700000000), at_reading 2))
    × (clock (at_reading 3) ≡ (some (time 2 100000000), at_reading 4))
    × IsNormal (time 0 700000000)
    × IsNormal (time 2 100000000)
    × IsNormal (elapsed_parts stopped)
    × (nanos (elapsed_parts stopped) ≡ nanos (time 2 100000000) -ℤ nanos (time 0 700000000))
elapsed-nanos_example =
    elapsed-nanos (ticking false) contract new_timer started stopped (at_reading 1) (at_reading 2)
      (at_reading 3) (at_reading 4) start_runs stop_runs
