-- ===== src/Forkexec/Tests.antt =====
-- src/lib/forkexec.cpp: runs on a system that keeps its descriptors and pipes in tables.
use dromozoa_unix.Prelude.{ℕ, ◌≡◌, refl, arith, false, none, some, List, [], ◌∷◌}
use dromozoa_unix.Prelude.Int.{ℤ, pos, minus_one}
use dromozoa_unix.Pathexec.{copy_bytes, copy_char}
use dromozoa_unix.Fd.{Machine}
use dromozoa_unix.Fd.Laws.{Same}
use dromozoa_unix.Forkexec.{Program, forkexec}
use dromozoa_unix.Forkexec.Parent.{forkexec-Same}
use dromozoa_unix.Forkexec.Verdict.{Verdict, forkexec-Verdict}
use dromozoa_unix.Forkexec.Daemon.{forkexec_daemon}
use dromozoa_unix.Forkexec.Daemon.Leak.{forkexec_daemon-Same}
use dromozoa_unix.Forkexec.Sample.{
  World, kernel, openers, processes, view, pipe_view, contract, parent_contract, pipe_contract,
  start, three_open,
}

abbrev with_command : List ℕ → ℤ → Program
with_command command out = record {
  path = some (b'a' ∷ []);
  command = command;
  directory = none;
  stdio = (minus_one, out, minus_one);
}

-- `/x`, which is there, and `x`, which is not.
abbrev present : Program
present = with_command (b'/' ∷ b'x' ∷ []) minus_one

abbrev absent : Program
absent = with_command (b'x' ∷ []) minus_one

forkexec_runs : (forkexec kernel openers processes present start).0 ≡ (some tt, pos 100)
unfolding forkexec
forkexec_runs = refl

forkexec_fails :
    let r = forkexec kernel openers processes absent start in
    (r.0 ≡ (none, pos 100)) × (r.1.errno ≡ 2) × (r.1.os.table 3 ≡ false) × (r.1.os.mask ≡ 7)
unfolding forkexec copy_bytes copy_char
forkexec_fails = (refl, refl, refl, refl)

-- With 0 and 1 closed, the writer is 1. The output that the caller gives takes its place, and a program
-- that is not there is not reported.
abbrev closed : Machine World
closed = record start { os = record start.os { table = λ n. false; next = 0 } }

forkexec_with_closed_output :
    (forkexec kernel openers processes (with_command (b'x' ∷ []) (pos 9)) closed).0
    ≡ (some tt, pos 100)
unfolding forkexec copy_bytes copy_char
forkexec_with_closed_output = refl

forkexec_daemon_runs :
    let r = forkexec_daemon kernel openers processes present start in
    (r.0.1 ≡ pos 100) × (r.1.os.table 3 ≡ false) × (r.1.os.table 6 ≡ false)
unfolding forkexec_daemon
forkexec_daemon_runs = (refl, refl, refl)

forkexec-Same_example : Same view start.os (forkexec kernel openers processes absent start).1.os
forkexec-Same_example =
    forkexec-Same view kernel openers processes contract parent_contract absent start

forkexec_daemon-Same_example :
    Same view start.os (forkexec_daemon kernel openers processes absent start).1.os
forkexec_daemon-Same_example =
    forkexec_daemon-Same view kernel openers processes contract parent_contract absent start

forkexec-Verdict_example :
    Verdict kernel openers processes absent start
      (forkexec kernel openers processes absent start).0
      (forkexec kernel openers processes absent start).1.errno
forkexec-Verdict_example =
    forkexec-Verdict view pipe_view kernel openers processes contract pipe_contract start absent
      (omega arith) (omega arith) refl three_open
