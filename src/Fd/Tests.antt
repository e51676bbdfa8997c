-- ===== src/Fd/Tests.antt =====
-- src/lib/compat_pipe2.cpp, compat_socket.cpp, compat_accept4.cpp and compat_mkostemp.cpp: runs on a
-- system in which `F_SETFL` and every `close` fail.
use dromozoa_unix.Prelude.{◌≡◌, refl, false, none, some}
use dromozoa_unix.Fd.{
  coe_on, ndelay_on, destroy, owned, close, with_blocked, sigmask_block_all_signals, compat_sigmask,
  restore,
}
use dromozoa_unix.Fd.Compat.{compat_pipe2, set_both, open_two}
use dromozoa_unix.Fd.Laws.{LeavesTwo}
use dromozoa_unix.Fd.Leaks.{compat_pipe2-LeavesTwo}
use dromozoa_unix.Fd.Sample.{kernel, openers, view, contract, start}

-- Without `O_NONBLOCK` the flags are set, with it both ends are closed again and `EINVAL` is left.
pipe_runs : (compat_pipe2 kernel openers 524288 start).0 ≡ some (3, 4)
unfolding compat_pipe2 set_both open_two owned coe_on with_blocked sigmask_block_all_signals
    compat_sigmask restore
pipe_runs = refl

pipe_fails :
    let r = compat_pipe2 kernel openers 526336 start in
    (r.0 ≡ none)
    × (r.1.errno ≡ 22)
    × (r.1.os.table 3 ≡ false)
    × (r.1.os.table 4 ≡ false)
    × (r.1.os.mask ≡ 7)
unfolding compat_pipe2 set_both open_two owned destroy close coe_on ndelay_on with_blocked
    sigmask_block_all_signals compat_sigmask restore
pipe_fails = (refl, refl, refl, refl, refl)

compat_pipe2-LeavesTwo_example : LeavesTwo view start (compat_pipe2 kernel openers 526336 start)
compat_pipe2-LeavesTwo_example = compat_pipe2-LeavesTwo view kernel openers contract 526336 start
