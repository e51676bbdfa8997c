-- ===== src/Async/Open/Tests.antt =====
-- src/lib/async_service.cpp: `open` on a system in which threads can be made.
use dromozoa_unix.Prelude.{refl, true, Bool}
use dromozoa_unix.Prelude.Bits.{bit_or}
use dromozoa_unix.Fd.Made.{MadeByPipe}
use dromozoa_unix.Fd.Sample.{World, kernel, openers, view, contract, start}
use dromozoa_unix.Async.Service.{init}
use dromozoa_unix.Async.Open.{impl_open}
use dromozoa_unix.Async.Open.Effect.{Ends, impl_open-Ends}

abbrev one_thread : World → Bool × World
one_thread w = (true, w)

impl_open-Ends_example :
    Ends view
      (MadeByPipe kernel openers (bit_or kernel.o_cloexec kernel.o_nonblock) start)
      2
      (init 4 4)
      start.os
      (impl_open kernel openers one_thread 2 (init 4 4) start)
impl_open-Ends_example =
    impl_open-Ends view kernel openers one_thread contract (λ w. (λ n. refl, refl)) 2 4 4 start
