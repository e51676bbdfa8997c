-- ===== src/Selector/Open/Tests.antt =====
-- src/lib/selector_epoll.cpp and selector_kqueue.cpp: runs of `open` and `close`.
use dromozoa_unix.Prelude.{ℕ, ◌≡◌, refl, true, false, some, none}
use dromozoa_unix.Prelude.Int.{pos, minus_one}
use dromozoa_unix.Fd.{
  destroy, close, coe_on, owned, with_blocked, sigmask_block_all_signals, compat_sigmask, restore,
}
use dromozoa_unix.Fd.Compat.{open_one, set_one}
use dromozoa_unix.Fd.Laws.{LeavesOne}
use dromozoa_unix.Fd.Sample.{
  World, kernel, openers, view, contract, start, open_one_fd, open_one_OpensOne,
}
use dromozoa_unix.Selector.Kqueue.{new_kqueue}
use dromozoa_unix.Selector.Open.{
  Creators, epoll_open, kqueue_open, put_fd, close_selector, valid, open-LeavesOne,
}

abbrev creators : Creators World
creators = record {
  have_epoll_create1 = false;
  selector_cloexec = 524288;
  epoll_create1 = λ flags. open_one_fd;
  epoll_create = open_one_fd;
  kqueue = open_one_fd;
}

open_runs :
    let r = kqueue_open kernel openers creators 524288 minus_one start in
    (r.0 ≡ some 3) × (r.1.os.table 3 ≡ true) × (r.1.os.mask ≡ 7)
unfolding kqueue_open open_one set_one owned destroy close coe_on with_blocked
    sigmask_block_all_signals compat_sigmask restore
open_runs = (refl, refl, refl)

-- A second `open` closes the descriptor of the first.
reopen_runs :
    let r = epoll_open kernel openers creators 0 (pos 2) start in
    (r.0 ≡ some 3) × (r.1.os.table 2 ≡ false)
unfolding epoll_open open_one set_one owned destroy close coe_on with_blocked
    sigmask_block_all_signals compat_sigmask restore
reopen_runs = (refl, refl)

close_runs :
    let r = put_fd (new_kqueue minus_one) (kqueue_open kernel openers creators 0 minus_one start) in
    let c = close_selector kernel r.0.1 r.1 in
    (valid r.0.1 ≡ true) × (c.0.0 ≡ none) × (valid c.0.1 ≡ false) × (c.1.os.table 3 ≡ false)
unfolding kqueue_open close_selector new_kqueue open_one set_one owned destroy close coe_on
    with_blocked sigmask_block_all_signals compat_sigmask restore
close_runs = (refl, refl, refl, refl)

open-LeavesOne_example :
    LeavesOne view {A = ℕ}
      (λ a. a)
      start
      (epoll_open kernel openers creators 524288 minus_one start)
    × LeavesOne view {A = ℕ}
        (λ a. a)
        start
        (kqueue_open kernel openers creators 524288 minus_one start)
open-LeavesOne_example =
    open-LeavesOne view kernel openers creators contract (λ f. open_one_OpensOne) open_one_OpensOne
      open_one_OpensOne 524288 start
