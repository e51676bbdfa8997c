-- ===== src/Lua/Tests.antt =====
-- src/lua: runs of the bound functions, and their theorems at these runs.
use mathlib.Core.Option
use native.Mathlib.Nat.{add_comm}
use native.Mathlib.Numerals.{add-one}
use dromozoa_unix.Prelude.{
  get_elem?, ℕ, zero, suc, ◌+◌, ◌-◌, ◌≡◌, refl, Bool, true, false, ◌||◌, Option, none, some, List,
  [], ◌∷◌, ◌++◌, arith, length, ◌==◌, ◌⊎◌, inl, inr, map,
}
use dromozoa_unix.Prelude.Int.{ℤ, pos, negsuc, eq_ℤ}
use dromozoa_unix.Fd.{Reply, done, failed, Machine}
use dromozoa_unix.Lua.{nil, success, table, function, returned, fault, Session, at}
use dromozoa_unix.Lua.Sched
use dromozoa_unix.Lua.Sched.{CpuSet, impl_sched_getaffinity, impl_sched_setaffinity}
use dromozoa_unix.Lua.Sched.Affinity.{Laws, cpus, numbers, among, setaffinity-getaffinity}
use dromozoa_unix.Lua.Dirent
use dromozoa_unix.Lua.Dirent.{Entry, new_dir, impl_dirents, impl_iterator, impl_gc}
use dromozoa_unix.Lua.Dirent.Iteration.{View, Reads, calls, entry_answer, dirents-entries}
use dromozoa_unix.Lua.Netdb
use dromozoa_unix.Lua.Netdb.{AddrInfo, Hints, Found, HintsArg, impl_getaddrinfo, impl_getnameinfo}
use dromozoa_unix.Lua.Netdb.Deferred.{
  impl_async_getaddrinfo, impl_async_getnameinfo, made, run_addr, run_name, Stores, deferred_same,
}
use dromozoa_unix.Lua.Xattr.{Bytes, impl_getxattr_, impl_listxattr_}
use dromozoa_unix.Lua.Xattr.Names
use dromozoa_unix.Lua.Xattr.Names.{names_reply, impl_listxattr_-names}
use dromozoa_unix.Lua.Xattr.Values
use dromozoa_unix.Lua.Xattr.Values.{value_reply, impl_getxattr_-value}

abbrev strerror : ℤ → Bytes
strerror e = 69 ∷ []

-- A process whose state counts its calls.
abbrev session : Session ℕ
session = record { machine = record { os = 0; errno = 0 }; last_errno = none }

-- The names "a" and "bc", then "bc" alone.
abbrev two_names : List Bytes
two_names = (97 ∷ []) ∷ (98 ∷ 99 ∷ []) ∷ []

abbrev one_name : List Bytes
one_name = (98 ∷ 99 ∷ []) ∷ []

abbrev list_call : Bytes → ℕ → ℕ → Reply (ℕ × Bytes) × ℕ
list_call path zero w = (done (5, []), 1)
list_call path (suc n) w = names_reply one_name (suc n) 34 2

impl_listxattr_-names_example :
    impl_listxattr_ strerror list_call (some (47 ∷ [])) session
    ≡ Names.expected strerror 34 two_names one_name 1 2 session
unfolding Names.joined
impl_listxattr_-names_example =
    impl_listxattr_-names strerror list_call (47 ∷ []) 34 one_name 1 2 session (λ n. refl)
      (omega arith) two_names refl

-- A value that was empty and has two bytes at the second call.
abbrev value_call : Bytes → Bytes → ℕ → ℕ → Reply (ℕ × Bytes) × ℕ
value_call path name size zero = value_reply [] size 34 1
value_call path name size (suc w) = value_reply (1 ∷ 2 ∷ []) size 34 2

impl_getxattr_-value_example :
    impl_getxattr_ strerror value_call (some (47 ∷ [])) (some (97 ∷ [])) session
    ≡ Values.expected strerror 34 [] (1 ∷ 2 ∷ []) 2 session
impl_getxattr_-value_example =
    impl_getxattr_-value strerror value_call (47 ∷ []) (97 ∷ []) 34 1 2 session [] (1 ∷ 2 ∷ []) refl
      (λ n. refl)

-- Four CPUs; the system keeps the mask.
abbrev Mask : Type 0
Mask = ℕ → Bool

abbrev set_cpu : ℤ → Mask → Mask
set_cpu (pos cpu) mask n = n == cpu || mask n
set_cpu (negsuc cpu) mask n = mask n

cpu_set : CpuSet Mask
unfolding cpus
cpu_set = record {
  cpu_zero = λ n. false;
  cpu_set = set_cpu;
  cpu_isset = λ n mask. mask n;
  cpu_count = λ mask. length (cpus mask 4 0);
}

cpu-Laws : Laws cpu_set 4
unfolding cpu_set
cpu-Laws = record {
  zero_clears = λ n. refl;
  set_sets = λ cpu n mask h. refl;
  count_counts = λ mask. refl;
}

abbrev sched_calls : Sched.Calls Mask Mask
sched_calls = record {
  sched_yield = λ w. (done tt, w);
  sched_get_priority_min = λ p w. (done (pos 0), w);
  sched_get_priority_max = λ p w. (done (pos 0), w);
  sched_getscheduler = λ p w. (done (pos 0), w);
  sched_getparam = λ p w. (done (pos 0), w);
  sched_setscheduler = λ p q r w. (failed 1, w);
  sched_getaffinity = λ p w. (done w, w);
  sched_setaffinity = λ p mask w. (done tt, mask);
}

-- The table { 3, 1 }.
abbrev two_cpus : ℕ → Option ℤ
two_cpus zero = none
two_cpus (suc zero) = some (pos 3)
two_cpus (suc (suc zero)) = some (pos 1)
two_cpus (suc (suc (suc n))) = none

abbrev masked : Session Mask
masked = record { machine = record { os = λ n. true; errno = 0 }; last_errno = none }

two_cpus_at : (j : ℕ) → two_cpus (1 + j) ≡ Option.map pos (get_elem? (3 ∷ 1 ∷ []) j)
two_cpus_at zero = refl
two_cpus_at (suc zero) = refl
two_cpus_at (suc (suc j)) = rw (add_comm 1 (suc (suc j))) (rw add-one)

setaffinity-getaffinity_example :
    (m : Mask) × (impl_sched_setaffinity strerror cpu_set sched_calls 3
        (some (pos 0))
        (some two_cpus)
        masked
      ≡ some (returned (success ∷ []), at m masked))
    × (impl_sched_getaffinity strerror cpu_set sched_calls 5 (some (pos 0)) (at m masked)
        ≡ some (returned (table (numbers 1 (cpus (among (3 ∷ 1 ∷ [])) 4 0)) ∷ []), at m masked))
setaffinity-getaffinity_example =
    setaffinity-getaffinity strerror cpu_set sched_calls 4 cpu-Laws (pos 0) masked (λ m. m)
      (λ m. refl) (λ m. refl) two_cpus (3 ∷ 1 ∷ []) 3 5 two_cpus_at (omega arith) (omega arith)
      (omega arith)

two_cpus_sorted : cpus (among (3 ∷ 1 ∷ [])) 4 0 ≡ 1 ∷ 3 ∷ []
unfolding cpus
two_cpus_sorted = refl

-- One directory, with the entries that are left and the streams that were closed.
abbrev Disk : Type 0
Disk = List Entry × List ℕ

abbrev next_of : List Entry → Machine Disk → Option Entry × Machine Disk
next_of [] m = (none, m)
next_of (e ∷ es) m = (some e, record m { os = (es, m.os.1) })

abbrev close_stream : Option ℕ → Disk → Reply Unit × Disk
close_stream none w = (failed 22, w)
close_stream (some d) w = (done tt, (w.0, d ∷ w.1))

abbrev dir_calls : Dirent.Calls Disk
dir_calls = record {
  opendir = λ path w. (done 1, w);
  readdir = λ d m. next_of m.os.0 m;
  closedir = close_stream;
  rewinddir = λ d w. w;
  seekdir = λ d n w. w;
  telldir = λ d w. (pos 0, w);
  unexpected = λ e m. m;
}

abbrev disk_view : View Disk
disk_view = record { left = λ w d. w.0; closed = λ w. w.1 }

dir-Reads : Reads disk_view dir_calls 1
dir-Reads = record {
  next_entry = λ m e es h. ((es, m.os.1), rw h, refl, refl);
  no_entry = λ m h. rw h;
  closes = λ w. ((w.0, 1 ∷ w.1), refl, refl);
}

abbrev two_entries : List Entry
two_entries = record { d_name = 46 ∷ []; d_ino = 2 } ∷ record { d_name = 97 ∷ []; d_ino = 5 } ∷ []

abbrev disk : Session Disk
disk = record { machine = record { os = (two_entries, []); errno = 0 }; last_errno = none }

dirents-entries_example :
    (t : Session Disk) × (impl_dirents strerror dir_calls (some (47 ∷ [])) disk
      ≡ (returned (function "impl_iterator" ∷ new_dir 1 ∷ []), some 1, at (two_entries, []) disk))
    × (calls (impl_iterator strerror dir_calls) 3 (some 1) (at (two_entries, []) disk)
        ≡ (map entry_answer two_entries ++ (returned (nil ∷ []) ∷ []), none, t))
    × (t.machine.os.1 ≡ 1 ∷ [])
    × (impl_gc strerror dir_calls none t ≡ t)
    × ((impl_iterator strerror dir_calls none t).0 ≡ fault)
dirents-entries_example =
    dirents-entries strerror dir_calls disk_view 1 dir-Reads (47 ∷ []) two_entries disk
      (two_entries, []) refl refl

-- A resolver that knows one host.
abbrev localhost : AddrInfo
localhost = record {
  ai_family = pos 2;
  ai_socktype = pos 1;
  ai_protocol = pos 6;
  ai_addrlen = 2;
  ai_addr = some (127 ∷ 1 ∷ []);
  ai_canonname = none;
}

abbrev lookup : Option Bytes → Machine ℕ → (ℤ × Option Found) × Machine ℕ
lookup none m = ((negsuc 1, none), m)
lookup (some node) m =
    ((pos 0, some (record { number = 1; list = localhost ∷ [] })), record m { os = m.os + 1 })

abbrev resolver : Netdb.Calls ℕ
resolver = record {
  getaddrinfo = λ node serv h m. lookup node m;
  freeaddrinfo = λ n m. record m { os = m.os - 1 };
  getnameinfo = λ addr node serv flags m. ((pos 0, 97 ∷ [], 98 ∷ []), m);
  gai_strerror = λ code. none;
  error_number = λ code. 101 ∷ [];
  ni_maxhost = 4;
  ni_maxserv = 4;
  ai_v4mapped_addrconfig = pos 40;
  af_unspec = pos 0;
}

stores_of :
    (node : Option Bytes) (m : Machine ℕ)
    → (((lookup node m).0.0 ≡ pos 0) × ((f : Found) × ((lookup node m).0.1 ≡ some f)))
      ⊎ ((eq_ℤ (lookup node m).0.0 (pos 0) ≡ false) × ((lookup node m).0.1 ≡ none))
stores_of none m = inr (refl, refl)
stores_of (some node) m = inl (refl, (_, refl))

resolver_stores : Stores resolver
resolver_stores node serv h m = stores_of node m

deferred_same_example :
    (made resolver
        (impl_async_getaddrinfo resolver (some (97 ∷ [])) none none)
        (run_addr resolver)
        session
      ≡ impl_getaddrinfo resolver (some (97 ∷ [])) none none session)
    × (made resolver
          (impl_async_getnameinfo resolver (1 ∷ []) (some (pos 0)))
          (run_name resolver)
          session
        ≡ impl_getnameinfo resolver (1 ∷ []) (some (pos 0)) session)
deferred_same_example =
    deferred_same resolver resolver_stores (some (97 ∷ [])) none none (1 ∷ []) (some (pos 0))
      session
