-- ===== src/Lua/Sched/Affinity.antt =====
-- src/lua/sched.cpp: the CPUs that are set in a mask, as tables of Lua.
use mathlib.Core.Option
use mathlib.Core.Path.{fun_ext}
use dromozoa_unix.Prelude.{
  ℕ, zero, suc, ◌+◌, ◌<◌, ◌≡◌, ◌∙◌, refl, sym, ap, arith, Bool, false, ◌||◌, Option, none, some,
  List, [], ◌∷◌, length, get_elem?, All, ltb, ◌==◌, if◌then◌else◌, Bool-cases, inl, inr,
}
use dromozoa_unix.Prelude.Int.{ℤ, pos}
use dromozoa_unix.Fd.{done}
use dromozoa_unix.Lua.{index, success, integer, table, Fields, end, field, returned, Session, at}
use dromozoa_unix.Lua.Sched.{
  CpuSet, Calls, cpu_table, cpu_mask, affinity, impl_sched_getaffinity, impl_sched_setaffinity,
}

-- Of the `left` CPUs from `cpu` on, those that are in the set, in ascending order.
unfoldable pub cpus : (ℕ → Bool) → ℕ → ℕ → List ℕ
cpus p zero cpu = []
cpus p (suc left) cpu = if p cpu then cpu ∷ cpus p left (cpu + 1) else cpus p left (cpu + 1)

-- A table with the numbers, from index `i` on.
unfoldable pub numbers : ℕ → List ℕ → Fields
numbers i [] = end
numbers i (n ∷ ns) = field (index i) (integer (pos n)) (numbers (i + 1) ns)

abbrev pub among : List ℕ → ℕ → Bool
among [] n = false
among (m ∷ ms) n = n == m || among ms n

numbers-nil : (i : ℕ) (ns : List ℕ) → length ns ≡ 0 → numbers i ns ≡ end
unfolding numbers
numbers-nil i [] e = refl
numbers-nil i (n ∷ ns) e = absurd (omega arith)

-- The documented behaviour of the macros on the CPUs below `CPU_SETSIZE`.
pub record Laws {S : Type 0} (c : CpuSet S) (setsize : ℕ) : Type 0 where
  pub zero_clears : (n : ℕ) → c.cpu_isset n c.cpu_zero ≡ false
  pub set_sets :
      (cpu n : ℕ) (mask : S)
      → cpu < setsize
      → c.cpu_isset n (c.cpu_set (pos cpu) mask) ≡ (n == cpu || c.cpu_isset n mask)
  pub count_counts :
      (mask : S) → c.cpu_count mask ≡ length (cpus (λ n. c.cpu_isset n mask) setsize 0)

module _ {S : Type 0} (c : CpuSet S) (mask : S) where
  isset : ℕ → Bool
  isset n = c.cpu_isset n mask

  cpu_table-cpus :
      (left rounds i cpu n : ℕ)
      → left < rounds
      → n ≡ i + length (cpus isset left cpu)
      → cpu_table c rounds mask n i cpu ≡ some (numbers (i + 1) (cpus isset left cpu))
  unfolding cpu_table cpus numbers isset
  cpu_table-cpus left zero i cpu n room e = absurd (omega arith)
  cpu_table-cpus zero (suc rounds) i cpu n room e = ground arith
  cpu_table-cpus (suc left) (suc rounds) i cpu n room e = elim (Bool-cases (ltb i n)) [
    | inr last ↦
        rw (last, cpu_table)
          (ap some (sym (numbers-nil (i + 1) (cpus isset (suc left) cpu) (ground (arith, e)))))
    | inl more ↦ elim (Bool-cases (c.cpu_isset cpu mask)) [
      | inl set ↦
          let n_eq : n ≡ i + 1 + length (cpus isset left (cpu + 1)) = ground (arith, e) in
          let ih = cpu_table-cpus left rounds (i + 1) (cpu + 1) n (omega arith) n_eq in
          rw (more, cpu_table) (rw (set, cpu_table) (rw ih))
      | inr clear ↦
          let n_eq : n ≡ i + length (cpus isset left (cpu + 1)) = ground (arith, e) in
          let ih = cpu_table-cpus left rounds i (cpu + 1) n (omega arith) n_eq in
          rw (more, cpu_table) (rw (clear, cpu_table) ih)
    ]
  ]

cpus-among :
    {p q : ℕ → Bool} (left cpu : ℕ) → ((n : ℕ) → p n ≡ q n) → cpus p left cpu ≡ cpus q left cpu
cpus-among left cpu h = ap (λ (f : ℕ → Bool). cpus f left cpu) (fun_ext h)

module _ {S : Type 0} (c : CpuSet S) (setsize : ℕ) (laws : Laws c setsize) where
  -- The numbers of a table are set in the mask, and no other CPU is.
  cpu_mask-among :
      (rounds : ℕ) (number : ℕ → Option ℤ) (i : ℕ) (mask : S) (ns : List ℕ)
      → ((j : ℕ) → number (i + j) ≡ Option.map pos (get_elem? ns j))
      → All (λ n. n < setsize) ns
      → length ns < rounds
      → (m : S) × (cpu_mask c rounds number i mask ≡ some m)
        × ((n : ℕ) → c.cpu_isset n m ≡ (among ns n || c.cpu_isset n mask))
  unfolding cpu_mask
  cpu_mask-among zero number i mask ns at_i small room = absurd (omega arith)
  cpu_mask-among (suc rounds) number i mask [] at_i small room =
      let here : number i ≡ none = ap number {x = i} {y = i + 0} (omega arith) ∙ at_i 0 in
      (mask, rw (here, cpu_mask), λ n. refl)
  cpu_mask-among (suc rounds) number i mask (cpu ∷ ns) at_i small room =
      let here : number i ≡ some (pos cpu) = ap number {x = i} {y = i + 0} (omega arith) ∙ at_i 0 in
      let next : (j : ℕ) → number (i + 1 + j) ≡ Option.map pos (get_elem? ns j) =
        λ j. ap number {x = i + 1 + j} {y = i + suc j} (omega arith) ∙ at_i (suc j) in
      let (m, run, holds) =
        cpu_mask-among rounds number (i + 1) (c.cpu_set (pos cpu) mask) ns next small.1
          (omega arith) in
      (m, rw (here, cpu_mask) run, λ n. ground (arith, holds n, laws.set_sets cpu n mask small.0))

module _ {W S : Type 0} (strerror : ℤ → List ℕ) (c : CpuSet S) (k : Calls W S) (setsize : ℕ)
    (laws : Laws c setsize) (pid : ℤ) (s : Session W) (kept : S → W)
    (takes : (m : S) → k.sched_setaffinity pid m s.machine.os ≡ (done tt, kept m))
    (gives : (m : S) → k.sched_getaffinity pid (kept m) ≡ (done m, kept m)) where
  -- Where the system keeps the mask that is set: `impl_sched_setaffinity` of a table of CPUs below
  -- `CPU_SETSIZE`, in any order and as often as one likes, succeeds, and `impl_sched_getaffinity` then
  -- gives a table of just these CPUs, each once and in ascending order. A round for each CPU of the
  -- table, or for each CPU that a set can hold, and one more are enough.
  pub setaffinity-getaffinity :
      (number : ℕ → Option ℤ) (ns : List ℕ) (rounds more : ℕ)
      → ((j : ℕ) → number (1 + j) ≡ Option.map pos (get_elem? ns j))
      → All (λ n. n < setsize) ns
      → length ns < rounds
      → setsize < more
      → (m : S) × (impl_sched_setaffinity strerror c k rounds (some pid) (some number) s
          ≡ some (returned (success ∷ []), at (kept m) s))
        × (impl_sched_getaffinity strerror c k more (some pid) (at (kept m) s)
            ≡ some (returned (table (numbers 1 (cpus (among ns) setsize 0)) ∷ []), at (kept m) s))
  unfolding impl_sched_setaffinity impl_sched_getaffinity affinity isset
  setaffinity-getaffinity number ns rounds more at_j small room enough =
      let (m, run, holds) =
        cpu_mask-among c setsize laws rounds number 1 c.cpu_zero ns at_j small room in
      let only : (n : ℕ) → c.cpu_isset n m ≡ among ns n =
        λ n. ground (arith, holds n, laws.zero_clears n) in
      let found : cpu_table c more m (c.cpu_count m) 0 0
          ≡ some (numbers 1 (cpus (among ns) setsize 0)) =
        cpu_table-cpus c m setsize more 0 0 (c.cpu_count m) enough
          (omega (arith, laws.count_counts m))
        ∙ ap {A = List ℕ} (λ l. some (numbers 1 l))
            (cpus-among {p = λ n. c.cpu_isset n m} {q = among ns} setsize 0 only) in
      (m, rw run (rw (takes m)), rw (gives m) (rw found))
