-- ===== src/Lua/Sched.antt =====
-- src/lua/sched.cpp: scheduling calls. A `cpu_set_t` with the macros of the C library on it is a
-- parameter, and so are the system's calls. The loops take rounds, and give `none` where they run out.
pub mod Affinity
use dromozoa_unix.Prelude.{
  ℕ, zero, suc, ◌+◌, ◌<◌, ◌≡◌, Bool, true, false, Option, none, some, List, [], ◌∷◌, ltb,
}
use dromozoa_unix.Prelude.Int.{ℤ, pos}
use dromozoa_unix.Fd.{Reply, done, failed}
use dromozoa_unix.Lua.{
  index, name, success, integer, table, Fields, end, field, Answer, returned, thrown, Session, Run,
  checked, answered, system, push_error, error_of,
}

-- `CPU_ZERO`, `CPU_SET`, `CPU_ISSET` and `CPU_COUNT`.
pub record CpuSet (S : Type 0) : Type 0 where
  pub cpu_zero : S
  pub cpu_set : ℤ → S → S
  pub cpu_isset : ℕ → S → Bool
  pub cpu_count : S → ℕ

pub record Calls (W S : Type 0) : Type 0 where
  pub sched_yield : W → Reply Unit × W
  pub sched_get_priority_min : ℤ → W → Reply ℤ × W
  pub sched_get_priority_max : ℤ → W → Reply ℤ × W
  pub sched_getscheduler : ℤ → W → Reply ℤ × W
  pub sched_getparam : ℤ → W → Reply ℤ × W
  pub sched_setscheduler : ℤ → ℤ → ℤ → W → Reply Unit × W
  pub sched_getaffinity : ℤ → W → Reply S × W
  pub sched_setaffinity : ℤ → S → W → Reply Unit × W

module _ {S : Type 0} (c : CpuSet S) where
  -- The loop over the CPUs: `i` are in the table, of the `n` that are set.
  unfoldable pub cpu_table : ℕ → S → ℕ → ℕ → ℕ → Option Fields
  cpu_table zero mask n i cpu = none
  cpu_table (suc rounds) mask n i cpu = elim (ltb i n) [
    | false ↦ some end
    | true ↦ elim (c.cpu_isset cpu mask) [
      | true ↦ elim (cpu_table rounds mask n (i + 1) (cpu + 1)) [
        | none ↦ none
        | some rest ↦ some (field (index (i + 1)) (integer (pos cpu)) rest)
      ]
      | false ↦ cpu_table rounds mask n i (cpu + 1)
    ]
  ]

  -- The loop over a table of Lua, whose numbers are found by `number` from index `i` on.
  unfoldable pub cpu_mask : ℕ → (ℕ → Option ℤ) → ℕ → S → Option S
  cpu_mask zero number i mask = none
  cpu_mask (suc rounds) number i mask = elim (number i) [
    | none ↦ some mask
    | some cpu ↦ cpu_mask rounds number (i + 1) (c.cpu_set cpu mask)
  ]

module _ {W S : Type 0} (strerror : ℤ → List ℕ) (c : CpuSet S) (k : Calls W S) where
  unfoldable pub impl_sched_yield : Run W
  impl_sched_yield = system strerror k.sched_yield λ _ s. (returned (success ∷ []), s)

  unfoldable pub impl_sched_get_priority_min : Option ℤ → Run W
  impl_sched_get_priority_min policy =
      checked policy
        λ p. system strerror (k.sched_get_priority_min p) λ r s. (returned (integer r ∷ []), s)

  unfoldable pub impl_sched_get_priority_max : Option ℤ → Run W
  impl_sched_get_priority_max policy =
      checked policy
        λ p. system strerror (k.sched_get_priority_max p) λ r s. (returned (integer r ∷ []), s)

  unfoldable pub impl_sched_getscheduler : Option ℤ → Run W
  impl_sched_getscheduler pid =
      checked pid
        λ p. system strerror (k.sched_getscheduler p) λ r s. (returned (integer r ∷ []), s)

  unfoldable pub impl_sched_getparam : Option ℤ → Run W
  impl_sched_getparam pid = checked pid λ p. system strerror (k.sched_getparam p) λ priority s.
      (returned (table (field (name "sched_priority") (integer priority) end) ∷ []), s)

  unfoldable pub impl_sched_setscheduler : Option ℤ → Option ℤ → Option ℤ → Run W
  impl_sched_setscheduler pid policy priority = checked pid λ p. checked policy λ q.
      checked priority
        λ r. system strerror (k.sched_setscheduler p q r) λ _ s. (returned (success ∷ []), s)

  abbrev pub with_table : Session W → Option Fields → Option (Answer × Session W)
  with_table s none = none
  with_table s (some t) = some (returned (table t ∷ []), s)

  -- With the mask that `sched_getaffinity` has filled.
  abbrev pub affinity : ℕ → Session W → Reply S × W → Option (Answer × Session W)
  unfolding cpu_table
  affinity rounds s (failed e, w) = some (error_of strerror e w s)
  affinity rounds s (done mask, w) =
      with_table (record s { machine = record s.machine { os = w } })
        (cpu_table c rounds mask (c.cpu_count mask) 0 0)

  unfoldable pub impl_sched_getaffinity : ℕ → Option ℤ → Session W → Option (Answer × Session W)
  unfolding affinity
  impl_sched_getaffinity rounds none s = some (thrown, s)
  impl_sched_getaffinity rounds (some p) s = affinity rounds s (k.sched_getaffinity p s.machine.os)

  abbrev pub with_mask : ℤ → Session W → Option S → Option (Answer × Session W)
  with_mask p s none = none
  with_mask p s (some mask) =
      some (system strerror (k.sched_setaffinity p mask) (λ _ t. (returned (success ∷ []), t)) s)

  -- The second argument, where it is a table, is its numbers.
  unfoldable pub impl_sched_setaffinity :
      ℕ → Option ℤ → Option (ℕ → Option ℤ) → Session W → Option (Answer × Session W)
  unfolding cpu_mask
  impl_sched_setaffinity rounds none cpus s = some (thrown, s)
  impl_sched_setaffinity rounds (some p) none s = with_mask p s (some c.cpu_zero)
  impl_sched_setaffinity rounds (some p) (some number) s =
      with_mask p s (cpu_mask c rounds number 1 c.cpu_zero)
