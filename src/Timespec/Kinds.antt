-- ===== src/Timespec/Kinds.antt =====
-- src/lua/timespec.cpp: the three type matrices against an algebra of points of two clocks and spans.
use dromozoa_unix.Prelude.{
  ℕ, zero, suc, ◌≡◌, ◌<◌, refl, Option, none, some, List, [], ◌∷◌, ◌++◌, arith, All, ◌==◌,
  if◌then◌else◌,
}
use dromozoa_unix.Timespec.{type_at, matrix_add, matrix_sub, matrix_call, unknown}

pub data Clock : Type 0 where
  wall steady : Clock

pub data Kind : Type 0 where
  point : Clock → Kind
  span : Kind

-- What may be added and subtracted, and gives what.
abbrev pub sum : Kind → Kind → Option Kind
sum (point c) span = some (point c)
sum span (point c) = some (point c)
sum span span = some span
sum (point _) (point _) = none

abbrev pub difference : Kind → Kind → Option Kind
difference (point wall) (point wall) = some span
difference (point steady) (point steady) = some span
difference (point c) span = some (point c)
difference span span = some span
difference _ _ = none

-- The kinds that a type may stand for: the unknown type, and any number from 3 on, for all.
abbrev kinds : ℕ → List Kind
kinds zero = point wall ∷ []
kinds (suc zero) = point steady ∷ []
kinds (suc (suc zero)) = span ∷ []
kinds _ = point wall ∷ point steady ∷ span ∷ []

abbrev code : Kind → ℕ
code (point wall) = 0
code (point steady) = 1
code span = 2

abbrev results : (Kind → Kind → Option Kind) → Kind → List Kind → List ℕ
results op a [] = []
results op a (b ∷ bs) = elim (op a b) [ none ↦ results op a bs | some k ↦ code k ∷ results op a bs ]

abbrev all_results : (Kind → Kind → Option Kind) → List Kind → List Kind → List ℕ
all_results op [] bs = []
all_results op (a ∷ as') bs = results op a bs ++ all_results op as' bs

-- The type that is left if just one combination makes sense.
abbrev only : List ℕ → ℕ
only [] = unknown
only (k ∷ []) = k
only (k ∷ (l ∷ ks)) = unknown

abbrev pub infer : (Kind → Kind → Option Kind) → ℕ → ℕ → ℕ
infer op type1 type2 = only (all_results op (kinds type1) (kinds type2))

-- The type that is asked for, unless it is the unknown one.
abbrev pub asked : ℕ → ℕ → ℕ
asked type1 type2 = if type2 == unknown then type1 else type2

-- For types 0 to 3 the matrices of sums and differences give the type that can be inferred: that of
-- the one combination of kinds that makes sense, and the unknown type where there is none or more; and that
-- of a call gives the type that is asked for, or the type of the operand where that is the unknown one.
pub matrices-infer :
    (type1 type2 : ℕ)
    → type1 < 4
    → type2 < 4
    → (type_at matrix_add type1 type2 ≡ some (infer sum type1 type2))
      × (type_at matrix_sub type1 type2 ≡ some (infer difference type1 type2))
      × (type_at matrix_call type1 type2 ≡ some (asked type1 type2))
unfolding type_at
matrices-infer zero zero h k = (refl, refl, refl)
matrices-infer zero (suc zero) h k = (refl, refl, refl)
matrices-infer zero (suc (suc zero)) h k = (refl, refl, refl)
matrices-infer zero (suc (suc (suc zero))) h k = (refl, refl, refl)
matrices-infer (suc zero) zero h k = (refl, refl, refl)
matrices-infer (suc zero) (suc zero) h k = (refl, refl, refl)
matrices-infer (suc zero) (suc (suc zero)) h k = (refl, refl, refl)
matrices-infer (suc zero) (suc (suc (suc zero))) h k = (refl, refl, refl)
matrices-infer (suc (suc zero)) zero h k = (refl, refl, refl)
matrices-infer (suc (suc zero)) (suc zero) h k = (refl, refl, refl)
matrices-infer (suc (suc zero)) (suc (suc zero)) h k = (refl, refl, refl)
matrices-infer (suc (suc zero)) (suc (suc (suc zero))) h k = (refl, refl, refl)
matrices-infer (suc (suc (suc zero))) zero h k = (refl, refl, refl)
matrices-infer (suc (suc (suc zero))) (suc zero) h k = (refl, refl, refl)
matrices-infer (suc (suc (suc zero))) (suc (suc zero)) h k = (refl, refl, refl)
matrices-infer (suc (suc (suc zero))) (suc (suc (suc zero))) h k = (refl, refl, refl)
matrices-infer _ (suc (suc (suc (suc _)))) h k = absurd (omega arith)
matrices-infer (suc (suc (suc (suc _)))) _ h k = absurd (omega arith)

abbrev Small : List ℕ → Type 0
Small = All (λ k. k < 4)

code-lt : (k : Kind) → code k < 4
code-lt (point wall) = omega arith
code-lt (point steady) = omega arith
code-lt span = omega arith

results-Small :
    (op : Kind → Kind → Option Kind) (a : Kind) (bs : List Kind) → Small (results op a bs)
results-Small op a [] = tt
results-Small op a (b ∷ bs) =
    let rest = results-Small op a bs in
    elim (op a b)
      as (λ o. Small (elim o [ none ↦ results op a bs | some k ↦ code k ∷ results op a bs ])) [
        | none ↦ rest
        | some k ↦ (code-lt k, rest)
      ]

Small-append : (ks ls : List ℕ) → Small ks → Small ls → Small (ks ++ ls)
Small-append [] ls h k = k
Small-append (x ∷ ks) ls h k = (h.0, Small-append ks ls h.1 k)

all_results-Small :
    (op : Kind → Kind → Option Kind) (as' bs : List Kind) → Small (all_results op as' bs)
all_results-Small op [] bs = tt
all_results-Small op (a ∷ as') bs =
    Small-append (results op a bs) _ (results-Small op a bs) (all_results-Small op as' bs)

only-lt : (ks : List ℕ) → Small ks → only ks < 4
only-lt [] h = omega arith
only-lt (k ∷ []) h = h.0
only-lt (k ∷ (l ∷ ks)) h = omega arith

pub infer-lt : (op : Kind → Kind → Option Kind) (type1 type2 : ℕ) → infer op type1 type2 < 4
infer-lt op type1 type2 = only-lt _ (all_results-Small op (kinds type1) (kinds type2))
