-- ===== src/Fd/Leaks/Pair.antt =====
-- src/lib/file_descriptor.cpp: two descriptors of one scope, as of a pipe.
use dromozoa_unix.Prelude.{ℕ, refl}
use dromozoa_unix.Prelude.Int.{pos}
use dromozoa_unix.Fd.{Machine, Kernel, destroy}
use dromozoa_unix.Fd.Compat.{Openers}
use dromozoa_unix.Fd.Laws.{View, Same, GainsTwo, Contract}
use dromozoa_unix.Fd.Leaks.Calls.{destroy-Loses}
use dromozoa_unix.Fd.Leaks.Sets.{both_closed}

-- The end of a scope that owns both, the second destroyed first.
unfoldable pub destroy_pair : {W : Type 0} → Kernel W → ℕ → ℕ → Machine W → Machine W
unfolding destroy
destroy_pair k a b s = destroy k (pos a) (destroy k (pos b) s)

pub destroy_pair-Same :
    {W : Type 0} (v : View W) (k : Kernel W) (o : Openers W)
    → Contract v k o
    → (w : W) (a b : ℕ) (s : Machine W) → GainsTwo v w a b s.os
    → Same v w (destroy_pair k a b s).os
unfolding destroy_pair
destroy_pair-Same v k o c w a b s h =
    let t = destroy k (pos b) s in
    both_closed v w s.os t.os t.os (destroy k (pos a) t).os a b h (destroy-Loses v k o c b s).0
      (λ n. refl, refl) (destroy-Loses v k o c a t).0
