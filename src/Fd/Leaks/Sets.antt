-- ===== src/Fd/Leaks/Sets.antt =====
-- src/lib/file_descriptor.cpp: two descriptors, opened and closed again.
use dromozoa_unix.Prelude.{ℕ, ◌≡◌, ap, ◌∙◌, arith, Bool, false, not, ◌||◌, ◌&&◌, ◌==◌}
use dromozoa_unix.Fd.Laws.{View, Same, GainsTwo}
use dromozoa_unix.Fd.Leaks.Calls.{Loses}

module _ {W : Type 0} (v : View W) where
  pub GainsTwo-Same :
      (s w w' : W) (a b : ℕ) → GainsTwo v s a b w → Same v w w' → GainsTwo v s a b w'
  GainsTwo-Same s w w' a b h e = (h.0, h.1, h.2, λ n. e.0 n ∙ h.3 n, e.1 ∙ h.4)

  closed_again :
      (f : ℕ → Bool) (n a b : ℕ)
      → f a ≡ false
      → f b ≡ false
      → (((f n || (n == a || n == b)) && not (n == b)) && not (n == a)) ≡ f n
  closed_again f n a b h g = grind arith

  -- Both ends closed, the writer first.
  pub both_closed :
      (s w t t' u : W) (a b : ℕ)
      → GainsTwo v s a b w
      → Loses v (λ n. not (n == b)) w t
      → Same v t t'
      → Loses v (λ n. not (n == a)) t' u
      → Same v s u
  both_closed s w t t' u a b h l e l' = (
    λ n.
        l'.0 n
        ∙ (ap (λ x. x && not (n == a)) (e.0 n ∙ (l.0 n ∙ ap (λ x. x && not (n == b)) (h.3 n)))
            ∙ closed_again (v.opened s) n a b h.1 h.2),
    l'.1 ∙ (e.1 ∙ (l.1 ∙ h.4)),
  )
