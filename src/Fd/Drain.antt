-- ===== src/Fd/Drain.antt =====
-- The loop of `selfpipe_impl::read` and of `async_service_impl::read`, which are the same:
-- `while (::read(fd, &c, 1) == 1) ++count;`.
use dromozoa_unix.Prelude.{
  ℕ, zero, suc, ◌+◌, ◌<◌, ◌≡◌, ◌∙◌, arith, Bool, true, false, Option, none, some, ap, Bool-cases,
  inl, inr,
}

module _ {W : Type 0} (read_byte : W → Bool × W) where
  -- The bytes that were read; none where the fuel ran out.
  unfoldable pub drain : ℕ → ℕ → W → Option (ℕ × W)
  drain zero count w = none
  drain (suc fuel) count w = elim (read_byte w).0 [
    | true ↦ drain fuel (count + 1) (read_byte w).1
    | false ↦ some (count, (read_byte w).1)
  ]

  pub drain-pending :
      (pending : W → ℕ)
      → ((w : W) → (read_byte w).0 ≡ true → pending w ≡ suc (pending (read_byte w).1))
      → ((w : W) → (read_byte w).0 ≡ false → (pending w ≡ 0) × (pending (read_byte w).1 ≡ 0))
      → (fuel count : ℕ) (w : W) → pending w < fuel
      → (w' : W) × (drain fuel count w ≡ some (count + pending w, w')) × (pending w' ≡ 0)
  unfolding drain
  drain-pending pending takes ends zero count w h = absurd (omega arith)
  drain-pending pending takes ends (suc fuel) count w h = elim (Bool-cases (read_byte w).0) [
    | inl more ↦
        let w1 = (read_byte w).1 in
        let e = takes w more in
        let (w', r, z) = drain-pending pending takes ends fuel (count + 1) w1 (omega (arith, e)) in
        let n : count + 1 + pending w1 ≡ count + pending w = omega (arith, e) in
        (w', rw (more, drain) (r ∙ ap (λ (x : ℕ). some (x, w')) n), z)
    | inr last ↦
        let (e, z) = ends w last in
        let n : count ≡ count + pending w = omega (arith, e) in
        ((read_byte w).1, rw (last, drain) (ap (λ (x : ℕ). some (x, (read_byte w).1)) n), z)
  ]
