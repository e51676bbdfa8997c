-- ===== src/Prelude/Bits.antt =====
-- The operators `|`, `&` and `& ~` of C on words of 32 bits.
use Prim.Native.Nat.{ℕ, zero, suc, ◌+◌, ◌-◌, ◌*◌, ◌/◌, ◌%◌, min, max}

-- A bitwise operator, from its operation on one bit.
abbrev bitwise : (ℕ → ℕ → ℕ) → ℕ → ℕ → ℕ → ℕ
bitwise f zero a b = 0
bitwise f (suc n) a b = f (a % 2) (b % 2) + 2 * bitwise f n (a / 2) (b / 2)

abbrev pub bit_or : ℕ → ℕ → ℕ
bit_or = bitwise max 32

abbrev pub bit_and : ℕ → ℕ → ℕ
bit_and = bitwise min 32

abbrev pub bit_clear : ℕ → ℕ → ℕ
bit_clear = bitwise (λ a b. a - b) 32
