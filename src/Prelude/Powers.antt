-- ===== src/Prelude/Powers.antt =====
-- Powers of two.
use Prim.Native.Nat.{ℕ, zero, suc, ◌*◌, ◌^◌, ◌≤◌, ◌<◌}
use mathlib.Core.Path.{◌≡◌, refl}
use native.Mathlib.Decide.{dec_le}
use native.Mathlib.Omega.{arith}
use native.Mathlib.Nat.{pow-suc}

pub two_pow_suc : (n : ℕ) → 2 ^ suc n ≡ 2 * 2 ^ n
two_pow_suc n = omega (arith, pow-suc 2 n)

pub two_pow_pos : (n : ℕ) → 0 < 2 ^ n
two_pow_pos zero = omega arith
two_pow_pos (suc n) = omega (arith, two_pow_suc n, two_pow_pos n)

-- A power of two is a multiple of every smaller one.
pub two_pow_multiple : (m n : ℕ) → m ≤ n → (c : ℕ) × (2 ^ n ≡ c * 2 ^ m) × (0 < c)
two_pow_multiple m zero h = let p : m ≡ 0 = omega arith in (1, rw p refl, omega arith)
two_pow_multiple m (suc n) h = elim (dec_le m n) [
  | yes k ↦
      let (c, e, pos) = two_pow_multiple m n k in (2 * c, omega (arith, two_pow_suc n), omega arith)
  | no k ↦ let p : m ≡ suc n = omega arith in (1, rw p (omega arith), omega arith)
]

pub two_pow_mono : (m n : ℕ) → m ≤ n → 2 ^ m ≤ 2 ^ n
two_pow_mono m n h = let (c, e, pos) = two_pow_multiple m n h in grind arith
