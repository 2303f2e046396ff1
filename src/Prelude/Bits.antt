-- ===== src/Prelude/Bits.antt =====
-- The binary digits of `&` and `|`, for every width. A flag of the source is one digit.
use Prim.Native.Nat.{
  ℕ, zero, suc, ◌+◌, ◌*◌, ◌/◌, ◌%◌, ◌≤◌, ◌<◌, min, max, bit_and, bit_or, digits, bit_and-bitwise,
  bit_or-bitwise,
}
use mathlib.Core.Path.{◌≡◌, refl, ap, ◌∙◌}
use mathlib.Core.Bool.{Bool, not}
use native.Mathlib.Decide.{dec_lt}
use native.Mathlib.Omega.{arith}
use virtio_disk.Prelude.Tests.{◌==◌}

-- Digit `k` of `a`.
unfoldable pub bit : ℕ → ℕ → ℕ
bit zero a = a % 2
bit (suc k) a = bit k (a / 2)

pub bit-lt : (k a : ℕ) → bit k a < 2
unfolding bit
bit-lt zero a = omega arith
bit-lt (suc k) a = bit-lt k (a / 2)

pub bit_of_zero : (k : ℕ) → bit k 0 ≡ 0
unfolding bit
bit_of_zero zero = refl
bit_of_zero (suc k) = bit_of_zero k

-- The number of rounds is of no consequence, once there are as many as the first operand.
module _ (keep : ℕ → ℕ) (op : ℕ → ℕ → ℕ) where
  digits-rounds : (a b k l : ℕ) → a ≤ k → a ≤ l → digits keep op k a b ≡ digits keep op l a b
  digits-rounds zero b zero zero at_k at_l = refl
  digits-rounds zero b (suc k) zero at_k at_l = refl
  digits-rounds zero b zero (suc l) at_k at_l = refl
  digits-rounds zero b (suc k) (suc l) at_k at_l = refl
  digits-rounds (suc a) b zero l at_k at_l = absurd (omega arith)
  digits-rounds (suc a) b (suc k) zero at_k at_l = absurd (omega arith)
  digits-rounds (suc a) b (suc k) (suc l) at_k at_l =
      omega (arith, digits-rounds (suc a / 2) (b / 2) k l (omega arith) (omega arith))

  digits-suc :
      (a b : ℕ)
      → op (suc a % 2) (b % 2) + 2 * digits keep op (suc a / 2) (suc a / 2) (b / 2)
        ≡ digits keep op (suc a) (suc a) b
  digits-suc a b =
      omega (arith, digits-rounds (suc a / 2) (b / 2) a (suc a / 2) (omega arith) (omega arith))

-- The lowest digit, and the others.
pub bit_and_low : (a b : ℕ) → min (a % 2) (b % 2) + 2 * bit_and (a / 2) (b / 2) ≡ bit_and a b
bit_and_low zero b = omega (arith, bit_and-bitwise zero b, bit_and-bitwise zero (b / 2))
bit_and_low (suc a) b = omega (
  arith,
  digits-suc (λ b. zero) min a b,
  bit_and-bitwise (suc a / 2) (b / 2),
  bit_and-bitwise (suc a) b,
)

bit_or_low : (a b : ℕ) → max (a % 2) (b % 2) + 2 * bit_or (a / 2) (b / 2) ≡ bit_or a b
bit_or_low zero b = omega (arith, bit_or-bitwise zero b, bit_or-bitwise zero (b / 2))
bit_or_low (suc a) b = omega (
  arith,
  digits-suc (λ b. b) max a b,
  bit_or-bitwise (suc a / 2) (b / 2),
  bit_or-bitwise (suc a) b,
)

-- Halving drops the lowest digit of each operand.
bit_and_half : (a b : ℕ) → bit_and a b / 2 ≡ bit_and (a / 2) (b / 2)
bit_and_half a b = omega (arith, bit_and_low a b)

bit_or_half : (a b : ℕ) → bit_or a b / 2 ≡ bit_or (a / 2) (b / 2)
bit_or_half a b = omega (arith, bit_or_low a b)

pub bit-bit_and : (k a b : ℕ) → bit k (bit_and a b) ≡ min (bit k a) (bit k b)
unfolding bit
bit-bit_and zero a b = omega (arith, bit_and_low a b)
bit-bit_and (suc k) a b = ap (bit k) (bit_and_half a b) ∙ bit-bit_and k (a / 2) (b / 2)

pub bit-bit_or : (k a b : ℕ) → bit k (bit_or a b) ≡ max (bit k a) (bit k b)
unfolding bit
bit-bit_or zero a b = omega (arith, bit_or_low a b)
bit-bit_or (suc k) a b = ap (bit k) (bit_or_half a b) ∙ bit-bit_or k (a / 2) (b / 2)

no_digit : (k : ℕ) {a : ℕ} → a ≤ k → bit_and a 0 ≡ 0
no_digit k {a = zero} h = refl
no_digit zero {a = suc a} h = absurd (omega arith)
no_digit (suc k) {a = suc a} h =
    omega (arith, no_digit k {a = suc a / 2} (omega arith), bit_and_low (suc a) 0)

pub bit_and-zero : (a : ℕ) → bit_and a 0 ≡ 0
bit_and-zero a = no_digit a (omega arith)

-- 1 << k
abbrev pub flag : ℕ → ℕ
flag zero = 1
flag (suc k) = flag k * 2

-- `a & (1 << k)` is the flag itself or zero.
pub bit_and-flag : (k a : ℕ) → bit_and a (flag k) ≡ bit k a * flag k
unfolding bit
bit_and-flag zero a = omega (arith, bit_and_low a 1, bit_and-zero (a / 2))
bit_and-flag (suc k) a =
    let half : flag k * 2 / 2 ≡ flag k = omega arith in
    omega (
      arith,
      bit_and_low a (flag k * 2),
      ap (bit_and (a / 2)) half,
      bit_and-flag k (a / 2),
      ap (λ (t : ℕ). t * 2) (bit_and-flag k (a / 2)),
    )

flag-pos : (k : ℕ) → 0 < flag k
flag-pos zero = omega arith
flag-pos (suc k) = omega (arith, flag-pos k)

-- `!!(a & m)`
abbrev pub test : ℕ → ℕ → Bool
test a m = not (bit_and a m == 0)

-- Testing one flag reads one digit.
pub test-flag : (k a : ℕ) → test a (flag k) ≡ (bit k a == 1)
test-flag k a = elim (dec_lt (bit k a) 1) [
  | yes p ↦ grind (arith, bit_and-flag k a)
  | no p ↦ grind (arith, bit_and-flag k a, bit-lt k a, flag-pos k)
]
