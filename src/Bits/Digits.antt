-- ===== src/Bits/Digits.antt =====
-- The native operations recur on a count of digits; the count is dropped here.
use Prim.Native.Nat.{digits, differ, bit_and-bitwise, bit_or-bitwise, bit_xor-bitwise}
use vnic.Prelude.{
  ℕ, zero, suc, ◌+◌, ◌*◌, ◌/◌, ◌%◌, ◌≤◌, ◌<◌, min, max, bit_and, bit_or, bit_xor, ◌≡◌, refl, arith,
}

module _ (z : ℕ → ℕ) (f : ℕ → ℕ → ℕ) where
  -- Any two counts that are large enough agree.
  counts_agree : (m n a b : ℕ) → a ≤ m → a ≤ n → digits z f m a b ≡ digits z f n a b
  counts_agree zero zero a b h k = refl
  counts_agree (suc m) zero zero b h k = refl
  counts_agree zero (suc n) zero b h k = refl
  counts_agree (suc m) (suc n) zero b h k = refl
  counts_agree zero n (suc a) b h k = absurd (omega arith)
  counts_agree (suc m) zero (suc a) b h k = absurd (omega arith)
  counts_agree (suc m) (suc n) (suc a) b h k =
      omega (arith, counts_agree m n (suc a / 2) (b / 2) (omega arith) (omega arith))

  lowest_digit :
      (a b : ℕ)
      → digits z f (suc a) (suc a) b
        ≡ digits z f (suc a / 2) (suc a / 2) (b / 2) * 2 + f (suc a % 2) (b % 2)
  lowest_digit a b =
      omega (arith, counts_agree a (suc a / 2) (suc a / 2) (b / 2) (omega arith) (omega arith))

pub bit_and_step : (m n : ℕ) → bit_and m n ≡ bit_and (m / 2) (n / 2) * 2 + min (m % 2) (n % 2)
bit_and_step (suc m) n = simp bit_and-bitwise (lowest_digit (λ k. 0) min m n)
bit_and_step zero n = simp bit_and-bitwise (omega arith)

pub bit_or_step : (m n : ℕ) → bit_or m n ≡ bit_or (m / 2) (n / 2) * 2 + max (m % 2) (n % 2)
bit_or_step (suc m) n = simp bit_or-bitwise (lowest_digit (λ k. k) max m n)
bit_or_step zero n = simp bit_or-bitwise (omega arith)

differ_lem : (x y : ℕ) → x < 2 → y < 2 → differ x y ≡ (x + y) % 2
differ_lem zero y h k = omega arith
differ_lem (suc zero) zero h k = refl
differ_lem (suc zero) (suc zero) h k = refl
differ_lem (suc zero) (suc (suc y)) h k = absurd (omega arith)
differ_lem (suc (suc x)) y h k = absurd (omega arith)

pub bit_xor_step : (a b : ℕ) → bit_xor a b ≡ bit_xor (a / 2) (b / 2) * 2 + (a % 2 + b % 2) % 2
bit_xor_step zero b = simp bit_xor-bitwise (omega arith)
bit_xor_step (suc a) b =
    rw (← differ_lem (suc a % 2) (b % 2) (omega arith) (omega arith))
      (simp bit_xor-bitwise (lowest_digit (λ y. y) differ a b))
