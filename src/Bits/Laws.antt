-- ===== src/Bits/Laws.antt =====
-- Masks, disjoint fields and ranges, at every width.
use mathlib.Core.Logic.{∥∥₁_elim}
use native.Mathlib.Nat.{pow-suc, ℕ_set, mod_self}
use vnic.Prelude.{
  ℕ, zero, suc, ◌+◌, ◌-◌, ◌*◌, ◌/◌, ◌%◌, ◌^◌, ◌≤◌, ◌<◌, max, bit_and, bit_or, bit_xor, ◌≡◌, refl,
  arith, ap, Bool-cases, ◌==◌, ==_iff, true, false, inl, inr, ◌↔◌,
}
use vnic.Bits.Digits.{bit_and_step, bit_or_step, bit_xor_step}

-- The result of an operation on digits that keeps 0 has no more digits than its arguments.
module _ (op f : ℕ → ℕ → ℕ) (step : (a b : ℕ) → op a b ≡ op (a / 2) (b / 2) * 2 + f (a % 2) (b % 2))
    (digit : (a b : ℕ) → f (a % 2) (b % 2) < 2) (op-zero : op 0 0 ≡ 0) where
  range : (k a b : ℕ) → a < 2 ^ k → b < 2 ^ k → op a b < 2 ^ k
  range zero zero zero h l = rw op-zero (omega arith)
  range zero (suc a) b h l = absurd (omega arith)
  range zero zero (suc b) h l = absurd (omega arith)
  range (suc k) a b h l =
      omega (arith, pow-suc 2 k, step a b, digit a b, range k (a / 2) (b / 2) (half a h) (half b l))
    where
      half : (n : ℕ) → n < 2 ^ suc k → n / 2 < 2 ^ k
      half n q = omega (arith, pow-suc 2 k)

pub bit_xor-range : (k a b : ℕ) → a < 2 ^ k → b < 2 ^ k → bit_xor a b < 2 ^ k
bit_xor-range = range bit_xor (λ x y. (x + y) % 2) bit_xor_step (λ a b. omega arith) refl

zero-bit_and : (k n : ℕ) → n ≤ k → bit_and 0 n ≡ 0
zero-bit_and k zero below = refl
zero-bit_and zero (suc n) below = absurd (omega arith)
zero-bit_and (suc k) (suc n) below =
    omega (arith, zero-bit_and k (suc n / 2) (omega arith), bit_and_step 0 (suc n))

bit_and-zero : (k m : ℕ) → m ≤ k → bit_and m 0 ≡ 0
bit_and-zero k zero below = refl
bit_and-zero zero (suc m) below = absurd (omega arith)
bit_and-zero (suc k) (suc m) below =
    omega (arith, bit_and-zero k (suc m / 2) (omega arith), bit_and_step (suc m) 0)

bit_or-zero : (k a : ℕ) → a ≤ k → bit_or a 0 ≡ a
bit_or-zero k zero h = refl
bit_or-zero zero (suc a) h = absurd (omega arith)
bit_or-zero (suc k) (suc a) h =
    omega (arith, bit_or_step (suc a) 0, bit_or-zero k (suc a / 2) (omega arith))

double_pow : (q k : ℕ) → q * 2 ^ suc k ≡ 2 * (q * 2 ^ k)
double_pow q k = omega (arith, ap (λ (n : ℕ). q * n) (pow-suc 2 k))

pow-pos : (k : ℕ) → 0 < 2 ^ k
pow-pos zero = omega arith
pow-pos (suc k) = omega (arith, pow-suc 2 k, pow-pos k)

-- A mask of `k` ones leaves the low field.
bit_and-fields : (k q r : ℕ) → r < 2 ^ k → bit_and (q * 2 ^ k + r) (2 ^ k - 1) ≡ r
bit_and-fields zero q r h = omega (arith, bit_and-zero (q * 1 + r) (q * 1 + r) (omega arith))
bit_and-fields (suc k) q r h =
    rw (bit_and_step, halves, masks, bit_and-fields k q (r / 2) (omega (arith, pow-suc 2 k)))
      (omega (arith, pow-suc 2 k, pow-pos k, double_pow q k))
  where
    halves : (q * 2 ^ suc k + r) / 2 ≡ q * 2 ^ k + r / 2
    halves = omega (arith, double_pow q k)

    masks : (2 ^ suc k - 1) / 2 ≡ 2 ^ k - 1
    masks = omega (arith, pow-suc 2 k)

-- `&` with a mask of `k` ones is the remainder.
pub bit_and-mask : (k a : ℕ) → bit_and a (2 ^ k - 1) ≡ a % 2 ^ k
bit_and-mask k a = ground (arith, pow-pos k, bit_and-fields k (a / 2 ^ k) (a % 2 ^ k))

-- `&` does not exceed its second argument.
pub bit_and-le : (k a b : ℕ) → b ≤ k → bit_and a b ≤ b
bit_and-le k a zero h = omega (arith, bit_and-zero a a (omega arith))
bit_and-le zero a (suc b) h = absurd (omega arith)
bit_and-le (suc k) a (suc b) h =
    omega (arith, bit_and_step a (suc b), bit_and-le k (a / 2) (suc b / 2) (omega arith))

-- `|` of a multiple of `2 ^ k` and a number below `2 ^ k` is the sum.
pub bit_or-fields : (k q r : ℕ) → r < 2 ^ k → bit_or (q * 2 ^ k) r ≡ q * 2 ^ k + r
bit_or-fields zero q r h = omega (
  arith,
  bit_or-zero (q * 1) (q * 1) (omega arith),
  ap (bit_or (q * 1)) {x = r} {y = 0} (omega arith),
)
bit_or-fields (suc k) q r h =
    rw (bit_or_step, halves, bit_or-fields k q (r / 2) (omega (arith, pow-suc 2 k)))
      (omega (arith, double_pow q k))
  where
    halves : (q * 2 ^ suc k) / 2 ≡ q * 2 ^ k
    halves = omega (arith, double_pow q k)

bit_and_self : (k a : ℕ) → a ≤ k → bit_and a a ≡ a
bit_and_self k zero h = refl
bit_and_self zero (suc a) h = absurd (omega arith)
bit_and_self (suc k) (suc a) h =
    omega (arith, bit_and_step (suc a) (suc a), bit_and_self k (suc a / 2) (omega arith))

-- The usual test for a power of two, `n & (n - 1)`, of a number that passes it.
power_below : (fuel n : ℕ) → n ≤ fuel → 0 < n → bit_and n (n - 1) ≡ 0 → (k : ℕ) × (n ≡ 2 ^ k)
power_below zero n h pos e = absurd (omega arith)
power_below (suc fuel) n h pos e = elim (Bool-cases (n % 2 == 0)) [
  | inl even ↦
      doubled (power_below fuel (n / 2) (ground arith) (ground arith) (halved even))
        ((==_iff _ _).0 even)
  | inr odd ↦ (0, odd_one odd)
]
  where
    halved : (n % 2 == 0) ≡ true → bit_and (n / 2) (n / 2 - 1) ≡ 0
    halved even =
        let r : n % 2 ≡ 0 = (==_iff _ _).0 even in
        let d : (n - 1) / 2 ≡ n / 2 - 1 = omega arith in
        rw (← d) (omega (arith, bit_and_step n (n - 1)))

    odd_one : (n % 2 == 0) ≡ false → n ≡ 2 ^ 0
    odd_one odd =
        let r : n % 2 ≡ 1 = ground arith in
        let d : (n - 1) / 2 ≡ n / 2 = omega arith in
        let z : bit_and (n / 2) ((n - 1) / 2) ≡ 0 = omega (arith, bit_and_step n (n - 1)) in
        omega (arith, ap (bit_and (n / 2)) d, bit_and_self (n / 2) (n / 2) (omega arith))

    doubled : (k : ℕ) × (n / 2 ≡ 2 ^ k) → n % 2 ≡ 0 → (k : ℕ) × (n ≡ 2 ^ k)
    doubled (k, d) even = (suc k, omega (arith, pow-suc 2 k))

-- A positive `n` passes the test `n & (n - 1) == 0` exactly if it is a power of two.
pub power_of_two-test : (n : ℕ) → 0 < n → (bit_and n (n - 1) ≡ 0) ↔ ∥ ((k : ℕ) × (n ≡ 2 ^ k)) ∥₁
power_of_two-test n pos =
    ((λ e. ∣ power_below n n (omega arith) pos e ∣₁), λ p. ∥∥₁_elim p (ℕ_set _ _) masked)
  where
    masked : (k : ℕ) × (n ≡ 2 ^ k) → bit_and n (n - 1) ≡ 0
    masked (k, d) = rw (d, bit_and-mask) (ground (arith, pow-pos k, mod_self (2 ^ k)))

pub bit_or-range : (k a b : ℕ) → a < 2 ^ k → b < 2 ^ k → bit_or a b < 2 ^ k
bit_or-range = range bit_or max bit_or_step (λ a b. omega arith) refl
