-- ===== src/Port/Reta.antt =====
-- The redirection table that `updateReta` puts in force, and its look-ups.
use vnic.Prelude.{
  ℕ, zero, suc, ◌-◌, ◌<◌, ◌≡◌, refl, arith, true, false, Bool-cases, inl, inr, List, [], ◌∷◌,
  Returns, length, get_or, get_elem?-some, All, leb, ◌==◌, ==_iff, ◌^◌, bit_and,
}
use vnic.Bits.Laws.{bit_and-le, power_of_two-test}
use vnic.ErrorCode.{ErrorCode}
use vnic.Port.Config.{passes_mask, all_queues}
use vnic.Port.Table.{lookup}

-- What `updateReta` documents: there is an entry, the size is a power of two, and every entry names a
-- queue.
pub record IsTable (count : ℕ) (reta : List ℕ) : Type 0 where
  pub nonempty : 0 < length reta
  pub power : ∥ ((k : ℕ) × (length reta ≡ 2 ^ k)) ∥₁
  pub entries : All (λ k. k < count) reta

-- The test of the code against the powers of two.
passes_mask-power :
    (size : ℕ) → 0 < size → ∥ ((k : ℕ) × (size ≡ 2 ^ k)) ∥₁ → passes_mask size ≡ true
passes_mask-power size pos p = (==_iff _ _).1 ((power_of_two-test size pos).1 p)

pub power-passes_mask :
    (size : ℕ) → 0 < size → passes_mask size ≡ true → ∥ ((k : ℕ) × (size ≡ 2 ^ k)) ∥₁
power-passes_mask size pos e = (power_of_two-test size pos).0 ((==_iff _ _).0 e)

pub all_queues-All :
    (reta : List ℕ) (count : ℕ) → all_queues reta count ≡ true → All (λ k. k < count) reta
unfolding all_queues
all_queues-All [] count h = tt
all_queues-All (k ∷ reta) count h = elim (Bool-cases (leb count k)) [
  | inl out ↦ absurd (ground arith)
  | inr inside ↦ (ground arith, all_queues-All reta count (ground arith))
]

get_or-All :
    (reta : List ℕ) (count i : ℕ)
    → All (λ k. k < count) reta
    → i < length reta
    → get_or reta i 0 < count
get_or-All [] count i a h = absurd (omega arith)
get_or-All (k ∷ reta) count zero a h = a.0
get_or-All (k ∷ reta) count (suc i) a h = get_or-All reta count i a.1 (omega arith)

-- The lookup of any hash in a table is defined, and names a queue.
pub lookup-IsTable :
    (reta : List ℕ) (count hash : ℕ)
    → IsTable count reta
    → Returns (λ k. k < count) (lookup reta hash)
unfolding lookup
lookup-IsTable reta count hash t =
    rw
      (
        full,
        passes_mask-power (length reta) t.nonempty t.power,
        get_elem?-some reta (bit_and hash (length reta - 1)) 0 inside,
      )
      (get_or-All reta count (bit_and hash (length reta - 1)) t.entries inside)
  where
    full : (length reta == 0) ≡ false
    full = ground (arith, t.nonempty)

    inside : bit_and hash (length reta - 1) < length reta
    inside =
        omega (arith, t.nonempty, bit_and-le (length reta - 1) hash (length reta - 1) (omega arith))

pub All-all_queues :
    (reta : List ℕ) (count : ℕ) → All (λ k. k < count) reta → all_queues reta count ≡ true
unfolding all_queues
All-all_queues [] count a = refl
All-all_queues (k ∷ reta) count a = ground (arith, All-all_queues reta count)
