-- ===== src/Sample/Checksum.antt =====
-- `ComputeChecksum` of examples/common.h against the sum of RFC 1071.
use vnic.Prelude.{
  ℕ, ◌+◌, ◌-◌, ◌*◌, ◌%◌, ◌^◌, ◌≤◌, ◌<◌, ◌≡◌, refl, ◌∙◌, ap, arith, true, List, [], ◌∷◌, ◌++◌,
  length, Returns, Returns->>=, Returns-mono,
}
use native.Mathlib.Nat.{zero-add}
use vnic.Net.Bytes.{IsBytes}
use vnic.Validate.Checksum.{fold_carries, is_ones_complement_zero}
use vnic.Net.Layout.{le16}
use vnic.Sample.Udp.{sum_words, compute_checksum}

-- The sum of the words of an object in host order, and in network order.
abbrev pub host_sum : List ℕ → ℕ
host_sum [] = 0
host_sum (b ∷ []) = b
host_sum (a ∷ b ∷ bytes) = a + 256 * b + host_sum bytes

abbrev pub network_sum : List ℕ → ℕ
network_sum [] = 0
network_sum (b ∷ []) = 256 * b
network_sum (a ∷ b ∷ bytes) = 256 * a + b + network_sum bytes

abbrev odd_sum : List ℕ → ℕ
odd_sum [] = 0
odd_sum (b ∷ []) = 0
odd_sum (a ∷ b ∷ bytes) = b + odd_sum bytes

-- In one's complement the byte order does not matter.
network_sum-host_sum :
    (bytes : List ℕ) → network_sum bytes + 65535 * odd_sum bytes ≡ 256 * host_sum bytes
network_sum-host_sum [] = refl
network_sum-host_sum (b ∷ []) = omega arith
network_sum-host_sum (a ∷ b ∷ bytes) = omega (arith, network_sum-host_sum bytes)

sum_words-host_sum :
    (bytes : List ℕ) (sum : ℕ)
    → IsBytes bytes
    → sum + 65536 * length bytes < 2 ^ 32
    → sum_words bytes sum ≡ sum + host_sum bytes
unfolding sum_words
sum_words-host_sum [] sum i h = omega arith
sum_words-host_sum (b ∷ []) sum i h = omega (arith, i.0, h)
sum_words-host_sum (a ∷ b ∷ bytes) sum (i, (j, k)) h =
    let no_wrap : (sum + (a + 256 * b)) % 2 ^ 32 ≡ sum + (a + 256 * b) = omega (arith, i, j, h) in
    rw no_wrap
      (sum_words-host_sum bytes (sum + (a + 256 * b)) k (omega (arith, i, j, h)) ∙ omega arith)

host_sum_lt : (bytes : List ℕ) → IsBytes bytes → host_sum bytes ≤ 65536 * length bytes
host_sum_lt [] i = omega arith
host_sum_lt (b ∷ []) i = omega (arith, i.0)
host_sum_lt (a ∷ b ∷ bytes) (i, (j, k)) = omega (arith, i, j, host_sum_lt bytes k)

-- The checksum completes the sum.
abbrev pub Completes : List ℕ → ℕ → Type 0
Completes bytes c = (c < 65536) × ((host_sum bytes + c) % 65535 ≡ 0) × (0 < host_sum bytes + c)

completed :
    (sum : ℕ)
    → sum < 2 ^ 32
    → Returns
        (λ f.
          (65535 - f % 65536 < 65536)
          × ((sum + (65535 - f % 65536)) % 65535 ≡ 0)
          × (0 < sum + (65535 - f % 65536)))
        (fold_carries 3 sum)
unfolding fold_carries
completed sum h = ground arith

compute_checksum-Completes :
    (bytes : List ℕ)
    → IsBytes bytes
    → length bytes < 65536
    → Returns (Completes bytes) (compute_checksum bytes)
unfolding compute_checksum
compute_checksum-Completes bytes i h =
    let small : host_sum bytes < 2 ^ 32 = omega (arith, h, host_sum_lt bytes i) in
    rw
      (compute_checksum, sum_words-host_sum bytes 0 i (omega (arith, h)), zero-add (host_sum bytes))
      (Returns->>= _ (Completes bytes) (fold_carries 3 (host_sum bytes)) _
        (completed (host_sum bytes) small) (λ f post. post))

-- The checksum in its place, at an even offset.
host_sum-le16 :
    (xs ys : List ℕ) (c : ℕ)
    → c < 65536
    → length xs % 2 ≡ 0
    → host_sum (xs ++ (le16 c ++ ys)) ≡ host_sum (xs ++ (le16 0 ++ ys)) + c
host_sum-le16 [] ys c h e = omega (arith, h)
host_sum-le16 (a ∷ []) ys c h e = absurd (omega (arith, e))
host_sum-le16 (a ∷ b ∷ xs) ys c h e = omega (arith, host_sum-le16 xs ys c h (omega (arith, e)))

host_sum_le : (bytes : List ℕ) → host_sum bytes ≤ 256 * network_sum bytes
host_sum_le [] = omega arith
host_sum_le (b ∷ []) = omega arith
host_sum_le (a ∷ b ∷ bytes) = omega (arith, host_sum_le bytes)

network_zero :
    (bytes : List ℕ)
    → host_sum bytes % 65535 ≡ 0
    → 0 < host_sum bytes
    → is_ones_complement_zero (network_sum bytes) ≡ true
unfolding is_ones_complement_zero
network_zero bytes z p = ground (arith, network_sum-host_sum bytes, host_sum_le bytes)

-- `ComputeChecksum` is defined for an object of bytes below 64 KiB; stored at an even offset of the
-- object, where two zeros stood, its value completes the words of the object to zero in one's
-- complement, read in network order, although the code adds them in host order.
pub compute_checksum_lem :
    (xs ys : List ℕ)
    → IsBytes (xs ++ (le16 0 ++ ys))
    → length (xs ++ (le16 0 ++ ys)) < 65536
    → length xs % 2 ≡ 0
    → Returns
        (λ c. (c < 65536) × (is_ones_complement_zero (network_sum (xs ++ (le16 c ++ ys))) ≡ true))
        (compute_checksum (xs ++ (le16 0 ++ ys)))
compute_checksum_lem xs ys i h e =
    Returns-mono _ _ (compute_checksum (xs ++ (le16 0 ++ ys)))
      (compute_checksum-Completes (xs ++ (le16 0 ++ ys)) i h)
      (λ c post. (
        post.0,
        network_zero (xs ++ (le16 c ++ ys))
            (ap (λ s. s % 65535) (host_sum-le16 xs ys c post.0 e) ∙ post.1)
            (omega (arith, host_sum-le16 xs ys c post.0 e, post.2)),
      ))
