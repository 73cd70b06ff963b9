-- ===== src/Net/Wire.antt =====
-- Fields of a header that is loaded from a frame, in terms of the bytes on the wire.
use vnic.Prelude.{
  ℕ, zero, suc, ◌+◌, ◌*◌, ◌<◌, ◌≤◌, ◌≡◌, refl, ap, ◌∙◌, List, [], ◌∷◌, arith, drop, take, get_or,
  All,
}
use vnic.Net.Bytes.{IsBytes, u8, u8_lt, u16, ntohs}

-- A 16-bit field in network order.
abbrev pub wire16 : List ℕ → ℕ → ℕ
wire16 frame i = 256 * u8 frame i + u8 frame (i + 1)

-- A field of a loaded header is a byte of the frame.
pub get_or-take : (n i : ℕ) (xs : List ℕ) → i < n → get_or (take n xs) i 0 ≡ get_or xs i 0
get_or-take zero i xs h = absurd (omega arith)
get_or-take (suc n) i [] h = refl
get_or-take (suc n) zero (x ∷ xs) h = refl
get_or-take (suc n) (suc i) (x ∷ xs) h = get_or-take n i xs (omega arith)

get_or-drop : (o i : ℕ) (xs : List ℕ) → get_or (drop o xs) i 0 ≡ get_or xs (o + i) 0
get_or-drop zero i xs = ap (λ k. get_or xs k 0) (omega arith)
get_or-drop (suc o) i [] = refl
get_or-drop (suc o) i (x ∷ xs) =
    get_or-drop o i xs ∙ ap (λ k. get_or (x ∷ xs) k 0) {x = suc (o + i)} (omega arith)

pub field :
    (n o i : ℕ) (xs : List ℕ) → i < n → get_or (take n (drop o xs)) i 0 ≡ get_or xs (o + i) 0
field n o i xs h = get_or-take n i (drop o xs) h ∙ get_or-drop o i xs

pub first : (n o : ℕ) (xs : List ℕ) → 0 < n → get_or (take n (drop o xs)) 0 0 ≡ get_or xs o 0
first n o xs h = field n o 0 xs h ∙ ap (λ k. get_or xs k 0) {x = o + 0} (omega arith)

ntohs-u16 : (a b : ℕ) → a < 256 → b < 256 → ntohs (a + 256 * b) ≡ 256 * a + b
unfolding ntohs
ntohs-u16 a b h k = omega arith

-- `ntohs` of a loaded 16-bit field.
pub ntohs-field :
    (n o i : ℕ) (xs : List ℕ)
    → i + 1 < n
    → IsBytes xs
    → ntohs (u16 (take n (drop o xs)) i) ≡ wire16 xs (o + i)
ntohs-field n o i xs h k =
    rw (field n o i xs (omega arith), field n o (i + 1) xs h)
      (ntohs-u16 _ _ (u8_lt xs (o + i) k) (u8_lt xs (o + (i + 1)) k)
        ∙ ap (λ j. 256 * u8 xs (o + i) + u8 xs j) {x = o + (i + 1)} (omega arith))

pub All-take {ℓ κ} :
    {A : Type ℓ} (P : A → Type κ) (n : ℕ) (xs : List A) → All P xs → All P (take n xs)
All-take P zero xs h = tt
All-take P (suc n) [] h = tt
All-take P (suc n) (x ∷ xs) h = (h.0, All-take P n xs h.1)

pub All-drop {ℓ κ} :
    {A : Type ℓ} (P : A → Type κ) (n : ℕ) (xs : List A) → All P xs → All P (drop n xs)
All-drop P zero xs h = h
All-drop P (suc n) [] h = tt
All-drop P (suc n) (x ∷ xs) h = All-drop P n xs h.1

pub take-take {ℓ} : {A : Type ℓ} (n m : ℕ) (xs : List A) → n ≤ m → take n (take m xs) ≡ take n xs
take-take zero m xs h = refl
take-take (suc n) zero xs h = absurd (omega arith)
take-take (suc n) (suc m) [] h = refl
take-take (suc n) (suc m) (x ∷ xs) h = ap (◌∷◌ x) (take-take n m xs (omega arith))
