-- ===== src/Prelude.antt =====
-- The names that the other modules share: the libraries', passed on, and those of the children.
-- Undefined behaviour of the C++ (a read outside an object, a read through a dangling pointer) is
-- the `none` of an `Option`, and `do` runs in that monad.
mod Tests
mod Lists
pub use Tests.*
pub use Lists.*
pub use Prim.Native.Nat.{
  ℕ, zero, suc, ◌+◌, ◌-◌, ◌*◌, ◌/◌, ◌%◌, ◌^◌, ◌≤◌, ◌<◌, min, max, bit_and, bit_or, bit_xor,
}
pub use mathlib.Core.Path.{◌≡◌, refl, sym, ap, ap₂, ◌∙◌}
pub use mathlib.Core.Logic.{◌≢◌, ◌↔◌, ◌⊎◌, inl, inr}
pub use mathlib.Core.Bool.{Bool, true, false, not, ◌&&◌, ◌||◌}
pub use mathlib.Core.Option.{Option, none, some}
pub use mathlib.Core.List.{List, [], ◌∷◌, ◌++◌, map}
pub use native.Mathlib.Omega.{arith}

infixl 5 ◌>>=◌
abbrev pub ◌>>=◌ {ℓ κ} : {A : Type ℓ} {B : Type κ} → Option A → (A → Option B) → Option B
none >>= f = none
some a >>= f = f a

-- The call is defined, and its result satisfies `P`.
abbrev pub Returns {ℓ} : {A : Type ℓ} → (A → Type 0) → Option A → Type 0
Returns P none = ⊥
Returns P (some a) = P a

abbrev pub is_some {ℓ} : {A : Type ℓ} → Option A → Bool
is_some none = false
is_some (some a) = true

pub Returns->>= {ℓ κ} :
    {A : Type ℓ} {B : Type κ} (P : A → Type 0) (Q : B → Type 0) (o : Option A) (f : A → Option B)
    → Returns P o
    → ((a : A) → P a → Returns Q (f a))
    → Returns Q (o >>= f)
Returns->>= P Q none f h k = elim h [ ]
Returns->>= P Q (some a) f h k = k a h

pub Returns-both {ℓ} :
    {A : Type ℓ} (P Q : A → Type 0) (o : Option A)
    → Returns P o
    → Returns Q o
    → Returns (λ a. P a × Q a) o
Returns-both P Q none h k = h
Returns-both P Q (some a) h k = (h, k)

pub Returns-mono {ℓ} :
    {A : Type ℓ} (P Q : A → Type 0) (o : Option A)
    → Returns P o
    → ((a : A) → P a → Q a)
    → Returns Q o
Returns-mono P Q none h k = h
Returns-mono P Q (some a) h k = k a h
