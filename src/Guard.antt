-- ===== src/Guard.antt =====
-- include/utils/scoped_guard.h: a callback that runs at the end of a scope.
use vnic.Prelude.{◌≡◌, refl, ◌∙◌, Bool, true, false, not, List, [], ◌∷◌, if◌then◌else◌}
mod Tests

-- `ScopedGuard<T>` of a callback on a state, with the state: `armed` is whether `m_unlockCallback` has
-- a value.
pub record Guard {ℓ} (S : Type ℓ) : Type ℓ where
  pub armed : Bool
  pub state : S

module _ {ℓ} {S : Type ℓ} where
  -- The constructor.
  abbrev pub make : S → Guard S
  make s = record { armed = true; state = s }

  -- `wasUnlocked`
  unfoldable pub was_unlocked : Guard S → Bool
  was_unlocked g = not g.armed

  -- `cancel`
  unfoldable pub cancel : Guard S → Guard S
  cancel g = record g { armed = false }

  -- `unlock`: the callback runs, and the guard is disarmed.
  unfoldable pub unlock : (S → S) → Guard S → Guard S
  unlock callback g =
      if not (was_unlocked g) then cancel (record g { state = callback g.state }) else g

  -- The destructor; the state that is left.
  unfoldable pub destroy : (S → S) → Guard S → S
  destroy callback g = (unlock callback g).state

-- What a scope does with its guard.
pub data Use : Type 0 where
  cancels unlocks : Use

module _ {ℓ} {S : Type ℓ} (callback : S → S) where
  unfoldable pub uses : List Use → Guard S → Guard S
  uses [] g = g
  uses (Use.cancels ∷ us) g = uses us (cancel g)
  uses (Use.unlocks ∷ us) g = uses us (unlock callback g)

  disarmed :
      (us : List Use) (s : S) → destroy callback (uses us (record { armed = false; state = s })) ≡ s
  unfolding uses destroy unlock cancel was_unlocked
  disarmed [] s = refl
  disarmed (Use.cancels ∷ us) s = disarmed us s
  disarmed (Use.unlocks ∷ us) s = disarmed us s

  -- How often the callback has run at the end of the scope: never if the guard was cancelled before
  -- anything else, and otherwise once.
  abbrev pub at_end : List Use → S → S
  at_end (Use.cancels ∷ us) s = s
  at_end _ s = callback s

  -- Whatever a scope does with its guard, at its end the callback has run at most once: once, unless
  -- the first use of the guard was to cancel it.
  pub destroy-uses : (us : List Use) (s : S) → destroy callback (uses us (make s)) ≡ at_end us s
  unfolding uses destroy unlock cancel was_unlocked
  destroy-uses [] s = refl
  destroy-uses (Use.cancels ∷ us) s = disarmed us s
  destroy-uses (Use.unlocks ∷ us) s = disarmed us (callback s)
