-- ===== src/Rcu/Tests.antt =====
-- One thread replaces 7 by 9, with a store of 0 in between; then the other looks twice.
use vnic.Prelude.{ℕ, ◌≡◌, refl, List, [], ◌∷◌, All, ◌⊎◌}
use vnic.Rcu.{
  Place, Cell, Run, begin, step, enter_write, store, leave_write, enter_read, look, readers,
  writers, Saw, Run-Saw,
}

abbrev cell : ℕ → List (Place ℕ) → Cell ℕ
cell v threads = record { value = v; published = v; threads = threads }

abbrev quiet : Cell ℕ
quiet = cell 7 (Place.outside ∷ Place.outside ∷ [])

abbrev looking : Cell ℕ
looking = cell 9 (Place.reading (9 ∷ 9 ∷ []) ∷ Place.outside ∷ [])

replaced : Run quiet looking
replaced =
    let writing = step begin (enter_write 1 9 refl refl) in
    let stored = step writing (store 1 9 0 refl) in
    let written = step stored (leave_write 1 9 refl) in
    let reading = step written (enter_read 0 refl refl) in
    let looked = step reading (look 0 [] refl) in step looked (look 0 (9 ∷ []) refl)

Run-Saw_example :
    All (Saw looking.published) looking.threads
    × ((writers looking.threads ≡ 0)
        ⊎ ((writers looking.threads ≡ 1) × (readers looking.threads ≡ 0)))
Run-Saw_example = Run-Saw quiet looking refl refl refl replaced
