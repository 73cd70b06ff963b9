-- ===== src/Guard/Tests.antt =====
-- A guard over a counter.
use vnic.Prelude.{ℕ, ◌+◌, ◌≡◌, [], ◌∷◌}
use vnic.Guard.{Use, make, uses, destroy, at_end, destroy-uses}

abbrev count : ℕ → ℕ
count n = n + 1

destroy-uses_example :
    destroy count (uses count (Use.unlocks ∷ Use.unlocks ∷ Use.cancels ∷ []) (make 0))
    ≡ at_end count (Use.unlocks ∷ Use.unlocks ∷ Use.cancels ∷ []) 0
destroy-uses_example = destroy-uses count (Use.unlocks ∷ Use.unlocks ∷ Use.cancels ∷ []) 0
