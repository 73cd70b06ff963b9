-- ===== src/Memory/Exchange.antt =====
-- Some of the blocks that are owned give way to others.
use vnic.Prelude.{ℕ, ◌≡◌, arith, true, false, ◌||◌, Bool-cases, inl, inr, List, ◌++◌}
use vnic.Memory.Heap.{Heap}
use vnic.Memory.Chain.{mem, Owns}
use vnic.Memory.Split.{mem-append, Distinct-append, Distinct-join, without, Owns-middle}

module _ (as' bs cs ds : List ℕ) (h0 h h' : Heap) (o : Owns h0 h (as' ++ (bs ++ cs)))
    (n : Owns (without bs h) h' ds) where
  abbrev left : Owns h0 (without bs h) (as' ++ cs)
  left = (Owns-middle as' bs cs h0 h o).1

  inside : (q : ℕ) → mem q (as' ++ (ds ++ cs)) ≡ (mem q as' || mem q ds || mem q cs)
  inside q = ground (arith, mem-append q as' (ds ++ cs), mem-append q ds cs)

  outside : (q : ℕ) → mem q (as' ++ cs) ≡ (mem q as' || mem q cs)
  outside q = mem-append q as' cs

  -- The others are not among the new ones.
  apart_new : (q : ℕ) → mem q (as' ++ cs) ≡ true → mem q ds ≡ false
  apart_new q e = elim (Bool-cases (mem q ds)) [
    | inr out ↦ out
    | inl in' ↦ absurd (ground (arith, left.present q e, n.fresh q in'))
  ]

  pub exchanged : Owns h0 h' (as' ++ (ds ++ cs))
  exchanged =
      let apart = Distinct-append as' cs left.distinct in
      record {
        fresh = λ q e. ground (arith, e, inside q, outside q, left.fresh q, left.kept q, n.fresh q);
        kept = λ q e. ground (arith, e, inside q, outside q, left.kept q, n.kept q);
        present = λ q e.
            ground
              (arith, e, inside q, outside q, left.present q, n.present q, n.kept q, apart_new q);
        distinct =
            Distinct-join as' (ds ++ cs) apart.0
              (Distinct-join ds cs n.distinct apart.1
                (λ q e. ground (arith, e, outside q, apart_new q)))
              (λ q e. ground (arith, e, outside q, apart_new q, apart.2 q, mem-append q ds cs));
      }

  -- The others are as they were.
  pub untouched : (q : ℕ) → mem q (as' ++ (bs ++ cs)) ≡ true → mem q bs ≡ false → h' q ≡ h q
  untouched q e f = ground (
    arith,
    e,
    f,
    outside q,
    apart_new q,
    n.kept q,
    mem-append q as' (bs ++ cs),
    mem-append q bs cs,
  )
