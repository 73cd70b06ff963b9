-- ===== src/Memory/Split.antt =====
-- Releasing some of the blocks that are owned, and owning more.
use vnic.Prelude.{
  ℕ, ◌≡◌, refl, ◌∙◌, arith, true, false, ◌||◌, Bool-cases, ◌⊎◌, inl, inr, List, [], ◌∷◌, ◌++◌,
  Option, none, ==_refl, if◌then◌else◌,
}
use vnic.Memory.Heap.{Heap}
use vnic.Memory.Chain.{mem, mem-eq, Distinct, Owns, Holds}

pub mem-append : (q : ℕ) (ps qs : List ℕ) → mem q (ps ++ qs) ≡ (mem q ps || mem q qs)
mem-append q [] qs = refl
mem-append q (p ∷ ps) qs = ground (arith, mem-append q ps qs)

-- No address is in both lists.
abbrev pub Apart : List ℕ → List ℕ → Type 0
Apart ps qs = (q : ℕ) → mem q ps ≡ true → mem q qs ≡ false

pub Distinct-append :
    (ps qs : List ℕ) → Distinct (ps ++ qs) → Distinct ps × Distinct qs × Apart ps qs
Distinct-append [] qs d = (tt, d, λ q e. absurd (cc e))
Distinct-append (p ∷ ps) qs (n, d) =
    let (dp, dq, apart) = Distinct-append ps qs d in
    (
      (ground (arith, n, mem-append p ps qs), dp),
      dq,
      λ q e. ground (arith, n, mem-append p ps qs, mem-eq q p qs, apart q, e),
    )

pub Distinct-join : (ps qs : List ℕ) → Distinct ps → Distinct qs → Apart ps qs → Distinct (ps ++ qs)
Distinct-join [] qs dp dq apart = dq
Distinct-join (p ∷ ps) qs (n, dp) dq apart = (
  ground (arith, n, mem-append p ps qs, apart p, ==_refl p),
  Distinct-join ps qs dp dq (λ q e. apart q (ground (arith, e))),
)

-- The heap without some blocks.
abbrev pub without : List ℕ → Heap → Heap
without ps h q = if mem q ps then none else h q

-- Blocks in the middle of those that are owned can be released: the others are still owned.
pub Owns-middle :
    (as' bs cs : List ℕ) (h0 h : Heap)
    → Owns h0 h (as' ++ (bs ++ cs))
    → Owns (without bs h) h bs × Owns h0 (without bs h) (as' ++ cs)
Owns-middle as' bs cs h0 h o =
    let (da, dr, apart) = Distinct-append as' (bs ++ cs) o.distinct in
    let (db, dc, apart') = Distinct-append bs cs dr in
    (
      record {
        fresh = λ q e. ground (arith, e);
        kept = λ q e. ground (arith, e);
        present = λ q e. o.present q (ground (arith, e, inside q));
        distinct = db;
      },
      record {
        fresh = λ q e. o.fresh q (ground (arith, e, inside q, outside q));
        kept = λ q e. ground (arith, e, outside q, inside q, o.kept q, o.fresh q);
        present = λ q e.
            ground
              (arith, e, outside q, inside q, o.present q, apart q, apart' q, mem-append q bs cs);
        distinct =
            Distinct-join as' cs da dc (λ q e. ground (arith, e, apart q, mem-append q bs cs));
      },
    )
  where
    inside : (q : ℕ) → mem q (as' ++ (bs ++ cs)) ≡ (mem q as' || mem q bs || mem q cs)
    inside q = ground (arith, mem-append q as' (bs ++ cs), mem-append q bs cs)

    outside : (q : ℕ) → mem q (as' ++ cs) ≡ (mem q as' || mem q cs)
    outside q = mem-append q as' cs

-- New blocks join those that are owned.
pub Owns-join :
    (ps qs : List ℕ) (h0 h h' : Heap) → Owns h0 h ps → Owns h h' qs → Owns h0 h' (ps ++ qs)
Owns-join ps qs h0 h h' o n = record {
  fresh = λ q e. ground (arith, e, mem-append q ps qs, o.fresh q, o.kept q, n.fresh q);
  kept = λ q e. ground (arith, e, mem-append q ps qs, o.kept q, n.kept q);
  present = λ q e. ground (arith, e, mem-append q ps qs, o.present q, n.present q, n.kept q);
  distinct = Distinct-join ps qs o.distinct n.distinct (λ q e. apart q e (Bool-cases (mem q qs)));
}
  where
    apart : (q : ℕ) → mem q ps ≡ true → (mem q qs ≡ true) ⊎ (mem q qs ≡ false) → mem q qs ≡ false
    apart q e (inr out) = out
    apart q e (inl in') = absurd (ground (arith, o.present q e, n.fresh q in'))

-- A chain is the same in a heap that has the same blocks of it.
pub Holds-same :
    (ps : List ℕ) (h h' : Heap) (ptr : Option ℕ) (bytes : List ℕ)
    → ((q : ℕ) → mem q ps ≡ true → h' q ≡ h q)
    → Holds h ps ptr bytes
    → Holds h' ps ptr bytes
Holds-same [] h h' ptr bytes same c = c
Holds-same (p ∷ ps) h h' ptr bytes same (at', (b, rest, e, l, d, c)) = (
  at',
  (
    b,
    rest,
    same p (ground (arith, ==_refl p)) ∙ e,
    l,
    d,
    Holds-same ps h h' b.next rest (λ q i. same q (ground (arith, i))) c,
  ),
)
