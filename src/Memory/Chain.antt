-- ===== src/Memory/Chain.antt =====
-- Chains of packet buffers: lists of addresses linked by `next`.
use mathlib.Core.Path.{fun_ext}
use vnic.Prelude.{
  ℕ, zero, suc, ◌+◌, ◌-◌, ◌%◌, ◌^◌, ◌≤◌, ◌≡◌, refl, ◌∙◌, ap, arith, Bool, true, false, ◌||◌, List,
  [], ◌∷◌, ◌++◌, Option, none, some, is_some, ◌>>=◌, length, ◌==◌, ==_iff, ==_refl,
}
use vnic.Memory.Heap.{Heap, PacketBuffer, update}
use vnic.Memory.Pool.{Pool, deallocate}

abbrev pub mem : ℕ → List ℕ → Bool
mem q [] = false
mem q (p ∷ ps) = q == p || mem q ps

-- No address twice.
abbrev pub Distinct : List ℕ → Type 0
Distinct [] = Unit
Distinct (p ∷ ps) = (mem p ps ≡ false) × Distinct ps

-- `ps` are the blocks that `h` has and `h0` has not; the others are as in `h0`.
pub record Owns (h0 h : Heap) (ps : List ℕ) : Type 0 where
  pub fresh : (q : ℕ) → mem q ps ≡ true → h0 q ≡ none
  pub kept : (q : ℕ) → mem q ps ≡ false → h q ≡ h0 q
  pub present : (q : ℕ) → mem q ps ≡ true → is_some (h q) ≡ true
  pub distinct : Distinct ps

-- `deallocate` of each of some blocks, in order.
unfoldable pub deallocate_all : List ℕ → Pool → Heap → Option (Pool × Heap)
deallocate_all [] pool h = some (pool, h)
deallocate_all (p ∷ ps) pool h = do r ← deallocate p pool h; deallocate_all ps r.0 r.1

-- `live_` after `n` releases.
abbrev pub released : ℕ → Pool → Pool
released zero pool = pool
released (suc n) pool = released n (record pool { live = (pool.live + 2 ^ 64 - 1) % 2 ^ 64 })

pub mem-eq : (q p : ℕ) (ps : List ℕ) → (q == p) ≡ true → mem q ps ≡ mem p ps
mem-eq q p ps e = ap (λ k. mem k ps) ((==_iff q p).0 e)

-- The first of some owned blocks goes.
Owns-tail : (p : ℕ) (ps : List ℕ) (h0 h : Heap) → Owns h0 h (p ∷ ps) → Owns h0 (update p none h) ps
Owns-tail p ps h0 h o = record {
  fresh = λ q e. o.fresh q (ground arith);
  kept = λ q e. ground (arith, o.fresh q, o.kept q);
  present = λ q e. ground (arith, o.present q, mem-eq q p ps);
  distinct = o.distinct.1;
}

-- Releasing owned blocks is defined and gives back the heap before them.
pub deallocate_all-Owns :
    (ps : List ℕ) (pool : Pool) (h0 h : Heap)
    → Owns h0 h ps
    → deallocate_all ps pool h ≡ some (released (length ps) pool, h0)
unfolding deallocate_all deallocate
deallocate_all-Owns [] pool h0 h o = ap (λ g. some (pool, g)) (fun_ext (λ q. o.kept q refl))
deallocate_all-Owns (p ∷ ps) pool h0 h o =
    rw (o.present p (ground (arith, ==_refl p)))
      (deallocate_all-Owns ps _ h0 (update p none h) (Owns-tail p ps h0 h o))

-- A new block joins the ones that are allocated after it.
pub Owns-cons :
    (p : ℕ) (ps : List ℕ) (b : PacketBuffer) (h0 h : Heap)
    → h0 p ≡ none
    → Owns (update p (some b) h0) h ps
    → Owns h0 h (p ∷ ps)
Owns-cons p ps b h0 h n o = record {
  fresh = λ q e. ground (arith, o.fresh q, at_p q);
  kept = λ q e. ground (arith, o.kept q);
  present = λ q e. ground (arith, o.kept q, o.present q);
  distinct = (ground (arith, o.fresh p, ==_refl p), o.distinct);
}
  where
    at_p : (q : ℕ) → (q == p) ≡ true → h0 q ≡ none
    at_p q e = ap h0 ((==_iff q p).0 e) ∙ n

-- From `ptr` on, `PacketBuffer::next` links the blocks `ps`, in order, to `nullptr`, and their
-- payloads, of the lengths that they tell, are `bytes`.
abbrev pub Holds : Heap → List ℕ → Option ℕ → List ℕ → Type 0
Holds h [] ptr bytes = (ptr ≡ none) × (bytes ≡ [])
Holds h (p ∷ ps) ptr bytes =
    (ptr ≡ some p)
    × ((b : PacketBuffer) × (rest : List ℕ) × (h p ≡ some b)
        × (b.length ≡ length b.payload)
        × (bytes ≡ b.payload ++ rest)
        × Holds h ps b.next rest)

-- The loop of `releaseChain`: `next` is read before the block is released. Out of fuel is `none`.
unfoldable pub release_chain : ℕ → Option ℕ → Pool → Heap → Option (Pool × Heap)
release_chain fuel none pool h = some (pool, h)
release_chain zero (some p) pool h = none
release_chain (suc fuel) (some p) pool h = do
  segment ← h p
  r ← deallocate p pool h
  release_chain fuel segment.next r.0 r.1

-- Releasing another block leaves a chain alone.
Holds-update :
    (p : ℕ) (ps : List ℕ) (h : Heap) (ptr : Option ℕ) (bytes : List ℕ)
    → mem p ps ≡ false
    → Holds h ps ptr bytes
    → Holds (update p none h) ps ptr bytes
Holds-update p [] h ptr bytes n c = c
Holds-update p (q ∷ ps) h ptr bytes n (at', (b, rest, e, l, d, c)) = (
  at',
  (
    b,
    rest,
    ground (arith, ==_iff p q, ==_iff q p),
    l,
    d,
    Holds-update p ps h b.next rest (ground arith) c,
  ),
)

-- Following a chain releases its blocks, in order.
pub release_chain-Holds :
    (ps : List ℕ) (fuel : ℕ) (ptr : Option ℕ) (bytes : List ℕ) (pool : Pool) (h : Heap)
    → Holds h ps ptr bytes
    → Distinct ps
    → length ps ≤ fuel
    → release_chain fuel ptr pool h ≡ deallocate_all ps pool h
unfolding release_chain deallocate_all deallocate
release_chain-Holds [] fuel ptr bytes pool h c d f = rw (c.0) refl
release_chain-Holds (p ∷ ps) zero ptr bytes pool h c d f = absurd (omega arith)
release_chain-Holds (p ∷ ps) (suc fuel) ptr bytes pool h (at', (b, rest, e, l, s, c)) d f =
    rw (at', e)
      (release_chain-Holds ps fuel b.next rest _ (update p none h)
        (Holds-update p ps h b.next rest d.0 c) d.1 (omega arith))
