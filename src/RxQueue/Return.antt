-- ===== src/RxQueue/Return.antt =====
-- Packets leave a receive queue: `take`, `free` and `stopImpl` against the ledger.
use vnic.Prelude.{
  ℕ, ◌+◌, ◌-◌, ◌%◌, ◌^◌, ◌≤◌, ◌≡◌, refl, ◌∙◌, ap, sym, arith, true, List, [], ◌∷◌, ◌++◌, some,
  length, take, drop, zero, suc, length-append, take-append-drop, All, All-append,
}
use mathlib.Core.Path.{subst}
use mathlib.Core.List.{append_assoc}
use vnic.Memory.Heap.{Heap}
use vnic.Memory.Pool.{Pool}
use vnic.Memory.Chain.{mem, Owns, released}
use vnic.Memory.Split.{mem-append, Apart, Distinct-append, without, Owns-middle}
use vnic.Fifo.Laws.{try_pop_some-take}
use vnic.RxQueue.Queue.{RxQueue, max_segments, free, drain, stop_impl, release_all}
use vnic.RxQueue.Queue
use vnic.RxQueue.Segments.{IsLive}
use vnic.RxQueue.Ledger.{
  Entry, descs, blocks, IsStored, IsShort, blocks-append, All-IsStored, release_all-Owns,
}
use vnic.RxQueue.Account.{IsLedger}

pub descs-take : (n : ℕ) (es : List Entry) → take n (descs es) ≡ descs (take n es)
descs-take zero es = refl
descs-take (suc n) [] = refl
descs-take (suc n) (e ∷ es) = ap (◌∷◌ e.desc) (descs-take n es)

pub descs-drop : (n : ℕ) (es : List Entry) → drop n (descs es) ≡ descs (drop n es)
descs-drop zero es = refl
descs-drop (suc n) [] = refl
descs-drop (suc n) (e ∷ es) = descs-drop n es

take_lem :
    (q : RxQueue)
    → Queue.take q ≡ (
      record q { used = record (q.used) { queue = drop max_segments q.used.queue } },
      take max_segments q.used.queue,
    )
unfolding vnic.RxQueue.Queue.take
take_lem q = ap (λ r. (record q { used = r.0 }, r.1)) (try_pop_some-take max_segments q.used)

-- `take` hands over the packets that have waited longest, up to 512 of them, in the order in which
-- they were put and with the bytes that were put; the others keep waiting.
pub take-IsLedger :
    (size : ℕ) (h0 : Heap) (q : RxQueue) (h : Heap) (lent used : List Entry)
    → IsLedger size h0 q h lent used
    → let (q', taken) = Queue.take q in
      (taken ≡ descs (take 512 used))
      × IsLedger size h0 q' h (lent ++ take 512 used) (drop 512 used)
take-IsLedger size h0 q h lent used l = rw (take_lem q) (
  ap (take 512) l.queued ∙ descs-take 512 used,
  record {
    queued = ap (drop 512) l.queued ∙ descs-drop 512 used;
    stored = subst (All (IsStored h)) same l.stored;
    short = subst (All (IsShort max_segments)) same l.short;
    owned = subst (λ es. Owns h0 h (blocks es)) same l.owned;
    live = subst (λ es. IsLive 0 (length (blocks es)) q.pool) same l.live;
    count = subst (λ es. length q.free.queue + length es ≡ size) same l.count;
    capacity = l.capacity;
  },
)
  where
    same : lent ++ used ≡ (lent ++ take 512 used) ++ drop 512 used
    same =
        ap (◌++◌ lent) (sym (take-append-drop 512 used))
        ∙ sym (append_assoc lent (take 512 used) (drop 512 used))

All-split {ℓ κ} :
    {A : Type ℓ} (P : A → Type κ) (xs ys : List A) → All P (xs ++ ys) → All P xs × All P ys
All-split P [] ys a = (tt, a)
All-split P (x ∷ xs) ys (p, a) = let (px, py) = All-split P xs ys a in ((p, px), py)

released-IsLive : (n k : ℕ) (pool : Pool) → IsLive 0 (n + k) pool → IsLive 0 k (released n pool)
released-IsLive zero k pool l = omega (arith, l)
released-IsLive (suc n) k pool l =
    released-IsLive n k (record pool { live = (pool.live + 2 ^ 64 - 1) % 2 ^ 64 })
      (omega (arith, l))

-- Entries that are stored in blocks that nobody else has, and that the pool counts.
pub record IsHeld (h0 h : Heap) (pool : Pool) (es : List Entry) : Type 0 where
  pub stored : All (IsStored h) es
  pub short : All (IsShort max_segments) es
  pub owned : Owns h0 h (blocks es)
  pub live : IsLive 0 (length (blocks es)) pool

All-IsShort :
    (fuel : ℕ) (es : List Entry)
    → max_segments ≤ fuel
    → All (IsShort max_segments) es
    → All (IsShort fuel) es
All-IsShort fuel [] f s = tt
All-IsShort fuel (e ∷ es) f (s, ss) = (omega (arith, s, f), All-IsShort fuel es f ss)

-- The release of some entries leaves the others as they were.
module _ (as' bs cs : List Entry) (h0 h : Heap) (pool : Pool) (fuel : ℕ) where
  abbrev pub heap_after : Heap
  heap_after = without (blocks bs) h

  abbrev pub pool_after : Pool
  pool_after = released (length (blocks bs)) pool

  regroup : blocks (as' ++ (bs ++ cs)) ≡ blocks as' ++ (blocks bs ++ blocks cs)
  regroup = blocks-append as' (bs ++ cs) ∙ ap (◌++◌ (blocks as')) (blocks-append bs cs)

  pub release_middle :
      IsHeld h0 h pool (as' ++ (bs ++ cs))
      → max_segments ≤ fuel
      → (release_all fuel (descs bs) pool h ≡ some (pool_after, heap_after))
        × IsHeld h0 heap_after pool_after (as' ++ cs)
  release_middle l f =
      let owned = subst (Owns h0 h) regroup l.owned in
      let (gone, left) = Owns-middle (blocks as') (blocks bs) (blocks cs) h0 h owned in
      let (sa, sr) = All-split (IsStored h) as' (bs ++ cs) l.stored in
      let (sb, sc) = All-split (IsStored h) bs cs sr in
      let (fa, fr) = All-split (IsShort max_segments) as' (bs ++ cs) l.short in
      let (fb, fc) = All-split (IsShort max_segments) bs cs fr in
      let apart = Distinct-append (blocks as') (blocks bs ++ blocks cs) owned.distinct in
      let apart' = Distinct-append (blocks bs) (blocks cs) apart.1 in
      (
        release_all-Owns bs fuel pool heap_after h gone sb (All-IsShort fuel bs f fb),
        record {
          stored =
              All-append (IsStored heap_after) as' cs
                (All-IsStored as' h heap_after (λ q e. first q e apart.2) sa)
                (All-IsStored cs h heap_after (λ q e. second q e apart'.2) sc);
          short = All-append (IsShort max_segments) as' cs fa fc;
          owned = subst (Owns h0 heap_after) (sym (blocks-append as' cs)) left;
          live = released-IsLive (length (blocks bs)) _ pool (
              omega (
                arith,
                l.live,
                ap length regroup,
                length-append (blocks as') (blocks bs ++ blocks cs),
                length-append (blocks bs) (blocks cs),
                ap length (blocks-append as' cs),
                length-append (blocks as') (blocks cs),
              ));
        },
      )
    where
      first :
          (q : ℕ)
          → mem q (blocks as') ≡ true
          → Apart (blocks as') (blocks bs ++ blocks cs)
          → heap_after q ≡ h q
      first q e a = ground (arith, a q e, mem-append q (blocks bs) (blocks cs))

      second :
          (q : ℕ) → mem q (blocks cs) ≡ true → Apart (blocks bs) (blocks cs) → heap_after q ≡ h q
      second q e a = ground (arith, e, a q)
