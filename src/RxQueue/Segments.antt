-- ===== src/RxQueue/Segments.antt =====
-- What the loops of `RxQueue::put` do: the blocks that are allocated, and the chain that is filled.
use vnic.Prelude.{
  ℕ, zero, suc, ◌+◌, ◌-◌, ◌*◌, ◌%◌, ◌^◌, ◌≤◌, ◌≡◌, refl, ◌∙◌, sym, ap, min, arith, Option-cases,
  Option, Bool-cases, inl, inr, true, false, List, [], ◌∷◌, ◌++◌, none, some, is_some, Returns,
  Returns-mono, length, take, drop, ==_refl, take-append-drop, drop-drop, drop_all, length-take,
  length-drop,
}
use mathlib.Core.List.{head?}
use vnic.ErrorCode.{ErrorCode, Status, unexpected, done}
use vnic.Net.Bytes.{read_bytes_inside}
use vnic.Memory.Heap.{Heap, Malloc, PacketBuffer, store, update, raw_buffer, fits, size_of}
use vnic.Memory.Pool.{Pool, allocate}
use vnic.Memory.Chain.{mem, Distinct, Holds, Owns, Owns-cons}
use vnic.RxQueue.Queue.{allocate_segments, fill_segments, packet_buffer_size, block_size}

-- The pool counts the blocks that it has lent, on 64 bits.
abbrev pub IsLive : ℕ → ℕ → Pool → Type 0
IsLive live n pool = pool.live ≡ (live + n) % 2 ^ 64

-- Each block has room for a full segment.
abbrev pub HasRoom : Heap → List ℕ → Type 0
HasRoom h ps = (q : ℕ) → mem q ps ≡ true → fits packet_buffer_size (h q) ≡ true

abbrev pub Allocated : Heap → ℕ → ℕ → Pool × Heap × List ℕ × Status → Type 0
Allocated h live n (pool, h1, ps, s) =
    Owns h h1 ps
    × IsLive live (length ps) pool
    × (s ≡ done → length ps ≡ n)
    × HasRoom h1 ps
    × (length ps ≤ n)

pub Owns-nil : (h : Heap) → Owns h h []
Owns-nil h = record {
  fresh = λ q e. absurd (ground arith);
  kept = λ q e. refl;
  present = λ q e. absurd (ground arith);
  distinct = tt;
}

-- The pool after one block is lent.
abbrev pub lent : Pool → Pool
lent pool = record pool { live = (pool.live + 1) % 2 ^ 64; total = (pool.total + 1) % 2 ^ 64 }

segments_none :
    (m : Malloc) (n : ℕ) (pool : Pool) (h : Heap)
    → m.malloc block_size h ≡ none
    → allocate_segments m (suc n) pool h ≡ (pool, h, [], unexpected ErrorCode.memory_pool_exhausted)
unfolding allocate_segments allocate
segments_none m n pool h e = ground arith

pub segments_some :
    (m : Malloc) (n : ℕ) (pool : Pool) (h : Heap) (p : ℕ)
    → m.malloc block_size h ≡ some p
    → let (pool2, h2, ps, s) =
        allocate_segments m n (lent pool) (update p (some (raw_buffer block_size)) h) in
      allocate_segments m (suc n) pool h ≡ (pool2, h2, p ∷ ps, s)
unfolding allocate_segments allocate
segments_some m n pool h p e = ground arith

-- A new block and the ones after it.
HasRoom-cons :
    (p : ℕ) (ps : List ℕ) (h h1 : Heap)
    → Owns (update p (some (raw_buffer block_size)) h) h1 ps
    → HasRoom h1 ps
    → HasRoom h1 (p ∷ ps)
HasRoom-cons p ps h h1 o room q e = elim (Bool-cases (mem q ps)) [
  | inl inside ↦ room q inside
  | inr outside ↦ rw (o.kept q outside) (ground arith)
]

-- The blocks that are got are new, also if one of them fails; on success all are there.
pub allocate_segments_lem :
    (m : Malloc) (n : ℕ) (pool : Pool) (h : Heap) (live k : ℕ)
    → IsLive live k pool
    → Allocated h (live + k) n (allocate_segments m n pool h)
unfolding allocate_segments allocate
allocate_segments_lem m zero pool h live k l =
    (Owns-nil h, omega arith, λ e. refl, λ q e. absurd (ground arith), omega arith)
allocate_segments_lem m (suc n) pool h live k l = elim (Option-cases (m.malloc block_size h)) [
  | inl e ↦
      rw (segments_none m n pool h e)
        (Owns-nil h, omega arith, λ d. absurd (cc d), λ q d. absurd (ground arith), omega arith)
  | inr (p, e) ↦
      let rest =
        allocate_segments_lem m n (lent pool) (update p (some (raw_buffer block_size)) h) live
          (k + 1) (omega arith) in
      rw (segments_some m n pool h p e) (
        Owns-cons p _ (raw_buffer block_size) h _ (m.fresh block_size h p e) rest.0,
        omega (arith, rest.1),
        λ d. omega (arith, rest.2 d),
        HasRoom-cons p _ h _ rest.0 rest.3,
        omega (arith, rest.4),
      )
]

-- What filling the segments `ps` with `bytes` changes, and what they hold then.
pub record Filled (h h2 : Heap) (ps bytes : List ℕ) : Type 0 where
  pub kept : (q : ℕ) → mem q ps ≡ false → h2 q ≡ h q
  pub there : (q : ℕ) → is_some (h2 q) ≡ is_some (h q)
  pub holds : Holds h2 ps (head? ps) bytes

segment : ℕ → List ℕ → List ℕ → ℕ → PacketBuffer
segment chunk ps bytes size = record {
  next = head? ps;
  length = chunk % 2 ^ 32;
  payload = bytes;
  size = size;
}

fits-le : (m n : ℕ) (b : Option PacketBuffer) → m ≤ n → fits n b ≡ true → fits m b ≡ true
fits-le m n none l f = absurd (cc f)
fits-le m n (some b) l f = ground arith

fits-some : (n : ℕ) (b : Option PacketBuffer) → fits n b ≡ true → is_some b ≡ true
fits-some n none f = absurd (cc f)
fits-some n (some b) f = refl

-- Blocks of full segments that have room for the rest of the packet take it, in order.
pub fill_segments_lem :
    (ps packet : List ℕ) (offset : ℕ) (h : Heap)
    → HasRoom h ps
    → Distinct ps
    → offset ≤ length packet
    → length packet ≤ offset + packet_buffer_size * length ps
    → Returns (λ h2. Filled h h2 ps (drop offset packet)) (fill_segments ps packet offset h)
unfolding fill_segments store segment
fill_segments_lem [] packet offset h there d lo hi = record {
  kept = λ q e. refl;
  there = λ q. refl;
  holds = (refl, drop_all offset packet (omega arith));
}
fill_segments_lem (p ∷ ps) packet offset h there d lo hi =
    rw (read_bytes_inside packet offset chunk (omega arith), inside)
      (Returns-mono _ _ (fill_segments ps packet (offset + chunk) h1)
        (fill_segments_lem ps packet (offset + chunk) h1 (λ q e. ground (arith, there q)) d.1
          (omega arith) (omega arith))
        filled)
  where
    chunk : ℕ
    chunk = min packet_buffer_size (length packet - offset)

    bytes : List ℕ
    bytes = take chunk (drop offset packet)

    h1 : Heap
    h1 = update p (some (segment chunk ps bytes (size_of (h p)))) h

    inside : fits (length bytes) (h p) ≡ true
    inside =
        fits-le (length bytes) packet_buffer_size (h p)
          (omega (arith, length-take chunk (drop offset packet)))
          (there p (ground (arith, ==_refl p)))

    all : (q : ℕ) → mem q (p ∷ ps) ≡ true → is_some (h q) ≡ true
    all q e = fits-some packet_buffer_size (h q) (there q e)

    chunk_size : chunk % 2 ^ 32 ≡ length bytes
    chunk_size = omega (arith, length-take chunk (drop offset packet), length-drop offset packet)

    filled :
        (h2 : Heap)
        → Filled h1 h2 ps (drop (offset + chunk) packet)
        → Filled h h2 (p ∷ ps) (drop offset packet)
    filled h2 f = record {
      kept = λ q e. ground (arith, f.kept q);
      there = λ q. ground (arith, f.there q, all q);
      holds = (
        refl,
        (
          segment chunk ps bytes (size_of (h p)),
          drop (offset + chunk) packet,
          ground (arith, f.kept p, d.0, ==_refl p),
          chunk_size,
          sym (take-append-drop chunk (drop offset packet))
              ∙ ap (◌++◌ bytes) (drop-drop offset chunk packet),
          f.holds,
        ),
      );
    }
