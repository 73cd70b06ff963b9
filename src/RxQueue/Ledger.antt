-- ===== src/RxQueue/Ledger.antt =====
-- The packets that a receive queue is answerable for: those that wait in `used`, and those that the
-- application holds.
use vnic.Prelude.{
  ℕ, zero, suc, ◌+◌, ◌≤◌, ◌≡◌, refl, ◌∙◌, ap, sym, arith, true, List, [], ◌∷◌, ◌++◌, some, length,
  length-append, All,
}
use mathlib.Core.List.{append_assoc}
use vnic.Packet.Descriptor.{PacketDescriptor}
use vnic.Memory.Heap.{Heap}
use vnic.Memory.Pool.{Pool}
use vnic.Memory.Chain.{
  mem, Owns, Holds, released, deallocate_all, deallocate_all-Owns, release_chain-Holds,
}
use vnic.Memory.Split.{mem-append, Apart, Distinct-append, without, Owns-middle, Holds-same}
use vnic.RxQueue.Queue.{release_all}

-- A descriptor, the blocks of its chain, and the packet that they hold.
pub record Entry : Type 0 where
  pub desc : PacketDescriptor
  pub chain : List ℕ
  pub packet : List ℕ

abbrev pub descs : List Entry → List PacketDescriptor
descs [] = []
descs (e ∷ es) = e.desc ∷ descs es

abbrev pub blocks : List Entry → List ℕ
blocks [] = []
blocks (e ∷ es) = e.chain ++ blocks es

-- The descriptor's chain is there, and holds the packet.
abbrev pub IsStored : Heap → Entry → Type 0
IsStored h e = Holds h e.chain e.desc.buffer e.packet

abbrev pub IsShort : ℕ → Entry → Type 0
IsShort fuel e = length e.chain ≤ fuel

pub blocks-append : (es fs : List Entry) → blocks (es ++ fs) ≡ blocks es ++ blocks fs
blocks-append [] fs = refl
blocks-append (e ∷ es) fs =
    ap (◌++◌ e.chain) (blocks-append es fs) ∙ sym (append_assoc e.chain (blocks es) (blocks fs))

pub descs-append : (es fs : List Entry) → descs (es ++ fs) ≡ descs es ++ descs fs
descs-append [] fs = refl
descs-append (e ∷ es) fs = ap (◌∷◌ e.desc) (descs-append es fs)

-- Entries are stored in any heap that has their blocks.
pub All-IsStored :
    (es : List Entry) (h h' : Heap)
    → ((q : ℕ) → mem q (blocks es) ≡ true → h' q ≡ h q)
    → All (IsStored h) es
    → All (IsStored h') es
All-IsStored [] h h' same s = tt
All-IsStored (e ∷ es) h h' same (s, ss) = (
  Holds-same e.chain h h' e.desc.buffer e.packet
      (λ q i. same q (ground (arith, i, mem-append q e.chain (blocks es)))) s,
  All-IsStored es h h' (λ q i. same q (ground (arith, i, mem-append q e.chain (blocks es)))) ss,
)

released_add : (m n : ℕ) (pool : Pool) → released (m + n) pool ≡ released n (released m pool)
released_add zero n pool = ap (λ k. released k pool) {x = 0 + n} {y = n} (omega arith)
released_add (suc m) n pool =
    ap (λ k. released k pool) {x = suc m + n} {y = suc (m + n)} (omega arith) ∙ released_add m n _

-- Releasing the chains of owned entries is defined and gives back the heap before them.
pub release_all-Owns :
    (es : List Entry) (fuel : ℕ) (pool : Pool) (h0 h : Heap)
    → Owns h0 h (blocks es)
    → All (IsStored h) es
    → All (IsShort fuel) es
    → release_all fuel (descs es) pool h ≡ some (released (length (blocks es)) pool, h0)
unfolding release_all deallocate_all
release_all-Owns [] fuel pool h0 h o s f = deallocate_all-Owns [] pool h0 h o
release_all-Owns (e ∷ es) fuel pool h0 h o (s, ss) (f, fs) =
    let (first, others) = Owns-middle [] e.chain (blocks es) h0 h o in
    rw
      (
        release_chain-Holds e.chain fuel e.desc.buffer e.packet pool h s first.distinct f,
        deallocate_all-Owns e.chain pool (without e.chain h) h first,
        release_all-Owns es fuel (released (length e.chain) pool) h0 (without e.chain h) others
            (All-IsStored es h (without e.chain h)
              (same (Distinct-append e.chain (blocks es) o.distinct).2) ss)
            fs,
      )
      (ap (λ p. some (p, h0))
        (sym (released_add (length e.chain) (length (blocks es)) pool)
          ∙ ap (λ k. released k pool) (sym (length-append e.chain (blocks es)))))
  where
    same :
        Apart e.chain (blocks es) → (q : ℕ) → mem q (blocks es) ≡ true → without e.chain h q ≡ h q
    same apart q i = ground (arith, i, apart q)
