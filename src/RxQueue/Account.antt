-- ===== src/RxQueue/Account.antt =====
-- What `put`, `take`, `free` and `stopImpl` do to the packets of a receive queue.
use vnic.Prelude.{
  ℕ, ◌+◌, ◌^◌, ◌≤◌, ◌≡◌, refl, ◌∙◌, ap, sym, arith, inl, inr, true, Bool-cases, ltb, ltb→ge, ◌==◌,
  Option, ◌-◌, List, [], ◌∷◌, ◌++◌, some, length, length-append, All, All-append, Returns,
  Returns-mono,
}
use mathlib.Core.Path.{subst}
use mathlib.Core.List.{append_assoc, append-nil}
use vnic.ErrorCode.{Status, ok, unexpected, done}
use vnic.Packet.Descriptor.{PacketDescriptor}
use vnic.Memory.Heap.{Heap, Malloc}
use vnic.Memory.Chain.{mem, Owns}
use vnic.Memory.Split.{Owns-join}
use vnic.RxQueue.Queue.{RxQueue, max_segments, put}
use vnic.RxQueue.Segments.{IsLive}
use vnic.RxQueue.PutDescriptor.{PutPost, segment_count}
use vnic.RxQueue.Put.{put-PutPost}
use vnic.RxQueue.Ledger.{
  Entry, descs, blocks, IsStored, IsShort, blocks-append, descs-append, All-IsStored,
}

-- The queue in the heap `h`, given the heap without its packets: `lent` are the packets that the
-- application holds, `used` those that wait, in order. Nothing else has been allocated, the pool
-- counts these blocks, and each of the `size` descriptors is free, waits or is lent.
pub record IsLedger (size : ℕ) (h0 : Heap) (q : RxQueue) (h : Heap) (lent used : List Entry)
    : Type 0 where
  pub queued : q.used.queue ≡ descs used
  pub stored : All (IsStored h) (lent ++ used)
  pub short : All (IsShort max_segments) (lent ++ used)
  pub owned : Owns h0 h (blocks (lent ++ used))
  pub live : IsLive 0 (length (blocks (lent ++ used))) q.pool
  pub count : length q.free.queue + length (lent ++ used) ≡ size
  pub capacity : q.free.config.capacity ≡ size

-- Blocks that are new are none of those that are owned.
apart :
    (ps qs : List ℕ) (h0 h h' : Heap)
    → Owns h0 h ps
    → Owns h h' qs
    → (q : ℕ) → mem q ps ≡ true
    → h' q ≡ h q
apart ps qs h0 h h' o n q e = ground (arith, o.present q e, n.fresh q, n.kept q)

module _ (size : ℕ) (h0 : Heap) (lent used : List Entry) where
  with_entry :
      (e : Entry) (q q' : RxQueue) (h h' : Heap)
      → IsLedger size h0 q h lent used
      → Owns h h' e.chain
      → IsStored h' e
      → IsShort max_segments e
      → q'.used.queue ≡ q.used.queue ++ e.desc ∷ []
      → length q'.free.queue + 1 ≡ length q.free.queue
      → q'.free.config ≡ q.free.config
      → IsLive q.pool.live (length e.chain) q'.pool
      → IsLedger size h0 q' h' lent (used ++ e ∷ [])
  with_entry e q q' h h' l o s f u n cfg live = record {
    queued = u ∙ ap (λ k. k ++ e.desc ∷ []) l.queued ∙ sym (descs-append used (e ∷ []));
    stored = subst (All (IsStored h')) grouped (
        All-append (IsStored h') (lent ++ used) (e ∷ [])
          (All-IsStored (lent ++ used) h h'
            (apart (blocks (lent ++ used)) e.chain h0 h h' l.owned o) l.stored)
          (s, tt));
    short =
        subst (All (IsShort max_segments)) grouped
          (All-append (IsShort max_segments) (lent ++ used) (e ∷ []) l.short (f, tt));
    owned =
        subst (Owns h0 h') (sym all) (Owns-join (blocks (lent ++ used)) e.chain h0 h h' l.owned o);
    live =
        omega (arith, live, l.live, ap length all, length-append (blocks (lent ++ used)) e.chain);
    count = omega (arith, n, l.count, ap length grouped, length-append (lent ++ used) (e ∷ []));
    capacity = ap (λ k. k.capacity) cfg ∙ l.capacity;
  }
    where
      grouped : (lent ++ used) ++ e ∷ [] ≡ lent ++ (used ++ e ∷ [])
      grouped = append_assoc lent used (e ∷ [])

      all : blocks (lent ++ (used ++ e ∷ [])) ≡ blocks (lent ++ used) ++ e.chain
      all =
          ap blocks (sym grouped)
          ∙ blocks-append (lent ++ used) (e ∷ [])
          ∙ ap (◌++◌ (blocks (lent ++ used))) (append-nil e.chain)

  -- What `put` leaves behind.
  abbrev pub PutLedger : List ℕ → RxQueue × Heap × Status → Type 0
  PutLedger packet (q', h', s) = elim s [
    | ok u ↦ (e : Entry) × (e.packet ≡ packet) × IsLedger size h0 q' h' lent (used ++ e ∷ [])
    | unexpected c ↦ IsLedger size h0 q' h' lent used
  ]

  pub put_lem :
      (packet : List ℕ) (q : RxQueue) (h : Heap) (r : RxQueue × Heap × Status)
      → IsLedger size h0 q h lent used
      → PutPost q h packet r
      → (r.2 ≡ done → segment_count packet ≤ max_segments)
      → PutLedger packet r
  put_lem packet q h (q', h', ok u) l (ps, desc, o, c, total, u', n, cfg, live, k) few = (
    record { desc = desc; chain = ps; packet = packet },
    refl,
    with_entry (record { desc = desc; chain = ps; packet = packet }) q q' h h' l o c
        (omega (arith, k, few refl)) u' n cfg live,
  )
  put_lem packet q h (q', h', unexpected c) l (same, live, u, n, cfg) few = record {
    queued = ap (λ f. f.queue) u ∙ l.queued;
    stored = subst (λ g. All (IsStored g) (lent ++ used)) (sym same) l.stored;
    short = l.short;
    owned = subst (λ g. Owns h0 g (blocks (lent ++ used))) (sym same) l.owned;
    live = live ∙ l.live;
    count = omega (arith, n, l.count);
    capacity = ap (λ k. k.capacity) cfg ∙ l.capacity;
  }

-- A packet of too many segments is refused.
put_many :
    (m : Malloc) (desc : PacketDescriptor) (packet : List ℕ) (q : RxQueue) (h : Heap)
    → ltb max_segments (segment_count packet) ≡ true
    → Returns (λ r. r.2 ≡ done → ⊥) (put m desc packet q h)
unfolding put
put_many m desc packet q h many = elim (Bool-cases (length packet == 0)) [
  | inl empty ↦ rw (put, empty) (λ e. cc e)
  | inr some' ↦ elim (Bool-cases (ltb (2 ^ 32 - 1) (length packet))) [
    | inl large ↦ rw (put, some', large) (λ e. cc e)
    | inr fits ↦ rw (put, some', fits, many) (λ e. cc e)
  ]
]

Returns-both {ℓ} :
    {A : Type ℓ} (P Q : A → Type 0) (o : Option A)
    → Returns P o
    → Returns Q o
    → Returns (λ a. P a × Q a) o
Returns-both P Q Option.none p q = p
Returns-both P Q (some a) p q = (p, q)

-- `put` that succeeds has found few enough segments.
pub put_few :
    (m : Malloc) (desc : PacketDescriptor) (packet : List ℕ) (q : RxQueue) (h : Heap)
    → Returns (PutPost q h packet) (put m desc packet q h)
    → Returns
        (λ r. PutPost q h packet r × (r.2 ≡ done → segment_count packet ≤ max_segments))
        (put m desc packet q h)
put_few m desc packet q h post = elim (Bool-cases (ltb max_segments (segment_count packet))) [
  | inr few ↦
      Returns-mono _ _ (put m desc packet q h) post (λ r p. (p, λ e. ltb→ge max_segments _ few))
  | inl many ↦
      Returns-mono _ _ (put m desc packet q h)
        (Returns-both _ _ (put m desc packet q h) post (put_many m desc packet q h many))
        (λ r both. (both.0, λ e. absurd (both.1 e)))
]

-- `put` of any packet, by any memory: if it succeeds, the packet waits behind the others, byte for
-- byte; if it fails, the same packets wait.
pub put-IsLedger :
    (m : Malloc) (desc : PacketDescriptor) (packet : List ℕ) (size : ℕ) (h0 : Heap) (q : RxQueue)
    (h : Heap) (lent used : List Entry)
    → IsLedger size h0 q h lent used
    → Returns (PutLedger size h0 lent used packet) (put m desc packet q h)
put-IsLedger m desc packet size h0 q h lent used l =
    Returns-mono _ _ (put m desc packet q h)
      (put_few m desc packet q h (
        put-PutPost m desc packet q h (omega (arith, l.live))
          (inr (omega (arith, l.count, l.capacity)))))
      (λ r p. put_lem size h0 lent used packet q h r l p.0 p.1)
