-- ===== src/Port/Accounts.antt =====
-- The operations of a port on the accounts of its receive queues.
use mathlib.Core.Path.{subst}
use mathlib.Core.Option.{some-injective}
use vnic.Prelude.{
  ℕ, zero, suc, ◌≤◌, ◌≡◌, refl, ◌∙◌, ap, sym, List, [], ◌∷◌, ◌++◌, some, get_elem?, set,
}
use vnic.ErrorCode.{ErrorCode, Status, ok, unexpected, done}
use vnic.Packet.Descriptor.{PacketDescriptor}
use vnic.Memory.Heap.{Heap}
use vnic.Memory.Split.{without}
use vnic.Stateful.Automaton.{State, Machine}
use vnic.RxQueue.Queue.{RxQueue, max_segments}
use vnic.RxQueue.Ledger.{descs}
use vnic.RxQueue.Account.{PutLedger, put_lem}
use vnic.RxQueue.PutDescriptor.{PutPost, segment_count}
use vnic.Port.State.{Port}
use vnic.Port.Fate.{Fate, Accounted}
use vnic.Port.Ledger.{Account, account_blocks, IsPortLedger, account_of, ledger_step}

-- What each queue has lent.
abbrev pub lents : List Account → List (List PacketDescriptor)
lents [] = []
lents (a ∷ accounts) = descs a.lent ∷ lents accounts

pub lents-set :
    (accounts : List Account) (i : ℕ) (a : Account)
    → lents (set accounts i a) ≡ set (lents accounts) i (descs a.lent)
lents-set [] i a = refl
lents-set (c ∷ accounts) zero a = refl
lents-set (c ∷ accounts) (suc i) a = ap (◌∷◌ (descs c.lent)) (lents-set accounts i a)

set_same :
    (xs : List (List PacketDescriptor)) (i : ℕ) (x : List PacketDescriptor)
    → get_elem? xs i ≡ some x
    → set xs i x ≡ xs
set_same [] i x e = absurd (cc e)
set_same (y ∷ xs) zero x e = ap (λ k. k ∷ xs) (sym (some-injective y x e))
set_same (y ∷ xs) (suc i) x e = ap (◌∷◌ y) (set_same xs i x e)

pub lents_at :
    (accounts : List Account) (i : ℕ) (a : Account)
    → get_elem? accounts i ≡ some a
    → get_elem? (lents accounts) i ≡ some (descs a.lent)
lents_at [] i a e = absurd (cc e)
lents_at (c ∷ accounts) zero a e = ap (λ k. some (descs k.lent)) (some-injective c a e)
lents_at (c ∷ accounts) (suc i) a e = lents_at accounts i a e

-- The queues and the heap have a ledger, with these descriptors lent.
abbrev pub Keeps : Heap → List (Machine RxQueue) → Heap → List (List PacketDescriptor) → Type 0
Keeps h0 qs h held =
    (accounts : List Account) × (held ≡ lents accounts) × IsPortLedger h0 qs h accounts

-- A `put` into one of the queues, with whatever answer, keeps the ledger.
put-Keeps :
    (h0 h : Heap) (qs : List (Machine RxQueue)) (held : List (List PacketDescriptor)) (i : ℕ)
    (q : Machine RxQueue) (packet : List ℕ) (r : RxQueue × Heap × Status)
    → Keeps h0 qs h held
    → get_elem? qs i ≡ some q
    → PutPost q.object h packet r
    → (r.2 ≡ done → segment_count packet ≤ max_segments)
    → Keeps h0 (set qs i (record q { object = r.0 })) r.1 held
put-Keeps h0 h qs held i q packet r (accounts, e, l) at' post few =
    let (a, here, (s, k)) = account_of h qs accounts i q l.booked at' in
    kept r a here s
      (put_lem a.size (without (account_blocks a) h) a.lent a.used packet q.object h r k post few)
  where
    kept :
        (r : RxQueue × Heap × Status) (a : Account)
        → get_elem? accounts i ≡ some a
        → q.state ≡ State.started
        → PutLedger a.size (without (account_blocks a) h) a.lent a.used packet r
        → Keeps h0 (set qs i (record q { object = r.0 })) r.1 held
    kept (q', h', ok u) a here s (entry, same, k') =
        let a' = record a { used = a.used ++ entry ∷ [] } in
        (
          set accounts i a',
          e
              ∙ sym (set_same (lents accounts) i (descs a.lent) (lents_at accounts i a here))
              ∙ sym (lents-set accounts i a'),
          ledger_step h0 h h' qs accounts i (record q { object = q' }) a a' l here s k',
        )
    kept (q', h', unexpected c) a here s k' = (
      set accounts i a,
      e
          ∙ sym (set_same (lents accounts) i (descs a.lent) (lents_at accounts i a here))
          ∙ sym (lents-set accounts i a),
      ledger_step h0 h h' qs accounts i (record q { object = q' }) a a l here s k',
    )

-- What a round of the poll loop has done to a frame keeps the ledger.
pub Accounted-Keeps :
    {Text : Type 0} (h0 h : Heap) (port : Port Text) (held : List (List PacketDescriptor))
    (frame : List ℕ) (r : Port Text × Heap)
    → Keeps h0 port.rx_queues h held
    → Accounted frame port h r
    → Keeps h0 r.0.rx_queues r.1 held
Accounted-Keeps h0 h port held frame (port', h') k
      (Fate.processed, s, l, t, x, n, v, (i, q, q', at', e, post, few)) =
    subst (λ qs. Keeps h0 qs h' held) (sym e)
      (put-Keeps h0 h port.rx_queues held i q frame (q', h', done) k at' post (λ d. few))
Accounted-Keeps h0 h port held frame (port', h') k
      (Fate.dropped, s, l, t, x, n, v, (i, q, q', at', e, post)) =
    subst (λ qs. Keeps h0 qs h' held) (sym e)
      (put-Keeps h0 h port.rx_queues held i q frame (q', h', refused) k at' post
        (λ d. absurd (cc d)))
  where
    refused : Status
    refused = unexpected ErrorCode.queue_full
Accounted-Keeps h0 h port held frame (port', h') k (Fate.rejected, s, l, t, x, n, v, (same, e)) =
    subst (λ qs. Keeps h0 qs h' held) (sym e)
      (subst (λ g. Keeps h0 port.rx_queues g held) (sym same) k)
