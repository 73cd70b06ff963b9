-- ===== src/Port/Leak.antt =====
-- The end of a history of a port: everything is given back, and the queues are stopped.
use mathlib.Core.Path.{subst, fun_ext}
use vnic.Prelude.{
  ℕ, suc, ◌≤◌, ◌≡◌, refl, ◌∙◌, ap, sym, arith, true, List, [], ◌∷◌, ◌++◌, some, set, length,
  length-append, take_all, drop_all, get_or, All, All-append, Returns, Returns->>=, Returns-mono,
  ◌>>=◌, Option,
}
use vnic.ErrorCode.{ErrorCode, Status}
use vnic.Packet.Descriptor.{PacketDescriptor}
use vnic.Memory.Heap.{Heap}
use vnic.Memory.Chain.{mem, Owns}
use vnic.Memory.Split.{Apart, Distinct-append, without, Owns-middle}
use vnic.Stateful.Automaton.{State, Machine}
use vnic.RxQueue.Queue.{RxQueue, max_segments}
use vnic.RxQueue.Portion.{portion, rest}
use vnic.RxQueue.Halted.{stop-Emptied}
use vnic.RxQueue.Lifecycle as Rx
use vnic.RxQueue.Ledger.{Entry, descs}
use vnic.RxQueue.Account.{IsLedger}
use vnic.Port.State.{Port}
use vnic.Port.Burst.{free_rx}
use vnic.Port.Queues.{RxQueues, TxQueues, keep_first, stop_rx, stop_tx, stop_queues}
use vnic.Port.Halt.{stop_tx-Halted}
use vnic.Port.Ledger.{Account, account_blocks, all_blocks, AllBooked, AllBooked-same}
use vnic.Port.Accounts.{Keeps, lents}
use vnic.Port.Traffic.{Same, free_rx-Keeps}
use vnic.Port.Calls.{Call, IsCall, run}
use vnic.RxQueue.Prepared.{IsFresh}
use vnic.Port.Fresh.{none_held, fresh-Keeps}
use vnic.Port.Delivery.{IsServing}
use vnic.Port.Round.{IsFrame}
use vnic.Port.Session.{IsKept, run-IsKept}

-- `freeRx` of all that the application holds, from queue `i` on.
unfoldable pub give_back :
    {Text : Type 0}
    → ℕ
    → ℕ
    → List (List PacketDescriptor)
    → Port Text
    → Heap
    → Option (Port Text × Heap)
give_back fuel i [] port h = some (port, h)
give_back fuel i (ds ∷ held) port h = do
  r ← free_rx fuel i ds port h
  give_back fuel (suc i) held r.0 r.1

-- A history, the return of what the application still holds, and `stopQueues`.
unfoldable pub session :
    {Text : Type 0}
    → ℕ
    → List Call
    → Port Text
    → Heap
    → List (List PacketDescriptor)
    → Option (RxQueues × TxQueues × Heap × Status)
session fuel calls port h held = do
  s ← run fuel calls (port, h, held)
  r ← give_back fuel 0 s.2 s.0 s.1
  stop_queues fuel r.0.rx_queues r.0.tx_queues r.1

get_or-append :
    (before : List (List PacketDescriptor)) (ds : List PacketDescriptor)
    (held : List (List PacketDescriptor))
    → get_or (before ++ ds ∷ held) (length before) [] ≡ ds
get_or-append [] ds held = refl
get_or-append (x ∷ before) ds held = get_or-append before ds held

set-append :
    (before : List (List PacketDescriptor)) (ds es : List PacketDescriptor)
    (held : List (List PacketDescriptor))
    → set (before ++ ds ∷ held) (length before) es ≡ (before ++ es ∷ []) ++ held
set-append [] ds es held = refl
set-append (x ∷ before) ds es held = ap (◌∷◌ x) (set-append before ds es held)

abbrev IsNone : List PacketDescriptor → Type 0
IsNone ds = ds ≡ []

-- The queues have lent nothing.
abbrev AllBack : {Text : Type 0} → Heap → Port Text × Heap → Type 0
AllBack h0 (port, h) =
    (held : List (List PacketDescriptor)) × All IsNone held × Keeps h0 port.rx_queues h held

module _ {Text : Type 0} (h0 : Heap) (fuel : ℕ) (f : max_segments ≤ fuel) where
  give_back-AllBack :
      (held before : List (List PacketDescriptor)) (port : Port Text) (h : Heap)
      → All IsNone before
      → Keeps h0 port.rx_queues h (before ++ held)
      → Returns (AllBack h0) (give_back fuel (length before) held port h)
  unfolding give_back
  give_back-AllBack [] before port h b k = (before ++ [], All-append IsNone before [] b tt, k)
  give_back-AllBack (ds ∷ held) before port h b k =
      Returns->>= _ (AllBack h0) (free_rx fuel (length before) ds port h) _ freed (λ r s.
        subst (λ i. Returns (AllBack h0) (give_back fuel i held r.0 r.1)) next
          (give_back-AllBack held (before ++ [] ∷ []) r.0 r.1
            (All-append IsNone before ([] ∷ []) b (refl, tt)) s))
    where
      next : length (before ++ [] ∷ []) ≡ suc (length before)
      next = omega (arith, length-append before ([] ∷ []))

      Freed : List PacketDescriptor → Port Text × Heap × Status → Type 0
      Freed es r =
          Same port r.0 × Keeps h0 r.0.rx_queues r.1 (set (before ++ ds ∷ held) (length before) es)

      all : portion 0 (length ds) ds ≡ ds
      all = take_all ds

      none_left : rest 0 (length ds) ds ≡ []
      none_left = drop_all (length ds) ds (omega arith)

      freed :
          Returns
            (λ r. Keeps h0 r.0.rx_queues r.1 ((before ++ [] ∷ []) ++ held))
            (free_rx fuel (length before) ds port h)
      freed =
          let i = length before in
          let whole = before ++ ds ∷ held in
          let given = get_or-append before ds held in
          Returns-mono _ _ (free_rx fuel i ds port h)
            (subst (λ p. Returns (Freed (rest 0 (length ds) ds)) (free_rx fuel i p port h)) all
              (subst
                (λ x.
                  Returns (Freed (rest 0 (length ds) x))
                    (free_rx fuel i (portion 0 (length ds) x) port h))
                given (free_rx-Keeps h0 h port whole i fuel 0 (length ds) f k)))
            (λ r s.
              subst (Keeps h0 r.0.rx_queues r.1)
                (ap (set whole i) none_left ∙ set-append before ds [] held) s.1)

-- A queue that has nothing left.
abbrev pub IsEmptied : Machine RxQueue → Type 0
IsEmptied m = (m.state ≡ State.stopped) × (m.object.used.queue ≡ []) × (m.object.pool.live ≡ 0)

-- What `stopQueues` leaves behind: the heap `h0`, and receive queues that have nothing left.
abbrev pub Stopped : Heap → RxQueues × TxQueues × Heap × Status → Type 0
Stopped h0 (rx, tx, h, s) = (h ≡ h0) × All IsEmptied rx

descs_none : (es : List Entry) → descs es ≡ [] → es ≡ []
descs_none [] e = refl
descs_none (x ∷ es) e = absurd (cc e)

abbrev RxEmptied : Heap → RxQueues × Heap × ErrorCode → Type 0
RxEmptied h0 (rx, h, first) = (h ≡ h0) × All IsEmptied rx

module _ (h0 : Heap) (fuel : ℕ) (f : max_segments ≤ fuel) where
  stop_rx-Emptied :
      (qs : RxQueues) (accounts : List Account) (h : Heap) (first : ErrorCode)
      → All IsNone (lents accounts)
      → AllBooked h qs accounts
      → Owns h0 h (all_blocks accounts)
      → Returns (RxEmptied h0) (stop_rx fuel qs h first)
  unfolding stop_rx
  stop_rx-Emptied [] [] h first n b o = (fun_ext (λ p. o.kept p refl), tt)
  stop_rx-Emptied [] (a ∷ accounts) h first n b o = elim b [ ]
  stop_rx-Emptied (q ∷ qs) [] h first n b o = elim b [ ]
  stop_rx-Emptied (q ∷ qs) (a ∷ accounts) h first (n, ns) ((s, l), b) o =
      let g = without (account_blocks a) h in
      let (gone, left) = Owns-middle [] (account_blocks a) (all_blocks accounts) h0 h o in
      let (da, ds, apart) = Distinct-append (account_blocks a) (all_blocks accounts) o.distinct in
      Returns->>= _ (RxEmptied h0) (Rx.stop fuel q h) _
        (stop-Emptied fuel a.size g q h a.used f s
          (subst (λ es. IsLedger a.size g q.object h es a.used) (descs_none a.lent n) l))
        (λ r e.
          let next = keep_first first r.2 in
          Returns->>= (RxEmptied h0) (RxEmptied h0) (stop_rx fuel qs r.1 next) _
            (subst (λ k. Returns (RxEmptied h0) (stop_rx fuel qs k next)) (sym e.1)
              (stop_rx-Emptied qs accounts g next ns
                (AllBooked-same h g qs accounts b (λ p m. kept p m apart)) left))
            (λ t u. (u.0, ((e.2, e.3, e.4), u.1))))
    where
      kept :
          (p : ℕ)
          → mem p (all_blocks accounts) ≡ true
          → Apart (account_blocks a) (all_blocks accounts)
          → without (account_blocks a) h p ≡ h p
      kept p m apart = ground (arith, m, apart p)

module _ {Text : Type 0} where
  -- What `stopQueues` does when everything is back.
  stop_queues-Stopped :
      (h0 : Heap) (fuel : ℕ) (port : Port Text) (h : Heap)
      → max_segments ≤ fuel
      → AllBack h0 (port, h)
      → Returns (Stopped h0) (stop_queues fuel port.rx_queues port.tx_queues h)
  unfolding stop_queues
  stop_queues-Stopped h0 fuel port h f (held, n, (accounts, e, l)) =
      Returns->>= (RxEmptied h0) (Stopped h0) (stop_rx fuel port.rx_queues h ErrorCode.none) _
        (stop_rx-Emptied h0 fuel f port.rx_queues accounts h ErrorCode.none (subst (All IsNone) e n)
          l.booked l.owned)
        (λ r s.
          Returns->>= _ (Stopped h0) (stop_tx port.tx_queues r.2) _
            (stop_tx-Halted port.tx_queues r.2) (λ t u. (s.0, s.1)))

  -- No history of a running port has undefined behaviour, and no buffer leaks or is released twice,
  -- whatever the queues have in common: whatever bytes arrive on the link, whatever the memory answers
  -- to the link and to the poll loop, and in whatever groups and order the application takes packets of
  -- each queue and gives them back. Once it has returned the rest and the queues are stopped, the heap
  -- is the one before the history, and each receive queue is stopped, has no packet and counts no
  -- buffer. At the start the port is in service, each receive queue runs, has a full free list, no
  -- packet and no buffer, and the link holds frames of bytes; the fuel covers 512 segments.
  pub session-Stopped :
      (fuel : ℕ) (calls : List Call) (port : Port Text) (h0 : Heap)
      → max_segments ≤ fuel
      → All IsCall calls
      → IsServing port
      → All IsFrame port.link.rx_queue.queue
      → All IsFresh port.rx_queues
      → Returns (Stopped h0) (session fuel calls port h0 (none_held port.rx_queues))
  unfolding session
  session-Stopped fuel calls port h0 f b serving frames fresh =
      Returns->>= (IsKept h0) (Stopped h0) (run fuel calls (port, h0, none_held port.rx_queues)) _
        (run-IsKept h0 fuel calls (port, h0, none_held port.rx_queues) f b
          (serving, frames, fresh-Keeps h0 port.rx_queues fresh))
        (λ s k.
          Returns->>= (AllBack h0) (Stopped h0) (give_back fuel 0 s.2 s.0 s.1) _
            (give_back-AllBack h0 fuel f s.2 [] s.0 s.1 tt k.2)
            (λ r back. stop_queues-Stopped h0 fuel r.0 r.1 f back))
