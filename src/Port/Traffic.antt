-- ===== src/Port/Traffic.antt =====
-- The application's calls of a port, `rx` and `freeRx`, on the accounts of its receive queues.
use mathlib.Core.Path.{subst}
use mathlib.Core.Option.{some-injective}
use vnic.Prelude.{
  ℕ, zero, suc, ◌<◌, ◌≤◌, ◌≡◌, refl, ◌∙◌, ap, ap₂, sym, arith, false, Bool-cases, inl, inr, List,
  [], ◌∷◌, ◌++◌, some, get_elem?, get_elem?-some, set, length, length-set, take, drop, get_or,
  Returns, Returns->>=, ◌>>=◌, leb, leb→le,
}
use vnic.ErrorCode.{Status}
use vnic.Packet.Descriptor.{PacketDescriptor}
use vnic.Memory.Heap.{Heap}
use vnic.Memory.Split.{without}
use vnic.Stateful.Automaton.{Machine}
use vnic.RxQueue.Queue.{RxQueue, max_segments, free}
use vnic.RxQueue.Queue
use vnic.RxQueue.Lifecycle.{new_queue}
use vnic.RxQueue.Ledger.{descs, descs-append}
use vnic.RxQueue.Account.{IsLedger}
use vnic.RxQueue.Return.{take-IsLedger}
use vnic.RxQueue.History.{free-IsLedger}
use vnic.RxQueue.Portion.{portion, rest, portion_whole, descs-portion, descs-rest}
use vnic.Port.State.{Port}
use vnic.Port.Burst.{rx, free_rx}
use vnic.Port.Ledger.{Account, account_blocks, AllBooked, account_of, ledger_step}
use vnic.Port.Accounts.{lents, lents-set, lents_at, Keeps}

set_beyond :
    (xs : List (List PacketDescriptor)) (i : ℕ) (x : List PacketDescriptor)
    → length xs ≤ i
    → set xs i x ≡ xs
set_beyond [] i x h = refl
set_beyond (y ∷ xs) zero x h = absurd (omega (arith, h))
set_beyond (y ∷ xs) (suc i) x h = ap (◌∷◌ y) (set_beyond xs i x (omega (arith, h)))

length-lents :
    (h : Heap) (qs : List (Machine RxQueue)) (accounts : List Account)
    → AllBooked h qs accounts
    → length (lents accounts) ≡ length qs
length-lents h [] [] b = refl
length-lents h (q ∷ qs) (a ∷ accounts) b = ap suc (length-lents h qs accounts b.1)
length-lents h [] (a ∷ accounts) b = elim b [ ]
length-lents h (q ∷ qs) [] b = elim b [ ]

get_or_at :
    (xs : List (List PacketDescriptor)) (i : ℕ) (x : List PacketDescriptor)
    → get_elem? xs i ≡ some x
    → get_or xs i [] ≡ x
get_or_at [] i x e = absurd (cc e)
get_or_at (y ∷ xs) zero x e = some-injective y x e
get_or_at (y ∷ xs) (suc i) x e = get_or_at xs i x e

leb→gt : (a b : ℕ) → leb a b ≡ false → b < a
leb→gt a b e = ground arith

-- The same port, but for its receive queues.
abbrev pub Same : {Text : Type 0} → Port Text → Port Text → Type 0
Same port port' =
    (port'.link ≡ port.link)
    × (port'.reta ≡ port.reta)
    × (port'.config ≡ port.config)
    × (length port'.rx_queues ≡ length port.rx_queues)

module _ {Text : Type 0} (h0 h : Heap) (port : Port Text) (held : List (List PacketDescriptor))
    (i : ℕ) where
  -- A call for a queue that is not there changes nothing.
  absent :
      (ds : List PacketDescriptor)
      → length port.rx_queues ≤ i
      → Keeps h0 port.rx_queues h held
      → Keeps h0 port.rx_queues h (set held i ds)
  absent ds out (accounts, e, l) =
      subst (Keeps h0 port.rx_queues h)
        (sym (
          set_beyond held i ds
            (omega (arith, out, ap length e, length-lents h port.rx_queues accounts l.booked))))
        (accounts, e, l)

  queue_at :
      leb (length port.rx_queues) i ≡ false
      → (q : Machine RxQueue) × (get_elem? port.rx_queues i ≡ some q)
  queue_at in' = (
    get_or port.rx_queues i new_queue,
    get_elem?-some port.rx_queues i new_queue (leb→gt _ i in'),
  )

  -- What the queue's account has lent, and what it has lent with another account.
  held_at :
      (accounts : List Account) (a : Account)
      → held ≡ lents accounts
      → get_elem? accounts i ≡ some a
      → get_or held i [] ≡ descs a.lent
  held_at accounts a e here =
      get_or_at held i (descs a.lent) (ap (λ k. get_elem? k i) e ∙ lents_at accounts i a here)

  held-set :
      (accounts : List Account) (ds : List PacketDescriptor) (a' : Account)
      → held ≡ lents accounts
      → ds ≡ descs a'.lent
      → set held i ds ≡ lents (set accounts i a')
  held-set accounts ds a' e f = ap₂ (λ k l. set k i l) e f ∙ sym (lents-set accounts i a')

  -- `rx` lends the packets that it returns.
  pub rx-Keeps :
      Keeps h0 port.rx_queues h held
      → Returns
          (λ r. Same port r.0 × Keeps h0 r.0.rx_queues h (set held i (get_or held i [] ++ r.1)))
          (rx i port)
  unfolding rx
  rx-Keeps k = elim (Bool-cases (leb (length port.rx_queues) i)) [
    | inl out ↦ rw (rx, out) ((refl, refl, refl, refl), absent _ (leb→le _ i out) k)
    | inr in' ↦
        let (q, at') = queue_at in' in
        rw (rx, in', at') ((refl, refl, refl, length-set port.rx_queues i _), lends q at' k)
  ]
    where
      lends :
          (q : Machine RxQueue)
          → get_elem? port.rx_queues i ≡ some q
          → Keeps h0 port.rx_queues h held
          → Keeps h0
              (set port.rx_queues i (record q { object = (Queue.take q.object).0 }))
              h
              (set held i (get_or held i [] ++ (Queue.take q.object).1))
      lends q at' (accounts, e, l) =
          let (a, here, (s, b)) = account_of h port.rx_queues accounts i q l.booked at' in
          let (taken, b') =
            take-IsLedger a.size (without (account_blocks a) h) q.object h a.lent a.used b in
          let a' = record a { lent = a.lent ++ take 512 a.used; used = drop 512 a.used } in
          (
            set accounts i a',
            held-set accounts _ a' e (
                ap₂ (λ k l. k ++ l) (held_at accounts a e here) taken
                ∙ sym (descs-append a.lent (take 512 a.used))),
            ledger_step h0 h h port.rx_queues accounts i
                (record q { object = (Queue.take q.object).0 }) a a' l here s b',
          )

  -- `freeRx` takes back a portion of what a queue has lent.
  pub free_rx-Keeps :
      (fuel skip count : ℕ)
      → max_segments ≤ fuel
      → Keeps h0 port.rx_queues h held
      → Returns
          (λ r.
            Same port r.0
            × Keeps h0 r.0.rx_queues r.1 (set held i (rest skip count (get_or held i []))))
          (free_rx fuel i (portion skip count (get_or held i [])) port h)
  unfolding free_rx
  free_rx-Keeps fuel skip count f k = elim (Bool-cases (leb (length port.rx_queues) i)) [
    | inl out ↦ rw (free_rx, out) ((refl, refl, refl, refl), absent _ (leb→le _ i out) k)
    | inr in' ↦ let (q, at') = queue_at in' in rw (free_rx, in', at') (returns q at' k)
  ]
    where
      returns :
          (q : Machine RxQueue)
          → get_elem? port.rx_queues i ≡ some q
          → Keeps h0 port.rx_queues h held
          → Returns
              (λ (r : Port Text × Heap × Status).
                Same port r.0
                × Keeps h0 r.0.rx_queues r.1 (set held i (rest skip count (get_or held i []))))
              (free fuel (portion skip count (get_or held i [])) q.object h >>= λ r. some (
                record port { rx_queues = set port.rx_queues i (record q { object = r.0 }) },
                r.1,
                r.2,
              ))
      returns q at' (accounts, e, l) =
          let (a, here, (s, b)) = account_of h port.rx_queues accounts i q l.booked at' in
          let g = without (account_blocks a) h in
          let a' = record a { lent = rest skip count a.lent } in
          rw (ap (portion skip count) (held_at accounts a e here) ∙ descs-portion skip count a.lent)
            (Returns->>= _ _ (free fuel (descs (portion skip count a.lent)) q.object h) _
              (free-IsLedger fuel a.size g q.object h (take skip a.lent) (portion skip count a.lent)
                (drop count (drop skip a.lent)) a.used f
                (subst (λ k. IsLedger a.size g q.object h k a.used)
                  (portion_whole skip count a.lent) b))
              (λ r freed. (
                (refl, refl, refl, length-set port.rx_queues i _),
                (
                  set accounts i a',
                  held-set accounts _ a' e (
                      ap (rest skip count) (held_at accounts a e here)
                      ∙ descs-rest skip count a.lent),
                  ledger_step h0 h r.1 port.rx_queues accounts i (record q { object = r.0 }) a a' l
                      here s freed.1,
                ),
              )))
