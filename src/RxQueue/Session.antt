-- ===== src/RxQueue/Session.antt =====
-- Any sequence of calls on a started receive queue, until everything is given back and it is stopped.
use mathlib.Core.Path.{subst, fun_ext}
use vnic.Prelude.{
  ℕ, ◌≤◌, ◌≡◌, refl, ◌∙◌, ap, sym, arith, List, [], ◌∷◌, ◌++◌, some, ◌>>=◌, Option, length, take,
  drop, Returns, Returns->>=, Returns-mono,
}
use mathlib.Core.List.{append-nil}
use vnic.ErrorCode.{Status, ok, unexpected, done}
use vnic.Packet.Descriptor.{PacketDescriptor}
use vnic.Memory.Heap.{Heap, Malloc}
use vnic.RxQueue.Queue.{RxQueue, max_segments, put, free, stop_impl}
use vnic.RxQueue.Queue
use vnic.RxQueue.Segments.{Owns-nil}
use vnic.RxQueue.Ledger.{Entry, descs, descs-append}
use vnic.RxQueue.Account.{IsLedger, PutLedger, put-IsLedger}
use vnic.RxQueue.Return.{take-IsLedger}
use vnic.RxQueue.Portion.{portion, rest, portion_whole, descs-portion, descs-rest}
use vnic.RxQueue.History.{StopLedger, free-IsLedger, stop_impl-IsLedger}

-- A call: of the poll thread, with the memory that it meets, or of the application, which gives back
-- `count` of its descriptors, from the one at `skip` on.
pub data Call : Type 0 where
  puts : Malloc → PacketDescriptor → List ℕ → Call
  takes : Call
  frees : ℕ → ℕ → Call

-- The queue, the heap, and the descriptors that the application holds, oldest first.
abbrev pub Session : Type 0
Session = RxQueue × Heap × List PacketDescriptor

unfoldable pub step : ℕ → Call → Session → Option Session
step fuel (Call.puts m desc packet) (q, h, lent) =
    put m desc packet q h >>= λ r. some (r.0, r.1, lent)
step fuel Call.takes (q, h, lent) = some ((Queue.take q).0, h, lent ++ (Queue.take q).1)
step fuel (Call.frees skip count) (q, h, lent) =
    free fuel (portion skip count lent) q h >>= λ r. some (r.0, r.1, rest skip count lent)

unfoldable pub run : ℕ → List Call → Session → Option Session
run fuel [] s = some s
run fuel (c ∷ calls) s = step fuel c s >>= run fuel calls

-- The calls, then the return of all that the application still holds, then `stopImpl`.
unfoldable pub session : ℕ → List Call → RxQueue → Heap → Option (RxQueue × Heap × Status)
session fuel calls q h = do
  s ← run fuel calls (q, h, [])
  r ← free fuel s.2 s.0 s.1
  stop_impl fuel r.0 r.1

-- Some ledger fits.
abbrev pub IsAccounted : ℕ → Heap → Session → Type 0
IsAccounted size h0 (q, h, lent) =
    (es : List Entry) × (us : List Entry) × (lent ≡ descs es) × IsLedger size h0 q h es us

module _ (fuel size : ℕ) (h0 : Heap) (enough : max_segments ≤ fuel) where
  step-IsAccounted :
      (c : Call) (s : Session)
      → IsAccounted size h0 s
      → Returns (IsAccounted size h0) (step fuel c s)
  unfolding step
  step-IsAccounted (Call.puts m desc packet) (q, h, lent) (es, us, e, l) =
      Returns->>= _ (IsAccounted size h0) (put m desc packet q h) _
        (put-IsLedger m desc packet size h0 q h es us l) answered
    where
      answered :
          (r : RxQueue × Heap × Status)
          → PutLedger size h0 es us packet r
          → IsAccounted size h0 (r.0, r.1, lent)
      answered (q', h', ok u) (entry, same, l') = (es, us ++ entry ∷ [], e, l')
      answered (q', h', unexpected c) l' = (es, us, e, l')
  step-IsAccounted Call.takes (q, h, lent) (es, us, e, l) =
      let (t, l') = take-IsLedger size h0 q h es us l in
      (
        es ++ take 512 us,
        drop 512 us,
        ap (λ k. k ++ (Queue.take q).1) e
            ∙ ap (◌++◌ (descs es)) t
            ∙ sym (descs-append es (take 512 us)),
        l',
      )
  step-IsAccounted (Call.frees skip count) (q, h, lent) (es, us, e, l) =
      rw (ap (portion skip count) e ∙ descs-portion skip count es) (
        Returns->>= _ (IsAccounted size h0) (free fuel (descs (portion skip count es)) q h) _
          (free-IsLedger fuel size h0 q h (take skip es) (portion skip count es)
            (drop count (drop skip es)) us enough
            (subst (λ k. IsLedger size h0 q h k us) (portion_whole skip count es) l))
          (λ r freed.
            (rest skip count es, us, ap (rest skip count) e ∙ descs-rest skip count es, freed.1)))

  run-IsAccounted :
      (calls : List Call) (s : Session)
      → IsAccounted size h0 s
      → Returns (IsAccounted size h0) (run fuel calls s)
  unfolding run
  run-IsAccounted [] s a = a
  run-IsAccounted (c ∷ calls) s a =
      Returns->>= (IsAccounted size h0) (IsAccounted size h0) (step fuel c s) _
        (step-IsAccounted c s a) (λ s' a'. run-IsAccounted calls s' a')

  given_back :
      (s : Session)
      → IsAccounted size h0 s
      → Returns (λ r. (us : List Entry) × IsLedger size h0 r.0 r.1 [] us) (free fuel s.2 s.0 s.1)
  given_back (q, h, lent) (es, us, e, l) = rw e (
      Returns-mono _ _ (free fuel (descs es) q h)
        (free-IsLedger fuel size h0 q h [] es [] us enough
          (subst (λ k. IsLedger size h0 q h k us) (sym (append-nil es)) l))
        (λ r freed. (us, freed.1)))

-- The heap is `h0`, and the pool has nothing out.
abbrev pub Returned : Heap → RxQueue × Heap × Status → Type 0
Returned h0 (q, h, s) = (s ≡ done) × (h ≡ h0) × (q.pool.live ≡ 0) × (q.used.queue ≡ [])

stopped_empty : (h0 : Heap) (r : RxQueue × Heap × Status) → StopLedger h0 [] r → Returned h0 r
stopped_empty h0 (q, h, s) (d, u, f, k) =
    (d, fun_ext (λ p. k.owned.kept p refl), omega (arith, k.live), u)

-- No call of any history of a started queue has undefined behaviour, and no block leaks or is released
-- twice: whatever packets are put, whatever the memory answers, and in whatever groups and order the
-- application takes packets and gives them back, once it has returned the rest and the queue is
-- stopped the heap is the one before the history and the pool counts no block. At the start nothing
-- waits, the free list is full, and the pool has lent nothing; the fuel covers 512 segments.
pub session-Returned :
    (fuel : ℕ) (calls : List Call) (q : RxQueue) (h0 : Heap)
    → max_segments ≤ fuel
    → q.used.queue ≡ []
    → q.pool.live ≡ 0
    → length q.free.queue ≡ q.free.config.capacity
    → Returns (Returned h0) (session fuel calls q h0)
unfolding session
session-Returned fuel calls q h0 enough u live full =
    Returns->>= (IsAccounted size h0) (Returned h0) (run fuel calls (q, h0, [])) _
      (run-IsAccounted fuel size h0 enough calls (q, h0, []) ([], [], refl, empty))
      (λ s a.
        Returns->>= _ (Returned h0) (free fuel s.2 s.0 s.1) _ (given_back fuel size h0 enough s a)
          (λ r l.
            Returns-mono _ _ (stop_impl fuel r.0 r.1)
              (stop_impl-IsLedger fuel size h0 r.0 r.1 [] l.0 enough l.1)
              (λ t k. stopped_empty h0 t k)))
  where
    size : ℕ
    size = q.free.config.capacity

    empty : IsLedger size h0 q h0 [] []
    empty = record {
      queued = u;
      stored = tt;
      short = tt;
      owned = Owns-nil h0;
      live = omega (arith, live);
      count = omega (arith, full);
      capacity = refl;
    }
