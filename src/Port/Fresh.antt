-- ===== src/Port/Fresh.antt =====
-- The accounts of receive queues that have been started and not been used.
use mathlib.Core.Path.{subst}
use vnic.Prelude.{◌≡◌, refl, ap, sym, arith, List, [], ◌∷◌, All}
use vnic.Packet.Descriptor.{PacketDescriptor}
use vnic.Memory.Heap.{Heap}
use vnic.Memory.Chain.{Owns}
use vnic.RxQueue.Segments.{Owns-nil}
use vnic.RxQueue.Prepared.{IsFresh}
use vnic.Port.Queues.{RxQueues}
use vnic.Port.Ledger.{Account, all_blocks, AllBooked}
use vnic.Port.Accounts.{Keeps, lents}

abbrev pub none_held : RxQueues → List (List PacketDescriptor)
none_held [] = []
none_held (q ∷ qs) = [] ∷ none_held qs

abbrev fresh_accounts : RxQueues → List Account
fresh_accounts [] = []
fresh_accounts (q ∷ qs) =
    record { size = q.object.free.config.capacity; lent = []; used = [] } ∷ fresh_accounts qs

fresh_blocks : (qs : RxQueues) → all_blocks (fresh_accounts qs) ≡ []
fresh_blocks [] = refl
fresh_blocks (q ∷ qs) = fresh_blocks qs

fresh_held : (qs : RxQueues) → none_held qs ≡ lents (fresh_accounts qs)
fresh_held [] = refl
fresh_held (q ∷ qs) = ap (◌∷◌ []) (fresh_held qs)

fresh-AllBooked : (h0 : Heap) (qs : RxQueues) → All IsFresh qs → AllBooked h0 qs (fresh_accounts qs)
fresh-AllBooked h0 [] b = tt
fresh-AllBooked h0 (q ∷ qs) ((s, u, live, full), b) = (
  (
    s,
    record {
      queued = u;
      stored = tt;
      short = tt;
      owned = Owns-nil h0;
      live = omega (arith, live);
      count = omega (arith, full);
      capacity = refl;
    },
  ),
  fresh-AllBooked h0 qs b,
)

pub fresh-Keeps : (h0 : Heap) (qs : RxQueues) → All IsFresh qs → Keeps h0 qs h0 (none_held qs)
fresh-Keeps h0 qs b = (
  fresh_accounts qs,
  fresh_held qs,
  record {
    booked = fresh-AllBooked h0 qs b;
    owned = subst (Owns h0 h0) (sym (fresh_blocks qs)) (Owns-nil h0);
  },
)
