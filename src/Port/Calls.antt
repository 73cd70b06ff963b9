-- ===== src/Port/Calls.antt =====
-- What happens to a port: frames arrive, the poll loop runs, the application calls.
use vnic.Prelude.{
  ℕ, arith, Bool, inr, List, [], ◌∷◌, ◌++◌, some, set, get_or, All, All-append, ◌>>=◌, Option,
}
use vnic.Net.Bytes.{IsBytes}
use vnic.Packet.Descriptor.{PacketDescriptor}
use vnic.Memory.Heap.{Heap}
use vnic.Stateful.Automaton.{Machine}
use vnic.Fifo.Queue.{push}
use vnic.Link.Pipe.{Link, allocate, put_rx}
use vnic.Link.Pipe
use vnic.RxQueue.Queue.{RxQueue}
use vnic.RxQueue.Portion.{portion, rest}
use vnic.Port.State.{Port}
use vnic.Port.Burst.{rx, free_rx}
use vnic.Port.Poll.{poll_round}
use vnic.Port.Loop.{Turn}
use vnic.Port.Delivery.{IsReady}
use vnic.Port.Round.{IsFrame}
use vnic.Port.Ledger.{Account, AllBooked}

-- A frame is put on the link (`memory` is whether `malloc` gives a size); the link goes up or down;
-- one round of the poll loop; `rx` of a queue; `freeRx` of `count` of the descriptors that the
-- application holds of a queue, from the one at `skip` on.
pub data Call : Type 0 where
  arrives : (ℕ → Bool) → List ℕ → Call
  goes_up goes_down : Call
  polls : Turn → Call
  receives : ℕ → Call
  returns : ℕ → ℕ → ℕ → Call

-- Frames consist of bytes.
abbrev pub IsCall : Call → Type 0
IsCall (Call.arrives memory frame) = IsBytes frame
IsCall _ = Unit

-- The port, the heap, and the descriptors that the application holds of each queue, oldest first.
abbrev pub Session : Type 0 → Type 0
Session Text = Port Text × Heap × List (List PacketDescriptor)

module _ {Text : Type 0} where
  unfoldable pub step : ℕ → Call → Session Text → Option (Session Text)
  step fuel (Call.arrives memory frame) (port, h, held) =
      some (record port { link = (put_rx memory frame port.link).0 }, h, held)
  step fuel Call.goes_up (port, h, held) =
      some (record port { link = (Pipe.up port.link).0 }, h, held)
  step fuel Call.goes_down (port, h, held) =
      some (record port { link = (Pipe.down port.link).0 }, h, held)
  step fuel (Call.polls t) (port, h, held) =
      poll_round t.malloc t.memory t.now port h >>= λ r. some (r.0, r.1, held)
  step fuel (Call.receives i) (port, h, held) =
      rx i port >>= λ r. some (r.0, h, set held i (get_or held i [] ++ r.1))
  step fuel (Call.returns i skip count) (port, h, held) =
      free_rx fuel i (portion skip count (get_or held i [])) port h >>= λ r.
      some (r.0, r.1, set held i (rest skip count (get_or held i [])))

  unfoldable pub run : ℕ → List Call → Session Text → Option (Session Text)
  run fuel [] s = some s
  run fuel (c ∷ calls) s = step fuel c s >>= run fuel calls

pub put_rx-IsFrame :
    (memory : ℕ → Bool) (frame : List ℕ) (link : Link)
    → IsBytes frame
    → All IsFrame link.rx_queue.queue
    → All IsFrame (put_rx memory frame link).0.rx_queue.queue
unfolding put_rx vnic.Link.Pipe.put allocate push
put_rx-IsFrame memory frame link b q =
    ground (arith, q, All-append IsFrame link.rx_queue.queue (frame ∷ []) q)

pub AllBooked-IsReady :
    (h : Heap) (qs : List (Machine RxQueue)) (accounts : List Account)
    → AllBooked h qs accounts
    → All IsReady qs
AllBooked-IsReady h [] [] b = tt
AllBooked-IsReady h (q ∷ qs) (a ∷ accounts) ((s, l), b) = (
  (omega (arith, l.live), inr (omega (arith, l.count, l.capacity))),
  AllBooked-IsReady h qs accounts b,
)
AllBooked-IsReady h [] (a ∷ accounts) b = elim b [ ]
AllBooked-IsReady h (q ∷ qs) [] b = elim b [ ]
