-- ===== src/Port/Session.antt =====
-- Any history of a port, until everything is given back and its queues are stopped.
use mathlib.Core.Path.{subst}
use vnic.Prelude.{
  ℕ, ◌≤◌, ◌∙◌, ap, sym, arith, Bool, List, [], ◌∷◌, length, get_or, All, Returns, Returns->>=,
}
use vnic.Packet.Descriptor.{PacketDescriptor}
use vnic.Memory.Heap.{Heap}
use vnic.Net.Bytes.{IsByte}
use vnic.RxQueue.Queue.{max_segments}
use vnic.RxQueue.Portion.{portion}
use vnic.Port.State.{Port}
use vnic.Port.Reta.{IsTable}
use vnic.Port.Burst.{rx, free_rx}
use vnic.Port.Poll.{poll_round}
use vnic.Port.Delivery.{IsServing}
use vnic.Port.Round.{IsFrame, Polled, IsServing-link, poll_round-Polled}
use vnic.Port.Round
use vnic.Port.Accounts.{Keeps, Accounted-Keeps}
use vnic.Port.Traffic.{Same, rx-Keeps, free_rx-Keeps}
use vnic.Port.Calls.{Call, IsCall, Session, step, run, put_rx-IsFrame, AllBooked-IsReady}

module _ {Text : Type 0} (h0 : Heap) where
  -- The port serves, its link holds frames of bytes, and the packets of its queues are accounted for.
  abbrev pub IsKept : Session Text → Type 0
  IsKept (port, h, held) =
      IsServing port × All IsFrame port.link.rx_queue.queue × Keeps h0 port.rx_queues h held

  -- A call that changes only the receive queues.
  pub Same-IsKept :
      (port port' : Port Text) (h h' : Heap) (held held' : List (List PacketDescriptor))
      → IsKept (port, h, held)
      → Same port port'
      → Keeps h0 port'.rx_queues h' held'
      → IsKept (port', h', held')
  Same-IsKept port port' h h' held held' (serving, frames, k) (link, reta, config, n)
        (accounts, e, l) =
      (
        record {
          some_queue = omega (arith, serving.some_queue, n);
          table = λ on.
              subst (λ t. IsTable (length port'.rx_queues) t) (sym reta)
                (subst (λ m. IsTable m port.reta) (sym n)
                  (serving.table (ap (λ c. c.rss.enabled) (sym config) ∙ on)));
          ready = AllBooked-IsReady h' port'.rx_queues accounts l.booked;
          key = subst (λ c. All IsByte c.rss.key) (sym config) serving.key;
        },
        subst (λ k. All IsFrame k.rx_queue.queue) (sym link) frames,
        (accounts, e, l),
      )

  Polled-IsKept :
      (memory : ℕ → Bool) (port : Port Text) (h : Heap) (held : List (List PacketDescriptor))
      (r : Port Text × Heap)
      → IsKept (port, h, held)
      → Polled memory port h r
      → IsKept (r.0, r.1, held)
  Polled-IsKept memory port h held r k (Round.down off) = k
  Polled-IsKept memory port h held r k (Round.idle e) = k
  Polled-IsKept memory port h held r (serving, frames, k) (Round.lost {frame} {rest} up' e full) = (
    record {
      some_queue = serving.some_queue;
      table = serving.table;
      ready = serving.ready;
      key = serving.key;
    },
    (subst (All IsFrame) e frames).1,
    k,
  )
  Polled-IsKept memory port h held (port', h') (serving, frames, k)
        (Round.taken {frame} {rest} up' e grows a) =
      let (fate, stats, link, reta, tx, queues, serving', end) = a in
      (
        serving',
        subst (λ l. All IsFrame l.rx_queue.queue) (sym link) (subst (All IsFrame) e frames).1,
        Accounted-Keeps h0 h (Round.without rest port) held frame (port', h') k a,
      )

  step-IsKept :
      (fuel : ℕ) (c : Call) (s : Session Text)
      → max_segments ≤ fuel
      → IsCall c
      → IsKept s
      → Returns IsKept (step fuel c s)
  unfolding step vnic.Link.Pipe.up vnic.Link.Pipe.down
  step-IsKept fuel (Call.arrives memory frame) (port, h, held) f b (serving, frames, k) =
      (IsServing-link port _ serving, put_rx-IsFrame memory frame port.link b frames, k)
  step-IsKept fuel Call.goes_up (port, h, held) f b (serving, frames, k) =
      (IsServing-link port _ serving, frames, k)
  step-IsKept fuel Call.goes_down (port, h, held) f b (serving, frames, k) =
      (IsServing-link port _ serving, frames, k)
  step-IsKept fuel (Call.polls t) (port, h, held) f b k =
      Returns->>= _ IsKept (poll_round t.malloc t.memory t.now port h) _
        (poll_round-Polled t.malloc t.memory t.now port h k.0 k.1)
        (λ r p. Polled-IsKept t.memory port h held r k p)
  step-IsKept fuel (Call.receives i) (port, h, held) f b k =
      Returns->>= _ IsKept (rx i port) _ (rx-Keeps h0 h port held i k.2)
        (λ r s. Same-IsKept port r.0 h h held _ k s.0 s.1)
  step-IsKept fuel (Call.returns i skip count) (port, h, held) f b k =
      Returns->>= _ IsKept (free_rx fuel i (portion skip count (get_or held i [])) port h) _
        (free_rx-Keeps h0 h port held i fuel skip count f k.2)
        (λ r s. Same-IsKept port r.0 h r.1 held _ k s.0 s.1)

  pub run-IsKept :
      (fuel : ℕ) (calls : List Call) (s : Session Text)
      → max_segments ≤ fuel
      → All IsCall calls
      → IsKept s
      → Returns IsKept (run fuel calls s)
  unfolding run
  run-IsKept fuel [] s f b k = k
  run-IsKept fuel (c ∷ calls) s f (b, bs) k =
      Returns->>= IsKept IsKept (step fuel c s) _ (step-IsKept fuel c s f b k)
        (λ s' k'. run-IsKept fuel calls s' f bs k')
