-- ===== src/Port/Loop.antt =====
-- The loop of `VNic::poll`, until it is asked to stop.
use vnic.Prelude.{
  ℕ, suc, ◌+◌, ◌%◌, ◌^◌, ◌≡◌, refl, ◌∙◌, ap, sym, min, arith, Bool, true, List, [], ◌∷◌, Option,
  some, ◌>>=◌, length, drop, drop-drop, length-drop, All, Returns, Returns->>=, Returns-mono,
}
use mathlib.Core.Path.{subst}
use vnic.Net.Wire.{All-drop}
use vnic.Stats.{Stats}
use vnic.Memory.Heap.{Heap, Malloc}
use vnic.Port.State.{Port}
use vnic.Port.Delivery.{IsServing}
use vnic.Port.Fate.{Fate, account}
use vnic.Port.Poll.{poll_round}
use vnic.Port.Round.{IsFrame, Polled, down, idle, lost, taken, poll_round-Polled}

-- What a round meets: the memory of the queues and of `buffer`, and the time.
pub record Turn : Type 0 where
  pub malloc : Malloc
  pub memory : ℕ → Bool
  pub now : ℕ

-- The packets of the counters.
abbrev pub handled : Stats → ℕ
handled s = (s.processed_packets + s.dropped_packets) % 2 ^ 64

handled-account :
    (f : Fate) (n : ℕ) (s : Stats) → handled (account f n s) ≡ (handled s + 1) % 2 ^ 64
handled-account Fate.rejected n s = omega arith
handled-account Fate.dropped n s = omega arith
handled-account Fate.processed n s = omega arith

-- The buffer of a round can always grow.
abbrev pub Grows : Turn → Type 0
Grows t = (size : ℕ) → t.memory size ≡ true

module _ {Text : Type 0} where
  -- `poll`, one turn for each test of the stop token before the one that ends the loop.
  unfoldable pub poll : List Turn → Port Text → Heap → Option (Port Text × Heap)
  poll [] port h = some (port, h)
  poll (t ∷ turns) port h = do r ← poll_round t.malloc t.memory t.now port h; poll turns r.0 r.1

  -- After `n` rounds.
  abbrev pub Drained : ℕ → Port Text → Port Text × Heap → Type 0
  Drained n port (port', h') =
      let frames = port.link.rx_queue.queue in
      IsServing port'
      × (port'.link.is_up ≡ true)
      × (port'.link.rx_queue.queue ≡ drop n frames)
      × (handled port'.stats ≡ (handled port.stats + min n (length frames)) % 2 ^ 64)

  round-Drained :
      (memory : ℕ → Bool) (port : Port Text) (h : Heap) (r : Port Text × Heap)
      → ((size : ℕ) → memory size ≡ true)
      → IsServing port
      → port.link.is_up ≡ true
      → Polled memory port h r
      → Drained 1 port r
  round-Drained memory port h r grows serving up (down off) = absurd (cc (off, up))
  round-Drained memory port h r grows serving up (idle e) =
      (serving, up, e ∙ sym (ap (drop 1) e), omega (arith, ap length e))
  round-Drained memory port h r grows serving up (lost {frame} up' e full) =
      absurd (cc (full, grows (length frame)))
  round-Drained memory port h (port', h') grows serving up
        (taken {frame} {rest} up' e grows' (fate, stats, link, reta, tx, queues, serving', end)) =
      (
        serving',
        ap (λ l. l.is_up) link ∙ up,
        ap (λ l. l.rx_queue.queue) link ∙ sym (ap (drop 1) e),
        ap handled stats
            ∙ handled-account fate (length frame) port.stats
            ∙ omega (arith, ap length e),
      )

  -- The loop handles every frame that waits on a link that is up, in order and without undefined
  -- behaviour, whatever bytes the frames have: after `n` rounds the first `n` frames have left the
  -- link, or all of them if there are fewer, each of them has been counted exactly once, as processed
  -- or as dropped, and the port is in service. The port is in service at the start, the frames are
  -- not empty, and there is memory for the buffer of the loop.
  pub poll-Drained :
      (turns : List Turn) (port : Port Text) (h : Heap)
      → All Grows turns
      → IsServing port
      → port.link.is_up ≡ true
      → All IsFrame port.link.rx_queue.queue
      → Returns (Drained (length turns) port) (poll turns port h)
  unfolding poll
  poll-Drained [] port h g serving up b = (serving, up, refl, omega arith)
  poll-Drained (t ∷ turns) port h g serving up b =
      Returns->>= (Drained 1 port) (Drained (suc (length turns)) port)
        (poll_round t.malloc t.memory t.now port h) _
        (Returns-mono _ _ (poll_round t.malloc t.memory t.now port h)
          (poll_round-Polled t.malloc t.memory t.now port h serving b)
          (λ r p. round-Drained t.memory port h r g.0 serving up p))
        (λ r d.
          Returns-mono _ _ (poll turns r.0 r.1)
            (poll-Drained turns r.0 r.1 g.1 d.0 d.1
              (subst (All IsFrame) (sym d.2) (All-drop IsFrame 1 _ b)))
            (λ r' d'. after_one r r' d d'))
    where
      after_one :
          (r r' : Port Text × Heap)
          → Drained 1 port r
          → Drained (length turns) r.0 r'
          → Drained (suc (length turns)) port r'
      after_one r r' d d' = (
        d'.0,
        d'.1,
        d'.2
            ∙ ap (drop (length turns)) d.2
            ∙ drop-drop 1 (length turns) port.link.rx_queue.queue
            ∙ ap (λ k. drop k port.link.rx_queue.queue) {y = suc (length turns)} (omega arith),
        omega (arith, d'.3, d.3, ap length d.2, length-drop 1 port.link.rx_queue.queue),
      )
