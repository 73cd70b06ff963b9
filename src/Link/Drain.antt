-- ===== src/Link/Drain.antt =====
-- The destructor of `Link`: the frames that are left are released.
use vnic.Prelude.{
  ℕ, zero, suc, ◌<◌, ◌≡◌, refl, ◌∙◌, ap, arith, List, [], ◌∷◌, length, Option, none, some, ◌>>=◌,
}
use vnic.Fifo.Queue.{Fifo, pop}
use vnic.Link.Pipe.{Link}

-- A frame is deallocated before the next one is popped: the frames, in this order.
abbrev release : List ℕ → Fifo (List ℕ) × List (List ℕ) → Option (Fifo (List ℕ) × List (List ℕ))
release frame (queue, released) = some (queue, frame ∷ released)

-- `Link::drain`, for as many rounds of the loop as it is given, and `none` if they are not enough: the
-- queue and the frames whose memory is deallocated.
unfoldable pub drain : ℕ → Fifo (List ℕ) → Option (Fifo (List ℕ) × List (List ℕ))
unfolding pop
drain zero queue = none
drain (suc rounds) queue =
    let (queue1, popped) = pop queue in
    let rest = drain rounds queue1 in
    elim popped [ none ↦ some (queue1, []) | some frame ↦ rest >>= release frame ]

-- `~Link`
unfoldable pub destroy : ℕ → Link → Option (Link × List (List ℕ) × List (List ℕ))
destroy rounds link = do
  r ← drain rounds link.rx_queue
  t ← drain rounds link.tx_queue
  some (record link { rx_queue = r.0; tx_queue = t.0 }, r.1, t.1)

drain_empty :
    (rounds : ℕ) (queue : Fifo (List ℕ))
    → queue.queue ≡ []
    → drain (suc rounds) queue ≡ some (queue, [])
unfolding drain pop
drain_empty rounds queue e = ground arith

drain_frame :
    (rounds : ℕ) (queue : Fifo (List ℕ)) (frame : List ℕ) (frames : List (List ℕ))
    → queue.queue ≡ frame ∷ frames
    → drain (suc rounds) queue ≡ (drain rounds (record queue { queue = frames }) >>= release frame)
unfolding drain pop
drain_frame rounds queue frame frames e = ground arith

-- The queue without its frames.
abbrev pub emptied : Fifo (List ℕ) → Fifo (List ℕ)
emptied queue = record queue { queue = [] }

drain_lem :
    (rounds : ℕ) (frames : List (List ℕ)) (queue : Fifo (List ℕ))
    → queue.queue ≡ frames
    → length frames < rounds
    → drain rounds queue ≡ some (emptied queue, frames)
drain_lem zero frames queue e f = absurd (omega (arith, f))
drain_lem (suc rounds) [] queue e f =
    drain_empty rounds queue e ∙ ap (λ q. some (record queue { queue = q }, [])) e
drain_lem (suc rounds) (frame ∷ frames) queue e f =
    drain_frame rounds queue frame frames e
    ∙ ap (λ r. r >>= release frame)
        (drain_lem rounds frames (record queue { queue = frames }) refl (omega (arith, f)))

-- The loops of the destructor end: one round for each frame of the longer pipe and one more are
-- enough. They leave both pipes empty, and the memory of every frame is deallocated exactly once, in
-- the order of the frames.
pub destroy_lem :
    (rounds : ℕ) (link : Link)
    → length link.rx_queue.queue < rounds
    → length link.tx_queue.queue < rounds
    → destroy rounds link
      ≡ some (
        record link { rx_queue = emptied link.rx_queue; tx_queue = emptied link.tx_queue },
        link.rx_queue.queue,
        link.tx_queue.queue,
      )
unfolding destroy
destroy_lem rounds link f g =
    ap
      (λ r. r >>= λ r. drain rounds link.tx_queue >>= λ t.
        some (record link { rx_queue = r.0; tx_queue = t.0 }, r.1, t.1))
      (drain_lem rounds link.rx_queue.queue link.rx_queue refl f)
    ∙ ap
        (λ t. t >>= λ t. some (
          record link { rx_queue = emptied link.rx_queue; tx_queue = t.0 },
          link.rx_queue.queue,
          t.1,
        ))
        (drain_lem rounds link.tx_queue.queue link.tx_queue refl g)
