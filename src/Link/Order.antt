-- ===== src/Link/Order.antt =====
-- Runs of `putRx` and of `takeRx` on the inbound pipe of the link.
use vnic.Prelude.{
  ℕ, zero, suc, ◌+◌, ◌<◌, ◌≤◌, ◌≡◌, refl, sym, ◌∙◌, ap, arith, Bool, true, List, [], ◌∷◌, ◌++◌,
  length, length-append, All,
}
use mathlib.Core.List.{append_assoc, append-nil}
use vnic.ErrorCode.{Expected, Status, done}
use vnic.Fifo.Queue.{push, is_full}
use vnic.Link.Pipe.{Link, allocate, put_rx, take_rx}
use vnic.Link.Pipe
use vnic.Link.Take.{take_rx_frame}

-- The link with a pipe that holds these frames.
abbrev pub holding : List (List ℕ) → Link → Link
holding frames link = record link { rx_queue = record (link.rx_queue) { queue = frames } }

-- The frames are put one after another; the answers.
abbrev put_more : (Link → Link × List Status) → Link × Status → Link × List Status
put_more more (link, s) = let (link1, rest) = more link in (link1, s ∷ rest)

unfoldable pub put_frames : (ℕ → Bool) → List (List ℕ) → Link → Link × List Status
put_frames memory [] link = (link, [])
put_frames memory (frame ∷ frames) link =
    put_more (put_frames memory frames) (put_rx memory frame link)

-- `n` frames are taken, each into an empty vector.
abbrev take_more : (Link → Link × List (List ℕ)) → Link × List ℕ × Expected ℕ → Link × List (List ℕ)
take_more more (link, frame, r) = let (link1, rest) = more link in (link1, frame ∷ rest)

unfoldable pub take_frames : (ℕ → Bool) → ℕ → Link → Link × List (List ℕ)
take_frames memory zero link = (link, [])
take_frames memory (suc n) link = take_more (take_frames memory n) (take_rx memory [] link)

-- The successes.
abbrev pub all_done : List (List ℕ) → List Status
all_done [] = []
all_done (frame ∷ frames) = done ∷ all_done frames

module _ (memory : ℕ → Bool) (available : (size : ℕ) → memory size ≡ true) where
  put_room :
      (frame : List ℕ) (link : Link)
      → 0 < length frame
      → length link.rx_queue.queue < link.rx_queue.config.capacity
      → put_rx memory frame link ≡ (holding (link.rx_queue.queue ++ frame ∷ []) link, done)
  unfolding put_rx vnic.Link.Pipe.put allocate push is_full
  put_room frame link n room = ground (arith, available (length frame))

  put_frames_lem :
      (frames : List (List ℕ)) (link : Link)
      → All (λ frame. 0 < length frame) frames
      → length link.rx_queue.queue + length frames ≤ link.rx_queue.config.capacity
      → put_frames memory frames link
        ≡ (holding (link.rx_queue.queue ++ frames) link, all_done frames)
  unfolding put_frames
  put_frames_lem [] link n f = ap (λ q. (holding q link, [])) (sym (append-nil link.rx_queue.queue))
  put_frames_lem (frame ∷ frames) link (n, ns) f =
      let waiting = link.rx_queue.queue in
      let next = holding (waiting ++ frame ∷ []) link in
      let rest =
        put_frames_lem frames next ns (omega (arith, f, length-append waiting (frame ∷ []))) in
      ap (put_more (put_frames memory frames)) (put_room frame link n (omega (arith, f)))
      ∙ ap (λ r. (r.0, done ∷ r.1)) rest
      ∙ ap (λ q. (holding q link, all_done (frame ∷ frames)))
          (append_assoc waiting (frame ∷ []) frames)

  take_frames_lem :
      (frames : List (List ℕ)) (link : Link)
      → link.rx_queue.queue ≡ frames
      → take_frames memory (length frames) link ≡ (holding [] link, frames)
  unfolding take_frames
  take_frames_lem [] link e = ap (λ q. (holding q link, [])) e
  take_frames_lem (frame ∷ frames) link e =
      ap (take_more (take_frames memory (length frames)))
        (take_rx_frame memory [] link frame frames e (available (length frame)))
      ∙ ap (λ r. (r.0, frame ∷ r.1)) (take_frames_lem frames (holding frames link) refl)

  -- Frames that are not empty, put into a pipe with room for all of them while memory lasts, are all
  -- accepted; taken out again they come after the frames that waited, in the order in which they were
  -- put and byte for byte, and the pipe is empty.
  pub put_frames-take_frames :
      (frames : List (List ℕ)) (link : Link)
      → All (λ frame. 0 < length frame) frames
      → length link.rx_queue.queue + length frames ≤ link.rx_queue.config.capacity
      → ((put_frames memory frames link).1 ≡ all_done frames)
        × (take_frames memory
              (length (link.rx_queue.queue ++ frames))
              (put_frames memory frames link).0
            ≡ (holding [] link, link.rx_queue.queue ++ frames))
  put_frames-take_frames frames link n f =
      let waiting = link.rx_queue.queue in
      let put = put_frames_lem frames link n f in
      (
        ap (λ r. r.1) put,
        ap (λ r. take_frames memory (length (waiting ++ frames)) r.0) put
            ∙ take_frames_lem (waiting ++ frames) (holding (waiting ++ frames) link) refl,
      )
