-- ===== src/Port/Round.antt =====
-- A round of `VNic::poll`.
use mathlib.Core.Path.{subst}
use vnic.Prelude.{
  ℕ, ◌<◌, ◌≡◌, refl, ap, arith, Bool, true, false, ◌∙◌, Bool-cases, List, [], ◌∷◌, some, ◌>>=◌,
  Option-cases, inl, inr, length, All, Returns, Returns->>=, Returns-mono, if◌then◌else◌, ◌==◌,
}
use vnic.ErrorCode.{ErrorCode, value, eqb, Expected, Status, ok, unexpected, done}
use vnic.Stats.{fetch_errors}
use vnic.Net.Bytes.{IsBytes}
use vnic.Parser.State.{Parser}
use vnic.Parser.Parse.{parse}
use vnic.Parser.Tags.{Tagged, parse-Tagged}
use vnic.Parser.Complete.{Complete, parse-Complete}
use vnic.Packet.Addresses.{get_5tuple-Addressed}
use vnic.Link.Pipe.{Link, take_rx}
use vnic.Link.Take.{take_rx_empty, take_rx_frame, take_rx_lost}
use vnic.Memory.Heap.{Heap, Malloc}
use vnic.RxQueue.PutDescriptor.{Status-cases, List-cases}
use vnic.Rss.Range.{HasByteAddresses}
use vnic.Packet.FiveTuple.{get_5tuple}
use vnic.Port.State.{Port}
use vnic.Port.Receive.{validate, distribute}
use vnic.Port.Admission.{admission, validate-admission}
use vnic.Port.Delivery.{IsServing}
use vnic.Port.Fate.{Fate, Accounted, distribute-Accounted}
use vnic.Port.Poll.{new_parser, reject, process, poll_taken, poll_round}

get_5tuple-HasByteAddresses :
    (frame : List ℕ) (p : Parser)
    → IsBytes frame
    → Complete frame (p, done)
    → HasByteAddresses (get_5tuple p)
get_5tuple-HasByteAddresses frame p b complete =
    let a = get_5tuple-Addressed frame p b complete in
    record { saddr6_bytes = a.0.0; daddr6_bytes = a.1.0; saddr6_size = a.0.1; daddr6_size = a.1.1 }

module _ {ℓ} {Text : Type ℓ} (m : Malloc) (now : ℕ) (frame : List ℕ) (port : Port Text)
    (h : Heap) where
  reject-Accounted : IsServing port → Accounted frame port h (reject (length frame) port, h)
  reject-Accounted serving = (
    Fate.rejected,
    refl,
    refl,
    refl,
    refl,
    refl,
    record {
      some_queue = serving.some_queue;
      table = serving.table;
      ready = serving.ready;
      key = serving.key;
    },
    (refl, refl),
  )

  unparsed :
      (p : Parser) (e : ErrorCode)
      → parse new_parser frame ≡ some (p, unexpected e)
      → process m now frame port h ≡ some (reject (length frame) port, h)
  unfolding process
  unparsed p e bad = rw bad refl

  invalid :
      (p : Parser) (e : ErrorCode)
      → parse new_parser frame ≡ some (p, done)
      → validate frame p port ≡ some (unexpected e)
      → process m now frame port h ≡ some (reject (length frame) port, h)
  unfolding process
  invalid p e good bad = rw (good, bad) refl

  admitted :
      (p : Parser)
      → parse new_parser frame ≡ some (p, done)
      → validate frame p port ≡ some done
      → process m now frame port h ≡ (distribute m now p frame port h >>= λ r. some (r.0, r.1))
  unfolding process
  admitted p good valid = rw (good, valid) refl

  process_parsed :
      (p : Parser) (s : Status)
      → IsBytes frame
      → IsServing port
      → parse new_parser frame ≡ some (p, s)
      → Returns (Accounted frame port h) (process m now frame port h)
  process_parsed p (unexpected e) b serving bad = rw (unparsed p e bad) (reject-Accounted serving)
  process_parsed p (ok u) b serving good =
      elim (Status-cases (admission frame p.l2_offset p.l1.protocol p.l2.protocol port)) [
        | inr (e, bad) ↦
            rw (invalid p e good (validate-admission new_parser p frame port b good ∙ ap some bad))
              (reject-Accounted serving)
        | inl fine ↦
            rw (admitted p good (validate-admission new_parser p frame port b good ∙ ap some fine))
              (Returns->>= _ (Accounted frame port h) (distribute m now p frame port h) _
                (distribute-Accounted m now p frame port h serving (
                  get_5tuple-HasByteAddresses frame p b
                    (subst (Returns (Complete frame)) good (parse-Complete new_parser frame))))
                (λ r a. a))
      ]

  -- A frame of bytes is accounted for once, whatever it holds.
  pub process-Accounted :
      IsBytes frame → IsServing port → Returns (Accounted frame port h) (process m now frame port h)
  process-Accounted b serving = elim (Option-cases (parse new_parser frame)) [
    | inl undefined' ↦ absurd (subst (Returns Tagged) undefined' (parse-Tagged new_parser frame))
    | inr (r, e) ↦ process_parsed r.0 r.1 b serving e
  ]

-- What may be queued on the link: frames of bytes, none of them empty.
abbrev pub IsFrame : List ℕ → Type 0
IsFrame frame = (0 < length frame) × IsBytes frame

module _ {Text : Type 0} where
  -- The port without its oldest frame.
  abbrev pub without : List (List ℕ) → Port Text → Port Text
  without rest port = record port {
    link = record (port.link) { rx_queue = record (port.link.rx_queue) { queue = rest } };
  }

  -- What a round does. A link that is down, or that has no frame, leaves the port as it is; otherwise
  -- the oldest frame is taken and accounted for, or lost to a failed allocation and counted as an
  -- error.
  pub data Polled (memory : ℕ → Bool) (port : Port Text) (h : Heap)
      : Port Text × Heap → Type 0 where
    down : port.link.is_up ≡ false → Polled memory port h (port, h)
    idle : port.link.rx_queue.queue ≡ [] → Polled memory port h (port, h)
    lost :
        {frame : List ℕ} {rest : List (List ℕ)}
        → port.link.is_up ≡ true
        → port.link.rx_queue.queue ≡ frame ∷ rest
        → memory (length frame) ≡ false
        → Polled memory port h (record (without rest port) { stats = fetch_errors 1 port.stats }, h)
    taken :
        {frame : List ℕ} {rest : List (List ℕ)} {r : Port Text × Heap}
        → port.link.is_up ≡ true
        → port.link.rx_queue.queue ≡ frame ∷ rest
        → memory (length frame) ≡ true
        → Accounted frame (without rest port) h r
        → Polled memory port h r

  pub IsServing-link :
      (port : Port Text) (link : Link) → IsServing port → IsServing (record port { link = link })
  IsServing-link port link serving = record {
    some_queue = serving.some_queue;
    table = serving.table;
    ready = serving.ready;
    key = serving.key;
  }

  module _ (m : Malloc) (memory : ℕ → Bool) (now : ℕ) (port : Port Text) (h : Heap) where
    poll_down : port.link.is_up ≡ false → poll_round m memory now port h ≡ some (port, h)
    unfolding poll_round
    poll_down off = rw (poll_round, off) refl

    poll_up :
        (r : Link × List ℕ × Expected ℕ)
        → port.link.is_up ≡ true
        → take_rx memory [] port.link ≡ r
        → poll_round m memory now port h ≡ poll_taken m now port h r
    unfolding poll_round
    poll_up r up e =
        ap
          (λ b. if b then poll_taken m now port h (take_rx memory [] port.link) else some (port, h))
          up
        ∙ ap (poll_taken m now port h) e

    poll_frame :
        (frame : List ℕ) (rest : List (List ℕ))
        → IsServing port
        → IsFrame frame
        → port.link.is_up ≡ true
        → port.link.rx_queue.queue ≡ frame ∷ rest
        → Returns (Polled memory port h) (poll_round m memory now port h)
    unfolding poll_taken eqb value
    poll_frame frame rest serving b up e = elim (Bool-cases (memory (length frame))) [
      | inr full ↦
          rw (poll_up _ up (take_rx_lost memory [] port.link frame rest e full)) (lost up e full)
      | inl grows ↦
          rw (poll_up _ up (take_rx_frame memory [] port.link frame rest e grows), nonempty)
            (Returns-mono _ _ (process m now frame (without rest port) h)
              (process-Accounted m now frame (without rest port) h b.1
                (IsServing-link port _ serving))
              (λ r a. taken up e grows a))
    ]
      where
        nonempty : (length frame == 0) ≡ false
        nonempty = ground (arith, b.0)

    -- A round of a port in service is defined, whatever bytes the oldest frame has, and it is one of
    -- these: the link is down or empty, and nothing changes; the oldest frame leaves the link, and is
    -- counted once, as processed, as dropped, or as rejected and dropped; or there is no memory for
    -- it, and it is counted as an error. A frame that was processed is stored in one receive queue,
    -- byte for byte; otherwise the heap is as it was.
    pub poll_round-Polled :
        IsServing port
        → All IsFrame port.link.rx_queue.queue
        → Returns (Polled memory port h) (poll_round m memory now port h)
    unfolding poll_taken eqb value
    poll_round-Polled serving b = elim (Bool-cases port.link.is_up) [
      | inr off ↦ rw (poll_down off) (down off)
      | inl up ↦ elim (List-cases port.link.rx_queue.queue) [
        | inl e ↦ rw (poll_up _ up (take_rx_empty memory [] port.link e)) (idle e)
        | inr (frame, rest, e) ↦ poll_frame frame rest serving (subst (All IsFrame) e b).0 up e
      ]
    ]
