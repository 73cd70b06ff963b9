-- ===== src/Port/Configured.antt =====
-- `configureImpl` and the configurations that it takes.
use vnic.Prelude.{
  ℕ, ◌≡◌, ◌≢◌, refl, ap, ◌∙◌, arith, Bool, true, false, Bool-cases, ◌⊎◌, inl, inr, Option-cases,
  List, [], ◌∷◌, Option, some, ◌>>=◌, length, replicate, All, All-replicate, length-replicate,
}
use vnic.ErrorCode.{ErrorCode, eqb, value, eqb-none, unexpected, done}
use vnic.Memory.Heap.{Heap}
use vnic.Parser.State.{zero_mac}
use vnic.Validate.Checks.{parse_mac}
use vnic.Link.Pipe
use vnic.RxQueue.Queue.{stop_impl, drain, release_all}
use vnic.RxQueue.Lifecycle as Rx
use vnic.RxQueue.Idle as RxIdle
use vnic.TxQueue.Lifecycle as Tx
use vnic.TxQueue.Idle as TxIdle
use vnic.Port.Config.{Rss, Config, validate, validate_lists, valid_mac}
use vnic.Port.State.{Port}
use vnic.Port.Queues.{RxQueues, clear_rx}
use vnic.Port.Table.{configure_rss}
use vnic.Port.Reta.{IsTable}
use vnic.Port.Setup.{IsWanted, validate-none, configure_rss-IsTable}
use vnic.Port.Control.{
  configure_link, configure_queues, put_rss, after_rss, after_link, configure_parts, configure_impl,
}

-- The destructors of queues without packets leave the heap alone.
clear_rx-drained :
    (fuel : ℕ) (qs : RxQueues) (h : Heap) → All RxIdle.IsDrained qs → clear_rx fuel qs h ≡ some h
unfolding clear_rx vnic.RxQueue.Lifecycle.destroy stop_impl drain release_all
clear_rx-drained fuel [] h d = refl
clear_rx-drained fuel (q ∷ qs) h (d, ds) = rw d (clear_rx-drained fuel qs h ds)

link_configured :
    (c : Pipe.Config) (link : Pipe.Link)
    → Pipe.validate c ≡ ErrorCode.none
    → Pipe.configure c link ≡ (Pipe.apply c link, done)
unfolding vnic.Link.Pipe.configure
link_configured c link valid = rw (Pipe.configure, valid) refl

link_valid :
    (c : Pipe.Config)
    → eqb (Pipe.validate c) ErrorCode.none ≡ true
    → Pipe.validate c ≡ ErrorCode.none
link_valid c e = eqb-none (Pipe.validate c) e

mac_valid {ℓ} :
    {Text : Type ℓ} (scan_mac : Text → List ℕ) (is_empty : Text → Bool) (c : Config Text)
    → validate_lists scan_mac is_empty c ≡ ErrorCode.none
    → valid_mac scan_mac is_empty c.mac_addr ≡ true
unfolding validate_lists
mac_valid scan_mac is_empty c e = ground arith

module _ {ℓ} {Text : Type ℓ} (fuel : ℕ) (empty : Text) (port : Port Text) (h : Heap) where
  linked_lem :
      Pipe.validate port.config.link ≡ ErrorCode.none
      → configure_link port ≡ (record port { link = Pipe.apply port.config.link port.link }, done)
  unfolding configure_link vnic.Link.Pipe.configure
  linked_lem valid =
      ap (λ r. (record port { link = r.0 }, r.1)) (link_configured port.config.link port.link valid)

  queues_lem :
      All RxIdle.IsDrained port.rx_queues
      → configure_queues fuel port h
        ≡ some (
          record port {
            rx_queues = replicate port.config.rx_queue_count Rx.new_queue;
            tx_queues = replicate port.config.tx_queue_count Tx.new_queue;
          },
          h,
          done,
        )
  unfolding configure_queues
  queues_lem d = rw (configure_queues, clear_rx-drained fuel port.rx_queues h d) refl

-- The address of the port: zero if none is given, and otherwise the one that is parsed.
abbrev pub HasAddress {ℓ} :
    {Text : Type ℓ} → (Text → List ℕ) → (Text → Bool) → Text → List ℕ → Type 0
HasAddress scan_mac is_empty text mac =
    (is_empty text ≡ true) × (mac ≡ zero_mac)
    ⊎ (is_empty text ≡ false) × (parse_mac scan_mac text ≡ some mac)

-- The redirection table: with RSS off the one before, and otherwise the one that is wanted.
abbrev pub HasTable : Rss → ℕ → List ℕ → List ℕ → Type 0
HasTable rss count before table =
    (rss.enabled ≡ false) × (table ≡ before)
    ⊎ (rss.enabled ≡ true) × IsTable count table × IsWanted rss count table

-- What a valid configuration leaves behind: every member of the port.
pub record IsConfigured {ℓ} {Text : Type ℓ} (scan_mac : Text → List ℕ) (is_empty : Text → Bool)
    (c : Config Text) (before port : Port Text) : Type ℓ where
  pub config : port.config ≡ c
  pub rx_count : length port.rx_queues ≡ c.rx_queue_count
  pub tx_count : length port.tx_queues ≡ c.tx_queue_count
  pub rx_new : port.rx_queues ≡ replicate c.rx_queue_count Rx.new_queue
  pub tx_new : port.tx_queues ≡ replicate c.tx_queue_count Tx.new_queue
  pub rx_idle : All RxIdle.IsIdle port.rx_queues
  pub tx_idle : All TxIdle.IsIdle port.tx_queues
  pub link_config : port.link.config ≡ c.link
  pub link_frames : port.link.rx_queue.queue ≡ before.link.rx_queue.queue
  pub link : port.link ≡ Pipe.apply c.link before.link
  pub address : HasAddress scan_mac is_empty c.mac_addr port.mac_addr
  pub table : HasTable c.rss (length port.rx_queues) before.reta port.reta
  pub stats : port.stats ≡ before.stats
  pub thread : port.thread ≡ before.thread

module _ {ℓ} {Text : Type ℓ} (scan_mac : Text → List ℕ) (is_empty : Text → Bool) (c : Config Text)
    (valid : validate scan_mac is_empty c ≡ ErrorCode.none) where
  rss_lem :
      (current : List ℕ)
      → (table : List ℕ) × ((configure_rss c.rss c.rx_queue_count current ≡ (table, done))
          × HasTable c.rss c.rx_queue_count current table)
  unfolding configure_rss
  rss_lem current = elim (Bool-cases c.rss.enabled) [
    | inl on ↦
        let (table, (e, t, w)) = configure_rss-IsTable scan_mac is_empty c current on valid in
        (table, (e, inr (on, t, w)))
    | inr off ↦ (current, (rw (configure_rss, off) refl, inl (off, refl)))
  ]

  -- The port with everything applied.
  abbrev applied : List ℕ → List ℕ → Port Text → Port Text
  applied mac table port = record port {
    config = c;
    mac_addr = mac;
    link = Pipe.apply c.link port.link;
    rx_queues = replicate c.rx_queue_count Rx.new_queue;
    tx_queues = replicate c.tx_queue_count Tx.new_queue;
    reta = table;
  }

  parts_lem :
      (fuel : ℕ) (empty : Text) (port : Port Text) (h : Heap) (mac table : List ℕ)
      → All RxIdle.IsDrained port.rx_queues
      → configure_rss c.rss c.rx_queue_count port.reta ≡ (table, done)
      → configure_parts fuel empty (record port { config = c; mac_addr = mac }) h
        ≡ some (applied mac table port, h, done)
  unfolding configure_parts after_link after_rss put_rss
  parts_lem fuel empty port h mac table drained e =
      let start = record port { config = c; mac_addr = mac } in
      let linked = record start { link = Pipe.apply c.link port.link } in
      ap (after_link fuel empty h) (
        linked_lem fuel empty start h
          (link_valid c.link (validate-none scan_mac is_empty c valid).2))
      ∙ ap (λ o. o >>= λ r. after_rss fuel empty r.1 (put_rss r.0))
          (queues_lem fuel empty linked h drained)
      ∙ ap (λ r. after_rss fuel empty h (record (applied mac table port) { reta = r.0 }, r.1)) e

  -- The address that is set.
  mac_lem :
      (is_empty c.mac_addr ≡ true)
      ⊎ (mac : List ℕ) × ((is_empty c.mac_addr ≡ false)
          × (parse_mac scan_mac c.mac_addr ≡ some mac))
  unfolding valid_mac
  mac_lem =
      let v = mac_valid scan_mac is_empty c (validate-none scan_mac is_empty c valid).1 in
      elim (Bool-cases (is_empty c.mac_addr)) [
        | inl none' ↦ inl none'
        | inr given ↦ elim (Option-cases (parse_mac scan_mac c.mac_addr)) [
          | inl bad ↦ absurd (cc (unaccepted given bad, v))
          | inr (mac, good) ↦ inr (mac, (given, good))
        ]
      ]
    where
      unaccepted :
          is_empty c.mac_addr ≡ false
          → parse_mac scan_mac c.mac_addr ≡ Option.none
          → valid_mac scan_mac is_empty c.mac_addr ≡ false
      unaccepted given bad = rw (valid_mac, given, bad) refl

  applied-IsConfigured :
      (port : Port Text) (mac table : List ℕ)
      → HasAddress scan_mac is_empty c.mac_addr mac
      → HasTable c.rss c.rx_queue_count port.reta table
      → IsConfigured scan_mac is_empty c port (applied mac table port)
  unfolding vnic.Link.Pipe.apply vnic.Fifo.Queue.reserve
  applied-IsConfigured port mac table a t = record {
    config = refl;
    rx_count = length-replicate c.rx_queue_count Rx.new_queue;
    tx_count = length-replicate c.tx_queue_count Tx.new_queue;
    rx_new = refl;
    tx_new = refl;
    rx_idle = All-replicate RxIdle.IsIdle c.rx_queue_count Rx.new_queue (refl, refl);
    tx_idle = All-replicate TxIdle.IsIdle c.tx_queue_count Tx.new_queue refl;
    link_config = refl;
    link_frames = refl;
    link = refl;
    address = a;
    table = rw (length-replicate c.rx_queue_count Rx.new_queue) t;
    stats = refl;
    thread = refl;
  }

  passes : eqb (validate scan_mac is_empty c) ErrorCode.none ≡ true
  unfolding eqb value
  passes = rw valid refl

  valid_lem :
      (fuel : ℕ) (empty : Text) (port : Port Text) (h : Heap)
      → All RxIdle.IsDrained port.rx_queues
      → (port' : Port Text) × ((configure_impl scan_mac is_empty fuel empty c port h
            ≡ some (port', h, done))
          × IsConfigured scan_mac is_empty c port port')
  unfolding configure_impl
  valid_lem fuel empty port h drained =
      let (table, (e, t)) = rss_lem port.reta in
      elim mac_lem [
        | inl none' ↦ (
          applied zero_mac table port,
          (
            rw (configure_impl, passes, none')
                (parts_lem fuel empty port h zero_mac table drained e),
            applied-IsConfigured port zero_mac table (inl (none', refl)) t,
          ),
        )
        | inr (mac, (given, good)) ↦ (
          applied mac table port,
          (
            rw (configure_impl, passes, given, good)
                (parts_lem fuel empty port h mac table drained e),
            applied-IsConfigured port mac table (inr (given, good)) t,
          ),
        )
      ]

-- `configureImpl` fails on exactly the configurations that `Config::validate` refuses, with that
-- error and without any effect; a configuration that passes is applied completely, so that its rollback
-- never runs: the port has the configured numbers of new queues, none of them running; the link has
-- its configuration and still the frames that wait in it; the address is the parsed one, or zero if
-- none is given; with RSS on the table is the given one, or round-robin over 512 entries, and has a
-- power of two of entries that name receive queues; with RSS off it is the one before; the counters
-- and the thread are as they were. The queues that are
-- replaced hold no packets.
pub configure_impl-IsConfigured {ℓ} :
    {Text : Type ℓ} (scan_mac : Text → List ℕ) (is_empty : Text → Bool) (fuel : ℕ) (empty : Text)
    (c : Config Text) (port : Port Text) (h : Heap)
    → All RxIdle.IsDrained port.rx_queues
    → let code = validate scan_mac is_empty c in
      let result = configure_impl scan_mac is_empty fuel empty c port h in
      ((code ≡ ErrorCode.none)
        × ((port' : Port Text) × ((result ≡ some (port', h, done))
              × IsConfigured scan_mac is_empty c port port')))
      ⊎ ((code ≢ ErrorCode.none) × (result ≡ some (port, h, unexpected code)))
unfolding configure_impl eqb value
configure_impl-IsConfigured scan_mac is_empty fuel empty c port h drained =
    let code = validate scan_mac is_empty c in
    elim (Bool-cases (eqb code ErrorCode.none)) [
      | inl none' ↦
          let valid = eqb-none code none' in
          inl (valid, valid_lem scan_mac is_empty c valid fuel empty port h drained)
      | inr bad ↦ inr (differs bad, rw (configure_impl, bad) refl)
    ]
  where
    differs :
        eqb (validate scan_mac is_empty c) ErrorCode.none ≡ false
        → validate scan_mac is_empty c ≢ ErrorCode.none
    differs bad e = absurd (cc (bad, ap (λ k. eqb k ErrorCode.none) e))
