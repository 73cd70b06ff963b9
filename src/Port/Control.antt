-- ===== src/Port/Control.antt =====
-- The control path of the port: `configureImpl` and what it calls, `startImpl`, `stopImpl`, the
-- destructor, `resetStats` and the access to the queues.
use vnic.Prelude.{
  ℕ, Bool, true, false, not, List, [], Option, some, ◌>>=◌, length, get_elem?, set, leb, replicate,
  if◌then◌else◌,
}
use vnic.ErrorCode.{ErrorCode, eqb, Status, ok, unexpected, done}
use vnic.Memory.Heap.{Heap}
use vnic.Stats
use vnic.Stateful.Automaton.{Machine}
use vnic.Rss.Input.{HashFunc, SymmetryMode}
use vnic.Parser.State.{zero_mac}
use vnic.Validate.Checks.{parse_mac}
use vnic.Link.Pipe
use vnic.RxQueue.Queue.{RxQueue}
use vnic.RxQueue.Queue
use vnic.RxQueue.Lifecycle as Rx
use vnic.TxQueue.Queue.{TxQueue}
use vnic.TxQueue.Lifecycle as Tx
use vnic.Port.Config.{Config, Rss, validate}
use vnic.Port.Table.{configure_rss}
use vnic.Port.State.{Port}
use vnic.Port.Queues.{or_else, start_queues, stop_queues, clear_rx}

-- `Rss{}`
abbrev pub default_rss : Rss
default_rss = record {
  enabled = false;
  hf = HashFunc.none;
  protocol = 0;
  symmetry = SymmetryMode.none;
  key = [];
  reta = [];
}

-- A call's result.
abbrev pub Outcome {ℓ} : Type ℓ → Type ℓ
Outcome Text = Option (Port Text × Heap × Status)

module _ {ℓ} {Text : Type ℓ} where
  -- `Config{}`, given the empty text.
  abbrev pub default_config : Text → Config Text
  default_config empty = record {
    promiscuous_enabled = false;
    mtu = 1500;
    rx_queue_count = 1;
    tx_queue_count = 0;
    rss = default_rss;
    mac_addr = empty;
    vlan_allow_list = [];
    link = Pipe.default_config;
  }

  -- `configureLink`
  unfoldable pub configure_link : Port Text → Port Text × Status
  configure_link port =
      let (link, s) = Pipe.configure port.config.link port.link in (record port { link = link }, s)

  -- `configureQueues`
  unfoldable pub configure_queues : ℕ → Port Text → Heap → Outcome Text
  configure_queues fuel port h = do
    h1 ← clear_rx fuel port.rx_queues h
    some (
      record port {
        rx_queues = replicate port.config.rx_queue_count Rx.new_queue;
        tx_queues = replicate port.config.tx_queue_count Tx.new_queue;
      },
      h1,
      done,
    )

  -- `configureRss`
  unfoldable pub put_rss : Port Text → Port Text × Status
  put_rss port =
      let (reta, s) = configure_rss port.config.rss port.config.rx_queue_count port.reta in
      (record port { reta = reta }, s)

  -- The callback of `rollback` in `configureImpl`, and the return of the error.
  unfoldable pub roll_back : ℕ → Text → ErrorCode → Port Text → Heap → Outcome Text
  roll_back fuel empty e port h = do
    h1 ← clear_rx fuel port.rx_queues h
    some (
      record port {
        rx_queues = [];
        tx_queues = [];
        reta = [];
        config = default_config empty;
        mac_addr = zero_mac;
      },
      h1,
      unexpected e,
    )

  -- `configureImpl` behind `configureRss`, with its results.
  unfoldable pub after_rss : ℕ → Text → Heap → Port Text × Status → Outcome Text
  after_rss fuel empty h (port, unexpected e) = roll_back fuel empty e port h
  after_rss fuel empty h (port, ok u) = some (port, h, done)

  -- `configureImpl` behind `configureLink`, with its results; `configureQueues` never fails.
  unfoldable pub after_link : ℕ → Text → Heap → Port Text × Status → Outcome Text
  after_link fuel empty h (port, unexpected e) =
      roll_back fuel empty (or_else e ErrorCode.link_configure_failed) port h
  after_link fuel empty h (port, ok u) = do
    r ← configure_queues fuel port h
    after_rss fuel empty r.1 (put_rss r.0)

  -- `configureImpl` from `configureLink` on.
  unfoldable pub configure_parts : ℕ → Text → Port Text → Heap → Outcome Text
  configure_parts fuel empty port h = after_link fuel empty h (configure_link port)

  module _ (scan_mac : Text → List ℕ) (is_empty : Text → Bool) where
    -- `configureImpl(config)`
    unfoldable pub configure_impl : ℕ → Text → Config Text → Port Text → Heap → Outcome Text
    configure_impl fuel empty config port h =
        let applied = record port { config = config; mac_addr = zero_mac } in
        if not (eqb (validate scan_mac is_empty config) ErrorCode.none)
        then some (port, h, unexpected (validate scan_mac is_empty config))
        else if is_empty config.mac_addr
        then configure_parts fuel empty applied h
        else elim (parse_mac scan_mac config.mac_addr) [
          | Option.none ↦ roll_back fuel empty ErrorCode.config_mac_invalid applied h
          | some mac ↦ configure_parts fuel empty (record applied { mac_addr = mac }) h
        ]

  -- `configureImpl(queueId, config)` of a receive queue.
  unfoldable pub configure_rx : ℕ → Queue.Config → Port Text → Heap → Outcome Text
  configure_rx queue_id config port h =
      if leb (length port.rx_queues) queue_id
      then some (port, h, unexpected ErrorCode.queue_invalid_id)
      else if not (Queue.is_valid config)
      then some (port, h, unexpected ErrorCode.config_queue_size_invalid)
      else do
        q ← get_elem? port.rx_queues queue_id
        r ← Rx.configure config q h
        some (record port { rx_queues = set port.rx_queues queue_id r.0 }, r.1, r.2)

  -- The same of a transmit queue, whose configuration is always valid.
  unfoldable pub configure_tx : ℕ → Port Text → Option (Port Text × Status)
  configure_tx queue_id port =
      if leb (length port.tx_queues) queue_id
      then some (port, unexpected ErrorCode.queue_invalid_id)
      else do
        q ← get_elem? port.tx_queues queue_id
        r ← Tx.configure q
        some (record port { tx_queues = set port.tx_queues queue_id r.0 }, r.1)

  -- `startImpl`; `spawns` is whether the thread can be created.
  unfoldable pub start_impl : ℕ → Bool → Port Text → Heap → Outcome Text
  start_impl fuel spawns port h = do
    r ← start_queues fuel port.rx_queues port.tx_queues h
    let started = record port { rx_queues = r.0; tx_queues = r.1 }
    let undone = do
      s ← stop_queues fuel r.0 r.1 r.2
      some (
        record port { rx_queues = s.0; tx_queues = s.1 },
        s.2,
        unexpected ErrorCode.thread_create_failed,
      )
    elim r.3 [
      | unexpected e ↦ some (started, r.2, unexpected e)
      | ok u ↦ if spawns then some (record started { thread = true }, r.2, done) else undone
    ]

  -- `stopImpl`
  unfoldable pub stop_impl : ℕ → Port Text → Heap → Outcome Text
  stop_impl fuel port h = do
    r ← stop_queues fuel port.rx_queues port.tx_queues h
    some (record port { rx_queues = r.0; tx_queues = r.1; thread = false }, r.2, r.3)

  -- `~VNic`: the heap that is left after `stopQueues` and the destructors of the receive queues.
  unfoldable pub destroy : ℕ → Port Text → Heap → Option Heap
  destroy fuel port h = do r ← stop_impl fuel port h; clear_rx fuel (r.0.rx_queues) r.1

  -- `resetStats`
  unfoldable pub reset_stats : Port Text → Port Text
  reset_stats port = record port { stats = Stats.reset port.stats }

  -- `getRxQueue` and `getTxQueue`; the inner `none` is `nullptr`.
  unfoldable pub get_rx_queue : ℕ → Port Text → Option (Option (Machine RxQueue))
  get_rx_queue queue_id port =
      if leb (length port.rx_queues) queue_id
      then some Option.none
      else (get_elem? port.rx_queues queue_id >>= λ q. some (some q))

  unfoldable pub get_tx_queue : ℕ → Port Text → Option (Option (Machine TxQueue))
  get_tx_queue queue_id port =
      if leb (length port.tx_queues) queue_id
      then some Option.none
      else (get_elem? port.tx_queues queue_id >>= λ q. some (some q))
