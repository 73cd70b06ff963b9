-- ===== src/Port/Tests.antt =====
-- A configuration with RSS over three queues.
use vnic.Prelude.{
  ℕ, ◌≡◌, ◌≢◌, ◌⊎◌, refl, ◌<◌, Bool, true, false, List, [], ◌∷◌, none, some, Returns, replicate,
  arith, All,
}
use vnic.ErrorCode.{ErrorCode, eqb, value, unexpected, done}
use vnic.Rss.Input.{HashFunc, SymmetryMode}
use vnic.Rss.Protocol
use vnic.Validate.Checks.{parse_mac, mac_octets}
use vnic.Link.Pipe
use vnic.Port.Config.{
  Config, validate, validate_rss, validate_lists, all_queues, all_vlans, valid_mac,
}
use vnic.Port.Table.{configure_rss, lookup}
use vnic.Stats.{zero_stats}
use vnic.Parser.State.{zero_mac}
use vnic.Fifo.Queue.{empty_fifo}
use vnic.Port.State.{Port}
use vnic.Port.Control.{default_config, configure_impl}
use vnic.Port.Configured.{IsConfigured, configure_impl-IsConfigured}
use vnic.Net.Bytes.{IsByte}
use vnic.Port.Bringup.{Setup}
use vnic.Port.Calls.{Call}
use vnic.Port.Lifetime.{lifetime, Over, lifetime-Over}
use vnic.Port.Scenario.{memory}
use vnic.Port.Setup.{configure_rss-validate}

-- A text is the numbers that are scanned from it.
abbrev scan : List ℕ → List ℕ
scan text = text

abbrev empty' : List ℕ → Bool
empty' [] = true
empty' (x ∷ text) = false

abbrev three_queues : Config (List ℕ)
three_queues = record {
  promiscuous_enabled = false;
  mtu = 1500;
  rx_queue_count = 3;
  tx_queue_count = 1;
  rss = record {
    enabled = true;
    hf = HashFunc.toeplitz;
    protocol = Protocol.all;
    symmetry = SymmetryMode.symmetric;
    key = replicate 40 0x6d;
    reta = [];
  };
  mac_addr = 2 ∷ 0 ∷ 0 ∷ 0 ∷ 0 ∷ 1 ∷ [];
  vlan_allow_list = 100 ∷ [];
  link = record {
    rx_queue_depth = 256;
    tx_queue_depth = 256;
    rx_frame_size = 4096;
    tx_frame_size = 4096;
  };
}

three_queues_valid : validate scan empty' three_queues ≡ ErrorCode.none
unfolding validate validate_rss validate_lists all_queues all_vlans valid_mac parse_mac mac_octets
    vnic.Link.Pipe.validate eqb value
three_queues_valid = refl

configure_rss-validate_example :
    let (table, s) = configure_rss three_queues.rss 3 [] in
    (s ≡ done) × ((hash : ℕ) → Returns (λ k. k < 3) (lookup table hash))
configure_rss-validate_example =
    configure_rss-validate scan empty' three_queues [] refl three_queues_valid

-- A port before its first configuration, with texts that are lists of numbers.
abbrev new_port : Port (List ℕ)
new_port = record {
  link = record {
    rx_queue = empty_fifo;
    tx_queue = empty_fifo;
    rx_allocator = record { block_size = 0; capacity = 0; socket_id = 0 };
    tx_allocator = record { block_size = 0; capacity = 0; socket_id = 0 };
    config = Pipe.default_config;
    is_up = false;
  };
  reta = [];
  rx_queues = [];
  tx_queues = [];
  stats = zero_stats;
  config = default_config [];
  mac_addr = zero_mac;
  thread = false;
}

configure_impl-IsConfigured_example :
    ((validate scan empty' three_queues ≡ ErrorCode.none)
      × ((port' : Port (List ℕ)) × ((configure_impl scan empty' 512 [] three_queues new_port
                (λ p. none)
              ≡ some (port', (λ p. none), done))
            × IsConfigured scan empty' three_queues new_port port')))
    ⊎ ((validate scan empty' three_queues ≢ ErrorCode.none)
        × (configure_impl scan empty' 512 [] three_queues new_port (λ p. none)
            ≡ some (new_port, (λ p. none), unexpected (validate scan empty' three_queues))))
configure_impl-IsConfigured_example =
    configure_impl-IsConfigured scan empty' 512 [] three_queues new_port (λ p. none) tt

-- Its queues are configured, the receive queues with room for four packets each.
abbrev setups : List Setup
setups =
    Setup.receives 0 (record { queue_id = 0; size = 4; socket_id = 0 })
    ∷ Setup.receives 1 (record { queue_id = 1; size = 4; socket_id = 0 })
    ∷ Setup.receives 2 (record { queue_id = 2; size = 4; socket_id = 0 })
    ∷ Setup.transmits 0
    ∷ []

key-IsBytes : All IsByte three_queues.rss.key
key-IsBytes = ground arith

abbrev plenty : ℕ → Bool
plenty size = true

-- A broadcast frame arrives, is taken from the link, and goes to the application and back.
abbrev calls : List Call
calls =
    Call.goes_up
    ∷ Call.arrives plenty (replicate 60 0xff)
    ∷ Call.polls (record { malloc = memory; memory = plenty; now = 7 })
    ∷ Call.receives 0
    ∷ Call.returns 0 0 1
    ∷ []

lifetime-Over_example :
    Returns
      (Over (λ p. none))
      (lifetime scan empty' 512 [] three_queues setups true calls new_port (λ p. none))
lifetime-Over_example =
    lifetime-Over scan empty' 512 [] three_queues setups true calls new_port (λ p. none)
      (omega arith) (tt, (ground arith, (tt, (tt, (tt, tt))))) (omega arith) key-IsBytes tt tt
