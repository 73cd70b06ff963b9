-- ===== src/Port/State.antt =====
-- The members of `class VNic`.
use vnic.Prelude.{ℕ, Bool, List}
use vnic.Stats.{Stats}
use vnic.Stateful.Automaton.{Machine}
use vnic.Link.Pipe.{Link}
use vnic.RxQueue.Queue.{RxQueue}
use vnic.TxQueue.Queue.{TxQueue}
use vnic.Port.Config.{Config}

-- `rxQueueConfigs_` and `txQueueConfigs_` are not used by the code; `thread` is whether `thread_` is
-- joinable. The port's own `state_` is that of a `Machine` around it.
pub record Port {ℓ} (Text : Type ℓ) : Type ℓ where
  pub link : Link
  pub reta : List ℕ
  pub rx_queues : List (Machine RxQueue)
  pub tx_queues : List (Machine TxQueue)
  pub stats : Stats
  pub config : Config Text
  pub mac_addr : List ℕ
  pub thread : Bool
