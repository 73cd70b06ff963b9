-- ===== src/TxQueue/Lifecycle.antt =====
-- The operations of the automaton on a transmit queue.
use vnic.Prelude.{false, some}
use vnic.ErrorCode.{done}
use vnic.Stats.{zero_stats}
use vnic.Stateful.Automaton.{State, Machine, Outcome}
use vnic.Stateful.Automaton
use vnic.TxQueue.Queue.{TxQueue}
use vnic.TxQueue.Queue

-- `TxQueue()`
abbrev pub new_queue : Machine TxQueue
new_queue = record { state = State.stopped; object = record { linked = false; stats = zero_stats } }

-- `configure`
unfoldable pub configure : Machine TxQueue → Outcome (Machine TxQueue)
configure m = Automaton.configure (λ q. some (Queue.configure_impl q)) m

-- `start` and `stop`, whose implementations do nothing.
unfoldable pub start : Machine TxQueue → Outcome (Machine TxQueue)
start m = Automaton.start (λ q. some (q, done)) m

unfoldable pub stop : Machine TxQueue → Outcome (Machine TxQueue)
stop m = Automaton.stop (λ q. some (q, done)) m
