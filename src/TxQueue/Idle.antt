-- ===== src/TxQueue/Idle.antt =====
-- Starting and stopping a transmit queue.
use vnic.Prelude.{◌≡◌, arith, false, some, Returns}
use vnic.ErrorCode.{Status, ok, unexpected, done}
use vnic.Stateful.Automaton.{State, Machine}
use vnic.Stateful.Lifecycle.{Kind, call-by_table, by_table}
use vnic.RxQueue.Idle.{is_started, answer}
use vnic.TxQueue.Queue.{TxQueue, configure_impl}
use vnic.TxQueue.Lifecycle.{configure, start, stop}

abbrev pub IsIdle : Machine TxQueue → Type 0
IsIdle m = is_started m.state ≡ false

abbrev pub IsRunning : Machine TxQueue → Type 0
IsRunning m = m.state ≡ State.started

abbrev pub StartPost : Machine TxQueue × Status → Type 0
StartPost (m, s) = elim s [ ok u ↦ IsRunning m | unexpected e ↦ IsIdle m ]

pub start-StartPost : (m : Machine TxQueue) → IsIdle m → Returns StartPost (start m)
unfolding start by_table
start-StartPost m idle =
    rw (start, call-by_table Kind.starts (λ q. some (q, done)) m) (ground (arith, idle))

pub stop-Idle :
    (m : Machine TxQueue)
    → Returns
        (λ r. IsIdle r.0 × (m.state ≡ State.started → (r.0.state ≡ State.stopped) × (r.1 ≡ done)))
        (stop m)
unfolding stop by_table
stop-Idle m = rw (stop, call-by_table Kind.stops (λ q. some (q, done)) m) (ground arith)

-- What `stop` answers.
pub stop-answer :
    (m : Machine TxQueue) → Returns (λ r. IsIdle r.0 × (r.1 ≡ answer (is_started m.state))) (stop m)
unfolding stop by_table
stop-answer m = rw (stop, call-by_table Kind.stops (λ q. some (q, done)) m) (ground arith)

-- `configure` never starts a queue.
pub configure-Idle : (m : Machine TxQueue) → IsIdle m → Returns (λ r. IsIdle r.0) (configure m)
unfolding configure by_table
configure-Idle m idle =
    rw (configure, call-by_table Kind.configures (λ q. some (configure_impl q)) m)
      (ground (arith, idle))
