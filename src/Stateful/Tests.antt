-- ===== src/Stateful/Tests.antt =====
-- The automaton with a counter as its object.
use vnic.Prelude.{ℕ, ◌+◌, ◌≤◌, ◌≡◌, refl, List, [], ◌∷◌, some}
use vnic.ErrorCode.{ErrorCode, unexpected, done}
use vnic.Stateful.Automaton.{State, Machine, Outcome, cas, cas_any}
use vnic.Stateful.Threads.{
  Place, Run, begin, step, enter_configure, configure_succeeds, enter_start, publish, enter_stop,
  start_fails, Step, threads_inside, is_busy, Run-IsExclusive,
}
use vnic.Stateful.Lifecycle.{Kind, Call, call, by_table, call-by_table}

abbrev count : ℕ → Outcome ℕ
count n = some (n + 1, done)

abbrev refuse : ℕ → Outcome ℕ
refuse n = some (n, unexpected ErrorCode.queue_full)

abbrev idle : Machine ℕ
idle = record { state = State.configured; object = 0 }

-- Configured, started, refused in the wrong state, failed, configured again.
abbrev history : List (Call ℕ)
history =
    (Kind.configures, count)
    ∷ (Kind.starts, count)
    ∷ (Kind.configures, count)
    ∷ (Kind.stops, refuse)
    ∷ (Kind.configures, count)
    ∷ []

call-by_table_example :
    call Kind.stops refuse idle
    ≡ by_table Kind.stops (some (0, unexpected ErrorCode.queue_full)) idle
call-by_table_example = call-by_table Kind.stops refuse idle

-- One thread configures and starts; while `startImpl` runs, the other stops.
two_threads :
    Run
      (State.stopped, Place.outside ∷ Place.outside ∷ [])
      (State.stopping, Place.starting ∷ Place.stopping ∷ [])
unfolding cas cas_any
two_threads =
    let configuring = step begin (enter_configure 0 (refl, refl) refl) tt in
    let configured = step configuring (configure_succeeds 0 (refl, refl)) tt in
    let starting = step configured (enter_start 0 (refl, refl) refl) tt in
    let started = step starting (publish 0 (refl, refl)) tt in
    step started (enter_stop 1 (refl, refl) refl) tt

-- If `startImpl` fails there, `configure` is admitted while the other thread is inside `stopImpl`.
late_failure :
    Step
      (State.stopping, Place.starting ∷ Place.stopping ∷ [])
      (State.error, Place.outside ∷ Place.stopping ∷ [])
    × Step
        (State.error, Place.outside ∷ Place.stopping ∷ [])
        (State.configuring, Place.configuring ∷ Place.stopping ∷ [])
unfolding cas cas_any
late_failure = (start_fails 0 (refl, refl), enter_configure 0 (refl, refl) refl)

Run-IsExclusive_example :
    (threads_inside (Place.starting ∷ Place.stopping ∷ []) ≡ is_busy State.stopping)
    × (threads_inside (Place.starting ∷ Place.stopping ∷ []) ≤ 1)
Run-IsExclusive_example =
    Run-IsExclusive (State.stopped, Place.outside ∷ Place.outside ∷ [])
      (State.stopping, Place.starting ∷ Place.stopping ∷ []) refl two_threads
