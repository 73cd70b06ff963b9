-- ===== src/Stateful/Automaton.antt =====
-- `Stateful<Derived>` for one caller at a time: the derived object is the field `object`, and its
-- `configureImpl`, `startImpl` and `stopImpl` are arguments. `none` is undefined behaviour in them.
use vnic.Prelude.{ℕ, Bool, true, false, List, [], ◌∷◌, Option, some, ◌>>=◌, ◌==◌, if◌then◌else◌}
use vnic.ErrorCode.{ErrorCode, Status, ok, unexpected, done}

-- `enum class State`
pub data State : Type 0 where
  configuring configured starting started stopping stopped error : State

-- The underlying values.
abbrev pub raw : State → ℕ
raw State.configuring = 0
raw State.configured = 1
raw State.starting = 2
raw State.started = 3
raw State.stopping = 4
raw State.stopped = 5
raw State.error = 6

-- A derived object with its `state_`.
pub record Machine {ℓ} (D : Type ℓ) : Type ℓ where
  pub state : State
  pub object : D

-- The result of an operation on an object.
abbrev pub Outcome : Type 0 → Type 0
Outcome D = Option (D × Status)

-- `cas(expected, newState)`: the state afterwards, and whether it was swapped.
unfoldable pub cas : State → State → State → State × Bool
cas expected new current = if raw current == raw expected then (new, true) else (current, false)

-- `cas` from any of several states.
unfoldable pub cas_any : List State → State → State → State × Bool
unfolding cas
cas_any [] new current = (current, false)
cas_any (expected ∷ rest) new current =
    let (state, swapped) = cas expected new current in
    let other = cas_any rest new current in if swapped then (state, true) else other

module _ {D : Type 0} where
  -- The end of the three operations: the state by what the implementation returned.
  unfoldable pub settle : State → D × Status → Machine D × Status
  settle next (d, ok u) = (record { state = next; object = d }, done)
  settle next (d, unexpected e) = (record { state = State.error; object = d }, unexpected e)

  -- `configure`
  unfoldable pub configure : (D → Outcome D) → Machine D → Outcome (Machine D)
  unfolding cas_any settle
  configure configure_impl m =
      let (state, swapped) =
        cas_any (State.stopped ∷ State.configured ∷ State.error ∷ []) State.configuring m.state in
      if swapped
      then (configure_impl m.object >>= λ r. some (settle State.configured r))
      else some (m, unexpected ErrorCode.state_configure_not_allowed)

  -- `start`; `Started` is stored before the implementation runs.
  unfoldable pub start : (D → Outcome D) → Machine D → Outcome (Machine D)
  unfolding cas settle
  start start_impl m =
      let (state, swapped) = cas State.configured State.starting m.state in
      if swapped
      then (start_impl m.object >>= λ r. some (settle State.started r))
      else some (m, unexpected ErrorCode.state_start_not_allowed)

  -- `stop`
  unfoldable pub stop : (D → Outcome D) → Machine D → Outcome (Machine D)
  unfolding cas settle
  stop stop_impl m =
      let (state, swapped) = cas State.started State.stopping m.state in
      if swapped
      then (stop_impl m.object >>= λ r. some (settle State.stopped r))
      else some (m, unexpected ErrorCode.state_stop_not_allowed)
