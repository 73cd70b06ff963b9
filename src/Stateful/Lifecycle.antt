-- ===== src/Stateful/Lifecycle.antt =====
-- The automaton that include/utils/stateful.h documents, as a table and as a step relation, and the
-- operations against it.
use vnic.Prelude.{
  ◌≡◌, Bool, true, false, List, [], ◌∷◌, Option, some, ◌>>=◌, if◌then◌else◌, Returns, Returns->>=,
  arith, ◌⊎◌, inl, inr, Bool-cases, All,
}
use vnic.ErrorCode.{ErrorCode, Status, ok, unexpected}
use vnic.Stateful.Automaton.{State, Machine, Outcome, configure, start, stop}

pub data Kind : Type 0 where
  configures starts stops : Kind

-- The table: from which states an operation is allowed, where it leads, and how it is refused.
abbrev pub allowed : Kind → State → Bool
allowed Kind.configures State.stopped = true
allowed Kind.configures State.configured = true
allowed Kind.configures State.error = true
allowed Kind.starts State.configured = true
allowed Kind.stops State.started = true
allowed _ _ = false

abbrev pub target : Kind → State
target Kind.configures = State.configured
target Kind.starts = State.started
target Kind.stops = State.stopped

abbrev pub refusal : Kind → ErrorCode
refusal Kind.configures = ErrorCode.state_configure_not_allowed
refusal Kind.starts = ErrorCode.state_start_not_allowed
refusal Kind.stops = ErrorCode.state_stop_not_allowed

abbrev pub is_ok : Status → Bool
is_ok (ok u) = true
is_ok (unexpected e) = false

-- One transition of the table: on success to the target, on failure to `error`.
pub data Transition : State → State → Type 0 where
  succeeds : (k : Kind) {s : State} → allowed k s ≡ true → Transition s (target k)
  fails : (k : Kind) {s : State} → allowed k s ≡ true → Transition s State.error

pub data Reach (s : State) : State → Type 0 where
  here : Reach s s
  next : {t u : State} → Reach s t → Transition t u → Reach s u

abbrev pub Call : Type 0 → Type 0
Call D = Kind × (D → Outcome D)

-- An implementation that has no undefined behaviour.
abbrev pub IsTotal : (D : Type 0) → Call D → Type 0
IsTotal D c = (d : D) → Returns (λ r. Unit {0}) (c.1 d)

module _ {D : Type 0} where
  -- A call of one of the three operations.
  abbrev pub call : Kind → (D → Outcome D) → Machine D → Outcome (Machine D)
  call Kind.configures impl m = configure impl m
  call Kind.starts impl m = start impl m
  call Kind.stops impl m = stop impl m

  -- What the table says of a call, given what the implementation returns.
  unfoldable pub by_table : Kind → Outcome D → Machine D → Outcome (Machine D)
  by_table k result m =
      if allowed k m.state
      then (result >>= λ r.
          some (record { state = if is_ok r.1 then target k else State.error; object = r.0 }, r.1))
      else some (m, unexpected (refusal k))

  -- Each operation does what the table says: where it is not allowed it is refused with its own
  -- error, the implementation is not run and nothing changes; otherwise the implementation runs
  -- once, its result is returned, and the state is the target or, after a failure, `error`.
  pub call-by_table :
      (k : Kind) (impl : D → Outcome D) (m : Machine D)
      → call k impl m ≡ by_table k (impl m.object) m
  unfolding configure start stop by_table
  call-by_table Kind.configures impl m = ground arith
  call-by_table Kind.starts impl m = ground arith
  call-by_table Kind.stops impl m = ground arith

  -- One caller after another.
  pub run : List (Call D) → Machine D → Option (Machine D)
  run [] m = some m
  run ((k, impl) ∷ calls) m = call k impl m >>= λ r. run calls r.0

  table-Reach :
      (k : Kind) (result : Outcome D) (s : State) (m : Machine D)
      → Reach s m.state
      → Returns (λ r. Unit {0}) result
      → Returns (λ r. Reach s r.0.state) (by_table k result m)
  unfolding by_table
  table-Reach k Option.none s m r t = elim t [ ]
  table-Reach k (some (d, e)) s m r t = elim (Bool-cases (allowed k m.state)) [
    | inl yes' ↦ rw yes' (moved (Bool-cases (is_ok e)) yes')
    | inr no' ↦ rw no' r
  ]
    where
      moved :
          (is_ok e ≡ true) ⊎ (is_ok e ≡ false)
          → allowed k m.state ≡ true
          → Reach s (if is_ok e then target k else State.error)
      moved (inl good) a = rw good (next r (succeeds k a))
      moved (inr bad) a = rw bad (next r (fails k a))

  run_from :
      (calls : List (Call D)) (m : Machine D) (s : State)
      → All (IsTotal D) calls
      → Reach s m.state
      → Returns (λ m'. Reach s m'.state) (run calls m)
  unfolding run
  run_from [] m s h r = r
  run_from ((k, impl) ∷ calls) m s h r =
      Returns->>= (λ q. Reach s q.0.state) _ (call k impl m) _
        (rw (call-by_table k impl m) (table-Reach k (impl m.object) s m r (h.0 m.object)))
        (λ q reached. run_from calls q.0 s h.1 reached)

  -- Any sequence of calls Moves the automaton along its documented transitions only: from the state
  -- at the start the state at the end is reachable by them. The implementations are any functions
  -- without undefined behaviour.
  pub run-Reach :
      (calls : List (Call D)) (m : Machine D)
      → All (IsTotal D) calls
      → Returns (λ m'. Reach m.state m'.state) (run calls m)
  run-Reach calls m h = run_from calls m m.state h here
