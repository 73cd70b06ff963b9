-- ===== src/Stateful/Threads.antt =====
-- Several threads call `configure`, `start` and `stop` of one object: the accesses of `state_` and the
-- runs of the implementations as steps that interleave. A call that is refused changes nothing, and
-- has no step.
use vnic.Prelude.{
  ℕ, ◌+◌, ◌≤◌, ◌≡◌, refl, ◌∙◌, ap, sym, arith, true, List, [], ◌∷◌, some, get_elem?, set, total,
  total-set,
}
use vnic.Stateful.Automaton.{State, cas, cas_any}

-- Where a thread is: outside the three operations; in `configureImpl`; between the `cas` of `start` and
-- the store of `Started`; in `startImpl`; or in `stopImpl`.
pub data Place : Type 0 where
  outside configuring publishing starting stopping : Place

-- The object's state and the places of the threads.
abbrev pub World : Type 0
World = State × List Place

abbrev pub Moves : List Place → ℕ → Place → Place → List Place → Type 0
Moves ts i a b us = (get_elem? ts i ≡ some a) × (us ≡ set ts i b)

-- One step of thread `i`. `Started` is stored before `startImpl` runs, so that another thread can stop
-- the object in the meantime, and a failure of `startImpl` stores `Error` whatever the state is then.
pub data Step : World → World → Type 0 where
  enter_configure :
      {s s' : State} {ts us : List Place} (i : ℕ)
      → Moves ts i Place.outside Place.configuring us
      → cas_any (State.stopped ∷ State.configured ∷ State.error ∷ []) State.configuring s
        ≡ (s', true)
      → Step (s, ts) (s', us)
  configure_succeeds :
      {s : State} {ts us : List Place} (i : ℕ)
      → Moves ts i Place.configuring Place.outside us
      → Step (s, ts) (State.configured, us)
  configure_fails :
      {s : State} {ts us : List Place} (i : ℕ)
      → Moves ts i Place.configuring Place.outside us
      → Step (s, ts) (State.error, us)
  enter_start :
      {s s' : State} {ts us : List Place} (i : ℕ)
      → Moves ts i Place.outside Place.publishing us
      → cas State.configured State.starting s ≡ (s', true)
      → Step (s, ts) (s', us)
  publish :
      {s : State} {ts us : List Place} (i : ℕ)
      → Moves ts i Place.publishing Place.starting us
      → Step (s, ts) (State.started, us)
  start_succeeds :
      {s : State} {ts us : List Place} (i : ℕ)
      → Moves ts i Place.starting Place.outside us
      → Step (s, ts) (s, us)
  start_fails :
      {s : State} {ts us : List Place} (i : ℕ)
      → Moves ts i Place.starting Place.outside us
      → Step (s, ts) (State.error, us)
  enter_stop :
      {s s' : State} {ts us : List Place} (i : ℕ)
      → Moves ts i Place.outside Place.stopping us
      → cas State.started State.stopping s ≡ (s', true)
      → Step (s, ts) (s', us)
  stop_succeeds :
      {s : State} {ts us : List Place} (i : ℕ)
      → Moves ts i Place.stopping Place.outside us
      → Step (s, ts) (State.stopped, us)
  stop_fails :
      {s : State} {ts us : List Place} (i : ℕ)
      → Moves ts i Place.stopping Place.outside us
      → Step (s, ts) (State.error, us)

-- The places that only one thread can be at.
abbrev pub exclusive : Place → ℕ
exclusive Place.configuring = 1
exclusive Place.publishing = 1
exclusive Place.stopping = 1
exclusive _ = 0

abbrev pub threads_inside : List Place → ℕ
threads_inside = total exclusive

-- The states that stand for such a place.
abbrev pub is_busy : State → ℕ
is_busy State.configuring = 1
is_busy State.starting = 1
is_busy State.stopping = 1
is_busy _ = 0

-- A busy state has one thread inside, any other state none.
abbrev pub IsExclusive : World → Type 0
IsExclusive (s, ts) = threads_inside ts ≡ is_busy s

moved :
    (ts us : List Place) (i : ℕ) (a b : Place)
    → Moves ts i a b us
    → threads_inside us + exclusive a ≡ threads_inside ts + exclusive b
moved ts us i a b (at', e) =
    ap (λ k. threads_inside k + exclusive a) e ∙ total-set exclusive ts i a b at'

is_busy_le : (s : State) → is_busy s ≤ 1
is_busy_le s = ground arith

-- A successful `cas` is made in a state that is not busy, and leads to one that is.
enters_configure :
    (s s' : State)
    → cas_any (State.stopped ∷ State.configured ∷ State.error ∷ []) State.configuring s ≡ (s', true)
    → (is_busy s ≡ 0) × (is_busy s' ≡ 1)
unfolding cas_any cas
enters_configure s s' c = ground arith

enters_start :
    (s s' : State)
    → cas State.configured State.starting s ≡ (s', true)
    → (is_busy s ≡ 0) × (is_busy s' ≡ 1)
unfolding cas
enters_start s s' c = ground arith

enters_stop :
    (s s' : State)
    → cas State.started State.stopping s ≡ (s', true)
    → (is_busy s ≡ 0) × (is_busy s' ≡ 1)
unfolding cas
enters_stop s s' c = ground arith

-- A thread enters, leaves, or is not concerned.
entered :
    (s s' : State) (ts us : List Place) (i : ℕ) (b : Place)
    → exclusive b ≡ 1
    → Moves ts i Place.outside b us
    → (is_busy s ≡ 0) × (is_busy s' ≡ 1)
    → IsExclusive (s, ts)
    → IsExclusive (s', us)
entered s s' ts us i b k m (f, t) x = omega (arith, moved ts us i Place.outside b m, k, f, t, x)

left :
    (s s' : State) (ts us : List Place) (i : ℕ) (a b : Place)
    → exclusive a ≡ 1
    → exclusive b ≡ 0
    → Moves ts i a b us
    → is_busy s' ≡ 0
    → IsExclusive (s, ts)
    → IsExclusive (s', us)
left s s' ts us i a b k l m t x = omega (arith, moved ts us i a b m, k, l, t, x, is_busy_le s)

passed :
    (s s' : State) (ts us : List Place) (i : ℕ)
    → Moves ts i Place.starting Place.outside us
    → is_busy s' ≡ is_busy s
    → IsExclusive (s, ts)
    → IsExclusive (s', us)
passed s s' ts us i m t x = omega (arith, moved ts us i Place.starting Place.outside m, t, x)

-- A failure of `startImpl` finds the state that `start` stored; any other step is free.
abbrev pub IsTimely : {w w' : World} → Step w w' → Type 0
IsTimely (start_fails {s = s} i m) = s ≡ State.started
IsTimely _ = Unit

Step-IsExclusive : (w w' : World) (t : Step w w') → IsTimely t → IsExclusive w → IsExclusive w'
Step-IsExclusive (s, ts) (s', us) (enter_configure i m c) y x =
    entered s s' ts us i Place.configuring refl m (enters_configure s s' c) x
Step-IsExclusive (s, ts) (s', us) (configure_succeeds i m) y x =
    left s s' ts us i Place.configuring Place.outside refl refl m refl x
Step-IsExclusive (s, ts) (s', us) (configure_fails i m) y x =
    left s s' ts us i Place.configuring Place.outside refl refl m refl x
Step-IsExclusive (s, ts) (s', us) (enter_start i m c) y x =
    entered s s' ts us i Place.publishing refl m (enters_start s s' c) x
Step-IsExclusive (s, ts) (s', us) (publish i m) y x =
    left s s' ts us i Place.publishing Place.starting refl refl m refl x
Step-IsExclusive (s, ts) (s', us) (start_succeeds i m) y x = passed s s' ts us i m refl x
Step-IsExclusive (s, ts) (s', us) (start_fails i m) y x =
    passed s s' ts us i m (sym (ap is_busy y)) x
Step-IsExclusive (s, ts) (s', us) (enter_stop i m c) y x =
    entered s s' ts us i Place.stopping refl m (enters_stop s s' c) x
Step-IsExclusive (s, ts) (s', us) (stop_succeeds i m) y x =
    left s s' ts us i Place.stopping Place.outside refl refl m refl x
Step-IsExclusive (s, ts) (s', us) (stop_fails i m) y x =
    left s s' ts us i Place.stopping Place.outside refl refl m refl x

pub data Run (w : World) : World → Type 0 where
  begin : Run w w
  step : {v u : World} → Run w v → (t : Step v u) → IsTimely t → Run w u

-- In every interleaving of calls by any number of threads, at most one thread is inside
-- `configureImpl`, `stopImpl` or the start of `start`, and there is one exactly when the state is
-- `Configuring`, `Starting` or `Stopping`. At the start no thread is inside and the state is none of
-- these; a `startImpl` that fails finds the state that `start` had stored.
pub Run-IsExclusive :
    (w w' : World)
    → IsExclusive w
    → Run w w'
    → (threads_inside w'.1 ≡ is_busy w'.0) × (threads_inside w'.1 ≤ 1)
Run-IsExclusive w w' x r = (inv w' r, omega (arith, inv w' r, is_busy_le w'.0))
  where
    inv : (v : World) → Run w v → IsExclusive v
    inv v begin = x
    inv v (step {v = u} q t y) = Step-IsExclusive u v t y (inv u q)
