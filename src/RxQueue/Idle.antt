-- ===== src/RxQueue/Idle.antt =====
-- Starting and stopping a receive queue that holds no packets.
use vnic.Prelude.{
  ℕ, ◌≡◌, refl, ap₂, arith, Bool, true, false, Bool-cases, Option-cases, inl, inr, [], some, ◌>>=◌,
  Returns, Returns->>=, if◌then◌else◌, ◌==◌,
}
use vnic.ErrorCode.{ErrorCode, Status, ok, unexpected, done}
use vnic.Memory.Heap.{Heap}
use vnic.Stateful.Automaton.{State, raw, Machine}
use vnic.Stateful.Lifecycle.{Kind, allowed, target, refusal, is_ok, call, call-by_table, by_table}
use vnic.RxQueue.Queue.{
  RxQueue, Config, start_impl, stop_impl, drain, release_all, fill_free, configure_impl,
}
use vnic.RxQueue.Queue
use vnic.RxQueue.Start.{start_filled, start_failed}
use vnic.RxQueue.PutDescriptor.{Status-cases}
use vnic.RxQueue.Lifecycle.{on_heap, configure, base_start, start, stop}

abbrev pub is_started : State → Bool
is_started State.started = true
is_started _ = false

-- A queue without packets, and one that is not running either.
abbrev pub IsDrained : Machine RxQueue → Type 0
IsDrained m = m.object.used.queue ≡ []

abbrev pub IsIdle : Machine RxQueue → Type 0
IsIdle m = IsDrained m × (is_started m.state ≡ false)

abbrev pub IsRunning : Machine RxQueue → Type 0
IsRunning m = IsDrained m × (m.state ≡ State.started)

-- What an operation that starts a queue leaves behind.
abbrev pub StartPost : Heap → Machine RxQueue × Heap × Status → Type 0
StartPost h (m, h', s) = (h' ≡ h) × elim s [ ok u ↦ IsRunning m | unexpected e ↦ IsIdle m ]

-- What an implementation does to a queue without packets.
abbrev Impl : Heap → RxQueue × Heap × Status → Type 0
Impl h (q, h', s) = (q.used.queue ≡ []) × (h' ≡ h)

start_impl-Impl :
    (fuel : ℕ) (q : RxQueue) (h : Heap) → q.used.queue ≡ [] → Returns (Impl h) (start_impl fuel q h)
start_impl-Impl fuel q h d = elim (Status-cases (fill_free q.config.size q.free).1) [
  | inl filled ↦
      rw
        (start_filled fuel q h (fill_free q.config.size q.free).0 (ap₂ (λ a b. (a, b)) refl filled))
        (d, refl)
  | inr (e, failed) ↦ rw (start_failed fuel q h e failed d) (refl, refl)
]

stop_impl-Impl :
    (fuel : ℕ) (q : RxQueue) (h : Heap)
    → q.used.queue ≡ []
    → Returns (λ r. Impl h r × (r.2 ≡ done)) (stop_impl fuel q h)
unfolding stop_impl drain release_all
stop_impl-Impl fuel q h d = ground (arith, d)

-- The three operations by the table of the automaton.
pub on_heap_by_table :
    (k : Kind) (impl : RxQueue → Heap → Queue.Outcome) (m : Machine RxQueue) (h : Heap)
    → on_heap (call k) impl m h ≡ (
        if allowed k m.state
        then (impl m.object h >>= λ s. some (
          record { state = if is_ok s.2 then target k else State.error; object = s.0 },
          s.1,
          s.2,
        ))
        else some (m, h, unexpected (refusal k)))
unfolding by_table
on_heap_by_table k impl m h =
    rw
      (call-by_table {D = RxQueue × Heap} k (λ o. impl o.0 o.1 >>= λ s. some ((s.0, s.1), s.2))
        (record { state = m.state; object = (m.object, h) }))
      (elim (Bool-cases (allowed k m.state)) [
        | inl yes' ↦
            rw (yes')
              (elim (Option-cases (impl m.object h)) [ inl e ↦ rw e refl | inr (r, e) ↦ rw e refl ])
        | inr no' ↦ rw no' refl
      ])

configure_impl-Impl :
    (config : Config) (q : RxQueue)
    → q.used.queue ≡ []
    → (configure_impl config q).0.used.queue ≡ []
unfolding configure_impl vnic.Fifo.Queue.configure
configure_impl-Impl config q d = ground (arith, d)

-- `stop` succeeds on a queue that runs, and is refused on any other.
abbrev pub answer : Bool → Status
answer true = done
answer false = unexpected ErrorCode.state_stop_not_allowed

module _ (fuel : ℕ) (m : Machine RxQueue) (h : Heap) where
  base_start-StartPost : IsIdle m → Returns (StartPost h) (base_start fuel m h)
  unfolding base_start
  base_start-StartPost (d, n) =
      rw (base_start, on_heap_by_table Kind.starts (start_impl fuel) m h)
        (elim (Bool-cases (allowed Kind.starts m.state)) [
          | inr no' ↦ rw no' (refl, (d, n))
          | inl yes' ↦ rw yes' (
              Returns->>= (Impl h) (StartPost h) (start_impl fuel m.object h) _
                (start_impl-Impl fuel m.object h d) started)
        ])
    where
      started :
          (s : RxQueue × Heap × Status)
          → Impl h s
          → StartPost h (
            record { state = if is_ok s.2 then target Kind.starts else State.error; object = s.0 },
            s.1,
            s.2,
          )
      started (q, h', ok u) (d', e) = (e, (d', refl))
      started (q, h', unexpected c) (d', e) = (e, (d', refl))

  configure-Idle :
      (config : Config) → IsIdle m → Returns (λ r. (r.1 ≡ h) × IsIdle r.0) (configure config m h)
  unfolding configure
  configure-Idle config (d, n) =
      rw (configure, on_heap_by_table Kind.configures _ m h)
        (elim (Bool-cases (allowed Kind.configures m.state)) [
          | inr no' ↦ rw no' (refl, (d, n))
          | inl yes' ↦ rw yes' (
            refl,
            (configure_impl-Impl config m.object d, settled (configure_impl config m.object).1),
          )
        ])
    where
      settled :
          (s : Status)
          → is_started (if is_ok s then target Kind.configures else State.error) ≡ false
      settled (ok u) = refl
      settled (unexpected e) = refl

  -- `stop` leaves a queue without packets idle, and one that was running stopped.
  pub stop-Idle :
      IsDrained m
      → Returns
          (λ r.
            (r.1 ≡ h)
            × IsIdle r.0
            × (m.state ≡ State.started → (r.0.state ≡ State.stopped) × (r.2 ≡ done)))
          (stop fuel m h)
  unfolding stop
  stop-Idle d =
      rw (stop, on_heap_by_table Kind.stops (stop_impl fuel) m h)
        (elim (Bool-cases (allowed Kind.stops m.state)) [
          | inr no' ↦ rw no' (refl, (d, ground arith), λ e. absurd (ground arith))
          | inl yes' ↦ rw yes' (
              Returns->>= _ _ (stop_impl fuel m.object h) _ (stop_impl-Impl fuel m.object h d)
                (λ s i. rw (i.1) (i.0.1, (i.0.0, refl), λ e. (refl, refl))))
        ])

  -- What `stop` answers.
  pub stop-answer :
      IsDrained m
      → Returns (λ r. (r.1 ≡ h) × IsIdle r.0 × (r.2 ≡ answer (is_started m.state))) (stop fuel m h)
  unfolding stop
  stop-answer d =
      rw (stop, on_heap_by_table Kind.stops (stop_impl fuel) m h)
        (elim (Bool-cases (allowed Kind.stops m.state)) [
          | inr no' ↦ rw no' (refl, (d, ground arith), refl)
          | inl yes' ↦ rw yes' (
              Returns->>= _ _ (stop_impl fuel m.object h) _ (stop_impl-Impl fuel m.object h d)
                (λ s i. rw (i.1) (i.0.1, (i.0.0, refl), refl)))
        ])

-- `start` of an idle queue leaves it running, or fails and leaves it idle.
pub start-StartPost :
    (fuel : ℕ) (m : Machine RxQueue) (h : Heap) → IsIdle m → Returns (StartPost h) (start fuel m h)
unfolding start
start-StartPost fuel m h idle = elim (Bool-cases (raw m.state == raw State.stopped)) [
  | inr other ↦ rw (start, other) (base_start-StartPost fuel m h idle)
  | inl stopped ↦
      rw (start, stopped)
        (Returns->>= _ (StartPost h) (configure m.object.config m h) _
          (configure-Idle fuel m h m.object.config idle) configured)
]
  where
    configured :
        (r : Machine RxQueue × Heap × Status)
        → (r.1 ≡ h) × IsIdle r.0
        → Returns (StartPost h) (elim r.2 [
          | unexpected e ↦ some (r.0, r.1, unexpected e)
          | ok u ↦ base_start fuel r.0 r.1
        ])
    configured (m', h', unexpected e) (same, i) = (same, i)
    configured (m', h', ok u) (same, i) = rw same (base_start-StartPost fuel m' h i)
