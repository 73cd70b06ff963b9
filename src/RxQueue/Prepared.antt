-- ===== src/RxQueue/Prepared.antt =====
-- Bringing a receive queue up: from its construction, over its configurations, to its `start`.
use vnic.Prelude.{
  ℕ, ◌<◌, ◌≡◌, refl, ◌∙◌, ap, arith, true, ◌⊎◌, inl, inr, [], length, length-replicate, sym,
  Returns, Returns->>=, Returns-mono, ◌==◌,
}
use vnic.ErrorCode.{done}
use vnic.Packet.Descriptor.{empty_descriptor}
use vnic.Memory.Heap.{Heap}
use vnic.Stateful.Automaton.{State, raw, Machine}
use vnic.Stateful.Lifecycle.{Kind, allowed}
use vnic.RxQueue.Queue.{RxQueue, Config, is_valid, configure_impl, start_impl}
use vnic.RxQueue.Start.{start_impl_lem}
use vnic.RxQueue.Lifecycle.{new_queue, configure, base_start, start}
use vnic.RxQueue.Idle.{on_heap_by_table, IsIdle, is_started}

-- A queue that has been started and not been used.
abbrev pub IsFresh : Machine RxQueue → Type 0
IsFresh m =
    (m.state ≡ State.started)
    × (m.object.used.queue ≡ [])
    × (m.object.pool.live ≡ 0)
    × (length m.object.free.queue ≡ m.object.free.config.capacity)

-- A queue that has never run: it has nothing, and a size.
pub record IsUnused (q : RxQueue) : Type 0 where
  pub used : q.used.queue ≡ []
  pub free : q.free.queue ≡ []
  pub live : q.pool.live ≡ 0
  pub size : 0 < q.config.size

abbrev pub IsConfigured : Machine RxQueue → Type 0
IsConfigured m =
    (m.state ≡ State.configured)
    × IsUnused m.object
    × (m.object.free.config.capacity ≡ m.object.config.size)

-- One that `start` accepts.
abbrev pub IsPrepared : Machine RxQueue → Type 0
IsPrepared m = ((m.state ≡ State.stopped) × IsUnused m.object) ⊎ IsConfigured m

pub new_queue-IsPrepared : IsPrepared new_queue
new_queue-IsPrepared =
    inl (refl, record { used = refl; free = refl; live = refl; size = omega arith })

valid_lem : (q : RxQueue) → IsUnused q → is_valid q.config ≡ true
unfolding is_valid
valid_lem q u = ground (arith, u.size)

-- `configure` with a valid configuration.
configure-IsConfigured :
    (config : Config) (m : Machine RxQueue) (h : Heap)
    → is_valid config ≡ true
    → allowed Kind.configures m.state ≡ true
    → IsUnused m.object
    → Returns (λ r. (r.1 ≡ h) × (r.2 ≡ done) × IsConfigured r.0) (configure config m h)
unfolding configure configure_impl is_valid vnic.Fifo.Queue.configure vnic.Memory.Pool.configure
    vnic.Memory.Pool.is_valid
configure-IsConfigured config m h valid a u =
    rw (configure, on_heap_by_table Kind.configures _ m h, a)
      (ground (arith, u.used, u.free, u.live))

-- `Stateful<RxQueue>::start` of a configured queue.
base_start-IsFresh :
    (fuel : ℕ) (m : Machine RxQueue) (h : Heap)
    → IsConfigured m
    → Returns (λ r. (r.1 ≡ h) × (r.2 ≡ done) × IsFresh r.0) (base_start fuel m h)
unfolding base_start
base_start-IsFresh fuel m h (s, u, c) =
    rw
      (
        base_start,
        on_heap_by_table Kind.starts (start_impl fuel) m h,
        ap (allowed Kind.starts) s,
        start_impl_lem fuel m.object h u.size c (ground (arith, u.free)) u.used,
        ap length u.free,
      )
      (
        refl,
        refl,
        (refl, u.used, u.live, length-replicate m.object.config.size empty_descriptor ∙ sym c),
      )

-- `RxQueue::start` of a queue that has never run succeeds.
pub start-IsFresh :
    (fuel : ℕ) (m : Machine RxQueue) (h : Heap)
    → IsPrepared m
    → Returns (λ r. (r.1 ≡ h) × (r.2 ≡ done) × IsFresh r.0) (start fuel m h)
unfolding start
start-IsFresh fuel m h (inr k) =
    rw (start, ap (λ s. raw s == raw State.stopped) k.0) (base_start-IsFresh fuel m h k)
start-IsFresh fuel m h (inl (s, u)) =
    rw (start, ap (λ s. raw s == raw State.stopped) s)
      (Returns->>= (λ r. (r.1 ≡ h) × (r.2 ≡ done) × IsConfigured r.0) _
        (configure m.object.config m h) _
        (configure-IsConfigured m.object.config m h (valid_lem m.object u)
          (ap (allowed Kind.configures) s) u)
        (λ r k. rw (k.1, k.0) (base_start-IsFresh fuel r.0 h k.2)))

-- `configure` with a valid configuration leaves it prepared.
pub configure-IsPrepared :
    (config : Config) (m : Machine RxQueue) (h : Heap)
    → is_valid config ≡ true
    → IsPrepared m
    → Returns (λ r. (r.1 ≡ h) × IsPrepared r.0) (configure config m h)
configure-IsPrepared config m h valid p =
    Returns-mono _ _ (configure config m h) (configured p) (λ r k. (k.0, inr (k.2)))
  where
    configured :
        IsPrepared m
        → Returns (λ r. (r.1 ≡ h) × (r.2 ≡ done) × IsConfigured r.0) (configure config m h)
    configured (inl (s, u)) =
        configure-IsConfigured config m h valid (ap (allowed Kind.configures) s) u
    configured (inr (s, u, c)) =
        configure-IsConfigured config m h valid (ap (allowed Kind.configures) s) u

-- A prepared queue does not run and has no packets.
pub IsPrepared-Idle : (m : Machine RxQueue) → IsPrepared m → IsIdle m
IsPrepared-Idle m (inl (s, u)) = (u.used, ap is_started s)
IsPrepared-Idle m (inr (s, u, c)) = (u.used, ap is_started s)
