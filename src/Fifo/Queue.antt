-- ===== src/Fifo/Queue.antt =====
-- `class Fifo<T>`.
use vnic.Prelude.{
  ℕ, zero, suc, ◌+◌, Bool, true, not, ◌&&◌, List, [], ◌∷◌, ◌++◌, Option, none, some, length, leb,
  ◌==◌, if◌then◌else◌,
}
use vnic.ErrorCode.{ErrorCode, Status, unexpected, done}

-- `struct Config`; a capacity of 0 means no bound.
pub record Config : Type 0 where
  pub capacity : ℕ
  pub socket_id : ℕ

-- The members: the head of the list is the front of `queue_`.
pub record Fifo {ℓ} (T : Type ℓ) : Type ℓ where
  pub queue : List T
  pub config : Config

-- `Config::isValid`
abbrev pub is_valid : Config → Bool
is_valid config = true

module _ {ℓ} {T : Type ℓ} where
  -- `Fifo()`
  abbrev pub empty_fifo : Fifo T
  empty_fifo = record { queue = []; config = record { capacity = 0; socket_id = 0 } }

  -- `isFullLocked`
  unfoldable pub is_full : Fifo T → Bool
  is_full f = not (f.config.capacity == 0) && leb f.config.capacity (length f.queue)

  abbrev pub enqueue : T → Fifo T → Fifo T
  enqueue value f = record f { queue = f.queue ++ value ∷ [] }

  -- Both overloads of `push`, and `emplace`.
  unfoldable pub push : T → Fifo T → Fifo T × Status
  unfolding is_full
  push value f = if is_full f then (f, unexpected ErrorCode.queue_full) else (enqueue value f, done)

  -- `pushAll`; the elements that fit are stored.
  unfoldable pub push_all : List T → Fifo T → Fifo T × Status
  unfolding is_full
  push_all [] f = (f, done)
  push_all (item ∷ items) f =
      let rest = push_all items (enqueue item f) in
      if is_full f then (f, unexpected ErrorCode.queue_full) else rest

  -- The loop of `pushSome`, with `pushed` elements stored so far.
  unfoldable pub push_some_from : ℕ → List T → Fifo T → Fifo T × ℕ
  unfolding is_full
  push_some_from pushed [] f = (f, pushed)
  push_some_from pushed (item ∷ items) f =
      let rest = push_some_from (pushed + 1) items (enqueue item f) in
      if is_full f then (f, pushed) else rest

  -- `pushSome`
  unfoldable pub push_some : List T → Fifo T → Fifo T × ℕ
  push_some items f = push_some_from 0 items f

  -- `pop(timeout)`, at the end of the wait: `none` is a timeout. `pop()` returns only if the queue
  -- is not empty, with the same effect.
  unfoldable pub pop : Fifo T → Fifo T × Option T
  pop f = elim f.queue [ [] ↦ (f, none) | value ∷ rest ↦ (record f { queue = rest }, some value) ]

  -- The loop `while (!queue_.empty() && count < N)`, with room for `room` more elements: what is
  -- taken, and what stays.
  unfoldable pub drain_some : ℕ → List T → List T × List T
  drain_some zero queue = ([], queue)
  drain_some (suc room) [] = ([], [])
  drain_some (suc room) (value ∷ queue) =
      let (taken, rest) = drain_some room queue in (value ∷ taken, rest)

  -- `tryPopSome`, and the bounded overloads of `popSome` at the end of the wait.
  unfoldable pub try_pop_some : ℕ → Fifo T → Fifo T × List T
  try_pop_some room f =
      let (taken, rest) = drain_some room f.queue in (record f { queue = rest }, taken)

  -- The overloads of `popSome` that drain the whole queue, at the end of the wait.
  unfoldable pub pop_some : Fifo T → Fifo T × List T
  pop_some f = (record f { queue = [] }, f.queue)

  -- `configure`
  unfoldable pub configure : Config → Fifo T → Fifo T × Status
  configure config f =
      if not (is_valid config)
      then (f, unexpected ErrorCode.config_queue_invalid)
      else (record f { config = config }, done)

  -- `reserve`
  unfoldable pub reserve : ℕ → Fifo T → Fifo T
  reserve capacity f = record f { config = record (f.config) { capacity = capacity } }
