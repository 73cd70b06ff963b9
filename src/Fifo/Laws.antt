-- ===== src/Fifo/Laws.antt =====
-- The bulk operations of the queue, against `take` and `drop` of a list.
use vnic.Prelude.{
  ℕ, zero, suc, ◌+◌, ◌-◌, ◌≤◌, ◌≡◌, refl, ◌∙◌, ap, ◌⊎◌, inl, inr, true, false, List, [], ◌∷◌, ◌++◌,
  length, take, drop, min, arith, length-append, ◌==◌, if◌then◌else◌, Bool-cases,
}
use mathlib.Core.List.{append_assoc, append-nil}
use vnic.ErrorCode.{ErrorCode, unexpected, done}
use vnic.Fifo.Queue.{
  Fifo, enqueue, is_full, push, push_all, push_some, push_some_from, drain_some, try_pop_some,
}

-- The bound on the number of queued elements; there is none at capacity 0.
abbrev pub IsBounded {ℓ} : {T : Type ℓ} → Fifo T → Type 0
IsBounded f = (f.config.capacity ≡ 0) ⊎ (length f.queue ≤ f.config.capacity)

-- The elements that still fit, of `n`.
unfoldable pub room {ℓ} : {T : Type ℓ} → Fifo T → ℕ → ℕ
room f n = if f.config.capacity == 0 then n else min n (f.config.capacity - length f.queue)

module _ {ℓ} {T : Type ℓ} where
  pub push-IsBounded : (x : T) (f : Fifo T) → IsBounded f → IsBounded (push x f).0
  unfolding push
  push-IsBounded x f h = ground (arith, length-append f.queue (x ∷ []))

  pub room-nil : (f : Fifo T) → room f 0 ≡ 0
  unfolding room
  room-nil f = ground arith

  pub room_full : (f : Fifo T) (n : ℕ) → is_full f ≡ true → room f n ≡ 0
  unfolding room is_full
  room_full f n h = ground arith

  pub room_open :
      (x : T) (f : Fifo T) (n : ℕ) → is_full f ≡ false → room f (suc n) ≡ suc (room (enqueue x f) n)
  unfolding room is_full
  room_open x f n h = ground (arith, length-append f.queue (x ∷ []))

  -- `f` with the first `n` of some items behind its own.
  abbrev pub with_first : ℕ → List T → Fifo T → Fifo T
  with_first n items f = record f { queue = f.queue ++ take n items }

  push_some_from_lem :
      (pushed : ℕ) (items : List T) (f : Fifo T)
      → let n = room f (length items) in
        push_some_from pushed items f ≡ (with_first n items f, pushed + n)
  unfolding push_some_from
  push_some_from_lem pushed [] f = ground (arith, room-nil f, append-nil f.queue)
  push_some_from_lem pushed (x ∷ items) f = elim (Bool-cases (is_full f)) [
    | inl full ↦ ground (arith, room_full f (suc (length items)) full, append-nil f.queue)
    | inr open' ↦ ground (
      arith,
      push_some_from_lem (pushed + 1) items (enqueue x f),
      room_open x f (length items) open',
      append_assoc f.queue (x ∷ []) (take (room (enqueue x f) (length items)) items),
    )
  ]

  -- A batch is cut to the room that there is: the prefix that fits is appended in order, and the
  -- number returned is its length.
  pub push_some-take :
      (items : List T) (f : Fifo T)
      → let n = room f (length items) in push_some items f ≡ (with_first n items f, n)
  unfolding push_some
  push_some-take items f =
      push_some_from_lem 0 items f
      ∙ ap (λ n. (with_first (room f (length items)) items f, n)) (omega arith)

  -- `push_all` stores the same prefix; it reports `queue_full` exactly if something is left over.
  pub push_all-take :
      (items : List T) (f : Fifo T)
      → let n = room f (length items) in
        push_all items f ≡ (
          with_first n items f,
          if n == length items then done else unexpected ErrorCode.queue_full,
        )
  unfolding push_all
  push_all-take [] f = ground (arith, room-nil f, append-nil f.queue)
  push_all-take (x ∷ items) f = elim (Bool-cases (is_full f)) [
    | inl full ↦ ground (arith, room_full f (suc (length items)) full, append-nil f.queue)
    | inr open' ↦ ground (
      arith,
      push_all-take items (enqueue x f),
      room_open x f (length items) open',
      append_assoc f.queue (x ∷ []) (take (room (enqueue x f) (length items)) items),
    )
  ]

  drain_some_lem : (n : ℕ) (xs : List T) → drain_some n xs ≡ (take n xs, drop n xs)
  unfolding drain_some
  drain_some_lem zero xs = refl
  drain_some_lem (suc n) [] = refl
  drain_some_lem (suc n) (x ∷ xs) = rw (drain_some_lem n xs)

  -- A bounded drain takes the oldest elements in order and leaves the others.
  pub try_pop_some-take :
      (n : ℕ) (f : Fifo T)
      → try_pop_some n f ≡ (record f { queue = drop n f.queue }, take n f.queue)
  unfolding try_pop_some
  try_pop_some-take n f = rw (drain_some_lem n f.queue)

  -- A queue within its capacity is within it after `push_all`, whatever it is given.
  pub push_all-IsBounded :
      (items : List T) (f : Fifo T) → IsBounded f → IsBounded (push_all items f).0
  unfolding push_all
  push_all-IsBounded [] f h = h
  push_all-IsBounded (x ∷ items) f h =
      ground (arith, push_all-IsBounded items (enqueue x f), length-append f.queue (x ∷ []))
