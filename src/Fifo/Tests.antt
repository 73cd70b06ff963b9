-- ===== src/Fifo/Tests.antt =====
-- The queue with room for one more element.
use vnic.Prelude.{ℕ, ◌≡◌, List, [], ◌∷◌, arith, if◌then◌else◌, ◌==◌}
use vnic.ErrorCode.{ErrorCode, unexpected, done}
use vnic.Fifo.Queue.{Fifo, push_all, try_pop_some}
use vnic.Fifo.Laws.{
  room, with_first, IsBounded, push_all-take, try_pop_some-take, push_all-IsBounded,
}

abbrev almost_full : Fifo ℕ
almost_full = record { queue = 1 ∷ 2 ∷ []; config = record { capacity = 3; socket_id = 0 } }

abbrev batch : List ℕ
batch = 5 ∷ 6 ∷ []

push_all-take_example : push_all batch almost_full ≡ (
  with_first (room almost_full 2) batch almost_full,
  if room almost_full 2 == 2 then done else unexpected ErrorCode.queue_full,
)
push_all-take_example = push_all-take batch almost_full

try_pop_some-take_example :
    try_pop_some 1 almost_full ≡ (record almost_full { queue = 2 ∷ [] }, 1 ∷ [])
try_pop_some-take_example = try_pop_some-take 1 almost_full

push_all-IsBounded_example : IsBounded (push_all batch almost_full).0
push_all-IsBounded_example = push_all-IsBounded batch almost_full (ground arith)
