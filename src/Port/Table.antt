-- ===== src/Port/Table.antt =====
-- The redirection table: `initReta`, `updateReta`, `configureRss`, and the lookup of `distribute`.
use vnic.Prelude.{
  ℕ, zero, suc, ◌+◌, ◌-◌, ◌%◌, not, List, [], ◌∷◌, Option, none, some, length, get_elem?, ◌==◌,
  if◌then◌else◌, bit_and,
}
use vnic.ErrorCode.{ErrorCode, eqb, Status, ok, unexpected, done}
use vnic.Port.Config.{Rss, passes_mask, all_queues, validate_rss}

abbrev pub reta_size : ℕ
reta_size = 512

-- The round-robin loop, from entry `i` on with `rest` to go.
unfoldable pub round_robin : ℕ → ℕ → ℕ → List ℕ
round_robin zero i count = []
round_robin (suc rest) i count = i % count ∷ round_robin rest (i + 1) count

-- `initReta`, with the number of receive queues; the table that is filled and the answer. Its `assert`
-- that RSS is on is what `configureRss`, its only caller, tests before.
unfoldable pub init_reta : Rss → ℕ → List ℕ × Status
init_reta c count =
    if count == 0
    then ([], unexpected ErrorCode.config_queue_count_invalid)
    else if length c.reta == 0
    then (round_robin reta_size 0 count, done)
    else if not (passes_mask (length c.reta))
    then ([], unexpected ErrorCode.config_rss_reta_size_not_power_of_two)
    else if not (all_queues c.reta count)
    then ([], unexpected ErrorCode.config_rss_reta_queue_out_of_range)
    else (c.reta, done)

-- `updateReta`: the table in force, and the answer.
unfoldable pub update_reta : List ℕ → ℕ → List ℕ → List ℕ × Status
update_reta reta count current =
    if length reta == 0
    then (current, unexpected ErrorCode.rss_reta_empty)
    else if not (passes_mask (length reta))
    then (current, unexpected ErrorCode.rss_reta_size_invalid)
    else if not (all_queues reta count)
    then (current, unexpected ErrorCode.rss_reta_queue_out_of_range)
    else (reta, done)

-- `configureRss`
unfoldable pub configure_rss : Rss → ℕ → List ℕ → List ℕ × Status
configure_rss c count current =
    let (reta, s) = init_reta c count in
    let updated = update_reta reta count current in
    if not c.enabled
    then (current, done)
    else if not (eqb (validate_rss c) ErrorCode.none)
    then (current, unexpected (validate_rss c))
    else elim s [ unexpected e ↦ (current, unexpected e) | ok u ↦ updated ]

-- The lookup of `distribute`: `reta[hash & (size - 1)]`, and 0 in an empty table. `none` is the failure
-- of the `assert` that the size is a power of two, or a read outside the table.
unfoldable pub lookup : List ℕ → ℕ → Option ℕ
lookup reta hash =
    if length reta == 0
    then some 0
    else if not (passes_mask (length reta))
    then none
    else get_elem? reta (bit_and hash (length reta - 1))
