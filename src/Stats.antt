-- ===== src/Stats.antt =====
-- include/stats/stats.h: the counter set of the port and of each queue. A counter is a
-- `std::uint64_t`, and each operation is one relaxed atomic access.
use vnic.Prelude.{ℕ, ◌+◌, ◌%◌, ◌^◌}

-- `class Stats`; the `load…` methods are the fields.
pub record Stats : Type 0 where
  pub processed_packets : ℕ
  pub processed_bytes : ℕ
  pub dropped_packets : ℕ
  pub dropped_bytes : ℕ
  pub errors : ℕ
  pub overflows : ℕ
  pub transmitted_packets : ℕ
  pub transmitted_bytes : ℕ
  pub tx_dropped_packets : ℕ
  pub tx_dropped_bytes : ℕ

-- `__atomic_fetch_add` on 64 bits.
abbrev pub add64 : ℕ → ℕ → ℕ
add64 a n = (a + n) % 2 ^ 64

-- The initial values, and what `reset` stores.
abbrev pub zero_stats : Stats
zero_stats = record {
  processed_packets = 0;
  processed_bytes = 0;
  dropped_packets = 0;
  dropped_bytes = 0;
  errors = 0;
  overflows = 0;
  transmitted_packets = 0;
  transmitted_bytes = 0;
  tx_dropped_packets = 0;
  tx_dropped_bytes = 0;
}

abbrev pub fetch_processed_packets : ℕ → Stats → Stats
fetch_processed_packets n s = record s { processed_packets = add64 s.processed_packets n }

abbrev pub fetch_processed_bytes : ℕ → Stats → Stats
fetch_processed_bytes n s = record s { processed_bytes = add64 s.processed_bytes n }

abbrev pub fetch_dropped_packets : ℕ → Stats → Stats
fetch_dropped_packets n s = record s { dropped_packets = add64 s.dropped_packets n }

abbrev pub fetch_dropped_bytes : ℕ → Stats → Stats
fetch_dropped_bytes n s = record s { dropped_bytes = add64 s.dropped_bytes n }

abbrev pub fetch_errors : ℕ → Stats → Stats
fetch_errors n s = record s { errors = add64 s.errors n }

abbrev pub fetch_overflows : ℕ → Stats → Stats
fetch_overflows n s = record s { overflows = add64 s.overflows n }

abbrev pub fetch_transmitted_packets : ℕ → Stats → Stats
fetch_transmitted_packets n s = record s { transmitted_packets = add64 s.transmitted_packets n }

abbrev pub fetch_transmitted_bytes : ℕ → Stats → Stats
fetch_transmitted_bytes n s = record s { transmitted_bytes = add64 s.transmitted_bytes n }

abbrev pub fetch_tx_dropped_packets : ℕ → Stats → Stats
fetch_tx_dropped_packets n s = record s { tx_dropped_packets = add64 s.tx_dropped_packets n }

abbrev pub fetch_tx_dropped_bytes : ℕ → Stats → Stats
fetch_tx_dropped_bytes n s = record s { tx_dropped_bytes = add64 s.tx_dropped_bytes n }

-- `Stats::reset`
abbrev pub reset : Stats → Stats
reset s = zero_stats
