-- ===== src/Rss/Protocol.antt =====
-- `enum class Protocol` of include/rss/hash.h: a set of flags in a `std::uint32_t`.
use vnic.Prelude.{ℕ}

abbrev pub ipv4 : ℕ
ipv4 = 1

abbrev pub ipv6 : ℕ
ipv6 = 2

abbrev pub tcp : ℕ
tcp = 4

abbrev pub udp : ℕ
udp = 8

abbrev pub sctp : ℕ
sctp = 16

abbrev pub all : ℕ
all = 31
