-- ===== src/Validate/Checksum.antt =====
-- `CheckIpv4Checksum` (src/validate/validate.cpp), and the sum of RFC 1071 that it must compute.
use vnic.Prelude.{
  ℕ, zero, suc, ◌+◌, ◌*◌, ◌/◌, ◌%◌, ◌^◌, ◌≤◌, ◌<◌, ◌≡◌, ◌∙◌, ap, arith, Bool, true, false, not,
  ◌&&◌, ◌||◌, List, Option, some, ◌>>=◌, length, get_elem?, get_or, get_elem?-some, Returns, ltb,
  ◌==◌, if◌then◌else◌, bit_or, lt→ltb, leb,
}
use vnic.Bits.Laws.{bit_or-fields}
use vnic.Net.Bytes.{IsBytes, u8_lt}
use vnic.Net.Headers.{IpHdr}
use vnic.Parser.State.{Parser}
use vnic.Parser.Accessors.{ipv4}

-- `for (i = 0; i + 1 < headerBytes; i += 2)`, over the packet from `base` on. Out of fuel is `none`,
-- like a read outside the packet.
unfoldable pub sum_loop : ℕ → List ℕ → ℕ → ℕ → ℕ → ℕ → Option ℕ
sum_loop zero packet base header_bytes i sum = Option.none
sum_loop (suc fuel) packet base header_bytes i sum =
    let round = do
      high ← get_elem? packet (base + i)
      low ← get_elem? packet (base + (i + 1))
      sum_loop fuel packet base header_bytes (i + 2) ((sum + bit_or (high * 2 ^ 8) low) % 2 ^ 32)
    in if ltb (i + 1) header_bytes then round else some sum

-- `while (sum >> 16) sum = (sum & 0xFFFF) + (sum >> 16)`
unfoldable pub fold_carries : ℕ → ℕ → Option ℕ
fold_carries zero sum = Option.none
fold_carries (suc fuel) sum =
    let rest = fold_carries fuel ((sum % 65536 + sum / 65536) % 2 ^ 32) in
    if sum / 65536 == 0 then some sum else rest

-- `CheckIpv4Checksum`: 31 tests end the first loop and three the second.
unfoldable pub check_ipv4_checksum : List ℕ → Parser → Option Bool
check_ipv4_checksum packet p = elim (ipv4 p) [
  | Option.none ↦ some true
  | some ip ↦
      let header_bytes = ip.ihl * 4 in
      if ltb header_bytes 20 || ltb (length packet) (p.l2_offset + header_bytes)
      then some false
      else do
        sum ← sum_loop 31 packet p.l2_offset header_bytes 0 0
        folded ← fold_carries 3 sum
        some (folded % 65536 == 0xffff)
]

-- The sum of the first `words` 16-bit words, in network order, from `base` on.
unfoldable pub word_sum : List ℕ → ℕ → ℕ → ℕ
word_sum packet base zero = 0
word_sum packet base (suc words) =
    256 * get_or packet base 0 + get_or packet (base + 1) 0 + word_sum packet (base + 2) words

-- In one's complement 0xffff and the multiples of it stand for zero, 0 itself for no data.
unfoldable pub is_ones_complement_zero : ℕ → Bool
is_ones_complement_zero sum = sum % 65535 == 0 && not (sum == 0)

fold_carries_lem :
    (sum : ℕ)
    → sum < 2 ^ 32
    → Returns (λ r. (r % 65536 == 0xffff) ≡ is_ones_complement_zero sum) (fold_carries 3 sum)
unfolding fold_carries is_ones_complement_zero
fold_carries_lem sum h = ground arith

-- `words` rounds are left, and the fuel suffices for them and the last test.
sum_loop_lem :
    (words fuel : ℕ) (packet : List ℕ) (base header_bytes i sum : ℕ)
    → IsBytes packet
    → words < fuel
    → i + 2 * words ≡ header_bytes
    → base + header_bytes ≤ length packet
    → sum + words * 65536 < 2 ^ 32
    → sum_loop fuel packet base header_bytes i sum ≡ some (sum + word_sum packet (base + i) words)
unfolding sum_loop word_sum
sum_loop_lem words zero packet base n i sum b f e l s = absurd (omega arith)
sum_loop_lem zero (suc fuel) packet base n i sum b f e l s = ground arith
sum_loop_lem (suc words) (suc fuel) packet base n i sum b f e l s =
    rw
      (
        lt→ltb (i + 1) n (omega arith),
        get_elem?-some packet (base + i) 0 (omega arith),
        get_elem?-some packet (base + (i + 1)) 0 (omega arith),
        bit_or-fields 8 high low low_byte,
        no_wrap,
      )
      (sum_loop_lem words fuel packet base n (i + 2) (sum + (high * 2 ^ 8 + low)) b (omega arith)
          (omega arith) l (omega (arith, high_byte, low_byte))
        ∙ ap some (omega (arith, next_word, next_rest)))
  where
    high : ℕ
    high = get_or packet (base + i) 0

    low : ℕ
    low = get_or packet (base + (i + 1)) 0

    high_byte : high < 256
    high_byte = u8_lt packet (base + i) b

    low_byte : low < 256
    low_byte = u8_lt packet (base + (i + 1)) b

    no_wrap : (sum + (high * 2 ^ 8 + low)) % 2 ^ 32 ≡ sum + (high * 2 ^ 8 + low)
    no_wrap = omega (arith, high_byte, low_byte)

    next_word : low ≡ get_or packet (base + i + 1) 0
    next_word = ap (λ k. get_or packet k 0) {x = base + (i + 1)} (omega arith)

    next_rest : word_sum packet (base + (i + 2)) words ≡ word_sum packet (base + i + 2) words
    next_rest = ap (λ k. word_sum packet k words) {x = base + (i + 2)} (omega arith)

word_sum_lt :
    (words : ℕ) (packet : List ℕ) (base : ℕ)
    → IsBytes packet
    → word_sum packet base words ≤ words * 65536
unfolding word_sum
word_sum_lt zero packet base b = omega arith
word_sum_lt (suc words) packet base b =
    omega
      (arith, u8_lt packet base b, u8_lt packet (base + 1) b, word_sum_lt words packet (base + 2) b)

header_sum :
    (words : ℕ) (packet : List ℕ) (base : ℕ)
    → IsBytes packet
    → words < 31
    → base + words * 2 ≤ length packet
    → sum_loop 31 packet base (words * 2) 0 0 ≡ some (word_sum packet base words)
header_sum words packet base b h l =
    sum_loop_lem words 31 packet base (words * 2) 0 0 b h (omega arith) l (omega arith)
    ∙ ap some
        (omega (arith, ap (λ k. word_sum packet k words) {x = base + 0} {y = base} (omega arith)))

-- For a packet of bytes and a parser that holds an IPv4 header of at most 15 words, the check reads
-- nothing outside the packet, both loops end, and its answer is: the header has at least five
-- words, lies inside the packet, and its words, read in network order, add up to zero in one's
-- complement, with the checksum among them.
pub check_ipv4_checksum_lem :
    (packet : List ℕ) (p : Parser) (ip : IpHdr)
    → IsBytes packet
    → ipv4 p ≡ some ip
    → ip.ihl < 16
    → check_ipv4_checksum packet p
      ≡ some (
          leb 5 ip.ihl
          && leb (p.l2_offset + ip.ihl * 4) (length packet)
          && is_ones_complement_zero (word_sum packet p.l2_offset (ip.ihl * 2)))
unfolding check_ipv4_checksum
check_ipv4_checksum_lem packet p ip b e h =
    rw (e, check_ipv4_checksum)
      (ground (
        arith,
        twice,
        header_sum (ip.ihl * 2) packet p.l2_offset b,
        fold_carries_lem (word_sum packet p.l2_offset (ip.ihl * 2)),
        word_sum_lt (ip.ihl * 2) packet p.l2_offset b,
      ))
  where
    twice : ip.ihl * 4 ≡ ip.ihl * 2 * 2
    twice = omega arith
