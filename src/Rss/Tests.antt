-- ===== src/Rss/Tests.antt =====
-- The hash functions at published test vectors.
use vnic.Prelude.{ℕ, ◌≡◌, refl, List, [], ◌∷◌, some, arith, Returns}
use vnic.Rss.Symmetry.{reverse_flow, calc_hash-reverse_flow}
use vnic.Rss.Window.{toeplitz}
use vnic.Rss.Toeplitz.{key320_hash_calc_lem}
use vnic.Rss.Range.{IsHash, calc_hash_range}
use vnic.Net.Bytes.{u16, u32}
use vnic.Packet.FiveTuple.{FiveTuple, zero_tuple}
use vnic.Rss.Protocol
use vnic.Rss.Input.{HashFunc, SymmetryMode, build_hash_input, copied, has_ip, has_l4}
use vnic.Rss.Functions.{
  key320_hash_calc, load_prefix, toeplitz_loop, toeplitz_bits, next_key_byte, crc32_calc, crc_loop,
  crc_bits,
}
use vnic.Rss.Hash.{calc_hash, apply_hash}

-- The key of Microsoft's verification suite.
abbrev suite_key : List ℕ
suite_key =
    0x6d ∷ 0x5a ∷ 0x56 ∷ 0xda ∷ 0x25 ∷ 0x5b ∷ 0x0e ∷ 0xc2 ∷ 0x41 ∷ 0x67 ∷ 0x25 ∷ 0x3d ∷ 0x43 ∷ 0xa3
    ∷ 0x8f ∷ 0xb0 ∷ 0xd0 ∷ 0xca ∷ 0x2b ∷ 0xcb ∷ 0xae ∷ 0x7b ∷ 0x30 ∷ 0xb4 ∷ 0x77 ∷ 0xcb ∷ 0x2d
    ∷ 0xa3 ∷ 0x80 ∷ 0x30 ∷ 0xf2 ∷ 0x0c ∷ 0x6a ∷ 0x42 ∷ 0xb7 ∷ 0x3b ∷ 0xbe ∷ 0xac ∷ 0x01 ∷ 0xfa ∷ []

-- 66.9.149.187:2794 to 161.142.100.80:1766
abbrev suite_tuple : FiveTuple
suite_tuple = record zero_tuple {
  version = 4;
  saddr4 = u32 (66 ∷ 9 ∷ 149 ∷ 187 ∷ []) 0;
  daddr4 = u32 (161 ∷ 142 ∷ 100 ∷ 80 ∷ []) 0;
  sport = u16 (0x0a ∷ 0xea ∷ []) 0;
  dport = u16 (0x06 ∷ 0xe6 ∷ []) 0;
  iproto = 6;
}

toeplitz_with_ports :
    calc_hash suite_tuple suite_key HashFunc.toeplitz Protocol.all SymmetryMode.asymmetric
    ≡ some 0x51ccc178
unfolding calc_hash apply_hash build_hash_input copied has_ip has_l4 key320_hash_calc load_prefix
    toeplitz_loop toeplitz_bits next_key_byte
toeplitz_with_ports = refl

toeplitz_without_ports :
    calc_hash suite_tuple suite_key HashFunc.toeplitz Protocol.ipv4 SymmetryMode.asymmetric
    ≡ some 0x323e8fc2
unfolding calc_hash apply_hash build_hash_input copied has_ip has_l4 key320_hash_calc load_prefix
    toeplitz_loop toeplitz_bits next_key_byte
toeplitz_without_ports = refl

-- The check value of CRC-32: the digits 1 to 9.
crc32_check :
    crc32_calc (0x31 ∷ 0x32 ∷ 0x33 ∷ 0x34 ∷ 0x35 ∷ 0x36 ∷ 0x37 ∷ 0x38 ∷ 0x39 ∷ []) 0xffffffff
    ≡ 0xcbf43926
unfolding crc32_calc crc_loop crc_bits
crc32_check = refl

-- The first tuple with ports and addresses exchanged.
calc_hash-reverse_flow_example :
    calc_hash
      (reverse_flow suite_tuple)
      suite_key
      HashFunc.crc32
      Protocol.all
      SymmetryMode.symmetric
    ≡ calc_hash suite_tuple suite_key HashFunc.crc32 Protocol.all SymmetryMode.symmetric
calc_hash-reverse_flow_example =
    calc_hash-reverse_flow suite_tuple suite_key HashFunc.crc32 Protocol.all (record {
      saddr4_range = omega arith;
      daddr4_range = omega arith;
      sport_range = omega arith;
      dport_range = omega arith;
      saddr6_size = refl;
      daddr6_size = refl;
    })

key320_hash_calc_lem_example :
    key320_hash_calc suite_key (1 ∷ 2 ∷ 3 ∷ []) ≡ some (toeplitz suite_key (1 ∷ 2 ∷ 3 ∷ []))
key320_hash_calc_lem_example =
    key320_hash_calc_lem suite_key (1 ∷ 2 ∷ 3 ∷ []) (ground arith) (ground arith) (omega arith)

calc_hash_range_example :
    Returns IsHash
      (calc_hash suite_tuple suite_key HashFunc.simple_xor Protocol.all SymmetryMode.none)
calc_hash_range_example =
    calc_hash_range suite_tuple suite_key HashFunc.simple_xor Protocol.all SymmetryMode.none
      (record {
        saddr6_bytes = ground arith;
        daddr6_bytes = ground arith;
        saddr6_size = ground arith;
        daddr6_size = ground arith;
      })
      (ground arith)
