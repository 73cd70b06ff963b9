-- ===== src/Rss/Hash.antt =====
-- `CalcHash` (src/rss/hash.cpp).
use vnic.Prelude.{ℕ, List, Option, some, ◌>>=◌, length, ltb, ◌==◌, if◌then◌else◌}
use vnic.Packet.FiveTuple.{FiveTuple}
use vnic.Rss.Input.{HashFunc, SymmetryMode, build_hash_input, make_symmetric}
use vnic.Rss.Functions.{key320_hash_calc, simple_xor_calc, mix_key, crc32_calc}

-- The switch on the hash function.
unfoldable pub apply_hash : HashFunc → List ℕ → List ℕ → Option ℕ
apply_hash HashFunc.toeplitz input key =
    if ltb (length key) 40 then some 0 else key320_hash_calc key input
apply_hash HashFunc.simple_xor input key = simple_xor_calc input key
apply_hash HashFunc.crc32 input key = do seed ← mix_key key 0xffffffff; some (crc32_calc input seed)
apply_hash HashFunc.none input key = some 0

abbrev pub order_tuple : SymmetryMode → FiveTuple → FiveTuple
order_tuple SymmetryMode.symmetric t = make_symmetric t
order_tuple SymmetryMode.asymmetric t = t
order_tuple SymmetryMode.none t = t

-- `CalcHash`
unfoldable pub calc_hash : FiveTuple → List ℕ → HashFunc → ℕ → SymmetryMode → Option ℕ
calc_hash t key hf protocol symmetry = do
  input ← build_hash_input (order_tuple symmetry t) protocol
  if length input == 0 then some 0 else apply_hash hf input key
