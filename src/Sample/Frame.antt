-- ===== src/Sample/Frame.antt =====
-- The bytes that `MakeUdpPacket` leaves.
use vnic.Prelude.{
  ℕ, zero, suc, ◌+◌, ◌%◌, ◌≡◌, refl, sym, ◌∙◌, ap, arith, List, [], ◌∷◌, ◌++◌, map, Option, false,
  some, ◌>>=◌, length, replicate, ◌==◌, length-append, if◌then◌else◌,
}
use mathlib.Core.List.{append-nil, append_assoc}
use vnic.Net.Bytes.{ntohs}
use vnic.Net.Layout.{le16, eth_bytes, ip_bytes, udp_bytes}
use vnic.Net.Store.{store_unaligned, write_bytes, write_bytes_middle}
use vnic.Sample.Udp.{
  udp_eth, udp_ip, udp_header, compute_checksum, mac_to_array, ip_to_u32, make_udp_packet,
}

-- The packet, by the parts of which it consists.
abbrev pub udp_packet : List ℕ → List ℕ → ℕ → ℕ → ℕ → ℕ → ℕ → List ℕ → List ℕ
udp_packet dest source saddr daddr check src_port dst_port payload =
    eth_bytes (udp_eth dest source)
    ++ (ip_bytes (udp_ip (length payload) saddr daddr check)
        ++ (udp_bytes (udp_header (length payload) src_port dst_port) ++ payload))

abbrev zeros : ℕ → List ℕ
zeros n = replicate n 0

zeros_add : (m n : ℕ) → zeros (m + n) ≡ zeros m ++ zeros n
zeros_add zero n = ap (λ k. zeros k) {x = 0 + n} {y = n} (omega arith)
zeros_add (suc m) n =
    ap (λ k. zeros k) {x = suc m + n} {y = suc (m + n)} (omega arith) ∙ ap (◌∷◌ 0) (zeros_add m n)

length-zeros : (n : ℕ) → length (zeros n) ≡ n
length-zeros zero = refl
length-zeros (suc n) = ap suc (length-zeros n)

-- The packet of zeros, by the parts that are stored.
zeros_lem : (n : ℕ) → zeros (14 + 20 + 8 + n) ≡ zeros 14 ++ (zeros 20 ++ (zeros 8 ++ zeros n))
zeros_lem n =
    ap (λ k. zeros k) {x = 14 + 20 + 8 + n} {y = 14 + (20 + (8 + n))} (omega arith)
    ∙ zeros_add 14 (20 + (8 + n))
    ∙ ap (λ r. zeros 14 ++ r) (zeros_add 20 (8 + n))
    ∙ ap (λ r. zeros 14 ++ (zeros 20 ++ r)) (zeros_add 8 n)

-- A store into zeros behind what has been stored.
store_next :
    (before raw tail : List ℕ) (n offset : ℕ)
    → length before ≡ offset
    → length raw ≡ n
    → write_bytes (before ++ (zeros n ++ tail)) offset raw ≡ some ((before ++ raw) ++ tail)
store_next before raw tail n offset e f =
    ap (λ k. write_bytes (before ++ (zeros n ++ tail)) k raw) (sym e)
    ∙ write_bytes_middle before (zeros n) tail raw (length-zeros n ∙ sym f)
    ∙ ap some (sym (append_assoc before raw tail))

-- The last store is left out if there is no payload.
abbrev store_payload : List ℕ → List ℕ → Option (List ℕ)
store_payload payload packet =
    if length payload == 0 then some packet else write_bytes packet (14 + 20 + 8) payload

store_payload_lem :
    (before payload : List ℕ)
    → length before ≡ 14 + 20 + 8
    → store_payload payload (before ++ zeros (length payload)) ≡ some (before ++ payload)
store_payload_lem before [] e = refl
store_payload_lem before (b ∷ payload) e =
    let n = suc (length payload) in
    rw (positive (length payload)) (
      ap (λ z. write_bytes (before ++ z) (14 + 20 + 8) (b ∷ payload)) (sym (append-nil (zeros n)))
      ∙ store_next before (b ∷ payload) [] n (14 + 20 + 8) e refl
      ∙ ap some (append-nil (before ++ b ∷ payload)))
  where
    positive : (n : ℕ) → (suc n == 0) ≡ false
    positive n = ground arith

-- The stores of `MakeUdpPacket`, of the three headers and the payload.
module _ (e i u payload : List ℕ) (e_is : length e ≡ 14) (i_is : length i ≡ 20)
    (u_is : length u ≡ 8) where
  abbrev store_udp : List ℕ → Option (List ℕ)
  store_udp packet = write_bytes packet (14 + 20) u >>= store_payload payload

  abbrev store_ip : List ℕ → Option (List ℕ)
  store_ip packet = write_bytes packet 14 i >>= store_udp

  stores :
      (write_bytes (zeros (14 + 20 + 8 + length payload)) 0 e >>= store_ip)
      ≡ some (e ++ (i ++ (u ++ payload)))
  stores =
      let rest = zeros (length payload) in
      ap (λ z. write_bytes z 0 e >>= store_ip) (zeros_lem (length payload))
      ∙ ap (λ o. o >>= store_ip) (store_next [] e (zeros 20 ++ (zeros 8 ++ rest)) 14 0 refl e_is)
      ∙ ap (λ o. o >>= store_udp) (store_next e i (zeros 8 ++ rest) 20 14 e_is i_is)
      ∙ ap (λ o. o >>= store_payload payload)
          (store_next (e ++ i) u rest 8 (14 + 20) (omega (arith, e_is, i_is, length-append e i))
            u_is)
      ∙ store_payload_lem ((e ++ i) ++ u) payload
          (omega (arith, e_is, i_is, u_is, length-append e i, length-append (e ++ i) u))
      ∙ ap some (append_assoc (e ++ i) u payload ∙ append_assoc e i (u ++ payload))

length_map : (xs : List ℕ) → length (map (λ part. part % 256) xs) ≡ length xs
length_map [] = refl
length_map (x ∷ xs) = ap suc (length_map xs)

module _ {ℓ} {Text : Type ℓ} (scan_mac : Text → List ℕ) (inet_pton : Text → Option ℕ) where
  -- The bytes of an address.
  abbrev pub parts : Text → List ℕ
  parts mac = map (λ part. part % 256) (scan_mac mac)

  pub six : (mac : Text) → length (scan_mac mac) ≡ 6 → length (parts mac) ≡ 6
  six mac e = length_map (scan_mac mac) ∙ e

  mac_to_array_six :
      (mac : Text)
      → length (scan_mac mac) ≡ 6
      → mac_to_array scan_mac inet_pton mac ≡ some (parts mac)
  unfolding mac_to_array
  mac_to_array_six mac e = ground (arith, e)

  -- With texts that are addresses, the packet is that of its parts.
  pub make_udp_packet-udp_packet :
      (src_mac dst_mac src_ip dst_ip : Text) (src_port dst_port : ℕ) (payload : List ℕ)
      (saddr daddr check : ℕ)
      → length (scan_mac src_mac) ≡ 6
      → length (scan_mac dst_mac) ≡ 6
      → inet_pton src_ip ≡ some saddr
      → inet_pton dst_ip ≡ some daddr
      → compute_checksum (ip_bytes (udp_ip (length payload) saddr daddr 0)) ≡ some check
      → make_udp_packet scan_mac inet_pton src_mac dst_mac src_ip dst_ip src_port dst_port payload
        ≡ some
            (udp_packet (parts dst_mac) (parts src_mac) saddr daddr check src_port dst_port payload)
  unfolding make_udp_packet store_unaligned ip_to_u32
  make_udp_packet-udp_packet src_mac dst_mac src_ip dst_ip src_port dst_port payload saddr daddr
        check m n i j k =
      rw (mac_to_array_six src_mac m, mac_to_array_six dst_mac n, i, j, k)
        (stores (eth_bytes (udp_eth (parts dst_mac) (parts src_mac)))
          (ip_bytes (udp_ip (length payload) saddr daddr check))
          (udp_bytes (udp_header (length payload) src_port dst_port)) payload
          (omega (
            arith,
            length-append (parts dst_mac) (parts src_mac ++ le16 (ntohs 0x0800)),
            length-append (parts src_mac) (le16 (ntohs 0x0800)),
            six src_mac m,
            six dst_mac n,
          ))
          refl refl)
