-- ===== src/Sample/Facts.antt =====
-- The bytes of a packet of the generator that the checks of the port look at.
use vnic.Prelude.{
  ℕ, ◌+◌, ◌%◌, ◌≤◌, ◌<◌, ◌≡◌, refl, arith, List, [], ◌∷◌, true, length, take, drop, ◌⊎◌, inl, inr,
  ltb, if◌then◌else◌,
}
use vnic.ErrorCode.{ErrorCode, Status, unexpected, done}
use vnic.Net.Bytes.{ntohs, u8}
use vnic.Net.Wire.{wire16}
use vnic.Validate.Checks.{bytes_equal}
use vnic.Validate.Checksum.{word_sum, is_ones_complement_zero}
use vnic.Parser.State.{L1Protocol, L2Protocol}
use vnic.Port.State.{Port}
use vnic.Port.Admission.{admission, ipv4_admission, is_addressed}
use vnic.Sample.Frame.{udp_packet}
use vnic.Sample.Roundtrip.{by_six}

module _ (saddr daddr check src_port dst_port : ℕ) (payload : List ℕ) where
  abbrev packet : List ℕ → List ℕ → List ℕ
  packet dest source = udp_packet dest source saddr daddr check src_port dst_port payload

  -- The bytes that the checks look at.
  abbrev Lays : List ℕ → List ℕ → Type 0
  Lays dest source =
      (length (packet dest source) ≡ 42 + length payload)
      × (drop 42 (packet dest source) ≡ payload)
      × (take 6 (packet dest source) ≡ dest)
      × (u8 (packet dest source) 14 ≡ 69)
      × (wire16 (packet dest source) 16 ≡ (28 + length payload) % 65536)

  Lays-six :
      (a b c d e f a' b' c' d' e' f' : ℕ)
      → Lays (a ∷ b ∷ c ∷ d ∷ e ∷ f ∷ []) (a' ∷ b' ∷ c' ∷ d' ∷ e' ∷ f' ∷ [])
  unfolding ntohs
  Lays-six a b c d e f a' b' c' d' e' f' = (omega arith, refl, refl, refl, omega arith)

  pub layout : (dest source : List ℕ) → length dest ≡ 6 → length source ≡ 6 → Lays dest source
  layout dest source d s =
      by_six (λ dest. Lays dest source)
        (λ a b c d' e f.
          by_six (Lays (a ∷ b ∷ c ∷ d' ∷ e ∷ f ∷ [])) (Lays-six a b c d' e f) source s)
        dest d

bytes_equal_refl : (xs : List ℕ) → bytes_equal xs xs ≡ true
unfolding bytes_equal
bytes_equal_refl [] = refl
bytes_equal_refl (x ∷ xs) = ground (arith, bytes_equal_refl xs)

-- A payload of less than 18 bytes makes a frame of less than 60.
abbrev pub runt_answer : ℕ → Status
runt_answer n = if ltb n 18 then unexpected ErrorCode.validation_frame_too_short else done

module _ {ℓ} {Text : Type ℓ} where
  -- The port takes frames for this address.
  abbrev pub Takes : Port Text → List ℕ → Type 0
  Takes port dest = (port.config.promiscuous_enabled ≡ true) ⊎ (port.mac_addr ≡ dest)

  addressed_lem :
      (port : Port Text) (dest frame : List ℕ)
      → Takes port dest
      → take 6 frame ≡ dest
      → is_addressed port.config.promiscuous_enabled port.mac_addr frame ≡ true
  unfolding is_addressed
  addressed_lem port dest frame (inl p) e = rw p refl
  addressed_lem port dest frame (inr m) e = ground (arith, m, e, bytes_equal_refl dest)

  pub admitted :
      (frame dest : List ℕ) (n : ℕ) (port : Port Text)
      → length frame ≡ 42 + n
      → 28 + n < 65536
      → 28 + n ≤ port.config.mtu
      → Takes port dest
      → take 6 frame ≡ dest
      → u8 frame 14 ≡ 69
      → wire16 frame 16 ≡ (28 + n) % 65536
      → is_ones_complement_zero (word_sum frame 14 10) ≡ true
      → admission frame 14 L1Protocol.eth L2Protocol.ipv4 port ≡ runt_answer n
  unfolding admission ipv4_admission
  admitted frame dest n port len high mtu takes at_dest ihl total sum =
      rw (addressed_lem port dest frame takes at_dest, ihl, total, sum)
        (ground (arith, len, high, mtu))
