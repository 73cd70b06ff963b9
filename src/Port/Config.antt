-- ===== src/Port/Config.antt =====
-- `VNic::Config` and its validation. A text is what `ParseMac` is given; `is_empty` is `empty()`.
use vnic.Prelude.{
  ℕ, ◌-◌, Bool, true, false, not, ◌&&◌, ◌||◌, List, [], ◌∷◌, Option, some, length, ltb, leb, ◌==◌,
  if◌then◌else◌, bit_and,
}
use vnic.ErrorCode.{ErrorCode, eqb}
use vnic.Link.Pipe
use vnic.Link.Pipe.{Config as LinkConfig}
use vnic.Rss.Input.{HashFunc, SymmetryMode}
use vnic.Validate.Checks.{parse_mac}

-- `Config::Rss`
pub record Rss : Type 0 where
  pub enabled : Bool
  pub hf : HashFunc
  pub protocol : ℕ
  pub symmetry : SymmetryMode
  pub key : List ℕ
  pub reta : List ℕ

-- `Config`; `ipAddrs` is not used by the code.
pub record Config {ℓ} (Text : Type ℓ) : Type ℓ where
  pub promiscuous_enabled : Bool
  pub mtu : ℕ
  pub rx_queue_count : ℕ
  pub tx_queue_count : ℕ
  pub rss : Rss
  pub mac_addr : Text
  pub vlan_allow_list : List ℕ
  pub link : LinkConfig

abbrev pub min_key_length : ℕ
min_key_length = 40

abbrev pub vlan_id_max : ℕ
vlan_id_max = 0x0fff

-- `(size & (size - 1)) == 0` of a size that is not zero.
abbrev pub passes_mask : ℕ → Bool
passes_mask size = bit_and size (size - 1) == 0

-- `Rss::validate`
unfoldable pub validate_rss : Rss → ErrorCode
validate_rss c =
    if not c.enabled
    then ErrorCode.none
    else if ltb (length c.key) min_key_length
    then ErrorCode.config_rss_key_too_short
    else if not (length c.reta == 0) && not (passes_mask (length c.reta))
    then ErrorCode.config_rss_reta_size_not_power_of_two
    else ErrorCode.none

-- A loop over the entries of a table that returns at the first that is no queue.
unfoldable pub all_queues : List ℕ → ℕ → Bool
all_queues [] count = true
all_queues (queue_id ∷ reta) count = if leb count queue_id then false else all_queues reta count

-- The loop over the VLAN ids.
unfoldable pub all_vlans : List ℕ → Bool
all_vlans [] = true
all_vlans (vlan_id ∷ rest) = if ltb vlan_id_max vlan_id then false else all_vlans rest

-- The first code that is not `None`.
abbrev pub or_code : ErrorCode → ErrorCode → ErrorCode
or_code code rest = if eqb code ErrorCode.none then rest else code

module _ {ℓ} {Text : Type ℓ} (scan_mac : Text → List ℕ) (is_empty : Text → Bool) where
  -- The address, by `ParseMac`.
  unfoldable pub valid_mac : Text → Bool
  valid_mac mac =
      is_empty mac || elim (parse_mac scan_mac mac) [ some octets ↦ true | Option.none ↦ false ]

  -- The tests behind those of the link and of RSS.
  unfoldable pub validate_lists : Config Text → ErrorCode
  validate_lists c =
      if c.rss.enabled && c.rx_queue_count == 0
      then ErrorCode.config_queue_count_invalid
      else if c.rss.enabled && not (all_queues c.rss.reta c.rx_queue_count)
      then ErrorCode.config_rss_reta_queue_out_of_range
      else if not (all_vlans c.vlan_allow_list)
      then ErrorCode.config_vlan_invalid
      else if not (valid_mac c.mac_addr)
      then ErrorCode.config_mac_invalid
      else ErrorCode.none

  -- `Config::validate`
  unfoldable pub validate : Config Text → ErrorCode
  validate c =
      if c.mtu == 0
      then ErrorCode.config_mtu_invalid
      else or_code (Pipe.validate c.link) (or_code (validate_rss c.rss) (validate_lists c))
