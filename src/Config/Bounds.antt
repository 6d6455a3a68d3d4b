-- ===== src/Config/Bounds.antt =====
-- The MAC addresses and the bandwidth of an accepted configuration.
use kubevirt_dpdk_checkup.Base.{
  ℕ, ◌<◌, ◌^◌, ◌≡◌, ◌≢◌, refl, inl, inr, some, Bytes, arith, ℤ, pos, negsuc, length, IsInt64,
}
use kubevirt_dpdk_checkup.Go.Strconv.{Parsed, valid, syntax_error, range_error, parse_int}
use kubevirt_dpdk_checkup.Go.Strconv.Bounds.{parse_int-IsInt64}
use kubevirt_dpdk_checkup.Config.{BaseConfig, Config, accepted, Random, initial_config, new}
use kubevirt_dpdk_checkup.Config.Mac.{generate_mac_address-ne}
use kubevirt_dpdk_checkup.Config.Valid.{new_iff}
use kubevirt_dpdk_checkup.Config.Parse.{accept_positive, parse_non_zero_positive_int}

-- Each of the four reads of `crypto/rand` gives six octets.
pub record SixOctets (random : Random) : Type 0 where
  pub traffic_gen_east : length random.traffic_gen_east ≡ 6
  pub traffic_gen_west : length random.traffic_gen_west ≡ 6
  pub vm_under_test_east : length random.vm_under_test_east ≡ 6
  pub vm_under_test_west : length random.vm_under_test_west ≡ 6

-- No two of the four addresses are the same.
pub record Distinct (cfg : Config) : Type 0 where
  pub traffic_gen : cfg.traffic_gen_east_mac_address ≢ cfg.traffic_gen_west_mac_address
  pub vm_under_test : cfg.vm_under_test_east_mac_address ≢ cfg.vm_under_test_west_mac_address
  pub east : cfg.traffic_gen_east_mac_address ≢ cfg.vm_under_test_east_mac_address
  pub west : cfg.traffic_gen_west_mac_address ≢ cfg.vm_under_test_west_mac_address
  pub east_west : cfg.traffic_gen_east_mac_address ≢ cfg.vm_under_test_west_mac_address
  pub west_east : cfg.traffic_gen_west_mac_address ≢ cfg.vm_under_test_east_mac_address

initial_config-Distinct :
    (base : BaseConfig) (random : Random) → SixOctets random → Distinct (initial_config base random)
unfolding initial_config
initial_config-Distinct base random o = record {
  traffic_gen =
      generate_mac_address-ne _ _ 0x50 0x01 0x50 0x02 o.traffic_gen_east o.traffic_gen_west
        (inr (omega arith));
  vm_under_test =
      generate_mac_address-ne _ _ 0x60 0x01 0x60 0x02 o.vm_under_test_east o.vm_under_test_west
        (inr (omega arith));
  east =
      generate_mac_address-ne _ _ 0x50 0x01 0x60 0x01 o.traffic_gen_east o.vm_under_test_east
        (inl (omega arith));
  west =
      generate_mac_address-ne _ _ 0x50 0x02 0x60 0x02 o.traffic_gen_west o.vm_under_test_west
        (inl (omega arith));
  east_west =
      generate_mac_address-ne _ _ 0x50 0x01 0x60 0x02 o.traffic_gen_east o.vm_under_test_west
        (inl (omega arith));
  west_east =
      generate_mac_address-ne _ _ 0x50 0x02 0x60 0x01 o.traffic_gen_west o.vm_under_test_east
        (inl (omega arith));
}

-- Whatever six octets each read of the random source gives, the four MAC addresses of an accepted
-- configuration are pairwise different.
pub new-Distinct :
    (base : BaseConfig) (random : Random) (cfg : Config)
    → SixOctets random
    → new base random ≡ accepted cfg
    → Distinct cfg
new-Distinct base random cfg o h =
    let (m, options, same) = (new_iff base random cfg).0 h in
    let d = initial_config-Distinct base random o in
    rw same (record {
      traffic_gen = d.traffic_gen;
      vm_under_test = d.vm_under_test;
      east = d.east;
      west = d.west;
      east_west = d.east_west;
      west_east = d.west_east;
    })

-- A positive `int`.
abbrev pub IsPositiveInt : ℤ → Type 0
IsPositiveInt (pos n) = (0 < n) × (n < 2 ^ 63)
IsPositiveInt (negsuc n) = ⊥

accept_positive-pos :
    (n : ℕ) (z : ℤ) → accept_positive (valid (pos n)) ≡ some z → (z ≡ pos n) × (0 < n)
accept_positive-pos n z h = ground arith

accept_positive-bounds :
    (p : Parsed) (z : ℤ)
    → accept_positive p ≡ some z
    → ((w : ℤ) → p ≡ valid w → IsInt64 w)
    → IsPositiveInt z
accept_positive-bounds (valid (pos n)) z h fits =
    let (e, positive) = accept_positive-pos n z h in rw e (positive, fits (pos n) refl)
accept_positive-bounds (valid (negsuc n)) z h fits = cc
accept_positive-bounds syntax_error z h fits = cc
accept_positive-bounds (range_error w) z h fits = cc

-- A bandwidth that is accepted is positive and fits an `int`.
parse_non_zero_positive_int-bounds :
    (raw : Bytes) (z : ℤ) → parse_non_zero_positive_int raw ≡ some z → IsPositiveInt z
parse_non_zero_positive_int-bounds raw z h =
    accept_positive-bounds (parse_int raw) z (unfold parse_non_zero_positive_int in h)
      (λ w e. parse_int-IsInt64 raw w e)

-- An accepted configuration has a positive bandwidth that fits an `int`, the default included.
pub new-IsPositiveInt :
    (base : BaseConfig) (random : Random) (cfg : Config)
    → new base random ≡ accepted cfg
    → IsPositiveInt cfg.port_bandwidth_gbps
new-IsPositiveInt base random cfg h =
    let (m, options, same) = (new_iff base random cfg).0 h in
    elim options.bandwidth [
      | inl (absent, e) ↦ rw e (omega arith)
      | inr (given, e) ↦ parse_non_zero_positive_int-bounds _ cfg.port_bandwidth_gbps e
    ]
