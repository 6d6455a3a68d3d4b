-- ===== src/Config/Tests.antt =====
-- Runs of the configuration's parsers, and the theorems at concrete parameters.
use kubevirt_dpdk_checkup.Base.{◌≡◌, refl, ◌↔◌, some, ◌∷◌, codes}
use kubevirt_dpdk_checkup.Config.{
  BaseConfig, accepted, refused, param, new, initial_config, invalid_traffic_gen_packets_per_second,
}
use kubevirt_dpdk_checkup.Config.Key
use kubevirt_dpdk_checkup.Config.Samples.{mandatory_params, base_with, base, random, cfg}
use kubevirt_dpdk_checkup.Config.Mac.{generate_mac_address}
use kubevirt_dpdk_checkup.Go.Strconv.{parse_bool}
use kubevirt_dpdk_checkup.Config.Parse.{
  parse_traffic_gen_packets_per_second, parse_non_zero_positive_int,
}
use kubevirt_dpdk_checkup.Config.Parse.Rate.{IsRate, parse_traffic_gen_packets_per_second_iff}
use kubevirt_dpdk_checkup.Config.Bounds.{
  SixOctets, Distinct, IsPositiveInt, new-Distinct, new-IsPositiveInt,
}
use kubevirt_dpdk_checkup.Config.Refusals.{Blames, new-Blames}
use kubevirt_dpdk_checkup.Config.Valid.{Mandatory, Options, SameMandatory, new_iff}

six_octets : SixOctets random
six_octets = record {
  traffic_gen_east = refl;
  traffic_gen_west = refl;
  vm_under_test_east = refl;
  vm_under_test_west = refl;
}

new_accepts : new base random ≡ accepted cfg
unfolding new param parse_non_zero_positive_int parse_bool generate_mac_address
new_accepts = refl

abbrev bad_rate : BaseConfig
bad_rate = base_with ((Key.traffic_gen_packets_per_second, codes "08m") ∷ mandatory_params)

new_refuses : new bad_rate random ≡ refused invalid_traffic_gen_packets_per_second
unfolding new param parse_traffic_gen_packets_per_second
new_refuses = refl

rate_accepted : parse_traffic_gen_packets_per_second (codes "12k") ≡ some (codes "12k")
unfolding parse_traffic_gen_packets_per_second
rate_accepted = refl

new_iff_example :
    (new base random ≡ accepted cfg)
    ↔ (Mandatory cfg × Options base cfg × SameMandatory cfg (initial_config base random))
new_iff_example = new_iff base random cfg

new-Blames_example : Blames bad_rate invalid_traffic_gen_packets_per_second
new-Blames_example = new-Blames bad_rate random invalid_traffic_gen_packets_per_second new_refuses

new-Distinct_example : Distinct cfg
new-Distinct_example = new-Distinct base random cfg six_octets new_accepts

new-IsPositiveInt_example : IsPositiveInt cfg.port_bandwidth_gbps
new-IsPositiveInt_example = new-IsPositiveInt base random cfg new_accepts

parse_traffic_gen_packets_per_second_iff_example :
    (parse_traffic_gen_packets_per_second (codes "12k") ≡ some (codes "12k"))
    ↔ ((codes "12k" ≡ codes "12k") × IsRate (codes "12k"))
parse_traffic_gen_packets_per_second_iff_example =
    parse_traffic_gen_packets_per_second_iff (codes "12k") (codes "12k")
