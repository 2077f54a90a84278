-- ===== src/Tests/Quantities.antt =====
-- Quantities and annotations at concrete texts.
use natra.Base.{
  ◌≡◌, refl, arith, none, [], codes, is_space, has_prefix, trim_space, to_upper, pos, quot, mul64,
}
use natra.Base.Result.{ok, err}
use natra.Base.Float64.{dyadic, dyadic-IsLawful}
use natra.Quantity.{max_rate, parse_bandwidth, suffix_multiplier, too_large, unknown_suffix}
use natra.Quantity.Reference.{value, reference, parse_bandwidth-eq-reference}
use natra.PodConfig.{Config, validate, config_of_raw, parse_bandwidth_annotation}
use natra.PodConfig.Laws.{
  IsBounded, parse_bandwidth_annotation-IsBounded, parse_bandwidth_annotation-simple,
}
use natra.Tests.{ten_megabits, no_json}

ten_mega : parse_bandwidth (codes " 10M\n") ≡ ok (pos 10000000)
unfolding parse_bandwidth trim_space natra.Quantity.parse_trimmed natra.Quantity.scale_parsed
    natra.Quantity.parse_int natra.Quantity.split_suffix natra.Quantity.pick_parts
    natra.Quantity.break_at_suffix mathlib.Core.Option.bind natra.Quantity.scale suffix_multiplier
    mul64
ten_mega = refl

unknown : parse_bandwidth (codes "10X") ≡ err unknown_suffix
unfolding parse_bandwidth trim_space natra.Quantity.parse_trimmed natra.Quantity.scale_parsed
    natra.Quantity.parse_int natra.Quantity.split_suffix natra.Quantity.pick_parts
    natra.Quantity.break_at_suffix mathlib.Core.Option.bind natra.Quantity.scale suffix_multiplier
unknown = refl

huge : parse_bandwidth (codes "9000000000G") ≡ err too_large
unfolding parse_bandwidth trim_space natra.Quantity.parse_trimmed natra.Quantity.scale_parsed
    natra.Quantity.parse_int natra.Quantity.split_suffix natra.Quantity.pick_parts
    natra.Quantity.break_at_suffix mathlib.Core.Option.bind natra.Quantity.scale suffix_multiplier
huge = refl

read_ten : parse_bandwidth_annotation dyadic no_json (codes "10M") ≡ ok ten_megabits
unfolding parse_bandwidth_annotation has_prefix trim_space parse_bandwidth
    natra.Quantity.parse_trimmed natra.Quantity.scale_parsed natra.Quantity.parse_int
    natra.Quantity.split_suffix natra.Quantity.pick_parts natra.Quantity.break_at_suffix
    mathlib.Core.Option.bind natra.Quantity.scale suffix_multiplier natra.PodConfig.simple_config
    quot natra.PodConfig.default_burst_for mul64 natra.PodConfig.floor_burst
read_ten = refl

parse_bandwidth-eq-reference_example :
    parse_bandwidth (codes " 10Mi ")
    ≡ reference (value (codes "10")) (suffix_multiplier (to_upper (codes "Mi")))
unfolding is_space
parse_bandwidth-eq-reference_example =
    parse_bandwidth-eq-reference (codes " ") b'1' (codes "0") (codes "Mi") (codes " ") (refl, tt)
      (refl, (refl, tt)) refl (refl, (refl, tt)) (refl, tt)

parse_bandwidth_annotation-IsBounded_example :
    IsBounded ten_megabits × (validate ten_megabits ≡ none)
parse_bandwidth_annotation-IsBounded_example =
    parse_bandwidth_annotation-IsBounded dyadic no_json (codes "10M") ten_megabits read_ten

parse_bandwidth_annotation-simple_example :
    parse_bandwidth_annotation dyadic no_json (codes "10M") ≡ ok ten_megabits
unfolding is_space suffix_multiplier value
parse_bandwidth_annotation-simple_example =
    parse_bandwidth_annotation-simple dyadic no_json dyadic-IsLawful [] b'1' (codes "0") (codes "M")
      [] tt (refl, (refl, tt)) refl (refl, tt) tt (omega arith) (omega arith)
