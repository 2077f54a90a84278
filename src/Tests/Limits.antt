-- ===== src/Tests/Limits.antt =====
-- The limits that a concrete configuration resolves to.
use natra.Base.{
  ℕ, ◌*◌, ◌/◌, ◌<◌, ◌≡◌, refl, arith, none, some, List, [], ◌∷◌, Text, codes, is_empty, has_prefix,
  pos,
}
use natra.Base.Float64.{dyadic}
use natra.Bpf.Types.{ingress, egress}
use natra.PodConfig.{Config}
use natra.Quantity.{parse_bandwidth}
use natra.NetConf.{
  NetConf, explicit_threshold, time_constant, resolve_hh_threshold, runtime_config,
  annotation_config, annotation_key, resolve_direction_config, requested,
}
use natra.NetConf.Threshold.{resolve_hh_threshold_overflow}
use natra.NetConf.Resolve.{
  IsUsable, resolve_direction_config-IsUsable, annotation_config-eq-runtime,
  resolve_direction_config-tiny,
}
use natra.Tests.{cluster, net_conf, no_json}

-- About 800 Pbit/s.
resolve_hh_threshold_overflow_example :
    resolve_hh_threshold dyadic (some cluster) (pos 100000000000000000) ≡ pos (16 * 1024)
unfolding explicit_threshold time_constant
resolve_hh_threshold_overflow_example =
    resolve_hh_threshold_overflow dyadic (some cluster) 100000000000000000 100 refl refl
      (omega arith) (omega arith) (omega arith) (omega arith)

abbrev limited : Config
limited = record { rate = pos 1250000; burst = pos 312500; hh_threshold = pos 125000 }

resolve_limited : resolve_direction_config dyadic no_json net_conf ingress ≡ some limited
unfolding resolve_direction_config requested runtime_config natra.Base.quot resolve_hh_threshold
    natra.NetConf.scaled_burst explicit_threshold natra.PodConfig.floor_burst
    natra.NetConf.scaled_threshold natra.NetConf.ratio_or_half natra.Base.mul64
    natra.NetConf.explicit_ratio time_constant
resolve_limited = refl

resolve_direction_config-IsUsable_example : IsUsable limited
resolve_direction_config-IsUsable_example =
    resolve_direction_config-IsUsable dyadic no_json net_conf ingress limited resolve_limited

annotation_config-eq-runtime_example :
    annotation_config dyadic no_json (some cluster) (codes "10M")
    ≡ some (runtime_config dyadic (some cluster) (pos 10000000) (pos 4294967295))
unfolding has_prefix parse_bandwidth natra.Base.trim_space natra.Quantity.parse_trimmed
    natra.Quantity.scale_parsed natra.Quantity.parse_int natra.Quantity.split_suffix
    natra.Quantity.pick_parts natra.Quantity.break_at_suffix mathlib.Core.Option.bind
    natra.Quantity.scale natra.Quantity.suffix_multiplier natra.Base.mul64 natra.Base.quot
    natra.NetConf.scaled_burst natra.PodConfig.floor_burst natra.NetConf.ratio_or_half
    natra.NetConf.explicit_ratio
annotation_config-eq-runtime_example =
    annotation_config-eq-runtime dyadic no_json (some cluster) (codes "10M") (pos 10000000)
      (pos 4294967295) refl refl refl refl refl

resolve_direction_config-tiny_example :
    (c : Config) × (resolve_direction_config dyadic no_json net_conf egress ≡ some c)
    × (c.rate ≡ pos 0)
unfolding requested
resolve_direction_config-tiny_example =
    resolve_direction_config-tiny dyadic no_json net_conf egress 4 refl (omega arith)
