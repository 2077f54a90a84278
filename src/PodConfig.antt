-- ===== src/PodConfig.antt =====
-- The pod annotations: pkg/cni/config/config.go. The types and `Validate`, the default burst, and
-- the two forms of an annotation. What `encoding/json` makes of a text is the parameter
-- `unmarshal`; errors keep their place in the code, and not their message.
pub mod Laws
use natra.Base.{
  ℕ, ◌*◌, Bool, true, false, Option, none, some, if◌then◌else◌, Text, codes, is_empty, has_prefix,
  trim_space, ℤ, pos, ltb_ℤ, is_negative, quot,
}
use natra.Base.Result.{Result, ok, err, ◌>>=◌, map_err}
use natra.Base.Float64.{Float64}
use natra.Quantity.{QuantityError, parse_bandwidth}

-- `Config`: bytes per second, bytes, and bytes.
pub record Config : Type 0 where
  pub rate : ℤ
  pub burst : ℤ
  pub hh_threshold : ℤ

pub data ConfigError : Type 0 where
  bad_bandwidth bad_rate bad_burst : QuantityError → ConfigError
  bad_json : ConfigError

-- What `Validate` rejects.
pub data Rejection : Type 0 where
  negative_rate negative_burst negative_threshold : Rejection

-- The struct that `parseJSONConfig` decodes into.
pub record RawConfig : Type 0 where
  pub rate : Text
  pub burst : Text
  pub hh_threshold : ℤ

abbrev pub default_hh_threshold_bytes : ℕ
default_hh_threshold_bytes = 256 * 1024

abbrev pub min_burst_bytes : ℕ
min_burst_bytes = 64 * 1024

abbrev pub default_config : Config
default_config = record {
  rate = pos 0;
  burst = pos 0;
  hh_threshold = pos default_hh_threshold_bytes;
}

-- The floor that both places which scale a rate put under a burst.
unfoldable pub floor_burst : ℤ → ℤ
floor_burst b = if ltb_ℤ b (pos min_burst_bytes) then pos min_burst_bytes else b

unfoldable pub validate : Config → Option Rejection
validate c =
    if is_negative c.rate
    then some negative_rate
    else if is_negative c.burst
    then some negative_burst
    else if is_negative c.hh_threshold
    then some negative_threshold
    else none

module _ (fl : Float64) where
  open fl use {of_int, to_int, mul, half}

  unfoldable pub default_burst_for : ℤ → ℤ
  default_burst_for rate = floor_burst (to_int (mul (of_int rate) half))

  -- The simple form, from the bits per second that the text stands for.
  unfoldable pub simple_config : ℤ → Config
  simple_config rate_bits =
      let rate = quot rate_bits 8 in
      record default_config { rate = rate; burst = default_burst_for rate }

  unfoldable pub raw_rate : RawConfig → Result ConfigError ℤ
  raw_rate raw =
      if is_empty raw.rate
      then ok (pos 0)
      else (do bits ← map_err bad_rate (parse_bandwidth raw.rate); ok (quot bits 8))

  unfoldable pub raw_burst : RawConfig → ℤ → Result ConfigError ℤ
  raw_burst raw rate =
      if is_empty raw.burst
      then ok (if ltb_ℤ (pos 0) rate then default_burst_for rate else pos 0)
      else (do bits ← map_err bad_burst (parse_bandwidth raw.burst); ok (quot bits 8))

  -- `parseJSONConfig` after the decoding.
  unfoldable pub config_of_raw : RawConfig → Result ConfigError Config
  config_of_raw raw = do
    rate ← raw_rate raw
    burst ← raw_burst raw rate
    ok (record {
      rate = rate;
      burst = burst;
      hh_threshold =
          if ltb_ℤ (pos 0) raw.hh_threshold
          then raw.hh_threshold
          else pos default_hh_threshold_bytes;
    })

  module _ (unmarshal : Text → Option RawConfig) where
    unfoldable pub parse_json_config : Text → Result ConfigError Config
    parse_json_config text = elim (unmarshal text) [
      | none ↦ err bad_json
      | some raw ↦ config_of_raw raw
    ]

    unfoldable pub parse_bandwidth_annotation : Text → Result ConfigError Config
    parse_bandwidth_annotation annotation =
        if is_empty annotation
        then ok default_config
        else if has_prefix (trim_space annotation) (codes "{")
        then parse_json_config annotation
        else (do
          rate_bits ← map_err bad_bandwidth (parse_bandwidth annotation)
          ok (simple_config rate_bits))
