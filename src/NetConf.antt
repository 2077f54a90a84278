-- ===== src/NetConf.antt =====
-- The plugin's configuration and what it resolves to per direction: the types `NetConf` and
-- `NetConfDefaults`, `parseEDTMode`, `resolveHHThreshold` and `resolveDirectionConfig` of
-- cmd/natra/main.go.
pub mod Threshold
pub mod Resolve
use natra.Base.{
  ℕ, ◌*◌, Bool, true, false, not, ◌&&◌, ◌||◌, Option, none, some, List, [], ◌∷◌, if◌then◌else◌,
  Text, codes, is_empty, text_eq, one_of, ℤ, pos, ltb_ℤ, leb_ℤ, eqb_ℤ, quot, mul64,
}
use natra.Base.Result.{Result, ok, err}
use natra.Base.Float64.{Float64}
use natra.Bpf.Types.{Direction, ingress, egress}
use natra.PodConfig.{
  Config, RawConfig, default_hh_threshold_bytes, min_burst_bytes, default_config, floor_burst,
  default_burst_for, parse_bandwidth_annotation,
}

-- `edtMode`
pub data EdtMode : Type 0 where
  edt_auto edt_on edt_off : EdtMode

-- `none` is the error "unrecognized".
unfoldable pub parse_edt_mode : Text → Option EdtMode
parse_edt_mode s =
    if one_of s (codes "" ∷ codes "auto" ∷ [])
    then some edt_auto
    else if one_of s (codes "1" ∷ codes "true" ∷ codes "yes" ∷ codes "on" ∷ [])
    then some edt_on
    else if one_of s (codes "0" ∷ codes "false" ∷ codes "no" ∷ codes "off" ∷ [])
    then some edt_off
    else none

-- `RuntimeConfig.Bandwidth`, in bits per second and bits.
pub record Bandwidth : Type 0 where
  pub ingress_rate : ℤ
  pub ingress_burst : ℤ
  pub egress_rate : ℤ
  pub egress_burst : ℤ

pub record NetConfDefaults (fl : Float64) : Type 0 where
  pub hh_threshold : ℤ
  pub fast_pass_time_constant_ms : ℤ
  pub burst_ratio : fl.F
  pub edt_pacing : Text

-- Absent blocks are `none`; an absent map of annotations has no entry to find.
pub record NetConf (fl : Float64) : Type 0 where
  pub cni_version : Text
  pub attach_mode : Text
  pub defaults : Option (NetConfDefaults fl)
  pub bandwidth : Option Bandwidth
  pub pod_annotations : List (Text × Text)

unfoldable pub lookup : Text → List (Text × Text) → Option Text
lookup key [] = none
lookup key ((k, v) ∷ m) = if text_eq k key then some v else lookup key m

abbrev pub default_fast_pass_time_constant_ms : ℕ
default_fast_pass_time_constant_ms = 100

abbrev pub min_hh_threshold_bytes : ℕ
min_hh_threshold_bytes = 16 * 1024

abbrev pub annotation_key : Direction → Text
annotation_key ingress = codes "kubernetes.io/ingress-bandwidth"
annotation_key egress = codes "kubernetes.io/egress-bandwidth"

-- `rateBits` and `burstBits`
unfoldable pub requested : Option Bandwidth → Direction → ℤ × ℤ
requested none _ = (pos 0, pos 0)
requested (some b) ingress = (b.ingress_rate, b.ingress_burst)
requested (some b) egress = (b.egress_rate, b.egress_burst)

-- The rate-scaled threshold, computed on int64.
unfoldable pub scaled_threshold : ℤ → ℤ → ℤ
scaled_threshold rate_bps time_const_ms =
    let scaled = quot (mul64 rate_bps time_const_ms) 1000 in
    if ltb_ℤ scaled (pos min_hh_threshold_bytes) then pos min_hh_threshold_bytes else scaled

module _ (fl : Float64) where
  unfoldable pub time_constant : Option (NetConfDefaults fl) → ℤ
  time_constant none = pos default_fast_pass_time_constant_ms
  time_constant (some d) =
      if ltb_ℤ (pos 0) d.fast_pass_time_constant_ms
      then d.fast_pass_time_constant_ms
      else pos default_fast_pass_time_constant_ms

  -- A positive `defaults.hhThreshold`.
  unfoldable pub explicit_threshold : Option (NetConfDefaults fl) → Option ℤ
  explicit_threshold none = none
  explicit_threshold (some d) = if ltb_ℤ (pos 0) d.hh_threshold then some d.hh_threshold else none

  unfoldable pub resolve_hh_threshold : Option (NetConfDefaults fl) → ℤ → ℤ
  resolve_hh_threshold defaults rate_bps = elim (explicit_threshold defaults) [
    | some t ↦ t
    | none ↦ scaled_threshold rate_bps (time_constant defaults)
  ]

  -- A positive `defaults.burstRatio`.
  unfoldable pub explicit_ratio : Option (NetConfDefaults fl) → Option fl.F
  explicit_ratio none = none
  explicit_ratio (some d) = if fl.is_pos d.burst_ratio then some d.burst_ratio else none

  -- `burstRatio`, with the compiled-in default.
  unfoldable pub ratio_or_half : Option fl.F → fl.F
  ratio_or_half none = fl.half
  ratio_or_half (some r) = r

  -- int64(float64(rate) * ratio), at least `MinBurstBytes`.
  unfoldable pub scaled_burst : fl.F → ℤ → ℤ
  scaled_burst ratio rate = floor_burst (fl.to_int (fl.mul (fl.of_int rate) ratio))

  -- The first channel, kubelet's `runtimeConfig.bandwidth`.
  unfoldable pub runtime_config : Option (NetConfDefaults fl) → ℤ → ℤ → Config
  runtime_config defaults rate_bits burst_bits =
      let rate = quot rate_bits 8 in
      let burst = quot burst_bits 8 in
      let max_burst = scaled_burst (ratio_or_half (explicit_ratio defaults)) rate in
      record {
        rate = rate;
        burst = if leb_ℤ burst (pos 0) || ltb_ℤ max_burst burst then max_burst else burst;
        hh_threshold = resolve_hh_threshold defaults rate;
      }

  -- The cluster defaults, where a parsed annotation still has the compiled-in values.
  unfoldable pub apply_threshold : Option (NetConfDefaults fl) → Config → Config
  apply_threshold defaults parsed =
      if eqb_ℤ parsed.hh_threshold (pos default_hh_threshold_bytes)
      then record parsed { hh_threshold = resolve_hh_threshold defaults parsed.rate }
      else parsed

  unfoldable pub apply_ratio : Option fl.F → Config → Config
  apply_ratio none parsed = parsed
  apply_ratio (some ratio) parsed =
      if eqb_ℤ parsed.burst (default_burst_for fl parsed.rate)
      then record parsed { burst = scaled_burst ratio parsed.rate }
      else parsed

  -- What is done with an annotation that was parsed without an error.
  unfoldable pub accept : Option (NetConfDefaults fl) → Config → Option Config
  accept defaults parsed =
      if ltb_ℤ (pos 0) parsed.rate
      then some (apply_ratio (explicit_ratio defaults) (apply_threshold defaults parsed))
      else none

  module _ (unmarshal : Text → Option RawConfig) where
    -- The second channel: an annotation that is there and not empty. A bad one is reported on
    -- stderr and counts as absent.
    unfoldable pub annotation_config : Option (NetConfDefaults fl) → Text → Option Config
    annotation_config defaults bw = elim (parse_bandwidth_annotation fl unmarshal bw) [
      | err _ ↦ none
      | ok parsed ↦ accept defaults parsed
    ]

    unfoldable pub annotated_config : NetConf fl → Direction → Option Config
    annotated_config conf dir = elim (lookup (annotation_key dir) conf.pod_annotations) [
      | none ↦ none
      | some bw ↦ if is_empty bw then none else annotation_config conf.defaults bw
    ]

    unfoldable pub resolve_direction_config : NetConf fl → Direction → Option Config
    resolve_direction_config conf dir =
        let (rate_bits, burst_bits) = requested conf.bandwidth dir in
        if ltb_ℤ (pos 0) rate_bits
        then some (runtime_config conf.defaults rate_bits burst_bits)
        else annotated_config conf dir
