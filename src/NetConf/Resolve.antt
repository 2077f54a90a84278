-- ===== src/NetConf/Resolve.antt =====
-- The two channels of a rate limit: their range, their agreement, and the independence of the
-- directions.
use natra.Base.{
  ℕ, suc, ◌*◌, ◌/◌, ◌<◌, ◌≡◌, ap, subst, refl, true, false, ◌||◌, Option, none, some, [], ◌∷◌,
  arith, if◌then◌else◌, Bool-cases, inl, inr, Text, codes, is_empty, has_prefix, trim_space,
  text_eq, ℤ, pos, negsuc, ltb_ℤ, leb_ℤ, eqb_ℤ, quot,
}
use natra.Base.Result.{Result, ok, err}
use natra.Base.Float64.{Float64}
use natra.Quantity.{parse_bandwidth}
use natra.PodConfig.{
  Config, ConfigError, RawConfig, default_burst_for, simple_config, parse_bandwidth_annotation,
}
use natra.PodConfig.Laws.{
  IsBounded, floor_burst_lem, annotation_of_simple, parse_bandwidth_annotation-IsBounded,
}
use natra.Bpf.Types.{Direction, ingress, egress}
use natra.NetConf.{
  Bandwidth, NetConfDefaults, NetConf, lookup, annotation_key, requested, explicit_ratio,
  ratio_or_half, scaled_burst, runtime_config, apply_threshold, apply_ratio, accept,
  annotation_config, annotated_config, resolve_direction_config,
}
use natra.NetConf.Threshold.{resolve_hh_threshold-pos}

-- What the BPF maps can hold: the three numbers survive the conversion to uint64.
pub record IsUsable (c : Config) : Type 0 where
  pub rate_nonneg : (n : ℕ) × (c.rate ≡ pos n)
  pub burst_nonneg : (n : ℕ) × (c.burst ≡ pos n)
  pub threshold_pos : (n : ℕ) × (c.hh_threshold ≡ pos n) × (0 < n)

IsUsable-of_IsBounded : (c : Config) → IsBounded c → IsUsable c
IsUsable-of_IsBounded c h = record {
  rate_nonneg = (h.rate_range.0, h.rate_range.1);
  burst_nonneg = h.burst_nonneg;
  threshold_pos = h.threshold_pos;
}

quot_of_pos : (v : ℤ) → ltb_ℤ (pos 0) v ≡ true → (n : ℕ) × (quot v 8 ≡ pos n)
unfolding quot
quot_of_pos (pos n) h = (n / 8, refl)
quot_of_pos (negsuc n) h = absurd (ground arith)

clamp-nonneg :
    (burst : ℤ) (m : ℕ)
    → (n : ℕ) × ((if leb_ℤ burst (pos 0) || ltb_ℤ (pos m) burst then pos m else burst) ≡ pos n)
clamp-nonneg (pos k) m = elim (Bool-cases (leb_ℤ (pos k) (pos 0) || ltb_ℤ (pos m) (pos k))) [
  | inl e ↦ (m, rw e)
  | inr e ↦ (k, rw e)
]
clamp-nonneg (negsuc k) m = (m, ground arith)

eqb_ℤ_refl : (v : ℤ) → eqb_ℤ v v ≡ true
eqb_ℤ_refl v = ground arith

some_inj {ℓ} : {A : Type ℓ} {a b : A} → some a ≡ some b → a ≡ b
some_inj h = cc

module _ (fl : Float64) where
  scaled_burst_nonneg : (r : fl.F) (v : ℤ) → (n : ℕ) × (scaled_burst fl r v ≡ pos n)
  unfolding scaled_burst
  scaled_burst_nonneg r v =
      let (n, e, _) = floor_burst_lem (fl.to_int (fl.mul (fl.of_int v) r)) in (n, e)

  runtime_config-IsUsable :
      (d : Option (NetConfDefaults fl)) (rate burst : ℤ)
      → ltb_ℤ (pos 0) rate ≡ true
      → IsUsable (runtime_config fl d rate burst)
  unfolding runtime_config
  runtime_config-IsUsable d rate burst h =
      let (m, e) = scaled_burst_nonneg (ratio_or_half fl (explicit_ratio fl d)) (quot rate 8) in
      record {
        rate_nonneg = quot_of_pos rate h;
        burst_nonneg = rw e (clamp-nonneg (quot burst 8) m);
        threshold_pos = resolve_hh_threshold-pos fl d (quot rate 8);
      }

  apply_threshold-IsUsable :
      (d : Option (NetConfDefaults fl)) (c : Config)
      → IsUsable c
      → IsUsable (apply_threshold fl d c)
  unfolding apply_threshold
  apply_threshold-IsUsable d c h = elim (Bool-cases (eqb_ℤ c.hh_threshold (pos (256 * 1024)))) [
    | inl e ↦ rw e (record {
      rate_nonneg = h.rate_nonneg;
      burst_nonneg = h.burst_nonneg;
      threshold_pos = resolve_hh_threshold-pos fl d c.rate;
    })
    | inr e ↦ rw e h
  ]

  apply_ratio-IsUsable : (r : Option fl.F) (c : Config) → IsUsable c → IsUsable (apply_ratio fl r c)
  unfolding apply_ratio
  apply_ratio-IsUsable none c h = h
  apply_ratio-IsUsable (some r) c h =
      elim (Bool-cases (eqb_ℤ c.burst (default_burst_for fl c.rate))) [
        | inl e ↦ rw e (record {
          rate_nonneg = h.rate_nonneg;
          burst_nonneg = scaled_burst_nonneg r c.rate;
          threshold_pos = h.threshold_pos;
        })
        | inr e ↦ rw e h
      ]

  accept-IsUsable :
      (d : Option (NetConfDefaults fl)) (parsed c : Config)
      → IsUsable parsed
      → accept fl d parsed ≡ some c
      → IsUsable c
  unfolding accept
  accept-IsUsable d parsed c u = elim (Bool-cases (ltb_ℤ (pos 0) parsed.rate)) [
    | inl e ↦ rw e (λ h.
        subst IsUsable (some_inj h)
          (apply_ratio-IsUsable (explicit_ratio fl d) _ (apply_threshold-IsUsable d parsed u)))
    | inr e ↦ rw e (λ h. cc)
  ]

  apply_ratio-default :
      (o : Option fl.F) (rate hh : ℤ)
      → apply_ratio fl o
          (record { rate = rate; burst = default_burst_for fl rate; hh_threshold = hh })
        ≡ record {
          rate = rate;
          burst = scaled_burst fl (ratio_or_half fl o) rate;
          hh_threshold = hh;
        }
  unfolding apply_ratio ratio_or_half scaled_burst default_burst_for
  apply_ratio-default none rate hh = refl
  apply_ratio-default (some r) rate hh = rw (eqb_ℤ_refl (default_burst_for fl rate))

  -- A simple annotation under the cluster defaults, and the same rate from kubelet.
  accept-simple :
      (d : Option (NetConfDefaults fl)) (bits burst : ℤ)
      → ltb_ℤ (pos 0) (quot bits 8) ≡ true
      → (let max_burst = scaled_burst fl (ratio_or_half fl (explicit_ratio fl d)) (quot bits 8) in
          leb_ℤ (quot burst 8) (pos 0) || ltb_ℤ max_burst (quot burst 8))
        ≡ true
      → accept fl d (simple_config fl bits) ≡ some (runtime_config fl d bits burst)
  unfolding accept simple_config apply_threshold runtime_config
  accept-simple d bits burst p clamped =
      rw (p, clamped) (ap some (apply_ratio-default (explicit_ratio fl d) (quot bits 8) _))

  module _ (unmarshal : Text → Option RawConfig) where
    annotation_config-IsUsable :
        (d : Option (NetConfDefaults fl)) (bw : Text) (c : Config)
        → annotation_config fl unmarshal d bw ≡ some c
        → IsUsable c
    unfolding annotation_config
    annotation_config-IsUsable d bw c = go (parse_bandwidth_annotation fl unmarshal bw) refl
      where
        go :
            (o : Result ConfigError Config)
            → parse_bandwidth_annotation fl unmarshal bw ≡ o
            → (elim o [ err _ ↦ none | ok parsed ↦ accept fl d parsed ]) ≡ some c
            → IsUsable c
        go (err _) e h = cc
        go (ok parsed) e h =
            accept-IsUsable d parsed c
              (IsUsable-of_IsBounded parsed
                (parse_bandwidth_annotation-IsBounded fl unmarshal bw parsed e).0)
              h

    annotated_config-IsUsable :
        (conf : NetConf fl) (dir : Direction) (c : Config)
        → annotated_config fl unmarshal conf dir ≡ some c
        → IsUsable c
    unfolding annotated_config
    annotated_config-IsUsable conf dir c = go (lookup (annotation_key dir) conf.pod_annotations)
      where
        go :
            (o : Option Text)
            → (elim o [
              | none ↦ none
              | some bw ↦
                  if is_empty bw then none else annotation_config fl unmarshal conf.defaults bw
            ])
              ≡ some c
            → IsUsable c
        go none h = cc
        go (some []) h = cc
        go (some (x ∷ bw)) h = annotation_config-IsUsable conf.defaults (x ∷ bw) c h

    -- Whatever channel a limit comes from, its rate and burst are not negative and its threshold is
    -- positive, so that `tryAttachOne` converts all three to uint64 without a change.
    pub resolve_direction_config-IsUsable :
        (conf : NetConf fl) (dir : Direction) (c : Config)
        → resolve_direction_config fl unmarshal conf dir ≡ some c
        → IsUsable c
    unfolding resolve_direction_config
    resolve_direction_config-IsUsable conf dir c =
        let (rate, burst) = requested conf.bandwidth dir in
        elim (Bool-cases (ltb_ℤ (pos 0) rate)) [
          | inl e ↦ rw e (λ h.
              subst IsUsable (some_inj h) (runtime_config-IsUsable conf.defaults rate burst e))
          | inr e ↦ rw e (annotated_config-IsUsable conf dir c)
        ]

    -- The two channels agree: where a simple annotation stands for a positive number of bytes per
    -- second, it resolves to what kubelet's bandwidth with the same bits per second resolves to, if
    -- kubelet's burst is absent or exceeds the cluster's burst for that rate.
    pub annotation_config-eq-runtime :
        (d : Option (NetConfDefaults fl)) (a : Text) (bits burst : ℤ)
        → is_empty a ≡ false
        → has_prefix (trim_space a) (codes "{") ≡ false
        → parse_bandwidth a ≡ ok bits
        → ltb_ℤ (pos 0) (quot bits 8) ≡ true
        → (let max_burst = scaled_burst fl (ratio_or_half fl (explicit_ratio fl d)) (quot bits 8) in
            leb_ℤ (quot burst 8) (pos 0) || ltb_ℤ max_burst (quot burst 8))
          ≡ true
        → annotation_config fl unmarshal d a ≡ some (runtime_config fl d bits burst)
    unfolding annotation_config
    annotation_config-eq-runtime d a bits burst given simple read p clamped =
        rw (annotation_of_simple fl unmarshal a bits given simple read, annotation_config)
          (accept-simple d bits burst p clamped)

    -- The directions are resolved independently: neither kubelet's egress numbers nor an egress
    -- annotation change what the ingress direction resolves to.
    resolve_ingress-independent :
        (conf : NetConf fl) (b : Bandwidth) (rate burst : ℤ) (v : Text)
        → resolve_direction_config fl unmarshal
            (record conf {
              bandwidth = some (record b { egress_rate = rate; egress_burst = burst });
              pod_annotations = (annotation_key egress, v) ∷ conf.pod_annotations;
            })
            ingress
          ≡ resolve_direction_config fl unmarshal (record conf { bandwidth = some b }) ingress
    unfolding resolve_direction_config requested annotated_config lookup text_eq
    resolve_ingress-independent conf b rate burst v = refl

    -- A positive kubelet rate below 8 bits per second resolves to a configuration whose rate is 0,
    -- which the dataplane reads as no limit, and not to the absence of one.
    pub resolve_direction_config-tiny :
        (conf : NetConf fl) (dir : Direction) (n : ℕ)
        → (requested conf.bandwidth dir).0 ≡ pos (suc n)
        → n < 7
        → (c : Config) × (resolve_direction_config fl unmarshal conf dir ≡ some c)
          × (c.rate ≡ pos 0)
    unfolding resolve_direction_config runtime_config quot
    resolve_direction_config-tiny conf dir n e h =
        let (rate, burst) = requested conf.bandwidth dir in
        (
          runtime_config fl conf.defaults rate burst,
          rw e (ground arith),
          rw e (ap pos (omega arith)),
        )
