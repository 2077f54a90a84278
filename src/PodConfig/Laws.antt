-- ===== src/PodConfig/Laws.antt =====
-- What an annotation resolves to: the range of every result, the exact value of the simple form,
-- and the agreement of the two forms.
use Prim.Native.Nat.{max}
use natra.Base.{
  ℕ, suc, ◌*◌, ◌/◌, ◌^◌, ◌≤◌, ◌<◌, ◌≡◌, refl, sym, subst, Option-cases, ◌∙◌, ap, true, false,
  Option, none, [], ◌∷◌, ◌++◌, arith, if◌then◌else◌, Bool-cases, All-append, inl, inr, Text, codes,
  is_empty, has_prefix, is_digit, trim_space, to_upper, ℤ, pos, negsuc, ltb_ℤ, quot,
}
use natra.Base.Result.{Result, ok, err, ◌>>=◌, ok-of->>=, map_err}
use natra.Base.Float64.{Float64, IsLawful}
use natra.Quantity.{QuantityError, max_rate, suffix_multiplier, parse_bandwidth}
use natra.Quantity.Trim.{Spaces, NoSpaces, trim_space_between}
use natra.Quantity.Reference.{
  Digits, NoDigitFirst, value, reference, digit-not_space, parse_bandwidth-eq-reference,
}
use natra.Quantity.Bounds.{InRange, le-mul_of_pos, parse_bandwidth-InRange}
use natra.PodConfig.{
  Config, ConfigError, bad_bandwidth, bad_rate, bad_burst, RawConfig, default_hh_threshold_bytes,
  min_burst_bytes, default_config, floor_burst, validate, default_burst_for, simple_config,
  raw_rate, raw_burst, config_of_raw, parse_json_config, parse_bandwidth_annotation,
}

-- A rate that a link can have, a burst that is no debt, and a threshold that some flow stays under.
pub record IsBounded (c : Config) : Type 0 where
  pub rate_range : (n : ℕ) × (c.rate ≡ pos n) × (n ≤ max_rate / 8)
  pub burst_nonneg : (n : ℕ) × (c.burst ≡ pos n)
  pub threshold_pos : (n : ℕ) × (c.hh_threshold ≡ pos n) × (0 < n)

pub validate_of_IsBounded : (c : Config) → IsBounded c → validate c ≡ none
unfolding validate
validate_of_IsBounded c h = rw (h.rate_range.1, h.burst_nonneg.1, h.threshold_pos.1)

pub floor_burst_lem : (b : ℤ) → (n : ℕ) × (floor_burst b ≡ pos n) × (min_burst_bytes ≤ n)
unfolding floor_burst
floor_burst_lem (pos n) = elim (Bool-cases (ltb_ℤ (pos n) (pos min_burst_bytes))) [
  | inl low ↦ (min_burst_bytes, rw low, omega arith)
  | inr high ↦ (n, rw high, ground arith)
]
floor_burst_lem (negsuc n) = (min_burst_bytes, ground arith, omega arith)

map_err-eq-ok {ℓ} :
    {D E A : Type ℓ} (f : D → E) (m : Result D A) {a : A} → map_err f m ≡ ok a → m ≡ ok a
map_err-eq-ok f (ok b) h = cc
map_err-eq-ok f (err d) h = cc

-- A quantity in bits, as bytes.
quot-InRange : (v : ℤ) → InRange v → (n : ℕ) × (quot v 8 ≡ pos n) × (n ≤ max_rate / 8)
unfolding quot
quot-InRange v (n, e, le) = (n / 8, rw e, omega arith)

ok-injective : {E A : Type 0} {a b : A} → ◌≡◌ {A = Result E A} (ok a) (ok b) → a ≡ b
ok-injective h = cc

-- A step of the JSON form that reads a quantity.
bytes_range :
    (f : QuantityError → ConfigError) (s : Text) (v : ℤ)
    → (map_err f (parse_bandwidth s) >>= λ bits. ok (quot bits 8)) ≡ ok v
    → (n : ℕ) × (v ≡ pos n) × (n ≤ max_rate / 8)
bytes_range f s v h =
    let (bits, read, e) = ok-of->>= (map_err f (parse_bandwidth s)) (λ bits. ok (quot bits 8)) h in
    let (n, q, le) =
      quot-InRange bits
        (parse_bandwidth-InRange s bits (map_err-eq-ok f (parse_bandwidth s) read)) in
    (n, sym (ok-injective e) ∙ q, le)

module _ (fl : Float64) where
  simple_config-IsBounded : (v : ℤ) → InRange v → IsBounded (simple_config fl v)
  unfolding simple_config default_burst_for
  simple_config-IsBounded v r =
      let (n, e, _) = floor_burst_lem (fl.to_int (fl.mul (fl.of_int (quot v 8)) fl.half)) in
      record {
        rate_range = quot-InRange v r;
        burst_nonneg = (n, e);
        threshold_pos = (default_hh_threshold_bytes, refl, omega arith);
      }

  floor_burst-max : (n : ℕ) → floor_burst (pos n) ≡ pos (max n min_burst_bytes)
  unfolding floor_burst
  floor_burst-max n = ground arith

  simple_config_exact :
      IsLawful fl
      → (bits : ℕ) → bits < 2 ^ 56
      → simple_config fl (pos bits) ≡ record {
        rate = pos (bits / 8);
        burst = pos (max (bits / 16) (64 * 1024));
        hh_threshold = pos (256 * 1024);
      }
  unfolding simple_config default_burst_for quot
  simple_config_exact law bits h =
      let e : bits / 8 / 2 ≡ bits / 16 = omega arith in
      rw (law.half_exact (bits / 8) (omega arith), floor_burst-max (bits / 8 / 2), e)

  raw_rate_range :
      (raw : RawConfig) (rate : ℤ)
      → raw_rate fl raw ≡ ok rate
      → (n : ℕ) × (rate ≡ pos n) × (n ≤ max_rate / 8)
  unfolding raw_rate
  raw_rate_range raw rate = elim (Bool-cases (is_empty raw.rate)) [
    | inl empty ↦ rw empty (λ h. (0, ground arith, omega arith))
    | inr given ↦ rw given (λ h. bytes_range bad_rate raw.rate rate h)
  ]

  raw_burst_nonneg :
      (raw : RawConfig) (rate burst : ℤ)
      → raw_burst fl raw rate ≡ ok burst
      → (n : ℕ) × (burst ≡ pos n)
  unfolding raw_burst default_burst_for
  raw_burst_nonneg raw rate burst = elim (Bool-cases (is_empty raw.burst)) [
    | inl empty ↦
        let (n, e, _) = floor_burst_lem (fl.to_int (fl.mul (fl.of_int rate) fl.half)) in
        rw empty (elim (Bool-cases (ltb_ℤ (pos 0) rate)) [
          | inl p ↦ rw p (λ h. (n, sym (ok-injective h) ∙ e))
          | inr z ↦ rw z (λ h. (0, sym (ok-injective h)))
        ])
    | inr given ↦ rw given (λ h. let (n, e, _) = bytes_range bad_burst raw.burst burst h in (n, e))
  ]

  positive-or-default :
      (t : ℤ)
      → (n : ℕ) × ((if ltb_ℤ (pos 0) t then t else pos default_hh_threshold_bytes) ≡ pos n)
        × (0 < n)
  positive-or-default (pos n) = elim (Bool-cases (ltb_ℤ (pos 0) (pos n))) [
    | inl p ↦ (n, rw p, ground arith)
    | inr z ↦ (default_hh_threshold_bytes, rw z, omega arith)
  ]
  positive-or-default (negsuc n) = (default_hh_threshold_bytes, ground arith, omega arith)

  config_of_raw-IsBounded :
      (raw : RawConfig) (c : Config) → config_of_raw fl raw ≡ ok c → IsBounded c
  unfolding config_of_raw
  config_of_raw-IsBounded raw c h =
      let (rate, er, k) = ok-of->>= (raw_rate fl raw) _ h in
      let (burst, eb, e) = ok-of->>= (raw_burst fl raw rate) _ k in
      subst IsBounded (ok-injective e) (record {
        rate_range = raw_rate_range raw rate er;
        burst_nonneg = raw_burst_nonneg raw rate burst eb;
        threshold_pos = positive-or-default raw.hh_threshold;
      })

  module _ (unmarshal : Text → Option RawConfig) where
    default_config-IsBounded : IsBounded default_config
    default_config-IsBounded = record {
      rate_range = (0, refl, omega arith);
      burst_nonneg = (0, refl);
      threshold_pos = (default_hh_threshold_bytes, refl, omega arith);
    }

    parse_json_config-IsBounded :
        (s : Text) (c : Config) → parse_json_config fl unmarshal s ≡ ok c → IsBounded c
    unfolding parse_json_config
    parse_json_config-IsBounded s c = elim (Option-cases (unmarshal s)) [
      | inl e ↦ rw (e, parse_json_config) (λ h. cc)
      | inr (raw, e) ↦ rw (e, parse_json_config) (config_of_raw-IsBounded raw c)
    ]

    annotation-IsBounded :
        (a : Text) (c : Config) → parse_bandwidth_annotation fl unmarshal a ≡ ok c → IsBounded c
    unfolding parse_bandwidth_annotation
    annotation-IsBounded a c = elim (Bool-cases (is_empty a)) [
      | inl empty ↦ rw empty (λ h. subst IsBounded (ok-injective h) default_config-IsBounded)
      | inr given ↦ rw given (elim (Bool-cases (has_prefix (trim_space a) (codes "{"))) [
        | inl json ↦ rw json (parse_json_config-IsBounded a c)
        | inr simple ↦ rw simple (λ h.
            let (bits, read, e) = ok-of->>= (map_err bad_bandwidth (parse_bandwidth a)) _ h in
            subst IsBounded (ok-injective e) (
              simple_config-IsBounded bits
                (parse_bandwidth-InRange a bits (map_err-eq-ok bad_bandwidth _ read))))
      ])
    ]

    -- Whatever an annotation says, a configuration that is parsed without an error passes
    -- `Validate`: its rate lies between 0 and an eighth of `max_rate`, its burst is not negative,
    -- and its threshold is positive.
    pub parse_bandwidth_annotation-IsBounded :
        (a : Text) (c : Config)
        → parse_bandwidth_annotation fl unmarshal a ≡ ok c
        → IsBounded c × (validate c ≡ none)
    unfolding parse_bandwidth_annotation
    parse_bandwidth_annotation-IsBounded a c h =
        let b : IsBounded c = annotation-IsBounded a c h in (b, validate_of_IsBounded c b)

    -- What a text that is not empty and no JSON object was read as.
    simple_read :
        (a : Text) (c : Config)
        → is_empty a ≡ false
        → has_prefix (trim_space a) (codes "{") ≡ false
        → parse_bandwidth_annotation fl unmarshal a ≡ ok c
        → (bits : ℤ) × (parse_bandwidth a ≡ ok bits) × (simple_config fl bits ≡ c)
    unfolding parse_bandwidth_annotation
    simple_read a c given simple =
        rw (given, simple)
          (λ h.
            let (bits, read, e) = ok-of->>= (map_err bad_bandwidth (parse_bandwidth a)) _ h in
            (bits, map_err-eq-ok bad_bandwidth (parse_bandwidth a) read, ok-injective e))

    config_of_raw-read :
        (a : Text) (bits : ℤ) (n : ℕ)
        → is_empty a ≡ false
        → parse_bandwidth a ≡ ok bits
        → quot bits 8 ≡ pos (suc n)
        → config_of_raw fl (record { rate = a; burst = []; hh_threshold = pos 0 })
          ≡ ok (simple_config fl bits)
    unfolding config_of_raw raw_rate raw_burst simple_config
    config_of_raw-read a bits n given read e =
        let test : ltb_ℤ (pos 0) (quot bits 8) ≡ true = rw e (ground arith) in
        rw (given, read, test)

    -- The simple form and the JSON form agree: where a text of a positive rate in bytes is accepted
    -- as a simple annotation, the object that holds only this text as its rate gives the same
    -- configuration.
    config_of_raw-eq-simple :
        (a : Text) (c : Config) (n : ℕ)
        → is_empty a ≡ false
        → has_prefix (trim_space a) (codes "{") ≡ false
        → parse_bandwidth_annotation fl unmarshal a ≡ ok c
        → c.rate ≡ pos (suc n)
        → config_of_raw fl (record { rate = a; burst = []; hh_threshold = pos 0 }) ≡ ok c
    unfolding simple_config
    config_of_raw-eq-simple a c n given simple h p =
        let (bits, read, e) = simple_read a c given simple h in
        config_of_raw-read a bits n given read (ap (λ (x : Config). x.rate) e ∙ p) ∙ ap ok e

    not_empty-append : (l : Text) (c : ℕ) (s : Text) → is_empty (l ++ c ∷ s) ≡ false
    not_empty-append [] c s = refl
    not_empty-append (x ∷ l) c s = refl

    digit-no_brace : (c : ℕ) (s : Text) → is_digit c ≡ true → has_prefix (c ∷ s) (codes "{") ≡ false
    unfolding has_prefix
    digit-no_brace c s h = ground arith

    reference-fits :
        (n m : ℕ) → 0 < m → n * m < 2 ^ 56 → n ≤ n * m → reference n m ≡ ok (pos (n * m))
    unfolding reference
    reference-fits n m p h le = ground arith

    pub annotation_of_simple :
        (a : Text) (bits : ℤ)
        → is_empty a ≡ false
        → has_prefix (trim_space a) (codes "{") ≡ false
        → parse_bandwidth a ≡ ok bits
        → parse_bandwidth_annotation fl unmarshal a ≡ ok (simple_config fl bits)
    unfolding parse_bandwidth_annotation
    annotation_of_simple a bits given simple read = rw (given, simple, read)

    -- The exact value of the simple form, below 2^53 bytes per second: digits in a known unit
    -- between any spaces give an eighth of their value in bits as the rate, half a second of it but
    -- no less than 64 KiB as the burst, and 256 KiB as the threshold.
    pub parse_bandwidth_annotation-simple :
        IsLawful fl
        → (l : Text) (c : ℕ) (s u r : Text) → Spaces l
        → Digits (c ∷ s)
        → NoDigitFirst u
        → NoSpaces u
        → Spaces r
        → let m = suffix_multiplier (to_upper u) in
          let bits = value (c ∷ s) * m in
          0 < m
          → bits < 2 ^ 56
          → parse_bandwidth_annotation fl unmarshal (l ++ ((c ∷ s ++ u) ++ r))
            ≡ ok (record {
              rate = pos (bits / 8);
              burst = pos (max (bits / 16) (64 * 1024));
              hh_threshold = pos (256 * 1024);
            })
    parse_bandwidth_annotation-simple law l c s u r hl hd hu nu hr hm hb =
        let m = suffix_multiplier (to_upper u) in
        let n = value (c ∷ s) in
        let body : NoSpaces (c ∷ s ++ u) = All-append _ (c ∷ s) u (digit-not_space (c ∷ s) hd) nu in
        let read : parse_bandwidth (l ++ ((c ∷ s ++ u) ++ r)) ≡ ok (pos (n * m)) =
          parse_bandwidth-eq-reference l c s u r hl hd hu nu hr
          ∙ reference-fits n m hm hb (le-mul_of_pos n m hm) in
        annotation_of_simple _ (pos (n * m)) (not_empty-append l c _)
          (rw (trim_space_between l (c ∷ s ++ u) r hl body hr) (digit-no_brace c _ hd.0)) read
        ∙ ap ok (simple_config_exact law (n * m) hb)
