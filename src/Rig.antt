-- ===== src/Rig.antt =====
-- The plan of a measurement: internal/perfrig/spec.go and `Apply` of internal/perfrig/apply.go. A
-- profile selects a part of the specification. Messages are not modelled, but the value that an
-- error names is.
pub mod Narrow
pub mod Cluster
pub mod Manifest
pub mod Executor
pub mod Substrate
pub mod Report
use natra.Base.{
  Bool, true, false, Option, none, some, List, [], ◌∷◌, if◌then◌else◌, Text, codes, one_of, ℤ, pos,
  ltb_ℤ,
}
use natra.Base.Result.{Result, ok, err, ◌>>=◌}

pub data Phase : Type 0 where
  baseline vanilla natra_phase : Phase

-- `Rate` and `WorkloadKind` are string types, of which these are the constants.
abbrev pub rate_10m : Text
rate_10m = codes "10M"

abbrev pub rate_1g : Text
rate_1g = codes "1G"

abbrev pub rate_10g : Text
rate_10g = codes "10G"

abbrev pub iperf_sweep : Text
iperf_sweep = codes "iperfSweep"

abbrev pub mixed : Text
mixed = codes "mixed"

abbrev pub memory : Text
memory = codes "memory"

pub record Spec : Type 0 where
  pub phases : List Phase
  pub rates : List Text
  pub workloads : List Text
  pub samples : ℤ

pub record Profile : Type 0 where
  pub name : Text
  pub rates : List Text
  pub workloads : List Text
  pub samples : ℤ

pub record Plan : Type 0 where
  pub phases : List Phase
  pub rates : List Text
  pub workloads : List Text
  pub samples : ℤ
  pub profile : Text

abbrev pub default_spec : Spec
default_spec = record {
  phases = baseline ∷ vanilla ∷ natra_phase ∷ [];
  rates = rate_10m ∷ rate_1g ∷ rate_10g ∷ [];
  workloads = iperf_sweep ∷ mixed ∷ memory ∷ [];
  samples = pos 3;
}

abbrev pub profile_full : Profile
profile_full = record {
  name = codes "full";
  rates = rate_10m ∷ rate_1g ∷ rate_10g ∷ [];
  workloads = iperf_sweep ∷ mixed ∷ memory ∷ [];
  samples = pos 3;
}

abbrev pub profile_ci : Profile
profile_ci = record {
  name = codes "ci";
  rates = rate_10m ∷ [];
  workloads = iperf_sweep ∷ mixed ∷ memory ∷ [];
  samples = pos 1;
}

pub data PlanError : Type 0 where
  unknown_rate unknown_workload : Text → PlanError
  too_few_samples : ℤ → PlanError
  too_many_samples : ℤ → ℤ → PlanError
  no_rates no_workloads : PlanError

-- The loops over the rates and over the workloads: the first that the specification lacks.
unfoldable pub check_selected :
    (Text → PlanError) → List Text → List Text → Result PlanError (Unit {0})
check_selected e known [] = ok tt
check_selected e known (x ∷ xs) =
    let rest = check_selected e known xs in if one_of x known then rest else err (e x)

unfoldable pub check_samples : ℤ → ℤ → Result PlanError (Unit {0})
check_samples limit n =
    if ltb_ℤ n (pos 1)
    then err (too_few_samples n)
    else if ltb_ℤ limit n
    then err (too_many_samples n limit)
    else ok tt

unfoldable pub check_any : PlanError → List Text → Result PlanError (Unit {0})
check_any e [] = err e
check_any e (x ∷ xs) = ok tt

-- The plan of a profile that was accepted.
unfoldable pub plan_of : Spec → Profile → Plan
plan_of spec profile = record {
  phases = spec.phases;
  rates = profile.rates;
  workloads = profile.workloads;
  samples = profile.samples;
  profile = profile.name;
}

-- `Apply`
unfoldable pub apply : Spec → Profile → Result PlanError Plan
apply spec profile = do
  checked_rates ← check_selected unknown_rate spec.rates profile.rates
  checked_workloads ← check_selected unknown_workload spec.workloads profile.workloads
  checked_samples ← check_samples spec.samples profile.samples
  some_rate ← check_any no_rates profile.rates
  some_workload ← check_any no_workloads profile.workloads
  ok (plan_of spec profile)
