-- ===== src/Rig/Narrow.antt =====
-- A plan never holds more than its specification.
use natra.Base.{◌≡◌, ◌≢◌, refl, true, false, List, [], ◌∷◌, All, Text, one_of, pos, ltb_ℤ}
use natra.Base.Result.{ok}
use natra.Rig.{
  Spec, Profile, PlanError, unknown_rate, unknown_workload, no_rates, no_workloads, check_selected,
  check_samples, check_any, plan_of, apply,
}

abbrev pub Among : List Text → Text → Type 0
Among known x = one_of x known ≡ true

-- A profile that selects something, and nothing but parts of the specification.
pub record IsNarrow (spec : Spec) (profile : Profile) : Type 0 where
  pub rates_known : All (Among spec.rates) profile.rates
  pub workloads_known : All (Among spec.workloads) profile.workloads
  pub some_sample : ltb_ℤ profile.samples (pos 1) ≡ false
  pub samples_within : ltb_ℤ spec.samples profile.samples ≡ false
  pub some_rate : profile.rates ≢ []
  pub some_workload : profile.workloads ≢ []

check_selected_of_All :
    (e : Text → PlanError) (known xs : List Text)
    → All (Among known) xs
    → check_selected e known xs ≡ ok tt
unfolding check_selected
check_selected_of_All e known [] h = refl
check_selected_of_All e known (x ∷ xs) (k, h) = rw (k, check_selected_of_All e known xs h)

check_any_of : (e : PlanError) (xs : List Text) → xs ≢ [] → check_any e xs ≡ ok tt
unfolding check_any
check_any_of e [] h = absurd (h refl)
check_any_of e (x ∷ xs) h = refl

-- Every profile that narrows the specification is accepted.
pub apply_of_IsNarrow :
    (spec : Spec) (profile : Profile)
    → IsNarrow spec profile
    → apply spec profile ≡ ok (plan_of spec profile)
unfolding apply check_samples
apply_of_IsNarrow spec profile h = rw (
  check_selected_of_All unknown_rate spec.rates profile.rates h.rates_known,
  check_selected_of_All unknown_workload spec.workloads profile.workloads h.workloads_known,
  h.some_sample,
  h.samples_within,
  check_any_of no_rates profile.rates h.some_rate,
  check_any_of no_workloads profile.workloads h.some_workload,
)
