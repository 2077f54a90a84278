-- ===== src/Tests/Plans.antt =====
-- The profiles of the source against its specification.
use natra.Base.{◌≡◌, refl, [], ◌∷◌, codes, one_of, text_eq}
use natra.Base.Result.{ok, err}
use natra.Rig.{Profile, default_spec, profile_ci, profile_full, unknown_rate, plan_of, apply}
use natra.Rig.Narrow.{IsNarrow}

abbrev profile_wide : Profile
profile_wide = record profile_ci { rates = codes "10M" ∷ codes "2G" ∷ [] }

wide_refused : apply default_spec profile_wide ≡ err (unknown_rate (codes "2G"))
unfolding apply natra.Rig.check_selected one_of
wide_refused = refl

full_accepted : apply default_spec profile_full ≡ ok (plan_of default_spec profile_full)
unfolding apply natra.Rig.check_selected one_of natra.Rig.check_samples natra.Rig.check_any
full_accepted = refl

full-IsNarrow : IsNarrow default_spec profile_full
unfolding one_of text_eq
full-IsNarrow = record {
  rates_known = (refl, (refl, (refl, tt)));
  workloads_known = (refl, (refl, (refl, tt)));
  some_sample = refl;
  samples_within = refl;
  some_rate = λ e. cc;
  some_workload = λ e. cc;
}
