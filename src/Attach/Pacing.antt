-- ===== src/Attach/Pacing.antt =====
-- When an attempt paces: the value that the probe for fq returns, by mode and side, and the check
-- before the attempts.
use natra.Base.{ℕ, ◌≡◌, ◌≢◌, refl, ◌⊎◌, inl, inr, none, some, List, [], ◌∷◌, All}
use natra.Base.Result.{Result, ok, err}
use natra.NetConf.{EdtMode, edt_auto, edt_on, edt_off}
use natra.Bpf.Types.{Side, host_side, pod_side}
use natra.Kernel.{Trace, Env, Fault, pure, throw, catch, ◌>>=◌, bind_result}
use natra.Netns.{install_fq}
use natra.Attach.{AttachAttempt, first_host_side, preflight, settle_fq, probe_fq}

-- The pacing values of a mode.
abbrev pub PacingOf : EdtMode → ℕ → Type 0
PacingOf edt_on n = n ≡ 1
PacingOf edt_off n = n ≡ 0
PacingOf edt_auto n = (n ≡ 0) ⊎ (n ≡ 1)

-- An attempt that the check lets pass: with `edt_on` it is pod-side.
abbrev pub Fits : EdtMode → Side → Type 0
Fits edt_on side = side ≡ pod_side
Fits _ side = Unit

module _ (env : Env) where
  settle_fq-PacingOf :
      (edt : EdtMode) (r : Result Fault (Unit {0})) (t : Trace) (n : ℕ)
      → edt ≢ edt_off
      → (settle_fq env edt r t).0 ≡ ok n
      → PacingOf edt n
  unfolding settle_fq pure throw
  settle_fq-PacingOf edt_off r t n ne h = absurd (ne refl)
  settle_fq-PacingOf edt_on (ok _) t n ne h = cc
  settle_fq-PacingOf edt_on (err e) t n ne h = absurd cc
  settle_fq-PacingOf edt_auto (ok _) t n ne h = inr cc
  settle_fq-PacingOf edt_auto (err e) t n ne h = inl cc

  pub probe_fq-PacingOf :
      (edt : EdtMode) (side : Side) (i : ℕ) (t : Trace) (n : ℕ)
      → Fits edt side
      → (probe_fq env edt side i t).0 ≡ ok n
      → PacingOf edt n
  unfolding probe_fq pure ◌>>=◌ catch bind_result
  probe_fq-PacingOf edt_off side i t n f h = cc
  probe_fq-PacingOf edt_auto host_side i t n f h = inl cc
  probe_fq-PacingOf edt_on host_side i t n f h = absurd cc
  probe_fq-PacingOf edt_auto pod_side i t n f h =
      settle_fq-PacingOf edt_auto (install_fq env i t).0 (install_fq env i t).1 n (λ e. cc) h
  probe_fq-PacingOf edt_on pod_side i t n f h =
      settle_fq-PacingOf edt_on (install_fq env i t).0 (install_fq env i t).1 n (λ e. cc) h

  first_host_side-All :
      (strategy : List AttachAttempt)
      → first_host_side strategy ≡ none
      → All (λ (a : AttachAttempt). a.side ≡ pod_side) strategy
  unfolding first_host_side
  first_host_side-All [] h = tt
  first_host_side-All (a ∷ rest) h = go a.side refl (first_host_side-All rest) h
    where
      go :
          (s : Side)
          → a.side ≡ s
          → (first_host_side rest ≡ none → All (λ (a : AttachAttempt). a.side ≡ pod_side) rest)
          → (elim s [ host_side ↦ some a | pod_side ↦ first_host_side rest ]) ≡ none
          → (a.side ≡ pod_side) × All (λ (a : AttachAttempt). a.side ≡ pod_side) rest
      go host_side e ih h = absurd cc
      go pod_side e ih h = (e, ih h)

  All-Unit : (strategy : List AttachAttempt) → All (λ (a : AttachAttempt). Unit {0}) strategy
  All-Unit [] = tt
  All-Unit (a ∷ rest) = (tt, All-Unit rest)

  pub preflight-Fits :
      (edt : EdtMode) (strategy : List AttachAttempt)
      → preflight env edt strategy ≡ none
      → All (λ (a : AttachAttempt). Fits edt a.side) strategy
  unfolding preflight
  preflight-Fits edt_on strategy h = first_host_side-All strategy h
  preflight-Fits edt_auto strategy h = All-Unit strategy
  preflight-Fits edt_off strategy h = All-Unit strategy
