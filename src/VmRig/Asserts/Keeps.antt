-- ===== src/VmRig/Asserts/Keeps.antt =====
-- The evidence of a trace, and that the steps of the rig's test keep it.
use natra.Base.{◌≡◌, ◌⊎◌, inr, ◌≤◌, ◌/◌, false, Option, none, some, List, [], ◌∷◌, Text}
use natra.Base.Result.{Result, ok, err}
use natra.Base.State.Rules.{Keeps, pure-Keeps, throw-Keeps, bind-Keeps, then-Keeps}
use natra.Host.{HostEnv, HostTrace, HostCall, HostEvent, capture_kubectl, trim_right}
use natra.Host.Rules.{HostStable, ask-Keeps, must-Keeps, ignore-Keeps, require_that-Keeps}
use natra.Rig.Cluster.{RigFault}
use natra.Rig.Executor.{Readings}
use natra.Rig.Executor.Mixed.{HeyResult, parse_hey_csv}
use natra.VmRig.{Config}
use natra.VmRig.Asserts.{
  Limits, measure_args, hey_args, render_manifest, render_e2e_manifest, render_perf_manifest,
  apply_manifest, wait_ready, assert_within, measure, warm_up, test_egress_only, assert_requests,
  deploy_perf, assert_hey, test_hey_fast_pass,
}

-- Some call of the trace.
abbrev pub Some : (HostEvent → Type 0) → HostTrace → Type 0
Some P [] = ⊥
Some P (event ∷ t) = P event ⊎ Some P t

Some-stable : (P : HostEvent → Type 0) (env : HostEnv) (c : HostCall) → HostStable (Some P) env c
Some-stable P env c = record { extend = λ t h. inr h }

module _ (rd : Readings) (limits : Limits rd) (c : Config) where
  -- A measurement at a server whose throughput is neither above the cap nor below the floor.
  pub record IsWithin (server : Text) (flag : List Text) (event : HostEvent) : Type 0 where
    pub measured : event.call ≡ capture_kubectl c.kubeconfig_path (measure_args server flag)
    pub bps : rd.F
    pub read : rd.received_bps (trim_right event.reply.output) ≡ some bps
    pub within_cap : limits.exceeds_cap bps ≡ false
    pub above_floor : limits.is_below_floor bps ≡ false

  -- A run of hey with at least 3000 requests that were served, and at most a tenth of them failed besides.
  pub record IsFast (event : HostEvent) : Type 0 where
    pub ran : event.call ≡ capture_kubectl c.kubeconfig_path hey_args
    pub result : HeyResult rd
    pub parsed : parse_hey_csv rd (trim_right event.reply.output) ≡ ok result
    pub served : 3000 ≤ result.succeeded
    pub few_errors : result.errors ≤ result.succeeded / 10

module _ (env : HostEnv) (rd : Readings) (limits : Limits rd) (c : Config) where
  module _ (P : HostEvent → Type 0) where
    pub render_manifest-Keeps :
        (src : Text) (pairs : List (Text × Text))
        → Keeps (Some P) (render_manifest env rd limits src pairs)
    unfolding render_manifest
    render_manifest-Keeps src pairs =
        bind-Keeps (ask-Keeps (Some-stable P env _))
          (λ text. then-Keeps (require_that-Keeps _ _) (pure-Keeps _))

    pub apply_manifest-Keeps : (m : Text) → Keeps (Some P) (apply_manifest env rd limits c m)
    unfolding apply_manifest
    apply_manifest-Keeps m = must-Keeps (Some-stable P env _)

    pub wait_ready-Keeps :
        (pods : List Text) (timeout : Text)
        → Keeps (Some P) (wait_ready env rd limits c pods timeout)
    unfolding wait_ready
    wait_ready-Keeps pods timeout = must-Keeps (Some-stable P env _)

    pub warm_up-Keeps :
        (s : Text) (flags : List Text) → Keeps (Some P) (warm_up env rd limits c s flags)
    unfolding warm_up
    warm_up-Keeps s flags = ignore-Keeps (Some-stable P env _)

    pub assert_within-Keeps :
        (label : Text) (o : Option rd.F) → Keeps (Some P) (assert_within env rd limits label o)
    unfolding assert_within
    assert_within-Keeps label none = throw-Keeps _
    assert_within-Keeps label (some bps) =
        then-Keeps (require_that-Keeps _ _) (require_that-Keeps _ _)

    pub measure-Keeps :
        (label s : Text) (flag : List Text) → Keeps (Some P) (measure env rd limits c label s flag)
    unfolding measure
    measure-Keeps label s flag =
        bind-Keeps (ask-Keeps (Some-stable P env _)) (λ out. assert_within-Keeps label _)

    pub test_egress_only-Keeps : Keeps (Some P) (test_egress_only env rd limits c)
    unfolding test_egress_only render_e2e_manifest
    test_egress_only-Keeps = bind-Keeps (render_manifest-Keeps _ _) (λ m.
        then-Keeps (apply_manifest-Keeps m) (
          then-Keeps (wait_ready-Keeps _ _) (then-Keeps (warm_up-Keeps _ _) (measure-Keeps _ _ _))))

    pub deploy_perf-Keeps : (p : Text) → Keeps (Some P) (deploy_perf env rd limits c p)
    unfolding deploy_perf render_perf_manifest
    deploy_perf-Keeps p = bind-Keeps (render_manifest-Keeps _ _) apply_manifest-Keeps

    pub assert_hey-Keeps :
        (r : Result RigFault (HeyResult rd)) → Keeps (Some P) (assert_hey env rd limits r)
    unfolding assert_hey assert_requests
    assert_hey-Keeps (err e) = throw-Keeps _
    assert_hey-Keeps (ok res) = then-Keeps (require_that-Keeps _ _) (require_that-Keeps _ _)

    pub test_hey_fast_pass-Keeps : Keeps (Some P) (test_hey_fast_pass env rd limits c)
    unfolding test_hey_fast_pass
    test_hey_fast_pass-Keeps = then-Keeps (deploy_perf-Keeps _) (
        then-Keeps (deploy_perf-Keeps _) (
          then-Keeps (wait_ready-Keeps _ _)
            (bind-Keeps (ask-Keeps (Some-stable P env _)) (λ out. assert_hey-Keeps _))))
