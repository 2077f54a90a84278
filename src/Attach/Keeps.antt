-- ===== src/Attach/Keeps.antt =====
-- A property that each call of an attempt keeps is kept by the attempt: the rules for the parts of
-- `try_attach_one`, up to `attach_bpf`.
use natra.Base.{ℕ, ◌≡◌, refl, ◌++◌, Option, none, some, List, [], ◌∷◌, All, Text}
use natra.Base.Result.{Result, ok, err}
use natra.PodConfig.{Config}
use natra.NetConf.{EdtMode, edt_auto, edt_on, edt_off}
use natra.Bpf.Types.{Direction, Side, host_side, pod_side}
use natra.Bpf.Program.{Program}
use natra.Bpf.Program.Keeps.{
  StableCalls, full_bucket, load-Keeps, configure-Keeps, pin_maps-Keeps, attach-Keeps, close-Keeps,
}
use natra.Kernel.{
  mkdir_all, remove, config_update, bucket_update, link_pin, interface_by_name, qdisc_list,
  qdisc_replace_fq, Trace, Env, Fault, Reply, invoke,
}
use natra.Kernel.Rules.{
  Keeps, Stable, pure-Keeps, throw-Keeps, bind-Keeps, bind_where-Keeps, then-Keeps, catch-Keeps,
  finally-Keeps, or_cleanup-Keeps, invoke-Keeps, discard-Keeps,
}
use natra.Netns.{Netns}
use natra.Netns.Keeps.{
  StableMoves, restore-Keeps, enter_netns-Keeps, hostside_peer-Keeps, install_fq-Keeps,
}
use natra.Attach.Pacing.{PacingOf, Fits, probe_fq-PacingOf, preflight-Fits}
use natra.Attach.{
  CmdArgs, AttachAttempt, AttachStep, AttachError, no_pin_dir, needs_pod_side, pin_dir,
  attach_steps, bpf_config, resolve_if_index, leave, settle_fq, probe_fq, rollback, run_step, undo,
  run_steps, attach_on, try_attach_one, try_all, preflight, attach_bpf,
}

-- The calls of an attempt beside those of `Program`.
pub record StableAttempt (I : Trace → Type 0) (env : Env) : Type 0 where
  pub program : StableCalls I env
  pub removed : (p : Text) → Stable I env (remove p)
  pub listed : (i : ℕ) → Stable I env (qdisc_list i)
  pub fq : (i : ℕ) → Stable I env (qdisc_replace_fq i)
  pub pinned : (l : ℕ) (p : Text) → Stable I env (link_pin l p)

module _ {I : Trace → Type 0} (env : Env) (S : StableAttempt I env) where
  -- The updates of the config and bucket maps that a step makes.
  abbrev pub StableStep : ℕ → AttachStep → Type 0
  StableStep edt s =
      Stable I env (config_update s.dir (bpf_config s edt))
      × Stable I env (bucket_update s.dir (full_bucket (bpf_config s edt).burst_bytes))

  settle_fq-Keeps : (edt : EdtMode) (r : Result Fault (Unit {0})) → Keeps I (settle_fq env edt r)
  unfolding settle_fq
  settle_fq-Keeps edt (ok _) = pure-Keeps 1
  settle_fq-Keeps edt_on (err e) = throw-Keeps e
  settle_fq-Keeps edt_auto (err e) = pure-Keeps 0
  settle_fq-Keeps edt_off (err e) = pure-Keeps 0

  probe-Keeps : (edt : EdtMode) (i : ℕ) → Keeps I (probe_fq env edt pod_side i)
  unfolding probe_fq
  probe-Keeps edt_off i = pure-Keeps 0
  probe-Keeps edt_auto i =
      bind-Keeps (catch-Keeps (install_fq-Keeps env i (S.program.index i) (S.listed i) (S.fq i)))
        (settle_fq-Keeps edt_auto)
  probe-Keeps edt_on i =
      bind-Keeps (catch-Keeps (install_fq-Keeps env i (S.program.index i) (S.listed i) (S.fq i)))
        (settle_fq-Keeps edt_on)

  probe_fq-Keeps : (edt : EdtMode) (side : Side) (i : ℕ) → Keeps I (probe_fq env edt side i)
  unfolding probe_fq
  probe_fq-Keeps edt pod_side i = probe-Keeps edt i
  probe_fq-Keeps edt_off host_side i = pure-Keeps 0
  probe_fq-Keeps edt_auto host_side i = pure-Keeps 0
  probe_fq-Keeps edt_on host_side i = pure-Keeps 0

  rollback-Keeps :
      (c : Text) (side : Side) (done : List Direction) → Keeps I (rollback env c side done)
  unfolding rollback
  rollback-Keeps c side [] = pure-Keeps tt
  rollback-Keeps c side (dir ∷ done) =
      then-Keeps (discard-Keeps (S.removed _)) (rollback-Keeps c side done)

  run_steps-Keeps :
      (c : Text) (a : AttachAttempt) (i edt : ℕ) (done : List Direction) (steps : List AttachStep)
      → All (StableStep edt) steps
      → (p : Program) → Keeps I (run_steps env c a i edt done steps p)
  unfolding run_steps run_step undo
  run_steps-Keeps c a i edt done [] h p = pure-Keeps p
  run_steps-Keeps c a i edt done (s ∷ steps) (hs, h) p =
      bind-Keeps
        (or_cleanup-Keeps
          (then-Keeps (configure-Keeps env S.program s.dir _ hs.0 hs.1)
            (attach-Keeps env S.program p _ (λ l. S.pinned l _)))
          (then-Keeps (rollback-Keeps c a.side done)
            (then-Keeps (close-Keeps env S.program p) (pure-Keeps tt))))
        (run_steps-Keeps c a i edt (done ++ (s.dir ∷ [])) steps h)

  pub attach_on-Keeps :
      (args : CmdArgs) (ingress_cfg egress_cfg : Option Config) (a : AttachAttempt) (edt : EdtMode)
      (i : ℕ)
      → Fits edt a.side
      → ((n : ℕ) → PacingOf edt n → All (StableStep n) (attach_steps ingress_cfg egress_cfg))
      → Keeps I (attach_on env args ingress_cfg egress_cfg a edt i)
  unfolding attach_on
  attach_on-Keeps args ingress_cfg egress_cfg a edt i f h =
      bind_where-Keeps (probe_fq-Keeps edt a.side i)
        (λ t n. probe_fq-PacingOf env edt a.side i t n f)
        (λ e p_e. bind-Keeps (load-Keeps env S.program) (λ p.
          then-Keeps (run_steps-Keeps args.container_id a i e [] _ (h e p_e) p) (
            then-Keeps (catch-Keeps (pin_maps-Keeps env S.program pin_dir args.container_id))
              (pure-Keeps tt))))

  -- Where no move of the thread matters, so does the whole attempt keep it.
  module _ (N : StableMoves I env) (by_name : (s : Text) → Stable I env (interface_by_name s)) where
    resolve_if_index-Keeps :
        (path if_name : Text) (side : Side) → Keeps I (resolve_if_index env path if_name side)
    unfolding resolve_if_index
    resolve_if_index-Keeps path if_name pod_side = bind-Keeps (enter_netns-Keeps env N path) (λ n.
        bind-Keeps (or_cleanup-Keeps (invoke-Keeps (by_name if_name)) (restore-Keeps env N n))
          (λ i. pure-Keeps _))
    resolve_if_index-Keeps path if_name host_side =
        bind-Keeps (hostside_peer-Keeps env N path if_name) (λ i. pure-Keeps _)

    leave-Keeps : (n : Option Netns) → Keeps I (leave env n)
    unfolding leave
    leave-Keeps none = pure-Keeps tt
    leave-Keeps (some n) = restore-Keeps env N n

    pub try_attach_one-Keeps :
        (args : CmdArgs) (ingress_cfg egress_cfg : Option Config) (a : AttachAttempt)
        (edt : EdtMode)
        → Fits edt a.side
        → ((n : ℕ) → PacingOf edt n → All (StableStep n) (attach_steps ingress_cfg egress_cfg))
        → Keeps I (try_attach_one env args ingress_cfg egress_cfg a edt)
    unfolding try_attach_one
    try_attach_one-Keeps args ingress_cfg egress_cfg a edt f h =
        bind-Keeps (resolve_if_index-Keeps args.netns args.if_name a.side) (λ iface.
          finally-Keeps (attach_on-Keeps args ingress_cfg egress_cfg a edt iface.index f h)
            (leave-Keeps iface.entered))

module _ {I : Trace → Type 0} (env : Env) (args : CmdArgs)
    (ingress_cfg egress_cfg : Option Config) where
  -- What each attempt keeps, the whole of `attach_bpf` keeps.
  module _ (edt : EdtMode)
      (each : (a : AttachAttempt)
        → Fits edt a.side
        → Keeps I (try_attach_one env args ingress_cfg egress_cfg a edt)) where
    try_all-Keeps :
        (faults : List Fault) (strategy : List AttachAttempt) (t : Trace)
        → All (λ (a : AttachAttempt). Fits edt a.side) strategy
        → I t
        → I (try_all env args ingress_cfg egress_cfg edt faults strategy t).1
    unfolding try_all
    try_all-Keeps faults [] t f i = i
    try_all-Keeps faults (a ∷ rest) t (f, fs_fit) i =
        go (try_attach_one env args ingress_cfg egress_cfg a edt t).0
          (try_attach_one env args ingress_cfg egress_cfg a edt t).1 ((each a f).after t i)
          (λ fs t' i'. try_all-Keeps fs rest t' fs_fit i')
      where
        go :
            (r : Result Fault (Unit {0})) (t' : Trace)
            → I t'
            → ((fs : List Fault) (u : Trace)
                → I u
                → I (try_all env args ingress_cfg egress_cfg edt fs rest u).1)
            → I
                (elim r as (λ _. Result AttachError (Unit {0}) × Trace) [
                  | ok _ ↦ (ok tt, t')
                  | err e ↦ try_all env args ingress_cfg egress_cfg edt (faults ++ (e ∷ [])) rest t'
                ]).1
        go (ok _) t' i' ih = i'
        go (err e) t' i' ih = ih _ t' i'

    pub attach_bpf-Keeps :
        Stable I env mkdir_all
        → (strategy : List AttachAttempt) (t : Trace) → I t
        → I (attach_bpf env args ingress_cfg egress_cfg strategy edt t).1
    unfolding attach_bpf
    attach_bpf-Keeps m strategy t i =
        go (invoke env mkdir_all t).0 (preflight env edt strategy) (invoke env mkdir_all t).1
          (preflight-Fits env edt strategy) ((invoke-Keeps m).after t i)
      where
        go :
            (r : Result Fault Reply) (o : Option AttachAttempt) (t' : Trace)
            → (o ≡ none → All (λ (a : AttachAttempt). Fits edt a.side) strategy)
            → I t'
            → I
                (elim r as (λ _. Result AttachError (Unit {0}) × Trace) [
                  | err e ↦ (err (no_pin_dir e), t')
                  | ok _ ↦ elim o [
                    | some a ↦ (err (needs_pod_side a), t')
                    | none ↦ try_all env args ingress_cfg egress_cfg edt [] strategy t'
                  ]
                ]).1
        go (err e) o t' fit i' = i'
        go (ok _) (some a) t' fit i' = i'
        go (ok _) none t' fit i' = try_all-Keeps [] strategy t' (fit refl) i'
