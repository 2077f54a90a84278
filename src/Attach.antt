-- ===== src/Attach.antt =====
-- Attaching the programs to a pod: `pinPathFor`, `resolveAttachStrategy`, `resolveIfIndex`,
-- `tryAttachOne` and `attachBPF` of cmd/natra/main.go.
pub mod Pacing
pub mod Keeps
pub mod Namespace
pub mod Writes
use natra.Base.{
  ℕ, Bool, true, false, not, ◌&&◌, Option, none, some, List, [], ◌∷◌, ◌++◌, if◌then◌else◌, any,
  Text, codes, one_of, to_bits,
}
use natra.Base.Result.{Result, ok, err}
use natra.PodConfig.{Config}
use natra.NetConf.{EdtMode, edt_auto, edt_on, edt_off}
use natra.Bpf.Types.{
  Direction, ingress, egress, Hook, tcx, clsact, Side, host_side, pod_side, side_text,
  direction_text, BpfConfig, AttachOptions,
}
use natra.Bpf.Program.{Program, load, configure, pin_maps, attach, close}
use natra.Kernel.{
  Call, mkdir_all, remove, interface_by_name, Env, Fault, Trace, M, pure, throw, ◌>>=◌, ◌>>◌, catch,
  finally, or_cleanup, invoke, discard,
}
use natra.Netns.{Netns, enter_netns, restore, install_fq, hostside_peer_if_index}

-- The fields of `CmdArgs` that the handlers read.
pub record CmdArgs : Type 0 where
  pub container_id : Text
  pub netns : Text
  pub if_name : Text
  pub stdin_data : Text

pub record AttachAttempt : Type 0 where
  pub hook : Hook
  pub side : Side

-- An attempt, `{hook, side}` in the source.
abbrev pub on : Hook → Side → AttachAttempt
on h s = record { hook = h; side = s }

-- `PinDir`
abbrev pub pin_dir : Text
pin_dir = codes "/sys/fs/bpf/natra"

unfoldable pub link_pin_name : Text → Side → Direction → Text
link_pin_name container side dir =
    container
    ++ (codes "-" ++ (side_text side ++ (codes "-" ++ (direction_text dir ++ codes "-link"))))

unfoldable pub pin_path_for : Text → Side → Direction → Text
unfolding link_pin_name
pin_path_for container side dir = pin_dir ++ (codes "/" ++ link_pin_name container side dir)

abbrev pub auto_strategy : EdtMode → List AttachAttempt
auto_strategy edt_on = on tcx pod_side ∷ on clsact pod_side ∷ []
auto_strategy edt_auto =
    on tcx pod_side ∷ on clsact pod_side ∷ on tcx host_side ∷ on clsact host_side ∷ []
auto_strategy edt_off =
    on tcx host_side ∷ on tcx pod_side ∷ on clsact host_side ∷ on clsact pod_side ∷ []

-- `none` is the error "unknown attachMode".
unfoldable pub resolve_attach_strategy : Text → EdtMode → Option (List AttachAttempt)
resolve_attach_strategy s edt =
    if one_of s (codes "" ∷ codes "auto" ∷ [])
    then some (auto_strategy edt)
    else if one_of s (codes "tcx-hostside" ∷ [])
    then some (on tcx host_side ∷ [])
    else if one_of s (codes "tcx-podside" ∷ [])
    then some (on tcx pod_side ∷ [])
    else if one_of s (codes "clsact-hostside" ∷ [])
    then some (on clsact host_side ∷ [])
    else if one_of s (codes "clsact-podside" ∷ [])
    then some (on clsact pod_side ∷ [])
    else none

-- A step of an attempt: `attachStep`.
pub record AttachStep : Type 0 where
  pub dir : Direction
  pub cfg : Config

unfoldable pub attach_steps : Option Config → Option Config → List AttachStep
attach_steps none none = []
attach_steps (some i) none = record { dir = ingress; cfg = i } ∷ []
attach_steps none (some e) = record { dir = egress; cfg = e } ∷ []
attach_steps (some i) (some e) =
    record { dir = ingress; cfg = i } ∷ record { dir = egress; cfg = e } ∷ []

-- `dirEdt`: the ingress direction never paces.
unfoldable pub edt_for : Direction → ℕ → ℕ
edt_for ingress edt_pacing = 0
edt_for egress edt_pacing = edt_pacing

-- The `bpf.Config` of a step, with the conversions to uint64.
unfoldable pub bpf_config : AttachStep → ℕ → BpfConfig
bpf_config s edt_pacing = record {
  rate_bps = to_bits s.cfg.rate;
  burst_bytes = to_bits s.cfg.burst;
  hh_threshold = to_bits s.cfg.hh_threshold;
  edt_pacing = edt_for s.dir edt_pacing;
}

-- The interface to attach to, and what its restore function has to undo, if anything.
pub record Interface : Type 0 where
  pub index : ℕ
  pub entered : Option Netns

pub data AttachError : Type 0 where
  no_pin_dir : Fault → AttachError
  needs_pod_side : AttachAttempt → AttachError
  all_failed : List Fault → AttachError

-- The first attempt that is not pod-side.
unfoldable pub first_host_side : List AttachAttempt → Option AttachAttempt
first_host_side [] = none
first_host_side (a ∷ rest) = elim a.side [ host_side ↦ some a | pod_side ↦ first_host_side rest ]

module _ (env : Env) where
  unfoldable pub resolve_if_index : Text → Text → Side → M Interface
  resolve_if_index path if_name pod_side = do
    n ← enter_netns env path
    iface ← or_cleanup (invoke env (interface_by_name if_name)) (restore env n)
    pure (record { index = iface.number; entered = some n })
  resolve_if_index path if_name host_side = do
    peer ← hostside_peer_if_index env path if_name
    pure (record { index = peer; entered = none })

  -- The restore function that `resolveIfIndex` returns.
  unfoldable pub leave : Option Netns → M (Unit {0})
  leave none = pure tt
  leave (some n) = restore env n

  -- `edtPacing`: 1 where fq could be installed, an error where it had to be.
  unfoldable pub settle_fq : EdtMode → Result Fault (Unit {0}) → M ℕ
  settle_fq edt (ok _) = pure 1
  settle_fq edt_on (err e) = throw e
  settle_fq _ (err e) = pure 0

  unfoldable pub probe_fq : EdtMode → Side → ℕ → M ℕ
  probe_fq edt_off side if_index = pure 0
  probe_fq edt host_side if_index = pure 0
  probe_fq edt pod_side if_index = do
    installed ← catch (install_fq env if_index)
    settle_fq edt installed

  -- `rollback`: the pins of the steps that were done.
  unfoldable pub rollback : Text → Side → List Direction → M (Unit {0})
  rollback container side [] = pure tt
  rollback container side (dir ∷ done) =
      discard env (remove (pin_path_for container side dir)) >> rollback container side done

  unfoldable pub options : Text → AttachAttempt → ℕ → Direction → AttachOptions
  options container attempt if_index dir = record {
    direction = dir;
    side = attempt.side;
    hook = attempt.hook;
    if_index = if_index;
    pin_path = pin_path_for container attempt.side dir;
  }

  -- One round of the loop over the steps, and what undoes the rounds before it.
  unfoldable pub run_step : Text → AttachAttempt → ℕ → ℕ → Program → AttachStep → M Program
  run_step container attempt if_index edt_pacing p step = do
    configure env step.dir (bpf_config step edt_pacing)
    attach env p (options container attempt if_index step.dir)

  unfoldable pub undo : Text → AttachAttempt → Program → List Direction → M (Unit {0})
  undo container attempt p done = do rollback container attempt.side done; close env p; pure tt

  unfoldable pub run_steps :
      Text → AttachAttempt → ℕ → ℕ → List Direction → List AttachStep → Program → M Program
  run_steps container attempt if_index edt_pacing done [] p = pure p
  run_steps container attempt if_index edt_pacing done (step ∷ steps) p =
      or_cleanup (run_step container attempt if_index edt_pacing p step)
        (undo container attempt p done)
      >>= λ p'. run_steps container attempt if_index edt_pacing (done ++ (step.dir ∷ [])) steps p'

  -- `tryAttachOne` between `resolveIfIndex` and the deferred restore. The lines that it logs are
  -- not modelled, and an error of `PinMaps` is only logged.
  unfoldable pub attach_on :
      CmdArgs → Option Config → Option Config → AttachAttempt → EdtMode → ℕ → M (Unit {0})
  attach_on args ingress_cfg egress_cfg attempt edt if_index = do
    edt_pacing ← probe_fq edt attempt.side if_index
    p ← load env
    run_steps args.container_id attempt if_index edt_pacing [] (attach_steps ingress_cfg egress_cfg)
        p
    catch (pin_maps env pin_dir args.container_id)
    pure tt

  unfoldable pub try_attach_one :
      CmdArgs → Option Config → Option Config → AttachAttempt → EdtMode → M (Unit {0})
  try_attach_one args ingress_cfg egress_cfg attempt edt = do
    iface ← resolve_if_index args.netns args.if_name attempt.side
    finally (attach_on args ingress_cfg egress_cfg attempt edt iface.index) (leave iface.entered)

  -- The loop over the attempts, with the errors of those that failed. The trace comes back with the
  -- outcome.
  unfoldable pub try_all :
      CmdArgs
      → Option Config
      → Option Config
      → EdtMode
      → List Fault
      → List AttachAttempt
      → Trace
      → Result AttachError (Unit {0}) × Trace
  try_all args ingress_cfg egress_cfg edt faults [] t = (err (all_failed faults), t)
  try_all args ingress_cfg egress_cfg edt faults (attempt ∷ rest) t =
      let (r, t') = try_attach_one args ingress_cfg egress_cfg attempt edt t in
      elim r [
        | ok _ ↦ (ok tt, t')
        | err e ↦ try_all args ingress_cfg egress_cfg edt (faults ++ (e ∷ [])) rest t'
      ]

  -- The check before the attempts: with `edtPacing=on` every attempt has to be pod-side.
  unfoldable pub preflight : EdtMode → List AttachAttempt → Option AttachAttempt
  preflight edt_on strategy = first_host_side strategy
  preflight _ strategy = none

  unfoldable pub attach_bpf :
      CmdArgs
      → Option Config
      → Option Config
      → List AttachAttempt
      → EdtMode
      → Trace
      → Result AttachError (Unit {0}) × Trace
  attach_bpf args ingress_cfg egress_cfg strategy edt t =
      let (r, t') = invoke env mkdir_all t in
      elim r [
        | err e ↦ (err (no_pin_dir e), t')
        | ok _ ↦ elim (preflight edt strategy) [
          | some a ↦ (err (needs_pod_side a), t')
          | none ↦ try_all args ingress_cfg egress_cfg edt [] strategy t'
        ]
      ]
