-- ===== src/Attach/Namespace.antt =====
-- The thread is back in the namespace that it started in, after every attempt and every outcome.
use natra.Base.{ℕ, ◌≡◌, arith, Option, none, some, List, [], ◌∷◌, All, Text}
use natra.Base.Result.{Result, ok, err}
use natra.PodConfig.{Config}
use natra.NetConf.{EdtMode}
use natra.Bpf.Types.{Side, host_side, pod_side}
use natra.Kernel.{
  interface_by_name, Trace, Env, Fault, pure, bind_result, ◌>>=◌, ◌>>◌, or_cleanup, finally, invoke,
}
use natra.Kernel.Rules.{Keeps}
use natra.Netns.{Netns, enter_netns, restore, hostside_peer_if_index}
use natra.Netns.Keeps.{
  AtHome, NetnsWorks, Entered, thread_ns, restore-home, enter_netns-Entered, hostside_peer-home,
}
use natra.Attach.{
  CmdArgs, AttachAttempt, AttachStep, attach_steps, Interface, resolve_if_index, leave, attach_on,
  try_attach_one, attach_bpf,
}
use natra.Attach.Pacing.{Fits}
use natra.Attach.Keeps.{StableAttempt, StableStep, attach_on-Keeps, attach_bpf-Keeps}

-- No call but `netns.Set` moves the thread.
staying : (env : Env) (home : ℕ) → StableAttempt (AtHome home) env
staying env home = record {
  program = record {
    memlock = record { extend = λ t h. h };
    spec = record { extend = λ t h. h };
    collection = record { extend = λ t h. h };
    collection_closed = record { extend = λ t h. h };
    pinned_map = λ p. record { extend = λ t h. h };
    tcx_link = λ i p q. record { extend = λ t h. h };
    closed_link = λ l. record { extend = λ t h. h };
    index = λ i. record { extend = λ t h. h };
    qdisc = λ i. record { extend = λ t h. h };
    filter = λ i p q. record { extend = λ t h. h };
  };
  removed = λ p. record { extend = λ t h. h };
  listed = λ i. record { extend = λ t h. h };
  fq = λ i. record { extend = λ t h. h };
  pinned = λ l p. record { extend = λ t h. h };
}

steps-stay :
    (env : Env) (home edt : ℕ) (steps : List AttachStep)
    → All (StableStep env (staying env home) edt) steps
steps-stay env home edt [] = tt
steps-stay env home edt (s ∷ steps) =
    ((record { extend = λ t h. h }, record { extend = λ t h. h }), steps-stay env home edt steps)

module _ (env : Env) (home : ℕ) (W : NetnsWorks env home) where
  LeavesHome : Option Netns → Trace → Type 0
  LeavesHome none t = AtHome home t
  LeavesHome (some n) t = n.origin ≡ home

  -- What `resolveIfIndex` leaves: an error at home, or an interface from which the restore function
  -- leads home.
  abbrev Resolved : Result Fault Interface × Trace → Type 0
  Resolved (ok i, t) = LeavesHome i.entered t
  Resolved (err e, t) = AtHome home t

  interface-Resolved :
      (n : Netns) (if_name : Text) (t : Trace)
      → n.origin ≡ home
      → Resolved (
          (or_cleanup (invoke env (interface_by_name if_name)) (restore env n) >>= λ iface.
          pure (record { index = iface.number; entered = some n }))
            t)
  unfolding ◌>>=◌ or_cleanup invoke LeavesHome pure ◌>>◌
  interface-Resolved n if_name t e =
      let c = interface_by_name if_name in
      ground (arith, restore-home env home W n (record { call = c; reply = env t c } ∷ t) e)

  resolve-Resolved :
      (path if_name : Text) (side : Side) (t : Trace)
      → AtHome home t
      → Resolved (resolve_if_index env path if_name side t)
  unfolding resolve_if_index ◌>>=◌ LeavesHome pure
  resolve-Resolved path if_name host_side t h =
      go (hostside_peer_if_index env path if_name t).0 (hostside_peer_if_index env path if_name t).1
        (hostside_peer-home env home W path if_name t h)
    where
      go :
          (r : Result Fault ℕ) (t' : Trace)
          → AtHome home t'
          → Resolved (bind_result (r, t') (λ i. pure (record { index = i; entered = none })))
      go (ok i) t' h' = h'
      go (err e) t' h' = h'
  resolve-Resolved path if_name pod_side t h =
      go (enter_netns env path t) (enter_netns-Entered env home W path t h)
    where
      go :
          (r : Result Fault Netns × Trace)
          → Entered env home W r
          → Resolved (
              bind_result r (λ n.
                or_cleanup (invoke env (interface_by_name if_name)) (restore env n) >>= λ iface.
                pure (record { index = iface.number; entered = some n })))
      go (err e, t') h' = h'
      go (ok n, t') e = interface-Resolved n if_name t' e

  leave-home :
      (n : Option Netns) (t u : Trace)
      → LeavesHome n t
      → (AtHome home t → AtHome home u)
      → AtHome home (leave env n u).1
  unfolding leave LeavesHome pure
  leave-home none t u h k = k h
  leave-home (some n) t u h k = restore-home env home W n u h

  -- An attempt ends at home.
  try_attach_one-home :
      (args : CmdArgs) (ingress_cfg egress_cfg : Option Config) (a : AttachAttempt) (edt : EdtMode)
      → Fits edt a.side
      → Keeps (AtHome home) (try_attach_one env args ingress_cfg egress_cfg a edt)
  unfolding try_attach_one ◌>>=◌ finally
  try_attach_one-home args ingress_cfg egress_cfg a edt f = record {
    after = λ t h.
        go (resolve_if_index env args.netns args.if_name a.side t)
          (resolve-Resolved args.netns args.if_name a.side t h);
  }
    where
      go :
          (r : Result Fault Interface × Trace)
          → Resolved r
          → AtHome home
              (bind_result r (λ iface.
                finally
                  (attach_on env args ingress_cfg egress_cfg a edt iface.index)
                  (leave env iface.entered))).1
      go (err e, t') h' = h'
      go (ok i, t') h' = leave-home i.entered t' _ h' (
          (attach_on-Keeps env (staying env home) args ingress_cfg egress_cfg a edt i.index f
              (λ n p. steps-stay env home n (attach_steps ingress_cfg egress_cfg))).after
            t')

  -- Attaching restores the thread's network namespace: if `netns.Get` names the namespace that
  -- the thread is in, and the thread may return to its own, then it is in its own namespace after
  -- `attachBPF`, whatever any other call returns and whichever attempts fail.
  pub attach_bpf-home :
      (args : CmdArgs) (ingress_cfg egress_cfg : Option Config) (strategy : List AttachAttempt)
      (edt : EdtMode) (t : Trace)
      → thread_ns home t ≡ home
      → thread_ns home (attach_bpf env args ingress_cfg egress_cfg strategy edt t).1 ≡ home
  attach_bpf-home args ingress_cfg egress_cfg strategy edt t h =
      attach_bpf-Keeps env args ingress_cfg egress_cfg edt
        (λ a. try_attach_one-home args ingress_cfg egress_cfg a edt) (record { extend = λ t i. i })
        strategy t h
