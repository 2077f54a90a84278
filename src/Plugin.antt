-- ===== src/Plugin.antt =====
-- The handlers of the plugin: `cmdAdd`, `cmdDel`, `cmdCheck` and `passthrough` of
-- cmd/natra/main.go. `parse_config` stands for `json.Unmarshal` into `NetConf`. The log lines and
-- the heap profile are not modelled.
pub mod Add
pub mod Del
use natra.Base.{
  ◌++◌, Bool, true, false, Option, none, some, List, [], ◌∷◌, if◌then◌else◌, Text, codes,
  has_prefix, is_empty,
}
use natra.Base.Result.{Result, ok, err}
use natra.Base.Float64.{Float64}
use natra.PodConfig.{Config, RawConfig}
use natra.NetConf.{EdtMode, NetConf, NetConfDefaults, parse_edt_mode, resolve_direction_config}
use natra.Bpf.Types.{ingress, egress}
use natra.Kernel.{
  Errno, read_dir, remove, parse_prev_result, convert_result, print_result, Reply, Trace, Env,
  Fault, M, pure, ◌>>=◌, ◌>>◌, ask, invoke, discard,
}
use natra.Attach.{CmdArgs, AttachAttempt, resolve_attach_strategy, pin_dir, attach_bpf}

-- The errors that `cmdAdd` returns.
pub data AddError : Type 0 where
  bad_config bad_edt_pacing bad_attach_mode : AddError
  bad_result : Fault → AddError

-- `edtSetting`
unfoldable pub edt_setting : {fl : Float64} → Option (NetConfDefaults fl) → Text
edt_setting none = []
edt_setting (some d) = d.edt_pacing

module _ (env : Env) where
  unfoldable pub passthrough : M (Unit {0})
  passthrough = do
    prev ← invoke env parse_prev_result
    if prev.flag then invoke env convert_result >> pure tt else pure tt
    invoke env print_result
    pure tt

  -- An error of the last step as an error of `cmdAdd`.
  unfoldable pub finish_add : Result Fault (Unit {0}) × Trace → Result AddError (Unit {0}) × Trace
  finish_add (ok _, t) = (ok tt, t)
  finish_add (err e, t) = (err (bad_result e), t)

  -- What follows the resolution of the two directions. The result of `attachBPF` is only reported.
  unfoldable pub limit :
      CmdArgs
      → Option Config
      → Option Config
      → List AttachAttempt
      → EdtMode
      → Trace
      → Result AddError (Unit {0}) × Trace
  limit args none none strategy edt t = finish_add (passthrough t)
  limit args ingress_cfg egress_cfg strategy edt t =
      finish_add (passthrough (attach_bpf env args ingress_cfg egress_cfg strategy edt t).1)

  module _ (fl : Float64) (unmarshal : Text → Option RawConfig) where
    unfoldable pub add_with : CmdArgs → NetConf fl → Trace → Result AddError (Unit {0}) × Trace
    add_with args conf t = elim (parse_edt_mode (edt_setting conf.defaults)) [
      | none ↦ (err bad_edt_pacing, t)
      | some edt ↦ elim (resolve_attach_strategy conf.attach_mode edt) [
        | none ↦ (err bad_attach_mode, t)
        | some strategy ↦
            limit args (resolve_direction_config fl unmarshal conf ingress)
              (resolve_direction_config fl unmarshal conf egress) strategy edt t
      ]
    ]

    module _ (parse_config : Text → Option (NetConf fl)) where
      unfoldable pub cmd_add : CmdArgs → Trace → Result AddError (Unit {0}) × Trace
      cmd_add args t = elim (parse_config args.stdin_data) [
        | none ↦ (err bad_config, t)
        | some conf ↦ add_with args conf t
      ]

  -- The loop of `cmdDel` over the entries of the pin directory. An error of a removal is only
  -- reported.
  unfoldable pub remove_pins : Text → List Text → M (Unit {0})
  remove_pins prefix [] = pure tt
  remove_pins prefix (name ∷ names) =
      let rest = remove_pins prefix names in
      if has_prefix name prefix
      then discard env (remove (pin_dir ++ (codes "/" ++ name))) >> rest
      else rest

  unfoldable pub remove_listed : Text → Reply → M (Unit {0})
  remove_listed prefix r = elim r.error [ some _ ↦ pure tt | none ↦ remove_pins prefix r.names ]

  -- `cmdDel` returns nil on every path.
  unfoldable pub cmd_del : CmdArgs → M (Unit {0})
  cmd_del args = do
    entries ← ask env read_dir
    remove_listed (args.container_id ++ codes "-") entries

unfoldable pub cmd_check : CmdArgs → M (Unit {0})
cmd_check args = pure tt
