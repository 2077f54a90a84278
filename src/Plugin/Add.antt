-- ===== src/Plugin/Add.antt =====
-- What an ADD returns: it is fail-open once its configuration is read, and touches nothing before.
use natra.Base.{◌≡◌, ◌⊎◌, inl, inr, refl, Option, none, some, List, Option-cases, Text}
use natra.Base.Result.{Result, ok, err}
use natra.Base.Float64.{Float64}
use natra.PodConfig.{Config, RawConfig}
use natra.NetConf.{EdtMode, NetConf, parse_edt_mode}
use natra.Kernel.{parse_prev_result, convert_result, print_result, Trace, Env, Fault}
use natra.Attach.{CmdArgs, AttachAttempt, resolve_attach_strategy}
use natra.Plugin.{AddError, bad_result, edt_setting, finish_add, limit, add_with, cmd_add}

-- The CNI library parses, converts and prints the result of the plugins before.
pub record ResultWorks (env : Env) : Type 0 where
  pub parses : (t : Trace) → (env t parse_prev_result).error ≡ none
  pub converts : (t : Trace) → (env t convert_result).error ≡ none
  pub prints : (t : Trace) → (env t print_result).error ≡ none

module _ (env : Env) where
  finish_add-IsResult :
      (r : Result Fault (Unit {0}) × Trace) (x : AddError)
      → (finish_add env r).0 ≡ err x
      → (f : Fault) × (x ≡ bad_result f)
  unfolding finish_add
  finish_add-IsResult (ok _, t) x h = cc
  finish_add-IsResult (err e, t) x h = (e, cc)

  limit-IsResult :
      (args : CmdArgs) (i e : Option Config) (strategy : List AttachAttempt) (edt : EdtMode)
      (t : Trace) (x : AddError)
      → (limit env args i e strategy edt t).0 ≡ err x
      → (f : Fault) × (x ≡ bad_result f)
  unfolding limit
  limit-IsResult args none none strategy edt t x h = finish_add-IsResult _ x h
  limit-IsResult args (some i) none strategy edt t x h = finish_add-IsResult _ x h
  limit-IsResult args none (some e) strategy edt t x h = finish_add-IsResult _ x h
  limit-IsResult args (some i) (some e) strategy edt t x h = finish_add-IsResult _ x h

  module _ (fl : Float64) (unmarshal : Text → Option RawConfig)
      (parse_config : Text → Option (NetConf fl)) where
    add_with-refused :
        (args : CmdArgs) (conf : NetConf fl) (t : Trace) (x : AddError)
        → (add_with env fl unmarshal args conf t).0 ≡ err x
        → ((f : Fault) × (x ≡ bad_result f)) ⊎ ((add_with env fl unmarshal args conf t).1 ≡ t)
    unfolding add_with
    add_with-refused args conf t x =
        elim (Option-cases (parse_edt_mode (edt_setting conf.defaults))) [
          | inl e ↦ rw (e, add_with) (λ h. inr refl)
          | inr (edt, e) ↦
              rw (e, add_with)
                (elim (Option-cases (resolve_attach_strategy conf.attach_mode edt)) [
                  | inl d ↦ rw (d, add_with) (λ h. inr refl)
                  | inr (strategy, d) ↦
                      rw (d, add_with) (λ h. inl (limit-IsResult args _ _ strategy edt t x h))
                ])
        ]

    -- The other errors come before anything is touched: if an ADD fails, either the CNI library
    -- refused the previous result, or no call of the system was made.
    pub cmd_add-refused :
        (args : CmdArgs) (t : Trace) (x : AddError)
        → (cmd_add env fl unmarshal parse_config args t).0 ≡ err x
        → ((f : Fault) × (x ≡ bad_result f))
          ⊎ ((cmd_add env fl unmarshal parse_config args t).1 ≡ t)
    unfolding cmd_add
    cmd_add-refused args t x = elim (Option-cases (parse_config args.stdin_data)) [
      | inl e ↦ rw (e, cmd_add) (λ h. inr refl)
      | inr (conf, e) ↦ rw (e, cmd_add) (add_with-refused args conf t x)
    ]
