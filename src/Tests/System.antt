-- ===== src/Tests/System.antt =====
-- The handlers on a system that answers every call.
use natra.Base.{
  ℕ, ◌≡◌, ◌≢◌, ◌⊎◌, inl, inr, refl, arith, Option, none, some, List, [], ◌∷◌, ◌++◌, Text, codes,
  has_prefix, text_eq, ap, true, false,
}
use natra.Base.Result.{ok, err}
use natra.Base.Float64.{dyadic}
use natra.Bpf.Types.{pod_side, egress}
use natra.NetConf.{NetConf, edt_auto, edt_on, parse_edt_mode}
use natra.Kernel.{Call, remove, Trace, Env, Fault}
use natra.Netns.Keeps.{NetnsWorks, thread_ns}
use natra.Attach.{
  AttachAttempt, auto_strategy, resolve_attach_strategy, attach_bpf, pin_path_for, link_pin_name,
}
use natra.Attach.Writes.{AllAsked, attach_bpf-AllAsked}
use natra.Attach.Namespace.{attach_bpf-home}
use natra.Plugin.{edt_setting, bad_attach_mode, bad_result, cmd_add, cmd_del}
use natra.Plugin.Add.{cmd_add-refused}
use natra.Plugin.Del.{Called, cmd_del-spares, cmd_del-link_pin, cmd_del-takes_longer}
use natra.Tests.{quiet, pod, ten_megabits, net_conf, parse_to, no_json}

quiet-NetnsWorks : NetnsWorks quiet 1
quiet-NetnsWorks = record { get_names = λ t. refl; set_home = λ t. refl }

attach_quietly :
    (attach_bpf quiet pod (some ten_megabits) none (auto_strategy edt_auto) edt_auto []).0 ≡ ok tt
unfolding attach_bpf natra.Kernel.invoke natra.Attach.preflight natra.Attach.try_all
    natra.Attach.try_attach_one natra.Kernel.◌>>=◌ natra.Attach.resolve_if_index
    natra.Netns.enter_netns natra.Kernel.or_cleanup natra.Kernel.finally natra.Attach.attach_on
    natra.Attach.probe_fq natra.Kernel.catch natra.Attach.settle_fq natra.Netns.install_fq
    natra.Kernel.ask natra.Netns.is_success natra.Bpf.Program.load natra.Attach.attach_steps
    natra.Attach.bpf_config natra.Attach.edt_for natra.Attach.leave natra.Attach.options
    pin_path_for natra.Attach.run_step natra.Attach.run_steps natra.Base.one_of
    natra.Bpf.Program.attach natra.Bpf.Program.attach_by natra.Bpf.Program.attach_link
    natra.Bpf.Program.configure natra.Bpf.Program.pin_each natra.Bpf.Program.pin_maps
    natra.Bpf.Program.require natra.Bpf.Program.set_link natra.Kernel.bind_result
    natra.Kernel.discard natra.Kernel.pure natra.Kernel.settle natra.Kernel.throw natra.Kernel.◌>>◌
    natra.Netns.restore
attach_quietly = refl

attach_bpf-AllAsked_example :
    AllAsked
      (some ten_megabits)
      (some ten_megabits)
      edt_on
      (attach_bpf quiet pod
        (some ten_megabits)
        (some ten_megabits)
        (auto_strategy edt_on)
        edt_on
        []).1
attach_bpf-AllAsked_example =
    attach_bpf-AllAsked (some ten_megabits) (some ten_megabits) edt_on quiet pod
      (auto_strategy edt_on) [] tt

attach_bpf-home_example :
    thread_ns 1
      (attach_bpf quiet pod (some ten_megabits) none (auto_strategy edt_auto) edt_auto []).1
    ≡ 1
attach_bpf-home_example =
    attach_bpf-home quiet 1 quiet-NetnsWorks pod (some ten_megabits) none (auto_strategy edt_auto)
      edt_auto [] refl

abbrev bad_mode : NetConf dyadic
bad_mode = record net_conf { attach_mode = codes "xdp" }

refused : (cmd_add quiet dyadic no_json (parse_to bad_mode) pod []).0 ≡ err bad_attach_mode
unfolding cmd_add natra.Plugin.add_with parse_edt_mode natra.Base.one_of edt_setting
    resolve_attach_strategy
refused = refl

cmd_add-refused_example :
    ((f : Fault) × (bad_attach_mode ≡ bad_result f))
    ⊎ ((cmd_add quiet dyadic no_json (parse_to bad_mode) pod []).1 ≡ [])
cmd_add-refused_example =
    cmd_add-refused quiet dyadic no_json (parse_to bad_mode) pod [] bad_attach_mode refused

a1-not_c3 : codes "a1" ≢ codes "c3"
unfolding text_eq
a1-not_c3 e = let h : true ≡ false = ap (text_eq (codes "a1")) e in absurd cc

cmd_del-spares_example :
    ¬ Called (remove (pin_path_for (codes "c3") pod_side egress)) (cmd_del quiet pod []).1
cmd_del-spares_example =
    cmd_del-spares quiet pod (codes "c3") pod_side egress [] (refl, (refl, tt)) (refl, (refl, tt))
      a1-not_c3 (λ m. m)

cmd_del-link_pin_example :
    Called (remove (pin_path_for (codes "a1") pod_side egress)) (cmd_del quiet pod []).1
cmd_del-link_pin_example = cmd_del-link_pin quiet pod pod_side egress [] refl (inl refl)

cmd_del-takes_longer_example :
    Called (remove (pin_path_for (codes "a1-b2") pod_side egress)) (cmd_del quiet pod []).1
cmd_del-takes_longer_example =
    cmd_del-takes_longer quiet pod (codes "b2") pod_side egress [] refl (inr (inl refl))
