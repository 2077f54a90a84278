-- ===== src/Attach/Writes.antt =====
-- What the attempts write into the config and bucket maps.
use natra.Base.{ℕ, ◌≡◌, refl, Option, none, some, List, All, to_bits}
use natra.PodConfig.{Config}
use natra.NetConf.{EdtMode}
use natra.Bpf.Types.{ingress, egress, BpfConfig, TokenBucket}
use natra.Kernel.{Call, config_update, bucket_update, Event, Trace, Env}
use natra.Netns.Keeps.{StableMoves}
use natra.Attach.{CmdArgs, AttachAttempt, attach_steps, edt_for, bpf_config, attach_bpf}
use natra.Attach.Pacing.{PacingOf}
use natra.Attach.Keeps.{StableAttempt, StableStep, try_attach_one-Keeps, attach_bpf-Keeps}

-- The slot that a configuration and a pacing value make.
abbrev pub slot : Config → ℕ → BpfConfig
slot c edt = record {
  rate_bps = to_bits c.rate;
  burst_bytes = to_bits c.burst;
  hh_threshold = to_bits c.hh_threshold;
  edt_pacing = edt;
}

-- The bucket slot that a configuration makes: its burst in tokens, and no packet seen.
abbrev pub seed : Config → TokenBucket
seed c = record { tokens = to_bits c.burst; last_update_ns = 0; next_release_ns = 0 }

module _ (ingress_cfg egress_cfg : Option Config) (mode : EdtMode) where
  -- A write of the config or the bucket map that was asked for: the direction has a limit, the slot
  -- holds its numbers, the bucket its burst, the ingress slot never paces, and the egress slot paces
  -- as the mode says.
  abbrev pub Asked : Call → Type 0
  Asked (config_update ingress cfg) = (c : Config) × (ingress_cfg ≡ some c) × (cfg ≡ slot c 0)
  Asked (config_update egress cfg) =
      (c : Config) × (edt : ℕ) × (egress_cfg ≡ some c) × (cfg ≡ slot c edt) × PacingOf mode edt
  Asked (bucket_update ingress b) = (c : Config) × (ingress_cfg ≡ some c) × (b ≡ seed c)
  Asked (bucket_update egress b) = (c : Config) × (egress_cfg ≡ some c) × (b ≡ seed c)
  Asked _ = Unit

  abbrev pub AllAsked : Trace → Type 0
  AllAsked = All (λ (e : Event). Asked e.call)

  asked_attempt : (env : Env) → StableAttempt AllAsked env
  asked_attempt env = record {
    program = record {
      memlock = record { extend = λ t h. (tt, h) };
      spec = record { extend = λ t h. (tt, h) };
      collection = record { extend = λ t h. (tt, h) };
      collection_closed = record { extend = λ t h. (tt, h) };
      pinned_map = λ p. record { extend = λ t h. (tt, h) };
      tcx_link = λ i p q. record { extend = λ t h. (tt, h) };
      closed_link = λ l. record { extend = λ t h. (tt, h) };
      index = λ i. record { extend = λ t h. (tt, h) };
      qdisc = λ i. record { extend = λ t h. (tt, h) };
      filter = λ i p q. record { extend = λ t h. (tt, h) };
    };
    removed = λ p. record { extend = λ t h. (tt, h) };
    listed = λ i. record { extend = λ t h. (tt, h) };
    fq = λ i. record { extend = λ t h. (tt, h) };
    pinned = λ l p. record { extend = λ t h. (tt, h) };
  }

  asked_moves : (env : Env) → StableMoves AllAsked env
  asked_moves env = record {
    get = record { extend = λ t h. (tt, h) };
    open_path = λ p. record { extend = λ t h. (tt, h) };
    move = λ n. record { extend = λ t h. (tt, h) };
    close_handle = λ n. record { extend = λ t h. (tt, h) };
    by_name = λ s. record { extend = λ t h. (tt, h) };
    peer = λ s. record { extend = λ t h. (tt, h) };
  }

  ingress-asked :
      (env : Env) (c : Config) (edt : ℕ)
      → ingress_cfg ≡ some c
      → StableStep env (asked_attempt env) edt (record { dir = ingress; cfg = c })
  unfolding bpf_config edt_for
  ingress-asked env c edt e =
      (record { extend = λ t h. ((c, e, refl), h) }, record { extend = λ t h. ((c, e, refl), h) })

  egress-asked :
      (env : Env) (c : Config) (edt : ℕ)
      → egress_cfg ≡ some c
      → PacingOf mode edt
      → StableStep env (asked_attempt env) edt (record { dir = egress; cfg = c })
  unfolding bpf_config edt_for
  egress-asked env c edt e paced = (
    record { extend = λ t h. ((c, edt, e, refl, paced), h) },
    record { extend = λ t h. ((c, e, refl), h) },
  )

  steps-asked :
      (env : Env) (i e : Option Config) (edt : ℕ)
      → PacingOf mode edt
      → ingress_cfg ≡ i
      → egress_cfg ≡ e
      → All (StableStep env (asked_attempt env) edt) (attach_steps i e)
  unfolding attach_steps
  steps-asked env none none edt a p q = tt
  steps-asked env (some i) none edt a p q = (ingress-asked env i edt p, tt)
  steps-asked env none (some e) edt a p q = (egress-asked env e edt q a, tt)
  steps-asked env (some i) (some e) edt a p q =
      (ingress-asked env i edt p, (egress-asked env e edt q a, tt))

  -- Whatever the system answers, and however many attempts are made, `attachBPF` writes into the
  -- config and bucket maps only what was resolved, if that holds of the calls before it: no slot of
  -- a direction without a limit is ever written, a config slot holds exactly the numbers of its
  -- direction, a bucket slot its burst in tokens and no times, the ingress config slot never paces,
  -- and the egress one paces with the mode on, does not with the mode off, and may or may not with
  -- the mode auto.
  pub attach_bpf-AllAsked :
      (env : Env) (args : CmdArgs) (strategy : List AttachAttempt) (t : Trace)
      → AllAsked t
      → AllAsked (attach_bpf env args ingress_cfg egress_cfg strategy mode t).1
  attach_bpf-AllAsked env args strategy t h =
      attach_bpf-Keeps env args ingress_cfg egress_cfg mode
        (λ a f.
          try_attach_one-Keeps env (asked_attempt env) (asked_moves env)
            (λ s. record { extend = λ t h. (tt, h) }) args ingress_cfg egress_cfg a mode f
            (λ n p. steps-asked env ingress_cfg egress_cfg n p refl refl))
        (record { extend = λ t h. (tt, h) }) strategy t h
