-- ===== src/Bpf/Program/Keeps.antt =====
-- The calls that the methods of `Program` make: a property of the trace that those calls keep is
-- kept by the methods.
use natra.Base.{ℕ, Option, none, some, List, [], ◌∷◌, Text, is_empty, one_of}
use natra.Bpf.Types.{Direction, Hook, tcx, clsact, BpfConfig, TokenBucket, AttachOptions}
use natra.Kernel.{
  Errno, not_exist, exists, other, Call, remove_memlock, load_spec, new_collection, config_update,
  bucket_update, map_pin, attach_tcx, link_pin, link_close, link_by_index, qdisc_add_clsact,
  filter_replace, collection_close, Trace, Env,
}
use natra.Kernel.Rules.{
  Keeps, Stable, pure-Keeps, throw-Keeps, bind-Keeps, then-Keeps, if-Keeps, or_cleanup-Keeps,
  ask-Keeps, invoke-Keeps, discard-Keeps,
}
use natra.Bpf.Program.{
  Program, map_names, unless_exists, require, load, configure, pin_each, pin_maps, attach_link,
  attach_clsact, attach_by, attach, close_link, close,
}

-- The calls that the methods make, but for three that say what a theorem is about: the updates of
-- the config and bucket maps and the pin of a link.
pub record StableCalls (I : Trace → Type 0) (env : Env) : Type 0 where
  pub memlock : Stable I env remove_memlock
  pub spec : Stable I env load_spec
  pub collection : Stable I env new_collection
  pub collection_closed : Stable I env collection_close
  pub pinned_map : (p : Text) → Stable I env (map_pin p)
  pub tcx_link : (i : ℕ) (p h : Direction) → Stable I env (attach_tcx i p h)
  pub closed_link : (l : ℕ) → Stable I env (link_close l)
  pub index : (i : ℕ) → Stable I env (link_by_index i)
  pub qdisc : (i : ℕ) → Stable I env (qdisc_add_clsact i)
  pub filter : (i : ℕ) (p h : Direction) → Stable I env (filter_replace i p h)

-- The bucket slot that a burst seeds.
abbrev pub full_bucket : ℕ → TokenBucket
full_bucket burst = record { tokens = burst; last_update_ns = 0; next_release_ns = 0 }

ruleset building = (
  pure-Keeps, throw-Keeps, bind-Keeps, then-Keeps, or_cleanup-Keeps, ask-Keeps, invoke-Keeps,
  discard-Keeps,
)

module _ {I : Trace → Type 0} (env : Env) (S : StableCalls I env) where
  require-Keeps : (names found : List Text) → Keeps I (require env names found)
  unfolding require
  require-Keeps [] found = pure-Keeps tt
  require-Keeps (name ∷ names) found =
      if-Keeps (one_of name found) (require-Keeps names found)
        (then-Keeps (discard-Keeps S.collection_closed) (throw-Keeps _))

  pub load-Keeps : Keeps I (load env)
  unfolding load
  load-Keeps = search (building, require-Keeps) depth 12

  pub configure-Keeps :
      (dir : Direction) (cfg : BpfConfig)
      → Stable I env (config_update dir cfg)
      → Stable I env (bucket_update dir (full_bucket cfg.burst_bytes))
      → Keeps I (configure env dir cfg)
  unfolding configure
  configure-Keeps dir cfg h seeded = search building depth 12

  pin_each-Keeps : (dir c : Text) (names : List Text) → Keeps I (pin_each env dir c names)
  unfolding pin_each
  pin_each-Keeps dir c [] = pure-Keeps tt
  pin_each-Keeps dir c (name ∷ names) =
      then-Keeps (invoke-Keeps (S.pinned_map _)) (pin_each-Keeps dir c names)

  pub pin_maps-Keeps : (dir c : Text) → Keeps I (pin_maps env dir c)
  unfolding pin_maps
  pin_maps-Keeps dir c = if-Keeps _ (pure-Keeps tt) (pin_each-Keeps dir c map_names)

  attach_link-Keeps :
      (o : AttachOptions)
      → ((l : ℕ) → Stable I env (link_pin l o.pin_path))
      → Keeps I (attach_link env o)
  unfolding attach_link
  attach_link-Keeps o h = bind-Keeps (invoke-Keeps (S.tcx_link _ _ _)) (λ l.
      if-Keeps (is_empty o.pin_path) (pure-Keeps _) (
        then-Keeps
          (or_cleanup-Keeps (invoke-Keeps (h l.number)) (discard-Keeps (S.closed_link l.number)))
          (pure-Keeps _)))

  unless_exists-Keeps : (c : Call) (e : Option Errno) → Keeps I (unless_exists c e)
  unfolding unless_exists
  unless_exists-Keeps c none = pure-Keeps tt
  unless_exists-Keeps c (some not_exist) = throw-Keeps _
  unless_exists-Keeps c (some exists) = pure-Keeps tt
  unless_exists-Keeps c (some other) = throw-Keeps _

  attach_clsact-Keeps : (o : AttachOptions) → Keeps I (attach_clsact env o)
  unfolding attach_clsact
  attach_clsact-Keeps o =
      search (building, unless_exists-Keeps, S.index, S.qdisc, S.filter) depth 12

  attach_by-Keeps :
      (h : Hook) (p : Program) (o : AttachOptions)
      → ((l : ℕ) → Stable I env (link_pin l o.pin_path))
      → Keeps I (attach_by env h p o)
  unfolding attach_by
  attach_by-Keeps tcx p o s = bind-Keeps (attach_link-Keeps o s) (λ l. pure-Keeps _)
  attach_by-Keeps clsact p o s = then-Keeps (attach_clsact-Keeps o) (pure-Keeps p)

  pub attach-Keeps :
      (p : Program) (o : AttachOptions)
      → ((l : ℕ) → Stable I env (link_pin l o.pin_path))
      → Keeps I (attach env p o)
  unfolding attach
  attach-Keeps p o = attach_by-Keeps o.hook p o

  close_link-Keeps : (l : Option ℕ) → Keeps I (close_link env l)
  close_link-Keeps none = pure-Keeps tt
  close_link-Keeps (some l) = discard-Keeps (S.closed_link l)

  pub close-Keeps : (p : Program) → Keeps I (close env p)
  unfolding close
  close-Keeps p = then-Keeps (close_link-Keeps p.ingress_link) (
      then-Keeps (close_link-Keeps p.egress_link) (
        then-Keeps (if-Keeps p.loaded (discard-Keeps S.collection_closed) (pure-Keeps tt))
          (pure-Keeps _)))
