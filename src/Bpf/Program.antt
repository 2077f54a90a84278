-- ===== src/Bpf/Program.antt =====
-- `Program` of pkg/bpf/loader.go: `Load`, `Configure`, `PinMaps`, `Attach` and `Close`. Go visits
-- the maps and programs by name in no fixed order; here it is the order of the text.
pub mod Keeps
use natra.Base.{
  ℕ, Bool, true, false, ◌||◌, Option, none, some, List, [], ◌∷◌, ◌++◌, if◌then◌else◌, Text, codes,
  is_empty, text_eq, one_of,
}
use natra.Bpf.Types.{
  Direction, ingress, egress, Hook, tcx, clsact, BpfConfig, TokenBucket, AttachOptions,
  hook_direction,
}
use natra.Base.Result.{Result, ok, err}
use natra.Kernel.{
  Errno, not_exist, exists, other, Call, remove_memlock, load_spec, new_collection, config_update,
  bucket_update, map_pin, attach_tcx, link_pin, link_close, link_by_index, qdisc_add_clsact,
  filter_replace, collection_close, Reply, Env, Fault, failed, missing, M, pure, throw, ◌>>=◌, ◌>>◌,
  or_cleanup, ask, invoke, discard,
}

-- The collection and the handles into it are one flag; a link is the number that attaching gave.
pub record Program : Type 0 where
  pub loaded : Bool
  pub ingress_link : Option ℕ
  pub egress_link : Option ℕ

abbrev pub object_names : List Text
object_names =
    codes "natra_config_map"
    ∷ codes "natra_bucket_map"
    ∷ codes "natra_stats_map"
    ∷ codes "natra_cms_map"
    ∷ codes "natra_ingress"
    ∷ codes "natra_egress"
    ∷ []

abbrev pub map_names : List Text
map_names = codes "config" ∷ codes "bucket" ∷ codes "stats" ∷ codes "cms" ∷ []

unfoldable pub set_link : Direction → ℕ → Program → Program
set_link ingress l p = record p { ingress_link = some l }
set_link egress l p = record p { egress_link = some l }

-- An error of `QdiscAdd` is returned, unless it is EEXIST.
unfoldable pub unless_exists : Call → Option Errno → M (Unit {0})
unless_exists c none = pure tt
unless_exists c (some exists) = pure tt
unless_exists c (some e) = throw (failed c e)

-- `dir + "/" + containerID + "-" + name + "-map"`
unfoldable pub map_pin_path : Text → Text → Text → Text
map_pin_path dir container name =
    dir ++ (codes "/" ++ (container ++ (codes "-" ++ (name ++ codes "-map"))))

module _ (env : Env) where
  -- The two loops of `Load` over the maps and programs that the object must hold.
  unfoldable pub require : List Text → List Text → M (Unit {0})
  require [] found = pure tt
  require (name ∷ names) found =
      let rest = require names found in
      if one_of name found then rest else discard env collection_close >> throw (missing name)

  unfoldable pub load : M Program
  load = do
    invoke env remove_memlock
    invoke env load_spec
    coll ← invoke env new_collection
    require object_names coll.names
    pure (record { loaded = true; ingress_link = none; egress_link = none })

  unfoldable pub configure : Direction → BpfConfig → M (Unit {0})
  configure dir cfg = do
    invoke env (config_update dir cfg)
    invoke env (
        bucket_update dir
          (record { tokens = cfg.burst_bytes; last_update_ns = 0; next_release_ns = 0 }))
    pure tt

  -- The loop of `PinMaps`.
  unfoldable pub pin_each : Text → Text → List Text → M (Unit {0})
  pin_each dir container [] = pure tt
  pin_each dir container (name ∷ names) =
      invoke env (map_pin (map_pin_path dir container name)) >> pin_each dir container names

  unfoldable pub pin_maps : Text → Text → M (Unit {0})
  pin_maps dir container =
      if is_empty dir || is_empty container then pure tt else pin_each dir container map_names

  -- `attachTCX`: the link that was made, pinned if a path is given, and closed if that fails.
  unfoldable pub attach_link : AttachOptions → M ℕ
  attach_link o = do
    l ← invoke env (attach_tcx o.if_index o.direction (hook_direction o.side o.direction))
    if is_empty o.pin_path then pure l.number else (do
      or_cleanup (invoke env (link_pin l.number o.pin_path)) (discard env (link_close l.number))
      pure l.number)

  unfoldable pub attach_clsact : AttachOptions → M (Unit {0})
  attach_clsact o = do
    invoke env (link_by_index o.if_index)
    added ← ask env (qdisc_add_clsact o.if_index)
    unless_exists (qdisc_add_clsact o.if_index) added.error
    invoke env (filter_replace o.if_index o.direction (hook_direction o.side o.direction))
    pure tt

  -- The `switch` of `Attach`.
  unfoldable pub attach_by : Hook → Program → AttachOptions → M Program
  attach_by tcx p o = do l ← attach_link o; pure (set_link o.direction l p)
  attach_by clsact p o = do attach_clsact o; pure p

  unfoldable pub attach : Program → AttachOptions → M Program
  attach p o = attach_by o.hook p o

  abbrev pub close_link : Option ℕ → M (Unit {0})
  close_link none = pure tt
  close_link (some l) = discard env (link_close l)

  unfoldable pub close : Program → M Program
  close p = do
    close_link p.ingress_link
    close_link p.egress_link
    if p.loaded then discard env collection_close else pure tt
    pure (record { loaded = false; ingress_link = none; egress_link = none })
