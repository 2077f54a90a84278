-- ===== src/VmRig/Substrate.antt =====
-- cmd/vm-rig/substrate_lima.go: the Substrate of the perf rig on lima.
use natra.Base.{
  Bool, true, false, ◌&&◌, ◌==◌, ltb, [], ◌∷◌, ◌++◌, if◌then◌else◌, Text, codes, has_prefix, length,
}
use natra.Base.Result.{Result, ok, err}
use natra.Host.{
  Host, HostEnv, HostCall, HostReply, HostTrace, HostFault, capture, lima_shell, stat, read_dir,
  read_file, write_file, home_dir, join_path, try_ask, ignore, succeeds, for_all, pure, ◌>>=◌, ◌>>◌,
}
use natra.Rig.Cluster.{RigCall, RigReply, Script, words}
use natra.Rig.Manifest.{drop}
use natra.Rig.Substrate.{Implementation, reply_of}
use natra.VmRig.{Config, cmd_down}
use natra.VmRig.Up.{cmd_up}
use natra.VmRig.Install.{cmd_install, import_image}

-- `Nodes`
unfoldable pub nodes : Config → Text × Text
nodes c = (codes "lima-" ++ c.server_name, codes "lima-" ++ c.agent_name)

-- The VM of a node.
unfoldable pub vm_of : Text → Text
vm_of node = if ltb 5 (length node) && has_prefix node (codes "lima-") then drop 5 node else node

abbrev pub is_empty_file : Result HostFault HostReply → Bool
is_empty_file (err _) = false
is_empty_file (ok info) = info.number == 0

module _ (env : HostEnv) where
  unfoldable pub heal_marker : Text → Host (Unit {0})
  heal_marker dir = do
    present ← succeeds env (stat (join_path dir (codes "data")))
    let heal = ignore env (write_file (join_path dir (codes "type")) (codes "qcow2"))
    if present then heal else pure tt

  -- One entry of the cache.
  unfoldable pub heal_entry : Text → Text × Bool → Host (Unit {0})
  heal_entry root (name, false) = pure tt
  heal_entry root (name, true) = do
    info ← try_ask env (stat (join_path (join_path root name) (codes "type")))
    let heal = heal_marker (join_path root name)
    if is_empty_file info then heal else pure tt

  unfoldable pub heal_entries : Text → Result HostFault HostReply → Host (Unit {0})
  heal_entries root (err _) = pure tt
  heal_entries root (ok listed) = for_all listed.entries (heal_entry root)

  unfoldable pub heal_in : Result HostFault HostReply → Host (Unit {0})
  heal_in (err _) = pure tt
  heal_in (ok home) = do
    let root = join_path home.output (codes "Library/Caches/lima/download/by-url-sha256")
    listed ← try_ask env (read_dir root)
    heal_entries root listed

  -- `healLimaImageCache`
  unfoldable pub heal_lima_image_cache : Host (Unit {0})
  heal_lima_image_cache = do home ← try_ask env home_dir; heal_in home

  -- `Up`
  unfoldable pub up : Bool → Config → Host (Unit {0})
  up darwin c = do heal_lima_image_cache; cmd_up env darwin c

  module _ (quote : Text → Text) (mode_ : Text) (darwin : Bool) (script_text : Script → Text)
      (c : Config) where
    -- A call that is one command, whose output is returned also where it fails.
    unfoldable pub answer_by : HostCall → HostTrace → RigReply × HostTrace
    answer_by call t =
        let r = env t call in
        (record { failed = r.failed; output = r.output }, record { call = call; reply = r } ∷ t)

    unfoldable pub outcome_of : {A : Type 0} → Host A → HostTrace → RigReply × HostTrace
    unfolding reply_of
    outcome_of m t = (reply_of (m t).0, (m t).1)

    -- The methods of `limaSubstrate`, and kubectl with its kubeconfig.
    unfoldable pub perform : RigCall → HostTrace → RigReply × HostTrace
    unfolding answer_by outcome_of
    perform RigCall.up = outcome_of (up darwin c)
    perform RigCall.down = outcome_of (cmd_down env c)
    perform RigCall.install_natra = outcome_of (cmd_install env quote mode_ c)
    perform (RigCall.import_image image dockerfile) =
        outcome_of (import_image env c image dockerfile)
    perform (RigCall.ensure_bpftool node) = outcome_of (pure tt)
    perform (RigCall.node_shell node script) =
        answer_by
          (capture (lima_shell (vm_of node) (words "sudo sh -c" ++ (script_text script ∷ []))))
    perform (RigCall.kubectl stdin args) = answer_by (HostCall.kubectl c.kubeconfig_path stdin args)
    perform (RigCall.capture_kubectl args) =
        answer_by (HostCall.capture_kubectl c.kubeconfig_path args)
    perform (RigCall.read_manifest path) = answer_by (read_file path)
    perform (RigCall.sleep millis) = answer_by (HostCall.sleep millis)

    abbrev pub lima_rig : Implementation HostTrace
    lima_rig = record { perform = perform }
