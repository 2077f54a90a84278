-- ===== src/VmRig.antt =====
-- cmd/vm-rig: config.go and down.go, with `limaYAMLPath` and `limaExists` of up.go. The rig runs two
-- lima VMs and joins them into a k3s cluster. The environment is the parameter `getenv`, and the
-- repository's root is what `runtime.Caller` leads to.
pub mod Up
pub mod Install
pub mod Asserts
pub mod Substrate
pub mod Compare
pub mod Commands
use natra.Base.{
  ℕ, Bool, true, false, List, [], ◌∷◌, ◌++◌, if◌then◌else◌, Text, codes, text_eq, is_empty, one_of,
}
use natra.Base.Result.{Result, ok, err}
use natra.Host.{
  Host, HostEnv, HostFault, unknown_cni, lima_list, lima_stop, lima_delete, run, remove, join_path,
  must, ignore, captured, for_all, pure, catch, ◌>>=◌, ◌>>◌,
}

-- `Config`
pub record Config : Type 0 where
  pub repo_root : Text
  pub rig_dir : Text
  pub server_name : Text
  pub agent_name : Text
  pub kubeconfig_path : Text
  pub natra_image : Text
  pub perfclient_image : Text
  pub vm_rig_cni : Text

-- `envOr`
unfoldable pub env_or : (Text → Text) → Text → Text → Text
env_or getenv key fallback = if is_empty (getenv key) then fallback else getenv key

-- `loadConfig`
unfoldable pub load_config : (Text → Text) → Text → Config
load_config getenv repo_root = record {
  repo_root = repo_root;
  rig_dir = join_path repo_root (codes "scripts/vm-rig");
  server_name = codes "natra-server";
  agent_name = codes "natra-agent";
  kubeconfig_path =
      env_or getenv (codes "NATRA_VM_KUBECONFIG") (codes "/tmp/natra-vm-rig.kubeconfig");
  natra_image = env_or getenv (codes "NATRA_VM_IMAGE") (codes "ghcr.io/terraboops/natra:vm-rig");
  perfclient_image =
      env_or getenv (codes "NATRA_VM_PERFCLIENT_IMAGE")
        (codes "ghcr.io/terraboops/natra-perfclient:vm-rig");
  vm_rig_cni = env_or getenv (codes "VMRIG_CNI") (codes "flannel");
}

-- `limaYAMLPath`
unfoldable pub lima_yaml_path : Config → Text → Result HostFault Text
lima_yaml_path c role =
    if one_of c.vm_rig_cni (codes "flannel" ∷ [] ∷ [])
    then ok (join_path c.rig_dir (codes "lima-" ++ (role ++ codes "-flannel.yaml")))
    else if text_eq c.vm_rig_cni (codes "cilium")
    then ok (join_path c.rig_dir (codes "lima-" ++ (role ++ codes "-cilium.yaml")))
    else if text_eq c.vm_rig_cni (codes "cilium-kpr")
    then (if text_eq role (codes "agent")
        then ok (join_path c.rig_dir (codes "lima-agent-cilium.yaml"))
        else ok (join_path c.rig_dir (codes "lima-" ++ (role ++ codes "-cilium-kpr.yaml"))))
    else err (unknown_cni c.vm_rig_cni)

module _ (env : HostEnv) where
  unfoldable pub is_listed : Text → Result HostFault Text → Bool
  is_listed name (err _) = false
  is_listed name (ok out) = text_eq out name

  -- `limaExists`
  unfoldable pub lima_exists : Text → Host Bool
  unfolding is_listed
  lima_exists name = catch (captured env (lima_list name)) >>= λ r. pure (is_listed name r)

  unfoldable pub delete_vm : Text → Host (Unit {0})
  delete_vm vm = do ignore env (run (lima_stop vm)); must env (run (lima_delete vm))

  -- One VM of the loop of `cmdDown`.
  unfoldable pub down_vm : Text → Host (Unit {0})
  down_vm vm = do found ← lima_exists vm; if found then delete_vm vm else pure tt

  -- `cmdDown`
  unfoldable pub cmd_down : Config → Host (Unit {0})
  cmd_down c = do
    for_all (c.agent_name ∷ c.server_name ∷ []) down_vm
    ignore env (remove c.kubeconfig_path)
