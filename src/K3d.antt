-- ===== src/K3d.antt =====
-- cmd/perfrig/substrate_k3d.go: the Substrate of the perf rig on k3d, whose nodes are containers. `linux`
-- says whether the host runs Linux.
pub mod Bpftool
pub mod Runs
pub mod Main
use natra.Base.{Bool, true, false, List, [], ◌∷◌, ◌++◌, if◌then◌else◌, Text, codes}
use natra.Base.Result.{Result, ok, err}
use natra.Host.{
  Host, HostEnv, k3d_create, k3d_delete, k3d_kubeconfig, k3d_import, docker_build, docker_exec,
  plain, capture, kubectl, look_path, read_file, join_path, ask, must, ignore, succeeds, when, pure,
  ◌>>=◌, ◌>>◌,
}
use natra.Rig.Cluster.{words}
use natra.VmRig.Install.{rewritten_installer}

-- `k3dSubstrate`, without the path that `EnsureBpftool` keeps.
pub record K3dSubstrate : Type 0 where
  pub cluster : Text
  pub natra_image : Text
  pub perfclient_image : Text
  pub repo_root : Text

-- `KubeconfigPath`
unfoldable pub kubeconfig_path : K3dSubstrate → Text
kubeconfig_path k = codes "/tmp/natra-perfrig-" ++ (k.cluster ++ codes ".kubeconfig")

-- `Nodes`
unfoldable pub nodes : K3dSubstrate → Text × Text
nodes k = (
  codes "k3d-" ++ (k.cluster ++ codes "-server-0"),
  codes "k3d-" ++ (k.cluster ++ codes "-agent-0"),
)

-- What `NodeShell` puts before a script.
abbrev pub widened_path : Text
widened_path = codes "export PATH=/var/lib/rancher/k3s/data/current/bin:/usr/local/bin:$PATH; "

module _ (env : HostEnv) where
  -- `deleteCluster`, which is all of `Down`.
  unfoldable pub delete_cluster : K3dSubstrate → Host (Unit {0})
  delete_cluster k = do ignore env (capture (k3d_delete k.cluster)); pure tt

  unfoldable pub enable_ecn : Text → Host (Unit {0})
  enable_ecn node = ignore env (capture (docker_exec node (words "sysctl -w net.ipv4.tcp_ecn=1")))

  -- What follows where the module was not loaded through colima.
  unfoldable pub load_on_host : Bool → Host (Unit {0})
  load_on_host linux = when linux (ignore env (capture (plain (words "sudo modprobe ifb"))))

  unfoldable pub load_on_colima : Bool → Host (Unit {0})
  load_on_colima linux = do
    running ← succeeds env (capture (plain (words "colima status")))
    let on_host = load_on_host linux
    if running
        then ignore env (capture (plain (words "colima ssh -- sudo modprobe ifb")))
        else on_host

  -- `loadIFBInUnderlyingKernel`
  unfoldable pub load_ifb_in_underlying_kernel : Bool → Host (Unit {0})
  load_ifb_in_underlying_kernel linux = do
    found ← succeeds env (look_path (codes "colima"))
    if found then load_on_colima linux else load_on_host linux

  -- `Up`
  unfoldable pub up : Bool → K3dSubstrate → Host (Unit {0})
  up linux k = do
    delete_cluster k
    must env (capture (k3d_create k.cluster))
    must env (capture (k3d_kubeconfig k.cluster (kubeconfig_path k)))
    enable_ecn (nodes k).0
    enable_ecn (nodes k).1
    load_ifb_in_underlying_kernel linux

  -- `ImportImage`
  unfoldable pub import_image : K3dSubstrate → Text → Text → Host (Unit {0})
  import_image k image dockerfile = do
    must env (
        capture (
          docker_build image (join_path k.repo_root (join_path (codes "deploy/docker") dockerfile))
            k.repo_root))
    must env (capture (k3d_import image k.cluster))

  -- `InstallNatra`. `mode_` is the value of NATRA_ATTACH_MODE and `quote` the `%q` of fmt.
  unfoldable pub install_natra : (Text → Text) → Text → K3dSubstrate → Host (Unit {0})
  install_natra quote mode_ k = do
    import_image k k.natra_image (codes "Dockerfile.cni")
    manifest ← ask env (read_file (join_path k.repo_root (codes "deploy/cni-installer.yaml")))
    must env (
        kubectl (kubeconfig_path k) (rewritten_installer quote mode_ k.natra_image manifest.output)
          (words "apply -f -"))
    must env (
        capture (
          plain (
            words "kubectl --kubeconfig"
            ++ (kubeconfig_path k
                ∷ words "-n kube-system rollout status ds/natra-installer --timeout=180s"))))
