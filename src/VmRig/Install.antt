-- ===== src/VmRig/Install.antt =====
-- cmd/vm-rig/install.go: the images and the installer's DaemonSet on both VMs. `mode` is the value of
-- NATRA_ATTACH_MODE and `quote` the `%q` of fmt.
use natra.Base.{[], ◌∷◌, ◌++◌, Text, codes}
use natra.Host.{
  Host, HostEnv, no_cluster, docker_build, docker_save, lima_copy, lima_shell, run, kubectl, stat,
  read_file, remove, join_path, ask, must, ignore, succeeds, require_that, for_all, pure, finally,
  ◌>>=◌, ◌>>◌,
}
use natra.Rig.Cluster.{words}
use natra.Rig.Manifest.{replace_all, apply_natra_attach_mode_env}
use natra.VmRig.{Config}

-- The manifest with the local image and the attach mode, on both kinds of cluster.
unfoldable pub rewritten_installer : (Text → Text) → Text → Text → Text → Text
rewritten_installer quote mode_ image manifest =
    apply_natra_attach_mode_env quote mode_
      (replace_all manifest (codes "ghcr.io/terraboops/natra:latest") image)

module _ (env : HostEnv) where
  unfoldable pub build_image : Text → Text × Text → Host (Unit {0})
  build_image repo_root (tag, dockerfile) = must env (
      run (
        docker_build tag (join_path repo_root (join_path (codes "deploy/docker") dockerfile))
          repo_root))

  unfoldable pub send_tarball : Text → Text → Text → Host (Unit {0})
  send_tarball tar_file remote vm = do
    must env (run (lima_copy tar_file (vm ++ (codes ":" ++ remote))))
    must env (run (lima_shell vm (words "sudo k3s ctr -n k8s.io images import" ++ (remote ∷ []))))

  -- The export of an image to both VMs.
  unfoldable pub send_image : Config → Text → Text → Host (Unit {0})
  send_image c tar_file image = do
    must env (run (docker_save tar_file image))
    for_all (c.server_name ∷ c.agent_name ∷ []) (send_tarball tar_file tar_file)

  module _ (quote : Text → Text) (mode_ : Text) where
    -- `renderInstallerManifest`
    unfoldable pub render_installer_manifest : Config → Host Text
    render_installer_manifest c = do
      manifest ← ask env (read_file (join_path c.repo_root (codes "deploy/cni-installer.yaml")))
      pure (rewritten_installer quote mode_ c.natra_image manifest.output)

    -- What the deferred removal of the tarball covers.
    unfoldable pub install_images : Config → Text → Host (Unit {0})
    install_images c tar_file = do
      for_all (c.natra_image ∷ c.perfclient_image ∷ []) (send_image c tar_file)
      rendered ← render_installer_manifest c
      must env (kubectl c.kubeconfig_path rendered (words "apply -f -"))
      must env (
          kubectl c.kubeconfig_path []
            (words "rollout status daemonset/natra-installer -n kube-system --timeout=240s"))

    -- `cmdInstall`
    unfoldable pub cmd_install : Config → Host (Unit {0})
    cmd_install c = do
      up ← succeeds env (stat c.kubeconfig_path)
      require_that up no_cluster
      for_all
          ((c.natra_image, codes "Dockerfile.cni")
            ∷ (c.perfclient_image, codes "Dockerfile.perfclient")
            ∷ [])
          (build_image c.repo_root)
      let tar_file = codes "/tmp/natra-vm-rig.tar"
      finally (install_images c tar_file) (ignore env (remove tar_file))

  -- `importImage`
  unfoldable pub import_image : Config → Text → Text → Host (Unit {0})
  import_image c image dockerfile = do
    build_image c.repo_root (image, dockerfile)
    let tar_file = codes "/tmp/natra-vm-rig-importimage.tar"
    finally (send_image c tar_file image) (ignore env (remove tar_file))
