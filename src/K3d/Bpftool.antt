-- ===== src/K3d/Bpftool.antt =====
-- `EnsureBpftool`, `cacheBpftoolBinary` and `copyFile` of cmd/perfrig/substrate_k3d.go, on the state of the
-- substrate: the trace and the path of the cached binary. `arch` is GOARCH.
pub mod Verified
pub mod Temps
use natra.Base.{
  Bool, true, false, ◌==◌, List, [], ◌∷◌, ◌++◌, if◌then◌else◌, Text, codes, is_empty, one_of,
}
use natra.Base.Result.{Result, ok, err}
use natra.Host.{
  Host, HostEnv, HostTrace, HostFault, unsupported_arch, http_status, docker_exec, docker_copy,
  plain, HostCall, Command, capture, stat, remove, remove_all, mkdir_all, chmod, open_file,
  create_file, close_file, rename, copy_data, create_temp, make_temp_dir, http_get, Computation,
  join_path, ask, must, ignore, succeeds, require_that, pure, throw, finally, ◌>>=◌, ◌>>◌,
}
use natra.Rig.Cluster.{words}
use natra.K3d.{K3dSubstrate}

pub record K3dState : Type 0 where
  pub trace : HostTrace
  pub bpftool_host : Text

abbrev pub OnK3d : Type 0 → Type 0
OnK3d A = Computation K3dState HostFault A

-- A computation that leaves `bpftoolHost` alone.
unfoldable pub on_host : {A : Type 0} → Host A → OnK3d A
on_host m s = ((m s.trace).0, record s { trace = (m s.trace).1 })

abbrev pub bpftool_version : Text
bpftool_version = codes "v7.7.0"

abbrev pub bpftool_url_base : Text
bpftool_url_base = codes "https://github.com/libbpf/bpftool/releases/download"

abbrev pub supported_arch : Text → Bool
supported_arch arch = one_of arch (words "arm64 amd64")

unfoldable pub cache_path : K3dSubstrate → Text → Text
cache_path k arch =
    join_path (join_path k.repo_root (codes "bin"))
      (codes "bpftool-" ++ (bpftool_version ++ (codes "-" ++ arch)))

unfoldable pub release_url : Text → Text
release_url arch =
    join_path (join_path bpftool_url_base bpftool_version)
      (codes "bpftool-" ++ (bpftool_version ++ (codes "-" ++ (arch ++ codes ".tar.gz"))))

-- The check after an installation.
abbrev pub verify_command : Text → HostCall
verify_command node = capture (docker_exec node (words "/usr/local/bin/bpftool version"))

module _ (env : HostEnv) where
  -- `copyFile`
  unfoldable pub copy_file : Text → Text → Host (Unit {0})
  copy_file src dst = do
    must env (open_file src)
    finally
        (must env (create_file dst)
          >> finally (must env (copy_data src dst)) (ignore env (close_file dst)))
        (ignore env (close_file src))

  -- The rename, with the copy where it fails.
  unfoldable pub move_file : Text → Text → Host (Unit {0})
  move_file src dst = do
    moved ← succeeds env (rename src dst)
    let copied = copy_file src dst
    if moved then pure tt else copied

  -- What the removal of the extraction directory covers.
  unfoldable pub extract : Text → Text → Text → Host (Unit {0})
  extract tarball dir cache = do
    must env (capture (plain (words "tar -xzf" ++ (tarball ∷ codes "-C" ∷ dir ∷ []))))
    must env (stat (join_path dir (codes "bpftool")))
    move_file (join_path dir (codes "bpftool")) cache
    must env (chmod cache)

  -- What the removal of the tarball covers.
  unfoldable pub unpack : Text → Text → Text → Host (Unit {0})
  unpack url tarball cache = do
    must env (copy_data url tarball)
    ignore env (close_file tarball)
    dir ← ask env (make_temp_dir (codes "bpftool-extract-"))
    finally (extract tarball dir.output cache) (ignore env (remove_all dir.output))

  unfoldable pub download : K3dSubstrate → Text → Text → Host (Unit {0})
  download k url cache = do
    must env (mkdir_all (join_path k.repo_root (codes "bin")))
    response ← ask env (http_get url)
    require_that (response.number == 200) (http_status response.number)
    tmp ← ask env (create_temp (codes "bpftool-*.tar.gz"))
    finally (unpack url tmp.output cache) (ignore env (remove tmp.output))

  -- What follows where no binary is kept that exists.
  unfoldable pub find_binary : K3dSubstrate → Text → Host Text
  find_binary k arch = do
    require_that (supported_arch arch) (unsupported_arch arch)
    found ← succeeds env (stat (cache_path k arch))
    let fetched = download k (release_url arch) (cache_path k arch) >> pure (cache_path k arch)
    if found then pure (cache_path k arch) else fetched

  unfoldable pub keep_binary : K3dSubstrate → Text → Text → Host Text
  keep_binary k arch kept = do
    found ← succeeds env (stat kept)
    let other = find_binary k arch
    if found then pure kept else other

  -- The path that is kept after `cacheBpftoolBinary`, from the one before.
  unfoldable pub cached_binary : K3dSubstrate → Text → Text → Host Text
  cached_binary k arch kept = if is_empty kept then find_binary k arch else keep_binary k arch kept

  unfoldable pub kept_after : Result HostFault Text → Text → Text
  kept_after (ok path) kept = path
  kept_after (err e) kept = kept

  -- `cacheBpftoolBinary`: an error leaves the path as it was.
  unfoldable pub cache_bpftool_binary : K3dSubstrate → Text → OnK3d Text
  unfolding kept_after
  cache_bpftool_binary k arch s =
      let r = cached_binary k arch s.bpftool_host s.trace in
      (r.0, record { trace = r.1; bpftool_host = kept_after r.0 s.bpftool_host })

  unfoldable pub install_bpftool : Text → Text → Host (Unit {0})
  install_bpftool node binary = do
    ignore env (capture (docker_exec node (words "mkdir -p /usr/local/bin")))
    must env (capture (docker_copy binary (node ++ codes ":/usr/local/bin/bpftool")))
    ignore env (capture (docker_exec node (words "chmod 0755 /usr/local/bin/bpftool")))
    must env (verify_command node)

  -- `EnsureBpftool`
  unfoldable pub ensure_bpftool : K3dSubstrate → Text → Text → OnK3d (Unit {0})
  ensure_bpftool k arch node = do
    binary ← cache_bpftool_binary k arch
    if is_empty binary then pure tt else on_host (install_bpftool node binary)
