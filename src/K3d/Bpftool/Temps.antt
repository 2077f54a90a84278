-- ===== src/K3d/Bpftool/Temps.antt =====
-- The temporary files of `EnsureBpftool`.
use natra.Base.{◌≡◌, refl, List, ◌∷◌, Text, is_empty}
use natra.Base.State.Rules.{
  Keeps, pure-Keeps, bind-Keeps, then-Keeps, if-Keeps, finally-Keeps, finally-Moves,
}
use natra.Host.{HostEnv}
use natra.Host.Rules.{ask-Keeps, must-Keeps, ignore-Keeps, succeeds-Keeps, require_that-Keeps}
use natra.Host.Temps.{temps, Holds, other-Holds, removal-Moves, bracket-Keeps, Keeps-Moves}
use natra.K3d.{K3dSubstrate}
use natra.K3d.Bpftool.{
  K3dState, on_host, copy_file, move_file, extract, unpack, download, find_binary, keep_binary,
  cached_binary, cache_bpftool_binary, install_bpftool, ensure_bpftool,
}

module _ (env : HostEnv) where
  copy_file-Holds :
      (paths : List Text) (src dst : Text) → Keeps (Holds paths) (copy_file env src dst)
  unfolding copy_file
  copy_file-Holds paths src dst = then-Keeps (must-Keeps (other-Holds paths env _ refl refl)) (
      finally-Keeps
        (then-Keeps (must-Keeps (other-Holds paths env _ refl refl)) (
          finally-Keeps (must-Keeps (other-Holds paths env _ refl refl))
            (ignore-Keeps (other-Holds paths env _ refl refl))))
        (ignore-Keeps (other-Holds paths env _ refl refl)))

  extract-Holds :
      (paths : List Text) (tarball dir cache : Text)
      → Keeps (Holds paths) (extract env tarball dir cache)
  unfolding extract move_file
  extract-Holds paths tarball dir cache =
      then-Keeps (must-Keeps (other-Holds paths env _ refl refl)) (
        then-Keeps (must-Keeps (other-Holds paths env _ refl refl)) (
          then-Keeps
            (bind-Keeps (succeeds-Keeps (other-Holds paths env _ refl refl))
              (λ moved. if-Keeps moved (pure-Keeps tt) (copy_file-Holds paths _ _)))
            (must-Keeps (other-Holds paths env _ refl refl))))

  unpack-Holds :
      (paths : List Text) (url tarball cache : Text)
      → Keeps (Holds paths) (unpack env url tarball cache)
  unfolding unpack
  unpack-Holds paths url tarball cache =
      then-Keeps (must-Keeps (other-Holds paths env _ refl refl)) (
        then-Keeps (ignore-Keeps (other-Holds paths env _ refl refl)) (
          bracket-Keeps paths env _ refl refl (λ dir.
            finally-Moves
              (Keeps-Moves (extract-Holds (dir.output ∷ paths) tarball dir.output cache))
              (removal-Moves dir.output paths env _ refl refl))))

  download-Holds :
      (paths : List Text) (k : K3dSubstrate) (url cache : Text)
      → Keeps (Holds paths) (download env k url cache)
  unfolding download
  download-Holds paths k url cache = then-Keeps (must-Keeps (other-Holds paths env _ refl refl)) (
      bind-Keeps (ask-Keeps (other-Holds paths env _ refl refl)) (λ response.
        then-Keeps (require_that-Keeps _ _) (
          bracket-Keeps paths env _ refl refl (λ tmp.
            finally-Moves (Keeps-Moves (unpack-Holds (tmp.output ∷ paths) url tmp.output cache))
              (removal-Moves tmp.output paths env _ refl refl)))))

  module _ (paths : List Text) (k : K3dSubstrate) (arch : Text) where
    find_binary-Holds : Keeps (Holds paths) (find_binary env k arch)
    unfolding find_binary
    find_binary-Holds = then-Keeps (require_that-Keeps _ _) (
        bind-Keeps (succeeds-Keeps (other-Holds paths env _ refl refl)) (λ found.
          if-Keeps found (pure-Keeps _) (then-Keeps (download-Holds paths k _ _) (pure-Keeps _))))

    cached_binary-Holds : (kept : Text) → Keeps (Holds paths) (cached_binary env k arch kept)
    unfolding cached_binary keep_binary
    cached_binary-Holds kept = if-Keeps (is_empty kept) find_binary-Holds (
        bind-Keeps (succeeds-Keeps (other-Holds paths env _ refl refl))
          (λ found. if-Keeps found (pure-Keeps kept) find_binary-Holds))

    -- The same of the substrate's state.
    abbrev StateHolds : K3dState → Type 0
    StateHolds s = Holds paths s.trace

    cache_bpftool_binary-Holds : Keeps StateHolds (cache_bpftool_binary env k arch)
    unfolding cache_bpftool_binary
    cache_bpftool_binary-Holds = record {
      after = λ s h. (cached_binary-Holds s.bpftool_host).after s.trace h;
    }

    install_bpftool-Holds :
        (node binary : Text) → Keeps (Holds paths) (install_bpftool env node binary)
    unfolding install_bpftool
    install_bpftool-Holds node binary =
        then-Keeps (ignore-Keeps (other-Holds paths env _ refl refl)) (
          then-Keeps (must-Keeps (other-Holds paths env _ refl refl)) (
            then-Keeps (ignore-Keeps (other-Holds paths env _ refl refl))
              (must-Keeps (other-Holds paths env _ refl refl))))

    installed-Holds :
        (node binary : Text) → Keeps StateHolds (on_host (install_bpftool env node binary))
    unfolding on_host
    installed-Holds node binary = record {
      after = λ s h. (install_bpftool-Holds node binary).after s.trace h;
    }

    ensure_bpftool-Keeps : (node : Text) → Keeps StateHolds (ensure_bpftool env k arch node)
    unfolding ensure_bpftool
    ensure_bpftool-Keeps node =
        bind-Keeps cache_bpftool_binary-Holds
          (λ binary. if-Keeps (is_empty binary) (pure-Keeps tt) (installed-Holds node binary))

-- `EnsureBpftool` leaves no temporary file or directory: wherever it fails, and whatever its calls return, each temporary file and
-- directory that it made was asked to be removed, and none that was there before.
pub ensure_bpftool-Holds :
    (env : HostEnv) (k : K3dSubstrate) (arch node : Text) (s : K3dState)
    → temps (ensure_bpftool env k arch node s).1.trace ≡ temps s.trace
ensure_bpftool-Holds env k arch node s =
    (ensure_bpftool-Keeps env (temps s.trace) k arch node).after s refl
