-- ===== src/K3d/Bpftool/Verified.antt =====
-- What `EnsureBpftool` promises of a node.
use natra.Base.{◌≡◌, refl, false, [], ◌∷◌, Text, is_empty}
use natra.Base.Result.{ok}
use natra.Base.State.Returns.{Returns, pure-Returns, skip-Returns, then-Returns, if-Returns}
use natra.Base.State.Ends.{Ends, then-Ends, bind_where-Ends, if-Ends}
use natra.Host.{Host, HostEnv, HostTrace, join_path}
use natra.Host.Last.{LastWorked, must-Ends}
use natra.K3d.{K3dSubstrate}
use natra.K3d.Bpftool.{
  K3dState, on_host, cache_path, verify_command, find_binary, keep_binary, cached_binary,
  cache_bpftool_binary, install_bpftool, ensure_bpftool,
}

-- A path that is kept is not the empty one, which stands for no binary.
abbrev IsKept : Text → Type 0
IsKept path = is_empty path ≡ false

join_path-IsKept : (dir name : Text) → IsKept (join_path dir name)
join_path-IsKept [] name = refl
join_path-IsKept (c ∷ dir) name = refl

module _ (env : HostEnv) (k : K3dSubstrate) (arch : Text) where
  cache_path-IsKept : IsKept (cache_path k arch)
  unfolding cache_path
  cache_path-IsKept = join_path-IsKept _ _

  find_binary-IsKept : Returns IsKept (find_binary env k arch)
  unfolding find_binary
  find_binary-IsKept = then-Returns _ (
      skip-Returns _ (λ found.
        if-Returns found (λ _. pure-Returns _ cache_path-IsKept)
          (λ _. then-Returns _ (pure-Returns _ cache_path-IsKept))))

  cached_binary-IsKept : (kept : Text) → Returns IsKept (cached_binary env k arch kept)
  unfolding cached_binary keep_binary
  cached_binary-IsKept kept =
      if-Returns (is_empty kept) (λ _. find_binary-IsKept)
        (λ some_path.
          skip-Returns _ (λ found.
            if-Returns found (λ _. pure-Returns kept some_path) (λ _. find_binary-IsKept)))

  cache_bpftool_binary-IsKept : Returns IsKept (cache_bpftool_binary env k arch)
  unfolding cache_bpftool_binary
  cache_bpftool_binary-IsKept = record {
    holds = λ s a h. (cached_binary-IsKept s.bpftool_host).holds s.trace a h;
  }

on_host-Ends :
    {Q : HostTrace → Type 0} {A : Type 0} {m : Host A}
    → Ends Q m
    → Ends (λ (s : K3dState). Q s.trace) (on_host m)
unfolding on_host
on_host-Ends h = record { reached = λ s a e. h.reached s.trace a e }

install_bpftool-Ends :
    (env : HostEnv) (node binary : Text)
    → Ends (LastWorked (verify_command node)) (install_bpftool env node binary)
unfolding install_bpftool
install_bpftool-Ends env node binary =
    then-Ends _ (then-Ends _ (then-Ends _ (must-Ends env (verify_command node))))

ensure_bpftool-Ends :
    (env : HostEnv) (k : K3dSubstrate) (arch node : Text)
    → Ends
        (λ (s : K3dState). LastWorked (verify_command node) s.trace)
        (ensure_bpftool env k arch node)
unfolding ensure_bpftool
ensure_bpftool-Ends env k arch node =
    bind_where-Ends (cache_bpftool_binary-IsKept env k arch) (λ binary kept.
      if-Ends (is_empty binary) (λ none_kept. absurd cc)
        (λ _. on_host-Ends (install_bpftool-Ends env node binary)))

-- A node is never skipped: where `EnsureBpftool` ends well, whatever was cached before, its last
-- command ran bpftool on that node, and the command worked.
pub ensure_bpftool-verified :
    (env : HostEnv) (k : K3dSubstrate) (arch node : Text) (s : K3dState)
    → (ensure_bpftool env k arch node s).0 ≡ ok tt
    → LastWorked (verify_command node) (ensure_bpftool env k arch node s).1.trace
ensure_bpftool-verified env k arch node s h = (ensure_bpftool-Ends env k arch node).reached s tt h
