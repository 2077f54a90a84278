-- ===== src/K3d/Main.antt =====
-- cmd/perfrig/main.go: the perf rig on k3d. The flags are read by the flag package; `source_dir` is the
-- directory that `runtime.Caller` leads to.
use natra.Base.{
  ℕ, zero, suc, Bool, Option, none, some, [], ◌∷◌, reverse, ◌==◌, if◌then◌else◌, Text, codes,
  text_eq, is_empty, pos,
}
use natra.Base.Result.{Result, ok, err}
use natra.Host.{
  Host, HostEnv, HostReply, HostFault, stat, work_dir, join_path, try_ask, succeeds, pure, catch,
  ◌>>=◌,
}
use natra.Rig.{Plan, Profile, apply, default_spec, profile_full, profile_ci}
use natra.Rig.Cluster.{Script}
use natra.Rig.Executor.{Readings, Executor}
use natra.Rig.Report.{Figures}
use natra.Rig.Report.Measure.{measure_and_report}
use natra.K3d.{K3dSubstrate, nodes}
use natra.K3d.Runs.{k3d_rig}

-- The values of the flags.
pub record Flags : Type 0 where
  pub substrate : Text
  pub profile : Text
  pub cluster : Text
  pub image : Text
  pub perfclient_image : Text

abbrev from_slash : Text → Text
from_slash [] = []
from_slash (c ∷ s) = if c == b'/' then s else from_slash s

-- `filepath.Dir` of a clean absolute path.
unfoldable pub parent_dir : Text → Text
parent_dir path =
    let dir = reverse (from_slash (reverse path)) in if is_empty dir then codes "/" else dir

unfoldable pub profile_named : Text → Option Profile
profile_named name =
    if text_eq name (codes "ci")
    then some profile_ci
    else if text_eq name (codes "full")
    then some profile_full
    else none

unfoldable pub k3d_executor : K3dSubstrate → Plan → Executor
k3d_executor k plan = record {
  plan = plan;
  server = (nodes k).0;
  worker = (nodes k).1;
  repo_root = k.repo_root;
  namespace = codes "natra-perfrig";
  perfclient_image = k.perfclient_image;
  memory_n_pod_count = pos 8;
}

-- The working directory, empty where it is not known.
unfoldable pub dir_or_empty : Result HostFault HostReply → Text
dir_or_empty (err _) = []
dir_or_empty (ok reply) = reply.output

unfoldable pub exit_of : Result HostFault (Unit {0}) → ℕ
exit_of (ok _) = 0
exit_of (err _) = 1

module _ (env : HostEnv) where
  -- The loop of `findRepoRoot`, from a directory upward.
  unfoldable pub root_from : ℕ → Text → Host Text
  root_from zero dir = try_ask env work_dir >>= λ r. pure (dir_or_empty r)
  root_from (suc left) dir = do
    found ← succeeds env (stat (join_path dir (codes "go.mod")))
    let upward = root_from left (parent_dir dir)
    if found then pure dir else upward

  -- `findRepoRoot`
  unfoldable pub find_repo_root : Text → Host Text
  find_repo_root source_dir = root_from 8 source_dir

  module _ (rd : Readings) (fig : Figures rd) (pod_first : Bool) (decimal : ℕ → Text)
      (quote : Text → Text) (mode_ : Text) (linux : Bool) (arch : Text)
      (script_text : Script → Text) (generated : Text) where
    unfoldable pub run_plan : Flags → Text → Plan → Host ℕ
    run_plan flags repo_root plan = do
      let k : K3dSubstrate = record {
        cluster = flags.cluster;
        natra_image = flags.image;
        perfclient_image = flags.perfclient_image;
        repo_root = repo_root;
      }
      r ← catch (
          measure_and_report rd fig pod_first decimal env
            (record {
              impl = k3d_rig env quote mode_ linux arch script_text k;
              name = codes "k3d";
              into = λ t. record { trace = t; bpftool_host = [] };
              trace_of = λ s. s.trace;
            })
            generated (codes "/tmp/natra-k3d-perf-vs-vanilla-result.txt") (k3d_executor k plan))
      pure (exit_of r)

    unfoldable pub run_profile : Flags → Text → Option Profile → Host ℕ
    run_profile flags source_dir none = pure 2
    run_profile flags source_dir (some profile) = elim (apply default_spec profile) [
      | err _ ↦ pure 1
      | ok plan ↦ find_repo_root source_dir >>= λ root. run_plan flags root plan
    ]

    -- `main`: the exit status.
    unfoldable pub main : Flags → Text → Host ℕ
    main flags source_dir =
        if text_eq flags.substrate (codes "k3d")
        then run_profile flags source_dir (profile_named flags.profile)
        else pure 2
