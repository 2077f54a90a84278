-- ===== src/Tests/Machines.antt =====
-- The rigs on hosts whose commands answer in a known way.
use natra.Base.{
  ℕ, zero, suc, ◌+◌, ◌*◌, ◌<◌, ◌≤◌, ◌≡◌, refl, ◌⊎◌, inl, inr, Bool, true, false, Option, none, some,
  List, [], ◌∷◌, ◌++◌, map, Text, codes, text_eq, text_eq_refl, if◌then◌else◌, arith,
}
use natra.Base.Result.{ok}
use natra.Host.{
  HostEnv, HostTrace, HostCall, HostReply, HostEvent, Command, capture, capture_kubectl, lima_list,
  lima_delete, k3d_delete, http_get, stat, create_temp, make_temp_dir, trim_right,
}
use natra.Host.Last.{LastWorked}
use natra.Rig.{baseline, natra_phase}
use natra.Rig.Cluster.{Script}
use natra.Rig.Substrate.{answers}
use natra.Rig.Executor.Run.{run}
use natra.Rig.Report.Rates.{rate_rows}
use natra.Rig.Report.Rates.Grouped.{row, new_rates, rate_rows-eq-rows}
use natra.K3d.{K3dSubstrate}
use natra.K3d.Bpftool.{K3dState, ensure_bpftool, verify_command}
use natra.K3d.Bpftool.Verified.{ensure_bpftool-verified}
use natra.Host.Temps.{temps}
use natra.K3d.Bpftool.Temps.{ensure_bpftool-Holds}
use natra.VmRig.Up.Temps.{cmd_up-Holds}
use natra.K3d.Runs.{k3d_rig}
use natra.K3d.Runs.Deleted.{k3d_state, IsDeleted, run_on_k3d-deletes}
use natra.VmRig.{Config, load_config}
use natra.VmRig.Up.{wait_for_nodes_ready, ready_nodes, cmd_up}
use natra.VmRig.Up.Ready.{Waited, wait_for_nodes_ready-ends}
use natra.Rig.Executor.Mixed.{Tally, count_row, count_rows, parse_hey_csv}
use natra.VmRig.Asserts.{Limits, assert_requests, assert_hey, cmd_test}
use natra.VmRig.Asserts.Keeps.{Some, IsFast}
use natra.VmRig.Asserts.Passed.{IngressWithin, EgressWithin, EgressOnlyWithin, cmd_test-measured}
use natra.VmRig.Commands.{up_to_test, cmd_all}
use natra.VmRig.Commands.Machines.{vm_exists, LimaWorks, NoneLeft, cmd_all-NoneLeft}
use natra.Tests.Runs.{works, readings, no_decimal, executor, cells}

abbrev answer : Text → HostReply
answer out = record { failed = false; output = out; number = 200; entries = [] }

-- Every call works and prints a name.
abbrev host : HostEnv
host t c = answer (codes "x")

abbrev no_script : Script → Text
no_script s = []

abbrev as_is : Text → Text
as_is s = s

abbrev substrate : K3dSubstrate
substrate = record {
  cluster = codes "c";
  natra_image = codes "n";
  perfclient_image = codes "p";
  repo_root = codes "/r";
}

abbrev fresh_state : K3dState
fresh_state = record { trace = []; bpftool_host = [] }

run_on_k3d-deletes_example :
    let rig =
      answers (k3d_rig host as_is [] true (codes "amd64") no_script substrate) fresh_state in
    IsDeleted
      (codes "c")
      true
      (k3d_state host as_is [] true
        (codes "amd64")
        no_script
        substrate
        fresh_state
        (run rig readings true no_decimal executor []).1).trace
run_on_k3d-deletes_example =
    run_on_k3d-deletes host as_is [] true (codes "amd64") no_script substrate fresh_state readings
      true no_decimal executor baseline (natra_phase ∷ []) true refl

ensures : (ensure_bpftool host substrate (codes "amd64") (codes "w") fresh_state).0 ≡ ok tt
unfolding ensure_bpftool natra.Host.◌>>=◌ natra.K3d.Bpftool.cache_bpftool_binary
    natra.K3d.Bpftool.cached_binary natra.K3d.Bpftool.find_binary natra.Host.◌>>◌
    natra.Host.require_that natra.Base.one_of natra.Host.pure natra.Host.succeeds natra.Host.catch
    natra.K3d.Bpftool.cache_path natra.K3d.Bpftool.on_host natra.K3d.Bpftool.install_bpftool
    natra.Host.ignore natra.Host.must
ensures = refl

ensure_bpftool-verified_example :
    LastWorked
      (verify_command (codes "w"))
      (ensure_bpftool host substrate (codes "amd64") (codes "w") fresh_state).1.trace
ensure_bpftool-verified_example =
    ensure_bpftool-verified host substrate (codes "amd64") (codes "w") fresh_state ensures

-- A host whose cache has no bpftool, so that it is downloaded.
abbrev uncached : HostEnv
uncached t (stat path) = record { failed = true; output = []; number = 0; entries = [] }
uncached t _ = answer (codes "x")

ensure_bpftool-Holds_example :
    temps (ensure_bpftool uncached substrate (codes "amd64") (codes "w") fresh_state).1.trace
    ≡ temps []
ensure_bpftool-Holds_example =
    ensure_bpftool-Holds uncached substrate (codes "amd64") (codes "w") fresh_state

abbrev no_variables : Text → Text
no_variables key = []

abbrev config : Config
config = record {
  repo_root = codes "/r";
  rig_dir = codes "/r/scripts/vm-rig";
  server_name = codes "natra-server";
  agent_name = codes "natra-agent";
  kubeconfig_path = codes "/tmp/k";
  natra_image = codes "n";
  perfclient_image = codes "p";
  vm_rig_cni = codes "flannel";
}

config_of_defaults : (load_config no_variables (codes "/r")).vm_rig_cni ≡ codes "flannel"
unfolding load_config natra.VmRig.env_or
config_of_defaults = refl

cmd_up-Holds_example : temps (cmd_up host false config []).1 ≡ temps []
cmd_up-Holds_example = cmd_up-Holds host false config [] (λ t path. refl)

wait_for_nodes_ready-ends_example :
    Waited (codes "/tmp/k") 2 (150 * 2) [] (wait_for_nodes_ready host config 2 150 [])
wait_for_nodes_ready-ends_example = wait_for_nodes_ready-ends host config 2 150 [] (omega arith)

two_nodes : ready_nodes (codes "a  Ready x\nb NotReady\nc Ready\n") ≡ 2
unfolding ready_nodes natra.VmRig.Up.count_ready natra.VmRig.Up.fields_from
    natra.VmRig.Up.second_is_ready natra.Rig.Manifest.split trim_right natra.Host.drop_blanks
    natra.Base.text_eq natra.Base.is_space
two_nodes = refl

-- A host whose limactl knows its VMs.
abbrev all_exist : Text → Bool
all_exist vm = true

abbrev named_if : Bool → Text → HostReply
named_if true vm = answer vm
named_if false vm = answer []

abbrev lima_answer : HostTrace → HostCall → HostReply
lima_answer t (capture (lima_list vm)) = named_if (vm_exists all_exist t vm) vm
lima_answer t _ = answer []

lima_works :
    (vm : Text) → trim_right vm ≡ vm → text_eq [] vm ≡ false → LimaWorks lima_answer all_exist vm
unfolding trim_right natra.Host.drop_blanks
lima_works vm trimmed named = record {
  lists = λ t h. rw h (refl, trimmed);
  lists_no_other = λ t h. rw h named;
  deletes = λ t h. refl;
}

agent_trimmed : trim_right (codes "natra-agent") ≡ codes "natra-agent"
unfolding trim_right natra.Host.drop_blanks
agent_trimmed = refl

server_trimmed : trim_right (codes "natra-server") ≡ codes "natra-server"
unfolding trim_right natra.Host.drop_blanks
server_trimmed = refl

agent_named : text_eq [] (codes "natra-agent") ≡ false
unfolding text_eq
agent_named = refl

server_named : text_eq [] (codes "natra-server") ≡ false
unfolding text_eq
server_named = refl

abbrev limits : Limits readings
limits = record {
  exceeds_cap = λ bps. false;
  is_below_floor = λ bps. false;
  fits_buffer = λ line. true;
}

cmd_all-NoneLeft_example :
    let out = cmd_all lima_answer readings limits as_is [] false config false [] in
    NoneLeft lima_answer all_exist config out.1
    × (out.0 ≡ (up_to_test lima_answer readings limits as_is [] false config []).0)
cmd_all-NoneLeft_example =
    cmd_all-NoneLeft lima_answer all_exist readings limits as_is [] false config []
      (lima_works (codes "natra-agent") agent_trimmed agent_named)
      (lima_works (codes "natra-server") server_trimmed server_named)

rate_rows-eq-rows_example :
    rate_rows works readings cells
    ≡ map (row works readings cells) (new_rates works readings [] cells)
rate_rows-eq-rows_example = rate_rows-eq-rows works readings cells

-- The rows of a CSV in which every request was served.
abbrev served_rows : ℕ → List (List Text)
served_rows zero = []
served_rows (suc n) = (codes "0" ∷ [] ∷ [] ∷ [] ∷ [] ∷ [] ∷ codes "200" ∷ []) ∷ served_rows n

abbrev csv_readings : natra.Rig.Executor.Readings
csv_readings = record readings {
  csv_rows = λ out. some (served_rows 3001);
  parse_float = λ out. some 1;
}

abbrev csv_limits : Limits csv_readings
csv_limits = record {
  exceeds_cap = λ bps. false;
  is_below_floor = λ bps. false;
  fits_buffer = λ line. true;
}

served_row :
    (t : Tally csv_readings)
    → count_row csv_readings t (codes "0" ∷ [] ∷ [] ∷ [] ∷ [] ∷ [] ∷ codes "200" ∷ [])
      ≡ record t { succeeded = t.succeeded + 1; latencies = t.latencies ++ (1 ∷ []) }
unfolding natra.Rig.Executor.Mixed.count_row natra.Rig.Executor.Mixed.count_parsed
    natra.Rig.Executor.Mixed.count_request natra.Quantity.parse_int natra.Quantity.parse_uint
    natra.Quantity.parse_digits natra.Quantity.to_int64 mathlib.Core.Option.bind
served_row t = refl

served_count :
    (n : ℕ) (t : Tally csv_readings)
    → ((count_rows csv_readings t (served_rows n)).succeeded ≡ t.succeeded + n)
      × ((count_rows csv_readings t (served_rows n)).errors ≡ t.errors)
unfolding count_rows
served_count zero t = (omega arith, refl)
served_count (suc n) t =
    let rest =
      served_count n
        (record t { succeeded = t.succeeded + 1; latencies = t.latencies ++ (1 ∷ []) }) in
    rw (count_rows, served_row t) (omega (arith, rest.0), rest.1)

enough_served :
    (served failures : ℕ) (t : HostTrace)
    → served ≡ 3000
    → failures ≡ 0
    → (assert_requests host csv_readings csv_limits served failures t).0 ≡ ok tt
unfolding assert_requests natra.Host.require_that natra.Host.◌>>◌ natra.Host.◌>>=◌ natra.Host.pure
    natra.Host.bind_result
enough_served served failures t s f = rw (s, f)

asserted :
    (t : HostTrace)
    → (assert_hey host csv_readings csv_limits (parse_hey_csv csv_readings (codes "x")) t).0 ≡ ok tt
unfolding assert_hey parse_hey_csv natra.Rig.Executor.Mixed.parse_rows
    natra.Rig.Executor.Mixed.hey_result
asserted t =
    let counts = served_count 3000 (record { succeeded = 0; errors = 0; latencies = [] }) in
    enough_served _ _ t counts.0 counts.1

passes : (cmd_test host csv_readings csv_limits config []).0 ≡ ok tt
unfolding cmd_test natra.Host.◌>>=◌ natra.Host.succeeds natra.Host.catch natra.Host.pure
    natra.Host.◌>>◌ natra.Host.require_that natra.VmRig.Asserts.apply_manifest natra.Host.must
    natra.VmRig.Asserts.test_iperf_throttle natra.VmRig.Asserts.render_e2e_manifest
    natra.VmRig.Asserts.render_manifest natra.VmRig.Asserts.scan_lines natra.Rig.Manifest.split
    natra.VmRig.Asserts.wait_ready natra.VmRig.Asserts.wait_for_iperf_connect natra.Host.poll
    natra.VmRig.Asserts.try_connect natra.Host.bind_result natra.Host.throw natra.Base.has_prefix
    natra.Host.ask natra.Host.drop_blanks natra.Host.ignore natra.Host.is_done trim_right
    natra.Host.try_ask natra.Rig.Manifest.first_match natra.Rig.Manifest.perf_pairs
    natra.Rig.Manifest.replace_all natra.Rig.Manifest.replace_from natra.Rig.Manifest.replacer_from
    natra.VmRig.Asserts.assert_within natra.VmRig.Asserts.deploy_perf
    natra.VmRig.Asserts.is_connected natra.VmRig.Asserts.measure natra.VmRig.Asserts.render_lines
    natra.VmRig.Asserts.render_perf_manifest natra.VmRig.Asserts.test_egress_only
    natra.VmRig.Asserts.test_hey_fast_pass natra.VmRig.Asserts.warm_up
passes = asserted _

cmd_test-measured_example :
    let t = (cmd_test host csv_readings csv_limits config []).1 in
    IngressWithin host csv_readings csv_limits config t
    × EgressWithin host csv_readings csv_limits config t
    × EgressOnlyWithin host csv_readings csv_limits config t
    × Some (IsFast csv_readings csv_limits config) t
cmd_test-measured_example = cmd_test-measured host csv_readings csv_limits config [] passes
