-- ===== src/Lib.antt =====
-- A model of natra, a chained CNI plugin that limits the rate of pods with BPF programs.
--
-- The program. The container runtime runs the plugin once per pod and command (cmd/natra/main.go).
-- An ADD reads its configuration, resolves a limit per direction from kubelet's bandwidth or the
-- pod's annotations, and attaches a BPF program to the pod's veth: it tries hook and side in turn,
-- in the pod's network namespace or on the host's end, and rolls a failed attempt back. It then
-- prints the result of the plugins before it. A DEL removes what the ADD pinned. The BPF program
-- counts each flow in a sketch, and holds the heavy ones to a token bucket per direction.
--
-- The files.
--   Base, Base/*      Texts as lists of code points, int64 with its wrap-around, results, float64 as
--                     a parameter, and tests on numbers.
--   Quantity          pkg/cni/config/config.go: parseBandwidth, suffixMultiplier, strconv.ParseInt.
--                     Trim, Reference and Bounds hold what is proved of them.
--   PodConfig         pkg/cni/config/config.go: Config, Validate, DefaultBurstFor and both forms of
--                     ParseBandwidthAnnotation. Laws holds what is proved.
--   NetConf           cmd/natra/main.go: parseEDTMode, resolveHHThreshold, resolveDirectionConfig;
--                     Threshold and Resolve hold what is proved.
--   Bpf/Types         pkg/bpf/loader.go: its types.
--   Bpf/Program       pkg/bpf/loader.go: Load, Configure, PinMaps, Attach, Close.
--   Base/State        Computations over a state that end with a value or a fault. Rules and Returns
--                     hold one rule for each way to build them.
--   Kernel            The calls of the plugin to the system as events.
--   Netns             cmd/natra/netns_linux.go: enterNetns, installFQ, hostsidePeerIfIndex.
--   Attach            cmd/natra/main.go: resolveAttachStrategy, resolveIfIndex, tryAttachOne,
--                     attachBPF. Pacing, Writes and Namespace hold what is proved.
--   Plugin            cmd/natra/main.go: cmdAdd, passthrough, cmdDel, cmdCheck. Add and Del hold what
--                     is proved.
--   Installer         cmd/natra-tools/install.go: installCNIChain, writeChainedSibling, over files
--                     whose operations may fail. Values holds JSON values; Chain, Agrees and
--                     Siblings hold what is proved.
--   Dataplane         bpf/natra.bpf.c: bump_stat, throttle_disposition, natra_classify, on a record of
--                     the maps. Flow holds parse_flow and cms_hash, Bucket the token bucket and the
--                     pacing, Sketch the count-min sketch; Bucket/Rate, Bucket/Pacing,
--                     Sketch/Counters, Sketch/Estimate, Heavy, Fate and Stats hold what is proved.
--   Tools             cmd/natra-tools: the pinned maps as dump_linux.go (Dump) and profile_linux.go
--                     (Snapshot) read them, profile_linux.go and main.go besides (Profile); Names takes
--                     the names of pins apart. Names and
--                     Snapshot/Slots hold what is proved.
--   Rig               internal/perfrig/spec.go and apply.go: the specification of a measurement and
--                     Apply. Narrow holds what is proved.
--   Rig/Cluster       internal/perfrig/substrate.go and kube.go: the calls of the rig; Loops holds its
--                     loops. Rig/Manifest is manifest.go; Occurs and Lines hold what is proved.
--   Rig/Executor      internal/perfrig: Stage is stage.go, Iperf workload_iperf.go, Mixed
--                     workload_mixed.go and hey.go, Memory workload_memory.go, Run executor.go and
--                     report.go. Work, Work/Workloads, Iperf/Reach, Run/Steps, Run/Fresh, Run/Installs
--                     and Run/Reports hold what is proved.
--   Rig/Report        internal/perfrig/report_write.go: the tables as text; Rates is the grouping of the
--                     sweep, Write WriteReport, Measure a run with its report. Rates/Grouped holds what
--                     is proved.
--   Rig/Substrate     The executor on an implementation of Substrate: its calls are replayed on the
--                     implementation's state, which gives the answers.
--   Host              cmd/vm-rig/exec.go and captureCmd of cmd/perfrig: the commands and files of the
--                     machine that drives a rig. Rules and Last hold what a trace keeps and ends with,
--                     Temps the temporary files that it made and did not ask to remove.
--   VmRig             cmd/vm-rig: config.go and down.go; Up is up.go, Install install.go, Asserts test.go,
--                     Substrate substrate_lima.go, Compare perfvsvanilla.go, Commands all.go and main.go.
--                     Up/Ready, Up/Temps, Asserts/Keeps, Asserts/Passed and Commands/Machines hold what
--                     is proved.
--   K3d               cmd/perfrig/substrate_k3d.go; Bpftool is EnsureBpftool, Runs the executor on k3d,
--                     Main main.go. Bpftool/Verified, Bpftool/Temps and Runs/Deleted hold what is proved.
--   Tests, Tests/*    Runs on concrete inputs, and the theorems at concrete inputs.
-- Modules named Keeps carry a property of the trace through the computations of their parent.
--
-- State and errors. What lies outside the process is a function Env of the calls made so far, so
-- that a theorem about every Env covers every answer, every error and every order of them. A
-- computation returns its value or a fault and the trace of its calls. Messages are not modelled.
--
-- Bounds and termination. int64 is ℤ with mul64 as its wrapping product, a conversion to uint64 is
-- to_bits, which takes the two's complement. All loops are structural recursion but for the
-- loop over the cells of the cms map, which takes fuel: fuel past the first missing key is enough,
-- which scan_cells_ends of Tools shows. A poll recurs on the tries left, the 30, 90 or 150 of the code.
--
-- Parameters. encoding/json and float64: unmarshal, parse_config, parse and marshal are any functions,
-- Float64 is any record of operations, with IsLawful where a product by 0.5 has to be exact. Readings
-- stands for what the rig reads off the output of iperf3, hey and bpftool, Pins for the bpffs and the
-- ebpf library, Figures for the arithmetic and the printing of float64 in a report, Limits for the
-- comparisons of the rig's test. filepath.Join is the concatenation with a slash, which it is for the clean names used.
--
-- Not modelled: log lines and the heap profile, the copied CNI skeleton (internal/cniskel), the race of
-- two CPUs on a sketch cell (bpf/natra.bpf.c), what the operator tools and the rigs print, and the text of
-- the shell scripts that run on a node.
--
pub mod Base
pub mod Quantity
pub mod PodConfig
pub mod Bpf
pub mod NetConf
pub mod Kernel
pub mod Netns
pub mod Attach
pub mod Plugin
pub mod Host
pub mod VmRig
pub mod K3d
pub mod Dataplane
pub mod Installer
pub mod Tools
pub mod Rig
pub mod Tests
