-- ===== src/Tests.antt =====
-- Test data: a system that answers every call, two pods, and the configurations of a cluster.
pub mod Quantities
pub mod Limits
pub mod System
pub mod Plans
pub mod Conflists
pub mod Packets
pub mod Runs
pub mod Machines
pub mod Pins
use natra.Base.{
  ℕ, ◌*◌, Option, none, some, List, [], ◌∷◌, true, Text, codes, pos, has_prefix, is_empty,
}
use natra.Base.Float64.{dyadic}
use natra.PodConfig.{Config, RawConfig}
use natra.NetConf.{NetConf, NetConfDefaults, Bandwidth}
use natra.Bpf.Types.{host_side, pod_side, ingress, egress}
use natra.Bpf.Program.{object_names}
use natra.Kernel.{Call, netns_get, new_collection, read_dir, Reply, Trace, Env}
use natra.Netns.Keeps.{thread_ns}
use natra.Attach.{CmdArgs, link_pin_name}

-- The handle that a call returns: the thread starts in namespace 1.
abbrev number_of : Call → Trace → ℕ
number_of netns_get t = thread_ns 1 t
number_of _ t = 7

abbrev pins : List Text
pins =
    link_pin_name (codes "a1") pod_side egress ∷ link_pin_name (codes "a1-b2") pod_side egress ∷ []

abbrev names_of : Call → List Text
names_of new_collection = object_names
names_of read_dir = pins
names_of _ = []

abbrev pub quiet : Env
quiet t c = record { error = none; number = number_of c t; flag = true; names = names_of c }

abbrev pub pod : CmdArgs
pod = record {
  container_id = codes "a1";
  netns = codes "/proc/42/ns/net";
  if_name = codes "eth0";
  stdin_data = codes "{}";
}

abbrev pub ten_megabits : Config
ten_megabits = record { rate = pos 1250000; burst = pos 625000; hh_threshold = pos (256 * 1024) }

abbrev pub cluster : NetConfDefaults dyadic
cluster = record {
  hh_threshold = pos 0;
  fast_pass_time_constant_ms = pos 100;
  burst_ratio = (1, 2);
  edt_pacing = codes "auto";
}

abbrev pub bandwidth : Bandwidth
bandwidth = record {
  ingress_rate = pos 10000000;
  ingress_burst = pos 0;
  egress_rate = pos 5;
  egress_burst = pos 0;
}

abbrev pub net_conf : NetConf dyadic
net_conf = record {
  cni_version = codes "1.0.0";
  attach_mode = codes "auto";
  defaults = some cluster;
  bandwidth = some bandwidth;
  pod_annotations = (codes "kubernetes.io/egress-bandwidth", codes "10M") ∷ [];
}

abbrev pub parse_to : NetConf dyadic → Text → Option (NetConf dyadic)
parse_to conf _ = some conf

-- No annotation of the tests is a JSON object.
abbrev pub no_json : Text → Option RawConfig
no_json _ = none
