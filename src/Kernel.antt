-- ===== src/Kernel.antt =====
-- What the plugin asks of the system. The calls of os, net, netns, netlink, ebpf and the CNI
-- library that change or read anything outside the process are events; what each returns is the
-- parameter `Env`, any function of the calls before it. A computation returns a value or an error,
-- and the trace of its calls, the latest first.
pub mod Rules
unfoldable pub use natra.Base.State.{
  Computation, pure, throw, bind_result, ◌>>=◌, ◌>>◌, catch, finally, settle, or_cleanup,
}
use natra.Base.{ℕ, Bool, true, false, Option, none, some, List, [], ◌∷◌, Text}
use natra.Base.Result.{Result, ok, err}
use natra.Bpf.Types.{Direction, BpfConfig, TokenBucket}

pub data Errno : Type 0 where
  not_exist exists other : Errno

pub data Call : Type 0 where
  -- os
  mkdir_all : Call
  read_dir : Call
  remove : Text → Call
  -- netns
  netns_get : Call
  netns_open : Text → Call
  netns_set : ℕ → Call
  netns_close : ℕ → Call
  -- net and netlink
  interface_by_name : Text → Call
  link_by_name : Text → Call
  veth_peer_index : Text → Call
  link_by_index : ℕ → Call
  qdisc_list : ℕ → Call
  qdisc_replace_fq : ℕ → Call
  qdisc_add_clsact : ℕ → Call
  filter_replace : ℕ → Direction → Direction → Call  -- the interface, the program, the parent
  -- ebpf
  remove_memlock : Call
  load_spec : Call
  new_collection : Call
  config_update : Direction → BpfConfig → Call
  bucket_update : Direction → TokenBucket → Call
  map_pin : Text → Call
  attach_tcx : ℕ → Direction → Direction → Call  -- the interface, the program, the hook
  link_pin : ℕ → Text → Call
  link_close : ℕ → Call
  collection_close : Call
  -- cni
  parse_prev_result : Call
  convert_result : Call
  print_result : Call

-- What a call returns. A call uses the fields that its results need, and the others say nothing.
pub record Reply : Type 0 where
  pub error : Option Errno
  pub number : ℕ  -- a handle, an interface index, a link
  pub flag : Bool  -- is the link a veth, does the interface have fq, is there a previous result
  pub names : List Text  -- the entries of a directory, the maps and programs of a collection

pub record Event : Type 0 where
  pub call : Call
  pub reply : Reply

abbrev pub Trace : Type 0
Trace = List Event

abbrev pub Env : Type 0
Env = Trace → Call → Reply

-- `missing` is a map or program that the loaded object lacks, `not_veth` a link of another type.
pub data Fault : Type 0 where
  failed : Call → Errno → Fault
  missing : Text → Fault
  not_veth : Fault

abbrev pub M : Type 0 → Type 0
M A = Computation Trace Fault A

abbrev pub outcome : Call → Reply → Option Errno → Result Fault Reply
outcome c r none = ok r
outcome c r (some e) = err (failed c e)

module _ (env : Env) where
  -- A call whose error, if any, is a value.
  unfoldable pub ask : Call → M Reply
  ask c t = let r = env t c in (ok r, record { call = c; reply = r } ∷ t)

  -- A call whose error is returned.
  unfoldable pub invoke : Call → M Reply
  invoke c t = let r = env t c in (outcome c r r.error, record { call = c; reply = r } ∷ t)

  -- A call whose results are not looked at.
  unfoldable pub discard : Call → M (Unit {0})
  discard c t = (ok tt, record { call = c; reply = env t c } ∷ t)
