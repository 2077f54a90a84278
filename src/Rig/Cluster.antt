-- ===== src/Rig/Cluster.antt =====
-- What the perf rig asks of the outside: the `Substrate` of internal/perfrig/substrate.go, kubectl and
-- captureKubectl of internal/perfrig/kube.go, files and pauses. As for the plugin, each call is an event
-- and its answer is the parameter `RigEnv`, any function of the calls before it. Messages are not
-- modelled. A script that runs on a node is named, not written out.
pub mod Loops
use Prim.Native.Char.{code}
use Prim.Native.String.{String}
use natra.Base.{
  ℕ, ◌-◌, Bool, true, false, Option, none, some, List, [], ◌∷◌, ◌++◌, ◌==◌, if◌then◌else◌, Text, ℤ,
  pos, reverse,
}
use natra.Base.Result.{Result, ok, err}
unfoldable pub use natra.Base.State.{Computation, pure, throw, ◌>>=◌, ◌>>◌, catch, finally}

-- The scripts of stage.go and workload_memory.go, with what varies in them.
pub data Script : Type 0 where
  attach_lines patch_burst meminfo bpftool_show count_qdiscs : Script
  invoke_plugin : Text → Script  -- the plugin's name
  installer_rss : Text → Script  -- the label of the installer's pods

pub data RigCall : Type 0 where
  up down install_natra : RigCall
  import_image : Text → Text → RigCall  -- the image and its Dockerfile
  ensure_bpftool : Text → RigCall
  node_shell : Text → Script → RigCall
  kubectl : Text → List Text → RigCall  -- the standard input and the arguments
  capture_kubectl : List Text → RigCall
  read_manifest : Text → RigCall
  sleep : ℕ → RigCall  -- milliseconds

pub record RigReply : Type 0 where
  pub failed : Bool
  pub output : Text

pub record RigEvent : Type 0 where
  pub call : RigCall
  pub reply : RigReply

-- The latest event first.
abbrev pub RigTrace : Type 0
RigTrace = List RigEvent

abbrev pub RigEnv : Type 0
RigEnv = RigTrace → RigCall → RigReply

pub data RigFault : Type 0 where
  call_failed : RigCall → RigFault
  no_service_account no_traffic bad_json bad_csv : RigFault
  unreachable unknown_workload : Text → RigFault
  too_few_streams : RigFault

abbrev pub Rig : Type 0 → Type 0
Rig A = Computation RigTrace RigFault A

-- The words of a command line.
abbrev pub words_from : Text → String → List Text
words_from word String.[] = reverse word ∷ []
words_from word (String.◌∷◌ c s) =
    let cut = words_from [] s in
    let more = words_from (code c ∷ word) s in if code c == 32 then reverse word ∷ cut else more

abbrev pub words : String → List Text
words s = words_from [] s

abbrev pub rig_outcome : RigCall → RigReply → Bool → Result RigFault Text
rig_outcome c r false = ok r.output
rig_outcome c r true = err (call_failed c)

module _ (env : RigEnv) where
  -- A call whose error is returned.
  unfoldable pub ask : RigCall → Rig Text
  ask c t = let r = env t c in (rig_outcome c r r.failed, record { call = c; reply = r } ∷ t)

  -- A call whose error is looked at.
  unfoldable pub try_ask : RigCall → Rig (Result RigFault Text)
  unfolding ask
  try_ask c = catch (ask c)

  -- A call whose result is not looked at.
  unfoldable pub ignore : RigCall → Rig (Unit {0})
  ignore c t = (ok tt, record { call = c; reply = env t c } ∷ t)
