-- ===== src/Host.antt =====
-- The machine that drives a rig: the commands that cmd/vm-rig (`run`, `kubectl`, `capture` and
-- `captureKubectl` of exec.go) and cmd/perfrig (`captureCmd` of substrate_k3d.go) run, the files that they touch,
-- and pauses. Each call is an event and its answer is the parameter `HostEnv`, any function of the calls
-- before it. What goes to the terminal and the text of errors are not modelled.

pub mod Rules
pub mod Last
pub mod Temps
use natra.Base.{
  ℕ, zero, suc, ◌+◌, ◌≤◌, Bool, true, false, ◌||◌, Option, none, some, List, [], ◌∷◌, ◌++◌, reverse,
  ◌==◌, if◌then◌else◌, Text, codes, text_eq, is_empty,
}
use natra.Base.Result.{Result, ok, err}
unfoldable pub use natra.Base.State.{
  Computation, pure, throw, ◌>>=◌, ◌>>◌, catch, finally, bind_result,
}

-- A command with its arguments. Those that make or delete a machine have a constructor each.
pub data Command : Type 0 where
  lima_create : Text → Text → Command  -- the name and the template
  lima_start lima_stop lima_delete lima_list : Text → Command
  lima_copy : Text → Text → Command
  lima_shell : Text → List Text → Command
  k3d_create k3d_delete : Text → Command
  k3d_kubeconfig k3d_import : Text → Text → Command  -- cluster and path, image and cluster
  docker_build : Text → Text → Text → Command  -- the tag, the Dockerfile and the context
  docker_save docker_copy : Text → Text → Command
  docker_exec : Text → List Text → Command
  plain : List Text → Command

pub data HostCall : Type 0 where
  run capture : Command → HostCall
  kubectl : Text → Text → List Text → HostCall  -- the kubeconfig, the standard input, the arguments
  capture_kubectl : Text → List Text → HostCall
  look_path stat read_file read_dir remove remove_all mkdir_all chmod : Text → HostCall
  open_file create_file close_file : Text → HostCall
  write_file rename copy_data : Text → Text → HostCall
  create_temp make_temp_dir : Text → HostCall  -- the pattern
  home_dir work_dir : HostCall
  http_get : Text → HostCall
  sleep : ℕ → HostCall  -- milliseconds

-- What a call returns. A call uses the fields that its results need.
pub record HostReply : Type 0 where
  pub failed : Bool
  pub output : Text
  pub number : ℕ  -- the size of a file, the status of a response
  pub entries : List (Text × Bool)  -- the names in a directory, and which are directories

pub record HostEvent : Type 0 where
  pub call : HostCall
  pub reply : HostReply

-- The latest event first.
abbrev pub HostTrace : Type 0
HostTrace = List HostEvent

abbrev pub HostEnv : Type 0
HostEnv = HostTrace → HostCall → HostReply

pub data HostFault : Type 0 where
  call_failed : HostCall → HostFault
  missing_command unknown_cni not_provisioned unsupported_arch : Text → HostFault
  no_socket_vmnet no_cluster no_connection : HostFault
  not_ready : ℕ → HostFault
  http_status : ℕ → HostFault
  bad_json bad_csv long_line : HostFault
  above_cap below_floor : Text → HostFault
  slow_requests failed_requests bad_plan run_failed : HostFault

abbrev pub Host : Type 0 → Type 0
Host A = Computation HostTrace HostFault A

abbrev pub host_outcome : HostCall → HostReply → Bool → Result HostFault HostReply
host_outcome c r false = ok r
host_outcome c r true = err (call_failed c)

-- `trimRight` on the reversed text.
unfoldable pub drop_blanks : Text → Text
drop_blanks [] = []
drop_blanks (c ∷ s) = if c == 10 || c == 32 || c == 9 then drop_blanks s else c ∷ s

-- `trimRight`
unfoldable pub trim_right : Text → Text
unfolding drop_blanks
trim_right s = reverse (drop_blanks (reverse s))

-- `filepath.Join` of clean names.
abbrev pub join_path : Text → Text → Text
join_path dir name = dir ++ (codes "/" ++ name)

unfoldable pub is_done : {A : Type 0} → Result HostFault A → Bool
is_done (ok _) = true
is_done (err _) = false

module _ (env : HostEnv) where
  -- A call whose error is returned.
  unfoldable pub ask : HostCall → Host HostReply
  ask c t = let r = env t c in (host_outcome c r r.failed, record { call = c; reply = r } ∷ t)

  -- A call whose error is returned, and that returns nothing else.
  unfoldable pub must : HostCall → Host (Unit {0})
  unfolding ask
  must c = ask c >>= λ _. pure tt

  -- A call whose error is looked at.
  unfoldable pub try_ask : HostCall → Host (Result HostFault HostReply)
  unfolding ask
  try_ask c = catch (ask c)

  -- A call whose result is not looked at.
  unfoldable pub ignore : HostCall → Host (Unit {0})
  ignore c t = (ok tt, record { call = c; reply = env t c } ∷ t)

  unfoldable pub succeeds : HostCall → Host Bool
  unfolding try_ask is_done
  succeeds c = try_ask c >>= λ r. pure (is_done r)

  -- `capture`
  unfoldable pub captured : Command → Host Text
  unfolding ask trim_right
  captured c = ask (capture c) >>= λ r. pure (trim_right r.output)

-- A try that is repeated until it succeeds, with a pause after each failure.
unfoldable pub poll : HostEnv → ℕ → ℕ → Host Bool → Host Bool
poll env delay zero attempt = pure false
poll env delay (suc left) attempt = do
  done ← attempt
  let again = ignore env (sleep delay) >> poll env delay left attempt
  if done then pure true else again

unfoldable pub when : Bool → Host (Unit {0}) → Host (Unit {0})
when true m = m
when false m = pure tt

unfoldable pub require_that : Bool → HostFault → Host (Unit {0})
require_that true e = pure tt
require_that false e = throw e

unfoldable pub for_all : {A : Type 0} → List A → (A → Host (Unit {0})) → Host (Unit {0})
for_all [] body = pure tt
for_all (x ∷ xs) body = do body x; for_all xs body
