-- ===== src/VmRig/Up.antt =====
-- cmd/vm-rig/up.go: how the two VMs come up and join. `darwin` says whether the host runs macOS.
pub mod Ready
pub mod Temps
use Prim.Native.String.{String}
use natra.Base.{
  ℕ, zero, suc, ◌+◌, Bool, true, false, List, [], ◌∷◌, ◌++◌, reverse, if◌then◌else◌, leb, Text,
  codes, text_eq, is_empty, is_space,
}
use natra.Base.Result.{Result, ok, err}
use natra.Host.{
  Host, HostEnv, HostFault, HostReply, missing_command, no_socket_vmnet, not_provisioned, not_ready,
  plain, lima_create, lima_start, lima_shell, run, capture, capture_kubectl, stat, read_file,
  write_file, create_temp, close_file, remove, sleep, join_path, ask, try_ask, must, ignore,
  captured, succeeds, poll, require_that, for_all, trim_right, pure, throw, catch, finally, ◌>>=◌,
  ◌>>◌,
}
use natra.Rig.Cluster.{words}
use natra.Rig.Manifest.{newline, split, replace_once}
use natra.VmRig.{Config, lima_yaml_path, lima_exists}

-- `strings.Fields`, from the field that is being read, reversed.
abbrev end_field : Text → List Text → List Text
end_field [] fields = fields
end_field (c ∷ s) fields = reverse (c ∷ s) ∷ fields

unfoldable pub fields_from : Text → Text → List Text
unfolding is_space
fields_from field [] = end_field field []
fields_from field (c ∷ s) =
    let cut = fields_from [] s in
    let more = fields_from (c ∷ field) s in if is_space c then end_field field cut else more

-- A line of `kubectl get nodes` whose second field is `Ready`.
unfoldable pub second_is_ready : List Text → Bool
second_is_ready [] = false
second_is_ready (name ∷ []) = false
second_is_ready (name ∷ status ∷ rest) = text_eq status (codes "Ready")

unfoldable pub count_ready : List Text → ℕ
unfolding fields_from second_is_ready
count_ready [] = 0
count_ready (line ∷ lines) =
    if second_is_ready (fields_from [] line) then suc (count_ready lines) else count_ready lines

-- The nodes that the output of `kubectl get nodes --no-headers` shows as ready.
unfoldable pub ready_nodes : Text → ℕ
unfolding count_ready
ready_nodes out = count_ready (split newline (trim_right out))

-- `lastReady` after an attempt, and whether the attempt showed enough nodes.
unfoldable pub shown_ready : ℕ → Result HostFault HostReply → ℕ
shown_ready last_ready (err _) = last_ready
shown_ready last_ready (ok reply) = ready_nodes reply.output

unfoldable pub is_enough : ℕ → Result HostFault HostReply → Bool
unfolding ready_nodes
is_enough want (err _) = false
is_enough want (ok reply) = leb want (ready_nodes reply.output)

abbrev pub nodes_args : List Text
nodes_args = words "get nodes --no-headers"

-- A value or the error that was found before.
unfoldable pub of_result : {A : Type 0} → Result HostFault A → Host A
of_result (ok a) = pure a
of_result (err e) = throw e

unfoldable pub agent_body : Text → Text → Text → Text
agent_body body server_ip token =
    let with_url =
      replace_once body (codes "NATRA_K3S_URL: \"\"")
        (codes "NATRA_K3S_URL: \"https://" ++ (server_ip ++ codes ":6443\"")) in
    replace_once with_url (codes "NATRA_K3S_TOKEN: \"\"")
      (codes "NATRA_K3S_TOKEN: \"" ++ (token ++ codes "\""))

module _ (env : HostEnv) where
  unfoldable pub require_command : Text → Host (Unit {0})
  require_command bin = do
    found ← succeeds env (capture (plain (codes "command" ∷ codes "-v" ∷ bin ∷ [])))
    require_that found (missing_command bin)

  -- `requirePrereqs`
  unfoldable pub require_prereqs : Host (Unit {0})
  require_prereqs = for_all (words "limactl kubectl docker") require_command

  -- `checkSocketVmnet`
  unfoldable pub socket_vmnet_exists : List Text → Host Bool
  socket_vmnet_exists [] = pure false
  socket_vmnet_exists (path ∷ paths) = do
    found ← succeeds env (stat path)
    let more = socket_vmnet_exists paths
    if found then pure true else more

  unfoldable pub check_socket_vmnet : Bool → Host (Unit {0})
  check_socket_vmnet false = pure tt
  check_socket_vmnet true =
      socket_vmnet_exists
        (words "/opt/homebrew/var/run/socket_vmnet /usr/local/var/run/socket_vmnet")
      >>= λ found. require_that found no_socket_vmnet

  -- `waitForFile`: whether the file appeared.
  unfoldable pub wait_for_file : Text → Text → ℕ → Host Bool
  wait_for_file vm path attempts =
      poll env 2000 attempts
        (succeeds env (capture (lima_shell vm (words "test -f" ++ (path ∷ [])))))

  -- The loop of `waitForNodesReady`, from the number that the last answer showed and the attempts left.
  unfoldable pub wait_nodes : Text → ℕ → ℕ → ℕ → Host (Unit {0})
  wait_nodes kubeconfig want last_ready zero = throw (not_ready last_ready)
  wait_nodes kubeconfig want last_ready (suc left) = do
    r ← try_ask env (capture_kubectl kubeconfig nodes_args)
    let again =
        ignore env (sleep 2000) >> wait_nodes kubeconfig want (shown_ready last_ready r) left
    if is_enough want r then pure tt else again

  -- `waitForNodesReady`
  unfoldable pub wait_for_nodes_ready : Config → ℕ → ℕ → Host (Unit {0})
  wait_for_nodes_ready c want attempts = wait_nodes c.kubeconfig_path want 0 attempts

  -- What follows the write to the temporary file, which goes again where the write fails.
  unfoldable pub close_temp : Text → Result HostFault HostReply → Host Text
  close_temp path (err e) = do ignore env (close_file path); ignore env (remove path); throw e
  close_temp path (ok _) = do must env (close_file path); pure path

  unfoldable pub fill_temp : Text → Text → Host Text
  fill_temp path body = try_ask env (write_file path body) >>= close_temp path

  -- `renderAgentYAML`
  unfoldable pub render_agent_yaml : Config → Text → Text → Host Text
  render_agent_yaml c server_ip token = do
    src ← of_result (lima_yaml_path c (codes "agent"))
    template ← ask env (read_file src)
    tmp ← ask env (create_temp (codes "natra-vm-rig-agent-*.yaml"))
    fill_temp tmp.output (agent_body template.output server_ip token)

  -- What follows the wait for the nodes.
  unfoldable pub show_nodes : Config → Result HostFault (Unit {0}) → Host (Unit {0})
  show_nodes c (err e) = do
    ignore env (capture_kubectl c.kubeconfig_path (words "get nodes"))
    throw e
  show_nodes c (ok _) = must env (
      run (
        plain (
          codes "env"
          ∷ (codes "KUBECONFIG=" ++ c.kubeconfig_path)
          ∷ words "kubectl get nodes -o wide")))

  -- The stages after the agent VM was made: it starts, the kubeconfig is exported, the nodes are waited for.
  unfoldable pub finish_up : Config → Host (Unit {0})
  finish_up c = do
    must env (run (lima_start c.agent_name))
    kc ← captured env (lima_shell c.server_name (words "sudo cat /etc/rancher/k3s/k3s.yaml"))
    must env (write_file c.kubeconfig_path kc)
    ready ← catch (wait_for_nodes_ready c 2 150)
    show_nodes c ready

  -- The agent VM from its rendered template, which the deferred removal covers.
  unfoldable pub join_agent : Config → Text → Text → Host (Unit {0})
  join_agent c server_ip token = do
    rendered ← render_agent_yaml c server_ip token
    finally (must env (run (lima_create c.agent_name rendered)) >> finish_up c)
        (ignore env (remove rendered))

  -- The wait for the server VM's token, with the journal on a timeout.
  unfoldable pub await_server : Config → Text → Host (Unit {0})
  await_server c token_path = do
    present ← wait_for_file c.server_name token_path 90
    let give_up =
        ignore env
          (run (lima_shell c.server_name (words "sudo journalctl -u k3s --no-pager -n 30")))
        >> throw (not_provisioned token_path)
    if present then pure tt else give_up

  unfoldable pub create_server : Config → Text → Host (Unit {0})
  create_server c template = do
    found ← lima_exists env c.server_name
    if found then pure tt else must env (run (lima_create c.server_name template))

  -- `cmdUp`
  unfoldable pub cmd_up : Bool → Config → Host (Unit {0})
  cmd_up darwin c = do
    require_prereqs
    check_socket_vmnet darwin
    template ← of_result (lima_yaml_path c (codes "server"))
    create_server c template
    must env (run (lima_start c.server_name))
    await_server c (codes "/etc/natra-node-token")
    token ← captured env (lima_shell c.server_name (words "cat /etc/natra-node-token"))
    server_ip ← captured env (lima_shell c.server_name (words "cat /etc/natra-server-ip"))
    found ← lima_exists env c.agent_name
    if found then finish_up c else join_agent c server_ip token
