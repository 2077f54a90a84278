-- ===== src/VmRig/Up/Temps.antt =====
-- The temporary file of `cmdUp`, which holds the token of the cluster.
use natra.Base.{◌≡◌, refl, ℕ, zero, suc, Bool, true, false, List, [], ◌∷◌, Text}
use natra.Base.Result.{Result, ok, err}
use natra.Base.State.{bind_result, pure, throw, catch, ◌>>=◌, ◌>>◌}
use natra.Base.State.Rules.{
  Keeps, pure-Keeps, throw-Keeps, bind-Keeps, then-Keeps, if-Keeps, catch-Keeps, finally-Moves,
}
use natra.Host.{
  HostEnv, HostTrace, HostReply, HostFault, close_file, write_file, ask, must, ignore, try_ask,
}
use natra.Host.Rules.{
  ask-Keeps, must-Keeps, ignore-Keeps, try_ask-Keeps, succeeds-Keeps, captured-Keeps, poll-Keeps,
  require_that-Keeps, for_all-Keeps,
}
use natra.Host.Temps.{
  temps, Holds, Acquired, Acquires, without_first, other-Holds, removal-Moves, made-Acquires,
  bind-Acquires, released-Keeps, Keeps-Moves,
}
use natra.VmRig.{Config, lima_exists}
use natra.VmRig.Up.{
  require_command, require_prereqs, socket_vmnet_exists, check_socket_vmnet, wait_for_file,
  wait_nodes, shown_ready, is_enough, wait_for_nodes_ready, of_result, close_temp, fill_temp,
  render_agent_yaml, show_nodes, finish_up, join_agent, await_server, create_server, cmd_up,
}

module _ (env : HostEnv) (paths : List Text) where
  require_prereqs-Holds : Keeps (Holds paths) (require_prereqs env)
  unfolding require_prereqs require_command
  require_prereqs-Holds = for_all-Keeps _ _ (λ bin.
      bind-Keeps (succeeds-Keeps (other-Holds paths env _ refl refl))
        (λ found. require_that-Keeps _ _))

  socket_vmnet_exists-Holds :
      (candidates : List Text) → Keeps (Holds paths) (socket_vmnet_exists env candidates)
  unfolding socket_vmnet_exists
  socket_vmnet_exists-Holds [] = pure-Keeps false
  socket_vmnet_exists-Holds (p ∷ ps) =
      bind-Keeps (succeeds-Keeps (other-Holds paths env _ refl refl))
        (λ found. if-Keeps found (pure-Keeps true) (socket_vmnet_exists-Holds ps))

  check_socket_vmnet-Holds : (darwin : Bool) → Keeps (Holds paths) (check_socket_vmnet env darwin)
  unfolding check_socket_vmnet
  check_socket_vmnet-Holds false = pure-Keeps tt
  check_socket_vmnet-Holds true =
      bind-Keeps (socket_vmnet_exists-Holds _) (λ found. require_that-Keeps _ _)

  wait_nodes-Holds :
      (kubeconfig : Text) (want last left : ℕ)
      → Keeps (Holds paths) (wait_nodes env kubeconfig want last left)
  unfolding wait_nodes
  wait_nodes-Holds kubeconfig want last zero = throw-Keeps _
  wait_nodes-Holds kubeconfig want last (suc left) =
      bind-Keeps (try_ask-Keeps (other-Holds paths env _ refl refl)) (λ r.
        if-Keeps (is_enough want r) (pure-Keeps tt) (
          then-Keeps (ignore-Keeps (other-Holds paths env _ refl refl))
            (wait_nodes-Holds kubeconfig want (shown_ready last r) left)))

  lima_exists-Holds : (name : Text) → Keeps (Holds paths) (lima_exists env name)
  unfolding lima_exists
  lima_exists-Holds name =
      bind-Keeps (catch-Keeps (captured-Keeps (other-Holds paths env _ refl refl)))
        (λ r. pure-Keeps _)

  of_result-Holds : {A : Type 0} (r : Result HostFault A) → Keeps (Holds paths) (of_result r)
  unfolding of_result
  of_result-Holds (ok a) = pure-Keeps a
  of_result-Holds (err e) = throw-Keeps e

  create_server-Holds :
      (c : Config) (template : Text) → Keeps (Holds paths) (create_server env c template)
  unfolding create_server
  create_server-Holds c template =
      bind-Keeps (lima_exists-Holds _)
        (λ found. if-Keeps found (pure-Keeps tt) (must-Keeps (other-Holds paths env _ refl refl)))

  await_server-Holds :
      (c : Config) (token_path : Text) → Keeps (Holds paths) (await_server env c token_path)
  unfolding await_server wait_for_file
  await_server-Holds c token_path =
      bind-Keeps
        (poll-Keeps 2000 90 (other-Holds paths env _ refl refl)
          (succeeds-Keeps (other-Holds paths env _ refl refl)))
        (λ present.
          if-Keeps present (pure-Keeps tt)
            (then-Keeps (ignore-Keeps (other-Holds paths env _ refl refl)) (throw-Keeps _)))

  show_nodes-Holds :
      (c : Config) (r : Result HostFault (Unit {0})) → Keeps (Holds paths) (show_nodes env c r)
  unfolding show_nodes
  show_nodes-Holds c (err e) =
      then-Keeps (ignore-Keeps (other-Holds paths env _ refl refl)) (throw-Keeps e)
  show_nodes-Holds c (ok _) = must-Keeps (other-Holds paths env _ refl refl)

  finish_up-Holds : (c : Config) → Keeps (Holds paths) (finish_up env c)
  unfolding finish_up wait_for_nodes_ready
  finish_up-Holds c = then-Keeps (must-Keeps (other-Holds paths env _ refl refl)) (
      bind-Keeps (captured-Keeps (other-Holds paths env _ refl refl)) (λ kc.
        then-Keeps (must-Keeps (other-Holds paths env _ refl refl)) (
          bind-Keeps (catch-Keeps (wait_nodes-Holds c.kubeconfig_path 2 0 150))
            (show_nodes-Holds c))))

-- The temporary file of the agent's template, where a file that was opened closes.
module _ (env : HostEnv) (paths : List Text)
    (closes : (t : HostTrace) (path : Text) → (env t (close_file path)).failed ≡ false) where
  close_temp-Acquired :
      (path : Text) (r : Result HostFault HostReply) (t : HostTrace)
      → Holds (path ∷ paths) t
      → Acquired paths (close_temp env path r t)
  unfolding close_temp ignore must ask pure throw ◌>>=◌ ◌>>◌ bind_result temps
  close_temp-Acquired path (err e) t h = rw h (without_first path paths)
  close_temp-Acquired path (ok _) t h = rw (closes t path) h

  fill_temp-Acquired :
      (path body : Text) (t : HostTrace)
      → Holds (path ∷ paths) t
      → Acquired paths (fill_temp env path body t)
  unfolding fill_temp try_ask catch ◌>>=◌ bind_result
  fill_temp-Acquired path body t h =
      close_temp-Acquired path _ _ (
        (try_ask-Keeps (other-Holds (path ∷ paths) env (write_file path body) refl refl)).after t h)

  render_agent_yaml-Acquires :
      (c : Config) (server_ip token : Text)
      → Acquires paths (render_agent_yaml env c server_ip token)
  unfolding render_agent_yaml
  render_agent_yaml-Acquires c server_ip token =
      bind-Acquires paths (of_result-Holds env paths _) (λ src.
        bind-Acquires paths (ask-Keeps (other-Holds paths env _ refl refl)) (λ template.
          made-Acquires paths env _ _ refl refl (λ tmp. fill_temp-Acquired tmp.output _)))

  join_agent-Holds :
      (c : Config) (server_ip token : Text) → Keeps (Holds paths) (join_agent env c server_ip token)
  unfolding join_agent
  join_agent-Holds c server_ip token =
      released-Keeps paths (render_agent_yaml-Acquires c server_ip token) (λ path.
        finally-Moves
          (Keeps-Moves (
            then-Keeps (must-Keeps (other-Holds (path ∷ paths) env _ refl refl))
              (finish_up-Holds env (path ∷ paths) c)))
          (removal-Moves path paths env _ refl refl))

  cmd_up-Keeps : (darwin : Bool) (c : Config) → Keeps (Holds paths) (cmd_up env darwin c)
  unfolding cmd_up
  cmd_up-Keeps darwin c = then-Keeps (require_prereqs-Holds env paths) (
      then-Keeps (check_socket_vmnet-Holds env paths darwin) (
        bind-Keeps (of_result-Holds env paths _) (λ template.
          then-Keeps (create_server-Holds env paths c template) (
            then-Keeps (must-Keeps (other-Holds paths env _ refl refl)) (
              then-Keeps (await_server-Holds env paths c _) (
                bind-Keeps (captured-Keeps (other-Holds paths env _ refl refl)) (λ token.
                  bind-Keeps (captured-Keeps (other-Holds paths env _ refl refl)) (λ server_ip.
                    bind-Keeps (lima_exists-Holds env paths _) (λ found.
                      if-Keeps found (finish_up-Holds env paths c)
                        (join_agent-Holds c server_ip token))))))))))

-- On a host where a file that was opened closes, `cmdUp` leaves no temporary file: wherever it fails, and whatever
-- its other calls return, the template that it rendered, which holds the token, was asked to be removed, and no file
-- that was there before.
pub cmd_up-Holds :
    (env : HostEnv) (darwin : Bool) (c : Config) (t : HostTrace)
    → ((t' : HostTrace) (path : Text) → (env t' (close_file path)).failed ≡ false)
    → temps (cmd_up env darwin c t).1 ≡ temps t
cmd_up-Holds env darwin c t closes = (cmd_up-Keeps env (temps t) closes darwin c).after t refl
