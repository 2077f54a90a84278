-- ===== src/VmRig/Commands.antt =====
-- cmd/vm-rig: `cmdAll` of all.go and `main` of main.go, without the usage text. The flag package is the
-- parameter `read_keep`: the value of -keep, or the status that it exits with. `compare` is
-- `cmdPerfVsVanilla` of VmRig/Compare.
pub mod Machines
use natra.Base.{ℕ, Bool, true, false, List, [], ◌∷◌, if◌then◌else◌, Text, codes, text_eq, one_of}
use natra.Base.Result.{Result, ok, err}
use natra.Host.{Host, HostEnv, HostFault, pure, catch, finally, ◌>>=◌, ◌>>◌}
use natra.Rig.Executor.{Readings}
use natra.VmRig.{Config, cmd_down}
use natra.VmRig.Up.{cmd_up}
use natra.VmRig.Install.{cmd_install}
use natra.VmRig.Asserts.{Limits, cmd_test}

unfoldable pub status_of : Result HostFault (Unit {0}) → ℕ
status_of (ok _) = 0
status_of (err _) = 1

module _ (env : HostEnv) (rd : Readings) (limits : Limits rd) (quote : Text → Text) (mode_ : Text)
    (darwin : Bool) where
  unfoldable pub up_to_test : Config → Host (Unit {0})
  up_to_test c = do cmd_up env darwin c; cmd_install env quote mode_ c; cmd_test env rd limits c

  -- `cmdAll`: without -keep the deferred `cmdDown` covers all steps.
  unfoldable pub cmd_all : Config → Bool → Host (Unit {0})
  cmd_all c true = up_to_test c
  cmd_all c false = finally (up_to_test c) (catch (cmd_down env c) >>= λ _. pure tt)

  -- How a subcommand ends: 0, or 1 with its error.
  unfoldable pub exit_with : Host (Unit {0}) → Host ℕ
  unfolding status_of
  exit_with m = catch m >>= λ r. pure (status_of r)

  unfoldable pub run_all : Config → Result ℕ Bool → Host ℕ
  run_all c (err status) = pure status
  run_all c (ok keep) = exit_with (cmd_all c keep)

  module _ (compare : Config → Host (Unit {0})) (read_keep : List Text → Result ℕ Bool) where
    -- `main`, on `os.Args` without the program's name: the exit status.
    unfoldable pub main : Config → List Text → Host ℕ
    main c [] = pure 2
    main c (cmd ∷ args) =
        if text_eq cmd (codes "up")
        then exit_with (cmd_up env darwin c)
        else if text_eq cmd (codes "install")
        then exit_with (cmd_install env quote mode_ c)
        else if text_eq cmd (codes "test")
        then exit_with (cmd_test env rd limits c)
        else if text_eq cmd (codes "perfvsvanilla")
        then exit_with (compare c)
        else if text_eq cmd (codes "down")
        then exit_with (cmd_down env c)
        else if text_eq cmd (codes "all")
        then run_all c (read_keep args)
        else if one_of cmd (codes "help" ∷ codes "-h" ∷ codes "--help" ∷ [])
        then pure 0
        else pure 2
