-- ===== src/Rig/Report/Write.antt =====
-- `WriteReport` of internal/perfrig/report_write.go, with `Report` of report.go. What is printed to the terminal is
-- not modelled.
use natra.Base.{List, [], ◌∷◌, ◌++◌, if◌then◌else◌, Text, codes, is_empty}
use natra.Host.{Host, HostEnv, write_file, must, pure}
use natra.Rig.Cluster.{RigEnv}
use natra.Rig.Manifest.{newline}
use natra.Rig.Executor.{Readings}
use natra.Rig.Executor.Run.{PhaseReport}
use natra.Rig.Report.{Figures, repeat, iperf_table, mixed_table, memory_table}

module _ (env : RigEnv) (rd : Readings) (fig : Figures rd) where
  pub record Report : Type 0 where
    pub substrate : Text
    pub profile : Text
    pub phases : List (PhaseReport env rd)

  -- The text of a report. `generated` is the time.
  unfoldable pub report_text : Report → Text → Text
  report_text rep generated =
      codes "natra vs upstream bandwidth — "
      ++ rep.substrate
      ++ codes " (profile="
      ++ rep.profile
      ++ codes ")\n"
      ++ repeat 64 b'='
      ++ codes "\nGenerated "
      ++ generated
      ++ (newline ∷ [])
      ++ iperf_table rd fig env rep.phases
      ++ mixed_table rd fig env rep.phases
      ++ memory_table rd fig env rep.phases

  -- `WriteReport`
  unfoldable pub write_report : HostEnv → Report → Text → Text → Host (Unit {0})
  unfolding report_text
  write_report host rep generated path =
      if is_empty path then pure tt else must host (write_file path (report_text rep generated))
