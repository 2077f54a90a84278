-- ===== src/Rig/Report/Rates.antt =====
-- How the table of the sweep groups the cells of a phase (`writeIperfTable` of
-- internal/perfrig/report_write.go): by rate, in the order in which the rates first appear.
pub mod Grouped
use natra.Base.{Bool, true, false, ◌||◌, List, [], ◌∷◌, ◌++◌, if◌then◌else◌, Text, text_eq}
use natra.Bpf.Types.{Direction, ingress, egress}
use natra.Rig.Cluster.{RigEnv}
use natra.Rig.Executor.{Readings}
use natra.Rig.Executor.Iperf.{IperfCell}

-- A map from rates to samples.
abbrev pub Samples : Type 0 → Type 0
Samples F = List (Text × List F)

-- `rateOrder`, `ingByRate` and `egByRate`
pub record Groups (F : Type 0) : Type 0 where
  pub rate_order : List Text
  pub ing_by_rate : Samples F
  pub eg_by_rate : Samples F

module _ {F : Type 0} where
  unfoldable pub has_rate : Samples F → Text → Bool
  has_rate [] rate = false
  has_rate ((r, xs) ∷ m) rate = text_eq r rate || has_rate m rate

  unfoldable pub samples_of : Samples F → Text → List F
  samples_of [] rate = []
  samples_of ((r, xs) ∷ m) rate = if text_eq r rate then xs else samples_of m rate

  -- `m[rate] = append(m[rate], x)`
  unfoldable pub append_sample : Samples F → Text → F → Samples F
  append_sample [] rate x = (rate, x ∷ []) ∷ []
  append_sample ((r, xs) ∷ m) rate x =
      if text_eq r rate then (r, xs ++ (x ∷ [])) ∷ m else (r, xs) ∷ append_sample m rate x

  abbrev pub no_groups : Groups F
  no_groups = record { rate_order = []; ing_by_rate = []; eg_by_rate = [] }

  unfoldable pub note_rate : Groups F → Text → Groups F
  note_rate g rate =
      if has_rate g.ing_by_rate rate || has_rate g.eg_by_rate rate
      then g
      else record g { rate_order = g.rate_order ++ (rate ∷ []) }

  unfoldable pub put_sample : Groups F → Direction → Text → F → Groups F
  put_sample g ingress rate x = record g { ing_by_rate = append_sample g.ing_by_rate rate x }
  put_sample g egress rate x = record g { eg_by_rate = append_sample g.eg_by_rate rate x }

module _ (env : RigEnv) (rd : Readings) where
  -- The loop over the cells.
  unfoldable pub group_cells : Groups rd.F → List (IperfCell env rd) → Groups rd.F
  group_cells g [] = g
  group_cells g (c ∷ cells) =
      group_cells (put_sample (note_rate g c.rate) c.direction c.rate c.bps) cells

  unfoldable pub rows_of : Groups rd.F → List Text → List (Text × List rd.F × List rd.F)
  rows_of g [] = []
  rows_of g (rate ∷ rates) =
      (rate, samples_of g.ing_by_rate rate, samples_of g.eg_by_rate rate) ∷ rows_of g rates

  -- The rows of a phase: the rate, its samples of the ingress and of the egress direction.
  unfoldable pub rate_rows : List (IperfCell env rd) → List (Text × List rd.F × List rd.F)
  unfolding group_cells rows_of
  rate_rows cells = let g = group_cells no_groups cells in rows_of g g.rate_order
