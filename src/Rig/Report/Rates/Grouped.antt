-- ===== src/Rig/Report/Rates/Grouped.antt =====
-- What the rows of the sweep's table hold.
use natra.Base.{
  ◌≡◌, refl, sym, ◌∙◌, ap, Bool, true, false, ◌&&◌, ◌||◌, any, List, [], ◌∷◌, ◌++◌, map, append-nil,
  append_assoc, if◌then◌else◌, Text, text_eq, text_eq_refl, text_eq→eq, arith,
}
use natra.Bpf.Types.{Direction, ingress, egress}
use natra.Rig.Cluster.{RigEnv}
use natra.Rig.Executor.{Readings}
use natra.Rig.Executor.Iperf.{IperfCell}
use natra.Rig.Report.Rates.{
  Samples, Groups, no_groups, has_rate, samples_of, append_sample, note_rate, put_sample,
  group_cells, rows_of, rate_rows,
}

abbrev pub is_in : Direction → Direction → Bool
is_in ingress ingress = true
is_in ingress egress = false
is_in egress ingress = false
is_in egress egress = true

abbrev pub is_seen : Text → List Text → Bool
is_seen rate seen = any (λ r. text_eq r rate) seen

any-append :
    (p : Text → Bool) (xs : List Text) (y : Text) → any p (xs ++ (y ∷ [])) ≡ (any p xs || p y)
any-append p [] y = ground arith
any-append p (x ∷ xs) y = ground (arith, any-append p xs y)

seen_of_eq :
    (r q : Text) (rates : List Text) → text_eq r q ≡ true → is_seen r rates ≡ is_seen q rates
seen_of_eq r q rates e = ap (λ (s : Text). is_seen s rates) (text_eq→eq r q e)

module _ {F : Type 0} where
  samples_of-append_sample :
      (m : Samples F) (r q : Text) (x : F)
      → samples_of (append_sample m r x) q
        ≡ (if text_eq r q then samples_of m q ++ (x ∷ []) else samples_of m q)
  unfolding samples_of append_sample
  samples_of-append_sample [] r q x = ground arith
  samples_of-append_sample ((p, xs) ∷ m) r q x = ground (
    arith,
    text_eq→eq p r,
    text_eq→eq p q,
    text_eq→eq r q,
    text_eq_refl r,
    text_eq_refl q,
    samples_of-append_sample m r q x,
  )

  has_rate-append_sample :
      (m : Samples F) (r q : Text) (x : F)
      → has_rate (append_sample m r x) q ≡ (text_eq r q || has_rate m q)
  unfolding has_rate append_sample
  has_rate-append_sample [] r q x = refl
  has_rate-append_sample ((p, xs) ∷ m) r q x =
      ground (arith, text_eq→eq p r, text_eq_refl r, has_rate-append_sample m r q x)

  -- The maps and the order name the same rates.
  abbrev Known : Groups F → Type 0
  Known g =
      (q : Text) → (has_rate g.ing_by_rate q || has_rate g.eg_by_rate q) ≡ is_seen q g.rate_order

  note_rate-order :
      (g : Groups F) (r : Text)
      → Known g
      → (note_rate g r).rate_order
        ≡ (if is_seen r g.rate_order then g.rate_order else g.rate_order ++ (r ∷ []))
  unfolding note_rate
  note_rate-order g r h = ground (arith, h r)

  -- Which rates the maps name after a sample.
  put_sample-has :
      (g : Groups F) (d : Direction) (r q : Text) (x : F)
      → (has_rate (put_sample g d r x).ing_by_rate q || has_rate (put_sample g d r x).eg_by_rate q)
        ≡ (text_eq r q || (has_rate g.ing_by_rate q || has_rate g.eg_by_rate q))
  unfolding put_sample
  put_sample-has g ingress r q x = ground (arith, has_rate-append_sample g.ing_by_rate r q x)
  put_sample-has g egress r q x = ground (arith, has_rate-append_sample g.eg_by_rate r q x)

  put_sample-order :
      (g : Groups F) (d : Direction) (r : Text) (x : F)
      → (put_sample g d r x).rate_order ≡ g.rate_order
  unfolding put_sample
  put_sample-order g ingress r x = refl
  put_sample-order g egress r x = refl

  note_rate-ing : (g : Groups F) (r : Text) → (note_rate g r).ing_by_rate ≡ g.ing_by_rate
  unfolding note_rate
  note_rate-ing g r = ground arith

  note_rate-eg : (g : Groups F) (r : Text) → (note_rate g r).eg_by_rate ≡ g.eg_by_rate
  unfolding note_rate
  note_rate-eg g r = ground arith

  put_sample-ing :
      (g : Groups F) (d : Direction) (r q : Text) (x : F)
      → samples_of (put_sample g d r x).ing_by_rate q
        ≡ samples_of g.ing_by_rate q ++ (if is_in ingress d && text_eq r q then x ∷ [] else [])
  unfolding put_sample
  put_sample-ing g ingress r q x =
      samples_of-append_sample g.ing_by_rate r q x
      ∙ ground (arith, append-nil (samples_of g.ing_by_rate q))
  put_sample-ing g egress r q x = sym (append-nil (samples_of g.ing_by_rate q))

  put_sample-eg :
      (g : Groups F) (d : Direction) (r q : Text) (x : F)
      → samples_of (put_sample g d r x).eg_by_rate q
        ≡ samples_of g.eg_by_rate q ++ (if is_in egress d && text_eq r q then x ∷ [] else [])
  unfolding put_sample
  put_sample-eg g ingress r q x = sym (append-nil (samples_of g.eg_by_rate q))
  put_sample-eg g egress r q x =
      samples_of-append_sample g.eg_by_rate r q x
      ∙ ground (arith, append-nil (samples_of g.eg_by_rate q))

  -- The groups after a cell.
  abbrev after_cell : Groups F → Direction → Text → F → Groups F
  after_cell g d r x = put_sample (note_rate g r) d r x

  note_rate-seen :
      (g : Groups F) (r q : Text)
      → Known g
      → is_seen q (note_rate g r).rate_order ≡ (text_eq r q || is_seen q g.rate_order)
  note_rate-seen g r q h =
      rw (note_rate-order g r h)
        (ground (arith, any-append (λ s. text_eq s q) g.rate_order r, seen_of_eq r q g.rate_order))

  after_cell-Known :
      (g : Groups F) (d : Direction) (r : Text) (x : F) → Known g → Known (after_cell g d r x)
  after_cell-Known g d r x h q = cc (
    put_sample-has (note_rate g r) d r q x,
    note_rate-ing g r,
    note_rate-eg g r,
    put_sample-order (note_rate g r) d r x,
    h q,
    note_rate-seen g r q h,
  )

module _ (env : RigEnv) (rd : Readings) where
  -- The samples of a rate in a direction, in their order.
  abbrev pub bps_in : Direction → Text → List (IperfCell env rd) → List rd.F
  bps_in d rate [] = []
  bps_in d rate (c ∷ cells) =
      (if is_in d c.direction && text_eq c.rate rate then c.bps ∷ [] else []) ++ bps_in d rate cells

  -- The rates of the cells that are not among those seen, each once, in the order of their first cell.
  abbrev pub new_rates : List Text → List (IperfCell env rd) → List Text
  new_rates seen [] = []
  new_rates seen (c ∷ cells) =
      let old = new_rates seen cells in
      let fresh = c.rate ∷ new_rates (seen ++ (c.rate ∷ [])) cells in
      if is_seen c.rate seen then old else fresh

  -- The samples of a rate, by direction.
  abbrev by_direction : Direction → Groups rd.F → Samples rd.F
  by_direction ingress g = g.ing_by_rate
  by_direction egress g = g.eg_by_rate

  after_cell-samples :
      (e : Direction) (g : Groups rd.F) (d : Direction) (r q : Text) (x : rd.F)
      → samples_of (by_direction e (after_cell g d r x)) q
        ≡ samples_of (by_direction e g) q ++ (if is_in e d && text_eq r q then x ∷ [] else [])
  after_cell-samples ingress g d r q x =
      put_sample-ing (note_rate g r) d r q x
      ∙ ap
          (λ (m : Samples rd.F).
            samples_of m q ++ (if is_in ingress d && text_eq r q then x ∷ [] else []))
          (note_rate-ing g r)
  after_cell-samples egress g d r q x =
      put_sample-eg (note_rate g r) d r q x
      ∙ ap
          (λ (m : Samples rd.F).
            samples_of m q ++ (if is_in egress d && text_eq r q then x ∷ [] else []))
          (note_rate-eg g r)

  group_cells-samples :
      (e : Direction) (g : Groups rd.F) (cells : List (IperfCell env rd)) (q : Text)
      → samples_of (by_direction e (group_cells env rd g cells)) q
        ≡ samples_of (by_direction e g) q ++ bps_in e q cells
  unfolding group_cells
  group_cells-samples e g [] q = sym (append-nil (samples_of (by_direction e g) q))
  group_cells-samples e g (c ∷ cells) q =
      group_cells-samples e (after_cell g c.direction c.rate c.bps) cells q
      ∙ ap (λ l. l ++ bps_in e q cells) (after_cell-samples e g c.direction c.rate q c.bps)
      ∙ append_assoc (samples_of (by_direction e g) q) _ (bps_in e q cells)

  after_cell-order :
      (g : Groups rd.F) (d : Direction) (r : Text) (x : rd.F)
      → Known g
      → (after_cell g d r x).rate_order
        ≡ (if is_seen r g.rate_order then g.rate_order else g.rate_order ++ (r ∷ []))
  after_cell-order g d r x h = put_sample-order (note_rate g r) d r x ∙ note_rate-order g r h

  order_step :
      (b : Bool) (seen order : List Text) (r : Text) (cells : List (IperfCell env rd))
      → order ≡ (if b then seen else seen ++ (r ∷ []))
      → order ++ new_rates order cells
        ≡ seen ++ (if b then new_rates seen cells else r ∷ new_rates (seen ++ (r ∷ [])) cells)
  order_step true seen order r cells e = ap (λ (l : List Text). l ++ new_rates l cells) e
  order_step false seen order r cells e =
      ap (λ (l : List Text). l ++ new_rates l cells) e
      ∙ append_assoc seen (r ∷ []) (new_rates (seen ++ (r ∷ [])) cells)

  group_cells-order :
      (g : Groups rd.F) (cells : List (IperfCell env rd))
      → Known g
      → (group_cells env rd g cells).rate_order ≡ g.rate_order ++ new_rates g.rate_order cells
  unfolding group_cells
  group_cells-order g [] h = sym (append-nil g.rate_order)
  group_cells-order g (c ∷ cells) h =
      let g' = after_cell g c.direction c.rate c.bps in
      group_cells-order g' cells (after_cell-Known g c.direction c.rate c.bps h)
      ∙ order_step (is_seen c.rate g.rate_order) g.rate_order g'.rate_order c.rate cells
          (after_cell-order g c.direction c.rate c.bps h)

  -- A row of the table: a rate with its samples of both directions.
  abbrev pub row : List (IperfCell env rd) → Text → Text × List rd.F × List rd.F
  row cells rate = (rate, bps_in ingress rate cells, bps_in egress rate cells)

  rows_of-row :
      (cells : List (IperfCell env rd)) (rates : List Text)
      → rows_of env rd (group_cells env rd no_groups cells) rates ≡ map (row cells) rates
  unfolding rows_of samples_of
  rows_of-row cells [] = refl
  rows_of-row cells (rate ∷ rates) = λ i.
      (
        rate,
        group_cells-samples ingress no_groups cells rate i,
        group_cells-samples egress no_groups cells rate i,
      )
      ∷ rows_of-row cells rates i

no_groups-Known : (F : Type 0) → Known (no_groups {F = F})
unfolding has_rate
no_groups-Known F q = refl

-- The table of the sweep has one row for each rate that has a cell, in the order of their first cells, and the row
-- holds exactly the rate's samples of the ingress and of the egress direction, in their order.
pub rate_rows-eq-rows :
    (env : RigEnv) (rd : Readings) (cells : List (IperfCell env rd))
    → rate_rows env rd cells ≡ map (row env rd cells) (new_rates env rd [] cells)
unfolding rate_rows
rate_rows-eq-rows env rd cells =
    rows_of-row env rd cells (group_cells env rd no_groups cells).rate_order
    ∙ ap (map (row env rd cells)) (group_cells-order env rd no_groups cells (no_groups-Known rd.F))
