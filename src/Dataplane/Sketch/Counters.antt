-- ===== src/Dataplane/Sketch/Counters.antt =====
-- The specification of the sketch within one decay interval: counters that are only added to.
use mathlib.Core.Path.{fun_ext}
use natra.Base.{
  ℕ, ◌+◌, ◌-◌, ◌%◌, ◌^◌, ◌≡◌, refl, ap, ◌∙◌, List, [], ◌∷◌, ltb, ◌==◌, if◌then◌else◌, arith,
}
use natra.Bpf.Types.{Direction}
use natra.Dataplane.Flow.{Bytes}
use natra.Dataplane.Sketch.{
  CmsCell, Cells, cms_seeds, cell_index, age, touch, set_cell, update_rows, cms_update_and_min,
}

abbrev pub Counters : Type 0
Counters = ℕ → ℕ

unfoldable pub add : Counters → ℕ → ℕ → Counters
add counters idx bytes = λ i. if i == idx then (counters i + bytes) % 2 ^ 64 else counters i

-- Adds at each row's counter, and gives the least sum.
unfoldable pub add_rows : Direction → Bytes → ℕ → List (ℕ × ℕ) → ℕ → Counters → ℕ × Counters
add_rows dir key bytes [] least counters = (least, counters)
add_rows dir key bytes (row ∷ rows) least counters =
    let idx = cell_index dir key row in
    let sum = (counters idx + bytes) % 2 ^ 64 in
    add_rows dir key bytes rows (if ltb sum least then sum else least) (add counters idx bytes)

-- The counters that the cells stand for in the interval `now_idx`.
unfoldable pub counters_of : ℕ → Cells → Counters
counters_of now_idx cells = λ i. age now_idx (cells i)

-- Some packets in the order in which they come.
pub record Seen : Type 0 where
  pub key : Bytes
  pub bytes : ℕ

unfoldable pub count : Direction → List Seen → Counters → List ℕ × Counters
count dir [] counters = ([], counters)
count dir (p ∷ rest) counters =
    let (estimate, counters') = add_rows dir p.key p.bytes cms_seeds (2 ^ 64 - 1) counters in
    let (estimates, last) = count dir rest counters' in (estimate ∷ estimates, last)

-- The same packets at the sketch, all in the interval `now_idx`.
unfoldable pub observe : Direction → ℕ → List Seen → Cells → List ℕ × Cells
observe dir now_idx [] cells = ([], cells)
observe dir now_idx (p ∷ rest) cells =
    let (estimate, cells') = cms_update_and_min cells dir p.key now_idx p.bytes in
    let (estimates, last) = observe dir now_idx rest cells' in (estimate ∷ estimates, last)

age-touch :
    (now_idx bytes : ℕ) (cell : CmsCell)
    → age now_idx (touch now_idx bytes cell) ≡ (age now_idx cell + bytes) % 2 ^ 64
unfolding age touch
age-touch now_idx bytes cell = ground arith

touch_bytes :
    (now_idx bytes : ℕ) (cell : CmsCell)
    → (touch now_idx bytes cell).bytes ≡ (age now_idx cell + bytes) % 2 ^ 64
unfolding touch
touch_bytes now_idx bytes cell = refl

counters_of-set_cell :
    (now_idx bytes : ℕ) (cells : Cells) (idx : ℕ)
    → counters_of now_idx (set_cell cells idx (touch now_idx bytes (cells idx)))
      ≡ add (counters_of now_idx cells) idx bytes
unfolding counters_of set_cell add
counters_of-set_cell now_idx bytes cells idx =
    fun_ext
      λ i. ground (arith, age-touch now_idx bytes (cells idx), age-touch now_idx bytes (cells i))

pub update_rows-add_rows :
    (dir : Direction) (key : Bytes) (now_idx bytes : ℕ) (rows : List (ℕ × ℕ)) (least : ℕ)
    (cells : Cells)
    → let (low, cells') = update_rows dir key now_idx bytes rows least cells in
      (low, counters_of now_idx cells')
      ≡ add_rows dir key bytes rows least (counters_of now_idx cells)
unfolding update_rows add_rows touch counters_of
update_rows-add_rows dir key now_idx bytes [] least cells = refl
update_rows-add_rows dir key now_idx bytes (row ∷ rows) least cells =
    let idx = cell_index dir key row in
    let cell = touch now_idx bytes (cells idx) in
    let least' = if ltb cell.bytes least then cell.bytes else least in
    update_rows-add_rows dir key now_idx bytes rows least' (set_cell cells idx cell)
    ∙ ap (add_rows dir key bytes rows least') (counters_of-set_cell now_idx bytes cells idx)

pub observe-count :
    (dir : Direction) (now_idx : ℕ) (packets : List Seen) (cells : Cells)
    → let (estimates, cells') = observe dir now_idx packets cells in
      (estimates, counters_of now_idx cells') ≡ count dir packets (counters_of now_idx cells)
unfolding observe count cms_update_and_min
observe-count dir now_idx [] cells = refl
observe-count dir now_idx (p ∷ rest) cells =
    let step = update_rows-add_rows dir p.key now_idx p.bytes cms_seeds (2 ^ 64 - 1) cells in
    let (estimate, cells') = cms_update_and_min cells dir p.key now_idx p.bytes in
    ap (λ (q : List ℕ × Counters). (estimate ∷ q.0, q.1)) (observe-count dir now_idx rest cells')
    ∙ ap (λ (r : ℕ × Counters). (r.0 ∷ (count dir rest r.1).0, (count dir rest r.1).1)) step
