-- ===== src/Dataplane/Sketch.antt =====
-- bpf/natra.bpf.c: `cms_update_and_min`, a count-min sketch whose cells are aged when they are
-- touched. All writes are made by one program run at a time.
pub mod Counters
pub mod Estimate
use natra.Base.{ℕ, ◌+◌, ◌-◌, ◌*◌, ◌/◌, ◌%◌, ◌^◌, List, [], ◌∷◌, ltb, leb, ◌==◌, if◌then◌else◌}
use natra.Bpf.Types.{Direction, direction_key}
use natra.Dataplane.Flow.{Bytes, cms_hash}

-- `struct cms_cell`
pub record CmsCell : Type 0 where
  pub bytes : ℕ
  pub last_decay_idx : ℕ

-- `natra_cms_map`
abbrev pub Cells : Type 0
Cells = ℕ → CmsCell

abbrev pub cms_width : ℕ
cms_width = 32768

abbrev pub cms_depth : ℕ
cms_depth = 4

-- `cms_seeds`, each with its row.
abbrev pub cms_seeds : List (ℕ × ℕ)
cms_seeds = (0, 0x9e3779b1) ∷ (1, 0x85ebca77) ∷ (2, 0xc2b2ae3d) ∷ (3, 0x27d4eb2f) ∷ []

unfoldable pub cell_index : Direction → Bytes → ℕ × ℕ → ℕ
cell_index dir key (row, seed) =
    direction_key dir * (cms_width * cms_depth) + row * cms_width + cms_hash key seed % cms_width

-- `now_ns / CMS_DECAY_INTERVAL_NS` as a u32.
unfoldable pub decay_index : ℕ → ℕ
decay_index now_ns = now_ns / 2 ^ 36 % 2 ^ 32

-- `elapsed`
unfoldable pub intervals_since : CmsCell → ℕ → ℕ
intervals_since cell now_idx =
    if ltb cell.last_decay_idx now_idx then now_idx - cell.last_decay_idx else 0

-- What a cell counts after its aging.
unfoldable pub age : ℕ → CmsCell → ℕ
unfolding intervals_since
age now_idx cell =
    let elapsed = intervals_since cell now_idx in
    if leb 64 elapsed then 0 else if ltb 0 elapsed then cell.bytes / 2 ^ elapsed else cell.bytes

-- A cell after a packet.
unfoldable pub touch : ℕ → ℕ → CmsCell → CmsCell
unfolding intervals_since
touch now_idx bytes cell = record {
  bytes = (age now_idx cell + bytes) % 2 ^ 64;
  last_decay_idx = if ltb 0 (intervals_since cell now_idx) then now_idx else cell.last_decay_idx;
}

unfoldable pub set_cell : Cells → ℕ → CmsCell → Cells
set_cell cells idx cell = λ i. if i == idx then cell else cells i

-- The rounds of the loop, with the least count so far.
unfoldable pub update_rows : Direction → Bytes → ℕ → ℕ → List (ℕ × ℕ) → ℕ → Cells → ℕ × Cells
update_rows dir key now_idx bytes [] least cells = (least, cells)
update_rows dir key now_idx bytes (row ∷ rows) least cells =
    let idx = cell_index dir key row in
    let cell = touch now_idx bytes (cells idx) in
    update_rows dir key now_idx bytes rows (if ltb cell.bytes least then cell.bytes else least)
      (set_cell cells idx cell)

unfoldable pub cms_update_and_min : Cells → Direction → Bytes → ℕ → ℕ → ℕ × Cells
cms_update_and_min cells dir key now_idx bytes =
    update_rows dir key now_idx bytes cms_seeds (2 ^ 64 - 1) cells
