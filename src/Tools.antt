-- ===== src/Tools.antt =====
-- cmd/natra-tools: what reads the pinned maps, `dumpStats` of dump_linux.go and the snapshots of
-- profile_linux.go. Opening a pin and looking a key up is the parameter `Pins`, since the bpffs and the
-- ebpf library are outside; printing is not modelled.
pub mod Names
pub mod Snapshot
pub mod Dump
pub mod Profile
use natra.Base.{
  ◌≡◌, ◌≢◌, ◌⊎◌, inl, inr, refl, subst, arith, ℕ, zero, suc, ◌+◌, ◌*◌, ◌%◌, ◌/◌, ◌^◌, Bool, true,
  false, ltb, ◌==◌, Option, none, some, List, [], ◌∷◌, ◌++◌, if◌then◌else◌, Text, codes, text_eq,
}
use natra.Dataplane.Flow.{Bytes, byte_at}
use natra.Dataplane.Sketch.{CmsCell}

-- The answer of a lookup in the cms map.
pub data CellAnswer : Type 0 where
  cell : CmsCell → CellAnswer
  no_key : CellAnswer
  cell_error : CellAnswer

-- A pinned map that is open.
pub record PinnedMap : Type 0 where
  pub lookup_bytes : ℕ → ℕ → Option Bytes  -- the size of the array that takes the value, the key
  pub lookup_counters : ℕ → Option (List ℕ)  -- one value per CPU
  pub lookup_cell : ℕ → CellAnswer

-- The directory of the pins: the maps that open, by path, and the entries if it can be read.
pub record Pins : Type 0 where
  pub open_map : Text → Option PinnedMap
  pub entries : Option (List Text)

-- `binary.LittleEndian.Uint64(raw[from : from+8])`
unfoldable pub uint64_from : Bytes → ℕ → ℕ → ℕ
uint64_from raw from zero = 0
uint64_from raw from (suc n) = byte_at raw from + 256 * uint64_from raw (from + 1) n

abbrev pub uint64_at : Bytes → ℕ → ℕ
uint64_at raw from = uint64_from raw from 8

-- The sum over the CPUs, on uint64.
unfoldable pub sum_counters : ℕ → List ℕ → ℕ
sum_counters sum [] = sum
sum_counters sum (v ∷ vs) = sum_counters ((sum + v) % 2 ^ 64) vs

pub record CmsSummary : Type 0 where
  pub zeros : ℕ
  pub non_zero : ℕ
  pub max_bytes : ℕ
  pub total_bytes : ℕ

abbrev pub no_cells : CmsSummary
no_cells = record { zeros = 0; non_zero = 0; max_bytes = 0; total_bytes = 0 }

-- One cell of the loops over the cms map.
unfoldable pub count_cell : CmsSummary → CmsCell → CmsSummary
count_cell sum c = if c.bytes == 0 then record sum { zeros = sum.zeros + 1 } else record sum {
  non_zero = sum.non_zero + 1;
  max_bytes = if ltb sum.max_bytes c.bytes then c.bytes else sum.max_bytes;
  total_bytes = (sum.total_bytes + c.bytes) % 2 ^ 64;
}

-- How a loop over the cells ended.
pub data Scan : Type 0 where
  scanned : CmsSummary → Scan
  scan_failed : CmsSummary → Scan
  out_of_fuel : Scan

-- The loop over the cells from key `i` on: it ends at the first key that has no cell.
unfoldable pub scan_cells : PinnedMap → ℕ → ℕ → CmsSummary → Scan
scan_cells m zero i sum = out_of_fuel
scan_cells m (suc fuel) i sum = elim (m.lookup_cell i) [
  | cell c ↦ scan_cells m fuel (i + 1) (count_cell sum c)
  | no_key ↦ scanned sum
  | cell_error ↦ scan_failed sum
]

CellAnswer-cases :
    (a : CellAnswer) → ((c : CmsCell) × (a ≡ cell c)) ⊎ ((a ≡ no_key) ⊎ (a ≡ cell_error))
CellAnswer-cases (cell c) = inl (c, refl)
CellAnswer-cases no_key = inr (inl refl)
CellAnswer-cases cell_error = inr (inr refl)

-- Fuel past the first key without a cell is enough.
pub scan_cells_ends :
    (m : PinnedMap) (fuel i : ℕ) (sum : CmsSummary)
    → m.lookup_cell (i + fuel) ≡ no_key
    → scan_cells m (suc fuel) i sum ≢ out_of_fuel
unfolding scan_cells
scan_cells_ends m zero i sum h =
    let last : m.lookup_cell i ≡ no_key =
      subst (λ (k : ℕ). m.lookup_cell k ≡ no_key) (omega arith) h in
    rw (last, scan_cells) (λ q. absurd cc)
scan_cells_ends m (suc fuel) i sum h = elim (CellAnswer-cases (m.lookup_cell i)) [
  | inl (c, e) ↦
      let later : m.lookup_cell ((i + 1) + fuel) ≡ no_key =
        subst (λ (k : ℕ). m.lookup_cell k ≡ no_key) (omega arith) h in
      rw (e, scan_cells) (scan_cells_ends m fuel (i + 1) (count_cell sum c) later)
  | inr (inl e) ↦ rw (e, scan_cells) (λ q. absurd cc)
  | inr (inr e) ↦ rw (e, scan_cells) (λ q. absurd cc)
]
