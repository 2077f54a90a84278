-- ===== src/Dataplane/Sketch/Estimate.antt =====
-- How low an estimate of the sketch can be.
use natra.Base.{
  ℕ, ◌+◌, ◌-◌, ◌*◌, ◌%◌, ◌^◌, ◌≤◌, ◌<◌, ap, List, [], ◌∷◌, All, Bool-cases, inl, inr, text_eq,
  text_eq→eq, ltb, if◌then◌else◌, arith,
}
use natra.Bpf.Types.{Direction}
use natra.Dataplane.Flow.{Bytes}
use natra.Dataplane.Sketch.{Cells, cms_seeds, cell_index, age, cms_update_and_min}
use natra.Dataplane.Sketch.Counters.{
  Counters, Seen, add, add_rows, counters_of, count, observe, observe-count, update_rows-add_rows,
}

-- A bound on the counters after the rows.
abbrev raised : ℕ → ℕ → List (ℕ × ℕ) → ℕ
raised high bytes [] = high
raised high bytes (_ ∷ rows) = raised (high + bytes) bytes rows

raised-le : (high bytes : ℕ) (rows : List (ℕ × ℕ)) → high ≤ raised high bytes rows
raised-le high bytes [] = omega arith
raised-le high bytes (_ ∷ rows) = omega (arith, raised-le (high + bytes) bytes rows)

module _ (dir : Direction) where
  add-bounds :
      (c : Counters) (idx bytes high : ℕ)
      → high + bytes < 2 ^ 64
      → ((i : ℕ) → c i ≤ high)
      → (i : ℕ) → (c i ≤ add c idx bytes i) × (add c idx bytes i ≤ high + bytes)
  unfolding add
  add-bounds c idx bytes high room below i = ground (arith, below i)

  add-here :
      (c : Counters) (idx bytes high n : ℕ)
      → high + bytes < 2 ^ 64
      → c idx ≤ high
      → n ≤ c idx
      → n + bytes ≤ add c idx bytes idx
  unfolding add
  add-here c idx bytes high n room below h = ground arith

  add_rows-bounds :
      (key : Bytes) (bytes : ℕ) (rows : List (ℕ × ℕ)) (least high : ℕ) (c : Counters)
      → raised high bytes rows < 2 ^ 64
      → ((i : ℕ) → c i ≤ high)
      → (i : ℕ)
      → (c i ≤ (add_rows dir key bytes rows least c).1 i)
        × ((add_rows dir key bytes rows least c).1 i ≤ raised high bytes rows)
  unfolding add_rows
  add_rows-bounds key bytes [] least high c room below i = (omega arith, below i)
  add_rows-bounds key bytes (row ∷ rows) least high c room below i =
      let idx = cell_index dir key row in
      let sum = (c idx + bytes) % 2 ^ 64 in
      let fits : high + bytes < 2 ^ 64 = omega (arith, raised-le (high + bytes) bytes rows) in
      let once = add-bounds c idx bytes high fits below in
      let rest =
        add_rows-bounds key bytes rows (if ltb sum least then sum else least) (high + bytes)
          (add c idx bytes) room (λ j. (once j).1) i in
      omega (arith, once i, rest)

  -- The counters of a key are all at least `n`.
  abbrev Covers : Bytes → List (ℕ × ℕ) → ℕ → Counters → Type 0
  Covers key rows n c = All (λ row. n ≤ c (cell_index dir key row)) rows

  Covers-le :
      (key : Bytes) (rows : List (ℕ × ℕ)) (n : ℕ) (c d : Counters)
      → ((i : ℕ) → c i ≤ d i)
      → Covers key rows n c
      → Covers key rows n d
  Covers-le key [] n c d le _ = tt
  Covers-le key (row ∷ rows) n c d le (h, hs) =
      (omega (arith, le (cell_index dir key row)), Covers-le key rows n c d le hs)

  add_rows-Covers :
      (key : Bytes) (bytes : ℕ) (rows : List (ℕ × ℕ)) (least high n : ℕ) (c : Counters)
      → raised high bytes rows < 2 ^ 64
      → ((i : ℕ) → c i ≤ high)
      → Covers key rows n c
      → Covers key rows (n + bytes) (add_rows dir key bytes rows least c).1
  unfolding add_rows
  add_rows-Covers key bytes [] least high n c room below _ = tt
  add_rows-Covers key bytes (row ∷ rows) least high n c room below (h, hs) =
      let idx = cell_index dir key row in
      let sum = (c idx + bytes) % 2 ^ 64 in
      let least' = if ltb sum least then sum else least in
      let fits : high + bytes < 2 ^ 64 = omega (arith, raised-le (high + bytes) bytes rows) in
      let once = add-bounds c idx bytes high fits below in
      let upper : (i : ℕ) → add c idx bytes i ≤ high + bytes = λ i. (once i).1 in
      let here : n + bytes ≤ add c idx bytes idx = add-here c idx bytes high n fits (below idx) h in
      let later =
        add_rows-bounds key bytes rows least' (high + bytes) (add c idx bytes) room upper idx in
      let grown : Covers key rows n (add c idx bytes) =
        Covers-le key rows n c (add c idx bytes) (λ i. (once i).0) hs in
      (
        omega (arith, here, later),
        add_rows-Covers key bytes rows least' (high + bytes) n (add c idx bytes) room upper grown,
      )

  -- The estimate is at least what each of the key's counters comes to.
  add_rows-le :
      (key : Bytes) (bytes : ℕ) (rows : List (ℕ × ℕ)) (least high n : ℕ) (c : Counters)
      → raised high bytes rows < 2 ^ 64
      → ((i : ℕ) → c i ≤ high)
      → Covers key rows n c
      → n + bytes ≤ least
      → n + bytes ≤ (add_rows dir key bytes rows least c).0
  unfolding add_rows
  add_rows-le key bytes [] least high n c room below _ h = h
  add_rows-le key bytes (row ∷ rows) least high n c room below (h, hs) floor =
      let idx = cell_index dir key row in
      let sum = (c idx + bytes) % 2 ^ 64 in
      let least' = if ltb sum least then sum else least in
      let fits : high + bytes < 2 ^ 64 = omega (arith, raised-le (high + bytes) bytes rows) in
      let once = add-bounds c idx bytes high fits below in
      let grown : Covers key rows n (add c idx bytes) =
        Covers-le key rows n c (add c idx bytes) (λ i. (once i).0) hs in
      let low : n + bytes ≤ least' = ground (arith, below idx) in
      add_rows-le key bytes rows least' (high + bytes) n (add c idx bytes) room (λ i. (once i).1)
        grown low

-- The bytes of all packets, and those of a key's.
unfoldable pub total_bytes : List Seen → ℕ
total_bytes [] = 0
total_bytes (p ∷ rest) = p.bytes + total_bytes rest

unfoldable pub bytes_of : Bytes → List Seen → ℕ
bytes_of key [] = 0
bytes_of key (p ∷ rest) = (if text_eq p.key key then p.bytes else 0) + bytes_of key rest

bytes_of-le : (key : Bytes) (packets : List Seen) → bytes_of key packets ≤ total_bytes packets
unfolding bytes_of total_bytes
bytes_of-le key [] = omega arith
bytes_of-le key (p ∷ rest) = ground (arith, bytes_of-le key rest)

add_rows-Covers_any :
    (dir : Direction) (key : Bytes) (p : Seen) (high n : ℕ) (c : Counters)
    → high + 4 * p.bytes < 2 ^ 64
    → ((i : ℕ) → c i ≤ high)
    → Covers dir key cms_seeds n c
    → Covers dir key cms_seeds
        (n + (if text_eq p.key key then p.bytes else 0))
        (add_rows dir p.key p.bytes cms_seeds (2 ^ 64 - 1) c).1
add_rows-Covers_any dir key p high n c room below covers = elim (Bool-cases (text_eq p.key key)) [
  | inl same ↦
      rw (same, text_eq→eq p.key key same)
        (add_rows-Covers dir key p.bytes cms_seeds (2 ^ 64 - 1) high n c (omega arith) below covers)
  | inr other ↦
      let bounds =
        add_rows-bounds dir p.key p.bytes cms_seeds (2 ^ 64 - 1) high c (omega arith) below in
      let kept : Covers dir key cms_seeds n
          (add_rows dir p.key p.bytes cms_seeds (2 ^ 64 - 1) c).1 =
        Covers-le dir key cms_seeds n c (add_rows dir p.key p.bytes cms_seeds (2 ^ 64 - 1) c).1
          (λ i. (bounds i).0) covers in
      rw other (omega arith)
]

count-Covers :
    (dir : Direction) (key : Bytes) (packets : List Seen) (high n : ℕ) (c : Counters)
    → high + 4 * total_bytes packets < 2 ^ 64
    → ((i : ℕ) → c i ≤ high)
    → Covers dir key cms_seeds n c
    → Covers dir key cms_seeds (n + bytes_of key packets) (count dir packets c).1
unfolding count total_bytes bytes_of
count-Covers dir key [] high n c room below covers = omega arith
count-Covers dir key (p ∷ rest) high n c room below covers =
    let c' = (add_rows dir p.key p.bytes cms_seeds (2 ^ 64 - 1) c).1 in
    let bounds =
      add_rows-bounds dir p.key p.bytes cms_seeds (2 ^ 64 - 1) high c (omega arith) below in
    let grown = add_rows-Covers_any dir key p high n c (omega arith) below covers in
    let most : (i : ℕ) → c' i ≤ high + 4 * p.bytes = λ i. omega (arith, bounds i) in
    let rest_covers =
      count-Covers dir key rest (high + 4 * p.bytes)
        (n + (if text_eq p.key key then p.bytes else 0)) c' (omega arith) most grown in
    omega arith

count-bounds :
    (dir : Direction) (packets : List Seen) (high : ℕ) (c : Counters)
    → high + 4 * total_bytes packets < 2 ^ 64
    → ((i : ℕ) → c i ≤ high)
    → (i : ℕ) → (count dir packets c).1 i ≤ high + 4 * total_bytes packets
unfolding count total_bytes
count-bounds dir [] high c room below i = omega (arith, below i)
count-bounds dir (p ∷ rest) high c room below i =
    let c' = (add_rows dir p.key p.bytes cms_seeds (2 ^ 64 - 1) c).1 in
    let bounds =
      add_rows-bounds dir p.key p.bytes cms_seeds (2 ^ 64 - 1) high c (omega arith) below in
    let most : (i : ℕ) → c' i ≤ high + 4 * p.bytes = λ i. omega (arith, bounds i) in
    omega (arith, count-bounds dir rest (high + 4 * p.bytes) c' (omega arith) most i)

count-estimate :
    (dir : Direction) (key : Bytes) (bytes : ℕ) (packets : List Seen) (high : ℕ) (c : Counters)
    → high + 4 * (total_bytes packets + bytes) < 2 ^ 64
    → ((i : ℕ) → c i ≤ high)
    → bytes_of key packets + bytes
      ≤ (add_rows dir key bytes cms_seeds (2 ^ 64 - 1) (count dir packets c).1).0
count-estimate dir key bytes packets high c room below =
    let c' = (count dir packets c).1 in
    let most : (i : ℕ) → c' i ≤ high + 4 * total_bytes packets =
      count-bounds dir packets high c (omega arith) below in
    let start : Covers dir key cms_seeds 0 c = omega arith in
    let covers = count-Covers dir key packets high 0 c (omega arith) below start in
    let covers' : Covers dir key cms_seeds (bytes_of key packets) c' = omega arith in
    add_rows-le dir key bytes cms_seeds (2 ^ 64 - 1) (high + 4 * total_bytes packets)
      (bytes_of key packets) c' (omega arith) most covers' (omega (arith, bytes_of-le key packets))

-- Within a decay interval the sketch never underestimates: after any packets, the estimate that a
-- packet of a flow gets is at least the bytes of the flow's packets among them plus its own. It is
-- supposed that the aged cells start at most at `high`, and that `high` and four times all bytes
-- stay below 2^64. Other flows may share cells with it.
pub cms_update_and_min-ge :
    (dir : Direction) (key : Bytes) (now_idx bytes : ℕ) (packets : List Seen) (high : ℕ)
    (cells : Cells)
    → high + 4 * (total_bytes packets + bytes) < 2 ^ 64
    → ((i : ℕ) → age now_idx (cells i) ≤ high)
    → bytes_of key packets + bytes
      ≤ (cms_update_and_min (observe dir now_idx packets cells).1 dir key now_idx bytes).0
unfolding cms_update_and_min counters_of
cms_update_and_min-ge dir key now_idx bytes packets high cells room below =
    let cells' = (observe dir now_idx packets cells).1 in
    let plain = ap (λ (r : List ℕ × Counters). r.1) (observe-count dir now_idx packets cells) in
    let same =
      ap (λ (r : ℕ × Counters). r.0)
        (update_rows-add_rows dir key now_idx bytes cms_seeds (2 ^ 64 - 1) cells') in
    rw (same, plain)
      (count-estimate dir key bytes packets high (counters_of now_idx cells) room below)
