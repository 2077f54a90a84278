-- ===== src/Rig/Manifest.antt =====
-- internal/perfrig/manifest.go: how a manifest is rendered, with what it uses of package strings.
pub mod Occurs
pub mod Lines
use natra.Base.{
  ℕ, zero, suc, ◌-◌, Bool, true, false, Option, none, some, List, [], ◌∷◌, ◌++◌, ◌||◌, not, length,
  ◌==◌, if◌then◌else◌, Text, codes, is_empty, has_prefix,
}

-- `strings.Contains`
unfoldable pub contains : Text → Text → Bool
contains [] p = has_prefix [] p
contains (c ∷ s) p = has_prefix (c ∷ s) p || contains s p

-- `strings.ReplaceAll`, where `old` is not empty: `skip` characters belong to an occurrence.
unfoldable pub replace_from : Text → Text → ℕ → Text → Text
replace_from old new skip [] = []
replace_from old new (suc skip) (c ∷ s) = replace_from old new skip s
replace_from old new zero (c ∷ s) = elim (has_prefix (c ∷ s) old) [
  | true ↦ new ++ replace_from old new (length old - 1) s
  | false ↦ c ∷ replace_from old new zero s
]

unfoldable pub replace_all : Text → Text → Text → Text
unfolding replace_from
replace_all s old new = replace_from old new 0 s

abbrev pub drop : ℕ → Text → Text
drop zero s = s
drop (suc n) [] = []
drop (suc n) (c ∷ s) = drop n s

-- `strings.Replace` with the limit 1.
unfoldable pub replace_once : Text → Text → Text → Text
replace_once [] old new = []
replace_once (c ∷ s) old new =
    let rest = c ∷ replace_once s old new in
    if has_prefix (c ∷ s) old then new ++ drop (length old) (c ∷ s) else rest

-- The first pair of a `strings.Replacer` whose text stands here.
unfoldable pub first_match : List (Text × Text) → Text → Option (Text × Text)
first_match [] s = none
first_match ((old, new) ∷ pairs) s =
    if has_prefix s old then some (old, new) else first_match pairs s

-- `Replacer.Replace`, where no old text is empty.
unfoldable pub replacer_from : List (Text × Text) → ℕ → Text → Text
unfolding first_match
replacer_from pairs skip [] = []
replacer_from pairs (suc skip) (c ∷ s) = replacer_from pairs skip s
replacer_from pairs zero (c ∷ s) = elim (first_match pairs (c ∷ s)) [
  | none ↦ c ∷ replacer_from pairs zero s
  | some (old, new) ↦ new ++ replacer_from pairs (length old - 1) s
]

-- `strings.Split` at a character, and `strings.Join` with it.
abbrev pub push_char : ℕ → List Text → List Text
push_char c [] = (c ∷ []) ∷ []
push_char c (l ∷ ls) = (c ∷ l) ∷ ls

unfoldable pub split : ℕ → Text → List Text
split sep [] = [] ∷ []
split sep (c ∷ s) = let rest = split sep s in if c == sep then [] ∷ rest else push_char c rest

unfoldable pub join : Text → List Text → Text
join sep [] = []
join sep (l ∷ []) = l
join sep (l ∷ m ∷ ls) = l ++ (sep ++ join sep (m ∷ ls))

abbrev pub newline : ℕ
newline = 10

abbrev pub ingress_key : Text
ingress_key = codes "kubernetes.io/ingress-bandwidth"

abbrev pub egress_key : Text
egress_key = codes "kubernetes.io/egress-bandwidth"

unfoldable pub is_annotation : Text → Bool
is_annotation line = contains line ingress_key || contains line egress_key

-- The lines that the loop keeps.
unfoldable pub kept_lines : List Text → List Text
kept_lines [] = []
kept_lines (l ∷ ls) = let rest = kept_lines ls in if is_annotation l then rest else l ∷ rest

-- `stripBandwidthAnnotations`
unfoldable pub strip_bandwidth_annotations : Text → Text
strip_bandwidth_annotations manifest = join (newline ∷ []) (kept_lines (split newline manifest))

abbrev pub attach_mode_line : Text → Text
attach_mode_line mode_value =
    codes "- name: NATRA_ATTACH_MODE" ++ (newline ∷ codes "              value: ") ++ mode_value

-- `ApplyNatraAttachModeEnv` with the value of the variable. `quote` is the `%q` of fmt.
unfoldable pub apply_natra_attach_mode_env : (Text → Text) → Text → Text → Text
apply_natra_attach_mode_env quote mode_ manifest =
    if is_empty mode_
    then manifest
    else replace_once manifest (attach_mode_line (b'"' ∷ b'"' ∷ []))
        (attach_mode_line (quote mode_))

-- The pairs that `renderPerfManifest` replaces.
unfoldable pub perf_pairs : Text → Text → Text → Text → List (Text × Text)
perf_pairs namespace server_node worker_node image =
    (codes "PERF_WORKER_NODE", worker_node)
    ∷ (codes "PERF_CONTROL_NODE", server_node)
    ∷ (codes "namespace: natra-e2e", codes "namespace: " ++ namespace)
    ∷ (codes "ghcr.io/terraboops/natra-perfclient:vsperf", image)
    ∷ []
