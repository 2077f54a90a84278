-- ===== src/Rig/Manifest/Lines.antt =====
-- A manifest without its bandwidth annotations.
use natra.Base.{
  ℕ, ◌≡◌, ◌≢◌, refl, ap, sym, subst, ◌∙◌, Bool, true, false, Bool-cases, inl, inr, List, [], ◌∷◌,
  ◌++◌, All, any, not, ◌||◌, Without, done, dropped, kept, ◌==◌, if◌then◌else◌, Text, arith,
}
use natra.Rig.Manifest.{
  split, join, push_char, newline, is_annotation, kept_lines, strip_bandwidth_annotations,
}
use natra.Rig.Manifest.Occurs.{IsAnnotation, is_annotation-IsAnnotation, not-IsAnnotation}

-- A line holds no line feed.
abbrev IsLine : Text → Type 0
IsLine l = All (λ c. (c == newline) ≡ false) l

push_char-lines :
    (c : ℕ) (ls : List Text) → (c == newline) ≡ false → All IsLine ls → All IsLine (push_char c ls)
push_char-lines c [] h hs = ((h, tt), tt)
push_char-lines c (l ∷ ls) h (hl, hs) = ((h, hl), hs)

split-lines : (s : Text) → All IsLine (split newline s)
unfolding split
split-lines [] = (tt, tt)
split-lines (c ∷ s) = elim (Bool-cases (c == newline)) [
  | inl cut ↦ rw cut (tt, split-lines s)
  | inr more ↦ rw more (push_char-lines c (split newline s) more (split-lines s))
]

push_char-ne-nil : (c : ℕ) (ls : List Text) → push_char c ls ≢ []
push_char-ne-nil c [] h = absurd cc
push_char-ne-nil c (l ∷ ls) h = absurd cc

cut-ne-nil : (b : Bool) (c : ℕ) (ls : List Text) → (if b then [] ∷ ls else push_char c ls) ≢ []
cut-ne-nil true c ls h = absurd cc
cut-ne-nil false c ls h = push_char-ne-nil c ls h

eq_of_test : (c d : ℕ) → (c == d) ≡ true → d ≡ c
eq_of_test c d h = ground arith

split-ne-nil : (s : Text) → split newline s ≢ []
unfolding split
split-ne-nil [] h = absurd cc
split-ne-nil (c ∷ s) h = cut-ne-nil (c == newline) c (split newline s) h

join-push_char :
    (c : ℕ) (ls : List Text)
    → ls ≢ []
    → join (newline ∷ []) (push_char c ls) ≡ c ∷ join (newline ∷ []) ls
unfolding join
join-push_char c [] h = absurd (h refl)
join-push_char c (l ∷ []) h = refl
join-push_char c (l ∷ m ∷ ls) h = refl

join-cut :
    (ls : List Text) → ls ≢ [] → join (newline ∷ []) ([] ∷ ls) ≡ newline ∷ join (newline ∷ []) ls
unfolding join
join-cut [] h = absurd (h refl)
join-cut (l ∷ ls) h = refl

join-split : (s : Text) → join (newline ∷ []) (split newline s) ≡ s
unfolding split join
join-split [] = refl
join-split (c ∷ s) = elim (Bool-cases (c == newline)) [
  | inl cut ↦ rw cut (
      join-cut (split newline s) (split-ne-nil s)
      ∙ ap (λ (t : Text). newline ∷ t) (join-split s)
      ∙ ap (λ (d : ℕ). d ∷ s) (eq_of_test c newline cut))
  | inr more ↦ rw more (
      join-push_char c (split newline s) (split-ne-nil s) ∙ ap (λ (t : Text). c ∷ t) (join-split s))
]

split-line : (l : Text) → IsLine l → split newline l ≡ l ∷ []
unfolding split
split-line [] _ = refl
split-line (c ∷ l) (h, hs) = rw (h, split-line l hs) refl

split-append : (l s : Text) → IsLine l → split newline (l ++ (newline ∷ s)) ≡ l ∷ split newline s
unfolding split
split-append [] s _ = refl
split-append (c ∷ l) s (h, hs) = rw (h, split-append l s hs) refl

split-join :
    (ls : List Text) → ls ≢ [] → All IsLine ls → split newline (join (newline ∷ []) ls) ≡ ls
unfolding join
split-join [] h _ = absurd (h refl)
split-join (l ∷ []) _ (hl, _) = split-line l hl
split-join (l ∷ m ∷ ls) _ (hl, hs) =
    split-append l (join (newline ∷ []) (m ∷ ls)) hl
    ∙ ap (λ (rest : List Text). l ∷ rest) (split-join (m ∷ ls) (λ e. absurd cc) hs)

-- No line names a bandwidth annotation.
abbrev pub IsUnannotated : List Text → Type 0
IsUnannotated = All (λ l. is_annotation l ≡ false)

kept_lines-IsUnannotated : (ls : List Text) → IsUnannotated (kept_lines ls)
unfolding kept_lines
kept_lines-IsUnannotated [] = tt
kept_lines-IsUnannotated (l ∷ ls) = elim (Bool-cases (is_annotation l)) [
  | inl note ↦ rw note (kept_lines-IsUnannotated ls)
  | inr plain ↦ rw plain (plain, kept_lines-IsUnannotated ls)
]

kept_lines-Without : (ls : List Text) → Without IsAnnotation ls (kept_lines ls)
unfolding kept_lines
kept_lines-Without [] = done
kept_lines-Without (l ∷ ls) = elim (Bool-cases (is_annotation l)) [
  | inl note ↦ rw note (dropped (is_annotation-IsAnnotation l note) (kept_lines-Without ls))
  | inr plain ↦ rw plain (kept (not-IsAnnotation l plain) (kept_lines-Without ls))
]

chosen-ne-nil :
    (note : Bool) (l : Text) (rest : List Text) (more : Bool)
    → (not note || more) ≡ true
    → (more ≡ true → rest ≢ [])
    → (if note then rest else l ∷ rest) ≢ []
chosen-ne-nil true l rest more h next = next h
chosen-ne-nil false l rest more h next = λ e. absurd cc

kept_lines-ne-nil :
    (ls : List Text) → any (λ l. not (is_annotation l)) ls ≡ true → kept_lines ls ≢ []
unfolding kept_lines
kept_lines-ne-nil [] h = absurd cc
kept_lines-ne-nil (l ∷ ls) h =
    chosen-ne-nil (is_annotation l) l (kept_lines ls) (any (λ l. not (is_annotation l)) ls) h
      (kept_lines-ne-nil ls)

kept_lines-fixed : (ls : List Text) → IsUnannotated ls → kept_lines ls ≡ ls
unfolding kept_lines
kept_lines-fixed [] _ = refl
kept_lines-fixed (l ∷ ls) (h, hs) = rw (h, kept_lines-fixed ls hs) refl

kept_lines-lines : (ls : List Text) → All IsLine ls → All IsLine (kept_lines ls)
unfolding kept_lines
kept_lines-lines [] _ = tt
kept_lines-lines (l ∷ ls) (h, hs) = elim (Bool-cases (is_annotation l)) [
  | inl note ↦ rw note (kept_lines-lines ls hs)
  | inr plain ↦ rw plain (h, kept_lines-lines ls hs)
]

-- If a manifest has a line that names no bandwidth annotation: read back, the stripped manifest is
-- the lines of the manifest without those in which the key of an annotation stands, every other line
-- kept in its place; no line of it is taken for an annotation, and a second run changes nothing.
pub strip_bandwidth_annotations-lines :
    (manifest : Text)
    → any (λ l. not (is_annotation l)) (split newline manifest) ≡ true
    → Without IsAnnotation
        (split newline manifest)
        (split newline (strip_bandwidth_annotations manifest))
      × IsUnannotated (split newline (strip_bandwidth_annotations manifest))
      × (strip_bandwidth_annotations (strip_bandwidth_annotations manifest)
          ≡ strip_bandwidth_annotations manifest)
unfolding strip_bandwidth_annotations
strip_bandwidth_annotations-lines manifest plain =
    let lines = split newline manifest in
    let some_line : kept_lines lines ≢ [] = kept_lines-ne-nil lines plain in
    let back : split newline (join (newline ∷ []) (kept_lines lines)) ≡ kept_lines lines =
      split-join (kept_lines lines) some_line (kept_lines-lines lines (split-lines manifest)) in
    let clean = kept_lines-IsUnannotated lines in
    (
      subst (Without IsAnnotation lines) (sym back) (kept_lines-Without lines),
      subst IsUnannotated (sym back) clean,
      ap (λ (ls : List Text). join (newline ∷ []) (kept_lines ls)) back
          ∙ ap (join (newline ∷ [])) (kept_lines-fixed (kept_lines lines) clean),
    )
