-- ===== src/Rig/Manifest/Occurs.antt =====
-- What `contains` tests: that a text occurs in another.
use natra.Base.{
  ◌≡◌, refl, ap, ◌∙◌, arith, Bool, true, false, ◌||◌, Bool-cases, ◌⊎◌, inl, inr, [], ◌∷◌, ◌++◌,
  Text, has_prefix, has_prefix-append,
}
use natra.Rig.Manifest.{contains, ingress_key, egress_key, is_annotation}

-- The text `key` stands somewhere in `l`.
abbrev pub Occurs : Text → Text → Type 0
Occurs key l = (before : Text) × (after : Text) × (l ≡ before ++ (key ++ after))

-- A line that names the ingress or the egress annotation.
abbrev pub IsAnnotation : Text → Type 0
IsAnnotation l = Occurs ingress_key l ⊎ Occurs egress_key l

has_prefix-rest : (s p : Text) → has_prefix s p ≡ true → (rest : Text) × (s ≡ p ++ rest)
unfolding has_prefix
has_prefix-rest s [] h = (s, refl)
has_prefix-rest [] (b ∷ p) h = absurd cc
has_prefix-rest (a ∷ s) (b ∷ p) h =
    let here : a ≡ b = ground arith in
    let there : has_prefix s p ≡ true = ground arith in
    let (rest, e) = has_prefix-rest s p there in (rest, cc)

second_of : (a b : Bool) → a ≡ false → (a || b) ≡ true → b ≡ true
second_of true b e h = absurd cc
second_of false b e h = h

contains-Occurs : (s p : Text) → contains s p ≡ true → Occurs p s
unfolding contains
contains-Occurs [] p h = let (rest, e) = has_prefix-rest [] p h in ([], rest, e)
contains-Occurs (c ∷ s) p h = elim (Bool-cases (has_prefix (c ∷ s) p)) [
  | inl here ↦ let (rest, e) = has_prefix-rest (c ∷ s) p here in ([], rest, e)
  | inr later ↦
      let (before, after, e) = contains-Occurs s p (second_of _ _ later h) in
      (c ∷ before, after, ap (λ (t : Text). c ∷ t) e)
]

contains_here : (s p : Text) → has_prefix s p ≡ true → contains s p ≡ true
unfolding contains
contains_here [] p h = h
contains_here (c ∷ s) p h = rw h refl

contains_within : (before p after : Text) → contains (before ++ (p ++ after)) p ≡ true
unfolding contains
contains_within [] p after = contains_here (p ++ after) p (has_prefix-append p after)
contains_within (c ∷ before) p after = ground (arith, contains_within before p after)

Occurs-contains : (s p : Text) → Occurs p s → contains s p ≡ true
Occurs-contains s p (before, after, e) = ap (λ t. contains t p) e ∙ contains_within before p after

pub is_annotation-IsAnnotation : (l : Text) → is_annotation l ≡ true → IsAnnotation l
unfolding is_annotation
is_annotation-IsAnnotation l h = elim (Bool-cases (contains l ingress_key)) [
  | inl found ↦ inl (contains-Occurs l ingress_key found)
  | inr other ↦ inr (contains-Occurs l egress_key (second_of _ _ other h))
]

pub not-IsAnnotation : (l : Text) → is_annotation l ≡ false → ¬ IsAnnotation l
unfolding is_annotation
not-IsAnnotation l h (inl o) = ground (arith, Occurs-contains l ingress_key o)
not-IsAnnotation l h (inr o) = ground (arith, Occurs-contains l egress_key o)
