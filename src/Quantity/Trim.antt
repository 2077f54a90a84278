-- ===== src/Quantity/Trim.antt =====
-- `trim_space` takes the spaces off both ends of a text.
use mathlib.Core.List.{reverse-append, reverse-reverse}
use natra.Base.{
  ◌≡◌, refl, ◌∙◌, append-nil, true, false, [], ◌∷◌, ◌++◌, reverse, All, All-reverse, Text, is_space,
  trim_left, trim_space,
}

abbrev pub Spaces : Text → Type 0
Spaces = All (λ c. is_space c ≡ true)

abbrev pub NoSpaces : Text → Type 0
NoSpaces = All (λ c. is_space c ≡ false)

trim_left-append : (l s : Text) → Spaces l → trim_left (l ++ s) ≡ trim_left s
unfolding trim_left
trim_left-append [] s h = refl
trim_left-append (c ∷ l) s (hc, h) = rw hc (trim_left-append l s h)

trim_left_of_NoSpaces : (s : Text) → NoSpaces s → trim_left s ≡ s
unfolding trim_left
trim_left_of_NoSpaces [] h = refl
trim_left_of_NoSpaces (c ∷ s) (hc, h) = rw hc

trim_left-append_nil : (r : Text) → Spaces r → trim_left r ≡ []
trim_left-append_nil r h =
    rw (← append-nil r) (trim_left-append r [] h ∙ (unfold trim_left in refl))

-- A text without spaces is what is left of it between any spaces.
pub trim_space_between :
    (l s r : Text) → Spaces l → NoSpaces s → Spaces r → trim_space (l ++ (s ++ r)) ≡ s
unfolding trim_space
trim_space_between l [] r hl hs hr = rw (trim_left-append l r hl, trim_left-append_nil r hr)
trim_space_between l (c ∷ s) r hl (hc, hs) hr =
    rw (trim_left-append l (c ∷ s ++ r) hl, hc, reverse-append (c ∷ s) r)
      (rw (trim_left-append (reverse r) (reverse (c ∷ s)) (All-reverse _ r hr)) (
        rw (trim_left_of_NoSpaces (reverse (c ∷ s)) (All-reverse _ (c ∷ s) (hc, hs)))
          (reverse-reverse (c ∷ s))))
