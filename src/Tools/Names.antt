-- ===== src/Tools/Names.antt =====
-- The names of map pins, as profile_linux.go takes them apart.
use mathlib.Core.Option
use natra.Base.{
  suc, ◌≡◌, refl, ap, sym, append_assoc, true, Bool-cases, inl, inr, ◌==◌, Option, none, some, [],
  ◌∷◌, ◌++◌, length, All, if◌then◌else◌, Text, codes, text_eq, text_eq_refl, text_eq→eq,
  length-append, one_of, arith,
}
use natra.Bpf.Program.{map_names, map_pin_path}

-- `strings.HasSuffix` and `strings.TrimSuffix` in one.
unfoldable pub strip_suffix : Text → Text → Option Text
strip_suffix suffix [] = if text_eq [] suffix then some [] else none
strip_suffix suffix (c ∷ s) =
    let rest = strip_suffix suffix s in
    if text_eq (c ∷ s) suffix then some [] else Option.map (λ (t : Text). c ∷ t) rest

-- The text before and after the last hyphen.
unfoldable pub cut_last : Text → Option (Text × Text)
cut_last [] = none
cut_last (c ∷ s) = elim (cut_last s) [
  | some (before, after) ↦ some (c ∷ before, after)
  | none ↦ if c == b'-' then some ([], s) else none
]

-- The `switch` on the suffix.
unfoldable pub known_map : Text × Text → Option (Text × Text)
known_map (container, name) = if one_of name map_names then some (container, name) else none

-- The container and the map of an entry of the pin directory.
unfoldable pub pin_of : Text → Option (Text × Text)
pin_of entry = Option.bind (Option.bind (strip_suffix (codes "-map") entry) cut_last) known_map

abbrev pub map_pin_name : Text → Text → Text
map_pin_name container name = container ++ (codes "-" ++ (name ++ codes "-map"))

text_eq-length : (s t : Text) → text_eq s t ≡ true → length s ≡ length t
unfolding text_eq
text_eq-length s t h = ap length (text_eq→eq s t h)

strip_suffix_self : (suffix : Text) → strip_suffix suffix suffix ≡ some []
unfolding strip_suffix text_eq
strip_suffix_self [] = refl
strip_suffix_self (c ∷ s) = rw (text_eq_refl (c ∷ s)) refl

strip_suffix-append : (suffix s : Text) → strip_suffix suffix (s ++ suffix) ≡ some s
unfolding strip_suffix
strip_suffix-append suffix [] = strip_suffix_self suffix
strip_suffix-append suffix (c ∷ s) = elim (Bool-cases (text_eq (c ∷ (s ++ suffix)) suffix)) [
  | inl whole ↦
      let same : suc (length (s ++ suffix)) ≡ length suffix =
        text_eq-length (c ∷ (s ++ suffix)) suffix whole in
      absurd (omega (arith, same, length-append {0} s suffix))
  | inr longer ↦ rw (longer, strip_suffix-append suffix s) refl
]

cut_last-append :
    (before after : Text)
    → cut_last after ≡ none
    → cut_last (before ++ (b'-' ∷ after)) ≡ some (before, after)
unfolding cut_last
cut_last-append [] after h = rw h refl
cut_last-append (c ∷ before) after h = rw (cut_last-append before after h) refl

pin_of-name :
    (container name : Text)
    → cut_last name ≡ none
    → one_of name map_names ≡ true
    → pin_of (map_pin_name container name) ≡ some (container, name)
unfolding pin_of known_map Option.bind
pin_of-name container name plain known =
    let shape : map_pin_name container name ≡ (container ++ (b'-' ∷ name)) ++ codes "-map" =
      sym (append_assoc container (b'-' ∷ name) (codes "-map")) in
    rw
      (
        shape,
        strip_suffix-append (codes "-map") (container ++ (b'-' ∷ name)),
        cut_last-append container name plain,
        known,
      )
      refl

-- Every map that the plugin pins is found again: for each of the four maps, the path that PinMaps
-- uses is the directory and a name that the profiler takes apart into the container's ID and the
-- map, also where the ID holds hyphens.
pub pin_of-map_pin_path :
    (dir container : Text)
    → All
        (λ name.
          (map_pin_path dir container name ≡ dir ++ (codes "/" ++ map_pin_name container name))
          × (pin_of (map_pin_name container name) ≡ some (container, name)))
        map_names
unfolding map_pin_path
pin_of-map_pin_path dir container = (
  (
    refl,
    pin_of-name container (codes "config") (unfold cut_last in refl)
        (unfold one_of text_eq in refl),
  ),
  (
    (
      refl,
      pin_of-name container (codes "bucket") (unfold cut_last in refl)
          (unfold one_of text_eq in refl),
    ),
    (
      (
        refl,
        pin_of-name container (codes "stats") (unfold cut_last in refl)
            (unfold one_of text_eq in refl),
      ),
      (
        (
          refl,
          pin_of-name container (codes "cms") (unfold cut_last in refl)
              (unfold one_of text_eq in refl),
        ),
        tt,
      ),
    ),
  ),
)
