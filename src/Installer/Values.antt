-- ===== src/Installer/Values.antt =====
-- JSON values as `encoding/json` decodes them into `any`, with the operations on Go's maps and slices
-- that the installer uses. `F` stands for float64. A map is a list of members, the first of a key
-- counts; the order of the others is not observable, since the encoder sorts the keys.
use natra.Base.{
  ◌≡◌, ◌∙◌, ap, Bool, false, inl, inr, Bool-cases, Option, none, some, if◌then◌else◌, Text, text_eq,
  text_eq_refl, text_eq→eq, ℤ,
}

mutual
  pub data Json (F : Type 0) : Type 0 where
    json_null : Json F
    json_bool : Bool → Json F
    json_float : F → Json F
    json_int : ℤ → Json F
    json_string : Text → Json F
    json_array : Elements F → Json F
    json_object : Members F → Json F

  pub data Elements (F : Type 0) : Type 0 where
    no_elements : Elements F
    element : Json F → Elements F → Elements F

  pub data Members (F : Type 0) : Type 0 where
    no_members : Members F
    member : Text → Json F → Members F → Members F

module _ {F : Type 0} where
  -- `m[key]`
  unfoldable pub find : Text → Members F → Option (Json F)
  find key no_members = none
  find key (member k v m) = if text_eq k key then some v else find key m

  -- `m[key] = v`
  unfoldable pub put : Text → Json F → Members F → Members F
  put key v no_members = member key v no_members
  put key v (member k w m) =
      let rest = put key v m in if text_eq k key then member k v m else member k w rest

  -- `append(xs, x)`
  unfoldable pub append_element : Elements F → Json F → Elements F
  append_element no_elements x = element x no_elements
  append_element (element y xs) x = element y (append_element xs x)

  pub find-put : (key : Text) (v : Json F) (m : Members F) → find key (put key v m) ≡ some v
  unfolding find put
  find-put key v no_members = rw (text_eq_refl key)
  find-put key v (member k w m) = elim (Bool-cases (text_eq k key)) [
    | inl e ↦ rw (e, e)
    | inr e ↦ rw (e, e) (find-put key v m)
  ]

  pub find-put_other :
      (key other : Text) (v : Json F) (m : Members F)
      → text_eq key other ≡ false
      → find other (put key v m) ≡ find other m
  unfolding find put
  find-put_other key other v no_members h = rw h
  find-put_other key other v (member k w m) h = elim (Bool-cases (text_eq k key)) [
    | inl e ↦
        let d : text_eq k other ≡ false = ap (λ x. text_eq x other) (text_eq→eq k key e) ∙ h in
        rw (e, d)
    | inr e ↦ rw (e, find-put_other key other v m h)
  ]
