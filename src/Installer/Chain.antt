-- ===== src/Installer/Chain.antt =====
-- What a chained conflist holds.
use natra.Base.{
  ◌≡◌, sym, ◌∙◌, ap, refl, arith, Bool, true, false, List, [], ◌∷◌, ◌++◌, Without, done, dropped,
  kept, Option, some, Bool-cases, inl, inr, Text, codes, text_eq, text_eq→eq, text_eq_refl,
}
use natra.Base.Result.{ok, ok-of->>=}
use natra.Installer.Values.{
  Json, json_array, json_object, Elements, no_elements, element, Members, json_string, find, put,
  append_element, find-put, find-put_other,
}
use natra.Installer.{
  Knobs, has_type_bandwidth, is_bandwidth, drop_bandwidth, as_array, natra_entry, chain,
}

module _ {F : Type 0} where
  -- The elements of an array as a list.
  abbrev pub list_of : Elements F → List (Json F)
  list_of no_elements = []
  list_of (element x xs) = x ∷ list_of xs

  -- A bandwidth plugin: an object whose member `type` is the text "bandwidth".
  abbrev pub IsBandwidth : Json F → Type 0
  IsBandwidth p =
      (m : Members F) × (p ≡ json_object m)
      × (find (codes "type") m ≡ some (json_string (codes "bandwidth")))

  typed_bandwidth :
      (o : Option (Json F))
      → has_type_bandwidth o ≡ true
      → o ≡ some (json_string (codes "bandwidth"))
  unfolding has_type_bandwidth
  typed_bandwidth (some (json_string t)) h =
      ap (λ (s : Text). some (json_string s)) (text_eq→eq t (codes "bandwidth") h)
  typed_bandwidth _ h = absurd cc

  is_bandwidth-IsBandwidth : (p : Json F) → is_bandwidth p ≡ true → IsBandwidth p
  unfolding is_bandwidth
  is_bandwidth-IsBandwidth (json_object m) h = (m, refl, typed_bandwidth (find (codes "type") m) h)
  is_bandwidth-IsBandwidth _ h = absurd cc

  object_bandwidth :
      (m : Members F)
      → find (codes "type") m ≡ some (json_string (codes "bandwidth"))
      → is_bandwidth (json_object m) ≡ true
  unfolding is_bandwidth has_type_bandwidth
  object_bandwidth m f = rw f (text_eq_refl (codes "bandwidth"))

  not-IsBandwidth : (p : Json F) → is_bandwidth p ≡ false → ¬ IsBandwidth p
  not-IsBandwidth p h (m, e, f) =
      let yes_ : is_bandwidth p ≡ true = ap is_bandwidth e ∙ object_bandwidth m f in absurd cc

  drop_bandwidth-Without :
      (ps : Elements F) → Without IsBandwidth (list_of ps) (list_of (drop_bandwidth ps))
  unfolding drop_bandwidth
  drop_bandwidth-Without no_elements = done
  drop_bandwidth-Without (element p ps) = elim (Bool-cases (is_bandwidth p)) [
    | inl e ↦ rw e (dropped (is_bandwidth-IsBandwidth p e) (drop_bandwidth-Without ps))
    | inr e ↦ rw e (kept (not-IsBandwidth p e) (drop_bandwidth-Without ps))
  ]

  append_element-list :
      (ps : Elements F) (x : Json F) → list_of (append_element ps x) ≡ list_of ps ++ (x ∷ [])
  unfolding append_element
  append_element-list no_elements x = refl
  append_element-list (element p ps) x =
      ap (λ (l : List (Json F)). p ∷ l) (append_element-list ps x)

  as_array_ok :
      (o : Option (Json F)) (ps : Elements F) → as_array o ≡ ok ps → o ≡ some (json_array ps)
  unfolding as_array
  as_array_ok o ps h = ground arith

  module _ (parse_float : Text → Option F) (at_most_zero : F → Bool) where
    -- A chained conflist holds the plugins of its source in their order, all but the bandwidth
    -- plugins, which are dropped, then the natra entry of the knobs and nothing else; and every
    -- other member of the source as it is.
    pub chain-plugins :
        (knobs : Knobs) (m c : Members F)
        → chain parse_float at_most_zero knobs m ≡ ok c
        → (ps : Elements F) × (qs : Elements F) × (others : List (Json F)) × (entry : Members F)
          × (find (codes "plugins") m ≡ some (json_array ps))
          × (find (codes "plugins") c ≡ some (json_array qs))
          × Without IsBandwidth (list_of ps) others
          × (natra_entry parse_float at_most_zero knobs ≡ ok entry)
          × (list_of qs ≡ others ++ (json_object entry ∷ []))
          × ((key : Text) → text_eq (codes "plugins") key ≡ false → find key c ≡ find key m)
    unfolding chain
    chain-plugins knobs m c h =
        let (ps, ep, k) = ok-of->>= (as_array (find (codes "plugins") m)) _ h in
        let (entry, ee, e) = ok-of->>= (natra_entry parse_float at_most_zero knobs) _ k in
        let qs = append_element (drop_bandwidth ps) (json_object entry) in
        let c_is : put (codes "plugins") (json_array qs) m ≡ c = cc in
        (
          ps,
          qs,
          list_of (drop_bandwidth ps),
          entry,
          as_array_ok _ ps ep,
          ap (find (codes "plugins")) (sym c_is) ∙ find-put (codes "plugins") (json_array qs) m,
          drop_bandwidth-Without ps,
          ee,
          append_element-list (drop_bandwidth ps) (json_object entry),
          λ key d.
              ap (find key) (sym c_is) ∙ find-put_other (codes "plugins") key (json_array qs) m d,
        )
