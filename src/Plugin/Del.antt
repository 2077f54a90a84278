-- ===== src/Plugin/Del.antt =====
-- What a DEL removes: every pin of its container, and no pin of another whose ID has no dash.
use natra.Base.{
  ◌≡◌, ◌≢◌, ◌⊎◌, inl, inr, refl, sym, ap, ◌∙◌, ◌++◌, arith, true, false, none, List, [], ◌∷◌,
  Bool-cases, Option-cases, All, Text, codes, has_prefix, has_prefix-append, append_assoc, ◌==◌,
}
use natra.Bpf.Types.{Side, Direction}
use natra.Kernel.{Call, read_dir, remove, Reply, Trace, Env, ◌>>=◌, ◌>>◌, bind_result, ask, discard}
use natra.Kernel.Rules.{bind-Keeps, ask-Keeps, Keeps, Stable, pure-Keeps, then-Keeps, discard-Keeps}
use natra.Attach.{CmdArgs, pin_dir, link_pin_name, pin_path_for}
use natra.Plugin.{remove_pins, remove_listed, cmd_del}

abbrev pub In : Text → List Text → Type 0
In name [] = ⊥
In name (x ∷ xs) = (x ≡ name) ⊎ In name xs

-- The call stands in the trace.
abbrev pub Called : Call → Trace → Type 0
Called c [] = ⊥
Called c (e ∷ t) = (e.call ≡ c) ⊎ Called c t

abbrev pub NoDash : Text → Type 0
NoDash = All (λ c. (c == b'-') ≡ false)

-- The path of an entry of the pin directory.
abbrev pub entry_path : Text → Text
entry_path name = pin_dir ++ (codes "/" ++ name)

-- Between names without a dash, the prefix tells the containers apart.
prefix-injective :
    (c d r : Text)
    → NoDash c
    → NoDash d
    → has_prefix (d ++ (codes "-" ++ r)) (c ++ codes "-") ≡ true
    → c ≡ d
unfolding has_prefix
prefix-injective [] [] r hc hd h = refl
prefix-injective [] (y ∷ d) r hc (hy, hd) h = absurd (ground arith)
prefix-injective (x ∷ c) [] r (hx, hc) hd h = absurd (ground arith)
prefix-injective (x ∷ c) (y ∷ d) r (hx, hc) (hy, hd) h =
    ground (arith, prefix-injective c d r hc hd)

has_prefix-dash : (c r : Text) → has_prefix (c ++ (codes "-" ++ r)) (c ++ codes "-") ≡ true
has_prefix-dash c r =
    ap (λ y. has_prefix y (c ++ codes "-")) (sym (append_assoc c (codes "-") r))
    ∙ has_prefix-append (c ++ codes "-") r

has_prefix-longer :
    (c x r : Text) → has_prefix ((c ++ (codes "-" ++ x)) ++ r) (c ++ codes "-") ≡ true
has_prefix-longer c x r =
    ap (λ y. has_prefix y (c ++ codes "-")) (append_assoc c (codes "-" ++ x) r)
    ∙ has_prefix-dash c (x ++ r)

entry-injective : (x y : Text) → remove (entry_path x) ≡ remove (entry_path y) → x ≡ y
entry-injective x y e = cc

module _ (env : Env) where
  remove_pins-Keeps :
      {I : Trace → Type 0} (prefix : Text) (names : List Text)
      → ((name : Text) → has_prefix name prefix ≡ true → Stable I env (remove (entry_path name)))
      → Keeps I (remove_pins env prefix names)
  unfolding remove_pins
  remove_pins-Keeps prefix [] h = pure-Keeps tt
  remove_pins-Keeps prefix (name ∷ names) h = elim (Bool-cases (has_prefix name prefix)) [
    | inl e ↦ rw e (then-Keeps (discard-Keeps (h name e)) (remove_pins-Keeps prefix names h))
    | inr e ↦ rw e (remove_pins-Keeps prefix names h)
  ]

  Called-Stable : (c d : Call) → Stable (Called c) env d
  Called-Stable c d = record { extend = λ t h. inr h }

  remove_pins-Called :
      (prefix : Text) (names : List Text) (name : Text) (t : Trace)
      → In name names
      → has_prefix name prefix ≡ true
      → Called (remove (entry_path name)) (remove_pins env prefix names t).1
  unfolding remove_pins ◌>>◌ ◌>>=◌ bind_result discard
  remove_pins-Called prefix [] name t m h = elim m [ ]
  remove_pins-Called prefix (x ∷ names) name t (inl e) h =
      rw (ap (λ y. has_prefix y prefix) e ∙ h, remove_pins)
        ((remove_pins-Keeps prefix names
            (λ y _. Called-Stable (remove (entry_path name)) (remove (entry_path y)))).after
          _ (inl (ap (λ y. remove (entry_path y)) e)))
  remove_pins-Called prefix (x ∷ names) name t (inr m) h = elim (Bool-cases (has_prefix x prefix)) [
    | inl e ↦ rw (e, remove_pins) (remove_pins-Called prefix names name _ m h)
    | inr e ↦ rw (e, remove_pins) (remove_pins-Called prefix names name _ m h)
  ]

  -- If the pin directory can be read, then a DEL asks to remove every entry of it whose name starts
  -- with the container's ID and a dash.
  pub cmd_del-removes :
      (args : CmdArgs) (name : Text) (t : Trace)
      → (env t read_dir).error ≡ none
      → In name (env t read_dir).names
      → has_prefix name (args.container_id ++ codes "-") ≡ true
      → Called (remove (entry_path name)) (cmd_del env args t).1
  unfolding cmd_del remove_listed ◌>>=◌ bind_result ask
  cmd_del-removes args name t e m h = rw (e, cmd_del) (remove_pins-Called _ _ name _ m h)

  remove-spares :
      (c d : Text) (side : Side) (dir : Direction) (t₀ : Trace) (name : Text)
      → NoDash c
      → NoDash d
      → c ≢ d
      → has_prefix name (c ++ codes "-") ≡ true
      → Stable
          (λ t.
            Called (remove (pin_path_for d side dir)) t
            → Called (remove (pin_path_for d side dir)) t₀)
          env
          (remove (entry_path name))
  unfolding pin_path_for link_pin_name
  remove-spares c d side dir t₀ name hc hd ne h = record {
    extend = λ t i m. elim m [
      | inl e ↦ absurd (
          ne (
            prefix-injective c d _ hc hd
              (sym (ap (λ y. has_prefix y (c ++ codes "-")) (entry-injective name _ e)) ∙ h)))
      | inr m' ↦ i m'
    ];
  }

  remove_listed-Keeps :
      {I : Trace → Type 0} (prefix : Text) (r : Reply)
      → ((name : Text) → has_prefix name prefix ≡ true → Stable I env (remove (entry_path name)))
      → Keeps I (remove_listed env prefix r)
  unfolding remove_listed
  remove_listed-Keeps prefix r h = elim (Option-cases r.error) [
    | inl e ↦ rw (e, remove_listed) (remove_pins-Keeps prefix r.names h)
    | inr (x, e) ↦ rw (e, remove_listed) (pure-Keeps tt)
  ]

  cmd_del-Keeps :
      {I : Trace → Type 0} (args : CmdArgs)
      → Stable I env read_dir
      → ((name : Text)
          → has_prefix name (args.container_id ++ codes "-") ≡ true
          → Stable I env (remove (entry_path name)))
      → Keeps I (cmd_del env args)
  unfolding cmd_del
  cmd_del-Keeps args hr h = bind-Keeps (ask-Keeps hr) (λ r. remove_listed-Keeps _ r h)

  -- The pins of another container are spared: if neither ID has a dash and the IDs differ, then a
  -- DEL adds no removal of a link pin of the other container to the calls.
  pub cmd_del-spares :
      (args : CmdArgs) (d : Text) (side : Side) (dir : Direction) (t : Trace)
      → NoDash args.container_id
      → NoDash d
      → args.container_id ≢ d
      → ¬ Called (remove (pin_path_for d side dir)) t
      → ¬ Called (remove (pin_path_for d side dir)) (cmd_del env args t).1
  unfolding cmd_del
  cmd_del-spares args d side dir t hc hd ne before called = before (
      (cmd_del-Keeps args
          (record { extend = λ t' i m. elim m [ inl e ↦ absurd cc | inr m' ↦ i m' ] })
          (λ name h. remove-spares args.container_id d side dir t name hc hd ne h)).after
        t (λ m. m) called)

  -- Every link pin that an ADD makes is removed: if the pin directory can be read and lists the pin
  -- of a direction and a side of the container, then a DEL of the container asks to remove it.
  pub cmd_del-link_pin :
      (args : CmdArgs) (side : Side) (dir : Direction) (t : Trace)
      → (env t read_dir).error ≡ none
      → In (link_pin_name args.container_id side dir) (env t read_dir).names
      → Called (remove (pin_path_for args.container_id side dir)) (cmd_del env args t).1
  unfolding pin_path_for link_pin_name
  cmd_del-link_pin args side dir t e m =
      cmd_del-removes args (link_pin_name args.container_id side dir) t e m
        (has_prefix-dash args.container_id _)

  -- A DEL of a container takes the pins of another one whose ID is longer: for IDs `c` and `c-x`, a
  -- DEL of `c` asks to remove every link pin of `c-x` that the pin directory lists.
  pub cmd_del-takes_longer :
      (args : CmdArgs) (x : Text) (side : Side) (dir : Direction) (t : Trace)
      → (env t read_dir).error ≡ none
      → In (link_pin_name (args.container_id ++ (codes "-" ++ x)) side dir) (env t read_dir).names
      → Called
          (remove (pin_path_for (args.container_id ++ (codes "-" ++ x)) side dir))
          (cmd_del env args t).1
  unfolding pin_path_for link_pin_name
  cmd_del-takes_longer args x side dir t e m =
      cmd_del-removes args (link_pin_name (args.container_id ++ (codes "-" ++ x)) side dir) t e m
        (has_prefix-longer args.container_id x _)
