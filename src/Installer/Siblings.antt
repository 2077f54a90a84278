-- ===== src/Installer/Siblings.antt =====
-- What the installer writes: siblings and nothing else, each with whole contents, and none twice.
use natra.Base.{
  ℕ, ◌≡◌, refl, sym, ap, ◌∙◌, arith, ◌⊎◌, inl, inr, Bool, true, false, Option, none, some, List, [],
  ◌∷◌, ◌++◌, append_assoc, if◌then◌else◌, Bool-cases, Option-cases, Text, codes, text_eq,
  text_eq_refl, text_eq→eq, has_prefix, has_prefix-append,
}
use natra.Base.Result.{Result, ok, err}
use natra.Installer.Values.{Members}
use natra.Installer.{
  Knobs, InstallError, Entry, Files, Disk, update, read_file, remove_file, move_file, replace_file,
  up_to_date, rendered, write_rendered, write_chained_sibling, chain_each, is_skipped, install_dir,
  install_cni_chain,
}

longer-differs : (s : Text) (c : ℕ) (t : Text) → text_eq (s ++ c ∷ t) s ≡ false
unfolding text_eq
longer-differs [] c t = refl
longer-differs (x ∷ s) c t = ground (arith, longer-differs s c t)

-- A path without the prefix is no path with it.
prefix-differs : (pre s p : Text) → has_prefix p pre ≡ false → text_eq (pre ++ s) p ≡ false
prefix-differs pre s p h = elim (Bool-cases (text_eq (pre ++ s) p)) [
  | inl e ↦
      let q : has_prefix p pre ≡ true =
        ap (λ x. has_prefix x pre) (sym (text_eq→eq (pre ++ s) p e)) ∙ has_prefix-append pre s in
      absurd cc
  | inr e ↦ e
]

module _ (disk : Disk) where
  replace_file-other :
      (dst out p : Text) (files : Files)
      → text_eq dst p ≡ false
      → text_eq (dst ++ codes ".natra-tmp") p ≡ false
      → (replace_file disk dst out files).1 p ≡ files p
  unfolding replace_file move_file remove_file update
  replace_file-other dst out p files hd ht = ground arith

  -- A target is as before or whole, and whole after a success.
  replace_file-whole :
      (dst out : Text) (files : Files)
      → ((replace_file disk dst out files).1 dst ≡ files dst)
        ⊎ ((replace_file disk dst out files).1 dst ≡ some out)
  unfolding replace_file move_file remove_file update
  replace_file-whole dst out files = ground (
    arith,
    longer-differs dst b'.' (codes "natra-tmp"),
    text_eq_refl dst,
    text_eq_refl (dst ++ codes ".natra-tmp"),
  )

  replace_file-done :
      (dst out : Text) (files : Files)
      → (replace_file disk dst out files).0 ≡ ok tt
      → (replace_file disk dst out files).1 dst ≡ some out
  unfolding replace_file move_file update
  replace_file-done dst out files = ground (
    arith,
    longer-differs dst b'.' (codes "natra-tmp"),
    text_eq_refl dst,
    text_eq_refl (dst ++ codes ".natra-tmp"),
  )

  up_to_date_lem :
      (dst out : Text) (files : Files) → up_to_date disk dst out files ≡ true → files dst ≡ some out
  unfolding up_to_date read_file
  up_to_date_lem dst out files = go (disk.read_fails files dst) (files dst)
    where
      go :
          (b : Bool) (o : Option Text)
          → (elim (if b then none else o) [ none ↦ false | some existing ↦ text_eq existing out ])
            ≡ true
          → o ≡ some out
      go true o h = cc
      go false none h = cc
      go false (some existing) h = ap some (text_eq→eq existing out h)

module _ {F : Type 0} (parse_float : Text → Option F) (at_most_zero : F → Bool)
    (parse : Text → Option (Members F)) (marshal : Members F → Option Text) (disk : Disk)
    (knobs : Knobs) where
  abbrev out_of : Text → Result InstallError Text
  out_of text = rendered parse_float at_most_zero parse marshal knobs text

  abbrev write_sibling : Text → Text → Files → Result InstallError (Unit {0}) × Files
  write_sibling src dst files =
      write_chained_sibling parse_float at_most_zero parse marshal disk knobs src dst files

  write_rendered-other :
      (r : Result InstallError Text) (dst p : Text) (files : Files)
      → text_eq dst p ≡ false
      → text_eq (dst ++ codes ".natra-tmp") p ≡ false
      → (write_rendered parse_float at_most_zero parse marshal disk knobs dst r files).1 p ≡ files p
  unfolding write_rendered
  write_rendered-other (err e) dst p files hd ht = refl
  write_rendered-other (ok out) dst p files hd ht =
      ground (arith, replace_file-other disk dst out p files hd ht)

  write_sibling-other :
      (src dst p : Text) (files : Files)
      → text_eq dst p ≡ false
      → text_eq (dst ++ codes ".natra-tmp") p ≡ false
      → (write_sibling src dst files).1 p ≡ files p
  unfolding write_chained_sibling
  write_sibling-other src dst p files hd ht = elim (Option-cases (read_file disk files src)) [
    | inl e ↦ rw (e, write_chained_sibling) refl
    | inr (text, e) ↦
        rw (e, write_chained_sibling) (write_rendered-other (out_of text) dst p files hd ht)
  ]

  chain_each-other :
      (dir : Text) (entries : List Entry) (p : Text) (files : Files)
      → has_prefix p (dir ++ codes "/00-natra-") ≡ false
      → (chain_each parse_float at_most_zero parse marshal disk knobs dir entries files).1 p
        ≡ files p
  unfolding chain_each
  chain_each-other dir [] p files h = refl
  chain_each-other dir (entry ∷ entries) p files h = elim (Bool-cases (is_skipped entry)) [
    | inl e ↦ rw e (chain_each-other dir entries p files h)
    | inr e ↦
        let pre = dir ++ codes "/00-natra-" in
        let src = dir ++ (codes "/" ++ entry.name) in
        let dst = dir ++ (codes "/00-natra-" ++ entry.name) in
        let dst_is : pre ++ entry.name ≡ dst = append_assoc dir (codes "/00-natra-") entry.name in
        let tmp_is : pre ++ (entry.name ++ codes ".natra-tmp") ≡ dst ++ codes ".natra-tmp" =
          sym (append_assoc pre entry.name (codes ".natra-tmp"))
          ∙ ap (λ x. x ++ codes ".natra-tmp") dst_is in
        rw e (
          go (write_sibling src dst files)
            (write_sibling-other src dst p files
              (ap (λ x. text_eq x p) (sym dst_is) ∙ prefix-differs pre entry.name p h)
              (ap (λ x. text_eq x p) (sym tmp_is)
                ∙ prefix-differs pre (entry.name ++ codes ".natra-tmp") p h))
            (λ files'. chain_each-other dir entries p files' h))
  ]
    where
      go :
          (r : Result InstallError (Unit {0}) × Files)
          → r.1 p ≡ files p
          → ((files' : Files)
              → (chain_each parse_float at_most_zero parse marshal disk knobs dir entries files').1
                  p
                ≡ files' p)
          → (elim r.0 as (λ _. Result InstallError (Unit {0}) × Files) [
            | err e ↦ (err e, r.1)
            | ok _ ↦ chain_each parse_float at_most_zero parse marshal disk knobs dir entries r.1
          ]).1
              p
            ≡ files p
      go (err e, files') same later = same
      go (ok _, files') same later = later files' ∙ same

  -- An installation leaves every other file alone, the source conflists among them: whatever fails
  -- on the way, a file whose path does not start with the directory and "/00-natra-" has the
  -- contents that it had, or is absent as before.
  pub install_cni_chain-other :
      (read_dir : Text → Option (List Entry)) (dir p : Text) (files : Files)
      → has_prefix p (dir ++ codes "/00-natra-") ≡ false
      → (install_cni_chain parse_float at_most_zero parse marshal disk knobs read_dir
            (dir ∷ [])
            files).1
          p
        ≡ files p
  unfolding install_cni_chain install_dir
  install_cni_chain-other read_dir dir p files h = elim (Option-cases (read_dir dir)) [
    | inl e ↦ rw (e, install_dir) refl
    | inr (entries, e) ↦ rw (e, install_dir) (chain_each-other dir entries p files h)
  ]

  write_rendered-whole :
      (r : Result InstallError Text) (dst : Text) (files : Files)
      → ((write_rendered parse_float at_most_zero parse marshal disk knobs dst r files).1 dst
          ≡ files dst)
        ⊎ ((out : Text) × (r ≡ ok out)
            × ((write_rendered parse_float at_most_zero parse marshal disk knobs dst r files).1 dst
                ≡ some out))
  unfolding write_rendered
  write_rendered-whole (err e) dst files = inl refl
  write_rendered-whole (ok out) dst files = elim (Bool-cases (up_to_date disk dst out files)) [
    | inl e ↦ rw e (inl refl)
    | inr e ↦ rw e (elim (replace_file-whole disk dst out files) [
      | inl a ↦ inl a
      | inr b ↦ inr (out, refl, b)
    ])
  ]

  write_rendered-done :
      (r : Result InstallError Text) (dst : Text) (files : Files)
      → (write_rendered parse_float at_most_zero parse marshal disk knobs dst r files).0 ≡ ok tt
      → (out : Text) × (r ≡ ok out)
        × ((write_rendered parse_float at_most_zero parse marshal disk knobs dst r files).1 dst
            ≡ some out)
  unfolding write_rendered
  write_rendered-done (err e) dst files = λ h. cc
  write_rendered-done (ok out) dst files = elim (Bool-cases (up_to_date disk dst out files)) [
    | inl e ↦ rw e (λ h. (out, refl, up_to_date_lem disk dst out files e))
    | inr e ↦ rw e (λ h. (out, refl, replace_file-done disk dst out files h))
  ]

  -- What is read, if anything is.
  source_read :
      (src : Text) (files : Files)
      → (read_file disk files src ≡ none)
        ⊎ ((text : Text) × (read_file disk files src ≡ some text) × (files src ≡ some text))
  unfolding read_file
  source_read src files = elim (Bool-cases (disk.read_fails files src)) [
    | inl e ↦ inl (rw e)
    | inr e ↦ elim (Option-cases (files src)) [
      | inl d ↦ inl (rw e d)
      | inr (text, d) ↦ inr (text, rw e d, d)
    ]
  ]

  -- A sibling is never half written: whatever fails, after a run the target holds what it held
  -- before, or the whole rendering of its source.
  pub write_chained_sibling-whole :
      (src dst : Text) (files : Files)
      → ((write_sibling src dst files).1 dst ≡ files dst)
        ⊎ ((text : Text) × (out : Text) × (files src ≡ some text)
            × (out_of text ≡ ok out)
            × ((write_sibling src dst files).1 dst ≡ some out))
  unfolding write_chained_sibling
  write_chained_sibling-whole src dst files = elim (source_read src files) [
    | inl e ↦ rw (e, write_chained_sibling) (inl refl)
    | inr (text, e, d) ↦
        rw (e, write_chained_sibling)
          (elim (write_rendered-whole (out_of text) dst files) [
            | inl same ↦ inl same
            | inr (out, r, now) ↦ inr (text, out, d, r, now)
          ])
  ]

  write_sibling-done :
      (src dst : Text) (files : Files)
      → (write_sibling src dst files).0 ≡ ok tt
      → (text : Text) × (out : Text) × (files src ≡ some text)
        × (out_of text ≡ ok out)
        × ((write_sibling src dst files).1 dst ≡ some out)
  unfolding write_chained_sibling
  write_sibling-done src dst files = elim (source_read src files) [
    | inl e ↦ rw (e, write_chained_sibling) (λ h. cc)
    | inr (text, e, d) ↦
        rw (e, write_chained_sibling)
          (λ h.
            let (out, r, now) = write_rendered-done (out_of text) dst files h in
            (text, out, d, r, now))
  ]

  read_back :
      (q text : Text) (files : Files)
      → disk.read_fails files q ≡ false
      → files q ≡ some text
      → read_file disk files q ≡ some text
  unfolding read_file
  read_back q text files f e = rw (f, e)

  rewritten :
      (src dst text out : Text) (files : Files)
      → disk.read_fails files src ≡ false
      → disk.read_fails files dst ≡ false
      → files src ≡ some text
      → out_of text ≡ ok out
      → files dst ≡ some out
      → write_sibling src dst files ≡ (ok tt, files)
  unfolding write_chained_sibling write_rendered up_to_date
  rewritten src dst text out files fs fd s r d =
      rw (read_back src text files fs s, write_chained_sibling)
        (rw (r, write_rendered)
          (rw (read_back dst out files fd d, up_to_date) (rw (text_eq_refl out))))

  -- A second run writes nothing: after a run that succeeded, if the source is neither the target nor
  -- the temporary file and both can be read, another run succeeds and leaves every file as it is.
  pub write_chained_sibling-idempotent :
      (src dst : Text) (files : Files)
      → text_eq dst src ≡ false
      → text_eq (dst ++ codes ".natra-tmp") src ≡ false
      → (write_sibling src dst files).0 ≡ ok tt
      → disk.read_fails (write_sibling src dst files).1 src ≡ false
      → disk.read_fails (write_sibling src dst files).1 dst ≡ false
      → write_sibling src dst (write_sibling src dst files).1
        ≡ (ok tt, (write_sibling src dst files).1)
  write_chained_sibling-idempotent src dst files hd ht h fs fd =
      let (text, out, s, r, now) = write_sibling-done src dst files h in
      rewritten src dst text out (write_sibling src dst files).1 fs fd
        (write_sibling-other src dst src files hd ht ∙ s) r now
