-- ===== src/Installer.antt =====
-- cmd/natra-tools/install.go: `installCNIChain` and `writeChainedSibling`, which write a chained copy
-- of each conflist. `encoding/json` is the parameters `parse` and `marshal`, `strconv.ParseFloat` is
-- `parse_float` and `v <= 0` on float64 is `at_most_zero`. Messages are not modelled.
pub mod Values
pub mod Chain
pub mod Agrees
pub mod Siblings
use natra.Base.{
  Bool, true, false, Option, none, some, List, [], ◌∷◌, ◌++◌, ◌||◌, not, if◌then◌else◌, Text, codes,
  is_empty, one_of, text_eq, has_prefix, ℤ, pos, leb_ℤ, any, ◌==◌,
}
use natra.Base.Result.{Result, ok, err, ◌>>=◌}
use natra.Quantity.{parse_int}
use natra.Installer.Values.{
  Json, json_bool, json_float, json_int, json_string, json_array, json_object, Elements,
  no_elements, element, Members, no_members, member, find, put, append_element,
}

-- The environment variables NATRA_*; an empty text is an unset variable.
pub record Knobs : Type 0 where
  pub attach_mode : Text
  pub default_hh_threshold : Text
  pub default_burst_ratio : Text
  pub fastpass_time_constant_ms : Text
  pub edt_pacing : Text

pub data InstallError : Type 0 where
  usage no_directory no_source bad_json no_plugins bad_attach_mode bad_hh_threshold
        bad_burst_ratio :
      InstallError
  bad_time_constant bad_edt_pacing not_marshalled not_written not_renamed : InstallError

-- The value of `attachMode`; an empty one is left out.
unfoldable pub attach_knob : Text → Result InstallError Text
attach_knob mode =
    if is_empty mode
    then ok []
    else if one_of mode (
        codes "auto"
        ∷ codes "tcx-hostside"
        ∷ codes "tcx-podside"
        ∷ codes "clsact-hostside"
        ∷ codes "clsact-podside"
        ∷ [])
    then ok mode
    else err bad_attach_mode

unfoldable pub int_knob : InstallError → Text → Result InstallError (Option ℤ)
int_knob e t = if is_empty t then ok none else elim (parse_int t) [
  | none ↦ err e
  | some v ↦ if leb_ℤ v (pos 0) then err e else ok (some v)
]

-- The value of `edtPacing`; an empty one is left out.
unfoldable pub edt_knob : Text → Result InstallError Text
edt_knob e =
    if one_of e (codes "" ∷ codes "auto" ∷ [])
    then ok []
    else if one_of e (codes "1" ∷ codes "true" ∷ codes "yes" ∷ codes "on" ∷ [])
    then ok (codes "on")
    else if one_of e (codes "0" ∷ codes "false" ∷ codes "no" ∷ codes "off" ∷ [])
    then ok (codes "off")
    else err bad_edt_pacing

-- A directory entry: its name, and whether it is a directory.
pub record Entry : Type 0 where
  pub name : Text
  pub is_dir : Bool

-- `filepath.Ext` of a name: from the last dot on.
unfoldable pub ext : Text → Text
ext [] = []
ext (c ∷ s) =
    let rest = ext s in if any (λ x. x == b'.') s then rest else if c == b'.' then c ∷ s else []

-- The entries that the loop passes over.
unfoldable pub is_skipped : Entry → Bool
is_skipped entry =
    entry.is_dir
    || not (text_eq (ext entry.name) (codes ".conflist"))
    || has_prefix entry.name (codes "00-natra-")

-- The files by their paths.
abbrev pub Files : Type 0
Files = Text → Option Text

unfoldable pub update : Text → Option Text → Files → Files
update p v files q = if text_eq p q then v else files q

-- Which operations fail, and what a write that fails leaves at its path.
pub record Disk : Type 0 where
  pub read_fails : Files → Text → Bool
  pub write_fails : Files → Text → Bool
  pub rename_fails : Files → Text → Bool
  pub remove_fails : Files → Text → Bool
  pub left_over : Files → Text → Option Text

module _ (disk : Disk) where
  unfoldable pub read_file : Files → Text → Option Text
  read_file files p = if disk.read_fails files p then none else files p

  unfoldable pub remove_file : Text → Files → Files
  remove_file p files = if disk.remove_fails files p then files else update p none files

  -- The rename at the end of `writeChainedSibling`, with the removal where it fails.
  unfoldable pub move_file : Text → Text → Files → Result InstallError (Unit {0}) × Files
  move_file tmp dst files =
      if disk.rename_fails files tmp
      then (err not_renamed, remove_file tmp files)
      else (ok tt, update tmp none (update dst (files tmp) files))

  -- The write beside the target, then the rename.
  unfoldable pub replace_file : Text → Text → Files → Result InstallError (Unit {0}) × Files
  replace_file dst out files =
      let tmp = dst ++ codes ".natra-tmp" in
      if disk.write_fails files tmp
      then (err not_written, update tmp (disk.left_over files tmp) files)
      else move_file tmp dst (update tmp (some out) files)

  -- The existing sibling has these bytes.
  unfoldable pub up_to_date : Text → Text → Files → Bool
  up_to_date dst out files = elim (read_file files dst) [
    | none ↦ false
    | some existing ↦ text_eq existing out
  ]

module _ {F : Type 0} where
  -- `m["type"] == "bandwidth"` of an element that is an object.
  unfoldable pub has_type_bandwidth : Option (Json F) → Bool
  has_type_bandwidth (some (json_string t)) = text_eq t (codes "bandwidth")
  has_type_bandwidth _ = false

  unfoldable pub is_bandwidth : Json F → Bool
  is_bandwidth (json_object m) = has_type_bandwidth (find (codes "type") m)
  is_bandwidth _ = false

  -- The loop that fills `filtered`.
  unfoldable pub drop_bandwidth : Elements F → Elements F
  drop_bandwidth no_elements = no_elements
  drop_bandwidth (element p ps) =
      let rest = drop_bandwidth ps in if is_bandwidth p then rest else element p rest

  unfoldable pub as_array : Option (Json F) → Result InstallError (Elements F)
  as_array (some (json_array ps)) = ok ps
  as_array _ = err no_plugins

  unfoldable pub put_text : Text → Text → Members F → Members F
  put_text key value m = if is_empty value then m else put key (json_string value) m

  unfoldable pub put_int : Text → Option ℤ → Members F → Members F
  put_int key none m = m
  put_int key (some v) m = put key (json_int v) m

  unfoldable pub put_float : Text → Option F → Members F → Members F
  put_float key none m = m
  put_float key (some v) m = put key (json_float v) m

  -- `natraEntry["defaults"]`, if any default is set.
  unfoldable pub put_defaults : Members F → Members F → Members F
  put_defaults no_members m = m
  put_defaults defaults m = put (codes "defaults") (json_object defaults) m

  -- The `natra` entry before the knobs.
  abbrev pub bare_entry : Members F
  bare_entry = member (codes "type") (json_string (codes "natra")) (
      member (codes "capabilities")
        (json_object (member (codes "bandwidth") (json_bool true) no_members)) no_members)

  module _ (parse_float : Text → Option F) (at_most_zero : F → Bool) where
    unfoldable pub ratio_knob : Text → Result InstallError (Option F)
    ratio_knob r = if is_empty r then ok none else elim (parse_float r) [
      | none ↦ err bad_burst_ratio
      | some v ↦ if at_most_zero v then err bad_burst_ratio else ok (some v)
    ]

    -- `natraEntry`, from all knobs.
    unfoldable pub natra_entry : Knobs → Result InstallError (Members F)
    natra_entry knobs = do
      mode ← attach_knob knobs.attach_mode
      hh ← int_knob bad_hh_threshold knobs.default_hh_threshold
      ratio ← ratio_knob knobs.default_burst_ratio
      ms ← int_knob bad_time_constant knobs.fastpass_time_constant_ms
      edt ← edt_knob knobs.edt_pacing
      ok (
          put_defaults
            (put_text (codes "edtPacing") edt (
              put_int (codes "fastPassTimeConstantMs") ms (
                put_float (codes "burstRatio") ratio
                  (put_int (codes "hhThreshold") hh no_members))))
            (put_text (codes "attachMode") mode bare_entry))

    -- `chained`
    unfoldable pub chain : Knobs → Members F → Result InstallError (Members F)
    chain knobs conflist = do
      plugins ← as_array (find (codes "plugins") conflist)
      entry ← natra_entry knobs
      ok (
          put (codes "plugins")
            (json_array (append_element (drop_bandwidth plugins) (json_object entry))) conflist)

    module _ (parse : Text → Option (Members F)) (marshal : Members F → Option Text) where
      unfoldable pub parsed : Text → Result InstallError (Members F)
      parsed text = elim (parse text) [ none ↦ err bad_json | some m ↦ ok m ]

      unfoldable pub marshalled : Members F → Result InstallError Text
      marshalled m = elim (marshal m) [ none ↦ err not_marshalled | some out ↦ ok out ]

      -- The bytes that the sibling of a source gets.
      unfoldable pub rendered : Knobs → Text → Result InstallError Text
      rendered knobs text = do
        conflist ← parsed text
        chained ← chain knobs conflist
        marshalled chained

      module _ (disk : Disk) (knobs : Knobs) where
        unfoldable pub write_rendered :
            Text → Result InstallError Text → Files → Result InstallError (Unit {0}) × Files
        write_rendered dst (err e) files = (err e, files)
        write_rendered dst (ok out) files =
            if up_to_date disk dst out files
            then (ok tt, files)
            else replace_file disk dst out files

        unfoldable pub write_chained_sibling :
            Text → Text → Files → Result InstallError (Unit {0}) × Files
        write_chained_sibling src dst files = elim (read_file disk files src) [
          | none ↦ (err no_source, files)
          | some text ↦ write_rendered dst (rendered knobs text) files
        ]

        -- The loop over the entries.
        unfoldable pub chain_each :
            Text → List Entry → Files → Result InstallError (Unit {0}) × Files
        chain_each dir [] files = (ok tt, files)
        chain_each dir (entry ∷ entries) files =
            if is_skipped entry
            then chain_each dir entries files
            else (let (r, files') =
                  write_chained_sibling (dir ++ (codes "/" ++ entry.name))
                    (dir ++ (codes "/00-natra-" ++ entry.name)) files in
                elim r [ err e ↦ (err e, files') | ok _ ↦ chain_each dir entries files' ])

        unfoldable pub install_dir :
            Text → Option (List Entry) → Files → Result InstallError (Unit {0}) × Files
        install_dir dir none files = (err no_directory, files)
        install_dir dir (some entries) files = chain_each dir entries files

        unfoldable pub install_cni_chain :
            (Text → Option (List Entry))
            → List Text
            → Files
            → Result InstallError (Unit {0}) × Files
        install_cni_chain read_dir (dir ∷ []) files = install_dir dir (read_dir dir) files
        install_cni_chain read_dir _ files = (err usage, files)
