-- ===== src/Tests/Conflists.antt =====
-- The installer on a directory with one conflist.
use mathlib.Core.Option
use natra.Base.{
  Without, ◌++◌, ℕ, ◌≡◌, refl, ◌⊎◌, inl, inr, Bool, true, false, Option, none, some, List, [], ◌∷◌,
  ◌++◌, if◌then◌else◌, Text, codes, text_eq, has_prefix,
}
use natra.Base.Result.{ok, err}
use natra.Installer.Values.{
  Json, json_array, json_object, json_string, Elements, element, no_elements, Members, member,
  no_members, find,
}
use natra.Installer.{
  Knobs, InstallError, Entry, Files, Disk, edt_knob, attach_knob, is_bandwidth, drop_bandwidth,
  natra_entry, chain, rendered, write_chained_sibling, install_cni_chain,
}
use natra.Installer.Chain.{IsBandwidth, list_of, chain-plugins}
use natra.Installer.Siblings.{
  install_cni_chain-other, write_chained_sibling-whole, write_chained_sibling-idempotent,
}

abbrev no_float : Text → Option ℕ
no_float _ = none

abbrev never : ℕ → Bool
never _ = false

abbrev plugin : Text → Json ℕ
plugin name = json_object (member (codes "type") (json_string name) no_members)

abbrev kindnet : Members ℕ
kindnet = member (codes "name") (json_string (codes "kindnet")) (
    member (codes "plugins")
      (json_array
        (element (plugin (codes "ptp")) (element (plugin (codes "bandwidth")) no_elements)))
      no_members)

abbrev parse_kindnet : Text → Option (Members ℕ)
parse_kindnet _ = some kindnet

abbrev print : Members ℕ → Option Text
print _ = some (codes "{chained}")

abbrev knobs : Knobs
knobs = record {
  attach_mode = codes "tcx-podside";
  default_hh_threshold = [];
  default_burst_ratio = [];
  fastpass_time_constant_ms = codes "200";
  edt_pacing = codes "yes";
}

abbrev sound : Disk
sound = record {
  read_fails = λ files p. false;
  write_fails = λ files p. false;
  rename_fails = λ files p. false;
  remove_fails = λ files p. false;
  left_over = λ files p. none;
}

abbrev source : Text
source = codes "/cni/10-kindnet.conflist"

abbrev target : Text
target = codes "/cni/00-natra-10-kindnet.conflist"

abbrev one_file : Files
one_file p = if text_eq source p then some (codes "{}") else none

abbrev listing : Text → Option (List Entry)
listing _ = some (record { name = codes "10-kindnet.conflist"; is_dir = false } ∷ [])

abbrev chained : Members ℕ
chained = elim (chain no_float never knobs kindnet) [ ok m ↦ m | err _ ↦ no_members ]

chained_ok : chain no_float never knobs kindnet ≡ ok chained
unfolding chain natra.Installer.as_array find text_eq natra_entry attach_knob natra.Base.one_of
    natra.Installer.int_knob natra.Installer.ratio_knob natra.Quantity.parse_int Option.bind
    edt_knob
chained_ok = refl

written_ok :
    (write_chained_sibling no_float never parse_kindnet print sound knobs source target one_file).0
    ≡ ok tt
unfolding write_chained_sibling natra.Installer.read_file text_eq natra.Installer.write_rendered
    rendered natra.Installer.parsed chain natra.Installer.as_array find natra_entry attach_knob
    natra.Base.one_of natra.Installer.int_knob natra.Installer.ratio_knob natra.Quantity.parse_int
    Option.bind edt_knob natra.Installer.marshalled natra.Installer.move_file
    natra.Installer.replace_file natra.Installer.up_to_date natra.Installer.update
written_ok = refl

chain-plugins_example :
    (ps : Elements ℕ) × (qs : Elements ℕ) × (others : List (Json ℕ)) × (entry : Members ℕ) × (find
        (codes "plugins")
        kindnet
      ≡ some (json_array ps))
    × (find (codes "plugins") chained ≡ some (json_array qs))
    × Without IsBandwidth (list_of ps) others
    × (natra_entry no_float never knobs ≡ ok entry)
    × (list_of qs ≡ others ++ (json_object entry ∷ []))
    × ((key : Text) → text_eq (codes "plugins") key ≡ false → find key chained ≡ find key kindnet)
chain-plugins_example = chain-plugins no_float never knobs kindnet chained chained_ok

install_cni_chain-other_example :
    (install_cni_chain no_float never parse_kindnet print sound knobs listing
        (codes "/cni" ∷ [])
        one_file).1
      source
    ≡ one_file source
unfolding has_prefix
install_cni_chain-other_example =
    install_cni_chain-other no_float never parse_kindnet print sound knobs listing (codes "/cni")
      source one_file refl

write_chained_sibling-whole_example :
    ((write_chained_sibling no_float never parse_kindnet print sound knobs source target one_file).1
        target
      ≡ one_file target)
    ⊎ ((text : Text) × (out : Text) × (one_file source ≡ some text)
        × (rendered no_float never parse_kindnet print knobs text ≡ ok out)
        × ((write_chained_sibling no_float never parse_kindnet print sound knobs source target
                one_file).1
              target
            ≡ some out))
write_chained_sibling-whole_example =
    write_chained_sibling-whole no_float never parse_kindnet print sound knobs source target
      one_file

write_chained_sibling-idempotent_example :
    write_chained_sibling no_float never parse_kindnet print sound knobs source target
      (write_chained_sibling no_float never parse_kindnet print sound knobs source target
        one_file).1
    ≡ (
      ok tt,
      (write_chained_sibling no_float never parse_kindnet print sound knobs source target
          one_file).1,
    )
unfolding text_eq
write_chained_sibling-idempotent_example =
    write_chained_sibling-idempotent no_float never parse_kindnet print sound knobs source target
      one_file refl refl written_ok refl refl
