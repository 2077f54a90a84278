-- ===== src/Installer/Agrees.antt =====
-- The knobs of the installer against the plugin that reads the conflist.
use mathlib.Core.Option
use natra.Base.{
  ◌≡◌, refl, ℕ, arith, false, Option, none, some, [], ◌∷◌, Text, codes, one_of, text_eq,
}
use natra.Base.Result.{Result, ok, err}
use natra.NetConf.{EdtMode, edt_auto, edt_on, edt_off, parse_edt_mode}
use natra.Attach.{resolve_attach_strategy}
use natra.Installer.{attach_knob, edt_knob}

-- What was accepted.
abbrev pub accepted {ℓ} : {E A : Type ℓ} → Result E A → Option A
accepted (ok a) = some a
accepted (err _) = none

parse_edt_mode_auto : parse_edt_mode [] ≡ some edt_auto
unfolding parse_edt_mode one_of text_eq
parse_edt_mode_auto = refl

parse_edt_mode_on : parse_edt_mode (codes "on") ≡ some edt_on
unfolding parse_edt_mode one_of text_eq
parse_edt_mode_on = refl

parse_edt_mode_off : parse_edt_mode (codes "off") ≡ some edt_off
unfolding parse_edt_mode one_of text_eq
parse_edt_mode_off = refl

-- The pacing mode that the plugin reads from the installed text is the mode that the variable's own
-- text stands for, and the installer refuses exactly the texts that the plugin would refuse.
edt_knob-parse_edt_mode :
    (e : Text) → Option.bind (accepted (edt_knob e)) parse_edt_mode ≡ parse_edt_mode e
unfolding edt_knob Option.bind parse_edt_mode one_of
edt_knob-parse_edt_mode e =
    ground (arith, parse_edt_mode_auto, parse_edt_mode_on, parse_edt_mode_off)

text_eq_cons : (c : ℕ) (s : Text) → text_eq (c ∷ s) [] ≡ false
unfolding text_eq
text_eq_cons c s = refl

-- The attach mode: the installed text gives the same attempts as the variable's own text under
-- every pacing mode, and the installer refuses exactly the texts that the plugin would refuse.
attach_knob-resolve :
    (mode : Text) (edt : EdtMode)
    → Option.bind (accepted (attach_knob mode)) (λ m. resolve_attach_strategy m edt)
      ≡ resolve_attach_strategy mode edt
unfolding attach_knob resolve_attach_strategy one_of Option.bind
attach_knob-resolve [] edt = refl
attach_knob-resolve (c ∷ s) edt = ground (arith, text_eq_cons c s)
