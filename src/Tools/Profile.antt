-- ===== src/Tools/Profile.antt =====
-- `profileCmd`, `takeSnapshot` and `collectProgramStats` of cmd/natra-tools/profile_linux.go, and `main` of
-- main.go. What a round reads of the kernel is the parameter `Round`; the clock, the encoder and the heap profile are
-- not modelled.
use natra.Base.{
  ℕ, Bool, ◌||◌, Option, none, some, List, [], ◌∷◌, if◌then◌else◌, Text, codes, text_eq, is_empty,
  has_prefix, ℤ, pos,
}
use natra.Base.Result.{Result, ok, err}
use natra.Tools.{Pins}
use natra.Tools.Snapshot.{PodSnapshot, collect_pod_snapshots}

pub record ProgramStats : Type 0 where
  pub runtime_ns : ℤ
  pub run_count : ℕ
  pub recursion_misses : ℕ

-- What the ebpf library gives of a loaded program.
pub record ProgramInfo : Type 0 where
  pub name : Text
  pub tag : Text
  pub verified_insns : Option ℕ
  pub stats : Option ProgramStats

-- The loaded programs: their IDs in order, and the information of one that opens, if it is given.
pub record Programs : Type 0 where
  pub ids : List ℕ
  pub open_program : ℕ → Option (Option ProgramInfo)

-- `progSnapshot`
pub record ProgSnapshot : Type 0 where
  pub id : ℕ
  pub name : Text
  pub tag : Text
  pub runtime_ns : ℤ
  pub run_count : ℕ
  pub rec_misses : ℕ
  pub insn_count : ℕ

abbrev pub is_ours : Text → Bool
is_ours name = has_prefix name (codes "natra_") || has_prefix name (codes "vanilla_")

abbrev pub or_zero : Option ℕ → ℕ
or_zero none = 0
or_zero (some n) = n

unfoldable pub with_stats : ProgSnapshot → Option ProgramStats → ProgSnapshot
with_stats rec none = rec
with_stats rec (some s) = record rec {
  runtime_ns = s.runtime_ns;
  run_count = s.run_count;
  rec_misses = s.recursion_misses;
}

unfoldable pub program_record : ℕ → ProgramInfo → ProgSnapshot
unfolding with_stats
program_record id info =
    with_stats
      (record {
        id = id;
        name = info.name;
        tag = info.tag;
        runtime_ns = pos 0;
        run_count = 0;
        rec_misses = 0;
        insn_count = or_zero info.verified_insns;
      })
      info.stats

-- What a program adds to the records.
unfoldable pub add_program : ℕ → Option (Option ProgramInfo) → List ProgSnapshot → List ProgSnapshot
unfolding program_record
add_program id none rest = rest
add_program id (some none) rest = rest
add_program id (some (some info)) rest =
    if is_ours info.name then program_record id info ∷ rest else rest

unfoldable pub program_stats : Programs → List ℕ → List ProgSnapshot
unfolding add_program
program_stats p [] = []
program_stats p (id ∷ ids) = add_program id (p.open_program id) (program_stats p ids)

-- `collectProgramStats`
unfoldable pub collect_program_stats : Programs → List ProgSnapshot
unfolding program_stats
collect_program_stats p = program_stats p p.ids

-- `snapshot`, without its time.
pub record Snapshot : Type 0 where
  pub programs : List ProgSnapshot
  pub pods : List PodSnapshot

-- What a round reads, and whether a tick ends the wait after it, not a signal.
pub record Round : Type 0 where
  pub pins : Pins
  pub programs : Programs
  pub ticked : Bool

-- `takeSnapshot`
unfoldable pub take_snapshot : Text → ℕ → Round → Snapshot
take_snapshot dir fuel r = record {
  programs = collect_program_stats r.programs;
  pods = collect_pod_snapshots r.pins dir fuel;
}

-- The loop of `profileCmd`: the snapshots that it encodes.
unfoldable pub profile_loop : Bool → Text → ℕ → List Round → List Snapshot
profile_loop once dir fuel [] = []
profile_loop once dir fuel (r ∷ rounds) =
    let more = take_snapshot dir fuel r ∷ profile_loop once dir fuel rounds in
    if once
    then take_snapshot dir fuel r ∷ []
    else if r.ticked
    then more
    else take_snapshot dir fuel r ∷ []

pub data ProfileFault : Type 0 where
  stats_disabled no_output no_heap_dir : ProfileFault

-- The flags of `profile`, and which steps before the loop work.
pub record ProfileSetup : Type 0 where
  pub output : Text
  pub heap_dir : Text
  pub pin_dir : Text
  pub once : Bool
  pub stats_enabled : Bool
  pub output_created : Bool
  pub heap_dir_made : Bool

-- `profileCmd`
unfoldable pub profile_cmd : ProfileSetup → ℕ → List Round → Result ProfileFault (List Snapshot)
profile_cmd s fuel rounds =
    if s.stats_enabled
    then (if is_empty s.output || s.output_created
        then (if is_empty s.heap_dir || s.heap_dir_made
            then ok (profile_loop s.once s.pin_dir fuel rounds)
            else err no_heap_dir)
        else err no_output)
    else err stats_disabled

-- `main`: the exit status, from whether each command ends well with the arguments after it.
unfoldable pub tools_main : (install dump profile : List Text → Bool) → List Text → ℕ
tools_main install dump profile [] = 64
tools_main install dump profile (cmd ∷ args) =
    if text_eq cmd (codes "install-cni-chain")
    then (if install args then 0 else 1)
    else if text_eq cmd (codes "dump-stats")
    then (if dump args then 0 else 1)
    else if text_eq cmd (codes "profile")
    then (if profile args then 0 else 1)
    else 64
