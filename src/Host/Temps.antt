-- ===== src/Host/Temps.antt =====
-- The temporary files and directories that a trace made and did not ask to remove.
use natra.Base.{
  ◌≡◌, refl, Bool, true, false, Option, none, some, List, [], ◌∷◌, if◌then◌else◌, Text, text_eq,
  text_eq_refl,
}
use natra.Base.Result.{Result, ok, err}
use natra.Base.State.{bind_result, ◌>>=◌}
use natra.Base.State.Rules.{Keeps, Moves}
use natra.Host.{
  Host, HostEnv, HostTrace, HostCall, HostReply, HostFault, create_temp, make_temp_dir, remove,
  remove_all, host_outcome, ask, ignore,
}
use natra.Host.Rules.{HostStable}

-- Whether a call makes a temporary file or directory, and which path it asks to remove.
abbrev pub makes_temp : HostCall → Bool
makes_temp (create_temp pattern_) = true
makes_temp (make_temp_dir pattern_) = true
makes_temp _ = false

abbrev pub removes : HostCall → Option Text
removes (remove path) = some path
removes (remove_all path) = some path
removes _ = none

-- A list without the first entry that is the path.
abbrev pub without : Option Text → List Text → List Text
without none paths = paths
without (some path) [] = []
without (some path) (p ∷ paths) =
    let rest = p ∷ without (some path) paths in if text_eq p path then paths else rest

abbrev pub after_made : Bool → HostReply → List Text → List Text
after_made false r paths = paths
after_made true r paths = if r.failed then paths else r.output ∷ paths

-- The paths, the latest first.
unfoldable pub temps : HostTrace → List Text
temps [] = []
temps (event ∷ t) =
    after_made (makes_temp event.call) event.reply (without (removes event.call) (temps t))

-- A trace with exactly these paths.
abbrev pub Holds : List Text → HostTrace → Type 0
Holds paths t = temps t ≡ paths

-- A call that neither makes nor removes.
pub other-Holds :
    (paths : List Text) (env : HostEnv) (c : HostCall)
    → makes_temp c ≡ false
    → removes c ≡ none
    → HostStable (Holds paths) env c
unfolding temps
other-Holds paths env c m r = record { extend = λ t h. rw (m, r) h }

pub without_first : (path : Text) (paths : List Text) → without (some path) (path ∷ paths) ≡ paths
without_first path paths = rw (text_eq_refl path)

-- A removal of the path that was made last.
pub removal-Moves :
    (path : Text) (paths : List Text) (env : HostEnv) (c : HostCall)
    → makes_temp c ≡ false
    → removes c ≡ some path
    → Moves (Holds (path ∷ paths)) (Holds paths) (ignore env c)
unfolding temps ignore
removal-Moves path paths env c m r = record {
  reach = λ t h. rw (m, r, h) (without_first path paths);
}

-- The outcome of a computation that made a path, which is its value: an error leaves none.
abbrev pub Acquired : List Text → Result HostFault Text × HostTrace → Type 0
Acquired paths (ok path, t) = Holds (path ∷ paths) t
Acquired paths (err e, t) = Holds paths t

pub record Acquires (paths : List Text) (m : Host Text) : Type 0 where
  pub gain : (t : HostTrace) → Holds paths t → Acquired paths (m t)

module _ (paths : List Text) where
  bracket_result :
      {A : Type 0} (c : HostCall) (r : HostReply) (failed : Bool) (t : HostTrace)
      (k : HostReply → Host A)
      → r.failed ≡ failed
      → makes_temp c ≡ true
      → removes c ≡ none
      → Holds paths t
      → Moves (Holds (r.output ∷ paths)) (Holds paths) (k r)
      → Holds paths (bind_result (host_outcome c r failed, record { call = c; reply = r } ∷ t) k).1
  unfolding bind_result temps
  bracket_result c r true t k e m n h body = rw (m, n, e) h
  bracket_result c r false t k e m n h body =
      body.reach (record { call = c; reply = r } ∷ t) (rw (m, n, e, h) refl)

  -- A path that a computation makes, and that what follows removes.
  pub bracket-Keeps :
      {A : Type 0} (env : HostEnv) (c : HostCall) {k : HostReply → Host A}
      → makes_temp c ≡ true
      → removes c ≡ none
      → ((r : HostReply) → Moves (Holds (r.output ∷ paths)) (Holds paths) (k r))
      → Keeps (Holds paths) (ask env c >>= k)
  unfolding ask ◌>>=◌
  bracket-Keeps env c {k} m n body = record {
    after = λ t h. bracket_result c (env t c) (env t c).failed t k refl m n h (body (env t c));
  }

  acquire_result :
      (c : HostCall) (r : HostReply) (failed : Bool) (t : HostTrace) (k : HostReply → Host Text)
      → r.failed ≡ failed
      → makes_temp c ≡ true
      → removes c ≡ none
      → Holds paths t
      → ((t' : HostTrace) → Holds (r.output ∷ paths) t' → Acquired paths (k r t'))
      → Acquired paths (bind_result (host_outcome c r failed, record { call = c; reply = r } ∷ t) k)
  unfolding bind_result temps
  acquire_result c r true t k e m n h body = rw (m, n, e) h
  acquire_result c r false t k e m n h body =
      body (record { call = c; reply = r } ∷ t) (rw (m, n, e, h) refl)

  pub made-Acquires :
      (env : HostEnv) (c : HostCall) (k : HostReply → Host Text)
      → makes_temp c ≡ true
      → removes c ≡ none
      → ((r : HostReply) (t : HostTrace) → Holds (r.output ∷ paths) t → Acquired paths (k r t))
      → Acquires paths (ask env c >>= k)
  unfolding ask ◌>>=◌
  made-Acquires env c k m n body = record {
    gain = λ t h. acquire_result c (env t c) (env t c).failed t k refl m n h (body (env t c));
  }

  bind_result-Acquired :
      {A : Type 0} (r : Result HostFault A) (t : HostTrace) (f : A → Host Text)
      → ((a : A) → Acquires paths (f a))
      → Holds paths t
      → Acquired paths (bind_result (r, t) f)
  unfolding bind_result
  bind_result-Acquired (ok a) t f hf h = (hf a).gain t h
  bind_result-Acquired (err e) t f hf h = h

  pub bind-Acquires :
      {A : Type 0} {m : Host A} {f : A → Host Text}
      → Keeps (Holds paths) m
      → ((a : A) → Acquires paths (f a))
      → Acquires paths (m >>= f)
  unfolding ◌>>=◌
  bind-Acquires {m} {f} hm hf = record {
    gain = λ t h. bind_result-Acquired (m t).0 (m t).1 f hf (hm.after t h);
  }

  bind_result-released :
      {A : Type 0} (r : Result HostFault Text) (t : HostTrace) (k : Text → Host A)
      → Acquired paths (r, t)
      → ((path : Text) → Moves (Holds (path ∷ paths)) (Holds paths) (k path))
      → Holds paths (bind_result (r, t) k).1
  unfolding bind_result
  bind_result-released (ok path) t k h hk = (hk path).reach t h
  bind_result-released (err e) t k h hk = h

  -- The removal of what was acquired.
  pub released-Keeps :
      {A : Type 0} {m : Host Text} {k : Text → Host A}
      → Acquires paths m
      → ((path : Text) → Moves (Holds (path ∷ paths)) (Holds paths) (k path))
      → Keeps (Holds paths) (m >>= k)
  unfolding ◌>>=◌
  released-Keeps {m} {k} hm hk = record {
    after = λ t h. bind_result-released (m t).0 (m t).1 k (hm.gain t h) hk;
  }

pub Keeps-Moves : {I : HostTrace → Type 0} {A : Type 0} {m : Host A} → Keeps I m → Moves I I m
Keeps-Moves h = record { reach = h.after }
