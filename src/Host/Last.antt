-- ===== src/Host/Last.antt =====
-- The call that was made last, and that it worked.
use natra.Base.{◌≡◌, refl, Bool, true, false, [], ◌∷◌}
use natra.Base.Result.{Result, ok, err}
use natra.Base.State.{bind_result, pure, ◌>>=◌}
use natra.Base.State.Ends.{Ends}
use natra.Host.{HostEnv, HostTrace, HostCall, HostReply, HostFault, host_outcome, ask, must}

-- The call that was made last.
abbrev pub LastCall : HostCall → HostTrace → Type 0
LastCall c [] = ⊥
LastCall c (event ∷ t) = event.call ≡ c

-- The call that was made last, which worked.
abbrev pub LastWorked : HostCall → HostTrace → Type 0
LastWorked c [] = ⊥
LastWorked c (event ∷ t) = (event.call ≡ c) × (event.reply.failed ≡ false)

-- The call that was made last, which failed.
abbrev pub LastFailed : HostCall → HostTrace → Type 0
LastFailed c [] = ⊥
LastFailed c (event ∷ t) = (event.call ≡ c) × (event.reply.failed ≡ true)

outcome_worked :
    (c : HostCall) (r : HostReply) (b : Bool) (reply : HostReply)
    → host_outcome c r b ≡ ok reply
    → b ≡ false
outcome_worked c r true reply h = absurd cc
outcome_worked c r false reply h = refl

pub ask-Ends : (env : HostEnv) (c : HostCall) → Ends (LastWorked c) (ask env c)
unfolding ask
ask-Ends env c = record {
  reached = λ t reply h. (refl, outcome_worked c (env t c) (env t c).failed reply h);
}

done_of :
    (t : HostTrace) (r : Result HostFault HostReply)
    → (bind_result (r, t) (λ _. pure tt)).0 ≡ ok tt
    → (reply : HostReply) × (r ≡ ok reply)
unfolding bind_result pure
done_of t (ok reply) h = (reply, refl)
done_of t (err e) h = absurd cc

same_trace :
    (t : HostTrace) (r : Result HostFault HostReply) → (bind_result (r, t) (λ _. pure tt)).1 ≡ t
unfolding bind_result pure
same_trace t (ok reply) = refl
same_trace t (err e) = refl

pub must-Ends : (env : HostEnv) (c : HostCall) → Ends (LastWorked c) (must env c)
unfolding must ask ◌>>=◌
must-Ends env c = record {
  reached = λ t u h.
      let t' : HostTrace = record { call = c; reply = env t c } ∷ t in
      let r = host_outcome c (env t c) (env t c).failed in
      let (reply, worked) = done_of t' r h in
      rw (same_trace t' r) (refl, outcome_worked c (env t c) (env t c).failed reply worked);
}
