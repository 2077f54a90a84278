-- ===== src/Rig/Executor/Iperf/Reach.antt =====
-- The poll before a measurement ends.
use natra.Base.{
  ℕ, zero, suc, ◌+◌, ◌*◌, ◌≤◌, ◌≡◌, ◌⊎◌, inl, inr, refl, Bool, true, false, Option, none, some,
  List, ◌∷◌, length, if◌then◌else◌, Text, arith,
}
use natra.Base.Result.{Result, ok, err}
use natra.Base.State.{bind_result, pure, throw, catch, ◌>>=◌, ◌>>◌}
use natra.Rig.Cluster.{
  Rig, RigTrace, RigEnv, RigFault, unreachable, sleep, ask, ignore, capture_kubectl,
}
use natra.Rig.Cluster.Loops.{poll}
use natra.Rig.Executor.{Readings}
use natra.Rig.Executor.Stage.{in_client, iperf_measure, read_bps, require_that}
use natra.Rig.Executor.Iperf.{try_reach, wait_iperf_reachable}

-- A computation that gives a Boolean, whatever the calls return, in at most `calls` calls.
abbrev Decides : ℕ → Rig Bool → Type 0
Decides calls m =
    (t : RigTrace) → ((b : Bool) × ((m t).0 ≡ ok b)) × (length (m t).1 ≤ length t + calls)

module _ (env : RigEnv) where
  poll_round :
      (left : ℕ) (attempt : Rig Bool) (t : RigTrace) (r : Result RigFault Bool) (t' : RigTrace)
      → ((b : Bool) × (r ≡ ok b))
      → length t' ≤ length t + 1
      → Decides (left * 2) (poll env left attempt)
      → let out =
          bind_result
            (r, t')
            (λ done.
              if done then pure true else (ignore env (sleep 2000) >> poll env left attempt)) in
        ((b : Bool) × (out.0 ≡ ok b)) × (length out.1 ≤ length t + suc left * 2)
  unfolding bind_result pure ignore ◌>>◌ ◌>>=◌
  poll_round left attempt t (err e) t' (b, h) grown ih = absurd cc
  poll_round left attempt t (ok true) t' h grown ih = ((true, refl), omega arith)
  poll_round left attempt t (ok false) t' h grown ih =
      let rest = ih (record { call = sleep 2000; reply = env t' (sleep 2000) } ∷ t') in
      (rest.0, omega (arith, rest.1))

  poll-Decides :
      (left : ℕ) (attempt : Rig Bool)
      → Decides 1 attempt
      → Decides (left * 2) (poll env left attempt)
  unfolding poll pure ◌>>=◌
  poll-Decides zero attempt h t = ((false, refl), omega arith)
  poll-Decides (suc left) attempt h t =
      poll_round left attempt t (attempt t).0 (attempt t).1 (h t).0 (h t).1
        (poll-Decides left attempt h)

  module _ (rd : Readings) where
    read_length : (o : Option rd.F) (t : RigTrace) → length (read_bps env rd o t).1 ≡ length t
    unfolding read_bps pure throw
    read_length none t = refl
    read_length (some bps) t = refl

    read_result_length :
        (r : Result RigFault Text) (t : RigTrace)
        → length (bind_result (r, t) (λ out. read_bps env rd (rd.received_bps out))).1 ≡ length t
    unfolding bind_result
    read_result_length (err e) t = refl
    read_result_length (ok out) t = read_length (rd.received_bps out) t

    measure_length :
        (ns : Text) (command : List Text) (t : RigTrace)
        → length (iperf_measure env rd ns command t).1 ≤ length t + 1
    unfolding iperf_measure ask ◌>>=◌
    measure_length ns command t =
        let c = capture_kubectl (in_client ns command) in
        omega (arith, read_result_length (ask env c t).0 (ask env c t).1)

    try_reach-Decides : (ns target : Text) → Decides 1 (try_reach env rd ns target)
    unfolding try_reach catch pure ◌>>=◌ bind_result
    try_reach-Decides ns target t = ((_, refl), measure_length ns _ t)

    settled :
        (target : Text) (b : Bool) (t : RigTrace)
        → ((require_that b (unreachable target) t).0 ≡ ok tt)
          ⊎ ((require_that b (unreachable target) t).0 ≡ err (unreachable target))
    unfolding require_that pure throw
    settled target true t = inl refl
    settled target false t = inr refl

    require_length :
        (b : Bool) (e : RigFault) (t : RigTrace) → length (require_that b e t).1 ≡ length t
    unfolding require_that pure throw
    require_length true e t = refl
    require_length false e t = refl

    after_poll :
        (target : Text) (r : Result RigFault Bool) (t : RigTrace)
        → ((b : Bool) × (r ≡ ok b))
        → let out = bind_result (r, t) (λ reached. require_that reached (unreachable target)) in
          ((out.0 ≡ ok tt) ⊎ (out.0 ≡ err (unreachable target))) × (length out.1 ≡ length t)
    unfolding bind_result
    after_poll target (err e) t (b, h) = absurd cc
    after_poll target (ok b) t h = (settled target b t, require_length b (unreachable target) t)

-- Whatever the calls return, the wait for a pod ends after at most 60 calls, pauses included, and it
-- ends well or with the error that names the pod: a failing kubectl and output that is no JSON count
-- as a failed try.
wait_iperf_reachable_ends :
    (env : RigEnv) (rd : Readings) (ns target : Text) (t : RigTrace)
    → let out = wait_iperf_reachable env rd ns target t in
      ((out.0 ≡ ok tt) ⊎ (out.0 ≡ err (unreachable target))) × (length out.1 ≤ length t + 60)
unfolding wait_iperf_reachable ◌>>=◌
wait_iperf_reachable_ends env rd ns target t =
    let polled =
      poll-Decides env 30 (try_reach env rd ns target) (try_reach-Decides env rd ns target) t in
    let (ends, same) =
      after_poll env rd target (poll env 30 (try_reach env rd ns target) t).0
        (poll env 30 (try_reach env rd ns target) t).1 polled.0 in
    (ends, omega (arith, same, polled.1))
