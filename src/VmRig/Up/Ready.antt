-- ===== src/VmRig/Up/Ready.antt =====
-- The wait for the nodes ends, with an answer that shows them.
use natra.Base.{
  ℕ, zero, suc, ◌+◌, ◌*◌, ◌≤◌, ◌<◌, ◌≡◌, ◌⊎◌, inl, inr, refl, Bool, true, false, Bool-cases, [],
  ◌∷◌, leb, leb→le, length, if◌then◌else◌, Text, arith,
}
use natra.Base.Result.{Result, ok, err}
use natra.Base.State.{bind_result, pure, throw, catch, ◌>>=◌, ◌>>◌}
use natra.Host.{
  Host, HostEnv, HostTrace, HostCall, HostReply, HostFault, not_ready, capture_kubectl, sleep,
  host_outcome, ask, try_ask, ignore,
}
use natra.VmRig.{Config}
use natra.VmRig.Up.{
  ready_nodes, shown_ready, is_enough, nodes_args, wait_nodes, wait_for_nodes_ready,
}

-- The last call listed the nodes, and its answer shows enough of them as ready.
abbrev pub ShowsReady : Text → ℕ → HostTrace → Type 0
ShowsReady kubeconfig want [] = ⊥
ShowsReady kubeconfig want (event ∷ t) =
    (event.call ≡ capture_kubectl kubeconfig nodes_args)
    × (event.reply.failed ≡ false)
    × (want ≤ ready_nodes event.reply.output)

-- How a wait from `t` on may end.
abbrev pub Waited : Text → ℕ → ℕ → HostTrace → Result HostFault (Unit {0}) × HostTrace → Type 0
Waited kubeconfig want calls t (r, t') =
    (((r ≡ ok tt) × ShowsReady kubeconfig want t')
      ⊎ ((n : ℕ) × (r ≡ err (not_ready n)) × (n < want)))
    × (length t' ≤ length t + calls)

module _ (env : HostEnv) (kubeconfig : Text) (want : ℕ) where
  abbrev list_nodes : HostCall
  list_nodes = capture_kubectl kubeconfig nodes_args

  abbrev paused : HostTrace → HostTrace
  paused t = record { call = sleep 2000; reply = env t (sleep 2000) } ∷ t

  -- What follows an answer.
  abbrev after_reply : ℕ → ℕ → Result HostFault HostReply → Host (Unit {0})
  after_reply left last r =
      if is_enough want r
      then pure tt
      else (ignore env (sleep 2000) >> wait_nodes env kubeconfig want (shown_ready last r) left)

  abbrev Waits : ℕ → Type 0
  Waits left =
      (last : ℕ) (t : HostTrace)
      → last < want
      → Waited kubeconfig want (left * 2) t (wait_nodes env kubeconfig want last left t)

  below_of_leb : (n : ℕ) → leb want n ≡ false → n < want
  below_of_leb n h = ground arith

  after_answer :
      (left last : ℕ) (t : HostTrace) (reply : HostReply) (failed : Bool)
      → reply.failed ≡ failed
      → last < want
      → Waits left
      → Waited kubeconfig want (suc left * 2) t (
          after_reply left last
            (host_outcome list_nodes reply failed)
            (record { call = list_nodes; reply = reply } ∷ t))
  unfolding is_enough shown_ready ignore bind_result ◌>>=◌ ◌>>◌ pure
  after_answer left last t reply true e h ih =
      let t' : HostTrace = record { call = list_nodes; reply = reply } ∷ t in
      let (ends, calls) = ih last (paused t') h in (ends, omega (arith, calls))
  after_answer left last t reply false e h ih =
      elim (Bool-cases (leb want (ready_nodes reply.output))) [
        | inl enough ↦ rw enough (inl (refl, (refl, e, leb→le want _ enough)), omega arith)
        | inr few ↦
            let t' : HostTrace = record { call = list_nodes; reply = reply } ∷ t in
            let (ends, calls) =
              ih (ready_nodes reply.output) (paused t')
                (below_of_leb (ready_nodes reply.output) few) in
            rw few (ends, omega (arith, calls))
      ]

  wait_nodes-Waits : (left : ℕ) → Waits left
  unfolding wait_nodes throw try_ask ask catch bind_result ◌>>=◌
  wait_nodes-Waits zero last t h = (inr (last, refl, h), omega arith)
  wait_nodes-Waits (suc left) last t h =
      after_answer left last t (env t list_nodes) (env t list_nodes).failed refl h
        (wait_nodes-Waits left)

-- Whatever kubectl returns, the wait for at least one node ends after at most two calls an attempt, pauses included. It ends
-- well only on an answer that shows enough nodes as ready; otherwise it ends with the error that counts fewer.
pub wait_for_nodes_ready-ends :
    (env : HostEnv) (c : Config) (want attempts : ℕ) (t : HostTrace)
    → 0 < want
    → Waited c.kubeconfig_path want (attempts * 2) t (wait_for_nodes_ready env c want attempts t)
unfolding wait_for_nodes_ready
wait_for_nodes_ready-ends env c want attempts t h =
    wait_nodes-Waits env c.kubeconfig_path want attempts 0 t h
