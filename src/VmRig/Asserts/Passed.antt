-- ===== src/VmRig/Asserts/Passed.antt =====
-- What a passed test has measured.
use natra.Base.{
  ◌≡◌, refl, inl, ◌≤◌, ◌/◌, Bool, true, false, not, ltb, Option, none, some, List, [], ◌∷◌, Text,
  codes, arith,
}
use natra.Base.Result.{Result, ok, err}
use natra.Base.State.{bind_result, pure, throw, ◌>>=◌, ◌>>◌}
use natra.Base.State.Rules.{Keeps, then-Keeps}
use natra.Base.State.Ends.{Ends, bind-Ends, then-Ends, first_then-Ends}
use natra.Host.{
  Host, HostEnv, HostTrace, HostCall, HostReply, HostEvent, HostFault, above_cap, below_floor,
  slow_requests, failed_requests, capture_kubectl, trim_right, host_outcome, ask, require_that,
}
use natra.Rig.Cluster.{RigFault, words}
use natra.Rig.Executor.{Readings}
use natra.Rig.Executor.Mixed.{HeyResult, parse_hey_csv}
use natra.VmRig.{Config}
use natra.VmRig.Asserts.Keeps.{
  Some, IsWithin, IsFast, assert_within-Keeps, measure-Keeps, test_egress_only-Keeps,
  assert_hey-Keeps, test_hey_fast_pass-Keeps,
}
use natra.VmRig.Asserts.{
  Limits, measure_args, hey_args, assert_within, measure, test_iperf_throttle, test_egress_only,
  assert_requests, assert_hey, test_hey_fast_pass, cmd_test,
}

module _ (env : HostEnv) (rd : Readings) (limits : Limits rd) (c : Config) where
  required :
      (b : Bool) (e : HostFault) (k : Host (Unit {0})) (t : HostTrace)
      → (bind_result (require_that b e t) (λ _. k)).0 ≡ ok tt
      → (b ≡ true) × ((k t).0 ≡ ok tt)
  unfolding require_that bind_result pure throw
  required true e k t h = (refl, h)
  required false e k t h = absurd cc

  required_last :
      (b : Bool) (e : HostFault) (t : HostTrace) → (require_that b e t).0 ≡ ok tt → b ≡ true
  unfolding require_that pure throw
  required_last true e t h = refl
  required_last false e t h = absurd cc

  of_not : (b : Bool) → not b ≡ true → b ≡ false
  of_not true h = absurd cc
  of_not false h = refl

  within_of :
      (label : Text) (o : Option rd.F) (t : HostTrace)
      → (assert_within env rd limits label o t).0 ≡ ok tt
      → (bps : rd.F) × (o ≡ some bps)
        × (limits.exceeds_cap bps ≡ false)
        × (limits.is_below_floor bps ≡ false)
  unfolding assert_within throw ◌>>=◌ ◌>>◌
  within_of label none t h = absurd cc
  within_of label (some bps) t h =
      let (capped, rest) = required (not (limits.exceeds_cap bps)) (above_cap label) _ t h in
      let floored = required_last (not (limits.is_below_floor bps)) (below_floor label) t rest in
      (bps, refl, of_not _ capped, of_not _ floored)

  fast_of :
      (r : Result RigFault (HeyResult rd)) (t : HostTrace)
      → (assert_hey env rd limits r t).0 ≡ ok tt
      → (res : HeyResult rd) × (r ≡ ok res)
        × (3000 ≤ res.succeeded)
        × (res.errors ≤ res.succeeded / 10)
  unfolding assert_hey assert_requests throw ◌>>=◌ ◌>>◌
  fast_of (err e) t h = absurd cc
  fast_of (ok res) t h =
      let (served, rest) = required (not (ltb res.succeeded 3000)) slow_requests _ t h in
      let few = required_last (not (ltb (res.succeeded / 10) res.errors)) failed_requests t rest in
      (res, refl, ground arith, ground arith)

  -- A call that a computation looks at.
  asked :
      (Q : HostTrace → Type 0) (call : HostCall) (t : HostTrace) (reply : HostReply) (failed : Bool)
      (k : HostReply → Host (Unit {0}))
      → ((k reply t).0 ≡ ok tt → Q (k reply t).1)
      → (bind_result (host_outcome call reply failed, t) k).0 ≡ ok tt
      → Q (bind_result (host_outcome call reply failed, t) k).1
  unfolding bind_result
  asked Q call t reply true k hk h = absurd cc
  asked Q call t reply false k hk h = hk h

  measure-Ends :
      (label server : Text) (flag : List Text)
      → Ends (Some (IsWithin rd limits c server flag)) (measure env rd limits c label server flag)
  unfolding measure ask ◌>>=◌
  measure-Ends label server flag = record {
    reached = λ t u h.
        let call = capture_kubectl c.kubeconfig_path (measure_args server flag) in
        let r = env t call in
        let t' : HostTrace = record { call = call; reply = r } ∷ t in
        let read = rd.received_bps (trim_right r.output) in
        asked (Some (IsWithin rd limits c server flag)) call t' r r.failed _
          (λ passed.
            let (bps, known, capped, floored) = within_of label read t' passed in
            (assert_within-Keeps env rd limits c (IsWithin rd limits c server flag) label
                read).after
              t'
              (inl (record {
                measured = refl;
                bps = bps;
                read = known;
                within_cap = capped;
                above_floor = floored;
              })))
          h;
  }

  hey-Ends : Ends (Some (IsFast rd limits c)) (
      ask env (capture_kubectl c.kubeconfig_path hey_args) >>= λ out.
      assert_hey env rd limits (parse_hey_csv rd (trim_right out.output)))
  unfolding ask ◌>>=◌
  hey-Ends = record {
    reached = λ t u h.
        let call = capture_kubectl c.kubeconfig_path hey_args in
        let r = env t call in
        let t' : HostTrace = record { call = call; reply = r } ∷ t in
        let parsed = parse_hey_csv rd (trim_right r.output) in
        asked (Some (IsFast rd limits c)) call t' r r.failed _
          (λ passed.
            let (result, known, served, few) = fast_of parsed t' passed in
            (assert_hey-Keeps env rd limits c (IsFast rd limits c) parsed).after t' (
              inl (record {
                ran = refl;
                result = result;
                parsed = known;
                served = served;
                few_errors = few;
              })))
          h;
  }

  -- The ingress direction of the throttle test, and the egress one.
  abbrev pub IngressWithin : HostTrace → Type 0
  IngressWithin = Some (IsWithin rd limits c (codes "iperf-server") [])

  abbrev pub EgressWithin : HostTrace → Type 0
  EgressWithin = Some (IsWithin rd limits c (codes "iperf-server") (words "-R"))

  abbrev pub EgressOnlyWithin : HostTrace → Type 0
  EgressOnlyWithin = Some (IsWithin rd limits c (codes "iperf-server-egress") (words "-R"))

  -- What stands before the two measurements of the throttle test does not matter.
  throttle-Ends :
      {Q : HostTrace → Type 0}
      → Ends Q (
          measure env rd limits c (codes "iperf/ingress") (codes "iperf-server") []
          >> measure env rd limits c (codes "iperf/egress") (codes "iperf-server") (words "-R"))
      → Ends Q (test_iperf_throttle env rd limits c)
  unfolding test_iperf_throttle
  throttle-Ends h = bind-Ends _ (λ client. then-Ends _ (
      bind-Ends _
        (λ server. then-Ends _ (then-Ends _ (then-Ends _ (then-Ends _ (then-Ends _ h)))))))

  egress_only-Ends : Ends EgressOnlyWithin (test_egress_only env rd limits c)
  unfolding test_egress_only
  egress_only-Ends = bind-Ends _ (λ m. then-Ends _ (then-Ends _ (then-Ends _ (measure-Ends _ _ _))))

  mice-Ends : Ends (Some (IsFast rd limits c)) (test_hey_fast_pass env rd limits c)
  unfolding test_hey_fast_pass
  mice-Ends = then-Ends _ (then-Ends _ (then-Ends _ hey-Ends))

  -- From the three tests to the command.
  command-Ends :
      {Q : HostTrace → Type 0}
      → Ends Q (
          test_iperf_throttle env rd limits c
          >> (test_egress_only env rd limits c >> test_hey_fast_pass env rd limits c))
      → Ends Q (cmd_test env rd limits c)
  unfolding cmd_test
  command-Ends h = bind-Ends _ (λ up. then-Ends _ (then-Ends _ h))

  later-Keeps :
      (P : HostEvent → Type 0)
      → Keeps (Some P) (test_egress_only env rd limits c >> test_hey_fast_pass env rd limits c)
  later-Keeps P =
      then-Keeps (test_egress_only-Keeps env rd limits c P)
        (test_hey_fast_pass-Keeps env rd limits c P)

-- The rig's test passes on evidence only: where it ends well, it has measured the annotated server in both directions and
-- the egress-only server in reverse, each neither above the cap nor below the floor, and a run of hey with at least 3000
-- requests in 15 seconds, with at most a tenth as many errors.
pub cmd_test-measured :
    (env : HostEnv) (rd : Readings) (limits : Limits rd) (c : Config) (t : HostTrace)
    → (cmd_test env rd limits c t).0 ≡ ok tt
    → let t' = (cmd_test env rd limits c t).1 in
      IngressWithin env rd limits c t'
      × EgressWithin env rd limits c t'
      × EgressOnlyWithin env rd limits c t'
      × Some (IsFast rd limits c) t'
cmd_test-measured env rd limits c t h = (
  (command-Ends env rd limits c (
        first_then-Ends
          (throttle-Ends env rd limits c (
            first_then-Ends (measure-Ends env rd limits c _ _ _)
              (measure-Keeps env rd limits c _ _ _ _)))
          (later-Keeps env rd limits c _))).reached
      t tt h,
  (command-Ends env rd limits c (
        first_then-Ends
          (throttle-Ends env rd limits c (then-Ends _ (measure-Ends env rd limits c _ _ _)))
          (later-Keeps env rd limits c _))).reached
      t tt h,
  (command-Ends env rd limits c (
        then-Ends _ (
          first_then-Ends (egress_only-Ends env rd limits c)
            (test_hey_fast_pass-Keeps env rd limits c _)))).reached
      t tt h,
  (command-Ends env rd limits c (then-Ends _ (then-Ends _ (mice-Ends env rd limits c)))).reached t
      tt h,
)
